-- ===== src/StrUtils/Trim.antt =====
-- What the trimming loops of the program return, against the plain removal of the bytes at both
-- ends.
use looka.Common.{
  ℕ, [], ◌∷◌, Bool, true, false, if◌then◌else◌, is_empty, ◌≡◌, ◌≢◌, refl, ap, arith, Bool-cases,
  inl, inr, ◌∙◌,
}
use looka.Common.Bytes.{Bytes}
use looka.StrUtils.{ltrim_by, rtrim_by, trim_by, drop_end, drop_while}

-- The string without the bytes of `p` at either end.
unfoldable pub strip : (ℕ → Bool) → Bytes → Bytes
unfolding drop_end drop_while
strip p s = drop_end p (drop_while p s)

abbrev pub last_byte : Bytes → Bytes
last_byte [] = []
last_byte (x ∷ []) = x ∷ []
last_byte (x ∷ y ∷ s) = last_byte (y ∷ s)

module _ (p : ℕ → Bool) where
  ltrim_by_lem :
      (s : Bytes)
      → ltrim_by p s ≡ (if is_empty (drop_while p s) then last_byte s else drop_while p s)
  unfolding ltrim_by drop_while
  ltrim_by_lem [] = refl
  ltrim_by_lem (x ∷ []) = ground arith
  ltrim_by_lem (x ∷ y ∷ s) = ground (arith, ltrim_by_lem (y ∷ s))

  -- A string that does not begin with a byte of `p` is trimmed at its end in full.
  abbrev Starts : Bytes → Type 0
  Starts [] = Unit
  Starts (x ∷ s) = p x ≡ false

  drop_while-Starts : (s : Bytes) → Starts (drop_while p s)
  unfolding drop_while
  drop_while-Starts [] = tt
  drop_while-Starts (x ∷ s) = elim (Bool-cases (p x)) [
    | inl blank ↦ rw blank (drop_while-Starts s)
    | inr kept ↦ rw kept kept
  ]

  rtrim_by-Starts : (s : Bytes) → Starts s → rtrim_by p s ≡ drop_end p s
  unfolding rtrim_by
  rtrim_by-Starts [] h = refl
  rtrim_by-Starts (x ∷ s) h = ground (arith, h)

  rtrim_by-last_byte : (s : Bytes) → rtrim_by p (last_byte s) ≡ last_byte s
  unfolding rtrim_by
  rtrim_by-last_byte [] = refl
  rtrim_by-last_byte (x ∷ []) = refl
  rtrim_by-last_byte (x ∷ y ∷ s) = rtrim_by-last_byte (y ∷ s)

  rtrim_by-choice :
      (s : Bytes) (b : Bool)
      → rtrim_by p (if b then last_byte s else drop_while p s)
        ≡ (if b then last_byte s else strip p s)
  unfolding strip
  rtrim_by-choice s true = rtrim_by-last_byte s
  rtrim_by-choice s false = rtrim_by-Starts (drop_while p s) (drop_while-Starts s)

  ltrim_by-rtrim_by : (s : Bytes) → s ≢ [] → rtrim_by p (ltrim_by p s) ≢ []
  unfolding ltrim_by rtrim_by
  ltrim_by-rtrim_by [] h = λ e. h refl
  ltrim_by-rtrim_by (x ∷ []) h = λ e. cc
  ltrim_by-rtrim_by (x ∷ y ∷ s) h = ground (arith, ltrim_by-rtrim_by (y ∷ s) (λ e. cc))

  -- `Trim` strips both ends, but of a string that is blank throughout it leaves the last byte.
  pub trim_by-strip :
      (s : Bytes) → trim_by p s ≡ (if is_empty (drop_while p s) then last_byte s else strip p s)
  unfolding trim_by strip
  trim_by-strip [] = refl
  trim_by-strip (x ∷ s) =
      ap (rtrim_by p) (ltrim_by_lem (x ∷ s))
      ∙ rtrim_by-choice (x ∷ s) (is_empty (drop_while p (x ∷ s)))

  -- It never makes a string empty.
  pub trim_by-ne-nil : (s : Bytes) → s ≢ [] → trim_by p s ≢ []
  unfolding trim_by rtrim_by
  trim_by-ne-nil [] h = λ e. h refl
  trim_by-ne-nil (x ∷ s) h = ltrim_by-rtrim_by (x ∷ s) h
