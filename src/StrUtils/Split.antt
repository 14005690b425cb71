-- ===== src/StrUtils/Split.antt =====
-- `splitString` recovers the pieces that a separator joins.
use mathlib.Core.List.{append-nil, append_assoc}
use looka.Common.{ℕ, List, [], ◌∷◌, ◌++◌, map, All, ◌≡◌, ◌≢◌, refl, sym, ap, ◌∙◌, arith}
use looka.Common.Bytes.{Bytes}
use looka.StrUtils.{split_loop, split_string, trim}

-- The pieces with the separator between them.
abbrev pub join : ℕ → List Bytes → Bytes
join ch [] = []
join ch (p ∷ []) = p
join ch (p ∷ q ∷ ps) = p ++ (ch ∷ join ch (q ∷ ps))

-- A piece holds neither the separator nor a NUL byte.
abbrev pub IsPiece : ℕ → Bytes → Type 0
IsPiece ch = All (λ c. (c ≢ ch) × (c ≢ 0))

-- The last piece is not empty: `splitString` drops an empty one.
abbrev pub EndsFull : List Bytes → Type 0
EndsFull [] = Unit
EndsFull (p ∷ []) = p ≢ []
EndsFull (p ∷ q ∷ ps) = EndsFull (q ∷ ps)

module _ (ch : ℕ) where
  split_loop-piece :
      (p cur rest : Bytes)
      → IsPiece ch p
      → split_loop ch cur (p ++ rest) ≡ split_loop ch (cur ++ p) rest
  split_loop-piece [] cur rest h = ap (λ c. split_loop ch c rest) (sym (append-nil cur))
  split_loop-piece (x ∷ p) cur rest h =
      step
      ∙ split_loop-piece p (cur ++ (x ∷ [])) rest h.1
      ∙ ap (λ c. split_loop ch c rest) (append_assoc cur (x ∷ []) p)
    where
      step : split_loop ch cur (x ∷ (p ++ rest)) ≡ split_loop ch (cur ++ (x ∷ [])) (p ++ rest)
      step = unfold split_loop in ground (arith, h.0.0, h.0.1)

  split_loop_cut :
      (cur rest : Bytes) → ch ≢ 0 → split_loop ch cur (ch ∷ rest) ≡ trim cur ∷ split_loop ch [] rest
  unfolding split_loop
  split_loop_cut cur rest h = ground arith

  split_loop_end : (cur : Bytes) → cur ≢ [] → split_loop ch cur [] ≡ trim cur ∷ []
  unfolding split_loop
  split_loop_end [] h = absurd (h refl)
  split_loop_end (c ∷ cur) h = refl

  -- Splitting gives back the pieces that were joined, each trimmed, if the separator is not NUL,
  -- no piece holds it or a NUL, and the last piece is not empty.
  pub split_string-join :
      (ps : List Bytes)
      → ch ≢ 0
      → All (IsPiece ch) ps
      → EndsFull ps
      → split_string (join ch ps) ch ≡ map trim ps
  unfolding split_string
  split_string-join [] h pieces full = unfold split_loop in refl
  split_string-join (p ∷ []) h pieces full =
      ap (split_loop ch []) (sym (append-nil p))
      ∙ split_loop-piece p [] [] pieces.0
      ∙ split_loop_end p full
  split_string-join (p ∷ q ∷ ps) h pieces full =
      split_loop-piece p [] (ch ∷ join ch (q ∷ ps)) pieces.0
      ∙ split_loop_cut p (join ch (q ∷ ps)) h
      ∙ ap (◌∷◌ (trim p)) (split_string-join (q ∷ ps) h pieces.1 full)
