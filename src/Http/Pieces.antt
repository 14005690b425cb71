-- ===== src/Http/Pieces.antt =====
-- What a connection delivers in pieces, and one read of it.
use mathlib.Core.List.{append_assoc}
use looka.Common.{
  ℕ, zero, suc, ◌-◌, ◌<◌, ◌≤◌, ◌≢◌, List, [], ◌∷◌, ◌++◌, some, leb, length, take, drop, All, ◌≡◌,
  refl, ap, sym, ◌∙◌, arith, Bool-cases, inl, inr, length-append, length-take, length-drop,
  take-append-drop,
}
use looka.Common.Bytes.{Bytes}
use looka.File.{until_zero}
use looka.Http.Server.{read_once, chunk_bytes}

-- Pieces that are not empty and have no zero byte, which would end the C string of a piece.
unfoldable pub ArePieces : List Bytes → Type 0
ArePieces = All (λ c. (c ≢ []) × All (λ b. b ≢ 0) c)

-- All that a connection delivers.
unfoldable pub stream : List Bytes → Bytes
stream [] = []
stream (c ∷ cs) = c ++ stream cs

pub length-stream : (cs : List Bytes) → length (stream cs) ≡ chunk_bytes cs
unfolding stream chunk_bytes
length-stream [] = refl
length-stream (c ∷ cs) = omega (arith, length-append c (stream cs), length-stream cs)

-- One read: a part of the stream, of one byte at least and of `n` at most.
pub record IsPart (n : ℕ) (chunks : List Bytes) : Type 0 where
  pub buf : Bytes
  pub rest : List Bytes
  pub read : read_once n chunks ≡ some (buf, rest)
  pub some_read : 0 < length buf
  pub at_most : length buf ≤ n
  pub whole : stream chunks ≡ buf ++ stream rest
  pub nonzero : until_zero buf ≡ buf
  pub pieces : ArePieces rest

until_zero-nonzero : (s : Bytes) → All (λ b. b ≢ 0) s → until_zero s ≡ s
unfolding until_zero
until_zero-nonzero [] h = refl
until_zero-nonzero (c ∷ s) h = ground (arith, h.0, until_zero-nonzero s h.1)

All-take : (n : ℕ) (s : Bytes) → All (λ b. b ≢ 0) s → All (λ b. b ≢ 0) (take n s)
All-take zero s h = tt
All-take (suc n) [] h = tt
All-take (suc n) (c ∷ s) h = (h.0, All-take n s h.1)

All-drop : (n : ℕ) (s : Bytes) → All (λ b. b ≢ 0) s → All (λ b. b ≢ 0) (drop n s)
All-drop zero s h = h
All-drop (suc n) [] h = tt
All-drop (suc n) (c ∷ s) h = All-drop n s h.1

drop-nonempty : (n : ℕ) (s : Bytes) → n < length s → drop n s ≢ []
drop-nonempty n s h = λ e.
    let none_left : length (drop n s) ≡ 0 = ap length e in
    absurd (omega (arith, length-drop n s, none_left))

pub read_once-IsPart :
    (n : ℕ) (chunks : List Bytes)
    → 0 < n
    → ArePieces chunks
    → 0 < chunk_bytes chunks
    → IsPart n chunks
unfolding ArePieces chunk_bytes
read_once-IsPart n [] h pieces some_left = absurd (omega arith)
read_once-IsPart n ([] ∷ chunks) h pieces some_left = absurd (pieces.0.0 refl)
read_once-IsPart n ((c ∷ cs) ∷ chunks) h pieces some_left =
    elim (Bool-cases (leb (length (c ∷ cs)) n)) [
      | inl fits ↦ record {
        buf = c ∷ cs;
        rest = chunks;
        read = unfold read_once in rw (fits) refl;
        some_read = omega arith;
        at_most = ground (arith, fits);
        whole = unfold stream in refl;
        nonzero = until_zero-nonzero (c ∷ cs) pieces.0.1;
        pieces = pieces.1;
      }
      | inr long ↦
          let longer : n < length (c ∷ cs) = ground (arith, long) in
          record {
            buf = take n (c ∷ cs);
            rest = drop n (c ∷ cs) ∷ chunks;
            read = unfold read_once in rw (long) refl;
            some_read = omega (arith, length-take n (c ∷ cs));
            at_most = omega (arith, length-take n (c ∷ cs));
            whole =
                unfold stream in
                ap (λ s. s ++ stream chunks) (sym (take-append-drop n (c ∷ cs)))
                ∙ append_assoc (take n (c ∷ cs)) (drop n (c ∷ cs)) (stream chunks);
            nonzero = until_zero-nonzero (take n (c ∷ cs)) (All-take n (c ∷ cs) pieces.0.1);
            pieces = ((drop-nonempty n (c ∷ cs) longer, All-drop n (c ∷ cs) pieces.0.1), pieces.1);
          }
    ]

pub take-append_more :
    (n : ℕ) (xs ys : Bytes) → length xs ≤ n → take n (xs ++ ys) ≡ xs ++ take (n - length xs) ys
take-append_more n [] ys h = let e : n ≡ n - 0 = omega arith in ap (λ k. take k ys) e
take-append_more zero (x ∷ xs) ys h = absurd (omega arith)
take-append_more (suc n) (x ∷ xs) ys h =
    let e : n - length xs ≡ suc n - suc (length xs) = omega arith in
    ap (◌∷◌ x) (take-append_more n xs ys (omega arith) ∙ ap (λ k. xs ++ take k ys) e)
