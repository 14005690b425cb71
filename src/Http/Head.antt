-- ===== src/Http/Head.antt =====
-- The header of a request, whatever pieces the network delivers it in.
use mathlib.Core.Path.{subst}
use mathlib.Core.List.{append-nil, append_assoc}
use looka.Common.{
  ℕ, zero, suc, ◌+◌, ◌<◌, ◌≤◌, List, [], ◌∷◌, ◌++◌, Option, none, some, true, false, length, take,
  drop, ◌≡◌, refl, ap, sym, ◌∙◌, arith, length-drop, Bool-cases, Option-cases, inl, inr,
}
use looka.Common.Bytes.{Bytes, find, starts_with}
use looka.Common.Result.{Result, ok, fault, stuck}
use looka.Http.Content.{bytes_left}
use looka.Http.Pieces.{ArePieces, stream, IsPart, read_once-IsPart}
use looka.Http.Reply.{crlf}
use looka.Http.Server.{read_once, chunk_bytes, read_buf_size, read_header}

starts_with-append :
    (p xs ys : Bytes) → length p ≤ length xs → starts_with p (xs ++ ys) ≡ starts_with p xs
starts_with-append [] xs ys h = refl
starts_with-append (c ∷ p) [] ys h = absurd (omega arith)
starts_with-append (c ∷ p) (x ∷ xs) ys h = rw (starts_with-append p xs ys (omega arith)) refl

starts_with-le : (p xs : Bytes) → starts_with p xs ≡ true → length p ≤ length xs
starts_with-le [] xs h = omega arith
starts_with-le (c ∷ p) [] h = cc
starts_with-le (c ∷ p) (x ∷ xs) h = ground (arith, h, starts_with-le p xs)

find-starts : (p xs : Bytes) → starts_with p xs ≡ true → find p xs ≡ some 0
find-starts p [] h = rw (h) refl
find-starts p (x ∷ xs) h = rw (h) refl

-- Behind a byte at which the pattern does not stand, the search goes on.
find-skip :
    (p : Bytes) (x : ℕ) (xs : Bytes) (k : ℕ)
    → starts_with p (x ∷ xs) ≡ false
    → find p (x ∷ xs) ≡ some k
    → (j : ℕ) × (k ≡ suc j) × (find p xs ≡ some j)
find-skip p x xs k miss h = elim (Option-cases (find p xs)) [
  | inl none_there ↦ absurd (ground (arith, miss, h, none_there))
  | inr (j, there) ↦ (j, ground (arith, miss, h, there), there)
]

find-le : (p xs : Bytes) (k : ℕ) → find p xs ≡ some k → k + length p ≤ length xs
find-le p [] k h = elim (Bool-cases (starts_with p [])) [
  | inl here ↦ ground (arith, here, h, starts_with-le p [] here)
  | inr miss ↦ absurd (ground (arith, miss, h))
]
find-le p (x ∷ xs) k h = elim (Bool-cases (starts_with p (x ∷ xs))) [
  | inl here ↦ ground (arith, here, h, starts_with-le p (x ∷ xs) here)
  | inr miss ↦
      let (j, e, there) = find-skip p x xs k miss h in omega (arith, e, find-le p xs j there)
]

find-append : (p xs ys : Bytes) (k : ℕ) → find p xs ≡ some k → find p (xs ++ ys) ≡ some k
find-append p [] ys k h = elim (Bool-cases (starts_with p [])) [
  | inl here ↦
      find-starts p ys (starts_with-append p [] ys (starts_with-le p [] here) ∙ here)
      ∙ ground (arith, here, h)
  | inr miss ↦ absurd (ground (arith, miss, h))
]
find-append p (x ∷ xs) ys k h =
    let long = find-le p (x ∷ xs) k h in
    let same : starts_with p (x ∷ (xs ++ ys)) ≡ starts_with p (x ∷ xs) =
      starts_with-append p (x ∷ xs) ys (omega (arith, long)) in
    elim (Bool-cases (starts_with p (x ∷ xs))) [
      | inl here ↦ find-starts p (x ∷ (xs ++ ys)) (same ∙ here) ∙ ground (arith, here, h)
      | inr miss ↦
          let (j, e, there) = find-skip p x xs k miss h in
          rw (same, miss, find-append p xs ys j there, e) refl
    ]

take-append_in : (n : ℕ) (xs ys : Bytes) → n ≤ length xs → take n (xs ++ ys) ≡ take n xs
take-append_in zero xs ys h = refl
take-append_in (suc n) [] ys h = absurd (omega arith)
take-append_in (suc n) (x ∷ xs) ys h = ap (◌∷◌ x) (take-append_in n xs ys (omega arith))

drop-append_in : (n : ℕ) (xs ys : Bytes) → n ≤ length xs → drop n (xs ++ ys) ≡ drop n xs ++ ys
drop-append_in zero xs ys h = refl
drop-append_in (suc n) [] ys h = absurd (omega arith)
drop-append_in (suc n) (x ∷ xs) ys h = drop-append_in n xs ys (omega arith)

-- The header with its empty line, and what is behind it.
abbrev pub cut_header : Bytes → Option (Bytes × Bytes)
cut_header s = elim (find (crlf ++ crlf) s) [
  | none ↦ none
  | some p ↦ some (take (p + 4) s, drop (p + 4) s)
]

cut_header-some :
    (s : Bytes) (p : ℕ)
    → find (crlf ++ crlf) s ≡ some p
    → cut_header s ≡ some (take (p + 4) s, drop (p + 4) s)
cut_header-some s p e = rw (cut_header, e) refl

cut_header-none : (s : Bytes) → find (crlf ++ crlf) s ≡ none → cut_header s ≡ none
cut_header-none s e = rw (cut_header, e) refl

-- A header that was read, with all that the connection has behind it.
abbrev pub header_of :
    Result (Option (Bytes × Bytes × List Bytes)) → Result (Option (Bytes × Bytes))
header_of fault = fault
header_of stuck = stuck
header_of (ok none) = ok none
header_of (ok (some (header, behind, rest))) = ok (some (header, behind ++ stream rest))

stream_nil : stream [] ≡ []
unfolding stream
stream_nil = refl

some_bytes : (c : Bytes) (cs : List Bytes) → ArePieces (c ∷ cs) → 0 < chunk_bytes (c ∷ cs)
unfolding ArePieces chunk_bytes
some_bytes [] cs pieces = absurd (pieces.0.0 refl)
some_bytes (x ∷ c) cs pieces = omega arith

read_header_found :
    (n p : ℕ) (ahead : Bytes) (chunks : List Bytes)
    → find (crlf ++ crlf) ahead ≡ some p
    → read_header (suc n) ahead chunks ≡ ok (some (take (p + 4) ahead, drop (p + 4) ahead, chunks))
unfolding read_header
read_header_found n p ahead chunks e = rw (read_header, e) refl

read_header_end :
    (n : ℕ) (ahead : Bytes)
    → find (crlf ++ crlf) ahead ≡ none
    → read_header (suc n) ahead [] ≡ ok none
unfolding read_header read_once
read_header_end n ahead e = rw (read_header, e) refl

read_header_more :
    (n : ℕ) (ahead : Bytes) (chunks : List Bytes) (r : IsPart read_buf_size chunks)
    → find (crlf ++ crlf) ahead ≡ none
    → read_header (suc n) ahead chunks ≡ read_header n (ahead ++ r.buf) r.rest
unfolding read_header
read_header_more n ahead chunks r e = rw (read_header, e, r.read, r.nonzero) refl

header_of-found :
    (n p : ℕ) (ahead : Bytes) (chunks : List Bytes)
    → find (crlf ++ crlf) ahead ≡ some p
    → header_of (read_header (suc n) ahead chunks) ≡ ok (cut_header (ahead ++ stream chunks))
header_of-found n p ahead chunks there =
    let inside = find-le (crlf ++ crlf) ahead p there in
    ap header_of (read_header_found n p ahead chunks there)
    ∙ ap ok (
        cc (
          take-append_in (p + 4) ahead (stream chunks) inside,
          drop-append_in (p + 4) ahead (stream chunks) inside,
          cut_header-some (ahead ++ stream chunks) p
              (find-append (crlf ++ crlf) ahead (stream chunks) p there),
        ))

pub read_header-stream :
    (n : ℕ) (ahead : Bytes) (chunks : List Bytes)
    → chunk_bytes chunks < n
    → ArePieces chunks
    → header_of (read_header n ahead chunks) ≡ ok (cut_header (ahead ++ stream chunks))
read_header-stream zero ahead chunks fuel pieces = absurd (omega arith)
read_header-stream (suc n) ahead [] fuel pieces = elim (Option-cases (find (crlf ++ crlf) ahead)) [
  | inl none_yet ↦
      ap header_of (read_header_end n ahead none_yet)
      ∙ ap ok (
          sym (cut_header-none ahead none_yet)
          ∙ ap cut_header (sym (ap (λ s. ahead ++ s) stream_nil ∙ append-nil ahead)))
  | inr (p, there) ↦ header_of-found n p ahead [] there
]
read_header-stream (suc n) ahead (c ∷ cs) fuel pieces =
    elim (Option-cases (find (crlf ++ crlf) ahead)) [
      | inl none_yet ↦
          let r =
            read_once-IsPart read_buf_size (c ∷ cs) (omega arith) pieces (some_bytes c cs pieces) in
          ap header_of (read_header_more n ahead (c ∷ cs) r none_yet)
          ∙ read_header-stream n (ahead ++ r.buf) r.rest
              (omega (arith, bytes_left read_buf_size (c ∷ cs) r, r.some_read)) r.pieces
          ∙ ap (λ s. ok (cut_header s))
              (append_assoc ahead r.buf (stream r.rest) ∙ ap (λ s. ahead ++ s) (sym r.whole))
      | inr (p, there) ↦ header_of-found n p ahead (c ∷ cs) there
    ]

-- What a header leaves of the connection is in pieces again.
abbrev pub RestIsPieces : Result (Option (Bytes × Bytes × List Bytes)) → Type 0
RestIsPieces fault = Unit
RestIsPieces stuck = Unit
RestIsPieces (ok none) = Unit
RestIsPieces (ok (some (header, behind, rest))) = ArePieces rest

pub read_header-RestIsPieces :
    (n : ℕ) (ahead : Bytes) (chunks : List Bytes)
    → ArePieces chunks
    → RestIsPieces (read_header n ahead chunks)
read_header-RestIsPieces zero ahead chunks pieces = unfold read_header in tt
read_header-RestIsPieces (suc n) ahead chunks pieces =
    elim (Option-cases (find (crlf ++ crlf) ahead)) [
      | inr (p, there) ↦ subst RestIsPieces (sym (read_header_found n p ahead chunks there)) pieces
      | inl none_yet ↦
          rest_of_more chunks pieces
            (λ r. read_header-RestIsPieces n (ahead ++ r.buf) r.rest r.pieces) none_yet
    ]
  where
    rest_of_more :
        (chunks : List Bytes)
        → ArePieces chunks
        → ((r : IsPart read_buf_size chunks) → RestIsPieces (read_header n (ahead ++ r.buf) r.rest))
        → find (crlf ++ crlf) ahead ≡ none
        → RestIsPieces (read_header (suc n) ahead chunks)
    rest_of_more [] pieces rec none_yet =
        subst RestIsPieces (sym (read_header_end n ahead none_yet)) tt
    rest_of_more (c ∷ cs) pieces rec none_yet =
        let r =
          read_once-IsPart read_buf_size (c ∷ cs) (omega arith) pieces (some_bytes c cs pieces) in
        subst RestIsPieces (sym (read_header_more n ahead (c ∷ cs) r none_yet)) (rec r)

pub cut_header-le :
    (s header body : Bytes) → cut_header s ≡ some (header, body) → length body ≤ length s
cut_header-le s header body e = elim (Option-cases (find (crlf ++ crlf) s)) [
  | inl none_there ↦ absurd (cc (e, cut_header-none s none_there))
  | inr (p, there) ↦
      let same : drop (p + 4) s ≡ body = cc (e, cut_header-some s p there) in
      omega (arith, ap length same, length-drop (p + 4) s)
]
