-- ===== src/Http/Content.antt =====
-- The content of a request, whatever pieces the network delivers it in.
use mathlib.Core.List.{append-nil, append_assoc}
use native.Mathlib.Decide.{dec_lt}
use looka.Common.{
  ℕ, zero, suc, ◌+◌, ◌-◌, ◌^◌, ◌<◌, ◌≤◌, ◌≢◌, List, [], ◌∷◌, ◌++◌, Option, none, some,
  if◌then◌else◌, leb, ltb, length, take, ◌≡◌, refl, ap, sym, ◌∙◌, arith, length-append, le→leb,
  lt→not-leb,
}
use looka.Common.Bytes.{Bytes}
use looka.Common.Int.{pos, negsuc, ◌-ℤ◌, wrap_int, wrap_int-pos}
use looka.Common.Result.{Result, ok, fault, stuck}
use looka.Http.Pieces.{ArePieces, stream, length-stream, IsPart, read_once-IsPart, take-append_more}
use looka.Http.Server.{read_once, chunk_bytes, read_left, read_content, read_buf_size}

-- The size that the loop asks for.
abbrev wanted : ℕ → ℕ
wanted left = if ltb read_buf_size left then read_buf_size else left

wanted-le : (left : ℕ) → wanted left ≤ left
wanted-le left = ground arith

wanted-pos : (left : ℕ) → 0 < left → 0 < wanted left
wanted-pos left h = ground (arith, h)

read_left_step :
    (n left : ℕ) (ahead : Bytes) (chunks : List Bytes) (r : IsPart (wanted (suc left)) chunks)
    → read_left (suc n) (suc left) ahead chunks
      ≡ read_left n (suc left - length r.buf) (ahead ++ r.buf) r.rest
unfolding read_left
read_left_step n left ahead chunks r = rw (read_left, r.read, r.nonzero) refl

pub bytes_left :
    (n : ℕ) (chunks : List Bytes) (r : IsPart n chunks)
    → chunk_bytes chunks ≡ length r.buf + chunk_bytes r.rest
bytes_left n chunks r =
    sym (length-stream chunks)
    ∙ ap length r.whole
    ∙ length-append r.buf (stream r.rest)
    ∙ ap (λ k. length r.buf + k) (length-stream r.rest)

read_left-stream :
    (n left : ℕ) (ahead : Bytes) (chunks : List Bytes)
    → chunk_bytes chunks < n
    → ArePieces chunks
    → left ≤ chunk_bytes chunks
    → (rest : List Bytes) × (read_left n left ahead chunks
        ≡ ok (some (ahead ++ take left (stream chunks), rest)))
read_left-stream n zero ahead chunks fuel pieces enough =
    (chunks, unfold read_left in ap (λ a. ok (some (a, chunks))) (sym (append-nil ahead)))
read_left-stream zero (suc left) ahead chunks fuel pieces enough = absurd (omega arith)
read_left-stream (suc n) (suc left) ahead chunks fuel pieces enough =
    let r =
      read_once-IsPart (wanted (suc left)) chunks (wanted-pos (suc left) (omega arith)) pieces
        (omega arith) in
    let fits : length r.buf ≤ suc left = omega (arith, r.at_most, wanted-le (suc left)) in
    let (rest, later) =
      read_left-stream n (suc left - length r.buf) (ahead ++ r.buf) r.rest
        (omega (arith, bytes_left _ chunks r, r.some_read)) r.pieces
        (omega (arith, bytes_left _ chunks r)) in
    (
      rest,
      read_left_step n left ahead chunks r
          ∙ later
          ∙ ap (λ a. ok (some (a, rest)))
              (append_assoc ahead r.buf (take (suc left - length r.buf) (stream r.rest))
                ∙ ap (λ a. ahead ++ a)
                    (sym (take-append_more (suc left) r.buf (stream r.rest) fits)
                      ∙ ap (take (suc left)) (sym r.whole))),
    )

read_left-short :
    (n left : ℕ) (ahead : Bytes) (chunks : List Bytes)
    → chunk_bytes chunks < n
    → ArePieces chunks
    → chunk_bytes chunks < left
    → read_left n left ahead chunks ≡ ok none
read_left-short n zero ahead chunks fuel pieces short = absurd (omega arith)
read_left-short zero (suc left) ahead chunks fuel pieces short = absurd (omega arith)
read_left-short (suc n) (suc left) ahead [] fuel pieces short = unfold read_left read_once in refl
read_left-short (suc n) (suc left) ahead (c ∷ cs) fuel pieces short =
    let r =
      read_once-IsPart (wanted (suc left)) (c ∷ cs) (wanted-pos (suc left) (omega arith)) pieces
        (unfold chunk_bytes ArePieces in omega (arith, nonzero_length c pieces.0.0)) in
    read_left_step n left ahead (c ∷ cs) r
    ∙ read_left-short n (suc left - length r.buf) (ahead ++ r.buf) r.rest
        (omega (arith, bytes_left _ (c ∷ cs) r, r.some_read)) r.pieces
        (omega (arith, bytes_left _ (c ∷ cs) r, r.at_most, wanted-le (suc left)))
  where
    nonzero_length : (c : Bytes) → c ≢ [] → 0 < length c
    nonzero_length [] h = absurd (h refl)
    nonzero_length (x ∷ c) h = omega arith

-- The content of a result, without what is left of the connection.
abbrev pub content_of : Result (Option (Bytes × List Bytes)) → Result (Option Bytes)
content_of fault = fault
content_of stuck = stuck
content_of (ok none) = ok none
content_of (ok (some (content, rest))) = ok (some content)

left_pos : (len m : ℕ) → len < 2 ^ 31 → m ≤ len → wrap_int (pos len -ℤ pos m) ≡ pos (len - m)
unfolding ◌-ℤ◌
left_pos len m small h =
    let e : (len + 0) - (0 + m) ≡ len - m = omega arith in
    rw (le→leb (0 + m) (len + 0) (omega arith), e) (wrap_int-pos (len - m) (omega arith))

left_neg : (len m : ℕ) → m < 2 ^ 31 → len < m → wrap_int (pos len -ℤ pos m) ≡ negsuc (m - len - 1)
unfolding ◌-ℤ◌ wrap_int
left_neg len m small h = ground arith

read_content_cut :
    (len k : ℕ) (behind : Bytes) (chunks : List Bytes)
    → wrap_int (pos len -ℤ pos (length behind)) ≡ negsuc k
    → read_content (pos len) behind chunks ≡ ok (some (take len behind, chunks))
unfolding read_content
read_content_cut len k behind chunks e = rw (read_content, e) refl

read_content_more :
    (len k : ℕ) (behind : Bytes) (chunks : List Bytes)
    → wrap_int (pos len -ℤ pos (length behind)) ≡ pos k
    → read_content (pos len) behind chunks ≡ read_left (suc (chunk_bytes chunks)) k behind chunks
unfolding read_content
read_content_more len k behind chunks e = rw (read_content, e) refl

take-append_less : (n : ℕ) (xs ys : Bytes) → n ≤ length xs → take n (xs ++ ys) ≡ take n xs
take-append_less zero xs ys h = refl
take-append_less (suc n) [] ys h = absurd (omega arith)
take-append_less (suc n) (x ∷ xs) ys h = ap (◌∷◌ x) (take-append_less n xs ys (omega arith))

-- For a length below 2 ^ 31 that is not negative, and a connection whose pieces are not empty and
-- have no zero byte, `ReadHttpContentTimeout` returns the first `len` bytes of what was read behind
-- the header and what the connection delivers, however that is cut into pieces, and fails exactly
-- if these are fewer than `len` bytes. It does not run out of its fuel.
pub read_content-stream :
    (len : ℕ) (behind : Bytes) (chunks : List Bytes)
    → len < 2 ^ 31
    → length behind < 2 ^ 31
    → ArePieces chunks
    → content_of (read_content (pos len) behind chunks) ≡ (
        let whole = behind ++ stream chunks in
        ok (if leb len (length whole) then some (take len whole) else none))
read_content-stream len behind chunks small few pieces = elim (dec_lt len (length behind)) [
  | yes inside ↦
      ap content_of (read_content_cut len _ behind chunks (left_neg len (length behind) few inside))
      ∙ rw
          (
            le→leb len (length (behind ++ stream chunks)) (omega (arith, total)),
            take-append_less len behind (stream chunks) (omega arith),
          )
          refl
  | no outside ↦
      let more =
        read_content_more len (len - length behind) behind chunks
          (left_pos len (length behind) small (omega arith)) in
      elim (dec_lt (chunk_bytes chunks) (len - length behind)) [
        | yes short ↦
            ap content_of (
              more
              ∙ read_left-short (suc (chunk_bytes chunks)) (len - length behind) behind chunks
                  (omega arith) pieces short)
            ∙ rw (lt→not-leb len (length (behind ++ stream chunks)) (omega (arith, total))) refl
        | no enough ↦
            let (rest, read) =
              read_left-stream (suc (chunk_bytes chunks)) (len - length behind) behind chunks
                (omega arith) pieces (omega arith) in
            ap content_of (more ∙ read)
            ∙ rw
                (
                  le→leb len (length (behind ++ stream chunks)) (omega (arith, total)),
                  take-append_more len behind (stream chunks) (omega arith),
                )
                refl
      ]
]
  where
    total : length (behind ++ stream chunks) ≡ length behind + chunk_bytes chunks
    total =
        length-append behind (stream chunks) ∙ ap (λ k. length behind + k) (length-stream chunks)
