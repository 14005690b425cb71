-- ===== src/Attr/Layout.antt =====
-- Where the words and the strings of a table lie in its memory.
use mathlib.Core.List.{append_assoc}
use looka.Common.{
  ℕ, zero, suc, ◌+◌, ◌*◌, ◌%◌, ◌^◌, ◌<◌, List, [], ◌∷◌, ◌++◌, some, length, drop, All, ◌≡◌, refl,
  sym, ap, ◌∙◌, arith, length-append,
}
use looka.Common.Bytes.{Bytes}
use looka.Str2id.{le_word}
use looka.Words.{le_bytes, slice, length-le_bytes, le_word-le_bytes_four, slice-append}
use looka.Attr.{len_at, string_pos, len_words, string_area}

-- The bytes that the strings take, one more for each.
abbrev pub area_size : List Bytes → ℕ
area_size [] = 0
area_size (s ∷ ss) = length s + 1 + area_size ss

pub length-len_words : (xs : List Bytes) → length (len_words xs) ≡ 4 * length xs
unfolding len_words
length-len_words [] = refl
length-len_words (x ∷ xs) = omega (
  arith,
  length-append (le_bytes 4 (length x)) (len_words xs),
  length-le_bytes 4 (length x),
  length-len_words xs,
)

pub len_words-append : (xs ys : List Bytes) → len_words (xs ++ ys) ≡ len_words xs ++ len_words ys
unfolding len_words
len_words-append [] ys = refl
len_words-append (x ∷ xs) ys =
    ap (◌++◌ (le_bytes 4 (length x))) (len_words-append xs ys)
    ∙ sym (append_assoc (le_bytes 4 (length x)) (len_words xs) (len_words ys))

pub length-string_area :
    (xs : List Bytes) (junk : Bytes) → length (string_area xs junk) ≡ area_size xs
unfolding string_area
length-string_area [] junk = refl
length-string_area (x ∷ xs) [] =
    omega (arith, length-append x (0 ∷ string_area xs []), length-string_area xs [])
length-string_area (x ∷ xs) (j ∷ junk) =
    omega (arith, length-append x (j ∷ string_area xs junk), length-string_area xs junk)

pub string_area-append :
    (xs ys : List Bytes) (junk : Bytes)
    → string_area (xs ++ ys) junk ≡ string_area xs junk ++ string_area ys (drop (length xs) junk)
unfolding string_area
string_area-append [] ys junk = refl
string_area-append (x ∷ xs) ys [] =
    ap (λ t. x ++ (0 ∷ t)) (string_area-append xs ys [] ∙ drop_nil)
    ∙ sym (append_assoc x (0 ∷ string_area xs []) (string_area ys []))
  where
    drop-nil : (n : ℕ) → drop {A = ℕ} n [] ≡ []
    drop-nil zero = refl
    drop-nil (suc n) = refl

    drop_nil :
        string_area xs [] ++ string_area ys (drop (length xs) [])
        ≡ string_area xs [] ++ string_area ys []
    drop_nil = ap (λ d. string_area xs [] ++ string_area ys d) (drop-nil (length xs))
string_area-append (x ∷ xs) ys (j ∷ junk) =
    ap (λ t. x ++ (j ∷ t)) (string_area-append xs ys junk)
    ∙ sym (append_assoc x (j ∷ string_area xs junk) (string_area ys (drop (length xs) junk)))

module _ (mem : Bytes) (i : ℕ) where
  len_at-slice : {w : Bytes} → slice mem (4 * i) 4 ≡ some w → len_at mem i ≡ some (le_word w)
  unfolding len_at
  len_at-slice e = rw (e, len_at) refl

  string_pos_zero : (pos : ℕ) → string_pos 0 mem i pos ≡ some pos
  unfolding string_pos
  string_pos_zero pos = refl

  string_pos-suc :
      (n pos : ℕ) {l : ℕ}
      → len_at mem i ≡ some l
      → string_pos (suc n) mem i pos ≡ string_pos n mem (i + 1) ((pos + l + 1) % 2 ^ 32)
  unfolding string_pos
  string_pos-suc n pos e = rw (e, string_pos) refl

len_words-layout :
    (before : List Bytes) (s : Bytes) (behind : List Bytes) (area : Bytes)
    → len_words (before ++ (s ∷ behind)) ++ area
      ≡ len_words before ++ (le_bytes 4 (length s) ++ (len_words behind ++ area))
len_words-layout before s behind area =
    ap (λ t. t ++ area)
      (len_words-append before (s ∷ behind) ∙ ap (◌++◌ (len_words before)) (len_words-cons))
    ∙ append_assoc (len_words before) (le_bytes 4 (length s) ++ len_words behind) area
    ∙ ap (◌++◌ (len_words before)) (append_assoc (le_bytes 4 (length s)) (len_words behind) area)
  where
    len_words-cons : len_words (s ∷ behind) ≡ le_bytes 4 (length s) ++ len_words behind
    len_words-cons = unfold len_words in refl

-- `len[i]` is the length of string `i`.
pub len_at-len_words :
    (before : List Bytes) (s : Bytes) (behind : List Bytes) (area : Bytes)
    → length s < 2 ^ 32
    → len_at (len_words (before ++ (s ∷ behind)) ++ area) (length before) ≡ some (length s)
len_at-len_words before s behind area h =
    ap (λ mem. len_at mem (length before)) (len_words-layout before s behind area)
    ∙ len_at-slice _ (length before) (
        slice-append (len_words before) (le_bytes 4 (length s)) (len_words behind ++ area)
          (4 * length before) 4 (sym (length-len_words before))
          (sym (length-le_bytes 4 (length s))))
    ∙ ap some (le_word-le_bytes_four (length s) h)

-- The loop of `GetString` adds up the strings that stand before the one it looks for.
pub string_pos-area_size :
    (done todo behind : List Bytes) (area : Bytes) (i pos : ℕ)
    → i ≡ length done
    → All (λ s. length s < 2 ^ 32) todo
    → pos + area_size todo < 2 ^ 32
    → string_pos (length todo) (len_words (done ++ (todo ++ behind)) ++ area) i pos
      ≡ some (pos + area_size todo)
string_pos-area_size done [] behind area i pos e h l =
    string_pos_zero _ i pos ∙ ap some (omega arith)
string_pos-area_size done (s ∷ todo) behind area i pos e h l =
    string_pos-suc mem i (length todo) pos
      (ap (len_at mem) e ∙ len_at-len_words done s (todo ++ behind) area h.0)
    ∙ ap
        (λ xs.
          string_pos (length todo) (len_words xs ++ area) (i + 1) ((pos + length s + 1) % 2 ^ 32))
        (sym (append_assoc done (s ∷ []) (todo ++ behind)))
    ∙ string_pos-area_size (done ++ (s ∷ [])) todo behind area (i + 1)
        ((pos + length s + 1) % 2 ^ 32) (omega (arith, length-append done (s ∷ []))) h.1
        (omega arith)
    ∙ ap some (omega arith)
  where
    mem : Bytes
    mem = len_words (done ++ (s ∷ (todo ++ behind))) ++ area
