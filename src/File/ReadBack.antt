-- ===== src/File/ReadBack.antt =====
-- The round trip of the index file: what is written for an inverter, read into an empty one, has
-- the same lists.
use mathlib.Core.Path.{subst}
use mathlib.Core.List.{append-nil, append_assoc}
use looka.Common.{
  ℕ, zero, suc, ◌%◌, ◌^◌, ◌<◌, ◌≤◌, List, [], ◌∷◌, ◌++◌, some, Bool, true, false, ◌||◌,
  if◌then◌else◌, length, All, ◌≡◌, ◌≢◌, refl, ap, sym, ◌∙◌, arith, map, length-append, Bool-cases,
  inl, inr,
}
use looka.Common.Bytes.{Bytes}
use looka.Common.Result.{ok}
use looka.Inverter.{Inverter, new_inverter, find_key, add, items_of, get_keys}
use looka.Inverter.Laws.{list_of, items_of-add}
use looka.File.{write_tokens, write_index_to_file, is_left, read_tokens, read_index_from_file}
use looka.File.Index.{
  IsWritten, token_bytes, add_each, take-length, write_token-IsWritten, read_tokens-token_bytes,
  length-token_bytes, is_left-nil, is_left-negsuc,
}
use looka.Types.{DocInvert, Token, token_eq, token_beq_iff, token_beq}

unfoldable pub AreWritten : List Token → Inverter Token DocInvert → Type 0
AreWritten ts inv = All (λ t. IsWritten t inv) ts

unfoldable pub IsDistinct : List Token → Type 0
IsDistinct [] = Unit
IsDistinct (t ∷ ts) = All (λ s. t ≢ s) ts × IsDistinct ts

unfoldable pub tokens_bytes : List Token → Inverter Token DocInvert → Bytes
tokens_bytes [] inv = []
tokens_bytes (t ∷ ts) inv = token_bytes t (list_of (items_of t inv)) ++ tokens_bytes ts inv

-- The lists of some tokens of `inv`, added to `st`.
add_tokens :
    List Token → Inverter Token DocInvert → Inverter Token DocInvert → Inverter Token DocInvert
add_tokens [] inv st = st
add_tokens (t ∷ ts) inv st = add_tokens ts inv (add_each t (list_of (items_of t inv)) st)

write_tokens-AreWritten :
    (ts : List Token) (inv : Inverter Token DocInvert)
    → AreWritten ts inv
    → write_tokens ts inv ≡ ok (tokens_bytes ts inv)
unfolding write_tokens tokens_bytes AreWritten
write_tokens-AreWritten [] inv h = refl
write_tokens-AreWritten (t ∷ ts) inv h =
    rw (write_token-IsWritten t inv h.0, write_tokens-AreWritten ts inv h.1) refl

length-tokens_bytes :
    (ts : List Token) (inv : Inverter Token DocInvert) → length ts ≤ length (tokens_bytes ts inv)
unfolding tokens_bytes
length-tokens_bytes [] inv = omega arith
length-tokens_bytes (t ∷ ts) inv = omega (
  arith,
  length-append (token_bytes t (list_of (items_of t inv))) (tokens_bytes ts inv),
  length-token_bytes t (list_of (items_of t inv)),
  length-tokens_bytes ts inv,
)

read_tokens-nil : (n total : ℕ) (st : Inverter Token DocInvert) → read_tokens n total [] st ≡ ok st
unfolding read_tokens
read_tokens-nil zero total st = rw (read_tokens, is_left-nil total) refl
read_tokens-nil (suc n) total st = rw (read_tokens, is_left-nil total) refl

read_tokens-tokens_bytes :
    (n total : ℕ) (ts : List Token) (inv st : Inverter Token DocInvert)
    → length ts ≤ n
    → AreWritten ts inv
    → total < 2 ^ 31
    → length (tokens_bytes ts inv) ≤ total
    → read_tokens n total (tokens_bytes ts inv) st ≡ ok (add_tokens ts inv st)
unfolding tokens_bytes add_tokens AreWritten IsWritten
read_tokens-tokens_bytes n total [] inv st fuel h room inside = read_tokens-nil n total st
read_tokens-tokens_bytes zero total (t ∷ ts) inv st fuel h room inside = absurd (omega arith)
read_tokens-tokens_bytes (suc n) total (t ∷ ts) inv st fuel h room inside =
    read_tokens-token_bytes n total t (list_of (items_of t inv)) (tokens_bytes ts inv) st h.0.0
      h.0.1 h.0.2 room inside
    ∙ read_tokens-tokens_bytes n total ts inv (add_each t (list_of (items_of t inv)) st)
        (omega arith) h.1 room
        (omega (
          arith,
          inside,
          length-append (token_bytes t (list_of (items_of t inv))) (tokens_bytes ts inv),
        ))

add_each-same :
    (t : Token) (ds : List DocInvert) (st : Inverter Token DocInvert)
    → list_of (items_of t (add_each t ds st)) ≡ list_of (items_of t st) ++ ds
add_each-same t [] st = sym (append-nil (list_of (items_of t st)))
add_each-same t (d ∷ ds) st =
    add_each-same t ds (add t d st).1
    ∙ ap (λ o. list_of o ++ ds) (items_of-add t t d st)
    ∙ rw (token_eq-refl t) (append_assoc (list_of (items_of t st)) (d ∷ []) ds)
  where
    token_eq-refl : (t : Token) → token_beq t t ≡ true
    token_eq-refl t = (token_beq_iff t t).1 refl

add_each-other :
    (k t : Token) (ds : List DocInvert) (st : Inverter Token DocInvert)
    → token_beq t k ≡ false
    → items_of k (add_each t ds st) ≡ items_of k st
add_each-other k t [] st h = refl
add_each-other k t (d ∷ ds) st h =
    add_each-other k t ds (add t d st).1 h ∙ items_of-add k t d st ∙ rw (h) refl

member : Token → List Token → Bool
member k [] = false
member k (t ∷ ts) = token_beq t k || member k ts

member-All : (k : Token) (ts : List Token) → All (λ s. k ≢ s) ts → member k ts ≡ false
unfolding member
member-All k [] h = refl
member-All k (t ∷ ts) h = ground (arith, h.0, token_beq_iff t k, member-All k ts h.1)

items_of-add_tokens :
    (k : Token) (ts : List Token) (inv st : Inverter Token DocInvert)
    → IsDistinct ts
    → list_of (items_of k (add_tokens ts inv st)) ≡ (
        if member k ts
        then list_of (items_of k st) ++ list_of (items_of k inv)
        else list_of (items_of k st))
unfolding add_tokens member IsDistinct
items_of-add_tokens k [] inv st h = refl
items_of-add_tokens k (t ∷ ts) inv st h =
    items_of-add_tokens k ts inv (add_each t (list_of (items_of t inv)) st) h.1
    ∙ elim (Bool-cases (token_beq t k)) [
      | inl same ↦
          let e : t ≡ k = (token_beq_iff t k).0 same in
          rw (same, member-All k ts (subst (λ s. All (λ r. s ≢ r) ts) e h.0))
            (subst
              (λ s.
                list_of (items_of k (add_each s (list_of (items_of s inv)) st))
                ≡ list_of (items_of k st) ++ list_of (items_of k inv))
              (sym e) (add_each-same k (list_of (items_of k inv)) st))
      | inr other ↦ rw (other, add_each-other k t (list_of (items_of t inv)) st other) refl
    ]

abbrev pub tokens_of : Inverter Token DocInvert → List Token
tokens_of inv = map (λ p. p.0) inv.m_idx_invert

-- A token without an entry in the map has no list.
member-none :
    (k : Token) (m : List (Token × List DocInvert))
    → member k (map (λ p. p.0) m) ≡ false
    → list_of (find_key k m) ≡ []
unfolding member find_key
member-none k [] h = refl
member-none k ((t, ds) ∷ m) h = ground (arith, member-none k m)

-- An inverter that the index file holds: less than 2 ^ 32 tokens, each there once, short and
-- with a list of less than 2 ^ 32 entries that fit, in a file of less than 2 ^ 31 bytes.
unfoldable pub IsWritable : Inverter Token DocInvert → Type 0
IsWritable inv =
    IsDistinct (tokens_of inv)
    × (length (tokens_of inv) < 2 ^ 32)
    × AreWritten (tokens_of inv) inv
    × (length (tokens_bytes (tokens_of inv) inv) < 2 ^ 31)

write_index_to_file-IsWritable :
    (inv : Inverter Token DocInvert)
    → IsWritable inv
    → write_index_to_file inv ≡ ok (tokens_bytes (tokens_of inv) inv)
unfolding IsWritable write_index_to_file get_keys
write_index_to_file-IsWritable inv h =
    let fits : length (tokens_of inv) % 2 ^ 32 ≡ length (tokens_of inv) = omega (arith, h.1) in
    rw (fits, take-length (tokens_of inv)) (write_tokens-AreWritten (tokens_of inv) inv h.2)

read_back :
    (inv : Inverter Token DocInvert)
    → IsWritable inv
    → read_index_from_file (some (tokens_bytes (tokens_of inv) inv)) new_inverter
      ≡ ok (true, add_tokens (tokens_of inv) inv new_inverter)
unfolding read_index_from_file IsWritable
read_back inv h =
    rw
      (read_tokens-tokens_bytes (length (tokens_bytes (tokens_of inv) inv))
        (length (tokens_bytes (tokens_of inv) inv)) (tokens_of inv) inv new_inverter
        (length-tokens_bytes (tokens_of inv) inv) h.2 h.3 (omega arith))
      refl

lists_back :
    (k : Token) (inv : Inverter Token DocInvert)
    → IsWritable inv
    → list_of (items_of k (add_tokens (tokens_of inv) inv new_inverter)) ≡ list_of (items_of k inv)
unfolding items_of new_inverter find_key IsWritable
lists_back k inv h = elim (Bool-cases (member k (tokens_of inv))) [
  | inl there ↦ items_of-add_tokens k (tokens_of inv) inv new_inverter h.0 ∙ rw (there) refl
  | inr absent ↦
      items_of-add_tokens k (tokens_of inv) inv new_inverter h.0
      ∙ rw (absent) (sym (member-none k inv.m_idx_invert absent))
]

-- For an inverter whose tokens are distinct, shorter than 100 bytes, without a zero byte and with
-- the id of their text, whose entries fit their fields and have all their hits, and whose counts
-- are below 2 ^ 32, and whose file, at 16 bytes and the text for each token and 8 bytes and the hits
-- for each of its entries, has less than 2 ^ 31 bytes: the writer returns a file, the reader reads
-- that file into an empty inverter without fault and within its fuel, and each token has the same
-- list of entries as before.
pub read_index_from_file-write_index_to_file :
    (inv : Inverter Token DocInvert)
    → IsWritable inv
    → (f : Bytes) × (inv' : Inverter Token DocInvert) × (write_index_to_file inv ≡ ok f)
      × (read_index_from_file (some f) new_inverter ≡ ok (true, inv'))
      × ((k : Token) → list_of (items_of k inv') ≡ list_of (items_of k inv))
unfolding IsWritable
read_index_from_file-write_index_to_file inv h = (
  tokens_bytes (tokens_of inv) inv,
  add_tokens (tokens_of inv) inv new_inverter,
  write_index_to_file-IsWritable inv h,
  read_back inv h,
  λ k. lists_back k inv h,
)

-- Of a file of 2 ^ 31 bytes and more, below 2 ^ 32, the reader reads nothing, whatever is in it, and
-- reports success: the size of the file is negative as an `int`.
pub read_index_from_file-negsuc :
    (f : Bytes) (inv : Inverter Token DocInvert)
    → 2 ^ 31 ≤ length f
    → length f < 2 ^ 32
    → read_index_from_file (some f) inv ≡ ok (true, inv)
unfolding read_index_from_file
read_index_from_file-negsuc f inv large small =
    rw (read_tokens-ends (length f) (length f) f inv (is_left-negsuc f large small)) refl
  where
    read_tokens-ends :
        (n total : ℕ) (f : Bytes) (inv : Inverter Token DocInvert)
        → is_left total f ≡ false
        → read_tokens n total f inv ≡ ok inv
    read_tokens-ends zero total f inv e = unfold read_tokens in rw (read_tokens, e) refl
    read_tokens-ends (suc n) total f inv e = unfold read_tokens in rw (read_tokens, e) refl
