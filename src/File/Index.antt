-- ===== src/File/Index.antt =====
-- The index file read back: reading what the writer wrote for an inverter.
use mathlib.Core.List.{append_assoc}
use mathlib.Core.Path.{subst}
use looka.Common.{
  ℕ, suc, ◌+◌, ◌%◌, ◌^◌, ◌-◌, ◌<◌, List, [], ◌∷◌, ◌++◌, none, some, true, false, length, take, drop,
  All, ◌≡◌, refl, ap, sym, ◌∙◌, arith, take-append, drop-append, length-append, take-append-drop,
  length-take, length-drop, ◌≤◌, Option-cases, inl, inr, ◌≢◌, le→leb, lt→ltb,
}
use looka.Common.Bytes.{Bytes}
use looka.Common.Int.{wrap_int, wrap_int-pos, wrap_int-negsuc}
use looka.Common.Result.{ok, ◌>>=◌}
use looka.Inverter.{Inverter, add, items_of, get_items}
use looka.Inverter.Laws.{list_of}
use looka.File.{
  write_invert, write_inverts, write_token, read_bytes, read_word, read_invert, read_inverts,
  until_zero, read_str, is_left, read_tokens,
}
use looka.Str2id.{le_word}
use looka.Types.{DocInvert, Token, make_token, token_eq}
use looka.Words.{le_bytes, slice, length-le_bytes, le_word-le_bytes_four}

-- An entry whose hits stand in their allocation, and that fits its fields.
unfoldable pub IsEntry : DocInvert → Type 0
IsEntry d = (d.local_id < 2 ^ 32) × (d.hits_size < 256) × (length d.hits ≡ 3 + d.hits_size)

-- The bytes of an entry.
abbrev pub entry_bytes : DocInvert → Bytes
entry_bytes d = le_bytes 4 d.local_id ++ (d.hits_size ∷ d.hits)

pub take-length {ℓ} : {A : Type ℓ} (xs : List A) → take (length xs) xs ≡ xs
take-length [] = refl
take-length (x ∷ xs) = ap (◌∷◌ x) (take-length xs)

pub slice-whole : (xs : Bytes) (n : ℕ) → length xs ≡ n → slice xs 0 n ≡ some xs
unfolding slice
slice-whole xs n h = rw (sym h) (ground (arith, take-length xs))

write_invert-IsEntry : (d : DocInvert) → IsEntry d → write_invert d ≡ ok (entry_bytes d)
unfolding IsEntry write_invert
write_invert-IsEntry d h = rw (slice-whole d.hits (3 + d.hits_size) h.2) refl

pub read_bytes-append :
    (n : ℕ) (xs ys : Bytes) → n ≡ length xs → read_bytes n (xs ++ ys) ≡ ok (xs, ys)
unfolding read_bytes
read_bytes-append n xs ys e =
    rw (e) (ground (arith, length-append xs ys, take-append xs ys, drop-append xs ys))

read_bytes-front :
    (n : ℕ) (xs ys : Bytes)
    → n ≤ length xs
    → read_bytes n (xs ++ ys) ≡ ok (take n xs, drop n xs ++ ys)
read_bytes-front n xs ys h =
    ap (λ zs. read_bytes n (zs ++ ys)) (sym (take-append-drop n xs))
    ∙ ap (read_bytes n) (append_assoc (take n xs) (drop n xs) ys)
    ∙ read_bytes-append n (take n xs) (drop n xs ++ ys) (omega (arith, length-take n xs))

pub read_word-four :
    (n : ℕ) (ys : Bytes) → n < 2 ^ 32 → read_word 4 (le_bytes 4 n ++ ys) ≡ ok (n, ys)
unfolding read_word
read_word-four n ys small =
    rw
      (
        read_bytes-append 4 (le_bytes 4 n) ys (sym (length-le_bytes 4 n)),
        le_word-le_bytes_four n small,
      )
      refl

pub read_word-one : (n : ℕ) (ys : Bytes) → read_word 1 (n ∷ ys) ≡ ok (n, ys)
unfolding read_word le_word
read_word-one n ys = rw (read_bytes-append 1 (n ∷ []) ys refl) (ap (λ m. ok (m, ys)) (omega arith))

read_invert-entry :
    (d : DocInvert) (ys : Bytes) → IsEntry d → read_invert (entry_bytes d ++ ys) ≡ ok (d, ys)
unfolding IsEntry read_invert
read_invert-entry d ys h =
    rw
      (
        append_assoc (le_bytes 4 d.local_id) (d.hits_size ∷ d.hits) ys,
        read_word-four d.local_id ((d.hits_size ∷ d.hits) ++ ys) h.0,
        read_word-one d.hits_size (d.hits ++ ys),
        read_bytes-front 3 d.hits ys (omega (arith, h.2)),
        read_bytes-append d.hits_size (drop 3 d.hits) ys (omega (arith, h.2, length-drop 3 d.hits)),
        take-append-drop 3 d.hits,
      )
      refl

unfoldable pub AreEntries : List DocInvert → Type 0
unfolding IsEntry
AreEntries ds = All IsEntry ds

unfoldable pub entries_bytes : List DocInvert → Bytes
entries_bytes [] = []
entries_bytes (d ∷ ds) = entry_bytes d ++ entries_bytes ds

write_inverts-AreEntries :
    (ds : List DocInvert) → AreEntries ds → write_inverts ds ≡ ok (entries_bytes ds)
unfolding AreEntries write_inverts entries_bytes
write_inverts-AreEntries [] h = refl
write_inverts-AreEntries (d ∷ ds) h =
    rw (write_invert-IsEntry d h.0, write_inverts-AreEntries ds h.1) refl

-- The entries added to a token's list one by one.
abbrev pub add_each : Token → List DocInvert → Inverter Token DocInvert → Inverter Token DocInvert
add_each t [] inv = inv
add_each t (d ∷ ds) inv = add_each t ds (add t d inv).1

read_inverts-entries :
    (t : Token) (ds : List DocInvert) (ys : Bytes) (inv : Inverter Token DocInvert)
    → AreEntries ds
    → read_inverts (length ds) t (entries_bytes ds ++ ys) inv ≡ ok (add_each t ds inv, ys)
unfolding AreEntries read_inverts entries_bytes
read_inverts-entries t [] ys inv h = refl
read_inverts-entries t (d ∷ ds) ys inv h =
    rw
      (
        append_assoc (entry_bytes d) (entries_bytes ds) ys,
        read_invert-entry d (entries_bytes ds ++ ys) h.0,
      )
      (read_inverts-entries t ds ys (add t d inv).1 h.1)

-- A token of the program that the reader's buffer holds: at most 99 bytes, none of them zero.
unfoldable pub IsShort : Token → Type 0
IsShort t = (t ≡ make_token t.token_str) × (length t.token_str < 100) × All (λ c. c ≢ 0) t.token_str

until_zero-nonzero : (s : Bytes) → All (λ c. c ≢ 0) s → until_zero s ≡ s
unfolding until_zero
until_zero-nonzero [] h = refl
until_zero-nonzero (c ∷ s) h = ground (arith, h.0, until_zero-nonzero s h.1)

read_str-IsShort :
    (s ys : Bytes)
    → length s < 100
    → All (λ c. c ≢ 0) s
    → read_str (le_bytes 4 (length s) ++ (s ++ ys)) ≡ ok (s, ys)
unfolding read_str
read_str-IsShort s ys short nonzero =
    rw
      (
        read_word-four (length s) (s ++ ys) (omega arith),
        le→leb (length s) 100 (omega arith),
        read_bytes-append (length s) s ys refl,
        until_zero-nonzero s nonzero,
        lt→ltb (length s) 100 short,
      )
      refl

unfoldable pub token_bytes : Token → List DocInvert → Bytes
unfolding le_bytes entries_bytes
token_bytes t ds =
    le_bytes 8 t.token_id
    ++ (le_bytes 4 (length t.token_str)
        ++ (t.token_str ++ (le_bytes 4 (length ds) ++ entries_bytes ds)))

-- What a token's list has to satisfy to be written.
unfoldable pub IsWritten : Token → Inverter Token DocInvert → Type 0
unfolding IsShort AreEntries
IsWritten t inv =
    IsShort t × AreEntries (list_of (items_of t inv)) × (length (list_of (items_of t inv)) < 2 ^ 32)

get_items-items_of :
    (t : Token) (inv : Inverter Token DocInvert)
    → length (list_of (items_of t inv)) < 2 ^ 32
    → get_items t inv none ≡ (length (list_of (items_of t inv)), items_of t inv)
unfolding get_items items_of
get_items-items_of t inv small = elim (Option-cases (items_of t inv)) [
  | inl none_there ↦ ground (arith, none_there)
  | inr (ds, there) ↦
      let fits : length ds < 2 ^ 32 = subst (λ o. length (list_of o) < 2 ^ 32) there small in
      let same : length ds % 2 ^ 32 ≡ length ds = omega arith in ground (arith, there, same)
]

pub write_token-IsWritten :
    (t : Token) (inv : Inverter Token DocInvert)
    → IsWritten t inv
    → write_token t inv ≡ ok (token_bytes t (list_of (items_of t inv)))
unfolding write_token token_bytes IsWritten
write_token-IsWritten t inv h =
    rw
      (
        get_items-items_of t inv h.2,
        take-length (list_of (items_of t inv)),
        write_inverts-AreEntries (list_of (items_of t inv)) h.1,
      )
      refl

-- One round of the reader's loop.
read_round :
    (n total id : ℕ) (f : Bytes) (inv : Inverter Token DocInvert)
    → is_left total (le_bytes 8 id ++ f) ≡ true
    → read_tokens (suc n) total (le_bytes 8 id ++ f) inv ≡ (do
      r ← read_word 8 (le_bytes 8 id ++ f)
      str ← read_str r.1
      count ← read_word 4 str.1
      e ← read_inverts count.0 (make_token str.0) count.1 inv
      read_tokens n total e.1 e.0)
unfolding read_tokens
read_round n total id f inv left = rw (read_tokens, left) refl

read_word-eight :
    (n : ℕ) (ys : Bytes) → read_word 8 (le_bytes 8 n ++ ys) ≡ ok (le_word (le_bytes 8 n), ys)
unfolding read_word
read_word-eight n ys = rw (read_bytes-append 8 (le_bytes 8 n) ys (sym (length-le_bytes 8 n))) refl

token_bytes-append :
    (t : Token) (ds : List DocInvert) (ys : Bytes)
    → token_bytes t ds ++ ys
      ≡ le_bytes 8 t.token_id
        ++ (le_bytes 4 (length t.token_str)
            ++ (t.token_str ++ (le_bytes 4 (length ds) ++ (entries_bytes ds ++ ys))))
unfolding token_bytes le_bytes
token_bytes-append t ds ys =
    ap (λ zs. le_bytes 8 t.token_id ++ (le_bytes 4 (length t.token_str) ++ zs))
      (append_assoc t.token_str (le_bytes 4 (length ds) ++ entries_bytes ds) ys)

pub length-token_bytes : (t : Token) (ds : List DocInvert) → 0 < length (token_bytes t ds)
unfolding token_bytes le_bytes
length-token_bytes t ds = omega arith

-- Of a file below 2 ^ 31 bytes that is not at its end, the loop reads on.
is_left-some :
    (total : ℕ) (f : Bytes)
    → total < 2 ^ 31
    → length f ≤ total
    → 0 < length f
    → is_left total f ≡ true
unfolding is_left
is_left-some total f room inside some_bytes =
    rw (wrap_int-pos total room, wrap_int-pos (total - length f) (omega arith))
      (ground (arith, inside, some_bytes))

pub is_left-negsuc :
    (f : Bytes) → 2 ^ 31 ≤ length f → length f < 2 ^ 32 → is_left (length f) f ≡ false
unfolding is_left
is_left-negsuc f large small =
    let none_read : length f - length f ≡ 0 = omega arith in
    rw (none_read, wrap_int-negsuc (length f) large small) (ground arith)

pub is_left-nil : (total : ℕ) → is_left total [] ≡ false
unfolding is_left wrap_int
is_left-nil total = ground arith

pub read_tokens-token_bytes :
    (n total : ℕ) (t : Token) (ds : List DocInvert) (ys : Bytes) (inv : Inverter Token DocInvert)
    → IsShort t
    → AreEntries ds
    → length ds < 2 ^ 32
    → total < 2 ^ 31
    → length (token_bytes t ds ++ ys) ≤ total
    → read_tokens (suc n) total (token_bytes t ds ++ ys) inv
      ≡ read_tokens n total ys (add_each t ds inv)
unfolding IsShort
read_tokens-token_bytes n total t ds ys inv short entries small room inside =
    let split = token_bytes-append t ds ys in
    let some_bytes : 0 < length (token_bytes t ds ++ ys) =
      omega (arith, length-append (token_bytes t ds) ys, length-token_bytes t ds) in
    let left = is_left-some total (token_bytes t ds ++ ys) room inside some_bytes in
    ap (λ f. read_tokens (suc n) total f inv) split
    ∙ read_round n total t.token_id _ inv (ap (is_left total) (sym split) ∙ left)
    ∙ rw
        (
          read_word-eight t.token_id (
              le_bytes 4 (length t.token_str)
              ++ (t.token_str ++ (le_bytes 4 (length ds) ++ (entries_bytes ds ++ ys)))),
          read_str-IsShort t.token_str (le_bytes 4 (length ds) ++ (entries_bytes ds ++ ys)) short.1
              short.2,
          read_word-four (length ds) (entries_bytes ds ++ ys) small,
          sym short.0,
          read_inverts-entries t ds ys inv entries,
        )
        refl
