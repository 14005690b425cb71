-- ===== src/Attr.antt =====
-- The attributes of a document (src/looka_types.hpp) and the name tables of the same layout
-- (`CreateAttrNames` of src/indexer/looka_indexer.cpp). The memory of an AttrString behind `size`
-- is a list of bytes: `size` words with the lengths, then the strings, each with one byte more.
pub mod Layout
pub mod Strings
use looka.Common.{
  ℕ, zero, suc, ◌+◌, ◌*◌, ◌%◌, ◌^◌, List, [], ◌∷◌, ◌++◌, Option, none, some, if◌then◌else◌, length,
  ltb,
}
use looka.Common.Bytes.{Bytes}
use looka.Str2id.{le_word}
use looka.Words.{le_bytes, slice}

pub data DocAttrType : Type 0 where
  attr_uint attr_float attr_multi attr_string : DocAttrType

-- `AttrUint`, `AttrFloat` and `AttrMulti`: a float is its bit pattern of 32 bits.
pub record AttrWords : Type 0 where
  pub size : ℕ
  pub words : List ℕ

pub record AttrString : Type 0 where
  pub size : ℕ
  pub mem : Bytes

pub record DocAttr : Type 0 where
  pub u : AttrWords
  pub f : AttrWords
  pub m : AttrWords
  pub s : AttrString

-- `len[i]`; `none` is a read outside of the allocation.
unfoldable pub len_at : Bytes → ℕ → Option ℕ
unfolding slice le_word
len_at mem i = elim (slice mem (4 * i) 4) [ none ↦ none | some w ↦ some (le_word w) ]

-- `for (int i=0; i<idx; i++) pos += len[i] + 1;`, with `n` rounds left and `i` done.
unfoldable pub string_pos : ℕ → Bytes → ℕ → ℕ → Option ℕ
unfolding len_at
string_pos zero mem i pos = some pos
string_pos (suc n) mem i pos = elim (len_at mem i) [
  | none ↦ none
  | some l ↦ string_pos n mem (i + 1) ((pos + l + 1) % 2 ^ 32)
]

-- `AttrString::GetString`, for an index that is not negative. Past the last string it returns
-- the empty string.
unfoldable pub get_string : AttrString → ℕ → Option Bytes
unfolding string_pos len_at slice
get_string a idx =
    let read = do pos ← string_pos idx a.mem 0 (4 * a.size); l ← len_at a.mem idx; slice a.mem pos l
    in if ltb idx a.size then read else some []
  where
    infixl 5 ◌>>=◌
    ◌>>=◌ : {A B : Type 0} → Option A → (A → Option B) → Option B
    none >>= f = none
    some a >>= f = f a

-- The words `len[i]`.
unfoldable pub len_words : List Bytes → Bytes
unfolding le_bytes
len_words [] = []
len_words (s ∷ ss) = le_bytes 4 (length s) ++ len_words ss

-- The strings, each with a byte behind it that `malloc` left as it was: the first of `junk`.
unfoldable pub string_area : List Bytes → Bytes → Bytes
string_area [] junk = []
string_area (s ∷ ss) [] = s ++ (0 ∷ string_area ss [])
string_area (s ∷ ss) (j ∷ junk) = s ++ (j ∷ string_area ss junk)

-- `s_alloc_size += attrs[i].length() + 1` over the strings.
unfoldable pub add_lengths : List Bytes → ℕ → ℕ
add_lengths [] s_alloc_size = s_alloc_size
add_lengths (s ∷ ss) s_alloc_size = add_lengths ss (s_alloc_size + (length s + 1))

-- `sizeof(AttrNames)` is 4.
unfoldable pub alloc_size : List Bytes → ℕ
unfolding add_lengths
alloc_size attrs = add_lengths attrs (4 + 4 * length attrs)

-- `CreateAttrNames`, and the same lines for a document's strings in `ProcessDoc`. The size is a
-- `uint8_t`. `s_alloc_size`, `offset`, `cur_pos` and `abs_pos` are an `int`: from 2 ^ 31 bytes on
-- they overflow, and no byte of the object can be read.
unfoldable pub create_attr_names : List Bytes → Bytes → AttrString
unfolding alloc_size len_words string_area
create_attr_names attrs junk = record {
  size = length attrs % 256;
  mem = if ltb (alloc_size attrs) (2 ^ 31) then len_words attrs ++ string_area attrs junk else [];
}
