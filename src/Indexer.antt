-- ===== src/Indexer.antt =====
-- src/indexer/looka_indexer.cpp: how the rows of the source become posting lists and attributes.
-- The segmenter and the C library's `atof` are parameters. Bytes that `malloc` leaves as they
-- were are a parameter too, `junk`.
pub mod Build
pub mod Hits
pub mod Tokens
pub mod Values
pub mod Postings
pub mod Rows
pub mod Summary
use looka.Common.{
  ℕ, zero, suc, ◌+◌, ◌-◌, ◌%◌, ◌^◌, List, [], ◌∷◌, ◌++◌, Option, none, some, Bool, true, false, not,
  ◌&&◌, ◌||◌, if◌then◌else◌, ltb, ◌==◌, length, map, replicate, set, take, is_empty, nat_eq,
}
use looka.Common.Bytes.{Bytes, bytes_beq, contains}
use looka.Common.Int.{to_u32}
use looka.Attr.{AttrWords, DocAttr, create_attr_names}
use looka.Inverter.{Inverter, new_inverter, add}
use looka.Inverter.Simple.{simple_add, simple_get_items, simple_get_keys}
use looka.Segmenter.{SegmentToken}
use looka.StrUtils.{split_string, trim, atoi}
use looka.Types.{DocInvert, Token, make_token, token_lt, token_eq}

-- `MysqlField`
pub record MysqlField : Type 0 where
  pub name : Bytes
  pub value : Bytes

-- The column lists of `LookaConfigSource` that the indexer reads.
pub record Columns : Type 0 where
  pub sql_attr_uint : List Bytes
  pub sql_attr_float : List Bytes
  pub sql_attr_multi : List Bytes
  pub sql_attr_string : List Bytes
  pub sql_field_string : List Bytes

-- `IsInFields`: the index of the column; `none` is the result false.
unfoldable pub is_in_fields : Bytes → List Bytes → Option ℕ
is_in_fields f [] = none
is_in_fields f (g ∷ fields) =
    if bytes_beq g f
    then some 0
    else elim (is_in_fields f fields) [ none ↦ none | some i ↦ some (suc i) ]

-- `CheckFields`: false is the result 0, all columns are there.
unfoldable pub check_fields : List Bytes → List Bytes → Bool
check_fields [] fields = false
check_fields (a ∷ attrs) fields = if contains a fields then check_fields attrs fields else true

-- `LookaSimpleInverter<FieldID, uint8_t>`: the positions of a token in each field.
abbrev pub FieldHits : Type 0
FieldHits = Inverter ℕ ℕ

-- `std::map<Token, LookaSimpleInverter<FieldID, uint8_t>*>`, in the order of `operator <`, which
-- compares the ids: two tokens of one id are one key.
abbrev pub TokenHits : Type 0
TokenHits = List (Token × FieldHits)

-- The hit of one token in a field: a new key gets an empty inverter first.
unfoldable pub add_hit : Token → ℕ → ℕ → TokenHits → TokenHits
unfolding token_lt simple_add new_inverter
add_hit t field_id pos [] = (t, (simple_add field_id pos new_inverter).1) ∷ []
add_hit t field_id pos ((k, hits) ∷ m) =
    if token_lt k t
    then (k, hits) ∷ add_hit t field_id pos m
    else if token_lt t k
    then (t, (simple_add field_id pos new_inverter).1) ∷ (k, hits) ∷ m
    else (k, (simple_add field_id pos hits).1) ∷ m

-- The positions are stored as `uint8_t`.
unfoldable pub add_hits : ℕ → List SegmentToken → TokenHits → TokenHits
unfolding add_hit
add_hits field_id [] m = m
add_hits field_id (s ∷ ss) m =
    add_hits field_id ss (add_hit (make_token s.str) field_id (s.pos % 256) m)

-- The vectors of one document while its fields are read.
pub record Doc : Type 0 where
  pub uv : List ℕ
  pub fv : List ℕ
  pub mv : List ℕ
  pub sv : List Bytes
  pub token_hits : TokenHits

-- Write at the column's index, if it is a column of the list.
abbrev pub at_column {ℓ} : {A : Type ℓ} → Option ℕ → A → List A → List A
at_column none v xs = xs
at_column (some i) v xs = set xs i v

unfoldable pub multi_values : List Bytes → List ℕ
unfolding trim atoi
multi_values [] = []
multi_values (v ∷ vs) =
    let rest = multi_values vs in if is_empty (trim v) then rest else to_u32 (atoi (trim v)) ∷ rest

module _ (c : Columns) (atof : Bytes → ℕ) (segment : Bytes → List SegmentToken) where
  unfoldable pub read_field : MysqlField → Doc → Doc
  unfolding is_in_fields multi_values split_string atoi add_hits
  read_field f d = record {
    uv = at_column (is_in_fields f.name c.sql_attr_uint) (to_u32 (atoi f.value)) d.uv;
    fv = at_column (is_in_fields f.name c.sql_attr_float) (atof f.value) d.fv;
    sv = at_column (is_in_fields f.name c.sql_attr_string) f.value d.sv;
    mv = elim (is_in_fields f.name c.sql_attr_multi) [
      | none ↦ d.mv
      | some _ ↦ d.mv ++ multi_values (split_string f.value b',')
    ];
    token_hits = elim (is_in_fields f.name c.sql_field_string) [
      | none ↦ d.token_hits
      | some i ↦ add_hits (i % 256) (segment f.value) d.token_hits
    ];
  }

  unfoldable pub read_fields : List MysqlField → Doc → Doc
  unfolding read_field
  read_fields [] d = d
  read_fields (f ∷ fs) d = read_fields fs (read_field f d)

  -- The vectors begin with a zero, or an empty string, for each column.
  unfoldable pub new_doc : Doc
  new_doc = record {
    uv = replicate (length c.sql_attr_uint) 0;
    fv = replicate (length c.sql_attr_float) 0;
    mv = replicate (length c.sql_attr_multi) 0;
    sv = replicate (length c.sql_attr_string) [];
    token_hits = [];
  }

-- The items of a field, which `GetItems` finds.
abbrev pub positions : ℕ → FieldHits → List ℕ
positions field_id hits = elim ((simple_get_items field_id hits none).1) [ none ↦ [] | some l ↦ l ]

-- The `HitPos` of each field: its id, a count of eight bits, and the positions.
unfoldable pub write_hits : List ℕ → FieldHits → Bytes
unfolding simple_get_items
write_hits [] hits = []
write_hits (f ∷ fs) hits =
    let p = positions f hits in f ∷ length p % 256 ∷ (p ++ write_hits fs hits)

-- The entry of a document under one of its tokens. `sizeof(DocInvert)` is 8 and the hits begin
-- behind the first five bytes, so three bytes of the allocation stay as they were. The size of
-- the hits is a `uint8_t`.
unfoldable pub make_invert : Bytes → ℕ → FieldHits → DocInvert
unfolding simple_get_keys write_hits
make_invert junk ldocid hits =
    let bytes = write_hits (simple_get_keys hits []).1 hits in
    record { local_id = ldocid; hits_size = length bytes % 256; hits = bytes ++ take 3 junk }

unfoldable pub add_inverts :
    Bytes → ℕ → TokenHits → Inverter Token DocInvert → Inverter Token DocInvert
unfolding make_invert add
add_inverts junk ldocid [] inverter = inverter
add_inverts junk ldocid ((t, hits) ∷ m) inverter =
    add_inverts junk ldocid m (add t (make_invert junk ldocid hits) inverter).1

-- `u->size` and the like are `uint8_t`. The strings are laid out as in `CreateAttrNames`, with the
-- same sizes of type `int`.
unfoldable pub make_attr : Bytes → Doc → DocAttr
unfolding create_attr_names
make_attr junk d = record {
  u = record { size = length d.uv % 256; words = d.uv };
  f = record { size = length d.fv % 256; words = d.fv };
  m = record { size = length d.mv % 256; words = d.mv };
  s = create_attr_names d.sv junk;
}

-- What the rows are added to.
pub record Store : Type 0 where
  pub inverter : Inverter Token DocInvert
  pub summary : List DocAttr

unfoldable pub new_store : Store
unfolding new_inverter
new_store = record { inverter = new_inverter; summary = [] }

-- A configured column that the rows do not have ends the loop.
unfoldable pub misses_column : Columns → List Bytes → Bool
unfolding check_fields
misses_column c fn =
    check_fields c.sql_attr_uint fn
    || check_fields c.sql_attr_float fn
    || check_fields c.sql_attr_multi fn
    || check_fields c.sql_attr_string fn
    || check_fields c.sql_field_string fn

module _ (c : Columns) (atof : Bytes → ℕ) (segment : Bytes → List SegmentToken) (junk : Bytes) where
  -- `ProcessDoc`
  unfoldable pub process_doc : ℕ → List MysqlField → Store → Store
  unfolding read_fields new_doc add_inverts make_attr
  process_doc ldocid doc_fields st =
      let d = read_fields c atof segment doc_fields (new_doc c atof segment) in
      record {
        inverter = add_inverts junk ldocid d.token_hits st.inverter;
        summary = st.summary ++ (make_attr junk d ∷ []);
      }

  -- `while (mysql->SqlFetchRow(fs))` of `DoIndex`, over the rows that are fetched.
  unfoldable pub index_rows : List (List MysqlField) → ℕ → List Bytes → Store → ℕ × Store
  unfolding process_doc misses_column
  index_rows [] ldocid fn st = (ldocid, st)
  index_rows (fs ∷ rows) ldocid fn st =
      let fn' = fn ++ map (λ f. f.name) (take (length fs - length fn) fs) in
      let next = index_rows rows ((ldocid + 1) % 2 ^ 32) fn' (process_doc ldocid fs st) in
      if misses_column c fn' then (ldocid, st) else next
