-- ===== src/Searchd/Passes.antt =====
-- `DropByFilter` on a document that the indexer made, against the document's columns.
use mathlib.Core.Path.{subst}
use looka.Common.{
  ℕ, zero, suc, ◌<◌, ◌≤◌, List, [], ◌∷◌, Option, none, some, Bool, true, false, not, ◌&&◌,
  if◌then◌else◌, length, get_or, get_elem?, is_empty, ◌≡◌, refl, arith, Bool-cases, Option-cases,
  inl, inr,
}
use looka.Common.Bytes.{Bytes, bytes_beq, contains}
use looka.Common.Result.{ok}
use looka.Attr.{DocAttrType, attr_uint, attr_float, attr_multi, attr_string, DocAttr}
use looka.Attr.Strings.{Fits, get_string-create_attr_names}
use looka.Indexer.{Columns, Doc, is_in_fields, make_attr}
use looka.Request.{Filter}
use looka.Searchd.{NameMap, get_attr_name_index, attr_value, drop_by_filter}
use looka.Searchd.Names.{ColumnsFit, name_tables, or_later, locate, get_attr_name_index-name_tables}
use looka.StrUtils.{uint_to_string}

-- A document has a value for each column, and its strings fit their object.
unfoldable pub DocFits : Columns → Doc → Type 0
DocFits c d =
    (length d.uv ≡ length c.sql_attr_uint)
    × (length d.fv ≡ length c.sql_attr_float)
    × (length c.sql_attr_multi ≤ length d.mv)
    × (length d.sv ≡ length c.sql_attr_string)
    × Fits d.sv

abbrev width : Columns → DocAttrType → ℕ
width c attr_uint = length c.sql_attr_uint
width c attr_float = length c.sql_attr_float
width c attr_multi = length c.sql_attr_multi
width c attr_string = length c.sql_attr_string

abbrev IsColumn : Columns → Option (DocAttrType × ℕ) → Type 0
IsColumn c none = Unit
IsColumn c (some (type, i)) = i < width c type

is_in_fields-lt :
    (s : Bytes) (cols : List Bytes) (i : ℕ) → is_in_fields s cols ≡ some i → i < length cols
unfolding is_in_fields
is_in_fields-lt s [] i e = cc
is_in_fields-lt s (c ∷ cols) i e = elim (Bool-cases (bytes_beq c s)) [
  | inl here ↦ ground (arith, here, e)
  | inr later ↦ elim (Option-cases (is_in_fields s cols)) [
    | inl absent ↦ ground (arith, later, absent, e)
    | inr (k, there) ↦ ground (arith, later, there, e, is_in_fields-lt s cols k there)
  ]
]

or_later-IsColumn :
    (c : Columns) (type : DocAttrType) (o : Option ℕ) (found : Option (DocAttrType × ℕ))
    → ((i : ℕ) → o ≡ some i → i < width c type)
    → IsColumn c found
    → IsColumn c (or_later type o found)
or_later-IsColumn c type none found h f = f
or_later-IsColumn c type (some i) found h f = h i refl

locate-IsColumn : (c : Columns) (key : Bytes) → IsColumn c (locate c key)
unfolding locate
locate-IsColumn c key = elim (Bool-cases (is_empty key)) [
  | inl none_there ↦ rw (none_there) tt
  | inr there ↦ rw (there) (
      or_later-IsColumn c attr_string (is_in_fields key c.sql_attr_string) _
        (is_in_fields-lt key c.sql_attr_string)
        (or_later-IsColumn c attr_multi (is_in_fields key c.sql_attr_multi) _
          (is_in_fields-lt key c.sql_attr_multi)
          (or_later-IsColumn c attr_float (is_in_fields key c.sql_attr_float) _
            (is_in_fields-lt key c.sql_attr_float)
            (or_later-IsColumn c attr_uint (is_in_fields key c.sql_attr_uint) none
              (is_in_fields-lt key c.sql_attr_uint) tt))))
]

get_elem?-get_or {ℓ} :
    {A : Type ℓ} (xs : List A) (i : ℕ) (a : A)
    → i < length xs
    → get_elem? xs i ≡ some (get_or xs i a)
get_elem?-get_or [] i a h = absurd (omega arith)
get_elem?-get_or (x ∷ xs) zero a h = refl
get_elem?-get_or (x ∷ xs) (suc i) a h = get_elem?-get_or xs i a (omega arith)

module _ (float_to_string : ℕ → Bytes) where
  -- The text of a document's value in a column.
  unfoldable pub value_at : Doc → DocAttrType → ℕ → Bytes
  value_at d attr_uint i = uint_to_string (get_or d.uv i 0)
  value_at d attr_float i = float_to_string (get_or d.fv i 0)
  value_at d attr_multi i = uint_to_string (get_or d.mv i 0)
  value_at d attr_string i = get_or d.sv i []

  attr_value-make_attr :
      (c : Columns) (junk : Bytes) (d : Doc) (type : DocAttrType) (i : ℕ)
      → DocFits c d
      → i < width c type
      → attr_value float_to_string (make_attr junk d) type i ≡ ok (value_at d type i)
  unfolding DocFits attr_value make_attr value_at
  attr_value-make_attr c junk d attr_uint i fits h =
      rw (get_elem?-get_or d.uv i 0 (omega arith)) refl
  attr_value-make_attr c junk d attr_float i fits h =
      rw (get_elem?-get_or d.fv i 0 (omega arith)) refl
  attr_value-make_attr c junk d attr_multi i fits h =
      rw (get_elem?-get_or d.mv i 0 (omega arith)) refl
  attr_value-make_attr c junk d attr_string i fits h =
      rw (get_string-create_attr_names d.sv junk i fits.4) refl

  -- A key that names a column admits the values that are listed for it.
  unfoldable pub admits : Doc → Option (DocAttrType × ℕ) → List Bytes → Bool
  unfolding value_at
  admits d none values = true
  admits d (some (type, i)) values = contains (value_at d type i) values

  unfoldable pub passes : Columns → Doc → Filter → Bool
  unfolding admits
  passes c d [] = true
  passes c d ((key, values) ∷ filter) = admits d (locate c key) values && passes c d filter

  drop_by_filter-step :
      (m : NameMap) (attr : DocAttr) (d : Doc) (key : Bytes) (values : List Bytes) (filter : Filter)
      (o : Option (DocAttrType × ℕ)) (rest : Bool)
      → get_attr_name_index m key ≡ ok o
      → ((type : DocAttrType) (i : ℕ)
          → o ≡ some (type, i)
          → attr_value float_to_string attr type i ≡ ok (value_at d type i))
      → drop_by_filter float_to_string m attr filter ≡ ok (not rest)
      → drop_by_filter float_to_string m attr ((key, values) ∷ filter)
        ≡ ok (not (admits d o values && rest))
  unfolding drop_by_filter admits
  drop_by_filter-step m attr d key values filter none rest e v ih = rw (e) ih
  drop_by_filter-step m attr d key values filter (some (type, i)) rest e v ih =
      rw (e, v type i refl, ih) (by_test (contains (value_at d type i) values))
    where
      by_test : (b : Bool) → (if b then ok (not rest) else ok true) ≡ ok (not (b && rest))
      by_test true = refl
      by_test false = refl

  -- For columns whose name tables fit and a document that has a value for each column,
  -- `DropByFilter` reads only inside of the document's objects, and drops the document exactly if
  -- some key of the filter names a column in which the document has none of the key's values. Of
  -- columns with one name the last type's first column counts; an unknown key drops nothing.
  pub drop_by_filter-make_attr :
      (c : Columns) (tables junk : Bytes) (d : Doc) (filter : Filter)
      → ColumnsFit c
      → DocFits c d
      → drop_by_filter float_to_string (name_tables c tables) (make_attr junk d) filter
        ≡ ok (not (passes c d filter))
  unfolding passes
  drop_by_filter-make_attr c tables junk d [] fit fits = unfold drop_by_filter in refl
  drop_by_filter-make_attr c tables junk d ((key, values) ∷ filter) fit fits =
      drop_by_filter-step (name_tables c tables) (make_attr junk d) d key values filter
        (locate c key) (passes c d filter) (get_attr_name_index-name_tables c tables key fit)
        (λ type i e.
          attr_value-make_attr c junk d type i fits (subst (IsColumn c) e (locate-IsColumn c key)))
        (drop_by_filter-make_attr c tables junk d filter fit fits)
