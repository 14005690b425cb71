-- ===== src/Searchd/Names.antt =====
-- `GetAttrNameIndex` on the name tables that the indexer makes of its columns.
use looka.Common.{
  ℕ, zero, suc, ◌+◌, List, [], ◌∷◌, Option, none, some, false, if◌then◌else◌, length, get_or, drop,
  is_empty, ◌≡◌, refl, ap, ◌∙◌, arith, Bool-cases, inl, inr,
}
use looka.Common.Bytes.{Bytes, bytes_beq}
use looka.Common.Result.{ok}
use looka.Attr.{
  DocAttrType, attr_uint, attr_float, attr_multi, attr_string, AttrString, create_attr_names,
  get_string,
}
use looka.Attr.Strings.{Fits, get_string-create_attr_names}
use looka.Indexer.{Columns, is_in_fields}
use looka.Searchd.{NameMap, name_index, type_index, get_attr_name_index}

-- The tables of a source's columns, in the order of the map.
abbrev pub name_tables : Columns → Bytes → NameMap
name_tables c junk =
    (attr_uint, create_attr_names c.sql_attr_uint junk)
    ∷ (attr_float, create_attr_names c.sql_attr_float junk)
    ∷ (attr_multi, create_attr_names c.sql_attr_multi junk)
    ∷ (attr_string, create_attr_names c.sql_attr_string junk)
    ∷ []

-- Each table holds its names.
unfoldable pub ColumnsFit : Columns → Type 0
ColumnsFit c =
    Fits c.sql_attr_uint × Fits c.sql_attr_float × Fits c.sql_attr_multi × Fits c.sql_attr_string

-- A later type takes over where its columns have the name.
abbrev pub or_later : DocAttrType → Option ℕ → Option (DocAttrType × ℕ) → Option (DocAttrType × ℕ)
or_later type none found = found
or_later type (some i) found = some (type, i)

-- The column of a name: of two types the later one, of two columns of a type the first.
unfoldable pub locate : Columns → Bytes → Option (DocAttrType × ℕ)
locate c key =
    if is_empty key
    then none
    else or_later attr_string (is_in_fields key c.sql_attr_string) (
        or_later attr_multi (is_in_fields key c.sql_attr_multi) (
          or_later attr_float (is_in_fields key c.sql_attr_float)
            (or_later attr_uint (is_in_fields key c.sql_attr_uint) none)))

-- An index among the names from number `i` on.
abbrev shifted : ℕ → Option ℕ → Option ℕ
shifted i none = none
shifted i (some k) = some (i + k)

name_index-step :
    (n : ℕ) (names : AttrString) (s name : Bytes) (i : ℕ)
    → get_string names i ≡ some name
    → name_index (suc n) names s i
      ≡ (if bytes_beq name s then ok (some i) else name_index n names s (i + 1))
unfolding name_index
name_index-step n names s name i e = rw (e) refl

drop_next :
    (cols : List Bytes) (i : ℕ) (c : Bytes) (rest : List Bytes)
    → drop i cols ≡ c ∷ rest
    → drop (i + 1) cols ≡ rest
drop_next cols i c rest e = let next : i + 1 ≡ suc i = omega arith in rw (next) (go cols i c rest e)
  where
    go :
        (cols : List Bytes) (i : ℕ) (c : Bytes) (rest : List Bytes)
        → drop i cols ≡ c ∷ rest
        → drop (suc i) cols ≡ rest
    go [] zero c rest e = cc
    go [] (suc i) c rest e = cc
    go (x ∷ cols) zero c rest e = cc
    go (x ∷ cols) (suc i) c rest e = go cols i c rest e

shift_next :
    (i : ℕ) (c : Bytes) (rest : List Bytes) (s : Bytes) (o : Option ℕ)
    → bytes_beq c s ≡ false
    → is_in_fields s rest ≡ o
    → ok (shifted (i + 1) o) ≡ ok (shifted i (is_in_fields s (c ∷ rest)))
unfolding is_in_fields
shift_next i c rest s none later e = rw (later, e) refl
shift_next i c rest s (some k) later e =
    let moved : i + 1 + k ≡ i + suc k = omega arith in rw (later, e) (ap (λ j. ok (some j)) moved)

name_index-create_attr_names :
    (cols rest : List Bytes) (junk s : Bytes) (i : ℕ)
    → Fits cols
    → drop i cols ≡ rest
    → name_index (length rest) (create_attr_names cols junk) s i
      ≡ ok (shifted i (is_in_fields s rest))
name_index-create_attr_names cols [] junk s i fits e = unfold name_index is_in_fields in refl
name_index-create_attr_names cols (c ∷ rest) junk s i fits e =
    name_index-step (length rest) (create_attr_names cols junk) s c i
      (get_string-create_attr_names cols junk i fits ∙ ap some (head_drop cols i c rest e))
    ∙ elim (Bool-cases (bytes_beq c s)) [
      | inl here ↦
          let zeroth : i ≡ i + 0 = omega arith in
          rw (here) (unfold is_in_fields in rw (here) (ap (λ k. ok (some k)) zeroth))
      | inr later ↦ rw (later) (
          name_index-create_attr_names cols rest junk s (i + 1) fits (drop_next cols i c rest e)
          ∙ shift_next i c rest s (is_in_fields s rest) later refl)
    ]
  where
    head_drop :
        (cols : List Bytes) (i : ℕ) (c : Bytes) (rest : List Bytes)
        → drop i cols ≡ c ∷ rest
        → get_or cols i [] ≡ c
    head_drop [] zero c rest e = cc
    head_drop [] (suc i) c rest e = cc
    head_drop (x ∷ cols) zero c rest e = cc
    head_drop (x ∷ cols) (suc i) c rest e = head_drop cols i c rest e

type_index_found :
    (type : DocAttrType) (names : AttrString) (m : NameMap) (s : Bytes)
    (found : Option (DocAttrType × ℕ)) (o : Option ℕ)
    → name_index names.size names s 0 ≡ ok o
    → type_index ((type, names) ∷ m) s found ≡ type_index m s (or_later type o found)
unfolding type_index
type_index_found type names m s found none e = rw (e) refl
type_index_found type names m s found (some i) e = rw (e) refl

type_index-create_attr_names :
    (type : DocAttrType) (cols : List Bytes) (junk : Bytes) (m : NameMap) (s : Bytes)
    (found : Option (DocAttrType × ℕ))
    → Fits cols
    → type_index ((type, create_attr_names cols junk) ∷ m) s found
      ≡ type_index m s (or_later type (is_in_fields s cols) found)
type_index-create_attr_names type cols junk m s found fits =
    type_index_found type (create_attr_names cols junk) m s found (is_in_fields s cols) (
      ap (λ n. name_index n (create_attr_names cols junk) s 0) (size_fits fits)
      ∙ name_index-create_attr_names cols cols junk s 0 fits refl
      ∙ ap ok (shifted-zero (is_in_fields s cols)))
  where
    size_fits : Fits cols → (create_attr_names cols junk).size ≡ length cols
    size_fits fits = unfold create_attr_names in omega (arith, fits.0)

    shifted-zero : (o : Option ℕ) → shifted 0 o ≡ o
    shifted-zero none = refl
    shifted-zero (some k) = let e : 0 + k ≡ k = omega arith in ap some e

pub get_attr_name_index-name_tables :
    (c : Columns) (junk key : Bytes)
    → ColumnsFit c
    → get_attr_name_index (name_tables c junk) key ≡ ok (locate c key)
unfolding get_attr_name_index locate ColumnsFit
get_attr_name_index-name_tables c junk key fits = elim (Bool-cases (is_empty key)) [
  | inl none_there ↦ rw (none_there) refl
  | inr there ↦
      let m3 : NameMap = (attr_string, create_attr_names c.sql_attr_string junk) ∷ [] in
      let m2 : NameMap = (attr_multi, create_attr_names c.sql_attr_multi junk) ∷ m3 in
      let m1 : NameMap = (attr_float, create_attr_names c.sql_attr_float junk) ∷ m2 in
      let f1 = or_later attr_uint (is_in_fields key c.sql_attr_uint) none in
      let f2 = or_later attr_float (is_in_fields key c.sql_attr_float) f1 in
      let f3 = or_later attr_multi (is_in_fields key c.sql_attr_multi) f2 in
      rw (there) (
        type_index-create_attr_names attr_uint c.sql_attr_uint junk m1 key none fits.0
        ∙ type_index-create_attr_names attr_float c.sql_attr_float junk m2 key f1 fits.1
        ∙ type_index-create_attr_names attr_multi c.sql_attr_multi junk m3 key f2 fits.2
        ∙ type_index-create_attr_names attr_string c.sql_attr_string junk [] key f3 fits.3
        ∙ (unfold type_index in refl))
]
