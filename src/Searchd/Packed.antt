-- ===== src/Searchd/Packed.antt =====
-- What the packers put into a result, for documents that come from rows.
use looka.Common.{
  ℕ, suc, ◌+◌, List, [], ◌∷◌, some, length, map, get_elem?, get_or, All, ◌≡◌, refl, ap, sym, ◌∙◌,
  arith,
}
use looka.Common.Bytes.{Bytes, codes}
use looka.Common.Result.{ok}
use looka.Attr.{attr_uint, attr_string, DocAttr, get_string, create_attr_names}
use looka.Attr.Strings.{get_string-create_attr_names}
use looka.Common.Int.{pos, wrap_int}
use looka.File.{until_zero}
use looka.StrUtils.{int_to_string}
use looka.Indexer.{Columns, Doc, make_attr}
use looka.Searchd.{NameMap}
use looka.Searchd.Names.{name_tables, ColumnsFit, locate, get_attr_name_index-name_tables}
use looka.Searchd.Packer.{
  put_uints, put_strings, put_attrs, JsonLib, XmlLib, json_docs, xml_docs, text_child, uint_child,
}
use looka.Searchd.Passes.{DocFits}

-- Each number and each string column has a name of its own, which is not empty.
unfoldable pub IsLocated : Columns → Type 0
IsLocated c =
    ((i : ℕ) (key : Bytes)
      → get_elem? c.sql_attr_uint i ≡ some key
      → locate c key ≡ some (attr_uint, i))
    × ((i : ℕ) (key : Bytes)
        → get_elem? c.sql_attr_string i ≡ some key
        → locate c key ≡ some (attr_string, i))

-- The values of some columns, in the order of the columns.
abbrev pub put_pairs {ℓ κ} :
    {X : Type ℓ} {V : Type κ} → (X → Bytes → V → X) → List Bytes → List V → X → X
put_pairs put [] vs item = item
put_pairs put (key ∷ keys) [] item = item
put_pairs put (key ∷ keys) (v ∷ vs) item = put_pairs put keys vs (put item key v)

-- The members of a document: the value of each number column, then of each string column.
abbrev pub put_doc {ℓ} :
    {X : Type ℓ} → (X → Bytes → ℕ → X) → (X → Bytes → Bytes → X) → Columns → Doc → X → X
put_doc put_uint put_string c d item =
    put_pairs put_string c.sql_attr_string d.sv (put_pairs put_uint c.sql_attr_uint d.uv item)

-- The documents of a JSON result: each item starts from the one before.
abbrev pub json_rows : {J : Type 0} → JsonLib J → Columns → List Doc → J → J → J
json_rows lib c [] item docs = docs
json_rows lib c (d ∷ ds) item docs =
    let item' = put_doc lib.set_uint lib.set_string c d item in
    json_rows lib c ds item' (lib.append docs item')

-- A child with a name and a text, both up to the first zero byte, and one with a number that is
-- printed as an `int`.
abbrev pub with_text : {X : Type 0} → XmlLib X → X → Bytes → Bytes → X
with_text lib x name text = lib.new_text_child x (until_zero name) (until_zero text)

abbrev with_number : {X : Type 0} → XmlLib X → X → Bytes → ℕ → X
with_number lib x name w = with_text lib x name (int_to_string (wrap_int (pos w)))

-- The documents of an XML result.
abbrev pub xml_rows : {X : Type 0} → XmlLib X → Columns → List Doc → X → X
xml_rows lib c [] docs_root = docs_root
xml_rows lib c (d ∷ ds) docs_root = xml_rows lib c ds (
    lib.add_child docs_root
      (put_doc (with_number lib) (with_text lib) c d (lib.new_node (codes "item"))))

here : (i : ℕ) → i + 0 ≡ i
here i = omega arith

next : (i j : ℕ) → i + suc j ≡ suc i + j
next i j = omega arith

zero_plus : (j : ℕ) → j ≡ 0 + j
zero_plus j = omega arith

module _ {X : Type 0} (put_uint : X → Bytes → ℕ → X) (put_string : X → Bytes → Bytes → X)
    (c : Columns) (tables junk : Bytes) (fit : ColumnsFit c) where
  abbrev names : NameMap
  names = name_tables c tables

  put_uints-next :
      (key : Bytes) (keys : List Bytes) (attr : DocAttr) (item : X) (i w : ℕ)
      → locate c key ≡ some (attr_uint, i)
      → get_elem? attr.u.words i ≡ some w
      → put_uints put_uint put_string (key ∷ keys) names attr item
        ≡ put_uints put_uint put_string keys names attr (put_uint item key w)
  unfolding put_uints
  put_uints-next key keys attr item i w l e =
      rw (put_uints, get_attr_name_index-name_tables c tables key fit, l, e) refl

  put_strings-next :
      (key : Bytes) (keys : List Bytes) (attr : DocAttr) (item : X) (i : ℕ) (s : Bytes)
      → locate c key ≡ some (attr_string, i)
      → get_string attr.s i ≡ some s
      → put_strings put_uint put_string (key ∷ keys) names attr item
        ≡ put_strings put_uint put_string keys names attr (put_string item key s)
  unfolding put_strings
  put_strings-next key keys attr item i s l e =
      rw (put_strings, get_attr_name_index-name_tables c tables key fit, l, e) refl

  put_uints-put_pairs :
      (keys : List Bytes) (ws : List ℕ) (i : ℕ) (attr : DocAttr) (item : X)
      → ((j : ℕ) (key : Bytes)
          → get_elem? keys j ≡ some key
          → locate c key ≡ some (attr_uint, i + j))
      → ((j : ℕ) → get_elem? attr.u.words (i + j) ≡ get_elem? ws j)
      → length keys ≡ length ws
      → put_uints put_uint put_string keys names attr item ≡ ok (put_pairs put_uint keys ws item)
  put_uints-put_pairs [] [] i attr item l v e = unfold put_uints in refl
  put_uints-put_pairs [] (w ∷ ws) i attr item l v e = absurd (omega arith)
  put_uints-put_pairs (key ∷ keys) [] i attr item l v e = absurd (omega arith)
  put_uints-put_pairs (key ∷ keys) (w ∷ ws) i attr item l v e =
      put_uints-next key keys attr item i w (l 0 key refl ∙ ap (λ k. some (attr_uint, k)) (here i))
        (ap (get_elem? attr.u.words) (sym (here i)) ∙ v 0)
      ∙ put_uints-put_pairs keys ws (suc i) attr (put_uint item key w)
          (λ j k h. l (suc j) k h ∙ ap (λ n. some (attr_uint, n)) (next i j))
          (λ j. ap (get_elem? attr.u.words) (sym (next i j)) ∙ v (suc j)) (omega arith)

  put_strings-put_pairs :
      (keys ss : List Bytes) (i : ℕ) (attr : DocAttr) (item : X)
      → ((j : ℕ) (key : Bytes)
          → get_elem? keys j ≡ some key
          → locate c key ≡ some (attr_string, i + j))
      → ((j : ℕ) → get_string attr.s (i + j) ≡ some (get_or ss j []))
      → length keys ≡ length ss
      → put_strings put_uint put_string keys names attr item
        ≡ ok (put_pairs put_string keys ss item)
  put_strings-put_pairs [] [] i attr item l v e = unfold put_strings in refl
  put_strings-put_pairs [] (s ∷ ss) i attr item l v e = absurd (omega arith)
  put_strings-put_pairs (key ∷ keys) [] i attr item l v e = absurd (omega arith)
  put_strings-put_pairs (key ∷ keys) (s ∷ ss) i attr item l v e =
      put_strings-next key keys attr item i s
        (l 0 key refl ∙ ap (λ k. some (attr_string, k)) (here i))
        (ap (get_string attr.s) (sym (here i)) ∙ v 0)
      ∙ put_strings-put_pairs keys ss (suc i) attr (put_string item key s)
          (λ j k h. l (suc j) k h ∙ ap (λ n. some (attr_string, n)) (next i j))
          (λ j. ap (get_string attr.s) (sym (next i j)) ∙ v (suc j)) (omega arith)

  put_attrs-make_attr :
      (d : Doc) (item : X)
      → IsLocated c
      → DocFits c d
      → put_attrs put_uint put_string c names (make_attr junk d) item
        ≡ ok (put_doc put_uint put_string c d item)
  unfolding put_attrs IsLocated DocFits make_attr
  put_attrs-make_attr d item located fits =
      rw
        (
          put_uints-put_pairs c.sql_attr_uint d.uv 0 (make_attr junk d) item
              (λ j key h. located.0 j key h ∙ ap (λ n. some (attr_uint, n)) (zero_plus j))
              (λ j. ap (get_elem? d.uv) (sym (zero_plus j))) (sym fits.0),
          put_strings-put_pairs c.sql_attr_string d.sv 0 (make_attr junk d) _
              (λ j key h. located.1 j key h ∙ ap (λ n. some (attr_string, n)) (zero_plus j))
              (λ j.
                ap (get_string (create_attr_names d.sv junk)) (sym (zero_plus j))
                ∙ get_string-create_attr_names d.sv junk j fits.4)
              (sym fits.3),
        )
        refl

module _ (c : Columns) (tables junk : Bytes) (fit : ColumnsFit c) (located : IsLocated c) where
  pub json_docs-json_rows :
      {J : Type 0} (lib : JsonLib J) (ds : List Doc) (item docs : J)
      → All (DocFits c) ds
      → json_docs lib c (name_tables c tables) (map (make_attr junk) ds) item docs
        ≡ ok (json_rows lib c ds item docs)
  unfolding json_docs
  json_docs-json_rows lib [] item docs h = refl
  json_docs-json_rows lib (d ∷ ds) item docs h =
      rw (put_attrs-make_attr lib.set_uint lib.set_string c tables junk fit d item located h.0)
        (json_docs-json_rows lib ds _ _ h.1)

  pub xml_docs-xml_rows :
      {X : Type 0} (lib : XmlLib X) (ds : List Doc) (docs_root : X)
      → All (DocFits c) ds
      → xml_docs lib c (name_tables c tables) (map (make_attr junk) ds) docs_root
        ≡ ok (xml_rows lib c ds docs_root)
  unfolding xml_docs
  xml_docs-xml_rows lib [] docs_root h = refl
  xml_docs-xml_rows lib (d ∷ ds) docs_root h =
      rw
        (put_attrs-make_attr (uint_child lib) (text_child lib) c tables junk fit d
          (lib.new_node (codes "item")) located h.0)
        (xml_docs-xml_rows lib ds _ h.1)
