-- ===== src/Searchd/Packer.antt =====
-- src/searchd/looka_result_packer.cpp: the text of a result. What jsoncpp and libxml2 do with the
-- calls is a parameter: a value that is changed in place is the new value of the call.
use looka.Common.{
  ℕ, List, [], ◌∷◌, ◌++◌, Option, none, some, Bool, if◌then◌else◌, get_elem?, length, map,
}
use looka.Common.Bytes.{Bytes, codes, bytes_beq, to_lower_char}
use looka.Common.Int.{ℤ, pos, wrap_int}
use looka.Common.Result.{Result, ok, ◌>>=◌, or_fault}
use looka.Attr.{DocAttrType, attr_uint, attr_float, attr_multi, attr_string, DocAttr, get_string}
use looka.File.{until_zero}
use looka.Indexer.{Columns}
use looka.Searchd.{NameMap, get_attr_name_index}
use looka.StrUtils.{int_to_string}

-- The calls of jsoncpp: an empty value, `root[k] = v` for the kinds of `v` that occur, `append`
-- and `toStyledString`.
pub record JsonLib (J : Type 0) : Type 0 where
  pub null_value : J
  pub set_string : J → Bytes → Bytes → J
  pub set_uint : J → Bytes → ℕ → J
  pub set_value : J → Bytes → J → J
  pub append : J → J → J
  pub to_styled_string : J → Bytes

-- The calls of libxml2: a node of a name, a child of a name and a text, a child that is a node,
-- and the document of a root as text.
pub record XmlLib (X : Type 0) : Type 0 where
  pub new_node : Bytes → X
  pub new_text_child : X → Bytes → Bytes → X
  pub add_child : X → X → X
  pub dump_format_memory_enc : X → Bytes

-- What `PackResult` puts before the extra pairs.
unfoldable pub pack_summary : Bytes → ℕ → List (Bytes × Bytes) → List (Bytes × Bytes)
unfolding int_to_string
pack_summary query doc_num extra =
    (codes "query", query) ∷ (codes "doc_num", int_to_string (wrap_int (pos doc_num))) ∷ extra

-- `LookaResultPacker::GetAttrNameIndex` has the code of `LookaSearchd::GetAttrNameIndex`.
abbrev pub attr_name_index : NameMap → Bytes → Result (Option (DocAttrType × ℕ))
attr_name_index = get_attr_name_index

module _ {X : Type 0} (put_uint : X → Bytes → ℕ → X) (put_string : X → Bytes → Bytes → X) where
  -- `GetAttrNameIndex(...) && type == ATTR_TYPE_UINT`
  abbrev put_found_uint : Option (DocAttrType × ℕ) → X → Bytes → DocAttr → Result X
  put_found_uint none item key attr = ok item
  put_found_uint (some (attr_uint, idx)) item key attr = do
    w ← or_fault (get_elem? attr.u.words idx)
    ok (put_uint item key w)
  put_found_uint (some (attr_float, idx)) item key attr = ok item
  put_found_uint (some (attr_multi, idx)) item key attr = ok item
  put_found_uint (some (attr_string, idx)) item key attr = ok item

  -- The loop over `source->sql_attr_uint`.
  unfoldable pub put_uints : List Bytes → NameMap → DocAttr → X → Result X
  unfolding get_attr_name_index
  put_uints [] attrnames attr item = ok item
  put_uints (key ∷ keys) attrnames attr item = do
    found ← attr_name_index attrnames key
    item' ← put_found_uint found item key attr
    put_uints keys attrnames attr item'

  -- `GetAttrNameIndex(...) && type == ATTR_TYPE_STRING`
  abbrev put_found_string : Option (DocAttrType × ℕ) → X → Bytes → DocAttr → Result X
  put_found_string none item key attr = ok item
  put_found_string (some (attr_string, idx)) item key attr = do
    s ← or_fault (get_string attr.s idx)
    ok (put_string item key s)
  put_found_string (some (attr_uint, idx)) item key attr = ok item
  put_found_string (some (attr_float, idx)) item key attr = ok item
  put_found_string (some (attr_multi, idx)) item key attr = ok item

  -- The loop over `source->sql_attr_string`.
  unfoldable pub put_strings : List Bytes → NameMap → DocAttr → X → Result X
  unfolding get_attr_name_index
  put_strings [] attrnames attr item = ok item
  put_strings (key ∷ keys) attrnames attr item = do
    found ← attr_name_index attrnames key
    item' ← put_found_string found item key attr
    put_strings keys attrnames attr item'

  -- The two loops for one document.
  unfoldable pub put_attrs : Columns → NameMap → DocAttr → X → Result X
  unfolding put_uints put_strings
  put_attrs source attrnames attr item = do
    item' ← put_uints source.sql_attr_uint attrnames attr item
    put_strings source.sql_attr_string attrnames attr item'

module _ {J : Type 0} (lib : JsonLib J) where
  -- `root[k] = v` for the pairs of the summary.
  unfoldable pub json_summary : List (Bytes × Bytes) → J → J
  json_summary [] root = root
  json_summary ((k, v) ∷ summary) root = json_summary summary (lib.set_string root k v)

  -- The loop over the documents. `item` is declared before it: it keeps what the document before
  -- has set.
  unfoldable pub json_docs : Columns → NameMap → List DocAttr → J → J → Result J
  unfolding put_attrs
  json_docs source attrnames [] item docs = ok docs
  json_docs source attrnames (attr ∷ attrs) item docs = do
    item' ← put_attrs lib.set_uint lib.set_string source attrnames attr item
    json_docs source attrnames attrs item' (lib.append docs item')

  -- `LookaResultJsonPacker::PackResultInternal`, with the microseconds that it took.
  unfoldable pub pack_json :
      Columns → List (Bytes × Bytes) → List DocAttr → NameMap → ℤ → Result Bytes
  unfolding json_summary json_docs int_to_string
  pack_json source summary docs attrnames wastetime_us = do
    json ← json_docs source attrnames docs lib.null_value lib.null_value
    (let root = lib.set_value (json_summary summary lib.null_value) (codes "docs") json in
        ok (
          lib.to_styled_string
            (lib.set_string root (codes "pack_cost") (int_to_string wastetime_us ++ codes "us"))))

module _ {X : Type 0} (lib : XmlLib X) where
  -- `xmlNewTextChild` with the C strings of two strings.
  abbrev pub text_child : X → Bytes → Bytes → X
  text_child parent tag val = lib.new_text_child parent (until_zero tag) (until_zero val)

  -- `intToString(static_cast<int>(attr->u->data[idx]))`
  abbrev pub uint_child : X → Bytes → ℕ → X
  uint_child item tag w = text_child item tag (int_to_string (wrap_int (pos w)))

  unfoldable pub xml_summary : List (Bytes × Bytes) → X → X
  unfolding until_zero
  xml_summary [] display = display
  xml_summary ((k, v) ∷ summary) display = xml_summary summary (text_child display k v)

  unfoldable pub xml_docs : Columns → NameMap → List DocAttr → X → Result X
  unfolding put_attrs until_zero int_to_string
  xml_docs source attrnames [] docs_root = ok docs_root
  xml_docs source attrnames (attr ∷ attrs) docs_root = do
    item ← put_attrs uint_child text_child source attrnames attr (lib.new_node (codes "item"))
    xml_docs source attrnames attrs (lib.add_child docs_root item)

  -- `LookaResultXmlPacker::PackResultInternal`, with the microseconds that it took.
  unfoldable pub pack_xml :
      Columns → List (Bytes × Bytes) → List DocAttr → NameMap → ℤ → Result Bytes
  unfolding xml_summary xml_docs int_to_string until_zero
  pack_xml source summary docs attrnames wastetime_us = do
    docs_root ← xml_docs source attrnames docs (lib.new_node (codes "docs"))
    (let display = xml_summary summary (lib.new_node (codes "display")) in
        ok (
          lib.dump_format_memory_enc (
            lib.add_child
              (text_child display (codes "pack_cost") (int_to_string wastetime_us ++ codes "us"))
              docs_root)))

pub data ResultPacker : Type 0 where
  basic_packer json_packer xml_packer : ResultPacker

-- `strcasecmp(a, b) == 0`
abbrev pub equal_nocase : Bytes → Bytes → Bool
equal_nocase a b = bytes_beq (map to_lower_char (until_zero a)) (map to_lower_char (until_zero b))

-- `GetResultPacker`
unfoldable pub get_result_packer : Bytes → ResultPacker
unfolding until_zero
get_result_packer format =
    if equal_nocase format (codes "json")
    then json_packer
    else if equal_nocase format (codes "xml")
    then xml_packer
    else basic_packer

-- `PackResult` of a packer: the basic one returns the empty string.
unfoldable pub pack_result :
    {J X : Type 0}
    → JsonLib J
    → XmlLib X
    → ResultPacker
    → Columns
    → Bytes
    → List DocAttr
    → NameMap
    → List (Bytes × Bytes)
    → ℤ
    → Result Bytes
unfolding pack_summary pack_json pack_xml
pack_result json xml basic_packer source query docs attrnames extra wastetime_us = ok []
pack_result json xml json_packer source query docs attrnames extra wastetime_us =
    pack_json json source (pack_summary query (length docs) extra) docs attrnames wastetime_us
pack_result json xml xml_packer source query docs attrnames extra wastetime_us =
    pack_xml xml source (pack_summary query (length docs) extra) docs attrnames wastetime_us
