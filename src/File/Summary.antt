-- ===== src/File/Summary.antt =====
-- src/looka_file.cpp: the four summary files, one for each type of attribute. A slot of the
-- summary that is read is a pointer to a `DocAttr`, and so are its members: `none` is null. A read
-- past the end of a file or of an object is a fault, and so is a size that is negative as an int.
pub mod Objects
pub mod RoundTrip
use looka.Common.{
  ℕ, zero, suc, ◌+◌, ◌*◌, ◌%◌, ◌^◌, List, [], ◌∷◌, ◌++◌, Option, none, some, Bool, true, false,
  ◌&&◌, if◌then◌else◌, ltb, ◌==◌, length, take, replicate, is_empty,
}
use looka.Common.Bytes.{Bytes}
use looka.Common.Result.{Result, ok, fault, stuck, ◌>>=◌, or_fault}
use looka.Attr.{
  DocAttrType, attr_uint, attr_float, attr_multi, attr_string, AttrWords, AttrString, DocAttr,
  string_pos,
}
use looka.File.{read_bytes, read_word}
use looka.Words.{le_bytes, slice}

-- `(char*)(u->data)`: the bytes of the words.
unfoldable pub words_bytes : List ℕ → Bytes
unfolding le_bytes
words_bytes [] = []
words_bytes (w ∷ ws) = le_bytes 4 w ++ words_bytes ws

-- `file.write` of an AttrUint, AttrFloat or AttrMulti: its size, then `size` words of four bytes.
unfoldable pub write_words : AttrWords → Result Bytes
unfolding words_bytes slice
write_words a = do
  data_bytes ← or_fault (slice (words_bytes a.words) 0 (a.size * 4))
  ok (a.size ∷ data_bytes)

-- `data_size += len[j] + 1` for each of `size` lengths, an int.
unfoldable pub strings_size : ℕ → Bytes → Result ℕ
unfolding string_pos
strings_size size lens = do
  n ← or_fault (string_pos size lens 0 0)
  if ltb n (2 ^ 31) then ok n else fault

-- `file.write` of an AttrString or an AttrNames: its size, its lengths, then its strings.
unfoldable pub write_string : AttrString → Result Bytes
unfolding strings_size slice
write_string a = do
  lens ← or_fault (slice a.mem 0 (a.size * 4))
  data_size ← strings_size a.size lens
  strings ← or_fault (slice a.mem (a.size * 4) data_size)
  ok (a.size ∷ (lens ++ strings))

unfoldable pub write_attr : DocAttrType → DocAttr → Result Bytes
unfolding write_words write_string
write_attr attr_uint d = write_words d.u
write_attr attr_float d = write_words d.f
write_attr attr_multi d = write_words d.m
write_attr attr_string d = write_string d.s

unfoldable pub write_attrs : DocAttrType → List DocAttr → Result Bytes
unfolding write_attr
write_attrs type [] = ok []
write_attrs type (d ∷ ds) = do
  first ← write_attr type d
  rest ← write_attrs type ds
  ok (first ++ rest)

-- `WriteSummaryToFile`, into a file that opens.
unfoldable pub write_summary_to_file : List DocAttr → AttrString → DocAttrType → Result Bytes
unfolding le_bytes write_string write_attrs
write_summary_to_file docs attr_names type = do
  names ← write_string attr_names
  attrs ← write_attrs type docs
  ok (le_bytes 4 (length docs) ++ (names ++ attrs))

-- A `DocAttr` while it is read.
pub record Loading : Type 0 where
  pub u : Option AttrWords
  pub f : Option AttrWords
  pub m : Option AttrWords
  pub s : Option AttrString

-- `new DocAttr()`
abbrev pub new_doc_attr : Loading
new_doc_attr = record { u = none; f = none; m = none; s = none }

abbrev pub Slots : Type 0
Slots = List (Option Loading)

-- `f.read((char*)(p_u->data), sizeof(uint32_t) * size)`, the words of the object.
unfoldable pub read_words : ℕ → Bytes → Result (List ℕ × Bytes)
unfolding read_word
read_words zero f = ok ([], f)
read_words (suc n) f = do w ← read_word 4 f; ws ← read_words n w.1; ok (w.0 ∷ ws.0, ws.1)

unfoldable pub read_attr_words : Bytes → Result (AttrWords × Bytes)
unfolding read_word read_words
read_attr_words f = do
  size ← read_word 1 f
  ws ← read_words size.0 size.1
  ok (record { size = size.0; words = ws.0 }, ws.1)

-- A table of strings: of the attributes' names, or of a document.
unfoldable pub read_attr_string : Bytes → Result (AttrString × Bytes)
unfolding read_word read_bytes strings_size
read_attr_string f = do
  size ← read_word 1 f
  len_array ← read_bytes (4 * size.0) size.1
  n ← strings_size size.0 len_array.0
  strings ← read_bytes n len_array.1
  ok (record { size = size.0; mem = len_array.0 ++ strings.0 }, strings.1)

-- The member of the type is replaced, the others stay.
unfoldable pub read_attr : DocAttrType → Loading → Bytes → Result (Loading × Bytes)
unfolding read_attr_words read_attr_string
read_attr attr_uint a f = do p ← read_attr_words f; ok (record a { u = some p.0 }, p.1)
read_attr attr_float a f = do p ← read_attr_words f; ok (record a { f = some p.0 }, p.1)
read_attr attr_multi a f = do p ← read_attr_words f; ok (record a { m = some p.0 }, p.1)
read_attr attr_string a f = do p ← read_attr_string f; ok (record a { s = some p.0 }, p.1)

-- `if ((*summary)[i] == NULL) (*summary)[i] = new DocAttr();`
abbrev pub slot : Option Loading → Loading
slot none = new_doc_attr
slot (some a) = a

-- `while (i < count)`, on a summary of `count` slots.
unfoldable pub read_attrs : DocAttrType → Slots → Bytes → Result Slots
unfolding read_attr
read_attrs type [] f = ok []
read_attrs type (a ∷ slots) f = do
  p ← read_attr type (slot a) f
  rest ← read_attrs type slots p.1
  ok (some p.0 ∷ rest)

-- `ReadSummaryFromFile` of one type, with a summary and the type's pointer to a name table. A file
-- that does not open is `none`.
unfoldable pub read_summary_file :
    DocAttrType
    → Option Bytes
    → Slots
    → Option AttrString
    → Result (Bool × Slots × Option AttrString)
unfolding read_word read_attr_string read_attrs
read_summary_file type none summary names = ok (false, summary, names)
read_summary_file type (some f) summary names = do
  count ← read_word 4 f
  (let sized = if is_empty summary then replicate count.0 none else summary in
      if length sized == count.0
      then (do
        attr_names ← read_attr_string count.1
        attrs ← read_attrs type sized attr_names.1
        ok (true, attrs, some attr_names.0))
      else ok (false, summary, names))

-- The pointers `(*attribute_names)[type]`: a key that the map does not have gets a null pointer.
pub record NameTables : Type 0 where
  pub uint : Option AttrString
  pub float : Option AttrString
  pub multi : Option AttrString
  pub string : Option AttrString

pub record SummaryFiles : Type 0 where
  pub uint : Option Bytes
  pub float : Option Bytes
  pub multi : Option Bytes
  pub string : Option Bytes

-- `ReadSummaryFromFile` of the four files, for pointers that are not null: with `&`, each file is
-- read, also after one that failed. They are read in the order in which they are written here.
unfoldable pub read_summary_from_file :
    SummaryFiles → NameTables → Slots → Result (Bool × NameTables × Slots)
unfolding read_summary_file
read_summary_from_file files names summary = do
  u ← read_summary_file attr_uint files.uint summary names.uint
  f ← read_summary_file attr_float files.float u.1 names.float
  m ← read_summary_file attr_multi files.multi f.1 names.multi
  s ← read_summary_file attr_string files.string m.1 names.string
  ok (
    (u.0 && f.0) && (m.0 && s.0),
    record { uint = u.2; float = f.2; multi = m.2; string = s.2 },
    s.1,
  )
