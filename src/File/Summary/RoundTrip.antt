-- ===== src/File/Summary/RoundTrip.antt =====
-- The summary files read back: the attributes and the names that were written.
use mathlib.Core.List.{append-nil}
use mathlib.Core.Path.{subst}
use looka.Common.{
  ◌*◌, ◌+◌, ℕ, zero, suc, ◌%◌, ◌^◌, ◌<◌, List, [], ◌∷◌, ◌++◌, Option, none, some, true, length,
  replicate, All, ◌≡◌, refl, ap, sym, ◌∙◌, arith, map, is_empty, if◌then◌else◌, ==_iff, All-mono,
}
use looka.Common.Bytes.{Bytes}
use looka.Common.Result.{ok}
use looka.Attr.{
  DocAttrType, attr_uint, attr_float, attr_multi, attr_string, AttrString, DocAttr, string_pos,
  len_words, string_area, create_attr_names,
}
use looka.Attr.Strings.{create_attr_names-table_of}
use looka.Attr.Layout.{area_size, length-len_words, length-string_area, string_pos-area_size}
use looka.File.Index.{read_word-four}
use looka.File.Summary.{
  write_attrs, write_summary_to_file, Loading, Slots, slot, read_attrs, read_summary_file,
  NameTables, read_summary_from_file,
}
use looka.Words.{le_bytes}
use looka.File.Summary.Objects.{
  IsTable, IsAttr, put_attr, attr_bytes, write_string-IsTable, read_attr_string-IsTable,
  write_attr-IsAttr, read_attr-IsAttr,
}

attrs_bytes : DocAttrType → List DocAttr → Bytes
attrs_bytes type [] = []
attrs_bytes type (d ∷ ds) = attr_bytes type d ++ attrs_bytes type ds

write_attrs-IsAttr :
    (type : DocAttrType) (ds : List DocAttr)
    → All (IsAttr type) ds
    → write_attrs type ds ≡ ok (attrs_bytes type ds)
unfolding write_attrs attrs_bytes
write_attrs-IsAttr type [] h = refl
write_attrs-IsAttr type (d ∷ ds) h =
    rw (write_attr-IsAttr type d h.0, write_attrs-IsAttr type ds h.1) refl

-- Slots with the members of one type from the documents.
unfoldable pub put_attrs : DocAttrType → List DocAttr → Slots → Slots
put_attrs type [] slots = []
put_attrs type (d ∷ ds) [] = []
put_attrs type (d ∷ ds) (a ∷ slots) = some (put_attr type d (slot a)) ∷ put_attrs type ds slots

read_attrs-IsAttr :
    (type : DocAttrType) (ds : List DocAttr) (slots : Slots)
    → length slots ≡ length ds
    → All (IsAttr type) ds
    → read_attrs type slots (attrs_bytes type ds) ≡ ok (put_attrs type ds slots)
unfolding read_attrs put_attrs attrs_bytes
read_attrs-IsAttr type [] [] e h = refl
read_attrs-IsAttr type [] (a ∷ slots) e h = absurd (omega arith)
read_attrs-IsAttr type (d ∷ ds) [] e h = absurd (omega arith)
read_attrs-IsAttr type (d ∷ ds) (a ∷ slots) e h =
    rw
      (
        read_attr-IsAttr type d (slot a) (attrs_bytes type ds) h.0,
        read_attrs-IsAttr type ds slots (omega arith) h.1,
      )
      refl

summary_bytes : List DocAttr → AttrString → DocAttrType → Bytes
summary_bytes docs names type =
    le_bytes 4 (length docs) ++ (names.size ∷ (names.mem ++ attrs_bytes type docs))

write_summary_to_file-bytes :
    (docs : List DocAttr) (names : AttrString) (type : DocAttrType)
    → IsTable names
    → All (IsAttr type) docs
    → write_summary_to_file docs names type ≡ ok (summary_bytes docs names type)
unfolding write_summary_to_file summary_bytes
write_summary_to_file-bytes docs names type t h =
    rw (write_string-IsTable names t, write_attrs-IsAttr type docs h) refl

-- The slots that a file of `n` documents is read into.
abbrev pub sized : ℕ → Slots → Slots
sized n slots = if is_empty slots then replicate n none else slots

read_summary_file-bytes :
    (docs : List DocAttr) (names : AttrString) (type : DocAttrType) (slots : Slots)
    (old : Option AttrString)
    → IsTable names
    → All (IsAttr type) docs
    → length docs < 2 ^ 32
    → length (sized (length docs) slots) ≡ length docs
    → read_summary_file type (some (summary_bytes docs names type)) slots old
      ≡ ok (true, put_attrs type docs (sized (length docs) slots), some names)
unfolding read_summary_file summary_bytes
read_summary_file-bytes docs names type slots old t h few fit =
    rw
      (
        read_word-four (length docs) (names.size ∷ (names.mem ++ attrs_bytes type docs)) few,
        (==_iff (length (sized (length docs) slots)) (length docs)).1 fit,
        read_attr_string-IsTable names t (attrs_bytes type docs),
        read_attrs-IsAttr type docs (sized (length docs) slots) fit h,
      )
      refl

length-put_attrs :
    (type : DocAttrType) (ds : List DocAttr) (slots : Slots)
    → length slots ≡ length ds
    → length (put_attrs type ds slots) ≡ length ds
unfolding put_attrs
length-put_attrs type [] slots e = refl
length-put_attrs type (d ∷ ds) [] e = absurd (omega arith)
length-put_attrs type (d ∷ ds) (a ∷ slots) e = ap suc (length-put_attrs type ds slots (omega arith))

sized-put_attrs :
    (type : DocAttrType) (ds : List DocAttr) (slots : Slots)
    → length slots ≡ length ds
    → sized (length ds) (put_attrs type ds slots) ≡ put_attrs type ds slots
unfolding put_attrs
sized-put_attrs type [] slots e = refl
sized-put_attrs type (d ∷ ds) [] e = absurd (omega arith)
sized-put_attrs type (d ∷ ds) (a ∷ slots) e = refl

-- A record with all members.
abbrev pub loaded : DocAttr → Option Loading
loaded d = some (record { u = some d.u; f = some d.f; m = some d.m; s = some d.s })

put_attrs-all :
    (ds : List DocAttr)
    → put_attrs attr_string ds (
        put_attrs attr_multi ds
          (put_attrs attr_float ds (put_attrs attr_uint ds (replicate (length ds) none))))
      ≡ map loaded ds
unfolding put_attrs
put_attrs-all [] = refl
put_attrs-all (d ∷ ds) = ap (◌∷◌ (loaded d)) (put_attrs-all ds)

-- A document of which every object holds what its size says.
abbrev pub IsWhole : DocAttr → Type 0
IsWhole d = (type : DocAttrType) → IsAttr type d

abbrev all_names : AttrString → AttrString → AttrString → AttrString → NameTables
all_names uint float multi string = record {
  uint = some uint;
  float = some float;
  multi = some multi;
  string = some string;
}

length-replicate {ℓ} : {A : Type ℓ} (n : ℕ) (a : A) → length (replicate n a) ≡ n
length-replicate zero a = refl
length-replicate (suc n) a = ap suc (length-replicate n a)

module _ (docs : List DocAttr) (whole : All IsWhole docs) (few : length docs < 2 ^ 32) where
  of_type : (type : DocAttrType) → All (IsAttr type) docs
  of_type type = All-mono IsWhole (IsAttr type) docs (λ d h. h type) whole

  -- One file, read into slots that are there.
  read_next :
      (type : DocAttrType) (names : AttrString) (old : Option AttrString) (before : DocAttrType)
      (slots : Slots)
      → IsTable names
      → length slots ≡ length docs
      → read_summary_file type
          (some (summary_bytes docs names type))
          (put_attrs before docs slots)
          old
        ≡ ok (true, put_attrs type docs (put_attrs before docs slots), some names)
  read_next type names old before slots t e =
      let same = sized-put_attrs before docs slots e in
      read_summary_file-bytes docs names type (put_attrs before docs slots) old t (of_type type) few
        (ap length same ∙ length-put_attrs before docs slots e)
      ∙ ap (λ (r : Slots). ok (true, put_attrs type docs r, some names)) same

  read_summary_from_file-bytes :
      (uint float multi string : AttrString) (old : NameTables)
      → IsTable uint
      → IsTable float
      → IsTable multi
      → IsTable string
      → read_summary_from_file
          (record {
            uint = some (summary_bytes docs uint attr_uint);
            float = some (summary_bytes docs float attr_float);
            multi = some (summary_bytes docs multi attr_multi);
            string = some (summary_bytes docs string attr_string);
          })
          old
          []
        ≡ ok (true, all_names uint float multi string, map loaded docs)
  unfolding read_summary_from_file
  read_summary_from_file-bytes uint float multi string old tu tf tm ts =
      let empty : Slots = replicate (length docs) none in
      let n0 : length empty ≡ length docs = length-replicate (length docs) none in
      let n1 = length-put_attrs attr_uint docs empty n0 in
      let n2 = length-put_attrs attr_float docs _ n1 in
      rw
        (
          read_summary_file-bytes docs uint attr_uint [] old.uint tu (of_type attr_uint) few n0,
          read_next attr_float float old.float attr_uint empty tf n0,
          read_next attr_multi multi old.multi attr_float _ tm n1,
          read_next attr_string string old.string attr_multi _ ts n2,
        )
        (ap (λ (r : Slots). ok (true, all_names uint float multi string, r)) (put_attrs-all docs))

-- Four files that `WriteSummaryToFile` makes for documents and name tables, read into an empty
-- summary, give the same attributes for each document and the same tables, if there are fewer
-- than 2 ^ 32 documents and each object and table is as long as its own size says. The four
-- writes return, and the read reports success.
pub read_summary_from_file-write_summary_to_file :
    (docs : List DocAttr) (uint float multi string : AttrString) (old : NameTables)
    → All IsWhole docs
    → length docs < 2 ^ 32
    → IsTable uint
    → IsTable float
    → IsTable multi
    → IsTable string
    → (u : Bytes) × (f : Bytes) × (m : Bytes) × (s : Bytes) × (write_summary_to_file docs uint
          attr_uint
        ≡ ok u)
      × (write_summary_to_file docs float attr_float ≡ ok f)
      × (write_summary_to_file docs multi attr_multi ≡ ok m)
      × (write_summary_to_file docs string attr_string ≡ ok s)
      × (read_summary_from_file
            (record { uint = some u; float = some f; multi = some m; string = some s })
            old
            []
          ≡ ok (
            true,
            record {
              uint = some uint;
              float = some float;
              multi = some multi;
              string = some string;
            },
            map loaded docs,
          ))
read_summary_from_file-write_summary_to_file docs uint float multi string old whole few tu tf tm
      ts =
    let of_type : (type : DocAttrType) → All (IsAttr type) docs =
      λ type. All-mono IsWhole (IsAttr type) docs (λ d h. h type) whole in
    (
      summary_bytes docs uint attr_uint,
      summary_bytes docs float attr_float,
      summary_bytes docs multi attr_multi,
      summary_bytes docs string attr_string,
      write_summary_to_file-bytes docs uint attr_uint tu (of_type attr_uint),
      write_summary_to_file-bytes docs float attr_float tf (of_type attr_float),
      write_summary_to_file-bytes docs multi attr_multi tm (of_type attr_multi),
      write_summary_to_file-bytes docs string attr_string ts (of_type attr_string),
      read_summary_from_file-bytes docs whole few uint float multi string old tu tf tm ts,
    )

-- `CreateAttrNames` makes tables that hold what their sizes say.
pub create_attr_names-IsTable :
    (attrs : List Bytes) (junk : Bytes)
    → length attrs < 256
    → All (λ s. length s < 2 ^ 32) attrs
    → 4 + 4 * length attrs + area_size attrs < 2 ^ 31
    → IsTable (create_attr_names attrs junk)
create_attr_names-IsTable attrs junk few short small =
    let size : length attrs % 256 ≡ length attrs = omega arith in
    let area = length-string_area attrs junk in
    subst IsTable (sym (create_attr_names-table_of attrs junk small)) (record {
      lens = len_words attrs;
      strings = string_area attrs junk;
      few = omega (arith, size);
      layout = refl;
      width = omega (arith, size, length-len_words attrs);
      sum = rw (size) (
          ap (λ m. string_pos (length attrs) m 0 0)
            (sym (append-nil (len_words attrs))
              ∙ ap (λ xs. len_words xs ++ []) (sym (append-nil attrs)))
          ∙ string_pos-area_size [] attrs [] [] 0 0 refl short (omega arith)
          ∙ ap some (omega (arith, area)));
      small = omega (arith, area);
    })
