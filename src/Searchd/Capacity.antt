-- ===== src/Searchd/Capacity.antt =====
-- What the objects and the files of an index can hold: sizes of eight bits, words of 32 bits,
-- strings of 2 ^ 31 bytes.
use looka.Common.{ℕ, suc, ◌^◌, ◌<◌, List, [], ◌∷◌, some, length, map, All, ◌≡◌, refl, ap, arith}
use looka.Common.Bytes.{Bytes}
use looka.Attr.{attr_uint, attr_float, attr_multi, attr_string, DocAttr, create_attr_names}
use looka.Attr.Strings.{Fits}
use looka.File.Summary.Objects.{IsWords, IsTable, IsAttr}
use looka.File.Summary.RoundTrip.{IsWhole, loaded, create_attr_names-IsTable}
use looka.Indexer.{MysqlField, Columns, Doc, make_attr}
use looka.Indexer.Summary.{StringsFit, row_doc}
use looka.Searchd.Names.{ColumnsFit}
use looka.Searchd.Startup.{whole_summary}
use looka.Segmenter.{SegmentToken}
use looka.Types.{token_eq}

-- As many words as a size of eight bits can say, each of 32 bits.
abbrev pub FewWords : List ℕ → Type 0
FewWords ws = (length ws < 256) × All (λ w. w < 2 ^ 32) ws

-- As many strings as a size of eight bits can say, in an object of fewer than 2 ^ 31 bytes.
abbrev pub FewStrings : List Bytes → Type 0
FewStrings ss = Fits ss

unfoldable pub FewColumns : Columns → Type 0
FewColumns c =
    FewStrings c.sql_attr_uint
    × FewStrings c.sql_attr_float
    × FewStrings c.sql_attr_multi
    × FewStrings c.sql_attr_string

unfoldable pub FewValues : Doc → Type 0
FewValues d = FewWords d.uv × FewWords d.fv × FewWords d.mv × FewStrings d.sv

pub FewColumns-ColumnsFit : (c : Columns) → FewColumns c → ColumnsFit c
unfolding FewColumns ColumnsFit
FewColumns-ColumnsFit c h = h

pub FewStrings-IsTable :
    (ss : List Bytes) (junk : Bytes) → FewStrings ss → IsTable (create_attr_names ss junk)
FewStrings-IsTable ss junk h = create_attr_names-IsTable ss junk h.0 h.1 h.2

pub make_attr-IsWhole : (junk : Bytes) (d : Doc) → FewValues d → IsWhole (make_attr junk d)
unfolding FewValues make_attr IsAttr IsWords
make_attr-IsWhole junk d h attr_uint = (omega (arith, h.0.0), omega (arith, h.0.0), h.0.1)
make_attr-IsWhole junk d h attr_float = (omega (arith, h.1.0), omega (arith, h.1.0), h.1.1)
make_attr-IsWhole junk d h attr_multi = (omega (arith, h.2.0), omega (arith, h.2.0), h.2.1)
make_attr-IsWhole junk d h attr_string = FewStrings-IsTable d.sv junk h.3

pub FewValues-StringsFit :
    (c : Columns) (atof : Bytes → ℕ) (segment : Bytes → List SegmentToken) (fs : List MysqlField)
    → FewValues (row_doc c atof segment fs)
    → StringsFit c atof segment fs
unfolding FewValues
FewValues-StringsFit c atof segment fs h = h.3

pub whole_summary-loaded : (docs : List DocAttr) → whole_summary (map loaded docs) ≡ some docs
unfolding whole_summary
whole_summary-loaded [] = refl
whole_summary-loaded (d ∷ docs) = rw (whole_summary-loaded docs) refl

pub All-map {ℓ ℓ' κ} :
    {A : Type ℓ} {B : Type ℓ'} (P : B → Type κ) (f : A → B) (xs : List A)
    → All (λ x. P (f x)) xs
    → All P (map f xs)
All-map P f [] h = tt
All-map P f (x ∷ xs) h = (h.0, All-map P f xs h.1)

pub length-map {ℓ ℓ'} :
    {A : Type ℓ} {B : Type ℓ'} (f : A → B) (xs : List A) → length (map f xs) ≡ length xs
length-map f [] = refl
length-map f (x ∷ xs) = ap suc (length-map f xs)
