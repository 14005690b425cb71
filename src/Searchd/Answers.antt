-- ===== src/Searchd/Answers.antt =====
-- The search, in terms of the rows of the database: from the rows through the index to the page.
use mathlib.Core.Path.{subst}
use looka.Common.{
  ℕ, zero, suc, ◌+◌, ◌%◌, ◌^◌, ◌<◌, List, [], ◌∷◌, some, Bool, true, false, not, ◌&&◌,
  if◌then◌else◌, length, map, take, drop, filterb, allb, get_elem?, All, ◌≡◌, refl, ap, sym, ◌∙◌,
  arith,
}
use looka.Common.Bytes.{Bytes, contains}
use looka.Common.Int.{pos}
use looka.Common.Result.{ok}
use looka.Attr.{DocAttr, create_attr_names}
use looka.Indexer.{MysqlField, Columns, make_attr}
use looka.Indexer.Rows.{HasColumns, Clashless, row_has, index_rows-has_token}
use looka.Indexer.Summary.{row_doc, StringsFit, row_doc-DocFits, index_rows-summary}
use looka.Indexer.Tokens.{row_tokens, strings_of}
use looka.Intersect.Tokens.{has_token, matches}
use looka.Request.{LookaRequest}
use looka.Searchd.{Index, search}
use looka.Searchd.Indexed.{indexed, search-index_rows}
use looka.Searchd.Names.{ColumnsFit, name_tables}
use looka.Searchd.Passes.{passes, drop_by_filter-make_attr}
use looka.Searchd.Search.{hits, kept_by, keeps, IsDecided}
use looka.Segmenter.{SegmentToken}

not-not : (b : Bool) → not (not b) ≡ b
not-not true = refl
not-not false = refl

and_both : {a b c d : Bool} → a ≡ c → b ≡ d → (a && b) ≡ (c && d)
and_both e f = rw (e, f) refl

add_zero : (n : ℕ) → n + 0 ≡ n
add_zero n = omega arith

zero_add : (n : ℕ) → 0 + n ≡ n
zero_add n = omega arith

add_suc : (n k : ℕ) → suc n + k ≡ n + suc k
add_suc n k = omega arith

if-map {ℓ ℓ'} :
    {A : Type ℓ} {B : Type ℓ'} (f : A → B) (x : A) (xs : List A) {b b' : Bool} {ys : List B}
    → b ≡ b'
    → ys ≡ map f xs
    → (if b then f x ∷ ys else ys) ≡ map f (if b' then x ∷ xs else xs)
if-map f x xs {b' = true} e h = rw (e, h) refl
if-map f x xs {b' = false} e h = rw (e, h) refl

module _ (c : Columns) (atof : Bytes → ℕ) (segment : Bytes → List SegmentToken)
    (junk tables : Bytes) (float_to_string : ℕ → Bytes) (req : LookaRequest) where
  -- A row has each token of the query in one of its text columns.
  abbrev pub row_matches : List Bytes → List MysqlField → Bool
  row_matches [] fs = false
  row_matches (t ∷ ts) fs =
      contains t (strings_of (row_tokens c atof segment fs))
      && allb (λ s. contains s (strings_of (row_tokens c atof segment fs))) ts

  -- A row answers the query, and the filter admits it.
  abbrev pub answers : List Bytes → List MysqlField → Bool
  answers tokens fs =
      row_matches tokens fs && passes float_to_string c (row_doc c atof segment fs) req.filter

  -- What `ProcessDoc` makes of the values of a row.
  abbrev pub made_of : List MysqlField → DocAttr
  made_of fs = make_attr junk (row_doc c atof segment fs)

  -- The attributes of a row: the number of values of each kind, which a byte holds, and the values.
  abbrev pub attr_of : List MysqlField → DocAttr
  attr_of fs =
      let d = row_doc c atof segment fs in
      record {
        u = record { size = length d.uv % 256; words = d.uv };
        f = record { size = length d.fv % 256; words = d.fv };
        m = record { size = length d.mv % 256; words = d.mv };
        s = create_attr_names d.sv junk;
      }

  module _ (rows : List (List MysqlField)) where
    abbrev pub index_of_rows : Index
    index_of_rows = indexed c atof segment junk rows (name_tables c tables)

    row_has-get_elem? :
        (t : Bytes) (rs : List (List MysqlField)) (x : ℕ) (fs : List MysqlField)
        → get_elem? rs x ≡ some fs
        → row_has c atof segment junk t rs x
          ≡ contains t (strings_of (row_tokens c atof segment fs))
    row_has-get_elem? t [] x fs e = cc
    row_has-get_elem? t (r ∷ rs) zero fs e =
        let same : r ≡ fs = cc in
        ap (λ f. contains t (strings_of (row_tokens c atof segment f))) same
    row_has-get_elem? t (r ∷ rs) (suc x) fs e = row_has-get_elem? t rs x fs e

    module _ (tokens : List Bytes) (small : length rows < 2 ^ 31)
        (cols : HasColumns c atof segment junk rows []) (fit : ColumnsFit c)
        (strings : All (StringsFit c atof segment) rows) where
      has_token-row :
          (t : Bytes) (x : ℕ) (fs : List MysqlField)
          → Clashless c atof segment junk t rows
          → get_elem? rows x ≡ some fs
          → has_token index_of_rows.inverter x t
            ≡ contains t (strings_of (row_tokens c atof segment fs))
      has_token-row t x fs apart e =
          index_rows-has_token c atof segment junk t rows x (omega arith) cols apart
          ∙ row_has-get_elem? t rows x fs e

      allb-row :
          (ts : List Bytes) (x : ℕ) (fs : List MysqlField)
          → All (λ t. Clashless c atof segment junk t rows) ts
          → get_elem? rows x ≡ some fs
          → allb (has_token index_of_rows.inverter x) ts
            ≡ allb (λ s. contains s (strings_of (row_tokens c atof segment fs))) ts
      allb-row [] x fs apart e = refl
      allb-row (t ∷ ts) x fs apart e =
          rw (has_token-row t x fs apart.0 e, allb-row ts x fs apart.1 e) refl

      matches-row :
          (ts : List Bytes) (x : ℕ) (fs : List MysqlField)
          → All (λ t. Clashless c atof segment junk t rows) ts
          → get_elem? rows x ≡ some fs
          → matches index_of_rows.inverter ts x ≡ row_matches ts fs
      matches-row [] x fs apart e = refl
      matches-row (t ∷ ts) x fs apart e =
          rw (has_token-row t x fs apart.0 e, allb-row ts x fs apart.1 e) refl

      keeps-row :
          (fs : List MysqlField)
          → StringsFit c atof segment fs
          → keeps float_to_string index_of_rows req tokens (made_of fs)
            ≡ passes float_to_string c (row_doc c atof segment fs) req.filter
      keeps-row fs fits =
          ap kept_by (
            drop_by_filter-make_attr float_to_string c tables junk (row_doc c atof segment fs)
              req.filter fit (row_doc-DocFits c atof segment fs fits))
          ∙ not-not _

      hits-rows :
          (id : ℕ) (rs : List (List MysqlField))
          → ((k : ℕ) (fs : List MysqlField)
              → get_elem? rs k ≡ some fs
              → matches index_of_rows.inverter tokens (id + k) ≡ row_matches tokens fs)
          → All (StringsFit c atof segment) rs
          → hits float_to_string index_of_rows req tokens id (map made_of rs)
            ≡ map made_of (filterb (answers tokens) rs)
      hits-rows id [] h fits = refl
      hits-rows id (r ∷ rs) h fits =
          if-map made_of r (filterb (answers tokens) rs)
            (ap
                (λ i.
                  matches index_of_rows.inverter tokens i
                  && keeps float_to_string index_of_rows req tokens (made_of r))
                (sym (add_zero id))
              ∙ and_both (h zero r refl) (keeps-row r fits.0))
            (hits-rows (suc id) rs
              (λ k fs e. ap (matches index_of_rows.inverter tokens) (add_suc id k) ∙ h (suc k) fs e)
              fits.1)

      pub rows-IsDecided :
          (rs : List (List MysqlField))
          → All (StringsFit c atof segment) rs
          → All (IsDecided float_to_string index_of_rows req tokens) (map made_of rs)
      rows-IsDecided [] fits = tt
      rows-IsDecided (r ∷ rs) fits = (
        (
          not (passes float_to_string c (row_doc c atof segment r) req.filter),
          drop_by_filter-make_attr float_to_string c tables junk (row_doc c atof segment r)
              req.filter fit (row_doc-DocFits c atof segment r fits.0),
        ),
        rows-IsDecided rs fits.1,
      )

      pub search-rows_made :
          (o l : ℕ)
          → req.offset ≡ pos o
          → req.limit ≡ pos l
          → o + l < 2 ^ 31
          → All (λ t. Clashless c atof segment junk t rows) tokens
          → search float_to_string index_of_rows req tokens ≡ (
              let found = map made_of (filterb (answers tokens) rows) in
              ok (length found, take l (drop o found)))
      search-rows_made o l offset limit room apart =
          let summary : index_of_rows.summary ≡ map made_of rows =
            index_rows-summary c atof segment junk rows (omega arith) cols in
          let found : hits float_to_string index_of_rows req tokens 0 index_of_rows.summary
              ≡ map made_of (filterb (answers tokens) rows) =
            ap (hits float_to_string index_of_rows req tokens 0) summary
            ∙ hits-rows 0 rows
                (λ k fs e.
                  ap (matches index_of_rows.inverter tokens) (zero_add k)
                  ∙ matches-row tokens k fs apart e)
                strings in
          search-index_rows c atof segment junk rows (name_tables c tables) float_to_string req
            tokens o l offset limit room small
            (subst (All (IsDecided float_to_string index_of_rows req tokens)) (sym summary)
              (rows-IsDecided rows strings))
          ∙ ap (λ (f : List DocAttr). ok (length f, take l (drop o f))) found
