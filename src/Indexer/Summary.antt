-- ===== src/Indexer/Summary.antt =====
-- The summary that the rows make: one attribute record for each row, of the row's columns.
use mathlib.Core.List.{append-nil, append_assoc}
use looka.Common.{
  ℕ, zero, suc, ◌+◌, ◌^◌, ◌<◌, List, [], ◌∷◌, ◌++◌, length, map, replicate, ◌≡◌, refl, ap, sym, ◌∙◌,
  arith, length-append,
}
use looka.Common.Bytes.{Bytes}
use looka.Common.Int.{to_u32}
use looka.Attr.Strings.{Fits}
use looka.Indexer.{
  MysqlField, Columns, Doc, Store, new_store, read_field, read_fields, new_doc, make_attr,
  process_doc, index_rows,
}
use looka.Indexer.Rows.{HasColumns, names_after, index_rows_next}
use looka.Indexer.Values.{
  column_values, column_numbers, written, written-column_values, length-column_values,
  is_in_fields-column_numbers,
}
use looka.Searchd.Passes.{DocFits}
use looka.Segmenter.{SegmentToken}
use looka.StrUtils.{atoi}

-- A value of a number column.
abbrev pub to_uint : Bytes → ℕ
to_uint s = to_u32 (atoi s)

-- A value of a string column.
abbrev pub as_it_is : Bytes → Bytes
as_it_is s = s

module _ (c : Columns) (atof : Bytes → ℕ) (segment : Bytes → List SegmentToken) where
  -- The attribute values of a row: for each column what the row's field of its name says, as a
  -- number of 32 bits, a float or a string, and zero or the empty string without such a field; and
  -- for the columns that list numbers a zero each, and the numbers that are listed behind them.
  -- The hits of a document are no part of its attributes.
  unfoldable pub row_doc : List MysqlField → Doc
  row_doc fs = record {
    uv = column_values to_uint 0 c.sql_attr_uint fs;
    fv = column_values atof 0 c.sql_attr_float fs;
    mv = replicate (length c.sql_attr_multi) 0 ++ column_numbers c.sql_attr_multi fs;
    sv = column_values as_it_is [] c.sql_attr_string fs;
    token_hits = [];
  }

  read_fields-uv :
      (fs : List MysqlField) (d : Doc)
      → (read_fields c atof segment fs d).uv ≡ written to_uint c.sql_attr_uint fs d.uv
  unfolding read_fields read_field
  read_fields-uv [] d = refl
  read_fields-uv (f ∷ fs) d = read_fields-uv fs (read_field c atof segment f d)

  read_fields-fv :
      (fs : List MysqlField) (d : Doc)
      → (read_fields c atof segment fs d).fv ≡ written atof c.sql_attr_float fs d.fv
  unfolding read_fields read_field
  read_fields-fv [] d = refl
  read_fields-fv (f ∷ fs) d = read_fields-fv fs (read_field c atof segment f d)

  read_fields-sv :
      (fs : List MysqlField) (d : Doc)
      → (read_fields c atof segment fs d).sv ≡ written as_it_is c.sql_attr_string fs d.sv
  unfolding read_fields read_field
  read_fields-sv [] d = refl
  read_fields-sv (f ∷ fs) d = read_fields-sv fs (read_field c atof segment f d)

  read_fields-mv :
      (fs : List MysqlField) (d : Doc)
      → (read_fields c atof segment fs d).mv ≡ d.mv ++ column_numbers c.sql_attr_multi fs
  unfolding read_fields read_field
  read_fields-mv [] d = sym (append-nil d.mv)
  read_fields-mv (f ∷ fs) d =
      read_fields-mv fs (read_field c atof segment f d)
      ∙ is_in_fields-column_numbers c.sql_attr_multi f fs d.mv

  -- The attributes that the loop over the fields makes are those of the row's values.
  make_attr-row_doc :
      (junk : Bytes) (fs : List MysqlField)
      → make_attr junk (read_fields c atof segment fs (new_doc c atof segment))
        ≡ make_attr junk (row_doc fs)
  make_attr-row_doc junk fs =
      let d = new_doc c atof segment in
      same_attr junk _ _
        (read_fields-uv fs d
          ∙ unfold new_doc row_doc in written-column_values to_uint 0 c.sql_attr_uint fs)
        (read_fields-fv fs d
          ∙ unfold new_doc row_doc in written-column_values atof 0 c.sql_attr_float fs)
        (read_fields-mv fs d ∙ unfold new_doc row_doc in refl)
        (read_fields-sv fs d
          ∙ unfold new_doc row_doc in written-column_values as_it_is [] c.sql_attr_string fs)
    where
      same_attr :
          (junk : Bytes) (d e : Doc)
          → d.uv ≡ e.uv
          → d.fv ≡ e.fv
          → d.mv ≡ e.mv
          → d.sv ≡ e.sv
          → make_attr junk d ≡ make_attr junk e
      same_attr junk d e u f m s = unfold make_attr in cc (u, f, m, s)

  -- The strings of a row fit the object that holds them.
  abbrev pub StringsFit : List MysqlField → Type 0
  StringsFit fs = Fits (row_doc fs).sv

  pub row_doc-DocFits : (fs : List MysqlField) → StringsFit fs → DocFits c (row_doc fs)
  unfolding DocFits row_doc
  row_doc-DocFits fs fits = (
    length-column_values to_uint 0 c.sql_attr_uint fs,
    length-column_values atof 0 c.sql_attr_float fs,
    omega (
      arith,
      length-append (replicate (length c.sql_attr_multi) 0) (column_numbers c.sql_attr_multi fs),
      length-zeros (length c.sql_attr_multi),
    ),
    length-column_values as_it_is [] c.sql_attr_string fs,
    fits,
  )
    where
      length-zeros : (n : ℕ) → length (replicate {A = ℕ} n 0) ≡ n
      length-zeros zero = refl
      length-zeros (suc n) = ap suc (length-zeros n)

  module _ (junk : Bytes) where
    index_rows-summary_from :
        (rows : List (List MysqlField)) (n : ℕ) (fn : List Bytes) (st : Store)
        → n + length rows < 2 ^ 32
        → HasColumns c atof segment junk rows fn
        → (index_rows c atof segment junk rows n fn st).1.summary
          ≡ st.summary ++ map (λ fs. make_attr junk (row_doc fs)) rows
    index_rows-summary_from [] n fn st small cols = unfold index_rows in sym (append-nil st.summary)
    index_rows-summary_from (fs ∷ rows) n fn st small cols =
        ap (λ (r : ℕ × Store). r.1.summary)
          (index_rows_next c atof segment junk fs rows n fn st cols.0 (omega arith))
        ∙ index_rows-summary_from rows (suc n) (names_after c atof segment junk fs fn)
            (process_doc c atof segment junk n fs st) (omega arith) cols.1
        ∙ one_more
      where
        one_more :
            (process_doc c atof segment junk n fs st).summary
              ++ map (λ gs. make_attr junk (row_doc gs)) rows
            ≡ st.summary
              ++ (make_attr junk (row_doc fs) ∷ map (λ gs. make_attr junk (row_doc gs)) rows)
        one_more =
            unfold process_doc in
            append_assoc st.summary _ _
            ∙ ap (λ a. st.summary ++ (a ∷ map (λ gs. make_attr junk (row_doc gs)) rows))
                (make_attr-row_doc junk fs)

    -- For rows that have the configured columns, the summary has the attributes of each row.
    pub index_rows-summary :
        (rows : List (List MysqlField))
        → length rows < 2 ^ 32
        → HasColumns c atof segment junk rows []
        → (index_rows c atof segment junk rows 0 [] new_store).1.summary
          ≡ map (λ fs. make_attr junk (row_doc fs)) rows
    unfolding new_store
    index_rows-summary rows small cols =
        index_rows-summary_from rows 0 [] new_store (omega arith) cols
