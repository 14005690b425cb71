-- ===== src/Tests/Rows.antt =====
-- Concrete rows: the search in terms of the rows, the filter on a document, the hits of an entry.
use looka.Common.{[], ◌∷◌, not, map, All, ◌≡◌, refl, arith}
use looka.Common.Bytes.{codes}
use looka.Common.Result.{ok}
use looka.Indexer.{Doc, FieldHits, make_attr, make_invert, misses_column, write_hits}
use looka.Indexer.Hits.{hit_of, get_hits-make_invert}
use looka.Indexer.Rows.{HasColumns}
use looka.Indexer.Summary.{StringsFit, row_doc}
use looka.Inverter.Simple.{simple_get_keys}
use looka.Common.{List, none, some, true}
use looka.Common.Bytes.{Bytes}
use looka.Attr.{
  AttrString, DocAttr, attr_uint, attr_float, attr_multi, attr_string, create_attr_names,
}
use looka.File.Summary.{NameTables, write_summary_to_file, read_summary_from_file}
use looka.File.Summary.Objects.{IsTable}
use looka.File.Summary.RoundTrip.{loaded, read_summary_from_file-write_summary_to_file}
use looka.Searchd.Capacity.{FewStrings, FewValues, FewStrings-IsTable, make_attr-IsWhole}
use looka.Searchd.{drop_by_filter}
use looka.Searchd.Names.{ColumnsFit, name_tables}
use looka.Searchd.Passes.{DocFits, passes, drop_by_filter-make_attr}
use looka.Tests.Stores.{letters, columns, rows, no_floats, request, float_text}
use looka.Types.Hits.{get_hits}

pub columns_fit : ColumnsFit columns
unfolding ColumnsFit
columns_fit = (
  (omega arith, (omega arith, tt), omega arith),
  (omega arith, tt, omega arith),
  (omega arith, tt, omega arith),
  (omega arith, tt, omega arith),
)

pub strings_fit : All (StringsFit columns no_floats letters) rows
unfolding row_doc
strings_fit = ((omega arith, tt, omega arith), ((omega arith, tt, omega arith), tt))

pub has_columns : HasColumns columns no_floats letters [] rows []
unfolding misses_column
has_columns = (refl, (refl, tt))

-- A document of one number.
abbrev seven : Doc
seven = record { uv = 7 ∷ []; fv = []; mv = []; sv = []; token_hits = [] }

seven_fits : DocFits columns seven
unfolding DocFits
seven_fits = (refl, refl, omega arith, refl, (omega arith, tt, omega arith))

drop_by_filter-make_attr_example :
    drop_by_filter float_text (name_tables columns []) (make_attr [] seven) request.filter
    ≡ ok (not (passes float_text columns seven request.filter))
drop_by_filter-make_attr_example =
    drop_by_filter-make_attr float_text columns [] [] seven request.filter columns_fit seven_fits

-- A token at two places of field 0 and at one of field 2.
abbrev token_hits : FieldHits
token_hits = record { m_idx_invert = (0, 1 ∷ 4 ∷ []) ∷ (2, 3 ∷ []) ∷ [] }

get_hits-make_invert_example :
    get_hits (make_invert [] 5 token_hits)
    ≡ ok (map (hit_of token_hits) (simple_get_keys token_hits []).1)
unfolding write_hits simple_get_keys
get_hits-make_invert_example = get_hits-make_invert [] 5 token_hits (omega arith)

abbrev table : List Bytes → AttrString
table names = create_attr_names names []

small_table : (names : List Bytes) → FewStrings names → IsTable (table names)
small_table names few = FewStrings-IsTable names [] few

seven_values : FewValues seven
unfolding FewValues
seven_values = (
  (omega arith, (omega arith, tt)),
  (omega arith, tt),
  (omega arith, tt),
  (omega arith, tt, omega arith),
)

abbrev no_names : NameTables
no_names = record { uint = none; float = none; multi = none; string = none }

abbrev two_documents : List DocAttr
two_documents = make_attr [] seven ∷ make_attr [] seven ∷ []

read_summary_from_file-write_summary_to_file_example :
    (u : Bytes) × (f : Bytes) × (m : Bytes) × (s : Bytes) × (write_summary_to_file two_documents
        (table (codes "n" ∷ []))
        attr_uint
      ≡ ok u)
    × (write_summary_to_file two_documents (table []) attr_float ≡ ok f)
    × (write_summary_to_file two_documents (table []) attr_multi ≡ ok m)
    × (write_summary_to_file two_documents (table []) attr_string ≡ ok s)
    × (read_summary_from_file
          (record { uint = some u; float = some f; multi = some m; string = some s })
          no_names
          []
        ≡ ok (
          true,
          record {
            uint = some (table (codes "n" ∷ []));
            float = some (table []);
            multi = some (table []);
            string = some (table []);
          },
          map loaded two_documents,
        ))
read_summary_from_file-write_summary_to_file_example =
    read_summary_from_file-write_summary_to_file two_documents (table (codes "n" ∷ [])) (table [])
      (table []) (table []) no_names
      (make_attr-IsWhole [] seven seven_values, (make_attr-IsWhole [] seven seven_values, tt))
      (omega arith) (small_table _ (omega arith, (omega arith, tt), omega arith))
      (small_table [] (omega arith, tt, omega arith))
      (small_table [] (omega arith, tt, omega arith))
      (small_table [] (omega arith, tt, omega arith))
