-- ===== src/Indexer/Build.antt =====
-- `DoIndex` of src/indexer/looka_indexer.cpp: from the rows to the five files of an index.
use looka.Common.{ℕ, List, [], Option, none, some, Bool, if◌then◌else◌}
use looka.Common.Bytes.{Bytes}
use looka.Common.Result.{Result, ok, ◌>>=◌}
use looka.Attr.{attr_uint, attr_float, attr_multi, attr_string, create_attr_names}
use looka.File.{write_index_to_file}
use looka.File.Summary.{write_summary_to_file}
use looka.Indexer.{MysqlField, Columns, Store, new_store, index_rows}
use looka.Segmenter.{SegmentToken}

-- The files of an index.
pub record IndexFiles : Type 0 where
  pub index : Bytes
  pub uint : Bytes
  pub float : Bytes
  pub multi : Bytes
  pub string : Bytes

-- The writer's calls of `DoIndex`, into files that open, with the bytes that `malloc` leaves in
-- the name tables.
unfoldable pub write_files : Columns → Bytes → Store → Result IndexFiles
unfolding create_attr_names write_index_to_file write_summary_to_file
write_files c tables st = do
  index ← write_index_to_file st.inverter
  uint ← write_summary_to_file st.summary (create_attr_names c.sql_attr_uint tables) attr_uint
  float ← write_summary_to_file st.summary (create_attr_names c.sql_attr_float tables) attr_float
  multi ← write_summary_to_file st.summary (create_attr_names c.sql_attr_multi tables) attr_multi
  string ← write_summary_to_file st.summary (create_attr_names c.sql_attr_string tables) attr_string
  ok (record { index = index; uint = uint; float = float; multi = multi; string = string })

-- `DoIndex`, where the segmenter's library and the database say whether they could be opened,
-- whether the connection was made and whether the query was run, and the database gives the rows.
-- `none` is the result -1; no file is written then.
unfoldable pub do_index :
    Columns
    → (Bytes → ℕ)
    → (Bytes → List SegmentToken)
    → Bytes
    → Bytes
    → Bool
    → Bool
    → Bool
    → List (List MysqlField)
    → Result (Option IndexFiles)
unfolding index_rows new_store write_files
do_index c atof segment junk tables seg_init connected queried rows =
    if seg_init
    then (if connected
        then (if queried
            then (do
              files ← write_files c tables (index_rows c atof segment junk rows 0 [] new_store).1
              ok (some files))
            else ok none)
        else ok none)
    else ok none
