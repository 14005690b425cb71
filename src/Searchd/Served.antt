-- ===== src/Searchd/Served.antt =====
-- From the rows through the files of the index to the answer: the indexer and the daemon together.
use looka.Common.{ℕ, List, [], some, true, ◌≡◌}
use looka.Common.Bytes.{Bytes}
use looka.Common.Result.{ok}
use looka.Attr.{DocAttr}
use looka.File.Summary.{SummaryFiles}
use looka.Indexer.{MysqlField, Columns, new_store, index_rows}
use looka.Indexer.Build.{IndexFiles, do_index}
use looka.Inverter.{Inverter}
use looka.Searchd.Names.{name_tables}
use looka.Searchd.Reloaded.{HasLists}
use looka.Searchd.Startup.{State, new_state, init, ready}
use looka.Segmenter.{SegmentToken}
use looka.Types.{DocInvert, Token, token_eq}

-- The summary files of an index, all there.
abbrev pub summary_files : IndexFiles → SummaryFiles
summary_files files = record {
  uint = some files.uint;
  float = some files.float;
  multi = some files.multi;
  string = some files.string;
}

module _ (c : Columns) (atof : Bytes → ℕ) (segment : Bytes → List SegmentToken)
    (junk tables : Bytes) (rows : List (List MysqlField)) where
  abbrev docs : List DocAttr
  docs = (index_rows c atof segment junk rows 0 [] new_store).1.summary

  abbrev inv : Inverter Token DocInvert
  inv = (index_rows c atof segment junk rows 0 [] new_store).1.inverter

  -- What the daemon has after it read the files.
  record Reloads : Type 0 where
    files : IndexFiles
    st : State
    inv' : Inverter Token DocInvert
    built : do_index c atof segment junk tables true true true rows ≡ ok (some files)
    started : init (some files.index) (summary_files files) new_state ≡ ok st
    loads :
        ready st
        ≡ some (record { inverter = inv'; summary = docs; attr_names = name_tables c tables })
    lists : HasLists inv inv'
