-- ===== src/Searchd/Indexed.antt =====
-- A query on the index that the indexer makes of the rows, without the files in between.
use mathlib.Core.Path.{subst}
use looka.Common.{ℕ, ◌+◌, ◌^◌, ◌<◌, List, [], length, take, drop, All, ◌≡◌, sym, arith}
use looka.Common.Bytes.{Bytes}
use looka.Common.Int.{pos}
use looka.Common.Result.{ok}
use looka.Indexer.{MysqlField, Columns, new_store, index_rows}
use looka.Indexer.Rows.{new_store-IsStore, index_rows-IsStore, index_rows-count}
use looka.Intersect.Tokens.{IsIndex}
use looka.Request.{LookaRequest}
use looka.Searchd.{NameMap, Index, search}
use looka.Searchd.Page.{search-page}
use looka.Searchd.Search.{hits, IsDecided}
use looka.Segmenter.{SegmentToken}

module _ (c : Columns) (atof : Bytes → ℕ) (segment : Bytes → List SegmentToken) (junk : Bytes)
    (rows : List (List MysqlField)) (names : NameMap) where
  -- What the daemon searches, after the indexer has read the rows into an empty store.
  abbrev pub indexed : Index
  indexed =
      let st = (index_rows c atof segment junk rows 0 [] new_store).1 in
      record { inverter = st.inverter; summary = st.summary; attr_names = names }

  -- On the index made of any rows, fewer than 2 ^ 31, the search of `Process` returns. It counts
  -- the documents that have every token of the query and that the filter keeps, and returns
  -- `limit` of them from number `offset` on, in the order of the rows, for an `offset` and a
  -- `limit` that are not negative and have a sum below 2 ^ 31, and a filter that can be evaluated
  -- on each document.
  pub search-index_rows :
      (float_to_string : ℕ → Bytes) (req : LookaRequest) (tokens : List Bytes) (o l : ℕ)
      → req.offset ≡ pos o
      → req.limit ≡ pos l
      → o + l < 2 ^ 31
      → length rows < 2 ^ 31
      → All (IsDecided float_to_string indexed req tokens) indexed.summary
      → search float_to_string indexed req tokens ≡ (
          let found = hits float_to_string indexed req tokens 0 indexed.summary in
          ok (length found, take l (drop o found)))
  search-index_rows float_to_string req tokens o l offset limit small few decided =
      let stored =
        index_rows-IsStore c atof segment junk rows 0 [] new_store new_store-IsStore
          (omega arith) in
      search-page float_to_string indexed req tokens o l offset limit small
        (omega (
          arith,
          stored.size,
          index_rows-count c atof segment junk rows 0 [] new_store (omega arith),
        ))
        (subst (λ n. IsIndex n indexed.inverter) (sym stored.size) stored.index) decided
