-- ===== src/Searchd/Process.antt =====
-- `Process` of src/searchd/looka_searchd.cpp: from the HTTP request to the text of the result.
use looka.Common.{ℕ, List, [], ◌∷◌, ◌++◌, Option, none, some, if◌then◌else◌, map}
use looka.Common.Bytes.{Bytes, codes}
use looka.Common.Int.{ℤ, pos, wrap_int}
use looka.Common.Result.{Result, ok, ◌>>=◌}
use looka.Http.{HttpRequest}
use looka.Indexer.{Columns}
use looka.Request.{LookaRequest, new_looka_request, parse}
use looka.Searchd.{Index, search}
use looka.Searchd.Packer.{JsonLib, XmlLib, get_result_packer, pack_result}
use looka.Segmenter.{SegmentToken}
use looka.StrUtils.{int_to_string}

-- The microseconds that the parts of a query took.
pub record Costs : Type 0 where
  pub parse : ℤ
  pub segment : ℤ
  pub search : ℤ
  pub pack : ℤ

-- The extra pairs of a result.
unfoldable pub extra_pairs : Costs → ℕ → List (Bytes × Bytes)
unfolding int_to_string
extra_pairs costs total =
    (codes "total_found", int_to_string (wrap_int (pos total)))
    ∷ (codes "parse_cost", int_to_string costs.parse ++ codes "us")
    ∷ (codes "segment_cost", int_to_string costs.segment ++ codes "us")
    ∷ (codes "search_cost", int_to_string costs.search ++ codes "us")
    ∷ []

module _ {J X : Type 0} (json : JsonLib J) (xml : XmlLib X) (float_to_string : ℕ → Bytes)
    (segment : Bytes → List SegmentToken) (source : Columns) (index : Index) (costs : Costs) where
  -- `Process` behind the parsing of the request: the reply and the extension.
  unfoldable pub process_query : LookaRequest → Result (Bytes × Bytes)
  unfolding search get_result_packer pack_result extra_pairs
  process_query req =
      let strtokens = map (λ s. s.str) (segment req.query) in
      do
        found ← search float_to_string index req strtokens
        reply ←
            pack_result json xml (get_result_packer req.dataformat) source req.query found.1
              index.attr_names (extra_pairs costs found.0) costs.pack
        ok (reply, req.dataformat)

  -- `Process`: `none` is the result false.
  unfoldable pub process : HttpRequest → Result (Option (Bytes × Bytes))
  unfolding parse process_query
  process request =
      let req = parse request new_looka_request in
      if req.0 then (do r ← process_query req.1; ok (some r)) else ok none
