-- ===== src/Request.antt =====
-- src/searchd/looka_request.hpp and .cpp: the query that a request's parameters make.
pub mod Filter
pub mod FilterText
use looka.Common.{
  ℕ, ◌+◌, List, [], ◌∷◌, ◌++◌, Option, none, some, Bool, true, false, not, ◌&&◌, if◌then◌else◌, ltb,
  ◌==◌, is_empty, drop, length,
}
use looka.Common.Bytes.{Bytes, codes, bytes_beq, find}
use looka.Common.Int.{ℤ, pos}
use looka.StrUtils.{split_string, xsplit, trim, to_lower, atoi}
use looka.Http.{HttpRequest}

-- `std::map<std::string, std::vector<std::string> >`, in the order of the keys.
abbrev pub Filter : Type 0
Filter = List (Bytes × List Bytes)

pub record LookaRequest : Type 0 where
  pub query : Bytes
  pub index : Bytes
  pub charset : Bytes
  pub dataformat : Bytes
  pub filter_string : Bytes
  pub filter_range_string : Bytes
  pub limit : ℤ
  pub offset : ℤ
  pub filter : Filter
  pub filter_range : Filter

abbrev pub new_looka_request : LookaRequest
new_looka_request = record {
  query = [];
  index = codes "*";
  charset = codes "utf8";
  dataformat = codes "xml";
  filter_string = [];
  filter_range_string = [];
  limit = pos 4000;
  offset = pos 0;
  filter = [];
  filter_range = [];
}

-- `operator <` of strings.
unfoldable pub bytes_ltb : Bytes → Bytes → Bool
bytes_ltb [] [] = false
bytes_ltb [] (y ∷ ys) = true
bytes_ltb (x ∷ xs) [] = false
bytes_ltb (x ∷ xs) (y ∷ ys) = if ltb x y then true else x == y && bytes_ltb xs ys

-- `filter[k] = vs` for a new key, `filter[k].insert(end, vs)` for one that is there.
unfoldable pub filter_add : Bytes → List Bytes → Filter → Filter
unfolding bytes_ltb
filter_add k vs [] = (k, vs) ∷ []
filter_add k vs ((j, ws) ∷ m) =
    if bytes_beq j k
    then (j, ws ++ vs) ∷ m
    else if bytes_ltb k j
    then (k, vs) ∷ (j, ws) ∷ m
    else (j, ws) ∷ filter_add k vs m

-- One round of the loop of `ParseFilter`: `continue` leaves the filter as it is.
filter_kvs : List Bytes → Filter → Filter
unfolding split_string filter_add
filter_kvs (k ∷ v ∷ []) filter =
    let vs = split_string v b',' in if is_empty vs then filter else filter_add k vs filter
filter_kvs _ filter = filter

unfoldable pub filter_piece : Bytes → Filter → Filter
unfolding filter_kvs split_string
filter_piece piece filter =
    if is_empty piece then filter else filter_kvs (split_string piece b':') filter

unfoldable pub filter_pieces : List Bytes → Filter → Filter
unfolding filter_piece
filter_pieces [] filter = filter
filter_pieces (p ∷ ps) filter = filter_pieces ps (filter_piece p filter)

unfoldable pub parse_filter : Bytes → LookaRequest → Bool × LookaRequest
unfolding filter_pieces split_string
parse_filter s r =
    let pieces = split_string s b';' in
    let filter' = filter_pieces pieces r.filter in
    if is_empty pieces
    then (false, record r { filter_string = s })
    else (not (is_empty filter'), record r { filter_string = s; filter = filter' })

unfoldable pub parse_filter_range : Bytes → LookaRequest → Bool × LookaRequest
parse_filter_range s r = (false, record r { filter_range_string = s })

-- The parameters of the form `name=value`, with a name.
unfoldable pub pair_params : List Bytes → List (Bytes × Bytes)
unfolding xsplit
pair_params [] = []
pair_params (p ∷ ps) =
    let rest = pair_params ps in
    elim (xsplit p b'=') [
      | none ↦ rest
      | some (argc, argv) ↦ if is_empty argc then rest else (argc, argv) ∷ rest
    ]

unfoldable pub set_param : Bytes → Bytes → LookaRequest → LookaRequest
unfolding parse_filter parse_filter_range atoi
set_param key val r =
    if bytes_beq key (codes "query")
    then record r { query = val }
    else if bytes_beq key (codes "index")
    then record r { index = val }
    else if bytes_beq key (codes "limit")
    then record r { limit = atoi val }
    else if bytes_beq key (codes "charset")
    then record r { charset = val }
    else if bytes_beq key (codes "dataformat")
    then record r { dataformat = to_lower val }
    else if bytes_beq key (codes "offset")
    then record r { offset = atoi val }
    else if bytes_beq key (codes "filter")
    then (parse_filter val r).1
    else if bytes_beq key (codes "filter_range")
    then (parse_filter_range val r).1
    else r

unfoldable pub set_params : List (Bytes × Bytes) → LookaRequest → LookaRequest
unfolding set_param trim
set_params [] r = r
set_params ((argc, argv) ∷ ps) r = set_params ps (set_param (trim argc) (trim argv) r)

-- The text of the parameters: behind `/?` at the front of the URI of a GET, the content of a POST.
unfoldable pub request_string : HttpRequest → Option Bytes
request_string http =
    if bytes_beq http.method (codes "GET")
    then elim (find (codes "/?") http.uri) [
      | none ↦ none
      | some at ↦ if at == 0 then some (drop (at + 2) http.uri) else none
    ]
    else if bytes_beq http.method (codes "POST")
    then some http.content
    else none

-- `Parse` returns false and leaves the request as it was, or it sets the parameters in their
-- order.
unfoldable pub parse : HttpRequest → LookaRequest → Bool × LookaRequest
unfolding request_string split_string pair_params set_params
parse http r = elim (request_string http) [
  | none ↦ (false, r)
  | some s ↦
      let full_params = split_string s b'&' in
      if is_empty full_params then (false, r) else (true, set_params (pair_params full_params) r)
]
