-- ===== src/Tests/Stores.antt =====
-- Concrete inputs for the index, its file, the query and the configuration.
use Prim.Native.Nat.{ℕ, ◌<◌}
use mathlib.Core.Path.{subst, sym}
use looka.Common.{
  List, [], ◌∷◌, ◌++◌, some, true, false, length, take, nat_eq, drop, map, All, ◌≡◌, ◌≢◌, refl,
  arith,
}
use looka.Common.Bytes.{Bytes, codes, bytes_beq}
use looka.Common.Int.{pos}
use looka.Common.Result.{ok}
use looka.Attr.{attr_uint, create_attr_names}
use looka.Config.{Sections, SectionInfo, add_section, get_section_conf, find_tag}
use looka.Config.Lookup.{infos_of, IsAccepted, whole_conf, get_section_conf-add_section}
use looka.File.{write_index_to_file, read_index_from_file}
use looka.File.Index.{IsEntry, AreEntries, IsShort, IsWritten, token_bytes}
use looka.Words.{le_bytes}
use looka.File.ReadBack.{
  tokens_bytes, IsDistinct, AreWritten, IsWritable, read_index_from_file-write_index_to_file,
}
use looka.Http.Server.{read_content}
use looka.Http.Pieces.{ArePieces, stream}
use looka.Common.{if◌then◌else◌, leb, none, some, ◌++◌}
use looka.Http.Content.{content_of, read_content-stream}
use looka.Indexer.{MysqlField, Columns, Store, new_store, index_rows, misses_column, is_in_fields}
use looka.Indexer.Rows.{
  IsStore, new_store-IsStore, index_rows-IsStore, row_has, index_rows-has_token,
}
use looka.Indexer.Tokens.{NoClash, row_tokens}
use looka.Intersect.{TokenIntersect, new_looka_intersect, set_tokens, seek, token_seek}
use looka.Intersect.Scan.{in_token, Finds, token_seek-Finds}
use looka.Intersect.Tokens.{IsIndex, has_token, matches, seek-Finds}
use looka.Inverter.{Inverter, new_inverter, items_of, add_all}
use looka.Inverter.Laws.{list_of, items_of-add_all}
use looka.Request.{LookaRequest, new_looka_request, parse_filter}
use looka.Request.Filter.{values_of, Rises}
use looka.Request.FilterText.{IsWord, IsFilterEntry, filter_text, given, parse_filter-filter_text}
use looka.Searchd.{Index, search, drop_by_filter}
use looka.Searchd.Page.{search-page}
use looka.Searchd.Search.{hits, IsDecided}
use looka.Segmenter.{SegmentToken}
use looka.Str2id.{compute_token_id}
use looka.StrUtils.{isspace}
use looka.Types.{DocInvert, Token, make_token, token_eq}

abbrev pub entry : ℕ → DocInvert
entry n = record { local_id = n; hits_size = 3; hits = 0 ∷ 1 ∷ 7 ∷ 0 ∷ 0 ∷ 0 ∷ [] }

abbrev two_docs : TokenIntersect
two_docs = record { idx = 0; docs = some (entry 2 ∷ entry 5 ∷ []) }

token_seek-Finds_example : Finds (λ x. in_token x two_docs) 3 (token_seek two_docs 3)
token_seek-Finds_example =
    token_seek-Finds 9 3 two_docs (omega arith)
      (((omega arith, (omega arith, tt)), ((omega arith, (omega arith, tt)))))

items_of-add_all_example :
    items_of 1 (add_all 1 (8 ∷ 9 ∷ []) (new_inverter {K = ℕ} {A = ℕ})).1
    ≡ some (list_of (items_of 1 (new_inverter {K = ℕ} {A = ℕ})) ++ (8 ∷ 9 ∷ []))
items_of-add_all_example = items_of-add_all 1 1 (8 ∷ 9 ∷ []) new_inverter

-- One token of each byte of the text.
abbrev pub letters : Bytes → List SegmentToken
letters s = map (λ c. record { str = c ∷ []; pos = c }) s

abbrev pub columns : Columns
columns = record {
  sql_attr_uint = codes "n" ∷ [];
  sql_attr_float = [];
  sql_attr_multi = [];
  sql_attr_string = [];
  sql_field_string = codes "t" ∷ [];
}

abbrev pub row : Bytes → Bytes → List MysqlField
row text n = record { name = codes "t"; value = text } ∷ record { name = codes "n"; value = n } ∷ []

abbrev pub rows : List (List MysqlField)
rows = row (codes "ab") (codes "7") ∷ row (codes "b") (codes "9") ∷ []

-- `atof` of a text, for columns that have no float.
abbrev pub no_floats : Bytes → ℕ
no_floats s = 0

abbrev store : Store
store = (index_rows columns no_floats letters [] rows 0 [] new_store).1

index_rows-IsStore_example :
    IsStore
      (index_rows columns no_floats letters [] rows 0 [] new_store).0
      (index_rows columns no_floats letters [] rows 0 [] new_store).1
index_rows-IsStore_example =
    index_rows-IsStore columns no_floats letters [] rows 0 [] new_store new_store-IsStore
      (omega arith)

stored : IsStore 2 store
unfolding index_rows
stored =
    index_rows-IsStore columns no_floats letters [] rows 0 [] new_store new_store-IsStore
      (omega arith)

pub clashless : All (λ fs. NoClash (codes "b") (row_tokens columns no_floats letters fs)) rows
unfolding compute_token_id is_in_fields
clashless = (((λ e. absurd (omega (arith, e))), ((λ e. refl), tt)), (((λ e. refl), tt), tt))

index_rows-has_token_example :
    has_token (index_rows columns no_floats letters [] rows 0 [] new_store).1.inverter 1 (codes "b")
    ≡ row_has columns no_floats letters [] (codes "b") rows 1
unfolding misses_column
index_rows-has_token_example =
    index_rows-has_token columns no_floats letters [] (codes "b") rows 1 (omega arith)
      (refl, (refl, tt)) clashless

seek-Finds_example :
    (r : ℕ) × (seek (set_tokens (codes "b" ∷ []) store.inverter new_looka_intersect) 1 ≡ some r)
    × Finds (matches store.inverter (codes "b" ∷ [])) 1 r
seek-Finds_example =
    seek-Finds 2 store.inverter (codes "b" ∷ []) new_looka_intersect 1 (omega arith) stored.index

abbrev index : Index
index = record {
  inverter = store.inverter;
  summary = store.summary;
  attr_names = (attr_uint, create_attr_names (codes "n" ∷ []) []) ∷ [];
}

abbrev pub request : LookaRequest
request = record new_looka_request {
  limit = pos 1;
  offset = pos 0;
  filter = (codes "n", codes "9" ∷ []) ∷ [];
}

abbrev pub float_text : ℕ → Bytes
float_text n = []

decided : All (IsDecided float_text index request (codes "b" ∷ [])) index.summary
unfolding index_rows drop_by_filter new_store
decided = ((true, refl), ((false, refl), tt))

search-page_example : search float_text index request (codes "b" ∷ []) ≡ (
    let found = hits float_text index request (codes "b" ∷ []) 0 index.summary in
    ok (length found, take 1 (drop 0 found)))
search-page_example =
    search-page float_text index request (codes "b" ∷ []) 0 1 refl refl (omega arith)
      (omega (arith, stored.size))
      (subst (λ n. IsIndex n store.inverter) (sym stored.size) stored.index) decided

abbrev one_token : Inverter Token DocInvert
one_token = record { m_idx_invert = (make_token (codes "b"), entry 0 ∷ []) ∷ [] }

writable : IsWritable one_token
unfolding IsWritable IsDistinct AreWritten IsWritten IsShort AreEntries IsEntry items_of
    compute_token_id tokens_bytes token_bytes le_bytes
writable = (
  (tt, tt),
  omega arith,
  (
    (
      (refl, omega arith, ((omega arith), tt)),
      (((omega arith, omega arith, refl), tt)),
      omega arith,
    ),
    tt,
  ),
  omega arith,
)

read_index_from_file-write_index_to_file_example :
    (f : Bytes) × (inv' : Inverter Token DocInvert) × (write_index_to_file one_token ≡ ok f)
    × (read_index_from_file (some f) new_inverter ≡ ok (true, inv'))
    × ((k : Token) → list_of (items_of k inv') ≡ list_of (items_of k one_token))
read_index_from_file-write_index_to_file_example =
    read_index_from_file-write_index_to_file one_token writable

abbrev base : SectionInfo
base = record { head = record { name = codes "base"; parent = [] }; conf = codes "a=1" }

abbrev child : SectionInfo
child = record { head = record { name = codes "c"; parent = codes "base" }; conf = codes "b=2" }

abbrev loaded : Sections
loaded = (codes "source", base ∷ []) ∷ []

accepted : IsAccepted (codes "source") child loaded
unfolding IsAccepted find_tag
accepted = (refl, refl)

get_section_conf-add_section_example :
    (m' : Sections) × (add_section (codes "source") child loaded ≡ some m')
    × (get_section_conf (codes "source") child.head.name m'
        ≡ some (whole_conf child (infos_of (find_tag (codes "source") loaded))))
    × ((k : Bytes) → bytes_beq (codes "source") k ≡ false → find_tag k m' ≡ find_tag k loaded)
get_section_conf-add_section_example =
    get_section_conf-add_section (codes "source") child loaded accepted

abbrev entries : List (Bytes × List Bytes)
entries = (codes "n", codes "9" ∷ codes "7" ∷ []) ∷ []

word : (c : ℕ) → isspace c ≡ false → 44 < c → c ≢ 58 → c ≢ 59 → IsWord (c ∷ [])
word c s a b d = ((λ e. cc), (((s, omega arith), d, b, omega arith), tt))

are_entries : All IsFilterEntry entries
unfolding IsFilterEntry isspace
are_entries = (
  (
    word 110 refl (omega arith) (omega arith) (omega arith),
    (λ e. cc),
    (
      word 57 refl (omega arith) (omega arith) (omega arith),
      (word 55 refl (omega arith) (omega arith) (omega arith), tt),
    ),
  ),
  tt,
)

rises : Rises new_looka_request.filter
unfolding Rises
rises = tt

parse_filter-filter_text_example :
    values_of (codes "n") (parse_filter (filter_text entries) new_looka_request).1.filter
    ≡ values_of (codes "n") new_looka_request.filter ++ given (codes "n") entries
parse_filter-filter_text_example =
    parse_filter-filter_text entries new_looka_request (codes "n") (λ e. cc) are_entries rises

pieces : ArePieces (codes "ab" ∷ codes "cd" ∷ [])
unfolding ArePieces
pieces = (
  ((λ e. cc), (omega arith, (omega arith, tt))),
  (((λ e. cc), (omega arith, (omega arith, tt))), tt),
)

read_content-stream_example :
    content_of (read_content (pos 4) (codes "x") (codes "ab" ∷ codes "cd" ∷ [])) ≡ (
      let whole = codes "x" ++ stream (codes "ab" ∷ codes "cd" ∷ []) in
      ok (if leb 4 (length whole) then some (take 4 whole) else none))
read_content-stream_example =
    read_content-stream 4 (codes "x") (codes "ab" ∷ codes "cd" ∷ []) (omega arith) (omega arith)
      pieces
