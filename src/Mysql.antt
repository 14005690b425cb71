-- ===== src/Mysql.antt =====
-- src/looka_mysql_wrapper.cpp: the connection to the database. The client library is a parameter:
-- `D` is what stands in `m_tMysqlDriver` and in the server, `R` a result that is being fetched.
-- What is printed is left out.
pub mod Coherent
pub mod Ends
pub mod Steps
use looka.Common.{
  ℕ, zero, suc, ◌+◌, List, [], ◌∷◌, ◌++◌, Option, none, some, Bool, true, false, not, ◌||◌, ◌&&◌,
  if◌then◌else◌, get_elem?, length, is_empty,
}
use looka.Common.Bytes.{Bytes}
use looka.Common.Int.{ℤ, pos, negsuc}
use looka.Common.Result.{Result, ok, fault, stuck, ◌>>=◌, or_fault}
use looka.Config.Sources.{SourceConfig}
use looka.Indexer.{MysqlField}

-- The strings of a row: a null pointer for NULL.
abbrev pub Row : Type 0
Row = List (Option Bytes)

pub record MysqlParams : Type 0 where
  pub query : Bytes
  pub query_pre : List Bytes
  pub query_post : List Bytes
  pub print_queries : Bool
  pub usock : Bytes
  pub flags : ℕ
  pub ssl_key : Bytes
  pub ssl_cert : Bytes
  pub ssl_ca : Bytes
  pub host : Bytes
  pub user : Bytes
  pub pass : Bytes
  pub db : Bytes
  pub port : ℤ

-- The functions of the client library that are called. `with_multi_results` sets the flag
-- CLIENT_MULTI_RESULTS; `real_connect` says whether there is a connection; `query` and `next_result` give 0 for success, a function that returns a pointer
-- gives `none` for null. `results_left` bounds the results that the server has still to send.
pub record MysqlLib (D R : Type 0) : Type 0 where
  pub init : D → D
  pub ssl_set : D → Bytes → Bytes → Bytes → D
  pub with_multi_results : ℕ → ℕ
  pub real_connect : D → MysqlParams → ℕ → Bool × D
  pub query : D → Bytes → ℤ × D
  pub use_result : D → Option R × D
  pub fetch_row : D → R → Option Row × D
  pub fetch_fields : D → R → Option Row
  pub num_fields : D → R → ℕ
  pub fetch_lengths : D → R → Option (List ℕ)
  pub free_result : D → R → D
  pub next_result : D → ℤ × D
  pub close : D → D
  pub results_left : D → ℕ

-- The members of a MysqlWrapper that change.
pub record MysqlWrapper (D R : Type 0) : Type 0 where
  pub m_mysql_result : Option R
  pub m_mysql_fields : Option Row
  pub m_mysql_row : Option Row
  pub m_mysql_lengths : Option (List ℕ)
  pub m_mysql_driver : D
  pub m_sql_connected : Bool

abbrev pub is_zero : ℤ → Bool
is_zero (pos zero) = true
is_zero (pos (suc n)) = false
is_zero (negsuc n) = false

module _ {D R : Type 0} (lib : MysqlLib D R) (params : MysqlParams) where
  -- The constructor, without a connection.
  unfoldable pub new_wrapper : D → MysqlWrapper D R
  new_wrapper driver = record {
    m_mysql_result = none;
    m_mysql_fields = none;
    m_mysql_row = none;
    m_mysql_lengths = none;
    m_mysql_driver = driver;
    m_sql_connected = false;
  }

  -- `while (m_pMysqlResult)`, with fuel: the result is freed, and the next one takes its place.
  unfoldable pub dismiss_loop : ℕ → Option R → D → Result D
  dismiss_loop n none d = ok d
  dismiss_loop zero (some r) d = stuck
  dismiss_loop (suc n) (some r) d =
      let next = lib.next_result (lib.free_result d r) in
      let used = lib.use_result next.1 in
      elim (is_zero next.0) as (λ x. Result D) [
        | true ↦ dismiss_loop n used.0 used.1
        | false ↦ ok next.1
      ]

  -- The members that are null once no result is left.
  abbrev pub dismissed : D → MysqlWrapper D R → MysqlWrapper D R
  dismissed d w = record w {
    m_mysql_result = none;
    m_mysql_fields = none;
    m_mysql_lengths = none;
    m_mysql_driver = d;
  }

  -- `SqlDismissResult`: as many rounds as there are results left, and one more.
  unfoldable pub sql_dismiss_result : MysqlWrapper D R → Result (MysqlWrapper D R)
  unfolding dismiss_loop
  sql_dismiss_result w = elim w.m_mysql_result [
    | none ↦ ok w
    | some r ↦ do
      d ← dismiss_loop (suc (lib.results_left w.m_mysql_driver)) (some r) w.m_mysql_driver
      ok (dismissed d w)
  ]

  -- `SqlQuery`, of both kinds.
  unfoldable pub sql_query : Bytes → MysqlWrapper D R → Bool × MysqlWrapper D R
  sql_query query w =
      let r = lib.query w.m_mysql_driver query in
      let used = lib.use_result r.1 in
      if is_zero r.0
      then (
        true,
        record w { m_mysql_result = used.0; m_mysql_fields = none; m_mysql_driver = used.1 },
      )
      else (false, record w { m_mysql_driver = r.1 })

  -- The loops over the statements before and behind the query: empty ones are passed over, and
  -- whether one fails is not looked at.
  unfoldable pub sql_queries : List Bytes → MysqlWrapper D R → MysqlWrapper D R
  unfolding sql_query
  sql_queries [] w = w
  sql_queries (q ∷ qs) w = sql_queries qs (if is_empty q then w else (sql_query q w).1)

  -- `SqlConnect`
  unfoldable pub sql_connect : MysqlWrapper D R → Bool × MysqlWrapper D R
  unfolding sql_queries
  sql_connect w =
      let d = lib.init w.m_mysql_driver in
      let no_ssl =
        is_empty params.ssl_key && (is_empty params.ssl_cert && is_empty params.ssl_ca) in
      let d' = if no_ssl then d else lib.ssl_set d params.ssl_key params.ssl_cert params.ssl_ca in
      let c = lib.real_connect d' params (lib.with_multi_results params.flags) in
      if w.m_sql_connected
      then (true, w)
      else if c.0
      then (
        true,
        sql_queries params.query_pre (record w { m_sql_connected = true; m_mysql_driver = c.1 }),
      )
      else (false, record w { m_mysql_driver = c.1 })

  abbrev pub closed : MysqlWrapper D R → MysqlWrapper D R
  closed w = record w { m_mysql_driver = lib.close w.m_mysql_driver; m_sql_connected = false }

  -- `SqlDisconnect`
  unfoldable pub sql_disconnect : MysqlWrapper D R → Result (MysqlWrapper D R)
  unfolding sql_dismiss_result sql_queries
  sql_disconnect w =
      if w.m_sql_connected
      then (do
        none_open ← sql_dismiss_result w
        rest ← sql_dismiss_result (sql_queries params.query_post none_open)
        ok (closed rest))
      else ok w

  -- `SqlNumFields`: `none` is -1.
  unfoldable pub sql_num_fields : MysqlWrapper D R → Option ℕ
  sql_num_fields w = elim w.m_mysql_result [
    | none ↦ none
    | some r ↦ some (lib.num_fields w.m_mysql_driver r)
  ]

  -- `SqlFetchRow()`
  unfoldable pub sql_fetch_row : MysqlWrapper D R → Bool × MysqlWrapper D R
  sql_fetch_row w = elim w.m_mysql_result [
    | none ↦ (false, w)
    | some r ↦
        let f = lib.fetch_row w.m_mysql_driver r in
        (
          elim f.0 [ none ↦ false | some _ ↦ true ],
          record w { m_mysql_row = f.0; m_mysql_driver = f.1 },
        )
  ]

  -- `SqlColumn`: the pointer in the row; an index outside of it is a fault.
  unfoldable pub sql_column : ℕ → MysqlWrapper D R → Result (Option Bytes)
  sql_column i w = elim w.m_mysql_result [
    | none ↦ ok none
    | some _ ↦ do row ← or_fault w.m_mysql_row; or_fault (get_elem? row i)
  ]

  -- `SqlColumnLength`
  unfoldable pub sql_column_length : ℕ → MysqlWrapper D R → Result (ℕ × MysqlWrapper D R)
  sql_column_length i w = elim w.m_mysql_result [
    | none ↦ ok (0, w)
    | some r ↦
        let lengths : Option (List ℕ) = elim w.m_mysql_lengths [
          | none ↦ lib.fetch_lengths w.m_mysql_driver r
          | some ls ↦ some ls
        ] in
        do
          ls ← or_fault lengths
          l ← or_fault (get_elem? ls i)
          ok (l, record w { m_mysql_lengths = some ls })
  ]

  -- `SqlFieldName`: the fields are fetched once for a result.
  unfoldable pub sql_field_name : ℕ → MysqlWrapper D R → Result (Option Bytes × MysqlWrapper D R)
  sql_field_name i w = elim w.m_mysql_result [
    | none ↦ ok (none, w)
    | some r ↦
        let fields : Option Row = elim w.m_mysql_fields [
          | none ↦ lib.fetch_fields w.m_mysql_driver r
          | some fs ↦ some fs
        ] in
        do
          fs ← or_fault fields
          name ← or_fault (get_elem? fs i)
          ok (name, record w { m_mysql_fields = some fs })
  ]

  -- `for (int i=0; i<numFields; i++)`, with `n` rounds left: `none` is the result false, where a
  -- field has no name. A value that is NULL is the empty string.
  unfoldable pub fetch_fields :
      ℕ
      → ℕ
      → List MysqlField
      → MysqlWrapper D R
      → Result (Option (List MysqlField) × MysqlWrapper D R)
  unfolding sql_field_name sql_column
  fetch_fields zero i vfs w = ok (some vfs, w)
  fetch_fields (suc n) i vfs w = do
    pn ← sql_field_name i w
    pv ← sql_column i pn.1
    elim pn.0 [
      | none ↦ ok (none, pn.1)
      | some name ↦
          fetch_fields n (i + 1)
            (vfs ++ (record { name = name; value = elim pv [ none ↦ [] | some v ↦ v ] } ∷ [])) pn.1
    ]

  -- `SqlFetchRow(vfs)`: the fields of the next row, or `none` for the result false.
  unfoldable pub sql_fetch_fields :
      MysqlWrapper D R → Result (Option (List MysqlField) × MysqlWrapper D R)
  unfolding sql_fetch_row sql_num_fields fetch_fields
  sql_fetch_fields w =
      let f = sql_fetch_row w in
      if f.0
      then elim (sql_num_fields f.1) [ none ↦ ok (none, f.1) | some n ↦ fetch_fields n 0 [] f.1 ]
      else ok (none, f.1)

-- `CreateMysqlWrapper` of src/indexer/looka_indexer.cpp: the parameters of a source. The flags are
-- what the memory holds: nothing sets them.
unfoldable pub create_params : ℕ → SourceConfig → MysqlParams
create_params flags cfg = record {
  query = cfg.sql_query;
  query_pre = cfg.sql_query_pre_set;
  query_post = cfg.sql_query_post_set;
  print_queries = cfg.sql_print_query;
  usock = cfg.sql_socket;
  flags = flags;
  ssl_key = [];
  ssl_cert = [];
  ssl_ca = [];
  host = cfg.sql_host;
  user = cfg.sql_user;
  pass = cfg.sql_pass;
  db = cfg.sql_db;
  port = cfg.sql_port;
}
