-- ===== src/Config/Sources.antt =====
-- src/looka_config_source.cpp, looka_config_index.cpp and looka_config_searchd.cpp: the settings
-- read from a loaded configuration. `none` is the end of the process, on a missing section or a
-- missing setting that has no default. The file that a path opens is a parameter.
use looka.Common.{
  List, [], ◌∷◌, ◌++◌, Option, none, some, Bool, if◌then◌else◌, is_empty, ◌==◌, length, get_or, ◌-◌,
}
use looka.Common.Bytes.{Bytes, codes, bytes_beq, find_char}
use looka.Common.Int.{ℤ, pos, eqℤ}
use looka.Config.{Sections, get_string, get_string_v, get_int, lines_of}
use looka.Indexer.{Columns}
use looka.StrUtils.{split_string, rtrim, rtrimc}

infixl 5 ◌>>=◌
abbrev ◌>>=◌ : {A B : Type 0} → Option A → (A → Option B) → Option B
none >>= f = none
some a >>= f = f a

-- `if ((x = lc->GetString(...)) == "") _ERROR_EXIT`
required : Bytes → Bytes → Bytes → Sections → Option Bytes
unfolding get_string
required tag name item m = do s ← get_string tag name item [] m; if is_empty s then none else some s

-- `if ((x = lc->GetInt(..., 0)) == 0) _ERROR_EXIT`
required_int : Bytes → Bytes → Bytes → Sections → Option ℤ
unfolding get_int
required_int tag name item m = do
  n ← get_int tag name item (pos 0) m
  if eqℤ n (pos 0) then none else some n

-- `AppendSqlFromFile`, over the file's lines: `s` is the statement so far.
unfoldable pub append_sql : List Bytes → Bytes → List Bytes → List Bytes
unfolding rtrim rtrimc
append_sql [] s sqls = sqls
append_sql (line ∷ lines) s sqls =
    if is_empty line then append_sql lines s sqls else elim (find_char b';' line) [
      | none ↦ append_sql lines (s ++ line) sqls
      | some _ ↦ append_sql lines [] (sqls ++ (rtrimc (rtrim (s ++ line)) b';' ∷ []))
    ]

unfoldable pub append_sql_from_file : (Bytes → Option Bytes) → Bytes → List Bytes → List Bytes
unfolding append_sql lines_of
append_sql_from_file files path sqls =
    if is_empty path
    then sqls
    else elim (files path) [ none ↦ sqls | some text ↦ append_sql (lines_of text) [] sqls ]

pub record SourceConfig : Type 0 where
  pub sql_host : Bytes
  pub sql_user : Bytes
  pub sql_pass : Bytes
  pub sql_db : Bytes
  pub sql_query : Bytes
  pub sql_socket : Bytes
  pub sql_print_query : Bool
  pub sql_port : ℤ
  pub columns : Columns
  pub sql_query_pre_set : List Bytes
  pub sql_query_post_set : List Bytes

-- `LookaConfigSource`
unfoldable pub source_config : (Bytes → Option Bytes) → Bytes → Sections → Option SourceConfig
unfolding required required_int get_string get_string_v split_string append_sql_from_file
source_config files name m = do
  host ← required (codes "source") name (codes "sql_host") m
  user ← required (codes "source") name (codes "sql_user") m
  pass ← get_string (codes "source") name (codes "sql_pass") [] m
  db ← required (codes "source") name (codes "sql_db") m
  query ← required (codes "source") name (codes "sql_query") m
  socket ← get_string (codes "source") name (codes "sql_socket") [] m
  print ← get_string (codes "source") name (codes "sql_print_query") (codes "false") m
  port ← required_int (codes "source") name (codes "sql_port") m
  attr_uint ← get_string_v (codes "source") name (codes "sql_attr_uint") m
  attr_float ← get_string_v (codes "source") name (codes "sql_attr_float") m
  attr_multi ← get_string_v (codes "source") name (codes "sql_attr_multi") m
  attr_string ← get_string_v (codes "source") name (codes "sql_attr_string") m
  field_string ← get_string_v (codes "source") name (codes "sql_field_string") m
  pre ← get_string (codes "source") name (codes "sql_query_pre") [] m
  post ← get_string (codes "source") name (codes "sql_query_post") [] m
  pre_path ← get_string (codes "source") name (codes "sql_query_pre_path") [] m
  post_path ← get_string (codes "source") name (codes "sql_query_post_path") [] m
  some (record {
    sql_host = host;
    sql_user = user;
    sql_pass = pass;
    sql_db = db;
    sql_query = query;
    sql_socket = socket;
    sql_print_query = bytes_beq print (codes "true");
    sql_port = port;
    columns = record {
      sql_attr_uint = attr_uint;
      sql_attr_float = attr_float;
      sql_attr_multi = attr_multi;
      sql_attr_string = attr_string;
      sql_field_string = field_string;
    };
    sql_query_pre_set = append_sql_from_file files pre_path (split_string pre b';');
    sql_query_post_set = append_sql_from_file files post_path (split_string post b';');
  })

pub record IndexConfig : Type 0 where
  pub source : Bytes
  pub dict_path : Bytes
  pub index_path : Bytes
  pub summary_file_uint : Bytes
  pub summary_file_float : Bytes
  pub summary_file_multi : Bytes
  pub summary_file_string : Bytes
  pub index_file : Bytes

-- The path with a slash at its end.
slashed : Bytes → Bytes
slashed path = if get_or path (length path - 1) 0 == b'/' then path else path ++ (b'/' ∷ [])

-- `LookaConfigIndex`
unfoldable pub index_config : Bytes → Sections → Option IndexConfig
unfolding required slashed
index_config name m = do
  source ← required (codes "index") name (codes "source") m
  dict ← required (codes "index") name (codes "dict_path") m
  path ← required (codes "index") name (codes "index_path") m
  let stem = slashed path ++ (if is_empty name then codes "looka" else name) in
      some (record {
        source = source;
        dict_path = dict;
        index_path = slashed path;
        summary_file_uint = stem ++ codes ".lcu";
        summary_file_float = stem ++ codes ".lcf";
        summary_file_multi = stem ++ codes ".lcm";
        summary_file_string = stem ++ codes ".lcs";
        index_file = stem ++ codes ".lci";
      })

pub record SearchdConfig : Type 0 where
  pub listen_port : ℤ
  pub thread_num : ℤ
  pub searchd_log : Bytes
  pub query_log : Bytes
  pub pid_file : Bytes
  pub max_matches : ℤ
  pub client_timeout : ℤ
  pub read_timeout : ℤ

-- `LookaConfigSearchd`
unfoldable pub searchd_config : Bytes → Sections → Option SearchdConfig
unfolding required required_int
searchd_config name m = do
  listen ← required_int (codes "searchd") name (codes "listen") m
  threads ← required_int (codes "searchd") name (codes "thread_num") m
  log ← required (codes "searchd") name (codes "searchd_log") m
  queries ← required (codes "searchd") name (codes "query_log") m
  pid ← required (codes "searchd") name (codes "pid_file") m
  matches ← required_int (codes "searchd") name (codes "max_matches") m
  client ← required_int (codes "searchd") name (codes "client_timeout") m
  read ← required_int (codes "searchd") name (codes "read_timeout") m
  some (record {
    listen_port = listen;
    thread_num = threads;
    searchd_log = log;
    query_log = queries;
    pid_file = pid;
    max_matches = matches;
    client_timeout = client;
    read_timeout = read;
  })
