-- ===== src/Tests/Database.antt =====
-- A concrete client library: what it holds is the number of results that the server still sends.
use looka.Common.{ℕ, Option, zero, suc, [], ◌∷◌, none, some, true, false, ◌≡◌, refl, arith}
use looka.Common.Bytes.{Bytes, codes}
use looka.Common.Int.{pos}
use looka.Common.Result.{ok}
use looka.Mysql.{
  MysqlParams, MysqlLib, MysqlWrapper, new_wrapper, sql_connect, sql_query, sql_field_name,
  sql_disconnect,
}
use looka.Mysql.Coherent.{IsCoherent}
use looka.Mysql.Steps.{Reachable, made, next, connects, queries, names, Reachable-IsCoherent}
use looka.Mysql.Ends.{Drains, sql_disconnect-ok}

abbrev counted : MysqlLib ℕ ℕ
counted = record {
  init = λ d. d;
  ssl_set = λ d k c a. d;
  with_multi_results = λ f. f;
  real_connect = λ d p f. (true, d);
  query = λ d q. (pos 0, suc d);
  use_result = λ d. (some d, d);
  fetch_row = λ d r. (some (some (codes "x") ∷ []), d);
  fetch_fields = λ d r. some (some (codes "t") ∷ []);
  num_fields = λ d r. 1;
  fetch_lengths = λ d r. some (1 ∷ []);
  free_result = λ d r. d;
  next_result = λ d. elim d [ zero ↦ (pos 1, zero) | suc n ↦ (pos 0, n) ];
  close = λ d. d;
  results_left = λ d. d;
}

abbrev params : MysqlParams
params = record {
  query = codes "q";
  query_pre = codes "p" ∷ [];
  query_post = codes "r" ∷ [];
  print_queries = false;
  usock = [];
  flags = 0;
  ssl_key = [];
  ssl_cert = [];
  ssl_ca = [];
  host = [];
  user = [];
  pass = [];
  db = [];
  port = pos 3306;
}

drains : Drains counted params
drains zero r e = absurd (cc)
drains (suc d) r e = omega arith

abbrev opened : MysqlWrapper ℕ ℕ
opened = (sql_connect counted params (new_wrapper counted params 2)).1

reached : Reachable counted params opened
reached = next _ _ (made 2) (connects _)

-- The wrapper after a query, and after the name of a column was asked for.
abbrev queried : MysqlWrapper ℕ ℕ
queried = (sql_query counted params (codes "q") opened).1

named :
    (o : Option Bytes) × (w : MysqlWrapper ℕ ℕ) × (sql_field_name counted params 0 queried
      ≡ ok (o, w))
unfolding sql_field_name sql_query sql_connect new_wrapper
named = (_, _, refl)

has_cached_fields : named.1.m_mysql_fields ≡ some (some (codes "t") ∷ [])
unfolding named sql_field_name sql_query sql_connect new_wrapper
has_cached_fields = refl

reached_named : Reachable counted params named.1
reached_named = next _ _ (next _ _ reached (queries _ (codes "q"))) (names _ _ 0 named.0 named.2)

Reachable-IsCoherent_example : IsCoherent counted params named.1
Reachable-IsCoherent_example = Reachable-IsCoherent counted params reached_named

is_open : opened.m_sql_connected ≡ true
unfolding sql_connect new_wrapper
is_open = refl

sql_disconnect-ok_example :
    (w' : MysqlWrapper ℕ ℕ) × (sql_disconnect counted params opened ≡ ok w')
    × (w'.m_sql_connected ≡ false)
    × (w'.m_mysql_result ≡ none)
sql_disconnect-ok_example = sql_disconnect-ok counted params opened drains is_open
