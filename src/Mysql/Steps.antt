-- ===== src/Mysql/Steps.antt =====
-- The wrapper as a state machine: what its methods keep true.
use looka.Common.{ℕ, Option, ◌≡◌}
use looka.Common.Bytes.{Bytes}
use looka.Common.Result.{ok}
use looka.Mysql.{
  MysqlParams, MysqlLib, MysqlWrapper, new_wrapper, sql_dismiss_result, sql_query, sql_connect,
  sql_disconnect, sql_fetch_row, sql_column_length, sql_field_name,
}
use looka.Mysql.Coherent.{
  IsCoherent, sql_query-IsCoherent, sql_connect-IsCoherent, sql_dismiss_result-IsCoherent,
  sql_disconnect-IsCoherent, sql_fetch_row-IsCoherent, sql_field_name-IsCoherent,
  sql_column_length-IsCoherent,
}

module _ {D R : Type 0} (lib : MysqlLib D R) (params : MysqlParams) where
  abbrev W : Type 0
  W = MysqlWrapper D R

  -- A call of a method that returns.
  pub data Step : W → W → Type 0 where
    connects : (w : W) → Step w (sql_connect lib params w).1
    queries : (w : W) (q : Bytes) → Step w (sql_query lib params q w).1
    dismisses : (w w' : W) → sql_dismiss_result lib params w ≡ ok w' → Step w w'
    disconnects : (w w' : W) → sql_disconnect lib params w ≡ ok w' → Step w w'
    fetches : (w : W) → Step w (sql_fetch_row lib params w).1
    names :
        (w w' : W) (i : ℕ) (o : Option Bytes)
        → sql_field_name lib params i w ≡ ok (o, w')
        → Step w w'
    measures : (w w' : W) (i l : ℕ) → sql_column_length lib params i w ≡ ok (l, w') → Step w w'

  -- The states of a wrapper in use.
  pub data Reachable : W → Type 0 where
    made : (d : D) → Reachable (new_wrapper lib params d)
    next : (w w' : W) → Reachable w → Step w w' → Reachable w'

  Step-IsCoherent : {w w' : W} → Step w w' → IsCoherent lib params w → IsCoherent lib params w'
  Step-IsCoherent (connects w) h = sql_connect-IsCoherent lib params w h
  Step-IsCoherent (queries w q) h = sql_query-IsCoherent lib params q w h
  Step-IsCoherent (dismisses w w' e) h = sql_dismiss_result-IsCoherent lib params w w' e h
  Step-IsCoherent (disconnects w w' e) h = sql_disconnect-IsCoherent lib params w w' e h
  Step-IsCoherent (fetches w) h = sql_fetch_row-IsCoherent lib params w h
  Step-IsCoherent (names w w' i o e) h = sql_field_name-IsCoherent lib params w w' i o e h
  Step-IsCoherent (measures w w' i l e) h = sql_column_length-IsCoherent lib params w w' i l e h

  -- In every state that the methods of a wrapper lead to, in any order and whatever the library
  -- answers, cached fields are those that the library gives for the result that is open: the names
  -- of columns are never taken from a result that was freed or replaced.
  pub Reachable-IsCoherent : {w : W} → Reachable w → IsCoherent lib params w
  unfolding new_wrapper
  Reachable-IsCoherent (made d) = tt
  Reachable-IsCoherent (next w w' r s) = Step-IsCoherent s (Reachable-IsCoherent r)
