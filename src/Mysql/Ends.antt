-- ===== src/Mysql/Ends.antt =====
-- The methods of the wrapper that go through the results of the server end.
use looka.Common.{
  ℕ, zero, suc, ◌<◌, Option, none, some, true, false, ◌≡◌, refl, ◌∙◌, arith, Bool-cases,
  Option-cases, inl, inr,
}
use looka.Common.Result.{ok}
use looka.Mysql.Coherent.{
  sql_dismiss_result-none, sql_dismiss_result-some, sql_disconnect-connected,
}
use looka.Mysql.{
  MysqlParams, MysqlLib, MysqlWrapper, is_zero, dismiss_loop, dismissed, closed, sql_dismiss_result,
  sql_queries, sql_disconnect,
}

module _ {D R : Type 0} (lib : MysqlLib D R) (params : MysqlParams) where
  abbrev W : Type 0
  W = MysqlWrapper D R

  -- A result that follows another one has fewer results behind it.
  abbrev pub Drains : Type 0
  Drains =
      (d : D) (r : R)
      → is_zero (lib.next_result (lib.free_result d r)).0 ≡ true
      → lib.results_left (lib.use_result (lib.next_result (lib.free_result d r)).1).1
        < lib.results_left d

  dismiss_loop-more :
      (n : ℕ) (r : R) (d : D)
      → is_zero (lib.next_result (lib.free_result d r)).0 ≡ true
      → dismiss_loop lib params (suc n) (some r) d ≡ (
          let used = lib.use_result (lib.next_result (lib.free_result d r)).1 in
          dismiss_loop lib params n used.0 used.1)
  unfolding dismiss_loop
  dismiss_loop-more n r d e = rw (dismiss_loop, e) refl

  dismiss_loop-last :
      (n : ℕ) (r : R) (d : D)
      → is_zero (lib.next_result (lib.free_result d r)).0 ≡ false
      → dismiss_loop lib params (suc n) (some r) d ≡ ok (lib.next_result (lib.free_result d r)).1
  unfolding dismiss_loop
  dismiss_loop-last n r d e = rw (dismiss_loop, e) refl

  dismiss_loop-ok :
      (n : ℕ) (o : Option R) (d : D)
      → Drains
      → lib.results_left d < n
      → (d' : D) × (dismiss_loop lib params n o d ≡ ok d')
  unfolding dismiss_loop
  dismiss_loop-ok n none d drains fuel = (d, refl)
  dismiss_loop-ok zero (some r) d drains fuel = absurd (omega arith)
  dismiss_loop-ok (suc n) (some r) d drains fuel =
      elim (Bool-cases (is_zero (lib.next_result (lib.free_result d r)).0)) [
        | inl more ↦
            let used = lib.use_result (lib.next_result (lib.free_result d r)).1 in
            let (d', e) =
              dismiss_loop-ok n used.0 used.1 drains (omega (arith, drains d r more, fuel)) in
            (d', dismiss_loop-more n r d more ∙ e)
        | inr last ↦ ((lib.next_result (lib.free_result d r)).1, dismiss_loop-last n r d last)
      ]

  sql_dismiss_result-ok :
      (w : W)
      → Drains
      → (w' : W) × (sql_dismiss_result lib params w ≡ ok w') × (w'.m_mysql_result ≡ none)
  sql_dismiss_result-ok w drains = elim (Option-cases w.m_mysql_result) [
    | inl n ↦ (w, sql_dismiss_result-none lib params w n, n)
    | inr (r, s) ↦
        let (d', e) =
          dismiss_loop-ok (suc (lib.results_left w.m_mysql_driver)) (some r) w.m_mysql_driver drains
            (omega arith) in
        (dismissed lib params d' w, sql_dismiss_result-some lib params w r s ∙ rw (e) refl, refl)
  ]

  -- If each further result of the server leaves fewer behind it, `SqlDisconnect` of a connected
  -- wrapper comes to an end, whatever results the statements behind the query give: the wrapper is
  -- not connected then, and no result is open.
  pub sql_disconnect-ok :
      (w : W)
      → Drains
      → w.m_sql_connected ≡ true
      → (w' : W) × (sql_disconnect lib params w ≡ ok w')
        × (w'.m_sql_connected ≡ false)
        × (w'.m_mysql_result ≡ none)
  sql_disconnect-ok w drains c =
      let (w1, e1, n1) = sql_dismiss_result-ok w drains in
      let (w2, e2, n2) =
        sql_dismiss_result-ok (sql_queries lib params params.query_post w1) drains in
      (closed lib params w2, sql_disconnect-connected lib params w c ∙ rw (e1, e2) refl, refl, n2)
