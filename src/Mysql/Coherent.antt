-- ===== src/Mysql/Coherent.antt =====
-- What each method of the wrapper keeps true of the fields that it caches.
use mathlib.Core.Path.{subst}
use looka.Common.{
  ℕ, suc, List, [], ◌∷◌, Option, none, some, Bool, true, false, if◌then◌else◌, is_empty, get_elem?,
  ◌≡◌, refl, sym, ◌∙◌, Bool-cases, Option-cases, inl, inr,
}
use looka.Common.Bytes.{Bytes}
use looka.Common.Result.{Result, ok, fault, stuck, ◌>>=◌, or_fault}
use looka.Mysql.{
  MysqlParams, MysqlLib, MysqlWrapper, Row, is_zero, dismiss_loop, dismissed, closed,
  sql_dismiss_result, sql_query, sql_queries, sql_connect, sql_disconnect, sql_fetch_row,
  sql_column_length, sql_field_name,
}

if-holds {ℓ κ} :
    {A : Type ℓ} (P : A → Type κ) (b : Bool) (x y : A) → P x → P y → P (if b then x else y)
if-holds P true x y h k = h
if-holds P false x y h k = k

bind-ok {ℓ κ} :
    {A : Type ℓ} {B : Type κ} (x : Result A) (f : A → Result B) (b : B)
    → (x >>= f) ≡ ok b
    → (a : A) × (x ≡ ok a) × (f a ≡ ok b)
bind-ok (ok a) f b e = (a, refl, e)
bind-ok fault f b e = absurd (cc)
bind-ok stuck f b e = absurd (cc)

module _ {D R : Type 0} (lib : MysqlLib D R) (params : MysqlParams) where
  abbrev pub W : Type 0
  W = MysqlWrapper D R

  -- Cached fields are those that the library gives for the result that is open.
  abbrev Coherent : Option R → Option Row → Type 0
  Coherent r none = Unit
  Coherent none (some fs) = ⊥
  Coherent (some r) (some fs) = (d : D) × (lib.fetch_fields d r ≡ some fs)

  abbrev pub IsCoherent : W → Type 0
  IsCoherent w = Coherent w.m_mysql_result w.m_mysql_fields

  pub sql_query-IsCoherent :
      (q : Bytes) (w : W) → IsCoherent w → IsCoherent (sql_query lib params q w).1
  unfolding sql_query
  sql_query-IsCoherent q w h =
      if-holds (λ (p : Bool × W). IsCoherent p.1) (is_zero (lib.query w.m_mysql_driver q).0) _ _ tt
        h

  sql_queries-IsCoherent :
      (qs : List Bytes) (w : W) → IsCoherent w → IsCoherent (sql_queries lib params qs w)
  unfolding sql_queries
  sql_queries-IsCoherent [] w h = h
  sql_queries-IsCoherent (q ∷ qs) w h = sql_queries-IsCoherent qs _ (
      if-holds IsCoherent (is_empty q) w (sql_query lib params q w).1 h
        (sql_query-IsCoherent q w h))

  pub sql_connect-IsCoherent : (w : W) → IsCoherent w → IsCoherent (sql_connect lib params w).1
  unfolding sql_connect
  sql_connect-IsCoherent w h =
      if-holds (λ (p : Bool × W). IsCoherent p.1) w.m_sql_connected _ _ h
        (if-holds (λ (p : Bool × W). IsCoherent p.1) _ _ _
          (sql_queries-IsCoherent params.query_pre _ h) h)

  pub sql_dismiss_result-none :
      (w : W) → w.m_mysql_result ≡ none → sql_dismiss_result lib params w ≡ ok w
  unfolding sql_dismiss_result
  sql_dismiss_result-none w n = simp (sql_dismiss_result, n) refl

  pub sql_dismiss_result-some :
      (w : W) (r : R)
      → w.m_mysql_result ≡ some r
      → sql_dismiss_result lib params w ≡ (do
        d ←
            dismiss_loop lib params
              (suc (lib.results_left w.m_mysql_driver))
              (some r)
              w.m_mysql_driver
        ok (dismissed lib params d w))
  unfolding sql_dismiss_result
  sql_dismiss_result-some w r s = rw (sql_dismiss_result, s) refl

  -- After a dismissal, no result is open and no fields are cached.
  pub sql_dismiss_result-IsCoherent :
      (w w' : W) → sql_dismiss_result lib params w ≡ ok w' → IsCoherent w → IsCoherent w'
  sql_dismiss_result-IsCoherent w w' e h = elim (Option-cases w.m_mysql_result) [
    | inl n ↦ let same : w ≡ w' = cc (e, sql_dismiss_result-none w n) in subst IsCoherent same h
    | inr (r, s) ↦
        let (d, looped, last) =
          bind-ok
            (dismiss_loop lib params (suc (lib.results_left w.m_mysql_driver)) (some r)
              w.m_mysql_driver)
            (λ d. ok (dismissed lib params d w)) w' (sym (sql_dismiss_result-some w r s) ∙ e) in
        let same : dismissed lib params d w ≡ w' = cc in subst IsCoherent same tt
  ]

  pub sql_disconnect-connected :
      (w : W)
      → w.m_sql_connected ≡ true
      → sql_disconnect lib params w ≡ (do
        none_open ← sql_dismiss_result lib params w
        rest ← sql_dismiss_result lib params (sql_queries lib params params.query_post none_open)
        ok (closed lib params rest))
  unfolding sql_disconnect
  sql_disconnect-connected w c = rw (sql_disconnect, c) refl

  sql_disconnect-not : (w : W) → w.m_sql_connected ≡ false → sql_disconnect lib params w ≡ ok w
  unfolding sql_disconnect
  sql_disconnect-not w c = simp (sql_disconnect, c) refl

  pub sql_disconnect-IsCoherent :
      (w w' : W) → sql_disconnect lib params w ≡ ok w' → IsCoherent w → IsCoherent w'
  sql_disconnect-IsCoherent w w' e h = elim (Bool-cases w.m_sql_connected) [
    | inr c ↦ let same : w ≡ w' = cc (e, sql_disconnect-not w c) in subst IsCoherent same h
    | inl c ↦
        let (w1, e1, later) =
          bind-ok (sql_dismiss_result lib params w)
            (λ v.
              sql_dismiss_result lib params (sql_queries lib params params.query_post v)
              >>= (λ rest. ok (closed lib params rest)))
            w' (sym (sql_disconnect-connected w c) ∙ e) in
        let (w2, e2, last) =
          bind-ok (sql_dismiss_result lib params (sql_queries lib params params.query_post w1))
            (λ rest. ok (closed lib params rest)) w' later in
        let same : closed lib params w2 ≡ w' = cc in
        let h2 : IsCoherent w2 =
          sql_dismiss_result-IsCoherent _ w2 e2 (
            sql_queries-IsCoherent params.query_post w1
              (sql_dismiss_result-IsCoherent w w1 e1 h)) in
        subst IsCoherent same h2
  ]

  pub sql_fetch_row-IsCoherent : (w : W) → IsCoherent w → IsCoherent (sql_fetch_row lib params w).1
  unfolding sql_fetch_row
  sql_fetch_row-IsCoherent w h = elim (Option-cases w.m_mysql_result) [
    | inl n ↦ rw (sql_fetch_row, n) h
    | inr (r, s) ↦ rw (sql_fetch_row, s) h
  ]

  abbrev with_fields : W → Row → W
  with_fields w fs = record w { m_mysql_fields = some fs }

  abbrev named : Result Row → ℕ → W → Result (Option Bytes × W)
  named fields i w = do fs ← fields; name ← or_fault (get_elem? fs i); ok (name, with_fields w fs)

  sql_field_name-none :
      (i : ℕ) (w : W) → w.m_mysql_result ≡ none → sql_field_name lib params i w ≡ ok (none, w)
  unfolding sql_field_name
  sql_field_name-none i w n = simp (sql_field_name, n) refl

  sql_field_name-cached :
      (i : ℕ) (w : W) (r : R) (fs : Row)
      → w.m_mysql_result ≡ some r
      → w.m_mysql_fields ≡ some fs
      → sql_field_name lib params i w ≡ named (ok fs) i w
  unfolding sql_field_name
  sql_field_name-cached i w r fs s f = simp (sql_field_name, s, f) refl

  sql_field_name-fetched :
      (i : ℕ) (w : W) (r : R)
      → w.m_mysql_result ≡ some r
      → w.m_mysql_fields ≡ none
      → sql_field_name lib params i w ≡ named (or_fault (lib.fetch_fields w.m_mysql_driver r)) i w
  unfolding sql_field_name
  sql_field_name-fetched i w r s f = simp (sql_field_name, s, f) refl

  or_fault-ok : (x : Option Row) (fs : Row) → or_fault x ≡ ok fs → x ≡ some fs
  or_fault-ok none fs e = absurd (cc)
  or_fault-ok (some a) fs e = cc

  named-ok :
      (x : Result Row) (i : ℕ) (o : Option Bytes) (w w' : W)
      → named x i w ≡ ok (o, w')
      → (fs : Row) × (x ≡ ok fs) × (with_fields w fs ≡ w')
  named-ok x i o w w' e =
      let (fs, got, later) = bind-ok x _ (o, w') e in
      let (name, there, last) = bind-ok (or_fault (get_elem? fs i)) _ (o, w') later in (fs, got, cc)

  pub sql_field_name-IsCoherent :
      (w w' : W) (i : ℕ) (o : Option Bytes)
      → sql_field_name lib params i w ≡ ok (o, w')
      → IsCoherent w
      → IsCoherent w'
  sql_field_name-IsCoherent w w' i o e h = elim (Option-cases w.m_mysql_result) [
    | inl n ↦ let same : w ≡ w' = cc (e, sql_field_name-none i w n) in subst IsCoherent same h
    | inr (r, s) ↦ elim (Option-cases w.m_mysql_fields) [
      | inr (fs, f) ↦
          let (gs, got, same) =
            named-ok (ok fs) i o w w' (sym (sql_field_name-cached i w r fs s f) ∙ e) in
          let here : w.m_mysql_fields ≡ some gs = cc in
          subst IsCoherent same (subst (Coherent w.m_mysql_result) here h)
      | inl f ↦
          let (gs, got, same) = named-ok _ i o w w' (sym (sql_field_name-fetched i w r s f) ∙ e) in
          subst IsCoherent same
            (subst (λ q. Coherent q (some gs)) (sym s) (w.m_mysql_driver, or_fault-ok _ gs got))
    ]
  ]

  abbrev with_lengths : W → List ℕ → W
  with_lengths w ls = record w { m_mysql_lengths = some ls }

  abbrev measured : Result (List ℕ) → ℕ → W → Result (ℕ × W)
  measured lengths i w = do ls ← lengths; l ← or_fault (get_elem? ls i); ok (l, with_lengths w ls)

  sql_column_length-none :
      (i : ℕ) (w : W) → w.m_mysql_result ≡ none → sql_column_length lib params i w ≡ ok (0, w)
  unfolding sql_column_length
  sql_column_length-none i w n = simp (sql_column_length, n) refl

  sql_column_length-cached :
      (i : ℕ) (w : W) (r : R) (ls : List ℕ)
      → w.m_mysql_result ≡ some r
      → w.m_mysql_lengths ≡ some ls
      → sql_column_length lib params i w ≡ measured (ok ls) i w
  unfolding sql_column_length
  sql_column_length-cached i w r ls s f = simp (sql_column_length, s, f) refl

  sql_column_length-fetched :
      (i : ℕ) (w : W) (r : R)
      → w.m_mysql_result ≡ some r
      → w.m_mysql_lengths ≡ none
      → sql_column_length lib params i w
        ≡ measured (or_fault (lib.fetch_lengths w.m_mysql_driver r)) i w
  unfolding sql_column_length
  sql_column_length-fetched i w r s f = simp (sql_column_length, s, f) refl

  measured-ok :
      (x : Result (List ℕ)) (i l : ℕ) (w w' : W)
      → measured x i w ≡ ok (l, w')
      → (ls : List ℕ) × (with_lengths w ls ≡ w')
  measured-ok x i l w w' e =
      let (ls, got, later) = bind-ok x _ (l, w') e in
      let (k, there, last) = bind-ok (or_fault (get_elem? ls i)) _ (l, w') later in (ls, cc)

  pub sql_column_length-IsCoherent :
      (w w' : W) (i l : ℕ)
      → sql_column_length lib params i w ≡ ok (l, w')
      → IsCoherent w
      → IsCoherent w'
  sql_column_length-IsCoherent w w' i l e h = elim (Option-cases w.m_mysql_result) [
    | inl n ↦ let same : w ≡ w' = cc (e, sql_column_length-none i w n) in subst IsCoherent same h
    | inr (r, s) ↦ elim (Option-cases w.m_mysql_lengths) [
      | inr (ls, f) ↦
          let (ms, same) =
            measured-ok (ok ls) i l w w' (sym (sql_column_length-cached i w r ls s f) ∙ e) in
          subst IsCoherent same h
      | inl f ↦
          let (ms, same) = measured-ok _ i l w w' (sym (sql_column_length-fetched i w r s f) ∙ e) in
          subst IsCoherent same h
    ]
  ]
