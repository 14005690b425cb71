-- ===== src/Indexer/Rows.antt =====
-- `DoIndex`: after all rows, document `x` of the index is row `x`, under the tokens of its text.
use mathlib.Core.Path.{subst}
use native.Mathlib.Decide.{dec_lt, ℕ_discrete}
use looka.Common.{
  ℕ, zero, suc, ◌+◌, ◌-◌, ◌%◌, ◌^◌, ◌≤◌, ◌<◌, List, [], ◌∷◌, ◌++◌, Option, none, some, Bool, true,
  false, if◌then◌else◌, ◌==◌, ltb, length, take, map, All, length-append, ◌≡◌, refl, sym, ap, ◌∙◌,
  inl, inr, arith, Bool-cases,
}
use looka.Common.Bytes.{Bytes, contains}
use looka.Indexer.{MysqlField, Columns, Store, new_store, process_doc, misses_column, index_rows}
use looka.Indexer.Postings.{add_inverts-IsIndex, has_token-add_inverts}
use looka.Indexer.Tokens.{NoClash, strings_of, row_tokens, new_doc-has_key, new_doc-KeysRise}
use looka.Intersect.Scan.{IsBelow, IsPosting, has_doc, in_pointer}
use looka.Intersect.Tokens.{IsIndex, has_token}
use looka.Inverter.{items_of, new_inverter}
use looka.Segmenter.{SegmentToken}
use looka.Types.{DocInvert, make_token, token_eq}

-- A store of `n` documents: as many attributes, and posting lists of documents below `n`.
pub record IsStore (n : ℕ) (st : Store) : Type 0 where
  pub size : length st.summary ≡ n
  pub index : IsIndex n st.inverter

pub new_store-IsStore : IsStore 0 new_store
unfolding new_store items_of new_inverter
new_store-IsStore = record { size = refl; index = λ t. tt }

module _ (c : Columns) (atof : Bytes → ℕ) (segment : Bytes → List SegmentToken) (junk : Bytes) where
  process_doc-IsStore :
      (n : ℕ) (fs : List MysqlField) (st : Store)
      → IsStore n st
      → IsStore (suc n) (process_doc c atof segment junk n fs st)
  unfolding process_doc
  process_doc-IsStore n fs st s = record {
    size = length-append st.summary _ ∙ omega (arith, s.size);
    index =
        add_inverts-IsIndex junk n _ st.inverter (new_doc-KeysRise c atof segment [] fs) s.index;
  }

  -- The column names after a row: those of the first row.
  abbrev pub names_after : List MysqlField → List Bytes → List Bytes
  names_after fs fn = fn ++ map (λ f. f.name) (take (length fs - length fn) fs)

  module _ (fs : List MysqlField) (rows : List (List MysqlField)) (n : ℕ) (fn : List Bytes)
      (st : Store) where
    index_rows_stop :
        misses_column c (names_after fs fn) ≡ true
        → index_rows c atof segment junk (fs ∷ rows) n fn st ≡ (n, st)
    unfolding index_rows
    index_rows_stop e = rw e refl

    pub index_rows_next :
        misses_column c (names_after fs fn) ≡ false
        → n + 1 < 2 ^ 32
        → index_rows c atof segment junk (fs ∷ rows) n fn st
          ≡ index_rows c atof segment junk rows
              (suc n)
              (names_after fs fn)
              (process_doc c atof segment junk n fs st)
    unfolding index_rows
    index_rows_next e small = let next : (n + 1) % 2 ^ 32 ≡ suc n = omega arith in rw (e, next) refl

  -- No more documents than rows.
  pub index_rows-count :
      (rows : List (List MysqlField)) (n : ℕ) (fn : List Bytes) (st : Store)
      → n + length rows < 2 ^ 32
      → (index_rows c atof segment junk rows n fn st).0 ≤ n + length rows
  index_rows-count [] n fn st small = unfold index_rows in omega arith
  index_rows-count (fs ∷ rows) n fn st small =
      elim (Bool-cases (misses_column c (names_after fs fn))) [
        | inl stop ↦ omega (arith, ap (λ r. r.0) (index_rows_stop fs rows n fn st stop))
        | inr next ↦ omega (
          arith,
          ap (λ r. r.0) (index_rows_next fs rows n fn st next (omega arith)),
          index_rows-count rows (suc n) (names_after fs fn)
              (process_doc c atof segment junk n fs st) (omega arith),
        )
      ]

  -- Whatever rows are fetched, and wherever the loop ends, the posting lists ascend and name only
  -- documents of the summary, which has one for each row that was read, if the ids do not wrap.
  pub index_rows-IsStore :
      (rows : List (List MysqlField)) (n : ℕ) (fn : List Bytes) (st : Store)
      → IsStore n st
      → n + length rows < 2 ^ 32
      → IsStore
          (index_rows c atof segment junk rows n fn st).0
          (index_rows c atof segment junk rows n fn st).1
  index_rows-IsStore [] n fn st s small = unfold index_rows in s
  index_rows-IsStore (fs ∷ rows) n fn st s small =
      elim (Bool-cases (misses_column c (names_after fs fn))) [
        | inl stop ↦
            subst (λ (r : ℕ × Store). IsStore r.0 r.1) (sym (index_rows_stop fs rows n fn st stop))
              s
        | inr more ↦
            subst (λ (r : ℕ × Store). IsStore r.0 r.1)
              (sym (index_rows_next fs rows n fn st more (omega arith)))
              (index_rows-IsStore rows (suc n) (names_after fs fn)
                (process_doc c atof segment junk n fs st) (process_doc-IsStore n fs st s)
                (omega arith))
      ]

  -- The tokens of row `i`.
  abbrev pub row_has : Bytes → List (List MysqlField) → ℕ → Bool
  row_has token [] i = false
  row_has token (fs ∷ rows) zero = contains token (strings_of (row_tokens c atof segment fs))
  row_has token (fs ∷ rows) (suc i) = row_has token rows i

  -- Every row has the configured columns.
  abbrev pub HasColumns : List (List MysqlField) → List Bytes → Type 0
  HasColumns [] fn = Unit
  HasColumns (fs ∷ rows) fn =
      (misses_column c (names_after fs fn) ≡ false) × HasColumns rows (names_after fs fn)

  has_doc-above : (n x : ℕ) (ds : List DocInvert) → IsBelow n ds → n ≤ x → has_doc x ds ≡ false
  has_doc-above n x [] b h = refl
  has_doc-above n x (d ∷ ds) b h = ground (arith, has_doc-above n x ds b.1 h)

  in_pointer-above :
      (n x : ℕ) (p : Option (List DocInvert)) → IsPosting n p → n ≤ x → in_pointer x p ≡ false
  in_pointer-above n x none b h = refl
  in_pointer-above n x (some ds) b h = has_doc-above n x ds b.1 h

  module _ (token : Bytes) where
    process_doc-has_token :
        (n x : ℕ) (fs : List MysqlField) (st : Store)
        → IsStore n st
        → NoClash token (row_tokens c atof segment fs)
        → has_token (process_doc c atof segment junk n fs st).inverter x token ≡ (
            if x == n
            then contains token (strings_of (row_tokens c atof segment fs))
            else has_token st.inverter x token)
    process_doc-has_token n x fs st s apart =
        unfold process_doc in
        has_token-add_inverts junk n _ st.inverter (new_doc-KeysRise c atof segment token fs)
          s.index x token
        ∙ ap (λ b. if x == n then b else has_token st.inverter x token)
            (new_doc-has_key c atof segment token fs apart)

    abbrev pub Clashless : List (List MysqlField) → Type 0
    Clashless = All (λ fs. NoClash token (row_tokens c atof segment fs))

    abbrev held : List (List MysqlField) → ℕ → Store → ℕ → Bool
    held rows n st x = if ltb x n then has_token st.inverter x token else row_has token rows (x - n)

    held-next :
        (fs : List MysqlField) (rows : List (List MysqlField)) (n x : ℕ) (st : Store)
        → IsStore n st
        → NoClash token (row_tokens c atof segment fs)
        → held rows (suc n) (process_doc c atof segment junk n fs st) x ≡ held (fs ∷ rows) n st x
    held-next fs rows n x st s apart = elim (dec_lt x n) [
      | yes below ↦ ground (arith, process_doc-has_token n x fs st s apart)
      | no above ↦ elim (ℕ_discrete x n) [
        | yes same ↦
            let first : x - n ≡ 0 = omega arith in
            ground
              (arith, process_doc-has_token n x fs st s apart, ap (row_has token (fs ∷ rows)) first)
        | no other ↦
            let later : x - n ≡ suc (x - suc n) = omega arith in
            ground (arith, ap (row_has token (fs ∷ rows)) later)
      ]
    ]

    index_rows-held :
        (rows : List (List MysqlField)) (n : ℕ) (fn : List Bytes) (st : Store) (x : ℕ)
        → IsStore n st
        → n + length rows < 2 ^ 32
        → HasColumns rows fn
        → Clashless rows
        → has_token (index_rows c atof segment junk rows n fn st).1.inverter x token
          ≡ held rows n st x
    index_rows-held [] n fn st x s small cols apart =
        unfold index_rows in
        (elim (Bool-cases (ltb x n)) [
          | inl below ↦ ground (arith, below)
          | inr above ↦ ground (
            arith,
            above,
            in_pointer-above n x (items_of (make_token token) st.inverter)
                (s.index (make_token token)),
          )
        ])
    index_rows-held (fs ∷ rows) n fn st x s small cols apart =
        ap (λ (r : ℕ × Store). has_token r.1.inverter x token)
          (index_rows_next fs rows n fn st cols.0 (omega arith))
        ∙ index_rows-held rows (suc n) (names_after fs fn) (process_doc c atof segment junk n fs st)
            x (process_doc-IsStore n fs st s) (omega arith) cols.1 apart.1
        ∙ held-next fs rows n x st s apart.0

    -- From an empty store, document `x` of the index has the token exactly if it is one of the
    -- tokens of row `x`, for rows that have the configured columns, ids that do not wrap, and no
    -- other token of the rows with the token's id.
    pub index_rows-has_token :
        (rows : List (List MysqlField)) (x : ℕ)
        → length rows < 2 ^ 32
        → HasColumns rows []
        → Clashless rows
        → has_token (index_rows c atof segment junk rows 0 [] new_store).1.inverter x token
          ≡ row_has token rows x
    index_rows-has_token rows x small cols apart =
        index_rows-held rows 0 [] new_store x new_store-IsStore (omega arith) cols apart
        ∙ (let here : x - 0 ≡ x = omega arith in ground (arith, ap (row_has token rows) here))
