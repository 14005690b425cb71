-- ===== src/Indexer/Values.antt =====
-- The attribute values of a row, told column by column, and what the loop over the row's fields
-- makes of them.
use mathlib.Core.List.{append_assoc}
use looka.Common.{
  ℕ, zero, suc, List, [], ◌∷◌, ◌++◌, Option, none, some, Bool, true, false, not, if◌then◌else◌,
  length, map, set, replicate, filterb, is_empty, ◌≡◌, refl, ap, sym, ◌∙◌, arith, Bool-cases, inl,
  inr,
}
use looka.Common.Bytes.{Bytes, bytes_beq, bytes_beq_iff, contains}
use looka.Common.Int.{to_u32}
use looka.Indexer.{MysqlField, at_column, is_in_fields, multi_values}
use looka.StrUtils.{trim, atoi, split_string}

-- The value of the last field with a name, or `v` without one.
abbrev pub last_value {ℓ} : {A : Type ℓ} → (Bytes → A) → Bytes → List MysqlField → A → A
last_value read name [] v = v
last_value read name (f ∷ fs) v =
    if bytes_beq f.name name
    then last_value read name fs (read f.value)
    else last_value read name fs v

-- The fields with other names.
abbrev pub others : Bytes → List MysqlField → List MysqlField
others name [] = []
others name (f ∷ fs) = if bytes_beq f.name name then others name fs else f ∷ others name fs

-- The values of some columns in a row: of each column, what the last field of its name says, or
-- `v` if the row has no such field. Of columns with one name the first has the row's value.
abbrev pub column_values {ℓ} :
    {A : Type ℓ} → (Bytes → A) → A → List Bytes → List MysqlField → List A
column_values read v [] fs = []
column_values read v (name ∷ names) fs =
    last_value read name fs v ∷ column_values read v names (others name fs)

-- The numbers of a text that lists them with commas between them; blank ones do not count.
abbrev pub listed_numbers : List Bytes → List ℕ
listed_numbers pieces =
    map (λ p. to_u32 (atoi (trim p))) (filterb (λ p. not (is_empty (trim p))) pieces)

-- The numbers of the fields that belong to some columns, in the order of the fields.
abbrev pub column_numbers : List Bytes → List MysqlField → List ℕ
column_numbers names [] = []
column_numbers names (f ∷ fs) =
    if contains f.name names
    then listed_numbers (split_string f.value b',') ++ column_numbers names fs
    else column_numbers names fs

module _ {ℓ} {A : Type ℓ} (read : Bytes → A) where
  -- The values of some columns in a row, where `vs` has them for columns without a field.
  assigned : List Bytes → List MysqlField → List A → List A
  assigned [] fs vs = vs
  assigned (name ∷ names) fs [] = []
  assigned (name ∷ names) fs (v ∷ vs) =
      last_value read name fs v ∷ assigned names (others name fs) vs

  at_column-first :
      (name key : Bytes) (names : List Bytes) (a v : A) (vs : List A)
      → bytes_beq key name ≡ true
      → at_column (is_in_fields name (key ∷ names)) a (v ∷ vs) ≡ a ∷ vs
  unfolding is_in_fields
  at_column-first name key names a v vs e = rw (is_in_fields, e) refl

  at_column-later :
      (name key : Bytes) (names : List Bytes) (a v : A) (vs : List A)
      → bytes_beq key name ≡ false
      → at_column (is_in_fields name (key ∷ names)) a (v ∷ vs)
        ≡ v ∷ at_column (is_in_fields name names) a vs
  unfolding is_in_fields
  at_column-later name key names a v vs e =
      rw (is_in_fields, e) (by_place (is_in_fields name names))
    where
      by_place :
          (o : Option ℕ)
          → at_column (elim o [ none ↦ none | some i ↦ some (suc i) ]) a (v ∷ vs)
            ≡ v ∷ at_column o a vs
      by_place none = refl
      by_place (some i) = refl

  -- A field's value, written into its column first.
  assigned-at_column :
      (f : MysqlField) (names : List Bytes) (fs : List MysqlField) (vs : List A)
      → assigned names fs (at_column (is_in_fields f.name names) (read f.value) vs)
        ≡ assigned names (f ∷ fs) vs
  unfolding assigned
  assigned-at_column f [] fs vs = unfold is_in_fields in refl
  assigned-at_column f (name ∷ names) fs [] = at_nil (is_in_fields f.name (name ∷ names))
    where
      at_nil :
          (o : Option ℕ)
          → assigned (name ∷ names) fs (at_column o (read f.value) [])
            ≡ assigned (name ∷ names) (f ∷ fs) []
      at_nil none = unfold assigned in refl
      at_nil (some i) = unfold assigned in refl
  assigned-at_column f (name ∷ names) fs (v ∷ vs) = elim (Bool-cases (bytes_beq f.name name)) [
    | inl same ↦
        ap (assigned (name ∷ names) fs)
          (at_column-first f.name name names (read f.value) v vs (swapped same))
        ∙ rw (same) refl
    | inr differs ↦
        ap (assigned (name ∷ names) fs)
          (at_column-later f.name name names (read f.value) v vs (swapped_no differs))
        ∙ rw (differs) (
            ap (λ ws. last_value read name fs v ∷ ws)
              (assigned-at_column f names (others name fs) vs))
  ]
    where
      swapped : bytes_beq f.name name ≡ true → bytes_beq name f.name ≡ true
      swapped e = ground (arith, e, bytes_beq_iff f.name name, bytes_beq_iff name f.name)

      swapped_no : bytes_beq f.name name ≡ false → bytes_beq name f.name ≡ false
      swapped_no e = ground (arith, e, bytes_beq_iff f.name name, bytes_beq_iff name f.name)

  assigned-nil :
      (names : List Bytes) (vs : List A) → length vs ≡ length names → assigned names [] vs ≡ vs
  unfolding assigned
  assigned-nil [] vs e = refl
  assigned-nil (name ∷ names) [] e = refl
  assigned-nil (name ∷ names) (v ∷ vs) e = ap (◌∷◌ v) (assigned-nil names vs (omega arith))

  assigned-replicate :
      (v : A) (names : List Bytes) (fs : List MysqlField)
      → assigned names fs (replicate (length names) v) ≡ column_values read v names fs
  unfolding assigned
  assigned-replicate v [] fs = refl
  assigned-replicate v (name ∷ names) fs =
      ap (λ ws. last_value read name fs v ∷ ws) (assigned-replicate v names (others name fs))

  -- The fields written into their columns, in turn.
  abbrev pub written : List Bytes → List MysqlField → List A → List A
  written names [] vs = vs
  written names (f ∷ fs) vs =
      written names fs (at_column (is_in_fields f.name names) (read f.value) vs)

  length-at_column : (o : Option ℕ) (v : A) (xs : List A) → length (at_column o v xs) ≡ length xs
  length-at_column none v xs = refl
  length-at_column (some i) v xs = length-set i xs
    where
      length-set : (i : ℕ) (xs : List A) → length (set xs i v) ≡ length xs
      length-set i [] = refl
      length-set zero (x ∷ xs) = refl
      length-set (suc i) (x ∷ xs) = ap suc (length-set i xs)

  written-assigned :
      (names : List Bytes) (fs : List MysqlField) (vs : List A)
      → length vs ≡ length names
      → written names fs vs ≡ assigned names fs vs
  written-assigned names [] vs e = sym (assigned-nil names vs e)
  written-assigned names (f ∷ fs) vs e =
      written-assigned names fs _
        (length-at_column (is_in_fields f.name names) (read f.value) vs ∙ e)
      ∙ assigned-at_column f names fs vs

  -- Fields written over a value for each column.
  pub written-column_values :
      (v : A) (names : List Bytes) (fs : List MysqlField)
      → written names fs (replicate (length names) v) ≡ column_values read v names fs
  written-column_values v names fs =
      written-assigned names fs (replicate (length names) v) (length-replicate (length names))
      ∙ assigned-replicate v names fs
    where
      length-replicate : (n : ℕ) → length (replicate n v) ≡ n
      length-replicate zero = refl
      length-replicate (suc n) = ap suc (length-replicate n)

  pub length-column_values :
      (v : A) (names : List Bytes) (fs : List MysqlField)
      → length (column_values read v names fs) ≡ length names
  length-column_values v [] fs = refl
  length-column_values v (name ∷ names) fs = ap suc (length-column_values v names (others name fs))

multi_values-listed_numbers : (pieces : List Bytes) → multi_values pieces ≡ listed_numbers pieces
unfolding multi_values
multi_values-listed_numbers [] = refl
multi_values-listed_numbers (p ∷ pieces) = ground (arith, multi_values-listed_numbers pieces)

-- What a field adds to the numbers of some columns.
pub is_in_fields-column_numbers :
    (names : List Bytes) (f : MysqlField) (fs : List MysqlField) (mv : List ℕ)
    → (elim (is_in_fields f.name names) [
      | none ↦ mv
      | some _ ↦ mv ++ multi_values (split_string f.value b',')
    ])
        ++ column_numbers names fs
      ≡ mv ++ column_numbers names (f ∷ fs)
is_in_fields-column_numbers names f fs mv =
    by_place (is_in_fields f.name names) (contains-is_in_fields names)
  where
    is_some : Option ℕ → Bool
    is_some none = false
    is_some (some i) = true

    contains-is_in_fields :
        (names : List Bytes) → contains f.name names ≡ is_some (is_in_fields f.name names)
    contains-is_in_fields [] = unfold is_in_fields in refl
    contains-is_in_fields (name ∷ names) = step (contains-is_in_fields names)
      where
        step :
            contains f.name names ≡ is_some (is_in_fields f.name names)
            → contains f.name (name ∷ names) ≡ is_some (is_in_fields f.name (name ∷ names))
        step ih = unfold is_in_fields in ground (arith, ih)

    by_place :
        (o : Option ℕ)
        → contains f.name names ≡ is_some o
        → (elim o [ none ↦ mv | some _ ↦ mv ++ multi_values (split_string f.value b',') ])
            ++ column_numbers names fs
          ≡ mv ++ column_numbers names (f ∷ fs)
    by_place none e = rw (e) refl
    by_place (some i) e =
        rw (e, multi_values-listed_numbers (split_string f.value b','))
          (append_assoc mv (listed_numbers (split_string f.value b',')) (column_numbers names fs))
