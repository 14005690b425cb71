-- ===== src/Inverter/Simple.antt =====
-- src/looka_inverter.hpp: LookaSimpleInverter at the one key type that the program uses it with,
-- a `FieldID`. Its `std::map` is an association list that ascends in the key.
use looka.Common.{
  ℕ, ◌%◌, ◌^◌, List, [], ◌∷◌, ◌++◌, Option, none, some, if◌then◌else◌, length, map, ltb, ◌==◌,
  nat_eq,
}
use looka.Inverter.{Inverter, find_key, size_of}

module _ {ℓ} {A : Type ℓ} where
  -- `if (it == end()) insert(std::make_pair(key, InvertList_t()))`, in key order.
  unfoldable pub simple_insert : ℕ → List (ℕ × List A) → List (ℕ × List A)
  simple_insert key [] = (key, []) ∷ []
  simple_insert key ((k, items) ∷ m) =
      if ltb key k
      then (key, []) ∷ (k, items) ∷ m
      else if k == key
      then (k, items) ∷ m
      else (k, items) ∷ simple_insert key m

  -- `f(m_idxInvert[key])`, for a key that is there.
  unfoldable pub simple_update : ℕ → (List A → List A) → List (ℕ × List A) → List (ℕ × List A)
  simple_update key f [] = (key, f []) ∷ []
  simple_update key f ((k, items) ∷ m) =
      if k == key then (k, f items) ∷ m else (k, items) ∷ simple_update key f m

  unfoldable pub simple_add_all : ℕ → List A → Inverter ℕ A → ℕ × Inverter ℕ A
  unfolding simple_insert simple_update find_key size_of
  simple_add_all key items inv =
      let m = simple_update key (λ l. l ++ items) (simple_insert key inv.m_idx_invert) in
      (size_of (find_key key m), record inv { m_idx_invert = m })

  unfoldable pub simple_add : ℕ → A → Inverter ℕ A → ℕ × Inverter ℕ A
  unfolding simple_insert simple_update find_key size_of
  simple_add key item inv =
      let m = simple_update key (λ l. l ++ (item ∷ [])) (simple_insert key inv.m_idx_invert) in
      (size_of (find_key key m), record inv { m_idx_invert = m })

  unfoldable pub simple_get_items : ℕ → Inverter ℕ A → Option (List A) → ℕ × Option (List A)
  unfolding find_key
  simple_get_items key inv items = elim (find_key key inv.m_idx_invert) [
    | none ↦ (0, items)
    | some found ↦ (length found % 2 ^ 32, some found)
  ]

  unfoldable pub simple_get_keys : Inverter ℕ A → List ℕ → ℕ × List ℕ
  simple_get_keys inv keys =
      let keys' = keys ++ map (λ p. p.0) inv.m_idx_invert in (length keys' % 2 ^ 32, keys')
