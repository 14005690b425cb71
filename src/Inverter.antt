-- ===== src/Inverter.antt =====
-- src/looka_inverter.hpp: LookaInverter, an unordered map from a key to its list of items.
-- The map is an association list, in one of the orders that its iterator may take.
pub mod Laws
pub mod Simple
use looka.Common.{
  ℕ, ◌%◌, ◌^◌, List, [], ◌∷◌, ◌++◌, Option, none, some, Bool, if◌then◌else◌, length, map, Eq,
}

pub record Inverter {ℓ κ} (K : Type ℓ) (A : Type κ) : Type (ℓ ⊔ κ) where
  pub m_idx_invert : List (K × List A)

module _ {ℓ κ} {K : Type ℓ} {A : Type κ} where
  unfoldable pub new_inverter : Inverter K A
  new_inverter = record { m_idx_invert = [] }

-- The size of a list, as a `uint32_t`.
unfoldable pub size_of {ℓ} : {A : Type ℓ} → Option (List A) → ℕ
size_of none = 0
size_of (some items) = length items % 2 ^ 32

module _ {ℓ κ} {K : Type ℓ} {A : Type κ} ⦃e : Eq K⦄ where
  -- `m_idxInvert.find(key)`
  unfoldable pub find_key : K → List (K × List A) → Option (List A)
  find_key key [] = none
  find_key key ((k, items) ∷ m) = if e.beq k key then some items else find_key key m

  -- `if (it == end()) insert(std::make_pair(key, InvertList_t()))`
  unfoldable pub insert_missing : K → List (K × List A) → List (K × List A)
  unfolding find_key
  insert_missing key m = elim (find_key key m) [ none ↦ m ++ ((key, []) ∷ []) | some _ ↦ m ]

  -- `f(m_idxInvert[key])`: `operator[]` makes an empty list for a missing key.
  unfoldable pub update_key : K → (List A → List A) → List (K × List A) → List (K × List A)
  update_key key f [] = (key, f []) ∷ []
  update_key key f ((k, items) ∷ m) =
      if e.beq k key then (k, f items) ∷ m else (k, items) ∷ update_key key f m

  -- `Add(key, items)`, for a vector of items: it returns the new size of the key's list.
  unfoldable pub add_all : K → List A → Inverter K A → ℕ × Inverter K A
  unfolding find_key insert_missing update_key size_of
  add_all key items inv =
      let m = update_key key (λ l. l ++ items) (insert_missing key inv.m_idx_invert) in
      (size_of (find_key key m), record inv { m_idx_invert = m })

  -- `Add(key, item)`, with one `push_back`.
  unfoldable pub add : K → A → Inverter K A → ℕ × Inverter K A
  unfolding find_key insert_missing update_key size_of
  add key item inv =
      let m = update_key key (λ l. l ++ (item ∷ [])) (insert_missing key inv.m_idx_invert) in
      (size_of (find_key key m), record inv { m_idx_invert = m })

  -- `GetItems(key, items)` leaves the pointer `items` alone where the key is missing.
  unfoldable pub get_items : K → Inverter K A → Option (List A) → ℕ × Option (List A)
  unfolding find_key size_of
  get_items key inv items = elim (find_key key inv.m_idx_invert) [
    | none ↦ (0, items)
    | some found ↦ (length found % 2 ^ 32, some found)
  ]

  -- The list that `GetItems` finds.
  unfoldable pub items_of : K → Inverter K A → Option (List A)
  unfolding find_key
  items_of key inv = find_key key inv.m_idx_invert

module _ {ℓ κ} {K : Type ℓ} {A : Type κ} where
  -- `GetKeys(keys)` appends to `keys`, and returns the size of the whole.
  unfoldable pub get_keys : Inverter K A → List K → ℕ × List K
  get_keys inv keys =
      let keys' = keys ++ map (λ p. p.0) inv.m_idx_invert in (length keys' % 2 ^ 32, keys')
