-- ===== src/Inverter/Laws.antt =====
-- What LookaInverter stores: each `Add` appends to its own key's list and to no other.
use looka.Common.{
  List, [], ◌∷◌, ◌++◌, Option, none, some, if◌then◌else◌, ◌≡◌, refl, ap, Eq, arith, Option-cases,
  inl, inr, Bool-cases, ◌∙◌,
}
use looka.Inverter.{Inverter, find_key, insert_missing, update_key, add, add_all, items_of}

-- The items of a lookup, none for a missing key.
abbrev pub list_of {ℓ} : {A : Type ℓ} → Option (List A) → List A
list_of none = []
list_of (some items) = items

module _ {ℓ κ} {K : Type ℓ} {A : Type κ} ⦃e : Eq K⦄ where
  find_key-append :
      (k key : K) (m : List (K × List A))
      → find_key key m ≡ none
      → find_key k (m ++ ((key, []) ∷ [])) ≡ (if e.beq key k then some [] else find_key k m)
  unfolding find_key
  find_key-append k key [] h = refl
  find_key-append k key ((j, v) ∷ m) h =
      ground (arith, find_key-append k key m, e.beq_iff j k, e.beq_iff key k, e.beq_iff j key)

  find_key-insert_missing :
      (k key : K) (m : List (K × List A))
      → find_key k (insert_missing key m)
        ≡ (if e.beq key k then some (list_of (find_key key m)) else find_key k m)
  unfolding insert_missing
  find_key-insert_missing k key m = elim (Option-cases (find_key key m)) [
    | inl h ↦ rw (h, insert_missing) (find_key-append k key m h)
    | inr (v, h) ↦ elim (Bool-cases (e.beq key k)) [
      | inl same ↦ ground (arith, h, same, ap (λ j. find_key j m) ((e.beq_iff key k).0 same))
      | inr other ↦ ground (arith, h, other)
    ]
  ]

  find_key-update_key :
      (k key : K) (f : List A → List A) (m : List (K × List A))
      → find_key k (update_key key f m)
        ≡ (if e.beq key k then some (f (list_of (find_key key m))) else find_key k m)
  unfolding find_key update_key
  find_key-update_key k key f [] = refl
  find_key-update_key k key f ((j, v) ∷ m) =
      ground (arith, find_key-update_key k key f m, e.beq_iff j k, e.beq_iff key k, e.beq_iff j key)

  -- The list of any key after `Add(key, items)`: only `key`'s list changes, at its end.
  pub items_of-add_all :
      (k key : K) (items : List A) (inv : Inverter K A)
      → items_of k (add_all key items inv).1
        ≡ (if e.beq key k then some (list_of (items_of key inv) ++ items) else items_of k inv)
  unfolding items_of add_all
  items_of-add_all k key items inv =
      find_key-update_key k key (λ l. l ++ items) _
      ∙ ground (
        arith,
        find_key-insert_missing key key inv.m_idx_invert,
        find_key-insert_missing k key inv.m_idx_invert,
        e.beq_iff key key,
      )

  -- `Add(key, item)` is `Add` of a vector of the one item.
  pub add-eq-add_all :
      (key : K) (item : A) (inv : Inverter K A) → add key item inv ≡ add_all key (item ∷ []) inv
  unfolding add add_all
  add-eq-add_all key item inv = refl

  pub items_of-add :
      (k key : K) (item : A) (inv : Inverter K A)
      → items_of k (add key item inv).1
        ≡ (if e.beq key k then some (list_of (items_of key inv) ++ (item ∷ [])) else items_of k inv)
  items_of-add k key item inv =
      rw (add-eq-add_all key item inv) (items_of-add_all k key (item ∷ []) inv)
