-- ===== src/Request/Filter.antt =====
-- The map that `ParseFilter` fills: its order, and what a key's values are after an entry.
use looka.Common.{
  List, [], ◌∷◌, ◌++◌, true, false, if◌then◌else◌, All, All-mono, ◌≡◌, refl, ap, arith, Bool-cases,
  inl, inr,
}
use looka.Common.Bytes.{Bytes, bytes_beq, bytes_beq_iff}
use looka.Request.{Filter, bytes_ltb, filter_add}

-- The values of a key in the map.
unfoldable pub values_of : Bytes → Filter → List Bytes
values_of k [] = []
values_of k ((j, vs) ∷ m) = if bytes_beq j k then vs else values_of k m

bytes_ltb_irrefl : (x : Bytes) → bytes_ltb x x ≡ false
unfolding bytes_ltb
bytes_ltb_irrefl [] = refl
bytes_ltb_irrefl (c ∷ x) = ground (arith, bytes_ltb_irrefl x)

bytes_ltb_trans :
    (x y z : Bytes) → bytes_ltb x y ≡ true → bytes_ltb y z ≡ true → bytes_ltb x z ≡ true
unfolding bytes_ltb
bytes_ltb_trans x y [] h k = absurd (ltb_nil y k)
  where
    ltb_nil : (y : Bytes) → ¬ (bytes_ltb y [] ≡ true)
    ltb_nil [] k = ground (arith, k)
    ltb_nil (b ∷ y) k = ground (arith, k)
bytes_ltb_trans [] [] (c ∷ z) h k = ground (arith, h)
bytes_ltb_trans [] (b ∷ y) (c ∷ z) h k = refl
bytes_ltb_trans (a ∷ x) [] (c ∷ z) h k = ground (arith, h)
bytes_ltb_trans (a ∷ x) (b ∷ y) (c ∷ z) h k = ground (arith, bytes_ltb_trans x y z)

bytes_ltb_total :
    (x y : Bytes) → bytes_beq x y ≡ false → bytes_ltb y x ≡ false → bytes_ltb x y ≡ true
unfolding bytes_ltb
bytes_ltb_total [] [] h k = ground (arith, h)
bytes_ltb_total [] (b ∷ y) h k = refl
bytes_ltb_total (a ∷ x) [] h k = ground (arith, k)
bytes_ltb_total (a ∷ x) (b ∷ y) h k = ground (arith, bytes_ltb_total x y)

-- The order of a `std::map`: each key is below the later ones.
abbrev IsBelow : Bytes → Filter → Type 0
IsBelow k = All (λ e. bytes_ltb k e.0 ≡ true)

unfoldable pub Rises : Filter → Type 0
Rises [] = Unit
Rises ((k, vs) ∷ m) = IsBelow k m × Rises m

values_of-IsBelow : (k : Bytes) (m : Filter) → IsBelow k m → values_of k m ≡ []
unfolding values_of
values_of-IsBelow k [] h = refl
values_of-IsBelow k ((j, vs) ∷ m) h =
    let apart : bytes_beq j k ≡ true → j ≡ k = (bytes_beq_iff j k).0 in
    ground (
      arith,
      apart,
      h.0,
      bytes_ltb_irrefl k,
      values_of-IsBelow k m h.1,
      λ (e : j ≡ k). ap (bytes_ltb k) e,
    )

IsBelow-filter_add :
    (i j : Bytes) (vs : List Bytes) (m : Filter)
    → bytes_ltb i j ≡ true
    → IsBelow i m
    → IsBelow i (filter_add j vs m)
unfolding filter_add
IsBelow-filter_add i j vs [] h b = (h, tt)
IsBelow-filter_add i j vs ((k, ws) ∷ m) h b = elim (Bool-cases (bytes_beq k j)) [
  | inl same ↦ rw (same) b
  | inr other ↦ elim (Bool-cases (bytes_ltb j k)) [
    | inl below ↦ rw (other, below) (h, b)
    | inr above ↦ rw (other, above) (b.0, IsBelow-filter_add i j vs m h b.1)
  ]
]

pub filter_add-Rises :
    (j : Bytes) (vs : List Bytes) (m : Filter) → Rises m → Rises (filter_add j vs m)
unfolding filter_add Rises
filter_add-Rises j vs [] h = (tt, tt)
filter_add-Rises j vs ((k, ws) ∷ m) h = elim (Bool-cases (bytes_beq k j)) [
  | inl same ↦ rw (same) h
  | inr other ↦ elim (Bool-cases (bytes_ltb j k)) [
    | inl below ↦
        rw (other, below)
          (
            (
              below,
              All-mono (λ e. bytes_ltb k e.0 ≡ true) (λ e. bytes_ltb j e.0 ≡ true) m
                  (λ e above. bytes_ltb_trans j k e.0 below above) h.0,
            ),
            h,
          )
    | inr above ↦
        rw (other, above)
          (
            IsBelow-filter_add k j vs m (bytes_ltb_total k j other above) h.0,
            filter_add-Rises j vs m h.1,
          )
  ]
]

pub values_of-filter_add :
    (k j : Bytes) (vs : List Bytes) (m : Filter)
    → Rises m
    → values_of k (filter_add j vs m)
      ≡ (if bytes_beq j k then values_of j m ++ vs else values_of k m)
unfolding values_of filter_add Rises
values_of-filter_add k j vs [] h = ground arith
values_of-filter_add k j vs ((i, ws) ∷ m) h = elim (Bool-cases (bytes_beq i j)) [
  | inl same ↦ ground (arith, same, bytes_beq_iff i j, bytes_beq_iff i k, bytes_beq_iff j k)
  | inr other ↦ elim (Bool-cases (bytes_ltb j i)) [
    | inl below ↦
        let none_later : values_of j m ≡ [] = values_of-IsBelow j m (
          All-mono (λ e. bytes_ltb i e.0 ≡ true) (λ e. bytes_ltb j e.0 ≡ true) m
            (λ e above. bytes_ltb_trans j i e.0 below above) h.0) in
        rw (other, below, none_later) refl
    | inr above ↦ ground (
      arith,
      other,
      above,
      values_of-filter_add k j vs m h.1,
      bytes_beq_iff i j,
      bytes_beq_iff i k,
      bytes_beq_iff j k,
    )
  ]
]
