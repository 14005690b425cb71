-- ===== src/Intersect/Seek.antt =====
-- `LookaIntersect::Seek` finds the least document that stands in every posting list.
use mathlib.Core.Path.{subst}
use looka.Common.{
  ℕ, zero, suc, ◌+◌, ◌≤◌, ◌<◌, List, [], ◌∷◌, Option, none, some, Bool, true, false, ◌&&◌,
  if◌then◌else◌, ◌==◌, ltb, length, All, allb, ◌≡◌, refl, sym, ap, ◌∙◌, ◌⊎◌, inl, inr, arith,
  Bool-cases, ==_iff,
}
use looka.Intersect.{
  TokenIntersect, token_seek, Pass, returns, again, restart, pass, seek_loop, docs_fuel,
  seek_tokens,
}
use looka.Intersect.Scan.{IsPosting, has_doc, in_pointer, in_token, Finds, token_seek-Finds}
use looka.Types.{DocInvert, illegal_local_doc_id}

abbrev pub IsPostings : ℕ → List TokenIntersect → Type 0
IsPostings n = All (λ t. IsPosting n t.docs)

-- Document `x` is in every list of a nonempty array.
abbrev pub is_common : List TokenIntersect → ℕ → Bool
is_common [] x = false
is_common (first ∷ others) x = in_token x first && allb (in_token x) others

-- How a pass from `id` may end.
abbrev PassSpec : TokenIntersect → List TokenIntersect → ℕ → Pass → Type 0
PassSpec first ts id (returns r) =
    ((r ≡ illegal_local_doc_id) × ((x : ℕ) → id ≤ x → is_common (first ∷ ts) x ≡ false))
    ⊎ ((r ≡ id) × (allb (in_token id) ts ≡ true))
PassSpec first ts id (again id') =
    (id < id')
    × (id' < illegal_local_doc_id)
    × (in_token id' first ≡ true)
    × ((x : ℕ) → id ≤ x → x < id' → is_common (first ∷ ts) x ≡ false)

restart-none :
    (first : TokenIntersect) (next_id : ℕ)
    → token_seek first next_id ≡ illegal_local_doc_id
    → restart first next_id ≡ returns illegal_local_doc_id
unfolding restart
restart-none first next_id e = ground arith

restart-some :
    (first : TokenIntersect) (next_id : ℕ)
    → token_seek first next_id < illegal_local_doc_id
    → restart first next_id ≡ again (token_seek first next_id)
unfolding restart
restart-some first next_id l = ground arith

module _ (first t : TokenIntersect) (ts : List TokenIntersect) (id : ℕ) where
  pass-same : token_seek t id ≡ id → pass first (t ∷ ts) id ≡ pass first ts id
  unfolding pass
  pass-same e = ground arith

  pass-none :
      id < illegal_local_doc_id
      → token_seek t id ≡ illegal_local_doc_id
      → pass first (t ∷ ts) id ≡ returns illegal_local_doc_id
  unfolding pass
  pass-none l e = ground arith

  pass-later :
      id < token_seek t id
      → token_seek t id < illegal_local_doc_id
      → pass first (t ∷ ts) id ≡ restart first (token_seek t id)
  unfolding pass
  pass-later l s = ground arith

  -- A token that has `id` changes nothing of what the rest of the pass finds.
  PassSpec-cons :
      (r : Pass) → in_token id t ≡ true → PassSpec first ts id r → PassSpec first (t ∷ ts) id r
  PassSpec-cons (returns r) here (inl (e, all)) = inl (e, λ x l. ground (arith, all x l))
  PassSpec-cons (returns r) here (inr (e, all)) = inr (e, ground (arith, here, all))
  PassSpec-cons (again id') here (l, s, hit, skip) =
      (l, s, hit, λ x a b. ground (arith, skip x a b))

module _ (n : ℕ) (first : TokenIntersect) (small : n ≤ illegal_local_doc_id)
    (p : IsPosting n first.docs) where
  restart-PassSpec :
      (t : TokenIntersect) (ts : List TokenIntersect) (id next_id : ℕ)
      → id < next_id
      → ((x : ℕ) → id ≤ x → x < next_id → in_token x t ≡ false)
      → PassSpec first (t ∷ ts) id (restart first next_id)
  restart-PassSpec t ts id next_id l skip = elim (token_seek-Finds n next_id first small p) [
    | inl (e, all) ↦
        subst (PassSpec first (t ∷ ts) id) (sym (restart-none first next_id e))
          (inl (refl, λ x a. ground (arith, all x, skip x a)))
    | inr (legal, above, hit, least) ↦
        subst (PassSpec first (t ∷ ts) id) (sym (restart-some first next_id legal))
          (omega arith, legal, hit, λ x a b. ground (arith, skip x a, least x))
  ]

  pass-PassSpec :
      (ts : List TokenIntersect) (id : ℕ)
      → IsPostings n ts
      → id < illegal_local_doc_id
      → PassSpec first ts id (pass first ts id)
  pass-PassSpec [] id ps l = unfold pass in inr (refl, refl)
  pass-PassSpec (t ∷ ts) id ps l = elim (token_seek-Finds n id t small ps.0) [
    | inl (e, all) ↦
        subst (PassSpec first (t ∷ ts) id) (sym (pass-none first t ts id l e))
          (inl (refl, λ x a. ground (arith, all x a)))
    | inr (legal, above, hit, least) ↦ elim (Bool-cases (token_seek t id == id)) [
      | inl same ↦
          let e = (==_iff _ _).0 same in
          subst (PassSpec first (t ∷ ts) id) (sym (pass-same first t ts id e)) (
            PassSpec-cons first t ts id _ (subst (λ k. in_token k t ≡ true) e hit)
              (pass-PassSpec ts id ps.1 l))
      | inr later ↦
          let l' : id < token_seek t id = ground arith in
          subst (PassSpec first (t ∷ ts) id) (sym (pass-later first t ts id l' legal))
            (restart-PassSpec t ts id (token_seek t id) l' least)
    ]
  ]

-- How many documents of a list lie above `id`: each restart leaves fewer of them.
abbrev count_above : ℕ → List DocInvert → ℕ
count_above id [] = 0
count_above id (d ∷ ds) = (if ltb id d.local_id then 1 else 0) + count_above id ds

abbrev rounds_left : ℕ → Option (List DocInvert) → ℕ
rounds_left id none = 0
rounds_left id (some ds) = count_above id ds

count_above_mono : (a b : ℕ) (ds : List DocInvert) → a ≤ b → count_above b ds ≤ count_above a ds
count_above_mono a b [] h = omega arith
count_above_mono a b (d ∷ ds) h = ground (arith, count_above_mono a b ds h)

count_above-lt :
    (a b : ℕ) (ds : List DocInvert)
    → a < b
    → has_doc b ds ≡ true
    → count_above b ds < count_above a ds
count_above-lt a b [] h k = cc
count_above-lt a b (d ∷ ds) h k = ground (arith, count_above_mono a b ds, count_above-lt a b ds h)

count_above-le-length : (a : ℕ) (ds : List DocInvert) → count_above a ds ≤ length ds
count_above-le-length a [] = omega arith
count_above-le-length a (d ∷ ds) = ground (arith, count_above-le-length a ds)

rounds_left-lt :
    (a b : ℕ) (p : Option (List DocInvert))
    → a < b
    → in_pointer b p ≡ true
    → rounds_left b p < rounds_left a p
rounds_left-lt a b none h k = cc
rounds_left-lt a b (some ds) h k = count_above-lt a b ds h k

rounds_left-lt-docs_fuel : (a : ℕ) (p : Option (List DocInvert)) → rounds_left a p < docs_fuel p
unfolding docs_fuel
rounds_left-lt-docs_fuel a none = omega arith
rounds_left-lt-docs_fuel a (some ds) = omega (arith, count_above-le-length a ds)

module _ (fuel : ℕ) (first : TokenIntersect) (others : List TokenIntersect) (id : ℕ) where
  seek_loop-returns :
      {r : ℕ} → pass first others id ≡ returns r → seek_loop (suc fuel) first others id ≡ some r
  unfolding seek_loop
  seek_loop-returns e = rw (e, seek_loop) refl

  seek_loop-again :
      {id' : ℕ}
      → pass first others id ≡ again id'
      → seek_loop (suc fuel) first others id ≡ seek_loop fuel first others id'
  unfolding seek_loop
  seek_loop-again e = rw (e, seek_loop) refl

module _ (n : ℕ) (first : TokenIntersect) (others : List TokenIntersect) where
  -- A search that has found `id` in the first list goes on to the least common document.
  Finds-step :
      (id id' r : ℕ)
      → id ≤ id'
      → ((x : ℕ) → id ≤ x → x < id' → is_common (first ∷ others) x ≡ false)
      → Finds (is_common (first ∷ others)) id' r
      → Finds (is_common (first ∷ others)) id r
  Finds-step id id' r l skip (inl (e, all)) = inl (e, λ x a. ground (arith, skip x a, all x))
  Finds-step id id' r l skip (inr (legal, above, hit, least)) =
      inr (legal, omega arith, hit, λ x a b. ground (arith, skip x a, least x))

  seek_loop-Finds :
      n ≤ illegal_local_doc_id
      → IsPosting n first.docs
      → IsPostings n others
      → (fuel id : ℕ) → rounds_left id first.docs < fuel
      → id < illegal_local_doc_id
      → in_token id first ≡ true
      → (r : ℕ) × (seek_loop fuel first others id ≡ some r)
        × Finds (is_common (first ∷ others)) id r
  seek_loop-Finds small p ps zero id enough legal here = absurd (omega arith)
  seek_loop-Finds small p ps (suc fuel) id enough legal here =
      go (seek_loop-Finds small p ps fuel) (pass first others id) refl
        (pass-PassSpec n first small p others id ps legal)
    where
      go :
          ((id' : ℕ)
            → rounds_left id' first.docs < fuel
            → id' < illegal_local_doc_id
            → in_token id' first ≡ true
            → (r : ℕ) × (seek_loop fuel first others id' ≡ some r)
              × Finds (is_common (first ∷ others)) id' r)
          → (q : Pass) → pass first others id ≡ q
          → PassSpec first others id q
          → (r : ℕ) × (seek_loop (suc fuel) first others id ≡ some r)
            × Finds (is_common (first ∷ others)) id r
      go rec (returns r) e (inl (illegal, all)) =
          (r, seek_loop-returns fuel first others id e, inl (illegal, all))
      go rec (returns r) e (inr (same, all)) = (
        id,
        seek_loop-returns fuel first others id e ∙ ap some same,
        inr (legal, omega arith, ground (arith, here, all), λ x a b. absurd (omega arith)),
      )
      go rec (again id') e (l, s, hit, skip) =
          let (r, found, spec) =
            rec id' (omega (arith, rounds_left-lt id id' first.docs l hit)) s hit in
          (
            r,
            seek_loop-again fuel first others id e ∙ found,
            Finds-step id id' r (omega arith) skip spec,
          )

module _ (first : TokenIntersect) (others : List TokenIntersect) (id : ℕ) where
  seek_tokens-none :
      token_seek first id ≡ illegal_local_doc_id
      → seek_tokens (first ∷ others) id ≡ some illegal_local_doc_id
  unfolding seek_tokens
  seek_tokens-none e = ground arith

  seek_tokens-some :
      token_seek first id < illegal_local_doc_id
      → seek_tokens (first ∷ others) id
        ≡ seek_loop (docs_fuel first.docs) first others (token_seek first id)
  unfolding seek_tokens
  seek_tokens-some l = ground arith

-- On posting lists the fuel suffices, and the result is the least common document.
pub seek_tokens-Finds :
    (n : ℕ) (ts : List TokenIntersect) (id : ℕ)
    → n ≤ illegal_local_doc_id
    → IsPostings n ts
    → (r : ℕ) × (seek_tokens ts id ≡ some r) × Finds (is_common ts) id r
seek_tokens-Finds n [] id small ps =
    (illegal_local_doc_id, unfold seek_tokens in refl, inl (refl, λ x a. refl))
seek_tokens-Finds n (first ∷ others) id small (p, ps) = elim (token_seek-Finds n id first small p) [
  | inl (e, all) ↦ (
    illegal_local_doc_id,
    seek_tokens-none first others id e,
    inl (refl, λ x a. ground (arith, all x)),
  )
  | inr (legal, above, hit, least) ↦
      let start = token_seek first id in
      let (r, found, spec) =
        seek_loop-Finds n first others small p ps (docs_fuel first.docs) start
          (rounds_left-lt-docs_fuel start first.docs) legal hit in
      (
        r,
        seek_tokens-some first others id legal ∙ found,
        Finds-step n first others id start r above (λ x a b. ground (arith, least x a)) spec,
      )
]
