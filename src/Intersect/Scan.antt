-- ===== src/Intersect/Scan.antt =====
-- One posting list: what `TokenIntersect::Seek` finds in a list that ascends.
use looka.Common.{
  ℕ, suc, ◌≤◌, ◌<◌, List, [], ◌∷◌, Option, none, some, Bool, true, false, ◌||◌, ◌==◌, leb, All, ◌≡◌,
  refl, ◌⊎◌, inl, inr, arith, Bool-cases, leb→le,
}
use mathlib.Core.Path.{subst, sym}
use looka.Intersect.{TokenIntersect, seek_docs, seek_pointer, token_seek}
use looka.Types.{DocInvert, illegal_local_doc_id}

-- The ids rise along the list, from `lo` on.
abbrev pub Ascends : ℕ → List DocInvert → Type 0
Ascends lo [] = Unit
Ascends lo (d ∷ ds) = (lo ≤ d.local_id) × Ascends (suc d.local_id) ds

abbrev pub IsBelow : ℕ → List DocInvert → Type 0
IsBelow n = All (λ d. d.local_id < n)

-- A posting list of documents below `n`; a missing list counts as one.
abbrev pub IsPosting : ℕ → Option (List DocInvert) → Type 0
IsPosting n none = Unit
IsPosting n (some ds) = Ascends 0 ds × IsBelow n ds

abbrev pub has_doc : ℕ → List DocInvert → Bool
has_doc x [] = false
has_doc x (d ∷ ds) = d.local_id == x || has_doc x ds

abbrev pub in_pointer : ℕ → Option (List DocInvert) → Bool
in_pointer x none = false
in_pointer x (some ds) = has_doc x ds

-- Document `x` is in the posting list of `t`.
abbrev pub in_token : ℕ → TokenIntersect → Bool
in_token x t = in_pointer x t.docs

-- `r` is the least id from `id` on at which `f` holds, or the illegal id if there is none.
abbrev pub Finds : (ℕ → Bool) → ℕ → ℕ → Type 0
Finds f id r =
    ((r ≡ illegal_local_doc_id) × ((x : ℕ) → id ≤ x → f x ≡ false))
    ⊎ ((r < illegal_local_doc_id)
        × (id ≤ r)
        × (f r ≡ true)
        × ((x : ℕ) → id ≤ x → x < r → f x ≡ false))

has_doc-below : (x lo : ℕ) (ds : List DocInvert) → Ascends lo ds → x < lo → has_doc x ds ≡ false
has_doc-below x lo [] a h = refl
has_doc-below x lo (d ∷ ds) a h = ground (arith, has_doc-below x (suc d.local_id) ds a.1)

seek_docs-nil : (id : ℕ) → seek_docs [] id ≡ illegal_local_doc_id
unfolding seek_docs
seek_docs-nil id = refl

seek_docs-here :
    (id : ℕ) (d : DocInvert) (ds : List DocInvert)
    → leb id d.local_id ≡ true
    → seek_docs (d ∷ ds) id ≡ d.local_id
unfolding seek_docs
seek_docs-here id d ds h = rw h

seek_docs-later :
    (id : ℕ) (d : DocInvert) (ds : List DocInvert)
    → leb id d.local_id ≡ false
    → seek_docs (d ∷ ds) id ≡ seek_docs ds id
unfolding seek_docs
seek_docs-later id d ds h = rw h

seek_docs-Finds :
    (lo id : ℕ) (ds : List DocInvert)
    → Ascends lo ds
    → IsBelow illegal_local_doc_id ds
    → Finds (λ x. has_doc x ds) id (seek_docs ds id)
seek_docs-Finds lo id [] a b = inl (seek_docs-nil id, λ x h. refl)
seek_docs-Finds lo id (d ∷ ds) a b = elim (Bool-cases (leb id d.local_id)) [
  | inl here ↦ subst (Finds (λ x. has_doc x (d ∷ ds)) id) (sym (seek_docs-here id d ds here)) (
      inr (
        b.0,
        leb→le _ _ here,
        ground arith,
        λ x h l. ground (arith, has_doc-below x (suc d.local_id) ds a.1),
      ))
  | inr later ↦
      subst (Finds (λ x. has_doc x (d ∷ ds)) id) (sym (seek_docs-later id d ds later))
        (elim (seek_docs-Finds (suc d.local_id) id ds a.1 b.1) [
          | inl (e, all) ↦ inl (e, λ x h. ground (arith, all x h))
          | inr (small, above, hit, least) ↦
              inr (small, above, ground (arith, hit), λ x h l. ground (arith, least x h l))
        ])
]

seek_pointer-Finds :
    (n id : ℕ) (p : Option (List DocInvert))
    → n ≤ illegal_local_doc_id
    → IsPosting n p
    → Finds (λ x. in_pointer x p) id (seek_pointer p id)
unfolding seek_pointer
seek_pointer-Finds n id none h p = inl (refl, λ x h. refl)
seek_pointer-Finds n id (some ds) h p = seek_docs-Finds 0 id ds p.0 (below ds p.1)
  where
    below : (xs : List DocInvert) → IsBelow n xs → IsBelow illegal_local_doc_id xs
    below [] b = tt
    below (x ∷ xs) b = (omega arith, below xs b.1)

-- On an ascending list of legal ids, `TokenIntersect::Seek` finds the least id not below its
-- argument, and the illegal id exactly if there is none.
pub token_seek-Finds :
    (n id : ℕ) (t : TokenIntersect)
    → n ≤ illegal_local_doc_id
    → IsPosting n t.docs
    → Finds (λ x. in_token x t) id (token_seek t id)
unfolding token_seek
token_seek-Finds n id t h p = seek_pointer-Finds n id t.docs h p
