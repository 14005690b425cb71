-- ===== src/Indexer/Postings.antt =====
-- What `ProcessDoc` adds to the posting lists: one entry for each token of the document, at the
-- end of the token's list.
use mathlib.Core.Path.{subst}
use looka.Common.{
  ℕ, suc, ◌≤◌, ◌<◌, List, [], ◌∷◌, ◌++◌, Option, none, some, Bool, true, false, ◌||◌, if◌then◌else◌,
  ◌==◌, ◌≡◌, refl, sym, ap, ◌∙◌, arith, Bool-cases, inl, inr,
}
use looka.Common.Bytes.{Bytes}
use looka.Indexer.{FieldHits, TokenHits, make_invert, add_inverts}
use looka.Intersect.Scan.{Ascends, IsBelow, IsPosting, has_doc, in_pointer}
use looka.Intersect.Tokens.{IsIndex, has_token}
use looka.Inverter.{Inverter, items_of, add}
use looka.Inverter.Laws.{list_of, items_of-add}
use looka.Types.{DocInvert, Token, make_token, token_beq, token_beq_iff, token_eq}

-- The ids of the keys rise, from `lo` on.
abbrev pub KeysRise : ℕ → TokenHits → Type 0
KeysRise lo [] = Unit
KeysRise lo ((t, hits) ∷ m) = (lo ≤ t.token_id) × KeysRise (suc t.token_id) m

abbrev pub find_hits : Token → TokenHits → Option FieldHits
find_hits k [] = none
find_hits k ((t, hits) ∷ m) = if token_beq t k then some hits else find_hits k m

abbrev pub has_key : Token → TokenHits → Bool
has_key k [] = false
has_key k ((t, hits) ∷ m) = token_beq t k || has_key k m

-- A posting list with the entry of a document that has the token, or the list as it was.
abbrev with_entry : Bytes → ℕ → Option FieldHits → Option (List DocInvert) → Option (List DocInvert)
with_entry junk n none p = p
with_entry junk n (some hits) p = some (list_of p ++ (make_invert junk n hits ∷ []))

find_hits_below :
    (k : Token) (lo : ℕ) (m : TokenHits) → KeysRise lo m → k.token_id < lo → find_hits k m ≡ none
find_hits_below k lo [] r h = refl
find_hits_below k lo ((t, hits) ∷ m) r h = ground (arith, find_hits_below k (suc t.token_id) m r.1)

has_key-find_hits :
    (k : Token) (m : TokenHits)
    → has_key k m ≡ (elim (find_hits k m) [ none ↦ false | some _ ↦ true ])
has_key-find_hits k [] = refl
has_key-find_hits k ((t, hits) ∷ m) = ground (arith, has_key-find_hits k m)

module _ (junk : Bytes) (n : ℕ) where
  items_of-add_inverts :
      (k : Token) (lo : ℕ) (m : TokenHits) (inverter : Inverter Token DocInvert)
      → KeysRise lo m
      → items_of k (add_inverts junk n m inverter)
        ≡ with_entry junk n (find_hits k m) (items_of k inverter)
  items_of-add_inverts k lo [] inverter r = unfold add_inverts in refl
  items_of-add_inverts k lo ((t, hits) ∷ m) inverter r =
      step ∙ items_of-add_inverts k (suc t.token_id) m inverter' r.1 ∙ entry
    where
      inverter' : Inverter Token DocInvert
      inverter' = (add t (make_invert junk n hits) inverter).1

      step :
          items_of k (add_inverts junk n ((t, hits) ∷ m) inverter)
          ≡ items_of k (add_inverts junk n m inverter')
      step = unfold add_inverts in refl

      entry :
          with_entry junk n (find_hits k m) (items_of k inverter')
          ≡ with_entry junk n (find_hits k ((t, hits) ∷ m)) (items_of k inverter)
      entry = elim (Bool-cases (token_beq t k)) [
        | inl same ↦
            let e = (token_beq_iff t k).0 same in
            let missing : find_hits k m ≡ none =
              find_hits_below k (suc t.token_id) m r.1 (ground (arith, e)) in
            ground (
              arith,
              same,
              missing,
              ap (λ j. items_of j inverter) e,
              items_of-add k t (make_invert junk n hits) inverter,
            )
        | inr other ↦ ground (arith, other, items_of-add k t (make_invert junk n hits) inverter)
      ]

  make_invert-local_id : (hits : FieldHits) → (make_invert junk n hits).local_id ≡ n
  unfolding make_invert
  make_invert-local_id hits = refl

  Ascends-append :
      (lo : ℕ) (ds : List DocInvert) (d : DocInvert)
      → Ascends lo ds
      → IsBelow n ds
      → lo ≤ n
      → d.local_id ≡ n
      → Ascends lo (ds ++ (d ∷ []))
  Ascends-append lo [] d a b h e = (omega arith, tt)
  Ascends-append lo (x ∷ xs) d a b h e =
      (a.0, Ascends-append (suc x.local_id) xs d a.1 b.1 (omega (arith, b.0)) e)

  IsBelow-append :
      (ds : List DocInvert) (d : DocInvert)
      → IsBelow n ds
      → d.local_id ≡ n
      → IsBelow (suc n) (ds ++ (d ∷ []))
  IsBelow-append [] d b e = (omega arith, tt)
  IsBelow-append (x ∷ xs) d b e = (omega (arith, b.0), IsBelow-append xs d b.1 e)

  IsBelow-suc : (ds : List DocInvert) → IsBelow n ds → IsBelow (suc n) ds
  IsBelow-suc [] b = tt
  IsBelow-suc (x ∷ xs) b = (omega (arith, b.0), IsBelow-suc xs b.1)

  IsPosting-with_entry :
      (o : Option FieldHits) (p : Option (List DocInvert))
      → IsPosting n p
      → IsPosting (suc n) (with_entry junk n o p)
  IsPosting-with_entry none none h = tt
  IsPosting-with_entry none (some ds) h = (h.0, IsBelow-suc ds h.1)
  IsPosting-with_entry (some hits) none h =
      ((omega arith, tt), (omega (arith, make_invert-local_id hits), tt))
  IsPosting-with_entry (some hits) (some ds) h =
      let e = make_invert-local_id hits in
      (Ascends-append 0 ds _ h.0 h.1 (omega arith) e, IsBelow-append ds _ h.1 e)

  has_doc-append :
      (x : ℕ) (ds : List DocInvert) (d : DocInvert)
      → d.local_id ≡ n
      → has_doc x (ds ++ (d ∷ [])) ≡ (has_doc x ds || x == n)
  has_doc-append x [] d e = ground arith
  has_doc-append x (y ∷ ys) d e = ground (arith, has_doc-append x ys d e)

  has_doc-top : (ds : List DocInvert) → IsBelow n ds → has_doc n ds ≡ false
  has_doc-top [] b = refl
  has_doc-top (x ∷ xs) b = ground (arith, has_doc-top xs b.1)

  -- Document `n` is new to every list; the other documents stay where they are.
  in_pointer-with_entry :
      (x : ℕ) (o : Option FieldHits) (p : Option (List DocInvert))
      → IsPosting n p
      → in_pointer x (with_entry junk n o p)
        ≡ (if x == n then elim o [ none ↦ false | some _ ↦ true ] else in_pointer x p)
  in_pointer-with_entry x none none h = ground arith
  in_pointer-with_entry x none (some ds) h = elim (Bool-cases (x == n)) [
    | inl same ↦
        let e : x ≡ n = ground (arith, same) in
        ground (arith, same, ap (λ y. has_doc y ds) e, has_doc-top ds h.1)
    | inr other ↦ ground (arith, other)
  ]
  in_pointer-with_entry x (some hits) none h = ground (arith, make_invert-local_id hits)
  in_pointer-with_entry x (some hits) (some ds) h =
      ground (arith, has_doc-append x ds (make_invert junk n hits) (make_invert-local_id hits))

  module _ (m : TokenHits) (inverter : Inverter Token DocInvert) (rise : KeysRise 0 m)
      (index : IsIndex n inverter) where
    -- A document with the next id keeps the posting lists in order.
    pub add_inverts-IsIndex : IsIndex (suc n) (add_inverts junk n m inverter)
    add_inverts-IsIndex t =
        subst (IsPosting (suc n)) (sym (items_of-add_inverts t 0 m inverter rise))
          (IsPosting-with_entry (find_hits t m) (items_of t inverter) (index t))

    -- The new document has the tokens that are keys of its hits, the others what they had.
    pub has_token-add_inverts :
        (x : ℕ) (token : Bytes)
        → has_token (add_inverts junk n m inverter) x token
          ≡ (if x == n then has_key (make_token token) m else has_token inverter x token)
    has_token-add_inverts x token =
        let t = make_token token in
        ap (in_pointer x) (items_of-add_inverts t 0 m inverter rise)
        ∙ in_pointer-with_entry x (find_hits t m) (items_of t inverter) (index t)
        ∙ ap (λ b. if x == n then b else has_token inverter x token) (sym (has_key-find_hits t m))
