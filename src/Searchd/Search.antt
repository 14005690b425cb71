-- ===== src/Searchd/Search.antt =====
-- The search loop of `Process` enumerates the documents that match, in the order of their ids.
use mathlib.Core.List.{append-nil, append_assoc}
use looka.Common.{
  ℕ, zero, suc, ◌+◌, ◌-◌, ◌≤◌, ◌<◌, List, [], ◌∷◌, ◌++◌, Option, none, some, Bool, true, false, not,
  ◌&&◌, if◌then◌else◌, get_elem?, length, drop, All, ◌≡◌, refl, sym, ap, ◌∙◌, arith, inl, inr,
}
use looka.Common.Bytes.{Bytes}
use looka.Common.Result.{Result, ok, fault, stuck}
use looka.Attr.{DocAttr}
use looka.Intersect.{LookaIntersect, new_looka_intersect, set_tokens, seek}
use looka.Intersect.Scan.{IsBelow, IsPosting, has_doc, in_pointer, Finds}
use looka.Intersect.Tokens.{IsIndex, matches, seek-Finds}
use looka.Inverter.{Inverter, items_of}
use looka.Request.{LookaRequest}
use looka.Searchd.{Index, drop_by_filter, in_page, search_step, search_loop, search}
use looka.Types.{DocInvert, Token, make_token, token_eq, illegal_local_doc_id}

has_doc-IsBelow : (n x : ℕ) (ds : List DocInvert) → IsBelow n ds → has_doc x ds ≡ true → x < n
has_doc-IsBelow n x [] b h = cc
has_doc-IsBelow n x (d ∷ ds) b h = ground (arith, has_doc-IsBelow n x ds)

in_pointer-IsPosting :
    (n x : ℕ) (p : Option (List DocInvert)) → IsPosting n p → in_pointer x p ≡ true → x < n
in_pointer-IsPosting n x none b h = cc
in_pointer-IsPosting n x (some ds) b h = has_doc-IsBelow n x ds b.1 h

matches-lt :
    (n x : ℕ) (inverter : Inverter Token DocInvert) (tokens : List Bytes)
    → IsIndex n inverter
    → matches inverter tokens x ≡ true
    → x < n
matches-lt n x inverter [] index h = cc
matches-lt n x inverter (t ∷ ts) index h =
    in_pointer-IsPosting n x (items_of (make_token t) inverter) (index (make_token t))
      (ground arith)

-- Of some documents, the first of which is hit number `total`, those on the page of a request.
abbrev pub page : LookaRequest → ℕ → List DocAttr → List DocAttr
page req total [] = []
page req total (a ∷ attrs) =
    if in_page req total then a ∷ page req (suc total) attrs else page req (suc total) attrs

-- What a filter that has been evaluated says of its document.
abbrev pub kept_by : Result Bool → Bool
kept_by (ok dropped) = not dropped
kept_by fault = false
kept_by stuck = false

module _ (float_to_string : ℕ → Bytes) (index : Index) (req : LookaRequest)
    (tokens : List Bytes) where
  -- The filter of the request decides on the document, and does not drop it.
  abbrev pub keeps : DocAttr → Bool
  keeps attr = kept_by (drop_by_filter float_to_string index.attr_names attr req.filter)

  -- Evaluating the filter on the document reads inside of its attributes.
  abbrev pub IsDecided : DocAttr → Type 0
  IsDecided attr =
      (b : Bool) × (drop_by_filter float_to_string index.attr_names attr req.filter ≡ ok b)

  -- Of the documents from `id` on, those that have all tokens and that the filter keeps.
  abbrev pub hits : ℕ → List DocAttr → List DocAttr
  hits id [] = []
  hits id (a ∷ attrs) =
      if matches index.inverter tokens id && keeps a
      then a ∷ hits (suc id) attrs
      else hits (suc id) attrs

  hits_none :
      (id : ℕ) (attrs : List DocAttr)
      → ((x : ℕ) → id ≤ x → matches index.inverter tokens x ≡ false)
      → hits id attrs ≡ []
  hits_none id [] h = refl
  hits_none id (a ∷ attrs) h =
      ground (arith, h id, hits_none (suc id) attrs (λ x l. h x (omega arith)))

  -- No document is hit between `id` and the next one that matches.
  hits-skip :
      (k id : ℕ) (attrs : List DocAttr)
      → ((x : ℕ) → id ≤ x → x < id + k → matches index.inverter tokens x ≡ false)
      → hits id attrs ≡ hits (id + k) (drop k attrs)
  hits-skip zero id attrs h = ap (λ j. hits j attrs) (omega arith)
  hits-skip (suc k) id [] h = refl
  hits-skip (suc k) id (a ∷ attrs) h =
      ground (arith, h id)
      ∙ hits-skip k (suc id) attrs (λ x l m. h x (omega arith) (omega arith))
      ∙ ap (λ j. hits j (drop k attrs)) (omega arith)

  record At (xs : List DocAttr) (r : ℕ) : Type 0 where
    attr : DocAttr
    found : get_elem? xs r ≡ some attr
    drops : drop r xs ≡ attr ∷ drop (suc r) xs
    decided : IsDecided attr

  at : (xs : List DocAttr) (r : ℕ) → r < length xs → All IsDecided xs → At xs r
  at [] r h d = absurd (omega arith)
  at (x ∷ xs) zero h d = record { attr = x; found = refl; drops = refl; decided = d.0 }
  at (x ∷ xs) (suc r) h d =
      let t = at xs r (omega arith) d.1 in
      record { attr = t.attr; found = t.found; drops = t.drops; decided = t.decided }

  module _ (inter : LookaIntersect) (id : ℕ) where
    search_step_end :
        seek inter id ≡ some illegal_local_doc_id
        → search_step float_to_string inter index req id ≡ ok none
    unfolding search_step
    search_step_end e = rw e refl

    search_step_next :
        (r : ℕ) (attr : DocAttr) (b : Bool)
        → seek inter id ≡ some r
        → r < illegal_local_doc_id
        → get_elem? index.summary r ≡ some attr
        → drop_by_filter float_to_string index.attr_names attr req.filter ≡ ok b
        → search_step float_to_string inter index req id ≡ ok (some (suc r, attr, b))
    unfolding search_step
    search_step_next r attr b e l f g = rw e (ground (arith, f, g))

  module _ (inter : LookaIntersect) (fuel id total : ℕ) (docs : List DocAttr) where
    search_loop_end :
        search_step float_to_string inter index req id ≡ ok none
        → search_loop float_to_string (suc fuel) inter index req id total docs ≡ ok (total, docs)
    unfolding search_loop
    search_loop_end e = rw (e, search_loop) refl

    search_loop_dropped :
        (r : ℕ) (attr : DocAttr)
        → search_step float_to_string inter index req id ≡ ok (some (r, attr, true))
        → search_loop float_to_string (suc fuel) inter index req id total docs
          ≡ search_loop float_to_string fuel inter index req r total docs
    unfolding search_loop
    search_loop_dropped r attr e = rw (e, search_loop) refl

    search_loop_kept :
        (r : ℕ) (attr : DocAttr)
        → search_step float_to_string inter index req id ≡ ok (some (r, attr, false))
        → search_loop float_to_string (suc fuel) inter index req id total docs
          ≡ search_loop float_to_string fuel inter index req r
              (total + 1)
              (if in_page req total then docs ++ (attr ∷ []) else docs)
    unfolding search_loop
    search_loop_kept r attr e = rw (e, search_loop) refl

  page-append :
      (total : ℕ) (docs : List DocAttr) (a : DocAttr) (attrs : List DocAttr)
      → (if in_page req total then docs ++ (a ∷ []) else docs) ++ page req (total + 1) attrs
        ≡ docs ++ page req total (a ∷ attrs)
  page-append total docs a attrs =
      ground (arith, append_assoc docs (a ∷ []) (page req (suc total) attrs))

  drop_nil : (k : ℕ) → drop {A = DocAttr} k [] ≡ []
  drop_nil zero = refl
  drop_nil (suc k) = refl

  drop-drop : (m k : ℕ) (xs : List DocAttr) → drop k (drop m xs) ≡ drop (m + k) xs
  drop-drop zero k xs = ap (λ j. drop j xs) (omega arith)
  drop-drop (suc m) k [] = drop_nil k ∙ sym (drop_nil (suc m + k))
  drop-drop (suc m) k (x ∷ xs) =
      let e : suc (m + k) ≡ suc m + k = omega arith in
      drop-drop m k xs ∙ ap (λ j. drop j (x ∷ xs)) e

  -- The hits from `id` on, where the next document that matches is `r`.
  hits-next :
      (id r : ℕ) (b : Bool) (t : At index.summary r)
      → id ≤ r
      → matches index.inverter tokens r ≡ true
      → ((x : ℕ) → id ≤ x → x < r → matches index.inverter tokens x ≡ false)
      → drop_by_filter float_to_string index.attr_names t.attr req.filter ≡ ok b
      → hits id (drop id index.summary) ≡ (
          if b
          then hits (suc r) (drop (suc r) index.summary)
          else t.attr ∷ hits (suc r) (drop (suc r) index.summary))
  hits-next id r b t le hit skip decide =
      hits-skip (r - id) id (drop id index.summary) (λ x l m. skip x l (omega arith))
      ∙ ap (λ xs. hits (id + (r - id)) xs) (drop-drop id (r - id) index.summary)
      ∙ ap (λ j. hits j (drop j index.summary)) (omega arith)
      ∙ ap (hits r) t.drops
      ∙ at_r b decide
    where
      at_r :
          (b : Bool)
          → drop_by_filter float_to_string index.attr_names t.attr req.filter ≡ ok b
          → hits r (t.attr ∷ drop (suc r) index.summary) ≡ (
              if b
              then hits (suc r) (drop (suc r) index.summary)
              else t.attr ∷ hits (suc r) (drop (suc r) index.summary))
      at_r true decide = ground (arith, hit, ap kept_by decide)
      at_r false decide = ground (arith, hit, ap kept_by decide)

  -- The rest of the search from `id` on, after `total` hits of which `docs` are on the page.
  abbrev rest_of : List DocAttr → ℕ → List DocAttr → Result (ℕ × List DocAttr)
  rest_of rest total docs = ok (total + length rest, docs ++ page req total rest)

  abbrev inter : LookaIntersect
  inter = set_tokens tokens index.inverter new_looka_intersect

  abbrev loop : ℕ → ℕ → ℕ → List DocAttr → Result (ℕ × List DocAttr)
  loop fuel id total docs = search_loop float_to_string fuel inter index req id total docs

  rest_of_kept :
      (rest : List DocAttr) (a : DocAttr) (total : ℕ) (docs : List DocAttr)
      → rest_of rest (total + 1) (if in_page req total then docs ++ (a ∷ []) else docs)
        ≡ rest_of (a ∷ rest) total docs
  rest_of_kept rest a total docs = cc (page-append total docs a rest, sum)
    where
      sum : total + 1 + length rest ≡ total + suc (length rest)
      sum = omega arith

  module _ (fuel id total : ℕ) (docs : List DocAttr) (r : ℕ) (t : At index.summary r) where
    loop-next :
        (b : Bool)
        → search_step float_to_string inter index req id ≡ ok (some (suc r, t.attr, b))
        → hits id (drop id index.summary) ≡ (
            if b
            then hits (suc r) (drop (suc r) index.summary)
            else t.attr ∷ hits (suc r) (drop (suc r) index.summary))
        → ((total : ℕ) (docs : List DocAttr)
            → loop fuel (suc r) total docs
              ≡ rest_of (hits (suc r) (drop (suc r) index.summary)) total docs)
        → loop (suc fuel) id total docs ≡ rest_of (hits id (drop id index.summary)) total docs
    loop-next true step next rec =
        search_loop_dropped inter fuel id total docs (suc r) t.attr step
        ∙ rec total docs
        ∙ ap (λ h. rest_of h total docs) (sym next)
    loop-next false step next rec =
        search_loop_kept inter fuel id total docs (suc r) t.attr step
        ∙ rec (total + 1) _
        ∙ rest_of_kept (hits (suc r) (drop (suc r) index.summary)) t.attr total docs
        ∙ ap (λ h. rest_of h total docs) (sym next)

  module _ (n : ℕ) (size : n ≡ length index.summary) (small : n ≤ illegal_local_doc_id)
      (posted : IsIndex n index.inverter) (decided : All IsDecided index.summary) where
    loop_round :
        (fuel id total : ℕ) (docs : List DocAttr) (r : ℕ)
        → seek inter id ≡ some r
        → Finds (matches index.inverter tokens) id r
        → ((r : ℕ)
            → id ≤ r
            → r < n
            → (total : ℕ) (docs : List DocAttr)
            → loop fuel (suc r) total docs
              ≡ rest_of (hits (suc r) (drop (suc r) index.summary)) total docs)
        → loop (suc fuel) id total docs ≡ rest_of (hits id (drop id index.summary)) total docs
    loop_round fuel id total docs r e (inl (end, all)) rec =
        search_loop_end inter fuel id total docs (search_step_end inter id (e ∙ ap some end))
        ∙ cc (append-nil docs, zero_right)
        ∙ ap (λ h. rest_of h total docs) (sym (hits_none id (drop id index.summary) all))
      where
        zero_right : total ≡ total + 0
        zero_right = omega arith
    loop_round fuel id total docs r e (inr (legal, above, hit, skip)) rec =
        let inside = matches-lt n r index.inverter tokens posted hit in
        let t = at index.summary r (omega arith) decided in
        let (b, d) = t.decided in
        loop-next fuel id total docs r t b (search_step_next inter id r t.attr b e legal t.found d)
          (hits-next id r b t above hit skip d) (rec r above inside)

    loop-rest_of :
        (fuel id total : ℕ) (docs : List DocAttr)
        → id ≤ n
        → n < fuel + id
        → loop fuel id total docs ≡ rest_of (hits id (drop id index.summary)) total docs
    loop-rest_of zero id total docs le enough = absurd (omega arith)
    loop-rest_of (suc fuel) id total docs le enough =
        let (r, e, spec) = seek-Finds n index.inverter tokens new_looka_intersect id small posted in
        loop_round fuel id total docs r e spec
          (λ q a b t ds. loop-rest_of fuel (suc q) t ds (omega arith) (omega arith))

    -- The search returns.
    pub search-hits :
        search float_to_string index req tokens
        ≡ ok (length (hits 0 index.summary), page req 0 (hits 0 index.summary))
    unfolding search
    search-hits =
        loop-rest_of (suc (length index.summary)) 0 0 [] (omega arith) (omega arith)
        ∙ ap (λ k. ok (k, page req 0 (hits 0 index.summary))) (omega arith)
