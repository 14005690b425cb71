-- ===== src/Request/FilterText.antt =====
-- The text of a filter, `key:value,value;key:value`, and what `ParseFilter` makes of it.
use mathlib.Core.List.{append-nil, append_assoc}
use looka.Common.{
  ℕ, List, [], ◌∷◌, ◌++◌, true, false, if◌then◌else◌, is_empty, map, All, All-append, All-mono, ◌≡◌,
  ◌≢◌, refl, sym, ap, ◌∙◌, arith, Bool-cases, inl, inr,
}
use looka.Common.Bytes.{Bytes, bytes_beq, bytes_beq_iff}
use looka.StrUtils.{isspace, trim, ltrim, rtrim, drop_while, drop_end, split_string}
use looka.StrUtils.Split.{join, IsPiece, EndsFull, split_string-join}
use looka.Request.Filter.{values_of, Rises, filter_add-Rises, values_of-filter_add}
use looka.Request.{
  Filter, LookaRequest, filter_add, filter_kvs, filter_piece, filter_pieces, parse_filter,
}

-- A byte that no trimming and no splitting of a filter touches.
abbrev pub IsSolid : ℕ → Type 0
IsSolid c = (isspace c ≡ false) × (c ≢ 0)

abbrev pub IsPlain : ℕ → Type 0
IsPlain c = IsSolid c × (c ≢ b';') × (c ≢ b':') × (c ≢ b',')

-- A word: one such byte at least.
abbrev pub IsWord : Bytes → Type 0
IsWord w = (w ≢ []) × All IsPlain w

abbrev pub Entry : Type 0
Entry = Bytes × List Bytes

-- A key, and a value at least.
unfoldable pub IsFilterEntry : Entry → Type 0
IsFilterEntry e = IsWord e.0 × (e.1 ≢ []) × All IsWord e.1

unfoldable pub entry_text : Entry → Bytes
entry_text e = join b':' (e.0 ∷ join b',' e.1 ∷ [])

unfoldable pub filter_text : List Entry → Bytes
unfolding entry_text
filter_text es = join b';' (map entry_text es)

-- The values that the entries give to a key, in their order.
unfoldable pub given : Bytes → List Entry → List Bytes
given k [] = []
given k ((j, vs) ∷ es) = if bytes_beq j k then vs ++ given k es else given k es

drop_end-IsSolid : (s : Bytes) → All IsSolid s → drop_end isspace s ≡ s
unfolding drop_end
drop_end-IsSolid [] h = refl
drop_end-IsSolid (c ∷ s) h = ground (arith, drop_end-IsSolid s h.1, h.0.0)

trim-IsSolid : (s : Bytes) → All IsSolid s → trim s ≡ s
unfolding trim drop_while ltrim rtrim
trim-IsSolid [] h = unfold drop_end in refl
trim-IsSolid (c ∷ s) h = rw (drop_end-IsSolid (c ∷ s) h, h.0.0) refl

-- Splitting a joined list of solid pieces gives the pieces.
split_string-IsSolid :
    (ch : ℕ) (ps : List Bytes)
    → ch ≢ 0
    → All (All (λ c. IsSolid c × (c ≢ ch))) ps
    → EndsFull ps
    → split_string (join ch ps) ch ≡ ps
split_string-IsSolid ch ps nonzero solid full =
    split_string-join ch ps nonzero (pieces ps solid) full ∙ trimmed ps solid
  where
    pieces : (ps : List Bytes) → All (All (λ c. IsSolid c × (c ≢ ch))) ps → All (IsPiece ch) ps
    pieces [] h = tt
    pieces (p ∷ ps) h = (
      All-mono (λ c. IsSolid c × (c ≢ ch)) (λ c. (c ≢ ch) × (c ≢ 0)) p (λ c g. (g.1, g.0.1)) h.0,
      pieces ps h.1,
    )

    trimmed : (ps : List Bytes) → All (All (λ c. IsSolid c × (c ≢ ch))) ps → map trim ps ≡ ps
    trimmed [] h = refl
    trimmed (p ∷ ps) h =
        rw
          (
            trim-IsSolid p (All-mono (λ c. IsSolid c × (c ≢ ch)) IsSolid p (λ c g. g.0) h.0),
            trimmed ps h.1,
          )
          refl

join-All : (P : ℕ → Type 0) (ch : ℕ) (ps : List Bytes) → P ch → All (All P) ps → All P (join ch ps)
join-All P ch [] c h = tt
join-All P ch (p ∷ []) c h = h.0
join-All P ch (p ∷ q ∷ ps) c h =
    All-append P p (ch ∷ join ch (q ∷ ps)) h.0 (c, join-All P ch (q ∷ ps) c h.1)

colon : IsSolid b':'
unfolding isspace
colon = (refl, omega arith)

comma : IsSolid b','
unfolding isspace
comma = (refl, omega arith)

-- Words as pieces, of any of the separators.
words :
    (P : ℕ → Type 0) (ws : List Bytes)
    → ((c : ℕ) → IsPlain c → P c)
    → All IsWord ws
    → All (All P) ws
words P [] f h = tt
words P (w ∷ ws) f h = (All-mono IsPlain P w f h.0.1, words P ws f h.1)

words-EndsFull : (ws : List Bytes) → All IsWord ws → EndsFull ws
words-EndsFull [] h = tt
words-EndsFull (w ∷ []) h = h.0.0
words-EndsFull (w ∷ v ∷ ws) h = words-EndsFull (v ∷ ws) h.1

is_empty-append : (p : Bytes) (c : ℕ) (q : Bytes) → is_empty (p ++ (c ∷ q)) ≡ false
is_empty-append [] c q = refl
is_empty-append (x ∷ p) c q = refl

nonempty {ℓ} : {A : Type ℓ} (xs : List A) → ¬ (xs ≡ []) → is_empty xs ≡ false
nonempty [] h = absurd (h refl)
nonempty (x ∷ xs) h = refl

join-nonempty : (ch : ℕ) (ws : List Bytes) → ¬ (ws ≡ []) → All IsWord ws → ¬ (join ch ws ≡ [])
join-nonempty ch [] n h = absurd (n refl)
join-nonempty ch (w ∷ []) n h = h.0.0
join-nonempty ch (w ∷ v ∷ ws) n h = λ e.
    let empty : is_empty (join ch (w ∷ v ∷ ws)) ≡ true = ap is_empty e in
    ground (arith, empty, is_empty-append w ch (join ch (v ∷ ws)))

filter_piece_cut :
    (piece k v : Bytes) (vs : List Bytes) (m : Filter)
    → is_empty piece ≡ false
    → split_string piece b':' ≡ k ∷ v ∷ []
    → split_string v b',' ≡ vs
    → is_empty vs ≡ false
    → filter_piece piece m ≡ filter_add k vs m
unfolding filter_piece
filter_piece_cut piece k v vs m full cut values some_there =
    rw (full, cut) (unfold filter_kvs in rw (values, some_there) refl)

-- What `ParseFilter` does with one entry's text.
filter_piece-entry_text :
    (k : Bytes) (vs : List Bytes) (m : Filter)
    → IsFilterEntry (k, vs)
    → filter_piece (entry_text (k, vs)) m ≡ filter_add k vs m
unfolding IsFilterEntry entry_text
filter_piece-entry_text k vs m h =
    filter_piece_cut (entry_text (k, vs)) k (join b',' vs) vs m
      (is_empty-append k b':' (join b',' vs))
      (split_string-IsSolid b':' (k ∷ join b',' vs ∷ []) (omega arith)
        (
          All-mono IsPlain Kept k (λ c g. (g.0, g.2)) h.0.1,
          (join-All Kept b',' vs (comma, omega arith) (words Kept vs (λ c g. (g.0, g.2)) h.2), tt),
        )
        (join-nonempty b',' vs h.1 h.2))
      (split_string-IsSolid b',' vs (omega arith)
        (words (λ c. IsSolid c × (c ≢ b',')) vs (λ c g. (g.0, g.3)) h.2) (words-EndsFull vs h.2))
      (nonempty vs h.1)
  where
    Kept : ℕ → Type 0
    Kept c = IsSolid c × (c ≢ b':')

entry_text-IsSolid :
    (e : Entry) → IsFilterEntry e → All (λ c. IsSolid c × (c ≢ b';')) (entry_text e)
unfolding IsFilterEntry entry_text
entry_text-IsSolid e h =
    join-All Kept b':' (e.0 ∷ join b',' e.1 ∷ []) (colon, omega arith)
      (
        All-mono IsPlain Kept e.0 (λ c g. (g.0, g.1)) h.0.1,
        (join-All Kept b',' e.1 (comma, omega arith) (words Kept e.1 (λ c g. (g.0, g.1)) h.2), tt),
      )
  where
    Kept : ℕ → Type 0
    Kept c = IsSolid c × (c ≢ b';')

filter_pieces-Rises-values :
    (es : List Entry) (k : Bytes) (m : Filter)
    → All IsFilterEntry es
    → Rises m
    → values_of k (filter_pieces (map entry_text es) m) ≡ values_of k m ++ given k es
unfolding filter_pieces given
filter_pieces-Rises-values [] k m h rises = sym (append-nil (values_of k m))
filter_pieces-Rises-values ((j, vs) ∷ es) k m h rises =
    ap (λ f. values_of k (filter_pieces (map entry_text es) f)) (filter_piece-entry_text j vs m h.0)
    ∙ filter_pieces-Rises-values es k (filter_add j vs m) h.1 (filter_add-Rises j vs m rises)
    ∙ ap (λ ws. ws ++ given k es) (values_of-filter_add k j vs m rises)
    ∙ elim (Bool-cases (bytes_beq j k)) [
      | inl same ↦ rw (same) (
          append_assoc (values_of j m) vs (given k es)
          ∙ ap (λ i. values_of i m ++ (vs ++ given k es)) ((bytes_beq_iff j k).0 same))
      | inr other ↦ rw (other) refl
    ]

entries-EndsFull : (es : List Entry) → EndsFull (map entry_text es)
entries-EndsFull [] = tt
entries-EndsFull (e ∷ []) =
    unfold entry_text in
    λ h.
      let empty : is_empty (entry_text e) ≡ true = ap is_empty h in
      ground (arith, empty, is_empty-append e.0 b':' (join b',' e.1))
entries-EndsFull (e ∷ f ∷ es) = entries-EndsFull (f ∷ es)

entries-IsSolid :
    (es : List Entry)
    → All IsFilterEntry es
    → All (All (λ c. IsSolid c × (c ≢ b';'))) (map entry_text es)
entries-IsSolid [] h = tt
entries-IsSolid (e ∷ es) h = (entry_text-IsSolid e h.0, entries-IsSolid es h.1)

-- For at least one entry, each a key with at least one value, all of them non-empty words without
-- space, NUL, `;`, `:` or `,`: `ParseFilter` of the entries' text adds to each key of the filter,
-- which a `std::map` keeps in order, the values that the entries give it, in their order.
pub parse_filter-filter_text :
    (es : List Entry) (r : LookaRequest) (k : Bytes)
    → ¬ (es ≡ [])
    → All IsFilterEntry es
    → Rises r.filter
    → values_of k (parse_filter (filter_text es) r).1.filter ≡ values_of k r.filter ++ given k es
unfolding parse_filter filter_text
parse_filter-filter_text es r k some_there h rises =
    rw
      (
        split_string-IsSolid b';' (map entry_text es) (omega arith) (entries-IsSolid es h)
            (entries-EndsFull es),
        map_full es some_there,
      )
      (filter_pieces-Rises-values es k r.filter h rises)
  where
    map_full : (es : List Entry) → ¬ (es ≡ []) → is_empty (map entry_text es) ≡ false
    map_full [] n = absurd (n refl)
    map_full (e ∷ es) n = refl
