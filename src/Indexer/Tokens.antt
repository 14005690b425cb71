-- ===== src/Indexer/Tokens.antt =====
-- The hits of a document: their keys are in the order of the ids, and they are the tokens of its
-- text columns.
use mathlib.Core.Path.{subst}
use looka.Common.{
  ℕ, suc, ◌%◌, ◌≤◌, List, [], ◌∷◌, ◌++◌, Option, none, some, ◌||◌, ltb, map, All, ◌≡◌, refl, sym,
  ap, ◌∙◌, arith, Bool-cases, inl, inr,
}
use looka.Common.Bytes.{Bytes, bytes_beq, bytes_beq_iff, contains}
use looka.Indexer.{
  MysqlField, Columns, TokenHits, Doc, is_in_fields, add_hit, add_hits, read_field, read_fields,
  new_doc,
}
use looka.Indexer.Postings.{KeysRise, has_key}
use looka.Segmenter.{SegmentToken}
use looka.Str2id.{compute_token_id}
use looka.Types.{Token, make_token, token_beq, token_beq_iff}

add_hit-KeysRise :
    (lo : ℕ) (t : Token) (f p : ℕ) (m : TokenHits)
    → lo ≤ t.token_id
    → KeysRise lo m
    → KeysRise lo (add_hit t f p m)
unfolding add_hit
add_hit-KeysRise lo t f p [] h r = (h, tt)
add_hit-KeysRise lo t f p ((k, hits) ∷ m) h r =
    ground (arith, add_hit-KeysRise (suc k.token_id) t f p m)

add_hits-KeysRise :
    (f : ℕ) (ss : List SegmentToken) (m : TokenHits) → KeysRise 0 m → KeysRise 0 (add_hits f ss m)
unfolding add_hits
add_hits-KeysRise f [] m r = r
add_hits-KeysRise f (s ∷ ss) m r =
    add_hits-KeysRise f ss _
      (add_hit-KeysRise 0 (make_token s.str) f (s.pos % 256) m (omega arith) r)

-- No other key has the id of `k`.
abbrev IsSeparate : Token → TokenHits → Type 0
IsSeparate k [] = Unit
IsSeparate k ((t, hits) ∷ m) = (t.token_id ≡ k.token_id → t ≡ k) × IsSeparate k m

module _ (k t : Token) (f p : ℕ) (apart : t.token_id ≡ k.token_id → t ≡ k) where
  add_hit-IsSeparate : (m : TokenHits) → IsSeparate k m → IsSeparate k (add_hit t f p m)
  unfolding add_hit
  add_hit-IsSeparate [] h = (apart, tt)
  add_hit-IsSeparate ((q, hits) ∷ m) h = elim (Bool-cases (ltb q.token_id t.token_id)) [
    | inl below ↦ rw below (h.0, add_hit-IsSeparate m h.1)
    | inr level ↦ rw level (elim (Bool-cases (ltb t.token_id q.token_id)) [
      | inl above ↦ rw above (apart, h)
      | inr same ↦ rw same h
    ])
  ]

  has_key-add_hit :
      (m : TokenHits)
      → IsSeparate k m
      → has_key k (add_hit t f p m) ≡ (token_beq t k || has_key k m)
  unfolding add_hit
  has_key-add_hit [] h = refl
  has_key-add_hit ((q, hits) ∷ m) h = ground (
    arith,
    has_key-add_hit m h.1,
    token_beq_iff q k,
    token_beq_iff t k,
    h.0,
    apart,
    ap (λ (r : Token). r.token_id) {x = t} {y = k},
  )

-- Of some strings, those with the id of `token` are `token`: no two of them collide with it.
abbrev pub NoClash : Bytes → List SegmentToken → Type 0
NoClash token = All (λ s. compute_token_id s.str ≡ compute_token_id token → s.str ≡ token)

abbrev pub strings_of : List SegmentToken → List Bytes
strings_of = map (λ s. s.str)

module _ (token : Bytes) where
  token_beq-make_token :
      (s : Bytes) → token_beq (make_token s) (make_token token) ≡ bytes_beq s token
  token_beq-make_token s = elim (Bool-cases (bytes_beq s token)) [
    | inl same ↦ ground (arith, same, ap compute_token_id ((bytes_beq_iff s token).0 same))
    | inr other ↦ ground (arith, other)
  ]

  add_hits-has_key :
      (f : ℕ) (ss : List SegmentToken) (m : TokenHits)
      → NoClash token ss
      → IsSeparate (make_token token) m
      → (has_key (make_token token) (add_hits f ss m)
          ≡ (contains token (strings_of ss) || has_key (make_token token) m))
        × IsSeparate (make_token token) (add_hits f ss m)
  unfolding add_hits
  add_hits-has_key f [] m c h = (refl, h)
  add_hits-has_key f (s ∷ ss) m c h =
      let t = make_token s.str in
      let k = make_token token in
      let p = s.pos % 256 in
      let apart : t.token_id ≡ k.token_id → t ≡ k = λ e. ap make_token (c.0 e) in
      let (rest, h') =
        add_hits-has_key f ss (add_hit t f p m) c.1 (add_hit-IsSeparate k t f p apart m h) in
      (ground (arith, rest, has_key-add_hit k t f p apart m h, token_beq-make_token s.str), h')

-- The tokens of a field, if its column is one of the text columns.
abbrev pub column_tokens : Option ℕ → List SegmentToken → List SegmentToken
column_tokens none ss = []
column_tokens (some i) ss = ss

column_hits :
    (o : Option ℕ) (ss : List SegmentToken) (m : TokenHits)
    → (i : ℕ) × ((elim o [ none ↦ m | some i ↦ add_hits (i % 256) ss m ])
        ≡ add_hits i (column_tokens o ss) m)
column_hits none ss m = (0, unfold add_hits in refl)
column_hits (some i) ss m = (i % 256, refl)

module _ (c : Columns) (atof : Bytes → ℕ) (segment : Bytes → List SegmentToken) where
  abbrev field_tokens : MysqlField → List SegmentToken
  field_tokens f = column_tokens (is_in_fields f.name c.sql_field_string) (segment f.value)

  -- The tokens of a document, in the order of its fields.
  abbrev pub row_tokens : List MysqlField → List SegmentToken
  row_tokens [] = []
  row_tokens (f ∷ fs) =
      column_tokens (is_in_fields f.name c.sql_field_string) (segment f.value) ++ row_tokens fs

  read_field-token_hits :
      (f : MysqlField) (d : Doc)
      → (i : ℕ) × ((read_field c atof segment f d).token_hits
          ≡ add_hits i (field_tokens f) d.token_hits)
  read_field-token_hits f d =
      unfold read_field in
      column_hits (is_in_fields f.name c.sql_field_string) (segment f.value) d.token_hits

  pub read_fields-KeysRise :
      (fs : List MysqlField) (d : Doc)
      → KeysRise 0 d.token_hits
      → KeysRise 0 (read_fields c atof segment fs d).token_hits
  unfolding read_fields
  read_fields-KeysRise [] d r = r
  read_fields-KeysRise (f ∷ fs) d r =
      let (i, e) = read_field-token_hits f d in
      read_fields-KeysRise fs (read_field c atof segment f d)
        (subst (KeysRise 0) (sym e) (add_hits-KeysRise i (field_tokens f) d.token_hits r))

  module _ (token : Bytes) where
    NoClash-split :
        (xs ys : List SegmentToken) → NoClash token (xs ++ ys) → NoClash token xs × NoClash token ys
    NoClash-split [] ys h = (tt, h)
    NoClash-split (x ∷ xs) ys h = let (p, q) = NoClash-split xs ys h.1 in ((h.0, p), q)

    contains-append :
        (xs ys : List SegmentToken)
        → contains token (strings_of (xs ++ ys))
          ≡ (contains token (strings_of xs) || contains token (strings_of ys))
    contains-append [] ys = refl
    contains-append (x ∷ xs) ys = ground (arith, contains-append xs ys)

    abbrev k : Token
    k = make_token token

    -- The hits of a document have the keys they had and those of its tokens.
    read_fields-has_key :
        (fs : List MysqlField) (d : Doc)
        → NoClash token (row_tokens fs)
        → IsSeparate k d.token_hits
        → has_key k (read_fields c atof segment fs d).token_hits
          ≡ (contains token (strings_of (row_tokens fs)) || has_key k d.token_hits)
    unfolding read_fields
    read_fields-has_key [] d apart h = refl
    read_fields-has_key (f ∷ fs) d apart h =
        let (i, e) = read_field-token_hits f d in
        let (here, later) = NoClash-split (field_tokens f) (row_tokens fs) apart in
        let (keys, h') = add_hits-has_key token i (field_tokens f) d.token_hits here h in
        read_fields-has_key fs (read_field c atof segment f d) later
          (subst (IsSeparate k) (sym e) h')
        ∙ ap (λ m. contains token (strings_of (row_tokens fs)) || has_key k m) e
        ∙ ground (arith, keys, contains-append (field_tokens f) (row_tokens fs))

    -- Of a new document, the keys are the tokens of its text columns.
    pub new_doc-has_key :
        (fs : List MysqlField)
        → NoClash token (row_tokens fs)
        → has_key k (read_fields c atof segment fs (new_doc c atof segment)).token_hits
          ≡ contains token (strings_of (row_tokens fs))
    new_doc-has_key fs apart =
        read_fields-has_key fs (new_doc c atof segment) apart (unfold new_doc in tt)
        ∙ unfold new_doc in ground arith

    pub new_doc-KeysRise :
        (fs : List MysqlField)
        → KeysRise 0 (read_fields c atof segment fs (new_doc c atof segment)).token_hits
    new_doc-KeysRise fs = read_fields-KeysRise fs (new_doc c atof segment) (unfold new_doc in tt)
