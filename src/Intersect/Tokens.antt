-- ===== src/Intersect/Tokens.antt =====
-- `SetTokens` and `Seek` together, over the inverter's posting lists.
use looka.Common.{
  ℕ, ◌≤◌, List, [], ◌∷◌, some, Bool, false, ◌&&◌, map, allb, ◌≡◌, refl, sym, ap, ◌∙◌, arith,
  Option-cases,
}
use mathlib.Core.Path.{subst, fun_ext}
use looka.Common.Bytes.{Bytes}
use looka.Intersect.{
  TokenIntersect, LookaIntersect, new_token_intersect, set_docs, get_token_docs, set_tokens, seek,
  seek_tokens,
}
use looka.Intersect.Scan.{IsPosting, in_pointer, in_token, Finds}
use looka.Intersect.Seek.{IsPostings, is_common, seek_tokens-Finds}
use looka.Inverter.{Inverter, items_of, get_items, find_key}
use looka.Types.{DocInvert, Token, make_token, token_eq, illegal_local_doc_id}

-- Every posting list of the inverter ascends, and its documents are below `n`.
abbrev pub IsIndex : ℕ → Inverter Token DocInvert → Type 0
IsIndex n inverter = (t : Token) → IsPosting n (items_of t inverter)

-- Document `x` has the token.
abbrev pub has_token : Inverter Token DocInvert → ℕ → Bytes → Bool
has_token inverter x token = in_pointer x (items_of (make_token token) inverter)

-- Document `x` has all tokens of a query, which has one at least.
abbrev pub matches : Inverter Token DocInvert → List Bytes → ℕ → Bool
matches inverter [] x = false
matches inverter (t ∷ ts) x = has_token inverter x t && allb (has_token inverter x) ts

pub get_token_docs-items_of :
    (token : Bytes) (inverter : Inverter Token DocInvert)
    → get_token_docs token inverter ≡ items_of (make_token token) inverter
unfolding get_token_docs items_of get_items
get_token_docs-items_of token inverter =
    ground (arith, Option-cases (find_key (make_token token) inverter.m_idx_invert))

abbrev array_of : List Bytes → Inverter Token DocInvert → List TokenIntersect
array_of tokens inverter =
    map (λ t. set_docs (get_token_docs t inverter) new_token_intersect) tokens

module _ (n : ℕ) (inverter : Inverter Token DocInvert) where
  array_of-IsPostings :
      (tokens : List Bytes) → IsIndex n inverter → IsPostings n (array_of tokens inverter)
  unfolding set_docs
  array_of-IsPostings [] index = tt
  array_of-IsPostings (t ∷ ts) index = (
    subst (IsPosting n) (sym (get_token_docs-items_of t inverter)) (index (make_token t)),
    array_of-IsPostings ts index,
  )

  allb-array_of :
      (x : ℕ) (tokens : List Bytes)
      → allb (in_token x) (array_of tokens inverter) ≡ allb (has_token inverter x) tokens
  unfolding set_docs
  allb-array_of x [] = refl
  allb-array_of x (t ∷ ts) =
      ground (arith, ap (in_pointer x) (get_token_docs-items_of t inverter), allb-array_of x ts)

  is_common-array_of :
      (tokens : List Bytes) (x : ℕ)
      → is_common (array_of tokens inverter) x ≡ matches inverter tokens x
  unfolding set_docs
  is_common-array_of [] x = refl
  is_common-array_of (t ∷ ts) x =
      ground (arith, ap (in_pointer x) (get_token_docs-items_of t inverter), allb-array_of x ts)

seek-set_tokens :
    (tokens : List Bytes) (inverter : Inverter Token DocInvert) (inter : LookaIntersect) (id : ℕ)
    → seek (set_tokens tokens inverter inter) id ≡ seek_tokens (array_of tokens inverter) id
unfolding seek set_tokens
seek-set_tokens [] inverter inter id = refl
seek-set_tokens (t ∷ ts) inverter inter id = ground arith

-- On an index of documents below `n`, a search for tokens from `id` on returns, and its result is
-- the least document from `id` on that has all of the tokens, or the illegal id exactly when no
-- such document exists; with no tokens there is none.
pub seek-Finds :
    (n : ℕ) (inverter : Inverter Token DocInvert) (tokens : List Bytes) (inter : LookaIntersect)
    (id : ℕ)
    → n ≤ illegal_local_doc_id
    → IsIndex n inverter
    → (r : ℕ) × (seek (set_tokens tokens inverter inter) id ≡ some r)
      × Finds (matches inverter tokens) id r
seek-Finds n inverter tokens inter id small index =
    let (r, found, spec) =
      seek_tokens-Finds n (array_of tokens inverter) id small
        (array_of-IsPostings n inverter tokens index) in
    (
      r,
      seek-set_tokens tokens inverter inter id ∙ found,
      subst (λ f. Finds f id r) (fun_ext (is_common-array_of n inverter tokens)) spec,
    )
