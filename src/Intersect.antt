-- ===== src/Intersect.antt =====
-- src/looka_intersect.hpp and src/looka_intersect.cpp: the search for documents that stand in
-- the posting lists of all tokens. A loop that runs out of fuel answers `none`.
pub mod Scan
pub mod Seek
pub mod Tokens
use looka.Common.{
  ℕ, zero, suc, ◌+◌, List, [], ◌∷◌, Option, none, some, if◌then◌else◌, length, map, leb, ◌==◌,
}
use looka.Common.Bytes.{Bytes}
use looka.Inverter.{Inverter, get_items, find_key}
use looka.Types.{DocInvert, Token, make_token, token_eq, illegal_local_doc_id}

-- `docs` is the pointer to the posting list, `idx` a cursor that nothing reads.
pub record TokenIntersect : Type 0 where
  pub docs : Option (List DocInvert)
  pub idx : ℕ

-- `idx(-1)`, as an `unsigned int`.
abbrev pub new_token_intersect : TokenIntersect
new_token_intersect = record { docs = none; idx = 0xFFFF_FFFF }

unfoldable pub set_docs : Option (List DocInvert) → TokenIntersect → TokenIntersect
set_docs ds t = record t { docs = ds; idx = 0xFFFF_FFFF }

-- The loop of `TokenIntersect::Seek`.
unfoldable pub seek_docs : List DocInvert → ℕ → ℕ
seek_docs [] id = illegal_local_doc_id
seek_docs (d ∷ ds) id = if leb id d.local_id then d.local_id else seek_docs ds id

seek_pointer : Option (List DocInvert) → ℕ → ℕ
seek_pointer none id = illegal_local_doc_id
seek_pointer (some ds) id = seek_docs ds id

unfoldable pub token_seek : TokenIntersect → ℕ → ℕ
unfolding seek_docs seek_pointer
token_seek t id = seek_pointer t.docs id

-- `size` is the length of the array at `tokenInt`; `none` is its null pointer.
pub record LookaIntersect : Type 0 where
  pub token_int : Option (List TokenIntersect)
  pub size : ℕ

abbrev pub new_looka_intersect : LookaIntersect
new_looka_intersect = record { token_int = none; size = 0 }

-- How a pass of the `for` loop over the other tokens ends: it returns, or it comes to
-- `i = 1; goto again` with a larger id.
pub data Pass : Type 0 where
  returns : ℕ → Pass
  again : ℕ → Pass

-- `id = tokenInt[0].Seek(next_id)` and the test that follows it.
restart : TokenIntersect → ℕ → Pass
restart first next_id =
    let id = token_seek first next_id in
    if id == illegal_local_doc_id then returns illegal_local_doc_id else again id

unfoldable pub pass : TokenIntersect → List TokenIntersect → ℕ → Pass
unfolding restart
pass first [] id = returns id
pass first (t ∷ ts) id =
    let next_id = token_seek t id in
    if next_id == id
    then pass first ts id
    else if next_id == illegal_local_doc_id
    then returns illegal_local_doc_id
    else restart first next_id

unfoldable pub seek_loop : ℕ → TokenIntersect → List TokenIntersect → ℕ → Option ℕ
unfolding pass
seek_loop zero first others id = none
seek_loop (suc fuel) first others id = elim (pass first others id) [
  | returns r ↦ some r
  | again id' ↦ seek_loop fuel first others id'
]

-- The number of the entries of the first list, one round for each and one more.
pub docs_fuel : Option (List DocInvert) → ℕ
docs_fuel none = 1
docs_fuel (some ds) = suc (length ds)

-- `LookaIntersect::Seek`, on the array of tokens.
unfoldable pub seek_tokens : List TokenIntersect → ℕ → Option ℕ
unfolding token_seek seek_loop docs_fuel
seek_tokens [] id = some illegal_local_doc_id
seek_tokens (first ∷ others) id =
    let id' = token_seek first id in
    let found = seek_loop (docs_fuel first.docs) first others id' in
    if id' == illegal_local_doc_id then some illegal_local_doc_id else found

seek_array : Option (List TokenIntersect) → ℕ → Option ℕ
unfolding seek_tokens
seek_array none id = some illegal_local_doc_id
seek_array (some ts) id = seek_tokens ts id

unfoldable pub seek : LookaIntersect → ℕ → Option ℕ
unfolding seek_array
seek inter id = if inter.size == 0 then some illegal_local_doc_id else seek_array inter.token_int id

-- `LookaIntersect::GetTokenDocs`; the argument `none` is `docs = NULL`. A null inverter, which
-- the program never passes, is not modelled.
unfoldable pub get_token_docs : Bytes → Inverter Token DocInvert → Option (List DocInvert)
unfolding get_items
get_token_docs token inverter = (get_items (make_token token) inverter none).1

unfoldable pub set_tokens : List Bytes → Inverter Token DocInvert → LookaIntersect → LookaIntersect
unfolding get_token_docs set_docs
set_tokens tokens inverter inter = record inter {
  token_int = some (map (λ t. set_docs (get_token_docs t inverter) new_token_intersect) tokens);
  size = length tokens;
}
