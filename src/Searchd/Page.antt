-- ===== src/Searchd/Page.antt =====
-- The page of a query is a stretch of its hits.
use looka.Common.{
  ℕ, zero, suc, ◌+◌, ◌-◌, ◌^◌, ◌≤◌, ◌<◌, List, [], ◌∷◌, ◌&&◌, leb, ltb, length, take, drop, All,
  ◌≡◌, refl, ap, ◌∙◌, arith,
}
use looka.Common.Bytes.{Bytes}
use looka.Common.Int.{ℤ, pos, wrap_int, wrap_int-pos, ◌+ℤ◌}
use looka.Common.Result.{ok}
use looka.Attr.{DocAttr}
use looka.Intersect.Tokens.{IsIndex}
use looka.Request.{LookaRequest}
use looka.Searchd.{Index, in_page, search}
use looka.Searchd.Search.{hits, page, IsDecided, search-hits}

wrap_sum :
    (a b : ℤ) (o l : ℕ) → a ≡ pos o → b ≡ pos l → o + l < 2 ^ 31 → wrap_int (a +ℤ b) ≡ pos (o + l)
wrap_sum a b o l e f small = ap wrap_int sum ∙ wrap_int-pos (o + l) small
  where
    sum : a +ℤ b ≡ pos (o + l)
    sum = unfold ◌+ℤ◌ in ground arith

module _ (req : LookaRequest) (o l : ℕ) (offset : req.offset ≡ pos o) (limit : req.limit ≡ pos l)
    (small : o + l < 2 ^ 31) where
  in_page_nat : (total : ℕ) → in_page req total ≡ (leb o total && ltb total (o + l))
  unfolding in_page
  in_page_nat total =
      rw (wrap_sum req.offset req.limit o l offset limit small, offset) (ground arith)

  page-from :
      (total k : ℕ) (xs : List DocAttr)
      → o ≤ total
      → k ≡ o + l - total
      → page req total xs ≡ take k xs
  page-from total zero [] h e = refl
  page-from total (suc k) [] h e = refl
  page-from total zero (x ∷ xs) h e =
      ground (arith, in_page_nat total, page-from (suc total) zero xs)
  page-from total (suc k) (x ∷ xs) h e =
      ground (arith, in_page_nat total, page-from (suc total) k xs)

  page-to :
      (total k : ℕ) (xs : List DocAttr) → total + k ≡ o → page req total xs ≡ take l (drop k xs)
  page-to total zero xs e = page-from total l xs (omega arith) (omega arith)
  page-to total (suc k) [] e = take_nil l
    where
      take_nil : (n : ℕ) → [] ≡ take {A = DocAttr} n []
      take_nil zero = refl
      take_nil (suc n) = refl
  page-to total (suc k) (x ∷ xs) e = ground (arith, in_page_nat total, page-to (suc total) k xs)

  -- `offset` and `limit` cut their stretch out of the hits.
  pub page-take-drop : (xs : List DocAttr) → page req 0 xs ≡ take l (drop o xs)
  page-take-drop xs = page-to 0 o xs (omega arith)

-- On an index whose posting lists ascend and name only documents of the summary, which has fewer
-- than 2 ^ 31, and where the filter can be evaluated on each document, the search of `Process`
-- returns. The documents that it finds are those that have every token of the query and that the
-- filter keeps, in the order of the summary; it counts them all, and returns `limit` of them from
-- number `offset` on, for an `offset` and a `limit` that are not negative and have a sum below
-- 2 ^ 31.
pub search-page :
    (float_to_string : ℕ → Bytes) (index : Index) (req : LookaRequest) (tokens : List Bytes)
    (o l : ℕ)
    → req.offset ≡ pos o
    → req.limit ≡ pos l
    → o + l < 2 ^ 31
    → length index.summary < 2 ^ 31
    → IsIndex (length index.summary) index.inverter
    → All (IsDecided float_to_string index req tokens) index.summary
    → search float_to_string index req tokens ≡ (
        let found = hits float_to_string index req tokens 0 index.summary in
        ok (length found, take l (drop o found)))
search-page float_to_string index req tokens o l offset limit small few posted decided =
    let found = hits float_to_string index req tokens 0 index.summary in
    search-hits float_to_string index req tokens (length index.summary) refl (omega arith) posted
      decided
    ∙ ap (λ docs. ok (length found, docs)) (page-take-drop req o l offset limit small found)
