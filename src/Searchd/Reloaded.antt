-- ===== src/Searchd/Reloaded.antt =====
-- The search looks at an inverter only through the lists of its tokens, where a token without an
-- entry and one with an empty list are the same.
use mathlib.Core.Path.{subst}
use looka.Common.{
  ℕ, suc, ◌≤◌, List, [], ◌∷◌, Option, none, some, length, allb, All, ◌≡◌, refl, sym, ap, ◌∙◌,
}
use looka.Common.Bytes.{Bytes}
use looka.Common.Result.{ok}
use looka.Attr.{DocAttr}
use looka.Intersect.Scan.{Ascends, IsBelow, IsPosting, has_doc, in_pointer}
use looka.Intersect.Tokens.{IsIndex, has_token, matches}
use looka.Inverter.{Inverter, items_of}
use looka.Inverter.Laws.{list_of}
use looka.Request.{LookaRequest}
use looka.Searchd.{NameMap, Index, search}
use looka.Searchd.Search.{page, hits, IsDecided, search-hits}
use looka.Types.{DocInvert, Token, make_token, token_eq, illegal_local_doc_id}

-- Each token has the same list in both.
abbrev pub HasLists : Inverter Token DocInvert → Inverter Token DocInvert → Type 0
HasLists inv inv' = (k : Token) → list_of (items_of k inv') ≡ list_of (items_of k inv)

in_pointer-list_of : (x : ℕ) (p : Option (List DocInvert)) → in_pointer x p ≡ has_doc x (list_of p)
in_pointer-list_of x none = refl
in_pointer-list_of x (some ds) = refl

abbrev IsPostingList : ℕ → List DocInvert → Type 0
IsPostingList n ds = Ascends 0 ds × IsBelow n ds

IsPosting-list_of :
    (n : ℕ) (p : Option (List DocInvert)) → IsPosting n p → IsPostingList n (list_of p)
IsPosting-list_of n none h = (tt, tt)
IsPosting-list_of n (some ds) h = h

list_of-IsPosting :
    (n : ℕ) (p : Option (List DocInvert)) → IsPostingList n (list_of p) → IsPosting n p
list_of-IsPosting n none h = tt
list_of-IsPosting n (some ds) h = h

module _ (inv inv' : Inverter Token DocInvert) (lists : HasLists inv inv') where
  pub IsIndex-HasLists : (n : ℕ) → IsIndex n inv → IsIndex n inv'
  IsIndex-HasLists n h t =
      list_of-IsPosting n (items_of t inv')
        (subst (IsPostingList n) (sym (lists t)) (IsPosting-list_of n (items_of t inv) (h t)))

  has_token-HasLists : (x : ℕ) (t : Bytes) → has_token inv' x t ≡ has_token inv x t
  has_token-HasLists x t =
      in_pointer-list_of x (items_of (make_token t) inv')
      ∙ ap (has_doc x) (lists (make_token t))
      ∙ sym (in_pointer-list_of x (items_of (make_token t) inv))

  allb-HasLists : (x : ℕ) (ts : List Bytes) → allb (has_token inv' x) ts ≡ allb (has_token inv x) ts
  allb-HasLists x [] = refl
  allb-HasLists x (t ∷ ts) = rw (has_token-HasLists x t, allb-HasLists x ts) refl

  matches-HasLists : (x : ℕ) (ts : List Bytes) → matches inv' ts x ≡ matches inv ts x
  matches-HasLists x [] = refl
  matches-HasLists x (t ∷ ts) = rw (has_token-HasLists x t, allb-HasLists x ts) refl

  module _ (summary : List DocAttr) (names : NameMap) (float_to_string : ℕ → Bytes)
      (req : LookaRequest) (tokens : List Bytes) where
    abbrev before : Index
    before = record { inverter = inv; summary = summary; attr_names = names }

    abbrev after : Index
    after = record { inverter = inv'; summary = summary; attr_names = names }

    hits-HasLists :
        (id : ℕ) (attrs : List DocAttr)
        → hits float_to_string after req tokens id attrs
          ≡ hits float_to_string before req tokens id attrs
    hits-HasLists id [] = refl
    hits-HasLists id (a ∷ attrs) =
        rw (matches-HasLists id tokens, hits-HasLists (suc id) attrs) refl

    pub search-HasLists :
        length summary ≤ illegal_local_doc_id
        → IsIndex (length summary) inv
        → All (IsDecided float_to_string before req tokens) summary
        → search float_to_string after req tokens ≡ search float_to_string before req tokens
    search-HasLists few index decided =
        search-hits float_to_string after req tokens (length summary) refl few
          (IsIndex-HasLists (length summary) index) decided
        ∙ ap (λ (h : List DocAttr). ok (length h, page req 0 h)) (hits-HasLists 0 summary)
        ∙ sym
            (search-hits float_to_string before req tokens (length summary) refl few index decided)
