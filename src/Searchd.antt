-- ===== src/Searchd.antt =====
-- src/searchd/looka_searchd.cpp: the answer to a query. The state that `Init` loads does not
-- change while queries run; the lock round the segmenter is left out with it.
pub mod Passes
pub mod Answers
pub mod Capacity
pub mod Indexed
pub mod Names
pub mod Packed
pub mod Packer
pub mod Page
pub mod Process
pub mod Reloaded
pub mod Replies
pub mod Search
pub mod Served
pub mod Startup
use looka.Common.{
  ℕ, zero, suc, ◌+◌, ◌%◌, ◌^◌, List, [], ◌∷◌, ◌++◌, Option, none, some, Bool, true, false, ◌&&◌,
  ◌||◌, if◌then◌else◌, ◌==◌, get_elem?, length, is_empty, map,
}
use looka.Common.Bytes.{Bytes, bytes_beq, contains}
use looka.Common.Int.{ℤ, pos, leℤ, ltℤ, ◌+ℤ◌, wrap_int}
use looka.Common.Result.{Result, ok, fault, stuck, ◌>>=◌, or_fault, or_stuck}
use looka.Attr.{
  DocAttrType, attr_uint, attr_float, attr_multi, attr_string, AttrString, DocAttr, get_string,
}
use looka.Intersect.{LookaIntersect, new_looka_intersect, set_tokens, seek}
use looka.Inverter.{Inverter}
use looka.Request.{Filter, LookaRequest}
use looka.StrUtils.{uint_to_string}
use looka.Types.{DocInvert, Token, illegal_local_doc_id}

-- `std::map<DocAttrType, AttrNames*>`, in the order of the types.
abbrev pub NameMap : Type 0
NameMap = List (DocAttrType × AttrString)

-- The inner loop of `GetAttrNameIndex`, over the `n` indices from `i` on.
unfoldable pub name_index : ℕ → AttrString → Bytes → ℕ → Result (Option ℕ)
unfolding get_string
name_index zero names s i = ok none
name_index (suc n) names s i =
    let rest = name_index n names s (i + 1) in
    do name ← or_fault (get_string names i); if bytes_beq name s then ok (some i) else rest

-- The outer loop, with the type and index found so far: a later table overrides an earlier one.
unfoldable pub type_index :
    NameMap → Bytes → Option (DocAttrType × ℕ) → Result (Option (DocAttrType × ℕ))
unfolding name_index
type_index [] s found = ok found
type_index ((type, names) ∷ m) s found = do
  i ← name_index names.size names s 0
  type_index m s (elim i [ none ↦ found | some idx ↦ some (type, idx) ])

-- `GetAttrNameIndex`: `none` is the result false.
unfoldable pub get_attr_name_index : NameMap → Bytes → Result (Option (DocAttrType × ℕ))
unfolding type_index
get_attr_name_index m s = if is_empty s then ok none else type_index m s none

-- What `Process` reads: the inverter, the summary and the attribute names.
pub record Index : Type 0 where
  pub inverter : Inverter Token DocInvert
  pub summary : List DocAttr
  pub attr_names : NameMap

-- `DropByFilterRange`
unfoldable pub drop_by_filter_range : DocAttr → Filter → Bool
drop_by_filter_range attr filter_range = false

-- `total >= req.offset && total < req.offset + req.limit`, with the sum of two `int`.
unfoldable pub in_page : LookaRequest → ℕ → Bool
in_page req total =
    leℤ req.offset (pos total) && ltℤ (pos total) (wrap_int (req.offset +ℤ req.limit))

-- `printf` with `%f`, on the bit pattern of a float, belongs to the C library.
module _ (float_to_string : ℕ → Bytes) where
  unfoldable pub attr_value : DocAttr → DocAttrType → ℕ → Result Bytes
  unfolding get_string uint_to_string
  attr_value attr attr_uint idx = do
    w ← or_fault (get_elem? attr.u.words idx)
    ok (uint_to_string w)
  attr_value attr attr_float idx = do
    w ← or_fault (get_elem? attr.f.words idx)
    ok (float_to_string w)
  attr_value attr attr_multi idx = do
    w ← or_fault (get_elem? attr.m.words idx)
    ok (uint_to_string w)
  attr_value attr attr_string idx = or_fault (get_string attr.s idx)

  -- `DropByFilter`: it stops at the first key whose attribute has none of the values.
  unfoldable pub drop_by_filter : NameMap → DocAttr → Filter → Result Bool
  unfolding get_attr_name_index attr_value
  drop_by_filter m attr [] = ok false
  drop_by_filter m attr ((key, values) ∷ filter) =
      let rest = drop_by_filter m attr filter in
      do
        found ← get_attr_name_index m key
        elim found [
          | none ↦ rest
          | some (type, idx) ↦ do
            s ← attr_value attr type idx
            if contains s values then rest else ok true
        ]

  -- What the test of the loop and the filters do: the document after `id`, with the next `id` and
  -- whether a filter drops it, or the end of the loop.
  unfoldable pub search_step :
      LookaIntersect → Index → LookaRequest → ℕ → Result (Option (ℕ × DocAttr × Bool))
  unfolding drop_by_filter drop_by_filter_range
  search_step inter index req id = do
    r ← or_stuck (seek inter id)
    elim (r == illegal_local_doc_id) [
      | true ↦ ok none
      | false ↦ do
        attr ← or_fault (get_elem? index.summary r)
        dropped ← drop_by_filter index.attr_names attr req.filter
        ok (some ((r + 1) % 2 ^ 32, attr, dropped || drop_by_filter_range attr req.filter_range))
    ]

  -- `while ((id = inter->Seek(id)) != kIllegalLocalDocID)`: from `id` on, with the count of the
  -- documents found and those on the page so far. The count is an `int`, whose overflow is
  -- undefined: it is below 2 ^ 31 here.
  unfoldable pub search_loop :
      ℕ → LookaIntersect → Index → LookaRequest → ℕ → ℕ → List DocAttr → Result (ℕ × List DocAttr)
  unfolding search_step in_page
  search_loop zero inter index req id total docs = stuck
  search_loop (suc fuel) inter index req id total docs = do
    step ← search_step inter index req id
    elim step [
      | none ↦ ok (total, docs)
      | some (id', attr, dropped) ↦ elim dropped [
        | true ↦ search_loop fuel inter index req id' total docs
        | false ↦
            search_loop fuel inter index req id' (total + 1)
              (if in_page req total then docs ++ (attr ∷ []) else docs)
      ]
    ]

  -- The search of `Process`: each round finds another document, so one round for each document
  -- of the summary and one more are enough.
  unfoldable pub search : Index → LookaRequest → List Bytes → Result (ℕ × List DocAttr)
  unfolding search_loop set_tokens
  search index req strtokens =
      let inter = set_tokens strtokens index.inverter new_looka_intersect in
      search_loop (suc (length index.summary)) inter index req 0 0 []
