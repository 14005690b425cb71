-- ===== src/Searchd/Startup.antt =====
-- `Init` of src/searchd/looka_searchd.cpp: the files of an index, read into the daemon's state.
use looka.Common.{List, [], ◌∷◌, Option, none, some}
use looka.Common.Bytes.{Bytes}
use looka.Common.Result.{Result, ok, ◌>>=◌}
use looka.Attr.{AttrWords, AttrString, DocAttr, attr_uint, attr_float, attr_multi, attr_string}
use looka.File.{read_index_from_file}
use looka.File.Summary.{Loading, Slots, NameTables, SummaryFiles, read_summary_from_file}
use looka.Inverter.{Inverter, new_inverter}
use looka.Searchd.{NameMap, Index}
use looka.Types.{DocInvert, Token, token_eq}

-- What the daemon has loaded.
pub record State : Type 0 where
  pub m_inverter : Inverter Token DocInvert
  pub m_attr_names : NameTables
  pub m_summary : Slots

-- The constructor's empty inverter and summary, and its null pointers to name tables.
abbrev pub new_state : State
new_state = record {
  m_inverter = new_inverter;
  m_attr_names = record { uint = none; float = none; multi = none; string = none };
  m_summary = [];
}

-- `Init`, with the contents of the files: `none` for one that does not open. What the readers
-- report is not looked at.
unfoldable pub init : Option Bytes → SummaryFiles → State → Result State
unfolding read_index_from_file read_summary_from_file
init index_file files st = do
  i ← read_index_from_file index_file st.m_inverter
  s ← read_summary_from_file files st.m_attr_names st.m_summary
  ok (record { m_inverter = i.1; m_attr_names = s.1; m_summary = s.2 })

-- What stands behind a `DocAttr` pointer and its members, if none of them is null.
abbrev pub whole_attr : Option Loading → Option DocAttr
whole_attr none = none
whole_attr (some a) = whole a.u a.f a.m a.s
  where
    whole :
        Option AttrWords → Option AttrWords → Option AttrWords → Option AttrString → Option DocAttr
    whole (some u) (some f) (some m) (some s) = some (record { u = u; f = f; m = m; s = s })
    whole (some u) (some f) (some m) none = none
    whole (some u) (some f) none s = none
    whole (some u) none m s = none
    whole none f m s = none

unfoldable pub whole_summary : Slots → Option (List DocAttr)
whole_summary [] = some []
whole_summary (a ∷ slots) = both (whole_attr a) (whole_summary slots)
  where
    both : Option DocAttr → Option (List DocAttr) → Option (List DocAttr)
    both none ds = none
    both (some d) none = none
    both (some d) (some ds) = some (d ∷ ds)

-- The map of name tables, as `Process` goes through it.
unfoldable pub whole_names : NameTables → Option NameMap
whole_names t = whole t.uint t.float t.multi t.string
  where
    whole :
        Option AttrString
        → Option AttrString
        → Option AttrString
        → Option AttrString
        → Option NameMap
    whole (some u) (some f) (some m) (some s) =
        some ((attr_uint, u) ∷ (attr_float, f) ∷ (attr_multi, m) ∷ (attr_string, s) ∷ [])
    whole (some u) (some f) (some m) none = none
    whole (some u) (some f) none s = none
    whole (some u) none m s = none
    whole none f m s = none

-- The state that `Process` reads, if no pointer in it is null.
unfoldable pub ready : State → Option Index
unfolding whole_summary whole_names
ready st = elim (whole_summary st.m_summary) [
  | none ↦ none
  | some summary ↦ elim (whole_names st.m_attr_names) [
    | none ↦ none
    | some names ↦ some (record { inverter = st.m_inverter; summary = summary; attr_names = names })
  ]
]
