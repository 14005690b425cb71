-- ===== src/Config.antt =====
-- src/looka_config_parser.cpp: LookaConfigParser, from the text of a configuration file to its
-- sections and their items. The map is an association list in the order of its keys.
pub mod Sources
pub mod Lookup
use looka.Common.{
  ℕ, suc, ◌+◌, ◌-◌, List, [], ◌∷◌, ◌++◌, Option, none, some, Bool, true, false, not, ◌&&◌, ◌||◌,
  if◌then◌else◌, ◌==◌, length, map, take, drop, is_empty, get_or,
}
use Prim.Native.Nat.{min}
use looka.Common.Bytes.{Bytes, codes, bytes_beq, contains, find_char, find, count}
use looka.Common.Int.{ℤ}
use looka.Common.Result.{Result, ok, fault, ◌>>=◌}
use looka.Request.{bytes_ltb}
use looka.StrUtils.{trim_by, to_lower, atoi}

-- `SectionHead` and `SectionInfo`
pub record SectionHead : Type 0 where
  pub name : Bytes
  pub parent : Bytes

pub record SectionInfo : Type 0 where
  pub head : SectionHead
  pub conf : Bytes

-- `m_sec_info`
abbrev pub Sections : Type 0
Sections = List (Bytes × List SectionInfo)

unfoldable pub is_space : ℕ → Bool
is_space c = c == b' ' || c == b'\t' || c == b'\r' || c == b'\n'

-- `Trim`
unfoldable pub trim : Bytes → Bytes
unfolding trim_by is_space
trim s = trim_by is_space s

unfoldable pub del_comment : Bytes → Bytes
del_comment s = elim (find_char b'#' s) [
  | none ↦ elim (find (codes "//") s) [ none ↦ s | some j ↦ take j s ]
  | some i ↦ elim (find (codes "//") s) [ none ↦ take i s | some j ↦ take (min i j) s ]
]

-- `IsEmphasize`: either quotation mark.
unfoldable pub is_emphasize : ℕ → Bool
is_emphasize c = c == 39 || c == 34

-- `s[0]` of an empty string is a zero.
unfoldable pub remove_emphasize : Bytes → Bytes
unfolding is_emphasize
remove_emphasize [] = []
remove_emphasize (c ∷ cs) =
    let last = get_or (c ∷ cs) (length cs) 0 in
    if is_emphasize c && is_emphasize last && (c == last) then take (length cs - 1) cs else c ∷ cs

-- `AnalyseItem`: the item and its value; `none` is the result false.
unfoldable pub analyse_item : Bytes → Option (Bytes × Bytes)
unfolding del_comment trim remove_emphasize
analyse_item line =
    let new_line = trim (del_comment line) in
    if is_empty line then none else elim (find_char b'=' new_line) [
      | none ↦ none
      | some pos ↦
          let item = remove_emphasize (trim (take pos new_line)) in
          if is_empty item
          then none
          else some (item, remove_emphasize (trim (drop (pos + 1) new_line)))
    ]

-- The lines that `getline` yields.
unfoldable pub lines_of : Bytes → List Bytes
lines_of [] = []
lines_of (c ∷ cs) = let rest = lines_of cs in if c == b'\n' then [] ∷ rest else onto c rest
  where
    onto : ℕ → List Bytes → List Bytes
    onto c [] = (c ∷ []) ∷ []
    onto c (l ∷ ls) = (c ∷ l) ∷ ls

unfoldable pub has_space : Bytes → Bool
unfolding is_space
has_space [] = false
has_space (c ∷ cs) = is_space c || has_space cs

-- The index of the first space, or the length.
unfoldable pub space_pos : Bytes → ℕ
unfolding is_space
space_pos [] = 0
space_pos (c ∷ cs) = if is_space c then 0 else suc (space_pos cs)

-- The name and the parent in the rest of a head; `none` is the error.
unfoldable pub head_info : Bytes → Option SectionHead
unfolding trim
head_info info =
    if is_empty info then some (record { name = []; parent = [] }) else elim (find_char b':' info) [
      | none ↦ some (record { name = trim info; parent = [] })
      | some pos ↦
          let name = trim (take pos info) in
          let parent = trim (drop (pos + 1) info) in
          if is_empty name || is_empty parent
          then none
          else some (record { name = name; parent = parent })
    ]

-- `ParseSectionHead`: the tag, the name and the parent; `none` is the result -1. A head without
-- a space makes `substr(pos + 1)` throw.
unfoldable pub parse_section_head : Bytes → Result (Option (Bytes × SectionHead))
unfolding space_pos trim head_info has_space
parse_section_head sec_head =
    let pos = space_pos sec_head in
    let tag = trim (take pos sec_head) in
    if pos == length sec_head
    then fault
    else if is_empty tag
    then ok none
    else ok (checked tag (head_info (trim (drop (pos + 1) sec_head))))
  where
    checked : Bytes → Option SectionHead → Option (Bytes × SectionHead)
    checked tag none = none
    checked tag (some h) = if has_space h.name || has_space h.parent then none else some (tag, h)

-- `m_sec_info.find(secTag)`
unfoldable pub find_tag : Bytes → Sections → Option (List SectionInfo)
find_tag tag [] = none
find_tag tag ((t, infos) ∷ m) = if bytes_beq t tag then some infos else find_tag tag m

-- A new tag's place is in the order of the keys; a present tag's sections are replaced.
unfoldable pub put_tag : Bytes → List SectionInfo → Sections → Sections
unfolding bytes_ltb
put_tag tag infos [] = (tag, infos) ∷ []
put_tag tag infos ((t, old) ∷ m) =
    if bytes_beq t tag
    then (t, infos) ∷ m
    else if bytes_ltb tag t
    then (tag, infos) ∷ (t, old) ∷ m
    else (t, old) ∷ put_tag tag infos m

abbrev pub names_of : List SectionInfo → List Bytes
names_of [] = []
names_of (i ∷ is) = i.head.name ∷ names_of is

-- `secInfo.conf = secInfo.conf + vInfo[i].conf` for each section named as the parent.
unfoldable pub inherit : Bytes → List SectionInfo → Bytes → Bytes
inherit parent [] conf = conf
inherit parent (i ∷ is) conf =
    inherit parent is (if bytes_beq i.head.name parent then conf ++ i.conf else conf)

-- The second half of `ParseSectionConfig`: the section is entered into the map. The parent is
-- looked for only if the tag has sections already.
unfoldable pub add_section : Bytes → SectionInfo → Sections → Option Sections
unfolding find_tag put_tag inherit
add_section tag info m = elim (find_tag tag m) [
  | none ↦ some (put_tag tag (info ∷ []) m)
  | some infos ↦
      let parent = info.head.parent in
      let whole = record info { conf = inherit parent infos info.conf } in
      if contains info.head.name (names_of infos)
      then none
      else if is_empty parent
      then some (put_tag tag (infos ++ (info ∷ [])) m)
      else if contains parent (names_of infos)
      then some (put_tag tag (infos ++ (whole ∷ [])) m)
      else none
]

-- `ParseSectionConfig`: `none` is the result -1, which leaves the map alone.
unfoldable pub parse_section_config : Bytes → Sections → Result (Option Sections)
unfolding parse_section_head add_section
parse_section_config sec m = elim (find_char b'{' sec) [
  | none ↦ ok none
  | some first ↦ elim (find_char b'}' sec) [
    | none ↦ ok none
    | some last ↦
        let conf = take (last - first - 1) (drop (first + 1) sec) in
        let entered = (do
          h ← parse_section_head (take first sec)
          elim h [
            | none ↦ ok none
            | some (tag, head) ↦
                if is_empty conf
                then ok none
                else ok (add_section tag (record { head = head; conf = conf }) m)
          ]) in
        if not (last + 1 == length sec && count b'{' sec == 1 && count b'}' sec == 1)
        then ok none
        else if first == 0
        then ok none
        else entered
  ]
]

-- `ParsePureConfig`: `sec` is the text since the last section's end. The result says whether all
-- sections were read, and has the map up to there.
unfoldable pub parse_pure_config : Bytes → Bytes → Sections → Result (Bool × Sections)
unfolding trim parse_section_config
parse_pure_config sec [] m = ok (true, m)
parse_pure_config sec (c ∷ cs) m =
    if c == b'}'
    then (do
      r ← parse_section_config (trim (sec ++ (c ∷ []))) m
      elim r [ none ↦ ok (false, m) | some m' ↦ parse_pure_config [] cs m' ])
    else parse_pure_config (sec ++ (c ∷ [])) cs m

-- The lines without comments and surrounding space, each that is not empty with a newline.
unfoldable pub pure_text : List Bytes → Bytes
unfolding del_comment trim
pure_text [] = []
pure_text (l ∷ ls) =
    let line = trim (del_comment l) in
    if is_empty line then pure_text ls else line ++ (b'\n' ∷ pure_text ls)

-- `LoadConfig`: a file that does not open is `none`; the result says whether it is 0.
unfoldable pub load_config : Option Bytes → Sections → Result (Bool × Sections)
unfolding pure_text lines_of parse_pure_config
load_config none m = ok (false, m)
load_config (some text) m = parse_pure_config [] (pure_text (lines_of text)) m

-- `GetSectionTags`
unfoldable pub get_section_tags : Sections → List Bytes
get_section_tags m = map (λ e. e.0) m

-- `GetSectionNames`
unfoldable pub get_section_names : Bytes → Sections → List Bytes
get_section_names tag [] = []
get_section_names tag ((t, infos) ∷ m) =
    let rest = get_section_names tag m in if bytes_beq t tag then names_of infos ++ rest else rest

unfoldable pub first_conf : Bytes → List SectionInfo → Bytes
first_conf name [] = []
first_conf name (i ∷ is) = if bytes_beq i.head.name name then i.conf else first_conf name is

-- `GetSectionConf`: `none` is the end of the process.
unfoldable pub get_section_conf : Bytes → Bytes → Sections → Option Bytes
unfolding get_section_tags get_section_names find_tag first_conf
get_section_conf tag name m =
    if contains tag (get_section_tags m) && contains name (get_section_names tag m)
    then elim (find_tag tag m) [ none ↦ some [] | some infos ↦ some (first_conf name infos) ]
    else none

-- The values of the lines that have the item, the first line first.
unfoldable pub item_values : Bytes → List Bytes → List Bytes
unfolding analyse_item
item_values item [] = []
item_values item (l ∷ ls) =
    let rest = item_values item ls in
    elim (analyse_item l) [
      | none ↦ rest
      | some (i, v) ↦ if bytes_beq (to_lower item) (to_lower i) then v ∷ rest else rest
    ]

-- `ReadString` stops at the first such line, and returns the empty string without one.
unfoldable pub read_string : Bytes → Bytes → Bytes → Sections → Option Bytes
unfolding get_section_conf lines_of item_values
read_string tag name item m = elim (get_section_conf tag name m) [
  | none ↦ none
  | some conf ↦ some (get_or (item_values item (lines_of conf)) 0 [])
]

-- `ReadStringV` and `GetStringV`
unfoldable pub get_string_v : Bytes → Bytes → Bytes → Sections → Option (List Bytes)
unfolding get_section_conf lines_of item_values
get_string_v tag name item m = elim (get_section_conf tag name m) [
  | none ↦ none
  | some conf ↦ some (item_values item (lines_of conf))
]

-- `GetString`
unfoldable pub get_string : Bytes → Bytes → Bytes → Bytes → Sections → Option Bytes
unfolding read_string
get_string tag name item default m = elim (read_string tag name item m) [
  | none ↦ none
  | some r ↦ some (if is_empty r then default else r)
]

-- `GetInt`
unfoldable pub get_int : Bytes → Bytes → Bytes → ℤ → Sections → Option ℤ
unfolding read_string atoi
get_int tag name item default m = elim (read_string tag name item m) [
  | none ↦ none
  | some s ↦ some (if is_empty s then default else atoi s)
]
