-- ===== src/Config/Lookup.antt =====
-- A section that is entered into the map, and how it is found again.
use mathlib.Core.List.{append-nil, append_assoc}
use looka.Common.{
  List, [], ◌∷◌, ◌++◌, Option, none, some, Bool, true, false, ◌||◌, if◌then◌else◌, is_empty, ◌≡◌,
  refl, sym, ◌∙◌, arith, Option-cases, Bool-cases, inl, inr,
}
use looka.Common.Bytes.{Bytes, bytes_beq, bytes_beq_iff, bytes_beq_refl, contains}
use looka.Config.{
  Sections, SectionInfo, find_tag, put_tag, names_of, inherit, add_section, get_section_tags,
  get_section_names, first_conf, get_section_conf,
}

-- The sections that a tag has.
abbrev pub infos_of : Option (List SectionInfo) → List SectionInfo
infos_of none = []
infos_of (some infos) = infos

abbrev is_missing : Option (List SectionInfo) → Bool
is_missing none = true
is_missing (some infos) = false

-- The name is new under its tag, and a parent, if the section has one and the tag has sections,
-- is one of them.
unfoldable pub IsAccepted : Bytes → SectionInfo → Sections → Type 0
IsAccepted tag info m =
    (contains info.head.name (names_of (infos_of (find_tag tag m))) ≡ false)
    × ((is_missing (find_tag tag m)
          || is_empty info.head.parent
          || contains info.head.parent (names_of (infos_of (find_tag tag m))))
        ≡ true)

-- The texts of the sections that have a name, in turn.
abbrev pub texts_of : Bytes → List SectionInfo → Bytes
texts_of name [] = []
texts_of name (i ∷ is) =
    if bytes_beq i.head.name name then i.conf ++ texts_of name is else texts_of name is

inherit-texts_of :
    (parent : Bytes) (infos : List SectionInfo) (conf : Bytes)
    → inherit parent infos conf ≡ conf ++ texts_of parent infos
unfolding inherit
inherit-texts_of parent [] conf = sym (append-nil conf)
inherit-texts_of parent (i ∷ is) conf = elim (Bool-cases (bytes_beq i.head.name parent)) [
  | inl same ↦
      rw (same) (
        inherit-texts_of parent is (conf ++ i.conf) ∙ append_assoc conf i.conf (texts_of parent is))
  | inr other ↦ rw (other) (inherit-texts_of parent is conf)
]

-- The section's own text, and behind it that of the parent, if it names one.
unfoldable pub whole_conf : SectionInfo → List SectionInfo → Bytes
whole_conf info infos =
    if is_empty info.head.parent then info.conf else info.conf ++ texts_of info.head.parent infos

unfoldable pub whole_info : SectionInfo → List SectionInfo → SectionInfo
unfolding whole_conf
whole_info info infos = record info { conf = whole_conf info infos }

whole_conf_nil : (info : SectionInfo) → whole_conf info [] ≡ info.conf
unfolding whole_conf
whole_conf_nil info = ground (arith, append-nil info.conf)

find_tag-put_tag :
    (k tag : Bytes) (infos : List SectionInfo) (m : Sections)
    → find_tag k (put_tag tag infos m) ≡ (if bytes_beq tag k then some infos else find_tag k m)
unfolding find_tag put_tag
find_tag-put_tag k tag infos [] = refl
find_tag-put_tag k tag infos ((t, old) ∷ m) = ground (
  arith,
  find_tag-put_tag k tag infos m,
  bytes_beq_iff t tag,
  bytes_beq_iff tag k,
  bytes_beq_iff t k,
)

add_section-IsAccepted :
    (tag : Bytes) (info : SectionInfo) (m : Sections)
    → IsAccepted tag info m
    → add_section tag info m
      ≡ some (
          put_tag tag
            (infos_of (find_tag tag m) ++ (whole_info info (infos_of (find_tag tag m)) ∷ []))
            m)
unfolding add_section IsAccepted whole_info
add_section-IsAccepted tag info m h = elim (Option-cases (find_tag tag m)) [
  | inl missing ↦ rw (missing) (ground (arith, missing, whole_conf_nil info))
  | inr (infos, there) ↦
      ground (arith, there, h.0, h.1, inherit-texts_of info.head.parent infos info.conf)
]

contains-get_section_tags :
    (tag : Bytes) (infos : List SectionInfo) (m : Sections)
    → find_tag tag m ≡ some infos
    → contains tag (get_section_tags m) ≡ true
unfolding find_tag get_section_tags
contains-get_section_tags tag infos [] h = ground (arith, h)
contains-get_section_tags tag infos ((t, old) ∷ m) h =
    ground (arith, h, contains-get_section_tags tag infos m)

contains-append :
    (s : Bytes) (xs ys : List Bytes) → contains s (xs ++ ys) ≡ (contains s xs || contains s ys)
contains-append s [] ys = refl
contains-append s (x ∷ xs) ys = ground (arith, contains-append s xs ys)

contains-get_section_names :
    (tag name : Bytes) (infos : List SectionInfo) (m : Sections)
    → find_tag tag m ≡ some infos
    → contains name (names_of infos) ≡ true
    → contains name (get_section_names tag m) ≡ true
unfolding find_tag get_section_names
contains-get_section_names tag name infos [] h n = ground (arith, h)
contains-get_section_names tag name infos ((t, old) ∷ m) h n = ground (
  arith,
  contains-append name (names_of old) (get_section_names tag m),
  contains-get_section_names tag name infos m,
)

first_conf-append :
    (info : SectionInfo) (infos : List SectionInfo)
    → contains info.head.name (names_of infos) ≡ false
    → first_conf info.head.name (infos ++ (info ∷ [])) ≡ info.conf
unfolding first_conf
first_conf-append info [] h = ground (arith, bytes_beq_refl info.head.name)
first_conf-append info (i ∷ is) h = ground (arith, h, first_conf-append info is)

contains-names_of :
    (info : SectionInfo) (infos : List SectionInfo)
    → contains info.head.name (names_of (infos ++ (info ∷ []))) ≡ true
contains-names_of info [] = ground (arith, bytes_beq_refl info.head.name)
contains-names_of info (i ∷ is) = ground (arith, contains-names_of info is)

get_section_conf-put_tag :
    (tag : Bytes) (info : SectionInfo) (infos : List SectionInfo) (m : Sections)
    → contains info.head.name (names_of infos) ≡ false
    → get_section_conf tag info.head.name (put_tag tag (infos ++ (info ∷ [])) m) ≡ some info.conf
unfolding get_section_conf
get_section_conf-put_tag tag info infos m fresh =
    let all = infos ++ (info ∷ []) in
    let there : find_tag tag (put_tag tag all m) ≡ some all =
      find_tag-put_tag tag tag all m ∙ rw (bytes_beq_refl tag) refl in
    rw
      (
        contains-get_section_tags tag all (put_tag tag all m) there,
        contains-get_section_names tag info.head.name all (put_tag tag all m) there
            (contains-names_of info infos),
        there,
        first_conf-append info infos fresh,
      )
      refl

-- A section whose name is new under its tag, and whose parent, if it names one and the tag has
-- sections already, is one of them, is entered. `GetSectionConf` then finds, under its tag and
-- name, its text with the parent's behind it, and the sections of every other tag are as before.
pub get_section_conf-add_section :
    (tag : Bytes) (info : SectionInfo) (m : Sections)
    → IsAccepted tag info m
    → (m' : Sections) × (add_section tag info m ≡ some m')
      × (get_section_conf tag info.head.name m'
          ≡ some (whole_conf info (infos_of (find_tag tag m))))
      × ((k : Bytes) → bytes_beq tag k ≡ false → find_tag k m' ≡ find_tag k m)
unfolding IsAccepted
get_section_conf-add_section tag info m h = (
  put_tag tag (infos ++ (whole_info info infos ∷ [])) m,
  add_section-IsAccepted tag info m h,
  unfold whole_info in get_section_conf-put_tag tag (whole_info info infos) infos m h.0,
  λ k other. find_tag-put_tag k tag (infos ++ (whole_info info infos ∷ [])) m ∙ rw (other) refl,
)
  where
    infos : List SectionInfo
    infos = infos_of (find_tag tag m)
