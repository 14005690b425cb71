-- ===== src/Attr/Strings.antt =====
-- `GetString` reads back the strings that `CreateAttrNames` laid out.
use mathlib.Core.Path.{subst}
use mathlib.Core.List.{append_assoc}
use native.Mathlib.Decide.{dec_lt}
use looka.Common.{
  ℕ, zero, suc, ◌+◌, ◌*◌, ◌%◌, ◌^◌, ◌≤◌, ◌<◌, List, [], ◌∷◌, ◌++◌, some, length, drop, get_or, All,
  Bool, if◌then◌else◌, ◌≡◌, refl, sym, ap, ◌∙◌, arith, length-append, lt→ltb,
}
use looka.Common.Bytes.{Bytes}
use looka.Words.{slice, slice-append}
use looka.Attr.{
  AttrString, len_at, string_pos, get_string, len_words, string_area, add_lengths, alloc_size,
  create_attr_names,
}
use looka.Attr.Layout.{
  area_size, length-len_words, length-string_area, string_area-append, len_at-len_words,
  string_pos-area_size,
}

-- A list at one of its positions.
record SplitAt (xs : List Bytes) (i : ℕ) : Type 0 where
  before : List Bytes
  here : Bytes
  behind : List Bytes
  splits : xs ≡ before ++ (here ∷ behind)
  place : i ≡ length before
  get_or_here : get_or xs i [] ≡ here

split_at : (xs : List Bytes) (i : ℕ) → i < length xs → SplitAt xs i
split_at [] i h = absurd (omega arith)
split_at (x ∷ xs) zero h = record {
  before = [];
  here = x;
  behind = xs;
  splits = refl;
  place = refl;
  get_or_here = refl;
}
split_at (x ∷ xs) (suc i) h =
    let r = split_at xs i (omega arith) in
    record {
      before = x ∷ r.before;
      here = r.here;
      behind = r.behind;
      splits = ap (◌∷◌ x) r.splits;
      place = omega (arith, r.place);
      get_or_here = r.get_or_here;
    }

-- The strings of a table: at most 255, and the size of the object that holds them, which the code
-- adds up in an `int` (`sizeof(AttrString)` is 4), is below 2 ^ 31.
abbrev pub Fits : List Bytes → Type 0
Fits attrs =
    (length attrs < 256)
    × All (λ s. length s < 2 ^ 32) attrs
    × (4 + 4 * length attrs + area_size attrs < 2 ^ 31)

add_lengths-area_size : (ss : List Bytes) (n : ℕ) → add_lengths ss n ≡ n + area_size ss
unfolding add_lengths
add_lengths-area_size [] n = omega arith
add_lengths-area_size (s ∷ ss) n = omega (arith, add_lengths-area_size ss (n + (length s + 1)))

-- The object of some strings.
abbrev pub table_of : List Bytes → Bytes → AttrString
table_of attrs junk = record {
  size = length attrs % 256;
  mem = len_words attrs ++ string_area attrs junk;
}

pub create_attr_names-table_of :
    (attrs : List Bytes) (junk : Bytes)
    → 4 + 4 * length attrs + area_size attrs < 2 ^ 31
    → create_attr_names attrs junk ≡ table_of attrs junk
unfolding create_attr_names alloc_size
create_attr_names-table_of attrs junk small =
    let sum = add_lengths-area_size attrs (4 + 4 * length attrs) in
    let inside : add_lengths attrs (4 + 4 * length attrs) < 2 ^ 31 = omega (arith, sum, small) in
    ap
      (λ (b : Bool). record {
        size = length attrs % 256;
        mem = if b then len_words attrs ++ string_area attrs junk else [];
      })
      (lt→ltb _ _ inside)

get_string-parts :
    (a : AttrString) (idx pos l : ℕ)
    → idx < a.size
    → string_pos idx a.mem 0 (4 * a.size) ≡ some pos
    → len_at a.mem idx ≡ some l
    → get_string a idx ≡ slice a.mem pos l
unfolding get_string
get_string-parts a idx pos l h e f = rw (lt→ltb idx a.size h, e, f) refl

get_string_past : (a : AttrString) (idx : ℕ) → a.size ≤ idx → get_string a idx ≡ some []
unfolding get_string
get_string_past a idx h = ground arith

area_size-append : (xs ys : List Bytes) → area_size (xs ++ ys) ≡ area_size xs + area_size ys
area_size-append [] ys = omega arith
area_size-append (x ∷ xs) ys = omega (arith, area_size-append xs ys)

All-split :
    (xs ys : List Bytes)
    → All (λ s. length s < 2 ^ 32) (xs ++ ys)
    → All (λ s. length s < 2 ^ 32) xs × All (λ s. length s < 2 ^ 32) ys
All-split [] ys h = (tt, h)
All-split (x ∷ xs) ys h = let (p, q) = All-split xs ys h.1 in ((h.0, p), q)

string_area_cons :
    (s : Bytes) (behind : List Bytes) (junk : Bytes)
    → (rest : Bytes) × (string_area (s ∷ behind) junk ≡ s ++ rest)
unfolding string_area
string_area_cons s behind [] = (0 ∷ string_area behind [], refl)
string_area_cons s behind (j ∷ junk) = (j ∷ string_area behind junk, refl)

module _ (before : List Bytes) (s : Bytes) (behind : List Bytes) (junk : Bytes) where
  abbrev strings : List Bytes
  strings = before ++ (s ∷ behind)

  abbrev mem : Bytes
  mem = len_words strings ++ string_area strings junk

  mem-string :
      (rest : Bytes)
      → string_area (s ∷ behind) (drop (length before) junk) ≡ s ++ rest
      → mem ≡ (len_words strings ++ string_area before junk) ++ (s ++ rest)
  mem-string rest e =
      ap (◌++◌ (len_words strings))
        (string_area-append before (s ∷ behind) junk ∙ ap (◌++◌ (string_area before junk)) e)
      ∙ sym (append_assoc (len_words strings) (string_area before junk) (s ++ rest))

  slice-mem : slice mem (4 * length strings + area_size before) (length s) ≡ some s
  slice-mem =
      let (rest, e) = string_area_cons s behind (drop (length before) junk) in
      ap (λ m. slice m (4 * length strings + area_size before) (length s)) (mem-string rest e)
      ∙ slice-append (len_words strings ++ string_area before junk) s rest
          (4 * length strings + area_size before) (length s)
          (omega (
            arith,
            length-append (len_words strings) (string_area before junk),
            length-len_words strings,
            length-string_area before junk,
          ))
          refl

  get_string-here :
      Fits strings → get_string (create_attr_names strings junk) (length before) ≡ some s
  get_string-here (few, short, small) =
      let split = All-split before (s ∷ behind) short in
      let size_eq : length strings % 256 ≡ length strings = omega arith in
      let len_eq = length-append before (s ∷ behind) in
      let area_eq = area_size-append before (s ∷ behind) in
      ap (λ a. get_string a (length before)) (create_attr_names-table_of strings junk small)
      ∙ get_string-parts (table_of strings junk) (length before)
          (4 * length strings + area_size before) (length s) (omega (arith, len_eq))
          (ap (λ k. string_pos (length before) mem 0 (4 * k)) size_eq
            ∙ string_pos-area_size [] before (s ∷ behind) (string_area strings junk) 0
                (4 * length strings) refl split.0 (omega (arith, area_eq)))
          (len_at-len_words before s behind (string_area strings junk) split.1.0)
      ∙ slice-mem

-- `GetString(i)` on a table that `CreateAttrNames` made returns string `i`, and the empty string
-- past the last one, whatever bytes `malloc` left between the strings, if there are at most 255
-- strings and the object that holds them has fewer than 2 ^ 31 bytes.
pub get_string-create_attr_names :
    (attrs : List Bytes) (junk : Bytes) (i : ℕ)
    → Fits attrs
    → get_string (create_attr_names attrs junk) i ≡ some (get_or attrs i [])
get_string-create_attr_names attrs junk i fits = elim (dec_lt i (length attrs)) [
  | yes h ↦
      let r = split_at attrs i h in
      subst (λ xs. get_string (create_attr_names xs junk) i ≡ some (get_or attrs i []))
        (sym r.splits)
        (ap (get_string (create_attr_names (r.before ++ (r.here ∷ r.behind)) junk)) r.place
          ∙ get_string-here r.before r.here r.behind junk (subst Fits r.splits fits)
          ∙ ap some (sym r.get_or_here))
  | no h ↦ get_string_past _ i (past i h) ∙ ap some (sym (get_or_past attrs i (omega arith)))
]
  where
    past : (i : ℕ) → ¬ (i < length attrs) → (create_attr_names attrs junk).size ≤ i
    past i h = unfold create_attr_names in omega arith

    get_or_past : (xs : List Bytes) (i : ℕ) → length xs ≤ i → get_or xs i [] ≡ []
    get_or_past [] i h = refl
    get_or_past (x ∷ xs) zero h = absurd (omega arith)
    get_or_past (x ∷ xs) (suc i) h = get_or_past xs i (omega arith)
