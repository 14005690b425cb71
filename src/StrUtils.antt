-- ===== src/StrUtils.antt =====
-- src/looka_string_utils.cpp: trimming, splitting and the decimal forms of numbers. The encoding
-- for URLs is in the child Url.
pub mod Printf
pub mod Trim
pub mod Split
pub mod Numbers
pub mod Url
use looka.Common.{
  ℕ, zero, suc, ◌+◌, ◌-◌, ◌*◌, ◌/◌, ◌%◌, ◌^◌, List, [], ◌∷◌, ◌++◌, Option, none, some, Bool, true,
  false, not, ◌&&◌, ◌||◌, if◌then◌else◌, ◌==◌, leb, ltb, map, is_empty, take, drop, length,
}
use looka.Common.Bytes.{Bytes, find_char, find, contains, to_lower_char}
use looka.Common.Int.{ℤ, pos, negsuc, wrap_int}

-- Loops of the form `for (it=begin; it!=end && p(*it++);); erase(begin, --it);`: the last byte
-- stays whatever it is. On an empty string the code decrements `begin()`; its callers do not
-- pass one.
unfoldable pub ltrim_by : (ℕ → Bool) → Bytes → Bytes
ltrim_by p [] = []
ltrim_by p (x ∷ []) = x ∷ []
ltrim_by p (x ∷ y ∷ s) = if p x then ltrim_by p (y ∷ s) else x ∷ y ∷ s

-- What is left of a string without the bytes of `p` at its end.
unfoldable pub drop_end : (ℕ → Bool) → Bytes → Bytes
drop_end p [] = []
drop_end p (x ∷ s) = let r = drop_end p s in if is_empty r && p x then [] else x ∷ r

-- The mirror image, `for (it=end; it!=begin && p(*--it);); erase(++it, end);`: the first byte
-- stays whatever it is.
unfoldable pub rtrim_by : (ℕ → Bool) → Bytes → Bytes
unfolding drop_end
rtrim_by p [] = []
rtrim_by p (x ∷ s) = x ∷ drop_end p s

-- `Trim` of the config parser, the segmenter and the HTTP parser, which differ in `p` alone.
unfoldable pub trim_by : (ℕ → Bool) → Bytes → Bytes
unfolding ltrim_by rtrim_by
trim_by p s = if is_empty s then s else rtrim_by p (ltrim_by p s)

-- `ltrimc`, `rtrimc` and `trimc` with one character, and with a set of them.
unfoldable pub ltrimc : Bytes → ℕ → Bytes
unfolding ltrim_by
ltrimc s c = ltrim_by (λ x. c == x) s

unfoldable pub rtrimc : Bytes → ℕ → Bytes
unfolding rtrim_by
rtrimc s c = rtrim_by (λ x. c == x) s

unfoldable pub trimc : Bytes → ℕ → Bytes
unfolding ltrimc rtrimc
trimc s c = ltrimc (rtrimc s c) c

has_char : Bytes → ℕ → Bool
has_char cs x = elim (find_char x cs) [ none ↦ false | some _ ↦ true ]

unfoldable pub ltrimc_set : Bytes → Bytes → Bytes
unfolding ltrim_by has_char
ltrimc_set s cs = ltrim_by (has_char cs) s

unfoldable pub rtrimc_set : Bytes → Bytes → Bytes
unfolding rtrim_by has_char
rtrimc_set s cs = rtrim_by (has_char cs) s

unfoldable pub trimc_set : Bytes → Bytes → Bytes
unfolding ltrimc_set rtrimc_set
trimc_set s cs = ltrimc_set (rtrimc_set s cs) cs

-- `std::isspace` in the C locale.
unfoldable pub isspace : ℕ → Bool
isspace c = c == b' ' || (leb 9 c && leb c 13)

unfoldable pub drop_while : (ℕ → Bool) → Bytes → Bytes
drop_while p [] = []
drop_while p (x ∷ s) = if p x then drop_while p s else x ∷ s

-- `ltrim`, `rtrim` and `trim`, by `std::find_if`.
unfoldable pub ltrim : Bytes → Bytes
unfolding drop_while isspace
ltrim s = drop_while isspace s

unfoldable pub rtrim : Bytes → Bytes
unfolding drop_end isspace
rtrim s = drop_end isspace s

unfoldable pub trim : Bytes → Bytes
unfolding ltrim rtrim
trim s = ltrim (rtrim s)

unfoldable pub quotstr : Bytes → ℕ → Bytes
quotstr s c = c ∷ (s ++ (c ∷ []))

-- `replace` runs on while `find_s` occurs; `none` says that the fuel ran out.
unfoldable pub replace : ℕ → Bytes → Bytes → Bytes → Option Bytes
replace zero s find_s replace_s = none
replace (suc fuel) s find_s replace_s = elim (find find_s s) [
  | none ↦ some s
  | some at ↦
      replace fuel (take at s ++ (replace_s ++ drop (at + length find_s) s)) find_s replace_s
]

-- `strfind`
unfoldable pub strfind : Bytes → Bytes → Bool
strfind s f = elim (find f s) [ none ↦ false | some _ ↦ true ]

-- The loop of `splitString`, which ends at a NUL byte as at the end of the string; `cur` is what
-- lies between `a` and `b`.
unfoldable pub split_loop : ℕ → Bytes → Bytes → List Bytes
unfolding trim
split_loop ch cur [] = if is_empty cur then [] else trim cur ∷ []
split_loop ch cur (c ∷ s) =
    let last = if is_empty cur then [] else trim cur ∷ [] in
    let cut = trim cur ∷ split_loop ch [] s in
    let more = split_loop ch (cur ++ (c ∷ [])) s in
    if c == 0 then last else if c == ch then cut else more

unfoldable pub split_string : Bytes → ℕ → List Bytes
unfolding split_loop
split_string s ch = split_loop ch [] s

-- `xsplit`: `none` is the result -1, `some (out1, out2)` the result 0.
unfoldable pub xsplit : Bytes → ℕ → Option (Bytes × Bytes)
xsplit s sep = elim (find_char sep s) [ none ↦ none | some at ↦ some (take at s, drop (at + 1) s) ]

abbrev pub to_lower : Bytes → Bytes
to_lower = map to_lower_char

abbrev to_upper_char : ℕ → ℕ
to_upper_char c = if leb b'a' c && leb c b'z' then c - 32 else c

abbrev pub to_upper : Bytes → Bytes
to_upper = map to_upper_char

-- The decimal digits of a number, the fuel above the number.
unfoldable pub digits : ℕ → ℕ → Bytes
digits zero n = []
digits (suc fuel) n =
    let front = digits fuel (n / 10) in
    if ltb n 10 then (n + 48) ∷ [] else front ++ ((n % 10 + 48) ∷ [])

-- `%u`, and the stream output of an unsigned number.
unfoldable pub uint_to_string : ℕ → Bytes
unfolding digits
uint_to_string n = digits (suc n) n

unfoldable pub int_to_string : ℤ → Bytes
unfolding uint_to_string
int_to_string (pos n) = uint_to_string n
int_to_string (negsuc n) = b'-' ∷ uint_to_string (suc n)

unfoldable pub is_digit : ℕ → Bool
is_digit c = leb b'0' c && leb c b'9'

-- The value of the digits at the front of a string.
unfoldable pub read_digits : ℕ → Bytes → ℕ
unfolding is_digit
read_digits acc [] = acc
read_digits acc (c ∷ s) =
    let more = read_digits (acc * 10 + (c - 48)) s in if is_digit c then more else acc

unfoldable pub negate : ℕ → ℤ
negate zero = pos 0
negate (suc n) = negsuc n

atoi_signed : Bytes → ℤ
unfolding read_digits negate
atoi_signed [] = pos 0
atoi_signed (c ∷ s) =
    if c == b'-'
    then negate (read_digits 0 s)
    else if c == b'+'
    then pos (read_digits 0 s)
    else pos (read_digits 0 (c ∷ s))

-- libc's `atoi`: white space, a sign, digits. Beyond the range of `int` the result is wrapped,
-- where the standard leaves it open.
unfoldable pub atoi : Bytes → ℤ
unfolding drop_while isspace atoi_signed wrap_int
atoi s = wrap_int (atoi_signed (drop_while isspace s))
