-- ===== src/Common/Bytes.antt =====
-- `std::string` as a list of byte values, with the searches of the standard library that the
-- program calls.
use Prim.Native.Char.{code}
use Prim.Native.Nat.{ℕ, suc, ◌+◌}
use Prim.Native.String.{String}
use mathlib.Core.Path.{◌≡◌, refl}
use mathlib.Core.Logic.{◌↔◌}
use mathlib.Core.Bool.{Bool, true, false, ◌&&◌, ◌||◌}
use mathlib.Core.List.{List, [], ◌∷◌}
use mathlib.Core.Option.{Option, none, some}
use mathlib.Core.Option
use native.Mathlib.Omega.{arith}
use looka.Common.Tests.{if◌then◌else◌, ◌==◌, leb, Eq}

abbrev pub Bytes : Type 0
Bytes = List ℕ

-- The bytes of an ASCII literal.
abbrev pub codes : String → Bytes
codes String.[] = []
codes (String.◌∷◌ c s) = code c ∷ codes s

abbrev pub bytes_beq : Bytes → Bytes → Bool
bytes_beq [] [] = true
bytes_beq [] (y ∷ ys) = false
bytes_beq (x ∷ xs) [] = false
bytes_beq (x ∷ xs) (y ∷ ys) = x == y && bytes_beq xs ys

pub bytes_beq_iff : (xs ys : Bytes) → (bytes_beq xs ys ≡ true) ↔ (xs ≡ ys)
bytes_beq_iff [] [] = ground arith
bytes_beq_iff [] (y ∷ ys) = ground arith
bytes_beq_iff (x ∷ xs) [] = ground arith
bytes_beq_iff (x ∷ xs) (y ∷ ys) = ground (arith, bytes_beq_iff xs ys)

pub bytes_beq_refl : (xs : Bytes) → bytes_beq xs xs ≡ true
bytes_beq_refl xs = (bytes_beq_iff xs xs).1 refl

instance abbrev pub bytes_eq : Eq Bytes
bytes_eq = record { beq = bytes_beq; beq_iff = bytes_beq_iff }

-- `std::find(v.begin(), v.end(), s) != v.end()` over a vector of strings.
abbrev pub contains : Bytes → List Bytes → Bool
contains s [] = false
contains s (x ∷ xs) = bytes_beq x s || contains s xs

-- `s.find(c)`: the index of the first such byte.
abbrev pub find_char : ℕ → Bytes → Option ℕ
find_char c [] = none
find_char c (x ∷ xs) = if x == c then some 0 else Option.map suc (find_char c xs)

abbrev pub starts_with : Bytes → Bytes → Bool
starts_with [] s = true
starts_with (p ∷ ps) [] = false
starts_with (p ∷ ps) (x ∷ xs) = p == x && starts_with ps xs

-- `s.find(p)`: the first index at which `p` stands.
abbrev pub find : Bytes → Bytes → Option ℕ
find p [] = if starts_with p [] then some 0 else none
find p (x ∷ xs) = if starts_with p (x ∷ xs) then some 0 else Option.map suc (find p xs)

-- `std::count`
abbrev pub count : ℕ → Bytes → ℕ
count c [] = 0
count c (x ∷ xs) = (if x == c then 1 else 0) + count c xs

-- ASCII `tolower`, as the C locale has it.
abbrev pub to_lower_char : ℕ → ℕ
to_lower_char c = if leb b'A' c && leb c b'Z' then c + 32 else c
