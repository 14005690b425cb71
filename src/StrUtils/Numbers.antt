-- ===== src/StrUtils/Numbers.antt =====
-- Numbers printed in decimal are read back.
use mathlib.Core.Path.{subst, sym}
use looka.Common.{
  ℕ, zero, suc, ◌+◌, ◌-◌, ◌*◌, ◌/◌, ◌%◌, ◌≤◌, ◌<◌, ◌^◌, [], ◌∷◌, ◌++◌, true, false, ◌≡◌, ◌≢◌, refl,
  ap, arith, Bool-cases, inl, inr, ◌∙◌, ltb, All, All-append, ltb→lt,
}
use looka.Common.Bytes.{Bytes}
use looka.Common.Int.{ℤ, pos, negsuc, wrap_int, wrap_int-pos}
use looka.StrUtils.{
  digits, uint_to_string, int_to_string, negate, is_digit, read_digits, atoi, atoi_signed,
  drop_while, isspace,
}

-- The digits of a string, each a value below ten, read from `acc` on.
abbrev IsDigits : Bytes → Type 0
IsDigits = All (λ c. is_digit c ≡ true)

read_digits-append :
    (s rest : Bytes) (acc : ℕ)
    → IsDigits s
    → read_digits acc (s ++ rest) ≡ read_digits (read_digits acc s) rest
unfolding read_digits
read_digits-append [] rest acc h = refl
read_digits-append (c ∷ s) rest acc h =
    ground (arith, h.0, read_digits-append s rest (acc * 10 + (c - 48)))

digits_small : (fuel n : ℕ) → ltb n 10 ≡ true → digits (suc fuel) n ≡ (n + 48) ∷ []
unfolding digits
digits_small fuel n h = ground (arith, h)

digits_large :
    (fuel n : ℕ)
    → ltb n 10 ≡ false
    → digits (suc fuel) n ≡ digits fuel (n / 10) ++ ((n % 10 + 48) ∷ [])
unfolding digits
digits_large fuel n h = ground (arith, h)

digits_zero : (n : ℕ) → digits 0 n ≡ []
unfolding digits
digits_zero n = refl

digit_is_digit : (n : ℕ) → n < 10 → is_digit (n + 48) ≡ true
unfolding is_digit
digit_is_digit n h = ground arith

digits-IsDigits : (fuel n : ℕ) → IsDigits (digits fuel n)
digits-IsDigits zero n = rw digits_zero tt
digits-IsDigits (suc fuel) n = elim (Bool-cases (ltb n 10)) [
  | inl small ↦
      subst IsDigits (sym (digits_small fuel n small)) (digit_is_digit n (ltb→lt _ _ small), tt)
  | inr large ↦ subst IsDigits (sym (digits_large fuel n large)) (
      All-append (λ c. is_digit c ≡ true) (digits fuel (n / 10)) ((n % 10 + 48) ∷ [])
        (digits-IsDigits fuel (n / 10)) (digit_is_digit (n % 10) (omega arith), tt))
]

read_digits_one : (acc c : ℕ) → is_digit c ≡ true → read_digits acc (c ∷ []) ≡ acc * 10 + (c - 48)
unfolding read_digits
read_digits_one acc c h = ground (arith, h)

read_digits-digits : (fuel n : ℕ) → n < fuel → read_digits 0 (digits fuel n) ≡ n
read_digits-digits zero n h = absurd (omega arith)
read_digits-digits (suc fuel) n h = elim (Bool-cases (ltb n 10)) [
  | inl small ↦
      rw (digits_small fuel n small)
        (read_digits_one 0 (n + 48) (digit_is_digit n (ltb→lt _ _ small)) ∙ omega arith)
  | inr large ↦
      let front = digits fuel (n / 10) in
      let d : ℕ = n % 10 + 48 in
      let big : 10 ≤ n = ground (arith, large) in
      rw (digits_large fuel n large) (
        read_digits-append front (d ∷ []) 0 (digits-IsDigits fuel (n / 10))
        ∙ read_digits_one _ d (digit_is_digit (n % 10) (omega arith))
        ∙ omega (arith, read_digits-digits fuel (n / 10) (omega arith)))
]

-- The first character of a printed number is a digit, so neither white space nor a sign.
digits-ne-nil : (fuel n : ℕ) → digits (suc fuel) n ≢ []
digits-ne-nil fuel n = elim (Bool-cases (ltb n 10)) [
  | inl small ↦ rw (digits_small fuel n small) (λ e. cc)
  | inr large ↦ rw (digits_large fuel n large) (λ e. append-ne-nil (digits fuel (n / 10)) e)
]
  where
    append-ne-nil : (s : Bytes) → (s ++ ((n % 10 + 48) ∷ [])) ≢ []
    append-ne-nil [] = λ e. cc
    append-ne-nil (x ∷ s) = λ e. cc

atoi_signed-digits :
    (s : Bytes) → IsDigits s → s ≢ [] → atoi_signed (drop_while isspace s) ≡ pos (read_digits 0 s)
unfolding atoi_signed drop_while isspace is_digit
atoi_signed-digits [] h ne = absurd (ne refl)
atoi_signed-digits (c ∷ s) h ne = ground (arith, h.0)

-- The values of an `int`: from -2 ^ 31 on and below 2 ^ 31.
abbrev pub IsInt : ℤ → Type 0
IsInt (pos n) = n < 2 ^ 31
IsInt (negsuc n) = n < 2 ^ 31

wrap_int-IsInt : (z : ℤ) → IsInt z → wrap_int z ≡ z
unfolding wrap_int
wrap_int-IsInt (pos n) h = wrap_int-pos n h
wrap_int-IsInt (negsuc n) h = ground arith

atoi_signed_minus :
    (s : Bytes) → atoi_signed (drop_while isspace (45 ∷ s)) ≡ negate (read_digits 0 s)
unfolding atoi_signed drop_while isspace
atoi_signed_minus s = refl

negate-suc : (n k : ℕ) → k ≡ suc n → negate k ≡ negsuc n
unfolding negate
negate-suc n k e = rw (e) refl

-- Each `int`, negative or not, is read back by `atoi` from what `intToString` printed.
pub atoi-int_to_string : (z : ℤ) → IsInt z → atoi (int_to_string z) ≡ z
unfolding atoi int_to_string uint_to_string
atoi-int_to_string (pos n) h =
    ap wrap_int (
      atoi_signed-digits (digits (suc n) n) (digits-IsDigits (suc n) n) (digits-ne-nil n n)
      ∙ ap pos (read_digits-digits (suc n) n (omega arith)))
    ∙ wrap_int-IsInt (pos n) h
atoi-int_to_string (negsuc n) h =
    ap wrap_int (
      atoi_signed_minus (digits (suc (suc n)) (suc n))
      ∙ negate-suc n _ (read_digits-digits (suc (suc n)) (suc n) (omega arith)))
    ∙ wrap_int-IsInt (negsuc n) h
