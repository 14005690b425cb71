-- ===== src/Tests/Printing.antt =====
-- A concrete `vsnprintf`: it fills any buffer with the same five bytes.
use looka.Common.{
  ℕ, arith, ◌≤◌, [], Option, leb, le→leb, true, none, some, false, if◌then◌else◌, ltb, length, ◌≡◌,
  refl,
}
use looka.Common.Bytes.{Bytes, codes}
use looka.Common.Int.{pos, negsuc}
use looka.Common.Result.{ok}
use looka.StrUtils.Printf.{
  Printed, string_printf_v, max_length, string_printf_v-ok, string_printf_v-text,
}

abbrev hello : ℕ → Printed
hello m = record { result = pos 5; buf = codes "hello"; fails = false }

-- The same up to 32 MB, and then no longer.
abbrev mute : ℕ → Printed
mute m = if leb m 33554432 then hello m else record { result = negsuc 0; buf = []; fails = true }

mute-hello : (m : ℕ) → m ≤ 33554432 → hello m ≡ mute m
mute-hello m h = rw (le→leb m 33554432 h) refl

string_printf_v-ok_example :
    (r : Option Bytes) × (string_printf_v hello ≡ ok r) × (string_printf_v mute ≡ ok r)
string_printf_v-ok_example = string_printf_v-ok hello mute (λ m. omega arith) mute-hello

string_printf_v-text_example :
    string_printf_v hello
    ≡ ok (if ltb (length (codes "hello")) max_length then some (codes "hello") else none)
string_printf_v-text_example =
    string_printf_v-text hello (codes "hello") (λ m. refl) (λ m h. refl) (omega arith)
