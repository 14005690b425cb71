-- ===== src/StrUtils/Url/RoundTrip.antt =====
-- Decoding undoes encoding.
use native.Mathlib.Decide.{ℕ_discrete}
use looka.Common.{
  ◌≤◌, ℕ, zero, suc, ◌+◌, ◌*◌, ◌<◌, [], ◌∷◌, ◌++◌, Bool, true, false, not, ◌&&◌, ◌||◌, ◌==◌, ◌≡◌,
  ◌≢◌, refl, ap, ◌∙◌, arith, All,
}
use looka.Common.Bytes.{Bytes}
use looka.StrUtils.Url.{encode_char, url_encode, url_decode, is_encoded, hex_value}

-- A test of the bytes up to `c`.
holds_to : (ℕ → Bool) → ℕ → Bool
holds_to test zero = test zero
holds_to test (suc c) = holds_to test c && test (suc c)

holds_to-each : (test : ℕ → Bool) (c b : ℕ) → b ≤ c → holds_to test c ≡ true → test b ≡ true
unfolding holds_to
holds_to-each test zero zero below h = h
holds_to-each test zero (suc b) below h = absurd (omega arith)
holds_to-each test (suc c) b below h = elim (ℕ_discrete b (suc c)) [
  | yes same ↦ ground (arith, h, ap test same)
  | no other ↦ holds_to-each test c b (omega arith) (ground (arith, h))
]

-- A byte that neither `+` nor `%` is.
abbrev pub IsPlain : ℕ → Type 0
IsPlain c = (c < 256) × (c ≢ b'+') × (c ≢ b'%')

-- Decoding takes these bytes for the one byte `c`.
stands_for : ℕ → Bytes → Bool
stands_for c [] = false
stands_for c (x ∷ []) = x == c && not (x == b'+') && not (x == b'%')
stands_for c (x ∷ a ∷ []) = false
stands_for c (x ∷ a ∷ b ∷ []) = is_encoded x a b && hex_value a * 16 + hex_value b == c
stands_for c (x ∷ a ∷ b ∷ d ∷ s) = false

url_decode-plain :
    (c : ℕ) (rest : Bytes) → c ≢ b'+' → c ≢ b'%' → url_decode (c ∷ rest) ≡ c ∷ url_decode rest
unfolding url_decode
url_decode-plain c [] p q = ground arith
url_decode-plain c (a ∷ []) p q = ground arith
url_decode-plain c (a ∷ b ∷ s) p q = ground arith

url_decode-encoded :
    (x a b : ℕ) (rest : Bytes)
    → is_encoded x a b ≡ true
    → url_decode (x ∷ a ∷ b ∷ rest) ≡ (hex_value a * 16 + hex_value b) ∷ url_decode rest
unfolding url_decode
url_decode-encoded x a b rest h = rw (h, url_decode)

stands_for-decode :
    (c : ℕ) (s rest : Bytes) → stands_for c s ≡ true → url_decode (s ++ rest) ≡ c ∷ url_decode rest
unfolding stands_for
stands_for-decode c [] rest h = cc
stands_for-decode c (x ∷ []) rest h = ground (arith, url_decode-plain x rest)
stands_for-decode c (x ∷ a ∷ []) rest h = cc
stands_for-decode c (x ∷ a ∷ b ∷ []) rest h = ground (arith, url_decode-encoded x a b rest)
stands_for-decode c (x ∷ a ∷ b ∷ d ∷ s) rest h = cc

encode_char_table :
    holds_to (λ c. c == b'+' || c == b'%' || stands_for c (encode_char c)) 255 ≡ true
unfolding holds_to stands_for encode_char is_encoded
encode_char_table = refl

encode_char-stands_for : (c : ℕ) → IsPlain c → stands_for c (encode_char c) ≡ true
encode_char-stands_for c (small, plus, percent) =
    ground (arith, holds_to-each _ 255 c (omega arith) encode_char_table)

-- `UrlDecode` undoes `UrlEncode` on every string without `+` and `%`, which `UrlEncode` passes on
-- and `UrlDecode` does not.
pub url_decode-url_encode : (s : Bytes) → All IsPlain s → url_decode (url_encode s) ≡ s
unfolding url_encode
url_decode-url_encode [] h = unfold url_decode in refl
url_decode-url_encode (c ∷ s) h =
    stands_for-decode c (encode_char c) (url_encode s) (encode_char-stands_for c h.0)
    ∙ ap (◌∷◌ c) (url_decode-url_encode s h.1)
