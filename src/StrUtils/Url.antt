-- ===== src/StrUtils/Url.antt =====
-- `UrlEncode` and `UrlDecode` of src/looka_string_utils.cpp.
pub mod RoundTrip
use looka.Common.{
  ℕ, ◌+◌, ◌-◌, ◌*◌, ◌/◌, ◌%◌, List, [], ◌∷◌, ◌++◌, Bool, true, false, not, ◌&&◌, ◌||◌,
  if◌then◌else◌, ◌==◌, leb, ltb, get_or,
}
use looka.Common.Bytes.{Bytes, codes}

abbrev hex_chars : Bytes
hex_chars = codes "0123456789ABCDEF"

-- `isascii`
abbrev is_ascii : ℕ → Bool
is_ascii c = ltb c 128

unfoldable pub encode_char : ℕ → Bytes
encode_char c =
    if is_ascii c
    then (if c == b' ' then b'%' ∷ b'2' ∷ b'0' ∷ [] else c ∷ [])
    else b'%' ∷ get_or hex_chars (c / 16) 0 ∷ get_or hex_chars (c % 16) 0 ∷ []

unfoldable pub url_encode : Bytes → Bytes
unfolding encode_char
url_encode [] = []
url_encode (c ∷ s) = encode_char c ++ url_encode s

unfoldable pub isxdigit : ℕ → Bool
isxdigit c = (leb b'0' c && leb c b'9') || (leb b'a' c && leb c b'f') || (leb b'A' c && leb c b'F')

-- The value of a hexadecimal digit, for `strtol` with base 16.
unfoldable pub hex_value : ℕ → ℕ
hex_value c = if leb c b'9' then c - b'0' else if leb c b'F' then c - 55 else c - 87

-- The codes that are left encoded.
unfoldable pub is_reserved : ℕ → Bool
is_reserved hex =
    (leb 48 hex && leb hex 57)
    || (leb 97 hex && leb hex 122)
    || (leb 65 hex && leb hex 90)
    || hex == 0x21
    || hex == 0x24
    || (leb 0x26 hex && leb hex 0x2f)
    || hex == 0x3A
    || hex == 0x3B
    || hex == 0x3D
    || hex == 0x3f
    || hex == 0x40
    || hex == 0x5f

-- One character that `%` does not begin, or a `%` that is kept.
decode_plain : ℕ → ℕ
decode_plain c = if c == b'+' then b' ' else c

-- `%` with two characters behind it is an encoded byte if both are digits and the byte is not
-- reserved.
unfoldable pub is_encoded : ℕ → ℕ → ℕ → Bool
unfolding isxdigit hex_value is_reserved
is_encoded c a b =
    c == b'%' && isxdigit a && isxdigit b && not (is_reserved (hex_value a * 16 + hex_value b))

-- At the end of the string `s[i + 1]` or `s[i + 2]` is the terminating NUL, which is no digit.
unfoldable pub url_decode : Bytes → Bytes
unfolding decode_plain is_encoded
url_decode [] = []
url_decode (c ∷ []) = decode_plain c ∷ []
url_decode (c ∷ a ∷ []) = decode_plain c ∷ url_decode (a ∷ [])
url_decode (c ∷ a ∷ b ∷ s) = elim (is_encoded c a b) [
  | true ↦ (hex_value a * 16 + hex_value b) ∷ url_decode s
  | false ↦ decode_plain c ∷ url_decode (a ∷ b ∷ s)
]
