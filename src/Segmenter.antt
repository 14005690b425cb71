-- ===== src/Segmenter.antt =====
-- src/looka_segmenter.hpp and .cpp. The css library cuts the text; it is a parameter: for a text,
-- the strings at the pointers that `peekToken` returns, each with its length, up to the first
-- null pointer. `Init` and the null checks of the library's objects are left out.
use looka.Common.{
  ℕ, ◌+◌, ◌%◌, ◌^◌, List, [], ◌∷◌, ◌++◌, Bool, ◌||◌, if◌then◌else◌, ◌==◌, is_empty, take,
}
use looka.Common.Bytes.{Bytes, codes}
use looka.StrUtils.{trim_by, strfind}

pub record SegmentToken : Type 0 where
  pub str : Bytes
  pub pos : ℕ

-- A string as a function of C sees it: up to the first NUL.
unfoldable pub c_str : Bytes → Bytes
c_str [] = []
c_str (c ∷ s) = if c == 0 then [] else c ∷ c_str s

unfoldable pub is_space : ℕ → Bool
is_space c = c == b' ' || c == b'\t' || c == b'\r' || c == b'\n'

abbrev wide : Bytes
wide =
    0xef ∷ 0xbc ∷ 0x81 ∷ 0xef ∷ 0xbf ∷ 0xa5 ∷ 0xe2 ∷ 0x80 ∷ 0xa6 ∷ 0xef ∷ 0xbc ∷ 0x88 ∷ 0xef ∷ 0xbc
    ∷ 0x89 ∷ 0xe2 ∷ 0x80 ∷ 0x94 ∷ 0xe2 ∷ 0x80 ∷ 0x94 ∷ 0xe3 ∷ 0x80 ∷ 0x90 ∷ 0xe3 ∷ 0x80 ∷ 0x91
    ∷ 0xe3 ∷ 0x80 ∷ 0x81 ∷ 0xef ∷ 0xbc ∷ 0x9a ∷ 0xef ∷ 0xbc ∷ 0x9b ∷ 0xe2 ∷ 0x80 ∷ 0x98 ∷ 0xe2
    ∷ 0x80 ∷ 0x9c ∷ 0xe2 ∷ 0x80 ∷ 0x99 ∷ 0xe2 ∷ 0x80 ∷ 0x9d ∷ 0xef ∷ 0xbc ∷ 0x8c ∷ 0xe3 ∷ 0x80
    ∷ 0x82 ∷ 0xe3 ∷ 0x80 ∷ 0x8a ∷ 0xe3 ∷ 0x80 ∷ 0x8b ∷ 0xef ∷ 0xbc ∷ 0x9f ∷ 0xc2 ∷ 0xb7 ∷ 0xe2
    ∷ 0x80 ∷ 0xa6 ∷ 0xe2 ∷ 0x80 ∷ 0xa6 ∷ []

-- The constant `punctuation`, in UTF-8: the ASCII signs, then the wide ones.
abbrev pub punctuation : Bytes
punctuation = codes "!@#$%^&*()-=_+`~;:\",./<>?[]{}|\\" ++ wide

-- `IsPunctuation`: the token occurs in the constant, as a substring of its bytes.
unfoldable pub is_punctuation : Bytes → Bool
unfolding strfind
is_punctuation token = strfind punctuation token

module _ (css_tokens : Bytes → List (Bytes × ℕ)) where
  -- The loop of `Segment`, with `cur_pos` and the tokens so far.
  unfoldable pub segment_loop : List (Bytes × ℕ) → ℕ → List SegmentToken → List SegmentToken
  unfolding c_str is_space trim_by is_punctuation
  segment_loop [] cur_pos tokens = tokens
  segment_loop ((ptr, len) ∷ rest) cur_pos tokens =
      let cur_pos' = (cur_pos + len) % 2 ^ 32 in
      let tok = trim_by is_space (take len (c_str ptr)) in
      let skip = segment_loop rest cur_pos' tokens in
      let push =
        segment_loop rest cur_pos' (tokens ++ (record { str = tok; pos = cur_pos' } ∷ [])) in
      if len == 0
      then tokens
      else if is_empty tok
      then skip
      else if is_punctuation tok
      then skip
      else push

  unfoldable pub segment : Bytes → List SegmentToken → List SegmentToken
  unfolding segment_loop
  segment str tokens = segment_loop (css_tokens str) 0 tokens
