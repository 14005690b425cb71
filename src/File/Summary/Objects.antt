-- ===== src/File/Summary/Objects.antt =====
-- One object of a summary file, written and read back.
use mathlib.Core.List.{append-nil, append_assoc}
use looka.Common.{
  ℕ, zero, suc, ◌*◌, ◌^◌, ◌<◌, List, [], ◌∷◌, ◌++◌, some, length, All, ◌≡◌, refl, ap, sym, ◌∙◌,
  arith, length-append, lt→ltb,
}
use looka.Common.Bytes.{Bytes}
use looka.Common.Result.{ok}
use looka.Attr.{
  DocAttrType, attr_uint, attr_float, attr_multi, attr_string, AttrWords, AttrString, DocAttr,
  string_pos,
}
use looka.File.Index.{slice-whole, read_bytes-append, read_word-four, read_word-one}
use looka.File.Summary.{
  words_bytes, write_words, strings_size, write_string, write_attr, Loading, read_words,
  read_attr_words, read_attr_string, read_attr,
}
use looka.Words.{le_bytes, slice, length-le_bytes, slice-append}

-- As many words as the size says, each of 32 bits.
unfoldable pub IsWords : AttrWords → Type 0
IsWords a = (a.size < 256) × (length a.words ≡ a.size) × All (λ w. w < 2 ^ 32) a.words

-- The lengths of as many strings as the size says, then as many bytes as they add up to.
pub record IsTable (a : AttrString) : Type 0 where
  pub lens : Bytes
  pub strings : Bytes
  pub few : a.size < 256
  pub layout : a.mem ≡ lens ++ strings
  pub width : a.size * 4 ≡ length lens
  pub sum : string_pos a.size lens 0 0 ≡ some (length strings)
  pub small : length strings < 2 ^ 31

length-words_bytes : (ws : List ℕ) → length (words_bytes ws) ≡ length ws * 4
unfolding words_bytes
length-words_bytes [] = refl
length-words_bytes (w ∷ ws) = omega (
  arith,
  length-append (le_bytes 4 w) (words_bytes ws),
  length-le_bytes 4 w,
  length-words_bytes ws,
)

write_words-IsWords :
    (a : AttrWords) → IsWords a → write_words a ≡ ok (a.size ∷ words_bytes a.words)
unfolding IsWords write_words
write_words-IsWords a h =
    rw
      (slice-whole (words_bytes a.words) (a.size * 4)
        (omega (arith, length-words_bytes a.words, h.1)))
      refl

read_words-words_bytes :
    (n : ℕ) (ws : List ℕ) (ys : Bytes)
    → length ws ≡ n
    → All (λ w. w < 2 ^ 32) ws
    → read_words n (words_bytes ws ++ ys) ≡ ok (ws, ys)
unfolding read_words words_bytes
read_words-words_bytes zero [] ys e h = refl
read_words-words_bytes zero (w ∷ ws) ys e h = absurd (omega arith)
read_words-words_bytes (suc n) [] ys e h = absurd (omega arith)
read_words-words_bytes (suc n) (w ∷ ws) ys e h =
    ap (read_words (suc n)) (append_assoc (le_bytes 4 w) (words_bytes ws) ys)
    ∙ rw
        (
          read_word-four w (words_bytes ws ++ ys) h.0,
          read_words-words_bytes n ws ys (omega arith) h.1,
        )
        refl

read_attr_words-IsWords :
    (a : AttrWords) (ys : Bytes)
    → IsWords a
    → read_attr_words (a.size ∷ (words_bytes a.words ++ ys)) ≡ ok (a, ys)
unfolding IsWords read_attr_words
read_attr_words-IsWords a ys h =
    rw
      (
        read_word-one a.size (words_bytes a.words ++ ys),
        read_words-words_bytes a.size a.words ys h.1 h.2,
      )
      refl

slice-end :
    (before part : Bytes) (off n : ℕ)
    → off ≡ length before
    → n ≡ length part
    → slice (before ++ part) off n ≡ some part
slice-end before part off n e f =
    ap (λ p. slice (before ++ p) off n) (sym (append-nil part))
    ∙ slice-append before part [] off n e f

module _ (a : AttrString) (t : IsTable a) where
  strings_size-IsTable : strings_size a.size t.lens ≡ ok (length t.strings)
  unfolding strings_size
  strings_size-IsTable = rw (t.sum, lt→ltb _ _ t.small) refl

  pub write_string-IsTable : write_string a ≡ ok (a.size ∷ a.mem)
  unfolding write_string
  write_string-IsTable =
      rw
        (
          t.layout,
          slice-append [] t.lens t.strings 0 (a.size * 4) refl t.width,
          strings_size-IsTable,
          slice-end t.lens t.strings (a.size * 4) (length t.strings) t.width refl,
        )
        refl

  pub read_attr_string-IsTable :
      (ys : Bytes) → read_attr_string (a.size ∷ (a.mem ++ ys)) ≡ ok (a, ys)
  unfolding read_attr_string
  read_attr_string-IsTable ys =
      ap (λ m. read_attr_string (a.size ∷ (m ++ ys))) t.layout
      ∙ rw
          (
            append_assoc t.lens t.strings ys,
            read_word-one a.size (t.lens ++ (t.strings ++ ys)),
            read_bytes-append (4 * a.size) t.lens (t.strings ++ ys) (omega (arith, t.width)),
            strings_size-IsTable,
            read_bytes-append (length t.strings) t.strings ys refl,
          )
          (ap (λ m. ok (record { size = a.size; mem = m }, ys)) (sym t.layout))

-- The object of a type holds what its size says.
unfoldable pub IsAttr : DocAttrType → DocAttr → Type 0
IsAttr attr_uint d = IsWords d.u
IsAttr attr_float d = IsWords d.f
IsAttr attr_multi d = IsWords d.m
IsAttr attr_string d = IsTable d.s

unfoldable pub attr_bytes : DocAttrType → DocAttr → Bytes
attr_bytes attr_uint d = d.u.size ∷ words_bytes d.u.words
attr_bytes attr_float d = d.f.size ∷ words_bytes d.f.words
attr_bytes attr_multi d = d.m.size ∷ words_bytes d.m.words
attr_bytes attr_string d = d.s.size ∷ d.s.mem

pub write_attr-IsAttr :
    (type : DocAttrType) (d : DocAttr) → IsAttr type d → write_attr type d ≡ ok (attr_bytes type d)
unfolding IsAttr write_attr attr_bytes
write_attr-IsAttr attr_uint d h = write_words-IsWords d.u h
write_attr-IsAttr attr_float d h = write_words-IsWords d.f h
write_attr-IsAttr attr_multi d h = write_words-IsWords d.m h
write_attr-IsAttr attr_string d h = write_string-IsTable d.s h

-- A record with the member of one type from `d`.
abbrev pub put_attr : DocAttrType → DocAttr → Loading → Loading
put_attr attr_uint d a = record a { u = some d.u }
put_attr attr_float d a = record a { f = some d.f }
put_attr attr_multi d a = record a { m = some d.m }
put_attr attr_string d a = record a { s = some d.s }

pub read_attr-IsAttr :
    (type : DocAttrType) (d : DocAttr) (a : Loading) (ys : Bytes)
    → IsAttr type d
    → read_attr type a (attr_bytes type d ++ ys) ≡ ok (put_attr type d a, ys)
unfolding IsAttr read_attr attr_bytes
read_attr-IsAttr attr_uint d a ys h = rw (read_attr_words-IsWords d.u ys h) refl
read_attr-IsAttr attr_float d a ys h = rw (read_attr_words-IsWords d.f ys h) refl
read_attr-IsAttr attr_multi d a ys h = rw (read_attr_words-IsWords d.m ys h) refl
read_attr-IsAttr attr_string d a ys h = rw (read_attr_string-IsTable d.s h ys) refl
