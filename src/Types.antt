-- ===== src/Types.antt =====
-- src/looka_types.hpp and src/looka_types.cpp: ids, posting entries and tokens. An entry's
-- flexible array `hits` is the list of the bytes that its allocation holds behind `hits_size`.
pub mod Hits
use looka.Common.{ℕ, [], ◌≡◌, ◌↔◌, Bool, true, ◌&&◌, ltb, ◌==◌, arith, Eq}
use looka.Common.Bytes.{Bytes, bytes_beq, bytes_beq_iff}
use looka.Str2id.{illegal_token_id, compute_token_id}

-- `kIllegalLocalDocID`
abbrev pub illegal_local_doc_id : ℕ
illegal_local_doc_id = 0xFFFF_FFFF

pub record DocInvert : Type 0 where
  pub local_id : ℕ
  pub hits_size : ℕ
  pub hits : Bytes

-- `operator ==`, `<` and `>` of DocInvert compare the ids alone.
unfoldable pub doc_invert_beq : DocInvert → DocInvert → Bool
doc_invert_beq a b = a.local_id == b.local_id

unfoldable pub doc_invert_lt : DocInvert → DocInvert → Bool
doc_invert_lt a b = ltb a.local_id b.local_id

pub record Token : Type 0 where
  pub token_id : ℕ
  pub token_str : Bytes

-- `Token::Token()` and `Token::Token(std::string&)`
abbrev pub empty_token : Token
empty_token = record { token_id = illegal_token_id; token_str = [] }

abbrev pub make_token : Bytes → Token
make_token str = record { token_id = compute_token_id str; token_str = str }

abbrev pub token_beq : Token → Token → Bool
token_beq s t = s.token_id == t.token_id && bytes_beq s.token_str t.token_str

-- `operator <` of Token compares the ids alone.
unfoldable pub token_lt : Token → Token → Bool
token_lt s t = ltb s.token_id t.token_id

pub token_beq_iff : (s t : Token) → (token_beq s t ≡ true) ↔ (s ≡ t)
token_beq_iff s t = ground (arith, bytes_beq_iff s.token_str t.token_str)

instance abbrev pub token_eq : Eq Token
token_eq = record { beq = token_beq; beq_iff = token_beq_iff }
