-- ===== src/File.antt =====
-- src/looka_file.cpp: the index file and the summary files, as the bytes that the writer writes
-- and the reader reads. A file that does not open is `none`. A read past the end of the file, or
-- past the end of an object in memory, is a fault. The size of the index file is an `int` of the
-- reader, and wraps around.
pub mod Index
pub mod ReadBack
pub mod Summary
use looka.Common.{
  ℕ, zero, suc, ◌+◌, ◌-◌, ◌*◌, ◌%◌, ◌^◌, List, [], ◌∷◌, ◌++◌, Option, none, some, Bool, true, false,
  ◌&&◌, if◌then◌else◌, ltb, leb, ◌==◌, length, take, drop, replicate, is_empty, get_or,
}
use looka.Common.Bytes.{Bytes}
use looka.Common.Int.{pos, ltℤ, wrap_int}
use looka.Common.Result.{Result, ok, fault, stuck, ◌>>=◌, or_fault}
use looka.Attr.{
  DocAttrType, attr_uint, attr_float, attr_multi, attr_string, AttrWords, AttrString, DocAttr,
}
use looka.Inverter.{Inverter, add, get_items, get_keys}
use looka.Inverter.Laws.{list_of}
use looka.Str2id.{le_word}
use looka.Types.{DocInvert, Token, make_token, token_eq}
use looka.Words.{le_bytes, slice}

-- `f.write((char*)invert, sizeof(DocInvert) + invert->hits_size)`: sizeof(DocInvert) is 8, and
-- the flexible array starts at offset 5.
unfoldable pub write_invert : DocInvert → Result Bytes
unfolding slice le_bytes
write_invert d = do
  hits ← or_fault (slice d.hits 0 (3 + d.hits_size))
  ok (le_bytes 4 d.local_id ++ (d.hits_size ∷ hits))

unfoldable pub write_inverts : List DocInvert → Result Bytes
unfolding write_invert
write_inverts [] = ok []
write_inverts (d ∷ ds) = do first ← write_invert d; rest ← write_inverts ds; ok (first ++ rest)

-- One token with its entries: `none` stands for the pointer that `GetItems` leaves unset.
unfoldable pub write_token : Token → Inverter Token DocInvert → Result Bytes
unfolding le_bytes get_items write_inverts
write_token t inv =
    let items = get_items t inv none in
    do
      entries ← write_inverts (take items.0 (list_of items.1))
      ok (
          le_bytes 8 t.token_id
          ++ (le_bytes 4 (length t.token_str) ++ (t.token_str ++ (le_bytes 4 items.0 ++ entries))))

unfoldable pub write_tokens : List Token → Inverter Token DocInvert → Result Bytes
unfolding write_token
write_tokens [] inv = ok []
write_tokens (t ∷ ts) inv = do
  first ← write_token t inv
  rest ← write_tokens ts inv
  ok (first ++ rest)

-- `WriteIndexToFile`, into a file that opens.
unfoldable pub write_index_to_file : Inverter Token DocInvert → Result Bytes
unfolding get_keys write_tokens
write_index_to_file inv = let keys = get_keys inv [] in write_tokens (take keys.0 keys.1) inv

-- `f.read(p, n)`
unfoldable pub read_bytes : ℕ → Bytes → Result (Bytes × Bytes)
read_bytes n f = if leb n (length f) then ok (take n f, drop n f) else fault

unfoldable pub read_word : ℕ → Bytes → Result (ℕ × Bytes)
unfolding read_bytes le_word
read_word w f = do r ← read_bytes w f; ok (le_word r.0, r.1)

unfoldable pub read_invert : Bytes → Result (DocInvert × Bytes)
unfolding read_word read_bytes
read_invert f = do
  id ← read_word 4 f
  size ← read_word 1 id.1
  pad ← read_bytes 3 size.1
  behind ← read_bytes size.0 pad.1
  ok (record { local_id = id.0; hits_size = size.0; hits = pad.0 ++ behind.0 }, behind.1)

unfoldable pub read_inverts :
    ℕ → Token → Bytes → Inverter Token DocInvert → Result (Inverter Token DocInvert × Bytes)
unfolding read_invert add
read_inverts zero t f inv = ok (inv, f)
read_inverts (suc n) t f inv = do doc ← read_invert f; read_inverts n t doc.1 (add t doc.0 inv).1

-- `std::string str(buf)`, for the first bytes of a buffer that is zero behind them: up to the
-- first zero.
unfoldable pub until_zero : Bytes → Bytes
until_zero [] = []
until_zero (c ∷ cs) = if c == 0 then [] else c ∷ until_zero cs

-- `f.read(buf, len)` into `char buf[BUFF_SIZE]`, and the string in it: `len` bytes have to fit,
-- and a zero has to end the string inside of the buffer.
unfoldable pub read_str : Bytes → Result (Bytes × Bytes)
unfolding read_word read_bytes until_zero
read_str f = do
  len ← read_word 4 f
  if leb len.0 100
      then (do
        r ← read_bytes len.0 len.1
        if ltb (length (until_zero r.0)) 100 then ok (until_zero r.0, r.1) else fault)
      else fault

-- `curr_size < file_size`, both an `int`: of a file of `total` bytes, `f` is what is not yet read.
unfoldable pub is_left : ℕ → Bytes → Bool
unfolding wrap_int
is_left total f = ltℤ (wrap_int (pos (total - length f))) (wrap_int (pos total))

-- `while (curr_size < file_size)` for a file of `total` bytes, with fuel. The stored id is read and
-- not used.
unfoldable pub read_tokens :
    ℕ → ℕ → Bytes → Inverter Token DocInvert → Result (Inverter Token DocInvert)
unfolding read_word read_str read_inverts is_left
read_tokens zero total f inv = if is_left total f then stuck else ok inv
read_tokens (suc n) total f inv =
    let round = do
      id ← read_word 8 f
      str ← read_str id.1
      count ← read_word 4 str.1
      r ← read_inverts count.0 (make_token str.0) count.1 inv
      read_tokens n total r.1 r.0
    in if is_left total f then round else ok inv

-- `ReadIndexFromFile`: a round reads at least 16 bytes, so the file's length is enough fuel.
unfoldable pub read_index_from_file :
    Option Bytes → Inverter Token DocInvert → Result (Bool × Inverter Token DocInvert)
unfolding read_tokens
read_index_from_file none inv = ok (false, inv)
read_index_from_file (some f) inv = do r ← read_tokens (length f) (length f) f inv; ok (true, r)
