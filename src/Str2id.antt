-- ===== src/Str2id.antt =====
-- src/looka_str2id.cpp: the 64-bit MurmurHash of a string, and the ids that are made of it.
-- Words are read little-endian, and every product and sum keeps its wrap-around.
use Prim.Native.Nat.{bit_xor, bit_and}
use looka.Common.{
  ℕ, zero, suc, ◌+◌, ◌*◌, ◌/◌, ◌%◌, ◌^◌, [], ◌∷◌, length, take, drop, is_empty, if◌then◌else◌, ◌==◌,
}
use looka.Common.Bytes.{Bytes}

abbrev pub illegal_token_id : ℕ
illegal_token_id = 0xFFFF_FFFF_FFFF_FFFF

abbrev pub illegal_global_doc_id : ℕ
illegal_global_doc_id = 0xFFFF_FFFF_FFFF_FFFF

abbrev pub finger_print_seed : ℕ
finger_print_seed = 19861202

abbrev murmur_m : ℕ
murmur_m = 0xc6a4a7935bd1e995

abbrev mul64 : ℕ → ℕ → ℕ
mul64 a b = a * b % 2 ^ 64

-- A little-endian word of however many bytes the list has.
unfoldable pub le_word : Bytes → ℕ
le_word [] = 0
le_word (b ∷ bs) = b + 256 * le_word bs

-- `x ^= x >> 47`
abbrev xor_shift : ℕ → ℕ
xor_shift x = bit_xor x (x / 2 ^ 47)

murmur_block : ℕ → ℕ → ℕ
murmur_block h k = mul64 (bit_xor h (mul64 (xor_shift (mul64 k murmur_m)) murmur_m)) murmur_m

-- `while (data != end)`, over the `len / 8` whole words.
murmur_blocks : ℕ → ℕ → Bytes → ℕ
murmur_blocks zero h bytes = h
murmur_blocks (suc n) h bytes =
    murmur_blocks n (murmur_block h (le_word (take 8 bytes))) (drop 8 bytes)

-- The `switch (len & 7)` falls through from the highest of the bytes left down to the first.
murmur_tail : Bytes → ℕ → ℕ → ℕ
murmur_tail [] shift h = h
murmur_tail (b ∷ bs) shift h = bit_xor (murmur_tail bs (shift + 8) h) (b * 2 ^ shift)

pub murmur_hash64a : Bytes → ℕ → ℕ
unfolding murmur_block murmur_blocks murmur_tail le_word
murmur_hash64a key seed =
    let len = length key in
    let h = murmur_blocks (len / 8) (bit_xor seed (mul64 len murmur_m)) key in
    let rest = drop (len / 8 * 8) key in
    let mixed = murmur_tail rest 0 h in
    let h' = if bit_and len 7 == 0 then h else mul64 mixed murmur_m in
    xor_shift (mul64 (xor_shift h') murmur_m)

unfoldable pub fingerprint : Bytes → ℕ
unfolding murmur_hash64a
fingerprint str = murmur_hash64a str finger_print_seed

unfoldable pub compute_global_doc_id : Bytes → ℕ
unfolding fingerprint
compute_global_doc_id str = if is_empty str then illegal_global_doc_id else fingerprint str

unfoldable pub compute_token_id : Bytes → ℕ
unfolding fingerprint
compute_token_id token = if is_empty token then illegal_token_id else fingerprint token
