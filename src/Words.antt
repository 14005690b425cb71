-- ===== src/Words.antt =====
-- Little-endian words, as the program writes and reads its integers in memory and in files.
use looka.Common.{
  ℕ, zero, suc, ◌+◌, ◌/◌, ◌%◌, ◌^◌, ◌<◌, [], ◌∷◌, ◌++◌, Option, none, some, if◌then◌else◌, leb,
  length, take, drop, ◌≡◌, refl, ap, arith, length-append, take-append, drop-append,
}
use looka.Common.Bytes.{Bytes}
use looka.Str2id.{le_word}

-- The `w` bytes of a number.
unfoldable pub le_bytes : ℕ → ℕ → Bytes
le_bytes zero n = []
le_bytes (suc w) n = n % 256 ∷ le_bytes w (n / 256)

-- `n` bytes from an offset on, inside the memory.
unfoldable pub slice : Bytes → ℕ → ℕ → Option Bytes
slice mem off n = if leb (off + n) (length mem) then some (take n (drop off mem)) else none

pub length-le_bytes : (w n : ℕ) → length (le_bytes w n) ≡ w
unfolding le_bytes
length-le_bytes zero n = refl
length-le_bytes (suc w) n = ap suc (length-le_bytes w (n / 256))

-- A word of four bytes holds any number below 2 ^ 32, one of eight any below 2 ^ 64.
pub le_word-le_bytes_four : (n : ℕ) → n < 2 ^ 32 → le_word (le_bytes 4 n) ≡ n
unfolding le_word le_bytes
le_word-le_bytes_four n h = omega arith

pub le_word-le_bytes_eight : (n : ℕ) → n < 2 ^ 64 → le_word (le_bytes 8 n) ≡ n
unfolding le_word le_bytes
le_word-le_bytes_eight n h = omega arith

-- A slice is what stands between the parts before and behind it.
pub slice-append :
    (before part behind : Bytes) (off n : ℕ)
    → off ≡ length before
    → n ≡ length part
    → slice (before ++ (part ++ behind)) off n ≡ some part
unfolding slice
slice-append before part behind off n e f =
    rw (e, f)
      (ground (
        arith,
        length-append before (part ++ behind),
        length-append part behind,
        drop-append before (part ++ behind),
        take-append part behind,
      ))
