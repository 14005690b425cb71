-- ===== src/StrUtils/Printf.antt =====
-- src/looka_string_utils.cpp: StringPrintf and code_convert. `vsnprintf` and `iconv` belong to the
-- C library: for the format and the arguments at hand, and for the size of a buffer, a call of
-- `vsnprintf` gives its result, the buffer and whether `errno` is an error other than overflow.
use looka.Common.{
  ℕ, zero, suc, ◌+◌, ◌-◌, ◌*◌, ◌^◌, ◌<◌, ◌≤◌, [], ◌++◌, Option, none, some, Bool, true, false, not,
  ◌||◌, if◌then◌else◌, ltb, length, take, is_empty, ◌≡◌, refl, ap, sym, ◌∙◌, arith, Bool-cases, inl,
  inr, lt→ltb,
}
use looka.Common.Bytes.{Bytes, codes, bytes_beq}
use looka.Common.Int.{ℤ, pos, negsuc}
use looka.Common.Result.{Result, ok, fault, stuck}
use looka.StrUtils.{to_lower}

pub record Printed : Type 0 where
  pub result : ℤ
  pub buf : Bytes
  pub fails : Bool

-- `result >= 0 && result < mem_length`
abbrev fits : ℤ → ℕ → Bool
fits (pos n) mem_length = ltb n mem_length
fits (negsuc n) mem_length = false

-- `dst->assign(buf, result)`
abbrev assign : Printed → Bytes
assign p = elim p.result [ pos n ↦ take n p.buf | negsuc n ↦ [] ]

-- The next size of the buffer: twice the last one where `vsnprintf` gives a negative number, unless
-- `errno` says that it is of no use, and else what it asks for. For the largest `int`, `result + 1`
-- overflows: a fault.
abbrev next_length : ℤ → Bool → ℕ → Result (Option ℕ)
next_length (pos n) fails mem_length = if ltb (n + 1) (2 ^ 31) then ok (some (n + 1)) else fault
next_length (negsuc n) true mem_length = ok none
next_length (negsuc n) false mem_length = ok (some (mem_length * 2))

-- A result of `vsnprintf` to which the code can add one.
abbrev pub IsBelowMax : ℤ → Type 0
IsBelowMax (pos n) = n + 1 < 2 ^ 31
IsBelowMax (negsuc n) = Unit

-- `32 * 1024 * 1024`
abbrev pub max_length : ℕ
max_length = 33554432

module _ (vsnprintf : ℕ → Printed) where
  -- `while (true)`, with fuel, after a call with a buffer of `mem_length`: `none` leaves the string
  -- as it was.
  unfoldable pub printf_loop : ℕ → ℕ → Printed → Result (Option Bytes)
  printf_loop zero mem_length last = stuck
  printf_loop (suc n) mem_length last = elim (next_length last.result last.fails mem_length) [
    | fault ↦ fault
    | stuck ↦ stuck
    | ok none ↦ ok none
    | ok (some m) ↦
        let again = printf_loop n m (vsnprintf m) in
        if ltb max_length m
        then ok none
        else if fits (vsnprintf m).result m
        then ok (some (assign (vsnprintf m)))
        else again
  ]

  -- `StringPrintfV`: a round makes the buffer longer, so it has fewer rounds than the largest
  -- buffer has bytes.
  unfoldable pub string_printf_v : Result (Option Bytes)
  unfolding printf_loop
  string_printf_v =
      if fits (vsnprintf 1024).result 1024
      then ok (some (assign (vsnprintf 1024)))
      else printf_loop max_length 1024 (vsnprintf 1024)

  next_length-lt :
      (z : ℤ) (f : Bool) (mem_length m : ℕ)
      → fits z mem_length ≡ false
      → 0 < mem_length
      → next_length z f mem_length ≡ ok (some m)
      → mem_length < m
  next_length-lt (pos n) f mem_length m miss some_bytes e =
      elim (Bool-cases (ltb (n + 1) (2 ^ 31))) [
        | inl small ↦
            let asked : ok (some (n + 1)) ≡ ok (some m) =
              sym (ap (λ b. if b then ok (some (n + 1)) else fault) small) ∙ e in
            let same : n + 1 ≡ m = cc in ground (arith, miss, same)
        | inr large ↦ absurd (ground (arith, e, large))
      ]
  next_length-lt (negsuc n) true mem_length m miss some_bytes e = absurd (cc)
  next_length-lt (negsuc n) false mem_length m miss some_bytes e =
      let doubled : mem_length * 2 ≡ m = cc in omega (arith, doubled, some_bytes)

  -- The rounds, one by one.
  printf_round : ℕ → Result (Option ℕ) → Result (Option Bytes)
  printf_round n fault = fault
  printf_round n stuck = stuck
  printf_round n (ok none) = ok none
  printf_round n (ok (some m)) =
      if ltb max_length m
      then ok none
      else if fits (vsnprintf m).result m
      then ok (some (assign (vsnprintf m)))
      else printf_loop n m (vsnprintf m)

  printf_loop-printf_round :
      (n mem_length : ℕ) (last : Printed)
      → printf_loop (suc n) mem_length last
        ≡ printf_round n (next_length last.result last.fails mem_length)
  unfolding printf_loop printf_round
  printf_loop-printf_round n mem_length last =
      by_next (next_length last.result last.fails mem_length) refl
    where
      by_next :
          (o : Result (Option ℕ))
          → next_length last.result last.fails mem_length ≡ o
          → printf_loop (suc n) mem_length last ≡ printf_round n o
      by_next fault e = rw (printf_loop, e) refl
      by_next stuck e = rw (printf_loop, e) refl
      by_next (ok none) e = rw (printf_loop, e) refl
      by_next (ok (some m)) e = rw (printf_loop, e) refl

next_length-ok :
    (z : ℤ) (f : Bool) (mem_length : ℕ)
    → IsBelowMax z
    → (o : Option ℕ) × (next_length z f mem_length ≡ ok o)
next_length-ok (pos n) f mem_length h = (some (n + 1), rw (lt→ltb (n + 1) (2 ^ 31) h) refl)
next_length-ok (negsuc n) true mem_length h = (none, refl)
next_length-ok (negsuc n) false mem_length h = (some (mem_length * 2), refl)

module _ (v v' : ℕ → Printed) (below : (m : ℕ) → IsBelowMax (v m).result)
    (same : (m : ℕ) → m ≤ 33554432 → v m ≡ v' m) where
  -- Both return, and the same.
  abbrev Agree : Result (Option Bytes) → Result (Option Bytes) → Type 0
  Agree x y = (r : Option Bytes) × (x ≡ ok r) × (y ≡ ok r)

  printf_round-Agree :
      (n : ℕ) (o : Option ℕ)
      → ((m : ℕ)
          → o ≡ some m
          → m ≤ 33554432
          → fits (v m).result m ≡ false
          → Agree (printf_loop v n m (v m)) (printf_loop v' n m (v m)))
      → Agree (printf_round v n (ok o)) (printf_round v' n (ok o))
  unfolding printf_round
  printf_round-Agree n none rec = (none, refl, refl)
  printf_round-Agree n (some m) rec = elim (Bool-cases (ltb max_length m)) [
    | inl large ↦ rw (large) (none, refl, refl)
    | inr small ↦
        let inside : m ≤ 33554432 = ground (arith, small) in
        elim (Bool-cases (fits (v m).result m)) [
          | inl fit ↦ rw (small, sym (same m inside), fit) (some (assign (v m)), refl, refl)
          | inr miss ↦ rw (small, sym (same m inside), miss) (rec m refl inside miss)
        ]
  ]

  printf_loop-Agree :
      (n mem_length : ℕ) (last : Printed)
      → 33554432 < n + mem_length
      → mem_length ≤ 33554432
      → 0 < mem_length
      → IsBelowMax last.result
      → fits last.result mem_length ≡ false
      → Agree (printf_loop v n mem_length last) (printf_loop v' n mem_length last)
  printf_loop-Agree zero mem_length last fuel le some_bytes max miss =
      absurd (omega (arith, fuel, le))
  printf_loop-Agree (suc n) mem_length last fuel le some_bytes max miss =
      let (o, e) = next_length-ok last.result last.fails mem_length max in
      let (r, x, y) = printf_round-Agree n o (λ m a inside h.
        let more =
          next_length-lt v last.result last.fails mem_length m miss some_bytes (e ∙ ap ok a) in
        printf_loop-Agree n m (v m) (omega (arith, more, fuel)) inside (omega (arith, more))
          (below m) h) in
      (
        r,
        printf_loop-printf_round v n mem_length last ∙ ap (printf_round v n) e ∙ x,
        printf_loop-printf_round v' n mem_length last ∙ ap (printf_round v' n) e ∙ y,
      )

  -- If no result of `vsnprintf` is the largest `int`, `StringPrintfV` returns, whatever the results
  -- are; and what it returns depends only on the calls with a buffer of at most 33554432 bytes: it
  -- is the same for a `vsnprintf` that differs for larger buffers.
  pub string_printf_v-ok :
      (r : Option Bytes) × (string_printf_v v ≡ ok r) × (string_printf_v v' ≡ ok r)
  unfolding string_printf_v
  string_printf_v-ok =
      let start : v 1024 ≡ v' 1024 = same 1024 (omega arith) in
      elim (Bool-cases (fits (v 1024).result 1024)) [
        | inl fit ↦ rw (sym start, fit) (some (assign (v 1024)), refl, refl)
        | inr miss ↦
            rw (sym start, miss)
              (printf_loop-Agree max_length 1024 (v 1024) (omega arith) (omega arith) (omega arith)
                (below 1024) miss)
      ]

module _ (vsnprintf : ℕ → Printed) where
  module _ (text : Bytes) (size : (m : ℕ) → (vsnprintf m).result ≡ pos (length text))
      (all : (m : ℕ) → length text < m → take (length text) (vsnprintf m).buf ≡ text) where
    assign-text : (m : ℕ) → length text < m → assign (vsnprintf m) ≡ text
    assign-text m h = rw (assign, size m) (all m h)

    fits-text : (m : ℕ) → fits (vsnprintf m).result m ≡ ltb (length text) m
    fits-text m = ap (λ z. fits z m) (size m)

    -- The second call is with a buffer of the size that the first one asked for.
    printf_round-text :
        (n : ℕ)
        → printf_round vsnprintf n (ok (some (length text + 1)))
          ≡ ok (if ltb (length text) max_length then some text else none)
    unfolding printf_round
    printf_round-text n = elim (Bool-cases (ltb max_length (length text + 1))) [
      | inl large ↦ ground (arith, large)
      | inr small ↦
          let fit : fits (vsnprintf (length text + 1)).result (length text + 1) ≡ true =
            fits-text (length text + 1) ∙ lt→ltb (length text) (length text + 1) (omega arith) in
          let inside : ltb (length text) max_length ≡ true = ground (arith, small) in
          rw (printf_round, small, fit, inside, assign-text (length text + 1) (omega arith)) refl
    ]

    -- For a `vsnprintf` that, as the C standard has it, gives the length of the whole text and puts
    -- the text into a buffer that is longer, if that length is below the largest `int`, `StringPrintfV` makes the text, if it is shorter than
    -- 32 MB, and leaves the string as it was if not.
    pub string_printf_v-text :
        length text + 1 < 2 ^ 31
        → string_printf_v vsnprintf ≡ ok (if ltb (length text) max_length then some text else none)
    unfolding string_printf_v
    string_printf_v-text below = elim (Bool-cases (ltb (length text) 1024)) [
      | inl short ↦
          let inside : ltb (length text) max_length ≡ true = ground (arith, short) in
          rw
            (
              string_printf_v,
              fits-text 1024 ∙ short,
              inside,
              assign-text 1024 (ground (arith, short)),
            )
            refl
      | inr long ↦
          let asked : next_length (pos (length text)) (vsnprintf 1024).fails 1024
              ≡ ok (some (length text + 1)) =
            rw (lt→ltb (length text + 1) (2 ^ 31) below) refl in
          rw (string_printf_v, fits-text 1024 ∙ long)
            (printf_loop-printf_round vsnprintf 33554431 1024 (vsnprintf 1024)
              ∙ ap
                  (λ z. printf_round vsnprintf 33554431 (next_length z (vsnprintf 1024).fails 1024))
                  (size 1024)
              ∙ ap (printf_round vsnprintf 33554431) asked
              ∙ printf_round-text 33554431)
    ]

-- `code_convert`, with `iconv` from UTF-8 to GBK: `none` if it cannot be opened, and else what it
-- writes, or that it fails; and with what the buffer holds behind that. `none` is the result -1. A
-- conversion that fails leaves the output as it was; one that succeeds takes the space that is
-- left in the buffer for the length of the output.
unfoldable pub code_convert :
    Option (Bytes → Option Bytes) → Bytes → Bytes → Bytes → Bytes → Bytes → Option Bytes
code_convert iconv junk from_charset to_charset input output =
    let f = to_lower from_charset in
    let is_utf8 = bytes_beq f (codes "utf8") || bytes_beq f (codes "utf-8") in
    let is_gbk = bytes_beq (to_lower to_charset) (codes "gbk") in
    if not is_utf8 || not is_gbk || is_empty input then none else elim iconv [
      | none ↦ none
      | some convert ↦ elim (convert input) [
        | none ↦ some output
        | some written ↦ some (take (length input * 2 - length written) (written ++ junk))
      ]
    ]

-- `utf8_to_gbk`
unfoldable pub utf8_to_gbk : Option (Bytes → Option Bytes) → Bytes → Bytes → Bytes → Option Bytes
unfolding code_convert
utf8_to_gbk iconv junk input output =
    code_convert iconv junk (codes "utf-8") (codes "gbk") input output

-- `gbk_to_utf8`: this direction is refused.
unfoldable pub gbk_to_utf8 : Option (Bytes → Option Bytes) → Bytes → Bytes → Bytes → Option Bytes
unfolding code_convert
gbk_to_utf8 iconv junk input output =
    code_convert iconv junk (codes "gbk") (codes "utf-8") input output
