-- ===== src/Http/Send.antt =====
-- src/http_frame/http_server.cpp: how a reply is sent, and the rounds of one connection. What the
-- socket does is a list with an entry for each write: when it is used up, `select` times out. The
-- length of the reply is an `int` of `WriteTimeout`, and wraps around.
use native.Mathlib.Decide.{ℕ_discrete}
use looka.Common.{
  ℕ, suc, ◌+◌, ◌-◌, ◌^◌, ◌≤◌, ◌<◌, List, [], ◌∷◌, ◌++◌, Option, if◌then◌else◌, length, take, drop,
  All, ◌≡◌, refl, ap, sym, ◌∙◌, arith, take-append-drop, length-drop, leb,
}
use looka.Common.Bytes.{Bytes}
use looka.Common.Int.{ℤ, pos, negsuc, eqℤ, wrap_int, wrap_int-pos, wrap_int-negsuc}
use looka.Common.Result.{Result, ok, ◌>>=◌}
use looka.File.Index.{take-length}
use looka.Http.{HttpRequest}
use looka.Http.Reply.{HttpReply}
use looka.Http.Server.{handle_request, reply_text}

-- `select` says no, `write` fails, or it takes some bytes: one at least, and as many as are left
-- at most.
pub data SocketWrite : Type 0 where
  times_out : SocketWrite
  fails : SocketWrite
  takes : ℕ → SocketWrite

-- How many of `left` bytes a write takes that has room for `n + 1`.
abbrev pub taken : ℕ → ℕ → ℕ
taken n left = if leb (suc n) left then suc n else left

-- `while (left > 0)`, with the `left` bytes of the buffer and the number of bytes that are written:
-- what it sends from here on, and the result.
unfoldable pub write_loop : List SocketWrite → Bytes → ℕ → Bytes × ℤ
write_loop writes [] done = ([], pos done)
write_loop [] (b ∷ bs) done = ([], negsuc 0)
write_loop (times_out ∷ writes) (b ∷ bs) done = ([], negsuc 0)
write_loop (fails ∷ writes) (b ∷ bs) done = ([], pos done)
write_loop (takes n ∷ writes) (b ∷ bs) done =
    let k = taken n (length (b ∷ bs)) in
    let rest = write_loop writes (drop k (b ∷ bs)) (done + k) in (take k (b ∷ bs) ++ rest.0, rest.1)

-- `WriteTimeout`: `int left = buf_len` is negative for a buffer of 2 ^ 31 bytes and more, up to
-- 2 ^ 32; then nothing is written, and the result is `buf_len` as an `int`.
unfoldable pub write_timeout : List SocketWrite → Bytes → Bytes × ℤ
unfolding write_loop wrap_int
write_timeout writes buf = elim (wrap_int (pos (length buf))) [
  | pos left ↦ write_loop writes (take left buf) 0
  | negsuc n ↦ ([], negsuc n)
]

-- `WriteTimeout(...) != static_cast<int>(write_buf.length())`
abbrev pub is_sent : ℤ → ℕ → ℤ
is_sent r len = if eqℤ r (wrap_int (pos len)) then pos 0 else negsuc 0

-- `SendReply`: what is sent, and its result.
unfoldable pub send_reply : List SocketWrite → Bytes → Bytes → HttpReply → Bytes × ℤ
unfolding write_timeout reply_text wrap_int
send_reply writes time name reply =
    let write_buf = reply_text time name reply in
    let r = write_timeout writes write_buf in (r.0, is_sent r.1 (length write_buf))

-- A connection in `Run`: the request is handled and the reply sent, whatever either reports.
unfoldable pub serve :
    (HttpRequest → Option (Bytes × Bytes))
    → Bytes
    → Bytes
    → List SocketWrite
    → List Bytes
    → Result (Bytes × ℤ)
unfolding handle_request send_reply
serve process time name writes chunks = do
  reply ← handle_request process chunks
  ok (send_reply writes time name reply)

taken-le : (n left : ℕ) → taken n left ≤ left
taken-le n left = ground arith

taken-pos : (n left : ℕ) → 0 < left → 0 < taken n left
taken-pos n left h = ground (arith, h)

write_loop-whole :
    (writes : List SocketWrite) (buf : Bytes) (done : ℕ)
    → (write_loop writes buf done).1 ≡ pos (done + length buf)
    → (write_loop writes buf done).0 ≡ buf
unfolding write_loop
write_loop-whole writes [] done h = refl
write_loop-whole [] (b ∷ bs) done h = absurd (cc)
write_loop-whole (times_out ∷ writes) (b ∷ bs) done h = absurd (cc)
write_loop-whole (fails ∷ writes) (b ∷ bs) done h =
    (let e : done ≡ done + suc (length bs) = cc in absurd (omega (arith, e)))
write_loop-whole (takes n ∷ writes) (b ∷ bs) done h =
    let k = taken n (length (b ∷ bs)) in
    let total : done + length (b ∷ bs) ≡ done + k + length (drop k (b ∷ bs)) =
      omega (arith, taken-le n (length (b ∷ bs)), length-drop k (b ∷ bs)) in
    ap (λ s. take k (b ∷ bs) ++ s)
      (write_loop-whole writes (drop k (b ∷ bs)) (done + k) (h ∙ ap pos total))
    ∙ take-append-drop k (b ∷ bs)

-- Each write takes something.
abbrev pub Takes : SocketWrite → Type 0
Takes times_out = ⊥
Takes fails = ⊥
Takes (takes n) = Unit

write_loop-Takes :
    (writes : List SocketWrite) (buf : Bytes) (done : ℕ)
    → All Takes writes
    → length buf ≤ length writes
    → write_loop writes buf done ≡ (buf, pos (done + length buf))
unfolding write_loop
write_loop-Takes writes [] done h enough =
    (let e : done ≡ done + 0 = omega arith in ap (λ k. ([], pos k)) e)
write_loop-Takes [] (b ∷ bs) done h enough = absurd (omega arith)
write_loop-Takes (times_out ∷ writes) (b ∷ bs) done h enough = absurd h.0
write_loop-Takes (fails ∷ writes) (b ∷ bs) done h enough = absurd h.0
write_loop-Takes (takes n ∷ writes) (b ∷ bs) done h enough =
    let k = taken n (length (b ∷ bs)) in
    let le = taken-le n (length (b ∷ bs)) in
    let few = taken-pos n (length (b ∷ bs)) (omega arith) in
    let len = length-drop k (b ∷ bs) in
    let rest =
      write_loop-Takes writes (drop k (b ∷ bs)) (done + k) h.1 (omega (arith, enough, few, len)) in
    let total : done + k + length (drop k (b ∷ bs)) ≡ done + length (b ∷ bs) =
      omega (arith, le, len) in
    ap (λ (r : Bytes × ℤ). (take k (b ∷ bs) ++ r.0, r.1)) rest
    ∙ cc (take-append-drop k (b ∷ bs), total)

write_timeout-write_loop :
    (writes : List SocketWrite) (buf : Bytes)
    → length buf < 2 ^ 31
    → write_timeout writes buf ≡ write_loop writes buf 0
unfolding write_timeout
write_timeout-write_loop writes buf h =
    rw (write_timeout, wrap_int-pos (length buf) h, take-length buf) refl

zero_left : (n : ℕ) → n ≡ 0 + n
zero_left n = omega arith

write_timeout-negsuc :
    (writes : List SocketWrite) (buf : Bytes) (k : ℕ)
    → wrap_int (pos (length buf)) ≡ negsuc k
    → write_timeout writes buf ≡ ([], negsuc k)
unfolding write_timeout
write_timeout-negsuc writes buf k e = rw (write_timeout, e) refl

is_sent-length : (r : ℤ) (len : ℕ) → len < 2 ^ 31 → is_sent r len ≡ pos 0 → r ≡ pos len
is_sent-length r len h e =
    by_int r (sym (ap (λ z. if eqℤ r z then pos 0 else negsuc 0) (wrap_int-pos len h)) ∙ e)
  where
    by_int : (r : ℤ) → (if eqℤ r (pos len) then pos 0 else negsuc 0) ≡ pos 0 → r ≡ pos len
    by_int (pos n) e = elim (ℕ_discrete n len) [
      | yes same ↦ ap pos same
      | no differs ↦ absurd (ground (arith, e, differs))
    ]
    by_int (negsuc n) e = absurd (ground (arith, e))

module _ (writes : List SocketWrite) (time name : Bytes) (reply : HttpReply) where
  -- When `SendReply` reports success for a text of fewer than 2 ^ 31 bytes, it has sent the whole
  -- text of the reply.
  pub send_reply-whole :
      length (reply_text time name reply) < 2 ^ 31
      → (send_reply writes time name reply).1 ≡ pos 0
      → (send_reply writes time name reply).0 ≡ reply_text time name reply
  unfolding send_reply
  send_reply-whole small h =
      let text = reply_text time name reply in
      let same = write_timeout-write_loop writes text small in
      ap (λ r. r.0) same
      ∙ write_loop-whole writes text 0 (
          ap (λ r. r.1) (sym same)
          ∙ is_sent-length (write_timeout writes text).1 (length text) small h
          ∙ ap pos (zero_left (length text)))

  -- For a text of fewer than 2 ^ 31 bytes, `SendReply` sends the whole text and reports success if
  -- each write takes a byte at least and there are as many writes as the text has bytes, whatever
  -- each of them takes.
  pub send_reply-Takes :
      length (reply_text time name reply) < 2 ^ 31
      → All Takes writes
      → length (reply_text time name reply) ≤ length writes
      → send_reply writes time name reply ≡ (reply_text time name reply, pos 0)
  unfolding send_reply
  send_reply-Takes small h enough =
      let text = reply_text time name reply in
      let sent =
        write_timeout-write_loop writes text small ∙ write_loop-Takes writes text 0 h enough in
      let fits = wrap_int-pos (length text) small in
      ap (λ (r : Bytes × ℤ). (r.0, is_sent r.1 (length text)))
        (sent ∙ ap (λ k. (text, pos k)) (sym (zero_left (length text))))
      ∙ rw (fits) (ap (λ z. (text, z)) (is_sent_whole (length text)))
    where
      is_sent_whole : (n : ℕ) → (if eqℤ (pos n) (pos n) then pos 0 else negsuc 0) ≡ pos 0
      is_sent_whole n = ground arith

  -- For a text of 2 ^ 31 bytes and more, below 2 ^ 32, `SendReply` sends nothing and reports success,
  -- whatever the socket would take: the length is negative as an `int`.
  pub send_reply-negsuc :
      2 ^ 31 ≤ length (reply_text time name reply)
      → length (reply_text time name reply) < 2 ^ 32
      → send_reply writes time name reply ≡ ([], pos 0)
  unfolding send_reply
  send_reply-negsuc large small =
      let text = reply_text time name reply in
      let n = length text in
      let wraps = wrap_int-negsuc n large small in
      ap (λ (r : Bytes × ℤ). (r.0, is_sent r.1 n)) (write_timeout-negsuc writes text _ wraps)
      ∙ ap (λ z. ([], if eqℤ (negsuc (2 ^ 32 - 1 - n)) z then pos 0 else negsuc 0)) wraps
      ∙ ap (λ z. ([], z)) (is_sent_negsuc (2 ^ 32 - 1 - n))
    where
      is_sent_negsuc : (k : ℕ) → (if eqℤ (negsuc k) (negsuc k) then pos 0 else negsuc 0) ≡ pos 0
      is_sent_negsuc k = ground arith
