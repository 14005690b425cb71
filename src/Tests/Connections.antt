-- ===== src/Tests/Connections.antt =====
-- Concrete connections: a request in pieces, and a reply in writes.
use looka.Common.{
  ℕ, zero, suc, ◌≤◌, ◌<◌, List, [], ◌∷◌, ◌++◌, Option, some, length, replicate, true, allb, ltb,
  ◌^◌, All, ◌≡◌, ◌≢◌, refl, ap, arith,
}
use looka.Common.Bytes.{Bytes, codes}
use looka.Common.Int.{pos}
use looka.Common.Result.{ok, stuck}
use looka.Http.{HttpRequest, get_header_value}
use looka.Http.Parser.{parse_content, parse_header}
use looka.Http.Pieces.{ArePieces, stream}
use looka.Http.Reply.{HttpReply, status_ok, crlf}
use looka.Http.Returns.{handle_request-ne-stuck}
use looka.Http.Send.{
  serve, SocketWrite, takes, Takes, send_reply, send_reply-whole, send_reply-Takes,
}
use looka.Http.Serve.{serve-stream}
use looka.Http.Server.{answer, chunk_bytes, handle_request, reply_text}
use looka.Http.Whole.{declared_of, request_of, reply_to, handle_request-stream}
use looka.StrUtils.{atoi, isspace}

-- A handler that sends the content back.
abbrev echo : HttpRequest → Option (Bytes × Bytes)
echo req = some (req.content, codes "txt")

abbrev first : Bytes
first = codes "GET / HTTP/1.1" ++ (crlf ++ codes "Content-Le")

abbrev second : Bytes
second = codes "ngth: 2" ++ (crlf ++ (crlf ++ codes "a"))

abbrev pieces : List Bytes
pieces = first ∷ second ∷ codes "bc" ∷ []

handle_request-ne-stuck_example : handle_request echo pieces ≢ stuck
handle_request-ne-stuck_example = handle_request-ne-stuck echo pieces

all_nonzero : (s : Bytes) → allb (λ b. ltb 0 b) s ≡ true → All (λ b. b ≢ 0) s
all_nonzero [] h = tt
all_nonzero (b ∷ s) h = ((λ e. ground (arith, h, e)), all_nonzero s (ground (arith, h)))

are_pieces : ArePieces pieces
unfolding ArePieces
are_pieces = (
  ((λ e. cc), all_nonzero first refl),
  (((λ e. cc), all_nonzero second refl), (((λ e. cc), all_nonzero (codes "bc") refl), tt)),
)

few_bytes : chunk_bytes pieces < 2 ^ 31
unfolding chunk_bytes
few_bytes = omega arith

declares_two : declared_of (request_of (stream pieces)) ≡ pos 2
unfolding stream parse_header get_header_value atoi
declares_two = refl

handle_request-stream_example :
    handle_request echo pieces ≡ ok (reply_to echo 2 (request_of (stream pieces)))
handle_request-stream_example =
    handle_request-stream echo pieces 2 are_pieces few_bytes declares_two (omega arith)

abbrev reply : HttpReply
reply = record { status = status_ok; headers = []; content = codes "ab" }

abbrev writes : List SocketWrite
writes = replicate 200 (takes 0)

all_take : (n : ℕ) → All Takes (replicate n (takes 0))
all_take zero = tt
all_take (suc n) = (tt, all_take n)

small_reply : length (reply_text [] [] reply) < 2 ^ 31
unfolding reply_text
small_reply = omega arith

short : length (reply_text [] [] reply) ≤ length writes
unfolding reply_text
short = omega arith

send_reply-Takes_example : send_reply writes [] [] reply ≡ (reply_text [] [] reply, pos 0)
send_reply-Takes_example = send_reply-Takes writes [] [] reply small_reply (all_take 200) short

send_reply-whole_example : (send_reply writes [] [] reply).0 ≡ reply_text [] [] reply
send_reply-whole_example =
    send_reply-whole writes [] [] reply small_reply
      (ap (λ r. r.1) (send_reply-Takes writes [] [] reply small_reply (all_take 200) short))

abbrev echoed : HttpReply
echoed = reply_to echo 2 (request_of (stream pieces))

echoed_small : length (reply_text [] [] echoed) < 2 ^ 31
unfolding reply_text stream parse_header get_header_value answer parse_content isspace
echoed_small = omega arith

echoed_short : length (reply_text [] [] echoed) ≤ length writes
unfolding reply_text stream parse_header get_header_value answer parse_content isspace
echoed_short = omega arith

serve-stream_example : serve echo [] [] writes pieces ≡ ok (reply_text [] [] echoed, pos 0)
serve-stream_example =
    serve-stream echo [] [] writes pieces 2 are_pieces few_bytes declares_two (omega arith)
      echoed_small (all_take 200) echoed_short
