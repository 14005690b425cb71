-- ===== src/Http/Serve.antt =====
-- A connection from the bytes that it delivers to the bytes that are sent back.
use looka.Common.{ℕ, ◌^◌, ◌<◌, ◌≤◌, List, Option, length, All, ◌≡◌, ap}
use looka.Common.Bytes.{Bytes}
use looka.Common.Int.{ℤ, pos}
use looka.Common.Result.{ok}
use looka.Http.{HttpRequest}
use looka.Http.Pieces.{ArePieces, stream}
use looka.Http.Reply.{HttpReply}
use looka.Http.Send.{SocketWrite, Takes, send_reply, send_reply-Takes, serve}
use looka.Http.Server.{chunk_bytes, handle_request, reply_text}
use looka.Http.Whole.{declared_of, request_of, reply_to, handle_request-stream}

serve-handled :
    (process : HttpRequest → Option (Bytes × Bytes)) (time name : Bytes) (writes : List SocketWrite)
    (chunks : List Bytes) (reply : HttpReply) (sent : Bytes × ℤ)
    → handle_request process chunks ≡ ok reply
    → send_reply writes time name reply ≡ sent
    → serve process time name writes chunks ≡ ok sent
unfolding serve
serve-handled process time name writes chunks reply sent e f = rw (serve, e) (ap ok f)

-- For a connection of fewer than 2 ^ 31 bytes, in pieces that are not empty and have no zero byte,
-- whose request declares a length of its content that is not negative (or none), and for a socket
-- that takes a byte at least in each write and as many writes as the reply has bytes, which are
-- fewer than 2 ^ 31: the round of
-- `Run` sends the whole text of the reply that belongs to all the bytes of the connection, and
-- `SendReply` reports success, however the bytes were cut into pieces on either way.
pub serve-stream :
    (process : HttpRequest → Option (Bytes × Bytes)) (time name : Bytes) (writes : List SocketWrite)
    (chunks : List Bytes) (len : ℕ)
    → ArePieces chunks
    → chunk_bytes chunks < 2 ^ 31
    → declared_of (request_of (stream chunks)) ≡ pos len
    → len < 2 ^ 31
    → length (reply_text time name (reply_to process len (request_of (stream chunks)))) < 2 ^ 31
    → All Takes writes
    → length (reply_text time name (reply_to process len (request_of (stream chunks))))
      ≤ length writes
    → serve process time name writes chunks
      ≡ ok (reply_text time name (reply_to process len (request_of (stream chunks))), pos 0)
serve-stream process time name writes chunks len pieces few declared small room takes enough =
    serve-handled process time name writes chunks _ _
      (handle_request-stream process chunks len pieces few declared small)
      (send_reply-Takes writes time name _ room takes enough)
