-- ===== src/Http/Server.antt =====
-- src/http_frame/http_server.cpp: how one connection is read and answered. A connection is the
-- list of the pieces that the network delivers before the time is up: a read takes at most its
-- buffer from the first piece, and fails where no piece is left. The handler is a parameter.
use looka.Common.{
  ℕ, zero, suc, ◌+◌, ◌-◌, List, [], ◌∷◌, ◌++◌, Option, none, some, if◌then◌else◌, leb, ltb, length,
  take, drop, is_empty,
}
use looka.Common.Bytes.{Bytes, codes, find}
use looka.Common.Int.{ℤ, pos, negsuc, ◌-ℤ◌, wrap_int}
use looka.Common.Result.{Result, ok, fault, stuck}
use looka.File.{until_zero}
use looka.Http.{HttpRequest, new_http_request, get_header_value}
use looka.Http.Parser.{parse_header, parse_content}
use looka.Http.Reply.{
  HttpReply, add_header, direct_reply, extension_to_type, to_string, crlf, status_ok,
  status_bad_request, status_not_found,
}
use looka.StrUtils.{atoi, uint_to_string}

-- `HTTP_READ_BUF_SIZE`
abbrev pub read_buf_size : ℕ
read_buf_size = 1024

-- `ReadOnceTimeout`: `none` is a time-out, the end of the stream or an error.
unfoldable pub read_once : ℕ → List Bytes → Option (Bytes × List Bytes)
read_once n [] = none
read_once n ([] ∷ chunks) = none
read_once n ((c ∷ cs) ∷ chunks) =
    if leb (length (c ∷ cs)) n
    then some (c ∷ cs, chunks)
    else some (take n (c ∷ cs), drop n (c ∷ cs) ∷ chunks)

-- The bytes of a connection: each read takes one of them at least.
unfoldable pub chunk_bytes : List Bytes → ℕ
chunk_bytes [] = 0
chunk_bytes (c ∷ cs) = length c + chunk_bytes cs

-- `ReadHttpHeaderTimeout`, with fuel: the header, what was read behind it, and the connection.
-- `ahead += buf` appends a C string.
unfoldable pub read_header : ℕ → Bytes → List Bytes → Result (Option (Bytes × Bytes × List Bytes))
unfolding read_once until_zero
read_header zero ahead chunks = stuck
read_header (suc n) ahead chunks = elim (find (crlf ++ crlf) ahead) [
  | some p ↦ ok (some (take (p + 4) ahead, drop (p + 4) ahead, chunks))
  | none ↦ elim (read_once read_buf_size chunks) [
    | none ↦ ok none
    | some (buf, rest) ↦ read_header n (ahead ++ until_zero buf) rest
  ]
]

-- The loop of `ReadHttpContentTimeout`, with `left` bytes to read, and with fuel.
unfoldable pub read_left : ℕ → ℕ → Bytes → List Bytes → Result (Option (Bytes × List Bytes))
unfolding read_once until_zero
read_left n zero ahead chunks = ok (some (ahead, chunks))
read_left zero (suc left) ahead chunks = stuck
read_left (suc n) (suc left) ahead chunks =
    elim (read_once (if ltb read_buf_size (suc left) then read_buf_size else suc left) chunks) [
      | none ↦ ok none
      | some (buf, rest) ↦ read_left n (suc left - length buf) (ahead ++ until_zero buf) rest
    ]

-- `behind.substr(0, len)` where `behind` has more than `len` bytes: `substr(len)` throws for a
-- negative number.
unfoldable pub cut_content : ℤ → Bytes → List Bytes → Result (Option (Bytes × List Bytes))
cut_content (pos len) behind chunks = ok (some (take len behind, chunks))
cut_content (negsuc len) behind chunks = fault

-- `ReadHttpContentTimeout`: `none` is a result other than `len`.
unfoldable pub read_content : ℤ → Bytes → List Bytes → Result (Option (Bytes × List Bytes))
unfolding cut_content read_left wrap_int chunk_bytes
read_content len behind chunks = elim (wrap_int (len -ℤ pos (length behind))) [
  | negsuc _ ↦ cut_content len behind chunks
  | pos left ↦ read_left (suc (chunk_bytes chunks)) left behind chunks
]

module _ (process : HttpRequest → Option (Bytes × Bytes)) where
  -- The end of `HandleRequest`: the handler's answer, or 404.
  unfoldable pub answer : HttpRequest → HttpReply
  unfolding add_header uint_to_string extension_to_type direct_reply
  answer req = elim (process req) [
    | none ↦ direct_reply status_not_found
    | some (text, extension) ↦ add_header (codes "Content-Type") (extension_to_type extension) (
        add_header (codes "Content-Length") (uint_to_string (length text))
          (record { status = status_ok; headers = []; content = text }))
  ]

  -- `HandleRequest` behind the header.
  unfoldable pub handle_content : HttpRequest → Bytes → List Bytes → Result HttpReply
  unfolding get_header_value atoi read_content parse_content
  handle_content req behind chunks =
      let length_str = get_header_value req (codes "Content-Length") in
      if is_empty length_str
      then ok (answer req)
      else elim (read_content (atoi length_str) behind chunks) [
        | fault ↦ fault
        | stuck ↦ stuck
        | ok none ↦ ok (direct_reply status_bad_request)
        | ok (some (content, rest)) ↦ ok (answer (parse_content content req))
      ]

  -- `HandleRequest`
  unfoldable pub handle_request : List Bytes → Result HttpReply
  unfolding read_header parse_header handle_content chunk_bytes
  handle_request chunks = elim (read_header (suc (chunk_bytes chunks)) [] chunks) [
    | fault ↦ fault
    | stuck ↦ stuck
    | ok none ↦ ok (direct_reply status_bad_request)
    | ok (some (header, behind, rest)) ↦ elim (parse_header header new_http_request) [
      | none ↦ ok (direct_reply status_bad_request)
      | some req ↦ handle_content req behind rest
    ]
  ]

-- The text that `SendReply` writes, with the server's time and name.
unfoldable pub reply_text : Bytes → Bytes → HttpReply → Bytes
unfolding add_header to_string
reply_text time name reply =
    to_string (add_header (codes "Server") name (add_header (codes "Date") time reply))
