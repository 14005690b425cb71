-- ===== src/Http/Whole.antt =====
-- The request of a connection, as a function of all the bytes that the connection delivers.
use looka.Common.{
  ℕ, suc, ◌^◌, ◌<◌, List, [], ◌++◌, Option, none, some, true, false, if◌then◌else◌, leb, length,
  take, is_empty, ◌≡◌, refl, ap, sym, ◌∙◌, arith, length-append, Bool-cases, inl, inr,
}
use looka.Common.Bytes.{Bytes, codes}
use looka.Common.Int.{ℤ, pos}
use looka.Common.Result.{Result, ok, fault, stuck}
use looka.Http.{HttpRequest, new_http_request, get_header_value}
use looka.Http.Content.{content_of, read_content-stream}
use looka.Http.Parser.{parse_header, parse_content}
use looka.Http.Pieces.{ArePieces, stream, length-stream}
use looka.Http.Reply.{HttpReply, direct_reply, status_bad_request}
use looka.Http.Server.{
  chunk_bytes, read_header, read_content, answer, handle_content, handle_request,
}
use looka.StrUtils.{atoi}
use looka.Http.Head.{
  cut_header, header_of, RestIsPieces, read_header-stream, read_header-RestIsPieces, cut_header-le,
}

-- The number of bytes of content that a header declares; none is declared by an empty text.
abbrev pub declared : HttpRequest → ℤ
declared req =
    let length_str = get_header_value req (codes "Content-Length") in
    if is_empty length_str then pos 0 else atoi length_str

-- A header that parses, with what is behind it.
abbrev pub parsed : Option (Bytes × Bytes) → Option (HttpRequest × Bytes)
parsed none = none
parsed (some (header, body)) = elim (parse_header header new_http_request) [
  | none ↦ none
  | some req ↦ some (req, body)
]

parsed-some :
    (header body : Bytes) (req : HttpRequest)
    → parse_header header new_http_request ≡ some req
    → parsed (some (header, body)) ≡ some (req, body)
parsed-some header body req e = rw (parsed, e) refl

-- The request of all that a connection delivers, if there is one, with the rest of the bytes.
abbrev pub request_of : Bytes → Option (HttpRequest × Bytes)
request_of s = parsed (cut_header s)

-- What the request of a connection declares.
abbrev pub declared_of : Option (HttpRequest × Bytes) → ℤ
declared_of none = pos 0
declared_of (some (req, body)) = declared req

module _ (process : HttpRequest → Option (Bytes × Bytes)) where
  -- The answer once the content is read, or is too short.
  abbrev content_reply : HttpRequest → Option Bytes → HttpReply
  content_reply req none = direct_reply status_bad_request
  content_reply req (some content) = answer process (parse_content content req)

  abbrev pub content_result : HttpRequest → Result (Option (Bytes × List Bytes)) → Result HttpReply
  content_result req fault = fault
  content_result req stuck = stuck
  content_result req (ok none) = ok (direct_reply status_bad_request)
  content_result req (ok (some (content, rest))) = ok (answer process (parse_content content req))

  content_result-ok :
      (req : HttpRequest) (r : Result (Option (Bytes × List Bytes))) (o : Option Bytes)
      → content_of r ≡ ok o
      → content_result req r ≡ ok (content_reply req o)
  content_result-ok req fault o h = absurd (cc)
  content_result-ok req stuck o h = absurd (cc)
  content_result-ok req (ok none) o h =
      let same : none ≡ o = cc in ap (λ c. ok (content_reply req c)) same
  content_result-ok req (ok (some (content, rest))) o h =
      let same : some content ≡ o = cc in ap (λ c. ok (content_reply req c)) same

  -- The answer to a request of which all is there: with a content of `len` bytes, if the header
  -- declares one.
  abbrev pub reply_to : ℕ → Option (HttpRequest × Bytes) → HttpReply
  reply_to len none = direct_reply status_bad_request
  reply_to len (some (req, body)) =
      if is_empty (get_header_value req (codes "Content-Length"))
      then answer process req
      else content_reply req (if leb len (length body) then some (take len body) else none)

  module _ (req : HttpRequest) (behind : Bytes) (chunks : List Bytes) where
    abbrev pub length_str : Bytes
    length_str = get_header_value req (codes "Content-Length")

    pub handle_content_cases : handle_content process req behind chunks ≡ (
        if is_empty length_str
        then ok (answer process req)
        else content_result req (read_content (atoi length_str) behind chunks))
    unfolding handle_content
    handle_content_cases = refl

    handle_content_none :
        is_empty length_str ≡ true
        → handle_content process req behind chunks ≡ ok (answer process req)
    handle_content_none e = handle_content_cases ∙ rw (e) refl

    handle_content_read :
        (o : Option Bytes)
        → is_empty length_str ≡ false
        → content_of (read_content (atoi length_str) behind chunks) ≡ ok o
        → handle_content process req behind chunks ≡ ok (content_reply req o)
    handle_content_read o there h =
        handle_content_cases
        ∙ rw (there) (content_result-ok req (read_content (atoi length_str) behind chunks) o h)

    handle_content-stream :
        (len : ℕ)
        → declared req ≡ pos len
        → len < 2 ^ 31
        → length behind < 2 ^ 31
        → ArePieces chunks
        → handle_content process req behind chunks
          ≡ ok (reply_to len (some (req, behind ++ stream chunks)))
    handle_content-stream len d small few pieces =
        elim (Bool-cases (is_empty (get_header_value req (codes "Content-Length")))) [
          | inl absent ↦ handle_content_none absent ∙ ground (arith, absent)
          | inr there ↦
              handle_content_read _ there (
                ap (λ z. content_of (read_content z behind chunks)) (ground (arith, there, d))
                ∙ read_content-stream len behind chunks small few pieces)
              ∙ ground (arith, there)
        ]

  abbrev pub header_result : Result (Option (Bytes × Bytes × List Bytes)) → Result HttpReply
  header_result fault = fault
  header_result stuck = stuck
  header_result (ok none) = ok (direct_reply status_bad_request)
  header_result (ok (some (header, behind, rest))) = elim (parse_header header new_http_request) [
    | none ↦ ok (direct_reply status_bad_request)
    | some req ↦ handle_content process req behind rest
  ]

  pub handle_request_cases :
      (chunks : List Bytes)
      → handle_request process chunks
        ≡ header_result (read_header (suc (chunk_bytes chunks)) [] chunks)
  unfolding handle_request
  handle_request_cases chunks = refl

  header_result-parsed :
      (r : Result (Option (Bytes × Bytes × List Bytes))) (o : Option (Bytes × Bytes)) (len : ℕ)
      → header_of r ≡ ok o
      → RestIsPieces r
      → ((header body : Bytes) → o ≡ some (header, body) → length body < 2 ^ 31)
      → declared_of (parsed o) ≡ pos len
      → len < 2 ^ 31
      → header_result r ≡ ok (reply_to len (parsed o))
  header_result-parsed fault o len h rest few d small = absurd (cc)
  header_result-parsed stuck o len h rest few d small = absurd (cc)
  header_result-parsed (ok none) o len h rest few d small =
      let same : none ≡ o = cc in ap (λ q. ok (reply_to len (parsed q))) same
  header_result-parsed (ok (some (header, behind, chunks))) o len h rest few d small =
      let same : some (header, behind ++ stream chunks) ≡ o = cc in
      let total : length (behind ++ stream chunks) < 2 ^ 31 =
        few header (behind ++ stream chunks) (sym same) in
      by_parse (parse_header header new_http_request) refl
        (ap (λ q. declared_of (parsed q)) same ∙ d)
        (omega (arith, total, length-append behind (stream chunks)))
      ∙ ap (λ q. ok (reply_to len (parsed q))) same
    where
      by_parse :
          (q : Option HttpRequest)
          → parse_header header new_http_request ≡ q
          → declared_of (parsed (some (header, behind ++ stream chunks))) ≡ pos len
          → length behind < 2 ^ 31
          → header_result (ok (some (header, behind, chunks)))
            ≡ ok (reply_to len (parsed (some (header, behind ++ stream chunks))))
      by_parse none e d short = rw (header_result, parsed, e) refl
      by_parse (some req) e d short =
          let found = parsed-some header (behind ++ stream chunks) req e in
          let dr : declared req ≡ pos len = sym (ap declared_of found) ∙ d in
          rw (header_result, parsed, e)
            (handle_content-stream req behind chunks len dr small short rest)

  -- For a connection of fewer than 2 ^ 31 bytes, in pieces that are not empty and have no zero
  -- byte, whose request declares a length of its content that is not negative (or none),
  -- `HandleRequest` returns. Its reply is a function of all the bytes that the connection delivers,
  -- not of the pieces: 400 if there is no header, if the header does not parse or if the content
  -- is shorter than declared, and else the handler's answer to the request, with as many bytes of
  -- content as declared.
  pub handle_request-stream :
      (chunks : List Bytes) (len : ℕ)
      → ArePieces chunks
      → chunk_bytes chunks < 2 ^ 31
      → declared_of (request_of (stream chunks)) ≡ pos len
      → len < 2 ^ 31
      → handle_request process chunks ≡ ok (reply_to len (request_of (stream chunks)))
  handle_request-stream chunks len pieces few d small =
      handle_request_cases chunks
      ∙ header_result-parsed (read_header (suc (chunk_bytes chunks)) [] chunks)
          (cut_header (stream chunks)) len
          (read_header-stream (suc (chunk_bytes chunks)) [] chunks (omega arith) pieces)
          (read_header-RestIsPieces (suc (chunk_bytes chunks)) [] chunks pieces)
          (λ header body e.
            omega (arith, cut_header-le (stream chunks) header body e, length-stream chunks))
          d small
