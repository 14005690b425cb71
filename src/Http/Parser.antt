-- ===== src/Http/Parser.antt =====
-- src/http_frame/http_request_parser.cpp: the text of a request's header.
use looka.Common.{
  ℕ, zero, suc, ◌+◌, ◌-◌, ◌*◌, ◌%◌, ◌^◌, List, [], ◌∷◌, ◌++◌, Option, none, some, Bool, true, false,
  ◌||◌, if◌then◌else◌, ◌==◌, length, take, drop, is_empty,
}
use looka.Common.Bytes.{Bytes, codes, find, find_char, starts_with}
use looka.Http.{Header, HttpRequest}
use looka.Http.Reply.{crlf}
use looka.StrUtils.{trim_by, is_digit, drop_while, isspace}
use looka.StrUtils.Url.{url_decode}

-- The pieces behind the first separator: the last one only if it is not empty. With fuel.
split_rest : ℕ → Bytes → Bytes → List Bytes
split_rest zero sep s = []
split_rest (suc n) sep s = elim (find sep s) [
  | none ↦ if is_empty s then [] else s ∷ []
  | some i ↦ take i s ∷ split_rest n sep (drop (i + length sep) s)
]

-- `SplitString`: a text without the separator has no piece. A round drops the separator, so the
-- length and one is enough fuel.
unfoldable pub split_string : Bytes → Bytes → List Bytes
unfolding split_rest
split_string s sep = elim (find sep s) [
  | none ↦ []
  | some i ↦ take i s ∷ split_rest (suc (length s)) sep (drop (i + length sep) s)
]

unfoldable pub is_blank : ℕ → Bool
is_blank c = c == b' ' || c == b'\t'

-- `Trim`
unfoldable pub trim : Bytes → Bytes
unfolding trim_by is_blank
trim s = trim_by is_blank s

-- The digits at the front, whether there are any, and what is behind them.
unfoldable pub scan_digits : Bytes → ℕ → Bool → Option (ℕ × Bytes)
unfolding is_digit
scan_digits [] n seen = if seen then some (n, []) else none
scan_digits (c ∷ cs) n seen =
    if is_digit c
    then scan_digits cs (n * 10 + (c - b'0')) true
    else if seen
    then some (n, c ∷ cs)
    else none

-- `%u` of `sscanf`: a number past 32 bits, which C leaves undefined, wraps.
unfoldable pub scan_unsigned : Bytes → Option (ℕ × Bytes)
unfolding scan_digits drop_while
scan_unsigned s = elim (drop_while isspace s) [
  | [] ↦ none
  | c ∷ cs ↦
      if c == b'+'
      then scan_digits cs 0 false
      else if c == b'-'
      then elim (scan_digits cs 0 false) [
        | none ↦ none
        | some (n, rest) ↦ some ((2 ^ 32 - n % 2 ^ 32) % 2 ^ 32, rest)
      ]
      else scan_digits (c ∷ cs) 0 false
]

-- `sscanf(s, "HTTP/%u.%u", &major, &minor)`; `none` is a result other than 2.
unfoldable pub scan_version : Bytes → Option (ℕ × ℕ)
unfolding scan_unsigned
scan_version s =
    if starts_with (codes "HTTP/") s
    then elim (scan_unsigned (drop 5 s)) [
      | none ↦ none
      | some (major, rest) ↦
          if starts_with (codes ".") rest
          then elim (scan_unsigned (drop 1 rest)) [
            | none ↦ none
            | some (minor, _) ↦ some (major % 2 ^ 32, minor % 2 ^ 32)
          ]
          else none
    ]
    else none

-- The lines with a colon, as headers.
unfoldable pub header_pieces : List Bytes → List Header
unfolding trim
header_pieces [] = []
header_pieces (p ∷ ps) = elim (find_char b':' p) [
  | none ↦ header_pieces ps
  | some i ↦ record { name = trim (take i p); value = trim (drop (i + 1) p) } ∷ header_pieces ps
]

-- The first line, in three parts, and the headers.
first_line : List Bytes → List Bytes → HttpRequest → Option HttpRequest
unfolding scan_version header_pieces url_decode
first_line (method ∷ uri ∷ version ∷ []) rest req = elim (scan_version version) [
  | none ↦ none
  | some (major, minor) ↦ some (record req {
    http_version_major = major;
    http_version_minor = minor;
    method = method;
    uri = url_decode uri;
    headers = req.headers ++ header_pieces rest;
  })
]
first_line parts rest req = none

-- `ParseHeader`; `none` is the result -1.
unfoldable pub parse_header : Bytes → HttpRequest → Option HttpRequest
unfolding split_string first_line
parse_header header req = elim (split_string header crlf) [
  | [] ↦ none
  | p ∷ ps ↦ first_line (split_string p (codes " ")) ps req
]

-- `ParseContent`
unfoldable pub parse_content : Bytes → HttpRequest → HttpRequest
unfolding url_decode
parse_content content req = record req { content = url_decode content }
