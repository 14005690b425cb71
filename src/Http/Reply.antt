-- ===== src/Http/Reply.antt =====
-- src/http_frame/http_reply.cpp and mime_type.hpp: a reply and its text.
use looka.Common.{List, [], ◌∷◌, ◌++◌, if◌then◌else◌, length, is_empty}
use looka.Common.Bytes.{Bytes, codes, bytes_beq}
use looka.Http.{Header}
use looka.StrUtils.{uint_to_string}

pub data StatusType : Type 0 where
  status_ok status_created status_accepted status_no_content : StatusType
  status_multiple_choices status_moved_permanently status_moved_temporarily : StatusType
  status_not_modified status_bad_request status_unauthorized status_forbidden : StatusType
  status_not_found status_internal_server_error status_not_implemented : StatusType
  status_bad_gateway status_service_unavailable : StatusType

-- The code and the reason of the table `static_status_string`.
unfoldable pub status_reason : StatusType → Bytes
status_reason status_ok = codes "200 OK"
status_reason status_created = codes "201 Created"
status_reason status_accepted = codes "202 Accepted"
status_reason status_no_content = codes "204 No Content"
status_reason status_multiple_choices = codes "300 Multiple Choices"
status_reason status_moved_permanently = codes "301 Moved Permanently"
status_reason status_moved_temporarily = codes "302 Moved Temporarily"
status_reason status_not_modified = codes "304 Not Modified"
status_reason status_bad_request = codes "400 Bad Request"
status_reason status_unauthorized = codes "401 Unauthorized"
status_reason status_forbidden = codes "403 Forbidden"
status_reason status_not_found = codes "404 Not Found"
status_reason status_internal_server_error = codes "500 Internal Server Error"
status_reason status_not_implemented = codes "501 Not Implemented"
status_reason status_bad_gateway = codes "502 Bad Gateway"
status_reason status_service_unavailable = codes "503 Service Unavailable"

abbrev pub crlf : Bytes
crlf = 13 ∷ 10 ∷ []

-- `StatusToString`
unfoldable pub status_to_string : StatusType → Bytes
unfolding status_reason
status_to_string st = codes "HTTP/1.1 " ++ (status_reason st ++ crlf)

-- A page of the table `static_status_html_string`.
html_page : Bytes → Bytes → Bytes
html_page title body =
    codes "<html><head><title>"
    ++ (title ++ (codes "</title></head><body><h1>" ++ (body ++ codes "</h1></body></html>")))

-- `StatusToHtmlString`: the heading of 204 has another text than its status line.
unfoldable pub status_to_html_string : StatusType → Bytes
unfolding html_page status_reason
status_to_html_string status_ok = []
status_to_html_string status_created = html_page (codes "Created") (status_reason status_created)
status_to_html_string status_accepted = html_page (codes "Accepted") (status_reason status_accepted)
status_to_html_string status_no_content = html_page (codes "No Content") (codes "204 Content")
status_to_html_string status_multiple_choices =
    html_page (codes "Multiple Choices") (status_reason status_multiple_choices)
status_to_html_string status_moved_permanently =
    html_page (codes "Moved Permanently") (status_reason status_moved_permanently)
status_to_html_string status_moved_temporarily =
    html_page (codes "Moved Temporarily") (status_reason status_moved_temporarily)
status_to_html_string status_not_modified =
    html_page (codes "Not Modified") (status_reason status_not_modified)
status_to_html_string status_bad_request =
    html_page (codes "Bad Request") (status_reason status_bad_request)
status_to_html_string status_unauthorized =
    html_page (codes "Unauthorized") (status_reason status_unauthorized)
status_to_html_string status_forbidden =
    html_page (codes "Forbidden") (status_reason status_forbidden)
status_to_html_string status_not_found =
    html_page (codes "Not Found") (status_reason status_not_found)
status_to_html_string status_internal_server_error =
    html_page (codes "Internal Server Error") (status_reason status_internal_server_error)
status_to_html_string status_not_implemented =
    html_page (codes "Not Implemented") (status_reason status_not_implemented)
status_to_html_string status_bad_gateway =
    html_page (codes "Bad Gateway") (status_reason status_bad_gateway)
status_to_html_string status_service_unavailable =
    html_page (codes "Service Unavailable") (status_reason status_service_unavailable)

pub record HttpReply : Type 0 where
  pub status : StatusType
  pub headers : List Header
  pub content : Bytes

unfoldable pub new_http_reply : HttpReply
new_http_reply = record { status = status_ok; headers = []; content = [] }

-- `AddHeader`: an empty name adds nothing.
unfoldable pub add_header : Bytes → Bytes → HttpReply → HttpReply
add_header name value reply =
    if is_empty name
    then reply
    else record reply { headers = reply.headers ++ (record { name = name; value = value } ∷ []) }

unfoldable pub header_lines : List Header → Bytes
header_lines [] = []
header_lines (h ∷ hs) = h.name ++ (codes ": " ++ (h.value ++ (crlf ++ header_lines hs)))

-- `ToString`
unfoldable pub to_string : HttpReply → Bytes
unfolding status_to_string header_lines
to_string reply =
    status_to_string reply.status ++ (header_lines reply.headers ++ (crlf ++ reply.content))

-- `DirectReply`
unfoldable pub direct_reply : StatusType → HttpReply
unfolding status_to_html_string add_header uint_to_string
direct_reply st =
    let content = status_to_html_string st in
    add_header (codes "Content-Type") (codes "text/html") (
      add_header (codes "Content-Length") (uint_to_string (length content))
        (record { status = st; headers = []; content = content }))

-- `MimeType::ExtensionToType`
unfoldable pub extension_to_type : Bytes → Bytes
extension_to_type e =
    if bytes_beq e (codes "gif")
    then codes "image/gif"
    else if bytes_beq e (codes "htm")
    then codes "text/html"
    else if bytes_beq e (codes "html")
    then codes "text/html"
    else if bytes_beq e (codes "jpg")
    then codes "image/jpeg"
    else if bytes_beq e (codes "png")
    then codes "image/png"
    else if bytes_beq e (codes "xml")
    then codes "text/xml"
    else if bytes_beq e (codes "json")
    then codes "application/json;charset=utf8"
    else codes "text/plain"
