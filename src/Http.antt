-- ===== src/Http.antt =====
-- src/http_frame: header.hpp, http_request.hpp, and in the children the parser, the replies and
-- the connection handler of the server.
pub mod Content
pub mod Head
pub mod Parser
pub mod Pieces
pub mod Reply
pub mod Returns
pub mod Send
pub mod Serve
pub mod Server
pub mod Whole
use looka.Common.{ℕ, List, [], ◌∷◌, if◌then◌else◌}
use looka.Common.Bytes.{Bytes, bytes_beq}

pub record Header : Type 0 where
  pub name : Bytes
  pub value : Bytes

pub record HttpRequest : Type 0 where
  pub method : Bytes
  pub uri : Bytes
  pub http_version_major : ℕ
  pub http_version_minor : ℕ
  pub headers : List Header
  pub content : Bytes

abbrev pub new_http_request : HttpRequest
new_http_request = record {
  method = [];
  uri = [];
  http_version_major = 0;
  http_version_minor = 0;
  headers = [];
  content = [];
}

header_value : Bytes → List Header → Bytes
header_value name [] = []
header_value name (h ∷ hs) = if bytes_beq h.name name then h.value else header_value name hs

unfoldable pub get_header_value : HttpRequest → Bytes → Bytes
unfolding header_value
get_header_value r name = header_value name r.headers
