-- ===== src/Tests.antt =====
-- Concrete inputs: the theorems applied to them, and runs of the definitions.
mod Connections
mod Database
mod Printing
mod Programs
mod Large
mod Replies
mod Rows
mod Served
mod Stores
use Prim.Native.Nat.{ℕ, zero, suc, ◌≤◌, ◌<◌, ◌+◌, ◌^◌}
use mathlib.Core.Path.{subst, sym}
use looka.Common.{
  List, [], ◌∷◌, ◌++◌, Option, none, some, Bool, true, false, if◌then◌else◌, is_empty, length, take,
  drop, get_or, map, All, ◌≡◌, ◌≢◌, refl, arith,
}
use looka.Common.Bytes.{Bytes, codes, bytes_beq, contains}
use looka.Common.Int.{negsuc}
use looka.Common.Result.{ok}
use looka.Http.Parser.{is_blank}
use looka.Attr.{create_attr_names, get_string}
use looka.Attr.Strings.{get_string-create_attr_names}
use looka.StrUtils.{trim_by, drop_while, split_string, trim, int_to_string, atoi}
use looka.StrUtils.Numbers.{atoi-int_to_string}
use looka.StrUtils.Split.{join, split_string-join}
use looka.StrUtils.Trim.{last_byte, strip, trim_by-strip, trim_by-ne-nil}
use looka.StrUtils.Url.{url_encode, url_decode}
use looka.StrUtils.Url.RoundTrip.{url_decode-url_encode}

trim_by-strip_example : trim_by is_blank (codes " a b ") ≡ (
    if is_empty (drop_while is_blank (codes " a b "))
    then last_byte (codes " a b ")
    else strip is_blank (codes " a b "))
trim_by-strip_example = trim_by-strip is_blank (codes " a b ")

trim_by-ne-nil_example : trim_by is_blank (codes "  ") ≢ []
trim_by-ne-nil_example = trim_by-ne-nil is_blank (codes "  ") (λ e. cc)

atoi-int_to_string_example : atoi (int_to_string (negsuc 3999)) ≡ negsuc 3999
atoi-int_to_string_example = atoi-int_to_string (negsuc 3999) (omega arith)

url_decode-url_encode_example : url_decode (url_encode (codes "a b")) ≡ codes "a b"
url_decode-url_encode_example = url_decode-url_encode (codes "a b") (
  (omega arith, omega arith, omega arith),
  ((omega arith, omega arith, omega arith), ((omega arith, omega arith, omega arith), tt)),
)

split_string-join_example :
    split_string (join 44 (codes " a" ∷ codes "b" ∷ [])) 44 ≡ map trim (codes " a" ∷ codes "b" ∷ [])
split_string-join_example =
    split_string-join 44 (codes " a" ∷ codes "b" ∷ []) (omega arith)
      (
        ((omega arith, omega arith), ((omega arith, omega arith), tt)),
        (((omega arith, omega arith), tt), tt),
      )
      (λ e. cc)

get_string-create_attr_names_example :
    get_string (create_attr_names (codes "id" ∷ codes "price" ∷ []) (9 ∷ [])) 1
    ≡ some (get_or (codes "id" ∷ codes "price" ∷ []) 1 [])
get_string-create_attr_names_example =
    get_string-create_attr_names (codes "id" ∷ codes "price" ∷ []) (9 ∷ []) 1
      (omega arith, (omega arith, (omega arith, tt)), omega arith)
