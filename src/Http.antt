-- ===== src/Http.antt =====
-- src/http.c, include/http.h and include/http_base.h: methods and codes, and the record of a
-- request. The children read a request: its path and query, its lines, and the whole.
pub mod Method
pub mod Query
pub mod Lines
pub mod Request
mod Tests
use chttpd.Prelude.{
  ℕ, Bool, true, false, Option, none, some, List, [], ◌∷◌, ltb, ◌==◌, if◌then◌else◌,
}
use chttpd.Prelude.Int.{ℤ, pos, negsuc}
use chttpd.Libc.{Bytes, Result, ok, fault, out_of_bounds, ◌>>=◌, cstr}
use chttpd.Libc.Text.{codes}
use chttpd.Util.{StringPair, strcmp_icase, slicecmp_icase}

pub data HttpMethod : Type 0 where
  get post options : HttpMethod

-- The numbers of the enumeration, each a bit of its own.
unfoldable pub method_bit : HttpMethod → ℕ
method_bit HttpMethod.get = 1
method_bit HttpMethod.post = 2
method_bit HttpMethod.options = 4

unfoldable pub http_method_names : HttpMethod → Bytes
http_method_names HttpMethod.get = codes "GET"
http_method_names HttpMethod.post = codes "POST"
http_method_names HttpMethod.options = codes "OPTIONS"

-- The method, and whether `*error` is set. An unknown method comes back as `GET`.
unfoldable pub parse_http_method : Bytes → Result (HttpMethod × Bool)
parse_http_method method_str = do
  is_get ← strcmp_icase method_str (cstr (http_method_names HttpMethod.get))
  if is_get then ok (HttpMethod.get, false) else do
    is_post ← strcmp_icase method_str (cstr (http_method_names HttpMethod.post))
    if is_post then ok (HttpMethod.post, false) else do
      is_options ← strcmp_icase method_str (cstr (http_method_names HttpMethod.options))
      if is_options then ok (HttpMethod.options, false) else ok (HttpMethod.get, true)

-- The same of the slice from `begin` to `end`.
unfoldable pub parse_http_method_slice : Bytes → Result (HttpMethod × Bool)
parse_http_method_slice slice = do
  is_get ← slicecmp_icase slice (cstr (http_method_names HttpMethod.get))
  if is_get then ok (HttpMethod.get, false) else do
    is_post ← slicecmp_icase slice (cstr (http_method_names HttpMethod.post))
    if is_post then ok (HttpMethod.post, false) else do
      is_options ← slicecmp_icase slice (cstr (http_method_names HttpMethod.options))
      if is_options then ok (HttpMethod.options, false) else ok (HttpMethod.get, true)

-- The entries of `HTTP_CODE_NAMES` that are not `NULL`.
unfoldable pub http_code_names : ℕ → Option Bytes
http_code_names code =
    if code == 200
    then some (codes "Ok")
    else if code == 204
    then some (codes "No Content")
    else if code == 400
    then some (codes "Bad Request")
    else if code == 401
    then some (codes "Unauthorised")
    else if code == 403
    then some (codes "Forbidden")
    else if code == 404
    then some (codes "Not Found")
    else if code == 500
    then some (codes "Internal Server Error")
    else none

-- The table ends at its largest index, 500, and the index is not tested.
unfoldable pub http_code_name_safe : ℤ → Result Bytes
unfolding http_code_names
http_code_name_safe (negsuc n) = fault out_of_bounds
http_code_name_safe (pos n) =
    if ltb 500 n
    then fault out_of_bounds
    else ok (elim (http_code_names n) [ none ↦ codes "Unknown" | some name ↦ name ])

-- `query_string` is `none` for `NULL`; the vectors of pairs are lists.
pub record HttpRequest : Type 0 where
  pub method : HttpMethod
  pub content_length : ℕ
  pub request_path : Bytes
  pub query_string : Option Bytes
  pub params : List StringPair
  pub headers : List StringPair
  pub body : Bytes
