-- ===== src/Server.antt =====
-- src/main.c: the handler of a connection, from the bytes that arrive to the bytes that are written,
-- the search for a route, and what there is of the answers to `OPTIONS`.
pub mod Cors
pub mod Loop
pub mod Routes
pub mod Served
pub mod Start
mod Tests
use chttpd.Prelude.{
  ℕ, Bool, true, false, not, ◌&&◌, ◌||◌, ◌+◌, ◌/◌, ◌%◌, Option, none, some, List, [], ◌∷◌, ◌++◌,
  ◌==◌, if◌then◌else◌,
}
use chttpd.Prelude.Int.{ℤ, pos, negsuc}
use chttpd.Libc.{Bytes, Result, ok, reject, fault, ◌>>=◌, cstr}
use chttpd.Libc.Text.{codes}
use chttpd.Util.{StringPair, strcmp_icase, urlcmp, urlcmp_icase}
use chttpd.Error.{Error, new_error, is_error, format_error}
use chttpd.Http.{HttpMethod, method_bit, HttpRequest}
use chttpd.Http.Lines.{Stream}
use chttpd.Http.Request.{read_http_request}
use chttpd.Pl2.{deref}
use chttpd.Dcgi.{Linker, at_line}
use chttpd.Dcgi.Handle.{DcgiMain, Outcome, handle_dcgi}
use chttpd.Static.{System, handle_static}
use chttpd.Intern.{handle_intern, send403_page, send404_page, send405_page, send500_page}
use chttpd.Config.{Config, Route, CorsConfig, HandlerType, method_eq}

-- What lies outside the program: the dynamic linker, the modules' functions, the file system.
pub record Host : Type 0 where
  pub linker : Linker
  pub dcgi_main : DcgiMain
  pub system : System
  -- whether there is memory for a request with a body of that length
  pub request_memory : ℕ → Bool

unfoldable pub url_compare : Bool → Bytes → Bytes → Result Bool
url_compare ignore_case = if ignore_case then urlcmp_icase else urlcmp

-- The loop of `routeAndHandle`, up to the route that it takes.
unfoldable pub find_route : Bool → List Route → Bytes → HttpMethod → Result (Option Route)
unfolding url_compare
find_route ignore_case [] path method = ok none
find_route ignore_case (route ∷ routes) path method =
    let others = find_route ignore_case routes path method in
    url_compare ignore_case (cstr path) (cstr route.path) >>= λ fits.
    if fits && method_eq method route.http_method then ok (some route) else others

-- An outcome with nothing to release.
abbrev pub plain : Bytes × Error → Outcome
plain (written, error) = (written, error, [])

unfoldable pub handle_route : Host → Config → Route → HttpRequest → Error → Result Outcome
unfolding handle_static handle_dcgi handle_intern
handle_route host config route request error = elim route.handler_type [
  | HandlerType.static ↦
      handle_static host.system route.handler_path config.cache_time error >>= λ r. ok (plain r)
  | HandlerType.dcgi ↦
      handle_dcgi host.linker host.dcgi_main route.handler_path route.extra request error
  | HandlerType.intern ↦ handle_intern route.handler_path error >>= λ e. ok (plain ([], e))
  | HandlerType.dir ↦ ok (
      plain (
        [],
        format_error error (at_line (codes "src/main.c") 285) (pos 500)
            (codes "DIR not supported yet"),
      ))
]

unfoldable pub route_and_handle : Host → Config → HttpRequest → Error → Result Outcome
unfolding find_route handle_route
route_and_handle host config request error =
    find_route config.ignore_case config.routes request.request_path request.method >>= λ found.
    elim found [
      | none ↦ ok (plain ([], format_error error (at_line (codes "src/main.c") 295) (pos 404) []))
      | some route ↦ handle_route host config route request error
    ]

abbrev pub has_code : ℕ → ℤ → Bool
has_code code (pos n) = n == code
has_code code (negsuc n) = false

-- The page that follows what the handler wrote.
unfoldable pub error_page : Error → Bytes
unfolding is_error send403_page send404_page send500_page
error_page error =
    if not (is_error error)
    then []
    else if has_code 403 error.err_code
    then send403_page
    else if has_code 404 error.err_code
    then send404_page
    else send500_page error

-- What is written to a connection on which the stream arrives: nothing where no request is read.
-- `fdopen` is taken to succeed.
unfoldable pub http_handler : Host → Config → Stream → Result Bytes
unfolding read_http_request route_and_handle error_page new_error
http_handler host config fp = elim (read_http_request host.request_memory fp) [
  | reject ↦ ok []
  | fault e ↦ fault e
  | ok (request, rest) ↦
      route_and_handle host config request (new_error 4096) >>= λ (written, error, blocks).
      ok (written ++ error_page error)
]

unfoldable pub respond_to_options_request : ℕ → Bytes
respond_to_options_request allowed_methods = if allowed_methods == 0 then send405_page else []

-- The loop of `isCorsRequest`, with its two flags. It looks for `Origin` among the values.
unfoldable pub cors_flags : List StringPair → Bool → Bool → Result Bool
cors_flags [] has_referer has_origin = ok (has_referer && has_origin)
cors_flags (header ∷ headers) has_referer has_origin =
    let referer = cors_flags headers true has_origin in
    let origin = cors_flags headers has_referer true in
    let neither = cors_flags headers has_referer has_origin in
    strcmp_icase (cstr header.first) (cstr (codes "Referer")) >>= λ is_referer.
    if is_referer
    then referer
    else (strcmp_icase (cstr header.second) (cstr (codes "Origin")) >>= λ is_origin.
        if is_origin then origin else neither)

unfoldable pub is_cors_request : HttpRequest → Result Bool
unfolding cors_flags
is_cors_request request = cors_flags request.headers false false

-- `ret | bit`, of a power of two.
unfoldable pub set_bit : ℕ → ℕ → ℕ
set_bit ret bit = if ret / bit % 2 == 1 then ret else ret + bit

-- The loop of `getAllowedCorsMethods`.
unfoldable pub allowed_methods :
    List CorsConfig → Bytes → (Bytes → Bytes → Result Bool) → ℕ → Result ℕ
unfolding set_bit
allowed_methods [] path compare ret = ok ret
allowed_methods (item ∷ items) path compare ret =
    let set = allowed_methods items path compare (set_bit ret (method_bit item.http_method)) in
    let same = allowed_methods items path compare ret in
    deref item.path >>= λ pattern.
    compare (cstr path) (cstr pattern) >>= λ fits. if fits then set else same

unfoldable pub get_allowed_cors_methods : Config → Bytes → (Bytes → Bytes → Result Bool) → Result ℕ
unfolding allowed_methods
get_allowed_cors_methods config path compare = allowed_methods config.cors_config path compare 0
