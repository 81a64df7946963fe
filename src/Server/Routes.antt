-- ===== src/Server/Routes.antt =====
-- Which route `routeAndHandle` of src/main.c takes, and the answer where there is none.
use chttpd.Prelude.{
  ◌≡◌, refl, ap, inl, inr, Bool, true, false, ◌&&◌, Bool-cases, Option, none, some, List, [], ◌∷◌,
  ◌++◌, arith, All, if◌then◌else◌, length, All-of_append, ◌≢◌,
}
use chttpd.Libc.{Bytes, Result, ok, cstr, IsCStr, ◌>>=◌}
use chttpd.Libc.Text.{lower}
use chttpd.Util.Compare.{url_matches, urlcmp-url_matches, urlcmp_icase-lower}
use chttpd.Http.{HttpMethod, HttpRequest}
use mathlib.Core.Path.{subst}
use chttpd.Http.Query.{QueryPath}
use chttpd.Http.Query.Sound.{Denotes, parse_query_path-Denotes}
use chttpd.Http.Lines.{Stream}
use chttpd.Http.Request.{read_http_request, find_content_length}
use chttpd.Http.Request.RoundTrip.{IsRequest, print_request, read_http_request-print}
use chttpd.Error.{is_error, new_error, format_error}
use chttpd.Config.{Config, Route, method_eq}
use chttpd.Config.Invariant.{ConfigOk}
use chttpd.Intern.{send404_page}
use chttpd.Server.{
  Host, url_compare, find_route, route_and_handle, http_handler, handle_route, error_page,
}

-- Whether a route is for the path and the method.
unfoldable pub serves : Bool → Bytes → HttpMethod → Route → Bool
unfolding url_matches lower
serves ignore_case path method route =
    (if ignore_case
      then url_matches (lower path) (lower route.path)
      else url_matches path route.path)
    && method_eq method route.http_method

-- The first of the routes that serves, or none.
abbrev pub FirstServing : (Route → Bool) → List Route → Option Route → Type 0
FirstServing test routes none = All (λ r. test r ≡ false) routes
FirstServing test routes (some route) =
    (before : List Route) × (behind : List Route) × (routes ≡ before ++ route ∷ behind)
    × All (λ r. test r ≡ false) before
    × (test route ≡ true)

FirstServing-later :
    (test : Route → Bool) (r : Route) (routes : List Route) (found : Option Route)
    → test r ≡ false
    → FirstServing test routes found
    → FirstServing test (r ∷ routes) found
FirstServing-later test r routes none e f = (e, f)
FirstServing-later test r routes (some found) e (before, behind, splits, others, hit) =
    (r ∷ before, behind, ap (◌∷◌ r) splits, (e, others), hit)

pub url_compare-fits :
    (ignore_case : Bool) (u p : Bytes)
    → IsCStr u
    → IsCStr p
    → url_compare ignore_case (cstr u) (cstr p)
      ≡ ok (if ignore_case then url_matches (lower u) (lower p) else url_matches u p)
unfolding url_compare
url_compare-fits true u p h k = urlcmp_icase-lower u p [] [] h k
url_compare-fits false u p h k = urlcmp-url_matches u p [] [] h k

-- On terminated strings the search of `routeAndHandle` ends in bounds, and finds the first route
-- whose pattern fits the path, with or without regard to case, and whose method is the request's.
pub find_route-FirstServing :
    (ignore_case : Bool) (routes : List Route) (path : Bytes) (method : HttpMethod)
    → IsCStr path
    → All (λ (r : Route). IsCStr r.path) routes
    → (found : Option Route) × (find_route ignore_case routes path method ≡ ok found)
      × FirstServing (serves ignore_case path method) routes found
unfolding find_route serves
find_route-FirstServing ignore_case [] path method h k = (none, refl, tt)
find_route-FirstServing ignore_case (r ∷ routes) path method h k =
    let (found, finds, first) = find_route-FirstServing ignore_case routes path method h k.1 in
    let test = serves ignore_case path method in
    rw (url_compare-fits ignore_case path r.path h k.0)
      (elim (Bool-cases (serves ignore_case path method r)) [
        | inl e ↦ (some r, rw e refl, ([], routes, refl, tt, e))
        | inr e ↦ (found, rw e finds, FirstServing-later test r routes found e first)
      ])

-- The answer to a request, once its route is found: the page for 404, or what the handler of the
-- route writes and the page for the error that it leaves.
unfoldable pub answer : Host → Config → HttpRequest → Option Route → Result Bytes
answer host config r none = ok send404_page
answer host config r (some route) =
    handle_route host config route r (new_error 4096) >>= λ (written, error, blocks).
    ok (written ++ error_page error)

found-answer :
    (host : Host) (config : Config) (r : HttpRequest) (rest : Stream) (found : Option Route)
    → find_route config.ignore_case config.routes r.request_path r.method ≡ ok found
    → (fp : Stream) → read_http_request host.request_memory fp ≡ ok (r, rest)
    → http_handler host config fp ≡ answer host config r found
unfolding http_handler route_and_handle answer error_page is_error new_error format_error
found-answer host config r rest none e fp reads = rw (reads, http_handler) (rw e refl)
found-answer host config r rest (some route) e fp reads = rw (reads, http_handler) (rw e refl)

Denotes-path : (s : Bytes) (r : QueryPath) → IsCStr s → Denotes s r → IsCStr r.0
Denotes-path s (path, none, params) c d = subst IsCStr d.0 c
Denotes-path s (path, some query, params) c d =
    (All-of_append (λ c. c ≢ 0) path (b'?' ∷ query) (subst IsCStr d.0 c)).0

IsRequest-request_path :
    (name target : Bytes) (r : HttpRequest) → IsRequest name target r → IsCStr r.request_path
IsRequest-request_path name target r h =
    let c : IsCStr (b'/' ∷ target) = (omega arith, h.is_target.target_cstr) in
    Denotes-path (b'/' ∷ target) _ c
      (parse_query_path-Denotes (b'/' ∷ target) c h.is_target.target_says)

-- On a well-formed configuration, a request in good order that there is memory for is answered, whatever follows it on the
-- connection, by the first route that fits its path and method, and by the page for 404 where none
-- does.
pub http_handler-print :
    (host : Host) (config : Config) (name target : Bytes) (r : HttpRequest) (more : Stream)
    → ConfigOk config
    → IsRequest name target r
    → find_content_length r.headers ≡ ok r.content_length
    → host.request_memory r.content_length ≡ true
    → length r.body ≡ r.content_length
    → (found : Option Route) × FirstServing
        (serves config.ignore_case r.request_path r.method)
        config.routes
        found
      × (http_handler host config (print_request name target r.headers (r.body ++ more))
          ≡ answer host config r found)
http_handler-print host config name target r more c h announced given long =
    let p = IsRequest-request_path name target r h in
    let (found, finds, first) =
      find_route-FirstServing config.ignore_case config.routes r.request_path r.method p
        c.route_paths in
    (
      found,
      first,
      found-answer host config r more found finds _
          (read_http_request-print host.request_memory name target r more h announced given long),
    )
