-- ===== src/Server/Tests.antt =====
-- A server with two routes, and requests to it.
use chttpd.Prelude.{ℕ, ◌≡◌, ◌≢◌, refl, true, false, ◌&&◌, Option, none, some, List, [], ◌∷◌, arith}
use chttpd.Prelude.Int.{pos, negsuc}
use chttpd.Libc.{Bytes, ok, tolower, until_nul}
use chttpd.Libc.Text.{codes, bytes_eq, lower}
use chttpd.Util.{StringPair, slicecmp_icase}
use chttpd.Http.{HttpMethod, HttpRequest, http_method_names, parse_http_method_slice}
use chttpd.Http.Query.{parse_query_path}
use chttpd.Http.Request.{find_content_length}
use chttpd.Http.Request.RoundTrip.{IsRequest, print_request}
use chttpd.Config.{Config, Route, HandlerType, method_eq}
use chttpd.Config.Invariant.{ConfigOk}
use chttpd.Server.{
  Host, url_compare, find_route, http_handler, is_cors_request, get_allowed_cors_methods,
}
use chttpd.Server.Routes.{serves, FirstServing, find_route-FirstServing, answer, http_handler-print}
use chttpd.Server.Cors.{
  any, says, is_cors_request-any, allows, fits_item, get_allowed_cors_methods-any,
}

abbrev pub host : Host
host = record {
  linker = record {
    dlopen = λ lib. none;
    dlsym = λ handle name. none;
    dlclose = λ handle. true;
    dlerror = [];
  };
  dcgi_main = λ address request. record {
    res = pos 200;
    header_dest = some [];
    data_dest = none;
    err_dest = none;
  };
  system = record { fopen = λ path. none; malloc = λ n. true; errno = 0 };
  request_memory = λ n. true;
}

abbrev intern_route : Bytes → Bytes → Route
intern_route path page = record {
  http_method = HttpMethod.get;
  path = path;
  handler_type = HandlerType.intern;
  handler_path = page;
  extra = none;
}

abbrev routes : List Route
routes = intern_route (codes "!/a") (codes "403") ∷ intern_route (codes "/a") (codes "500") ∷ []

abbrev pub config : Config
config = record {
  address = codes "127.0.0.1";
  port = pos 8080;
  max_pending = pos 16;
  preload_dynamic = false;
  ignore_case = true;
  cache_time = negsuc 0;
  routes = routes;
  cors_config = (record { http_method = HttpMethod.post; path = some (codes "/a") }) ∷ [];
}

abbrev pair : Bytes → Bytes → StringPair
pair a b = record { first = a; second = b }

abbrev pub request : HttpRequest
request = record {
  method = HttpMethod.get;
  content_length = 0;
  request_path = codes "/A/b";
  query_string = none;
  params = [];
  headers = pair (codes "Referer") (codes "x") ∷ pair (codes "X") (codes "origin") ∷ [];
  body = [];
}

find_route-FirstServing_example :
    (found : Option Route) × (find_route true routes (codes "/A/b") HttpMethod.get ≡ ok found)
    × FirstServing (serves true (codes "/A/b") HttpMethod.get) routes found
find_route-FirstServing_example =
    find_route-FirstServing true routes (codes "/A/b") HttpMethod.get (ground arith) (ground arith)

is_cors_request-any_example : is_cors_request request ≡ ok true
unfolding any says bytes_eq lower tolower
is_cors_request-any_example = is_cors_request-any request (ground arith)

get_allowed_cors_methods-any_example :
    (k : ℕ) × (get_allowed_cors_methods config (codes "/A/b") (url_compare true) ≡ ok k)
    × ((m : HttpMethod)
        → allows k m
          ≡ any
              (λ i. fits_item true (codes "/A/b") i && method_eq m i.http_method)
              config.cors_config)
get_allowed_cors_methods-any_example =
    get_allowed_cors_methods-any config true (codes "/A/b") (ground arith)
      ((codes "/a", refl, ground arith), tt)

names_differ : codes "!/a" ≢ codes "/a"
names_differ = λ p. cc

config-ConfigOk : ConfigOk config
config-ConfigOk = record {
  port_low = omega arith;
  port_high = omega arith;
  cache_low = omega arith;
  cache_high = omega arith;
  route_paths = ground arith;
  routes_distinct = ((λ (p, q). names_differ p, tt), (tt, tt));
  cors_paths = ground arith;
  cors_methods = (λ p. cc, tt);
  cors_distinct = (tt, tt);
}

abbrev pub plain_request : HttpRequest
plain_request = record request { headers = [] }

names_get : parse_http_method_slice (codes "GET") ≡ ok (HttpMethod.get, false)
unfolding parse_http_method_slice slicecmp_icase http_method_names tolower
names_get = refl

reads_path : parse_query_path (codes "/A/b") ≡ ok (codes "/A/b", none, [])
unfolding parse_query_path until_nul
reads_path = refl

pub plain_request-IsRequest : IsRequest (codes "GET") (codes "A/b") plain_request
plain_request-IsRequest = record {
  name_cstr = ground arith;
  name_plain = ground arith;
  name_line = ground arith;
  names_method = names_get;
  is_target = record {
    target_cstr = ground arith;
    target_plain = ground arith;
    target_line = ground arith;
    target_says = reads_path;
  };
  header_lines = tt;
}

pub no_length : find_content_length [] ≡ ok 0
unfolding find_content_length
no_length = refl

http_handler-print_example :
    (found : Option Route) × FirstServing (serves true (codes "/A/b") HttpMethod.get) routes found
    × (http_handler host config (print_request (codes "GET") (codes "A/b") [] (codes "more"))
        ≡ answer host config plain_request found)
http_handler-print_example =
    http_handler-print host config (codes "GET") (codes "A/b") plain_request (codes "more")
      config-ConfigOk plain_request-IsRequest no_length refl refl
