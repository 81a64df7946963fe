-- ===== src/Config.antt =====
-- src/config.c and include/config.h: the configuration and the commands of its language.
pub mod Commands
pub mod Evaluate
pub mod Invariant
pub mod Keeps
pub mod Language
pub mod Load
pub mod Parsed
pub mod Tables
mod Tests
use chttpd.Prelude.{
  ℕ, ◌-◌, ◌^◌, Bool, true, false, not, ◌&&◌, ◌||◌, Option, none, some, List, [], ◌∷◌, ◌==◌,
  if◌then◌else◌,
}
use chttpd.Prelude.Int.{ℤ, pos, negsuc}
use chttpd.Libc.{Bytes, Result, ok, ◌>>=◌, cstr, strcmp_eq}
use chttpd.Libc.Text.{codes}
use chttpd.Util.{strcmp_icase}
use chttpd.Http.{HttpMethod}
use chttpd.Pl2.{deref}
use chttpd.Dcgi.{DcgiModule}

pub data HandlerType : Type 0 where
  static dcgi intern dir : HandlerType

pub record Route : Type 0 where
  pub http_method : HttpMethod
  pub path : Bytes
  pub handler_type : HandlerType
  pub handler_path : Bytes
  pub extra : Option DcgiModule

-- A path may be `NULL`.
pub record CorsConfig : Type 0 where
  pub http_method : HttpMethod
  pub path : Option Bytes

pub record Config : Type 0 where
  pub address : Bytes
  pub port : ℤ
  pub max_pending : ℤ
  pub preload_dynamic : Bool
  pub ignore_case : Bool
  pub cache_time : ℤ
  pub routes : List Route
  pub cors_config : List CorsConfig

unfoldable pub init_config : Config
init_config = record {
  address = codes "127.0.0.1";
  port = pos 8080;
  max_pending = pos 16;
  preload_dynamic = false;
  ignore_case = true;
  cache_time = negsuc 0;
  routes = [];
  cors_config = [];
}

unfoldable pub handler_type_names : HandlerType → Bytes
handler_type_names HandlerType.static = codes "STATIC"
handler_type_names HandlerType.dcgi = codes "DCGI"
handler_type_names HandlerType.intern = codes "INTERN"
handler_type_names HandlerType.dir = codes "DIR"

-- The ladder of `addRoute`; `none` where no name fits.
unfoldable pub parse_handler_type : Bytes → Result (Option HandlerType)
parse_handler_type text =
    strcmp_icase text (cstr (handler_type_names HandlerType.static)) >>= λ is_static.
    if is_static
    then ok (some HandlerType.static)
    else (strcmp_icase text (cstr (handler_type_names HandlerType.dcgi)) >>= λ is_dcgi.
        if is_dcgi
        then ok (some HandlerType.dcgi)
        else (strcmp_icase text (cstr (handler_type_names HandlerType.intern)) >>= λ is_intern.
            if is_intern
            then ok (some HandlerType.intern)
            else (strcmp_icase text (cstr (handler_type_names HandlerType.dir)) >>= λ is_dir.
                if is_dir then ok (some HandlerType.dir) else ok none)))

abbrev pub method_eq : HttpMethod → HttpMethod → Bool
method_eq HttpMethod.get HttpMethod.get = true
method_eq HttpMethod.post HttpMethod.post = true
method_eq HttpMethod.options HttpMethod.options = true
method_eq _ _ = false

-- The loop of `addRoute` over the routes: whether one has the path and the method.
unfoldable pub route_exists : List Route → Bytes → HttpMethod → Result Bool
route_exists [] path method = ok false
route_exists (route ∷ routes) path method =
    let others = route_exists routes path method in
    strcmp_eq (cstr route.path) (cstr path) >>= λ same.
    if same && method_eq route.http_method method then ok true else others

-- The loop of `addCorsConfig`, which reads both paths.
unfoldable pub cors_exists : List CorsConfig → Option Bytes → HttpMethod → Result Bool
unfolding deref
cors_exists [] path method = ok false
cors_exists (item ∷ items) path method =
    let others = cors_exists items path method in
    deref path >>= λ p. deref item.path >>= λ q. strcmp_eq (cstr p) (cstr q) >>= λ same.
    if same && method_eq item.http_method method then ok true else others
