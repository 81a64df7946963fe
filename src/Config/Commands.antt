-- ===== src/Config/Commands.antt =====
-- The commands of the configuration language: each returns the next command and the new state, or
-- no command and the error.
use chttpd.Prelude.{
  ◌-◌, ◌^◌, Bool, true, false, not, ◌&&◌, ◌||◌, Option, none, some, [], ◌∷◌, ◌++◌, ◌==◌,
  if◌then◌else◌,
}
use chttpd.Prelude.Int.{ℤ, pos, negsuc, leb_ℤ}
use chttpd.Libc.{Bytes, Result, ok, ◌>>=◌, cstr, strcmp_eq, atoi}
use chttpd.Libc.Text.{codes}
use chttpd.Util.{strcmp_icase}
use chttpd.Error.{Error, is_error, format_error}
use chttpd.Http.{HttpMethod, parse_http_method}
use chttpd.Pl2.{Cmd, Cmds, Stub, args_len, part_str, deref, arg}
use chttpd.Dcgi.{Linker, load_dcgi_module}
use chttpd.Config.{
  Config, Route, HandlerType, parse_handler_type, method_eq, route_exists, cors_exists,
}

-- What `%s` prints.
unfoldable pub shown : Option Bytes → Bytes
shown none = codes "(null)"
shown (some s) = s

unfoldable pub command_name : Cmd → Bytes
unfolding shown
command_name command = shown command.cmd.str

-- `formatError(error, command->sourceInfo, -1, …)` and `return NULL`.
unfoldable pub refuse : Config → Cmd → Error → Bytes → Result (Cmds × Config × Error)
refuse config command error text =
    ok ([], config, format_error error command.source_info (negsuc 0) text)

unfoldable pub config_addr : Stub Config
config_addr config command next error =
    if not (args_len command == 1)
    then refuse config command error (codes "listen-address: expects exactly one argument")
    else (arg command 0 >>= λ address. ok (next, record config { address = address }, error))

abbrev pub int_min : ℤ
int_min = negsuc (2 ^ 31 - 1)

abbrev pub eq_ℤ : ℤ → ℤ → Bool
eq_ℤ a b = leb_ℤ a b && leb_ℤ b a

-- The test of `configIntAttr`: a bound of `INT_MIN` is none, and the others are excluded.
unfoldable pub out_of_range : ℤ → ℤ → ℤ → Bool
out_of_range lower_bound upper_bound value =
    not (eq_ℤ lower_bound int_min) && leb_ℤ value lower_bound
    || not (eq_ℤ upper_bound int_min) && leb_ℤ upper_bound value

-- `dest` is written by `store`.
unfoldable pub config_int_attr : (ℤ → Config → Config) → ℤ → ℤ → Stub Config
config_int_attr store lower_bound upper_bound config command next error =
    if not (args_len command == 1)
    then refuse config command error
        (command_name command ++ codes ": expects exactly one argument")
    else (arg command 0 >>= λ text.
        if out_of_range lower_bound upper_bound (atoi text)
        then refuse config command error (command_name command ++ codes ": invalid value: " ++ text)
        else ok (next, store (atoi text) config, error))

-- The value that a word stands for: `true` and `false` in any case, `1` and `0`.
unfoldable pub parse_bool : Bytes → Result (Option Bool)
parse_bool text = strcmp_icase (cstr text) (cstr (codes "true")) >>= λ is_true.
    strcmp_eq (cstr text) (cstr (codes "1")) >>= λ is_one.
    if is_true || is_one
    then ok (some true)
    else (strcmp_icase (cstr text) (cstr (codes "false")) >>= λ is_false.
        strcmp_eq (cstr text) (cstr (codes "0")) >>= λ is_zero.
        if is_false || is_zero then ok (some false) else ok none)

unfoldable pub config_bool_attr : (Bool → Config → Config) → Stub Config
config_bool_attr store config command next error =
    if not (args_len command == 1)
    then refuse config command error
        (command_name command ++ codes ": expects exactly one argument")
    else (arg command 0 >>= λ text. parse_bool text >>= λ value. elim value [
      | some b ↦ ok (next, store b config, error)
      | none ↦
          refuse config command error
            (command_name command ++ codes ": expects 'true', 'false', '1' or '0'")
    ])

unfoldable pub config_port : Stub Config
unfolding config_int_attr
config_port = config_int_attr (λ n config. record config { port = n }) (pos 0) (pos 65536)

unfoldable pub config_pend : Stub Config
unfolding config_int_attr
config_pend = config_int_attr (λ n config. record config { max_pending = n }) int_min int_min

unfoldable pub config_preload_dyn : Stub Config
unfolding config_bool_attr
config_preload_dyn = config_bool_attr (λ b config. record config { preload_dynamic = b })

unfoldable pub config_ignore_case : Stub Config
unfolding config_bool_attr
config_ignore_case = config_bool_attr (λ b config. record config { ignore_case = b })

unfoldable pub config_cache_time : Stub Config
unfolding config_int_attr
config_cache_time =
    config_int_attr (λ n config. record config { cache_time = n }) (negsuc 0) (pos 31536000)

unfoldable pub push_route : Config → Route → Config
push_route config route = record config { routes = config.routes ++ route ∷ [] }

abbrev pub is_dcgi : HandlerType → Bool
is_dcgi HandlerType.dcgi = true
is_dcgi _ = false

-- The end of `addRoute`: a DCGI route loads its module now if modules are preloaded.
unfoldable pub finish_route : Linker → Route → Stub Config
unfolding push_route
finish_route linker route config command next error =
    if is_dcgi route.handler_type && config.preload_dynamic
    then (let (extra, error') = load_dcgi_module linker route.handler_path error in
        if is_error error'
        then ok ([], config, error')
        else ok (next, push_route config (record route { extra = extra }), error'))
    else ok (next, push_route config route, error)

unfoldable pub add_route : Linker → Stub Config
unfolding finish_route
add_route linker config command next error =
    if not (args_len command == 3)
    then refuse config command error
        (command_name command ++ codes ": expect exactly three arguments")
    else (deref command.cmd.str >>= λ name. parse_http_method (cstr name) >>= λ (method, unknown).
        arg command 1 >>= λ type_name. parse_handler_type (cstr type_name) >>= λ found. elim found [
          | none ↦
              refuse config command error
                (command_name command ++ codes ": incorrect handler type: " ++ type_name)
          | some handler_type ↦ arg command 0 >>= λ path.
              route_exists config.routes path method >>= λ exists.
              if exists
              then refuse config command error (
                  command_name command
                  ++ codes ": handler for path \""
                  ++ path
                  ++ codes "\" already exists")
              else (arg command 2 >>= λ handler.
                  finish_route linker
                    (record {
                      http_method = method;
                      path = path;
                      handler_type = handler_type;
                      handler_path = handler;
                      extra = none;
                    })
                    config command next error)
        ])

unfoldable pub push_cors : Config → HttpMethod → Option Bytes → Config
push_cors config method path = record config {
  cors_config = config.cors_config ++ (record { http_method = method; path = path }) ∷ [];
}

-- A wrong number of arguments sets the error, and the function goes on.
unfoldable pub check_cors_args : Cmd → Error → Error
check_cors_args command error =
    if not (args_len command == 2)
    then format_error error command.source_info (negsuc 0)
        (command_name command ++ codes ": expect exactly two arguments")
    else error

unfoldable pub add_cors_config : Stub Config
unfolding push_cors check_cors_args
add_cors_config config command next error =
    let error' = check_cors_args command error in
    arg command 0 >>= λ method_str. parse_http_method (cstr method_str) >>= λ (method, unknown).
    if unknown
    then refuse config command error'
        (command_name command ++ codes ": incorrect method type: " ++ method_str)
    else if method_eq method HttpMethod.options
    then refuse config command error'
        (command_name command ++ codes ": appointing `OPTIONS` method is invalid")
    else (part_str command.args 1 >>= λ path.
        cors_exists config.cors_config path method >>= λ exists.
        if exists
        then refuse config command error' (
            codes "cors config for \""
            ++ method_str
            ++ codes " "
            ++ shown path
            ++ codes "\" already exists")
        else ok (next, push_cors config method path, error'))
