-- ===== src/Config/Language.antt =====
-- `getCfgLanguage`: the table of the commands.
use chttpd.Prelude.{false, none, some, List, [], ◌∷◌}
use Prim.Native.String.{String}
use chttpd.Libc.Text.{codes}
use chttpd.Pl2.{PCallCmd, Language, Stub}
use chttpd.Dcgi.{Linker}
use chttpd.Config.{Config}
use chttpd.Config.Commands.{
  config_addr, config_port, config_pend, config_preload_dyn, config_ignore_case, config_cache_time,
  add_route, add_cors_config,
}

abbrev pub entry : String → Stub Config → PCallCmd Config
entry name stub = record {
  cmd_name = some (codes name);
  router_stub = none;
  stub = some stub;
  deprecated = false;
  removed = false;
}

unfoldable pub cfg_commands : Linker → List (PCallCmd Config)
cfg_commands linker =
    entry "listen-address" config_addr
    ∷ entry "listen-port" config_port
    ∷ entry "max-pending" config_pend
    ∷ entry "preload" config_preload_dyn
    ∷ entry "ignore-case" config_ignore_case
    ∷ entry "cache-time" config_cache_time
    ∷ entry "post" (add_route linker)
    ∷ entry "POST" (add_route linker)
    ∷ entry "Post" (add_route linker)
    ∷ entry "get" (add_route linker)
    ∷ entry "Get" (add_route linker)
    ∷ entry "GET" (add_route linker)
    ∷ entry "cors" add_cors_config
    ∷ entry "Cors" add_cors_config
    ∷ entry "CORS" add_cors_config
    ∷ []

unfoldable pub get_cfg_language : Linker → Language Config
unfolding cfg_commands
get_cfg_language linker = record { p_call_cmds = cfg_commands linker; fallback = none }
