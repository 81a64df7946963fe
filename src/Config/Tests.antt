-- ===== src/Config/Tests.antt =====
-- A configuration of three commands, the last of which is refused.
use chttpd.Config.Load.{load, load-ConfigOk, load-ne_out_of_fuel, load-print}
use chttpd.Libc.{isdigit}
use chttpd.Pl2.Parser.{is_id_char, isalnum, mem, head_char}
use chttpd.Pl2.Printer.{Command, IsCommand, print_commands, numbered}
use chttpd.Pl2.Parser.Lines.{parse}
use chttpd.Libc.{until_nul}
use chttpd.Prelude.{◌≡◌, ◌≢◌, refl, true, false, none, some, List, [], ◌∷◌, arith, All}
use chttpd.Prelude.Int.{pos, negsuc}
use chttpd.Libc.{Bytes, ok, fault, out_of_fuel, strcmp_eq, atoi, tolower, isspace}
use chttpd.Libc.Text.{codes}
use chttpd.Error.{Error, no_source, new_error, is_error, format_error}
use chttpd.Http.{HttpMethod, parse_http_method, http_method_names}
use chttpd.Util.{strcmp_icase}
use chttpd.Config.Language.{get_cfg_language}
use chttpd.Config.Commands.{
  config_port, add_route, out_of_range, command_name, refuse, shown, push_route,
}
use chttpd.Pl2.{Cmd, CmdPart, Cmds, run_with_language, args_len, arg, part_str, deref}
use chttpd.Dcgi.{Linker}
use chttpd.Config.{
  Config, Route, HandlerType, init_config, parse_handler_type, handler_type_names, route_exists,
}
use chttpd.Config.Invariant.{ConfigOk, IsCmd, init_config-ConfigOk}
use chttpd.Config.Evaluate.{evaluate, evaluate-ConfigOk}

abbrev no_library : Linker
no_library = record {
  dlopen = λ lib. none;
  dlsym = λ handle name. none;
  dlclose = λ handle. true;
  dlerror = [];
}

abbrev word : Bytes → CmdPart
word s = record { str = some s; is_string = false }

abbrev command : Bytes → List CmdPart → Cmd
command name args = record { source_info = no_source; cmd = word name; args = args }

abbrev program : Cmds
program =
    command (codes "listen-port") (word (codes "80") ∷ [])
    ∷ command (codes "get") (word (codes "/a") ∷ word (codes "intern") ∷ word (codes "404") ∷ [])
    ∷ command (codes "get") (word (codes "/a") ∷ word (codes "static") ∷ word (codes "a") ∷ [])
    ∷ []

abbrev route_a : Route
route_a = record {
  http_method = HttpMethod.get;
  path = codes "/a";
  handler_type = HandlerType.intern;
  handler_path = codes "404";
  extra = none;
}

abbrev configured : Config
configured = record init_config { port = pos 80; routes = route_a ∷ [] }

abbrev left_error : Error
left_error = record {
  source_info = no_source;
  err_code = negsuc 0;
  buffer_size = 4096;
  error_buffer = codes "get: handler for path \"/a\" already exists";
}

runs : evaluate no_library program init_config (new_error 4096) ≡ ok (configured, left_error)
unfolding evaluate run_with_language is_error new_error strcmp_eq get_cfg_language config_port
    args_len arg out_of_range atoi add_route parse_http_method strcmp_icase http_method_names
    tolower parse_handler_type handler_type_names route_exists init_config format_error isspace
    deref part_str command_name refuse shown push_route
runs = refl

program-IsCmd : All IsCmd program
program-IsCmd = ground arith

evaluate-ConfigOk_example : ConfigOk configured
evaluate-ConfigOk_example =
    evaluate-ConfigOk no_library program init_config configured (new_error 4096) left_error
      init_config-ConfigOk program-IsCmd runs

abbrev text : Bytes
text = codes "listen-port 80\n"

abbrev port_only : Config
port_only = record init_config { port = pos 80 }

loads : load no_library text ≡ ok (port_only, new_error 4096)
unfolding load parse evaluate run_with_language is_error new_error strcmp_eq get_cfg_language
    config_port args_len arg out_of_range atoi init_config isspace deref part_str until_nul
loads = refl

load-ConfigOk_example : ConfigOk port_only
load-ConfigOk_example = load-ConfigOk no_library text loads

load-ne_out_of_fuel_example : load no_library text ≢ fault out_of_fuel
load-ne_out_of_fuel_example = load-ne_out_of_fuel no_library text

abbrev port_command : Command
port_command = record {
  name = record { slice = codes "listen-port"; is_string = false };
  args = record { slice = codes "80"; is_string = true } ∷ [];
}

port_command-IsCommand : IsCommand port_command
unfolding is_id_char isalnum isdigit mem head_char
port_command-IsCommand = ground arith

load-print_example :
    load no_library (print_commands (port_command ∷ []))
    ≡ evaluate no_library (numbered 2 (port_command ∷ [])) init_config (new_error 4096)
load-print_example =
    load-print no_library (port_command ∷ []) (port_command-IsCommand, tt) (omega arith, tt)
