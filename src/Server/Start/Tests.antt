-- ===== src/Server/Start/Tests.antt =====
-- A server started on the text `listen-port 80`, and a request to it.
use chttpd.Prelude.{◌≡◌, ◌↔◌, refl, true, Option, some, List, [], ◌∷◌}
use chttpd.Prelude.Int.{pos}
use chttpd.Libc.{
  Bytes, ok, strcmp_eq, atoi, isspace, until_nul, strchr, tolower, strncmp_eq, strlen,
}
use chttpd.Libc.Text.{codes}
use chttpd.Util.{slicecmp_icase}
use chttpd.Error.{new_error, is_error, format_error}
use chttpd.Pl2.{args_len, arg, part_str, deref, run_with_language}
use chttpd.Pl2.Parser.Lines.{parse}
use chttpd.Config.{Route, init_config}
use chttpd.Config.Commands.{config_port, out_of_range}
use chttpd.Config.Language.{get_cfg_language}
use chttpd.Config.Evaluate.{evaluate}
use chttpd.Config.Load.{load}
use chttpd.Http.{HttpMethod, parse_http_method_slice, http_method_names}
use chttpd.Http.Query.{parse_query_path}
use chttpd.Http.Lines.{read_http_line, getdelim, parse_http_first_line, skip_whitespace}
use chttpd.Http.Request.RoundTrip.{print_request}
use chttpd.Server.{http_handler}
use chttpd.Server.Routes.{serves, FirstServing, answer}
use chttpd.Intern.{send404_page}
use chttpd.Server.Loop.{Answer, Event, accept, turn, start, run, advance, accept_connection}
use chttpd.Server.Served.{chttpd_main-answers}
use chttpd.Server.Tests.{host, plain_request, plain_request-IsRequest, no_length}
use chttpd.Server.Start.{Platform, Serving, read_config, chttpd_main}
use chttpd.Server.Start.Outcome.{IsServing, chttpd_main_iff}

abbrev platform : Platform
platform = record {
  config_file = some (record { size = some 15; readable = codes "listen-port 80\n" });
  has_buffer = true;
  socket = some 3;
  reuse_addr = λ sock. true;
  inet_aton = λ address. some 0;
  bind = λ sock address port. true;
}

reads_text : read_config platform 2 ≡ some (codes "listen-port 80\n")
unfolding read_config
reads_text = refl

abbrev served : Serving
served = record { socket = 3; config = record init_config { port = pos 80 } }

starts : chttpd_main host.linker platform 2 ≡ ok (some served)
unfolding chttpd_main load parse evaluate run_with_language is_error new_error strcmp_eq
    get_cfg_language config_port args_len arg out_of_range atoi init_config isspace deref part_str
    until_nul
starts = refl

chttpd_main_iff_example :
    (chttpd_main host.linker platform 2 ≡ ok (some served))
    ↔ IsServing host.linker platform 2 served
chttpd_main_iff_example = chttpd_main_iff host.linker platform 2 served

abbrev printed : Bytes
printed = print_request (codes "GET") (codes "A/b") [] (codes "more")

abbrev one_request : List Event
one_request =
    accept (record {
      stream = printed;
      client_addr = codes "127.0.0.1";
      has_context = true;
      has_thread = true;
    })
    ∷ turn 0
    ∷ turn 0
    ∷ []

abbrev not_found : Answer
not_found = record { place = 0; written = send404_page }

answered : (run host served.config one_request start).answers ≡ not_found ∷ []
unfolding run advance accept_connection http_handler print_request read_http_line getdelim
    parse_http_first_line strchr parse_http_method_slice slicecmp_icase http_method_names tolower
    skip_whitespace isspace parse_query_path strncmp_eq strlen until_nul format_error init_config
answered = refl

connected : (run host served.config one_request start).connections ≡ printed ∷ []
unfolding run advance accept_connection http_handler print_request read_http_line getdelim
    parse_http_first_line strchr parse_http_method_slice slicecmp_icase http_method_names tolower
    skip_whitespace isspace parse_query_path strncmp_eq strlen until_nul format_error init_config
connected = refl

chttpd_main-answers_example :
    (found : Option Route) × FirstServing
      (serves served.config.ignore_case (codes "/A/b") HttpMethod.get)
      served.config.routes
      found
    × (answer host served.config plain_request found ≡ ok send404_page)
chttpd_main-answers_example =
    chttpd_main-answers host platform 2 served one_request 0 not_found (codes "GET") (codes "A/b")
      plain_request (codes "more") starts (λ p. cc, (λ p. cc, (λ p. cc, tt))) refl
      (rw answered refl) (rw connected refl) plain_request-IsRequest no_length refl
