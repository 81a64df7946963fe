-- ===== src/Server/Loop/Tests.antt =====
-- Two connections, and some interleavings of their threads.
use chttpd.Prelude.{◌+◌, ◌^◌, ◌≤◌, ◌≡◌, ◌≢◌, arith, length, map, refl, true, List, [], ◌∷◌, All}
use chttpd.Libc.{
  Bytes, division_by_zero, ok, strchr, tolower, isspace, strncmp_eq, strlen, until_nul,
}
use chttpd.Util.{slicecmp_icase, urlcmp_icase}
use chttpd.Error.{format_error}
use chttpd.Http.Lines.{read_http_line, getdelim, parse_http_first_line, skip_whitespace}
use chttpd.Http.Query.{parse_query_path}
use chttpd.Libc.Text.{codes}
use chttpd.Http.{parse_http_method_slice, http_method_names}
use chttpd.Intern.{send404_page}
use chttpd.Server.{http_handler}
use chttpd.Server.Tests.{host, config, request}
use chttpd.Server.Loop.{
  Connection, Phase, HttpInputContext, Stage, State, Event, accept, accept_fails, turn, drop, start,
  worker_id, accept_connection, advance, run,
}
use chttpd.Server.Loop.Invariant.{count, places, answer_places, IsAnswer}
use chttpd.Server.Loop.Answers.{run-answers, run-worker_ids}
use chttpd.Server.Loop.Liveness.{Drains, run-Drains}
use chttpd.Server.Loop.Shutdown.{IsOpen, run-stage, run-released}

abbrev connection : Bytes → Connection
connection stream = record {
  stream = stream;
  client_addr = codes "127.0.0.1";
  has_context = true;
  has_thread = true;
}

abbrev get_c : Bytes
get_c = codes "GET /c HTTP/1.1\r\n\r\n"

abbrev opened : List Event
opened = accept (connection get_c) ∷ accept (connection (codes "\r\n")) ∷ []

abbrev mixed : List Event
mixed =
    accept (connection get_c) ∷ turn 0 ∷ accept (connection (codes "\r\n")) ∷ turn 1 ∷ turn 0 ∷ []

answers_404 : http_handler host config get_c ≡ ok send404_page
unfolding http_handler read_http_line getdelim parse_http_first_line strchr parse_http_method_slice
    slicecmp_icase http_method_names tolower skip_whitespace isspace parse_query_path strncmp_eq
    strlen urlcmp_icase until_nul format_error
answers_404 = refl

no_failure : All (λ e. e ≢ accept_fails) mixed
no_failure = (λ p. cc, (λ p. cc, (λ p. cc, (λ p. cc, (λ p. cc, tt)))))

run-answers_example :
    All
      (IsAnswer host config (run host config mixed start).connections)
      (run host config mixed start).answers
run-answers_example = run-answers host config mixed no_failure

few : length (run host config mixed start).connections ≤ 2 ^ 32
unfolding run advance accept_connection http_handler read_http_line getdelim parse_http_first_line
    strchr parse_http_method_slice slicecmp_icase http_method_names tolower skip_whitespace isspace
    parse_query_path strncmp_eq strlen urlcmp_icase until_nul format_error
few = omega arith

run-worker_ids_example :
    let s = run host config mixed start in
    count 1 (map worker_id (places s.workers)) + count 1 (map worker_id (answer_places s.answers))
    ≤ 1
run-worker_ids_example = run-worker_ids host config mixed 1 few

run-Drains_example :
    let s = run host config opened start in Drains host config s s.workers s.answers 4 s
unfolding run advance accept_connection http_handler read_http_line getdelim parse_http_first_line
    strchr
run-Drains_example =
    run-Drains host config opened refl ((send404_page, answers_404), (([], refl), tt))

run-stage_example :
    IsOpen host config (run host config mixed start).connections (run host config mixed start).stage
run-stage_example = run-stage host config mixed no_failure

abbrev caught : HttpInputContext
caught = record {
  place = 7;
  client_addr = codes "127.0.0.1";
  stream = get_c;
  phase = Phase.routing request;
}

abbrev busy : State
busy = record start { place = 8; workers = caught ∷ [] }

run-released_example :
    (run host config (accept_fails ∷ drop ∷ turn 0 ∷ []) busy).stage
    ≡ Stage.crashed division_by_zero
run-released_example = run-released host config busy [] [] caught request refl refl refl
