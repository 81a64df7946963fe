-- ===== src/Server/Served.antt =====
-- src/main.c as a whole: from the text of the configuration file to the bytes on a connection.
use chttpd.Prelude.{
  ℕ, zero, suc, true, ◌≡◌, ◌≢◌, sym, ◌∙◌, Option, some, List, [], ◌∷◌, ◌++◌, All, length, get_elem?,
}
use mathlib.Core.Path.{subst}
use chttpd.Libc.{Bytes, ok}
use chttpd.Http.{HttpRequest}
use chttpd.Http.Lines.{Stream}
use chttpd.Http.Request.{find_content_length}
use chttpd.Http.Request.RoundTrip.{IsRequest, print_request}
use chttpd.Config.{Config, Route}
use chttpd.Server.{Host, http_handler}
use chttpd.Server.Routes.{serves, FirstServing, answer, http_handler-print}
use chttpd.Server.Loop.{Answer, Event, accept_fails, start, run}
use chttpd.Server.Loop.Invariant.{IsAnswer}
use chttpd.Server.Loop.Answers.{run-answers}
use chttpd.Server.Start.{Platform, Serving, chttpd_main}
use chttpd.Server.Start.Outcome.{chttpd_main_iff}

All-get_elem? {ℓ κ} :
    {A : Type ℓ} (P : A → Type κ) (xs : List A) (k : ℕ) {a : A}
    → All P xs
    → get_elem? xs k ≡ some a
    → P a
All-get_elem? P [] k h e = cc
All-get_elem? P (x ∷ xs) zero h e = let same : x ≡ _ = cc in subst P same h.0
All-get_elem? P (x ∷ xs) (suc k) h e = All-get_elem? P xs k h.1 e

IsAnswer-stream :
    (host : Host) (config : Config) (connections : List Stream) (a : Answer) (stream : Stream)
    → IsAnswer host config connections a
    → get_elem? connections a.place ≡ some stream
    → http_handler host config stream ≡ ok a.written
IsAnswer-stream host config connections a stream (s, at_id, h) e =
    let same : s ≡ stream = cc in subst (λ t. http_handler host config t ≡ ok a.written) same h

-- When `main` has started the loop, then in every interleaving, as long as `accept` does not fail,
-- each request in good order that there is memory for and that has been answered was answered by the first route of the configuration file that fits its path and
-- its method, and by the page for 404 where none does.
pub chttpd_main-answers :
    (host : Host) (p : Platform) (argc : ℕ) (s : Serving) (events : List Event) (k : ℕ) (a : Answer)
    (name target : Bytes) (r : HttpRequest) (more : Stream)
    → chttpd_main host.linker p argc ≡ ok (some s)
    → All (λ e. e ≢ accept_fails) events
    → host.request_memory r.content_length ≡ true
    → let t = run host s.config events start in
      get_elem? t.answers k ≡ some a
      → get_elem? t.connections a.place
        ≡ some (print_request name target r.headers (r.body ++ more))
      → IsRequest name target r
      → find_content_length r.headers ≡ ok r.content_length
      → length r.body ≡ r.content_length
      → (found : Option Route) × FirstServing
          (serves s.config.ignore_case r.request_path r.method)
          s.config.routes
          found
        × (answer host s.config r found ≡ ok a.written)
chttpd_main-answers host p argc s events k a name target r more starts no_failure given at_k at_id
      good announced long =
    let t = run host s.config events start in
    let serving = (chttpd_main_iff host.linker p argc s).0 starts in
    let kept =
      All-get_elem? (IsAnswer host s.config t.connections) t.answers k
        (run-answers host s.config events no_failure) at_k in
    let written = IsAnswer-stream host s.config t.connections a _ kept at_id in
    let (found, first, handled) =
      http_handler-print host s.config name target r more serving.config_ok good announced given
        long in
    (found, first, sym handled ∙ written)
