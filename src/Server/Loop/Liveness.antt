-- ===== src/Server/Loop/Liveness.antt =====
-- The threads of src/main.c come to their end.
use chttpd.Prelude.{
  ℕ, suc, ◌*◌, ◌≤◌, ◌≡◌, refl, ap, sym, ◌⊎◌, inl, inr, some, List, [], ◌∷◌, arith, All, length,
}
use mathlib.Core.Path.{subst}
use chttpd.Libc.{Bytes, Result, ok, reject, fault}
use chttpd.Http.{HttpRequest}
use chttpd.Http.Lines.{Stream}
use chttpd.Http.Request.{read_http_request}
use chttpd.Config.{Config}
use chttpd.Server.{Host, http_handler}
use chttpd.Server.Loop.{
  Phase, HttpInputContext, Answer, Stage, State, Event, turn, start, after_read, work, take_turn,
  advance, run,
}
use chttpd.Server.Loop.Invariant.{answer_places, IsPhase, IsWorker, start-Inv, route_turn-handler}
use chttpd.Server.Loop.Answers.{run-Inv}

-- The handler of the connection of a thread returns.
abbrev pub IsDue : Host → Config → HttpInputContext → Type 0
IsDue host config w = (bytes : Bytes) × (http_handler host config w.stream ≡ ok bytes)

abbrev pub IsTurn : Event → Type 0
IsTurn e = (k : ℕ) × (e ≡ turn k)

-- The numbers of the threads in the order in which they end, the last first.
abbrev pub onto : List HttpInputContext → List ℕ → List ℕ
onto [] ids = ids
onto (w ∷ ws) ids = onto ws (w.place ∷ ids)

-- The loop still runs, with these threads and these answers.
abbrev open_state : State → List HttpInputContext → List Answer → State
open_state s ws answers = record s { stage = Stage.accepting; workers = ws; answers = answers }

-- Some turns, at most so many, end the threads in their order, and change nothing but the answers.
abbrev pub Drains : Host → Config → State → List HttpInputContext → List Answer → ℕ → State → Type 0
Drains host config s ws before most t =
    (events : List Event) × All IsTurn events
    × (length events ≤ most)
    × (answers : List Answer) × (run host config events t ≡ open_state s [] answers)
    × (answer_places answers ≡ onto ws (answer_places before))

module _ (host : Host) (config : Config) (s : State) where
  Drains-turn :
      (t u : State) (ws : List HttpInputContext) (before : List Answer) (most : ℕ)
      → advance host config (turn 0) t.stage t ≡ u
      → Drains host config s ws before most u
      → Drains host config s ws before (suc most) t
  unfolding run
  Drains-turn t u ws before most e (events, turns, few, answers, ends, ids) =
      (turn 0 ∷ events, ((0, refl), turns), omega (arith, few), answers, rw e ends, ids)

  Drains-later :
      (ws : List HttpInputContext) (before : List Answer) (most more : ℕ) (t : State)
      → most ≤ more
      → Drains host config s ws before most t
      → Drains host config s ws before more t
  Drains-later ws before most more t h (events, turns, few, answers, ends, ids) =
      (events, turns, omega (arith, few, h), answers, ends, ids)

  one_turn :
      (w : HttpInputContext) (ws : List HttpInputContext) (answers : List Answer) (bytes : Bytes)
      → work host (some config) w w.phase ≡ ok (inr bytes)
      → advance host config (turn 0) Stage.accepting (open_state s (w ∷ ws) answers)
        ≡ open_state s ws (record { place = w.place; written = bytes } ∷ answers)
  unfolding advance take_turn
  one_turn w ws answers bytes e = rw e refl

  read_turn :
      (w : HttpInputContext) (ws : List HttpInputContext) (answers : List Answer)
      (v : HttpInputContext)
      → work host (some config) w w.phase ≡ ok (inl v)
      → advance host config (turn 0) Stage.accepting (open_state s (w ∷ ws) answers)
        ≡ open_state s (v ∷ ws) answers
  unfolding advance take_turn
  read_turn w ws answers v e = rw e refl

  -- The threads behind the first one end, whatever answers there are.
  Rest : List HttpInputContext → Type 0
  Rest ws =
      (answers : List Answer)
      → Drains host config s ws answers (2 * length ws) (open_state s ws answers)

  routed :
      (w : HttpInputContext) (rest : Stream) (request : HttpRequest) (bytes : Bytes)
      → read_http_request host.request_memory w.stream ≡ ok (request, rest)
      → http_handler host config w.stream ≡ ok bytes
      → work host (some config) w (Phase.routing request) ≡ ok (inr bytes)
  unfolding work
  routed w rest request bytes e h =
      rw (sym (route_turn-handler host config [] Unit w.stream rest request e)) (rw h refl)

  routing-Drains :
      (w : HttpInputContext) (bytes : Bytes) (ws : List HttpInputContext) (answers : List Answer)
      → work host (some config) w w.phase ≡ ok (inr bytes)
      → Rest ws
      → Drains host config s (w ∷ ws) answers (suc (2 * length ws)) (open_state s (w ∷ ws) answers)
  unfolding Rest
  routing-Drains w bytes ws answers e next =
      let a : Answer = record { place = w.place; written = bytes } in
      Drains-turn _ (open_state s ws (a ∷ answers)) (w ∷ ws) answers (2 * length ws)
        (one_turn w ws answers bytes e) (next (a ∷ answers))

  -- What the first turn of a thread that is due comes to.
  FirstTurn : HttpInputContext → Result (HttpInputContext ⊎ Bytes) → Type 0
  FirstTurn w r =
      ((bytes : Bytes) × (r ≡ ok (inr bytes)))
      ⊎ ((request : HttpRequest) × (rest : Stream) × (r
            ≡ ok (inl (record w { phase = Phase.routing request })))
          × (read_http_request host.request_memory w.stream ≡ ok (request, rest)))

  after_read-FirstTurn :
      (w : HttpInputContext) (r : Result (HttpRequest × Stream))
      → read_http_request host.request_memory w.stream ≡ r
      → IsDue host config w
      → FirstTurn w (after_read w r)
  unfolding http_handler FirstTurn
  after_read-FirstTurn w (ok (request, rest)) e h = inr (request, rest, refl, e)
  after_read-FirstTurn w reject e h = inl ([], refl)
  after_read-FirstTurn w (fault f) e (bytes, h) =
      let k : http_handler host config w.stream ≡ fault f = rw (e, http_handler) refl in cc

  work-FirstTurn :
      (w : HttpInputContext) (phase : Phase)
      → IsPhase host w.stream phase
      → IsDue host config w
      → FirstTurn w (work host (some config) w phase)
  unfolding work FirstTurn
  work-FirstTurn w Phase.reading p h = after_read-FirstTurn w _ refl h
  work-FirstTurn w (Phase.routing request) (rest, p) (bytes, h) =
      inl (bytes, routed w rest request bytes p h)

  workers-Drains :
      (connections : List Stream) (ws : List HttpInputContext)
      → All (IsWorker host connections) ws
      → All (IsDue host config) ws
      → Rest ws
  unfolding Rest run FirstTurn
  workers-Drains connections [] h due answers = ([], tt, omega arith, answers, refl, refl)
  workers-Drains connections (w ∷ ws) h due answers =
      let next : Rest ws = workers-Drains connections ws h.1 due.1 in
      elim (work-FirstTurn w w.phase h.0.1 due.0) [
        | inl (bytes, e) ↦
            Drains-later (w ∷ ws) answers (suc (2 * length ws)) _ _ (omega arith)
              (routing-Drains w bytes ws answers e next)
        | inr (request, rest, e, reads) ↦
            let v = record w { phase = Phase.routing request } in
            Drains-later (w ∷ ws) answers (suc (suc (2 * length ws))) _ _ (omega arith) (
              Drains-turn _ (open_state s (v ∷ ws) answers) (w ∷ ws) answers (suc (2 * length ws))
                (read_turn w ws answers v e)
                (routing-Drains v due.0.0 ws answers (routed v rest request _ reads due.0.1) next))
      ]

accepting-open : (s : State) → s.stage ≡ Stage.accepting → open_state s s.workers s.answers ≡ s
accepting-open s e = ap (λ stage. record s { stage = stage }) (sym e)

-- While the loop runs, whatever happened before, if the handlers of the connections that are open
-- return, then some turns of the threads, two for each at most, end them all: each is answered, and
-- neither the loop nor what was there before changes.
pub run-Drains :
    (host : Host) (config : Config) (events : List Event)
    → let s = run host config events start in
      s.stage ≡ Stage.accepting
      → All (IsDue host config) s.workers
      → Drains host config s s.workers s.answers (2 * length s.workers) s
unfolding Rest
run-Drains host config events e due =
    let s = run host config events start in
    let h = run-Inv host config events start (start-Inv host config) in
    subst (Drains host config s s.workers s.answers (2 * length s.workers)) (accepting-open s e)
      (workers-Drains host config s s.connections s.workers h.workers_kept due s.answers)
