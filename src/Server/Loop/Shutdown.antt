-- ===== src/Server/Loop/Shutdown.antt =====
-- How the process of src/main.c ends: by a fault in the handler of a connection, or behind the loop.
use chttpd.Prelude.{
  Bool, true, false, ◌≡◌, ◌≢◌, refl, sym, inl, inr, some, none, List, [], ◌∷◌, ◌++◌, All, length,
}
use mathlib.Core.Path.{subst}
use chttpd.Libc.{Fault, division_by_zero, Result, ok, reject, fault}
use chttpd.Http.{HttpRequest}
use chttpd.Http.Lines.{Stream}
use chttpd.Vec.{cc_vec_destroy, cc_vec_len}
use chttpd.Config.{Config}
use chttpd.Server.{Host}
use chttpd.Server.Loop.{
  Connection, Phase, HttpInputContext, Answer, Stage, State, Event, accept, accept_fails, turn,
  drop, exit, start, admit, accept_connection, released_routes, route_turn, work, take_turn,
  after_turn, advance, run,
}
use chttpd.Server.Loop.Invariant.{IsOwnFault, Turned, take_turn-Turned, Inv, start-Inv}
use chttpd.Server.Loop.Answers.{advance-Inv}

-- The loop runs, or the handler of one of the connections has ended the process.
abbrev pub IsOpen : Host → Config → List Stream → Stage → Type 0
IsOpen host config connections Stage.accepting = Unit
IsOpen host config connections (Stage.crashed e) = IsOwnFault host config connections e
IsOpen host config connections stage = ⊥

admit-IsOpen :
    (host : Host) (config : Config) (context thread : Bool) (c : Connection) (s : State)
    → s.stage ≡ Stage.accepting
    → IsOpen host config (admit context thread c s).connections (admit context thread c s).stage
admit-IsOpen host config false thread c s h = rw h tt
admit-IsOpen host config true false c s h = rw h tt
admit-IsOpen host config true true c s h = rw h tt

after_turn-IsOpen :
    (host : Host) (config : Config) (s : State) (r : Result (List HttpInputContext × List Answer))
    → s.stage ≡ Stage.accepting
    → Turned host config s.connections ⊥ s.workers r
    → IsOpen host config (after_turn s r).connections (after_turn s r).stage
after_turn-IsOpen host config s (ok (vs, answers)) h k = rw h tt
after_turn-IsOpen host config s reject h k = rw h tt
after_turn-IsOpen host config s (fault e) h (inl k) = k
after_turn-IsOpen host config s (fault e) h (inr k) = absurd k.0

advance-crashed :
    (host : Host) (config : Config) (f : Event) (g : Fault) (s : State)
    → advance host config f (Stage.crashed g) s ≡ s
unfolding advance
advance-crashed host config (accept c) g s = refl
advance-crashed host config accept_fails g s = refl
advance-crashed host config (turn k) g s = refl
advance-crashed host config drop g s = refl
advance-crashed host config exit g s = refl

advance-IsOpen :
    (host : Host) (config : Config) (e : Event) (stage : Stage) (s : State)
    → s.stage ≡ stage
    → Inv host config s
    → e ≢ accept_fails
    → IsOpen host config s.connections stage
    → let t = advance host config e stage s in IsOpen host config t.connections t.stage
unfolding advance accept_connection
advance-IsOpen host config (accept c) Stage.accepting s e h n o =
    admit-IsOpen host config c.has_context c.has_thread c s e
advance-IsOpen host config accept_fails Stage.accepting s e h n o = absurd (n refl)
advance-IsOpen host config drop Stage.accepting s e h n o = rw e tt
advance-IsOpen host config exit Stage.accepting s e h n o = rw e tt
advance-IsOpen host config (turn k) Stage.accepting s e h n o =
    after_turn-IsOpen host config s _ e (
      take_turn-Turned host config s.connections ⊥ (some config) k s.workers (inr refl)
        h.workers_kept)
advance-IsOpen host config f (Stage.crashed g) s e h n o =
    rw (advance-crashed host config f g s) (subst (IsOpen host config s.connections) (sym e) o)
advance-IsOpen host config f Stage.returned s e h n o = absurd o
advance-IsOpen host config f Stage.released s e h n o = absurd o
advance-IsOpen host config f Stage.ended s e h n o = absurd o

run-IsOpen :
    (host : Host) (config : Config) (events : List Event) (s : State)
    → Inv host config s
    → All (λ e. e ≢ accept_fails) events
    → IsOpen host config s.connections s.stage
    → let t = run host config events s in IsOpen host config t.connections t.stage
unfolding run
run-IsOpen host config [] s h n o = o
run-IsOpen host config (e ∷ events) s h n o =
    run-IsOpen host config events _ (advance-Inv host config e s.stage s h) n.1
      (advance-IsOpen host config e s.stage s refl h n.0 o)

-- As long as `accept` does not fail, the loop goes on in every interleaving, unless the handler of
-- one of the connections, on the bytes of that connection alone, runs into undefined behaviour.
pub run-stage :
    (host : Host) (config : Config) (events : List Event)
    → All (λ e. e ≢ accept_fails) events
    → IsOpen host config
        (run host config events start).connections
        (run host config events start).stage
run-stage host config events n = run-IsOpen host config events start (start-Inv host config) n tt

take_turn-released :
    (host : Host) (before : List HttpInputContext) (w : HttpInputContext)
    (behind : List HttpInputContext) (request : HttpRequest)
    → w.phase ≡ Phase.routing request
    → take_turn host none (length before) (before ++ w ∷ behind) ≡ fault division_by_zero
unfolding take_turn work route_turn released_routes cc_vec_len cc_vec_destroy
take_turn-released host [] w behind request e = rw e refl
take_turn-released host (v ∷ before) w behind request e =
    rw (take_turn-released host before w behind request e) refl

-- If `accept` fails while a thread stands between its request and its route, then `main` releases
-- the configuration under it, and the turn of that thread divides by the size 0 that `ccVecDestroy`
-- leaves in the vector of the routes.
pub run-released :
    (host : Host) (config : Config) (s : State) (before behind : List HttpInputContext)
    (w : HttpInputContext) (request : HttpRequest)
    → s.stage ≡ Stage.accepting
    → s.workers ≡ before ++ w ∷ behind
    → w.phase ≡ Phase.routing request
    → (run host config (accept_fails ∷ drop ∷ turn (length before) ∷ []) s).stage
      ≡ Stage.crashed division_by_zero
unfolding run advance
run-released host config s before behind w request a e p =
    rw (a, e, take_turn-released host before w behind request p) refl
