-- ===== src/Server/Loop/Answers.antt =====
-- What `httpMainLoop` of src/main.c and its threads answer, in every interleaving.
use chttpd.Prelude.{
  ℕ, ◌+◌, ◌^◌, ◌<◌, ◌≤◌, ◌≡◌, ◌≢◌, refl, sym, ap, ◌∙◌, map, length, inl, inr, Bool, true, false,
  none, some, List, [], ◌∷◌, ◌++◌, arith, All, All-append, All-map, length-append, get_elem?,
  get_elem?-append, get_elem?-length,
}
use chttpd.Http.Lines.{Stream}
use chttpd.Config.{Config}
use chttpd.Server.{Host}
use chttpd.Server.Loop.{
  Connection, HttpInputContext, Answer, Stage, State, Event, accept, accept_fails, turn, drop, exit,
  start, worker_id, new_context, counted, admit, accept_connection, advance, run,
}
use chttpd.Server.Loop.Invariant.{
  count, count-append, places, places-append, answer_places, IsWorker, IsAnswer, IsStage, Inv,
  start-Inv, take_turn-Turned, after_turn-Inv,
}

-- One more connection changes nothing for the threads, the answers and the stage that there are.
module _ (host : Host) (config : Config) (connections : List Stream) (stream : Stream) where
  more : List Stream
  more = connections ++ stream ∷ []

  IsWorker-more : (w : HttpInputContext) → IsWorker host connections w → IsWorker host more w
  unfolding more
  IsWorker-more w h = (get_elem?-append connections _ w.place h.0, h.1)

  IsAnswer-more : (a : Answer) → IsAnswer host config connections a → IsAnswer host config more a
  unfolding more
  IsAnswer-more a (s, h, e) = (s, get_elem?-append connections _ a.place h, e)

  IsStage-more :
      (stage : Stage) → IsStage host config connections stage → IsStage host config more stage
  unfolding more
  IsStage-more (Stage.crashed e) (inl (n, s, h, f)) =
      inl (n, s, get_elem?-append connections _ n h, f)
  IsStage-more (Stage.crashed e) (inr h) = inr h
  IsStage-more Stage.accepting h = tt
  IsStage-more Stage.returned h = tt
  IsStage-more Stage.released h = tt
  IsStage-more Stage.ended h = tt

counted-Inv :
    (host : Host) (config : Config) (c : Connection) (s : State)
    → Inv host config s
    → Inv host config (counted c s)
unfolding more
counted-Inv host config c s h = record {
  counted = rw length-append (omega (arith, h.counted));
  workers_kept =
      All-map (IsWorker host s.connections) _ s.workers
        (IsWorker-more host config s.connections c.stream) h.workers_kept;
  answers_kept =
      All-map (IsAnswer host config s.connections) _ s.answers
        (IsAnswer-more host config s.connections c.stream) h.answers_kept;
  single = h.single;
  below = λ n b. h.below n (omega (arith, b));
  caused = IsStage-more host config s.connections c.stream s.stage h.caused;
}

admit-Inv :
    (host : Host) (config : Config) (context thread : Bool) (c : Connection) (s : State)
    → Inv host config s
    → Inv host config (admit context thread c s)
unfolding count
admit-Inv host config false thread c s h = record {
  counted = h.counted;
  workers_kept = h.workers_kept;
  answers_kept = h.answers_kept;
  single = h.single;
  below = h.below;
  caused = h.caused;
}
admit-Inv host config true false c s h =
    let k = counted-Inv host config c s h in
    record {
      counted = k.counted;
      workers_kept = k.workers_kept;
      answers_kept = k.answers_kept;
      single = k.single;
      below = k.below;
      caused = k.caused;
    }
admit-Inv host config true true c s h =
    let k = counted-Inv host config c s h in
    let last : get_elem? (s.connections ++ c.stream ∷ []) s.place ≡ some c.stream =
      rw (sym h.counted) (get_elem?-length s.connections c.stream) in
    record {
      counted = k.counted;
      workers_kept =
          All-append (IsWorker host (s.connections ++ c.stream ∷ [])) s.workers
            (new_context c s ∷ []) k.workers_kept ((last, tt), tt);
      answers_kept = k.answers_kept;
      single = λ n. rw (places-append, count-append) (ground (arith, h.single n, h.below n));
      below = λ n b. rw (places-append, count-append) (ground (arith, b, h.below n));
      caused = k.caused;
    }

stage-Inv :
    (host : Host) (config : Config) (s : State) (stage : Stage)
    → Inv host config s
    → IsStage host config s.connections stage
    → Inv host config (record s { stage = stage })
stage-Inv host config s stage h k = record {
  counted = h.counted;
  workers_kept = h.workers_kept;
  answers_kept = h.answers_kept;
  single = h.single;
  below = h.below;
  caused = k;
}

pub advance-Inv :
    (host : Host) (config : Config) (e : Event) (stage : Stage) (s : State)
    → Inv host config s
    → Inv host config (advance host config e stage s)
unfolding advance accept_connection
advance-Inv host config (accept c) Stage.accepting s h =
    admit-Inv host config c.has_context c.has_thread c s h
advance-Inv host config accept_fails Stage.accepting s h = stage-Inv host config s _ h tt
advance-Inv host config drop Stage.returned s h = stage-Inv host config s _ h tt
advance-Inv host config exit Stage.released s h = stage-Inv host config s _ h tt
advance-Inv host config (turn k) Stage.accepting s h = after_turn-Inv host config s _ h (
    take_turn-Turned host config s.connections Unit (some config) k s.workers (inr refl)
      h.workers_kept)
advance-Inv host config (turn k) Stage.returned s h = after_turn-Inv host config s _ h (
    take_turn-Turned host config s.connections Unit (some config) k s.workers (inr refl)
      h.workers_kept)
advance-Inv host config (turn k) Stage.released s h = after_turn-Inv host config s _ h (
    take_turn-Turned host config s.connections Unit none k s.workers (inl (tt, refl))
      h.workers_kept)
advance-Inv host config e stage s h = h

pub run-Inv :
    (host : Host) (config : Config) (events : List Event) (s : State)
    → Inv host config s
    → Inv host config (run host config events s)
unfolding run
run-Inv host config [] s h = h
run-Inv host config (e ∷ events) s h =
    run-Inv host config events _ (advance-Inv host config e s.stage s h)

-- In every interleaving of the loop and its threads, as long as `accept` does not fail, whatever is
-- written to a connection that a thread has closed is what `httpHandler` makes of the bytes of that
-- connection and the configuration alone.
pub run-answers :
    (host : Host) (config : Config) (events : List Event)
    → All (λ e. e ≢ accept_fails) events
    → All
        (IsAnswer host config (run host config events start).connections)
        (run host config events start).answers
run-answers host config events _ =
    (run-Inv host config events start (start-Inv host config)).answers_kept

get_elem?-bound : (xs : List Stream) (n : ℕ) {x : Stream} → get_elem? xs n ≡ some x → n < length xs
get_elem?-bound [] n e = cc
get_elem?-bound (y ∷ xs) ℕ.zero e = omega arith
get_elem?-bound (y ∷ xs) (ℕ.suc n) e = omega (arith, get_elem?-bound xs n e)

worker_id-exact : (place : ℕ) → place < 2 ^ 32 → worker_id place ≡ place
unfolding worker_id
worker_id-exact place h = ground arith

places_exact :
    (host : Host) (connections : List Stream) (ws : List HttpInputContext)
    → length connections ≤ 2 ^ 32
    → All (IsWorker host connections) ws
    → map worker_id (places ws) ≡ places ws
places_exact host connections [] few h = refl
places_exact host connections (w ∷ ws) few h =
    let bound = get_elem?-bound connections w.place h.0.0 in
    ap (λ n. n ∷ map worker_id (places ws)) (worker_id-exact w.place (omega (arith, bound, few)))
    ∙ ap (◌∷◌ w.place) (places_exact host connections ws few h.1)

answer_places_exact :
    (host : Host) (config : Config) (connections : List Stream) (answers : List Answer)
    → length connections ≤ 2 ^ 32
    → All (IsAnswer host config connections) answers
    → map worker_id (answer_places answers) ≡ answer_places answers
answer_places_exact host config connections [] few h = refl
answer_places_exact host config connections (a ∷ answers) few ((stream, at, handled), h) =
    let bound = get_elem?-bound connections a.place at in
    ap (λ n. n ∷ map worker_id (answer_places answers))
      (worker_id-exact a.place (omega (arith, bound, few)))
    ∙ ap (◌∷◌ a.place) (answer_places_exact host config connections answers few h)

-- In every interleaving in which at most 2^32 connections are given a context, no `workerId` is given
-- to two threads, whether they run or have ended.
pub run-worker_ids :
    (host : Host) (config : Config) (events : List Event) (n : ℕ)
    → length (run host config events start).connections ≤ 2 ^ 32
    → let s = run host config events start in
      count n (map worker_id (places s.workers)) + count n (map worker_id (answer_places s.answers))
      ≤ 1
run-worker_ids host config events n few =
    let s = run host config events start in
    let h = run-Inv host config events start (start-Inv host config) in
    rw
      (
        places_exact host s.connections s.workers few h.workers_kept,
        answer_places_exact host config s.connections s.answers few h.answers_kept,
      )
      (h.single n)
