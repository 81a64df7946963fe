-- ===== src/Server/Loop.antt =====
-- src/main.c: `httpMainLoop` and its threads. A state holds what `main` and the threads share; an
-- event is one turn of the loop, one turn of a thread, or what `main` does behind the loop. What
-- `accept`, `malloc` and `pthread_create` give is part of the event, and a list of events is one
-- interleaving. A thread takes two turns: it reads its request, and it routes and answers it. No
-- other thread writes what a turn reads, as long as `accept` does not fail; behind that, `main` may
-- release the configuration in the middle of a turn, and a list of events has only the
-- interleavings in which it does not.
pub mod Answers
pub mod Invariant
pub mod Liveness
pub mod Shutdown
mod Tests
use chttpd.Prelude.{
  ℕ, zero, suc, ◌%◌, ◌^◌, Bool, true, false, ◌⊎◌, inl, inr, Option, none, some, List, [], ◌∷◌, ◌++◌,
  if◌then◌else◌,
}
use chttpd.Libc.{Bytes, Fault, Result, ok, reject, fault, ◌>>=◌}
use chttpd.Error.{new_error}
use chttpd.Http.{HttpRequest}
use chttpd.Http.Lines.{Stream}
use chttpd.Http.Request.{read_http_request}
use chttpd.Intern.{send404_page}
use chttpd.Vec.{CcVec, cc_vec_destroy, cc_vec_len}
use chttpd.Config.{Config}
use chttpd.Server.{Host, route_and_handle, error_page}

-- What `accept` gives, and whether there is memory for a context and a thread to take it.
pub record Connection : Type 0 where
  pub stream : Stream
  pub client_addr : Bytes
  pub has_context : Bool
  pub has_thread : Bool

-- Where a thread is in `httpHandler`.
pub data Phase : Type 0 where
  reading : Phase
  routing : HttpRequest → Phase

-- The context of a running thread, with the bytes that arrive on its connection.
pub record HttpInputContext : Type 0 where
  -- the place of the connection among those that were given a context
  pub place : ℕ
  pub client_addr : Bytes
  pub stream : Stream
  pub phase : Phase

-- A connection that its thread has closed, with what was written to it.
pub record Answer : Type 0 where
  pub place : ℕ
  pub written : Bytes

-- Where `main` is: in the loop, behind it (the configuration still there, or released), or ended.
pub data Stage : Type 0 where
  accepting returned released ended : Stage
  crashed : Fault → Stage

-- `place` is how many connections were given a context: `connections`, the first first. `leaked` are
-- those that are never closed.
pub record State : Type 0 where
  pub stage : Stage
  pub place : ℕ
  pub workers : List HttpInputContext
  pub answers : List Answer
  pub connections : List Stream
  pub leaked : List Stream

pub data Event : Type 0 where
  accept : Connection → Event
  accept_fails : Event
  turn : ℕ → Event
  drop : Event
  exit : Event

abbrev pub start : State
start = record {
  stage = Stage.accepting;
  place = 0;
  workers = [];
  answers = [];
  connections = [];
  leaked = [];
}

-- `workerId`, a `size_t` (of 32 bits on the narrowest platform) that counts those connections.
unfoldable pub worker_id : ℕ → ℕ
worker_id place = place % 2 ^ 32

-- The context that the loop fills in, and the state behind it.
abbrev pub new_context : Connection → State → HttpInputContext
new_context c s = record {
  place = s.place;
  client_addr = c.client_addr;
  stream = c.stream;
  phase = Phase.reading;
}

abbrev pub counted : Connection → State → State
counted c s = record s { place = suc s.place; connections = s.connections ++ c.stream ∷ [] }

-- The body of the loop, behind an `accept` that succeeds: whether there is a context, and a thread.
abbrev pub admit : Bool → Bool → Connection → State → State
admit false thread c s = record s { leaked = c.stream ∷ s.leaked }
admit true false c s = record (counted c s) { leaked = c.stream ∷ s.leaked }
admit true true c s = record (counted c s) { workers = s.workers ++ new_context c s ∷ [] }

unfoldable pub accept_connection : Connection → State → State
accept_connection c s = admit c.has_context c.has_thread c s

-- `httpHandler` up to the request, behind `readHttpRequest`.
abbrev pub after_read :
    HttpInputContext → Result (HttpRequest × Stream) → Result (HttpInputContext ⊎ Bytes)
after_read w (ok (request, rest)) = ok (inl (record w { phase = Phase.routing request }))
after_read w reject = ok (inr [])
after_read w (fault e) = fault e

-- The vector of the routes behind `dropConfig`.
unfoldable pub released_routes : CcVec
unfolding cc_vec_destroy
released_routes = cc_vec_destroy (record { block = []; usage = 0; elem_size = 1 })

-- The rest of `httpHandler`, with the configuration or, once it is released, with a loop over the
-- vector that is left of its routes.
unfoldable pub route_turn : Host → Option Config → HttpRequest → Result Bytes
unfolding route_and_handle error_page new_error released_routes cc_vec_len
route_turn host none request = cc_vec_len released_routes >>= λ n. ok send404_page
route_turn host (some config) request =
    route_and_handle host config request (new_error 4096) >>= λ (written, error, blocks).
    ok (written ++ error_page error)

-- One turn of `httpHandler`: the thread goes on, or has closed its connection.
unfoldable pub work :
    Host → Option Config → HttpInputContext → Phase → Result (HttpInputContext ⊎ Bytes)
unfolding read_http_request route_turn
work host config w Phase.reading = after_read w (read_http_request host.request_memory w.stream)
work host config w (Phase.routing request) =
    route_turn host config request >>= λ bytes. ok (inr bytes)

-- What a turn makes of the threads: those that run behind it, and the connections it has closed.
abbrev pub settle :
    HttpInputContext
    → List HttpInputContext
    → HttpInputContext ⊎ Bytes
    → List HttpInputContext × List Answer
settle w ws (inl v) = (v ∷ ws, [])
settle w ws (inr bytes) = (ws, record { place = w.place; written = bytes } ∷ [])

-- The turn of the thread at a place in the list, if there is one.
unfoldable pub take_turn :
    Host → Option Config → ℕ → List HttpInputContext → Result (List HttpInputContext × List Answer)
unfolding work
take_turn host config k [] = ok ([], [])
take_turn host config zero (w ∷ ws) = work host config w w.phase >>= λ r. ok (settle w ws r)
take_turn host config (suc k) (w ∷ ws) =
    take_turn host config k ws >>= λ (vs, answers). ok (w ∷ vs, answers)

-- Undefined behaviour in a thread ends the process.
abbrev pub after_turn : State → Result (List HttpInputContext × List Answer) → State
after_turn s (ok (workers, answers)) = record s {
  workers = workers;
  answers = answers ++ s.answers;
}
after_turn s reject = s
after_turn s (fault e) = record s { stage = Stage.crashed e }

-- One event; one that cannot happen at the stage changes nothing.
unfoldable pub advance : Host → Config → Event → Stage → State → State
unfolding accept_connection take_turn
advance host config (accept c) Stage.accepting s = accept_connection c s
advance host config accept_fails Stage.accepting s = record s { stage = Stage.returned }
advance host config drop Stage.returned s = record s { stage = Stage.released }
advance host config exit Stage.released s = record s { stage = Stage.ended }
advance host config (turn k) Stage.accepting s =
    after_turn s (take_turn host (some config) k s.workers)
advance host config (turn k) Stage.returned s =
    after_turn s (take_turn host (some config) k s.workers)
advance host config (turn k) Stage.released s = after_turn s (take_turn host none k s.workers)
advance host config e stage s = s

-- The events one after the other.
unfoldable pub run : Host → Config → List Event → State → State
unfolding advance
run host config [] s = s
run host config (e ∷ events) s = run host config events (advance host config e s.stage s)
