-- ===== src/Server/Loop/Invariant.antt =====
-- The threads of `httpMainLoop` in src/main.c, over every interleaving.
use chttpd.Prelude.{
  ℕ, zero, suc, ◌+◌, ◌≤◌, ◌≡◌, refl, ap, ◌⊎◌, inl, inr, Option, none, some, List, [], ◌∷◌, ◌++◌,
  ◌==◌, if◌then◌else◌, arith, All, All-append, length, get_elem?,
}
use chttpd.Libc.{Bytes, Fault, division_by_zero, Result, ok, reject, fault, ◌>>=◌}
use chttpd.Http.{HttpRequest}
use chttpd.Http.Lines.{Stream}
use chttpd.Http.Request.{read_http_request}
use chttpd.Vec.{cc_vec_destroy, cc_vec_len}
use chttpd.Config.{Config}
use chttpd.Server.{Host, http_handler}
use chttpd.Server.Loop.{
  Phase, HttpInputContext, Answer, Stage, State, start, after_read, released_routes, route_turn,
  work, settle, take_turn, after_turn,
}

-- How often a number is in a list.
unfoldable pub count : ℕ → List ℕ → ℕ
count n [] = 0
count n (x ∷ xs) = let others = count n xs in if n == x then suc others else others

pub count-append : (n : ℕ) (xs ys : List ℕ) → count n (xs ++ ys) ≡ count n xs + count n ys
unfolding count
count-append n [] ys = omega arith
count-append n (x ∷ xs) ys = ground (arith, count-append n xs ys)

abbrev pub places : List HttpInputContext → List ℕ
places [] = []
places (w ∷ ws) = w.place ∷ places ws

abbrev pub answer_places : List Answer → List ℕ
answer_places [] = []
answer_places (a ∷ answers) = a.place ∷ answer_places answers

pub places-append : (xs ys : List HttpInputContext) → places (xs ++ ys) ≡ places xs ++ places ys
places-append [] ys = refl
places-append (x ∷ xs) ys = ap (◌∷◌ x.place) (places-append xs ys)

answer_places-append :
    (xs ys : List Answer) → answer_places (xs ++ ys) ≡ answer_places xs ++ answer_places ys
answer_places-append [] ys = refl
answer_places-append (x ∷ xs) ys = ap (◌∷◌ x.place) (answer_places-append xs ys)

-- The worker of a request that is read has the request that `readHttpRequest` makes of its bytes.
abbrev pub IsPhase : Host → Stream → Phase → Type 0
IsPhase host stream Phase.reading = Unit
IsPhase host stream (Phase.routing request) =
    (rest : Stream) × (read_http_request host.request_memory stream ≡ ok (request, rest))

abbrev pub IsWorker : Host → List Stream → HttpInputContext → Type 0
IsWorker host connections w =
    (get_elem? connections w.place ≡ some w.stream) × IsPhase host w.stream w.phase

-- The answer on a connection is what `httpHandler` makes of the bytes of that connection alone.
abbrev pub IsAnswer : Host → Config → List Stream → Answer → Type 0
IsAnswer host config connections a =
    (stream : Stream) × (get_elem? connections a.place ≡ some stream)
    × (http_handler host config stream ≡ ok a.written)

-- The handler of one of the connections ends the process.
abbrev pub IsOwnFault : Host → Config → List Stream → Fault → Type 0
IsOwnFault host config connections e =
    (n : ℕ) × (stream : Stream) × (get_elem? connections n ≡ some stream)
    × (http_handler host config stream ≡ fault e)

-- Why the process ends: the handler of a connection, or the configuration, once it is released.
abbrev pub HasCause : Host → Config → List Stream → Type 0 → Fault → Type 0
HasCause host config connections released e =
    IsOwnFault host config connections e ⊎ (released × (e ≡ division_by_zero))

abbrev pub IsStage : Host → Config → List Stream → Stage → Type 0
IsStage host config connections (Stage.crashed e) = HasCause host config connections Unit e
IsStage host config connections stage = Unit

pub record Inv (host : Host) (config : Config) (s : State) : Type 0 where
  pub counted : length s.connections ≡ s.place
  pub workers_kept : All (IsWorker host s.connections) s.workers
  pub answers_kept : All (IsAnswer host config s.connections) s.answers
  pub single : (n : ℕ) → count n (places s.workers) + count n (answer_places s.answers) ≤ 1
  pub below :
      (n : ℕ) → s.place ≤ n → count n (places s.workers) + count n (answer_places s.answers) ≡ 0
  pub caused : IsStage host config s.connections s.stage

pub start-Inv : (host : Host) (config : Config) → Inv host config start
unfolding count
start-Inv host config = record {
  counted = refl;
  workers_kept = tt;
  answers_kept = tt;
  single = λ n. omega arith;
  below = λ n h. refl;
  caused = tt;
}

-- The invariant is kept by a turn of a thread.
module _ (host : Host) (config : Config) (connections : List Stream) (released : Type 0) where
  abbrev Worked : HttpInputContext → Result (HttpInputContext ⊎ Bytes) → Type 0
  Worked w (ok (inl v)) = IsWorker host connections v × (v.place ≡ w.place)
  Worked w (ok (inr bytes)) = http_handler host config w.stream ≡ ok bytes
  Worked w reject = Unit
  Worked w (fault e) = HasCause host config connections released e

  abbrev pub Turned : List HttpInputContext → Result (List HttpInputContext × List Answer) → Type 0
  Turned ws (ok (vs, answers)) =
      All (IsWorker host connections) vs
      × All (IsAnswer host config connections) answers
      × ((n : ℕ) → count n (places vs) + count n (answer_places answers) ≡ count n (places ws))
  Turned ws reject = Unit
  Turned ws (fault e) = HasCause host config connections released e

  after_read-Worked :
      (w : HttpInputContext) (r : Result (HttpRequest × Stream))
      → IsWorker host connections w
      → read_http_request host.request_memory w.stream ≡ r
      → Worked w (after_read w r)
  unfolding http_handler
  after_read-Worked w (ok (request, rest)) h e = ((h.0, (rest, e)), refl)
  after_read-Worked w reject h e = rw (e, http_handler) refl
  after_read-Worked w (fault f) h e = inl (w.place, w.stream, h.0, rw (e, http_handler) refl)

  pub route_turn-handler :
      (stream rest : Stream) (request : HttpRequest)
      → read_http_request host.request_memory stream ≡ ok (request, rest)
      → http_handler host config stream ≡ route_turn host (some config) request
  unfolding http_handler route_turn
  route_turn-handler stream rest request e = rw (e, http_handler) refl

  route_turn-Worked :
      (w : HttpInputContext) (r : Result Bytes)
      → IsWorker host connections w
      → http_handler host config w.stream ≡ r
      → Worked w (r >>= λ bytes. ok (inr bytes))
  route_turn-Worked w (ok bytes) h e = e
  route_turn-Worked w reject h e = tt
  route_turn-Worked w (fault f) h e = inl (w.place, w.stream, h.0, e)

  work-Worked :
      (w : HttpInputContext) (live : Option Config) (phase : Phase)
      → (released × (live ≡ none)) ⊎ (live ≡ some config)
      → IsWorker host connections w
      → IsPhase host w.stream phase
      → Worked w (work host live w phase)
  unfolding work route_turn cc_vec_len cc_vec_destroy released_routes
  work-Worked w live Phase.reading l h p = after_read-Worked w _ h refl
  work-Worked w live (Phase.routing request) (inl (r, e)) h p = rw e (inr (r, refl))
  work-Worked w live (Phase.routing request) (inr e) h (rest, p) =
      rw e (route_turn-Worked w _ h (route_turn-handler w.stream rest request p))

  settle-Turned :
      (w : HttpInputContext) (ws : List HttpInputContext) (r : Result (HttpInputContext ⊎ Bytes))
      → IsWorker host connections w
      → All (IsWorker host connections) ws
      → Worked w r
      → Turned (w ∷ ws) (r >>= λ r. ok (settle w ws r))
  unfolding count
  settle-Turned w ws (ok (inl v)) h hs (k, e) = ((k, hs), tt, λ n. rw e (omega arith))
  settle-Turned w ws (ok (inr bytes)) h hs k = (hs, ((w.stream, h.0, k), tt), λ n. ground arith)
  settle-Turned w ws reject h hs k = tt
  settle-Turned w ws (fault f) h hs k = k

  behind-Turned :
      (w : HttpInputContext) (ws : List HttpInputContext)
      (r : Result (List HttpInputContext × List Answer))
      → IsWorker host connections w
      → Turned ws r
      → Turned (w ∷ ws) (r >>= λ (vs, answers). ok (w ∷ vs, answers))
  unfolding count
  behind-Turned w ws (ok (vs, answers)) h (hs, answered, counts) =
      ((h, hs), answered, λ n. ground (arith, counts n))
  behind-Turned w ws reject h k = tt
  behind-Turned w ws (fault f) h k = k

  pub take_turn-Turned :
      (live : Option Config) (k : ℕ) (ws : List HttpInputContext)
      → (released × (live ≡ none)) ⊎ (live ≡ some config)
      → All (IsWorker host connections) ws
      → Turned ws (take_turn host live k ws)
  unfolding take_turn count
  take_turn-Turned live k [] l h = (tt, tt, λ n. omega arith)
  take_turn-Turned live zero (w ∷ ws) l h =
      settle-Turned w ws _ h.0 h.1 (work-Worked w live w.phase l h.0 h.0.1)
  take_turn-Turned live (suc k) (w ∷ ws) l h =
      behind-Turned w ws _ h.0 (take_turn-Turned live k ws l h.1)

pub after_turn-Inv :
    (host : Host) (config : Config) (s : State) (r : Result (List HttpInputContext × List Answer))
    → Inv host config s
    → Turned host config s.connections Unit s.workers r
    → Inv host config (after_turn s r)
after_turn-Inv host config s reject h k = h
after_turn-Inv host config s (fault e) h k = record {
  counted = h.counted;
  workers_kept = h.workers_kept;
  answers_kept = h.answers_kept;
  single = h.single;
  below = h.below;
  caused = k;
}
after_turn-Inv host config s (ok (vs, answers)) h (hs, answered, counts) = record {
  counted = h.counted;
  workers_kept = hs;
  answers_kept =
      All-append (IsAnswer host config s.connections) answers s.answers answered h.answers_kept;
  single = λ n. rw (answer_places-append, count-append) (omega (arith, counts n, h.single n));
  below = λ n b. rw (answer_places-append, count-append) (omega (arith, counts n, h.below n b));
  caused = h.caused;
}
