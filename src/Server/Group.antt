-- ===== src/Server/Group.antt =====
-- The goroutines of `Run` in driver/controller.go and of `RunNode` in driver/nodedriver.go, as the
-- steps of one state. The group (vendor/golang.org/x/sync/errgroup) keeps the first error and is
-- waited for until all of its goroutines have ended; the gRPC server
-- (vendor/google.golang.org/grpc/server.go) refuses to serve once it was stopped, and its `Serve`
-- returns nil when the stop has drained it.
pub mod Invariant
pub mod Liveness
use csi_thalassa.Prelude.{
  ◌≡◌, refl, Bool, true, false, not, List, [], ◌∷◌, Option, none, some, ◌&&◌, if◌then◌else◌, arith,
}
use csi_thalassa.Status.{Error, plain}
use csi_thalassa.Exec.{Result, ok, err}
use csi_thalassa.Driver.{Driver}

pub data Stage : Type 0 where
  waiting working ended : Stage

-- The goroutine that stops the gRPC server: `asleep` waits for
-- the cancellation, `draining` is inside `GracefulStop`.
pub data Stopper : Type 0 where
  asleep lowered draining stopped : Stopper

pub record Servers : Type 0 where
  -- `ctx.Done()` is closed
  pub cancelled : Bool
  -- `d.ready`
  pub ready : Bool
  -- the goroutine of `Shutdown`, that of `ListenAndServe`, and that of `Serve`
  pub shutdown : Stage
  pub http : Stage
  pub serve : Stage
  pub stopper : Stopper
  -- the group's error
  pub first_error : Option Error

-- How `ListenAndServe` ends: with ErrServerClosed, or with another error.
pub data HttpEnd : Type 0 where
  server_closed : HttpEnd
  http_error : Error → HttpEnd

-- What can happen next. `shut_down_returns` has the error of `Shutdown`, which its deadline of
-- 10 s is one of; `accept_fails` is a failure of the listener.
pub data Event : Type 0 where
  cancel shut_down : Event
  shut_down_returns : Option Error → Event
  http_ends : HttpEnd → Event
  serve : Event
  accept_fails : Error → Event
  serve_returns lower_ready stop_gracefully drained : Event

-- A goroutine that is not started counts as ended.
abbrev started : Bool → Stage → Stage
started b stage = if b then stage else ended

unfoldable pub servers : Driver → Servers
servers d = record {
  cancelled = false;
  ready = d.ready;
  shutdown = started d.http_srv waiting;
  http = started d.http_srv working;
  serve = waiting;
  stopper = asleep;
  first_error = none;
}

abbrev pub err_server_stopped : Error
err_server_stopped = plain "grpc: the server has been stopped"

-- `errOnce`
unfoldable pub first : Option Error → Option Error → Option Error
first (some e) o = some e
first none o = o

unfoldable pub http_result : HttpEnd → Option Error
http_result server_closed = none
http_result (http_error e) = some e

abbrev is_waiting : Stage → Bool
is_waiting waiting = true
is_waiting _ = false

abbrev is_working : Stage → Bool
is_working working = true
is_working _ = false

abbrev is_ended : Stage → Bool
is_ended ended = true
is_ended _ = false

-- `GracefulStop` has been called
abbrev has_quit : Stopper → Bool
has_quit draining = true
has_quit stopped = true
has_quit _ = false

abbrev is_closed : HttpEnd → Bool
is_closed server_closed = true
is_closed (http_error e) = false

abbrev when {ℓ} : {A : Type ℓ} → Bool → A → Option A
when b a = if b then some a else none

-- The state after an event, or none where the event cannot happen.
unfoldable pub next : Event → Servers → Option Servers
unfolding first http_result
next cancel s = when (not s.cancelled) (record s { cancelled = true })
next shut_down s = when (s.cancelled && is_waiting s.shutdown) (record s { shutdown = working })
next (shut_down_returns o) s =
    when (is_working s.shutdown)
      (record s { shutdown = ended; first_error = first s.first_error o })
next (http_ends end) s =
    when (not (is_ended s.http) && not (is_closed end && is_waiting s.shutdown))
      (record s { http = ended; first_error = first s.first_error (http_result end) })
next serve s = when (is_waiting s.serve) (
    if has_quit s.stopper
    then record s { serve = ended; first_error = first s.first_error (some err_server_stopped) }
    else record s { serve = working })
next (accept_fails e) s =
    when (is_working s.serve && not (has_quit s.stopper))
      (record s { serve = ended; first_error = first s.first_error (some e) })
next serve_returns s = elim s.stopper [
  | stopped ↦ when (is_working s.serve) (record s { serve = ended })
  | _ ↦ none
]
next lower_ready s = elim s.stopper [
  | asleep ↦ when s.cancelled (record s { ready = false; stopper = lowered })
  | _ ↦ none
]
next stop_gracefully s = elim s.stopper [
  | lowered ↦ some (record s { stopper = draining })
  | _ ↦ none
]
next drained s = elim s.stopper [ draining ↦ some (record s { stopper = stopped }) | _ ↦ none ]

-- `eg.Wait()`: what it returns, once it does
unfoldable pub wait : Servers → Option (Result (Unit {0}))
wait s =
    when (is_ended s.shutdown && is_ended s.http && is_ended s.serve)
      (elim s.first_error [ none ↦ ok tt | some e ↦ err e ])

-- A sequence of events, if each can happen in its turn.
unfoldable pub run : List Event → Servers → Option Servers
unfolding next
run [] s = some s
run (e ∷ events) s = elim (next e s) [ none ↦ none | some t ↦ run events t ]

step-run :
    (events : List Event) (n : Option Servers) (t : Servers)
    → elim n [ none ↦ none | some u ↦ run events u ] ≡ some t
    → (u : Servers) × ((n ≡ some u) × (run events u ≡ some t))
step-run events none t h = ground arith
step-run events (some u) t h = (u, (refl, h))

-- A sequence has a first event.
pub run-first :
    (e : Event) (events : List Event) (s t : Servers)
    → run (e ∷ events) s ≡ some t
    → (u : Servers) × ((next e s ≡ some u) × (run events u ≡ some t))
unfolding run
run-first e events s t h = step-run events (next e s) t h
