-- ===== src/Server/Group/Invariant.antt =====
-- What holds after every sequence of events.
use csi_thalassa.Prelude.{◌≡◌, ◌≢◌, ◌⊎◌, Bool, true, false, List, [], ◌∷◌, none, some, arith}
use mathlib.Core.Path.{subst}
use csi_thalassa.Status.{Error}
use csi_thalassa.Exec.{Result, ok, err}
use csi_thalassa.Driver.{Driver}
use csi_thalassa.Server.Group.{
  servers, waiting, ended, asleep, stopped, Servers, Event, shut_down_returns, http_ends,
  http_error, accept_fails, next, wait, run, run-first, err_server_stopped,
}

-- A predicate that every event keeps holds after every sequence.
pub run-Invariant :
    (P : Servers → Type 0) (events : List Event) (s t : Servers)
    → ((e : Event) (u v : Servers) → next e u ≡ some v → P u → P v)
    → run events s ≡ some t
    → P s
    → P t
unfolding run
run-Invariant P [] s t k h p = subst P (cc) p
run-Invariant P (e ∷ events) s t k h p =
    let (u, h) = run-first e events s t h in run-Invariant P events u t k h.1 (k e s u h.0 p)

-- `debug` says whether there is a debug server.
record IsConsistent (debug : Bool) (s : Servers) : Type 0 where
  ready_first : s.stopper ≡ asleep → s.ready ≡ true
  lowered_then : s.stopper ≢ asleep → (s.ready ≡ false) × (s.cancelled ≡ true)
  debug_waits : debug ≡ true → s.shutdown ≢ waiting → s.cancelled ≡ true
  clean_end : s.serve ≡ ended → s.first_error ≡ none → s.stopper ≡ stopped

next-IsConsistent :
    (debug : Bool) (e : Event) (s t : Servers)
    → next e s ≡ some t
    → IsConsistent debug s
    → IsConsistent debug t
unfolding next
next-IsConsistent debug e s t h i = ground arith

servers-IsConsistent : (d : Driver) → d.ready ≡ true → IsConsistent d.http_srv (servers d)
unfolding servers
servers-IsConsistent d r = ground arith

run-IsConsistent :
    (d : Driver) (events : List Event) (t : Servers)
    → d.ready ≡ true
    → run events (servers d) ≡ some t
    → IsConsistent d.http_srv t
run-IsConsistent d events t r h =
    run-Invariant (IsConsistent d.http_srv) events (servers d) t (next-IsConsistent d.http_srv) h
      (servers-IsConsistent d r)

-- A driver that was ready when its goroutines were started stays so until the context is cancelled;
-- and when the group's wait returns without an error, the context was cancelled, the driver is not
-- ready any more, and the graceful stop of the gRPC server is through.
pub run-ready :
    (d : Driver) (events : List Event) (t : Servers)
    → d.ready ≡ true
    → run events (servers d) ≡ some t
    → (t.cancelled ≡ false → t.ready ≡ true)
      × (wait t ≡ some (ok tt) → (t.cancelled ≡ true) × ((t.ready ≡ false) × (t.stopper ≡ stopped)))
unfolding wait
run-ready d events t r h = ground (arith, run-IsConsistent d events t r h)

-- With a debug server the group's wait does not return before the context is cancelled, even if
-- the gRPC server or the debug server has failed.
pub debug_server_waits :
    (d : Driver) (events : List Event) (t : Servers)
    → d.ready ≡ true
    → d.http_srv ≡ true
    → run events (servers d) ≡ some t
    → t.cancelled ≡ false
    → wait t ≡ none
unfolding wait
debug_server_waits d events t r b h c = ground (arith, run-IsConsistent d events t r h)

-- Without a debug server there is one goroutine, and no other error than its own.
record IsAlone (s : Servers) : Type 0 where
  no_shutdown : s.shutdown ≡ ended
  no_http : s.http ≡ ended
  no_error : s.serve ≢ ended → s.first_error ≡ none

next-IsAlone : (e : Event) (s t : Servers) → next e s ≡ some t → IsAlone s → IsAlone t
unfolding next
next-IsAlone e s t h i = ground arith

servers-IsAlone : (d : Driver) → d.http_srv ≡ false → IsAlone (servers d)
unfolding servers
servers-IsAlone d b = ground arith

fails-IsAlone :
    (e : Error) (t u : Servers)
    → IsAlone t
    → next (accept_fails e) t ≡ some u
    → wait u ≡ some (err e)
unfolding next wait
fails-IsAlone e t u i n = ground arith

-- Without a debug server the failure of the gRPC server's listener, whenever it happens, makes the
-- group's wait return with its error.
pub failure_returned :
    (d : Driver) (events : List Event) (t u : Servers) (e : Error)
    → d.http_srv ≡ false
    → run events (servers d) ≡ some t
    → next (accept_fails e) t ≡ some u
    → wait u ≡ some (err e)
failure_returned d events t u e b h n =
    fails-IsAlone e t u
      (run-Invariant IsAlone events (servers d) t next-IsAlone h (servers-IsAlone d b)) n

-- No server fails of itself, and the debug server shuts down in time.
abbrev pub is_quiet : Event → Bool
is_quiet (shut_down_returns (some e)) = false
is_quiet (http_ends (http_error e)) = false
is_quiet (accept_fails e) = false
is_quiet _ = true

abbrev pub AllQuiet : List Event → Type 0
AllQuiet [] = Unit {0}
AllQuiet (e ∷ events) = (is_quiet e ≡ true) × AllQuiet events

-- The one error that is left is that of a stop that came before `Serve`.
record IsQuiet (s : Servers) : Type 0 where
  error : (s.first_error ≡ none) ⊎ (s.first_error ≡ some err_server_stopped)

next-IsQuiet :
    (e : Event) (s t : Servers) → is_quiet e ≡ true → next e s ≡ some t → IsQuiet s → IsQuiet t
unfolding next
next-IsQuiet e s t q h i = ground arith

run-IsQuiet :
    (events : List Event) (s t : Servers)
    → AllQuiet events
    → run events s ≡ some t
    → IsQuiet s
    → IsQuiet t
unfolding run
run-IsQuiet [] s t q h i = subst IsQuiet (cc) i
run-IsQuiet (e ∷ events) s t q h i =
    let (u, h) = run-first e events s t h in
    run-IsQuiet events u t q.1 h.1 (next-IsQuiet e s u q.0 h.0 i)

servers-IsQuiet : (d : Driver) → IsQuiet (servers d)
unfolding servers
servers-IsQuiet d = ground arith

wait-IsQuiet :
    (t : Servers) (r : Result (Unit {0}))
    → IsQuiet t
    → wait t ≡ some r
    → (r ≡ ok tt) ⊎ (r ≡ err err_server_stopped)
unfolding wait
wait-IsQuiet t r i w = ground arith

-- If no server fails of itself and Shutdown returns without an error, then the group's wait returns
-- either nil or the error of a gRPC server that was stopped before it served.
pub quiet_run :
    (d : Driver) (events : List Event) (t : Servers) (r : Result (Unit {0}))
    → AllQuiet events
    → run events (servers d) ≡ some t
    → wait t ≡ some r
    → (r ≡ ok tt) ⊎ (r ≡ err err_server_stopped)
quiet_run d events t r q h w =
    wait-IsQuiet t r (run-IsQuiet events (servers d) t q h (servers-IsQuiet d)) w
