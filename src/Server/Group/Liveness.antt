-- ===== src/Server/Group/Liveness.antt =====
-- After a cancellation the group comes to its end.
use csi_thalassa.Prelude.{
  ℕ, zero, suc, ◌+◌, ◌<◌, ◌≡◌, ◌≢◌, refl, Bool, true, false, none, some, arith,
}
use csi_thalassa.Server.Group.{
  Stage, waiting, working, ended, Stopper, asleep, lowered, draining, stopped, Servers, Event,
  shut_down, shut_down_returns, http_ends, server_closed, serve, serve_returns, lower_ready,
  stop_gracefully, drained, next, wait,
}

-- What goroutines have left to do.
abbrev stage_left : Stage → ℕ
stage_left waiting = 2
stage_left working = 1
stage_left ended = 0

abbrev stopper_left : Stopper → ℕ
stopper_left asleep = 3
stopper_left lowered = 2
stopper_left draining = 1
stopper_left stopped = 0

abbrev cancel_left : Bool → ℕ
cancel_left true = 0
cancel_left false = 1

unfoldable pub left : Servers → ℕ
left s =
    cancel_left s.cancelled
    + stage_left s.shutdown
    + stage_left s.http
    + stage_left s.serve
    + stopper_left s.stopper

left-next : (e : Event) (s t : Servers) → next e s ≡ some t → left t < left s
unfolding left next
left-next e s t h = ground arith

-- On every way on from a state there comes one where `P` holds: it holds already, or something can
-- happen, and whatever happens leads to one from which it is so.
pub data Inevitable (P : Servers → Type 0) : Servers → Type 0 where
  now : {s : Servers} → P s → Inevitable P s
  later :
      {s : Servers} (e : Event)
      → next e s ≢ none
      → ((f : Event) (u : Servers) → next f s ≡ some u → Inevitable P u)
      → Inevitable P s

abbrev pub HasReturned : Servers → Type 0
HasReturned s = (wait s ≢ none)

-- The group has ended, or something can happen.
data Moves (s : Servers) : Type 0 where
  returned : HasReturned s → Moves s
  moved : (e : Event) → next e s ≢ none → Moves s

module _ (s : Servers) (c : s.cancelled ≡ true) where
  http-Moves : s.shutdown ≡ ended → s.serve ≡ ended → (p : Stage) → s.http ≡ p → Moves s
  unfolding next wait
  http-Moves d v ended h = returned (ground arith)
  http-Moves d v _ h = moved (http_ends server_closed) (ground arith)

  shutdown-Moves : s.serve ≡ ended → (p : Stage) → s.shutdown ≡ p → Moves s
  unfolding next
  shutdown-Moves v ended h = http-Moves h v s.http refl
  shutdown-Moves v waiting h = moved shut_down (ground arith)
  shutdown-Moves v working h = moved (shut_down_returns none) (ground arith)

  serve-Moves : s.stopper ≡ stopped → (p : Stage) → s.serve ≡ p → Moves s
  unfolding next
  serve-Moves q ended h = shutdown-Moves h s.shutdown refl
  serve-Moves q waiting h = moved serve (ground arith)
  serve-Moves q working h = moved serve_returns (ground arith)

  stopper-Moves : (p : Stopper) → s.stopper ≡ p → Moves s
  unfolding next
  stopper-Moves stopped h = serve-Moves h s.serve refl
  stopper-Moves asleep h = moved lower_ready (ground arith)
  stopper-Moves lowered h = moved stop_gracefully (ground arith)
  stopper-Moves draining h = moved drained (ground arith)

cancelled-next :
    (e : Event) (s t : Servers) → next e s ≡ some t → s.cancelled ≡ true → t.cancelled ≡ true
unfolding next
cancelled-next e s t h c = ground arith

returns_within : (n : ℕ) (s : Servers) → left s < n → s.cancelled ≡ true → Inevitable HasReturned s
returns_within zero s h c = ground arith
returns_within (suc n) s h c = elim (stopper-Moves s c s.stopper refl) [
  | returned r ↦ now r
  | moved e m ↦
      later e m
        (λ f u g. returns_within n u (omega (arith, left-next f s u g)) (cancelled-next f s u g c))
]

-- Once the context is cancelled it is inevitable that the group's wait returns, whatever the
-- servers do, as long as what can happen goes on happening: that Shutdown returns, which has a
-- deadline, and that the graceful stop has drained the gRPC server.
pub cancelled-Inevitable : (s : Servers) → s.cancelled ≡ true → Inevitable HasReturned s
cancelled-Inevitable s c = returns_within (suc (left s)) s (omega arith) c
