-- ===== src/Controller/Concurrent.antt =====
-- Requests in progress over one API. The gRPC server runs each request's method in a goroutine of
-- its own, and the driver takes no lock: between two calls of one request anything may happen.
pub mod Invariant
pub mod Position
pub mod Turns
pub mod Liveness
pub mod Bounds
pub mod Publish
pub mod Unpublish
use csi_thalassa.Prelude.{ℕ, List, [], ◌∷◌, ◌++◌, Option, none, some, get_elem?, set}
use csi_thalassa.Exec.{Result}
use csi_thalassa.Iaas.{Cloud}
use csi_thalassa.Driver.{Driver}
use csi_thalassa.Controller.{Request, Response, serve}
use csi_thalassa.Controller.Calls.{Call, Reply, perform}
use csi_thalassa.Controller.Replay.{Replay, replay}

-- A request in progress: its answers so far, the first one first, and how often its wait asks.
pub record Task : Type 0 where
  pub request : Request
  pub rounds : ℕ
  pub replies : List Reply

unfoldable pub progress : Driver → Task → Result Response × Replay
unfolding serve
progress d t = serve (replay t.rounds) d t.request (record { replies = t.replies; asks = none })

-- The call that the task makes next; none if it is done.
abbrev pub next_call : Driver → Task → Option Call
next_call d t = (progress d t).1.asks

abbrev pub result_of {ℓ} : {A : Type ℓ} → Option Call → A → Option A
result_of none x = some x
result_of (some k) x = none

-- What the task returned, if it is done.
abbrev pub result : Driver → Task → Option (Result Response)
result d t = result_of (next_call d t) (progress d t).0

pub record System (S : Type 0) : Type 0 where
  pub api : S
  pub tasks : List Task

pub data Event (S : Type 0) : Type 0 where
  -- a request comes in; its task is the last
  arrive : Request → (rounds : ℕ) → Event S
  -- the task of this number makes its next call
  turn : ℕ → Event S
  -- something else that uses the API changes it
  elsewhere : (S → S) → Event S

abbrev pub new_task : Request → ℕ → Task
new_task q rounds = record { request = q; rounds = rounds; replies = [] }

abbrev pub told : Task → Reply → Task
told t r = record t { replies = t.replies ++ r ∷ [] }

module _ (c : Cloud) (d : Driver) where
  -- The task's next call, if it has one.
  unfoldable pub take_turn : System c.State → ℕ → Task → Option Call → System c.State
  unfolding perform
  take_turn s i t none = s
  take_turn s i t (some k) =
      let (r, api) = perform c k s.api in record { api = api; tasks = set s.tasks i (told t r) }

  unfoldable pub happen : System c.State → Event c.State → System c.State
  unfolding take_turn progress
  happen s (arrive q rounds) = record s { tasks = s.tasks ++ new_task q rounds ∷ [] }
  happen s (turn i) = elim (get_elem? s.tasks i) [
    | none ↦ s
    | some t ↦ take_turn s i t (next_call d t)
  ]
  happen s (elsewhere f) = record s { api = f s.api }

  unfoldable pub run : System c.State → List (Event c.State) → System c.State
  unfolding happen
  run s [] = s
  run s (e ∷ l) = run (happen s e) l
