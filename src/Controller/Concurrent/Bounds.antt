-- ===== src/Controller/Concurrent/Bounds.antt =====
-- No request makes more calls than its bound, however the requests interleave.
use csi_thalassa.Prelude.{
  ℕ, ◌≤◌, ◌≡◌, refl, ap, ◌∙◌, List, [], ◌∷◌, Option, none, some, length, get_elem?,
}
use csi_thalassa.Iaas.{Cloud}
use csi_thalassa.Driver.{Driver}
use csi_thalassa.Controller.{Response}
use csi_thalassa.Controller.Calls.{Call, perform}
use csi_thalassa.Controller.Replay.Descent.{head_call, length-le}
use csi_thalassa.Controller.Tree.{Tree, ret, call}
use csi_thalassa.Controller.Tree.Serve.{call_bound, serve-IsTree}
use csi_thalassa.Controller.Concurrent.{
  Task, next_call, System, Event, arrive, turn, elsewhere, told, take_turn, happen, run,
}
use csi_thalassa.Prelude.All.{All, All-get_elem?, All-append, All-set}
use csi_thalassa.Controller.Concurrent.Position.{
  IsFit, tree, position, next_call-position, told-IsFit,
}

-- The answers so far are no more than the calls that the request may make.
abbrev pub IsBounded : Task → Type 0
IsBounded t = length t.replies ≤ call_bound t.rounds t.request

IsFit-IsBounded : (d : Driver) (t : Task) → IsFit d t → IsBounded t
IsFit-IsBounded d t fit =
    length-le (call_bound t.rounds t.request) (tree d t) t.replies
      (serve-IsTree t.rounds d t.request).within fit

All-IsBounded : (d : Driver) (l : List Task) → All (IsFit d) l → All IsBounded l
All-IsBounded d [] h = tt
All-IsBounded d (t ∷ l) h = (IsFit-IsBounded d t h.0, All-IsBounded d l h.1)

module _ (c : Cloud) (d : Driver) where
  -- The answer to the next call fits.
  next-IsFit :
      (t : Task) (k : Call) (s : c.State) (u : Tree Response)
      → IsFit d t
      → position d t ≡ u
      → next_call d t ≡ some k
      → IsFit d (told t (perform c k s).0)
  next-IsFit t k s (ret x) fit e asks = absurd (cc (next_call-position d t fit ∙ ap head_call e))
  next-IsFit t k s (call k' f) fit e asks =
      let same : k' ≡ k = cc (next_call-position d t fit ∙ ap head_call e) in
      told-IsFit d t fit c k f s (e ∙ ap (λ (k : Call). call k f) same)

  take_turn-IsFit :
      (s : System c.State) (i : ℕ) (t : Task) (o : Option Call)
      → next_call d t ≡ o
      → IsFit d t
      → All (IsFit d) s.tasks
      → All (IsFit d) (take_turn c d s i t o).tasks
  unfolding take_turn
  take_turn-IsFit s i t none e fit h = h
  take_turn-IsFit s i t (some k) e fit h =
      All-set (IsFit d) s.tasks i h (next-IsFit t k s.api (position d t) fit refl e)

  happen-IsFit :
      (s : System c.State) (e : Event c.State)
      → All (IsFit d) s.tasks
      → All (IsFit d) (happen c d s e).tasks
  unfolding happen
  happen-IsFit s (arrive q rounds) h = All-append (IsFit d) s.tasks h tt
  happen-IsFit s (turn i) h = turned (get_elem? s.tasks i) refl
    where
      turned :
          (o : Option Task)
          → get_elem? s.tasks i ≡ o
          → All
              (IsFit d)
              (elim o as (λ _. System c.State) [
                | none ↦ s
                | some t ↦ take_turn c d s i t (next_call d t)
              ]).tasks
      turned none e = h
      turned (some t) e =
          take_turn-IsFit s i t (next_call d t) refl (All-get_elem? (IsFit d) s.tasks i h e) h
  happen-IsFit s (elsewhere f) h = h

  run-IsFit :
      (s : System c.State) (events : List (Event c.State))
      → All (IsFit d) s.tasks
      → All (IsFit d) (run c d s events).tasks
  unfolding run
  run-IsFit s [] h = h
  run-IsFit s (e ∷ l) h = run-IsFit (happen c d s e) l (happen-IsFit s e h)

  -- Whatever happens from a start without requests: no request has made more calls than its bound.
  pub run-IsBounded :
      (api : c.State) (events : List (Event c.State))
      → All IsBounded (run c d (record { api = api; tasks = [] }) events).tasks
  run-IsBounded api events =
      All-IsBounded d _ (run-IsFit (record { api = api; tasks = [] }) events tt)
