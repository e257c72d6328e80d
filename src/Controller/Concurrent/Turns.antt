-- ===== src/Controller/Concurrent/Turns.antt =====
-- What one event does to one task.
use csi_thalassa.Prelude.{ℕ, ◌≡◌, ◌≢◌, refl, Option, none, some, get_elem?, set, get_elem?-set_ne}
use csi_thalassa.Iaas.{Cloud}
use csi_thalassa.Driver.{Driver}
use csi_thalassa.Controller.Calls.{Call, perform}
use csi_thalassa.Controller.Concurrent.{Task, next_call, System, turn, told, take_turn, happen}

module _ (c : Cloud) (d : Driver) where
  -- A turn is nothing for a task that is done, and one answer for one that is not.
  pub turn-done :
      (s : System c.State) (i : ℕ) {t : Task}
      → get_elem? s.tasks i ≡ some t
      → next_call d t ≡ none
      → happen c d s (turn i) ≡ s
  unfolding happen take_turn
  turn-done s i at_i is_done = rw (at_i, happen) (rw (is_done, take_turn))

  pub turn-call :
      (s : System c.State) (i : ℕ) {t : Task} {k : Call}
      → get_elem? s.tasks i ≡ some t
      → next_call d t ≡ some k
      → happen c d s (turn i) ≡ record {
        api = (perform c k s.api).1;
        tasks = set s.tasks i (told t (perform c k s.api).0);
      }
  unfolding happen take_turn
  turn-call s i at_i asks = rw (at_i, happen) (rw (asks, take_turn))

  -- The turn of another task.
  take_turn-other :
      (s : System c.State) (i j : ℕ) (u : Task) (o : Option Call)
      → j ≢ i
      → get_elem? (take_turn c d s j u o).tasks i ≡ get_elem? s.tasks i
  unfolding take_turn
  take_turn-other s i j u none ne = refl
  take_turn-other s i j u (some k) ne = get_elem?-set_ne s.tasks i j _ ne

  pub happen-other :
      (s : System c.State) (i j : ℕ)
      → j ≢ i
      → get_elem? (happen c d s (turn j)).tasks i ≡ get_elem? s.tasks i
  unfolding happen
  happen-other s i j ne = at (get_elem? s.tasks j)
    where
      at :
          (o : Option Task)
          → get_elem?
              (elim o as (λ _. System c.State) [
                | none ↦ s
                | some u ↦ take_turn c d s j u (next_call d u)
              ]).tasks
              i
            ≡ get_elem? s.tasks i
      at none = refl
      at (some u) = take_turn-other s i j u (next_call d u) ne
