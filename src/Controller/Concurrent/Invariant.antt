-- ===== src/Controller/Concurrent/Invariant.antt =====
-- What survives every call of every request survives all their interleavings.
use csi_thalassa.Prelude.All.{All}
use csi_thalassa.Exec.{ok}
use csi_thalassa.Iaas.{Cloud, Volume}
use csi_thalassa.Driver.{Driver}
use csi_thalassa.Controller.{Request}
use csi_thalassa.Controller.Calls.{Reply, volume}
use csi_thalassa.Controller.Writes.{ToldOf}
use csi_thalassa.Controller.Concurrent.{Task, System, Event, arrive, turn, elsewhere}

-- The volume of an answer, if it is one, has the property.
abbrev pub Told : (Volume → Type 0) → Reply → Type 0
Told T (volume (ok o)) = ToldOf T o
Told T _ = Unit

module _ (c : Cloud) (d : Driver) (P : c.State → Type 0) (T : Volume → Type 0)
    (Expected : Request → Type 0) where
  -- Only expected requests come in, and what else uses the API keeps `P`.
  abbrev pub IsExpected : Event c.State → Type 0
  IsExpected (arrive q rounds) = Expected q
  IsExpected (turn i) = Unit
  IsExpected (elsewhere f) = (s : c.State) → P s → P (f s)

  -- A request in progress is expected, and the volumes that it was told have the property.
  abbrev pub IsSoundTask : Task → Type 0
  IsSoundTask t = Expected t.request × All (Told T) t.replies

  -- `P` holds of the API, and the requests in progress are sound.
  abbrev pub IsSound : System c.State → Type 0
  IsSound s = P s.api × All IsSoundTask s.tasks
