-- ===== src/Index.antt =====
-- The maps `volumesByIdentity` and `snapshotsByIdentity` of driver/controller_volumes.go and
-- driver/controller_snapshots.go: a list's elements under their identities.
pub mod Laws
use csi_thalassa.Prelude.{String, List, [], ◌∷◌}
use csi_thalassa.Prelude.Labels.{insert}

-- The loop that fills the map: of two elements with one identity the later stays.
unfoldable pub by_identity {ℓ} :
    {A : Type ℓ} → (A → String) → List A → List (String × A) → List (String × A)
by_identity key [] m = m
by_identity key (a ∷ l) m = by_identity key l (insert (key a) a m)
