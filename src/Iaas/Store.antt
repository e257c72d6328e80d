-- ===== src/Iaas/Store.antt =====
-- What the volumes of the API promise to its callers.
use csi_thalassa.Prelude.{String, ◌≡◌, ◌≢◌, Option, none, some}
use csi_thalassa.Exec.{ok}
use csi_thalassa.Iaas.{Cloud, Volume, CreateVolume, UpdateVolume}
use csi_thalassa.Iaas.Reads.{ReadsKeep}

-- The API has a store of volumes by their identities, which GetVolume answers from, and a volume
-- that UpdateVolume has updated has the size that was asked for.
pub record VolumeStore (c : Cloud) : Type 0 where
  pub volumes : c.State → String → Option Volume
  pub get :
      (id : String) (o : Option Volume) (s s' : c.State)
      → c.get_volume id s ≡ (ok o, s')
      → (volumes s id ≡ o) × (volumes s' id ≡ o)
  pub update :
      (id : String) (req : UpdateVolume) (v : Volume) (s s' : c.State)
      → volumes s id ≡ some v
      → c.update_volume id req s ≡ (ok tt, s')
      → (w : Volume) × ((volumes s' id ≡ some w) × (w.size ≡ req.size))

-- A volume that CreateVolume answers with is stored under its identity, which no volume had
-- before, and has the name and the size that were asked for. The other volumes stay, and the calls
-- that read change none.
pub record NewVolumes (c : Cloud) (store : VolumeStore c) : Type 0 where
  pub reads : (id : String) (o : Option Volume) → ReadsKeep c (λ s. store.volumes s id ≡ o)
  pub is_new :
      (req : CreateVolume) (v : Volume) (s s' : c.State)
      → c.create_volume req s ≡ (ok (some v), s')
      → store.volumes s v.identity ≡ none
  pub stored :
      (req : CreateVolume) (v : Volume) (s s' : c.State)
      → c.create_volume req s ≡ (ok (some v), s')
      → store.volumes s' v.identity ≡ some v
  pub as_asked :
      (req : CreateVolume) (v : Volume) (s s' : c.State)
      → c.create_volume req s ≡ (ok (some v), s')
      → (v.name ≡ req.name) × (v.size ≡ req.size)
  pub others :
      (req : CreateVolume) (v : Volume) (s s' : c.State) (id : String)
      → c.create_volume req s ≡ (ok (some v), s')
      → id ≢ v.identity
      → store.volumes s' id ≡ store.volumes s id
