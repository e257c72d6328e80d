-- ===== src/Volumes/Create/Again.antt =====
-- A request for a volume that is repeated.
use csi_thalassa.Prelude.{◌≡◌, ◌≢◌, refl, sym, ap, ◌∙◌, String, Option, none, some, [], ◌∷◌}
use csi_thalassa.Prelude.Signed.{ℤ, ◌/ℤ◌}
use csi_thalassa.Status.{is_not_found}
use csi_thalassa.Exec.{Result, ok, handle, deref, fail, pure, reworded-ok, ◌>>=◌}
use csi_thalassa.Exec.Keeps.{Keeps-after}
use csi_thalassa.Exec.Ensures.{Ensures, handle-Ensures, if-Ensures, ensured}
use csi_thalassa.Capacity.{gib}
use csi_thalassa.Csi.{CreateVolumeRequest, CsiVolume}
use csi_thalassa.Iaas.{Cloud, Volume, CreateVolume}
use csi_thalassa.Iaas.Reads.{ReadsKeep}
use csi_thalassa.Iaas.Store.{VolumeStore, NewVolumes}
use csi_thalassa.Driver.{Driver}
use csi_thalassa.Volumes.Request.{build_create_volume_request, value_at}
use csi_thalassa.Volumes.Create.{
  create_volume, find_or_create, create_new_volume, volume_identity, resolve_volume_type_identity,
  apply_snapshot_restore,
}
use csi_thalassa.Volumes.Create.Rejected.{
  chosen_size, create_volume_ok, create_volume-find_or_create,
}
use csi_thalassa.Volumes.Create.Writes.{requested, apply-Returns, apply-Keeps, resolve-Keeps}

-- The API has the volume of the answer, with the request's name and this many GiB.
abbrev pub Stored :
    (c : Cloud) → VolumeStore c → CreateVolumeRequest → ℤ → c.State → CsiVolume → Type 0
Stored c store req size s v =
    (u : Volume) × (store.volumes s v.volume_id ≡ some u) × (u.name ≡ req.name) × (u.size ≡ size)

module _ (c : Cloud) (store : VolumeStore c) (new : NewVolumes c store) (d : Driver)
    (req : CreateVolumeRequest) (size : ℤ) where
  -- The calls between have changed no volume.
  abbrev SameVolumes : c.State → c.State → Type 0
  SameVolumes s s' = (id : String) → store.volumes s' id ≡ store.volumes s id

  -- The volume of the answer was made between these states, and no other changed.
  abbrev Made : c.State → CsiVolume → c.State → Type 0
  Made s v s' =
      Stored c store req (size /ℤ gib) s' v
      × (store.volumes s v.volume_id ≡ none)
      × ((id : String) → id ≢ v.volume_id → store.volumes s' id ≡ store.volumes s id)

  reads_from :
      (s : c.State) (id : String) → ReadsKeep c (λ t. store.volumes t id ≡ store.volumes s id)
  reads_from s id = new.reads id (store.volumes s id)

  created-Made :
      (r : CreateVolume) (o : Option Volume) (s s1 s' : c.State)
      → SameVolumes s s1
      → r.name ≡ req.name
      → r.size ≡ (size /ℤ gib)
      → c.create_volume r s1 ≡ (ok o, s')
      → Ensures (Made s) (
          (deref o >>= λ vol. pure (record {
            volume_id = vol.identity;
            capacity_bytes = size;
            accessible_topology = (("region", d.region) ∷ []) ∷ [];
            content_source = req.volume_content_source;
          }))
            s')
  created-Made r none s s1 s' same n z h = tt
  created-Made r (some u) s s1 s' same n z h =
      let (named, sized) = new.as_asked r u s1 s' h in
      (
        (u, new.stored r u s1 s' h, named ∙ n, sized ∙ z),
        sym (same u.identity) ∙ new.is_new r u s1 s' h,
        λ id other. new.others r u s1 s' id h other ∙ same id,
      )

  create_new_volume-Made :
      (s s1 : c.State) → SameVolumes s s1 → Ensures (Made s) (create_new_volume c d req size s1)
  unfolding create_new_volume build_create_volume_request
  create_new_volume-Made s s1 same =
      handle-Ensures (Made s)
        (resolve_volume_type_identity c (value_at "volume-type" req.parameters)) fail _ s1
        (λ e s2 h. tt)
        λ id s2 resolved.
          handle-Ensures (Made s)
            (apply_snapshot_restore c req.volume_content_source
              (build_create_volume_request d req req.name size id))
            fail _ s2 (λ e s3 h. tt)
            λ r s3 applied.
              handle-Ensures (Made s) (handle (c.create_volume r) _ pure) fail _ s3 (λ e s4 k. tt)
                λ o s4 k.
                  made id r o s2 s3 s4 resolved applied (reworded-ok (c.create_volume r) _ s3 k)
    where
      made :
          (id : String) (r : CreateVolume) (o : Option Volume) (s2 s3 s4 : c.State)
          → resolve_volume_type_identity c (value_at "volume-type" req.parameters) s1 ≡ (ok id, s2)
          → apply_snapshot_restore c req.volume_content_source
              (build_create_volume_request d req req.name size id)
              s2
            ≡ (ok r, s3)
          → c.create_volume r s3 ≡ (ok o, s4)
          → Ensures (Made s) (
              (deref o >>= λ vol. pure (record {
                volume_id = vol.identity;
                capacity_bytes = size;
                accessible_topology = (("region", d.region) ∷ []) ∷ [];
                content_source = req.volume_content_source;
              }))
                s4)
      made id r o s2 s3 s4 resolved applied k =
          created-Made r o s s3 s4 between (ap (λ (q : CreateVolume). q.name) asked)
            (ap (λ (q : CreateVolume). q.size) asked) k
        where
          asked : r ≡ requested d req size id
          asked =
              apply-Returns c req.volume_content_source
                (build_create_volume_request d req req.name size id) refl s2 r
                (ap (λ (q : Result CreateVolume × c.State). q.0) applied)

          between : SameVolumes s s3
          between x =
              Keeps-after (λ t. store.volumes t x ≡ store.volumes s x)
                (apply_snapshot_restore c req.volume_content_source
                  (build_create_volume_request d req req.name size id))
                (apply-Keeps c _ (reads_from s x) req.volume_content_source
                  (build_create_volume_request d req req.name size id))
                (Keeps-after (λ t. store.volumes t x ≡ store.volumes s x)
                  (resolve_volume_type_identity c (value_at "volume-type" req.parameters))
                  (resolve-Keeps c _ (reads_from s x) (value_at "volume-type" req.parameters))
                  (same x) resolved)
                applied

  find_or_create-Made :
      (s : c.State)
      → store.volumes s (volume_identity req) ≡ none
      → Ensures (Made s) (find_or_create c d req size s)
  unfolding find_or_create
  find_or_create-Made s free =
      handle-Ensures (Made s) (c.get_volume (volume_identity req)) _ _ s
        (λ e s1 h.
          if-Ensures (Made s) (is_not_found e) _ _ s1 (λ _. create_new_volume-Made s s1 (looked h))
            (λ _. tt))
        (elim [
          | none ↦ λ s1 h. create_new_volume-Made s s1 (looked h)
          | some u ↦ λ s1 h. absurd (cc (free, (store.get (volume_identity req) (some u) s s1 h).0))
        ])
    where
      looked :
          {s1 : c.State} {r : Result (Option Volume)}
          → c.get_volume (volume_identity req) s ≡ (r, s1)
          → SameVolumes s s1
      looked h x =
          Keeps-after (λ t. store.volumes t x ≡ store.volumes s x)
            (c.get_volume (volume_identity req)) ((reads_from s x).get_volume (volume_identity req))
            refl h

create_volume-Made :
    (c : Cloud) (store : VolumeStore c) (new : NewVolumes c store) (d : Driver)
    (req : CreateVolumeRequest) (v : CsiVolume) (s s' : c.State)
    → store.volumes s (volume_identity req) ≡ none
    → create_volume c d req s ≡ (ok v, s')
    → Made c store new d req (chosen_size c d req) s v s'
create_volume-Made c store new d req v s s' free done =
    ensured (Made c store new d req (chosen_size c d req) s)
      (find_or_create c d req (chosen_size c d req) s) v s'
      (sym (
          create_volume-find_or_create c d req
            (create_volume_ok c d req s (ap (λ (r : Result CsiVolume × c.State). r.0) done)) s)
        ∙ done)
      (find_or_create-Made c store new d req (chosen_size c d req) s free)

-- CreateVolume is not idempotent on an API that looks a volume up by its identity, and gives every
-- volume a new one: if the request's look, under its name or its parameter, is for no volume's
-- identity, before the first request and after it, then a request that is repeated, and succeeds
-- again, makes a second volume. The API then has both, with the request's name and size in GiB.
pub create_volume_again :
    (c : Cloud) (store : VolumeStore c)
    → NewVolumes c store
    → (d : Driver) (req : CreateVolumeRequest) (v w : CsiVolume) (s s' s'' : c.State)
    → store.volumes s (volume_identity req) ≡ none
    → volume_identity req ≢ v.volume_id
    → create_volume c d req s ≡ (ok v, s')
    → create_volume c d req s' ≡ (ok w, s'')
    → (v.volume_id ≢ w.volume_id)
      × Stored c store req (chosen_size c d req /ℤ gib) s'' v
      × Stored c store req (chosen_size c d req /ℤ gib) s'' w
create_volume_again c store new d req v w s s' s'' free other first second =
    let ((u, there, named, sized), _, others) =
      create_volume-Made c store new d req v s s' free first in
    let (stored, is_new, others') =
      create_volume-Made c store new d req w s' s'' (others (volume_identity req) other ∙ free)
        second in
    let differs : v.volume_id ≢ w.volume_id = λ same. absurd (cc (same, there, is_new)) in
    (differs, (u, others' v.volume_id differs ∙ there, named, sized), stored)
