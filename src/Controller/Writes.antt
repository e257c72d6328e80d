-- ===== src/Controller/Writes.antt =====
-- The writes that a controller's request may make, and that it makes no other.
use csi_thalassa.Prelude.{ap, true, arith, Option, none, some, String, ◌≡◌, ◌≢◌, not, refl, ◌==◌}
use csi_thalassa.Prelude.Signed.{ℤ, pos, ltℤ, ◌/ℤ◌}
use csi_thalassa.Prelude.Text.{trim_space}
use csi_thalassa.Status.{is_not_found}
use csi_thalassa.Exec.{ok, Exec, pure, lift, deref, ◌>>=◌}
use csi_thalassa.Exec.Keeps.{
  handle-Keeps_told, if-Keeps_tested, Keeps, handle-Keeps, >>=-Keeps, if-Keeps, deref-Keeps,
}
use csi_thalassa.Capacity.{gib, get_storage_size_from_capacity_range}
use csi_thalassa.Capacity.Laws.{required, limit, chosen, storage_size-Serves}
use csi_thalassa.Capabilities.{ValidateRequest, is_empty, validate_volume_capabilities}
use csi_thalassa.Csi.{ExpandVolumeRequest, ListVolumesRequest, ListSnapshotsRequest}
use csi_thalassa.Iaas.{Cloud, Volume, UpdateVolume}
use csi_thalassa.Iaas.Reads.{ReadsKeep}
use csi_thalassa.Driver.{Driver}
use csi_thalassa.Volumes.Create.{delete_volume}
use csi_thalassa.Volumes.Create.Writes.{requested, create_volume-Keeps}
use csi_thalassa.Volumes.Listing.{list_volumes}
use csi_thalassa.Resize.{
  controller_expand_volume, grow, resized, is_volume_size_equal_or_larger_than_requested,
}
use csi_thalassa.Resize.Laws.{Grown, resized-Grown}
use csi_thalassa.Snapshots.Create.{snapshot_request, delete_snapshot}
use csi_thalassa.Snapshots.Create.Laws.{create_snapshot-Keeps}
use csi_thalassa.Snapshots.Listing.{list_snapshots, get_one}
use csi_thalassa.Attachment.{resource}
use csi_thalassa.Attachment.Laws.{controller_publish_volume-Keeps}
use csi_thalassa.Attachment.Detach.{controller_unpublish_volume-Keeps}
use csi_thalassa.Controller.{
  Request, create_volume_request, delete_volume_request, publish_request, unpublish_request,
  list_volumes_request, expand_request, create_snapshot_request, delete_snapshot_request,
  list_snapshots_request, validate_request, serve,
}
use csi_thalassa.Controller.Calls.{Write, Call, read, write, perform_write}

abbrev pub wanted_units : ExpandVolumeRequest → ℤ
wanted_units req = pos (chosen (required req.capacity_range) (limit req.capacity_range)) /ℤ gib

-- The update of a volume to the whole GiB of the request's size, where these are more than it has; all
-- else stays.
abbrev pub IsExpansion : ExpandVolumeRequest → Volume → UpdateVolume → Type 0
IsExpansion req v u = Grown v (wanted_units req) u × (ltℤ v.size (wanted_units req) ≡ true)

-- A new volume as the request describes it, a type's identity aside; the deletion of the named
-- volume, its attachment to a machine, its detachment from one; its expansion, from a volume as
-- the API has told it; a
-- new snapshot as the request describes it, the source's identity aside; the deletion of the named
-- snapshot.
abbrev pub Permits : (Volume → Type 0) → Driver → Request → Write → Type 0
Permits T d (create_volume_request req) (Write.create_volume r) =
    (type_identity : String) × (type_identity ≢ "")
    × (r
        ≡ requested d req (pos (chosen (required req.capacity_range) (limit req.capacity_range)))
            type_identity)
Permits T d (delete_volume_request id) (Write.delete_volume id') = id' ≡ id
Permits T d (publish_request req) (Write.attach_volume id r) =
    (id ≡ req.volume_id) × (machine : String) × (r ≡ resource machine)
Permits T d (unpublish_request id node) (Write.detach_volume id' r) =
    (id' ≡ id) × (machine : String) × (r ≡ resource machine)
Permits T d (expand_request req) (Write.update_volume id u) =
    (id ≡ req.volume_id) × (v : Volume) × T v × IsExpansion req v u
Permits T d (create_snapshot_request req) (Write.create_snapshot r) =
    (volume_identity : String) × (r ≡ snapshot_request d req volume_identity)
Permits T d (delete_snapshot_request id) (Write.delete_snapshot id') = id' ≡ id
Permits T d _ _ = ⊥

-- The property of a volume, if there is one.
abbrev pub ToldOf : (Volume → Type 0) → Option Volume → Type 0
ToldOf T none = Unit
ToldOf T (some v) = T v

-- Reads are free.
abbrev pub Allows : (Volume → Type 0) → Driver → Request → Call → Type 0
Allows T d q (read r) = Unit
Allows T d q (write w) = Permits T d q w

module _ (c : Cloud) (P : c.State → Type 0) (reads : ReadsKeep c P) where
  list_volumes-Keeps : (d : Driver) (req : ListVolumesRequest) → Keeps P (list_volumes c d req)
  unfolding list_volumes
  list_volumes-Keeps d req =
      handle-Keeps (c.list_volumes _) _ _ (reads.list_volumes _) (λ e s h. h)
        λ l. >>=-Keeps (lift _) _ (λ s h. h) (λ page s h. h)

  list_snapshots-Keeps :
      (d : Driver) (req : ListSnapshotsRequest) → Keeps P (list_snapshots c d req)
  unfolding list_snapshots get_one
  list_snapshots-Keeps d req =
      if-Keeps P (not (req.snapshot_id == "")) _ _
        (handle-Keeps (c.get_snapshot req.snapshot_id) _ _ (reads.get_snapshot req.snapshot_id)
          (λ e s h. h) λ found. >>=-Keeps (deref found) _ (deref-Keeps P found) (λ snap s h. h))
        (handle-Keeps (c.list_snapshots _) _ _ (reads.list_snapshots _) (λ e s h. h)
          λ l. >>=-Keeps (lift _) _ (λ s h. h) (λ page s h. h))

  validate-Keeps : (req : ValidateRequest) → Keeps P (validate_volume_capabilities c req)
  unfolding validate_volume_capabilities
  validate-Keeps req =
      if-Keeps P (req.volume_id == "") _ _ (λ s h. h)
        (if-Keeps P (is_empty req.volume_capabilities) _ _ (λ s h. h)
          (handle-Keeps (c.get_volume req.volume_id) _ _ (reads.get_volume req.volume_id)
            (λ e s h. h) (λ v s h. h)))

  delete_volume-Keeps : (id : String) → Keeps P (c.delete_volume id) → Keeps P (delete_volume c id)
  unfolding delete_volume
  delete_volume-Keeps id k =
      if-Keeps P (id == "") _ _ (λ s h. h)
        (handle-Keeps (c.delete_volume id) _ _ k
          (λ e. if-Keeps P (is_not_found e) _ _ (λ s h. h) (λ s h. h)) (λ _ s h. h))

  delete_snapshot-Keeps :
      (id : String) → Keeps P (c.delete_snapshot id) → Keeps P (delete_snapshot c id)
  unfolding delete_snapshot
  delete_snapshot-Keeps id k =
      if-Keeps P (id == "") _ _ (λ s h. h)
        (handle-Keeps (c.delete_snapshot id) _ _ k
          (λ e. if-Keeps P (is_not_found e) _ _ (λ s h. h) (λ s h. h)) (λ _ s h. h))

  -- The volumes that GetVolume gives where `P` holds have the property.
  abbrev pub Tells : (Volume → Type 0) → Type 0
  Tells T =
      (id : String) (s : c.State) (v : Volume) → P s → (c.get_volume id s).0 ≡ ok (some v) → T v

  grow-Keeps :
      (T : Volume → Type 0) (req : ExpandVolumeRequest) (size : ℤ) (v : Volume)
      → size ≡ wanted_units req
      → ((u : UpdateVolume) → IsExpansion req v u → Keeps P (c.update_volume req.volume_id u))
      → Keeps P (grow c req size v)
  unfolding grow is_volume_size_equal_or_larger_than_requested
  grow-Keeps T req size v same k =
      if-Keeps_tested P (is_volume_size_equal_or_larger_than_requested v size) _ _ (λ _ s h. h)
        λ small.
          handle-Keeps (c.update_volume req.volume_id (resized v size)) _ _
            (k (resized v size)
              (rw (← same) (resized-Grown v size), rw (← same) (ground (arith, small))))
            (λ e s h. h) (λ _ s h. h)

  expand-Keeps :
      (T : Volume → Type 0)
      → Tells T
      → (req : ExpandVolumeRequest)
      → ((v : Volume) (u : UpdateVolume)
          → T v
          → IsExpansion req v u
          → Keeps P (c.update_volume req.volume_id u))
      → Keeps P (controller_expand_volume c req)
  unfolding controller_expand_volume
  expand-Keeps T tells req k =
      if-Keeps P (trim_space req.volume_id == "") _ _ (λ s h. h)
        (handle-Keeps_told P (λ bytes. (bytes /ℤ gib) ≡ wanted_units req)
          (lift (get_storage_size_from_capacity_range req.capacity_range)) _ _ (λ s h. h)
          (λ s bytes h e. ap (λ x. x /ℤ gib) (storage_size-Serves req.capacity_range e).0)
          (λ e s h. h)
          λ bytes same.
            handle-Keeps_told P (ToldOf T) (c.get_volume req.volume_id) _ _
              (reads.get_volume req.volume_id) (λ s o h e. told_of s o h e) (λ e s h. h)
              λ found t. known found t same)
    where
      told_of :
          (s : c.State) (o : Option Volume)
          → P s
          → (c.get_volume req.volume_id s).0 ≡ ok o
          → ToldOf T o
      told_of s none h e = tt
      told_of s (some v) h e = tells req.volume_id s v h e

      known :
          {size : ℤ} (o : Option Volume)
          → ToldOf T o
          → size ≡ wanted_units req
          → Keeps P (do v ← deref o; grow c req size v)
      known none t same = λ s h. h
      known {size} (some v) t same = grow-Keeps T req size v same (λ u x. k v u t x)

  answer-Keeps :
      {A B : Type 0} (m : Exec c.State A) (f : A → B) → Keeps P m → Keeps P (m >>= λ a. pure (f a))
  answer-Keeps m f k = >>=-Keeps m _ k (λ a s h. h)

  -- Whatever survives the calls that read, and the writes that a request permits, survives the
  -- serving of the request, whether it succeeds or fails: it makes no other write.
  pub serve-Keeps :
      (T : Volume → Type 0)
      → Tells T
      → (d : Driver) (q : Request)
      → ((w : Write) → Permits T d q w → (s : c.State) → P s → P (perform_write c w s).1)
      → Keeps P (serve c d q)
  unfolding serve
  serve-Keeps T tells d (create_volume_request req) writes = answer-Keeps _ _ (
      create_volume-Keeps c P reads d req
        λ t named. writes (Write.create_volume _) (t, named, refl))
  serve-Keeps T tells d (delete_volume_request id) writes =
      answer-Keeps _ _ (delete_volume-Keeps id (writes (Write.delete_volume id) refl))
  serve-Keeps T tells d (publish_request req) writes = answer-Keeps _ _ (
      controller_publish_volume-Keeps c P reads d req λ l node machine found.
        writes (Write.attach_volume req.volume_id (resource machine)) (refl, machine, refl))
  serve-Keeps T tells d (unpublish_request id node) writes = answer-Keeps _ _ (
      controller_unpublish_volume-Keeps c P reads d id node
        λ machine. writes (Write.detach_volume id (resource machine)) (refl, machine, refl))
  serve-Keeps T tells d (list_volumes_request req) writes =
      answer-Keeps _ _ (list_volumes-Keeps d req)
  serve-Keeps T tells d (expand_request req) writes = answer-Keeps _ _ (
      expand-Keeps T tells req
        λ v u t x. writes (Write.update_volume req.volume_id u) (refl, v, t, x))
  serve-Keeps T tells d (create_snapshot_request req) writes = answer-Keeps _ _ (
      create_snapshot-Keeps c P reads d req
        λ id. writes (Write.create_snapshot (snapshot_request d req id)) (id, refl))
  serve-Keeps T tells d (delete_snapshot_request id) writes =
      answer-Keeps _ _ (delete_snapshot-Keeps id (writes (Write.delete_snapshot id) refl))
  serve-Keeps T tells d (list_snapshots_request req) writes =
      answer-Keeps _ _ (list_snapshots-Keeps d req)
  serve-Keeps T tells d (validate_request req) writes = answer-Keeps _ _ (validate-Keeps req)
