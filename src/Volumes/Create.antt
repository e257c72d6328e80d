-- ===== src/Volumes/Create.antt =====
-- CreateVolume and DeleteVolume.
pub mod Rejected
pub mod Existing
pub mod Writes
pub mod Again
use csi_thalassa.Prelude.{
  String, Bool, true, false, not, List, [], ◌∷◌, Option, none, some, ◌==◌, if◌then◌else◌, is_some,
}
use csi_thalassa.Prelude.Signed.{ℤ}
use csi_thalassa.Prelude.Text.{equal_fold}
use csi_thalassa.Status.{
  Error, status, text, is_not_found, invalid_argument, not_found, internal, out_of_range,
}
use csi_thalassa.Exec.{Exec, pure, fail, lift, deref, handle, ◌>>=◌, ◌>>◌}
use csi_thalassa.Capacity.{get_storage_size_from_capacity_range}
use csi_thalassa.Csi.{CreateVolumeRequest, CsiVolume, ContentSource, snapshot, other_source}
use csi_thalassa.Iaas.{Cloud, Volume, VolumeType, CreateVolume}
use csi_thalassa.Driver.{Driver}
use csi_thalassa.Capabilities.{validate_capabilities, is_empty}
use csi_thalassa.VolumeType.{get_volume_type_by_filters}
use csi_thalassa.Volumes.Request.{
  validate_create_volume_accessibility, create_volume_response_from_existing, value_at,
  build_create_volume_request,
}

-- The volume type to look for.
abbrev pub wanted_type : String → String
wanted_type param = if param == "" then "block" else param

-- The two filters, by identity and by name.
abbrev pub type_filters : String → List (VolumeType → Bool)
type_filters param = (λ t. t.identity == param) ∷ (λ t. equal_fold t.name param) ∷ []

-- The status for a failed call of the API's CreateVolume.
create_error : CreateVolume → Error → Error
create_error req e =
    if is_some req.restore_from_snapshot_id
    then (if is_not_found e
        then status not_found "snapshot not found for restore"
        else status internal (text e))
    else status internal (text e)

-- The name under which CreateVolume looks for the volume.
unfoldable pub volume_identity : CreateVolumeRequest → String
volume_identity req =
    if value_at "volume-identity" req.parameters == ""
    then req.name
    else value_at "volume-identity" req.parameters

module _ (c : Cloud) where
  unfoldable pub resolve_volume_type_identity : String → Exec c.State String
  resolve_volume_type_identity param =
      handle c.list_volume_types (λ e. fail (status internal (text e)))
        λ types.
          handle (lift (get_volume_type_by_filters types (type_filters (wanted_type param))))
            (λ e. fail (status internal (text e)))
            λ identity.
              if identity == ""
              then fail (status invalid_argument "invalid volume type: %q: volume type not found")
              else pure identity

  -- The request comes back with the snapshot to restore from, if there is one.
  unfoldable pub apply_snapshot_restore :
      Option ContentSource → CreateVolume → Exec c.State CreateVolume
  apply_snapshot_restore none req = pure req
  apply_snapshot_restore (some other_source) req = pure req
  apply_snapshot_restore (some (snapshot id)) req =
      if id == ""
      then fail (status invalid_argument "snapshot ID is empty")
      else handle (c.get_snapshot id)
          (λ e. fail (
            if is_not_found e
            then status not_found "snapshot not found for restore"
            else status internal (text e)))
          (λ _. pure (record req { restore_from_snapshot_id = some id }))

  -- CreateVolume from the resolution of the volume type on.
  unfoldable pub create_new_volume : Driver → CreateVolumeRequest → ℤ → Exec c.State CsiVolume
  unfolding create_error
  create_new_volume d req size = do
    type_identity ← resolve_volume_type_identity (value_at "volume-type" req.parameters)
    volume_req ←
        apply_snapshot_restore req.volume_content_source
          (build_create_volume_request d req req.name size type_identity)
    created ← handle (c.create_volume volume_req) (λ e. fail (create_error volume_req e)) pure
    vol ← deref created
    pure (record {
      volume_id = vol.identity;
      capacity_bytes = size;
      accessible_topology = (("region", d.region) ∷ []) ∷ [];
      content_source = req.volume_content_source;
    })

  -- CreateVolume from the look for an existing volume on.
  unfoldable pub find_or_create : Driver → CreateVolumeRequest → ℤ → Exec c.State CsiVolume
  find_or_create d req size =
      handle (c.get_volume (volume_identity req))
        (λ e.
          if is_not_found e then create_new_volume d req size else fail (status internal (text e)))
        λ found. elim found [
          | none ↦ create_new_volume d req size
          | some volume ↦ lift (create_volume_response_from_existing volume size)
        ]

  unfoldable pub create_volume : Driver → CreateVolumeRequest → Exec c.State CsiVolume
  create_volume d req =
      if req.name == ""
      then fail (status invalid_argument "CreateVolume Name must be provided")
      else if is_empty req.volume_capabilities
      then fail (status invalid_argument "CreateVolume Volume capabilities must be provided")
      else if not (is_empty (validate_capabilities req.volume_capabilities))
      then fail (status invalid_argument "volume capabilities cannot be satisified: %s")
      else handle (lift (get_storage_size_from_capacity_range req.capacity_range))
          (λ e. fail (status out_of_range "invalid capacity range: %v"))
          λ size. do
            lift (validate_create_volume_accessibility req d.region)
            find_or_create d req size

  -- An absent volume counts as deleted. Other errors are passed on as they are.
  unfoldable pub delete_volume : String → Exec c.State (Unit {0})
  delete_volume volume_id =
      if volume_id == ""
      then fail (status invalid_argument "DeleteVolume Volume ID must be provided")
      else handle (c.delete_volume volume_id) (λ e. if is_not_found e then pure tt else fail e)
          (λ _. pure tt)
