-- ===== src/Node/Stage.antt =====
-- NodeStageVolume and NodeUnstageVolume.
pub mod Laws
use csi_thalassa.Prelude.{
  String, Bool, true, false, not, is_some, List, [], ◌∷◌, Option, none, some, ◌==◌, if◌then◌else◌,
}
use csi_thalassa.Prelude.Labels.{Labels, lookup}
use csi_thalassa.Status.{status, text, invalid_argument, internal}
use csi_thalassa.Exec.{Exec, pure, fail, handle, ◌>>=◌, ◌>>◌}
use csi_thalassa.Csi.{
  NodeStageRequest, VolumeCapability, MountVolume, AccessType, no_type, block, mount,
}
use csi_thalassa.Driver.{Driver}
use csi_thalassa.Node.Path.{get_device_by_id_path}
use csi_thalassa.Node.Interface.{Host}

-- `ext4` where the request names no file system
abbrev pub fs_type_or_default : String → String
fs_type_or_default fs_type = if not (fs_type == "") then fs_type else "ext4"

-- Whether the volume's context has the one annotation of `annsNoFormatVolume`.
abbrev pub no_format : Labels → Bool
no_format volume_context = is_some (lookup "csi.k8s.thalassa.cloud/noformat" volume_context)

module _ (h : Host) where
  unfoldable pub format_unless_formatted : (source fs_type : String) → Exec h.State (Unit {0})
  format_unless_formatted source fs_type = do
    formatted ← h.is_formatted source
    (if not formatted
        then (handle (h.format source fs_type) (λ e. fail (status internal (text e))) pure)
        else pure tt)

  -- The device before it is mounted: checked and formatted, unless formatting is to be skipped.
  unfoldable pub prepare_device :
      Driver → Labels → (source fs_type : String) → Exec h.State (Unit {0})
  unfolding format_unless_formatted
  prepare_device d volume_context source fs_type =
      if no_format volume_context
      then pure tt
      else if d.validate_attachment
      then (do
        handle (h.is_attached source)
            (λ e. fail (status internal "error retrieving the attachement status %q: %s")) pure
        format_unless_formatted source fs_type)
      else format_unless_formatted source fs_type

  unfoldable pub mount_unless_mounted :
      (source target fs_type : String) → List String → Exec h.State (Unit {0})
  mount_unless_mounted source target fs_type options = do
    mounted ← h.is_mounted target
    (if not mounted
        then (handle (h.mount source target fs_type options) (λ e. fail (status internal (text e)))
            pure)
        else pure tt)

  -- The file system grows to its device, if the device is there.
  unfoldable pub resize_if_needed : (source target : String) → Exec h.State (Unit {0})
  resize_if_needed source target =
      handle (h.stat source) (λ e. pure tt)
        λ _.
          handle (h.need_resize source target)
            (λ e. fail (status internal "Could not determine if volume %q need to be resized: %v"))
            λ need.
              if need
              then handle (h.resize source target)
                  (λ e. fail (status internal "Could not resize volume %q:  %v")) (λ _. pure tt)
              else pure tt

  unfoldable pub stage_file_system :
      Driver → NodeStageRequest → MountVolume → Exec h.State (Unit {0})
  unfolding prepare_device mount_unless_mounted resize_if_needed get_device_by_id_path
  stage_file_system d req mnt = do
    prepare_device d req.volume_context (get_device_by_id_path req.volume_id)
        (fs_type_or_default mnt.fs_type)
    mount_unless_mounted (get_device_by_id_path req.volume_id) req.staging_target_path
        (fs_type_or_default mnt.fs_type) mnt.mount_flags
    resize_if_needed (get_device_by_id_path req.volume_id) req.staging_target_path

  -- The switch over the capability's access type, and the test of `GetMount()`.
  unfoldable pub stage_by_type : Driver → NodeStageRequest → AccessType → Exec h.State (Unit {0})
  unfolding stage_file_system
  stage_by_type d req block = pure tt
  stage_by_type d req no_type =
      fail (status invalid_argument "NodeStageVolume Volume Capability Mount must be provided")
  stage_by_type d req (mount mnt) = stage_file_system d req mnt

  unfoldable pub stage_capability :
      Driver → NodeStageRequest → Option VolumeCapability → Exec h.State (Unit {0})
  unfolding stage_by_type
  stage_capability d req none =
      fail (status invalid_argument "NodeStageVolume Volume Capability must be provided")
  stage_capability d req (some capability) = stage_by_type d req capability.access_type

  unfoldable pub node_stage_volume : Driver → NodeStageRequest → Exec h.State (Unit {0})
  unfolding stage_capability
  node_stage_volume d req =
      if req.volume_id == ""
      then fail (status invalid_argument "NodeStageVolume Volume ID must be provided")
      else if req.staging_target_path == ""
      then fail (status invalid_argument "NodeStageVolume Staging Target Path must be provided")
      else stage_capability d req req.volume_capability

  unfoldable pub node_unstage_volume :
      (volume_id staging_target_path : String) → Exec h.State (Unit {0})
  node_unstage_volume volume_id staging_target_path =
      if volume_id == ""
      then fail (status invalid_argument "NodeUnstageVolume Volume ID must be provided")
      else if staging_target_path == ""
      then fail (status invalid_argument "NodeUnstageVolume Staging Target Path must be provided")
      else handle (h.is_mounted staging_target_path) (λ e. fail (status internal (text e)))
          λ mounted.
            if mounted
            then handle (h.unmount staging_target_path) (λ e. fail (status internal (text e))) pure
            else pure tt
