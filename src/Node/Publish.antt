-- ===== src/Node/Publish.antt =====
-- NodePublishVolume and NodeUnpublishVolume.
pub mod Laws
use csi_thalassa.Prelude.{
  String, Bool, true, false, not, List, [], ◌∷◌, ◌++◌, Option, none, some, ◌==◌, if◌then◌else◌,
}
use package.text.Mathlib.Text.{starts_with}
use csi_thalassa.Status.{status, plain, text, invalid_argument, internal}
use csi_thalassa.Exec.{Exec, pure, fail, handle, ◌>>=◌}
use csi_thalassa.Csi.{
  NodePublishRequest, VolumeCapability, MountVolume, AccessType, no_type, block, mount,
}
use csi_thalassa.Node.Path.{get_device_by_id_path}
use csi_thalassa.Node.Interface.{Host}
use csi_thalassa.Node.Stage.{fs_type_or_default, mount_unless_mounted}

-- `bind`, and `ro` for a volume that is only read
abbrev pub bind_options : Bool → List String
bind_options readonly = if readonly then "bind" ∷ "ro" ∷ [] else "bind" ∷ []

module _ (h : Host) where
  unfoldable pub find_absolute_device_by_id_path : String → Exec h.State String
  unfolding get_device_by_id_path
  find_absolute_device_by_id_path volume_name =
      handle (h.eval_symlinks (get_device_by_id_path volume_name))
        (λ e. fail (plain "could not resolve symlink %q: %v"))
        λ resolved.
          if not (starts_with resolved "/dev")
          then fail (plain "resolved symlink %q for %q was unexpected")
          else pure resolved

  unfoldable pub node_publish_volume_for_file_system :
      NodePublishRequest → MountVolume → Exec h.State (Unit {0})
  unfolding mount_unless_mounted
  node_publish_volume_for_file_system req mnt =
      mount_unless_mounted h req.staging_target_path req.target_path
        (fs_type_or_default mnt.fs_type) (bind_options req.readonly ++ mnt.mount_flags)

  unfoldable pub node_publish_volume_for_block : NodePublishRequest → Exec h.State (Unit {0})
  unfolding find_absolute_device_by_id_path
  node_publish_volume_for_block req =
      handle (find_absolute_device_by_id_path req.volume_id)
        (λ e. fail (status internal "Failed to find device path for volume %s. %v"))
        λ source. do
          mounted ← h.is_mounted req.target_path
          (if not mounted
              then (handle (h.mount source req.target_path "" (bind_options req.readonly))
                  (λ e. fail (status internal "failed to mount volume %s: %s")) pure)
              else pure tt)

  -- The switch over the capability's access type.
  unfoldable pub publish_by_type : NodePublishRequest → AccessType → Exec h.State (Unit {0})
  unfolding node_publish_volume_for_file_system node_publish_volume_for_block
  publish_by_type req block = node_publish_volume_for_block req
  publish_by_type req (mount mnt) = node_publish_volume_for_file_system req mnt
  publish_by_type req no_type = fail (status invalid_argument "Unknown access type")

  unfoldable pub publish_capability :
      NodePublishRequest → Option VolumeCapability → Exec h.State (Unit {0})
  unfolding publish_by_type
  publish_capability req none =
      fail (status invalid_argument "NodePublishVolume Volume Capability must be provided")
  publish_capability req (some capability) = publish_by_type req capability.access_type

  unfoldable pub node_publish_volume : NodePublishRequest → Exec h.State (Unit {0})
  unfolding publish_capability
  node_publish_volume req =
      if req.volume_id == ""
      then fail (status invalid_argument "NodePublishVolume Volume ID must be provided")
      else if req.staging_target_path == ""
      then fail (status invalid_argument "NodePublishVolume Staging Target Path must be provided")
      else if req.target_path == ""
      then fail (status invalid_argument "NodePublishVolume Target Path must be provided")
      else publish_capability req req.volume_capability

  -- Without a look whether the target is mounted; an error is passed on as it is.
  unfoldable pub node_unpublish_volume : (volume_id target_path : String) → Exec h.State (Unit {0})
  node_unpublish_volume volume_id target_path =
      if volume_id == ""
      then fail (status invalid_argument "NodeUnpublishVolume Volume ID must be provided")
      else if target_path == ""
      then fail (status invalid_argument "NodeUnpublishVolume Target Path must be provided")
      else h.unmount target_path
