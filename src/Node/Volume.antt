-- ===== src/Node/Volume.antt =====
-- NodeGetVolumeStats, NodeExpandVolume, NodeGetInfo and NodeGetCapabilities.
use csi_thalassa.Prelude.{String, Bool, not, List, [], ◌∷◌, Option, ◌==◌, if◌then◌else◌}
use csi_thalassa.Prelude.Signed.{pos}
use csi_thalassa.Status.{status, invalid_argument, internal, not_found}
use csi_thalassa.Exec.{Exec, pure, fail, handle, ◌>>=◌}
use csi_thalassa.Csi.{
  VolumeCapability, VolumeUsage, NodeRpc, NodeInfo, stage_unstage_volume, expand_volume,
  get_volume_stats,
}
use csi_thalassa.Driver.{Driver}
use csi_thalassa.Resize.{asks_for_block}
use csi_thalassa.Node.Interface.{Host, VolumeStatistics}

-- Bytes alone for a block device, else bytes and inodes.
unfoldable pub usage : Bool → VolumeStatistics → List VolumeUsage
usage is_block stats =
    if is_block
    then record { available = pos 0; total = stats.total_bytes; used = pos 0 } ∷ []
    else record {
      available = stats.available_bytes;
      total = stats.total_bytes;
      used = stats.used_bytes;
    }
      ∷ record {
        available = stats.available_inodes;
        total = stats.total_inodes;
        used = stats.used_inodes;
      }
      ∷ []

unfoldable pub node_get_capabilities : List NodeRpc
node_get_capabilities = stage_unstage_volume ∷ expand_volume ∷ get_volume_stats ∷ []

unfoldable pub node_get_info : Driver → NodeInfo
node_get_info d = record {
  node_id = d.node_id;
  max_volumes_per_node = d.volume_limit;
  accessible_topology = ("region", d.region) ∷ [];
}

module _ (h : Host) where
  -- The path to take the statistics of: the device for a block volume.
  unfoldable pub statistics_path : Bool → String → Exec h.State String
  statistics_path is_block volume_path =
      if is_block
      then (handle (h.get_device_name volume_path)
          (λ e. fail (status internal "failed to get device name for block volume %q: %s")) pure)
      else pure volume_path

  unfoldable pub mounted_volume_stats : String → Exec h.State (List VolumeUsage)
  unfolding statistics_path usage
  mounted_volume_stats volume_path =
      handle (h.is_block_device volume_path)
        (λ e. fail (status internal "failed to determine if %q is block device: %s"))
        λ is_block. do
          path ← statistics_path is_block volume_path
          handle (h.get_statistics path)
              (λ e.
                fail
                  (status internal "failed to retrieve capacity statistics for volume path %q: %s"))
              λ stats. pure (usage is_block stats)

  unfoldable pub node_get_volume_stats :
      (volume_id volume_path : String) → Exec h.State (List VolumeUsage)
  unfolding mounted_volume_stats
  node_get_volume_stats volume_id volume_path =
      if volume_id == ""
      then fail (status invalid_argument "NodeGetVolumeStats Volume ID must be provided")
      else if volume_path == ""
      then fail (status invalid_argument "NodeGetVolumeStats Volume Path must be provided")
      else handle (h.is_mounted volume_path)
          (λ e. fail (status internal "failed to check if volume path %q is mounted: %s"))
          λ mounted.
            if not mounted
            then fail (status not_found "volume path %q is not mounted")
            else mounted_volume_stats volume_path

  -- NodeExpandVolume of a file system that is mounted.
  unfoldable pub expand_mounted : String → Exec h.State (Unit {0})
  expand_mounted volume_path =
      handle (h.get_device_name volume_path)
        (λ e. fail (status internal "NodeExpandVolume unable to get device path for %q: %v"))
        λ device_path.
          if device_path == ""
          then fail (status not_found "NodeExpandVolume device path for volume path %q not found")
          else handle (h.resize device_path volume_path)
              (λ e. fail (status internal "NodeExpandVolume could not resize volume %q (%q):  %v"))
              λ _. pure tt

  unfoldable pub node_expand_volume :
      (volume_id volume_path : String) → Option VolumeCapability → Exec h.State (Unit {0})
  unfolding asks_for_block expand_mounted
  node_expand_volume volume_id volume_path capability =
      if volume_id == ""
      then fail (status invalid_argument "NodeExpandVolume volume ID not provided")
      else if volume_path == ""
      then fail (status invalid_argument "NodeExpandVolume volume path not provided")
      else if asks_for_block capability
      then pure tt
      else handle (h.is_mounted volume_path)
          (λ e.
            fail
              (status internal "NodeExpandVolume failed to check if volume path %q is mounted: %s"))
          λ mounted.
            if not mounted
            then fail (status not_found "NodeExpandVolume volume path %q is not mounted")
            else expand_mounted volume_path
