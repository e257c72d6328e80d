-- ===== src/Resize.antt =====
-- driver/controller_resize.go: a volume grows.
pub mod Laws
pub mod Again
use csi_thalassa.Prelude.{String, Bool, true, false, not, Option, none, some, ◌==◌, if◌then◌else◌}
use csi_thalassa.Prelude.Signed.{ℤ, ltℤ, ◌*ℤ◌, ◌/ℤ◌}
use csi_thalassa.Prelude.Text.{trim_space}
use csi_thalassa.Status.{status, invalid_argument, out_of_range, internal}
use csi_thalassa.Exec.{Exec, pure, fail, lift, deref, handle, ◌>>=◌}
use csi_thalassa.Capacity.{gib, get_storage_size_from_capacity_range}
use csi_thalassa.Csi.{
  ExpandVolumeRequest, ExpandVolumeResponse, VolumeCapability, AccessType, no_type, block, mount,
}
use csi_thalassa.Iaas.{Cloud, Volume, UpdateVolume}

unfoldable pub is_volume_size_equal_or_larger_than_requested : Volume → ℤ → Bool
is_volume_size_equal_or_larger_than_requested volume requested_size =
    not (ltℤ volume.size requested_size)

is_block : AccessType → Bool
is_block block = true
is_block _ = false

-- The capability of the request, if any, is that of a block device.
unfoldable pub asks_for_block : Option VolumeCapability → Bool
unfolding is_block
asks_for_block none = false
asks_for_block (some capability) = is_block capability.access_type

-- Everything but the size stays.
unfoldable pub resized : Volume → ℤ → UpdateVolume
resized volume size = record {
  name = volume.name;
  description = volume.description;
  labels = volume.labels;
  annotations = volume.annotations;
  size = size;
  delete_protection = volume.delete_protection;
}

module _ (c : Cloud) where
  unfoldable pub grow : ExpandVolumeRequest → ℤ → Volume → Exec c.State ExpandVolumeResponse
  unfolding is_volume_size_equal_or_larger_than_requested asks_for_block resized ◌*ℤ◌
  grow req giga_bytes volume =
      if is_volume_size_equal_or_larger_than_requested volume giga_bytes
      then pure (record { capacity_bytes = volume.size *ℤ gib; node_expansion_required = true })
      else handle (c.update_volume req.volume_id (resized volume giga_bytes))
          (λ e. fail (status internal "cannot resize volume %s: %s"))
          λ _. pure (record {
            capacity_bytes = giga_bytes *ℤ gib;
            node_expansion_required = not (asks_for_block req.volume_capability);
          })

  unfoldable pub controller_expand_volume : ExpandVolumeRequest → Exec c.State ExpandVolumeResponse
  unfolding trim_space
  controller_expand_volume req =
      if trim_space req.volume_id == ""
      then fail (status invalid_argument "ControllerExpandVolume volume ID missing in request")
      else handle (lift (get_storage_size_from_capacity_range req.capacity_range))
          (λ e. fail (status out_of_range "ControllerExpandVolume invalid capacity range: %v"))
          λ resize_bytes.
            handle (c.get_volume req.volume_id)
              (λ e.
                fail
                  (status internal "ControllerExpandVolume could not retrieve existing volume: %v"))
              λ found. do volume ← deref found; grow req (resize_bytes /ℤ gib) volume
