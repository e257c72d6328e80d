-- ===== src/Volumes/Listing.antt =====
-- ListVolumes: a page of the region's volumes, in the order of their identities.
pub mod Laws
use csi_thalassa.Prelude.{
  ℕ, String, Bool, ◌&&◌, List, [], ◌∷◌, Option, none, some, map, ltb, if◌then◌else◌,
}
use csi_thalassa.Prelude.Signed.{ℤ, pos, eqℤ, int32, ◌*ℤ◌}
use csi_thalassa.Prelude.Labels.{lookup}
use csi_thalassa.Status.{status, internal}
use csi_thalassa.Exec.{Exec, pure, fail, lift, handle, ◌>>=◌}
use csi_thalassa.Capacity.{gib}
use csi_thalassa.Csi.{ListVolumesRequest, ListVolumesResponse, VolumeEntry}
use csi_thalassa.Iaas.{Cloud, Volume, VolumeAttachment, Filter}
use csi_thalassa.Driver.{Driver}
use csi_thalassa.Index.{by_identity}
use csi_thalassa.Pagination.{Page, slice, paginate_identities}

-- `filters.FilterRegion` with the driver's region
abbrev pub region_filter : Driver → Filter
region_filter d = record { key = "region"; value = d.region }

unfoldable pub effective_max_entries : Driver → ℤ → ℤ
unfolding int32
effective_max_entries d max =
    if eqℤ max (pos 0) && ltb 0 d.default_volumes_page_size
    then int32 d.default_volumes_page_size
    else max

-- What Go reads from the map under a missing key.
abbrev zero_volume : Volume
zero_volume = record {
  identity = "";
  name = "";
  description = "";
  status = "";
  labels = [];
  annotations = [];
  attachments = [];
  size = pos 0;
  delete_protection = Bool.false;
}

volume_entry : Volume → VolumeEntry
unfolding ◌*ℤ◌
volume_entry vol = record {
  volume = record {
    volume_id = vol.identity;
    capacity_bytes = vol.size *ℤ gib;
    accessible_topology = [];
    content_source = none;
  };
  published_node_ids = map (λ (a : VolumeAttachment). a.attached_to_identity) vol.attachments;
}

unfoldable pub entry_of : List (String × Volume) → String → VolumeEntry
unfolding volume_entry lookup
entry_of m identity = elim (lookup identity m) [
  | none ↦ volume_entry zero_volume
  | some vol ↦ volume_entry vol
]

unfoldable pub volumes_response : List Volume → Page → ListVolumesResponse
unfolding by_identity entry_of
volumes_response volumes p = record {
  entries = map (entry_of (by_identity (λ (v : Volume). v.identity) volumes [])) (slice p);
  next_token = p.next_token;
}

module _ (c : Cloud) where
  unfoldable pub list_volumes : Driver → ListVolumesRequest → Exec c.State ListVolumesResponse
  unfolding volumes_response effective_max_entries
  list_volumes d req =
      handle (c.list_volumes (region_filter d ∷ []))
        (λ e. fail (status internal "failed to list volumes: %s"))
        λ volumes. do
          page ← lift (
              paginate_identities (map (λ (v : Volume). v.identity) volumes) req.starting_token
                (effective_max_entries d req.max_entries))
          pure (volumes_response volumes page)
