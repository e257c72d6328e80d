-- ===== src/Volumes/Request.antt =====
-- The pure parts of CreateVolume: the region check, the answer for a volume that is there already,
-- and the request for a new one.
pub mod Laws
use csi_thalassa.Prelude.{
  ℕ, String, Bool, true, false, not, List, [], ◌∷◌, Option, none, some, ◌==◌, if◌then◌else◌,
}
use csi_thalassa.Prelude.Signed.{ℤ, eqℤ, ◌*ℤ◌, ◌/ℤ◌}
use csi_thalassa.Prelude.Labels.{Labels, lookup, insert, add_missing}
use csi_thalassa.Status.{status, already_exists, resource_exhausted}
use csi_thalassa.Exec.{Result, ok, err}
use csi_thalassa.Capacity.{gib}
use csi_thalassa.Csi.{CreateVolumeRequest, CsiVolume}
use csi_thalassa.Iaas.{Volume, CreateVolume}
use csi_thalassa.Driver.{Driver}

-- The loop over the required topologies: one without a region is passed over.
check_regions : String → List Labels → Result (Unit {0})
check_regions region [] = ok tt
check_regions region (segments ∷ requisite) = elim (lookup "region" segments) [
  | none ↦ check_regions region requisite
  | some r ↦
      let rest = check_regions region requisite in
      if r == region
      then rest
      else err (status resource_exhausted "volume can be only created in region: %q, got: %q")
]

unfoldable pub validate_create_volume_accessibility :
    CreateVolumeRequest → String → Result (Unit {0})
unfolding check_regions lookup
validate_create_volume_accessibility req region = elim req.requisite [
  | none ↦ ok tt
  | some requisite ↦ check_regions region requisite
]

unfoldable pub create_volume_response_from_existing : Volume → ℤ → Result CsiVolume
unfolding ◌*ℤ◌
create_volume_response_from_existing volume size =
    if not (eqℤ (volume.size *ℤ gib) size)
    then err (status already_exists "invalid option requested size: %d")
    else ok (record {
      volume_id = volume.identity;
      capacity_bytes = volume.size *ℤ gib;
      accessible_topology = [];
      content_source = none;
    })

-- `m[k]`, which is empty for a missing key
abbrev pub value_at : String → Labels → String
value_at k m = elim (lookup k m) [ none ↦ "" | some v ↦ v ]

driver_labels : Driver → Labels
driver_labels d =
    ("k8s.thalassa.cloud/csi-driver", "true") ∷ ("k8s.thalassa.cloud/csi-driver-name", d.name) ∷ []

driver_annotations : Labels
driver_annotations = ("k8s.thalassa.cloud/description", "Provisioned by Thalassa CSI driver") ∷ []

-- `labels[k] = v` under a test that `v` is not empty
abbrev pub insert_if_given : String → String → Labels → Labels
insert_if_given k v m = if v == "" then m else insert k v m

unfoldable pub volume_labels : Driver → Labels
unfolding driver_labels add_missing insert
volume_labels d =
    insert_if_given "k8s.thalassa.cloud/cluster-identity" d.cluster_identity
      (add_missing d.custom_labels (driver_labels d))

unfoldable pub volume_annotations : Driver → CreateVolumeRequest → Labels
unfolding driver_annotations add_missing insert lookup
volume_annotations d req = add_missing d.custom_annotations (
    insert_if_given "k8s.thalassa.cloud/fstype" (value_at "fstype" req.parameters)
      driver_annotations)

unfoldable pub build_create_volume_request :
    Driver → CreateVolumeRequest → String → ℤ → String → CreateVolume
unfolding volume_labels volume_annotations ◌/ℤ◌
build_create_volume_request d req volume_name size volume_type_identity = record {
  name = volume_name;
  cloud_region_identity = d.region;
  description = "Created by Thalassa Cloud CSI driver";
  size = size /ℤ gib;
  volume_type_identity = volume_type_identity;
  labels = volume_labels d;
  annotations = volume_annotations d req;
  restore_from_snapshot_id = none;
}
