-- ===== src/VolumeType.antt =====
-- driver/volumetype.go: the identity of the first volume type that a filter selects.
pub mod Laws
use csi_thalassa.Prelude.{String, Bool, List, [], ◌∷◌, if◌then◌else◌}
use csi_thalassa.Status.{status, not_found}
use csi_thalassa.Exec.{Result, ok, err}
use csi_thalassa.Iaas.{VolumeType}

unfoldable pub get_volume_type_by_filter : List VolumeType → (VolumeType → Bool) → Result String
get_volume_type_by_filter [] f = err (status not_found "volume type not found")
get_volume_type_by_filter (t ∷ types) f =
    if f t then ok t.identity else get_volume_type_by_filter types f

-- A filter that selects nothing is passed over.
unfoldable pub get_volume_type_by_filters :
    List VolumeType → List (VolumeType → Bool) → Result String
unfolding get_volume_type_by_filter
get_volume_type_by_filters types [] = err (status not_found "volume type not found")
get_volume_type_by_filters types (f ∷ filters) = elim (get_volume_type_by_filter types f) [
  | ok identity ↦ ok identity
  | err e ↦ get_volume_type_by_filters types filters
]
