-- ===== src/VolumeType/Laws.antt =====
-- The filters are tried in turn, each on all the types.
use csi_thalassa.Prelude.{
  String, Bool, ◌≡◌, refl, Bool, List, [], ◌∷◌, Option, none, some, arith, if◌then◌else◌, any,
  is_some,
}
use csi_thalassa.Status.{status, not_found}
use csi_thalassa.Exec.{Result, ok, err}
use csi_thalassa.Iaas.{VolumeType}
use csi_thalassa.VolumeType.{get_volume_type_by_filter, get_volume_type_by_filters}

-- The first type that passes a test.
pub first : (VolumeType → Bool) → List VolumeType → Option VolumeType
first f [] = none
first f (t ∷ types) = if f t then some t else first f types

-- The first filter that any type passes, and the first type that passes it.
pub first_selected : List (VolumeType → Bool) → List VolumeType → Option VolumeType
unfolding first
first_selected [] types = none
first_selected (f ∷ filters) types =
    if any f types then first f types else first_selected filters types

abbrev pub identity_or_missing : Option VolumeType → Result String
identity_or_missing none = err (status not_found "volume type not found")
identity_or_missing (some t) = ok t.identity

by_filter-first :
    (types : List VolumeType) (f : VolumeType → Bool)
    → get_volume_type_by_filter types f ≡ identity_or_missing (first f types)
unfolding get_volume_type_by_filter first
by_filter-first [] f = refl
by_filter-first (t ∷ types) f = ground (arith, by_filter-first types f)

any-is_some :
    (f : VolumeType → Bool) (types : List VolumeType) → any f types ≡ is_some (first f types)
unfolding first
any-is_some f [] = refl
any-is_some f (t ∷ types) = ground (arith, any-is_some f types)

-- The search gives the identity of the first type under the first filter that any type passes,
-- and the error `NotFound` if no type passes any filter.
pub by_filters-first_selected :
    (types : List VolumeType) (filters : List (VolumeType → Bool))
    → get_volume_type_by_filters types filters ≡ identity_or_missing (first_selected filters types)
unfolding get_volume_type_by_filters first_selected
by_filters-first_selected types [] = refl
by_filters-first_selected types (f ∷ filters) =
    ground
      (arith, by_filter-first types f, any-is_some f types, by_filters-first_selected types filters)
