-- ===== src/Tests/Pure.antt =====
-- Runs of the parts that make no calls, and the applications of their theorems.
use mathlib.Core.Path.{subst}
use csi_thalassa.Prelude.{
  ◌≢◌, ℕ, zero, suc, ◌<◌, get_elem?, ◌≡◌, ◌↔◌, inl, inr, refl, true, List, [], ◌∷◌, none, some,
  arith, Bool-cases, eq_iff, ◌*◌, ◌≤◌, String, not, ◌==◌, ◌&&◌, if◌then◌else◌,
}
use csi_thalassa.Prelude.Signed.{pos}
use csi_thalassa.Prelude.Text.{split, trim_space, equal_fold, text_le}
use csi_thalassa.Prelude.Labels.{lookup}
use csi_thalassa.Prelude.Print.{float64, format_float, decimal_before, trim_suffix}
use csi_thalassa.Exec.{ok, err, failed}
use csi_thalassa.Status.{plain}
use csi_thalassa.Capacity.{get_storage_size_from_capacity_range, format_bytes, gib}
use csi_thalassa.Capacity.Format.{Reads, format_bytes-Reads}
use csi_thalassa.Capacity.Laws.{chosen, Serves, Refused, storage_size-Serves, storage_size-Refused}
use csi_thalassa.Pagination.{Page, sort_strings, paginate_identities}
use csi_thalassa.Pagination.Sorted.{count}
use csi_thalassa.Pagination.Bounds.{IsPage, StartsAt, paginate_identities-IsPage}
use csi_thalassa.Pagination.Walk.{IsDistinct}
use csi_thalassa.Iaas.{VolumeType}
use csi_thalassa.VolumeType.{get_volume_type_by_filters}
use csi_thalassa.VolumeType.Laws.{identity_or_missing, first_selected, by_filters-first_selected}
use csi_thalassa.Capabilities.{validate_capabilities}
use csi_thalassa.Capabilities.Laws.{AllSupported, validate_capabilities_iff}
use csi_thalassa.Volumes.Request.{volume_labels, validate_create_volume_accessibility}
use csi_thalassa.Volumes.Request.Laws.{
  InRegion, lookup-volume_labels, validate_create_volume_accessibility_iff,
}
use csi_thalassa.Volumes.Create.{type_filters}
use csi_thalassa.Tests.World.{range, capability, volume_request, driver}

-- the separators of `--custom-labels` and of a provider's identity
split_pairs : split "a=b,c" "," ≡ "a=b" ∷ "c" ∷ []
unfolding split
split_pairs = refl

split_provider : split "thalassa://vm-1" "://" ≡ "thalassa" ∷ "vm-1" ∷ []
unfolding split
split_provider = refl

trimmed : trim_space "  vol-1 " ≡ "vol-1"
unfolding trim_space
trimmed = refl

folded : equal_fold "Available" "available" ≡ true
unfolding equal_fold
folded = refl

grants_limit : get_storage_size_from_capacity_range (range 0 (5 * gib)) ≡ ok (pos (5 * gib))
unfolding get_storage_size_from_capacity_range
grants_limit = refl

storage_size-Serves_example :
    (pos (5 * gib) ≡ pos (chosen 0 (5 * gib))) × Serves 0 (5 * gib) (chosen 0 (5 * gib))
storage_size-Serves_example = storage_size-Serves (range 0 (5 * gib)) grants_limit

storage_size-Refused_example :
    (failed (get_storage_size_from_capacity_range (range (6 * gib) (5 * gib))) ≡ true)
    ↔ Refused (6 * gib) (5 * gib)
storage_size-Refused_example = storage_size-Refused (range (6 * gib) (5 * gib))

a_rounded_size : format_bytes (pos 1073741823) ≡ "1024Mi"
unfolding format_bytes trim_suffix format_float decimal_before float64
a_rounded_size = refl

a_size_with_a_decimal : format_bytes (pos 1610612736) ≡ "1.5Gi"
unfolding format_bytes trim_suffix format_float decimal_before float64
a_size_with_a_decimal = refl

a_refused_size :
    get_storage_size_from_capacity_range (range (6 * gib) (5 * gib))
    ≡ err (plain "limit (5Gi) can not be less than required (6Gi) size")
unfolding get_storage_size_from_capacity_range format_bytes trim_suffix format_float decimal_before
    float64
a_refused_size = refl

format_bytes-Reads_example : Reads 1073741823 (format_bytes (pos 1073741823))
format_bytes-Reads_example = format_bytes-Reads 1073741823 (omega arith) (omega arith)

abbrev ids : List String
ids = "c" ∷ "a" ∷ "b" ∷ []

-- The sorted identities have `b` behind `a`.
sorted_ids : sort_strings ids ≡ "a" ∷ "b" ∷ "c" ∷ []
unfolding sort_strings text_le
sorted_ids = refl

b_is_second : (j : ℕ) → j < 1 → get_elem? {A = String} ("a" ∷ "b" ∷ "c" ∷ []) j ≢ some "b"
b_is_second zero h e = absurd (cc ((eq_iff "a" "b").1 (cc e)))
b_is_second (suc j) h e = absurd (omega arith)

b-StartsAt : StartsAt (sort_strings ids) "b" 1
b-StartsAt = rw sorted_ids (inr (λ same. absurd (cc same), refl, b_is_second))

paginate_identities-IsPage_example :
    (p : Page) × (paginate_identities ids "b" (pos 1) ≡ ok p) × IsPage (sort_strings ids) 1 1 p
paginate_identities-IsPage_example = paginate_identities-IsPage ids "b" 1 1 b-StartsAt

ids-IsDistinct : IsDistinct ids
unfolding count
ids-IsDistinct = record {
  once = λ x. elim (Bool-cases ("a" == x)) [
    | inl e ↦ subst (λ x. count x ids ≤ 1) ((eq_iff "a" x).0 e) (omega arith)
    | inr not_a ↦ elim (Bool-cases ("b" == x)) [
      | inl e ↦ subst (λ x. count x ids ≤ 1) ((eq_iff "b" x).0 e) (omega arith)
      | inr not_b ↦ rw (not_a, not_b) (ground arith)
    ]
  ];
  no_empty = refl;
}

abbrev types : List VolumeType
types = record { identity = "t1"; name = "Fast" } ∷ record { identity = "t2"; name = "Block" } ∷ []

by_filters-first_selected_example :
    get_volume_type_by_filters types (type_filters "block")
    ≡ identity_or_missing (first_selected (type_filters "block") types)
by_filters-first_selected_example = by_filters-first_selected types (type_filters "block")

validate_capabilities_iff_example :
    (validate_capabilities (capability ∷ []) ≡ []) ↔ AllSupported (capability ∷ [])
validate_capabilities_iff_example = validate_capabilities_iff (capability ∷ [])

lookup-volume_labels_example : lookup "team" (volume_labels driver) ≡ (
    if not (driver.cluster_identity == "") && "k8s.thalassa.cloud/cluster-identity" == "team"
    then some driver.cluster_identity
    else if "k8s.thalassa.cloud/csi-driver" == "team"
    then some "true"
    else if "k8s.thalassa.cloud/csi-driver-name" == "team"
    then some driver.name
    else lookup "team" driver.custom_labels)
lookup-volume_labels_example = lookup-volume_labels driver "team"

validate_create_volume_accessibility_iff_example :
    (validate_create_volume_accessibility (volume_request "v" none) "nl-1" ≡ ok tt)
    ↔ InRegion "nl-1" none
validate_create_volume_accessibility_iff_example =
    validate_create_volume_accessibility_iff (volume_request "v" none) "nl-1"

abbrev no_text : String
no_text = ""
