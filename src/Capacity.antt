-- ===== src/Capacity.antt =====
-- driver/capacity.go and the size constants of driver/defaults.go.
pub mod Format
pub mod Laws
use csi_thalassa.Prelude.{
  ℕ, suc, String, ◌<>◌, leb, eqb, ◌*◌, ◌^◌, Option, none, some, Bool, not, ◌&&◌, if◌then◌else◌,
}
use csi_thalassa.Prelude.Signed.{ℤ, pos, negsuc, ltℤ, eqℤ}
use csi_thalassa.Prelude.Print.{float64, format_float, trim_suffix}
use csi_thalassa.Status.{plain}
use csi_thalassa.Exec.{Result, ok, err}

abbrev pub kib : ℕ
kib = 2 ^ 10

abbrev pub mib : ℕ
mib = 2 ^ 20

abbrev pub gib : ℕ
gib = 2 ^ 30

abbrev pub tib : ℕ
tib = 2 ^ 40

abbrev pub minimum_volume_size_in_bytes : ℕ
minimum_volume_size_in_bytes = 1 * gib

abbrev pub maximum_volume_size_in_bytes : ℕ
maximum_volume_size_in_bytes = 16 * tib

abbrev pub default_volume_size_in_bytes : ℕ
default_volume_size_in_bytes = 16 * gib

-- A number of bytes in a unit, to one decimal, and without it where it is 0.
unfoldable pub scaled : ℕ → ℕ → String → String
scaled n unit suffix = trim_suffix (format_float (float64 n) unit) ".0" <> suffix

-- A division by a unit, a power of 2, is exact.
unfoldable pub format_bytes : ℤ → String
unfolding scaled
format_bytes (negsuc k) = trim_suffix ("-" <> format_float (float64 (suc k)) 1) ".0"
format_bytes (pos n) =
    if leb tib n
    then scaled n tib "Ti"
    else if leb gib n
    then scaled n gib "Gi"
    else if leb mib n
    then scaled n mib "Mi"
    else if leb kib n
    then scaled n kib "Ki"
    else if eqb n 0
    then "0"
    else scaled n 1 ""

-- The request's `csi.CapacityRange`: 0 or less stands for "not set".
pub record CapacityRange : Type 0 where
  pub required_bytes : ℤ
  pub limit_bytes : ℤ

size_in_range : (required limit : ℤ) (required_set limit_set : Bool) → Result ℤ
size_in_range required limit required_set limit_set =
    if not required_set && not limit_set
    then ok (pos default_volume_size_in_bytes)
    else if (required_set && limit_set) && ltℤ limit required
    then err (
        plain (
          "limit ("
          <> format_bytes limit
          <> ") can not be less than required ("
          <> format_bytes required
          <> ") size"))
    else if (required_set && not limit_set) && ltℤ required (pos minimum_volume_size_in_bytes)
    then ok (pos minimum_volume_size_in_bytes)
    else if limit_set && ltℤ limit (pos minimum_volume_size_in_bytes)
    then err (
        plain (
          "limit ("
          <> format_bytes limit
          <> ") can not be less than minimum supported volume size ("
          <> format_bytes (pos minimum_volume_size_in_bytes)
          <> ")"))
    else if required_set && ltℤ (pos maximum_volume_size_in_bytes) required
    then err (
        plain (
          "required ("
          <> format_bytes required
          <> ") can not exceed maximum supported volume size ("
          <> format_bytes (pos maximum_volume_size_in_bytes)
          <> ")"))
    else if (not required_set && limit_set) && ltℤ (pos maximum_volume_size_in_bytes) limit
    then err (
        plain (
          "limit ("
          <> format_bytes limit
          <> ") can not exceed maximum supported volume size ("
          <> format_bytes (pos maximum_volume_size_in_bytes)
          <> ")"))
    else if (required_set && limit_set) && eqℤ required limit
    then ok required
    else if required_set
    then ok required
    else if limit_set
    then ok limit
    else ok (pos default_volume_size_in_bytes)

unfoldable pub get_storage_size_from_capacity_range : Option CapacityRange → Result ℤ
unfolding size_in_range
get_storage_size_from_capacity_range none = ok (pos default_volume_size_in_bytes)
get_storage_size_from_capacity_range (some r) =
    size_in_range r.required_bytes r.limit_bytes (ltℤ (pos 0) r.required_bytes)
      (ltℤ (pos 0) r.limit_bytes)
