-- ===== src/Capabilities/Laws.antt =====
-- Which capabilities pass.
use csi_thalassa.Prelude.{String, ◌<>◌, ◌≡◌, ◌≢◌, ◌↔◌, true, List, true, [], ◌∷◌, arith}
use csi_thalassa.Csi.{
  AccessMode, single_node_writer, AccessType, no_type, block, mount, VolumeCapability,
}
use csi_thalassa.Capabilities.{
  is_empty, add_violation, check_mode, check_type, collect_violations, validate_capabilities,
  is_supported_mode, mode_name,
}

-- The driver serves this capability.
pub record IsSupported (c : VolumeCapability) : Type 0 where
  pub mode : c.access_mode ≡ single_node_writer
  pub typed : c.access_type ≢ no_type

abbrev pub AllSupported : List VolumeCapability → Type 0
AllSupported [] = Unit
AllSupported (c ∷ caps) = IsSupported c × AllSupported caps

add_violation-ne-nil : (v : String) (l : List String) → add_violation v l ≢ []
unfolding add_violation
add_violation-ne-nil v [] h = cc
add_violation-ne-nil v (w ∷ l) h = ground arith

is_supported_mode_iff : (m : AccessMode) → (is_supported_mode m ≡ true) ↔ (m ≡ single_node_writer)
unfolding is_supported_mode
is_supported_mode_iff m = ground arith

check_mode_iff :
    (m : AccessMode) (l : List String)
    → (check_mode m l ≡ []) ↔ ((m ≡ single_node_writer) × (l ≡ []))
unfolding check_mode
check_mode_iff m l = ground (
  arith,
  is_supported_mode_iff m,
  add_violation-ne-nil ("unsupported access mode " <> mode_name m) l,
)

check_type_iff :
    (t : AccessType) (l : List String) → (check_type t l ≡ []) ↔ ((t ≢ no_type) × (l ≡ []))
unfolding check_type
check_type_iff no_type l = ground (arith, add_violation-ne-nil "unsupported access type" l)
check_type_iff block l = ground arith
check_type_iff (mount m) l = ground arith

check_iff :
    (c : VolumeCapability) (l : List String)
    → (check_type c.access_type (check_mode c.access_mode l) ≡ []) ↔ (IsSupported c × (l ≡ []))
check_iff c l = ground (
  arith,
  check_mode_iff c.access_mode l,
  check_type_iff c.access_type (check_mode c.access_mode l),
)

collect_iff :
    (caps : List VolumeCapability) (l : List String)
    → (collect_violations caps l ≡ []) ↔ (AllSupported caps × (l ≡ []))
unfolding collect_violations
collect_iff [] l = ground arith
collect_iff (c ∷ caps) l =
    ground (
      arith,
      check_iff c l,
      collect_iff caps (check_type c.access_type (check_mode c.access_mode l)),
    )

-- There are no violations exactly if every capability asks for a single writing node, and for a
-- block device or a mounted file system.
pub validate_capabilities_iff :
    (caps : List VolumeCapability) → (validate_capabilities caps ≡ []) ↔ AllSupported caps
unfolding validate_capabilities
validate_capabilities_iff caps = ground (arith, collect_iff caps [])

pub is_empty_iff {ℓ} : {A : Type ℓ} (xs : List A) → (is_empty xs ≡ true) ↔ (xs ≡ [])
is_empty_iff [] = ground arith
is_empty_iff (x ∷ xs) = ground arith
