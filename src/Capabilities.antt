-- ===== src/Capabilities.antt =====
-- driver/capabilities.go: the access modes and types that the driver supports, and its features.
pub mod Laws
use csi_thalassa.Prelude.{String, ◌<>◌, Bool, true, false, List, [], ◌∷◌, ◌==◌, map, if◌then◌else◌}
use csi_thalassa.Prelude.Text.{text_le}
use csi_thalassa.Status.{status, invalid_argument, not_found, is_not_found}
use csi_thalassa.Exec.{Exec, pure, fail, handle}
use csi_thalassa.Csi.{
  AccessMode, unknown, single_node_writer, single_node_reader_only, multi_node_reader_only,
  multi_node_single_writer, multi_node_multi_writer, single_node_single_writer,
  single_node_multi_writer, AccessType, no_type, block, mount, VolumeCapability,
}
use csi_thalassa.Iaas.{Cloud}

-- `supportedAccessMode`
abbrev pub supported_access_mode : AccessMode
supported_access_mode = single_node_writer

-- `GetMode() != supportedAccessMode.GetMode()`, negated
unfoldable pub is_supported_mode : AccessMode → Bool
is_supported_mode single_node_writer = true
is_supported_mode _ = false

mode_name : AccessMode → String
mode_name unknown = "UNKNOWN"
mode_name single_node_writer = "SINGLE_NODE_WRITER"
mode_name single_node_reader_only = "SINGLE_NODE_READER_ONLY"
mode_name multi_node_reader_only = "MULTI_NODE_READER_ONLY"
mode_name multi_node_single_writer = "MULTI_NODE_SINGLE_WRITER"
mode_name multi_node_multi_writer = "MULTI_NODE_MULTI_WRITER"
mode_name single_node_single_writer = "SINGLE_NODE_SINGLE_WRITER"
mode_name single_node_multi_writer = "SINGLE_NODE_MULTI_WRITER"

-- `violations.Insert`, on a set that lists its texts in ascending order
add_violation : String → List String → List String
add_violation v [] = v ∷ []
add_violation v (w ∷ l) =
    let rest = add_violation v l in
    if w == v then w ∷ l else if text_le v w then v ∷ w ∷ l else w ∷ rest

check_mode : AccessMode → List String → List String
check_mode m violations =
    if is_supported_mode m
    then violations
    else add_violation ("unsupported access mode " <> mode_name m) violations

check_type : AccessType → List String → List String
check_type block violations = violations
check_type (mount m) violations = violations
check_type no_type violations = add_violation "unsupported access type" violations

collect_violations : List VolumeCapability → List String → List String
collect_violations [] violations = violations
collect_violations (c ∷ caps) violations =
    collect_violations caps (check_type c.access_type (check_mode c.access_mode violations))

unfoldable pub validate_capabilities : List VolumeCapability → List String
unfolding collect_violations check_type check_mode is_supported_mode mode_name add_violation
validate_capabilities caps = collect_violations caps []

pub record ValidateRequest : Type 0 where
  pub volume_id : String
  pub volume_capabilities : List VolumeCapability

abbrev pub is_empty {ℓ} : {A : Type ℓ} → List A → Bool
is_empty [] = true
is_empty (x ∷ xs) = false

-- The confirmed access modes.
unfoldable pub validate_volume_capabilities :
    (c : Cloud) → ValidateRequest → Exec c.State (List AccessMode)
validate_volume_capabilities c req =
    if req.volume_id == ""
    then fail (status invalid_argument "ValidateVolumeCapabilities Volume ID must be provided")
    else if is_empty req.volume_capabilities
    then fail
        (status invalid_argument "ValidateVolumeCapabilities Volume Capabilities must be provided")
    else handle (c.get_volume req.volume_id)
        (λ e. fail (if is_not_found e then status not_found "volume %q does not exist" else e))
        (λ _. pure (supported_access_mode ∷ []))

-- `ControllerServiceCapability_RPC_Type`
pub data ControllerRpc : Type 0 where
  create_delete_snapshot create_delete_volume expand_volume list_snapshots : ControllerRpc
  list_volumes_published_nodes list_volumes publish_unpublish_volume : ControllerRpc

unfoldable pub controller_get_capabilities : List ControllerRpc
controller_get_capabilities =
    create_delete_snapshot ∷ create_delete_volume ∷ expand_volume ∷ list_snapshots
    ∷ list_volumes_published_nodes ∷ list_volumes ∷ publish_unpublish_volume ∷ []
