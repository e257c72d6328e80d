-- ===== src/Node/Stage/Laws.antt =====
-- What staging never does, and what it has done when it succeeds.
use csi_thalassa.Prelude.{
  String, ◌≡◌, ◌≢◌, ◌⊎◌, inl, inr, refl, Bool, true, false, not, List, Option, none, some, ◌==◌,
  if◌then◌else◌,
}
use csi_thalassa.Status.{status, text, internal}
use csi_thalassa.Exec.{Result, ok, err, settle, handle, fail, pure}
use csi_thalassa.Exec.Keeps.{Keeps, handle-Keeps, >>=-Keeps, if-Keeps}
use csi_thalassa.Csi.{NodeStageRequest, VolumeCapability, AccessType, no_type, block, mount}
use csi_thalassa.Driver.{Driver}
use csi_thalassa.Node.Path.{get_device_by_id_path}
use csi_thalassa.Node.Interface.{Host, LooksKeep}
use csi_thalassa.Node.Stage.{
  no_format, format_unless_formatted, prepare_device, mount_unless_mounted, resize_if_needed,
  stage_file_system, stage_by_type, stage_capability, node_stage_volume,
}

module _ (h : Host) (P : h.State → Type 0) (looks : LooksKeep h P) where
  format_unless_formatted-Keeps :
      (source fs_type : String)
      → ((s : h.State) → P s → (h.is_formatted source s).0 ≢ ok false)
      → Keeps P (format_unless_formatted h source fs_type)
  unfolding format_unless_formatted
  format_unless_formatted-Keeps source fs_type never s p = rest (h.is_formatted source s).0 refl
    where
      rest :
          (r : Result Bool)
          → (h.is_formatted source s).0 ≡ r
          → P
              (settle fail
                (λ formatted.
                  if not formatted
                  then (handle
                      (h.format source fs_type)
                      (λ e. fail (status internal (text e)))
                      pure)
                  else pure tt)
                r
                (h.is_formatted source s).1).1
      rest (ok true) e = looks.is_formatted source s p
      rest (ok false) e = absurd (never s p e)
      rest (err f) e = looks.is_formatted source s p

  pub mount_unless_mounted-Keeps :
      (source target fs_type : String) (options : List String)
      → Keeps P (h.mount source target fs_type options)
      → Keeps P (mount_unless_mounted h source target fs_type options)
  unfolding mount_unless_mounted
  mount_unless_mounted-Keeps source target fs_type options mounts =
      >>=-Keeps (h.is_mounted target) _ (looks.is_mounted target) λ mounted.
        if-Keeps P (not mounted) _ _
          (handle-Keeps (h.mount source target fs_type options) _ _ mounts (λ e s p. p)
            (λ _ s p. p))
          (λ s p. p)

  pub resize_if_needed-Keeps :
      (source target : String)
      → Keeps P (h.resize source target)
      → Keeps P (resize_if_needed h source target)
  unfolding resize_if_needed
  resize_if_needed-Keeps source target grows =
      handle-Keeps (h.stat source) _ _ (looks.stat source) (λ e s p. p)
        λ _.
          handle-Keeps (h.need_resize source target) _ _ (looks.need_resize source target)
            (λ e s p. p)
            λ need.
              if-Keeps P need _ _
                (handle-Keeps (h.resize source target) _ _ grows (λ e s p. p) (λ _ s p. p))
                (λ s p. p)

  checked-Keeps :
      (d : Driver) (req : NodeStageRequest) (source fs_type : String)
      → Keeps P (format_unless_formatted h source fs_type)
      → Keeps P (prepare_device h d req.volume_context source fs_type)
  unfolding prepare_device
  checked-Keeps d req source fs_type formats =
      if-Keeps P (no_format req.volume_context) _ _ (λ s p. p)
        (if-Keeps P d.validate_attachment _ _
          (handle-Keeps (handle (h.is_attached source) _ pure) fail
            (λ _. format_unless_formatted h source fs_type)
            (handle-Keeps (h.is_attached source) _ _ (looks.is_attached source) (λ e s p. p)
              (λ _ s p. p))
            (λ e s p. p) (λ _. formats))
          formats)

  -- A device whose formatting does no harm may be formatted.
  pub harmless-Keeps :
      (d : Driver) (req : NodeStageRequest) (source fs_type : String)
      → Keeps P (h.format source fs_type)
      → Keeps P (prepare_device h d req.volume_context source fs_type)
  unfolding format_unless_formatted
  harmless-Keeps d req source fs_type formats = checked-Keeps d req source fs_type (
      >>=-Keeps (h.is_formatted source) _ (looks.is_formatted source) λ formatted.
        if-Keeps P (not formatted) _ _
          (handle-Keeps (h.format source fs_type) _ _ formats (λ e s p. p) (λ _ s p. p)) (λ s p. p))

  pub prepare_device-Keeps :
      (d : Driver) (req : NodeStageRequest) (source fs_type : String)
      → (no_format req.volume_context ≡ true)
        ⊎ ((s : h.State) → P s → (h.is_formatted source s).0 ≢ ok false)
      → Keeps P (prepare_device h d req.volume_context source fs_type)
  unfolding prepare_device
  prepare_device-Keeps d req source fs_type (inl skipped) = rw skipped (λ s p. p)
  prepare_device-Keeps d req source fs_type (inr never) =
      checked-Keeps d req source fs_type (format_unless_formatted-Keeps source fs_type never)

-- The steps of staging, one by one.
module _ (h : Host) (P : h.State → Type 0) (looks : LooksKeep h P) (d : Driver)
    (req : NodeStageRequest)
    (prepares : (fs_type : String)
      → Keeps P
          (prepare_device h d req.volume_context (get_device_by_id_path req.volume_id) fs_type))
    (mounts : (fs_type : String) (options : List String)
      → Keeps P
          (h.mount (get_device_by_id_path req.volume_id) req.staging_target_path fs_type options))
    (grows : Keeps P (h.resize (get_device_by_id_path req.volume_id) req.staging_target_path)) where
  pub stage_by_type-Keeps : (t : AccessType) → Keeps P (stage_by_type h d req t)
  unfolding stage_by_type stage_file_system
  stage_by_type-Keeps block = λ s p. p
  stage_by_type-Keeps no_type = λ s p. p
  stage_by_type-Keeps (mount mnt) =
      handle-Keeps (prepare_device h d req.volume_context _ _) fail _ (prepares _) (λ e s p. p)
        λ _.
          handle-Keeps (mount_unless_mounted h _ _ _ _) fail _
            (mount_unless_mounted-Keeps h P looks _ _ _ _ (mounts _ _)) (λ e s p. p)
            λ _. resize_if_needed-Keeps h P looks _ _ grows

  stage_capability-Keeps : (o : Option VolumeCapability) → Keeps P (stage_capability h d req o)
  unfolding stage_capability
  stage_capability-Keeps none = λ s p. p
  stage_capability-Keeps (some capability) = stage_by_type-Keeps capability.access_type

  pub staging-Keeps : Keeps P (node_stage_volume h d req)
  unfolding node_stage_volume
  staging-Keeps =
      if-Keeps P (req.volume_id == "") _ _ (λ s p. p)
        (if-Keeps P (req.staging_target_path == "") _ _ (λ s p. p)
          (stage_capability-Keeps req.volume_capability))

-- Staging never formats a device that is seen to be formatted, or that the volume's context says
-- not to format: whatever survives the looks, the mount of the device at the staging path, and its
-- resizing, survives NodeStageVolume.
pub node_stage_volume-Keeps :
    (h : Host) (P : h.State → Type 0)
    → LooksKeep h P
    → (d : Driver) (req : NodeStageRequest)
    → (no_format req.volume_context ≡ true)
      ⊎ ((s : h.State)
          → P s
          → (h.is_formatted (get_device_by_id_path req.volume_id) s).0 ≢ ok false)
    → ((fs_type : String) (options : List String)
        → Keeps P
            (h.mount (get_device_by_id_path req.volume_id) req.staging_target_path fs_type options))
    → Keeps P (h.resize (get_device_by_id_path req.volume_id) req.staging_target_path)
    → Keeps P (node_stage_volume h d req)
node_stage_volume-Keeps h P looks d req safe =
    staging-Keeps h P looks d req (λ fs_type. prepare_device-Keeps h P looks d req _ fs_type safe)
