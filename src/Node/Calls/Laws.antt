-- ===== src/Node/Calls/Laws.antt =====
-- What no sequence of node calls undoes.
use csi_thalassa.Prelude.{
  String, ◌≡◌, ◌≢◌, ◌⊎◌, inl, inr, true, false, not, List, [], ◌∷◌, Option, none, some, ◌==◌,
  eq_iff, Bool-cases,
}
use csi_thalassa.Exec.{ok}
use csi_thalassa.Exec.Keeps.{Keeps, handle-Keeps, >>=-Keeps, if-Keeps}
use csi_thalassa.Csi.{
  NodeStageRequest, NodePublishRequest, VolumeCapability, AccessType, no_type, block, mount,
}
use csi_thalassa.Driver.{Driver}
use csi_thalassa.Resize.{asks_for_block}
use csi_thalassa.Node.Path.{get_device_by_id_path}
use csi_thalassa.Node.Interface.{Host, QuietKeep}
use csi_thalassa.Node.Stage.{node_stage_volume, node_unstage_volume, prepare_device}
use csi_thalassa.Node.Stage.Laws.{
  mount_unless_mounted-Keeps, harmless-Keeps, prepare_device-Keeps, staging-Keeps,
}
use csi_thalassa.Node.Publish.{
  bind_options, find_absolute_device_by_id_path, publish_by_type, publish_capability,
  node_publish_volume, node_unpublish_volume,
}
use csi_thalassa.Node.Publish.Laws.{find_absolute-Keeps}
use csi_thalassa.Node.Volume.{
  statistics_path, mounted_volume_stats, node_get_volume_stats, expand_mounted, node_expand_volume,
}
use csi_thalassa.Node.Calls.{
  NodeCall, stage, unstage, publish, unpublish, stats, expand, serve_call, serve_calls,
}

-- `P` survives every call of the host but that to format a device.
pub record MountsKeep (h : Host) (P : h.State → Type 0) : Type 0 where
  pub quiet : QuietKeep h P
  pub mount :
      (source target fs_type : String) (options : List String)
      → Keeps P (h.mount source target fs_type options)
  pub unmount : (target : String) → Keeps P (h.unmount target)

module _ (h : Host) (P : h.State → Type 0) (quiet : QuietKeep h P) where
  mounted_volume_stats-Keeps : (path : String) → Keeps P (mounted_volume_stats h path)
  unfolding mounted_volume_stats statistics_path
  mounted_volume_stats-Keeps path =
      handle-Keeps (h.is_block_device path) _ _ (quiet.is_block_device path) (λ e s p. p)
        λ is_block.
          >>=-Keeps (statistics_path h is_block path) _
            (if-Keeps P is_block _ _
              (handle-Keeps (h.get_device_name path) _ _ (quiet.get_device_name path) (λ e s p. p)
                (λ name s p. p))
              (λ s p. p))
            λ device.
              handle-Keeps (h.get_statistics device) _ _ (quiet.get_statistics device) (λ e s p. p)
                (λ statistics s p. p)

  pub stats-Keeps : (id path : String) → Keeps P (node_get_volume_stats h id path)
  unfolding node_get_volume_stats
  stats-Keeps id path =
      if-Keeps P (id == "") _ _ (λ s p. p)
        (if-Keeps P (path == "") _ _ (λ s p. p)
          (handle-Keeps (h.is_mounted path) _ _ (quiet.looks.is_mounted path) (λ e s p. p)
            λ mounted. if-Keeps P (not mounted) _ _ (λ s p. p) (mounted_volume_stats-Keeps path)))

  expand_mounted-Keeps : (path : String) → Keeps P (expand_mounted h path)
  unfolding expand_mounted
  expand_mounted-Keeps path =
      handle-Keeps (h.get_device_name path) _ _ (quiet.get_device_name path) (λ e s p. p)
        λ device.
          if-Keeps P (device == "") _ _ (λ s p. p)
            (handle-Keeps (h.resize device path) _ _ (quiet.resize device path) (λ e s p. p)
              (λ _ s p. p))

  pub expand-Keeps :
      (id path : String) (o : Option VolumeCapability) → Keeps P (node_expand_volume h id path o)
  unfolding node_expand_volume
  expand-Keeps id path o =
      if-Keeps P (id == "") _ _ (λ s p. p)
        (if-Keeps P (path == "") _ _ (λ s p. p)
          (if-Keeps P (asks_for_block o) _ _ (λ s p. p)
            (handle-Keeps (h.is_mounted path) _ _ (quiet.looks.is_mounted path) (λ e s p. p)
              λ mounted. if-Keeps P (not mounted) _ _ (λ s p. p) (expand_mounted-Keeps path))))

module _ (h : Host) (P : h.State → Type 0) (quiet : QuietKeep h P) (path : String)
    (unmounts : Keeps P (h.unmount path)) where
  pub unstage-Keeps : (id : String) → Keeps P (node_unstage_volume h id path)
  unfolding node_unstage_volume
  unstage-Keeps id =
      if-Keeps P (id == "") _ _ (λ s p. p)
        (if-Keeps P (path == "") _ _ (λ s p. p)
          (handle-Keeps (h.is_mounted path) _ _ (quiet.looks.is_mounted path) (λ e s p. p)
            λ mounted.
              if-Keeps P mounted _ _
                (handle-Keeps (h.unmount path) _ _ unmounts (λ e s p. p) (λ _ s p. p)) (λ s p. p)))

  pub unpublish-Keeps : (id : String) → Keeps P (node_unpublish_volume h id path)
  unfolding node_unpublish_volume
  unpublish-Keeps id =
      if-Keeps P (id == "") _ _ (λ s p. p) (if-Keeps P (path == "") _ _ (λ s p. p) unmounts)

module _ (h : Host) (P : h.State → Type 0) (quiet : QuietKeep h P) (req : NodePublishRequest)
    (mounts : (source fs_type : String) (options : List String)
      → Keeps P (h.mount source req.target_path fs_type options)) where
  publish_by_type-Keeps : (t : AccessType) → Keeps P (publish_by_type h req t)
  unfolding publish_by_type
  publish_by_type-Keeps no_type = λ s p. p
  publish_by_type-Keeps (mount mnt) =
      mount_unless_mounted-Keeps h P quiet.looks _ _ _ _ (mounts _ _ _)
  publish_by_type-Keeps block =
      handle-Keeps (find_absolute_device_by_id_path h req.volume_id) _ _
        (find_absolute-Keeps h P quiet.looks req.volume_id) (λ e s p. p)
        λ source.
          >>=-Keeps (h.is_mounted req.target_path) _ (quiet.looks.is_mounted req.target_path)
            λ mounted.
              if-Keeps P (not mounted) _ _
                (handle-Keeps (h.mount source req.target_path "" (bind_options req.readonly)) _ _
                  (mounts _ _ _) (λ e s p. p) (λ _ s p. p))
                (λ s p. p)

  publish_capability-Keeps : (o : Option VolumeCapability) → Keeps P (publish_capability h req o)
  unfolding publish_capability
  publish_capability-Keeps none = λ s p. p
  publish_capability-Keeps (some capability) = publish_by_type-Keeps capability.access_type

  pub publish-Keeps : Keeps P (node_publish_volume h req)
  unfolding node_publish_volume
  publish-Keeps =
      if-Keeps P (req.volume_id == "") _ _ (λ s p. p)
        (if-Keeps P (req.staging_target_path == "") _ _ (λ s p. p)
          (if-Keeps P (req.target_path == "") _ _ (λ s p. p)
            (publish_capability-Keeps req.volume_capability)))

module _ (h : Host) (P : h.State → Type 0) (keeps : MountsKeep h P) (device : String)
    (known : (s : h.State) → P s → (h.is_formatted device s).0 ≢ ok false)
    (others : (path fs_type : String) → (path == device) ≡ false → Keeps P (h.format path fs_type))
    (d : Driver) where
  stage-Keeps : (req : NodeStageRequest) → Keeps P (node_stage_volume h d req)
  stage-Keeps req =
      staging-Keeps h P keeps.quiet.looks d req
        (λ fs_type. prepares fs_type (Bool-cases (get_device_by_id_path req.volume_id == device)))
        (keeps.mount _ _) (keeps.quiet.resize _ _)
    where
      same :
          (get_device_by_id_path req.volume_id == device) ≡ true
          → (s : h.State) → P s
          → (h.is_formatted (get_device_by_id_path req.volume_id) s).0 ≢ ok false
      same e = rw ((eq_iff (get_device_by_id_path req.volume_id) device).0 e) known

      prepares :
          (fs_type : String)
          → ((get_device_by_id_path req.volume_id == device) ≡ true)
            ⊎ ((get_device_by_id_path req.volume_id == device) ≡ false)
          → Keeps P
              (prepare_device h d req.volume_context (get_device_by_id_path req.volume_id) fs_type)
      prepares fs_type (inl e) =
          prepare_device-Keeps h P keeps.quiet.looks d req _ fs_type (inr (same e))
      prepares fs_type (inr e) =
          harmless-Keeps h P keeps.quiet.looks d req _ fs_type (others _ fs_type e)

  serve_call-Keeps : (c : NodeCall) → Keeps P (serve_call h d c)
  unfolding serve_call
  serve_call-Keeps (stage req) = stage-Keeps req
  serve_call-Keeps (unstage id path) = unstage-Keeps h P keeps.quiet path (keeps.unmount path) id
  serve_call-Keeps (publish req) =
      publish-Keeps h P keeps.quiet req
        (λ source fs_type options. keeps.mount source req.target_path fs_type options)
  serve_call-Keeps (unpublish id path) =
      unpublish-Keeps h P keeps.quiet path (keeps.unmount path) id
  serve_call-Keeps (stats id path) =
      >>=-Keeps (node_get_volume_stats h id path) _ (stats-Keeps h P keeps.quiet id path)
        (λ _ s p. p)
  serve_call-Keeps (expand id path o) = expand-Keeps h P keeps.quiet id path o

  -- No sequence of node calls, whichever of them fail, formats a device that is seen to be
  -- formatted: what survives every call of the host but the formatting of that device survives the
  -- sequence, if it lets no look miss the file system.
  pub serve_calls-Keeps : (calls : List NodeCall) (s : h.State) → P s → P (serve_calls h d calls s)
  unfolding serve_calls
  serve_calls-Keeps [] s p = p
  serve_calls-Keeps (c ∷ calls) s p =
      serve_calls-Keeps calls (serve_call h d c s).1 (serve_call-Keeps c s p)
