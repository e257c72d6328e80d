-- ===== src/Node/Calls/Staging.antt =====
-- Staging as a change of a set of mounted paths.
use csi_thalassa.Prelude.{String, ◌≡◌, true, Option, none, some, ◌==◌}
use csi_thalassa.Status.{status, text, internal}
use csi_thalassa.Exec.{Result, fail}
use csi_thalassa.Exec.Keeps.{Keeps-after}
use csi_thalassa.Exec.Ensures.{Ensures, handle-Ensures, if-Ensures, ensured, Ensures-of_Keeps}
use csi_thalassa.Csi.{
  NodeStageRequest, VolumeCapability, MountVolume, AccessType, no_type, block, mount,
}
use csi_thalassa.Driver.{Driver}
use csi_thalassa.Node.Path.{get_device_by_id_path}
use csi_thalassa.Node.Interface.{Host}
use csi_thalassa.Node.Stage.{
  node_stage_volume, stage_capability, stage_by_type, stage_file_system, prepare_device,
  mount_unless_mounted, resize_if_needed,
}
use csi_thalassa.Node.Stage.Laws.{harmless-Keeps, resize_if_needed-Keeps}
use csi_thalassa.Node.Calls.Mounts.{Mounts, set, MountTable, Has, guarded-Has}
use csi_thalassa.Node.Calls.Effects.{staged}

module _ (h : Host) (table : MountTable h) (mounts : Mounts) where
  prepared-Has :
      (d : Driver) (req : NodeStageRequest) (source fs_type : String) {s s' : h.State}
      {r : Result (Unit {0})}
      → Has h table mounts s
      → prepare_device h d req.volume_context source fs_type s ≡ (r, s')
      → Has h table mounts s'
  prepared-Has d req source fs_type p f =
      Keeps-after (Has h table mounts) (prepare_device h d req.volume_context source fs_type)
        (harmless-Keeps h (Has h table mounts) (table.quiet mounts).looks d req source fs_type
          (table.format mounts source fs_type))
        p f

  resized-Has :
      (source target : String) (s : h.State)
      → Has h table (set target true mounts) s
      → Ensures (λ _. Has h table (set target true mounts)) (resize_if_needed h source target s)
  resized-Has source target s p =
      Ensures-of_Keeps (Has h table (set target true mounts)) (resize_if_needed h source target s) (
        resize_if_needed-Keeps h (Has h table (set target true mounts))
          (table.quiet (set target true mounts)).looks source target
          ((table.quiet (set target true mounts)).resize source target) s p)

  stage_file_system-Has :
      (d : Driver) (req : NodeStageRequest) (mnt : MountVolume) (s : h.State)
      → Has h table mounts s
      → Ensures
          (λ _. Has h table (set req.staging_target_path true mounts))
          (stage_file_system h d req mnt s)
  unfolding stage_file_system mount_unless_mounted
  stage_file_system-Has d req mnt s p =
      handle-Ensures (λ _. Has h table (set req.staging_target_path true mounts))
        (prepare_device h d req.volume_context _ _) fail _ s (λ e s1 f. tt)
        λ _ s1 f.
          handle-Ensures (λ _. Has h table (set req.staging_target_path true mounts))
            (mount_unless_mounted h _ req.staging_target_path _ _) fail _ s1 (λ e s2 g. tt)
            λ a s2 g. resized-Has (get_device_by_id_path req.volume_id) req.staging_target_path s2 (
              ensured (λ _. Has h table (set req.staging_target_path true mounts)) _ a s2 g
                (guarded-Has h table mounts (get_device_by_id_path req.volume_id)
                  req.staging_target_path _ mnt.mount_flags (λ e. status internal (text e)) s1
                  (prepared-Has d req _ _ p f)))

  stage_by_type-Has :
      (d : Driver) (req : NodeStageRequest) (mode : _) (t : AccessType) (s : h.State)
      → Has h table mounts s
      → Ensures
          (λ _. Has h table (
            staged
              (some (record { access_mode = mode; access_type = t }))
              req.staging_target_path
              mounts))
          (stage_by_type h d req t s)
  unfolding stage_by_type staged
  stage_by_type-Has d req mode block s p = p
  stage_by_type-Has d req mode no_type s p = tt
  stage_by_type-Has d req mode (mount mnt) s p = stage_file_system-Has d req mnt s p

  stage_capability-Has :
      (d : Driver) (req : NodeStageRequest) (o : Option VolumeCapability) (s : h.State)
      → Has h table mounts s
      → Ensures
          (λ _. Has h table (staged o req.staging_target_path mounts))
          (stage_capability h d req o s)
  unfolding stage_capability
  stage_capability-Has d req none s p = tt
  stage_capability-Has d req (some capability) s p =
      stage_by_type-Has d req capability.access_mode capability.access_type s p

  pub stage-Has :
      (d : Driver) (req : NodeStageRequest) (s : h.State)
      → Has h table mounts s
      → Ensures
          (λ _. Has h table (staged req.volume_capability req.staging_target_path mounts))
          (node_stage_volume h d req s)
  unfolding node_stage_volume
  stage-Has d req s p =
      if-Ensures (λ _. Has h table (staged req.volume_capability req.staging_target_path mounts))
        (req.volume_id == "") _ _ s (λ _. tt)
        λ _.
          if-Ensures
            (λ _. Has h table (staged req.volume_capability req.staging_target_path mounts))
            (req.staging_target_path == "") _ _ s (λ _. tt)
            λ _. stage_capability-Has d req req.volume_capability s p
