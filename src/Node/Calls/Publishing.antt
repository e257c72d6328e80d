-- ===== src/Node/Calls/Publishing.antt =====
-- Publishing, unpublishing and unstaging as changes of a set of mounted paths.
use csi_thalassa.Prelude.{String, true, false, ◌++◌, Option, none, some, ◌==◌, ◌∙◌}
use csi_thalassa.Status.{status, text, internal}
use csi_thalassa.Exec.Keeps.{Keeps-after}
use csi_thalassa.Exec.Ensures.{Ensures, handle-Ensures, if-Ensures, ensured}
use csi_thalassa.Csi.{NodePublishRequest, VolumeCapability, AccessType, no_type, block, mount}
use csi_thalassa.Node.Interface.{Host}
use csi_thalassa.Node.Stage.{mount_unless_mounted, node_unstage_volume}
use csi_thalassa.Node.Publish.{
  bind_options, find_absolute_device_by_id_path, publish_by_type, publish_capability,
  node_publish_volume, node_unpublish_volume,
}
use csi_thalassa.Node.Publish.Laws.{find_absolute-Keeps}
use csi_thalassa.Node.Calls.Mounts.{
  Mounts, set, set-same, MountTable, Has, look-Has, guarded-Has, unmount-Has,
}

module _ (h : Host) (table : MountTable h) (mounts : Mounts) where
  pub unstage-Has :
      (id path : String) (s : h.State)
      → Has h table mounts s
      → Ensures (λ _. Has h table (set path false mounts)) (node_unstage_volume h id path s)
  unfolding node_unstage_volume
  unstage-Has id path s p =
      if-Ensures (λ _. Has h table (set path false mounts)) (id == "") _ _ s (λ _. tt)
        λ _.
          if-Ensures (λ _. Has h table (set path false mounts)) (path == "") _ _ s (λ _. tt)
            λ _.
              handle-Ensures (λ _. Has h table (set path false mounts)) (h.is_mounted path) _ _ s
                (λ e s1 look. tt)
                (elim [
                  | false ↦ λ s1 look j.
                      let (same, seen) = look-Has h table mounts path false s s1 p look in
                      same j ∙ set-same path false mounts seen j
                  | true ↦ λ s1 look.
                      handle-Ensures (λ _. Has h table (set path false mounts)) (h.unmount path) _ _
                        s1 (λ e s2 u. tt)
                        (λ a s2 u.
                          ensured (λ _. Has h table (set path false mounts)) (h.unmount path s1) a
                            s2 u
                            (unmount-Has h table mounts path s1
                              (look-Has h table mounts path true s s1 p look).0))
                ])

  pub unpublish-Has :
      (id path : String) (s : h.State)
      → Has h table mounts s
      → Ensures (λ _. Has h table (set path false mounts)) (node_unpublish_volume h id path s)
  unfolding node_unpublish_volume
  unpublish-Has id path s p =
      if-Ensures (λ _. Has h table (set path false mounts)) (id == "") _ _ s (λ _. tt)
        λ _.
          if-Ensures (λ _. Has h table (set path false mounts)) (path == "") _ _ s (λ _. tt)
            λ _. unmount-Has h table mounts path s p

  publish_by_type-Has :
      (req : NodePublishRequest) (t : AccessType) (s : h.State)
      → Has h table mounts s
      → Ensures (λ _. Has h table (set req.target_path true mounts)) (publish_by_type h req t s)
  unfolding publish_by_type mount_unless_mounted
  publish_by_type-Has req no_type s p = tt
  publish_by_type-Has req (mount mnt) s p =
      guarded-Has h table mounts req.staging_target_path req.target_path _
        (bind_options req.readonly ++ mnt.mount_flags) (λ e. status internal (text e)) s p
  publish_by_type-Has req block s p =
      handle-Ensures (λ _. Has h table (set req.target_path true mounts))
        (find_absolute_device_by_id_path h req.volume_id) _ _ s (λ e s1 f. tt)
        λ source s1 f.
          guarded-Has h table mounts source req.target_path "" (bind_options req.readonly)
            (λ _. status internal "failed to mount volume %s: %s") s1
            (Keeps-after (Has h table mounts) (find_absolute_device_by_id_path h req.volume_id)
              (find_absolute-Keeps h (Has h table mounts) (table.quiet mounts).looks req.volume_id)
              p f)

  publish_capability-Has :
      (req : NodePublishRequest) (o : Option VolumeCapability) (s : h.State)
      → Has h table mounts s
      → Ensures (λ _. Has h table (set req.target_path true mounts)) (publish_capability h req o s)
  unfolding publish_capability
  publish_capability-Has req none s p = tt
  publish_capability-Has req (some capability) s p =
      publish_by_type-Has req capability.access_type s p

  pub publish-Has :
      (req : NodePublishRequest) (s : h.State)
      → Has h table mounts s
      → Ensures (λ _. Has h table (set req.target_path true mounts)) (node_publish_volume h req s)
  unfolding node_publish_volume
  publish-Has req s p =
      if-Ensures (λ _. Has h table (set req.target_path true mounts)) (req.volume_id == "") _ _ s
        (λ _. tt)
        λ _.
          if-Ensures (λ _. Has h table (set req.target_path true mounts))
            (req.staging_target_path == "") _ _ s (λ _. tt)
            λ _.
              if-Ensures (λ _. Has h table (set req.target_path true mounts))
                (req.target_path == "") _ _ s (λ _. tt)
                λ _. publish_capability-Has req req.volume_capability s p
