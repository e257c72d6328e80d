-- ===== src/Node/Mock/Laws.antt =====
-- Publishing and unpublishing on the mock mounter.
use csi_thalassa.Prelude.{
  String, ◌≡◌, refl, sym, ◌∙◌, Bool, false, none, some, ◌==◌, eq_iff, Bool-cases, inl, inr,
}
use csi_thalassa.Prelude.Labels.{lookup, insert, lookup-insert, lookup-delete}
use csi_thalassa.Exec.{Result, ok}
use csi_thalassa.Csi.{AccessMode, NodePublishRequest, MountVolume, mount}
use csi_thalassa.Node.Stage.{mount_unless_mounted}
use csi_thalassa.Node.Publish.{
  node_publish_volume, publish_capability, publish_by_type, node_publish_volume_for_file_system,
  node_unpublish_volume,
}
use csi_thalassa.Node.Mock.{MockMounter, mock_host, mock_mount, mock_unmount, mock_is_mounted}

-- A request for a file system, with all that it has to name.
pub record IsComplete (req : NodePublishRequest) (mnt : MountVolume) : Type 0 where
  pub volume : (req.volume_id == "") ≡ false
  pub staging : (req.staging_target_path == "") ≡ false
  pub target : (req.target_path == "") ≡ false
  pub mode : AccessMode
  pub capability :
      req.volume_capability ≡ some (record { access_mode = mode; access_type = mount mnt })

module _ (stat : String → Result (Unit {0})) (eval_symlinks : String → Result String)
    (need_resize resize : String → String → Result Bool) (m : MockMounter)
    (req : NodePublishRequest) where
  -- Publishing a file system records the staging path as what is mounted at the target, if nothing
  -- is mounted there yet and no error is injected.
  pub node_publish_volume-mock :
      (mnt : MountVolume)
      → IsComplete req mnt
      → lookup req.target_path m.mount_points ≡ none
      → lookup req.target_path m.mount_errors ≡ none
      → node_publish_volume (mock_host stat eval_symlinks need_resize resize) req m ≡ (
        ok tt,
        record m { mount_points = insert req.target_path req.staging_target_path m.mount_points },
      )
  unfolding node_publish_volume publish_capability publish_by_type
      node_publish_volume_for_file_system mount_unless_mounted mock_mount mock_is_mounted
  node_publish_volume-mock mnt complete free healthy =
      rw (complete.volume, complete.staging, complete.target, complete.capability, free, healthy)
        refl

  -- Publishing a file system and then unpublishing it gives back what was mounted before, at every
  -- path, if nothing is mounted at the target yet and no error is injected for it.
  pub node_unpublish_volume-mock :
      (mnt : MountVolume) (j : String)
      → IsComplete req mnt
      → lookup req.target_path m.mount_points ≡ none
      → lookup req.target_path m.mount_errors ≡ none
      → lookup req.target_path m.unmount_errors ≡ none
      → lookup j
          (node_unpublish_volume
            (mock_host stat eval_symlinks need_resize resize)
            req.volume_id
            req.target_path
            (node_publish_volume
              (mock_host stat eval_symlinks need_resize resize)
              req
              m).1).1.mount_points
        ≡ lookup j m.mount_points
  unfolding node_unpublish_volume mock_unmount
  node_unpublish_volume-mock mnt j complete free healthy sound =
      rw
        (
          node_publish_volume-mock mnt complete free healthy,
          complete.volume,
          complete.target,
          sound,
        )
        (lookup-delete req.target_path j
            (insert req.target_path req.staging_target_path m.mount_points)
          ∙ rw (lookup-insert req.target_path j req.staging_target_path m.mount_points)
              (elim (Bool-cases (req.target_path == j)) [
                | inl same ↦ rw (same, sym ((eq_iff req.target_path j).0 same)) (sym free)
                | inr other ↦ rw other refl
              ]))
