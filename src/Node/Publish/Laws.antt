-- ===== src/Node/Publish/Laws.antt =====
-- What publishing on a node mounts.
use csi_thalassa.Prelude.{
  String, ◌≡◌, ◌≢◌, ◌⊎◌, inl, inr, refl, Bool, true, false, not, List, ◌++◌, Option, none, some,
  ◌==◌, if◌then◌else◌,
}
use csi_thalassa.Status.{Error, status, text, internal}
use csi_thalassa.Exec.{Result, Exec, ok, err, settle, handle, fail, pure, ◌>>=◌}
use csi_thalassa.Exec.Keeps.{Keeps, handle-Keeps, if-Keeps}
use csi_thalassa.Exec.Ensures.{Ensures, handle-Ensures, if-Ensures}
use csi_thalassa.Csi.{NodePublishRequest, VolumeCapability, AccessType, no_type, block, mount}
use csi_thalassa.Node.Interface.{Host, LooksKeep}
use csi_thalassa.Node.Stage.{mount_unless_mounted}
use csi_thalassa.Node.Publish.{
  bind_options, find_absolute_device_by_id_path, publish_by_type, publish_capability,
  node_publish_volume,
}

-- A last look at the target found it mounted, or the last call mounted a source there.
abbrev pub MountedAt : (h : Host) → String → h.State → Type 0
MountedAt h target s' =
    ((s : h.State) × (h.is_mounted target s ≡ (ok true, s')))
    ⊎ ((s : h.State) × (source : String) × (fs_type : String) × (options : List String) × (h.mount
            source target fs_type options s
          ≡ (ok tt, s')))

module _ (h : Host) (target : String) where
  -- A mount under a test that the target is not mounted, with any error for a failed mount.
  guarded-MountedAt :
      (source fs_type : String) (options : List String) (g : Error → Error) (s : h.State)
      → Ensures
          (λ _. MountedAt h target)
          ((do
            mounted ← h.is_mounted target
            (if not mounted
                then (handle (h.mount source target fs_type options) (λ e. fail (g e)) pure)
                else pure tt))
            s)
  guarded-MountedAt source fs_type options g s =
      handle-Ensures (λ _. MountedAt h target) (h.is_mounted target) fail _ s (λ e s1 look. tt)
        (elim [
          | true ↦ λ s1 look. inl (s, look)
          | false ↦ λ s1 look.
              handle-Ensures (λ _. MountedAt h target) (h.mount source target fs_type options) _
                pure s1 (λ e s2 m. tt) (λ _ s2 m. inr (s1, source, fs_type, options, m))
        ])

-- NodePublishVolume succeeds only if a last look found the target mounted, or the last call mounted
-- a source there.
pub node_publish_volume-MountedAt :
    (h : Host) (req : NodePublishRequest) (s : h.State)
    → Ensures (λ _. MountedAt h req.target_path) (node_publish_volume h req s)
unfolding node_publish_volume publish_capability mount_unless_mounted
node_publish_volume-MountedAt h req s =
    if-Ensures (λ _. MountedAt h req.target_path) (req.volume_id == "") _ _ s (λ _. tt)
      λ _.
        if-Ensures (λ _. MountedAt h req.target_path) (req.staging_target_path == "") _ _ s
          (λ _. tt)
          λ _.
            if-Ensures (λ _. MountedAt h req.target_path) (req.target_path == "") _ _ s (λ _. tt)
              λ _. by_capability req.volume_capability
  where
    by_type :
        (t : AccessType) → Ensures (λ _. MountedAt h req.target_path) (publish_by_type h req t s)
    by_type block =
        handle-Ensures (λ _. MountedAt h req.target_path)
          (find_absolute_device_by_id_path h req.volume_id) _ _ s (λ e s1 f. tt)
          λ source s1 f.
            guarded-MountedAt h req.target_path source "" (bind_options req.readonly)
              (λ _. status internal "failed to mount volume %s: %s") s1
    by_type no_type = tt
    by_type (mount mnt) =
        guarded-MountedAt h req.target_path req.staging_target_path _
          (bind_options req.readonly ++ mnt.mount_flags) (λ e. status internal (text e)) s

    by_capability :
        (o : Option VolumeCapability)
        → Ensures (λ _. MountedAt h req.target_path) (publish_capability h req o s)
    by_capability none = tt
    by_capability (some capability) = by_type capability.access_type

pub find_absolute-Keeps :
    (h : Host) (P : h.State → Type 0)
    → LooksKeep h P
    → (id : String) → Keeps P (find_absolute_device_by_id_path h id)
unfolding find_absolute_device_by_id_path
find_absolute-Keeps h P looks id =
    handle-Keeps (h.eval_symlinks _) _ _ (looks.eval_symlinks _) (λ e s p. p)
      λ resolved. if-Keeps P _ _ _ (λ s p. p) (λ s p. p)

-- Publishing mounts nothing over a target that is seen to be mounted: what survives the looks
-- survives NodePublishVolume, if it lets no look miss the mount.
pub node_publish_volume_mounted :
    (h : Host) (P : h.State → Type 0)
    → LooksKeep h P
    → (req : NodePublishRequest)
    → ((s : h.State) → P s → (h.is_mounted req.target_path s).0 ≢ ok false)
    → Keeps P (node_publish_volume h req)
unfolding node_publish_volume publish_capability mount_unless_mounted
node_publish_volume_mounted h P looks req mounted =
    if-Keeps P (req.volume_id == "") _ _ (λ s p. p)
      (if-Keeps P (req.staging_target_path == "") _ _ (λ s p. p)
        (if-Keeps P (req.target_path == "") _ _ (λ s p. p) (by_capability req.volume_capability)))
  where
    guarded :
        (m : Exec h.State (Unit {0}))
        → Keeps P (do seen ← h.is_mounted req.target_path; (if not seen then m else pure tt))
    guarded m s p = rest (h.is_mounted req.target_path s).0 refl
      where
        rest :
            (r : Result Bool)
            → (h.is_mounted req.target_path s).0 ≡ r
            → P
                (settle fail
                  (λ seen. if not seen then m else pure tt)
                  r
                  (h.is_mounted req.target_path s).1).1
        rest (ok true) e = looks.is_mounted req.target_path s p
        rest (ok false) e = absurd (mounted s p e)
        rest (err f) e = looks.is_mounted req.target_path s p

    by_type : (t : AccessType) → Keeps P (publish_by_type h req t)
    by_type block =
        handle-Keeps (find_absolute_device_by_id_path h req.volume_id) _ _
          (find_absolute-Keeps h P looks req.volume_id) (λ e s p. p) (λ source. guarded _)
    by_type no_type = λ s p. p
    by_type (mount mnt) = guarded _

    by_capability : (o : Option VolumeCapability) → Keeps P (publish_capability h req o)
    by_capability none = λ s p. p
    by_capability (some capability) = by_type capability.access_type
