-- ===== src/Node/Calls/Either.antt =====
-- A node call that fails has made its change of the mounted paths, or none.
use csi_thalassa.Prelude.{
  String, ◌≡◌, refl, ◌∙◌, ◌⊎◌, inl, inr, Bool, true, false, List, Option, none, some, ◌==◌, arith,
}
use csi_thalassa.Status.{Error}
use csi_thalassa.Exec.{Result, ok, err, Exec}
use csi_thalassa.Exec.Keeps.{Keeps, Keeps-or, if-Keeps, >>=-Keeps}
use csi_thalassa.Csi.{
  NodeStageRequest, VolumeCapability, AccessMode, MountVolume, AccessType, no_type, block, mount,
}
use csi_thalassa.Driver.{Driver}
use csi_thalassa.Node.Path.{get_device_by_id_path}
use csi_thalassa.Node.Interface.{Host, QuietKeep, QuietKeep-or}
use csi_thalassa.Node.Stage.{node_stage_volume, stage_by_type, stage_capability}
use csi_thalassa.Node.Stage.Laws.{harmless-Keeps, stage_by_type-Keeps}
use csi_thalassa.Node.Volume.{node_get_volume_stats}
use csi_thalassa.Node.Calls.{
  NodeCall, stage, unstage, publish, unpublish, stats, expand, serve_call,
}
use csi_thalassa.Node.Calls.Laws.{
  stats-Keeps, expand-Keeps, unstage-Keeps, unpublish-Keeps, publish-Keeps,
}
use csi_thalassa.Node.Calls.Mounts.{Mounts, set, set-cong, MountTable, Has}
use csi_thalassa.Node.Calls.Effects.{staged, effect}

pub set-again :
    (target : String) (b : Bool) (mounts : Mounts) (path : String)
    → set target b (set target b mounts) path ≡ set target b mounts path
unfolding set
set-again target b mounts path = ground arith

module _ (h : Host) (table : MountTable h) (mounts : Mounts) where
  -- The mounted paths are the old ones, or already the new ones.
  abbrev pub Either : Mounts → h.State → Type 0
  Either new s = Has h table mounts s ⊎ Has h table new s

  Either-quiet : (new : Mounts) → QuietKeep h (Either new)
  Either-quiet new =
      QuietKeep-or h (Has h table mounts) (Has h table new) (table.quiet mounts) (table.quiet new)

  -- A change of one path, which may be made or not if it fails.
  module _ (target : String) (b : Bool) (m : Exec h.State (Unit {0}))
      (succeeds : (s s' : h.State)
        → m s ≡ (ok tt, s')
        → (path : String) → table.mounted s' path ≡ set target b (table.mounted s) path)
      (fails : (s s' : h.State) (e : Error)
        → m s ≡ (err e, s')
        → ((path : String) → table.mounted s' path ≡ table.mounted s path)
          ⊎ ((path : String) → table.mounted s' path ≡ set target b (table.mounted s) path)) where
    -- What a made change makes of either state.
    changed :
        (s s' : h.State)
        → ((path : String) → table.mounted s' path ≡ set target b (table.mounted s) path)
        → Either (set target b mounts) s
        → Either (set target b mounts) s'
    changed s s' change (inl p) =
        inr (λ path. change path ∙ set-cong target b (table.mounted s) mounts p path)
    changed s s' change (inr p) = inr (λ path.
        change path
        ∙ set-cong target b (table.mounted s) (set target b mounts) p path
        ∙ set-again target b mounts path)

    unchanged :
        (s s' : h.State)
        → ((path : String) → table.mounted s' path ≡ table.mounted s path)
        → Either (set target b mounts) s
        → Either (set target b mounts) s'
    unchanged s s' same (inl p) = inl (λ path. same path ∙ p path)
    unchanged s s' same (inr p) = inr (λ path. same path ∙ p path)

    change-Either : Keeps (Either (set target b mounts)) m
    change-Either s p = ended (m s) refl
      where
        ended : (r : Result (Unit {0}) × h.State) → m s ≡ r → Either (set target b mounts) r.1
        ended (ok _, s') e = changed s s' (succeeds s s' e) p
        ended (err x, s') e = elim (fails s s' x e) [
          | inl same ↦ unchanged s s' same p
          | inr change ↦ changed s s' change p
        ]

  mount-Either :
      (source target fs_type : String) (options : List String)
      → Keeps (Either (set target true mounts)) (h.mount source target fs_type options)
  mount-Either source target fs_type options =
      change-Either target true (h.mount source target fs_type options)
        (table.mount source target fs_type options)
        (table.mount_fails source target fs_type options)

  unmount-Either : (target : String) → Keeps (Either (set target false mounts)) (h.unmount target)
  unmount-Either target =
      change-Either target false (h.unmount target) (table.unmount target)
        (table.unmount_fails target)

  module _ (d : Driver) where
    stage_mount-Either :
        (req : NodeStageRequest) (mnt : MountVolume) (new : Mounts)
        → ((fs_type : String) (options : List String)
            → Keeps (Either new) (
                h.mount
                  (get_device_by_id_path req.volume_id)
                  req.staging_target_path
                  fs_type
                  options))
        → Keeps (Either new) (stage_by_type h d req (mount mnt))
    stage_mount-Either req mnt new mounting =
        stage_by_type-Keeps h (Either new) (Either-quiet new).looks d req
          (λ fs_type.
            harmless-Keeps h (Either new) (Either-quiet new).looks d req
              (get_device_by_id_path req.volume_id) fs_type
              (Keeps-or (Has h table mounts) (Has h table new)
                (h.format (get_device_by_id_path req.volume_id) fs_type)
                (table.format mounts (get_device_by_id_path req.volume_id) fs_type)
                (table.format new (get_device_by_id_path req.volume_id) fs_type)))
          mounting
          ((Either-quiet new).resize (get_device_by_id_path req.volume_id) req.staging_target_path)
          (mount mnt)

    stage_type-Either :
        (req : NodeStageRequest) (mode : AccessMode) (t : AccessType)
        → Keeps
            (Either (
              staged
                (some (record { access_mode = mode; access_type = t }))
                req.staging_target_path
                mounts))
            (stage_by_type h d req t)
    unfolding stage_by_type staged
    stage_type-Either req mode block = λ s p. p
    stage_type-Either req mode no_type = λ s p. p
    stage_type-Either req mode (mount mnt) =
        stage_mount-Either req mnt (set req.staging_target_path true mounts)
          (mount-Either (get_device_by_id_path req.volume_id) req.staging_target_path)

    stage_capability-Either :
        (req : NodeStageRequest) (o : Option VolumeCapability)
        → Keeps (Either (staged o req.staging_target_path mounts)) (stage_capability h d req o)
    unfolding stage_capability
    stage_capability-Either req none = λ s p. p
    stage_capability-Either req (some capability) =
        stage_type-Either req capability.access_mode capability.access_type

    stage-Either :
        (req : NodeStageRequest)
        → Keeps
            (Either (staged req.volume_capability req.staging_target_path mounts))
            (node_stage_volume h d req)
    unfolding node_stage_volume
    stage-Either req =
        if-Keeps (Either (staged req.volume_capability req.staging_target_path mounts))
          (req.volume_id == "") _ _ (λ s p. p)
          (if-Keeps (Either (staged req.volume_capability req.staging_target_path mounts))
            (req.staging_target_path == "") _ _ (λ s p. p)
            (stage_capability-Either req req.volume_capability))

    -- A call makes its change of the mounted paths or none.
    pub serve_call-Either : (c : NodeCall) → Keeps (Either (effect c mounts)) (serve_call h d c)
    unfolding serve_call effect
    serve_call-Either (stage req) = stage-Either req
    serve_call-Either (unstage id path) =
        unstage-Keeps h (Either (set path false mounts)) (Either-quiet (set path false mounts)) path
          (unmount-Either path) id
    serve_call-Either (publish req) =
        publish-Keeps h (Either (set req.target_path true mounts))
          (Either-quiet (set req.target_path true mounts)) req
          (λ source fs_type options. mount-Either source req.target_path fs_type options)
    serve_call-Either (unpublish id path) =
        unpublish-Keeps h (Either (set path false mounts)) (Either-quiet (set path false mounts))
          path (unmount-Either path) id
    serve_call-Either (stats id path) =
        >>=-Keeps (node_get_volume_stats h id path) _
          (stats-Keeps h (Either mounts) (Either-quiet mounts) id path) (λ _ s p. p)
    serve_call-Either (expand id path o) =
        expand-Keeps h (Either mounts) (Either-quiet mounts) id path o
