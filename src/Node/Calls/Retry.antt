-- ===== src/Node/Calls/Retry.antt =====
-- Node calls that fail and are made again.
use csi_thalassa.Prelude.{
  ℕ, zero, suc, String, ◌≡◌, refl, ◌∙◌, inl, inr, true, false, List, [], ◌∷◌, Option, none, some,
}
use csi_thalassa.Exec.{ok}
use csi_thalassa.Exec.Ensures.{ensured}
use csi_thalassa.Csi.{VolumeCapability, AccessType, no_type, block, mount}
use csi_thalassa.Driver.{Driver}
use csi_thalassa.Node.Interface.{Host}
use csi_thalassa.Node.Calls.{
  NodeCall, stage, unstage, publish, unpublish, stats, expand, serve_call, serve_calls,
}
use csi_thalassa.Node.Calls.Mounts.{Mounts, MountTable, Has}
use csi_thalassa.Node.Calls.Effects.{staged, effect}
use csi_thalassa.Node.Calls.Refinement.{serve_call-Has}
use csi_thalassa.Node.Calls.Either.{set-again, Either, serve_call-Either}

staged-again :
    (o : Option VolumeCapability) (target : String) (mounts : Mounts) (path : String)
    → staged o target (staged o target mounts) path ≡ staged o target mounts path
unfolding staged
staged-again none target mounts path = refl
staged-again (some capability) target mounts path = by_type capability.access_type
  where
    by_type :
        (t : AccessType)
        → staged
            (some (record { access_mode = capability.access_mode; access_type = t }))
            target
            (staged
              (some (record { access_mode = capability.access_mode; access_type = t }))
              target
              mounts)
            path
          ≡ staged
              (some (record { access_mode = capability.access_mode; access_type = t }))
              target
              mounts
              path
    by_type block = refl
    by_type no_type = refl
    by_type (mount mnt) = set-again target true mounts path

effect-again :
    (c : NodeCall) (mounts : Mounts) (path : String)
    → effect c (effect c mounts) path ≡ effect c mounts path
unfolding effect
effect-again (stage req) mounts path =
    staged-again req.volume_capability req.staging_target_path mounts path
effect-again (unstage id target) mounts path = set-again target false mounts path
effect-again (publish req) mounts path = set-again req.target_path true mounts path
effect-again (unpublish id target) mounts path = set-again target false mounts path
effect-again (stats id target) mounts path = refl
effect-again (expand id target o) mounts path = refl

-- The same call, a number of times.
abbrev pub attempts : ℕ → NodeCall → List NodeCall
attempts zero c = []
attempts (suc n) c = c ∷ attempts n c

module _ (h : Host) (table : MountTable h) (mounts : Mounts) (d : Driver) (c : NodeCall) where
  attempts-Either :
      (n : ℕ) (s : h.State)
      → Either h table mounts (effect c mounts) s
      → Either h table mounts (effect c mounts) (serve_calls h d (attempts n c) s)
  unfolding serve_calls
  attempts-Either zero s p = p
  attempts-Either (suc n) s p =
      attempts-Either n (serve_call h d c s).1 (serve_call-Either h table mounts d c s p)

  -- A node call may be repeated until it succeeds: after any number of attempts, each of which may
  -- fail with its mount or unmount made or not, the mounted paths are those before the first
  -- attempt or those that the call asks for, and after one more attempt that succeeds they are
  -- those that it asks for.
  pub serve_call-attempts :
      (n : ℕ) (s : h.State)
      → Has h table mounts s
      → Either h table mounts (effect c mounts) (serve_calls h d (attempts n c) s)
        × ((s' : h.State)
            → serve_call h d c (serve_calls h d (attempts n c) s) ≡ (ok tt, s')
            → Has h table (effect c mounts) s')
  serve_call-attempts n s p = (either, λ s' e. succeeded s' e either)
    where
      either : Either h table mounts (effect c mounts) (serve_calls h d (attempts n c) s)
      either = attempts-Either n s (inl p)

      succeeded :
          (s' : h.State)
          → serve_call h d c (serve_calls h d (attempts n c) s) ≡ (ok tt, s')
          → Either h table mounts (effect c mounts) (serve_calls h d (attempts n c) s)
          → Has h table (effect c mounts) s'
      succeeded s' e (inl q) =
          ensured (λ _. Has h table (effect c mounts)) (serve_call h d c _) tt s' e
            (serve_call-Has h table mounts d c _ q)
      succeeded s' e (inr q) = λ path.
          ensured (λ _. Has h table (effect c (effect c mounts))) (serve_call h d c _) tt s' e
            (serve_call-Has h table (effect c mounts) d c _ q) path
          ∙ effect-again c mounts path
