-- ===== src/Node/Calls/Refinement.antt =====
-- The node's handlers implement changes of a set of mounted paths.
use csi_thalassa.Prelude.{◌≡◌, List, [], ◌∷◌, ap}
use csi_thalassa.Exec.{Result, ok}
use csi_thalassa.Exec.Keeps.{>>=-Keeps}
use csi_thalassa.Exec.Ensures.{Ensures, ensured, Ensures-of_Keeps}
use csi_thalassa.Driver.{Driver}
use csi_thalassa.Node.Interface.{Host}
use csi_thalassa.Node.Calls.{
  NodeCall, stage, unstage, publish, unpublish, stats, expand, serve_call, serve_calls,
}
use csi_thalassa.Node.Volume.{node_get_volume_stats, node_expand_volume}
use csi_thalassa.Node.Calls.Laws.{stats-Keeps, expand-Keeps}
use csi_thalassa.Node.Calls.Mounts.{Mounts, MountTable, Has}
use csi_thalassa.Node.Calls.Effects.{effect, effects}
use csi_thalassa.Node.Calls.Publishing.{unstage-Has, unpublish-Has, publish-Has}
use csi_thalassa.Node.Calls.Staging.{stage-Has}

module _ (h : Host) (table : MountTable h) (mounts : Mounts) where
  pub serve_call-Has :
      (d : Driver) (c : NodeCall) (s : h.State)
      → Has h table mounts s
      → Ensures (λ _. Has h table (effect c mounts)) (serve_call h d c s)
  unfolding serve_call effect
  serve_call-Has d (stage req) s p = stage-Has h table mounts d req s p
  serve_call-Has d (unstage id path) s p = unstage-Has h table mounts id path s p
  serve_call-Has d (publish req) s p = publish-Has h table mounts req s p
  serve_call-Has d (unpublish id path) s p = unpublish-Has h table mounts id path s p
  serve_call-Has d (stats id path) s p =
      Ensures-of_Keeps (Has h table mounts) (serve_call h d (stats id path) s) (
        >>=-Keeps (node_get_volume_stats h id path) _
          (stats-Keeps h (Has h table mounts) (table.quiet mounts) id path) (λ _ s p. p) s p)
  serve_call-Has d (expand id path o) s p =
      Ensures-of_Keeps (Has h table mounts) (node_expand_volume h id path o s)
        (expand-Keeps h (Has h table mounts) (table.quiet mounts) id path o s p)

module _ (h : Host) (d : Driver) where
  -- Every call of the sequence succeeds.
  abbrev pub AllSucceed : List NodeCall → h.State → Type 0
  AllSucceed [] s = Unit {0}
  AllSucceed (c ∷ calls) s =
      ((serve_call h d c s).0 ≡ ok tt) × AllSucceed calls (serve_call h d c s).1

  -- Over any host with a set of mounted paths, a sequence of node calls that succeed changes the
  -- set as the calls say in turn: a file system is mounted at its staging path when it is staged, a
  -- volume at its target path when it is published, nothing at the path that is unstaged or
  -- unpublished, and nothing else changes.
  pub serve_calls-effects :
      (table : MountTable h) (calls : List NodeCall) (mounts : Mounts) (s : h.State)
      → Has h table mounts s
      → AllSucceed calls s
      → Has h table (effects calls mounts) (serve_calls h d calls s)
  unfolding serve_calls
  serve_calls-effects table [] mounts s p succeed = p
  serve_calls-effects table (c ∷ calls) mounts s p succeed =
      serve_calls-effects table calls (effect c mounts) (serve_call h d c s).1
        (ensured (λ _. Has h table (effect c mounts)) (serve_call h d c s) tt (serve_call h d c s).1
          (ap (λ (r : Result (Unit {0})). (r, (serve_call h d c s).1)) succeed.0)
          (serve_call-Has h table mounts d c s p))
        succeed.1
