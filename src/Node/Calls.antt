-- ===== src/Node/Calls.antt =====
-- Sequences of calls of the node service, as the gRPC server of `RunNode` serves them one after
-- another.
pub mod Laws
pub mod Mounts
pub mod Effects
pub mod Publishing
pub mod Staging
pub mod Refinement
pub mod Either
pub mod Retry
use csi_thalassa.Prelude.{String, List, [], ◌∷◌, Option}
use csi_thalassa.Exec.{Result, ok, err, Exec, pure, settle, ◌>>◌}
use csi_thalassa.Csi.{NodeStageRequest, NodePublishRequest, VolumeCapability}
use csi_thalassa.Driver.{Driver}
use csi_thalassa.Node.Interface.{Host}
use csi_thalassa.Node.Stage.{node_stage_volume, node_unstage_volume}
use csi_thalassa.Node.Publish.{node_publish_volume, node_unpublish_volume}
use csi_thalassa.Node.Volume.{node_get_volume_stats, node_expand_volume}

-- The calls of `csi.NodeServer` that reach the host.
pub data NodeCall : Type 0 where
  stage : NodeStageRequest → NodeCall
  unstage : (volume_id staging_target_path : String) → NodeCall
  publish : NodePublishRequest → NodeCall
  unpublish : (volume_id target_path : String) → NodeCall
  stats : (volume_id volume_path : String) → NodeCall
  expand : (volume_id volume_path : String) → Option VolumeCapability → NodeCall

module _ (h : Host) (d : Driver) where
  unfoldable pub serve_call : NodeCall → Exec h.State (Unit {0})
  unfolding node_stage_volume node_unstage_volume node_publish_volume node_unpublish_volume
      node_get_volume_stats node_expand_volume
  serve_call (stage req) = node_stage_volume h d req
  serve_call (unstage id path) = node_unstage_volume h id path
  serve_call (publish req) = node_publish_volume h req
  serve_call (unpublish id path) = node_unpublish_volume h id path
  serve_call (stats id path) = node_get_volume_stats h id path >> pure tt
  serve_call (expand id path capability) = node_expand_volume h id path capability

  -- What a sequence of calls leaves, those that fail included.
  unfoldable pub serve_calls : List NodeCall → h.State → h.State
  unfolding serve_call
  serve_calls [] s = s
  serve_calls (c ∷ calls) s = serve_calls calls (serve_call c s).1
