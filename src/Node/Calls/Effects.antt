-- ===== src/Node/Calls/Effects.antt =====
-- The changes of a set of mounted paths that the node's calls ask for.
use csi_thalassa.Prelude.{String, true, false, List, [], ◌∷◌, Option, none, some}
use csi_thalassa.Csi.{VolumeCapability, mount}
use csi_thalassa.Node.Calls.{NodeCall, stage, unstage, publish, unpublish, stats, expand}
use csi_thalassa.Node.Calls.Mounts.{Mounts, set}

-- Only a file system is mounted when it is staged.
unfoldable pub staged : Option VolumeCapability → String → Mounts → Mounts
unfolding set
staged none path mounts = mounts
staged (some capability) path mounts = elim capability.access_type [
  | mount _ ↦ set path true mounts
  | _ ↦ mounts
]

-- What a call that succeeds does to the set of mounted paths.
unfoldable pub effect : NodeCall → Mounts → Mounts
unfolding staged set
effect (stage req) mounts = staged req.volume_capability req.staging_target_path mounts
effect (unstage id path) mounts = set path false mounts
effect (publish req) mounts = set req.target_path true mounts
effect (unpublish id path) mounts = set path false mounts
effect (stats id path) mounts = mounts
effect (expand id path capability) mounts = mounts

abbrev pub effects : List NodeCall → Mounts → Mounts
effects [] mounts = mounts
effects (c ∷ calls) mounts = effects calls (effect c mounts)
