-- ===== src/Controller/Tree/Serve.antt =====
-- Each request of the controller as a tree of its calls, and how many it makes at most.
use csi_thalassa.Prelude.{ℕ, ◌+◌}
use csi_thalassa.Driver.{Driver}
use csi_thalassa.Controller.{
  Request, create_volume_request, delete_volume_request, publish_request, unpublish_request,
  list_volumes_request, expand_request, create_snapshot_request, delete_snapshot_request,
  list_snapshots_request, validate_request, created_volume, published, listed_volumes, expanded,
  created_snapshot, listed_snapshots, confirmed, empty, serve,
}
use csi_thalassa.Controller.Tree.{IsTree, answer-IsTree}
use csi_thalassa.Controller.Tree.Volumes.{
  ListVolumes-IsTree, DeleteVolume-IsTree, Validate-IsTree, Expand-IsTree, CreateVolume-IsTree,
}
use csi_thalassa.Controller.Tree.Snapshots.{
  ListSnapshots-IsTree, DeleteSnapshot-IsTree, CreateSnapshot-IsTree,
}
use csi_thalassa.Controller.Tree.Attachment.{Publish-IsTree, Unpublish-IsTree}

-- At most so many calls, if a wait looks at most `rounds` times.
abbrev pub call_bound : (rounds : ℕ) → Request → ℕ
call_bound rounds (create_volume_request req) = 4
call_bound rounds (delete_volume_request id) = 1
call_bound rounds (publish_request req) = 6 + rounds
call_bound rounds (unpublish_request id node) = 7 + rounds
call_bound rounds (list_volumes_request req) = 1
call_bound rounds (expand_request req) = 2
call_bound rounds (create_snapshot_request req) = 6
call_bound rounds (delete_snapshot_request id) = 1
call_bound rounds (list_snapshots_request req) = 1
call_bound rounds (validate_request req) = 1

pub serve-IsTree : (n : ℕ) (d : Driver) (q : Request) → IsTree n (call_bound n q) (λ c. serve c d q)
unfolding serve
serve-IsTree n d (create_volume_request req) =
    answer-IsTree 4 created_volume (CreateVolume-IsTree d req)
serve-IsTree n d (delete_volume_request id) = answer-IsTree 1 (λ _. empty) (DeleteVolume-IsTree id)
serve-IsTree n d (publish_request req) = answer-IsTree (6 + n) published (Publish-IsTree d req)
serve-IsTree n d (unpublish_request id node) =
    answer-IsTree (7 + n) (λ _. empty) (Unpublish-IsTree d id node)
serve-IsTree n d (list_volumes_request req) =
    answer-IsTree 1 listed_volumes (ListVolumes-IsTree d req)
serve-IsTree n d (expand_request req) = answer-IsTree 2 expanded (Expand-IsTree req)
serve-IsTree n d (create_snapshot_request req) =
    answer-IsTree 6 created_snapshot (CreateSnapshot-IsTree d req)
serve-IsTree n d (delete_snapshot_request id) =
    answer-IsTree 1 (λ _. empty) (DeleteSnapshot-IsTree id)
serve-IsTree n d (list_snapshots_request req) =
    answer-IsTree 1 listed_snapshots (ListSnapshots-IsTree d req)
serve-IsTree n d (validate_request req) = answer-IsTree 1 confirmed (Validate-IsTree req)
