-- ===== src/Tests/Concurrent.antt =====
-- Interleaved requests to an API in memory, and the applications of their theorems.
use csi_thalassa.Prelude.All.{All}
use csi_thalassa.Prelude.{◌*◌, ◌≡◌, refl, true, false, List, [], ◌∷◌, some, map, arith}
use csi_thalassa.Status.{wrap, api}
use csi_thalassa.Exec.Ensures.{OnSuccess}
use csi_thalassa.Exec.{Result, ok, err}
use csi_thalassa.Capacity.{gib}
use csi_thalassa.Iaas.{Volume}
use csi_thalassa.Controller.{
  Request, Response, delete_volume_request, publish_request, unpublish_request,
  create_snapshot_request, delete_snapshot_request, expand_request, published, empty, serve,
}
use csi_thalassa.Attachment.{controller_publish_volume, attach_if_free, volume_has_status}
use csi_thalassa.Volumes.Create.{delete_volume}
use csi_thalassa.Controller.Replay.{ask, poll_rounds}
use csi_thalassa.Controller.Concurrent.{
  result, progress, System, Event, arrive, turn, elsewhere, new_task, run,
}
use csi_thalassa.Controller.Concurrent.Liveness.{seen, IsAnswered, run-IsAnswered}
use csi_thalassa.Controller.Glimpse.{glimpse}
use csi_thalassa.Controller.Concurrent.Publish.{IsPublishedBy, run-IsPublished}
use csi_thalassa.Controller.Concurrent.Unpublish.{IsReleasedIn, run-IsReleased}
use csi_thalassa.Controller.Concurrent.Bounds.{IsBounded, run-IsBounded}
use csi_thalassa.Tests.World.{
  range, capability, World, memory, driver, world, publish_request as attach_vol_1,
}

abbrev calm : System World
calm = record { api = world; tasks = [] }

-- The machines are gone.
abbrev without_machines : World → World
without_machines w = record w { machines = [] }

-- A request to attach a volume and one to delete another volume take turns.
abbrev two_requests : List (Event World)
two_requests =
    arrive (publish_request attach_vol_1) 1
    ∷ turn 0
    ∷ turn 0
    ∷ elsewhere without_machines
    ∷ arrive (delete_volume_request "vol-2") 1
    ∷ turn 0
    ∷ turn 1
    ∷ turn 0
    ∷ []

both_answered : map (result driver) (run memory driver calm two_requests).tasks ≡ (
    some (ok (published (("csi.k8s.thalassa.cloud/volume-name", "pvc-vol-1") ∷ [])))
    ∷ some (ok empty)
    ∷ [])
unfolding run progress controller_publish_volume attach_if_free volume_has_status delete_volume ask
    poll_rounds
both_answered = refl

-- The volume to attach is deleted after the look at it: the wait finds out.
abbrev deleted_meanwhile : List (Event World)
deleted_meanwhile =
    arrive (publish_request attach_vol_1) 1
    ∷ turn 0
    ∷ arrive (delete_volume_request "vol-1") 1
    ∷ turn 1
    ∷ turn 0
    ∷ turn 0
    ∷ turn 0
    ∷ []

deleted_found_out : map (result driver) (run memory driver calm deleted_meanwhile).tasks ≡ (
    some (err (wrap "failed to attach volume" (wrap "error getting volume" (api true "not found"))))
    ∷ some (ok empty)
    ∷ [])
unfolding run progress controller_publish_volume attach_if_free volume_has_status delete_volume ask
    poll_rounds
deleted_found_out = refl

-- No volume is protected against deletion, and the snapshots stay as they are.
abbrev IsUnprotected : Volume → Type 0
IsUnprotected v = v.delete_protection ≡ false

abbrev Unchanged : World → Type 0
Unchanged w = (w.snapshots ≡ world.snapshots) × All IsUnprotected w.volumes

abbrev NoSnapshot : Request → Type 0
NoSnapshot (create_snapshot_request req) = ⊥
NoSnapshot (delete_snapshot_request id) = ⊥
NoSnapshot _ = Unit

-- A request to expand a volume and one to attach it take turns.
abbrev growing : List (Event World)
growing =
    arrive
      (expand_request (record {
        volume_id = "vol-1";
        capacity_range = range (9 * gib) 0;
        volume_capability = some capability;
      }))
      1
    ∷ turn 0
    ∷ arrive (publish_request attach_vol_1) 1
    ∷ turn 1
    ∷ turn 0
    ∷ turn 1
    ∷ []

-- The turns that come after a first request.
abbrev mixed_turns : List (Event World)
mixed_turns =
    arrive (delete_volume_request "vol-2") 1
    ∷ turn 0
    ∷ turn 1
    ∷ turn 0
    ∷ turn 0
    ∷ turn 0
    ∷ elsewhere without_machines
    ∷ turn 0
    ∷ turn 0
    ∷ turn 0
    ∷ turn 0
    ∷ []

-- A request is in progress from the start.
abbrev begun : Request → System World
begun q = record { api = world; tasks = new_task q 1 ∷ [] }

abbrev attaching : System World
attaching = begun (publish_request attach_vol_1)

abbrev detaching : System World
detaching = begun (unpublish_request "vol-1" "node-1")

run-IsAnswered_example :
    IsAnswered memory driver 0
      (publish_request attach_vol_1)
      (serve
        (glimpse 1 memory)
        driver
        (publish_request attach_vol_1)
        (record { past = []; to_come = seen memory driver 0 attaching mixed_turns })).0
      (run memory driver attaching mixed_turns)
run-IsAnswered_example =
    run-IsAnswered memory driver 0 (publish_request attach_vol_1) 1 attaching mixed_turns refl
      (omega arith)

run-IsPublished_example :
    (x : Result Response) × IsAnswered memory driver 0
      (publish_request attach_vol_1)
      x
      (run memory driver attaching mixed_turns)
    × OnSuccess
        (IsPublishedBy memory driver attach_vol_1 (seen memory driver 0 attaching mixed_turns))
        x
run-IsPublished_example =
    run-IsPublished memory driver 0 attach_vol_1 1 attaching mixed_turns refl (omega arith)

run-IsReleased_example :
    (x : Result Response) × IsAnswered memory driver 0
      (unpublish_request "vol-1" "node-1")
      x
      (run memory driver detaching mixed_turns)
    × OnSuccess
        (λ _.
          IsReleasedIn memory driver "vol-1" "node-1" (seen memory driver 0 detaching mixed_turns))
        x
run-IsReleased_example =
    run-IsReleased memory driver 0 "vol-1" "node-1" 1 detaching mixed_turns refl (omega arith)

run-IsBounded_example : All IsBounded (run memory driver calm two_requests).tasks
run-IsBounded_example = run-IsBounded memory driver world two_requests
