-- ===== src/Tests/Controller.antt =====
-- Runs of the controller's calls on an API in memory, and the applications of their theorems.
use mathlib.Core.Path.{subst}
use csi_thalassa.Prelude.{
  ◌≢◌, String, ℕ, ◌≡◌, inl, inr, refl, true, false, [], ◌∷◌, none, some, arith, Bool-cases, ◌*◌,
  ◌+◌, ◌/◌, ◌%◌, ◌≤◌, not, ◌==◌, if◌then◌else◌, eq_iff, eqb,
}
use csi_thalassa.Prelude.Signed.{pos, ◌/ℤ◌}
use csi_thalassa.Prelude.Labels.{lookup}
use csi_thalassa.Prelude.Text.{trim_space, equal_fold}
use csi_thalassa.Status.{is_not_found, status, api, already_exists}
use csi_thalassa.Exec.{ok, err}
use csi_thalassa.Exec.Keeps.{Keeps}
use csi_thalassa.Capacity.{gib, get_storage_size_from_capacity_range}
use csi_thalassa.Csi.{CreateVolumeRequest, CsiVolume, ExpandVolumeRequest}
use csi_thalassa.Iaas.{UpdateVolume, Cloud}
use csi_thalassa.Pagination.{sort_strings}
use csi_thalassa.Pagination.Sorted.{count}
use csi_thalassa.Pagination.Walk.{IsDistinct}
use csi_thalassa.Capabilities.{validate_capabilities}
use csi_thalassa.VolumeType.{get_volume_type_by_filters}
use csi_thalassa.Volumes.Request.{validate_create_volume_accessibility, build_create_volume_request}
use csi_thalassa.Volumes.Create.{
  create_volume, volume_identity, find_or_create, create_new_volume, resolve_volume_type_identity,
  apply_snapshot_restore,
}
use csi_thalassa.Volumes.Create.Rejected.{
  IsAdmissible, is_refusal, chosen_size, create_volume_refused,
}
use csi_thalassa.Volumes.Create.Existing.{existing_answer, create_volume_retry}
use csi_thalassa.Volumes.Create.Again.{Stored, create_volume_again}
use csi_thalassa.Volumes.Create.Writes.{create_volume-Keeps}
use csi_thalassa.Volumes.Listing.Laws.{identities, walk_volumes, walk_volumes-sort_strings}
use csi_thalassa.Resize.{asks_for_block, controller_expand_volume}
use csi_thalassa.Resize.Again.{controller_expand_volume_again}
use csi_thalassa.Resize.Laws.{Grown, controller_expand_volume_small}
use csi_thalassa.Tests.World.{
  World, find_volume, memory, memory-ReadsKeep, memory-VolumeStore, memory-NewVolumes, driver,
  volume, world, capability, range, volume_request,
}

-- the request for a new volume of 3 GiB
abbrev new : CreateVolumeRequest
new = volume_request "new" (range (3 * gib) 0)

new-IsAdmissible : IsAdmissible driver new
new-IsAdmissible = record {
  named = λ e. ground (arith, eq_iff "new" "");
  capable = λ e. ground arith;
  supported = (record { mode = refl; typed = λ e. ground arith }, tt);
  sized = λ h. ground arith;
  local = tt;
}

fresh : memory.get_volume (volume_identity new) world ≡ (err (api true "not found"), world)
unfolding volume_identity lookup
fresh = refl

-- a range that no size fits
abbrev too_small : CreateVolumeRequest
too_small = volume_request "new" (range (3 * gib) gib)

too_small-refused : ¬ IsAdmissible driver too_small
too_small-refused a = a.sized (inl (omega arith, omega arith))

create_volume_refused_example :
    ((create_volume memory driver too_small world).1 ≡ world)
    × (is_refusal (create_volume memory driver too_small world).0 ≡ true)
create_volume_refused_example =
    create_volume_refused memory driver too_small too_small-refused world

-- 3 GiB and one byte: the volume that is created for it has 3 GiB
abbrev uneven : CreateVolumeRequest
uneven = volume_request "vol-3" (range (3 * gib + 1) 0)

uneven-IsAdmissible : IsAdmissible driver uneven
uneven-IsAdmissible = record {
  named = λ e. ground (arith, eq_iff "vol-3" "");
  capable = λ e. ground arith;
  supported = (record { mode = refl; typed = λ e. ground arith }, tt);
  sized = λ h. ground arith;
  local = tt;
}

abbrev world_3 : World
world_3 = record world { volumes = volume "vol-3" 3 [] ∷ world.volumes }

finds_3 :
    memory.get_volume (volume_identity uneven) world_3 ≡ (ok (some (volume "vol-3" 3 [])), world_3)
unfolding volume_identity lookup
finds_3 = refl

has_3 : pos 3 ≡ (chosen_size memory driver uneven /ℤ gib)
unfolding ◌/ℤ◌
has_3 = refl

create_volume_retry_example : create_volume memory driver uneven world_3 ≡ (
  if eqb ((3 * gib + 1) % gib) 0
      then ok (existing_answer "vol-3" (pos (3 * gib + 1)))
      else err (status already_exists "invalid option requested size: %d"),
  world_3,
)
create_volume_retry_example =
    create_volume_retry memory driver uneven uneven-IsAdmissible world_3 world_3
      (volume "vol-3" 3 []) finds_3 has_3

-- The answer with a new volume of this identity.
abbrev created : String → CsiVolume
created id = record {
  volume_id = id;
  capacity_bytes = pos (3 * gib);
  accessible_topology = (("region", "nl-1") ∷ []) ∷ [];
  content_source = none;
}

abbrev world_new : World
world_new = (create_volume memory driver new world).1

abbrev world_newer : World
world_newer = (create_volume memory driver new world_new).1

-- The same request makes one volume after the other.
creates :
    (create_volume memory driver new world ≡ (ok (created "vol-2vol-1v"), world_new))
    × (create_volume memory driver new world_new
        ≡ (ok (created "vol-2vol-1vvol-2vol-1v"), world_newer))
unfolding create_volume find_or_create create_new_volume resolve_volume_type_identity
    apply_snapshot_restore volume_identity validate_capabilities
    get_storage_size_from_capacity_range validate_create_volume_accessibility
    build_create_volume_request get_volume_type_by_filters equal_fold is_not_found
creates = (refl, refl)

not_there : memory-VolumeStore.volumes world (volume_identity new) ≡ none
unfolding memory-VolumeStore volume_identity lookup
not_there = refl

by_name : volume_identity new ≡ "new"
unfolding volume_identity lookup
by_name = refl

create_volume_again_example :
    ((created "vol-2vol-1v").volume_id ≢ (created "vol-2vol-1vvol-2vol-1v").volume_id)
    × Stored memory memory-VolumeStore new
        (chosen_size memory driver new /ℤ gib)
        world_newer
        (created "vol-2vol-1v")
    × Stored memory memory-VolumeStore new
        (chosen_size memory driver new /ℤ gib)
        world_newer
        (created "vol-2vol-1vvol-2vol-1v")
create_volume_again_example =
    create_volume_again memory memory-VolumeStore memory-NewVolumes driver new
      (created "vol-2vol-1v") (created "vol-2vol-1vvol-2vol-1v") world world_new world_newer
      not_there (rw by_name (λ same. absurd (cc ((eq_iff "new" "vol-2vol-1v").1 same)))) creates.0
      creates.1

-- CreateVolume leaves the snapshots and the machines as they are.
abbrev SameSnapshots : World → Type 0
SameSnapshots w = w.snapshots ≡ world.snapshots

create_volume-Keeps_example : Keeps SameSnapshots (create_volume memory driver new)
create_volume-Keeps_example =
    create_volume-Keeps memory SameSnapshots (memory-ReadsKeep SameSnapshots) driver new
      (λ _ _ s h. h)

vols-IsDistinct : IsDistinct (identities world.volumes)
unfolding count
vols-IsDistinct = record {
  once = λ x. elim (Bool-cases ("vol-2" == x)) [
    | inl e ↦
        subst (λ x. count x (identities world.volumes) ≤ 1) ((eq_iff "vol-2" x).0 e) (omega arith)
    | inr other ↦ rw other (ground arith)
  ];
  no_empty = refl;
}

-- an API that always lists the same volumes
abbrev steady : Cloud
steady = record memory { list_volumes = λ l w. (ok world.volumes, w) }

walk_volumes-sort_strings_example :
    walk_volumes steady driver (pos 1) 3 "" world ≡ some (sort_strings (identities world.volumes))
walk_volumes-sort_strings_example =
    walk_volumes-sort_strings steady driver world.volumes (λ s. (s, refl)) vols-IsDistinct
      (omega arith) 1 world

abbrev expand : ℕ → ExpandVolumeRequest
expand n = record {
  volume_id = "vol-1";
  capacity_range = range n 0;
  volume_capability = some capability;
}

named_1 : (trim_space "vol-1" == "") ≡ false
unfolding trim_space
named_1 = refl

grants_4 : get_storage_size_from_capacity_range (range (4 * gib) 0) ≡ ok (pos (4 * gib))
unfolding get_storage_size_from_capacity_range
grants_4 = refl

grants_9 : get_storage_size_from_capacity_range (range (9 * gib) 0) ≡ ok (pos (9 * gib))
unfolding get_storage_size_from_capacity_range
grants_9 = refl

abbrev grown : World
grown = record world { volumes = volume "vol-2" 4 [] ∷ volume "vol-1" 9 [] ∷ [] }

abbrev grow_update : UpdateVolume
grow_update = record {
  name = "pvc-vol-1";
  description = "";
  labels = [];
  annotations = [];
  size = pos 9;
  delete_protection = false;
}

grow_update-Grown : Grown (volume "vol-1" 8 []) (pos 9) grow_update
grow_update-Grown = record {
  same_name = refl;
  same_description = refl;
  same_labels = refl;
  same_annotations = refl;
  same_protection = refl;
  new_size = refl;
}

grows : memory.update_volume "vol-1" grow_update world ≡ (ok tt, grown)
grows = refl

expands_9 : controller_expand_volume memory (expand (9 * gib)) world ≡ (
  ok (record {
    capacity_bytes = pos (9 * gib);
    node_expansion_required = not (asks_for_block (some capability));
  }),
  grown,
)
expands_9 =
    (controller_expand_volume_small memory (expand (9 * gib)) (volume "vol-1" 8 []) (9 * gib) 8
      world world named_1 grants_9 refl refl (omega arith) (omega arith) grow_update grown
      grow_update-Grown grows).0

controller_expand_volume_small_example :
    (controller_expand_volume memory (expand (9 * gib)) world ≡ (
      ok (record {
        capacity_bytes = pos (9 * gib);
        node_expansion_required = not (asks_for_block (some capability));
      }),
      grown,
    ))
    × (9 * gib / gib * gib + 9 * gib % gib ≡ 9 * gib)
controller_expand_volume_small_example =
    controller_expand_volume_small memory (expand (9 * gib)) (volume "vol-1" 8 []) (9 * gib) 8 world
      world named_1 grants_9 refl refl (omega arith) (omega arith) grow_update grown
      grow_update-Grown grows

controller_expand_volume_again_example :
    controller_expand_volume memory (expand (9 * gib)) grown
    ≡ (ok (record { capacity_bytes = pos (9 * gib); node_expansion_required = true }), grown)
controller_expand_volume_again_example =
    controller_expand_volume_again memory memory-VolumeStore (expand (9 * gib))
      (volume "vol-1" 8 []) (find_volume grown "vol-1")
      (record {
        capacity_bytes = pos (9 * gib);
        node_expansion_required = not (asks_for_block (some capability));
      })
      (9 * gib) 8 world world grown grown named_1 grants_9 refl refl (omega arith) expands_9 refl
