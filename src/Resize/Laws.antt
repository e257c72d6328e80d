-- ===== src/Resize/Laws.antt =====
-- What an answer to ControllerExpandVolume promises.
use csi_thalassa.Prelude.{
  ℕ, ◌≡◌, refl, ◌+◌, ◌%◌, ◌∙◌, ◌≤◌, ◌<◌, ◌*◌, ◌/◌, ◌^◌, true, false, not, arith, some, ◌==◌,
}
use csi_thalassa.Prelude.Signed.{ℤ, pos, ◌/ℤ◌, *ℤ_of_lt}
use csi_thalassa.Prelude.Text.{trim_space}
use csi_thalassa.Status.{Error, status, internal}
use csi_thalassa.Exec.{ok, err}
use csi_thalassa.Capacity.{gib, get_storage_size_from_capacity_range}
use csi_thalassa.Capacity.Laws.{storage_size-Serves}
use csi_thalassa.Csi.{ExpandVolumeRequest}
use csi_thalassa.Iaas.{Cloud, Volume, UpdateVolume}
use csi_thalassa.Resize.{asks_for_block, resized, grow, controller_expand_volume}

-- The update of a volume to this size, and to all else that the volume has.
pub record Grown (v : Volume) (size : ℤ) (u : UpdateVolume) : Type 0 where
  pub same_name : u.name ≡ v.name
  pub same_description : u.description ≡ v.description
  pub same_labels : u.labels ≡ v.labels
  pub same_annotations : u.annotations ≡ v.annotations
  pub same_protection : u.delete_protection ≡ v.delete_protection
  pub new_size : u.size ≡ size

pub resized-Grown : (v : Volume) (size : ℤ) → Grown v size (resized v size)
unfolding resized
resized-Grown v size = record {
  same_name = refl;
  same_description = refl;
  same_labels = refl;
  same_annotations = refl;
  same_protection = refl;
  new_size = refl;
}

pub Grown-resized : (v : Volume) (size : ℤ) (u : UpdateVolume) → Grown v size u → u ≡ resized v size
unfolding resized
Grown-resized v size u g = λ i. record {
  name = g.same_name i;
  description = g.same_description i;
  labels = g.same_labels i;
  annotations = g.same_annotations i;
  size = g.new_size i;
  delete_protection = g.same_protection i;
}

module _ (c : Cloud) (req : ExpandVolumeRequest) (v : Volume) (n size : ℕ) (s s' : c.State)
    (named : (trim_space req.volume_id == "") ≡ false)
    (granted : get_storage_size_from_capacity_range req.capacity_range ≡ ok (pos n))
    (found : c.get_volume req.volume_id s ≡ (ok (some v), s')) (sized : v.size ≡ pos size)
    (fits : size * gib < 2 ^ 63) where
  to_grow : controller_expand_volume c req s ≡ grow c req (pos n /ℤ gib) v s'
  unfolding controller_expand_volume
  to_grow = rw (named, granted, found)

  n-lt : n < 2 ^ 63
  n-lt = ground (arith, storage_size-Serves req.capacity_range granted)

  -- If the request names a volume that the API finds, its size is granted, and the volume's size in
  -- bytes fits an `int64`: a volume that is large enough in whole GiB is left alone, and reported
  -- with its own size; the node is told to expand, also for a block device.
  pub controller_expand_volume_large :
      n / gib ≤ size
      → controller_expand_volume c req s
        ≡ (ok (record { capacity_bytes = pos (size * gib); node_expansion_required = true }), s')
  unfolding grow ◌/ℤ◌
  controller_expand_volume_large enough = to_grow ∙ ground (arith, sized, *ℤ_of_lt size gib fits)

  -- If the request names a volume that the API finds, its size is granted, the volume's size in
  -- bytes fits an `int64`, and the update succeeds: a smaller volume is updated, in its size alone,
  -- to the whole GiB of the wanted size, and reported with these: the answer falls short of what
  -- was wanted by its remainder modulo 1 GiB. The node is told to expand unless the request is for
  -- a block device.
  pub controller_expand_volume_small :
      size < n / gib
      → (u : UpdateVolume) (s'' : c.State) → Grown v (pos (n / gib)) u
      → c.update_volume req.volume_id u s' ≡ (ok tt, s'')
      → (controller_expand_volume c req s ≡ (
        ok (record {
          capacity_bytes = pos (n / gib * gib);
          node_expansion_required = not (asks_for_block req.volume_capability);
        }),
        s'',
      ))
        × (n / gib * gib + n % gib ≡ n)
  unfolding grow ◌/ℤ◌
  controller_expand_volume_small small u s'' grown updated =
      let asked : c.update_volume req.volume_id (resized v (pos (n / gib))) s' ≡ (ok tt, s'') =
        rw (← Grown-resized v (pos (n / gib)) u grown) updated in
      (to_grow ∙ ground (arith, sized, asked, n-lt, *ℤ_of_lt (n / gib) gib), omega arith)

  -- If the update fails, so does the request.
  pub controller_expand_volume_failed :
      size < n / gib
      → (e : Error) (s'' : c.State)
      → c.update_volume req.volume_id (resized v (pos (n / gib))) s' ≡ (err e, s'')
      → controller_expand_volume c req s
        ≡ (err (status internal "cannot resize volume %s: %s"), s'')
  unfolding grow ◌/ℤ◌
  controller_expand_volume_failed small e s'' failed = to_grow ∙ ground (arith, sized, failed)
