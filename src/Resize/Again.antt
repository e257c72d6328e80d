-- ===== src/Resize/Again.antt =====
-- A request to expand a volume that is repeated.
use csi_thalassa.Prelude.{
  ℕ, ◌≡◌, ◌∙◌, refl, sym, ap, ◌<◌, ◌≤◌, ◌*◌, ◌/◌, ◌^◌, true, false, arith, Option, some, ◌==◌, leb,
  Bool-cases, inl, inr,
}
use csi_thalassa.Prelude.Signed.{pos}
use csi_thalassa.Prelude.Text.{trim_space}
use csi_thalassa.Exec.{Result, ok, err}
use csi_thalassa.Capacity.{gib, get_storage_size_from_capacity_range}
use csi_thalassa.Capacity.Laws.{storage_size-Serves}
use csi_thalassa.Csi.{ExpandVolumeRequest, ExpandVolumeResponse}
use csi_thalassa.Iaas.{Cloud, Volume}
use csi_thalassa.Iaas.Store.{VolumeStore}
use csi_thalassa.Resize.{resized, controller_expand_volume}
use csi_thalassa.Resize.Laws.{
  resized-Grown, controller_expand_volume_small, controller_expand_volume_large,
  controller_expand_volume_failed,
}

module _ (c : Cloud) (store : VolumeStore c) (req : ExpandVolumeRequest) (v : Volume)
    (a : ExpandVolumeResponse) (n size : ℕ) (s s1 s2 : c.State)
    (named : (trim_space req.volume_id == "") ≡ false)
    (granted : get_storage_size_from_capacity_range req.capacity_range ≡ ok (pos n))
    (found : c.get_volume req.volume_id s ≡ (ok (some v), s1)) (sized : v.size ≡ pos size)
    (fits : size * gib < 2 ^ 63) (done : controller_expand_volume c req s ≡ (ok a, s2)) where
  -- A volume that the API has after the first request, large enough, and reported.
  abbrev Enough : Type 0
  Enough =
      (w : Volume) × (m : ℕ) × (store.volumes s2 req.volume_id ≡ some w)
      × (w.size ≡ pos m)
      × (m * gib < 2 ^ 63)
      × (n / gib ≤ m)
      × (a.capacity_bytes ≡ pos (m * gib))

  bound : n < 2 ^ 63
  bound = ground (arith, storage_size-Serves req.capacity_range granted)

  -- What the first request returned.
  returns :
      {b : ExpandVolumeResponse} {s' : c.State}
      → controller_expand_volume c req s ≡ (ok b, s')
      → (a.capacity_bytes ≡ b.capacity_bytes) × (s' ≡ s2)
  returns h =
      let same = sym done ∙ h in
      (
        cc (ap (λ (p : Result ExpandVolumeResponse × c.State). p.0) same),
        sym (ap (λ (p : Result ExpandVolumeResponse × c.State). p.1) same),
      )

  large-Enough : n / gib ≤ size → Enough
  large-Enough enough =
      let (capacity, same) = returns (
        controller_expand_volume_large c req v n size s s1 named granted found sized fits enough) in
      let there = (store.get req.volume_id (some v) s s1 found).1 in
      (
        v,
        size,
        ap (λ x. store.volumes x req.volume_id) (sym same) ∙ there,
        sized,
        fits,
        enough,
        capacity,
      )

  small-Enough :
      (r : Result (Unit {0})) (s' : c.State)
      → size < n / gib
      → c.update_volume req.volume_id (resized v (pos (n / gib))) s1 ≡ (r, s')
      → Enough
  unfolding resized
  small-Enough (ok u) s' small updated =
      let (capacity, same) =
        returns
          (controller_expand_volume_small c req v n size s s1 named granted found sized fits small
            (resized v (pos (n / gib))) s' (resized-Grown v (pos (n / gib))) updated).0 in
      let (w, (there, grown)) =
        store.update req.volume_id (resized v (pos (n / gib))) v s1 s'
          (store.get req.volume_id (some v) s s1 found).1 updated in
      (
        w,
        n / gib,
        ap (λ x. store.volumes x req.volume_id) (sym same) ∙ there,
        grown,
        omega (arith, bound),
        omega arith,
        capacity,
      )
  small-Enough (err e) s' small updated =
      let failed =
        controller_expand_volume_failed c req v n size s s1 named granted found sized fits small e
          s' updated in
      absurd (cc (ap (λ (p : Result ExpandVolumeResponse × c.State). p.0) (sym done ∙ failed)))

  first-Enough : Enough
  first-Enough = elim (Bool-cases (leb (n / gib) size)) [
    | inl h ↦ large-Enough (ground arith)
    | inr h ↦
        small-Enough (c.update_volume req.volume_id (resized v (pos (n / gib))) s1).0
          (c.update_volume req.volume_id (resized v (pos (n / gib))) s1).1 (ground arith) refl
  ]

-- On an API that keeps its volumes: if a request to expand a volume succeeds, then the same request
-- made again, of an API that answers GetVolume, makes no update, leaves the API as GetVolume left
-- it, and reports the same size; the node is told to expand, also for a block device. The volume's
-- size in bytes fits an `int64`.
pub controller_expand_volume_again :
    (c : Cloud)
    → VolumeStore c
    → (req : ExpandVolumeRequest) (v : Volume) (o : Option Volume) (a : ExpandVolumeResponse)
      (n size : ℕ) (s s1 s2 s3 : c.State)
    → (trim_space req.volume_id == "") ≡ false
    → get_storage_size_from_capacity_range req.capacity_range ≡ ok (pos n)
    → c.get_volume req.volume_id s ≡ (ok (some v), s1)
    → v.size ≡ pos size
    → size * gib < 2 ^ 63
    → controller_expand_volume c req s ≡ (ok a, s2)
    → c.get_volume req.volume_id s2 ≡ (ok o, s3)
    → controller_expand_volume c req s2
      ≡ (ok (record { capacity_bytes = a.capacity_bytes; node_expansion_required = true }), s3)
controller_expand_volume_again c store req v o a n size s s1 s2 s3 named granted found sized fits
      done answers =
    let (w, m, there, sized', fits', enough, capacity) =
      first-Enough c store req v a n size s s1 s2 named granted found sized fits done in
    rw capacity (
      controller_expand_volume_large c req w n m s2 s3 named granted
        (answers
          ∙ ap (λ (p : Option Volume). (ok p, s3))
              (sym (store.get req.volume_id o s2 s3 answers).0 ∙ there))
        sized' fits' enough)
