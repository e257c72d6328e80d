-- ===== src/Volumes/Create/Existing.antt =====
-- A request for a volume that is there already.
use csi_thalassa.Prelude.{
  ℕ, ◌%◌, ◌<◌, ◌^◌, String, ◌≡◌, refl, ◌∙◌, [], none, some, arith, eqb, if◌then◌else◌, inl, inr,
}
use csi_thalassa.Prelude.Signed.{ℤ, pos, eqℤ, ◌*ℤ◌, ◌/ℤ◌, /ℤ_*ℤ}
use csi_thalassa.Status.{status, already_exists}
use csi_thalassa.Exec.{ok, err}
use csi_thalassa.Capacity.{gib}
use csi_thalassa.Capacity.Laws.{
  Serves, required, limit, chosen, storage_size-cases, storage_size-Serves,
}
use csi_thalassa.Csi.{CreateVolumeRequest, CsiVolume}
use csi_thalassa.Iaas.{Cloud, Volume}
use csi_thalassa.Driver.{Driver}
use csi_thalassa.Volumes.Request.Laws.{create_volume_response_from_existing_lem}
use csi_thalassa.Volumes.Create.{find_or_create, create_volume, volume_identity}
use csi_thalassa.Volumes.Create.Rejected.{IsAdmissible, chosen_size, create_volume-find_or_create}

-- The answer with an existing volume.
abbrev pub existing_answer : String → ℤ → CsiVolume
existing_answer id size = record {
  volume_id = id;
  capacity_bytes = size;
  accessible_topology = [];
  content_source = none;
}

pub whole_units : (n : ℕ) → n < 2 ^ 63 → eqℤ ((pos n /ℤ gib) *ℤ gib) (pos n) ≡ eqb (n % gib) 0
whole_units n h = rw (/ℤ_*ℤ n gib h) (ground arith)

module _ (c : Cloud) (d : Driver) (req : CreateVolumeRequest) (a : IsAdmissible d req) where
  abbrev pub wanted : ℕ
  wanted = chosen (required req.capacity_range) (limit req.capacity_range)

  pub wanted-Serves : Serves (required req.capacity_range) (limit req.capacity_range) wanted
  wanted-Serves = elim (storage_size-cases req.capacity_range) [
    | inl (granted, _) ↦ (storage_size-Serves req.capacity_range granted).1
    | inr (_, _, refused) ↦ absurd (a.sized refused)
  ]

  -- For an admissible request: if the look for the volume finds one, the answer is that volume if
  -- it has the wanted size, and `AlreadyExists` if not. No other call is made.
  pub create_volume_existing :
      (s s' : c.State) (v : Volume)
      → c.get_volume (volume_identity req) s ≡ (ok (some v), s')
      → create_volume c d req s ≡ (
        if eqℤ (v.size *ℤ gib) (chosen_size c d req)
            then ok (existing_answer v.identity (chosen_size c d req))
            else err (status already_exists "invalid option requested size: %d"),
        s',
      )
  unfolding find_or_create
  create_volume_existing s s' v found =
      create_volume-find_or_create c d req a s
      ∙ rw found (rw (create_volume_response_from_existing_lem v (chosen_size c d req)) refl)

  -- For an admissible request: if the volume that the look finds has the size that CreateVolume
  -- asks the API for, in GiB, then a repeated request is answered with it only if the wanted size
  -- is a multiple of 1 GiB. Otherwise the repeated request fails.
  pub create_volume_retry :
      (s s' : c.State) (v : Volume)
      → c.get_volume (volume_identity req) s ≡ (ok (some v), s')
      → v.size ≡ (chosen_size c d req /ℤ gib)
      → create_volume c d req s ≡ (
        if eqb (wanted % gib) 0
            then ok (existing_answer v.identity (pos wanted))
            else err (status already_exists "invalid option requested size: %d"),
        s',
      )
  create_volume_retry s s' v found sized =
      create_volume_existing s s' v found
      ∙ rw (sized, whole_units wanted (omega (arith, wanted-Serves)))
