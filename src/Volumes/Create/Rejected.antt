-- ===== src/Volumes/Create/Rejected.antt =====
-- Which requests CreateVolume turns down before it talks to the API.
use csi_thalassa.Prelude.{
  ◌≡◌, ap, ◌≢◌, Bool, true, false, [], ◌==◌, eq_iff, inl, inr, Bool-cases, ◌⊎◌,
}
use csi_thalassa.Prelude.Signed.{ℤ, pos}
use csi_thalassa.Status.{status, invalid_argument, out_of_range, resource_exhausted}
use csi_thalassa.Exec.{Result, ok, err}
use csi_thalassa.Capacity.Laws.{Refused, required, limit, chosen, storage_size-cases}
use csi_thalassa.Csi.{CreateVolumeRequest, CsiVolume}
use csi_thalassa.Iaas.{Cloud}
use csi_thalassa.Driver.{Driver}
use csi_thalassa.Capabilities.{validate_capabilities, is_empty}
use csi_thalassa.Capabilities.Laws.{AllSupported, validate_capabilities_iff, is_empty_iff}
use csi_thalassa.Volumes.Request.Laws.{
  InRegion, validate_create_volume_accessibility_iff, validate_create_volume_accessibility-cases,
}
use csi_thalassa.Volumes.Create.{find_or_create, create_volume}

-- What a request for a volume has to satisfy.
pub record IsAdmissible (d : Driver) (req : CreateVolumeRequest) : Type 0 where
  pub named : req.name ≢ ""
  pub capable : req.volume_capabilities ≢ []
  pub supported : AllSupported req.volume_capabilities
  pub sized : ¬ Refused (required req.capacity_range) (limit req.capacity_range)
  pub local : InRegion d.region req.requisite

-- The answer is a status with one of the codes for bad requests.
abbrev pub is_refusal {ℓ} : {A : Type ℓ} → Result A → Bool
is_refusal (err (status invalid_argument m)) = true
is_refusal (err (status out_of_range m)) = true
is_refusal (err (status resource_exhausted m)) = true
is_refusal _ = false

module _ (c : Cloud) (d : Driver) (req : CreateVolumeRequest) where
  abbrev pub chosen_size : ℤ
  chosen_size = pos (chosen (required req.capacity_range) (limit req.capacity_range))

  -- What CreateVolume does about a request is settled by its parts.
  abbrev pub Outcome : Type 0
  Outcome =
      (s : c.State)
      → (IsAdmissible d req × (create_volume c d req s ≡ find_or_create c d req chosen_size s))
        ⊎ ((¬ IsAdmissible d req)
            × ((create_volume c d req s).1 ≡ s)
            × (is_refusal (create_volume c d req s).0 ≡ true))

  pub outcome : Outcome
  unfolding create_volume
  outcome s = elim (Bool-cases (req.name == "")) [
    | inl unnamed ↦ inr (λ a. a.named ((eq_iff req.name "").0 unnamed), rw unnamed, rw unnamed)
    | inr named ↦ elim (Bool-cases (is_empty req.volume_capabilities)) [
      | inl incapable ↦ inr (
        λ a. a.capable ((is_empty_iff req.volume_capabilities).0 incapable),
        rw (named, incapable),
        rw (named, incapable),
      )
      | inr capable ↦ elim (Bool-cases (is_empty (validate_capabilities req.volume_capabilities))) [
        | inr violated ↦ inr (
          λ a. cc (
            violated,
            (is_empty_iff (validate_capabilities req.volume_capabilities)).1
                ((validate_capabilities_iff req.volume_capabilities).1 a.supported),
          ),
          rw (named, capable, violated),
          rw (named, capable, violated),
        )
        | inl supported ↦ elim (storage_size-cases req.capacity_range) [
          | inr (e, refused, why) ↦ inr (
            λ a. a.sized why,
            rw (named, capable, supported, refused),
            rw (named, capable, supported, refused),
          )
          | inl (granted, sized) ↦ elim (validate_create_volume_accessibility-cases req d.region) [
            | inr (m, foreign) ↦ inr (
              λ a. cc (foreign, (validate_create_volume_accessibility_iff req d.region).1 a.local),
              rw (named, capable, supported, granted, foreign),
              rw (named, capable, supported, granted, foreign),
            )
            | inl local ↦ inl (
              record {
                named = λ e. cc (named, (eq_iff req.name "").1 e);
                capable = λ e. cc (capable, (is_empty_iff req.volume_capabilities).1 e);
                supported =
                    (validate_capabilities_iff req.volume_capabilities).0
                      ((is_empty_iff (validate_capabilities req.volume_capabilities)).0 supported);
                sized = sized;
                local = (validate_create_volume_accessibility_iff req d.region).0 local;
              },
              rw (named, capable, supported, granted, local),
            )
          ]
        ]
      ]
    ]
  ]

  -- An admissible request goes on to the look for an
  -- existing volume, with the chosen size.
  pub create_volume-find_or_create :
      IsAdmissible d req
      → (s : c.State) → create_volume c d req s ≡ find_or_create c d req chosen_size s
  create_volume-find_or_create a s = elim (outcome s) [
    | inl (_, e) ↦ e
    | inr (bad, _, _) ↦ absurd (bad a)
  ]

  -- A request that is not admissible is refused with `InvalidArgument`, `OutOfRange` or
  -- `ResourceExhausted`, and no call is made.
  pub create_volume_refused :
      ¬ IsAdmissible d req
      → (s : c.State)
      → ((create_volume c d req s).1 ≡ s) × (is_refusal (create_volume c d req s).0 ≡ true)
  create_volume_refused bad s = elim (outcome s) [
    | inl (a, _) ↦ absurd (bad a)
    | inr (_, same, refused) ↦ (same, refused)
  ]

  -- A request that succeeds was admissible.
  pub create_volume_ok :
      (s : c.State) {v : CsiVolume} → (create_volume c d req s).0 ≡ ok v → IsAdmissible d req
  create_volume_ok s h = elim (outcome s) [
    | inl (a, _) ↦ a
    | inr (_, _, refused) ↦ cc (refused, ap is_refusal h)
  ]
