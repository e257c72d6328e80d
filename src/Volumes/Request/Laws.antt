-- ===== src/Volumes/Request/Laws.antt =====
-- Which regions pass, when an existing volume answers a request, and what a new volume is labelled.
use csi_thalassa.Prelude.{
  String, ◌≡◌, ◌↔◌, ◌⊎◌, refl, ◌∙◌, List, [], ◌∷◌, Option, none, some, arith, ◌==◌, eq_iff, inl,
  inr, Bool-cases, if◌then◌else◌, ◌&&◌, not,
}
use csi_thalassa.Prelude.Signed.{ℤ, eqℤ, eqℤ_iff, ◌*ℤ◌}
use csi_thalassa.Prelude.Labels.{Labels, lookup, add_missing, lookup-insert, lookup-add_missing}
use csi_thalassa.Status.{status, already_exists, resource_exhausted}
use csi_thalassa.Exec.{ok, err}
use csi_thalassa.Capacity.{gib}
use csi_thalassa.Csi.{CreateVolumeRequest}
use csi_thalassa.Iaas.{Volume}
use csi_thalassa.Driver.{Driver}
use csi_thalassa.Volumes.Request.{
  check_regions, validate_create_volume_accessibility, create_volume_response_from_existing,
  driver_labels, volume_labels, insert_if_given,
}

-- A required topology names no other region.
abbrev pub Local : String → Option String → Type 0
Local region none = Unit
Local region (some r) = r ≡ region

abbrev pub AllLocal : String → List Labels → Type 0
AllLocal region [] = Unit
AllLocal region (t ∷ ts) = Local region (lookup "region" t) × AllLocal region ts

abbrev pub InRegion : String → Option (List Labels) → Type 0
InRegion region none = Unit
InRegion region (some requisite) = AllLocal region requisite

check_regions_iff :
    (region : String) (ts : List Labels) → (check_regions region ts ≡ ok tt) ↔ AllLocal region ts
unfolding check_regions
check_regions_iff region [] = ground arith
check_regions_iff region (t ∷ ts) = split (lookup "region" t) (check_regions_iff region ts)
  where
    split :
        (o : Option String)
        → ((check_regions region ts ≡ ok tt) ↔ AllLocal region ts)
        → (elim o [
          | none ↦ check_regions region ts
          | some r ↦
              if r == region
              then check_regions region ts
              else err
                  (status resource_exhausted "volume can be only created in region: %q, got: %q")
        ]
            ≡ ok tt)
          ↔ (Local region o × AllLocal region ts)
    split none ih = ground (arith, ih)
    split (some r) ih = ground (arith, ih, eq_iff r region)

lookup-insert_if_given :
    (j k v : String) (m : Labels)
    → lookup j (insert_if_given k v m) ≡ (if not (v == "") && k == j then some v else lookup j m)
lookup-insert_if_given j k v m = ground (arith, lookup-insert k j v m)

lookup-driver_labels :
    (d : Driver) (j : String)
    → lookup j (driver_labels d) ≡ (
        if "k8s.thalassa.cloud/csi-driver" == j
        then some "true"
        else if "k8s.thalassa.cloud/csi-driver-name" == j
        then some d.name
        else none)
unfolding driver_labels lookup
lookup-driver_labels d j = refl

-- Of the labels of a new volume the cluster identity, if the driver has one, comes first, then the
-- two that mark the driver, and then the custom ones, which never replace these.
pub lookup-volume_labels :
    (d : Driver) (j : String)
    → lookup j (volume_labels d) ≡ (
        if not (d.cluster_identity == "") && "k8s.thalassa.cloud/cluster-identity" == j
        then some d.cluster_identity
        else if "k8s.thalassa.cloud/csi-driver" == j
        then some "true"
        else if "k8s.thalassa.cloud/csi-driver-name" == j
        then some d.name
        else lookup j d.custom_labels)
unfolding volume_labels
lookup-volume_labels d j =
    lookup-insert_if_given j "k8s.thalassa.cloud/cluster-identity" d.cluster_identity
      (add_missing d.custom_labels (driver_labels d))
    ∙ rw (lookup-add_missing j d.custom_labels (driver_labels d), lookup-driver_labels d j)
        (ground arith)

-- A volume that is there answers a request exactly if it has the requested size, with its own
-- identity and that size; otherwise the answer is `AlreadyExists`.
pub create_volume_response_from_existing_lem :
    (v : Volume) (size : ℤ)
    → create_volume_response_from_existing v size ≡ (
        if eqℤ (v.size *ℤ gib) size
        then ok (record {
          volume_id = v.identity;
          capacity_bytes = size;
          accessible_topology = [];
          content_source = none;
        })
        else err (status already_exists "invalid option requested size: %d"))
unfolding create_volume_response_from_existing
create_volume_response_from_existing_lem v size = elim (Bool-cases (eqℤ (v.size *ℤ gib) size)) [
  | inl same ↦ rw (same, (eqℤ_iff (v.size *ℤ gib) size).0 same)
  | inr differs ↦ rw differs
]

-- The region check passes exactly if no required topology names another region than the driver's.
pub validate_create_volume_accessibility_iff :
    (req : CreateVolumeRequest) (region : String)
    → (validate_create_volume_accessibility req region ≡ ok tt) ↔ InRegion region req.requisite
unfolding validate_create_volume_accessibility
validate_create_volume_accessibility_iff req region = iff req.requisite
  where
    iff :
        (o : Option (List Labels))
        → (validate_create_volume_accessibility (record req { requisite = o }) region ≡ ok tt)
          ↔ InRegion region o
    iff none = ground arith
    iff (some requisite) = check_regions_iff region requisite

check_regions-cases :
    (region : String) (ts : List Labels)
    → (check_regions region ts ≡ ok tt)
      ⊎ ((m : String) × (check_regions region ts ≡ err (status resource_exhausted m)))
unfolding check_regions
check_regions-cases region [] = inl refl
check_regions-cases region (t ∷ ts) = split (lookup "region" t) (check_regions-cases region ts)
  where
    wrong : String
    wrong = "volume can be only created in region: %q, got: %q"

    split :
        (o : Option String)
        → (check_regions region ts ≡ ok tt)
          ⊎ ((m : String) × (check_regions region ts ≡ err (status resource_exhausted m)))
        → ((elim o [
          | none ↦ check_regions region ts
          | some r ↦
              if r == region then check_regions region ts else err (status resource_exhausted wrong)
        ])
            ≡ ok tt)
          ⊎ ((m : String) × ((elim o [
            | none ↦ check_regions region ts
            | some r ↦
                if r == region
                then check_regions region ts
                else err (status resource_exhausted wrong)
          ])
                ≡ err (status resource_exhausted m)))
    split none ih = ih
    split (some r) ih = elim (Bool-cases (r == region)) [
      | inl same ↦ rw same ih
      | inr differs ↦ rw differs (inr (wrong, refl))
    ]

pub validate_create_volume_accessibility-cases :
    (req : CreateVolumeRequest) (region : String)
    → (validate_create_volume_accessibility req region ≡ ok tt)
      ⊎ ((m : String) × (validate_create_volume_accessibility req region
            ≡ err (status resource_exhausted m)))
unfolding validate_create_volume_accessibility
validate_create_volume_accessibility-cases req region = cases req.requisite
  where
    cases :
        (o : Option (List Labels))
        → (validate_create_volume_accessibility (record req { requisite = o }) region ≡ ok tt)
          ⊎ ((m : String) × (validate_create_volume_accessibility
                  (record req { requisite = o })
                  region
                ≡ err (status resource_exhausted m)))
    cases none = inl refl
    cases (some requisite) = check_regions-cases region requisite
