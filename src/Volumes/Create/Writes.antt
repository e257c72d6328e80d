-- ===== src/Volumes/Create/Writes.antt =====
-- What CreateVolume writes: nothing, or one volume that is described by the request.
use csi_thalassa.Prelude.{String, ◌≡◌, ◌≢◌, refl, Option, none, some, arith, ◌==◌, eq_iff, inl, inr}
use csi_thalassa.Prelude.Signed.{ℤ}
use csi_thalassa.Status.{is_not_found}
use csi_thalassa.Exec.{handle, lift, deref}
use csi_thalassa.Exec.Keeps.{
  Keeps, Returns, handle-Keeps, >>=-Keeps, >>=-Keeps_Returns, deref-Keeps, if-Keeps,
}
use csi_thalassa.Csi.{CreateVolumeRequest, ContentSource, snapshot, other_source}
use csi_thalassa.Iaas.{Cloud, CreateVolume}
use csi_thalassa.Iaas.Reads.{ReadsKeep}
use csi_thalassa.Driver.{Driver}
use csi_thalassa.VolumeType.{get_volume_type_by_filters}
use csi_thalassa.Volumes.Request.{build_create_volume_request, value_at}
use csi_thalassa.Volumes.Create.{
  resolve_volume_type_identity, apply_snapshot_restore, create_new_volume, find_or_create,
  create_volume, volume_identity, wanted_type, type_filters,
}
use csi_thalassa.Volumes.Create.Rejected.{chosen_size, outcome}

-- The snapshot that a content source names.
abbrev pub restore_id : Option ContentSource → Option String
restore_id (some (snapshot id)) = some id
restore_id _ = none

-- The one request for a volume, up to the identity of its type.
abbrev pub requested : Driver → CreateVolumeRequest → ℤ → String → CreateVolume
requested d req size type_identity =
    record (build_create_volume_request d req req.name size type_identity) {
      restore_from_snapshot_id = restore_id req.volume_content_source;
    }

module _ (c : Cloud) (P : c.State → Type 0) (reads : ReadsKeep c P) where
  pub resolve-Keeps : (param : String) → Keeps P (resolve_volume_type_identity c param)
  unfolding resolve_volume_type_identity
  resolve-Keeps param =
      handle-Keeps c.list_volume_types _ _ reads.list_volume_types (λ e s h. h)
        λ types.
          handle-Keeps (lift (get_volume_type_by_filters types (type_filters (wanted_type param))))
            _ _ (λ s h. h) (λ e s h. h) λ id. if-Keeps P (id == "") _ _ (λ s h. h) (λ s h. h)

resolve-Returns :
    (c : Cloud) (param : String) → Returns (λ id. id ≢ "") (resolve_volume_type_identity c param)
unfolding resolve_volume_type_identity
resolve-Returns c param s id h = ground (arith, eq_iff id "")

pub apply-Returns :
    (c : Cloud) (source : Option ContentSource) (r : CreateVolume)
    → r.restore_from_snapshot_id ≡ none
    → Returns
        (λ r'. r' ≡ record r { restore_from_snapshot_id = restore_id source })
        (apply_snapshot_restore c source r)
unfolding apply_snapshot_restore
apply-Returns c none r fresh s r' h = ground arith
apply-Returns c (some other_source) r fresh s r' h = ground arith
apply-Returns c (some (snapshot id)) r fresh s r' h = ground arith

module _ (c : Cloud) (P : c.State → Type 0) (reads : ReadsKeep c P) where
  pub apply-Keeps :
      (source : Option ContentSource) (r : CreateVolume)
      → Keeps P (apply_snapshot_restore c source r)
  unfolding apply_snapshot_restore
  apply-Keeps none r = λ s h. h
  apply-Keeps (some other_source) r = λ s h. h
  apply-Keeps (some (snapshot id)) r =
      if-Keeps P (id == "") _ _ (λ s h. h)
        (handle-Keeps (c.get_snapshot id) _ _ (reads.get_snapshot id) (λ e s h. h) (λ _ s h. h))

  module _ (d : Driver) (req : CreateVolumeRequest) where
    create_new_volume-Keeps :
        (size : ℤ)
        → ((type_identity : String)
            → type_identity ≢ ""
            → Keeps P (c.create_volume (requested d req size type_identity)))
        → Keeps P (create_new_volume c d req size)
    unfolding create_new_volume build_create_volume_request
    create_new_volume-Keeps size writes =
        >>=-Keeps_Returns (λ id. id ≢ "") (resolve_volume_type_identity c param) _
          (resolve-Keeps c P reads param) (resolve-Returns c param)
          λ id named.
            >>=-Keeps_Returns (λ r. r ≡ requested d req size id)
              (apply_snapshot_restore c req.volume_content_source
                (build_create_volume_request d req req.name size id))
              _ (apply-Keeps req.volume_content_source _)
              (apply-Returns c req.volume_content_source
                (build_create_volume_request d req req.name size id) refl)
              λ r e.
                >>=-Keeps (handle (c.create_volume r) _ _) _
                  (handle-Keeps (c.create_volume r) _ _ (rw e (writes id named)) (λ e' s h. h)
                    (λ _ s h. h))
                  λ created. >>=-Keeps (deref created) _ (deref-Keeps P created) (λ v s h. h)
      where
        param : String
        param = value_at "volume-type" req.parameters

    find_or_create-Keeps :
        (size : ℤ)
        → Keeps P (create_new_volume c d req size)
        → Keeps P (find_or_create c d req size)
    unfolding find_or_create
    find_or_create-Keeps size news =
        handle-Keeps (c.get_volume (volume_identity req)) _ _
          (reads.get_volume (volume_identity req))
          (λ e. if-Keeps P (is_not_found e) _ _ news (λ s h. h))
          (elim [ none ↦ news | some v ↦ λ s h. h ])

    -- Whatever survives the calls that read, and the creation of the requested volume, with any
    -- type, survives CreateVolume: it makes no other write, whether it returns or fails.
    pub create_volume-Keeps :
        ((type_identity : String)
          → type_identity ≢ ""
          → Keeps P (c.create_volume (requested d req (chosen_size c d req) type_identity)))
        → Keeps P (create_volume c d req)
    create_volume-Keeps writes s h = elim (outcome c d req s) [
      | inl (_, e) ↦ rw e (
          find_or_create-Keeps (chosen_size c d req)
            (create_new_volume-Keeps (chosen_size c d req) writes) s h)
      | inr (_, same, _) ↦ rw same h
    ]
