-- ===== src/Snapshots/Create/Laws.antt =====
-- What CreateSnapshot writes, and what it does about a name that is taken.
use csi_thalassa.Prelude.{
  String, ◌≡◌, ◌≢◌, ◌∙◌, refl, eq_iff, arith, ◌++◌, ◌⊎◌, Bool, true, false, List, [], ◌∷◌, Option,
  none, some, ◌==◌, if◌then◌else◌, Bool-cases, inl, inr, not,
}
use csi_thalassa.Status.{Error, status, text, internal, is_status, already_exists}
use csi_thalassa.Exec.{Result, ok, err, handle, handle-ok, handle-err, fail, pure, deref, ◌>>=◌}
use csi_thalassa.Exec.Keeps.{Keeps, handle-Keeps, >>=-Keeps, if-Keeps, deref-Keeps}
use csi_thalassa.Csi.{CreateSnapshotRequest}
use csi_thalassa.Iaas.{Cloud, Snapshot}
use csi_thalassa.Iaas.Reads.{ReadsKeep}
use csi_thalassa.Driver.{Driver}
use csi_thalassa.Snapshots.Source.{
  filter_by, resolve_volume_identity, snapshot_source_volume_matches,
}
use csi_thalassa.Snapshots.Source.Laws.{
  IsSource, snapshot_source_volume_matches_iff, resolve_volume_identity-Keeps,
}
use csi_thalassa.Snapshots.Create.{
  find_named, is_not_found_status, snapshot_request, check_existing, get_or_create_snapshot,
  await_snapshot, create_snapshot,
}

module _ (c : Cloud) (P : c.State → Type 0) (reads : ReadsKeep c P) (d : Driver)
    (req : CreateSnapshotRequest) where
  check_existing-Keeps : (snap : Snapshot) → Keeps P (check_existing c d req snap)
  unfolding check_existing
  check_existing-Keeps snap =
      handle-Keeps (resolve_volume_identity c d req.source_volume_id) _ _
        (resolve_volume_identity-Keeps c P reads d req.source_volume_id)
        (λ e.
          if-Keeps P (is_not_found_status e) _ _
            (if-Keeps P (snapshot_source_volume_matches req.source_volume_id "" snap) _ _ (λ s h. h)
              (λ s h. h))
            (λ s h. h))
        (λ id.
          if-Keeps P (not (snapshot_source_volume_matches req.source_volume_id id snap)) _ _
            (λ s h. h) (λ s h. h))

  await_snapshot-Keeps : (snap : Snapshot) → Keeps P (await_snapshot c snap)
  unfolding await_snapshot
  await_snapshot-Keeps snap =
      handle-Keeps (c.wait_until_snapshot_is_available snap.identity) _ _
        (reads.wait_until_snapshot_is_available snap.identity) (λ e s h. h)
        λ _.
          handle-Keeps (c.get_snapshot snap.identity) _ _ (reads.get_snapshot snap.identity)
            (λ e s h. h) λ found. >>=-Keeps (deref found) _ (deref-Keeps P found) (λ v s h. h)

  create_snapshot-Keeps_of :
      Keeps P (get_or_create_snapshot c d req) → Keeps P (create_snapshot c d req)
  unfolding create_snapshot
  create_snapshot-Keeps_of k =
      if-Keeps P (req.name == "") _ _ (λ s h. h)
        (if-Keeps P (req.source_volume_id == "") _ _ (λ s h. h)
          (handle-Keeps (get_or_create_snapshot c d req) _ _ k
            (λ e. if-Keeps P (is_status e) _ _ (λ s h. h) (λ s h. h))
            (elim [ none ↦ λ s h. h | some snap ↦ await_snapshot-Keeps snap ])))

  -- Whatever survives the calls that read, and the creation of a snapshot with the request's name
  -- and the driver's labels, of any one volume, survives CreateSnapshot: it makes no other write.
  pub create_snapshot-Keeps :
      ((volume_identity : String)
        → Keeps P (c.create_snapshot (snapshot_request d req volume_identity)))
      → Keeps P (create_snapshot c d req)
  unfolding get_or_create_snapshot
  create_snapshot-Keeps writes = create_snapshot-Keeps_of (
      handle-Keeps (c.list_snapshots _) _ _ (reads.list_snapshots _) (λ e s h. h)
        λ l. by_name (find_named req.name l))
    where
      by_name :
          (o : Option Snapshot)
          → Keeps P (elim o [
            | some snapshot ↦ check_existing c d req snapshot
            | none ↦ do
              volume_identity ← resolve_volume_identity c d req.source_volume_id
              handle
                  (c.create_snapshot (snapshot_request d req volume_identity))
                  (λ e. fail (status internal (text e)))
                  pure
          ])
      by_name (some snap) = check_existing-Keeps snap
      by_name none =
          >>=-Keeps (resolve_volume_identity c d req.source_volume_id) _
            (resolve_volume_identity-Keeps c P reads d req.source_volume_id)
            λ id.
              handle-Keeps (c.create_snapshot (snapshot_request d req id)) _ _ (writes id)
                (λ e s h. h) (λ o s h. h)

-- The resolution of the source volume gave an identity, or found that there is no such volume.
abbrev pub is_settled : Result String → Bool
is_settled (ok id) = true
is_settled (err e) = is_not_found_status e

abbrev pub resolved_identity : Result String → String
resolved_identity (ok id) = id
resolved_identity (err e) = ""

-- None of these snapshots has the name.
abbrev pub NoneNamed : String → List Snapshot → Type 0
NoneNamed name [] = Unit
NoneNamed name (s ∷ l) = (s.name ≢ name) × NoneNamed name l

differs-false : (x y : String) → x ≢ y → (x == y) ≡ false
differs-false x y h = ground (arith, eq_iff x y)

find_named-first :
    (name : String) (snap : Snapshot) (before after : List Snapshot)
    → NoneNamed name before
    → snap.name ≡ name
    → find_named name (before ++ snap ∷ after) ≡ some snap
unfolding find_named
find_named-first name snap [] after others same = rw ((eq_iff snap.name name).1 same)
find_named-first name snap (s ∷ before) after (other, others) same =
    rw (differs-false s.name name other) (find_named-first name snap before after others same)

module _ (c : Cloud) (d : Driver) (req : CreateSnapshotRequest) (snap : Snapshot) where
  abbrev taken : Error
  taken = status already_exists "snapshot %q already exists with a different source volume"

  check_existing_lem :
      (r : Result String) (s s' : c.State)
      → resolve_volume_identity c d req.source_volume_id s ≡ (r, s')
      → is_settled r ≡ true
      → check_existing c d req snap s ≡ (
          if snapshot_source_volume_matches req.source_volume_id (resolved_identity r) snap
          then (ok (some snap), s')
          else (err taken, s'))
  unfolding check_existing
  check_existing_lem (ok id) s s' e settled =
      handle-ok (resolve_volume_identity c d req.source_volume_id) _ _ e
      ∙ elim (Bool-cases (snapshot_source_volume_matches req.source_volume_id id snap)) [
        | inl fits ↦ rw fits
        | inr differs ↦ rw differs
      ]
  check_existing_lem (err f) s s' e settled =
      handle-err (resolve_volume_identity c d req.source_volume_id) _ _ e
      ∙ rw settled
          (elim (Bool-cases (snapshot_source_volume_matches req.source_volume_id "" snap)) [
            | inl fits ↦ rw fits
            | inr differs ↦ rw differs
          ])

  get_or_create_snapshot_named :
      (l : List Snapshot) (r : Result String) (s s1 s2 : c.State)
      → c.list_snapshots (filter_by "region" d.region ∷ filter_by "name" req.name ∷ []) s
        ≡ (ok l, s1)
      → find_named req.name l ≡ some snap
      → resolve_volume_identity c d req.source_volume_id s1 ≡ (r, s2)
      → is_settled r ≡ true
      → get_or_create_snapshot c d req s ≡ (
          if snapshot_source_volume_matches req.source_volume_id (resolved_identity r) snap
          then (ok (some snap), s2)
          else (err taken, s2))
  unfolding get_or_create_snapshot
  get_or_create_snapshot_named l r s s1 s2 listed same resolved settled =
      handle-ok (c.list_snapshots _) _ _ listed
      ∙ rw same (check_existing_lem r s1 s2 resolved settled)

  create_snapshot_of :
      (b : Bool) (s s2 : c.State)
      → (req.name == "") ≡ false
      → (req.source_volume_id == "") ≡ false
      → get_or_create_snapshot c d req s ≡ (if b then (ok (some snap), s2) else (err taken, s2))
      → create_snapshot c d req s ≡ (if b then await_snapshot c snap s2 else (err taken, s2))
  unfolding create_snapshot is_status
  create_snapshot_of true s s2 named sourced e =
      rw (named, sourced) (handle-ok (get_or_create_snapshot c d req) _ _ e)
  create_snapshot_of false s s2 named sourced e =
      rw (named, sourced) (handle-err (get_or_create_snapshot c d req) _ _ e)

  -- For a request with a name and a source volume, whose resolution gives an identity or finds that
  -- there is none: if the first snapshot of the wanted name that the API lists is this one, then
  -- CreateSnapshot creates none. It waits for that snapshot if its source is the resolved volume,
  -- or, where that is gone, one that the request names, and answers `AlreadyExists` if not.
  pub create_snapshot_named :
      (before after : List Snapshot) (r : Result String) (s s1 s2 : c.State)
      → req.name ≢ ""
      → req.source_volume_id ≢ ""
      → c.list_snapshots (filter_by "region" d.region ∷ filter_by "name" req.name ∷ []) s
        ≡ (ok (before ++ snap ∷ after), s1)
      → NoneNamed req.name before
      → snap.name ≡ req.name
      → resolve_volume_identity c d req.source_volume_id s1 ≡ (r, s2)
      → is_settled r ≡ true
      → (IsSource req.source_volume_id (resolved_identity r) snap
          × (create_snapshot c d req s ≡ await_snapshot c snap s2))
        ⊎ ((¬ IsSource req.source_volume_id (resolved_identity r) snap)
            × (create_snapshot c d req s ≡ (err taken, s2)))
  create_snapshot_named before after r s s1 s2 named sourced listed others same resolved settled =
      let by_source =
        snapshot_source_volume_matches_iff req.source_volume_id (resolved_identity r) snap in
      elim (Bool-cases matches) [
        | inl h ↦ inl (by_source.0 h, outcome h)
        | inr h ↦ inr (λ fits. absurd (cc (h, by_source.1 fits)), outcome h)
      ]
    where
      matches : Bool
      matches = snapshot_source_volume_matches req.source_volume_id (resolved_identity r) snap

      outcome :
          {b : Bool}
          → snapshot_source_volume_matches req.source_volume_id (resolved_identity r) snap ≡ b
          → create_snapshot c d req s ≡ (if b then await_snapshot c snap s2 else (err taken, s2))
      outcome {b} h =
          create_snapshot_of b s s2 (differs-false req.name "" named)
            (differs-false req.source_volume_id "" sourced)
            (get_or_create_snapshot_named (before ++ snap ∷ after) r s s1 s2 listed
                (find_named-first req.name snap before after others same) resolved settled
              ∙ rw h refl)
