-- ===== src/Snapshots/Source/Laws.antt =====
-- When a snapshot counts as one of the requested volume, and how a volume's name is resolved.
use csi_thalassa.Prelude.{
  String, ◌≡◌, ◌≢◌, ◌↔◌, ◌⊎◌, true, List, [], ◌∷◌, Option, none, some, arith, eq_iff,
}
use csi_thalassa.Exec.{ok}
use csi_thalassa.Exec.Keeps.{Keeps, handle-Keeps}
use csi_thalassa.Iaas.{Cloud, Volume, Snapshot}
use csi_thalassa.Iaas.Reads.{ReadsKeep}
use csi_thalassa.Driver.{Driver}
use csi_thalassa.Snapshots.Source.{
  snapshot_source_volume_identity, snapshot_source_volume_matches, source_volume_named,
  map_to_csi_snapshot, filter_by, only_volume, resolve_volume_identity,
}

-- The snapshot carries its source volume, which has this name.
abbrev pub IsNamed : String → Option Volume → Type 0
IsNamed name none = ⊥
IsNamed name (some volume) = name ≡ volume.name

source_volume_named_iff :
    (name : String) (o : Option Volume) → (source_volume_named name o ≡ true) ↔ IsNamed name o
unfolding source_volume_named
source_volume_named_iff name none = ground arith
source_volume_named_iff name (some v) = eq_iff name v.name

-- The identity of the source volume, from the volume if the snapshot carries it; no text if it is
-- not known.
abbrev pub known_source : Option Volume → Option String → String
known_source (some v) _ = v.identity
known_source none (some id) = id
known_source none none = ""

snapshot_source_volume_identity_lem :
    (s : Snapshot)
    → snapshot_source_volume_identity s ≡ known_source s.source_volume s.source_volume_id
unfolding snapshot_source_volume_identity
snapshot_source_volume_identity_lem s = ground arith

-- The snapshot's source volume is known, and is the resolved one; if none was resolved, the request
-- names it by its identity or by its name.
abbrev pub IsSource : (requested resolved : String) → Snapshot → Type 0
IsSource requested resolved s =
    (known_source s.source_volume s.source_volume_id ≢ "")
    × (((resolved ≢ "") × (resolved ≡ known_source s.source_volume s.source_volume_id))
        ⊎ ((resolved ≡ "")
            × ((requested ≡ known_source s.source_volume s.source_volume_id)
                ⊎ IsNamed requested s.source_volume)))

-- A snapshot matches exactly if its source volume is known, and is the resolved one; if none was
-- resolved, the request may name it by its identity or by its name.
pub snapshot_source_volume_matches_iff :
    (requested resolved : String) (s : Snapshot)
    → (snapshot_source_volume_matches requested resolved s ≡ true) ↔ IsSource requested resolved s
unfolding snapshot_source_volume_matches
snapshot_source_volume_matches_iff requested resolved s = ground (
  arith,
  snapshot_source_volume_identity_lem s,
  eq_iff (snapshot_source_volume_identity s) "",
  eq_iff resolved "",
  eq_iff resolved (snapshot_source_volume_identity s),
  eq_iff requested (snapshot_source_volume_identity s),
  source_volume_named_iff requested s.source_volume,
)

-- A snapshot that carries only the identity of its source volume is passed on without it.
pub map_to_csi_snapshot_source_lost :
    (s : Snapshot) (id : String)
    → s.source_volume ≡ none
    → s.source_volume_id ≡ some id
    → (snapshot_source_volume_identity s ≡ id) × ((map_to_csi_snapshot s).source_volume_id ≡ "")
unfolding snapshot_source_volume_identity map_to_csi_snapshot
map_to_csi_snapshot_source_lost s id gone known = (rw (gone, known), rw gone)

abbrev or_by_name : List Volume → List Volume → List Volume
or_by_name [] by_name = by_name
or_by_name (v ∷ l) by_name = v ∷ l

-- A text names the one volume that the API lists under it as an identity, or else as a name: none
-- is `NotFound`, and several are `Internal`.
pub resolve_volume_identity-only_volume :
    (c : Cloud) (d : Driver) (text : String) (s s1 s2 : c.State) (by_identity by_name : List Volume)
    → c.list_volumes (filter_by "region" d.region ∷ filter_by "identity" text ∷ []) s
      ≡ (ok by_identity, s1)
    → c.list_volumes (filter_by "region" d.region ∷ filter_by "name" text ∷ []) s1
      ≡ (ok by_name, s2)
    → (resolve_volume_identity c d text s).0 ≡ only_volume (or_by_name by_identity by_name)
unfolding resolve_volume_identity
resolve_volume_identity-only_volume c d text s s1 s2 [] by_name e f = rw (e, f)
resolve_volume_identity-only_volume c d text s s1 s2 (v ∷ l) by_name e f = rw e

pub resolve_volume_identity-Keeps :
    (c : Cloud) (P : c.State → Type 0)
    → ReadsKeep c P
    → (d : Driver) (text : String) → Keeps P (resolve_volume_identity c d text)
unfolding resolve_volume_identity
resolve_volume_identity-Keeps c P reads d text =
    handle-Keeps (c.list_volumes _) _ _ (reads.list_volumes _) (λ e s h. h)
      (elim [
        | [] ↦ handle-Keeps (c.list_volumes _) _ _ (reads.list_volumes _) (λ e s h. h) (λ l s h. h)
        | v ∷ l ↦ λ s h. h
      ])
