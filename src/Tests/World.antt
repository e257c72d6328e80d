-- ===== src/Tests/World.antt =====
-- An API in memory: what it holds, and its answers.
use Prim.Native.String.{count}
use text.Mathlib.TextLemmas.{length-append, length-cons}
use csi_thalassa.Prelude.{
  ℕ, String, ◌≡◌, ◌≢◌, ◌≤◌, ◌<◌, refl, sym, ◌∙◌, eq_refl, eq_iff, Bool-cases, inl, inr, ap, Bool,
  true, false, not, List, [], ◌∷◌, Option, none, some, ◌==◌, ◌<>◌, ◌&&◌, arith, if◌then◌else◌,
}
use csi_thalassa.Prelude.Signed.{pos}
use csi_thalassa.Status.{Error, api, plain}
use csi_thalassa.Exec.{Result, ok, err}
use csi_thalassa.Csi.{
  AccessMode, AccessType, VolumeCapability, CreateVolumeRequest, CreateSnapshotRequest,
  ControllerPublishRequest,
}
use csi_thalassa.Capacity.{CapacityRange}
use csi_thalassa.Iaas.{
  Cloud, Volume, VolumeAttachment, VolumeType, Snapshot, Machine, Filter, CreateVolume,
  UpdateVolume, CreateSnapshot,
}
use csi_thalassa.Iaas.Reads.{ReadsKeep}
use csi_thalassa.Iaas.Store.{VolumeStore, NewVolumes}
use csi_thalassa.Driver.{Driver}
use csi_thalassa.Attachment.Laws.{PollIsSound}

pub record World : Type 0 where
  pub volumes : List Volume
  pub snapshots : List Snapshot
  pub machines : List Machine

abbrev absent : Error
absent = api true "not found"

abbrev pub find {ℓ} : {A : Type ℓ} → (A → Bool) → List A → Option A
find f [] = none
find f (x ∷ l) = if f x then some x else find f l

abbrev pub found {ℓ} : {A : Type ℓ} → Option A → Result (Option A)
found none = err absent
found (some x) = ok (some x)

abbrev pub filter {ℓ} : {A : Type ℓ} → (A → Bool) → List A → List A
filter f [] = []
filter f (x ∷ l) = let rest = filter f l in if f x then x ∷ rest else rest

abbrev passes : List Filter → String → String → Bool
passes [] identity name = true
passes (f ∷ l) identity name =
    let rest = passes l identity name in
    if f.key == "identity"
    then f.value == identity && rest
    else if f.key == "name"
    then f.value == name && rest
    else rest

abbrev pub set_volume : String → (Volume → Volume) → List Volume → List Volume
set_volume id f [] = []
set_volume id f (v ∷ l) =
    let rest = set_volume id f l in if v.identity == id then f v ∷ rest else v ∷ rest

-- A text that is longer than every identity.
abbrev pub new_identity : List Volume → String
new_identity [] = "v"
new_identity (v ∷ l) = v.identity <> new_identity l

abbrev pub new_volume : String → CreateVolume → Volume
new_volume id r = record {
  identity = id;
  name = r.name;
  description = r.description;
  status = "available";
  labels = r.labels;
  annotations = r.annotations;
  attachments = [];
  size = r.size;
  delete_protection = false;
}

abbrev new_snapshot : CreateSnapshot → Snapshot
new_snapshot r = record {
  identity = r.name;
  name = r.name;
  source_volume_id = some r.volume_identity;
  source_volume = none;
  size_gb = none;
  status = "available";
  created_at = 7;
}

abbrev pub updated : UpdateVolume → Volume → Volume
updated u v = record v {
  name = u.name;
  description = u.description;
  labels = u.labels;
  annotations = u.annotations;
  size = u.size;
  delete_protection = u.delete_protection;
}

abbrev block_type : VolumeType
block_type = record { identity = "type-1"; name = "Block" }

-- A poll that asks once.
abbrev polled : Result Bool → Result (Unit {0})
polled (ok true) = ok tt
polled (ok false) = err (plain "context deadline exceeded")
polled (err e) = err e

abbrev pub memory : Cloud
memory = record {
  State = World;
  get_volume = λ id w. (found (find (λ v. v.identity == id) w.volumes), w);
  list_volumes = λ l w. (ok (filter (λ v. passes l v.identity v.name) w.volumes), w);
  create_volume = λ r w. (
    ok (some (new_volume (new_identity w.volumes) r)),
    record w { volumes = new_volume (new_identity w.volumes) r ∷ w.volumes },
  );
  update_volume = λ id u w. (ok tt, record w { volumes = set_volume id (updated u) w.volumes });
  delete_volume =
      λ id w. (ok tt, record w { volumes = filter (λ v. not (v.identity == id)) w.volumes });
  attach_volume = λ id r w. (
    ok tt,
    record w {
      volumes =
          set_volume id
            (λ v. record v {
              status = "attached";
              attachments = record { attached_to_identity = r.resource_identity } ∷ [];
            })
            w.volumes;
    },
  );
  detach_volume = λ id r w. (
    ok tt,
    record w {
      volumes = set_volume id (λ v. record v { status = "Available"; attachments = [] }) w.volumes;
    },
  );
  list_volume_types = λ w. (ok (block_type ∷ []), w);
  get_machine = λ id w. (err absent, w);
  list_machines = λ l w. (ok w.machines, w);
  get_snapshot = λ id w. (found (find (λ s. s.identity == id) w.snapshots), w);
  list_snapshots = λ l w. (ok (filter (λ s. passes l s.identity s.name) w.snapshots), w);
  create_snapshot =
      λ r w. (ok (some (new_snapshot r)), record w { snapshots = new_snapshot r ∷ w.snapshots });
  delete_snapshot =
      λ id w. (ok tt, record w { snapshots = filter (λ s. not (s.identity == id)) w.snapshots });
  wait_until_snapshot_is_available = λ id w. (ok tt, w);
  list_regions = λ l w. (ok tt, w);
  poll = λ m w. (polled (m w).0, (m w).1);
  build_kube_config = λ k w. (ok tt, w);
  new_kube_client = λ w. (ok tt, w);
  get_node_provider_id = λ n w. (ok "thalassa://vm-1", w);
}

pub memory-ReadsKeep : (P : World → Type 0) → ReadsKeep memory P
memory-ReadsKeep P = record {
  get_volume = λ _ s h. h;
  list_volumes = λ _ s h. h;
  list_volume_types = λ s h. h;
  get_machine = λ _ s h. h;
  list_machines = λ _ s h. h;
  get_snapshot = λ _ s h. h;
  list_snapshots = λ _ s h. h;
  wait_until_snapshot_is_available = λ _ s h. h;
  poll = λ m k s h. k s h;
  build_kube_config = λ _ s h. h;
  new_kube_client = λ s h. h;
  get_node_provider_id = λ _ s h. h;
}

pub found-some :
    (f o : Option Volume) (w w' : World)
    → ◌≡◌ {A = Result (Option Volume) × World} (found f, w) (ok o, w')
    → (f ≡ o) × (w ≡ w')
found-some none o w w' h = ground arith
found-some (some v) o w w' h = ground arith

abbrev pub find_volume : World → String → Option Volume
find_volume w id = find (λ v. v.identity == id) w.volumes

if-some-true :
    (b : Bool) (u v : Volume) (o : Option Volume)
    → b ≡ true
    → (if b then some u else o) ≡ some v
    → u ≡ v
if-some-true b u v o e h = ground arith

if-some-false :
    (b : Bool) (u v : Volume) (o : Option Volume)
    → b ≡ false
    → (if b then some u else o) ≡ some v
    → o ≡ some v
if-some-false b u v o e h = ground arith

set-found :
    (id : String) (r : UpdateVolume) (v : Volume) (l : List Volume)
    → find (λ u. u.identity == id) l ≡ some v
    → find (λ u. u.identity == id) (set_volume id (updated r) l) ≡ some (updated r v)
set-found id r v [] h = ground arith
set-found id r v (u ∷ l) h = elim (Bool-cases (u.identity == id)) [
  | inl same ↦
      rw (same, same) (ap (λ (x : Volume). some (updated r x)) (if-some-true _ u v _ same h))
  | inr other ↦ rw (other, other) (set-found id r v l (if-some-false _ u v _ other h))
]

pub updated-found :
    (id : String) (req : UpdateVolume) (v : Volume) (w w' : World)
    → find_volume w id ≡ some v
    → memory.update_volume id req w ≡ (ok tt, w')
    → find_volume w' id ≡ some (updated req v)
updated-found id req v w w' there h = rw (← state) (set-found id req v w.volumes there)
  where
    state : record w { volumes = set_volume id (updated req) w.volumes } ≡ w'
    state = ap (λ (r : Result (Unit {0}) × World). r.1) h

-- The API in memory keeps its volumes by their identities.
unfoldable pub memory-VolumeStore : VolumeStore memory
memory-VolumeStore = record {
  volumes = find_volume;
  get = λ id o w w' h.
      let (there, same) = found-some (find_volume w id) o w w' h in
      (there, ap (λ (x : World). find_volume x id) (sym same) ∙ there);
  update = λ id req v w w' there h.
      (updated req v, (updated-found id req v w w' there h, λ i. req.size));
}

is_longer-absent :
    (id : String) (l : List Volume)
    → count (new_identity l) ≤ count id
    → find (λ v. v.identity == id) l ≡ none
is_longer-absent id [] h = refl
is_longer-absent id (v ∷ l) h = elim (Bool-cases (v.identity == id)) [
  | inl same ↦ absurd (
      omega (
        arith,
        length-append v.identity (new_identity l),
        ap count ((eq_iff v.identity id).0 same),
        new_identity-positive l,
      ))
  | inr other ↦
      rw other (is_longer-absent id l (omega (arith, length-append v.identity (new_identity l))))
]
  where
    new_identity-positive : (l : List Volume) → 0 < count (new_identity l)
    new_identity-positive [] = omega (arith, length-cons "v" "")
    new_identity-positive (u ∷ l) =
        omega (arith, length-append u.identity (new_identity l), new_identity-positive l)

module _ (req : CreateVolume) (v : Volume) (w w' : World)
    (h : memory.create_volume req w ≡ (ok (some v), w')) where
  created-answer : new_volume (new_identity w.volumes) req ≡ v
  created-answer = cc (ap (λ (r : Result (Option Volume) × World). r.0) h)

  created-world : record w { volumes = v ∷ w.volumes } ≡ w'
  created-world =
      ap (λ (u : Volume). record w { volumes = u ∷ w.volumes }) (sym created-answer)
      ∙ ap (λ (r : Result (Option Volume) × World). r.1) h

  created-other : (id : String) → id ≢ v.identity → find_volume w' id ≡ find_volume w id
  created-other id other = rw (← created-world) (elim (Bool-cases (v.identity == id)) [
    | inl same ↦ absurd (other (sym ((eq_iff v.identity id).0 same)))
    | inr differs ↦ rw differs
  ])

-- It gives every volume a new identity.
pub memory-NewVolumes : NewVolumes memory memory-VolumeStore
unfolding memory-VolumeStore
memory-NewVolumes = record {
  reads = λ id o. memory-ReadsKeep (λ w. find_volume w id ≡ o);
  is_new = λ req v w w' h.
      rw (← created-answer req v w w' h)
        (is_longer-absent (new_identity w.volumes) w.volumes (omega arith));
  stored = λ req v w w' h. rw (← created-world req v w w' h) (rw (eq_refl v.identity));
  as_asked = λ req v w w' h. rw (← created-answer req v w w' h) (refl, refl);
  others = λ req v w w' id h other. created-other req v w w' h id other;
}

polled-ok :
    (r : Result Bool) (w s' : World)
    → ◌≡◌ {A = Result (Unit {0}) × World} (polled r, w) (ok tt, s')
    → ◌≡◌ {A = Result Bool × World} (r, w) (ok true, s')
polled-ok (ok true) w s' h = ap (λ (p : Result (Unit {0}) × World). (ok true, p.1)) h
polled-ok (ok false) w s' h = ground arith
polled-ok (err e) w s' h = ground arith

pub memory-PollIsSound : PollIsSound memory
memory-PollIsSound m s s' h = (s, polled-ok (m s).0 (m s).1 s' h)

abbrev pub driver : Driver
driver = record {
  name = "csi.k8s.thalassa.cloud";
  publish_info_volume_name = "csi.k8s.thalassa.cloud/volume-name";
  endpoint = "unix:///csi.sock";
  debug_addr = "";
  region = "nl-1";
  node_id = "node-1";
  default_volumes_page_size = 2;
  validate_attachment = false;
  vpc = "vpc-1";
  cluster_identity = "cluster-1";
  project_id = "";
  http_srv = false;
  ready = true;
  volume_limit = 16;
  kube_config = "";
  custom_labels = ("team", "storage") ∷ ("k8s.thalassa.cloud/csi-driver", "false") ∷ [];
  custom_annotations = [];
}

abbrev pub volume : String → ℕ → List VolumeAttachment → Volume
volume id size attachments = record {
  identity = id;
  name = "pvc-" <> id;
  description = "";
  status = "available";
  labels = [];
  annotations = [];
  attachments = attachments;
  size = pos size;
  delete_protection = false;
}

abbrev pub machine : Machine
machine = record { identity = "vm-1"; name = "node-1"; slug = "node-1-slug" }

abbrev pub snapshot : String → Snapshot
snapshot id = record {
  identity = id;
  name = id;
  source_volume_id = some "vol-1";
  source_volume = none;
  size_gb = some (pos 4);
  status = "available";
  created_at = 7;
}

abbrev pub world : World
world = record {
  volumes = volume "vol-2" 4 [] ∷ volume "vol-1" 8 [] ∷ [];
  snapshots = snapshot "snap-2" ∷ snapshot "snap-1" ∷ [];
  machines = machine ∷ [];
}

abbrev pub capability : VolumeCapability
capability = record { access_mode = AccessMode.single_node_writer; access_type = AccessType.block }

abbrev pub range : ℕ → ℕ → Option CapacityRange
range req lim = some (record { required_bytes = pos req; limit_bytes = pos lim })

abbrev pub volume_request : String → Option CapacityRange → CreateVolumeRequest
volume_request name r = record {
  name = name;
  volume_capabilities = capability ∷ [];
  capacity_range = r;
  requisite = none;
  parameters = [];
  volume_content_source = none;
}

abbrev pub snapshot_request : String → CreateSnapshotRequest
snapshot_request name = record { name = name; source_volume_id = "vol-1" }

abbrev pub publish_request : ControllerPublishRequest
publish_request = record {
  volume_id = "vol-1";
  node_id = "node-1";
  volume_capability = some capability;
  readonly = false;
}
