-- ===== src/Controller/Glimpse/Looks.antt =====
-- What the answer of a call, or of a wait, tells of the last state that was seen.
use csi_thalassa.Prelude.{
  ℕ, zero, suc, String, ◌≡◌, refl, ap, sym, ◌∙◌, Bool, true, false, List, [], ◌∷◌, Option, none,
  some, if◌then◌else◌,
}
use csi_thalassa.Prelude.Text.{equal_fold}
use csi_thalassa.Status.{Error, is_not_found, wrap}
use csi_thalassa.Exec.{Result, ok, err, Exec, settle, fail, pure, deref, ◌>>=◌}
use csi_thalassa.Exec.Keeps.{Keeps}
use csi_thalassa.Iaas.{Cloud, Volume}
use csi_thalassa.Iaas.Reads.{ReadsKeep}
use csi_thalassa.Attachment.{volume_has_status}
use csi_thalassa.Controller.Replay.{poll_rounds}
use csi_thalassa.Controller.Replay.Reads.{poll_rounds-Keeps}
use csi_thalassa.Prelude.All.{All}
use csi_thalassa.Controller.Glimpse.{Glimpses, look, glimpse}

-- The error, if it is one, says that there is no such thing.
abbrev misses {ℓ} : {A : Type ℓ} → Result A → Bool
misses (ok a) = false
misses (err e) = is_not_found e

-- The last state seen answers the call with this result.
abbrev pub LastSeen : {S A : Type 0} → Exec S A → Result A → Glimpses S → Type 0
LastSeen {S} m r g = (y : S) × (p : List S) × (g.past ≡ y ∷ p) × ((m y).0 ≡ r)

module _ {S A : Type 0} (m : Exec S A) where
  seen-next :
      (past l : List S) (x : S) (r : Result A) (g' : Glimpses S)
      → look m (record { past = past; to_come = x ∷ l }) ≡ (r, g')
      → LastSeen m r g'
  unfolding look
  seen-next past l x r g' h = (
    x,
    past,
    sym (ap (λ (p : Result A × Glimpses S). p.1.past) h),
    ap (λ (p : Result A × Glimpses S). p.0) h,
  )

  pub look-ok : (g g' : Glimpses S) (a : A) → look m g ≡ (ok a, g') → LastSeen m (ok a) g'
  unfolding look
  look-ok g g' a h = at g.past g.to_come h
    where
      at :
          (past l : List S)
          → look m (record { past = past; to_come = l }) ≡ (ok a, g')
          → LastSeen m (ok a) g'
      at past [] h = absurd (cc (ap (λ (p : Result A × Glimpses S). p.0) h))
      at past (x ∷ l) h = seen-next past l x (ok a) g' h

  pub look-missing :
      (g g' : Glimpses S) (e : Error)
      → look m g ≡ (err e, g')
      → is_not_found e ≡ true
      → LastSeen m (err e) g'
  unfolding look is_not_found
  look-missing g g' e h lost = at g.past g.to_come h
    where
      at :
          (past l : List S)
          → look m (record { past = past; to_come = l }) ≡ (err e, g')
          → LastSeen m (err e) g'
      at past [] h = absurd (cc (ap (λ (p : Result A × Glimpses S). misses p.0) h ∙ lost))
      at past (x ∷ l) h = seen-next past l x (err e) g' h

-- All states, those seen and those to come, have the property.
abbrev pub AllStates : {S : Type 0} → (S → Type 0) → Glimpses S → Type 0
AllStates Q g = All Q g.past × All Q g.to_come

pub look-Keeps : {S A : Type 0} (Q : S → Type 0) (m : Exec S A) → Keeps (AllStates Q) (look m)
unfolding look
look-Keeps {S} {A} Q m g h = at g.past g.to_come h
  where
    at :
        (past l : List S)
        → All Q past × All Q l
        → AllStates Q (look m (record { past = past; to_come = l })).1
    at past [] h = h
    at past (x ∷ l) (p, q) = ((q.0, p), q.1)

pub glimpse-ReadsKeep :
    (n : ℕ) (c : Cloud) (Q : c.State → Type 0) → ReadsKeep (glimpse n c) (AllStates Q)
glimpse-ReadsKeep n c Q = record {
  get_volume = λ id. look-Keeps Q (c.get_volume id);
  list_volumes = λ l. look-Keeps Q (c.list_volumes l);
  list_volume_types = look-Keeps Q c.list_volume_types;
  get_machine = λ id. look-Keeps Q (c.get_machine id);
  list_machines = λ l. look-Keeps Q (c.list_machines l);
  get_snapshot = λ id. look-Keeps Q (c.get_snapshot id);
  list_snapshots = λ l. look-Keeps Q (c.list_snapshots l);
  wait_until_snapshot_is_available = λ id. look-Keeps Q (c.wait_until_snapshot_is_available id);
  poll = λ m k. poll_rounds-Keeps (AllStates Q) n m k;
  build_kube_config = λ k. look-Keeps Q (c.build_kube_config k);
  new_kube_client = look-Keeps Q c.new_kube_client;
  get_node_provider_id = λ node. look-Keeps Q (c.get_node_provider_id node);
}

module _ {S : Type 0} (m : Exec S Bool) where
  -- A wait that succeeds ended on a look that gave `true`.
  pub poll_rounds-ok :
      (n : ℕ) (s s' : S) → poll_rounds n m s ≡ (ok tt, s') → (s0 : S) × (m s0 ≡ (ok true, s'))
  unfolding poll_rounds
  poll_rounds-ok zero s s' h = absurd (cc (ap (λ (p : Result (Unit {0}) × S). p.0) h))
  poll_rounds-ok (suc n) s s' h = at (m s).0 refl h (poll_rounds-ok n (m s).1 s')
    where
      at :
          (r : Result Bool)
          → (m s).0 ≡ r
          → settle fail (λ b. if b then pure tt else poll_rounds n m) r (m s).1 ≡ (ok tt, s')
          → (poll_rounds n m (m s).1 ≡ (ok tt, s') → (s0 : S) × (m s0 ≡ (ok true, s')))
          → (s0 : S) × (m s0 ≡ (ok true, s'))
      at (ok true) e h later = (s, λ i. (e i, (h i).1))
      at (ok false) e h later = later h
      at (err x) e h later = absurd (cc (ap (λ (p : Result (Unit {0}) × S). p.0) h))

  -- A wait that fails for a thing that is gone ended on a look that failed for it.
  pub poll_rounds-missing :
      (n : ℕ) (s s' : S) (x : Error)
      → poll_rounds n m s ≡ (err x, s')
      → is_not_found x ≡ true
      → (s0 : S) × (m s0 ≡ (err x, s'))
  unfolding poll_rounds is_not_found
  poll_rounds-missing zero s s' x h lost =
      absurd (cc (ap (λ (p : Result (Unit {0}) × S). misses p.0) h ∙ lost))
  poll_rounds-missing (suc n) s s' x h lost =
      at (m s).0 refl h (λ h. poll_rounds-missing n (m s).1 s' x h lost)
    where
      at :
          (r : Result Bool)
          → (m s).0 ≡ r
          → settle fail (λ b. if b then pure tt else poll_rounds n m) r (m s).1 ≡ (err x, s')
          → (poll_rounds n m (m s).1 ≡ (err x, s') → (s0 : S) × (m s0 ≡ (err x, s')))
          → (s0 : S) × (m s0 ≡ (err x, s'))
      at (ok true) e h later = absurd (cc (ap (λ (p : Result (Unit {0}) × S). p.0) h))
      at (ok false) e h later = later h
      at (err y) e h later =
          let same : ◌≡◌ {A = Result Bool} (err y) (err x) =
            cc (ap (λ (p : Result (Unit {0}) × S). p.0) h) in
          (s, λ i. ((e ∙ same) i, (h i).1))

-- The look of a wait that fails for a volume that is gone.
pub volume_has_status-missing :
    (c : Cloud) (wanted id : String) (s s' : c.State) (x : Error)
    → volume_has_status c wanted id s ≡ (err x, s')
    → is_not_found x ≡ true
    → (e : Error) × (c.get_volume id s ≡ (err e, s')) × (is_not_found e ≡ true)
unfolding volume_has_status is_not_found
volume_has_status-missing c wanted id s s' x h lost = at (c.get_volume id s).0 refl h
  where
    at :
        (r : Result (Option Volume))
        → (c.get_volume id s).0 ≡ r
        → settle
            (λ e. fail (wrap "error getting volume" e))
            (λ found. do vol ← deref found; pure (equal_fold vol.status wanted))
            r
            (c.get_volume id s).1
          ≡ (err x, s')
        → (e : Error) × (c.get_volume id s ≡ (err e, s')) × (is_not_found e ≡ true)
    at (ok none) e h = absurd (cc (ap (λ (p : Result Bool × c.State). misses p.0) h ∙ lost))
    at (ok (some v)) e h = absurd (cc (ap (λ (p : Result Bool × c.State). p.0) h))
    at (err y) e h =
        (y, λ i. (e i, (h i).1), ap (λ (p : Result Bool × c.State). misses p.0) h ∙ lost)
