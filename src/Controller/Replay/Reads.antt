-- ===== src/Controller/Replay/Reads.antt =====
-- What holds of the call that a request waits for.
use csi_thalassa.Prelude.{ℕ, zero, suc, ◌≡◌, refl, ap, ◌∙◌, Bool, List, [], ◌∷◌, Option, none, some}
use csi_thalassa.Prelude.All.{All}
use csi_thalassa.Exec.{Result, ok, err, Exec, fail}
use csi_thalassa.Exec.Keeps.{Keeps, handle-Keeps, if-Keeps}
use csi_thalassa.Iaas.Reads.{ReadsKeep}
use csi_thalassa.Controller.Calls.{Read, Write, Call, read, write, Reply, perform_write}
use csi_thalassa.Controller.Replay.{Replay, given, ask, poll_rounds, replay}

-- `Q` holds of the call, if there is one.
abbrev pub Waiting : (Call → Type 0) → Option Call → Type 0
Waiting Q none = Unit
Waiting Q (some k) = Q k

-- `Q` holds of the call that waits, and `R` of the answers that are still to be given.
abbrev pub AsksOnly : (Call → Type 0) → (Reply → Type 0) → Replay → Type 0
AsksOnly Q R t = Waiting Q t.asks × All R t.replies

module _ (Q : Call → Type 0) (R : Reply → Type 0) where
  module _ {A : Type 0} (to : Reply → Option (Result A)) (k : Call) where
    pub ask-Keeps : Q k → Keeps (AsksOnly Q R) (ask to k)
    unfolding ask
    ask-Keeps q t h = waits t.asks t.replies h
      where
        waits :
            (asks : Option Call) (replies : List Reply)
            → Waiting Q asks × All R replies
            → AsksOnly Q R (ask to k (record { replies = replies; asks = asks })).1
        waits (some first) l h = h
        waits none [] h = (q, tt)
        waits none (r ∷ l) h = (tt, h.1.1)

    -- What a call gives, it takes from an answer.
    pub ask-told :
        (T : A → Type 0)
        → ((r : Reply) (a : A) → R r → to r ≡ some (ok a) → T a)
        → (t : Replay) (a : A) → AsksOnly Q R t
        → (ask to k t).0 ≡ ok a
        → T a
    unfolding ask
    ask-told T tells t a h e = at t.asks t.replies h e
      where
        taken : (r : Reply) (o : Option (Result A)) → R r → to r ≡ o → given o ≡ ok a → T a
        taken r (some (ok b)) x same e = tells r a x (same ∙ ap some e)
        taken r (some (err f)) x same e = absurd (cc e)
        taken r none x same e = absurd (cc e)

        at :
            (asks : Option Call) (replies : List Reply)
            → Waiting Q asks × All R replies
            → (ask to k (record { replies = replies; asks = asks })).0 ≡ ok a
            → T a
        at (some first) l h e = absurd (cc e)
        at none [] h e = absurd (cc e)
        at none (r ∷ l) h e = taken r (to r) h.1.0 refl e

pub poll_rounds-Keeps :
    {S : Type 0} (P : S → Type 0) (n : ℕ) (m : Exec S Bool) → Keeps P m → Keeps P (poll_rounds n m)
unfolding poll_rounds
poll_rounds-Keeps P zero m km = λ s h. h
poll_rounds-Keeps P (suc n) m km =
    handle-Keeps m fail _ km (λ e s h. h)
      λ b. if-Keeps P b _ _ (λ s h. h) (poll_rounds-Keeps P n m km)

-- A request that only reads asks only for reads.
pub replay-ReadsKeep :
    (Q : Call → Type 0) (R : Reply → Type 0) (rounds : ℕ)
    → ((r : Read) → Q (read r))
    → ReadsKeep (replay rounds) (AsksOnly Q R)
replay-ReadsKeep Q R rounds q = record {
  get_volume = λ id. ask-Keeps Q R _ _ (q (Read.get_volume id));
  list_volumes = λ l. ask-Keeps Q R _ _ (q (Read.list_volumes l));
  list_volume_types = ask-Keeps Q R _ _ (q Read.list_volume_types);
  get_machine = λ id. ask-Keeps Q R _ _ (q (Read.get_machine id));
  list_machines = λ l. ask-Keeps Q R _ _ (q (Read.list_machines l));
  get_snapshot = λ id. ask-Keeps Q R _ _ (q (Read.get_snapshot id));
  list_snapshots = λ l. ask-Keeps Q R _ _ (q (Read.list_snapshots l));
  wait_until_snapshot_is_available =
      λ id. ask-Keeps Q R _ _ (q (Read.wait_until_snapshot_is_available id));
  poll = λ m k. poll_rounds-Keeps (AsksOnly Q R) rounds m k;
  build_kube_config = λ k. ask-Keeps Q R _ _ (q (Read.build_kube_config k));
  new_kube_client = ask-Keeps Q R _ _ (q Read.new_kube_client);
  get_node_provider_id = λ node. ask-Keeps Q R _ _ (q (Read.get_node_provider_id node));
}

-- A call that makes this write asks for it.
pub replay-perform_write :
    (Q : Call → Type 0) (R : Reply → Type 0) (rounds : ℕ) (w : Write)
    → Q (write w)
    → (t : Replay) → AsksOnly Q R t
    → AsksOnly Q R (perform_write (replay rounds) w t).1
replay-perform_write Q R rounds (Write.create_volume r) q = ask-Keeps Q R _ _ q
replay-perform_write Q R rounds (Write.update_volume id u) q = ask-Keeps Q R _ _ q
replay-perform_write Q R rounds (Write.delete_volume id) q = ask-Keeps Q R _ _ q
replay-perform_write Q R rounds (Write.attach_volume id r) q = ask-Keeps Q R _ _ q
replay-perform_write Q R rounds (Write.detach_volume id r) q = ask-Keeps Q R _ _ q
replay-perform_write Q R rounds (Write.create_snapshot r) q = ask-Keeps Q R _ _ q
replay-perform_write Q R rounds (Write.delete_snapshot id) q = ask-Keeps Q R _ _ q
