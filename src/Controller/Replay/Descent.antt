-- ===== src/Controller/Replay/Descent.antt =====
-- A request in progress stands in its tree where its answers have led it.
use mathlib.Core.Path.{subst}
use csi_thalassa.Prelude.{
  ℕ, zero, suc, ◌≤◌, ◌≡◌, refl, ap, ◌∙◌, List, [], ◌∷◌, ◌++◌, Option, none, some, length, arith,
}
use csi_thalassa.Exec.{Result}
use csi_thalassa.Iaas.{Cloud}
use csi_thalassa.Controller.Calls.{Read, Write, Call, read, write, Reply, perform}
use csi_thalassa.Controller.Replay.{Replay, ask, replay}
use csi_thalassa.Controller.Tree.{Tree, ret, call, Within, interpret}

abbrev pub started : List Reply → Replay
started l = record { replies = l; asks = none }

abbrev waiting : Call → List Reply → Replay
waiting k l = record { replies = l; asks = some k }

-- The answer is of the kind of the call.
abbrev pub Fits : Call → Reply → Type 0
Fits k r = (n : ℕ) (l : List Reply) → perform (replay n) k (started (r ∷ l)) ≡ (r, started l)

-- What an API answers is of the kind of the call.
perform_read-Fits : (c : Cloud) (q : Read) (s : c.State) → Fits (read q) (perform c (read q) s).0
unfolding perform ask
perform_read-Fits c (Read.get_volume id) s n l = refl
perform_read-Fits c (Read.list_volumes q) s n l = refl
perform_read-Fits c Read.list_volume_types s n l = refl
perform_read-Fits c (Read.get_machine id) s n l = refl
perform_read-Fits c (Read.list_machines q) s n l = refl
perform_read-Fits c (Read.get_snapshot id) s n l = refl
perform_read-Fits c (Read.list_snapshots q) s n l = refl
perform_read-Fits c (Read.wait_until_snapshot_is_available id) s n l = refl
perform_read-Fits c (Read.list_regions q) s n l = refl
perform_read-Fits c (Read.build_kube_config k) s n l = refl
perform_read-Fits c Read.new_kube_client s n l = refl
perform_read-Fits c (Read.get_node_provider_id node) s n l = refl

perform_write-Fits :
    (c : Cloud) (w : Write) (s : c.State) → Fits (write w) (perform c (write w) s).0
unfolding perform ask
perform_write-Fits c (Write.create_volume r) s n l = refl
perform_write-Fits c (Write.update_volume id u) s n l = refl
perform_write-Fits c (Write.delete_volume id) s n l = refl
perform_write-Fits c (Write.attach_volume id r) s n l = refl
perform_write-Fits c (Write.detach_volume id r) s n l = refl
perform_write-Fits c (Write.create_snapshot r) s n l = refl
perform_write-Fits c (Write.delete_snapshot id) s n l = refl

pub perform-Fits : (c : Cloud) (k : Call) (s : c.State) → Fits k (perform c k s).0
perform-Fits c (read r) s = perform_read-Fits c r s
perform-Fits c (write w) s = perform_write-Fits c w s

-- After a call that waits nothing happens.
perform-waiting :
    (n : ℕ) (k first : Call) → (perform (replay n) k (waiting first [])).1 ≡ waiting first []
unfolding perform ask
perform-waiting n (read (Read.get_volume id)) first = refl
perform-waiting n (read _) first = refl
perform-waiting n (write (Write.create_volume id)) first = refl
perform-waiting n (write _) first = refl

-- Without an answer the call waits.
perform-asks : (n : ℕ) (k : Call) → (perform (replay n) k (started [])).1 ≡ waiting k []
unfolding perform ask
perform-asks n (read (Read.get_volume id)) = refl
perform-asks n (read _) = refl
perform-asks n (write (Write.create_volume id)) = refl
perform-asks n (write _) = refl

module _ {A : Type 0} where
  -- Where the answers lead.
  unfoldable pub descend : Tree A → List Reply → Tree A
  descend (ret x) l = ret x
  descend (call k f) [] = call k f
  descend (call k f) (r ∷ l) = descend (f r) l

  -- Each answer is for the call that is made then.
  abbrev pub AllFit : Tree A → List Reply → Type 0
  AllFit t [] = Unit
  AllFit (ret x) (r ∷ l) = ⊥
  AllFit (call k f) (r ∷ l) = Fits k r × AllFit (f r) l

  abbrev pub head_call : Tree A → Option Call
  head_call (ret x) = none
  head_call (call k f) = some k

  interpret-waiting :
      (n : ℕ) (t : Tree A) (k : Call) → (interpret (replay n) t (waiting k [])).1 ≡ waiting k []
  unfolding interpret
  interpret-waiting n (ret x) k = refl
  interpret-waiting n (call k' f) k =
      rw (interpret, perform-waiting n k' k)
        (interpret-waiting n (f (perform (replay n) k' (waiting k [])).0) k)

  -- A replay stops where the answers lead: at the next call, or with a result.
  pub replay-head_call :
      (n : ℕ) (t : Tree A) (l : List Reply)
      → AllFit t l
      → (interpret (replay n) t (started l)).1
        ≡ record { replies = []; asks = head_call (descend t l) }
  unfolding interpret descend
  replay-head_call n (ret x) [] h = refl
  replay-head_call n (ret x) (r ∷ l) h = absurd h
  replay-head_call n (call k f) [] h =
      rw (interpret, perform-asks n k)
        (interpret-waiting n (f (perform (replay n) k (started [])).0) k)
  replay-head_call n (call k f) (r ∷ l) (fit, h) =
      rw (interpret, fit n l) (replay-head_call n (f r) l h)

  pub replay-result :
      (n : ℕ) (t : Tree A) (l : List Reply) (x : Result A)
      → AllFit t l
      → descend t l ≡ ret x
      → (interpret (replay n) t (started l)).0 ≡ x
  unfolding interpret descend
  replay-result n (ret y) [] x h e = ground (arith, e)
  replay-result n (ret y) (r ∷ l) x h e = absurd h
  replay-result n (call k f) [] x h e = absurd (cc)
  replay-result n (call k f) (r ∷ l) x (fit, h) e =
      rw (interpret, fit n l) (replay-result n (f r) l x h e)

  after : Tree A → Reply → Tree A
  after (ret x) r = ret x
  after (call k f) r = f r

  pub descend-nil : (t : Tree A) → descend t [] ≡ t
  unfolding descend
  descend-nil (ret x) = refl
  descend-nil (call k f) = refl

  -- One more answer leads one call further.
  module _ (k : Call) (f : Reply → Tree A) (r : Reply) where
    pub descend-append :
        (t : Tree A) (l : List Reply) → descend t l ≡ call k f → descend t (l ++ r ∷ []) ≡ f r
    unfolding descend after
    descend-append (ret x) l e = absurd (cc)
    descend-append (call k' f') [] e = descend-nil (f' r) ∙ ap (λ (t : Tree A). after t r) e
    descend-append (call k' f') (r' ∷ l) e = descend-append (f' r') l e

    pub AllFit-append :
        (t : Tree A) (l : List Reply)
        → Fits k r
        → descend t l ≡ call k f
        → AllFit t l
        → AllFit t (l ++ r ∷ [])
    unfolding descend
    AllFit-append (ret x) l fit e h = absurd (cc)
    AllFit-append (call k' f') [] fit e h = (subst (λ k. Fits k r) (cc) fit, tt)
    AllFit-append (call k' f') (r' ∷ l) fit e h = (h.0, AllFit-append (f' r') l fit e h.1)

  -- As many answers as calls lead to a result.
  pub descend-ret :
      (n : ℕ) (t : Tree A) (l : List Reply)
      → Within n t
      → AllFit t l
      → n ≤ length l
      → (x : Result A) × (descend t l ≡ ret x)
  unfolding descend
  descend-ret n (ret x) l w h le = (x, refl)
  descend-ret zero (call k f) [] w h le = absurd w
  descend-ret (suc n) (call k f) [] w h le = absurd (omega arith)
  descend-ret zero (call k f) (r ∷ l) w h le = absurd w
  descend-ret (suc n) (call k f) (r ∷ l) w h le = descend-ret n (f r) l (w r) h.1 (omega arith)

  -- No more answers than calls.
  pub length-le : (n : ℕ) (t : Tree A) (l : List Reply) → Within n t → AllFit t l → length l ≤ n
  length-le n t [] w h = omega arith
  length-le n (ret x) (r ∷ l) w h = absurd h
  length-le zero (call k f) (r ∷ l) w h = absurd w
  length-le (suc n) (call k f) (r ∷ l) w h = omega (arith, length-le n (f r) l (w r) h.1)
