-- ===== src/Controller/Tree.antt =====
-- A handler as the tree of its calls: what it does next for each answer that it may get.
pub mod Operations
pub mod Volumes
pub mod Snapshots
pub mod Attachment
pub mod Serve
use csi_thalassa.Prelude.{
  ℕ, zero, suc, ◌+◌, ◌*◌, ◌≤◌, ◌≡◌, refl, sym, ◌∙◌, Bool, true, false, Option, none, some, arith,
  if◌then◌else◌,
}
use csi_thalassa.Status.{Error, plain, panic}
use csi_thalassa.Exec.{Result, ok, err, Exec, pure, fail, lift, deref, settle, handle, ◌>>=◌}
use csi_thalassa.Iaas.{Cloud}
use csi_thalassa.Controller.Calls.{Call, Reply, perform}
use csi_thalassa.Controller.Replay.{given, poll_rounds}

pub data Tree (A : Type 0) : Type 0 where
  ret : Result A → Tree A
  call : Call → (Reply → Tree A) → Tree A

-- The tree makes at most so many calls.
abbrev pub Within : {A : Type 0} → ℕ → Tree A → Type 0
Within n (ret r) = Unit
Within zero (call k f) = ⊥
Within (suc n) (call k f) = (r : Reply) → Within n (f r)

unfoldable pub interpret : {A : Type 0} (c : Cloud) → Tree A → Exec c.State A
interpret c (ret r) s = (r, s)
interpret c (call k f) s = let (r, s') = perform c k s in interpret c (f r) s'

-- One tree after another.
graft : {A B : Type 0} → Tree A → (Result A → Tree B) → Tree B
graft (ret r) g = g r
graft (call k f) g = call k (λ r. graft (f r) g)

-- The waits of this API last for so many calls of their condition.
abbrev pub PollsFor : ℕ → Cloud → Type 0
PollsFor n c = (m : Exec c.State Bool) (s : c.State) → c.poll m s ≡ poll_rounds n m s

-- The handler is the same tree of at most so many calls over every such API.
pub record IsTree (rounds bound : ℕ) {A : Type 0} (m : (c : Cloud) → Exec c.State A) : Type 1 where
  pub tree : Tree A
  pub within : Within bound tree
  pub same : (c : Cloud) → PollsFor rounds c → (s : c.State) → m c s ≡ interpret c tree s

Within-mono : {A : Type 0} (m n : ℕ) (t : Tree A) → m ≤ n → Within m t → Within n t
Within-mono m n (ret r) h w = tt
Within-mono zero n (call k f) h w = absurd w
Within-mono (suc m) zero (call k f) h w = absurd (omega arith)
Within-mono (suc m) (suc n) (call k f) h w = λ r. Within-mono m n (f r) (omega arith) (w r)

module _ {A B : Type 0} where
  graft-Within :
      (m n : ℕ) (t : Tree A) (g : Result A → Tree B)
      → Within m t
      → ((r : Result A) → Within n (g r))
      → Within (m + n) (graft t g)
  unfolding graft
  graft-Within m n (ret r) g w k = Within-mono n (m + n) (g r) (omega arith) (k r)
  graft-Within zero n (call k f) g w h = absurd w
  graft-Within (suc m) n (call k f) g w h =
      Within-mono (suc (m + n)) (suc m + n) (call k (λ r. graft (f r) g)) (omega arith)
        (λ r. graft-Within m n (f r) g (w r) h)

  interpret-graft :
      (c : Cloud) (t : Tree A) (g : Result A → Tree B) (s : c.State)
      → interpret c (graft t g) s ≡ (let (r, s') = interpret c t s in interpret c (g r) s')
  unfolding graft interpret
  interpret-graft c (ret r) g s = refl
  interpret-graft c (call k f) g s = interpret-graft c (f (perform c k s).0) g (perform c k s).1

module _ {rounds : ℕ} {A : Type 0} where
  pub lift-IsTree : {bound : ℕ} {r : Result A} → IsTree rounds bound (λ c. lift r)
  unfolding interpret
  lift-IsTree {r} = record { tree = ret r; within = tt; same = λ c p s. refl }

  pub deref-IsTree : (bound : ℕ) (o : Option A) → IsTree rounds bound (λ c. deref o)
  unfolding interpret
  deref-IsTree bound none = record { tree = ret (err panic); within = tt; same = λ c p s. refl }
  deref-IsTree bound (some a) = record { tree = ret (ok a); within = tt; same = λ c p s. refl }

  pub if-IsTree :
      (bound : ℕ) (b : Bool) (m n : (c : Cloud) → Exec c.State A)
      → IsTree rounds bound m
      → IsTree rounds bound n
      → IsTree rounds bound (λ c. if b then m c else n c)
  if-IsTree bound true m n tm tn = tm
  if-IsTree bound false m n tm tn = tn

  pub ask-IsTree :
      (bound : ℕ) (k : Call) (to : Reply → Option (Result A)) (m : (c : Cloud) → Exec c.State A)
      → 1 ≤ bound
      → ((c : Cloud) (s : c.State) → m c s ≡ (given (to (perform c k s).0), (perform c k s).1))
      → IsTree rounds bound m
  unfolding interpret
  ask-IsTree bound k to m h e = record {
    tree = call k (λ r. ret (given (to r)));
    within = Within-mono 1 bound (call k (λ r. ret (given (to r)))) h (λ r. tt);
    same = λ c p s. e c s;
  }

module _ {rounds : ℕ} {A B : Type 0} where
  -- What follows a call, for either of its outcomes.
  after :
      {n : ℕ} {g : (c : Cloud) → Error → Exec c.State B} {f : (c : Cloud) → A → Exec c.State B}
      → ((e : Error) → IsTree rounds n (λ c. g c e))
      → ((a : A) → IsTree rounds n (λ c. f c a))
      → (r : Result A) → IsTree rounds n (λ c. settle (g c) (f c) r)
  after kg kf (ok a) = kf a
  after kg kf (err e) = kg e

  pub handle-IsTree :
      (m n : ℕ) (h : (c : Cloud) → Exec c.State A) (g : (c : Cloud) → Error → Exec c.State B)
      (f : (c : Cloud) → A → Exec c.State B)
      → IsTree rounds m h
      → ((e : Error) → IsTree rounds n (λ c. g c e))
      → ((a : A) → IsTree rounds n (λ c. f c a))
      → IsTree rounds (m + n) (λ c. handle (h c) (g c) (f c))
  handle-IsTree m n h g f t kg kf = record {
    tree = graft t.tree (λ r. (after kg kf r).tree);
    within =
        graft-Within m n t.tree (λ r. (after kg kf r).tree) t.within (λ r. (after kg kf r).within);
    same = λ c p s. rw (t.same c p s) (
        (after kg kf (interpret c t.tree s).0).same c p (interpret c t.tree s).1
        ∙ sym (interpret-graft c t.tree (λ r. (after kg kf r).tree) s));
  }

  pub >>=-IsTree :
      (m n : ℕ) (h : (c : Cloud) → Exec c.State A) (f : (c : Cloud) → A → Exec c.State B)
      → IsTree rounds m h
      → ((a : A) → IsTree rounds n (λ c. f c a))
      → IsTree rounds (m + n) (λ c. h c >>= f c)
  >>=-IsTree m n h f t kf = handle-IsTree m n h (λ c. fail) f t (λ e. lift-IsTree) kf

pub IsTree-mono :
    {rounds : ℕ} {A : Type 0} (m n : ℕ) (h : (c : Cloud) → Exec c.State A)
    → m ≤ n
    → IsTree rounds m h
    → IsTree rounds n h
IsTree-mono m n h le t = record {
  tree = t.tree;
  within = Within-mono m n t.tree le t.within;
  same = t.same;
}

-- One call, and what follows it.
module _ {rounds n : ℕ} {A B : Type 0} where
  pub step-IsTree :
      (h : (c : Cloud) → Exec c.State A) (g : (c : Cloud) → Error → Exec c.State B)
      (f : (c : Cloud) → A → Exec c.State B)
      → IsTree rounds 1 h
      → ((e : Error) → IsTree rounds n (λ c. g c e))
      → ((a : A) → IsTree rounds n (λ c. f c a))
      → IsTree rounds (suc n) (λ c. handle (h c) (g c) (f c))
  step-IsTree h g f t kg kf =
      IsTree-mono (1 + n) (suc n) (λ c. handle (h c) (g c) (f c)) (omega arith)
        (handle-IsTree 1 n h g f t kg kf)

  -- No call, and what follows it.
  pub skip-IsTree :
      (r : Result A) (f : (c : Cloud) → A → Exec c.State B)
      → ((a : A) → IsTree rounds n (λ c. f c a))
      → IsTree rounds n (λ c. lift r >>= f c)
  skip-IsTree (ok a) f k = k a
  skip-IsTree (err e) f k = lift-IsTree

  pub skip_handle-IsTree :
      (r : Result A) (g : (c : Cloud) → Error → Exec c.State B)
      (f : (c : Cloud) → A → Exec c.State B)
      → ((e : Error) → IsTree rounds n (λ c. g c e))
      → ((a : A) → IsTree rounds n (λ c. f c a))
      → IsTree rounds n (λ c. handle (lift r) (g c) (f c))
  skip_handle-IsTree (ok a) g f kg kf = kf a
  skip_handle-IsTree (err e) g f kg kf = kg e

  pub deref->>=-IsTree :
      (o : Option A) (f : (c : Cloud) → A → Exec c.State B)
      → ((a : A) → IsTree rounds n (λ c. f c a))
      → IsTree rounds n (λ c. deref o >>= f c)
  deref->>=-IsTree none f k = lift-IsTree
  deref->>=-IsTree (some a) f k = k a

pub ruleset tree_rules =
    (step-IsTree, skip-IsTree, skip_handle-IsTree, deref->>=-IsTree, lift-IsTree, if-IsTree)

poll_rounds-IsTree :
    {rounds : ℕ} (bound n : ℕ) (m : (c : Cloud) → Exec c.State Bool)
    → IsTree rounds bound m
    → IsTree rounds (n * bound) (λ c. poll_rounds n (m c))
unfolding poll_rounds
poll_rounds-IsTree bound zero m t = lift-IsTree
poll_rounds-IsTree bound (suc n) m t =
    IsTree-mono (bound + n * bound) (suc n * bound) (λ c. poll_rounds (suc n) (m c)) (grind arith)
      (handle-IsTree bound (n * bound) m (λ c. fail)
        (λ c is_done. if is_done then pure tt else poll_rounds n (m c)) t (λ e. lift-IsTree)
        λ b. if-IsTree (n * bound) b _ _ lift-IsTree (poll_rounds-IsTree bound n m t))

poll-IsTree :
    {rounds : ℕ} (bound : ℕ) (m : (c : Cloud) → Exec c.State Bool)
    → IsTree rounds bound m
    → IsTree rounds (rounds * bound) (λ c. c.poll (m c))
poll-IsTree {rounds} bound m t =
    let p = poll_rounds-IsTree bound rounds m t in
    record {
      tree = p.tree;
      within = p.within;
      same = λ c polls s. polls (m c) s ∙ p.same c polls s;
    }

-- A wait, and what follows it without a call.
pub wait-IsTree :
    {rounds : ℕ} {B : Type 0} (m : (c : Cloud) → Exec c.State Bool)
    (g : (c : Cloud) → Error → Exec c.State B) (f : (c : Cloud) → Unit {0} → Exec c.State B)
    → IsTree rounds 1 m
    → ((e : Error) → IsTree rounds 0 (λ c. g c e))
    → ((u : Unit {0}) → IsTree rounds 0 (λ c. f c u))
    → IsTree rounds rounds (λ c. handle (c.poll (m c)) (g c) (f c))
wait-IsTree {rounds} m g f t kg kf =
    IsTree-mono (rounds * 1 + 0) rounds (λ c. handle (c.poll (m c)) (g c) (f c)) (omega arith)
      (handle-IsTree (rounds * 1) 0 (λ c. c.poll (m c)) g f (poll-IsTree 1 m t) kg kf)

-- A call whose value is only put into a response.
pub answer-IsTree :
    {rounds : ℕ} {A B : Type 0} {h : (c : Cloud) → Exec c.State A} (n : ℕ) (f : A → B)
    → IsTree rounds n h
    → IsTree rounds n (λ c. h c >>= λ a. pure (f a))
answer-IsTree {h = h} n f t =
    IsTree-mono (n + 0) n (λ c. h c >>= λ a. pure (f a)) (omega arith)
      (>>=-IsTree n 0 h (λ c a. pure (f a)) t (λ a. lift-IsTree))
