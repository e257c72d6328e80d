-- ===== src/Exec/Ensures.antt =====
-- What holds when a call returns without an error.
use csi_thalassa.Prelude.{◌≡◌, refl, ap, Bool, true, false, if◌then◌else◌}
use mathlib.Core.Path.{subst}
use csi_thalassa.Status.{Error}
use csi_thalassa.Exec.{Result, ok, err, Exec, settle, handle}

-- If the call returned a value, `Q` holds of it and of the state it left.
abbrev pub Ensures {ℓ} : {S : Type 0} {A : Type ℓ} → (A → S → Type 0) → Result A × S → Type 0
Ensures Q (ok a, s) = Q a s
Ensures Q (err e, s) = Unit {0}

-- The same of a result by itself.
abbrev pub OnSuccess {ℓ} : {A : Type ℓ} → (A → Type 0) → Result A → Type 0
OnSuccess Q (ok a) = Q a
OnSuccess Q (err e) = Unit {0}

pub on_success {ℓ} :
    {A : Type ℓ} (Q : A → Type 0) (r : Result A) → ((a : A) → r ≡ ok a → Q a) → OnSuccess Q r
on_success Q (ok a) f = f a refl
on_success Q (err e) f = tt

module _ {ℓ κ} {S : Type 0} {A : Type ℓ} {B : Type κ} (Q : B → S → Type 0) where
  settle-Ensures :
      (g : Error → Exec S B) (f : A → Exec S B) (r : Result A) (s : S)
      → ((e : Error) → r ≡ err e → Ensures Q (g e s))
      → ((a : A) → r ≡ ok a → Ensures Q (f a s))
      → Ensures Q (settle g f r s)
  settle-Ensures g f (ok a) s kg kf = kf a refl
  settle-Ensures g f (err e) s kg kf = kg e refl

  -- The outcome of a call with a handler of its errors, from those of both branches.
  pub handle-Ensures :
      (m : Exec S A) (g : Error → Exec S B) (f : A → Exec S B) (s : S)
      → ((e : Error) (s' : S) → m s ≡ (err e, s') → Ensures Q (g e s'))
      → ((a : A) (s' : S) → m s ≡ (ok a, s') → Ensures Q (f a s'))
      → Ensures Q (handle m g f s)
  handle-Ensures m g f s kg kf =
      settle-Ensures g f (m s).0 (m s).1
        (λ e h. kg e (m s).1 (ap (λ (r : Result A). (r, (m s).1)) h))
        (λ a h. kf a (m s).1 (ap (λ (r : Result A). (r, (m s).1)) h))

module _ {κ} {S : Type 0} {B : Type κ} (Q : B → S → Type 0) where
  pub if-Ensures :
      (b : Bool) (m n : Exec S B) (s : S)
      → (b ≡ true → Ensures Q (m s))
      → (b ≡ false → Ensures Q (n s))
      → Ensures Q ((if b then m else n) s)
  if-Ensures true m n s km kn = km refl
  if-Ensures false m n s km kn = kn refl

  pub ensured : (r : Result B × S) (b : B) (s : S) → r ≡ (ok b, s) → Ensures Q r → Q b s
  ensured r b s e q = subst (Ensures Q) e q

pub Ensures-weaken {κ} :
    {S : Type 0} {B : Type κ} (Q R : B → S → Type 0) (r : Result B × S)
    → ((b : B) (s : S) → Q b s → R b s)
    → Ensures Q r
    → Ensures R r
Ensures-weaken Q R (ok b, s) f q = f b s q
Ensures-weaken Q R (err e, s) f q = tt

-- What a call keeps holds when it returns.
pub Ensures-of_Keeps {ℓ} :
    {S : Type 0} {B : Type ℓ} (P : S → Type 0) (r : Result B × S) → P r.1 → Ensures (λ _. P) r
Ensures-of_Keeps P (ok b, s) p = p
Ensures-of_Keeps P (err e, s) p = tt
