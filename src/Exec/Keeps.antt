-- ===== src/Exec/Keeps.antt =====
-- Invariants of calls, whether they return or fail.
use csi_thalassa.Prelude.{
  ◌≡◌, refl, ap, ◌⊎◌, inl, inr, Bool, true, false, Option, none, some, if◌then◌else◌,
}
use mathlib.Core.Path.{subst}
use csi_thalassa.Status.{Error}
use csi_thalassa.Exec.{Result, ok, err, Exec, settle, handle, ◌>>=◌, deref, fail}

abbrev pub Keeps {ℓ} : {S : Type 0} {A : Type ℓ} → (S → Type 0) → Exec S A → Type 0
Keeps P m = (s : _) → P s → P (m s).1

-- What a call returns with, if it does not fail.
abbrev pub Returns {ℓ} : {S : Type 0} {A : Type ℓ} → (A → Type 0) → Exec S A → Type ℓ
Returns Q m = (s : _) (a : _) → (m s).0 ≡ ok a → Q a

-- The state that a call has left.
pub Keeps-after {ℓ} :
    {S : Type 0} {A : Type ℓ} (P : S → Type 0) (m : Exec S A) {s s' : S} {r : Result A}
    → Keeps P m
    → P s
    → m s ≡ (r, s')
    → P s'
Keeps-after {S = S} {A = A} P m {s} k p e = subst P (ap (λ (q : Result A × S). q.1) e) (k s p)

module _ {ℓ κ} {S : Type 0} {A : Type ℓ} {B : Type κ} {P : S → Type 0} where
  settle-Keeps :
      (g : Error → Exec S B) (f : A → Exec S B) (r : Result A)
      → ((e : Error) → Keeps P (g e))
      → ((a : A) → Keeps P (f a))
      → Keeps P (settle g f r)
  settle-Keeps g f (ok a) kg kf = kf a
  settle-Keeps g f (err e) kg kf = kg e

  pub handle-Keeps :
      (m : Exec S A) (g : Error → Exec S B) (f : A → Exec S B)
      → Keeps P m
      → ((e : Error) → Keeps P (g e))
      → ((a : A) → Keeps P (f a))
      → Keeps P (handle m g f)
  handle-Keeps m g f km kg kf s h = settle-Keeps g f (m s).0 kg kf (m s).1 (km s h)

  pub >>=-Keeps :
      (m : Exec S A) (f : A → Exec S B) → Keeps P m → ((a : A) → Keeps P (f a)) → Keeps P (m >>= f)
  >>=-Keeps m f km kf = handle-Keeps m fail f km (λ e s h. h) kf

  -- The rest of a block may use what its first call returns with.
  pub >>=-Keeps_Returns :
      (Q : A → Type 0) (m : Exec S A) (f : A → Exec S B)
      → Keeps P m
      → Returns Q m
      → ((a : A) → Q a → Keeps P (f a))
      → Keeps P (m >>= f)
  >>=-Keeps_Returns Q m f km rm kf s h = rest (m s).0 refl
    where
      rest : (r : Result A) → (m s).0 ≡ r → P (settle fail f r (m s).1).1
      rest (ok a) e = kf a (rm s a e) (m s).1 (km s h)
      rest (err e) _ = km s h

module _ {ℓ} {S : Type 0} {A : Type ℓ} (P : S → Type 0) where
  pub deref-Keeps : (o : Option A) → Keeps P (deref o)
  deref-Keeps none s h = h
  deref-Keeps (some a) s h = h

  pub if-Keeps : (b : Bool) (m n : Exec S A) → Keeps P m → Keeps P n → Keeps P (if b then m else n)
  if-Keeps true m n km kn = km
  if-Keeps false m n km kn = kn

-- What comes after a call may use what it tells where `P` holds, and an error may be anything.
pub handle-Keeps_told {ℓ κ} :
    {S : Type 0} {A : Type ℓ} {B : Type κ} (P : S → Type 0) (Q : A → Type 0) (m : Exec S A)
    (g : Error → Exec S B) (f : A → Exec S B)
    → Keeps P m
    → ((s : S) (a : A) → P s → (m s).0 ≡ ok a → Q a)
    → ((e : Error) → Keeps P (g e))
    → ((a : A) → Q a → Keeps P (f a))
    → Keeps P (handle m g f)
handle-Keeps_told {S = S} {A = A} P Q m g f km tells kg kf s h = rest (m s).0 refl
  where
    rest : (r : Result A) → (m s).0 ≡ r → P (settle g f r (m s).1).1
    rest (ok a) e = kf a (tells s a h e) (m s).1 (km s h)
    rest (err x) e = kg x (m s).1 (km s h)

-- Each branch may use the test.
pub if-Keeps_tested {ℓ} :
    {S : Type 0} {A : Type ℓ} (P : S → Type 0) (b : Bool) (m n : Exec S A)
    → (b ≡ true → Keeps P m)
    → (b ≡ false → Keeps P n)
    → Keeps P (if b then m else n)
if-Keeps_tested P true m n km kn = km refl
if-Keeps_tested P false m n km kn = kn refl

-- What survives in either of two cases.
pub Keeps-or {ℓ} :
    {S : Type 0} {A : Type ℓ} (P Q : S → Type 0) (m : Exec S A)
    → Keeps P m
    → Keeps Q m
    → Keeps (λ s. P s ⊎ Q s) m
Keeps-or P Q m kp kq s (inl p) = inl (kp s p)
Keeps-or P Q m kp kq s (inr q) = inr (kq s q)
