-- ===== src/Exec.antt =====
-- Go's `(value, error)` results, and calls that also move the state of what they talk to. The
-- state comes back beside an error too: what was done before it stays done.
pub mod Keeps
pub mod Ensures
use csi_thalassa.Prelude.{◌≡◌, ap, arith, Bool, true, false, Option, none, some}
use csi_thalassa.Status.{Error, panic}

pub data Result {ℓ} (A : Type ℓ) : Type ℓ where
  ok : A → Result A
  err : Error → Result A

abbrev pub failed {ℓ} : {A : Type ℓ} → Result A → Bool
failed (ok a) = false
failed (err e) = true

-- One call against a state `S`.
abbrev pub Exec {ℓ} : Type 0 → Type ℓ → Type ℓ
Exec S A = S → Result A × S

module _ {ℓ} {S : Type 0} {A : Type ℓ} where
  abbrev pub pure : A → Exec S A
  pure a s = (ok a, s)

  abbrev pub fail : Error → Exec S A
  fail e s = (err e, s)

  abbrev pub lift : Result A → Exec S A
  lift r s = (r, s)

  -- The use of a pointer, which panics on nil.
  abbrev pub deref : Option A → Exec S A
  deref none s = (err panic, s)
  deref (some a) s = (ok a, s)

module _ {ℓ κ} {S : Type 0} {A : Type ℓ} {B : Type κ} where
  -- `a, err := m(); if err != nil { … }`, with what follows as the last argument
  abbrev pub settle : (Error → Exec S B) → (A → Exec S B) → Result A → Exec S B
  settle g f (ok a) s = f a s
  settle g f (err e) s = g e s

  abbrev pub handle : Exec S A → (Error → Exec S B) → (A → Exec S B) → Exec S B
  handle m g f s = let (r, s') = m s in settle g f r s'

  infixl 10 ◌>>=◌
  abbrev pub ◌>>=◌ : Exec S A → (A → Exec S B) → Exec S B
  ◌>>=◌ m f s = let (r, s') = m s in settle fail f r s'

  infixl 10 ◌>>◌
  abbrev pub ◌>>◌ : Exec S A → Exec S B → Exec S B
  ◌>>◌ m n s = let (r, s') = m s in settle fail (λ _. n) r s'

  -- A call whose outcome is known goes on from it.
  pub handle-ok :
      (m : Exec S A) (g : Error → Exec S B) (f : A → Exec S B) {s s' : S} {a : A}
      → m s ≡ (ok a, s')
      → handle m g f s ≡ f a s'
  handle-ok m g f e = ap (λ (r : Result A × S). settle g f r.0 r.1) e

  pub handle-err :
      (m : Exec S A) (g : Error → Exec S B) (f : A → Exec S B) {s s' : S} {e : Error}
      → m s ≡ (err e, s')
      → handle m g f s ≡ g e s'
  handle-err m g f e = ap (λ (r : Result A × S). settle g f r.0 r.1) e

-- A call whose errors are only put in other words succeeds as the call does.
pub reworded-ok {ℓ} :
    {S : Type 0} {A : Type ℓ} (m : Exec S A) (g : Error → Error) (s : S) {a : A} {s' : S}
    → handle m (λ e. fail (g e)) pure s ≡ (ok a, s')
    → m s ≡ (ok a, s')
reworded-ok {S = S} {A = A} m g s {a = a} {s' = s'} h = of (m s) h
  where
    of : (r : Result A × S) → settle (λ e. fail (g e)) pure r.0 r.1 ≡ (ok a, s') → r ≡ (ok a, s')
    of (ok b, t) h = h
    of (err e, t) h = ground arith
