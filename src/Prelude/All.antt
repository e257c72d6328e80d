-- ===== src/Prelude/All.antt =====
-- A property of all elements of a list.
use Prim.Native.Nat.{ℕ, zero, suc}
use mathlib.Core.Path.{◌≡◌}
use mathlib.Core.Option.{some}
use mathlib.Core.List.{List, [], ◌∷◌, ◌++◌}
use native.Mathlib.Omega.{arith}
use csi_thalassa.Prelude.Lists.{get_elem?, set}

abbrev pub All {ℓ κ} : {A : Type ℓ} → (A → Type κ) → List A → Type κ
All P [] = Unit
All P (x ∷ l) = P x × All P l

module _ {A : Type 0} (P : A → Type 0) where
  pub All-get_elem? : (l : List A) (i : ℕ) {x : A} → All P l → get_elem? l i ≡ some x → P x
  All-get_elem? [] i h e = absurd (cc)
  All-get_elem? (y ∷ l) zero h e = ground (arith, h.0)
  All-get_elem? (y ∷ l) (suc i) h e = All-get_elem? l i h.1 e

  pub All-append : (l : List A) {x : A} → All P l → P x → All P (l ++ x ∷ [])
  All-append [] h p = (p, tt)
  All-append (y ∷ l) h p = (h.0, All-append l h.1 p)

  pub All-set : (l : List A) (i : ℕ) {x : A} → All P l → P x → All P (set l i x)
  All-set [] i h p = tt
  All-set (y ∷ l) zero h p = (p, h.1)
  All-set (y ∷ l) (suc i) h p = (h.0, All-set l i h.1 p)
