-- ===== src/Controller/Glimpse/States.antt =====
-- The states that a request has seen.
use mathlib.Core.Path.{subst}
use csi_thalassa.Prelude.{◌≡◌, ◌⊎◌, inl, inr, refl, List, [], ◌∷◌}
use csi_thalassa.Exec.{Result, Exec}
use csi_thalassa.Prelude.All.{All}
use csi_thalassa.Controller.Glimpse.{Glimpses}
use csi_thalassa.Controller.Glimpse.Looks.{LastSeen}

-- One of the states.
abbrev pub Among : {S : Type 0} → S → List S → Type 0
Among x [] = ⊥
Among x (y ∷ l) = (x ≡ y) ⊎ Among x l

module _ {S : Type 0} where
  All-weaken : (P Q : S → Type 0) (l : List S) → ((x : S) → P x → Q x) → All P l → All Q l
  All-weaken P Q [] f h = tt
  All-weaken P Q (x ∷ l) f h = (f x h.0, All-weaken P Q l f h.1)

  pub All-Among : (l : List S) → All (λ x. Among x l) l
  All-Among [] = tt
  All-Among (x ∷ l) =
      (inl refl, All-weaken (λ y. Among y l) (λ y. Among y (x ∷ l)) l (λ y h. inr h) (All-Among l))

-- What all seen states have, the last one has.
pub LastSeen-All :
    {S A : Type 0} (Q : S → Type 0) (m : Exec S A) (r : Result A) (g : Glimpses S)
    → LastSeen m r g
    → All Q g.past
    → (y : S) × Q y × ((m y).0 ≡ r)
LastSeen-All Q m r g (y, p, e, h) all = (y, (subst (All Q) e all).0, h)
