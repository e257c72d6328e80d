-- ===== src/Index/Laws.antt =====
-- What is found under an identity of the list has that identity and comes from the list.
use mathlib.Core.Path.{subst}
use mathlib.Core.Option.{some-injective}
use csi_thalassa.Prelude.{
  ◌<◌, ◌≡◌, refl, ap, ◌⊎◌, String, true, List, [], ◌∷◌, Option, none, some, map, arith, ◌==◌,
  eq_iff, is_some, inl, inr, Bool-cases,
}
use csi_thalassa.Prelude.All.{All}
use csi_thalassa.Prelude.Labels.{lookup, insert, lookup-insert}
use csi_thalassa.Pagination.Sorted.{count}
use csi_thalassa.Index.{by_identity}

module _ {ℓ} {A : Type ℓ} (key : A → String) (Q : A → Type 0) where
  -- Every entry lies under its identity, and has the property.
  abbrev Sound : List (String × A) → Type ℓ
  Sound m = (k : String) (a : A) → lookup k m ≡ some a → Q a × (key a ≡ k)

  Sound-insert : (b : A) (m : List (String × A)) → Q b → Sound m → Sound (insert (key b) b m)
  Sound-insert b m q h k a e = elim (Bool-cases (key b == k)) [
    | inl same ↦
        let b_is_a : b ≡ a = some-injective b a (cc (e, lookup-insert (key b) k b m, same)) in
        (subst Q b_is_a q, rw (← b_is_a) ((eq_iff (key b) k).0 same))
    | inr differs ↦ h k a (cc (e, lookup-insert (key b) k b m, differs))
  ]

  Sound-by_identity :
      (l : List A) (m : List (String × A)) → All Q l → Sound m → Sound (by_identity key l m)
  unfolding by_identity
  Sound-by_identity [] m q h = h
  Sound-by_identity (a ∷ l) m q h =
      Sound-by_identity l (insert (key a) a m) q.1 (Sound-insert a m q.0 h)

  is_some-by_identity :
      (k : String) (l : List A) (m : List (String × A))
      → ((is_some (lookup k m) ≡ true) ⊎ (0 < count k (map key l)))
      → is_some (lookup k (by_identity key l m)) ≡ true
  unfolding by_identity count
  is_some-by_identity k [] m h = ground arith
  is_some-by_identity k (a ∷ l) m h =
      is_some-by_identity k l (insert (key a) a m) (ground (arith, lookup-insert (key a) k a m))

  nothing : Sound []
  unfolding lookup
  nothing k a e = cc

  -- Each identity of the list is found, with an element that has it.
  pub lookup-by_identity :
      (l : List A) (k : String)
      → All Q l
      → 0 < count k (map key l)
      → (a : A) × (lookup k (by_identity key l []) ≡ some a) × Q a × (key a ≡ k)
  lookup-by_identity l k q h = found (lookup k (by_identity key l [])) refl
    where
      found :
          (o : Option A)
          → lookup k (by_identity key l []) ≡ o
          → (a : A) × (o ≡ some a) × Q a × (key a ≡ k)
      found none e = cc (is_some-by_identity k l [] (inr h), ap (is_some {A = A}) e)
      found (some a) e =
          let (holds, same) = Sound-by_identity l [] q nothing k a e in (a, refl, holds, same)
