-- ===== src/Prelude/Labels.antt =====
-- Go's `map[string]string` as an association list: what the driver reads, writes and merges.
use Prim.Native.String.{String}
use mathlib.Core.Path.{◌≡◌, refl, ◌∙◌}
use mathlib.Core.Option.{Option, none, some}
use mathlib.Core.List.{List, [], ◌∷◌}
use native.Mathlib.Omega.{arith}
use text.Mathlib.Text.{◌==◌}
use text.Mathlib.TextEquality.{eq_iff}
use csi_thalassa.Prelude.Tests.{if◌then◌else◌, is_some}

abbrev pub Labels : Type 0
Labels = List (String × String)

-- A map from texts: of two pairs with one key the first counts.
abbrev pub Map {ℓ} : Type ℓ → Type ℓ
Map V = List (String × V)

-- `delete(m, k)`
unfoldable pub delete {ℓ} : {V : Type ℓ} → String → Map V → Map V
delete key [] = []
delete key ((name, value) ∷ rest) =
    let others = delete key rest in if name == key then others else (name, value) ∷ others

-- `v, ok := m[k]`
unfoldable pub lookup {ℓ} : {V : Type ℓ} → String → Map V → Option V
lookup key [] = none
lookup key ((name, value) ∷ rest) =
    let later = lookup key rest in if name == key then some value else later

pub lookup-delete {ℓ} :
    {V : Type ℓ} (key wanted : String) (m : Map V)
    → lookup wanted (delete key m) ≡ (if key == wanted then none else lookup wanted m)
unfolding lookup delete
lookup-delete key wanted [] = ground arith
lookup-delete key wanted ((name, value) ∷ rest) =
    ground
      (arith, eq_iff name wanted, eq_iff name key, eq_iff key wanted, lookup-delete key wanted rest)

-- `m[k] = v`
unfoldable pub insert {ℓ} : {V : Type ℓ} → String → V → Map V → Map V
insert key new [] = (key, new) ∷ []
insert key new ((name, value) ∷ rest) =
    let others = insert key new rest in
    if name == key then (name, new) ∷ rest else (name, value) ∷ others

pub lookup-insert {ℓ} :
    {V : Type ℓ} (key wanted : String) (new : V) (m : Map V)
    → lookup wanted (insert key new m) ≡ (if key == wanted then some new else lookup wanted m)
unfolding lookup insert
lookup-insert key wanted new [] = refl
lookup-insert key wanted new ((name, value) ∷ rest) = ground (
  arith,
  eq_iff name wanted,
  eq_iff name key,
  eq_iff key wanted,
  lookup-insert key wanted new rest,
)

-- `for k, v := range custom { if _, ok := m[k]; !ok { m[k] = v } }`. The keys of a map differ, so
-- the order of the loop does not matter.
unfoldable pub add_missing : Labels → Labels → Labels
unfolding lookup insert
add_missing [] m = m
add_missing ((k, v) ∷ custom) m =
    add_missing custom (if is_some (lookup k m) then m else insert k v m)

abbrev pub or_else {ℓ} : {V : Type ℓ} → Option V → Option V → Option V
or_else (some v) o = some v
or_else none o = o

lookup-add_one :
    (j k v : String) (m : Labels) (o : Option String)
    → or_else (lookup j (if is_some (lookup k m) then m else insert k v m)) o
      ≡ or_else (lookup j m) (if k == j then some v else o)
lookup-add_one j k v m o = ground (arith, lookup-insert k j v m, eq_iff k j)

-- What is there stays, and what is missing comes from the other map.
pub lookup-add_missing :
    (j : String) (custom m : Labels)
    → lookup j (add_missing custom m) ≡ or_else (lookup j m) (lookup j custom)
unfolding add_missing
lookup-add_missing j [] m = ground arith
lookup-add_missing j ((k, v) ∷ custom) m =
    lookup-add_missing j custom (if is_some (lookup k m) then m else insert k v m)
    ∙ lookup-add_one j k v m (lookup j custom)
