-- ===== src/Capacity/Laws.antt =====
-- What the chosen size promises, and when a capacity range is refused.
use Prim.Native.Nat.{max}
use csi_thalassa.Prelude.{
  ℕ, ◌<◌, ◌≤◌, ◌≡◌, ◌↔◌, ◌⊎◌, inl, inr, ap, refl, Option, none, some, true, arith, ltb,
  if◌then◌else◌,
}
use csi_thalassa.Prelude.Signed.{ℤ, pos, negsuc, ◌/ℤ◌}
use csi_thalassa.Status.{Error}
use csi_thalassa.Exec.{Result, ok, err, failed}
use csi_thalassa.Capacity.{
  CapacityRange, get_storage_size_from_capacity_range, gib, default_volume_size_in_bytes,
  minimum_volume_size_in_bytes, maximum_volume_size_in_bytes,
}

-- A bound of the request as a number: 0 if it is not set.
abbrev pub bound : ℤ → ℕ
bound (pos n) = n
bound (negsuc n) = 0

abbrev pub required : Option CapacityRange → ℕ
required none = 0
required (some r) = bound r.required_bytes

abbrev pub limit : Option CapacityRange → ℕ
limit none = 0
limit (some r) = bound r.limit_bytes

-- `n` bytes serve a request with these bounds. Below the minimum lies only a required size that
-- comes with a limit.
pub record Serves (req lim n : ℕ) : Type 0 where
  pub positive : 0 < n
  pub enough : req ≤ n
  pub at_most : n ≤ maximum_volume_size_in_bytes
  pub within : 0 < lim → n ≤ lim
  pub at_least : (minimum_volume_size_in_bytes ≤ n) ⊎ ((n ≡ req) × (0 < lim))

-- The sizes that the driver refuses to choose from.
abbrev pub Refused : ℕ → ℕ → Type 0
Refused req lim =
    ((0 < lim) × (lim < req))
    ⊎ ((0 < lim) × (lim < minimum_volume_size_in_bytes))
    ⊎ (maximum_volume_size_in_bytes < req)
    ⊎ ((req ≡ 0) × (maximum_volume_size_in_bytes < lim))

-- The size for bounds that are not refused.
abbrev pub chosen : ℕ → ℕ → ℕ
chosen req lim =
    if ltb 0 req
    then (if ltb 0 lim then req else max minimum_volume_size_in_bytes req)
    else if ltb 0 lim
    then lim
    else default_volume_size_in_bytes

range_size :
    (a b : ℤ) {n : ℤ}
    → get_storage_size_from_capacity_range (some (record { required_bytes = a; limit_bytes = b }))
      ≡ ok n
    → (n ≡ pos (chosen (bound a) (bound b)))
      × Serves (bound a) (bound b) (chosen (bound a) (bound b))
unfolding get_storage_size_from_capacity_range
range_size (pos a) (pos b) h = ground arith
range_size _ _ h = ground arith

-- A chosen size is the required one, raised to the minimum if there is no limit; without a required
-- size it is the limit, and without either the default. It serves
-- the request: it is at least the required size and within the limit and the maximum, and below the
-- minimum only if it is the required size beside a limit.
pub storage_size-Serves :
    (r : Option CapacityRange) {n : ℤ}
    → get_storage_size_from_capacity_range r ≡ ok n
    → (n ≡ pos (chosen (required r) (limit r)))
      × Serves (required r) (limit r) (chosen (required r) (limit r))
unfolding get_storage_size_from_capacity_range
storage_size-Serves none h = ground arith
storage_size-Serves (some r) h = range_size r.required_bytes r.limit_bytes h

range-Refused :
    (a b : ℤ)
    → (failed (
          get_storage_size_from_capacity_range
            (some (record { required_bytes = a; limit_bytes = b })))
        ≡ true)
      ↔ Refused (bound a) (bound b)
unfolding get_storage_size_from_capacity_range
range-Refused (pos a) (pos b) = ground arith
range-Refused _ _ = ground arith

-- A range is refused exactly when its limit lies below its required size or below the minimum, its
-- required size above the maximum, or, with no required size, its limit above the maximum.
pub storage_size-Refused :
    (r : Option CapacityRange)
    → (failed (get_storage_size_from_capacity_range r) ≡ true) ↔ Refused (required r) (limit r)
unfolding get_storage_size_from_capacity_range
storage_size-Refused none = ground arith
storage_size-Refused (some r) = range-Refused r.required_bytes r.limit_bytes

-- A required size above 0 and under the minimum, with a limit at or above it, is granted as it
-- stands, and comes to a volume of 0 GiB.
pub storage_size_below_minimum :
    (req lim : ℕ)
    → 0 < req
    → req < minimum_volume_size_in_bytes
    → minimum_volume_size_in_bytes ≤ lim
    → (get_storage_size_from_capacity_range
          (some (record { required_bytes = pos req; limit_bytes = pos lim }))
        ≡ ok (pos req))
      × ((pos req /ℤ gib) ≡ pos 0)
unfolding get_storage_size_from_capacity_range ◌/ℤ◌
storage_size_below_minimum req lim positive small room = (ground arith, ground arith)

pub storage_size-cases :
    (r : Option CapacityRange)
    → ((get_storage_size_from_capacity_range r ≡ ok (pos (chosen (required r) (limit r))))
        × ¬ Refused (required r) (limit r))
      ⊎ ((e : Error) × (get_storage_size_from_capacity_range r ≡ err e)
          × Refused (required r) (limit r))
storage_size-cases r = split (get_storage_size_from_capacity_range r) refl
  where
    split :
        (o : Result ℤ)
        → get_storage_size_from_capacity_range r ≡ o
        → ((o ≡ ok (pos (chosen (required r) (limit r)))) × ¬ Refused (required r) (limit r))
          ⊎ ((e : Error) × (o ≡ err e) × Refused (required r) (limit r))
    split (ok n) h =
        inl
          (ap ok (storage_size-Serves r h).0, λ refused. cc (h, (storage_size-Refused r).1 refused))
    split (err e) h = inr (e, refl, (storage_size-Refused r).0 (rw h))
