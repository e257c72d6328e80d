-- ===== src/Prelude/Signed.antt =====
-- Go's signed integers. `negsuc n` is -(n + 1).
use Prim.Native.Nat.{ℕ, zero, suc, ◌-◌, ◌*◌, ◌/◌, ◌%◌, ◌^◌, ◌<◌, ◌≤◌, ◌+◌}
use mathlib.Core.Path.{◌≡◌, refl}
use mathlib.Core.Logic.{◌↔◌}
use mathlib.Core.Bool.{Bool, true, false}
use native.Mathlib.Omega.{arith}
use csi_thalassa.Prelude.Tests.{ltb, eqb, if◌then◌else◌}

pub data ℤ : Type 0 where
  pos : ℕ → ℤ
  negsuc : ℕ → ℤ

abbrev pub ltℤ : ℤ → ℤ → Bool
ltℤ (pos a) (pos b) = ltb a b
ltℤ (pos a) (negsuc b) = false
ltℤ (negsuc a) (pos b) = true
ltℤ (negsuc a) (negsuc b) = ltb b a

abbrev pub eqℤ : ℤ → ℤ → Bool
eqℤ (pos a) (pos b) = eqb a b
eqℤ (pos a) (negsuc b) = false
eqℤ (negsuc a) (pos b) = false
eqℤ (negsuc a) (negsuc b) = eqb a b

-- The value of type `int64` whose bits are those of the number.
unfoldable pub int64 : ℕ → ℤ
int64 n = let m = n % 2 ^ 64 in if ltb m (2 ^ 63) then pos m else negsuc (2 ^ 64 - 1 - m)

-- The conversion of an unsigned number to `int32`.
unfoldable pub int32 : ℕ → ℤ
int32 n = let m = n % 2 ^ 32 in if ltb m (2 ^ 31) then pos m else negsuc (2 ^ 32 - 1 - m)

-- An `int64` times a positive constant, with its wrap-around.
infixl 70 ◌*ℤ◌
unfoldable pub ◌*ℤ◌ : ℤ → ℕ → ℤ
unfolding int64
pos n *ℤ k = int64 (n * k)
negsuc n *ℤ k = int64 (2 ^ 64 - suc n * k % 2 ^ 64)

-- Go's `/` by a positive constant drops the fraction on both sides of zero.
abbrev neg : ℕ → ℤ
neg zero = pos zero
neg (suc n) = negsuc n

infixl 70 ◌/ℤ◌
unfoldable pub ◌/ℤ◌ : ℤ → ℕ → ℤ
pos n /ℤ k = pos (n / k)
negsuc n /ℤ k = neg (suc n / k)

pub int64_of_lt : (n : ℕ) → n < 2 ^ 63 → int64 n ≡ pos n
unfolding int64
int64_of_lt n h = ground arith

pub *ℤ_of_lt : (n k : ℕ) → n * k < 2 ^ 63 → (pos n *ℤ k) ≡ pos (n * k)
unfolding ◌*ℤ◌
*ℤ_of_lt n k h = int64_of_lt (n * k) h

-- Whole units survive a division and a multiplication, as long as nothing overflows.
pub /ℤ_*ℤ : (n k : ℕ) → n < 2 ^ 63 → ((pos n /ℤ k) *ℤ k) ≡ pos (n / k * k)
unfolding ◌/ℤ◌
/ℤ_*ℤ n k h = *ℤ_of_lt (n / k) k (grind arith)

pub eqℤ_iff : (a b : ℤ) → (eqℤ a b ≡ true) ↔ (a ≡ b)
eqℤ_iff (pos a) (pos b) = ground arith
eqℤ_iff _ _ = ground arith

-- The bits of an `int64` as a number below 2 ^ 64.
abbrev bits : ℤ → ℕ
bits (pos n) = n % 2 ^ 64
bits (negsuc n) = 2 ^ 64 - 1 - n % 2 ^ 64

-- The product and the difference of two `int64`, with their wrap-around.
unfoldable pub times64 : ℤ → ℤ → ℤ
unfolding int64
times64 a b = int64 (bits a * bits b)

unfoldable pub minus64 : ℤ → ℤ → ℤ
unfolding int64
minus64 a b = int64 (bits a + (2 ^ 64 - bits b))

pub times64_of_lt :
    (m n : ℕ) → m < 2 ^ 63 → n < 2 ^ 63 → m * n < 2 ^ 63 → times64 (pos m) (pos n) ≡ pos (m * n)
unfolding times64
times64_of_lt m n hm hn h = rw (mod_of_lt m hm, mod_of_lt n hn) (int64_of_lt (m * n) h)
  where
    mod_of_lt : (k : ℕ) → k < 2 ^ 63 → k % 2 ^ 64 ≡ k
    mod_of_lt k h = omega arith

pub minus64_of_le : (m n : ℕ) → m < 2 ^ 63 → n ≤ m → minus64 (pos m) (pos n) ≡ pos (m - n)
unfolding minus64 int64
minus64_of_le m n hm h = ground arith

a_difference : minus64 (pos 2) (pos 3) ≡ negsuc 0
unfolding minus64
a_difference = refl

a_product : times64 (negsuc 1) (pos 3) ≡ negsuc 5
unfolding times64
a_product = refl
