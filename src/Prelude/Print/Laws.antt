-- ===== src/Prelude/Print/Laws.antt =====
-- What the printed numbers say: digits read back, rounding is to the nearest, and an end is cut once.
use Prim.Native.Char.{code}
use Prim.Native.String.{String, [], ◌∷◌, count, ◌++◌ as ◌<>◌}
use Prim.Native.Nat.{ℕ, zero, suc, ◌+◌, ◌-◌, ◌*◌, ◌/◌, ◌%◌, ◌^◌, ◌≤◌, ◌<◌}
use mathlib.Core.Path.{◌≡◌, refl, ap}
use mathlib.Core.Logic.{◌≢◌, ◌⊎◌, inl, inr}
use mathlib.Core.Bool.{true, ◌&&◌}
use mathlib.Core.Option.{some}
use native.Mathlib.Omega.{arith}
use native.Mathlib.Nat.{pow-suc}
use text.Mathlib.Text.{◌==◌}
use text.Mathlib.TextEquality.{eq_iff}
use text.Mathlib.TextLemmas.{
  length-cons, length-append, append_cancel_left, nil-append, cons-append,
}
use csi_thalassa.Prelude.Tests.{leb, ltb, eqb, if◌then◌else◌, Bool-cases}
use csi_thalassa.Prelude.Decimal.{digits}
use csi_thalassa.Prelude.Print.{
  digit, decimal_before, decimal, nearest, spacing, float64, trim_suffix,
}

nearest-cases :
    (a d : ℕ)
    → ((nearest a d ≡ a / d) × (2 * (a % d) ≤ d)) ⊎ ((nearest a d ≡ a / d + 1) × (d ≤ 2 * (a % d)))
unfolding nearest
nearest-cases a d = ground arith

pub nearest-Near :
    (a d : ℕ) → 0 < d → (2 * a ≤ 2 * (nearest a d * d) + d) × (2 * (nearest a d * d) ≤ 2 * a + d)
nearest-Near a d positive = elim (nearest-cases a d) [
  | inl (is, near) ↦ (rw is (omega arith), rw is (omega arith))
  | inr (is, near) ↦ (rw is (omega arith), rw is (omega arith))
]

pub nearest_bound : (a d : ℕ) → nearest a d ≤ a + 1
nearest_bound a d = elim (nearest-cases a d) [
  | inl (is, near) ↦ rw is (omega arith)
  | inr (is, near) ↦ rw is (omega arith)
]

pub spacing_bound : (n : ℕ) → (0 < spacing n) × (spacing n ≤ 1024)
unfolding spacing
spacing_bound n = ground arith

pub float64-exact : (n : ℕ) → n < 2 ^ 53 → float64 n ≡ n
unfolding float64 spacing nearest
float64-exact n small = ground arith

pub float64-Near : (n : ℕ) → (n ≤ float64 n + 512) × (float64 n ≤ n + 512)
unfolding float64
float64-Near n =
    let near = nearest-Near n (spacing n) (spacing_bound n).0 in
    let bound = spacing_bound n in (omega arith, omega arith)

trim_suffix-short : (s t : String) → count s < count t → trim_suffix s t ≡ s
unfolding trim_suffix
trim_suffix-short [] t short = refl
trim_suffix-short (c ∷ s) t short = elim (Bool-cases ((c ∷ s) == t)) [
  | inl same ↦ absurd (omega (arith, ap count ((eq_iff (c ∷ s) t).0 same)))
  | inr differs ↦
      rw differs (ap (λ r. c ∷ r) (trim_suffix-short s t (omega (arith, length-cons c s))))
]

pub trim_suffix-append : (w t : String) → trim_suffix (w <> t) t ≡ w
unfolding trim_suffix
trim_suffix-append [] [] = refl
trim_suffix-append [] (d ∷ t) = rw (nil-append (d ∷ t), (eq_iff (d ∷ t) (d ∷ t)).1 refl) refl
trim_suffix-append (c ∷ w) t = elim (Bool-cases ((c ∷ (w <> t)) == t)) [
  | inl same ↦ absurd (
      omega (
        arith,
        length-append w t,
        length-cons c (w <> t),
        ap count ((eq_iff (c ∷ (w <> t)) t).0 same),
      ))
  | inr differs ↦ rw (cons-append c w t, differs) (ap (λ r. c ∷ r) (trim_suffix-append w t))
]

below_ten :
    (n : ℕ)
    → n < 10
    → (n ≡ 0)
      ⊎ (n ≡ 1)
      ⊎ (n ≡ 2)
      ⊎ (n ≡ 3)
      ⊎ (n ≡ 4)
      ⊎ (n ≡ 5)
      ⊎ (n ≡ 6)
      ⊎ (n ≡ 7)
      ⊎ (n ≡ 8)
      ⊎ (n ≡ 9)
below_ten n small = omega arith

code-digit : (n : ℕ) → n < 10 → code (digit n) ≡ n + 48
unfolding digit
code-digit n small = elim (below_ten n small) [
  | inl p ↦ rw p refl
  | inr (inl p) ↦ rw p refl
  | inr (inr (inl p)) ↦ rw p refl
  | inr (inr (inr (inl p))) ↦ rw p refl
  | inr (inr (inr (inr (inl p)))) ↦ rw p refl
  | inr (inr (inr (inr (inr (inl p))))) ↦ rw p refl
  | inr (inr (inr (inr (inr (inr (inl p)))))) ↦ rw p refl
  | inr (inr (inr (inr (inr (inr (inr (inl p))))))) ↦ rw p refl
  | inr (inr (inr (inr (inr (inr (inr (inr (inl p)))))))) ↦ rw p refl
  | inr (inr (inr (inr (inr (inr (inr (inr (inr p)))))))) ↦ rw p refl
]

digits-cons : (n d : ℕ) (s : String) → d < 10 → digits n (digit d ∷ s) ≡ digits (10 * n + d) s
unfolding digits
digits-cons n d s small =
    let in_range : (leb 48 (d + 48) && leb (d + 48) 57) ≡ true = ground arith in
    let value : d + 48 - 48 ≡ d = omega arith in rw (code-digit d small, in_range, value) refl

digits-decimal_before :
    (k n : ℕ) (s : String) → n < 10 ^ k → digits 0 (decimal_before k n s) ≡ digits n s
unfolding decimal_before
digits-decimal_before zero n s small = let nothing : n ≡ 0 = omega arith in rw nothing
digits-decimal_before (suc k) n s small =
    let same : 10 * 0 + n ≡ n = omega arith in
    let whole : 10 * (n / 10) + n % 10 ≡ n = omega arith in
    elim (Bool-cases (ltb n 10)) [
      | inl short ↦ rw (short, digits-cons 0 n s (ground arith), same)
      | inr long ↦ rw (
        long,
        digits-decimal_before k (n / 10) (digit (n % 10) ∷ s) (omega (arith, pow-suc 10 k)),
        digits-cons (n / 10) (n % 10) s (omega arith),
        whole,
      )
    ]

-- A number below 10 ^ 20 reads back from its digits.
pub digits-decimal : (n : ℕ) → n < 10 ^ 20 → digits 0 (decimal n) ≡ some n
unfolding decimal digits
digits-decimal n small = digits-decimal_before 20 n [] small

-- An end of another text of the same length stays.
pub trim_suffix_other :
    (w u t : String) → count u ≡ count t → u ≢ t → trim_suffix (w <> u) t ≡ w <> u
unfolding trim_suffix
trim_suffix_other [] [] t same other = rw (nil-append [])
trim_suffix_other [] (c ∷ u) t same other = elim (Bool-cases ((c ∷ u) == t)) [
  | inl h ↦ absurd (other ((eq_iff (c ∷ u) t).0 h))
  | inr h ↦
      rw (nil-append (c ∷ u), h)
        (ap (λ r. c ∷ r) (trim_suffix-short u t (omega (arith, length-cons c u))))
]
trim_suffix_other (c ∷ w) u t same other = elim (Bool-cases ((c ∷ (w <> u)) == t)) [
  | inl h ↦ absurd (
      omega (
        arith,
        length-append w u,
        length-cons c (w <> u),
        ap count ((eq_iff (c ∷ (w <> u)) t).0 h),
      ))
  | inr h ↦ rw (cons-append c w u, h) (ap (λ r. c ∷ r) (trim_suffix_other w u t same other))
]

decimal-digit : (n : ℕ) → n < 10 → decimal n ≡ digit n ∷ []
unfolding decimal decimal_before
decimal-digit n small = let short : ltb n 10 ≡ true = ground arith in rw short

count-decimal_digit : (n : ℕ) → n < 10 → count (decimal n) ≡ 1
count-decimal_digit n small = rw (decimal-digit n small) (length-cons (digit n) [])

decimal-nonzero : (n : ℕ) → n < 10 ^ 20 → n ≢ 0 → "." <> decimal n ≢ ".0"
unfolding digits
decimal-nonzero n small nonzero h =
    let zero_read : digits 0 "0" ≡ some 0 = refl in
    let same : decimal n ≡ "0" = append_cancel_left "." (decimal n) "0" h in
    let read : digits 0 (decimal n) ≡ some n = digits-decimal n small in
    absurd (nonzero (cc (read, same, zero_read)))

-- A number of tenths, without the decimal where it is 0.
abbrev pub written : ℕ → String
written t = if eqb (t % 10) 0 then decimal (t / 10) else decimal (t / 10) <> "." <> decimal (t % 10)

pub trim_suffix-tenths :
    (t : ℕ) → trim_suffix (decimal (t / 10) <> "." <> decimal (t % 10)) ".0" ≡ written t
unfolding digit
trim_suffix-tenths t = elim (Bool-cases (eqb (t % 10) 0)) [
  | inl h ↦
      let nothing : t % 10 ≡ 0 = ground arith in
      rw (h, nothing, decimal-digit 0 (omega arith)) (trim_suffix-append (decimal (t / 10)) ".0")
  | inr h ↦ rw h (
      trim_suffix_other (decimal (t / 10)) ("." <> decimal (t % 10)) ".0"
        (omega
          (arith, length-append "." (decimal (t % 10)), count-decimal_digit (t % 10) (omega arith)))
        (decimal-nonzero (t % 10) (omega arith) (ground arith)))
]
