-- ===== src/Capacity/Format.antt =====
-- What the sizes in the driver's messages say.
use csi_thalassa.Prelude.{
  Bool, ℕ, String, ◌+◌, ◌*◌, ◌/◌, ◌^◌, ◌<◌, ◌≤◌, ◌≡◌, ◌⊎◌, inl, inr, refl, true, false, some, arith,
  ltb, leb, eqb, if◌then◌else◌, Bool-cases, ap, ◌<>◌,
}
use csi_thalassa.Prelude.Signed.{pos}
use csi_thalassa.Prelude.Decimal.{digits}
use csi_thalassa.Prelude.Print.{decimal, nearest, float64, format_float}
use csi_thalassa.Prelude.Print.Laws.{
  nearest-Near, nearest_bound, float64-exact, float64-Near, written, trim_suffix-tenths,
  digits-decimal,
}
use csi_thalassa.Capacity.{kib, mib, gib, tib, scaled, format_bytes}

-- The units and their names.
pub data Scale : ℕ → String → Type 0 where
  bytes : Scale 1 ""
  kibibytes : Scale kib "Ki"
  mebibytes : Scale mib "Mi"
  gibibytes : Scale gib "Gi"
  tebibytes : Scale tib "Ti"

-- Beyond 2 ^ 53 bytes the number is first rounded, by at most 512 bytes.
abbrev pub rounding : ℕ → ℕ
rounding n = if ltb n (2 ^ 53) then 0 else 512

-- The text gives so many tenths of a unit, the largest that the size reaches, which is the size
-- rounded to the nearest tenth.
pub record Reads (n : ℕ) (text : String) : Type 0 where
  pub unit : ℕ
  pub name : String
  pub tenths : ℕ
  pub scale : Scale unit name
  pub reached : unit ≤ n
  pub largest : (n < 1024 * unit) ⊎ (unit ≡ tib)
  pub not_above : 2 * (tenths * unit) ≤ 20 * (n + rounding n) + unit
  pub not_below : 20 * n ≤ 2 * (tenths * unit) + unit + 20 * rounding n
  pub spelled : text ≡ written tenths <> name
  pub whole : digits 0 (decimal (tenths / 10)) ≡ some (tenths / 10)

float64-rounding : (n : ℕ) → (n ≤ float64 n + rounding n) × (float64 n ≤ n + rounding n)
float64-rounding n = elim (Bool-cases (ltb n (2 ^ 53))) [
  | inl h ↦ rw (h, float64-exact n (ground arith)) (omega arith, omega arith)
  | inr h ↦ rw h (float64-Near n)
]

scaled-Reads :
    (n unit : ℕ) (name : String)
    → n < 2 ^ 63
    → 0 < unit
    → Scale unit name
    → unit ≤ n
    → (n < 1024 * unit) ⊎ (unit ≡ tib)
    → Reads n (scaled n unit name)
unfolding scaled format_float
scaled-Reads n unit name small positive scale reached largest =
    let t = nearest (10 * float64 n) unit in
    let near = nearest-Near (10 * float64 n) unit positive in
    let rounded = float64-rounding n in
    record {
      unit = unit;
      name = name;
      tenths = t;
      scale = scale;
      reached = reached;
      largest = largest;
      not_above = omega arith;
      not_below = omega arith;
      spelled = ap (λ s. s <> name) (trim_suffix-tenths t);
      whole =
          digits-decimal (t / 10)
            (omega (arith, nearest_bound (10 * float64 n) unit, (float64-Near n).1));
    }

if-cases :
    {A : Type 0} (P : A → Type 0) (b : Bool) {x y : A}
    → (b ≡ true → P x)
    → (b ≡ false → P y)
    → P (if b then x else y)
if-cases P true f g = f refl
if-cases P false f g = g refl

-- A size above 0 in a message is a number of tenths of the largest unit that the size reaches, up to
-- TiB, written with one decimal or none: the size rounded to the nearest tenth, where a size from
-- 2 ^ 53 bytes on is rounded by up to 512 bytes before. The digits before the point read back.
pub format_bytes-Reads : (n : ℕ) → 0 < n → n < 2 ^ 63 → Reads n (format_bytes (pos n))
unfolding format_bytes
format_bytes-Reads n positive small =
    if-cases (Reads n) (leb tib n)
      (λ h. scaled-Reads n tib "Ti" small (omega arith) tebibytes (ground arith) (inr refl))
      λ h4.
        if-cases (Reads n) (leb gib n)
          (λ h.
            scaled-Reads n gib "Gi" small (omega arith) gibibytes (ground arith)
              (inl (ground arith)))
          λ h3.
            if-cases (Reads n) (leb mib n)
              (λ h.
                scaled-Reads n mib "Mi" small (omega arith) mebibytes (ground arith)
                  (inl (ground arith)))
              λ h2.
                if-cases (Reads n) (leb kib n)
                  (λ h.
                    scaled-Reads n kib "Ki" small (omega arith) kibibytes (ground arith)
                      (inl (ground arith)))
                  λ h1.
                    if-cases (Reads n) (eqb n 0) (λ h. absurd (ground arith))
                      λ h0.
                        scaled-Reads n 1 "" small (omega arith) bytes (ground arith)
                          (inl (ground arith))
