-- ===== src/Pprof/Double.antt =====
-- JavaScript numbers, as far as packages/pprof-decoder/src/index.ts computes with them: sums of
-- natural numbers, rounded to 53 significant bits, ties to even (IEEE 754 double precision).
use Prim.Native.Nat.{min}
use native.Mathlib.Nat.{le_trans}
use obs_unified.Common.{
  ℕ, zero, suc, ◌+◌, ◌*◌, ◌/◌, ◌%◌, ◌^◌, ◌≤◌, ◌<◌, ◌≡◌, refl, false, arith, ltb, ltb-false,
  Bool-cases, inl, inr, lt→ltb, ltb→lt, ltb-false→le, if◌then◌else◌,
}

-- One past the largest number up to which every natural number is a double.
abbrev pub precise : ℕ
precise = 2 ^ 53

-- A quotient, rounded by the remainder `r` of a division by the even number `d`.
round_half_even : ℕ → ℕ → ℕ → ℕ
round_half_even q r d = if ltb (r * 2) d then q else if ltb d (r * 2) then q + 1 else q + q % 2

-- The nearest multiple of the first `d = 2 ^ k` for which the quotient has at most 53 bits.
round_at : ℕ → ℕ → ℕ → ℕ
round_at zero d n = n
round_at (suc fuel) d n =
    let rest = round_at fuel (d * 2) n in
    if ltb (n / d) precise then round_half_even (n / d) (n % d) d * d else rest

-- The double nearest to `n`. 100 doublings serve every n < 2 ^ 153; the sums below are at most
-- 2 ^ 71.
unfoldable pub to_double : ℕ → ℕ
unfolding round_at round_half_even
to_double n = if ltb n precise then n else round_at 100 2 n

-- `a + b` on numbers
unfoldable pub add : ℕ → ℕ → ℕ
add a b = to_double (a + b)

pub add_exact : (a b : ℕ) → a + b < precise → add a b ≡ a + b
unfolding add to_double
add_exact a b h = rw (lt→ltb _ _ h)

le-mul_div : (n d h : ℕ) → d ≡ h * 2 → 0 < h → precise * h ≤ n → precise ≤ n / d * d
le-mul_div n d h e p q = grind arith

round_half_even-le : (q r d : ℕ) → q ≤ round_half_even q r d
unfolding round_half_even
round_half_even-le q r d = ground arith

mul_mono : (a b d : ℕ) → a ≤ b → a * d ≤ b * d
mul_mono a b d h = grind arith

le_div : (n d : ℕ) → 0 < d → ltb (n / d) precise ≡ false → precise * d ≤ n
le_div n d pos h =
    let over : precise ≤ n / d = ground arith in grind (arith, mul_mono precise (n / d) d over)

round_at-le : (fuel d h n : ℕ) → d ≡ h * 2 → 0 < h → precise * h ≤ n → precise ≤ round_at fuel d n
unfolding round_at
round_at-le zero d h n e pos le = grind arith
round_at-le (suc fuel) d h n e pos le = elim (Bool-cases (ltb (n / d) precise)) [
  | inl here ↦ rw here (
      le_trans (le-mul_div n d h e pos le)
        (mul_mono (n / d) (round_half_even (n / d) (n % d) d) d (round_half_even-le _ _ _)))
  | inr on ↦ rw on (round_at-le fuel (d * 2) d n refl (omega arith) (le_div n d (omega arith) on))
]

-- A sum that cannot be exact is large.
pub add-le : (a b : ℕ) → precise ≤ a + b → precise ≤ add a b
unfolding add to_double
add-le a b h =
    rw (ltb-false (a + b) precise h)
      (round_at-le 100 2 1 (a + b) (omega arith) (omega arith) (omega arith))

-- The position never goes back, but for rounding above 2 ^ 53.
pub le-add : (a b : ℕ) → min a precise ≤ add a b
le-add a b = elim (Bool-cases (ltb (a + b) precise)) [
  | inl exact ↦ omega (arith, add_exact a b (ltb→lt _ _ exact))
  | inr large ↦ omega (arith, add-le a b (ltb-false→le _ _ large))
]
