-- ===== src/Moves/Rounding.antt =====
-- Quotients rounded half up to two decimal places, as numbers of hundredths: the `quantize` calls
-- of analysis/game_metrics.py under apps/api/src/boardtrace_api. A Decimal quotient carries 28
-- digits, which decide the second place for all the counts and losses of a game.
use boardtrace.Prelude.{ℕ, zero, suc, ◌+◌, ◌*◌, ◌/◌, ◌≤◌, ◌<◌, ◌≡◌, refl, ◌↔◌, arith}
use native.Mathlib.Nat.{le-div_iff_mul-le, div-lt_iff_lt-mul, mul-le-mul_left}

-- The quotient of two numbers, to the nearest number, and a half upwards.
unfoldable pub half_up : ℕ → ℕ → ℕ
half_up n d = (2 * n + d) / (2 * d)

-- A quotient that is at most a whole number stays so when it is rounded.
pub half_up_le : (n d k : ℕ) → 0 < d → n ≤ k * d → half_up n d ≤ k
unfolding half_up
half_up_le n d k h le =
    let below : 2 * n + d < (k + 1) * (2 * d) = grind arith in
    let q : (2 * n + d) / (2 * d) < k + 1 = (div-lt_iff_lt-mul {k = 2 * d} (omega arith)).1 below in
    omega arith

pub half_up_next : (n d q : ℕ) → 0 < d → (q + 1 ≤ half_up n d) ↔ ((2 * q + 1) * d ≤ 2 * n)
unfolding half_up
half_up_next n d q h =
    let both : (q + 1 ≤ (2 * n + d) / (2 * d)) ↔ ((q + 1) * (2 * d) ≤ 2 * n + d) =
      le-div_iff_mul-le (omega arith) in
    (λ a. let b = both.0 a in grind arith, λ a. both.1 (grind arith))

half_up_anti_at : (n d d' q : ℕ) → 0 < d → d ≤ d' → half_up n d' ≡ q → q ≤ half_up n d
half_up_anti_at n d d' zero h le e = omega arith
half_up_anti_at n d d' (suc q) h le e =
    let far : (2 * q + 1) * d' ≤ 2 * n = (half_up_next n d' q (omega arith)).0 (omega arith) in
    let near : (2 * q + 1) * d ≤ (2 * q + 1) * d' = mul-le-mul_left (2 * q + 1) le in
    let r : q + 1 ≤ half_up n d = (half_up_next n d q h).1 (omega arith) in omega arith

-- A greater divisor gives no greater quotient.
pub half_up_anti : (n d d' : ℕ) → 0 < d → d ≤ d' → half_up n d' ≤ half_up n d
half_up_anti n d d' h le = half_up_anti_at n d d' (half_up n d') h le refl
