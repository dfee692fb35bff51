-- ===== src/Jobs/Delay.antt =====
-- The delays that a retry policy gives (apps/api/src/boardtrace_api/analysis/retry.py).
use native.Mathlib.Nat.{pow-le-pow_right, one-le-pow}
use boardtrace.Prelude.{ok, err, ℕ, ◌+◌, ◌-◌, ◌*◌, ◌^◌, ◌≤◌, min, ◌≡◌, ◌⊎◌, true, arith}
use boardtrace.Prelude.Int.{pos, negsuc}
use boardtrace.Jobs.Status.{JobError, invalid_attempt, negative_jitter}
use boardtrace.Jobs.Retry.{RetryPolicy, retry_policy_accepted, JitterSource, delay_for_attempt}

base-le-exponential : (base k : ℕ) → base ≤ base * 2 ^ k
base-le-exponential base k = grind (arith, one-le-pow k 2 (omega arith))

exponential_mono : (base a b : ℕ) → a ≤ b → base * 2 ^ a ≤ base * 2 ^ b
exponential_mono base a b h =
    let p : 2 ^ a ≤ 2 ^ b = pow-le-pow_right (omega arith) h in grind arith

-- A policy that the constructor accepts, at an attempt from the first on and with a jitter source
-- that returns `n` seconds: the delay lies between the base and the maximum, plus the jitter that
-- is granted.
pub delay_bounds :
    (p : RetryPolicy) (attempt n : ℕ) (jitter : JitterSource)
    → retry_policy_accepted p ≡ true
    → 1 ≤ attempt
    → jitter p.max_jitter_seconds ≡ pos n
    → (d : ℕ) × (delay_for_attempt p attempt jitter ≡ ok d)
      × (p.base_delay_seconds + min n p.max_jitter_seconds ≤ d)
      × (d ≤ p.max_delay_seconds + p.max_jitter_seconds)
unfolding retry_policy_accepted delay_for_attempt
delay_bounds p attempt n jitter acc pos_attempt j = (
  min p.max_delay_seconds (p.base_delay_seconds * 2 ^ min (attempt - 1) 30)
      + min n p.max_jitter_seconds,
  ground arith,
  ground (arith, base-le-exponential p.base_delay_seconds (min (attempt - 1) 30)),
  ground arith,
)

-- The delay is refused exactly at attempt zero or for a negative jitter.
pub delay_refused :
    (p : RetryPolicy) (attempt : ℕ) (jitter : JitterSource) {e : JobError}
    → delay_for_attempt p attempt jitter ≡ err e
    → ((e ≡ invalid_attempt) × (attempt ≡ 0))
      ⊎ ((e ≡ negative_jitter) × (n : ℕ) × (jitter p.max_jitter_seconds ≡ negsuc n))
unfolding delay_for_attempt
delay_refused p attempt jitter h = ground arith

-- A later attempt does not wait less, under the same jitter.
pub delay_mono :
    (p : RetryPolicy) (a b d d' : ℕ) (jitter : JitterSource)
    → a ≤ b
    → delay_for_attempt p a jitter ≡ ok d
    → delay_for_attempt p b jitter ≡ ok d'
    → d ≤ d'
unfolding delay_for_attempt
delay_mono p a b d d' jitter h ha hb =
    ground (arith, exponential_mono p.base_delay_seconds (min (a - 1) 30) (min (b - 1) 30))
