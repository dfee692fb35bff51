-- ===== src/Jobs/Retry.antt =====
-- The retry delays: apps/api/src/boardtrace_api/analysis/retry.py. Delays are in seconds; a jitter
-- source is a function of the upper bound, which may return any integer.
use boardtrace.Prelude.{
  ltb, Result, ok, err, ◌>>=◌, ◌>>◌, raise_if, ℕ, ◌+◌, ◌-◌, ◌*◌, ◌^◌, min, Bool, true, false, ◌||◌,
}
use boardtrace.Prelude.Int.{ℤ, pos, negsuc}
use boardtrace.Jobs.Status.{JobError, invalid_attempt, negative_jitter}

pub record RetryPolicy : Type 0 where
  pub base_delay_seconds : ℕ
  pub max_delay_seconds : ℕ
  pub max_jitter_seconds : ℕ

-- `__post_init__`, over natural fields: the negative ones are refused by its first and last test.
unfoldable pub retry_policy_accepted : RetryPolicy → Bool
retry_policy_accepted p =
    elim (ltb p.base_delay_seconds 1 || ltb p.max_delay_seconds p.base_delay_seconds) [
      | true ↦ false
      | false ↦ true
    ]

abbrev pub JitterSource : Type 0
JitterSource = ℕ → ℤ

unfoldable pub zero_jitter : JitterSource
zero_jitter _ = pos 0

-- `min(jitter.seconds(bound), bound)`, refused below zero.
bounded_jitter : JitterSource → ℕ → Result JobError ℕ
bounded_jitter jitter bound = elim (jitter bound) [
  | pos n ↦ ok (min n bound)
  | negsuc _ ↦ err negative_jitter
]

unfoldable pub delay_for_attempt : RetryPolicy → ℕ → JitterSource → Result JobError ℕ
unfolding bounded_jitter
delay_for_attempt p attempt jitter = do
  raise_if (ltb attempt 1) invalid_attempt
  let exponential = p.base_delay_seconds * 2 ^ min (attempt - 1) 30
  let delay = min p.max_delay_seconds exponential
  extra ← bounded_jitter jitter p.max_jitter_seconds
  ok (delay + extra)
