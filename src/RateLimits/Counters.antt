-- ===== src/RateLimits/Counters.antt =====
-- The counters of apps/api/src/boardtrace_api/rate_limits.py. Times are milliseconds. A key that
-- Redis has expired is gone. How Redis rounds the time that a key has left to seconds is a
-- parameter, and so is the digest that masks an identity.
use boardtrace.Prelude.{
  ltb, if◌then◌else◌, Text, text_eq, ℕ, zero, suc, ◌+◌, ◌-◌, ◌*◌, Bool, true, false, ◌&&◌, Option,
  none, some, List, [], ◌∷◌,
}

-- The category of a limit, which its key carries, and the key of a block.
pub data Category : Type 0 where
  authenticated_user authenticated_global analysis_start manual_retry failed_login health : Category
  login_block : Category

abbrev pub category_eq : Category → Category → Bool
category_eq authenticated_user authenticated_user = true
category_eq authenticated_global authenticated_global = true
category_eq analysis_start analysis_start = true
category_eq manual_retry manual_retry = true
category_eq failed_login failed_login = true
category_eq health health = true
category_eq login_block login_block = true
category_eq _ _ = false

pub record Limit : Type 0 where
  pub category : Category
  pub count : ℕ
  pub window_seconds : ℕ

abbrev limit_of : Category → ℕ → ℕ → Limit
limit_of c n w = record { category = c; count = n; window_seconds = w }

-- The six limits and the length of a block.
unfoldable pub limit_for : Category → Limit
limit_for authenticated_user = limit_of authenticated_user 30 60
limit_for authenticated_global = limit_of authenticated_global 120 60
limit_for analysis_start = limit_of analysis_start 3 600
limit_for manual_retry = limit_of manual_retry 2 900
limit_for failed_login = limit_of failed_login 10 900
limit_for health = limit_of health 30 60
limit_for login_block = limit_of login_block 0 1800

pub record Counter : Type 0 where
  pub category : Category
  pub identity : Text
  pub value : ℕ
  pub expires_at : ℕ

abbrev pub has_key : Category → Text → Counter → Bool
has_key c identity e = category_eq e.category c && text_eq e.identity identity

-- The counter under a key, unless it has expired.
unfoldable pub lookup : Category → Text → ℕ → List Counter → Option Counter
lookup c identity now [] = none
lookup c identity now (e ∷ es) =
    let rest = lookup c identity now es in
    if has_key c identity e && ltb now e.expires_at then some e else rest

unfoldable pub put : Counter → List Counter → List Counter
put e es = e ∷ es

-- `INCR`, and `EXPIRE` on the first hit.
unfoldable pub counted : Limit → Text → ℕ → List Counter → Counter
counted limit identity now es = elim (lookup limit.category identity now es) [
  | none ↦ record {
    category = limit.category;
    identity = identity;
    value = 1;
    expires_at = now + limit.window_seconds * 1000;
  }
  | some e ↦ record e { value = e.value + 1 }
]

module _ (ttl_of : ℕ → ℕ) where
  abbrev positive : ℕ → Option ℕ
  positive zero = none
  positive (suc n) = some (suc n)

  -- `_HIT_SCRIPT` with the test of `hit`: the seconds to wait, when the request is refused.
  unfoldable pub hit : Limit → Text → ℕ → List Counter → Option ℕ × List Counter
  unfolding counted put
  hit limit identity now es =
      let e = counted limit identity now es in
      (if ltb limit.count e.value then positive (ttl_of (e.expires_at - now)) else none, put e es)

  -- `get_ttl`
  unfoldable pub get_ttl : Category → Text → ℕ → List Counter → ℕ
  get_ttl c identity now es = elim (lookup c identity now es) [
    | none ↦ 0
    | some e ↦ ttl_of (e.expires_at - now)
  ]

-- `block`
unfoldable pub block : Category → Text → ℕ → ℕ → List Counter → List Counter
unfolding put
block c identity seconds_ now =
    put
      (record { category = c; identity = identity; value = 1; expires_at = now + seconds_ * 1000 })
