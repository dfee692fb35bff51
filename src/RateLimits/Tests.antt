-- ===== src/RateLimits/Tests.antt =====
-- A limit of two manual retries in fifteen minutes, asked for five times.
use boardtrace.Prelude.{
  if◌then◌else◌, codes, ℕ, ◌+◌, ◌/◌, ◌≤◌, ◌≡◌, refl, false, not, ◌&&◌, none, List, [], ◌∷◌, arith,
}
use boardtrace.RateLimits.Counters.{manual_retry, Limit, lookup}
use boardtrace.RateLimits.Dispatch.{
  no_object, Request, authentication_required, rate_limit_state_unavailable, is_health,
  is_bootstrap, has_bearer, dispatch,
}
use boardtrace.RateLimits.Bounds.{let_through, let_through_bounded, dispatch-unavailable}

abbrev round_up : ℕ → ℕ
round_up ms = ms / 1000 + 1

abbrev two_retries : Limit
two_retries = record { category = manual_retry; count = 2; window_seconds = 900 }

abbrev times : List ℕ
times = 2000 ∷ 3000 ∷ 4000 ∷ 5000 ∷ []

no_counter : lookup manual_retry (codes "user") 1000 [] ≡ none
unfolding lookup
no_counter = refl

let_through_bounded_example :
    let_through round_up two_retries (codes "user") (1000 ∷ times) [] ≤ two_retries.count
let_through_bounded_example =
    let_through_bounded round_up two_retries (codes "user") 1000 times [] no_counter (omega arith)
      (omega arith) (ground arith)

abbrev status_request : Request
status_request = record {
  path = codes "/api/v1/games";
  method = codes "GET";
  client = none;
  authorization = codes "Bearer token";
  content_length = none;
  body = no_object;
}

dispatch-unavailable_example : dispatch round_up (λ t. t) false 1000 status_request 200 [] ≡ (
  if not (is_health status_request.path)
        && not (is_bootstrap status_request.path)
        && not (has_bearer status_request.authorization)
      then authentication_required
      else rate_limit_state_unavailable,
  [],
)
dispatch-unavailable_example = dispatch-unavailable round_up (λ t. t) 1000 200 status_request []
