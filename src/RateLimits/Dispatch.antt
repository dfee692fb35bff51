-- ===== src/RateLimits/Dispatch.antt =====
-- `dispatch` of apps/api/src/boardtrace_api/core/rate_limit_middleware.py. The application behind
-- the middleware is the status that it answers. A store that is not up raises at its first use.
use boardtrace.Prelude.{
  ltb, ◌==◌, if◌then◌else◌, length, take, Result, ok, err, ◌>>=◌, ◌>>◌, raise_if, Text, codes,
  text_eq, ℕ, zero, suc, Bool, true, false, not, ◌&&◌, ◌||◌, Option, none, some, List, [], ◌∷◌,
  ◌++◌,
}
use boardtrace.RateLimits.Counters.{
  Category, authenticated_user, authenticated_global, analysis_start, manual_retry, failed_login,
  health, login_block, limit_for, Counter, hit, get_ttl, block,
}

-- What the middleware reads of a request's JSON body: not JSON at all, no object, or an object with
-- its two fields. `source_checksum` is none when it is no string.
pub data Payload : Type 0 where
  invalid_json no_object : Payload
  object : Bool → Option Text → Payload

pub record Request : Type 0 where
  pub path : Text
  pub method : Text
  pub client : Option Text
  pub authorization : Text
  pub content_length : Option Text
  pub body : Payload

pub data Response : Type 0 where
  passed : ℕ → Response
  limited : ℕ → Response
  authentication_required invalid_request invalid_retry_fingerprint : Response
  rate_limit_state_unavailable : Response

-- `RateLimitUnavailable`
pub data StoreError : Type 0 where
  unavailable : StoreError

unfoldable pub is_health : Text → Bool
is_health path = text_eq path (codes "/health")

abbrev pub login_path : Text
login_path = codes "/api/v1/auth/login"

unfoldable pub is_bootstrap : Text → Bool
is_bootstrap path =
    text_eq path login_path
    || text_eq path (codes "/api/v1/auth/register")
    || text_eq path (codes "/api/v1/extension-pairings/exchange")

abbrev pub bearer : Text
bearer = codes "Bearer "

abbrev drop_bearer : Text → Text
drop_bearer (_ ∷ _ ∷ _ ∷ _ ∷ _ ∷ _ ∷ _ ∷ rest) = rest
drop_bearer _ = []

-- Does the header start with the word and go on after it?
unfoldable pub has_bearer : Text → Bool
has_bearer header = text_eq (take 7 header) bearer && ltb 7 (length header)

abbrev is_start : Request → Bool
is_start r = text_eq r.method (codes "POST") && text_eq r.path (codes "/api/v1/games/ingestions")

abbrev has_body : Option Text → Bool
has_body none = false
has_body (some n) = not (text_eq n (codes "0"))

-- The payload that is looked at: an empty object when the request has no body.
abbrev payload_of : Request → Payload
payload_of r = if has_body r.content_length then r.body else object false none

abbrev pub Served : Type 0
Served = Result StoreError (Response × List Counter)

module _ (ttl_of : ℕ → ℕ) (mask : Text → Text) (up : Bool) (now : ℕ) where
  -- `enforce`
  unfoldable pub enforce :
      Category → Text → List Counter → Result StoreError (Option ℕ × List Counter)
  enforce c identity s = do
    raise_if (not up) unavailable
    ok (hit ttl_of (limit_for c) identity now s)

  -- `enforce`, and the answer to a request that is over the limit; or go on.
  unfoldable pub gate : Category → Text → (List Counter → Served) → List Counter → Served
  unfolding enforce
  gate c identity next s = do
    answer ← enforce c identity s
    elim answer.0 [ some retry ↦ ok (limited retry, answer.1) | none ↦ next answer.1 ]

  client_of : Option Text → Text
  client_of none = mask (codes "unknown")
  client_of (some host) = mask host

  after_failure : Text → ℕ → Option ℕ × List Counter → Served
  after_failure client status (some _, s) = ok (passed status, block login_block client 1800 now s)
  after_failure client status (none, s) = ok (passed status, s)

  -- The answer of the application; a failed login is counted, and at the limit blocked.
  bootstrap : Text → Bool → ℕ → List Counter → Served
  unfolding enforce after_failure
  bootstrap client is_login status s =
      if is_login && status == 401
      then enforce failed_login client s >>= after_failure client status
      else ok (passed status, s)

  -- The limit on manual retries of one upload.
  retries : Text → Payload → (List Counter → Served) → List Counter → Served
  unfolding gate
  retries principal invalid_json next s = ok (invalid_request, s)
  retries principal (object true (some checksum)) next s =
      if length checksum == 64
      then gate manual_retry (principal ++ codes ":" ++ checksum) next s
      else ok (invalid_retry_fingerprint, s)
  retries principal (object true none) next s = ok (invalid_retry_fingerprint, s)
  retries principal _ next s = next s

  -- The requests that must show a token.
  unfoldable pub guarded : Request → ℕ → List Counter → Served
  unfolding gate retries
  guarded r status s =
      if not (has_bearer r.authorization)
      then ok (authentication_required, s)
      else let principal = mask (drop_bearer r.authorization) in
        let finish : List Counter → Served = λ t. ok (passed status, t) in
        gate authenticated_global (codes "all-authenticated-users")
          (gate authenticated_user principal (λ t.
            if is_start r
            then gate analysis_start principal (retries principal (payload_of r) finish) t
            else finish t))
          s

  blocked_or : ℕ → Served → List Counter → Served
  blocked_or zero next s = next
  blocked_or (suc n) next s = ok (limited (suc n), s)

  unfoldable pub serve_request : Request → ℕ → List Counter → Served
  unfolding gate bootstrap guarded client_of blocked_or
  serve_request r status s =
      let client = client_of r.client in
      if is_health r.path
      then gate health client (λ t. ok (passed status, t)) s
      else if is_bootstrap r.path
      then raise_if (not up) unavailable
        >> blocked_or (get_ttl ttl_of login_block client now s)
            (bootstrap client (text_eq r.path login_path) status s) s
      else guarded r status s

  -- `dispatch`: what the store raises is answered with status 503.
  unfoldable pub dispatch : Request → ℕ → List Counter → Response × List Counter
  unfolding serve_request
  dispatch r status s = elim (serve_request r status s) [
    | ok answer ↦ answer
    | err _ ↦ (rate_limit_state_unavailable, s)
  ]
