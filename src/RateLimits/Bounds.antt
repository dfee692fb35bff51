-- ===== src/RateLimits/Bounds.antt =====
-- How many requests a window lets through, and what happens without the store.
use boardtrace.Prelude.{
  ltb, if◌then◌else◌, Bool-cases, is_none, Text, text_eq_refl, ℕ, ◌+◌, ◌-◌, ◌*◌, ◌≤◌, ◌<◌, ◌≡◌,
  refl, ap, inl, inr, true, false, not, ◌&&◌, none, some, List, [], ◌∷◌, arith,
}
use boardtrace.RateLimits.Counters.{
  Category, category_eq, Limit, Counter, has_key, lookup, counted, hit,
}
use boardtrace.RateLimits.Dispatch.{
  Request, authentication_required, rate_limit_state_unavailable, is_health, is_bootstrap,
  has_bearer, enforce, gate, guarded, serve_request, dispatch,
}

module _ (ttl_of : ℕ → ℕ) (limit : Limit) (identity : Text) where
  -- How many of the hits on one key, at the given times, are let through.
  pub let_through : List ℕ → List Counter → ℕ
  let_through [] s = 0
  let_through (now ∷ times) s =
      let (answer, s') = hit ttl_of limit identity now s in
      let rest = let_through times s' in if is_none answer then rest + 1 else rest

  abbrev Within : ℕ → List ℕ → Type 0
  Within deadline [] = Unit
  Within deadline (t ∷ ts) = (t < deadline) × (0 < ttl_of (deadline - t)) × Within deadline ts

  category_eq_refl : (c : Category) → category_eq c c ≡ true
  category_eq_refl c = ground arith

  counted_on :
      (now deadline n : ℕ) (s : List Counter) (e : Counter)
      → lookup limit.category identity now s ≡ some e
      → e.value ≡ n
      → e.expires_at ≡ deadline
      → has_key limit.category identity e ≡ true
      → now < deadline
      → 0 < ttl_of (deadline - now)
      → let (answer, s') = hit ttl_of limit identity now s in
        (is_none answer ≡ not (ltb limit.count (n + 1)))
        × ((later : ℕ)
            → later < deadline
            → lookup limit.category identity later s' ≡ some (record e { value = e.value + 1 }))
  unfolding hit lookup
  counted_on now deadline n s e f v x k before left = (ground arith, λ later h. ground arith)

  bounded_from :
      (deadline n : ℕ) (times : List ℕ) (s : List Counter) (e : Counter)
      → ((later : ℕ) → later < deadline → lookup limit.category identity later s ≡ some e)
      → e.value ≡ n
      → e.expires_at ≡ deadline
      → has_key limit.category identity e ≡ true
      → Within deadline times
      → let_through times s ≤ limit.count - n
  unfolding let_through
  bounded_from deadline n [] s e f v x k w = omega arith
  bounded_from deadline n (now ∷ times) s e f v x k w =
      let (answer, after) = counted_on now deadline n s e (f now w.0) v x k w.0 w.1 in
      let rest =
        bounded_from deadline (n + 1) times (hit ttl_of limit identity now s).1
          (record e { value = e.value + 1 }) after (ap (λ m. m + 1) v) x k w.2 in
      ground (arith, answer, rest)

  first_hit :
      (now : ℕ) (s : List Counter)
      → lookup limit.category identity now s ≡ none
      → 0 < limit.window_seconds
      → (later : ℕ) → later < now + limit.window_seconds * 1000
      → lookup limit.category identity later (hit ttl_of limit identity now s).1
        ≡ some (counted limit identity now s)
  unfolding hit lookup
  first_hit now s h w later b =
      ground (arith, text_eq_refl identity, category_eq_refl limit.category)

  -- Under one key a limit lets through no more requests than it says, from the first request of a
  -- window until the window ends, as long as the time left, at each of them, is not rounded down
  -- to no seconds at all: then the answer of the script is taken for a permission.
  pub let_through_bounded :
      (now : ℕ) (times : List ℕ) (s : List Counter)
      → lookup limit.category identity now s ≡ none
      → 0 < limit.window_seconds
      → 0 < limit.count
      → Within (now + limit.window_seconds * 1000) times
      → let_through (now ∷ times) s ≤ limit.count
  unfolding let_through counted
  let_through_bounded now times s h w c inside =
      let e = counted limit identity now s in
      let rest =
        bounded_from (now + limit.window_seconds * 1000) 1 times (hit ttl_of limit identity now s).1
          e (first_hit now s h w) (ground arith) (ground arith)
          (ground (arith, text_eq_refl identity, category_eq_refl limit.category)) inside in
      ground (arith, rest)

-- Without the store no request reaches the application: one that must show a bearer token and does
-- not is refused as ever, every other is answered as unavailable, and no counter changes.
pub dispatch-unavailable :
    (ttl_of : ℕ → ℕ) (mask : Text → Text) (now status : ℕ) (r : Request) (s : List Counter)
    → dispatch ttl_of mask false now r status s ≡ (
      if not (is_health r.path) && not (is_bootstrap r.path) && not (has_bearer r.authorization)
          then authentication_required
          else rate_limit_state_unavailable,
      s,
    )
unfolding dispatch serve_request guarded gate enforce
dispatch-unavailable ttl_of mask now status r s = elim (Bool-cases (is_health r.path)) [
  | inl h ↦ rw (h, dispatch) refl
  | inr h ↦ elim (Bool-cases (is_bootstrap r.path)) [
    | inl b ↦ rw (h, b, dispatch) refl
    | inr b ↦ elim (Bool-cases (has_bearer r.authorization)) [
      | inl t ↦ rw (h, b, t, dispatch) refl
      | inr t ↦ rw (h, b, t, dispatch) refl
    ]
  ]
]
