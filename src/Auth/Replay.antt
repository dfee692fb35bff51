-- ===== src/Auth/Replay.antt =====
-- Requests one after the other: what a replay of a refresh token ends stays ended.
use boardtrace.Prelude.{
  ◌==◌, Option-cases, find, All, err, Result-cases, Text, text_eq, ℕ, ◌≤◌, ◌≡◌, inl, inr, Bool,
  false, List, [], ◌∷◌, arith,
}
use boardtrace.Auth.Sessions.{
  User, AuthSession, Accounts, AuthError, Drawn, update_first, update_all, revoke_at, in_family,
  has_token, new_session, issue_pair, refresh, revoke_live, revoke, revoke_all, login,
}
use boardtrace.Auth.Families.{live_in, live_count, count-append, refresh-live_count}

pub data Request : Type 0 where
  refreshing : Drawn → ℕ → ℕ → Request
  leaving : ℕ → ℕ → Request
  leaving_all : ℕ → ℕ → Request
  entering : Drawn → (ℕ → Bool) → Text → ℕ → Request

-- Does a request open the given family? Only a login draws one.
abbrev pub opens_family : ℕ → Request → Bool
opens_family family (entering drawn verifies email now) = drawn.family == family
opens_family family _ = false

module _ (digest : ℕ → ℕ) (lifetime_seconds : ℕ) where
  unfoldable pub serve : Request → Accounts → Accounts
  serve (refreshing drawn raw now) s = (refresh digest lifetime_seconds drawn raw now s).1
  serve (leaving raw now) s = revoke digest lifetime_seconds raw now s
  serve (leaving_all user_id now) s = revoke_all digest lifetime_seconds user_id now s
  serve (entering drawn verifies email now) s =
      (login digest lifetime_seconds drawn verifies email now s).1

  unfoldable pub serve_all : List Request → Accounts → Accounts
  serve_all [] s = s
  serve_all (r ∷ rs) s = serve_all rs (serve r s)

  first_revoked_le :
      (raw now family : ℕ) (xs : List AuthSession)
      → live_count family (
          update_first
            (has_token digest lifetime_seconds raw)
            (revoke_live digest lifetime_seconds now)
            xs)
        ≤ live_count family xs
  unfolding update_first
  first_revoked_le raw now family [] = omega arith
  first_revoked_le raw now family (x ∷ xs) = ground (arith, first_revoked_le raw now family xs)

  all_revoked_le :
      (p : AuthSession → Bool) (now family : ℕ) (xs : List AuthSession)
      → live_count family (update_all p (revoke_at now) xs) ≤ live_count family xs
  unfolding update_all
  all_revoked_le p now family [] = omega arith
  all_revoked_le p now family (x ∷ xs) = ground (arith, all_revoked_le p now family xs)

  refused_le :
      (drawn : Drawn) (raw now family : ℕ) (s : Accounts) {e : AuthError}
      → (refresh digest lifetime_seconds drawn raw now s).0 ≡ err e
      → live_count family (refresh digest lifetime_seconds drawn raw now s).1.sessions
        ≤ live_count family s.sessions
  unfolding refresh
  refused_le drawn raw now family s h =
      elim (Option-cases (find (has_token digest lifetime_seconds raw) s.sessions)) [
        | inl unknown ↦ ground arith
        | inr (item, found) ↦
            ground (arith, all_revoked_le (in_family item.family_id) now family s.sessions)
      ]

  refresh_le :
      (drawn : Drawn) (raw now family : ℕ) (s : Accounts)
      → live_count family (refresh digest lifetime_seconds drawn raw now s).1.sessions
        ≤ live_count family s.sessions
  refresh_le drawn raw now family s =
      elim (Result-cases (refresh digest lifetime_seconds drawn raw now s).0) [
        | inl (token, granted) ↦
            omega (arith, refresh-live_count digest lifetime_seconds drawn raw now family s granted)
        | inr (e, denied) ↦ refused_le drawn raw now family s denied
      ]

  serve_le :
      (family : ℕ) (r : Request) (s : Accounts)
      → opens_family family r ≡ false
      → live_count family (serve r s).sessions ≤ live_count family s.sessions
  unfolding serve revoke revoke_all login issue_pair new_session
  serve_le family (refreshing drawn raw now) s h = refresh_le drawn raw now family s
  serve_le family (leaving raw now) s h = first_revoked_le raw now family s.sessions
  serve_le family (leaving_all user_id now) s h = all_revoked_le _ now family s.sessions
  serve_le family (entering drawn verifies email now) s h =
      elim (Option-cases (find (λ (u : User). text_eq u.normalized_email email) s.users)) [
        | inl unknown ↦ ground arith
        | inr (user, found) ↦ ground (
          arith,
          count-append (live_in family) s.sessions
              (new_session digest lifetime_seconds drawn user.id drawn.family now ∷ []),
        )
      ]

  -- While no login opens a family anew, the number of its working tokens does not grow, whatever
  -- requests are made in between: a family that a replay or a logout has ended stays ended.
  pub serve_all-live_count :
      (family : ℕ) (rs : List Request) (s : Accounts)
      → All (λ r. opens_family family r ≡ false) rs
      → live_count family (serve_all rs s).sessions ≤ live_count family s.sessions
  unfolding serve_all
  serve_all-live_count family [] s h = omega arith
  serve_all-live_count family (r ∷ rs) s h =
      omega (arith, serve_le family r s h.0, serve_all-live_count family rs (serve r s) h.1)
