-- ===== src/Auth/Sessions.antt =====
-- Class AuthenticationService of apps/api/src/boardtrace_api/auth/service.py, with the commits of
-- api/v1/endpoints/auth.py: a refresh is committed whether it succeeds or is refused, so the
-- state that an operation leaves is the state after the request. The digest of a token is a
-- parameter; a token and an identifier that are drawn at random are arguments, as the time is.
use boardtrace.Prelude.{
  leb, ◌==◌, if◌then◌else◌, is_some, is_none, find, Result, ok, err, Text, text_eq, ℕ, ◌+◌, Bool,
  false, not, ◌&&◌, ◌||◌, Option, none, some, List, [], ◌∷◌, ◌++◌,
}
use boardtrace.Jobs.Row.{seconds}

pub record User : Type 0 where
  pub id : ℕ
  pub normalized_email : Text
  pub password_hash : Option ℕ
  pub is_active : Bool

pub record AuthSession : Type 0 where
  pub id : ℕ
  pub token_digest : ℕ
  pub family_id : ℕ
  pub user_id : ℕ
  pub expires_at : ℕ
  pub revoked_at : Option ℕ
  pub replaced_by_session_id : Option ℕ

pub record Accounts : Type 0 where
  pub users : List User
  pub sessions : List AuthSession

pub data AuthError : Type 0 where
  authentication_error : AuthError

-- What is drawn for a new pair: the refresh token, the identifier of its session, and the family
-- that it opens where none is given.
pub record Drawn : Type 0 where
  pub token : ℕ
  pub session : ℕ
  pub family : ℕ

module _ {A : Type 0} where
  -- An update of the row that a query finds.
  unfoldable pub update_first : (A → Bool) → (A → A) → List A → List A
  update_first p f [] = []
  update_first p f (a ∷ rest) =
      let done = update_first p f rest in if p a then f a ∷ rest else a ∷ done

  -- An update of every row that a query finds.
  unfoldable pub update_all : (A → Bool) → (A → A) → List A → List A
  update_all p f [] = []
  update_all p f (a ∷ rest) = (if p a then f a else a) ∷ update_all p f rest

abbrev pub revoke_at : ℕ → AuthSession → AuthSession
revoke_at now item = record item { revoked_at = some now }

abbrev pub in_family : ℕ → AuthSession → Bool
in_family family item = item.family_id == family

abbrev pub user_is : ℕ → User → Bool
user_is user_id u = u.id == user_id

abbrev pub is_live : AuthSession → Bool
is_live item = is_none item.revoked_at

abbrev active_user : Option User → Bool
active_user none = false
active_user (some u) = u.is_active

module _ (digest : ℕ → ℕ) (lifetime_seconds : ℕ) where
  abbrev pub has_token : ℕ → AuthSession → Bool
  has_token raw item = item.token_digest == digest raw

  -- The row that `issue_pair` adds.
  unfoldable pub new_session : Drawn → ℕ → ℕ → ℕ → AuthSession
  new_session drawn user_id family now = record {
    id = drawn.session;
    token_digest = digest drawn.token;
    family_id = family;
    user_id = user_id;
    expires_at = now + seconds lifetime_seconds;
    revoked_at = none;
    replaced_by_session_id = none;
  }

  unfoldable pub issue_pair : Drawn → ℕ → Option ℕ → ℕ → List AuthSession → List AuthSession
  unfolding new_session
  issue_pair drawn user_id none now sessions =
      sessions ++ new_session drawn user_id drawn.family now ∷ []
  issue_pair drawn user_id (some family) now sessions =
      sessions ++ new_session drawn user_id family now ∷ []

  abbrev replacement_id : ℕ → List AuthSession → Option ℕ
  replacement_id token sessions = elim (find (has_token token) sessions) [
    | none ↦ none
    | some item ↦ some item.id
  ]

  abbrev replaced_by : Option ℕ → AuthSession → AuthSession
  replaced_by id item = record item { replaced_by_session_id = id }

  -- The rotation of a live token: the old row is revoked and linked to the new one.
  unfoldable pub rotate : Drawn → ℕ → ℕ → AuthSession → List AuthSession → List AuthSession
  unfolding issue_pair
  rotate drawn raw now item sessions =
      let issued =
        issue_pair drawn item.user_id (some item.family_id) now
          (update_first (has_token raw) (revoke_at now) sessions) in
      update_first (has_token raw) (replaced_by (replacement_id drawn.token issued)) issued

  refresh_item : Drawn → ℕ → ℕ → Accounts → AuthSession → Result AuthError ℕ × Accounts
  unfolding rotate
  refresh_item drawn raw now s item =
      if leb item.expires_at now
      then (err authentication_error, s)
      else if is_some item.revoked_at
      then (
        err authentication_error,
        record s { sessions = update_all (in_family item.family_id) (revoke_at now) s.sessions },
      )
      else if not (active_user (find (user_is item.user_id) s.users))
      then (err authentication_error, s)
      else (ok drawn.token, record s { sessions = rotate drawn raw now item s.sessions })

  -- `refresh`, which answers the new refresh token.
  unfoldable pub refresh : Drawn → ℕ → ℕ → Accounts → Result AuthError ℕ × Accounts
  unfolding refresh_item
  refresh drawn raw now s = elim (find (has_token raw) s.sessions) [
    | none ↦ (err authentication_error, s)
    | some item ↦ refresh_item drawn raw now s item
  ]

  abbrev pub revoke_live : ℕ → AuthSession → AuthSession
  revoke_live now item = if is_live item then revoke_at now item else item

  -- `revoke`
  unfoldable pub revoke : ℕ → ℕ → Accounts → Accounts
  revoke raw now s = record s {
    sessions = update_first (has_token raw) (revoke_live now) s.sessions;
  }

  -- `revoke_all`
  unfoldable pub revoke_all : ℕ → ℕ → Accounts → Accounts
  revoke_all user_id now s = record s {
    sessions =
        update_all (λ (item : AuthSession). item.user_id == user_id && is_live item) (revoke_at now)
          s.sessions;
  }

  -- `login`, where `verifies` is the check of the password against a stored hash. The time of the
  -- login, which the user's row keeps, is left out.
  unfoldable pub login : Drawn → (ℕ → Bool) → Text → ℕ → Accounts → Result AuthError ℕ × Accounts
  unfolding issue_pair
  login drawn verifies email now s =
      elim (find (λ (u : User). text_eq u.normalized_email email) s.users) [
        | none ↦ (err authentication_error, s)
        | some user ↦ elim user.password_hash [
          | none ↦ (err authentication_error, s)
          | some hash ↦
              if not user.is_active || not (verifies hash) then (err authentication_error, s) else (
                ok drawn.token,
                record s { sessions = issue_pair drawn user.id none now s.sessions },
              )
        ]
      ]
