-- ===== src/Auth/Families.antt =====
-- Families of refresh tokens: a token works once, and a replay ends its family.
use boardtrace.Prelude.{
  ◌==◌, if◌then◌else◌, Bool-cases, Option-cases, find, count, find-append, ok, err, ℕ, ◌+◌, ◌<◌,
  ◌≡◌, refl, ◌∙◌, inl, inr, Bool, true, false, ◌&&◌, Option, some, List, [], ◌∷◌, ◌++◌, arith,
}
use boardtrace.Auth.Sessions.{
  AuthSession, Accounts, authentication_error, Drawn, update_first, update_all, revoke_at,
  in_family, is_live, has_token, new_session, issue_pair, rotate, refresh,
}

abbrev pub live_in : ℕ → AuthSession → Bool
live_in family item = in_family family item && is_live item

-- How many tokens of a family still work.
abbrev pub live_count : ℕ → List AuthSession → ℕ
live_count family = count (live_in family)

pub count-append :
    {A : Type 0} (p : A → Bool) (xs ys : List A) → count p (xs ++ ys) ≡ count p xs + count p ys
count-append p [] ys = omega arith
count-append p (x ∷ xs) ys = ground (arith, count-append p xs ys)

-- The row that was found is found again after an update that the query does not notice.
pub find-update_first :
    {A : Type 0} (p : A → Bool) (g : A → A) (xs : List A) (a : A)
    → ((x : A) → p (g x) ≡ p x)
    → find p xs ≡ some a
    → find p (update_first p g xs) ≡ some (g a)
unfolding update_first
find-update_first p g [] a keep h = cc
find-update_first p g (x ∷ xs) a keep h = elim (Bool-cases (p x)) [
  | inl hit ↦ ground (arith, keep x)
  | inr miss ↦ ground (arith, find-update_first p g xs a keep)
]

module _ (digest : ℕ → ℕ) (lifetime_seconds : ℕ) where
  revoked_first :
      (raw now family : ℕ) (item : AuthSession) (xs : List AuthSession)
      → find (has_token digest lifetime_seconds raw) xs ≡ some item
      → is_live item ≡ true
      → live_count family (update_first (has_token digest lifetime_seconds raw) (revoke_at now) xs)
          + (if item.family_id == family then 1 else 0)
        ≡ live_count family xs
  unfolding update_first
  revoked_first raw now family item [] h l = cc
  revoked_first raw now family item (x ∷ xs) h l =
      ground (arith, revoked_first raw now family item xs)

  relinked :
      (raw family : ℕ) (id : Option ℕ) (xs : List AuthSession)
      → live_count family (
          update_first
            (has_token digest lifetime_seconds raw)
            (λ (item : AuthSession). record item { replaced_by_session_id = id })
            xs)
        ≡ live_count family xs
  unfolding update_first
  relinked raw family id [] = refl
  relinked raw family id (x ∷ xs) = ground (arith, relinked raw family id xs)

  rotated :
      (drawn : Drawn) (raw now family : ℕ) (item : AuthSession) (xs : List AuthSession)
      → find (has_token digest lifetime_seconds raw) xs ≡ some item
      → is_live item ≡ true
      → live_count family (rotate digest lifetime_seconds drawn raw now item xs)
        ≡ live_count family xs
  unfolding rotate issue_pair new_session
  rotated drawn raw now family item xs h l =
      let revoked = update_first (has_token digest lifetime_seconds raw) (revoke_at now) xs in
      let new = new_session digest lifetime_seconds drawn item.user_id item.family_id now in
      relinked raw family _ (revoked ++ new ∷ [])
      ∙ count-append (live_in family) revoked (new ∷ [])
      ∙ ground (arith, revoked_first raw now family item xs h l)

  -- A refresh that is granted keeps the number of working tokens of every family: the token that
  -- is shown stops working as its successor starts.
  pub refresh-live_count :
      (drawn : Drawn) (raw now family : ℕ) (s : Accounts) {token : ℕ}
      → (refresh digest lifetime_seconds drawn raw now s).0 ≡ ok token
      → live_count family (refresh digest lifetime_seconds drawn raw now s).1.sessions
        ≡ live_count family s.sessions
  unfolding refresh
  refresh-live_count drawn raw now family s h =
      elim (Option-cases (find (has_token digest lifetime_seconds raw) s.sessions)) [
        | inl unknown ↦ absurd (ground arith)
        | inr (item, found) ↦ ground (arith, rotated drawn raw now family item s.sessions found)
      ]

  all_revoked :
      (now family other : ℕ) (xs : List AuthSession)
      → live_count other (update_all (in_family family) (revoke_at now) xs)
        ≡ (if family == other then 0 else live_count other xs)
  unfolding update_all
  all_revoked now family other [] = ground arith
  all_revoked now family other (x ∷ xs) = ground (arith, all_revoked now family other xs)

  -- After a rotation the row of the token is still the first with its digest, and is revoked.
  find-rotate :
      (drawn : Drawn) (raw now : ℕ) (item : AuthSession) (xs : List AuthSession)
      → find (has_token digest lifetime_seconds raw) xs ≡ some item
      → (old : AuthSession) × (find
            (has_token digest lifetime_seconds raw)
            (rotate digest lifetime_seconds drawn raw now item xs)
          ≡ some old)
        × (is_live old ≡ false)
        × (old.family_id ≡ item.family_id)
        × (old.expires_at ≡ item.expires_at)
  unfolding rotate issue_pair
  find-rotate drawn raw now item xs h =
      let p = has_token digest lifetime_seconds raw in
      let one = find-update_first p (revoke_at now) xs item (λ x. refl) h in
      let more =
        find-append p _
          (new_session digest lifetime_seconds drawn item.user_id item.family_id now ∷ [])
          (revoke_at now item) one in
      (
        _,
        find-update_first p (λ (x : AuthSession). record x { replaced_by_session_id = _ }) _
            (revoke_at now item) (λ x. refl) more,
        refl,
        refl,
        refl,
      )

  -- A refresh token works once. Shown again, at any later time, it is refused; and while it has not yet run
  -- out, no token of its family works any more.
  pub refresh_once :
      (drawn again : Drawn) (raw now later : ℕ) (s : Accounts) {token : ℕ} {item : AuthSession}
      → (refresh digest lifetime_seconds drawn raw now s).0 ≡ ok token
      → find (has_token digest lifetime_seconds raw) s.sessions ≡ some item
      → let s' = (refresh digest lifetime_seconds drawn raw now s).1 in
        let (answer, s'') = refresh digest lifetime_seconds again raw later s' in
        (answer ≡ err authentication_error)
        × (later < item.expires_at → live_count item.family_id s''.sessions ≡ 0)
  unfolding refresh
  refresh_once drawn again raw now later s {item = item} h f =
      let (old, found, dead, family, runs) = find-rotate drawn raw now item s.sessions f in
      ground (
        arith,
        found,
        dead,
        family,
        runs,
        all_revoked later item.family_id item.family_id
            (rotate digest lifetime_seconds drawn raw now item s.sessions),
      )
