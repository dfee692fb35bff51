-- ===== src/Auth/Tests.antt =====
-- A user logs in, rotates a token, and the old token is replayed.
use boardtrace.Auth.Pairing.{
  ExtensionPairing, ExtensionToken, pairing_error, all_scopes, no_repeats, non_empty, create,
  exchange, exchange_once,
}
use boardtrace.Prelude.{
  ◌==◌, ok, err, Text, codes, text_eq, ℕ, ◌+◌, ◌≤◌, ◌<◌, ◌≡◌, refl, true, none, some, List, [], ◌∷◌,
}
use boardtrace.Auth.Sessions.{User, AuthSession, Accounts, authentication_error, Drawn, refresh}
use boardtrace.Auth.Families.{live_count, refresh_once}
use boardtrace.Auth.Replay.{
  Request, refreshing, leaving_all, entering, serve_all, serve_all-live_count,
}

abbrev digest : ℕ → ℕ
digest token = token + 1000

abbrev alice : User
alice = record { id = 1; normalized_email = codes "a@b"; password_hash = some 7; is_active = true }

abbrev first : AuthSession
first = record {
  id = 51;
  token_digest = 1005;
  family_id = 9;
  user_id = 1;
  expires_at = 900;
  revoked_at = none;
  replaced_by_session_id = none;
}

abbrev accounts : Accounts
accounts = record { users = alice ∷ []; sessions = first ∷ [] }

abbrev drawn : Drawn
drawn = record { token = 6; session = 52; family = 10 }

abbrev again : Drawn
again = record { token = 7; session = 53; family = 11 }

rotation_granted : (refresh digest 3600 drawn 5 100 accounts).0 ≡ ok 6
unfolding refresh
rotation_granted = refl

refresh_once_example :
    let s' = (refresh digest 3600 drawn 5 100 accounts).1 in
    let (answer, s'') = refresh digest 3600 again 5 200 s' in
    (answer ≡ err authentication_error)
    × (200 < first.expires_at → live_count first.family_id s''.sessions ≡ 0)
refresh_once_example = refresh_once digest 3600 drawn again 5 100 200 accounts rotation_granted refl

abbrev requests : List Request
requests =
    entering drawn (λ h. h == 7) (codes "a@b") 50 ∷ refreshing again 6 60 ∷ leaving_all 1 70 ∷ []

serve_all-live_count_example :
    live_count 9 (serve_all digest 3600 requests accounts).sessions ≤ live_count 9 accounts.sessions
serve_all-live_count_example =
    serve_all-live_count digest 3600 9 requests accounts (refl, (refl, (refl, tt)))

abbrev extension : Text
extension = codes "extension-1"

abbrev pairings : List ExtensionPairing
pairings =
    create digest 40 1 extension (codes "games:ingest" ∷ codes "games:read-status" ∷ []) 100 300 []

abbrev issued : ExtensionToken
issued = record {
  user_id = 1;
  extension_id = extension;
  scopes = codes "games:ingest" ∷ codes "games:read-status" ∷ [];
}

code_exchanged : (exchange digest 40 extension 200 pairings).0 ≡ ok issued
unfolding exchange create text_eq
code_exchanged = refl

exchange_once_example :
    (issued.extension_id ≡ extension)
    × (all_scopes issued.scopes ≡ true)
    × (non_empty issued.scopes ≡ true)
    × (no_repeats issued.scopes ≡ true)
    × (exchange digest 40 extension 201 (exchange digest 40 extension 200 pairings).1
        ≡ (err pairing_error, (exchange digest 40 extension 200 pairings).1))
exchange_once_example = exchange_once digest 40 200 201 extension extension pairings code_exchanged
