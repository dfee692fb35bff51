-- ===== src/Auth/Pairing.antt =====
-- The pairing of a browser extension: services/pairing.py and the scope checks of auth/tokens.py
-- under apps/api/src/boardtrace_api. The digest of a code is a parameter; a token is what is
-- signed, its user, extension and scopes. The commit or rollback of api/v1/endpoints/pairing.py is
-- part of the exchange: what is raised leaves the table as it was.
use boardtrace.Prelude.{
  leb, ◌==◌, if◌then◌else◌, Option-cases, is_none, find, any, Result, ok, err, Text, codes, text_eq,
  ℕ, ◌+◌, ◌≡◌, refl, inl, inr, Bool, true, false, not, ◌&&◌, ◌||◌, Option, none, some, List, [],
  ◌∷◌, ◌++◌, arith,
}
use boardtrace.Auth.Sessions.{update_first}
use boardtrace.Auth.Families.{find-update_first}
use boardtrace.Jobs.Row.{seconds}

pub record ExtensionPairing : Type 0 where
  pub code_digest : ℕ
  pub user_id : ℕ
  pub extension_id : Text
  pub scopes : List Text
  pub expires_at : ℕ
  pub redeemed_at : Option ℕ

pub record ExtensionToken : Type 0 where
  pub user_id : ℕ
  pub extension_id : Text
  pub scopes : List Text

-- PairingError, and the ValueError of `issue_extension_token`.
pub data PairingError : Type 0 where
  pairing_error scopes_refused : PairingError

abbrev pub is_extension_scope : Text → Bool
is_extension_scope scope =
    text_eq scope (codes "games:ingest") || text_eq scope (codes "games:read-status")

abbrev pub all_scopes : List Text → Bool
all_scopes [] = true
all_scopes (scope ∷ rest) = is_extension_scope scope && all_scopes rest

abbrev pub no_repeats : List Text → Bool
no_repeats [] = true
no_repeats (scope ∷ rest) = not (any (text_eq scope) rest) && no_repeats rest

abbrev pub non_empty : List Text → Bool
non_empty [] = false
non_empty (_ ∷ _) = true

-- `issue_extension_token`, the claims of the token but for its times and its identifier.
unfoldable pub issue_extension_token : ℕ → Text → List Text → Result PairingError ExtensionToken
issue_extension_token user_id extension_id scopes =
    if not (non_empty scopes) || not (no_repeats scopes) || not (all_scopes scopes)
    then err scopes_refused
    else ok (record { user_id = user_id; extension_id = extension_id; scopes = scopes })

abbrev pub redeemed : ℕ → ExtensionPairing → ExtensionPairing
redeemed now pairing = record pairing { redeemed_at = some now }

module _ (digest : ℕ → ℕ) where
  abbrev pub has_code : ℕ → ExtensionPairing → Bool
  has_code code pairing = pairing.code_digest == digest code

  -- `create`, for a code that is drawn at random.
  unfoldable pub create :
      ℕ → ℕ → Text → List Text → ℕ → ℕ → List ExtensionPairing → List ExtensionPairing
  create code user_id extension_id scopes now lifetime_seconds pairings =
      pairings
      ++ record {
        code_digest = digest code;
        user_id = user_id;
        extension_id = extension_id;
        scopes = scopes;
        expires_at = now + seconds lifetime_seconds;
        redeemed_at = none;
      }
        ∷ []

  unfoldable pub usable : ExtensionPairing → Text → ℕ → Bool
  usable pairing extension_id now =
      is_none pairing.redeemed_at
      && not (leb pairing.expires_at now)
      && text_eq pairing.extension_id extension_id

  -- `exchange`
  unfoldable pub exchange :
      ℕ
      → Text
      → ℕ
      → List ExtensionPairing
      → Result PairingError ExtensionToken × List ExtensionPairing
  unfolding usable issue_extension_token
  exchange code extension_id now pairings = elim (find (has_code code) pairings) [
    | none ↦ (err pairing_error, pairings)
    | some pairing ↦
        if not (usable pairing extension_id now)
        then (err pairing_error, pairings)
        else elim (issue_extension_token pairing.user_id extension_id pairing.scopes) [
          | err e ↦ (err e, pairings)
          | ok token ↦ (ok token, update_first (has_code code) (redeemed now) pairings)
        ]
  ]

  -- A code that is exchanged gives a token for the extension that asked, with allowed scopes only,
  -- at least one and none twice; exchanged again, at any time and by any extension, it is refused.
  pub exchange_once :
      (code now later : ℕ) (extension_id other : Text) (pairings : List ExtensionPairing)
      {token : ExtensionToken}
      → (exchange code extension_id now pairings).0 ≡ ok token
      → (token.extension_id ≡ extension_id)
        × (all_scopes token.scopes ≡ true)
        × (non_empty token.scopes ≡ true)
        × (no_repeats token.scopes ≡ true)
        × (exchange code other later (exchange code extension_id now pairings).1
            ≡ (err pairing_error, (exchange code extension_id now pairings).1))
  unfolding exchange
  exchange_once code now later extension_id other pairings h =
      elim (Option-cases (find (has_code code) pairings)) [
        | inl unknown ↦ absurd (ground arith)
        | inr (pairing, known) ↦
            let again =
              find-update_first (has_code code) (redeemed now) pairings pairing (λ x. refl) known in
            (ground arith, ground arith, ground arith, ground arith, ground (arith, again))
      ]
