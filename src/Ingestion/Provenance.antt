-- ===== src/Ingestion/Provenance.antt =====
-- The policy on where a game comes from: provenance.py, with the request of schemas/ingestion.py,
-- under apps/api/src/boardtrace_api. What Python's `strip`, `lower`, `dumps` and `sha256` make of a
-- text is a parameter.
use boardtrace.Prelude.{
  is_some, Result, ok, ◌>>◌, raise_if, Text, codes, text_eq, ℕ, Bool, true, false, not, ◌&&◌,
  Option, none, some, List, [], ◌∷◌, map,
}
use boardtrace.Results.Rows.{PlayerColor, GameResult}

pub record Digests : Type 0 where
  pub strip : Text → Text
  pub lower : Text → Text
  -- `sha256(dumps([platform, source_game_id, moves]).encode("utf-8")).hexdigest()`
  pub digest : Text → Text → List Text → Text

-- The fields that the service reads.
pub record CompletedGameIngestionRequest : Type 0 where
  pub idempotency_key : Text
  pub platform : Text
  pub source_game_id : Text
  pub acquisition_method : Text
  pub source_checksum : Option Text
  pub completed_at : ℕ
  pub player_color : PlayerColor
  pub result : GameResult
  pub initial_fen : Option Text
  pub moves : List Text

pub data ProvenanceValidationError : Type 0 where
  unsupported_platform unsupported_method identity_missing : ProvenanceValidationError
  checksum_required checksum_mismatch : ProvenanceValidationError

abbrev pub lichess : Text
lichess = codes "lichess"

abbrev pub browser_extension : Text
browser_extension = codes "browser_extension"

abbrev pub is_blank : Text → Bool
is_blank [] = true
is_blank (x ∷ xs) = false

-- `supplied is not None and supplied != calculated`
abbrev pub differs : Option Text → Text → Bool
differs none calculated = false
differs (some supplied) calculated = not (text_eq supplied calculated)

module _ (digests : Digests) where
  unfoldable pub canonical_source_checksum : Text → Text → List Text → Text
  canonical_source_checksum platform source_game_id moves =
      digests.digest (digests.lower (digests.strip platform)) (digests.strip source_game_id)
        (map (λ move. digests.lower (digests.strip move)) moves)

  unfoldable pub validate_source :
      Bool → CompletedGameIngestionRequest → Result ProvenanceValidationError Text
  validate_source require_checksum payload = do
    let normalized_platform = digests.lower (digests.strip payload.platform)
    raise_if (not (text_eq normalized_platform lichess)) unsupported_platform
    raise_if (not (text_eq payload.acquisition_method browser_extension)) unsupported_method
    raise_if (is_blank (digests.strip payload.source_game_id)) identity_missing
    let calculated =
        canonical_source_checksum normalized_platform payload.source_game_id payload.moves
    raise_if (require_checksum && not (is_some payload.source_checksum)) checksum_required
    raise_if (differs payload.source_checksum calculated) checksum_mismatch
    ok calculated
