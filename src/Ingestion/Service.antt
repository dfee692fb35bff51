-- ===== src/Ingestion/Service.antt =====
-- Class CompletedGameIngestionService of services/ingestion.py and the creation of the job in
-- services/analysis_jobs.py, under apps/api/src/boardtrace_api. Whatever raises is rolled back by the
-- caller; the row of the user is there.
use boardtrace.Prelude.{
  ◌==◌, if◌then◌else◌, is_some, find, any, Result, ok, err, ◌>>=◌, ◌>>◌, raise_if, or_raise,
  map_err, Text, text_eq, ℕ, Bool, true, false, not, ◌&&◌, ◌||◌, Option, none, some, List, [], ◌∷◌,
  ◌++◌,
}
use boardtrace.FullGame.Replay.{finished, analysis_available}
use boardtrace.Jobs.Row.{AnalysisJob, text_is}
use boardtrace.Jobs.Table.{Queue, create_if_absent}
use boardtrace.Results.Rows.{Game, game_status_eq, get_game}
use boardtrace.Ingestion.Provenance.{
  Digests, CompletedGameIngestionRequest, ProvenanceValidationError, validate_source,
}

-- The tables that an ingestion works on.
pub record Store : Type 0 where
  pub games : List Game
  pub queue : Queue

pub data IngestionError : Type 0 where
  invalid_source : ProvenanceValidationError → IngestionError
  conflict ineligible : IngestionError

-- What a call draws: the identifiers of a game, a job and an event, the correlation, and the time.
pub record Draws : Type 0 where
  pub new_game_id : ℕ
  pub proposed_id : ℕ
  pub event_id : ℕ
  pub correlation_id : ℕ
  pub now : ℕ

abbrev pub has_moves : Option (List Text) → Bool
has_moves none = false
has_moves (some []) = false
has_moves (some (m ∷ ms)) = true

unfoldable pub is_eligible : Game → Bool
is_eligible game =
    game_status_eq game.status finished
    && is_some game.completion_verified_at
    && has_moves game.normalized_moves
    && is_some game.ingestion_payload_hash
    && not (is_some game.analysis_available_at)

unfoldable pub create_for_completed_game :
    Draws → Bool → ℕ → Store → Result IngestionError (AnalysisJob × Store)
create_for_completed_game draws enqueue game_id s = do
  game ← or_raise (get_game game_id s.games) ineligible
  raise_if (not (is_eligible game)) ineligible
  let (job, queue) =
      create_if_absent draws.proposed_id draws.event_id game.id game.user_id draws.correlation_id
        draws.now enqueue s.queue
  ok (job, record s { queue = queue })

abbrev pub has_key : Text → Game → Bool
has_key key g = text_is g.ingestion_key key

-- The job of a game is created, and the game is the answer.
unfoldable pub with_job : Draws → Bool → Game → Store → Result IngestionError (Game × Store)
with_job draws enqueue game s = do
  made ← create_for_completed_game draws enqueue game.id s
  ok (game, made.1)

abbrev pub belongs : ℕ → Text → Game → Bool
belongs user_id source_checksum existing =
    existing.user_id == user_id && text_is existing.ingestion_payload_hash source_checksum

-- The answer to a request whose key has a game.
unfoldable pub serve_existing :
    Draws → Bool → ℕ → Text → Game → Store → Result IngestionError (Game × Store)
serve_existing draws enqueue user_id source_checksum existing s =
    if not (belongs user_id source_checksum existing)
    then err conflict
    else if game_status_eq existing.status analysis_available
    then ok (existing, s)
    else with_job draws enqueue existing s

unfoldable pub new_game : Draws → ℕ → Text → CompletedGameIngestionRequest → Game
new_game draws user_id source_checksum payload = record {
  id = draws.new_game_id;
  user_id = user_id;
  status = finished;
  platform = payload.platform;
  player_color = payload.player_color;
  result = payload.result;
  started_at = none;
  finished_at = some payload.completed_at;
  analysis_available_at = none;
  initial_fen = payload.initial_fen;
  source_game_id = some payload.source_game_id;
  ingestion_key = some payload.idempotency_key;
  ingestion_payload_hash = some source_checksum;
  normalized_moves = some payload.moves;
  completion_verified_at = some draws.now;
}

-- The primary key and the two unique constraints of the table: a game that excludes the new one.
abbrev pub excludes : ℕ → ℕ → CompletedGameIngestionRequest → Game → Bool
excludes new_game_id user_id payload g =
    g.id == new_game_id
    || has_key payload.idempotency_key g
    || g.user_id == user_id
      && text_eq g.platform payload.platform
      && text_is g.source_game_id payload.source_game_id

-- `except IntegrityError`: the key may have a game by now.
unfoldable pub after_violation :
    Draws
    → Bool
    → ℕ
    → Text
    → CompletedGameIngestionRequest
    → Store
    → Result IngestionError (Game × Store)
after_violation draws enqueue user_id source_checksum payload s = do
  existing ← or_raise (find (has_key payload.idempotency_key) s.games) conflict
  serve_existing draws enqueue user_id source_checksum existing s

-- From the INSERT on, in the tables as the other sessions have left them.
unfoldable pub insert_or_serve :
    Draws
    → Bool
    → ℕ
    → Text
    → CompletedGameIngestionRequest
    → Store
    → Result IngestionError (Game × Store)
insert_or_serve draws enqueue user_id source_checksum payload s =
    if any (excludes draws.new_game_id user_id payload) s.games
    then after_violation draws enqueue user_id source_checksum payload s
    else let game = new_game draws user_id source_checksum payload in
      with_job draws enqueue game (record s { games = s.games ++ game ∷ [] })

-- `concurrent` is what other sessions commit after the first SELECT.
unfoldable pub ingest :
    Digests
    → Bool
    → Bool
    → (Store → Store)
    → Draws
    → ℕ
    → CompletedGameIngestionRequest
    → Store
    → Result IngestionError (Game × Store)
ingest digests require_checksum enqueue concurrent draws user_id payload s = do
  source_checksum ← map_err invalid_source (validate_source digests require_checksum payload)
  elim (find (has_key payload.idempotency_key) s.games) [
    | some existing ↦ serve_existing draws enqueue user_id source_checksum existing (concurrent s)
    | none ↦ insert_or_serve draws enqueue user_id source_checksum payload (concurrent s)
  ]

unfoldable pub get_for_user : ℕ → ℕ → List Game → Option Game
get_for_user game_id user_id = find (λ (g : Game). g.id == game_id && g.user_id == user_id)
