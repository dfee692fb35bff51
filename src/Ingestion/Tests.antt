-- ===== src/Ingestion/Tests.antt =====
-- A game that a player sends twice, and that another player sends; and its admission.
use boardtrace.Prelude.{ok, err, Text, codes, text_eq, ◌≡◌, refl, true, false, none, [], ◌∷◌}
use boardtrace.Results.Rows.{white_player, white_win, Game, get_game}
use boardtrace.Jobs.Status.{pending, status_eq}
use boardtrace.Jobs.Table.{
  get_by_id, get_by_game_profile_version, new_job, insert_event, new_event, ensure_outbox,
  create_if_absent,
}
use boardtrace.Admission.Redis.{mem, hget, zrank}
use boardtrace.Admission.Scripts.{active, activate, admit, state, empty}
use boardtrace.Worker.Run.{World}
use boardtrace.Ingestion.Provenance.{
  Digests, CompletedGameIngestionRequest, lichess, browser_extension, canonical_source_checksum,
  validate_source,
}
use boardtrace.Ingestion.Service.{
  Store, conflict, Draws, is_eligible, create_for_completed_game, with_job, new_game,
  insert_or_serve, ingest,
}
use boardtrace.Ingestion.Once.{ingest_once, ingest-conflict}
use boardtrace.Ingestion.Endpoint.{
  outcome_only, decide, requested, admit_pending_job, conclude, admitted_or_rejected, admit_job_of,
  ingest_and_admit, ingest_completed_game,
}
use boardtrace.Ingestion.Admitted.{IsAdmitted, ingest_completed_game-IsAdmitted}

-- A digest that keeps the identity of the game.
abbrev digests : Digests
digests = record {
  strip = λ t. t;
  lower = λ t. t;
  digest = λ platform source_game_id moves. source_game_id;
}

abbrev payload : CompletedGameIngestionRequest
payload = record {
  idempotency_key = codes "k1";
  platform = lichess;
  source_game_id = codes "abc";
  acquisition_method = browser_extension;
  source_checksum = none;
  completed_at = 5;
  player_color = white_player;
  result = white_win;
  initial_fen = none;
  moves = codes "e2e4" ∷ codes "e7e5" ∷ [];
}

abbrev first_call : Draws
first_call = record { new_game_id = 1; proposed_id = 2; event_id = 3; correlation_id = 4; now = 10 }

abbrev second_call : Draws
second_call = record {
  new_game_id = 11;
  proposed_id = 12;
  event_id = 13;
  correlation_id = 14;
  now = 20;
}

abbrev empty_store : Store
empty_store = record { games = []; queue = record { jobs = []; outbox = [] } }

abbrev checksum : Text
checksum = canonical_source_checksum digests lichess payload.source_game_id payload.moves

abbrev sent : Game
sent = new_game first_call 7 checksum payload

abbrev after_first : Store
after_first = record {
  games = sent ∷ [];
  queue = record { jobs = new_job 2 1 7 4 10 ∷ []; outbox = new_event 3 2 0 4 none 10 ∷ [] };
}

-- Another session publishes every event meanwhile.
abbrev published_meanwhile : Store → Store
published_meanwhile s = record s { queue = record s.queue { outbox = [] } }

accepted :
    ingest digests false true published_meanwhile first_call 7 payload empty_store
    ≡ ok (sent, after_first)
unfolding ingest validate_source canonical_source_checksum insert_or_serve with_job new_game text_eq
    create_for_completed_game is_eligible create_if_absent ensure_outbox insert_event
    get_by_game_profile_version new_job get_game
accepted = refl

valid : validate_source digests false payload ≡ ok checksum
unfolding validate_source canonical_source_checksum text_eq
valid = refl

ingest_once_example :
    ingest digests false true published_meanwhile second_call 7 payload after_first
    ≡ ok (sent, published_meanwhile after_first)
ingest_once_example =
    ingest_once digests false true true published_meanwhile published_meanwhile first_call
      second_call 7 payload empty_store (λ x found. found) accepted (refl, refl)

ingest-conflict_example :
    ingest digests false true (λ s. s) second_call 8 payload after_first ≡ err conflict
ingest-conflict_example =
    ingest-conflict digests false true true published_meanwhile (λ s. s) first_call second_call 7 8
      payload payload empty_store (λ x found. found) accepted valid valid refl refl

abbrev idle : World
idle = record {
  database = record {
    jobs = [];
    games = [];
    runs = [];
    positions = [];
    moves = [];
    frames = [];
    detected = [];
  };
  outbox = [];
  keys = empty;
}

abbrev admitted_world : World
admitted_world = (ingest_completed_game true (ok tt) digests false first_call 7 payload true idle).1

let_in :
    ingest_completed_game true (ok tt) digests false first_call 7 payload true idle
    ≡ (ok (sent, new_job 2 1 7 4 10, outcome_only active), admitted_world)
unfolding ingest validate_source canonical_source_checksum insert_or_serve with_job new_game text_eq
    create_for_completed_game is_eligible create_if_absent ensure_outbox insert_event
    get_by_game_profile_version new_job get_game ingest_completed_game ingest_and_admit admit_job_of
    admit_pending_job admitted_or_rejected conclude decide requested state admit activate get_by_id
    empty mem hget zrank
let_in = refl

still_pending : status_eq (new_job 2 1 7 4 10).status pending ≡ true
unfolding new_job
still_pending = refl

ingest_completed_game-IsAdmitted_example : IsAdmitted (new_job 2 1 7 4 10).id admitted_world
ingest_completed_game-IsAdmitted_example =
    ingest_completed_game-IsAdmitted true (ok tt) digests false first_call 7 payload true idle
      let_in still_pending refl
