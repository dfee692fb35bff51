-- ===== src/Results/Tests.antt =====
-- A game of two moves that a worker completes.
use boardtrace.Prelude.{
  ◌==◌, if◌then◌else◌, Bool-cases, is_some, count, put_by, Result, ok, err, Text, codes, text_eq, ℕ,
  zero, suc, ◌+◌, ◌<◌, ◌≡◌, refl, ap, ◌⊎◌, inl, inr, true, false, none, some, [], ◌∷◌, arith,
}
use boardtrace.Results.Rows.{
  white_player, white_win, Game, GameChild, AnalysisRun, Database, Uuid5, analysis_run_id, get_game,
  put_game, get_run,
}
use boardtrace.Results.Records.{UuidInjective}
use boardtrace.Prelude.Int.{pos}
use boardtrace.FullGame.Evaluation.{FullGameAnalysisResult}
use boardtrace.FullGame.Replay.{finished, may_run, authorize, starting_board, replay_from, replay}
use boardtrace.FullGame.Contract.{
  insert_by, sorted_by, contiguous, references_hold, validate_result,
}
use boardtrace.FullGame.Analyzer.{checkpoint_of, ask, record_answer, evaluate, analyse}
use boardtrace.FullGame.Tests.{counting, steady, game, budget, result_or, nothing, analysed}
use boardtrace.Jobs.Status.{running, succeeded}
use boardtrace.Jobs.Row.{AnalysisJob, text_is}
use boardtrace.Jobs.Operations.{expired, complete_job}
use boardtrace.Jobs.Table.{get_by_id, put_job}
use boardtrace.Results.Config.{
  single_process_per_game, EngineConfigurationSnapshot, configuration_accepted, as_json,
  values_invalid, from_json, from_json-as_json,
}
use boardtrace.Results.Transactions.{execute}
use boardtrace.Results.Replace.{
  StoreError, OwnedGeneration, require_complete_result, owns_generation, failure_code_of,
  failure_error_type_of, filled, new_run, position_id_at, position_row, move_rows, written_run,
  cleared, arguments_checked, inserted, replace_owned_generation,
}
use boardtrace.Results.Complete.{
  published, current_job, is_current, published_before, is_authoritative,
  get_idempotent_available_generation, may_publish, make_owned_generation_available, anonymous,
  delete_for_job, complete_in, complete_owned_generation, persist_and_complete,
  persist_and_complete_owned_generation,
}
use boardtrace.Results.Read.{persisted_analysis, read_generation}
use boardtrace.Results.Authority.{completed_or_unchanged, completed_by_owner, completed_again}
use boardtrace.Results.Keyed.{IsKeyed}
use boardtrace.Results.Unique.{IsUnique}
use boardtrace.Results.Whole.{given_back, complete-IsKeyed, analysed_and_read}

unfoldable pub triangle : ℕ → ℕ
triangle zero = 0
triangle (suc n) = triangle n + suc n

-- Identifiers that are distinct for distinct arguments.
unfoldable pub numbered : Uuid5
numbered n a b = triangle (a + b) + a

triangle-step : (s t : ℕ) → s < t → triangle s + s < triangle t
unfolding triangle
triangle-step s zero h = omega arith
triangle-step s (suc t) h = elim (Bool-cases (s == t)) [
  | inl same ↦ let e : s ≡ t = ground arith in rw e (omega arith)
  | inr other ↦ let below = triangle-step s t (ground arith) in omega arith
]

numbered-UuidInjective : UuidInjective numbered
unfolding numbered
numbered-UuidInjective n a b c d h =
    let one : a + b < c + d → ⊥ = λ l. let x = triangle-step (a + b) (c + d) l in omega arith in
    let two : c + d < a + b → ⊥ = λ l. let x = triangle-step (c + d) (a + b) l in omega arith in
    let same : a + b ≡ c + d = ground (arith, one, two) in
    let fine : triangle (a + b) ≡ triangle (c + d) = ap triangle same in (omega arith, omega arith)

abbrev worker : Text
worker = codes "worker-a"

abbrev pub held : AnalysisJob
held = record {
  id = 1;
  game_id = 7;
  owner_user_id = 3;
  status = running;
  attempts = 1;
  attempt_count = 1;
  max_attempts = 3;
  analysis_profile = codes "standard";
  analysis_version = 1;
  queued_at = some 10;
  claimed_at = some 20;
  lease_expires_at = some 900;
  lease_generation = 1;
  heartbeat_at = some 20;
  started_at = some 21;
  finished_at = none;
  completed_at = none;
  failed_at = none;
  next_attempt_at = none;
  last_error_code = none;
  last_error_message = none;
  worker_id = some worker;
  queue_message_id = none;
  admission_correlation_id = 4;
  created_at = 5;
}

abbrev pub finished_game : Game
finished_game = record {
  id = 7;
  user_id = 3;
  status = finished;
  platform = codes "lichess";
  player_color = white_player;
  result = white_win;
  started_at = none;
  finished_at = some 9;
  analysis_available_at = none;
  initial_fen = none;
  source_game_id = some (codes "abc");
  ingestion_key = some (codes "key");
  ingestion_payload_hash = some (codes "hash");
  normalized_moves = some game.normalized_moves_uci;
  completion_verified_at = some 9;
}

abbrev pub before_it : Database
before_it = record {
  jobs = held ∷ [];
  games = finished_game ∷ [];
  runs = [];
  positions = [];
  moves = [];
  frames = record { id = 1; game_id = 7 } ∷ [];
  detected = [];
}

abbrev pub configuration : EngineConfigurationSnapshot
configuration = record {
  schema_version = pos 1;
  depth = pos 10;
  max_position_time_ms = pos 1000;
  max_game_time_ms = pos 60000;
  max_positions = pos 301;
  max_moves = pos 300;
  threads = pos 1;
  hash_mb = pos 64;
  command_timeout_ms = pos 5000;
  reuse_policy = single_process_per_game;
}

abbrev the_result : FullGameAnalysisResult
the_result = result_or (analyse counting steady game budget) nothing

abbrev delivery : OwnedGeneration
delivery = record {
  job_id = 1;
  worker_id = worker;
  lease_generation = 1;
  result = the_result;
  configuration_snapshot = as_json configuration;
  started_at = 30;
  finished_at = 40;
}

-- A second worker that comes with the same generation.
abbrev late_delivery : OwnedGeneration
late_delivery = record delivery { worker_id = codes "worker-b"; finished_at = 70 }

abbrev run_or : Result StoreError AnalysisRun → AnalysisRun
run_or (ok r) = r
run_or (err _) = new_run 0 delivery held

abbrev outcome : Result StoreError AnalysisRun × Database
outcome = persist_and_complete_owned_generation numbered (ok tt) (ok tt) delivery before_it

abbrev the_run : AnalysisRun
the_run = run_or outcome.0

completed : outcome ≡ (ok the_run, outcome.1)
unfolding persist_and_complete_owned_generation arguments_checked require_complete_result execute
    persist_and_complete get_idempotent_available_generation published_before is_current current_job
    is_authoritative complete_owned_generation replace_owned_generation get_by_id get_game
    owns_generation validate_result analysis_run_id numbered triangle get_run written_run move_rows
    position_id_at complete_in complete_job make_owned_generation_available may_publish
    delete_for_job put_job put_game put_by text_eq analyse authorize replay replay_from
    starting_board evaluate ask record_answer cleared inserted contiguous sorted_by insert_by
    checkpoint_of references_hold filled failure_code_of failure_error_type_of position_row
completed = refl

fresh : get_idempotent_available_generation numbered 1 1 before_it ≡ none
unfolding get_idempotent_available_generation get_by_id get_game published_before
fresh = refl

completed_or_unchanged_example :
    ((run : AnalysisRun) × (outcome.0 ≡ ok run)
      × (◌≡◌ {A = Result StoreError Unit} (ok tt) (ok tt))
      × (◌≡◌ {A = Result StoreError Unit} (ok tt) (ok tt))
      × (get_idempotent_available_generation numbered 1 1 outcome.1 ≡ some run))
    ⊎ ((x : StoreError) × (outcome.0 ≡ err x) × (outcome.1 ≡ before_it))
completed_or_unchanged_example = completed_or_unchanged numbered (ok tt) (ok tt) delivery before_it

completed_by_owner_example :
    (job done : AnalysisJob) × (owned shown : Game) × (get_by_id 1 before_it.jobs ≡ some job)
    × (get_game job.game_id before_it.games ≡ some owned)
    × (job.status ≡ running)
    × (text_is job.worker_id worker ≡ true)
    × (job.lease_generation ≡ 1)
    × (expired job.lease_expires_at 40 ≡ false)
    × (may_run owned.status ≡ true)
    × (is_some owned.completion_verified_at ≡ true)
    × (get_by_id 1 outcome.1.jobs ≡ some done)
    × (done.status ≡ succeeded)
    × (get_game job.game_id outcome.1.games ≡ some shown)
    × (shown ≡ anonymous (published 40 owned))
    × (count (λ (c : GameChild). c.game_id == job.game_id) outcome.1.frames ≡ 0)
    × (count (λ (c : GameChild). c.game_id == job.game_id) outcome.1.detected ≡ 0)
completed_by_owner_example =
    completed_by_owner numbered (ok tt) (ok tt) delivery before_it completed fresh

late_checked : arguments_checked late_delivery ≡ ok tt
unfolding arguments_checked require_complete_result analyse authorize replay replay_from
    starting_board evaluate ask record_answer
late_checked = refl

completed_again_example :
    persist_and_complete_owned_generation numbered (ok tt) (ok tt) late_delivery outcome.1
    ≡ (ok the_run, outcome.1)
completed_again_example =
    completed_again numbered (ok tt) (ok tt) delivery late_delivery before_it completed refl refl
      late_checked

before-IsKeyed : IsKeyed numbered before_it
before-IsKeyed = record { runs_keyed = tt; positions_owned = tt; moves_owned = tt }

before-IsUnique : IsUnique before_it
before-IsUnique = record {
  runs_unique = λ k. omega arith;
  positions_unique = λ k n. omega arith;
  moves_unique = λ k n. omega arith;
}

complete-IsKeyed_example : IsKeyed numbered outcome.1 × IsUnique outcome.1
complete-IsKeyed_example =
    complete-IsKeyed numbered (ok tt) (ok tt) delivery before_it before-IsKeyed before-IsUnique

configuration_fits : configuration_accepted configuration ≡ true
unfolding configuration_accepted
configuration_fits = refl

from_json-as_json_example :
    from_json (as_json configuration)
    ≡ (if configuration_accepted configuration then ok configuration else err values_invalid)
from_json-as_json_example = from_json-as_json configuration

analysed_and_read_example :
    read_generation 1 1 outcome.1
    ≡ ok (some (persisted_analysis the_run configuration (given_back the_result the_run.game_id)))
analysed_and_read_example =
    analysed_and_read numbered numbered-UuidInjective counting steady game budget (ok tt) (ok tt)
      delivery before_it configuration analysed refl configuration_fits before-IsKeyed fresh
      completed
