-- ===== src/Delivery/Tests.antt =====
-- The delivery of the analysis that a worker has completed.
use boardtrace.Prelude.{
  is_some, count, put_by, any, Result, ok, err, Text, codes, text_eq, ℕ, ◌+◌, ◌≡◌, refl, true,
  false, none, some, [], ◌∷◌,
}
use boardtrace.FullGame.Evaluation.{white}
use boardtrace.FullGame.Tests.{counting}
use boardtrace.Moves.Classes.{
  thresholds_accepted, default_thresholds, classify_loss, mate_precedence, same_polarity_mate,
  centipawn_contract, UciParser, best_move_equal_to, by_outcome, contract_of, decided,
  classify_move, classify_all, classify,
}
use boardtrace.Moves.Totals.{
  default_scale, transform, percentage, sum_losses, acpl_of, summarize, plys_accepted, aggregate,
}
use boardtrace.Results.Config.{
  configuration_accepted, as_json, field_of, fields_match, snapshot_int, policy_of, from_json,
}
use boardtrace.Prelude.Int.{pos, ◌+ℤ◌, ◌-ℤ◌, ◌*ℤ◌}
use boardtrace.Moves.Rounding.{half_up}
use boardtrace.Moves.Equality.{metric_eq}
use boardtrace.Results.Rows.{
  Game, run_complete, AnalysisRun, AnalysisPositionEvaluation, AnalysisMoveEvaluation, Database,
  get_game, put_game, position_of_run, move_of_run,
}
use boardtrace.Results.Tests.{held, finished_game, configuration}
use boardtrace.Delivery.Public.{
  PublicPlayerAnalysis, PublicGameAnalysisResponse, DeliveryError, not_found, player_of,
  plys_distinct, linked_persisted_move, legal_move, public_moves, map_public_analysis, consumed_run,
  taken_back, consume_public_generation, is_released, response_for, deliver,
}
use boardtrace.FullGame.Replay.{analysis_available}
use boardtrace.FullGame.Contract.{insert_by, sorted_by, contiguous, references_hold}
use boardtrace.Jobs.Status.{succeeded}
use boardtrace.Jobs.Row.{AnalysisJob}
use boardtrace.Moves.Metrics.{
  normalize, outcome_of, with_loss, plain_metric, metric_of, derive_move_metric, input_of,
  derive_all, derive,
}
use boardtrace.Moves.Aggregate.{
  identities_hold, all_linked, adds_up, partition_holds, validate_internal_analysis_aggregate,
  unify, compose,
}
use boardtrace.Results.Complete.{current_job}
use boardtrace.Results.Read.{
  get_generation_records, side_of, read_positions, by_record_id, read_moves, final_ply,
  persisted_result, persisted_analysis, read_records, read_generation,
}
use boardtrace.Delivery.Snapshot.{
  get_game_authority, get_current_authoritative_run, moves_sound, positions_sound, snapshot_sound,
  read_snapshot,
}
use boardtrace.Delivery.Status.{readiness_failed, PublicAnalysisStatusResponse, read_status}
use boardtrace.Delivery.Once.{delivered_to_owner, delivered_once, delivered_status}

abbrev uci : UciParser
uci [] = none
uci (c ∷ cs) = some (c ∷ cs)

abbrev the_job : AnalysisJob
the_job = record held { status = succeeded; worker_id = none; lease_expires_at = none }

abbrev the_game : Game
the_game = record finished_game {
  status = analysis_available;
  analysis_available_at = some 40;
  normalized_moves = none;
}

abbrev the_run : AnalysisRun
the_run = record {
  id = 11;
  analysis_job_id = 1;
  game_id = 7;
  lease_generation = 1;
  analysis_version = 1;
  status = run_complete;
  engine_name = some (codes "engine");
  engine_version = none;
  configuration_snapshot = as_json configuration;
  total_positions = 2;
  evaluated_positions = 2;
  total_moves = 1;
  completed_moves = 1;
  failure_code = none;
  failure_error_type = none;
  started_at = 30;
  finished_at = 40;
}

abbrev stored_position : ℕ → Text → AnalysisPositionEvaluation
stored_position ply side = record {
  id = 20 + ply;
  analysis_run_id = 11;
  source_position_id = 1;
  ply = ply;
  side_to_move = side;
  centipawns = some (pos 12);
  mate_in = none;
  best_move_uci = codes "d2d4";
  principal_variation_uci = [];
  depth = some 10;
  nodes = none;
  time_ms = none;
}

abbrev stored_move : AnalysisMoveEvaluation
stored_move = record {
  id = 30;
  analysis_run_id = 11;
  ply = 1;
  move_uci = codes "e2e4";
  move_san = codes "e2e4";
  before_position_evaluation_id = 20;
  after_position_evaluation_id = 21;
}

abbrev available : Database
available = record {
  jobs = the_job ∷ [];
  games = the_game ∷ [];
  runs = the_run ∷ [];
  positions = stored_position 0 (codes "w") ∷ stored_position 1 (codes "b") ∷ [];
  moves = stored_move ∷ [];
  frames = [];
  detected = [];
}

abbrev delivered : Result DeliveryError PublicGameAnalysisResponse × Database
delivered = deliver counting text_eq uci default_thresholds default_scale 7 3 available

abbrev nobody : PublicPlayerAnalysis
nobody = record {
  color = white;
  total_move_count = 0;
  cpl_eligible_move_count = 0;
  excluded_move_count = 0;
  cpl_coverage = none;
  acpl = none;
  accuracy = none;
  classified_move_count = 0;
  unclassified_move_count = 0;
  classification_coverage = none;
  quality_counts = [];
}

abbrev response_or : Result DeliveryError PublicGameAnalysisResponse → PublicGameAnalysisResponse
response_or (ok r) = r
response_or (err _) = record {
  game_id = 0;
  moves = [];
  white_player = nobody;
  black_player = nobody;
}

was_delivered : delivered ≡ (ok (response_or delivered.0), delivered.1)
unfolding player_of plys_distinct linked_persisted_move legal_move public_moves map_public_analysis
    consume_public_generation is_released response_for deliver get_game_authority
    get_current_authoritative_run moves_sound positions_sound snapshot_sound read_snapshot
    get_generation_records side_of read_positions by_record_id read_moves final_ply persisted_result
    persisted_analysis read_records read_generation configuration_accepted field_of fields_match
    snapshot_int policy_of from_json get_game put_game current_job insert_by sorted_by contiguous
    references_hold normalize outcome_of with_loss plain_metric metric_of derive_move_metric
    input_of derive_all derive thresholds_accepted classify_loss mate_precedence same_polarity_mate
    centipawn_contract best_move_equal_to by_outcome contract_of decided classify_move classify_all
    classify transform percentage sum_losses acpl_of summarize plys_accepted aggregate half_up
    metric_eq identities_hold all_linked adds_up partition_holds
    validate_internal_analysis_aggregate unify compose put_by text_eq ◌+ℤ◌ ◌-ℤ◌ ◌*ℤ◌ as_json
was_delivered = refl

delivered_to_owner_example :
    (owned : Game) × (run_id : ℕ) × (get_game 7 available.games ≡ some owned)
    × (response_for counting text_eq uci default_thresholds default_scale 7 3 available
        ≡ ok (response_or delivered.0, run_id))
    × (any (consumed_run run_id 7) available.runs ≡ true)
    × (owned.user_id ≡ 3)
    × (owned.status ≡ analysis_available)
    × (is_some owned.completion_verified_at ≡ true)
    × (get_game 7 delivered.1.games ≡ some (taken_back owned))
    × (count (consumed_run run_id 7) delivered.1.runs ≡ 0)
    × (count (position_of_run run_id) delivered.1.positions ≡ 0)
    × (count (move_of_run run_id) delivered.1.moves ≡ 0)
delivered_to_owner_example =
    delivered_to_owner counting text_eq uci default_thresholds default_scale 7 3 available
      was_delivered

delivered_once_example :
    deliver counting text_eq uci default_thresholds default_scale 7 3 delivered.1
    ≡ (err not_found, delivered.1)
delivered_once_example =
    delivered_once counting text_eq uci default_thresholds default_scale 7 3 3 available
      was_delivered

job_is_current : current_job 7 available.jobs ≡ some the_job
unfolding current_job
job_is_current = refl

delivered_status_example :
    (status : PublicAnalysisStatusResponse) × (read_status 7 3 delivered.1 ≡ some status)
    × (status.readiness ≡ readiness_failed)
    × (status.result_available ≡ false)
    × (status.polling.should_retry ≡ false)
delivered_status_example =
    delivered_status counting text_eq uci default_thresholds default_scale 7 3 available the_job
      was_delivered job_is_current refl
