-- ===== src/Results/Read.antt =====
-- The read of a stored generation: `get_generation_records` of repositories/analysis_results.py
-- and `read_generation` of services/analysis_results.py, under apps/api/src/boardtrace_api.
use boardtrace.Prelude.{
  ◌==◌, if◌then◌else◌, is_some, length, filter, find, Result, ok, ◌>>=◌, ◌>>◌, raise_if, or_raise,
  map_err, Text, codes, text_eq, ℕ, Bool, not, ◌&&◌, ◌||◌, Option, none, some, List, [], ◌∷◌, map,
}
use boardtrace.FullGame.Evaluation.{
  Color, white, black, PositionEvaluation, MoveEvaluation, complete, FullGameAnalysisResult,
}
use boardtrace.FullGame.Contract.{sorted_by}
use boardtrace.Moves.Metrics.{PersistedFullGameAnalysis}
use boardtrace.Results.Config.{EngineConfigurationSnapshot, SnapshotError, from_json}
use boardtrace.Results.Rows.{
  AnalysisRun, AnalysisPositionEvaluation, AnalysisMoveEvaluation, Database, is_complete_run,
  position_of_run, move_of_run,
}

-- The messages of PersistedAnalysisReadError.
pub data ReadError : Type 0 where
  not_complete_only side_invalid missing_reference counts_mismatch : ReadError
  snapshot_error : SnapshotError → ReadError

abbrev pub of_generation : ℕ → ℕ → AnalysisRun → Bool
of_generation job_id lease_generation r =
    r.analysis_job_id == job_id && r.lease_generation == lease_generation

unfoldable pub get_generation_records :
    ℕ
    → ℕ
    → Database
    → Option (AnalysisRun × List AnalysisPositionEvaluation × List AnalysisMoveEvaluation)
get_generation_records job_id lease_generation d =
    elim (find (of_generation job_id lease_generation) d.runs) [
      | none ↦ none
      | some run ↦ some (
        run,
        sorted_by AnalysisPositionEvaluation.ply (filter (position_of_run run.id) d.positions),
        sorted_by AnalysisMoveEvaluation.ply (filter (move_of_run run.id) d.moves),
      )
    ]

-- `row.side_to_move not in {"w", "b"}`, and the color.
unfoldable pub side_of : Text → Option Color
side_of t =
    if text_eq t (codes "w") then some white else if text_eq t (codes "b") then some black else none

abbrev evaluation_of : AnalysisPositionEvaluation → Color → PositionEvaluation
evaluation_of row side = record {
  position_id = row.source_position_id;
  ply = row.ply;
  fen = [];
  side_to_move = side;
  score = record { centipawns = row.centipawns; mate_in = row.mate_in };
  best_move_uci = row.best_move_uci;
  principal_variation_uci = row.principal_variation_uci;
  depth = row.depth;
  nodes = row.nodes;
  time_ms = row.time_ms;
}

-- The loop over the positions: each with the identifier of its row. The score has just one of its
-- two values, by the CHECK of the table, so that the constructor of StockfishScore does not raise.
unfoldable pub read_positions :
    List AnalysisPositionEvaluation → Result ReadError (List (ℕ × PositionEvaluation))
read_positions [] = ok []
read_positions (row ∷ rows) = do
  side ← or_raise (side_of row.side_to_move) side_invalid
  rest ← read_positions rows
  ok ((row.id, evaluation_of row side) ∷ rest)

-- `positions_by_record_id[record_id]`
unfoldable pub by_record_id : ℕ → List (ℕ × PositionEvaluation) → Option PositionEvaluation
by_record_id record_id [] = none
by_record_id record_id ((id, p) ∷ rest) =
    let later = by_record_id record_id rest in if id == record_id then some p else later

-- The loop over the moves, and its KeyError.
unfoldable pub read_moves :
    List (ℕ × PositionEvaluation)
    → List AnalysisMoveEvaluation
    → Result ReadError (List MoveEvaluation)
read_moves positions [] = ok []
read_moves positions (row ∷ rows) = do
  before ← or_raise (by_record_id row.before_position_evaluation_id positions) missing_reference
  after ← or_raise (by_record_id row.after_position_evaluation_id positions) missing_reference
  rest ← read_moves positions rows
  let move : MoveEvaluation = record {
    ply = row.ply;
    move_uci = row.move_uci;
    move_san = row.move_san;
    before = before;
    after = after;
  }
  ok (move ∷ rest)

-- `positions[-1].ply if positions else None`
unfoldable pub final_ply : List PositionEvaluation → Option ℕ
final_ply [] = none
final_ply (p ∷ ps) = let rest = final_ply ps in elim rest [ none ↦ some p.ply | some n ↦ some n ]

-- The result that is returned when the checks have passed.
unfoldable pub persisted_result :
    AnalysisRun → List PositionEvaluation → List MoveEvaluation → FullGameAnalysisResult
persisted_result run positions moves = record {
  game_id = run.game_id;
  status = complete;
  position_evaluations = positions;
  move_evaluations = moves;
  checkpoint = record {
    total_moves = run.total_moves;
    total_positions = run.total_positions;
    completed_moves = run.completed_moves;
    evaluated_positions = run.evaluated_positions;
    last_evaluated_ply = final_ply positions;
  };
  engine_name = run.engine_name;
  engine_version = run.engine_version;
  failure = none;
}

unfoldable pub persisted_analysis :
    AnalysisRun → EngineConfigurationSnapshot → FullGameAnalysisResult → PersistedFullGameAnalysis
persisted_analysis run configuration result = record {
  run_id = run.id;
  analysis_job_id = run.analysis_job_id;
  lease_generation = run.lease_generation;
  analysis_version = run.analysis_version;
  result = result;
  configuration = configuration;
  started_at = run.started_at;
  finished_at = run.finished_at;
}

-- `read_generation`, from the records on.
unfoldable pub read_records :
    AnalysisRun
    → List AnalysisPositionEvaluation
    → List AnalysisMoveEvaluation
    → Result ReadError PersistedFullGameAnalysis
read_records run position_rows move_rows = do
  raise_if
      (not (is_complete_run run.status)
        || is_some run.failure_code
        || is_some run.failure_error_type)
      not_complete_only
  keyed ← read_positions position_rows
  moves ← read_moves keyed move_rows
  let positions = map (λ (entry : ℕ × PositionEvaluation). entry.1) keyed
  raise_if
      (not (length positions == run.evaluated_positions)
        || not (length moves == run.completed_moves))
      counts_mismatch
  configuration ← map_err snapshot_error (from_json run.configuration_snapshot)
  ok (persisted_analysis run configuration (persisted_result run positions moves))

unfoldable pub read_generation :
    ℕ → ℕ → Database → Result ReadError (Option PersistedFullGameAnalysis)
read_generation job_id lease_generation d =
    elim (get_generation_records job_id lease_generation d) [
      | none ↦ ok none
      | some (run, position_rows, move_rows) ↦ do
        analysis ← read_records run position_rows move_rows
        ok (some analysis)
    ]
