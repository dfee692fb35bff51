-- ===== src/Results/Replace.antt =====
-- The replacement of a generation's records: `replace_owned_generation` of
-- repositories/analysis_results.py and `persist_owned_generation` of services/analysis_results.py,
-- under apps/api/src/boardtrace_api. The rows of the job and of the game are locked meanwhile.
use boardtrace.Prelude.{
  ltb, ◌==◌, if◌then◌else◌, is_some, take, filter, Result, ok, err, ◌>>=◌, ◌>>◌, raise_if, or_raise,
  map_err, Text, codes, ℕ, Bool, not, ◌&&◌, ◌||◌, Option, none, some, List, [], ◌∷◌, ◌++◌, map,
}
use boardtrace.FullGame.Evaluation.{
  Color, white, black, PositionEvaluation, MoveEvaluation, FullGameFailureCode,
  engine_execution_failed, game_budget_exhausted, FullGameAnalysisResult,
}
use boardtrace.FullGame.Replay.{may_run}
use boardtrace.FullGame.Contract.{
  ContractError, not_complete, sorted_by, is_complete, validate_result,
}
use boardtrace.Jobs.Status.{running, status_eq, JobError}
use boardtrace.Jobs.Row.{AnalysisJob, text_is}
use boardtrace.Jobs.Operations.{expired}
use boardtrace.Jobs.Table.{get_by_id}
use boardtrace.Results.Config.{JsonObject}
use boardtrace.Results.Rows.{
  Game, run_complete, AnalysisRun, AnalysisPositionEvaluation, AnalysisMoveEvaluation, Database,
  Uuid5, analysis_run_id, position_evaluation_id, move_evaluation_id, get_game, get_run, put_run,
  position_of_run, move_of_run,
}
use boardtrace.Results.Transactions.{Staged, execute}

-- What persisting a result raises.
pub data StoreError : Type 0 where
  run_authority completion_lost missing_position : StoreError
  generation_not_positive times_reversed hook_failed commit_failed : StoreError
  contract_error : ContractError → StoreError
  transition_error : JobError → StoreError

-- The arguments that the worker persists a result with.
pub record OwnedGeneration : Type 0 where
  pub job_id : ℕ
  pub worker_id : Text
  pub lease_generation : ℕ
  pub result : FullGameAnalysisResult
  pub configuration_snapshot : JsonObject
  pub started_at : ℕ
  pub finished_at : ℕ

-- `_require_complete_result`
unfoldable pub require_complete_result : FullGameAnalysisResult → Result StoreError Unit
require_complete_result r =
    raise_if (not (is_complete r.status) || is_some r.failure) (contract_error not_complete)

unfoldable pub owns_generation : OwnedGeneration → AnalysisJob → Game → Bool
owns_generation g job game =
    status_eq job.status running
    && text_is job.worker_id g.worker_id
    && job.lease_generation == g.lease_generation
    && not (expired job.lease_expires_at g.finished_at)
    && job.game_id == g.result.game_id
    && may_run game.status
    && is_some game.completion_verified_at

-- `_bounded`
unfoldable pub bounded : Option Text → ℕ → Option Text
bounded none limit = none
bounded (some value) limit = some (take limit value)

abbrev failure_code_text : FullGameFailureCode → Text
failure_code_text engine_execution_failed = codes "ENGINE_EXECUTION_FAILED"
failure_code_text game_budget_exhausted = codes "GAME_BUDGET_EXHAUSTED"

-- `_failure_code`
unfoldable pub failure_code_of : FullGameAnalysisResult → Option Text
failure_code_of r = elim r.failure [
  | none ↦ none
  | some f ↦ some (take 100 (failure_code_text f.code))
]

-- `_failure_error_type`
unfoldable pub failure_error_type_of : FullGameAnalysisResult → Option Text
failure_error_type_of r = elim r.failure [ none ↦ none | some f ↦ some (take 100 f.error_type) ]

-- The columns that are written whether the run is there or not. The status is COMPLETE, since
-- `_run_status` raises for any other.
unfoldable pub filled : OwnedGeneration → AnalysisRun → AnalysisRun
filled g run = record run {
  status = run_complete;
  engine_name = bounded g.result.engine_name 100;
  engine_version = bounded g.result.engine_version 100;
  configuration_snapshot = g.configuration_snapshot;
  total_positions = g.result.checkpoint.total_positions;
  evaluated_positions = g.result.checkpoint.evaluated_positions;
  total_moves = g.result.checkpoint.total_moves;
  completed_moves = g.result.checkpoint.completed_moves;
  failure_code = failure_code_of g.result;
  failure_error_type = failure_error_type_of g.result;
  started_at = g.started_at;
  finished_at = g.finished_at;
}

-- The row of a new run.
unfoldable pub new_run : ℕ → OwnedGeneration → AnalysisJob → AnalysisRun
new_run run_id g job = filled g (record {
  id = run_id;
  analysis_job_id = job.id;
  game_id = job.game_id;
  lease_generation = g.lease_generation;
  analysis_version = job.analysis_version;
  status = run_complete;
  engine_name = none;
  engine_version = none;
  configuration_snapshot = [];
  total_positions = 0;
  evaluated_positions = 0;
  total_moves = 0;
  completed_moves = 0;
  failure_code = none;
  failure_error_type = none;
  started_at = 0;
  finished_at = 0;
})

abbrev pub side_text : Color → Text
side_text white = codes "w"
side_text black = codes "b"

-- `position_ids[ply]`: the dictionary holds the plys of the records, each under its own identifier.
unfoldable pub position_id_at : (ℕ → ℕ) → List PositionEvaluation → ℕ → Option ℕ
position_id_at id_of [] ply = none
position_id_at id_of (p ∷ ps) ply =
    let rest = position_id_at id_of ps ply in if p.ply == ply then some (id_of ply) else rest

module _ (uuid5 : Uuid5) (run_id : ℕ) where
  unfoldable pub position_row : PositionEvaluation → AnalysisPositionEvaluation
  position_row p = record {
    id = position_evaluation_id uuid5 run_id p.ply;
    analysis_run_id = run_id;
    source_position_id = p.position_id;
    ply = p.ply;
    side_to_move = side_text p.side_to_move;
    centipawns = p.score.centipawns;
    mate_in = p.score.mate_in;
    best_move_uci = p.best_move_uci;
    principal_variation_uci = p.principal_variation_uci;
    depth = p.depth;
    nodes = p.nodes;
    time_ms = p.time_ms;
  }

  unfoldable pub move_row : MoveEvaluation → ℕ → ℕ → AnalysisMoveEvaluation
  move_row m before after = record {
    id = move_evaluation_id uuid5 run_id m.ply;
    analysis_run_id = run_id;
    ply = m.ply;
    move_uci = m.move_uci;
    move_san = m.move_san;
    before_position_evaluation_id = before;
    after_position_evaluation_id = after;
  }

  -- The loop over the moves; a KeyError ends it.
  unfoldable pub move_rows :
      List PositionEvaluation
      → List MoveEvaluation
      → Result StoreError (List AnalysisMoveEvaluation)
  unfolding move_row
  move_rows positions [] = ok []
  move_rows positions (m ∷ ms) = do
    let id_of = position_evaluation_id uuid5 run_id
    before ← or_raise (position_id_at id_of positions m.before.ply) missing_position
    after ← or_raise (position_id_at id_of positions m.after.ply) missing_position
    rest ← move_rows positions ms
    ok (move_row m before after ∷ rest)

-- The run as it is written, and the table of runs with it.
unfoldable pub written_run : ℕ → OwnedGeneration → AnalysisJob → Option AnalysisRun → AnalysisRun
unfolding new_run
written_run run_id g job none = new_run run_id g job
written_run run_id g job (some old) = filled g old

-- The tables once the run is written and, where it was there, its old records are deleted.
unfoldable pub cleared : AnalysisRun → Option AnalysisRun → Database → Database
cleared run none d = record d { runs = d.runs ++ run ∷ [] }
cleared run (some old) d = record d {
  runs = put_run run d.runs;
  moves = filter (λ (m : AnalysisMoveEvaluation). not (move_of_run run.id m)) d.moves;
  positions =
      filter (λ (p : AnalysisPositionEvaluation). not (position_of_run run.id p)) d.positions;
}

-- The checks that both services make before the transaction.
unfoldable pub arguments_checked : OwnedGeneration → Result StoreError Unit
unfolding require_complete_result
arguments_checked g = do
  require_complete_result g.result
  raise_if (ltb g.lease_generation 1) generation_not_positive
  raise_if (ltb g.finished_at g.started_at) times_reversed

module _ (uuid5 : Uuid5) where
  -- The records of the run, inserted.
  unfoldable pub inserted : ℕ → OwnedGeneration → List AnalysisMoveEvaluation → Database → Database
  inserted run_id g rows d = record d {
    positions =
        d.positions
        ++ map (position_row uuid5 run_id)
            (sorted_by PositionEvaluation.ply g.result.position_evaluations);
    moves = d.moves ++ rows;
  }

  unfoldable pub replace_owned_generation : OwnedGeneration → Staged StoreError AnalysisRun
  unfolding require_complete_result
  replace_owned_generation g d = do
    require_complete_result g.result
    job ← or_raise (get_by_id g.job_id d.jobs) run_authority
    game ← or_raise (get_game job.game_id d.games) run_authority
    raise_if (not (owns_generation g job game)) run_authority
    map_err contract_error (validate_result g.result)
    let run_id = analysis_run_id uuid5 g.job_id g.lease_generation
    let old = get_run run_id d.runs
    let run = written_run run_id g job old
    let positions = sorted_by PositionEvaluation.ply g.result.position_evaluations
    let moves = sorted_by MoveEvaluation.ply g.result.move_evaluations
    rows ← move_rows uuid5 run_id positions moves
    ok (run, inserted run_id g rows (cleared run old d))

  unfoldable pub persist_owned_generation :
      Result StoreError Unit
      → Result StoreError Unit
      → OwnedGeneration
      → Database
      → Result StoreError AnalysisRun × Database
  persist_owned_generation before_commit commit g d = elim (arguments_checked g) [
    | err e ↦ (err e, d)
    | ok _ ↦ execute before_commit commit (replace_owned_generation g) d
  ]
