-- ===== src/Delivery/Snapshot.antt =====
-- The authorized read of the stored analysis of a game: repositories/analysis_reads.py and
-- services/analysis_reads.py under apps/api/src/boardtrace_api.
use boardtrace.Prelude.{
  leb, ◌==◌, if◌then◌else◌, is_some, length, find, Result, ok, ◌>>=◌, ◌>>◌, raise_if, or_raise,
  map_err, Text, ℕ, ◌-◌, Bool, true, false, not, ◌&&◌, ◌||◌, Option, none, some, List, [], ◌∷◌,
}
use boardtrace.FullGame.Evaluation.{PositionEvaluation, MoveEvaluation, FullGameAnalysisResult}
use boardtrace.FullGame.Replay.{GameStatus, analysis_available, may_run}
use boardtrace.FullGame.Contract.{contiguous}
use boardtrace.Moves.Metrics.{InternalAnalysisSnapshot}
use boardtrace.Moves.Classes.{UciParser}
use boardtrace.Jobs.Status.{succeeded, status_eq}
use boardtrace.Jobs.Row.{AnalysisJob}
use boardtrace.Results.Rows.{AnalysisRun, Database, is_complete_run, get_game}
use boardtrace.Results.Complete.{current_job}
use boardtrace.Results.Read.{read_generation}

-- The four errors of the read.
pub data SnapshotReadError : Type 0 where
  game_not_found read_forbidden snapshot_unavailable snapshot_corrupt : SnapshotReadError

pub record GameReadAuthority : Type 0 where
  pub game_id : ℕ
  pub owner_user_id : ℕ
  pub status : GameStatus
  pub completion_verified : Bool

unfoldable pub get_game_authority : ℕ → Database → Option GameReadAuthority
get_game_authority game_id d = elim (get_game game_id d.games) [
  | none ↦ none
  | some game ↦ some (record {
    game_id = game.id;
    owner_user_id = game.user_id;
    status = game.status;
    completion_verified = is_some game.completion_verified_at;
  })
]

pub record AuthoritativeRunReference : Type 0 where
  pub job_id : ℕ
  pub run_id : Option ℕ
  pub lease_generation : ℕ
  pub analysis_version : ℕ

-- The WHERE clause of the run of the current job.
abbrev pub run_of_job : AnalysisJob → ℕ → AnalysisRun → Bool
run_of_job job game_id r =
    r.analysis_job_id == job.id
    && r.game_id == game_id
    && r.lease_generation == job.lease_generation
    && r.analysis_version == job.analysis_version
    && is_complete_run r.status

abbrev reference_to : AnalysisJob → Option AnalysisRun → AuthoritativeRunReference
reference_to job none = record {
  job_id = job.id;
  run_id = none;
  lease_generation = job.lease_generation;
  analysis_version = job.analysis_version;
}
reference_to job (some run) = record {
  job_id = job.id;
  run_id = some run.id;
  lease_generation = run.lease_generation;
  analysis_version = run.analysis_version;
}

unfoldable pub get_current_authoritative_run : ℕ → Database → Option AuthoritativeRunReference
get_current_authoritative_run game_id d = elim (current_job game_id d.jobs) [
  | none ↦ none
  | some job ↦
      if status_eq job.status succeeded
      then some (reference_to job (find (run_of_job job game_id) d.runs))
      else none
]

abbrev may_be_read : GameStatus → Bool
may_be_read analysis_available = true
may_be_read status = may_run status

abbrev number_is : Option ℕ → ℕ → Bool
number_is none n = false
number_is (some m) n = m == n

abbrev at_least_one : Option ℕ → Bool
at_least_one none = true
at_least_one (some n) = leb 1 n

module _ (parse_uci : UciParser) where
  -- `_require_uci`
  abbrev is_uci : Text → Bool
  is_uci t = is_some (parse_uci t)

  abbrev all_uci : List Text → Bool
  all_uci [] = true
  all_uci (t ∷ ts) = is_uci t && all_uci ts

  unfoldable pub moves_sound : List MoveEvaluation → Bool
  moves_sound [] = true
  moves_sound (m ∷ ms) =
      m.before.ply == m.ply - 1 && m.after.ply == m.ply && is_uci m.move_uci && moves_sound ms

  -- The counters of the engine are numbers, which are not negative.
  unfoldable pub positions_sound : List PositionEvaluation → Bool
  positions_sound [] = true
  positions_sound (p ∷ ps) =
      is_uci p.best_move_uci
      && all_uci p.principal_variation_uci
      && at_least_one p.depth
      && positions_sound ps

  -- `_validate_complete_snapshot`, which raises one error wherever it fails.
  unfoldable pub snapshot_sound : FullGameAnalysisResult → Bool
  snapshot_sound r =
      contiguous PositionEvaluation.ply 0 r.position_evaluations
      && contiguous MoveEvaluation.ply 1 r.move_evaluations
      && r.checkpoint.total_positions == length r.position_evaluations
      && r.checkpoint.evaluated_positions == length r.position_evaluations
      && r.checkpoint.total_moves == length r.move_evaluations
      && r.checkpoint.completed_moves == length r.move_evaluations
      && moves_sound r.move_evaluations
      && positions_sound r.position_evaluations

  -- `read_for_owner`
  unfoldable pub read_snapshot :
      ℕ → ℕ → Database → Result SnapshotReadError InternalAnalysisSnapshot
  read_snapshot game_id requesting_user_id d = do
    authority ← or_raise (get_game_authority game_id d) game_not_found
    raise_if (not (authority.owner_user_id == requesting_user_id)) read_forbidden
    raise_if (not (may_be_read authority.status) || not authority.completion_verified)
        snapshot_unavailable
    reference ← or_raise (get_current_authoritative_run game_id d) snapshot_unavailable
    run_id ← or_raise reference.run_id snapshot_corrupt
    answer ←
        map_err (λ e. snapshot_corrupt)
          (read_generation reference.job_id reference.lease_generation d)
    analysis ← or_raise answer snapshot_corrupt
    raise_if
        (not (analysis.run_id == run_id)
          || not (analysis.analysis_version == reference.analysis_version)
          || not (analysis.result.game_id == game_id))
        snapshot_corrupt
    raise_if (not (snapshot_sound analysis.result)) snapshot_corrupt
    let snapshot : InternalAnalysisSnapshot = record {
      game_id = game_id;
      owner_user_id = requesting_user_id;
      analysis = analysis;
    }
    ok snapshot
