-- ===== src/Results/Rows.antt =====
-- The tables that hold games and results: class Game, AnalysisRun, AnalysisPositionEvaluation and
-- AnalysisMoveEvaluation of apps/api/src/boardtrace_api/models/models.py, the identifiers of
-- repositories/analysis_results.py, and the queries on them. A table is the list of its rows.
use boardtrace.Prelude.{◌==◌, find, put_by, Text, ℕ, Bool, true, false, Option, List}
use boardtrace.Prelude.Int.{ℤ}
use boardtrace.FullGame.Replay.{
  GameStatus, created, capturing, finish_pending, finished, deep_analysis_running,
  analysis_available, game_failed,
}
use boardtrace.Jobs.Row.{AnalysisJob}
use boardtrace.Results.Config.{JsonObject}

pub data PlayerColor : Type 0 where
  white_player black_player unknown_player : PlayerColor

pub data GameResult : Type 0 where
  white_win black_win draw unknown_result : GameResult

pub record Game : Type 0 where
  pub id : ℕ
  pub user_id : ℕ
  pub status : GameStatus
  pub platform : Text
  pub player_color : PlayerColor
  pub result : GameResult
  pub started_at : Option ℕ
  pub finished_at : Option ℕ
  pub analysis_available_at : Option ℕ
  pub initial_fen : Option Text
  pub source_game_id : Option Text
  pub ingestion_key : Option Text
  pub ingestion_payload_hash : Option Text
  pub normalized_moves : Option (List Text)
  pub completion_verified_at : Option ℕ

-- The rows of the tables of frames and of detected positions, of which only the game matters.
pub record GameChild : Type 0 where
  pub id : ℕ
  pub game_id : ℕ

pub data AnalysisRunStatus : Type 0 where
  run_complete run_partial : AnalysisRunStatus

pub record AnalysisRun : Type 0 where
  pub id : ℕ
  pub analysis_job_id : ℕ
  pub game_id : ℕ
  pub lease_generation : ℕ
  pub analysis_version : ℕ
  pub status : AnalysisRunStatus
  pub engine_name : Option Text
  pub engine_version : Option Text
  pub configuration_snapshot : JsonObject
  pub total_positions : ℕ
  pub evaluated_positions : ℕ
  pub total_moves : ℕ
  pub completed_moves : ℕ
  pub failure_code : Option Text
  pub failure_error_type : Option Text
  pub started_at : ℕ
  pub finished_at : ℕ

pub record AnalysisPositionEvaluation : Type 0 where
  pub id : ℕ
  pub analysis_run_id : ℕ
  pub source_position_id : ℕ
  pub ply : ℕ
  pub side_to_move : Text
  pub centipawns : Option ℤ
  pub mate_in : Option ℤ
  pub best_move_uci : Text
  pub principal_variation_uci : List Text
  pub depth : Option ℕ
  pub nodes : Option ℕ
  pub time_ms : Option ℕ

pub record AnalysisMoveEvaluation : Type 0 where
  pub id : ℕ
  pub analysis_run_id : ℕ
  pub ply : ℕ
  pub move_uci : Text
  pub move_san : Text
  pub before_position_evaluation_id : ℕ
  pub after_position_evaluation_id : ℕ

pub record Database : Type 0 where
  pub jobs : List AnalysisJob
  pub games : List Game
  pub runs : List AnalysisRun
  pub positions : List AnalysisPositionEvaluation
  pub moves : List AnalysisMoveEvaluation
  pub frames : List GameChild
  pub detected : List GameChild

-- The three namespaces of the identifiers that are computed.
pub data Namespace : Type 0 where
  run_namespace position_namespace move_namespace : Namespace

-- `uuid5(namespace, f"{id}:{number}")`
abbrev pub Uuid5 : Type 0
Uuid5 = Namespace → ℕ → ℕ → ℕ

module _ (uuid5 : Uuid5) where
  unfoldable pub analysis_run_id : ℕ → ℕ → ℕ
  analysis_run_id job_id lease_generation = uuid5 run_namespace job_id lease_generation

  unfoldable pub position_evaluation_id : ℕ → ℕ → ℕ
  position_evaluation_id run_id ply = uuid5 position_namespace run_id ply

  unfoldable pub move_evaluation_id : ℕ → ℕ → ℕ
  move_evaluation_id run_id ply = uuid5 move_namespace run_id ply

abbrev pub game_status_eq : GameStatus → GameStatus → Bool
game_status_eq created created = true
game_status_eq capturing capturing = true
game_status_eq finish_pending finish_pending = true
game_status_eq finished finished = true
game_status_eq deep_analysis_running deep_analysis_running = true
game_status_eq analysis_available analysis_available = true
game_status_eq game_failed game_failed = true
game_status_eq _ _ = false

abbrev pub is_complete_run : AnalysisRunStatus → Bool
is_complete_run run_complete = true
is_complete_run run_partial = false

unfoldable pub get_game : ℕ → List Game → Option Game
get_game game_id = find (λ (g : Game). g.id == game_id)

unfoldable pub put_game : Game → List Game → List Game
put_game = put_by Game.id

unfoldable pub get_run : ℕ → List AnalysisRun → Option AnalysisRun
get_run run_id = find (λ (r : AnalysisRun). r.id == run_id)

unfoldable pub put_run : AnalysisRun → List AnalysisRun → List AnalysisRun
put_run = put_by AnalysisRun.id

abbrev pub position_of_run : ℕ → AnalysisPositionEvaluation → Bool
position_of_run run_id p = p.analysis_run_id == run_id

abbrev pub move_of_run : ℕ → AnalysisMoveEvaluation → Bool
move_of_run run_id m = m.analysis_run_id == run_id
