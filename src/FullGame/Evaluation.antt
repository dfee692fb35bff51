-- ===== src/FullGame/Evaluation.antt =====
-- The records of an evaluated game: the data classes of analysis/full_game.py and the score of
-- analysis/stockfish.py. Identifiers are numbers; moves and positions are texts.
use boardtrace.Prelude.{is_some, is_none, Text, ℕ, Bool, true, false, Option, List}
use boardtrace.Prelude.Int.{ℤ}

-- `chess.WHITE` and `chess.BLACK`
pub data Color : Type 0 where
  white black : Color

abbrev pub color_eq : Color → Color → Bool
color_eq white white = true
color_eq black black = true
color_eq _ _ = false

abbrev pub opponent : Color → Color
opponent white = black
opponent black = white

pub record StockfishScore : Type 0 where
  pub centipawns : Option ℤ
  pub mate_in : Option ℤ

-- `require_exactly_one_score`
unfoldable pub score_accepted : StockfishScore → Bool
score_accepted s = elim (is_none s.centipawns) [
  | true ↦ is_some s.mate_in
  | false ↦ is_none s.mate_in
]

pub record PositionEvaluation : Type 0 where
  pub position_id : ℕ
  pub ply : ℕ
  pub fen : Text
  pub side_to_move : Color
  pub score : StockfishScore
  pub best_move_uci : Text
  pub principal_variation_uci : List Text
  pub depth : Option ℕ
  pub nodes : Option ℕ
  pub time_ms : Option ℕ

pub record MoveEvaluation : Type 0 where
  pub ply : ℕ
  pub move_uci : Text
  pub move_san : Text
  pub before : PositionEvaluation
  pub after : PositionEvaluation

pub record AnalysisCheckpoint : Type 0 where
  pub total_moves : ℕ
  pub total_positions : ℕ
  pub completed_moves : ℕ
  pub evaluated_positions : ℕ
  pub last_evaluated_ply : Option ℕ

pub data FullGameFailureCode : Type 0 where
  engine_execution_failed game_budget_exhausted : FullGameFailureCode

pub record FullGameFailure : Type 0 where
  pub code : FullGameFailureCode
  pub failed_position_ply : ℕ
  pub error_type : Text

pub data FullGameAnalysisStatus : Type 0 where
  complete partial : FullGameAnalysisStatus

-- The reuse policy has one value and is left out.
pub record FullGameAnalysisResult : Type 0 where
  pub game_id : ℕ
  pub status : FullGameAnalysisStatus
  pub position_evaluations : List PositionEvaluation
  pub move_evaluations : List MoveEvaluation
  pub checkpoint : AnalysisCheckpoint
  pub engine_name : Option Text
  pub engine_version : Option Text
  pub failure : Option FullGameFailure
