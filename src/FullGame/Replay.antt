-- ===== src/FullGame/Replay.antt =====
-- The input of an analysis and the replay of its moves: analysis/full_game.py and class
-- PostGameEngineAuthorization of analysis/stockfish.py, under apps/api/src/boardtrace_api.
use boardtrace.Prelude.{
  ltb, leb, is_some, length, Result, ok, err, ◌>>=◌, ◌>>◌, raise_if, Text, ℕ, suc, ◌+◌, Bool, true,
  false, not, ◌&&◌, Option, none, some, List, [], ◌∷◌,
}
use boardtrace.FullGame.Evaluation.{Color}

pub data GameStatus : Type 0 where
  created capturing finish_pending finished deep_analysis_running : GameStatus
  analysis_available game_failed : GameStatus

pub record CompletedGameAnalysisInput : Type 0 where
  pub game_id : ℕ
  pub game_status : GameStatus
  pub completion_verified_at : Option ℕ
  pub initial_fen : Option Text
  pub normalized_moves_uci : List Text

pub record FullGameAnalysisBudget : Type 0 where
  pub depth : ℕ
  pub max_position_time_ms : ℕ
  pub max_moves : ℕ
  pub max_positions : ℕ
  pub max_game_time_ms : ℕ

-- `__post_init__` of class FullGameAnalysisBudget
unfoldable pub budget_accepted : FullGameAnalysisBudget → Bool
budget_accepted b =
    leb 1 b.depth
    && leb b.depth 99
    && leb 1 b.max_position_time_ms
    && leb b.max_position_time_ms 300000
    && leb 1 b.max_moves
    && leb 2 b.max_positions
    && leb 1 b.max_game_time_ms

-- The messages of FullGameInputError.
pub data InputError : Type 0 where
  not_eligible no_moves move_budget position_budget initial_position : InputError
  invalid_move illegal_move : ℕ → InputError

abbrev pub may_run : GameStatus → Bool
may_run finished = true
may_run deep_analysis_running = true
may_run _ = false

-- `require_execution_allowed`
unfoldable pub execution_allowed : GameStatus → Option ℕ → Bool
execution_allowed status verified_at = may_run status && is_some verified_at

abbrev no_text : List Text → Bool
no_text [] = true
no_text (_ ∷ _) = false

-- `_authorization`
unfoldable pub authorize : CompletedGameAnalysisInput → Result InputError Unit
unfolding execution_allowed
authorize game = do
  raise_if (not (execution_allowed game.game_status game.completion_verified_at)) not_eligible
  raise_if (no_text game.normalized_moves_uci) no_moves

-- What the analyzer calls of python-chess: boards and moves, with the errors of the parsers as
-- none. `push` returns the board after the move.
pub record Chess : Type 1 where
  pub Board : Type 0
  pub Move : Type 0
  pub initial : Board
  pub from_fen : Text → Option Board
  pub from_uci : Text → Option Move
  pub is_legal : Board → Move → Bool
  pub san : Board → Move → Text
  pub push : Board → Move → Board
  pub fen : Board → Text
  pub turn : Board → Color

-- `_ReplayPosition`, with the preceding move and its SAN in one field: both are there or neither.
pub record ReplayPosition : Type 0 where
  pub ply : ℕ
  pub fen : Text
  pub side_to_move : Color
  pub preceding : Option (Text × Text)

module _ (chess : Chess) where
  position_of : ℕ → chess.Board → Option (Text × Text) → ReplayPosition
  position_of ply board preceding = record {
    ply = ply;
    fen = chess.fen board;
    side_to_move = chess.turn board;
    preceding = preceding;
  }

  -- `chess.Board(fen) if fen else chess.Board()`; an empty text is no position.
  unfoldable pub starting_board : Option Text → Option chess.Board
  starting_board none = some chess.initial
  starting_board (some []) = some chess.initial
  starting_board (some (c ∷ cs)) = chess.from_fen (c ∷ cs)

  -- The loop over the moves, from the ply that the next move has.
  unfoldable pub replay_from : ℕ → chess.Board → List Text → Result InputError (List ReplayPosition)
  unfolding position_of
  replay_from ply board [] = ok []
  replay_from ply board (move_uci ∷ rest) = elim (chess.from_uci move_uci) [
    | none ↦ err (invalid_move ply)
    | some move ↦ do
      raise_if (not (chess.is_legal board move)) (illegal_move ply)
      positions ← replay_from (suc ply) (chess.push board move) rest
      ok (
          position_of ply (chess.push board move) (some (move_uci, chess.san board move))
          ∷ positions)
  ]

  -- `_replay`
  unfoldable pub replay :
      CompletedGameAnalysisInput → FullGameAnalysisBudget → Result InputError (List ReplayPosition)
  unfolding position_of
  replay game budget = do
    raise_if (ltb budget.max_moves (length game.normalized_moves_uci)) move_budget
    raise_if (ltb budget.max_positions (length game.normalized_moves_uci + 1)) position_budget
    elim (starting_board game.initial_fen) [
      | none ↦ err initial_position
      | some board ↦ do
        positions ← replay_from 1 board game.normalized_moves_uci
        ok (position_of 0 board none ∷ positions)
    ]
