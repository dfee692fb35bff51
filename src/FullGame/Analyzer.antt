-- ===== src/FullGame/Analyzer.antt =====
-- The evaluation of the positions of a game one after the other: class FullGameAnalyzer of
-- apps/api/src/boardtrace_api/analysis/full_game.py. The engine and the clock are parameters: an
-- answer, or the name of the exception, for each position; and the milliseconds that
-- `_elapsed_ms` measures before it, rounded.
use boardtrace.Prelude.{
  leb, length, Result, ok, err, ◌>>=◌, ◌>>◌, raise_if, Text, codes, ℕ, ◌-◌, min, Bool, not, ◌&&◌,
  Option, none, some, List, [], ◌∷◌, ◌++◌,
}
use boardtrace.FullGame.Evaluation.{
  StockfishScore, PositionEvaluation, MoveEvaluation, AnalysisCheckpoint, FullGameFailureCode,
  engine_execution_failed, game_budget_exhausted, FullGameFailure, FullGameAnalysisStatus, complete,
  partial, FullGameAnalysisResult,
}
use boardtrace.FullGame.Replay.{
  CompletedGameAnalysisInput, FullGameAnalysisBudget, InputError, authorize, Chess, ReplayPosition,
  replay,
}

pub record StockfishAnalysisRequest : Type 0 where
  pub game_id : ℕ
  pub position_id : ℕ
  pub fen : Text
  pub depth : ℕ
  pub time_limit_ms : ℕ

-- The field constraints of class StockfishAnalysisRequest.
unfoldable pub request_accepted : StockfishAnalysisRequest → Bool
request_accepted r =
    leb 1 (length r.fen)
    && leb (length r.fen) 128
    && leb 1 r.depth
    && leb r.depth 99
    && leb 1 r.time_limit_ms
    && leb r.time_limit_ms 300000

pub record StockfishAnalysisResult : Type 0 where
  pub position_id : ℕ
  pub score : StockfishScore
  pub best_move_uci : Text
  pub principal_variation_uci : List Text
  pub depth : Option ℕ
  pub nodes : Option ℕ
  pub time_ms : Option ℕ
  pub engine_name : Text
  pub engine_version : Option Text

-- A session with the engine: what it answers at the n-th call; and what happens on entering it.
pub record Engine : Type 0 where
  pub opens : Result Text Unit
  pub answer : ℕ → StockfishAnalysisRequest → Result Text StockfishAnalysisResult
  pub elapsed_ms : ℕ → ℕ
  pub position_id : ℕ → ℕ → ℕ

-- The lists that the loop fills, newest last, and the last engine's name.
pub record Progress : Type 0 where
  pub evaluations : List PositionEvaluation
  pub moves : List MoveEvaluation
  pub last : Option PositionEvaluation
  pub engine_name : Option Text
  pub engine_version : Option Text

abbrev pub no_progress : Progress
no_progress = record {
  evaluations = [];
  moves = [];
  last = none;
  engine_name = none;
  engine_version = none;
}

unfoldable pub position_evaluation : ReplayPosition → StockfishAnalysisResult → PositionEvaluation
position_evaluation p r = record {
  position_id = r.position_id;
  ply = p.ply;
  fen = p.fen;
  side_to_move = p.side_to_move;
  score = r.score;
  best_move_uci = r.best_move_uci;
  principal_variation_uci = r.principal_variation_uci;
  depth = r.depth;
  nodes = r.nodes;
  time_ms = r.time_ms;
}

abbrev last_ply : Option PositionEvaluation → Option ℕ
last_ply none = none
last_ply (some e) = some e.ply

unfoldable pub checkpoint_of : ℕ → Progress → AnalysisCheckpoint
checkpoint_of total_positions p = record {
  total_moves = total_positions - 1;
  total_positions = total_positions;
  completed_moves = length p.moves;
  evaluated_positions = length p.evaluations;
  last_evaluated_ply = last_ply p.last;
}

-- How an analysis ends but for a result: an input that is refused, an engine that does not start
-- (by the exception's name), or a failure that carries what was done.
pub data AnalysisError : Type 0 where
  input_error : InputError → AnalysisError
  session_error : Text → AnalysisError
  analysis_failed : FullGameAnalysisResult → AnalysisError

module _ (engine : Engine) (game_id : ℕ) (budget : FullGameAnalysisBudget) (total : ℕ) where
  unfoldable pub result_of :
      FullGameAnalysisStatus → Option FullGameFailure → Progress → FullGameAnalysisResult
  result_of status failure p = record {
    game_id = game_id;
    status = status;
    position_evaluations = p.evaluations;
    move_evaluations = p.moves;
    checkpoint = checkpoint_of total p;
    engine_name = p.engine_name;
    engine_version = p.engine_version;
    failure = failure;
  }

  -- `_failure`
  unfoldable pub failed_at : FullGameFailureCode → ℕ → Text → Progress → AnalysisError
  failed_at code ply error_type p = analysis_failed (
      result_of partial
        (some (record { code = code; failed_position_ply = ply; error_type = error_type })) p)

  unfoldable pub request_for : ℕ → ReplayPosition → StockfishAnalysisRequest
  request_for remaining p = record {
    game_id = game_id;
    position_id = engine.position_id game_id p.ply;
    fen = p.fen;
    depth = budget.depth;
    time_limit_ms = min budget.max_position_time_ms remaining;
  }

  -- The body of the `try`: the code of the failure and the name of the exception, or an answer.
  unfoldable pub ask : ReplayPosition → Result (FullGameFailureCode × Text) StockfishAnalysisResult
  unfolding request_for request_accepted
  ask p = do
    let elapsed = engine.elapsed_ms p.ply
    raise_if (leb budget.max_game_time_ms elapsed)
        (game_budget_exhausted, codes "_GameBudgetExhausted")
    let request = request_for (budget.max_game_time_ms - elapsed) p
    raise_if (not (request_accepted request)) (engine_execution_failed, codes "ValidationError")
    elim (engine.answer p.ply request) [
      | ok r ↦ ok r
      | err name ↦ err (engine_execution_failed, name)
    ]

  -- The move between the last position and this one.
  unfoldable pub move_between :
      Option (Text × Text) → Option PositionEvaluation → PositionEvaluation → List MoveEvaluation
  move_between (some (uci, san)) (some before) after =
      record { ply = after.ply; move_uci = uci; move_san = san; before = before; after = after }
      ∷ []
  move_between _ _ after = []

  unfoldable pub record_answer : ReplayPosition → StockfishAnalysisResult → Progress → Progress
  unfolding move_between position_evaluation
  record_answer position r p =
      let evaluation = position_evaluation position r in
      record {
        evaluations = p.evaluations ++ evaluation ∷ [];
        moves = p.moves ++ move_between position.preceding p.last evaluation;
        last = some evaluation;
        engine_name = some r.engine_name;
        engine_version = r.engine_version;
      }

  -- The loop over the positions.
  unfoldable pub evaluate : List ReplayPosition → Progress → Result AnalysisError Progress
  unfolding failed_at result_of
  evaluate [] p = ok p
  evaluate (position ∷ rest) p = elim (ask position) [
    | err (code, name) ↦ err (failed_at code position.ply name p)
    | ok r ↦ evaluate rest (record_answer position r p)
  ]

abbrev lift_input : {A : Type 0} → Result InputError A → Result AnalysisError A
lift_input (ok a) = ok a
lift_input (err e) = err (input_error e)

abbrev lift_session : {A : Type 0} → Result Text A → Result AnalysisError A
lift_session (ok a) = ok a
lift_session (err e) = err (session_error e)

-- `analyse`
unfoldable pub analyse :
    Chess
    → Engine
    → CompletedGameAnalysisInput
    → FullGameAnalysisBudget
    → Result AnalysisError FullGameAnalysisResult
unfolding result_of
analyse chess engine game budget = do
  lift_input (authorize game)
  positions ← lift_input (replay chess game budget)
  lift_session engine.opens
  p ← evaluate engine game.game_id budget (length positions) positions no_progress
  ok (result_of engine game.game_id budget (length positions) complete none p)
