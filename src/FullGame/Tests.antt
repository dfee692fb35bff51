-- ===== src/FullGame/Tests.antt =====
-- A game of two moves on a board that only counts them.
use boardtrace.Prelude.{
  ◌==◌, if◌then◌else◌, length, Result, ok, err, Text, codes, ℕ, ◌+◌, ◌*◌, ◌≤◌, ◌≡◌, refl, true,
  none, some, [], ◌∷◌,
}
use boardtrace.Prelude.Int.{pos}
use boardtrace.FullGame.Evaluation.{
  Color, white, black, FullGameFailure, complete, FullGameAnalysisResult,
}
use boardtrace.FullGame.Replay.{
  finished, CompletedGameAnalysisInput, FullGameAnalysisBudget, authorize, Chess, ReplayPosition,
  starting_board, replay_from, replay,
}
use boardtrace.FullGame.Analyzer.{
  StockfishAnalysisResult, Engine, no_progress, AnalysisError, analysis_failed, result_of, ask,
  record_answer, evaluate, analyse,
}
use boardtrace.FullGame.Contract.{not_complete, validate_result}
use boardtrace.FullGame.Evaluated.{IsEvaluated}
use boardtrace.FullGame.Complete.{analyse-valid, analyse-partial}

abbrev flip : Color → Color
flip white = black
flip black = white

abbrev pub counting : Chess
counting = record {
  Board = ℕ × Color;
  Move = Text;
  initial = (0, white);
  from_fen = λ _. none;
  from_uci = λ t. some t;
  is_legal = λ _ _. true;
  san = λ _ t. t;
  push = λ b _. (b.0 + 1, flip b.1);
  fen = λ b. b.0 ∷ [];
  turn = λ b. b.1;
}

abbrev answer : StockfishAnalysisResult
answer = record {
  position_id = 1;
  score = record { centipawns = some (pos 12); mate_in = none };
  best_move_uci = codes "e2e4";
  principal_variation_uci = codes "e2e4" ∷ [];
  depth = some 10;
  nodes = none;
  time_ms = none;
  engine_name = codes "engine";
  engine_version = none;
}

-- One engine always answers; the other crashes at the last position.
abbrev pub steady : Engine
steady = record {
  opens = ok tt;
  answer = λ _ _. ok answer;
  elapsed_ms = λ n. n * 10;
  position_id = λ g n. g + n;
}

abbrev pub crashing : Engine
crashing = record steady { answer = λ n _. if n == 2 then err (codes "EngineError") else ok answer }

abbrev pub game : CompletedGameAnalysisInput
game = record {
  game_id = 7;
  game_status = finished;
  completion_verified_at = some 1;
  initial_fen = none;
  normalized_moves_uci = codes "e2e4" ∷ codes "e7e5" ∷ [];
}

abbrev pub budget : FullGameAnalysisBudget
budget = record {
  depth = 10;
  max_position_time_ms = 1000;
  max_moves = 300;
  max_positions = 301;
  max_game_time_ms = 60000;
}

abbrev pub result_or :
    Result AnalysisError FullGameAnalysisResult → FullGameAnalysisResult → FullGameAnalysisResult
result_or (ok r) d = r
result_or (err (analysis_failed r)) d = r
result_or (err _) d = d

abbrev pub nothing : FullGameAnalysisResult
nothing = result_of steady 7 budget 0 complete none no_progress

pub analysed :
    analyse counting steady game budget
    ≡ ok (result_or (analyse counting steady game budget) nothing)
unfolding analyse authorize replay replay_from starting_board evaluate ask record_answer
analysed = refl

analyse-valid_example :
    (validate_result (result_or (analyse counting steady game budget) nothing) ≡ ok tt)
    × (length (result_or (analyse counting steady game budget) nothing).move_evaluations
        ≡ length game.normalized_moves_uci)
    × (length (result_or (analyse counting steady game budget) nothing).position_evaluations
        ≡ length game.normalized_moves_uci + 1)
analyse-valid_example = analyse-valid counting steady game budget analysed

crashed :
    analyse counting crashing game budget
    ≡ err (analysis_failed (result_or (analyse counting crashing game budget) nothing))
unfolding analyse authorize replay replay_from starting_board evaluate ask record_answer
crashed = refl

analyse-partial_example :
    let r = result_or (analyse counting crashing game budget) nothing in
    (f : FullGameFailure) × (r.failure ≡ some f)
    × (f.failed_position_ply ≤ length game.normalized_moves_uci)
    × IsEvaluated f.failed_position_ply r.position_evaluations r.move_evaluations
    × (validate_result r ≡ err not_complete)
analyse-partial_example = analyse-partial counting crashing game budget crashed

abbrev start : ReplayPosition
start = record { ply = 0; fen = codes "start"; side_to_move = white; preceding = none }
