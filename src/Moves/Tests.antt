-- ===== src/Moves/Tests.antt =====
-- Moves whose texts are all UCI but the empty one.
use boardtrace.Prelude.{
  ltb, is_some, Result, ok, err, Text, codes, text_eq, ℕ, ◌+◌, ◌≤◌, ◌≡◌, refl, ◌≢◌, ◌↔◌, ◌⊎◌, true,
  false, none, some, [], ◌∷◌, arith,
}
use boardtrace.Prelude.Int.{ℤ, pos, ◌+ℤ◌, ◌-ℤ◌}
use boardtrace.FullGame.Evaluation.{
  Color, white, black, StockfishScore, PositionEvaluation, MoveEvaluation, complete,
}
use boardtrace.Results.Config.{single_process_per_game}
use boardtrace.Moves.Metrics.{
  centipawn_loss_outcome, mate_to_mate, centipawn_to_mate, mate_to_centipawn, MoveMetricInput,
  normalize, outcome_of, with_loss, plain_metric, metric_of, derive_move_metric,
  InternalAnalysisSnapshot,
}
use boardtrace.Moves.Classes.{
  good, inaccuracy, blunder, centipawn_threshold, thresholds_accepted, default_thresholds,
  invalid_uci, classify_loss, ClassifiedMoveMetric, wins, loses, polarity, UciParser, classify_move,
}
use boardtrace.Moves.Classified.{or_zero_ℤ, classify_move-derived, classify_move-blunder}
use boardtrace.Moves.Totals.{
  PlayerAnalyticalSummary, AggregationError, sum_losses, sum_counts, summarize,
}
use boardtrace.Moves.Accuracy.{summarize-totals}
use boardtrace.Moves.Aggregate.{linkage_drifted, composition_error, compose}
use boardtrace.Moves.Pipeline.{compose-valid}

abbrev parse_uci : UciParser
parse_uci [] = none
parse_uci (c ∷ cs) = some (c ∷ cs)

abbrev score : ℤ → StockfishScore
score c = record { centipawns = some c; mate_in = none }

abbrev input : Text → MoveMetricInput
input played = record {
  ply = 1;
  move_uci = played;
  move_san = codes "e4";
  reference_best_move_uci = some (codes "d2d4");
  mover = white;
  before_side_to_move = white;
  after_side_to_move = black;
  before_score = some (score (pos 30));
  after_score = some (score (pos 300));
  after_is_terminal = false;
}

abbrev move : MoveMetricInput
move = input (codes "e2e4")

derived : derive_move_metric move ≡ ok (metric_of move)
unfolding derive_move_metric
derived = refl

abbrev silent : MoveMetricInput
silent = input []

silent_derived : derive_move_metric silent ≡ ok (metric_of silent)
unfolding derive_move_metric
silent_derived = refl

silent_refused : classify_move parse_uci default_thresholds (metric_of silent) ≡ err invalid_uci
unfolding classify_move metric_of plain_metric with_loss outcome_of normalize
silent_refused = refl

classify_move-derived_example :
    (invalid_uci ≡ invalid_uci)
    × (reference : Text) × ((metric_of silent).reference_best_move_uci ≡ some reference)
    × ((parse_uci (metric_of silent).move_uci ≡ none) ⊎ (parse_uci reference ≡ none))
classify_move-derived_example =
    classify_move-derived parse_uci default_thresholds silent silent_derived silent_refused

abbrev blundered : ClassifiedMoveMetric
blundered = record {
  metric = metric_of move;
  quality = blunder;
  reason = centipawn_threshold;
  best_move_equal = false;
}

is_blundered : classify_move parse_uci default_thresholds (metric_of move) ≡ ok blundered
unfolding classify_move metric_of plain_metric with_loss normalize outcome_of ◌-ℤ◌ text_eq
is_blundered = refl

classify_move-blunder_example : (blundered.quality ≡ blunder) ↔ (
    (((metric_of move).outcome ≡ centipawn_to_mate)
      × (polarity (metric_of move).after.mate_in ≡ loses))
    ⊎ (((metric_of move).outcome ≡ mate_to_centipawn)
        × (polarity (metric_of move).before.mate_in ≡ wins))
    ⊎ (((metric_of move).outcome ≡ mate_to_mate)
        × (polarity (metric_of move).before.mate_in ≡ wins)
        × (polarity (metric_of move).after.mate_in ≡ loses))
    ⊎ (((metric_of move).outcome ≡ centipawn_loss_outcome)
        × (blundered.best_move_equal ≡ false)
        × (classify_loss default_thresholds (or_zero_ℤ (metric_of move).centipawn_loss)
            ≡ ok blunder)))
classify_move-blunder_example =
    classify_move-blunder parse_uci default_thresholds (metric_of move) is_blundered

thresholds_fit : thresholds_accepted default_thresholds ≡ true
unfolding thresholds_accepted
thresholds_fit = refl

loss_thirty : classify_loss default_thresholds (pos 30) ≡ ok good
unfolding classify_loss
loss_thirty = refl

loss_ninety : classify_loss default_thresholds (pos 90) ≡ ok inaccuracy
unfolding classify_loss
loss_ninety = refl

abbrev summary_or : Result AggregationError PlayerAnalyticalSummary → PlayerAnalyticalSummary
summary_or (ok s) = s
summary_or (err _) = record {
  color = white;
  total_move_count = 0;
  cpl_eligible_move_count = 0;
  excluded_move_count = 0;
  cpl_coverage = none;
  summed_centipawn_loss = pos 0;
  acpl = none;
  accuracy_available = false;
  accuracy = none;
  classified_move_count = 0;
  unclassified_move_count = 0;
  classification_coverage_percent = none;
  quality_counts = [];
}

abbrev one_move : PlayerAnalyticalSummary
one_move = summary_or (summarize 100 white (blundered ∷ []))

summarized : summarize 100 white (blundered ∷ []) ≡ ok one_move
unfolding summarize sum_losses metric_of plain_metric with_loss normalize outcome_of ◌-ℤ◌ ◌+ℤ◌
summarized = refl

summarize-totals_example :
    (one_move.total_move_count ≡ 1)
    × (sum_counts one_move.quality_counts ≡ one_move.total_move_count)
    × (one_move.classified_move_count + one_move.unclassified_move_count
        ≡ one_move.total_move_count)
    × (one_move.cpl_eligible_move_count + one_move.excluded_move_count ≡ one_move.total_move_count)
    × ((p : ℕ) → one_move.cpl_coverage ≡ some p → p ≤ 10000)
    × ((p : ℕ) → one_move.classification_coverage_percent ≡ some p → p ≤ 10000)
    × ((p : ℕ) → one_move.accuracy ≡ some p → p ≤ 10000)
    × (is_some one_move.accuracy ≡ is_some one_move.acpl)
    × (is_some one_move.acpl ≡ ltb 0 one_move.cpl_eligible_move_count)
    × (one_move.accuracy_available ≡ is_some one_move.accuracy)
summarize-totals_example = summarize-totals 100 white (blundered ∷ []) (omega arith) summarized

abbrev position : ℕ → Color → PositionEvaluation
position ply side = record {
  position_id = ply;
  ply = ply;
  fen = [];
  side_to_move = side;
  score = score (pos 30);
  best_move_uci = codes "d2d4";
  principal_variation_uci = codes "d2d4" ∷ [];
  depth = some 10;
  nodes = none;
  time_ms = none;
}

abbrev opening_move : MoveEvaluation
opening_move = record {
  ply = 1;
  move_uci = codes "e2e4";
  move_san = codes "e4";
  before = position 0 white;
  after = position 1 black;
}

abbrev one_played : InternalAnalysisSnapshot
one_played = record {
  game_id = 7;
  owner_user_id = 3;
  analysis = record {
    run_id = 5;
    analysis_job_id = 4;
    lease_generation = 1;
    analysis_version = 1;
    result = record {
      game_id = 7;
      status = complete;
      position_evaluations = position 0 white ∷ position 1 black ∷ [];
      move_evaluations = opening_move ∷ [];
      checkpoint = record {
        total_moves = 1;
        total_positions = 2;
        completed_moves = 1;
        evaluated_positions = 2;
        last_evaluated_ply = some 1;
      };
      engine_name = none;
      engine_version = none;
      failure = none;
    };
    configuration = record {
      schema_version = pos 1;
      depth = pos 10;
      max_position_time_ms = pos 1000;
      max_game_time_ms = pos 60000;
      max_positions = pos 301;
      max_moves = pos 300;
      threads = pos 1;
      hash_mb = pos 64;
      command_timeout_ms = pos 5000;
      reuse_policy = single_process_per_game;
    };
    started_at = 1;
    finished_at = 2;
  };
}

compose-valid_example :
    compose parse_uci default_thresholds 100 one_played ≢ err (composition_error linkage_drifted)
compose-valid_example = compose-valid parse_uci default_thresholds 100 one_played linkage_drifted
