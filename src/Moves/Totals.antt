-- ===== src/Moves/Totals.antt =====
-- The totals of each player: analysis/game_metrics.py under apps/api/src/boardtrace_api. Decimals
-- of two places are numbers of hundredths.
use boardtrace.Prelude.{
  leb, ◌==◌, if◌then◌else◌, is_some, length, filter, count, any, Result, ok, err, ◌>>=◌, ◌>>◌,
  raise_if, ℕ, zero, suc, ◌+◌, ◌-◌, ◌*◌, Bool, true, false, not, ◌&&◌, Option, none, some, List, [],
  ◌∷◌, map,
}
use boardtrace.Prelude.Int.{ℤ, pos, negsuc, ◌+ℤ◌}
use boardtrace.FullGame.Evaluation.{Color, white, black, color_eq}
use boardtrace.Moves.Metrics.{
  centipawn_loss_outcome, mate_to_mate, centipawn_to_mate, mate_to_centipawn, missing_score,
}
use boardtrace.Moves.Classes.{
  MoveQuality, best, excellent, good, inaccuracy, mistake, blunder, unclassified,
  ClassifiedMoveMetric, InternalClassifiedMoveMetrics,
}
use boardtrace.Moves.Rounding.{half_up}

abbrev pub default_scale : ℕ
default_scale = 100

-- `AccuracyPolicy.transform`, of an ACPL in hundredths and a scale in centipawns.
unfoldable pub transform : ℕ → ℕ → ℕ
transform scale acpl = half_up (1000000 * scale) (100 * scale + acpl)

-- `_percentage`
unfoldable pub percentage : ℕ → ℕ → Option ℕ
percentage numerator zero = none
percentage numerator (suc d) = some (half_up (10000 * numerator) (suc d))

abbrev pub quality_eq : MoveQuality → MoveQuality → Bool
quality_eq best best = true
quality_eq excellent excellent = true
quality_eq good good = true
quality_eq inaccuracy inaccuracy = true
quality_eq mistake mistake = true
quality_eq blunder blunder = true
quality_eq unclassified unclassified = true
quality_eq _ _ = false

abbrev pub qualities : List MoveQuality
qualities = best ∷ excellent ∷ good ∷ inaccuracy ∷ mistake ∷ blunder ∷ unclassified ∷ []

pub record PlayerAnalyticalSummary : Type 0 where
  pub color : Color
  pub total_move_count : ℕ
  pub cpl_eligible_move_count : ℕ
  pub excluded_move_count : ℕ
  pub cpl_coverage : Option ℕ
  pub summed_centipawn_loss : ℤ
  pub acpl : Option ℕ
  pub accuracy_available : Bool
  pub accuracy : Option ℕ
  pub classified_move_count : ℕ
  pub unclassified_move_count : ℕ
  pub classification_coverage_percent : Option ℕ
  pub quality_counts : List (MoveQuality × ℕ)

pub record InternalGameAnalyticalAggregate : Type 0 where
  pub game_id : ℕ
  pub analysis_run_id : ℕ
  pub lease_generation : ℕ
  pub white_summary : PlayerAnalyticalSummary
  pub black_summary : PlayerAnalyticalSummary

-- What aggregation raises: `negative_acpl` is the ValueError of `transform`.
pub data AggregationError : Type 0 where
  ply_not_unique loss_missing negative_acpl : AggregationError

abbrev pub is_eligible : ClassifiedMoveMetric → Bool
is_eligible c = elim c.metric.outcome [
  | centipawn_loss_outcome ↦ true
  | mate_to_mate ↦ false
  | centipawn_to_mate ↦ false
  | mate_to_centipawn ↦ false
  | missing_score ↦ false
]

-- The sum of the losses; a missing one raises.
unfoldable pub sum_losses : List ClassifiedMoveMetric → Result AggregationError ℤ
sum_losses [] = ok (pos 0)
sum_losses (c ∷ cs) = elim c.metric.centipawn_loss [
  | none ↦ err loss_missing
  | some loss ↦ do rest ← sum_losses cs; ok (loss +ℤ rest)
]

abbrev pub count_quality : List ClassifiedMoveMetric → MoveQuality → MoveQuality × ℕ
count_quality moves q = (q, count (λ (c : ClassifiedMoveMetric). quality_eq c.quality q) moves)

abbrev pub sum_counts : List (MoveQuality × ℕ) → ℕ
sum_counts [] = 0
sum_counts ((_, n) ∷ cs) = n + sum_counts cs

-- The average of a sum over a count, when there is one. `transform` refuses it below zero; a
-- negative sum whose average rounds to -0.00 passes, as a zero does.
unfoldable pub acpl_of : ℤ → ℕ → Result AggregationError (Option ℕ)
acpl_of summed zero = ok none
acpl_of (pos s) (suc n) = ok (some (half_up (100 * s) (suc n)))
acpl_of (negsuc s) (suc n) =
    if half_up (100 * suc s) (suc n) == 0 then ok (some 0) else err negative_acpl

abbrev pub accuracy_of : ℕ → Option ℕ → Option ℕ
accuracy_of scale none = none
accuracy_of scale (some acpl) = some (transform scale acpl)

unfoldable pub summarize :
    ℕ → Color → List ClassifiedMoveMetric → Result AggregationError PlayerAnalyticalSummary
unfolding acpl_of
summarize scale color moves = do
  let eligible = filter is_eligible moves
  summed ← sum_losses eligible
  acpl ← acpl_of summed (length eligible)
  let unclassified_count = (count_quality moves unclassified).1
  ok (record {
    color = color;
    total_move_count = length moves;
    cpl_eligible_move_count = length eligible;
    excluded_move_count = length moves - length eligible;
    cpl_coverage = percentage (length eligible) (length moves);
    summed_centipawn_loss = summed;
    acpl = acpl;
    accuracy_available = is_some (accuracy_of scale acpl);
    accuracy = accuracy_of scale acpl;
    classified_move_count = length moves - unclassified_count;
    unclassified_move_count = unclassified_count;
    classification_coverage_percent = percentage (length moves - unclassified_count) (length moves);
    quality_counts = map (count_quality moves) qualities;
  })

abbrev pub has_ply : ℕ → ClassifiedMoveMetric → Bool
has_ply p c = c.metric.ply == p

-- Are the plys unique and positive?
unfoldable pub plys_accepted : List ClassifiedMoveMetric → Bool
plys_accepted [] = true
plys_accepted (c ∷ cs) =
    leb 1 c.metric.ply && not (any (has_ply c.metric.ply) cs) && plys_accepted cs

abbrev pub moved_by : Color → ClassifiedMoveMetric → Bool
moved_by color c = color_eq c.metric.mover color

-- The third check, that no mover is of another color, cannot fail of a Color.
unfoldable pub aggregate :
    ℕ → InternalClassifiedMoveMetrics → Result AggregationError InternalGameAnalyticalAggregate
aggregate scale classified = do
  raise_if (not (plys_accepted classified.moves)) ply_not_unique
  w ← summarize scale white (filter (moved_by white) classified.moves)
  b ← summarize scale black (filter (moved_by black) classified.moves)
  ok (record {
    game_id = classified.game_id;
    analysis_run_id = classified.analysis_run_id;
    lease_generation = classified.lease_generation;
    white_summary = w;
    black_summary = b;
  })
