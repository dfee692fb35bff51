-- ===== src/Moves/Aggregate.antt =====
-- The composed read of an analysis and its validation: services/analysis_aggregates.py under
-- apps/api/src/boardtrace_api.
use boardtrace.Prelude.{
  ◌==◌, length, count, Result, ok, err, ◌>>=◌, ◌>>◌, raise_if, text_eq, ℕ, ◌+◌, Bool, true, not,
  ◌&&◌, ◌||◌, List, ◌∷◌,
}
use boardtrace.FullGame.Evaluation.{Color, white, black, color_eq, MoveEvaluation}
use boardtrace.Moves.Metrics.{
  MoveAnalyticalMetric, MetricError, InternalMoveMetrics, InternalAnalysisSnapshot, derive,
}
use boardtrace.Moves.Classes.{
  CentipawnLossThresholdPolicy, ClassificationError, ClassifiedMoveMetric,
  InternalClassifiedMoveMetrics, UciParser, classify,
}
use boardtrace.Moves.Equality.{metric_eq}
use boardtrace.Moves.Totals.{
  PlayerAnalyticalSummary, InternalGameAnalyticalAggregate, AggregationError, sum_counts, aggregate,
}

pub record UnifiedInternalAnalysisAggregate : Type 0 where
  pub game_id : ℕ
  pub owner_user_id : ℕ
  pub analysis_run_id : ℕ
  pub lease_generation : ℕ
  pub snapshot : InternalAnalysisSnapshot
  pub move_metrics : InternalMoveMetrics
  pub classifications : InternalClassifiedMoveMetrics
  pub game_metrics : InternalGameAnalyticalAggregate

-- The messages of InternalAnalysisAggregateCompositionError.
pub data CompositionError : Type 0 where
  owner_drifted identity_drifted cardinality_drifted linkage_drifted : CompositionError
  partition_drifted totals_drifted : CompositionError

-- What the composed read raises, by the layer.
pub data AggregateError : Type 0 where
  metric_error : MetricError → AggregateError
  classification_error : ClassificationError → AggregateError
  aggregation_error : AggregationError → AggregateError
  composition_error : CompositionError → AggregateError

abbrev same_identity : UnifiedInternalAnalysisAggregate → ℕ → ℕ → ℕ → Bool
same_identity a game run generation =
    game == a.game_id && run == a.analysis_run_id && generation == a.lease_generation

unfoldable pub identities_hold : UnifiedInternalAnalysisAggregate → Bool
identities_hold a =
    same_identity a a.snapshot.game_id a.snapshot.analysis.run_id
      a.snapshot.analysis.lease_generation
    && same_identity a a.snapshot.analysis.result.game_id a.snapshot.analysis.run_id
        a.snapshot.analysis.lease_generation
    && same_identity a a.move_metrics.game_id a.move_metrics.analysis_run_id
        a.move_metrics.lease_generation
    && same_identity a a.classifications.game_id a.classifications.analysis_run_id
        a.classifications.lease_generation
    && same_identity a a.game_metrics.game_id a.game_metrics.analysis_run_id
        a.game_metrics.lease_generation

abbrev pub linked : MoveEvaluation → MoveAnalyticalMetric → ClassifiedMoveMetric → Bool
linked p m c =
    p.ply == m.ply
    && text_eq p.move_uci m.move_uci
    && text_eq p.move_san m.move_san
    && metric_eq c.metric m

-- `zip` of three lists of one length.
unfoldable pub all_linked :
    List MoveEvaluation → List MoveAnalyticalMetric → List ClassifiedMoveMetric → Bool
all_linked (p ∷ ps) (m ∷ ms) (c ∷ cs) = linked p m c && all_linked ps ms cs
all_linked _ _ _ = true

unfoldable pub adds_up : PlayerAnalyticalSummary → Bool
adds_up s =
    sum_counts s.quality_counts == s.total_move_count
    && s.classified_move_count + s.unclassified_move_count == s.total_move_count
    && s.cpl_eligible_move_count + s.excluded_move_count == s.total_move_count

abbrev mover_is : Color → MoveAnalyticalMetric → Bool
mover_is color m = color_eq m.mover color

unfoldable pub partition_holds : UnifiedInternalAnalysisAggregate → Bool
partition_holds a =
    let white_count = count (mover_is white) a.move_metrics.moves in
    let black_count = count (mover_is black) a.move_metrics.moves in
    color_eq a.game_metrics.white_summary.color white
    && color_eq a.game_metrics.black_summary.color black
    && a.game_metrics.white_summary.total_move_count == white_count
    && a.game_metrics.black_summary.total_move_count == black_count
    && white_count + black_count == length a.move_metrics.moves

unfoldable pub validate_internal_analysis_aggregate :
    UnifiedInternalAnalysisAggregate → Result CompositionError Unit
validate_internal_analysis_aggregate a = do
  let persisted = a.snapshot.analysis.result.move_evaluations
  let metrics = a.move_metrics.moves
  let classified = a.classifications.moves
  raise_if (not (a.owner_user_id == a.snapshot.owner_user_id)) owner_drifted
  raise_if (not (identities_hold a)) identity_drifted
  raise_if (not (length persisted == length metrics) || not (length metrics == length classified))
      cardinality_drifted
  raise_if (not (all_linked persisted metrics classified)) linkage_drifted
  raise_if (not (partition_holds a)) partition_drifted
  raise_if
      (not (adds_up a.game_metrics.white_summary) || not (adds_up a.game_metrics.black_summary))
      totals_drifted

unfoldable pub unify :
    InternalAnalysisSnapshot
    → InternalMoveMetrics
    → InternalClassifiedMoveMetrics
    → InternalGameAnalyticalAggregate
    → UnifiedInternalAnalysisAggregate
unify snapshot metrics classified totals = record {
  game_id = snapshot.game_id;
  owner_user_id = snapshot.owner_user_id;
  analysis_run_id = snapshot.analysis.run_id;
  lease_generation = snapshot.analysis.lease_generation;
  snapshot = snapshot;
  move_metrics = metrics;
  classifications = classified;
  game_metrics = totals;
}

-- An error of a layer, as an error of the read.
abbrev pub lift : {E A : Type 0} → (E → AggregateError) → Result E A → Result AggregateError A
lift wrap (ok a) = ok a
lift wrap (err e) = err (wrap e)

-- `read_for_owner`, from the snapshot on.
unfoldable pub compose :
    UciParser
    → CentipawnLossThresholdPolicy
    → ℕ
    → InternalAnalysisSnapshot
    → Result AggregateError UnifiedInternalAnalysisAggregate
compose parse_uci policy scale snapshot = do
  metrics ← lift metric_error (derive snapshot)
  classified ← lift classification_error (classify parse_uci policy metrics)
  totals ← lift aggregation_error (aggregate scale classified)
  let unified = unify snapshot metrics classified totals
  lift composition_error (validate_internal_analysis_aggregate unified)
  ok unified
