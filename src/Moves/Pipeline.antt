-- ===== src/Moves/Pipeline.antt =====
-- The layers of a composed read fit together, so the validation of the whole never refuses.
use boardtrace.Prelude.{
  length, filter, count, ok, err, Result-cases, text_eq_refl, ℕ, ◌+◌, ◌≡◌, refl, ◌≢◌, inl, inr,
  true, List, [], ◌∷◌, arith,
}
use boardtrace.FullGame.Evaluation.{Color, white, black, color_eq, MoveEvaluation}
use boardtrace.Moves.Metrics.{
  MoveMetricInput, MoveAnalyticalMetric, with_loss, plain_metric, metric_of, derive_move_metric,
  InternalMoveMetrics, InternalAnalysisSnapshot, input_of, derive_all, derive,
}
use boardtrace.Moves.Classes.{
  CentipawnLossThresholdPolicy, ClassifiedMoveMetric, InternalClassifiedMoveMetrics, UciParser,
  classify_move, classify_all, classify,
}
use boardtrace.Moves.Totals.{InternalGameAnalyticalAggregate, moved_by, aggregate}
use boardtrace.Moves.Aggregate.{
  CompositionError, composition_error, identities_hold, linked, all_linked, adds_up,
  partition_holds, validate_internal_analysis_aggregate, unify, compose,
}
use boardtrace.Moves.Losses.{derive-metric_of}
use boardtrace.Moves.Equality.{metric_eq_refl}
use boardtrace.Moves.Accuracy.{summarize-counts}

metric_of-names :
    (v : MoveMetricInput)
    → ((metric_of v).ply ≡ v.ply)
      × ((metric_of v).move_uci ≡ v.move_uci)
      × ((metric_of v).move_san ≡ v.move_san)
unfolding metric_of plain_metric with_loss
metric_of-names v = ground arith

module _ (parse_uci : UciParser) (policy : CentipawnLossThresholdPolicy) where
  classify_move-metric :
      (m : MoveAnalyticalMetric) {c : ClassifiedMoveMetric}
      → classify_move parse_uci policy m ≡ ok c
      → c.metric ≡ m
  unfolding classify_move
  classify_move-metric m h = ground arith

  linked_one :
      (p : MoveEvaluation) (m : MoveAnalyticalMetric) (c : ClassifiedMoveMetric)
      → derive_move_metric (input_of p) ≡ ok m
      → c.metric ≡ m
      → linked p m c ≡ true
  unfolding input_of
  linked_one p m c d e =
      let (is, _, _, _) = derive-metric_of (input_of p) d in
      let (a, b, n) = metric_of-names (input_of p) in
      ground
        (arith, is, e, a, b, n, text_eq_refl p.move_uci, text_eq_refl p.move_san, metric_eq_refl m)

  -- Each layer keeps the number, the order and the names of the moves.
  layers_linked :
      (ps : List MoveEvaluation) (ms : List MoveAnalyticalMetric) (cs : List ClassifiedMoveMetric)
      → derive_all ps ≡ ok ms
      → classify_all parse_uci policy ms ≡ ok cs
      → (length ps ≡ length ms) × (length ms ≡ length cs) × (all_linked ps ms cs ≡ true)
  unfolding derive_all classify_all all_linked
  layers_linked [] [] [] d c = (refl, refl, refl)
  layers_linked [] (m ∷ ms) cs d c = absurd (ground arith)
  layers_linked [] [] (x ∷ cs) d c = absurd (ground arith)
  layers_linked (p ∷ ps) [] cs d c = absurd (ground arith)
  layers_linked (p ∷ ps) (m ∷ ms) [] d c = absurd (ground arith)
  layers_linked (p ∷ ps) (m ∷ ms) (x ∷ cs) d c =
      let head : derive_move_metric (input_of p) ≡ ok m = ground arith in
      let first : classify_move parse_uci policy m ≡ ok x = ground arith in
      let (same, still, rest) = layers_linked ps ms cs (ground arith) (ground arith) in
      ground (arith, same, still, rest, linked_one p m x head (classify_move-metric m first))

  parted :
      (ms : List MoveAnalyticalMetric) (cs : List ClassifiedMoveMetric) (color : Color)
      → classify_all parse_uci policy ms ≡ ok cs
      → length (filter (moved_by color) cs)
        ≡ count (λ (m : MoveAnalyticalMetric). color_eq m.mover color) ms
  unfolding classify_all
  parted [] [] color c = refl
  parted [] (x ∷ cs) color c = absurd (ground arith)
  parted (m ∷ ms) [] color c = absurd (ground arith)
  parted (m ∷ ms) (x ∷ cs) color c =
      let first : classify_move parse_uci policy m ≡ ok x = ground arith in
      ground (arith, parted ms cs color (ground arith), classify_move-metric m first)

  two_colors :
      (ms : List MoveAnalyticalMetric)
      → count (λ (m : MoveAnalyticalMetric). color_eq m.mover white) ms
          + count (λ (m : MoveAnalyticalMetric). color_eq m.mover black) ms
        ≡ length ms
  two_colors [] = refl
  two_colors (m ∷ ms) = ground (arith, two_colors ms)

  unified_linked :
      (snapshot : InternalAnalysisSnapshot) {metrics : InternalMoveMetrics}
      {classified : InternalClassifiedMoveMetrics}
      → derive snapshot ≡ ok metrics
      → classify parse_uci policy metrics ≡ ok classified
      → let ps = snapshot.analysis.result.move_evaluations in
        (length ps ≡ length metrics.moves)
        × (length metrics.moves ≡ length classified.moves)
        × (all_linked ps metrics.moves classified.moves ≡ true)
  unfolding derive classify
  unified_linked snapshot {metrics} {classified} d c =
      layers_linked snapshot.analysis.result.move_evaluations metrics.moves classified.moves
        (ground arith) (ground arith)

  unified_identity :
      (scale : ℕ) (snapshot : InternalAnalysisSnapshot) {metrics : InternalMoveMetrics}
      {classified : InternalClassifiedMoveMetrics} {totals : InternalGameAnalyticalAggregate}
      → derive snapshot ≡ ok metrics
      → classify parse_uci policy metrics ≡ ok classified
      → aggregate scale classified ≡ ok totals
      → identities_hold (unify snapshot metrics classified totals) ≡ true
  unfolding derive classify aggregate identities_hold unify
  unified_identity scale snapshot d c a = ground arith

  unified_parts :
      (scale : ℕ) (snapshot : InternalAnalysisSnapshot) (metrics : InternalMoveMetrics)
      {classified : InternalClassifiedMoveMetrics} {totals : InternalGameAnalyticalAggregate}
      → classify parse_uci policy metrics ≡ ok classified
      → aggregate scale classified ≡ ok totals
      → (partition_holds (unify snapshot metrics classified totals) ≡ true)
        × (adds_up totals.white_summary ≡ true)
        × (adds_up totals.black_summary ≡ true)
  unfolding classify aggregate partition_holds unify adds_up
  unified_parts scale snapshot metrics {classified} {totals} c a =
      let all : classify_all parse_uci policy metrics.moves ≡ ok classified.moves = ground arith in
      let w =
        summarize-counts scale white (filter (moved_by white) classified.moves)
          {s = totals.white_summary} (ground arith) in
      let b =
        summarize-counts scale black (filter (moved_by black) classified.moves)
          {s = totals.black_summary} (ground arith) in
      (
        ground (
          arith,
          w.0,
          w.1,
          b.0,
          b.1,
          parted metrics.moves classified.moves white all,
          parted metrics.moves classified.moves black all,
          two_colors metrics.moves,
        ),
        ground (arith, w.2, w.3, w.4),
        ground (arith, b.2, b.3, b.4),
      )

  unified_valid :
      (scale : ℕ) (snapshot : InternalAnalysisSnapshot) {metrics : InternalMoveMetrics}
      {classified : InternalClassifiedMoveMetrics} {totals : InternalGameAnalyticalAggregate}
      → derive snapshot ≡ ok metrics
      → classify parse_uci policy metrics ≡ ok classified
      → aggregate scale classified ≡ ok totals
      → validate_internal_analysis_aggregate (unify snapshot metrics classified totals) ≡ ok tt
  unfolding validate_internal_analysis_aggregate unify
  unified_valid scale snapshot {metrics} d c a =
      let linked = unified_linked snapshot d c in
      let identity = unified_identity scale snapshot d c a in
      let parts = unified_parts scale snapshot metrics c a in
      ground (arith, linked, identity, parts)

  -- Whatever snapshot is read, the composed aggregate passes its validation: no read is refused
  -- for drift between the layers.
  pub compose-valid :
      (scale : ℕ) (snapshot : InternalAnalysisSnapshot) (e : CompositionError)
      → compose parse_uci policy scale snapshot ≢ err (composition_error e)
  unfolding compose
  compose-valid scale snapshot e h = elim (Result-cases (derive snapshot)) [
    | inr (x, d) ↦ ground arith
    | inl (metrics, d) ↦ elim (Result-cases (classify parse_uci policy metrics)) [
      | inr (x, c) ↦ ground arith
      | inl (classified, c) ↦ elim (Result-cases (aggregate scale classified)) [
        | inr (x, a) ↦ ground arith
        | inl (totals, a) ↦ ground (arith, unified_valid scale snapshot d c a)
      ]
    ]
  ]
