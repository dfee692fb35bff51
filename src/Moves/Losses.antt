-- ===== src/Moves/Losses.antt =====
-- The loss of a move, and the classes of losses.
use boardtrace.Prelude.{
  Option-cases, is_some, ok, ℕ, ◌≤◌, ◌≡◌, refl, sym, ◌∙◌, inl, inr, Bool, true, false, Option, some,
  arith,
}
use boardtrace.Prelude.Int.{ℤ, pos, negsuc, ◌+ℤ◌, ◌-ℤ◌}
use boardtrace.FullGame.Evaluation.{Color, color_eq, StockfishScore}
use boardtrace.Moves.Metrics.{
  NormalizedScoreKind, centipawn, centipawn_loss_outcome, normalized_accepted, MoveMetricInput,
  MoveAnalyticalMetric, neg_ℤ, normalize, outcome_of, max_zero, is_negative, with_loss,
  plain_metric, metric_of, derive_move_metric,
}
use boardtrace.Moves.Classes.{
  MoveQuality, best, excellent, good, inaccuracy, mistake, blunder, unclassified,
  CentipawnLossThresholdPolicy, thresholds_accepted, classify_loss, eq_ℤ, eq_Bool,
  centipawn_contract,
}

-- The three checks, and what is returned when they pass.
pub derive-metric_of :
    (v : MoveMetricInput) {m : MoveAnalyticalMetric}
    → derive_move_metric v ≡ ok m
    → (m ≡ metric_of v)
      × (1 ≤ v.ply)
      × (color_eq v.before_side_to_move v.mover ≡ true)
      × (color_eq v.after_side_to_move v.mover ≡ false)
unfolding derive_move_metric
derive-metric_of v h = ground arith

-- The metric that is derived from two centipawn scores, each seen from its side to move: the loss
-- is their sum, or zero where the sum is negative, and the flag says that it was cut.
pub derive-loss :
    (v : MoveMetricInput) {m : MoveAnalyticalMetric} {s t : StockfishScore} (b a : ℤ)
    → derive_move_metric v ≡ ok m
    → v.before_score ≡ some s
    → s.centipawns ≡ some b
    → v.after_score ≡ some t
    → t.centipawns ≡ some a
    → (m.outcome ≡ centipawn_loss_outcome)
      × (m.centipawn_loss ≡ some (max_zero (b +ℤ a)))
      × (m.negative_loss_clamped ≡ is_negative (b +ℤ a))
unfolding metric_of plain_metric normalize outcome_of with_loss ◌+ℤ◌ ◌-ℤ◌
derive-loss v b a h hs hb ht ha =
    let (is, _, same, other) = derive-metric_of v h in rw is (ground arith)

normalize-accepted :
    (s : Option StockfishScore) (side mover : Color)
    → normalized_accepted (normalize s side mover) ≡ true
unfolding normalize normalized_accepted
normalize-accepted s side mover = ground arith

metric_of-scores :
    (v : MoveMetricInput)
    → ((metric_of v).before ≡ normalize v.before_score v.before_side_to_move v.mover)
      × ((metric_of v).after ≡ normalize v.after_score v.after_side_to_move v.mover)
unfolding metric_of plain_metric with_loss
metric_of-scores v = ground arith

eq_ℤ_refl : (d : ℤ) → eq_ℤ d d ≡ true
eq_ℤ_refl (pos n) = ground arith
eq_ℤ_refl (negsuc n) = ground arith

eq_Bool_refl : (b : Bool) → eq_Bool b b ≡ true
eq_Bool_refl true = refl
eq_Bool_refl false = refl

with_loss-contract :
    (b a : ℤ) (m : MoveAnalyticalMetric) → centipawn_contract (with_loss (some b) (some a) m) ≡ true
unfolding with_loss centipawn_contract
with_loss-contract b a m =
    let raw = neg_ℤ (a -ℤ b) in
    rw (eq_ℤ_refl raw, eq_ℤ_refl (max_zero raw)) (eq_Bool_refl (is_negative raw))

outcome_of-loss :
    (k l : NormalizedScoreKind)
    → outcome_of k l ≡ centipawn_loss_outcome
    → (k ≡ centipawn) × (l ≡ centipawn)
unfolding outcome_of
outcome_of-loss k l h = ground arith

normalize-centipawn :
    (s : Option StockfishScore) (side mover : Color)
    → (normalize s side mover).kind ≡ centipawn
    → is_some (normalize s side mover).centipawns ≡ true
unfolding normalize
normalize-centipawn s side mover h = ground arith

with_loss-outcome :
    (b a : Option ℤ) (m : MoveAnalyticalMetric) → (with_loss b a m).outcome ≡ m.outcome
unfolding with_loss
with_loss-outcome b a m = ground arith

kept_contract :
    (m : MoveAnalyticalMetric)
    → m.outcome ≡ centipawn_loss_outcome
    → is_some m.before.centipawns ≡ true
    → is_some m.after.centipawns ≡ true
    → centipawn_contract (with_loss m.before.centipawns m.after.centipawns m) ≡ true
unfolding with_loss centipawn_contract
kept_contract m h hb ha = elim (Option-cases m.before.centipawns) [
  | inl gone ↦ ground arith
  | inr (b, eb) ↦ elim (Option-cases m.after.centipawns) [
    | inl gone ↦ ground arith
    | inr (a, ea) ↦ rw (eb, ea) (with_loss-contract b a m)
  ]
]

metric_of-outcome : (v : MoveMetricInput) → (metric_of v).outcome ≡ (plain_metric v).outcome
unfolding metric_of
metric_of-outcome v = ground (
  arith,
  with_loss-outcome (plain_metric v).before.centipawns (plain_metric v).after.centipawns
      (plain_metric v),
)

plain_metric-centipawns :
    (v : MoveMetricInput)
    → (plain_metric v).outcome ≡ centipawn_loss_outcome
    → (is_some (plain_metric v).before.centipawns ≡ true)
      × (is_some (plain_metric v).after.centipawns ≡ true)
unfolding plain_metric
plain_metric-centipawns v h =
    let before = normalize v.before_score v.before_side_to_move v.mover in
    let after = normalize v.after_score v.after_side_to_move v.mover in
    let (k, l) = outcome_of-loss before.kind after.kind h in
    (
      normalize-centipawn v.before_score v.before_side_to_move v.mover k,
      normalize-centipawn v.after_score v.after_side_to_move v.mover l,
    )

metric_of-contract :
    (v : MoveMetricInput)
    → (metric_of v).outcome ≡ centipawn_loss_outcome
    → centipawn_contract (metric_of v) ≡ true
unfolding metric_of
metric_of-contract v h =
    let m = plain_metric v in
    let loss : m.outcome ≡ centipawn_loss_outcome = sym (metric_of-outcome v) ∙ h in
    let (b, a) = plain_metric-centipawns v loss in ground (arith, loss, kept_contract m loss b a)

-- Every metric that is derived keeps the contract that the classifier asks for, and its scores are
-- of the kinds that they name.
pub derive-contract :
    (v : MoveMetricInput) {m : MoveAnalyticalMetric}
    → derive_move_metric v ≡ ok m
    → (m.outcome ≡ centipawn_loss_outcome → centipawn_contract m ≡ true)
      × (normalized_accepted m.before ≡ true)
      × (normalized_accepted m.after ≡ true)
derive-contract v h =
    let (is, _, _, _) = derive-metric_of v h in
    let (b, a) = metric_of-scores v in
    rw is (
      metric_of-contract v,
      rw b (normalize-accepted v.before_score v.before_side_to_move v.mover),
      rw a (normalize-accepted v.after_score v.after_side_to_move v.mover),
    )

abbrev pub severity : MoveQuality → ℕ
severity best = 0
severity excellent = 1
severity good = 2
severity inaccuracy = 3
severity mistake = 4
severity blunder = 5
severity unclassified = 6

-- A greater loss is not classed better, under any thresholds.
pub classify_loss_mono :
    (p : CentipawnLossThresholdPolicy) (a b : ℕ) {q r : MoveQuality}
    → thresholds_accepted p ≡ true
    → a ≤ b
    → classify_loss p (pos a) ≡ ok q
    → classify_loss p (pos b) ≡ ok r
    → severity q ≤ severity r
unfolding classify_loss thresholds_accepted
classify_loss_mono p a b acc h hq hr = ground arith
