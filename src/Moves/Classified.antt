-- ===== src/Moves/Classified.antt =====
-- Which moves the classifier refuses, and which it calls blunders.
use boardtrace.Prelude.{
  Option-cases, ok, err, is_ok, Text, ℕ, ◌≡◌, refl, ◌↔◌, ◌⊎◌, inl, inr, Bool, true, false, Option,
  none, some, arith,
}
use boardtrace.Prelude.Int.{ℤ, pos, negsuc}
use boardtrace.Moves.Metrics.{
  MoveMetricOutcome, centipawn_loss_outcome, mate_to_mate, centipawn_to_mate, mate_to_centipawn,
  MoveMetricInput, MoveAnalyticalMetric, max_zero, derive_move_metric,
}
use boardtrace.Moves.Classes.{
  blunder, CentipawnLossThresholdPolicy, ClassificationError, invalid_uci, classify_loss,
  ClassifiedMoveMetric, wins, loses, polarity, mate_precedence, eq_ℤ, centipawn_contract, UciParser,
  by_outcome, decided, classify_move,
}
use boardtrace.Moves.Losses.{derive-contract}

abbrev pub or_zero_ℤ : Option ℤ → ℤ
or_zero_ℤ none = pos 0
or_zero_ℤ (some a) = a

max_zero-pos : (a : ℤ) → (n : ℕ) × (max_zero a ≡ pos n)
max_zero-pos (pos n) = (n, refl)
max_zero-pos (negsuc _) = (0, refl)

eq_of_eq_ℤ : (a b : ℤ) → eq_ℤ a b ≡ true → a ≡ b
eq_of_eq_ℤ a b h = ground arith

contract-loss :
    (m : MoveAnalyticalMetric)
    → centipawn_contract m ≡ true
    → (n : ℕ) × (m.centipawn_loss ≡ some (pos n))
unfolding centipawn_contract
contract-loss m h = elim (Option-cases m.centipawn_loss) [
  | inl gone ↦ absurd (ground arith)
  | inr (pos n, e) ↦ (n, e)
  | inr (negsuc n, e) ↦ absurd (ground arith)
]

module _ (parse_uci : UciParser) (policy : CentipawnLossThresholdPolicy) where
  decided-ok_at :
      (m : MoveAnalyticalMetric) (same : Bool) (o : MoveMetricOutcome)
      → m.outcome ≡ o
      → (m.outcome ≡ centipawn_loss_outcome → centipawn_contract m ≡ true)
      → is_ok (decided parse_uci policy same m (mate_precedence m same)) ≡ true
  unfolding decided mate_precedence by_outcome
  decided-ok_at m same centipawn_loss_outcome e k =
      let (n, found) = contract-loss m (k e) in ground arith
  decided-ok_at m same mate_to_mate e k = ground arith
  decided-ok_at m same _ e k = ground arith

  decided-ok :
      (m : MoveAnalyticalMetric) (same : Bool)
      → (m.outcome ≡ centipawn_loss_outcome → centipawn_contract m ≡ true)
      → is_ok (decided parse_uci policy same m (mate_precedence m same)) ≡ true
  decided-ok m same = decided-ok_at m same m.outcome refl

  -- A metric that was derived is refused for one reason only: the text of the move that was played,
  -- or of the reference move, is not UCI.
  pub classify_move-derived :
      (v : MoveMetricInput) {m : MoveAnalyticalMetric} {e : ClassificationError}
      → derive_move_metric v ≡ ok m
      → classify_move parse_uci policy m ≡ err e
      → (e ≡ invalid_uci)
        × (reference : Text) × (m.reference_best_move_uci ≡ some reference)
        × ((parse_uci m.move_uci ≡ none) ⊎ (parse_uci reference ≡ none))
  unfolding classify_move
  classify_move-derived v {m} h c = ground (arith, (derive-contract v h).0, decided-ok m)

  -- A move that is classified is a blunder exactly when its centipawn loss is classed as one and
  -- it is not the reference move, or it turns centipawns into a forced loss, or a forced win into
  -- centipawns or into a forced loss.
  pub classify_move-blunder :
      (m : MoveAnalyticalMetric) {c : ClassifiedMoveMetric}
      → classify_move parse_uci policy m ≡ ok c
      → (c.quality ≡ blunder) ↔ (
          ((m.outcome ≡ centipawn_to_mate) × (polarity m.after.mate_in ≡ loses))
          ⊎ ((m.outcome ≡ mate_to_centipawn) × (polarity m.before.mate_in ≡ wins))
          ⊎ ((m.outcome ≡ mate_to_mate)
              × (polarity m.before.mate_in ≡ wins)
              × (polarity m.after.mate_in ≡ loses))
          ⊎ ((m.outcome ≡ centipawn_loss_outcome)
              × (c.best_move_equal ≡ false)
              × (classify_loss policy (or_zero_ℤ m.centipawn_loss) ≡ ok blunder)))
  unfolding classify_move
  classify_move-blunder m h = (λ b. ground arith, λ w. ground arith)
