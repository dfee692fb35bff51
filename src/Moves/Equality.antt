-- ===== src/Moves/Equality.antt =====
-- Equality of metrics, field by field, as Python's dataclasses compare.
use boardtrace.Prelude.{
  ◌==◌, text_eq, text_eq_refl, ◌≡◌, refl, Bool, true, false, ◌&&◌, Option, none, some, arith,
}
use boardtrace.Prelude.Int.{ℤ, pos, negsuc}
use boardtrace.FullGame.Evaluation.{color_eq}
use boardtrace.Moves.Metrics.{
  NormalizedScoreKind, centipawn, mate, missing, MoveMetricOutcome, centipawn_loss_outcome,
  mate_to_mate, centipawn_to_mate, mate_to_centipawn, missing_score, NormalizedMoveScore,
  MoveAnalyticalMetric,
}
use boardtrace.Moves.Classes.{eq_ℤ, eq_Bool}

abbrev pub opt_eq {ℓ} : {A : Type ℓ} → (A → A → Bool) → Option A → Option A → Bool
opt_eq eq none none = true
opt_eq eq (some a) (some b) = eq a b
opt_eq eq _ _ = false

abbrev pub kind_eq : NormalizedScoreKind → NormalizedScoreKind → Bool
kind_eq centipawn centipawn = true
kind_eq mate mate = true
kind_eq missing missing = true
kind_eq _ _ = false

abbrev pub outcome_eq : MoveMetricOutcome → MoveMetricOutcome → Bool
outcome_eq centipawn_loss_outcome centipawn_loss_outcome = true
outcome_eq mate_to_mate mate_to_mate = true
outcome_eq centipawn_to_mate centipawn_to_mate = true
outcome_eq mate_to_centipawn mate_to_centipawn = true
outcome_eq missing_score missing_score = true
outcome_eq _ _ = false

abbrev pub score_eq : NormalizedMoveScore → NormalizedMoveScore → Bool
score_eq s t =
    kind_eq s.kind t.kind
    && opt_eq eq_ℤ s.centipawns t.centipawns
    && opt_eq eq_ℤ s.mate_in t.mate_in

unfoldable pub metric_eq : MoveAnalyticalMetric → MoveAnalyticalMetric → Bool
metric_eq m n =
    m.ply == n.ply
    && text_eq m.move_uci n.move_uci
    && text_eq m.move_san n.move_san
    && opt_eq text_eq m.reference_best_move_uci n.reference_best_move_uci
    && color_eq m.mover n.mover
    && score_eq m.before n.before
    && score_eq m.after n.after
    && outcome_eq m.outcome n.outcome
    && opt_eq eq_ℤ m.centipawn_delta n.centipawn_delta
    && opt_eq eq_ℤ m.raw_centipawn_loss n.raw_centipawn_loss
    && opt_eq eq_ℤ m.centipawn_loss n.centipawn_loss
    && eq_Bool m.negative_loss_clamped n.negative_loss_clamped
    && eq_Bool m.after_is_terminal n.after_is_terminal

opt_eq_refl {ℓ} :
    {A : Type ℓ} (eq : A → A → Bool)
    → ((a : A) → eq a a ≡ true)
    → (o : Option A) → opt_eq eq o o ≡ true
opt_eq_refl eq r none = refl
opt_eq_refl eq r (some a) = r a

eq_ℤ_refl : (a : ℤ) → eq_ℤ a a ≡ true
eq_ℤ_refl (pos n) = ground arith
eq_ℤ_refl (negsuc n) = ground arith

score_eq_refl : (s : NormalizedMoveScore) → score_eq s s ≡ true
score_eq_refl s =
    rw (opt_eq_refl eq_ℤ eq_ℤ_refl s.centipawns, opt_eq_refl eq_ℤ eq_ℤ_refl s.mate_in)
      (ground arith)

-- A metric is equal to itself.
pub metric_eq_refl : (m : MoveAnalyticalMetric) → metric_eq m m ≡ true
unfolding metric_eq
metric_eq_refl m =
    rw
      (
        text_eq_refl m.move_uci,
        text_eq_refl m.move_san,
        opt_eq_refl text_eq text_eq_refl m.reference_best_move_uci,
        score_eq_refl m.before,
        score_eq_refl m.after,
        opt_eq_refl eq_ℤ eq_ℤ_refl m.centipawn_delta,
        opt_eq_refl eq_ℤ eq_ℤ_refl m.raw_centipawn_loss,
        opt_eq_refl eq_ℤ eq_ℤ_refl m.centipawn_loss,
      )
      (ground arith)
