-- ===== src/Moves/Metrics.antt =====
-- The metric of one move: analysis/move_metrics.py under apps/api/src/boardtrace_api. A position's
-- score is from the side to move; a metric is from the mover's side.
use boardtrace.Prelude.{
  ltb, ◌==◌, if◌then◌else◌, is_some, is_none, Result, ok, ◌>>=◌, ◌>>◌, raise_if, Text, codes,
  text_eq, ℕ, Bool, true, false, not, ◌&&◌, Option, none, some, List, [], ◌∷◌,
}
use boardtrace.Prelude.Int.{ℤ, pos, negsuc, pos_part, neg_part, sub_ℕ, ◌-ℤ◌}
use boardtrace.Results.Config.{EngineConfigurationSnapshot}
use boardtrace.FullGame.Evaluation.{
  Color, color_eq, StockfishScore, MoveEvaluation, FullGameAnalysisResult,
}

pub data NormalizedScoreKind : Type 0 where
  centipawn mate missing : NormalizedScoreKind

pub data MoveMetricOutcome : Type 0 where
  centipawn_loss_outcome mate_to_mate centipawn_to_mate : MoveMetricOutcome
  mate_to_centipawn missing_score : MoveMetricOutcome

pub record NormalizedMoveScore : Type 0 where
  pub kind : NormalizedScoreKind
  pub centipawns : Option ℤ
  pub mate_in : Option ℤ

-- `__post_init__` of class NormalizedMoveScore
unfoldable pub normalized_accepted : NormalizedMoveScore → Bool
normalized_accepted s = elim s.kind [
  | centipawn ↦ is_some s.centipawns && is_none s.mate_in
  | mate ↦ is_none s.centipawns && is_some s.mate_in
  | missing ↦ is_none s.centipawns && is_none s.mate_in
]

pub record MoveMetricInput : Type 0 where
  pub ply : ℕ
  pub move_uci : Text
  pub move_san : Text
  pub reference_best_move_uci : Option Text
  pub mover : Color
  pub before_side_to_move : Color
  pub after_side_to_move : Color
  pub before_score : Option StockfishScore
  pub after_score : Option StockfishScore
  pub after_is_terminal : Bool

pub record MoveAnalyticalMetric : Type 0 where
  pub ply : ℕ
  pub move_uci : Text
  pub move_san : Text
  pub reference_best_move_uci : Option Text
  pub mover : Color
  pub before : NormalizedMoveScore
  pub after : NormalizedMoveScore
  pub outcome : MoveMetricOutcome
  pub centipawn_delta : Option ℤ
  pub raw_centipawn_loss : Option ℤ
  pub centipawn_loss : Option ℤ
  pub negative_loss_clamped : Bool
  pub after_is_terminal : Bool

-- What deriving a metric raises.
pub data MetricError : Type 0 where
  ply_not_positive before_not_mover side_not_changed game_mismatch : MetricError

-- `score * multiplier`, where the multiplier is 1 or -1.
abbrev pub neg_ℤ : ℤ → ℤ
neg_ℤ a = sub_ℕ (neg_part a) (pos_part a)

abbrev oriented : Bool → ℤ → ℤ
oriented same a = if same then a else neg_ℤ a

unfoldable pub normalize : Option StockfishScore → Color → Color → NormalizedMoveScore
normalize none score_side mover = record { kind = missing; centipawns = none; mate_in = none }
normalize (some score) score_side mover = elim score.centipawns [
  | some c ↦ record {
    kind = centipawn;
    centipawns = some (oriented (color_eq score_side mover) c);
    mate_in = none;
  }
  | none ↦ elim score.mate_in [
    | some m ↦ record {
      kind = mate;
      centipawns = none;
      mate_in = some (oriented (color_eq score_side mover) m);
    }
    | none ↦ record { kind = missing; centipawns = none; mate_in = none }
  ]
]

unfoldable pub outcome_of : NormalizedScoreKind → NormalizedScoreKind → MoveMetricOutcome
outcome_of missing _ = missing_score
outcome_of centipawn centipawn = centipawn_loss_outcome
outcome_of centipawn mate = centipawn_to_mate
outcome_of centipawn missing = missing_score
outcome_of mate centipawn = mate_to_centipawn
outcome_of mate mate = mate_to_mate
outcome_of mate missing = missing_score

-- `max(0, a)`
abbrev pub max_zero : ℤ → ℤ
max_zero (pos n) = pos n
max_zero (negsuc _) = pos 0

abbrev pub is_negative : ℤ → Bool
is_negative (pos _) = false
is_negative (negsuc _) = true

-- The loss of a move that has centipawns before and after it.
unfoldable pub with_loss : Option ℤ → Option ℤ → MoveAnalyticalMetric → MoveAnalyticalMetric
with_loss (some b) (some a) m =
    let delta = a -ℤ b in
    let raw = neg_ℤ delta in
    record m {
      centipawn_delta = some delta;
      raw_centipawn_loss = some raw;
      centipawn_loss = some (max_zero raw);
      negative_loss_clamped = is_negative raw;
    }
with_loss _ _ m = m

abbrev is_loss : MoveMetricOutcome → Bool
is_loss centipawn_loss_outcome = true
is_loss _ = false

-- The metric of a move with no loss yet.
unfoldable pub plain_metric : MoveMetricInput → MoveAnalyticalMetric
plain_metric v =
    let before = normalize v.before_score v.before_side_to_move v.mover in
    let after = normalize v.after_score v.after_side_to_move v.mover in
    record {
      ply = v.ply;
      move_uci = v.move_uci;
      move_san = v.move_san;
      reference_best_move_uci = v.reference_best_move_uci;
      mover = v.mover;
      before = before;
      after = after;
      outcome = outcome_of before.kind after.kind;
      centipawn_delta = none;
      raw_centipawn_loss = none;
      centipawn_loss = none;
      negative_loss_clamped = false;
      after_is_terminal = v.after_is_terminal;
    }

-- The metric that is returned when the three checks have passed.
unfoldable pub metric_of : MoveMetricInput → MoveAnalyticalMetric
metric_of v =
    let m = plain_metric v in
    if is_loss m.outcome then with_loss m.before.centipawns m.after.centipawns m else m

unfoldable pub derive_move_metric : MoveMetricInput → Result MetricError MoveAnalyticalMetric
derive_move_metric v = do
  raise_if (ltb v.ply 1) ply_not_positive
  raise_if (not (color_eq v.before_side_to_move v.mover)) before_not_mover
  raise_if (color_eq v.after_side_to_move v.mover) side_not_changed
  ok (metric_of v)

pub record InternalMoveMetrics : Type 0 where
  pub game_id : ℕ
  pub analysis_run_id : ℕ
  pub lease_generation : ℕ
  pub moves : List MoveAnalyticalMetric

-- The snapshot of a persisted analysis that the readers hand out. Its positions are read back
-- without their FEN, which is not stored and is the empty text here.
pub record PersistedFullGameAnalysis : Type 0 where
  pub run_id : ℕ
  pub analysis_job_id : ℕ
  pub lease_generation : ℕ
  pub analysis_version : ℕ
  pub result : FullGameAnalysisResult
  pub configuration : EngineConfigurationSnapshot
  pub started_at : ℕ
  pub finished_at : ℕ

pub record InternalAnalysisSnapshot : Type 0 where
  pub game_id : ℕ
  pub owner_user_id : ℕ
  pub analysis : PersistedFullGameAnalysis

-- The best move of a position in which the game is over.
abbrev pub null_move : Text
null_move = codes "0000"

unfoldable pub input_of : MoveEvaluation → MoveMetricInput
input_of move = record {
  ply = move.ply;
  move_uci = move.move_uci;
  move_san = move.move_san;
  reference_best_move_uci = some move.before.best_move_uci;
  mover = move.before.side_to_move;
  before_side_to_move = move.before.side_to_move;
  after_side_to_move = move.after.side_to_move;
  before_score = some move.before.score;
  after_score = some move.after.score;
  after_is_terminal = text_eq move.after.best_move_uci null_move;
}

unfoldable pub derive_all : List MoveEvaluation → Result MetricError (List MoveAnalyticalMetric)
derive_all [] = ok []
derive_all (move ∷ moves) = do
  metric ← derive_move_metric (input_of move)
  metrics ← derive_all moves
  ok (metric ∷ metrics)

unfoldable pub derive : InternalAnalysisSnapshot → Result MetricError InternalMoveMetrics
derive snapshot = do
  raise_if (not (snapshot.game_id == snapshot.analysis.result.game_id)) game_mismatch
  metrics ← derive_all snapshot.analysis.result.move_evaluations
  ok (record {
    game_id = snapshot.game_id;
    analysis_run_id = snapshot.analysis.run_id;
    lease_generation = snapshot.analysis.lease_generation;
    moves = metrics;
  })
