-- ===== src/Moves/Classes.antt =====
-- The class of a move: analysis/move_classification.py under apps/api/src/boardtrace_api.
-- What python-chess makes of a move's text (`Move.from_uci(text).uci()`, or an error) is a parameter.
use boardtrace.Prelude.{
  ltb, leb, ◌==◌, if◌then◌else◌, Result, ok, err, ◌>>=◌, ◌>>◌, raise_if, Text, text_eq, ℕ, zero,
  suc, Bool, true, false, not, ◌&&◌, Option, none, some, List, [], ◌∷◌,
}
use boardtrace.Prelude.Int.{ℤ, pos, negsuc}
use boardtrace.Moves.Metrics.{
  centipawn_loss_outcome, mate_to_mate, centipawn_to_mate, mate_to_centipawn, missing_score,
  MoveAnalyticalMetric, neg_ℤ, max_zero, is_negative, InternalMoveMetrics,
}

pub data MoveQuality : Type 0 where
  best excellent good inaccuracy mistake blunder unclassified : MoveQuality

pub data ClassificationReason : Type 0 where
  forced_win_created forced_win_lost forced_loss_entered forced_loss_escaped : ClassificationReason
  mate_polarity_flipped_to_win mate_polarity_flipped_to_loss : ClassificationReason
  forced_win_preserved forced_loss_unresolved best_move_equality : ClassificationReason
  centipawn_threshold score_unclassified mate_polarity_unclassified : ClassificationReason

pub record CentipawnLossThresholdPolicy : Type 0 where
  pub excellent_max : ℕ
  pub good_max : ℕ
  pub inaccuracy_max : ℕ
  pub mistake_max : ℕ

-- `__post_init__`, over natural fields: the first test holds of them all.
unfoldable pub thresholds_accepted : CentipawnLossThresholdPolicy → Bool
thresholds_accepted p =
    ltb p.excellent_max p.good_max
    && ltb p.good_max p.inaccuracy_max
    && ltb p.inaccuracy_max p.mistake_max

abbrev pub default_thresholds : CentipawnLossThresholdPolicy
default_thresholds = record {
  excellent_max = 20;
  good_max = 50;
  inaccuracy_max = 100;
  mistake_max = 200;
}

-- What classifying a move raises.
pub data ClassificationError : Type 0 where
  negative_loss invalid_uci missing_loss bypassed_precedence : ClassificationError
  inconsistent_fields : ClassificationError

unfoldable pub classify_loss :
    CentipawnLossThresholdPolicy → ℤ → Result ClassificationError MoveQuality
classify_loss p (negsuc _) = err negative_loss
classify_loss p (pos loss) = ok (
    if leb loss p.excellent_max
    then excellent
    else if leb loss p.good_max
    then good
    else if leb loss p.inaccuracy_max
    then inaccuracy
    else if leb loss p.mistake_max
    then mistake
    else blunder)

pub record ClassifiedMoveMetric : Type 0 where
  pub metric : MoveAnalyticalMetric
  pub quality : MoveQuality
  pub reason : ClassificationReason
  pub best_move_equal : Bool

pub record InternalClassifiedMoveMetrics : Type 0 where
  pub game_id : ℕ
  pub analysis_run_id : ℕ
  pub lease_generation : ℕ
  pub moves : List ClassifiedMoveMetric

abbrev pub Verdict : Type 0
Verdict = MoveQuality × ClassificationReason

abbrev unclear : Verdict
unclear = (unclassified, mate_polarity_unclassified)

abbrev pub best_or_excellent : Bool → MoveQuality
best_or_excellent true = best
best_or_excellent false = excellent

-- The sign of a mate distance; zero and none have none.
pub data Polarity : Type 0 where
  wins loses unclear_polarity : Polarity

abbrev pub polarity : Option ℤ → Polarity
polarity none = unclear_polarity
polarity (some (pos zero)) = unclear_polarity
polarity (some (pos (suc _))) = wins
polarity (some (negsuc _)) = loses

abbrev mate_created : Bool → Polarity → Verdict
mate_created same unclear_polarity = unclear
mate_created same wins = (best_or_excellent same, forced_win_created)
mate_created same loses = (blunder, forced_loss_entered)

abbrev mate_left : Bool → Polarity → Verdict
mate_left same unclear_polarity = unclear
mate_left same wins = (blunder, forced_win_lost)
mate_left same loses = (best_or_excellent same, forced_loss_escaped)

abbrev mate_flipped : Bool → Polarity → Polarity → Option Verdict
mate_flipped same wins loses = some (blunder, mate_polarity_flipped_to_loss)
mate_flipped same loses wins = some (best_or_excellent same, mate_polarity_flipped_to_win)
mate_flipped same wins wins = none
mate_flipped same loses loses = none
mate_flipped same _ _ = some unclear

unfoldable pub mate_precedence : MoveAnalyticalMetric → Bool → Option Verdict
mate_precedence m same = elim m.outcome [
  | centipawn_to_mate ↦ some (mate_created same (polarity m.after.mate_in))
  | mate_to_centipawn ↦ some (mate_left same (polarity m.before.mate_in))
  | mate_to_mate ↦ mate_flipped same (polarity m.before.mate_in) (polarity m.after.mate_in)
  | centipawn_loss_outcome ↦ none
  | missing_score ↦ none
]

abbrev same_mate : Polarity → Polarity → Result ClassificationError Verdict
same_mate wins wins = ok (good, forced_win_preserved)
same_mate loses loses = ok (good, forced_loss_unresolved)
same_mate wins loses = err bypassed_precedence
same_mate loses wins = err bypassed_precedence
same_mate _ _ = ok unclear

unfoldable pub same_polarity_mate : MoveAnalyticalMetric → Result ClassificationError Verdict
same_polarity_mate m = same_mate (polarity m.before.mate_in) (polarity m.after.mate_in)

abbrev pub eq_ℤ : ℤ → ℤ → Bool
eq_ℤ (pos a) (pos b) = a == b
eq_ℤ (negsuc a) (negsuc b) = a == b
eq_ℤ _ _ = false

abbrev pub eq_Bool : Bool → Bool → Bool
eq_Bool true b = b
eq_Bool false b = not b

abbrev consistent : Option ℤ → Option ℤ → Option ℤ → Bool → Bool
consistent (some delta) (some raw) (some loss) clamped =
    eq_ℤ raw (neg_ℤ delta) && eq_ℤ loss (max_zero raw) && eq_Bool clamped (is_negative raw)
consistent _ _ _ _ = false

unfoldable pub centipawn_contract : MoveAnalyticalMetric → Bool
centipawn_contract m =
    consistent m.centipawn_delta m.raw_centipawn_loss m.centipawn_loss m.negative_loss_clamped

-- `Move.from_uci(text).uci()`; none stands for a ValueError.
abbrev pub UciParser : Type 0
UciParser = Text → Option Text

module _ (parse_uci : UciParser) where
  unfoldable pub best_move_equal_to : MoveAnalyticalMetric → Result ClassificationError Bool
  best_move_equal_to m = elim m.reference_best_move_uci [
    | none ↦ ok false
    | some reference ↦ elim (parse_uci m.move_uci) [
      | none ↦ err invalid_uci
      | some played ↦ elim (parse_uci reference) [
        | none ↦ err invalid_uci
        | some expected ↦ ok (text_eq played expected)
      ]
    ]
  ]

  by_loss : CentipawnLossThresholdPolicy → Option ℤ → Result ClassificationError Verdict
  by_loss policy none = err missing_loss
  by_loss policy (some loss) = do
    quality ← classify_loss policy loss
    ok (quality, centipawn_threshold)

  -- The branches after the mate decisions.
  unfoldable pub by_outcome :
      CentipawnLossThresholdPolicy
      → Bool
      → MoveAnalyticalMetric
      → Result ClassificationError Verdict
  unfolding by_loss classify_loss same_polarity_mate
  by_outcome policy same m = elim m.outcome [
    | missing_score ↦ ok (unclassified, score_unclassified)
    | mate_to_mate ↦ if same then ok (best, best_move_equality) else same_polarity_mate m
    | centipawn_loss_outcome ↦
        if same then ok (best, best_move_equality) else by_loss policy m.centipawn_loss
    | centipawn_to_mate ↦ if same then ok (best, best_move_equality) else ok unclear
    | mate_to_centipawn ↦ if same then ok (best, best_move_equality) else ok unclear
  ]

  unfoldable pub contract_of : MoveAnalyticalMetric → Bool
  unfolding centipawn_contract
  contract_of m = elim m.outcome [
    | centipawn_loss_outcome ↦ centipawn_contract m
    | mate_to_mate ↦ true
    | centipawn_to_mate ↦ true
    | mate_to_centipawn ↦ true
    | missing_score ↦ true
  ]

  unfoldable pub decided :
      CentipawnLossThresholdPolicy
      → Bool
      → MoveAnalyticalMetric
      → Option Verdict
      → Result ClassificationError Verdict
  unfolding by_outcome
  decided policy same m (some verdict) = ok verdict
  decided policy same m none = by_outcome policy same m

  unfoldable pub classify_move :
      CentipawnLossThresholdPolicy
      → MoveAnalyticalMetric
      → Result ClassificationError ClassifiedMoveMetric
  unfolding best_move_equal_to contract_of decided mate_precedence
  classify_move policy m = do
    same ← best_move_equal_to m
    raise_if (not (contract_of m)) inconsistent_fields
    verdict ← decided policy same m (mate_precedence m same)
    ok (record { metric = m; quality = verdict.0; reason = verdict.1; best_move_equal = same })

  unfoldable pub classify_all :
      CentipawnLossThresholdPolicy
      → List MoveAnalyticalMetric
      → Result ClassificationError (List ClassifiedMoveMetric)
  classify_all policy [] = ok []
  classify_all policy (m ∷ ms) = do
    c ← classify_move policy m
    cs ← classify_all policy ms
    ok (c ∷ cs)

  unfoldable pub classify :
      CentipawnLossThresholdPolicy
      → InternalMoveMetrics
      → Result ClassificationError InternalClassifiedMoveMetrics
  classify policy metrics = do
    moves ← classify_all policy metrics.moves
    ok (record {
      game_id = metrics.game_id;
      analysis_run_id = metrics.analysis_run_id;
      lease_generation = metrics.lease_generation;
      moves = moves;
    })
