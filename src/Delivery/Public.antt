-- ===== src/Delivery/Public.antt =====
-- The delivery of an analysis to the player, who gets it once: services/analysis_delivery.py and
-- `consume_public_generation` of repositories/analysis_results.py, under
-- apps/api/src/boardtrace_api.
use boardtrace.Prelude.{
  ◌==◌, if◌then◌else◌, is_some, filter, find, any, Result, ok, err, ◌>>=◌, ◌>>◌, raise_if, or_raise,
  map_err, Text, text_eq, ℕ, ◌-◌, Bool, true, false, not, ◌&&◌, Option, none, some, List, [], ◌∷◌,
}
use boardtrace.Prelude.Int.{ℤ}
use boardtrace.FullGame.Evaluation.{Color, color_eq, MoveEvaluation}
use boardtrace.FullGame.Replay.{finished, analysis_available, Chess}
use boardtrace.Moves.Metrics.{MoveAnalyticalMetric}
use boardtrace.Moves.Classes.{
  MoveQuality, CentipawnLossThresholdPolicy, ClassifiedMoveMetric, UciParser,
}
use boardtrace.Moves.Totals.{PlayerAnalyticalSummary, aggregate}
use boardtrace.Moves.Aggregate.{UnifiedInternalAnalysisAggregate, AggregateError, compose}
use boardtrace.Results.Rows.{
  Game, AnalysisRun, AnalysisPositionEvaluation, AnalysisMoveEvaluation, Database, game_status_eq,
  get_game, put_game, position_of_run, move_of_run,
}
use boardtrace.Delivery.Snapshot.{read_snapshot}

-- The public names of the colors and of the qualities are one to one with the internal ones, and
-- are not told apart from them.
pub record PublicMoveAnalysis : Type 0 where
  pub ply : ℕ
  pub move_uci : Text
  pub move_san : Text
  pub mover : Color
  pub quality : MoveQuality
  pub centipawn_loss : Option ℤ
  pub alternative_san : Option Text
  pub after_position_centipawns : Option ℤ

pub record PublicPlayerAnalysis : Type 0 where
  pub color : Color
  pub total_move_count : ℕ
  pub cpl_eligible_move_count : ℕ
  pub excluded_move_count : ℕ
  pub cpl_coverage : Option ℕ
  pub acpl : Option ℕ
  pub accuracy : Option ℕ
  pub classified_move_count : ℕ
  pub unclassified_move_count : ℕ
  pub classification_coverage : Option ℕ
  pub quality_counts : List (MoveQuality × ℕ)

pub record PublicGameAnalysisResponse : Type 0 where
  pub game_id : ℕ
  pub moves : List PublicMoveAnalysis
  pub white_player : PublicPlayerAnalysis
  pub black_player : PublicPlayerAnalysis

-- What a delivery raises; an error of the layers below the snapshot is passed on as it is.
pub data DeliveryError : Type 0 where
  not_found unavailable : DeliveryError
  internal_error : AggregateError → DeliveryError

-- `_player`
unfoldable pub player_of : PlayerAnalyticalSummary → PublicPlayerAnalysis
player_of s = record {
  color = s.color;
  total_move_count = s.total_move_count;
  cpl_eligible_move_count = s.cpl_eligible_move_count;
  excluded_move_count = s.excluded_move_count;
  cpl_coverage = s.cpl_coverage;
  acpl = s.acpl;
  accuracy = s.accuracy;
  classified_move_count = s.classified_move_count;
  unclassified_move_count = s.unclassified_move_count;
  classification_coverage = s.classification_coverage_percent;
  quality_counts = s.quality_counts;
}

abbrev has_ply : ℕ → MoveEvaluation → Bool
has_ply ply m = m.ply == ply

-- `len(by_ply) == len(persisted_moves)` in `_persisted_moves_by_ply`
unfoldable pub plys_distinct : List MoveEvaluation → Bool
plys_distinct [] = true
plys_distinct (m ∷ ms) = not (any (has_ply m.ply) ms) && plys_distinct ms

abbrev link_holds : MoveAnalyticalMetric → MoveEvaluation → Bool
link_holds metric m =
    text_eq m.move_uci metric.move_uci
    && text_eq m.move_san metric.move_san
    && m.before.ply == metric.ply - 1
    && m.after.ply == metric.ply

-- `_linked_persisted_move`. A ply is positive where a metric was derived.
unfoldable pub linked_persisted_move :
    List MoveEvaluation → MoveAnalyticalMetric → Result DeliveryError MoveEvaluation
linked_persisted_move moves metric = do
  persisted ← or_raise (find (has_ply metric.ply) moves) unavailable
  raise_if (not (link_holds metric persisted)) unavailable
  ok persisted

module _ (chess : Chess) (same_move : chess.Move → chess.Move → Bool) where
  -- `_legal_move`
  unfoldable pub legal_move : chess.Board → Text → Result DeliveryError chess.Move
  legal_move board move_uci = do
    move ← or_raise (chess.from_uci move_uci) unavailable
    raise_if (not (chess.is_legal board move)) unavailable
    ok move

  -- The loop of `map_public_analysis`, from a board on.
  unfoldable pub public_moves :
      List MoveEvaluation
      → chess.Board
      → List ClassifiedMoveMetric
      → Result DeliveryError (List PublicMoveAnalysis)
  public_moves persisted_moves board [] = ok []
  public_moves persisted_moves board (c ∷ cs) = do
    persisted ← linked_persisted_move persisted_moves c.metric
    raise_if (not (color_eq (chess.turn board) c.metric.mover)) unavailable
    played ← legal_move board c.metric.move_uci
    raise_if (not (text_eq (chess.san board played) c.metric.move_san)) unavailable
    engine_move ← legal_move board persisted.before.best_move_uci
    rest ← public_moves persisted_moves (chess.push board played) cs
    let move : PublicMoveAnalysis = record {
      ply = c.metric.ply;
      move_uci = c.metric.move_uci;
      move_san = c.metric.move_san;
      mover = c.metric.mover;
      quality = c.quality;
      centipawn_loss = c.metric.centipawn_loss;
      alternative_san =
          if same_move engine_move played then none else some (chess.san board engine_move);
      after_position_centipawns = persisted.after.score.centipawns;
    }
    ok (move ∷ rest)

  unfoldable pub map_public_analysis :
      UnifiedInternalAnalysisAggregate → Result DeliveryError PublicGameAnalysisResponse
  map_public_analysis a = do
    let persisted_moves = a.snapshot.analysis.result.move_evaluations
    raise_if (not (plys_distinct persisted_moves)) unavailable
    moves ← public_moves persisted_moves chess.initial a.classifications.moves
    let response : PublicGameAnalysisResponse = record {
      game_id = a.game_id;
      moves = moves;
      white_player = player_of a.game_metrics.white_summary;
      black_player = player_of a.game_metrics.black_summary;
    }
    ok response

abbrev pub consumed_run : ℕ → ℕ → AnalysisRun → Bool
consumed_run run_id game_id r = r.id == run_id && r.game_id == game_id

-- The tables without a run; its records go with it.
abbrev pub without_run : ℕ → ℕ → Database → Database
without_run run_id game_id d = record d {
  runs = filter (λ (r : AnalysisRun). not (consumed_run run_id game_id r)) d.runs;
  positions =
      filter (λ (p : AnalysisPositionEvaluation). not (position_of_run run_id p)) d.positions;
  moves = filter (λ (m : AnalysisMoveEvaluation). not (move_of_run run_id m)) d.moves;
}

abbrev pub taken_back : Game → Game
taken_back game = record game { status = finished; analysis_available_at = none }

unfoldable pub consume_public_generation : ℕ → ℕ → Database → Bool × Database
consume_public_generation run_id game_id d =
    if any (consumed_run run_id game_id) d.runs
    then elim (get_game game_id d.games) [
      | none ↦ (false, without_run run_id game_id d)
      | some game ↦ (
        true,
        record (without_run run_id game_id d) { games = put_game (taken_back game) d.games },
      )
    ]
    else (false, d)

-- The SELECT of the released game, by its primary key.
unfoldable pub is_released : ℕ → ℕ → Database → Bool
is_released game_id requesting_user_id d = elim (get_game game_id d.games) [
  | none ↦ false
  | some game ↦
      game.user_id == requesting_user_id
      && game_status_eq game.status analysis_available
      && is_some game.completion_verified_at
]

module _ (chess : Chess) (same_move : chess.Move → chess.Move → Bool) (parse_uci : UciParser)
    (policy : CentipawnLossThresholdPolicy) (scale : ℕ) where
  -- What a delivery answers, and the run that it consumes.
  unfoldable pub response_for :
      ℕ → ℕ → Database → Result DeliveryError (PublicGameAnalysisResponse × ℕ)
  response_for game_id requesting_user_id d = do
    raise_if (not (is_released game_id requesting_user_id d)) not_found
    snapshot ← map_err (λ e. unavailable) (read_snapshot parse_uci game_id requesting_user_id d)
    aggregate ← map_err internal_error (compose parse_uci policy scale snapshot)
    response ← map_public_analysis chess same_move aggregate
    ok (response, aggregate.snapshot.analysis.run_id)

  -- `read_for_owner`: the answer and the database that is committed; whatever raises leaves the
  -- database as it was.
  unfoldable pub deliver :
      ℕ → ℕ → Database → Result DeliveryError PublicGameAnalysisResponse × Database
  deliver game_id requesting_user_id d = elim (response_for game_id requesting_user_id d) [
    | err e ↦ (err e, d)
    | ok (response, run_id) ↦
        let (consumed, e) = consume_public_generation run_id game_id d in
        if consumed then (ok response, e) else (err not_found, d)
  ]
