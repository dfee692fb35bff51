-- ===== src/FullGame/Complete.antt =====
-- What an analysis returns, and what it leaves when it fails.
use boardtrace.Prelude.{
  leb, length, All, Result, ok, err, ◌>>=◌, Result-cases, ℕ, ◌+◌, ◌-◌, ◌≤◌, ◌<◌, ◌≡◌, refl, ◌≢◌,
  ◌⊎◌, inl, inr, true, ◌&&◌, none, some, List, arith,
}
use boardtrace.FullGame.Evaluation.{
  PositionEvaluation, MoveEvaluation, FullGameFailure, complete, partial, FullGameAnalysisResult,
}
use boardtrace.FullGame.Replay.{
  CompletedGameAnalysisInput, FullGameAnalysisBudget, budget_accepted, authorize, Chess,
  ReplayPosition, replay,
}
use boardtrace.FullGame.Analyzer.{
  request_accepted, Engine, Progress, no_progress, checkpoint_of, AnalysisError, input_error,
  session_error, analysis_failed, result_of, failed_at, request_for, evaluate, analyse,
}
use boardtrace.FullGame.Contract.{not_complete, sorted_by, validate_result, sorted_by-contiguous}
use boardtrace.FullGame.Linked.{LinkedTo, evaluate-IsLinked}
use boardtrace.FullGame.Evaluated.{
  IsEvaluated, replay-Replayed, evaluate-ok, evaluate-err, nothing-IsEvaluated,
}

module _ (chess : Chess) (engine : Engine) (game : CompletedGameAnalysisInput)
    (budget : FullGameAnalysisBudget) where
  evaluated_valid :
      (total n : ℕ) (p : Progress)
      → IsEvaluated n p.evaluations p.moves
      → validate_result (result_of engine game.game_id budget total complete none p) ≡ ok tt
  unfolding validate_result result_of checkpoint_of
  evaluated_valid total n p v =
      rw
        (
          sorted_by-contiguous PositionEvaluation.ply 0 p.evaluations v.positions_numbered,
          sorted_by-contiguous MoveEvaluation.ply 1 p.moves v.moves_numbered,
          v.positions_numbered,
          v.moves_numbered,
          v.adjacent,
        )
        (ground arith)

  -- The two ways through the loop, once the input is accepted and the engine has started.
  started :
      {out : Result AnalysisError FullGameAnalysisResult}
      → analyse chess engine game budget ≡ out
      → ((e : AnalysisError) × (out ≡ err e)
          × ((r : FullGameAnalysisResult) → e ≢ analysis_failed r))
        ⊎ ((ps : List ReplayPosition) × (p : Result AnalysisError Progress) × (replay chess game
                budget
              ≡ ok ps)
            × (evaluate engine game.game_id budget (length ps) ps no_progress ≡ p)
            × (out ≡ (
                p >>= λ q. ok (result_of engine game.game_id budget (length ps) complete none q))))
  unfolding analyse
  started h = elim (Result-cases (authorize game)) [
    | inr (e, a) ↦ inl (input_error e, ground arith, λ r x. cc)
    | inl (u, a) ↦ elim (Result-cases (replay chess game budget)) [
      | inr (e, b) ↦ inl (input_error e, ground arith, λ r x. cc)
      | inl (ps, b) ↦ elim (Result-cases engine.opens) [
        | inr (e, c) ↦ inl (session_error e, ground arith, λ r x. cc)
        | inl (w, c) ↦ inr (
          ps,
          evaluate engine game.game_id budget (length ps) ps no_progress,
          b,
          refl,
          ground arith,
        )
      ]
    ]
  ]

  refused_partial :
      (total : ℕ) (f : FullGameFailure) (p : Progress)
      → validate_result (result_of engine game.game_id budget total partial (some f) p)
        ≡ err not_complete
  unfolding validate_result result_of
  refused_partial total f p = refl

  -- An analysis that returns has evaluated every position of the game, one more than it has moves,
  -- and each of its moves between two of them; its result keeps the contract of the store.
  pub analyse-valid :
      {r : FullGameAnalysisResult}
      → analyse chess engine game budget ≡ ok r
      → (validate_result r ≡ ok tt)
        × (length r.move_evaluations ≡ length game.normalized_moves_uci)
        × (length r.position_evaluations ≡ length game.normalized_moves_uci + 1)
  unfolding analyse result_of
  analyse-valid {r} h = elim (started h) [
    | inl (e, is, _) ↦ absurd (ground arith)
    | inr (ps, ok p, b, l, is) ↦
        let (d, more) = replay-Replayed chess game budget ps b in
        let v =
          evaluate-ok engine game.game_id budget (length ps) 0 ps no_progress p d
            nothing-IsEvaluated refl l in
        let w = evaluated_valid (length ps) (0 + length ps) p v in
        (
          ground (arith, is, w),
          ground (arith, is, v.moved, more),
          ground (arith, is, v.counted, more),
        )
    | inr (ps, err p, b, l, is) ↦ absurd (ground arith)
  ]

  -- The moves of a result stand between two of its positions, and its lists count up by ply.
  pub analyse-linked :
      {r : FullGameAnalysisResult}
      → analyse chess engine game budget ≡ ok r
      → (validate_result r ≡ ok tt)
        × (sorted_by PositionEvaluation.ply r.position_evaluations ≡ r.position_evaluations)
        × (sorted_by MoveEvaluation.ply r.move_evaluations ≡ r.move_evaluations)
        × All (LinkedTo r.position_evaluations) r.move_evaluations
  unfolding analyse result_of
  analyse-linked {r} h = elim (started h) [
    | inl (e, is, _) ↦ absurd (ground arith)
    | inr (ps, ok p, b, l, is) ↦
        let (d, more) = replay-Replayed chess game budget ps b in
        let total = length ps in
        let v =
          evaluate-ok engine game.game_id budget total 0 ps no_progress p d nothing-IsEvaluated refl
            l in
        let k =
          evaluate-IsLinked engine game.game_id budget total 0 ps no_progress p d
            nothing-IsEvaluated refl (record { linked = tt; last_there = tt }) l in
        let same : r ≡ result_of engine game.game_id budget total complete none p = ground arith in
        rw same (
          evaluated_valid total (0 + total) p v,
          sorted_by-contiguous PositionEvaluation.ply 0 p.evaluations v.positions_numbered,
          sorted_by-contiguous MoveEvaluation.ply 1 p.moves v.moves_numbered,
          k.linked,
        )
    | inr (ps, err p, b, l, is) ↦ absurd (ground arith)
  ]

  -- An analysis that fails after its start leaves exactly the positions before the one it failed
  -- at, and the moves between them; the store does not take what it leaves.
  pub analyse-partial :
      {r : FullGameAnalysisResult}
      → analyse chess engine game budget ≡ err (analysis_failed r)
      → (f : FullGameFailure) × (r.failure ≡ some f)
        × (f.failed_position_ply ≤ length game.normalized_moves_uci)
        × IsEvaluated f.failed_position_ply r.position_evaluations r.move_evaluations
        × (validate_result r ≡ err not_complete)
  unfolding result_of failed_at
  analyse-partial {r} h = elim (started h) [
    | inl (e, is, other) ↦ absurd (other r (ground arith))
    | inr (ps, ok p, b, l, is) ↦ absurd (ground arith)
    | inr (ps, err x, b, l, is) ↦
        let (d, more) = replay-Replayed chess game budget ps b in
        let (k, code, name, p, same, v, below) =
          evaluate-err engine game.game_id budget (length ps) 0 ps no_progress x d
            nothing-IsEvaluated refl l in
        let f : FullGameFailure = record {
          code = code;
          failed_position_ply = k;
          error_type = name;
        } in
        let left : r ≡ result_of engine game.game_id budget (length ps) partial (some f) p =
          ground arith in
        rw left (f, refl, omega arith, v, refused_partial (length ps) f p)
  ]

-- Under a budget that the constructor accepts, and while time is left, the limits of a request are
-- in the ranges that it is checked for, and no request asks for more time than the budget of a position or than
-- is left of the game's: only the length of the FEN can make it invalid.
pub request_for-bounds :
    (engine : Engine) (g : ℕ) (b : FullGameAnalysisBudget) (total elapsed : ℕ) (p : ReplayPosition)
    → budget_accepted b ≡ true
    → elapsed < b.max_game_time_ms
    → let r = request_for engine g b total (b.max_game_time_ms - elapsed) p in
      (request_accepted r ≡ (leb 1 (length p.fen) && leb (length p.fen) 128))
      × (r.time_limit_ms ≤ b.max_position_time_ms)
      × (r.time_limit_ms + elapsed ≤ b.max_game_time_ms)
unfolding budget_accepted request_for request_accepted
request_for-bounds engine g b total elapsed p acc h = (ground arith, omega arith, omega arith)
