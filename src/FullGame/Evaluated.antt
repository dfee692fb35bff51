-- ===== src/FullGame/Evaluated.antt =====
-- The loop over the positions of a replay.
use boardtrace.Prelude.{
  ltb, Option-cases, is_some, length, length-append, append-nil, length-snoc, ok, err, Result-cases,
  Text, ℕ, zero, suc, ◌+◌, ◌-◌, ◌<◌, ◌≡◌, refl, ap, inl, inr, true, Option, none, some, List, [],
  ◌∷◌, arith,
}
use boardtrace.FullGame.Evaluation.{PositionEvaluation, MoveEvaluation, FullGameFailureCode}
use boardtrace.FullGame.Replay.{
  CompletedGameAnalysisInput, FullGameAnalysisBudget, Chess, ReplayPosition, starting_board,
  replay_from, replay,
}
use boardtrace.FullGame.Analyzer.{
  StockfishAnalysisResult, Engine, Progress, position_evaluation, AnalysisError, failed_at, ask,
  record_answer, evaluate,
}
use boardtrace.FullGame.Contract.{
  contiguous, references_hold, contiguous-snoc, references_hold-snoc,
}

-- The first `n` positions of a game were evaluated.
pub record IsEvaluated (n : ℕ) (positions : List PositionEvaluation) (moves : List MoveEvaluation)
    : Type 0 where
  pub counted : length positions ≡ n
  pub moved : length moves ≡ n - 1
  pub positions_numbered : contiguous PositionEvaluation.ply 0 positions ≡ true
  pub moves_numbered : contiguous MoveEvaluation.ply 1 moves ≡ true
  pub adjacent : references_hold moves ≡ true

-- The plys of a replay count up, and each position but the first has a preceding move.
abbrev pub Replayed : ℕ → List ReplayPosition → Type 0
Replayed n [] = Unit
Replayed n (p ∷ ps) = (p.ply ≡ n) × (is_some p.preceding ≡ ltb 0 n) × Replayed (suc n) ps

abbrev pub LastIs : ℕ → Option PositionEvaluation → Type 0
LastIs zero last = last ≡ none
LastIs (suc n) none = ⊥
LastIs (suc n) (some e) = e.ply ≡ n

module _ (chess : Chess) where
  replay_from-Replayed :
      (n : ℕ) (board : chess.Board) (moves : List Text) (ps : List ReplayPosition)
      → 0 < n
      → replay_from chess n board moves ≡ ok ps
      → Replayed n ps × (length ps ≡ length moves)
  unfolding replay_from
  replay_from-Replayed n board [] [] h r = (tt, refl)
  replay_from-Replayed n board [] (p ∷ ps) h r = absurd (ground arith)
  replay_from-Replayed n board (uci ∷ moves) [] h r = absurd (ground arith)
  replay_from-Replayed n board (uci ∷ moves) (p ∷ ps) h r =
      elim (Option-cases (chess.from_uci uci)) [
        | inl bad ↦ absurd (ground arith)
        | inr (move, good) ↦
            let rest : replay_from chess (suc n) (chess.push board move) moves ≡ ok ps =
              ground arith in
            let (d, l) =
              replay_from-Replayed (suc n) (chess.push board move) moves ps (omega arith) rest in
            ((ground arith, ground arith, d), ap suc l)
      ]

  -- A replay has one position more than the game has moves.
  pub replay-Replayed :
      (game : CompletedGameAnalysisInput) (budget : FullGameAnalysisBudget)
      (ps : List ReplayPosition)
      → replay chess game budget ≡ ok ps
      → Replayed 0 ps × (length ps ≡ length game.normalized_moves_uci + 1)
  unfolding replay
  replay-Replayed game budget [] r = absurd (ground arith)
  replay-Replayed game budget (p ∷ ps) r =
      elim (Option-cases (starting_board chess game.initial_fen)) [
        | inl bad ↦ absurd (ground arith)
        | inr (board, good) ↦
            let rest : replay_from chess 1 board game.normalized_moves_uci ≡ ok ps = ground arith in
            let (d, l) =
              replay_from-Replayed 1 board game.normalized_moves_uci ps (omega arith) rest in
            ((ground arith, ground arith, d), omega arith)
      ]

module _ (engine : Engine) (game_id : ℕ) (budget : FullGameAnalysisBudget) (total : ℕ) where
  pub record_answer-IsEvaluated :
      (n : ℕ) (q : ReplayPosition) (r : StockfishAnalysisResult) (p : Progress)
      → q.ply ≡ n
      → is_some q.preceding ≡ ltb 0 n
      → IsEvaluated n p.evaluations p.moves
      → LastIs n p.last
      → let p' = record_answer engine game_id budget total q r p in
        IsEvaluated (suc n) p'.evaluations p'.moves × LastIs (suc n) p'.last
  unfolding record_answer
  record_answer-IsEvaluated zero q r p k m v l = elim (Option-cases q.preceding) [
    | inr (move, first) ↦ absurd (ground arith)
    | inl first ↦ (
      record {
        counted =
            ground (arith, v.counted, length-append p.evaluations (position_evaluation q r ∷ []));
        moved = ground (arith, first, v.moved, append-nil p.moves);
        positions_numbered =
            contiguous-snoc PositionEvaluation.ply 0 p.evaluations (position_evaluation q r)
              v.positions_numbered (omega (arith, k, v.counted));
        moves_numbered = rw (first, append-nil p.moves) v.moves_numbered;
        adjacent = rw (first, append-nil p.moves) v.adjacent;
      },
      k,
    )
  ]
  record_answer-IsEvaluated (suc n) q r p k m v l = elim (Option-cases q.preceding) [
    | inl none_before ↦ absurd (ground arith)
    | inr ((uci, san), before_it) ↦ elim (Option-cases p.last) [
      | inl lost ↦ absurd (rw lost at l)
      | inr (e, found) ↦ (
        record {
          counted =
              ground (arith, v.counted, length-append p.evaluations (position_evaluation q r ∷ []));
          moved = rw (before_it, found, length-snoc p.moves) (omega (arith, v.moved));
          positions_numbered =
              contiguous-snoc PositionEvaluation.ply 0 p.evaluations (position_evaluation q r)
                v.positions_numbered (omega (arith, k, v.counted));
          moves_numbered =
              rw (before_it, found)
                (contiguous-snoc MoveEvaluation.ply 1 p.moves _ v.moves_numbered
                  (omega (arith, k, v.moved)));
          adjacent =
              rw (before_it, found) (references_hold-snoc p.moves _ v.adjacent (ground arith) refl);
        },
        k,
      )
    ]
  ]

  pub evaluate-ok :
      (n : ℕ) (ps : List ReplayPosition) (p p' : Progress)
      → Replayed n ps
      → IsEvaluated n p.evaluations p.moves
      → LastIs n p.last
      → evaluate engine game_id budget total ps p ≡ ok p'
      → IsEvaluated (n + length ps) p'.evaluations p'.moves
  unfolding evaluate
  evaluate-ok n [] p p' d v l e = let z : n + 0 ≡ n = omega arith in ground (arith, z, v)
  evaluate-ok n (q ∷ ps) p p' d v l e = elim (Result-cases (ask engine game_id budget total q)) [
    | inr ((code, name), bad) ↦ absurd (ground arith)
    | inl (r, good) ↦
        let (w, k) = record_answer-IsEvaluated n q r p d.0 d.1 v l in
        let rest : evaluate engine game_id budget total ps
              (record_answer engine game_id budget total q r p)
            ≡ ok p' =
          ground arith in
        let done =
          evaluate-ok (suc n) ps (record_answer engine game_id budget total q r p) p' d.2 w k
            rest in
        let z : n + suc (length ps) ≡ suc n + length ps = omega arith in rw z done
  ]

  pub evaluate-err :
      (n : ℕ) (ps : List ReplayPosition) (p : Progress) (e : AnalysisError)
      → Replayed n ps
      → IsEvaluated n p.evaluations p.moves
      → LastIs n p.last
      → evaluate engine game_id budget total ps p ≡ err e
      → (k : ℕ) × (code : FullGameFailureCode) × (name : Text) × (p' : Progress) × (e
          ≡ failed_at engine game_id budget total code k name p')
        × IsEvaluated k p'.evaluations p'.moves
        × (k < n + length ps)
  unfolding evaluate
  evaluate-err n [] p x d v l e = absurd (ground arith)
  evaluate-err n (q ∷ ps) p x d v l e = elim (Result-cases (ask engine game_id budget total q)) [
    | inr ((code, name), bad) ↦ (n, code, name, p, ground arith, v, omega arith)
    | inl (r, good) ↦
        let (w, k) = record_answer-IsEvaluated n q r p d.0 d.1 v l in
        let p' = record_answer engine game_id budget total q r p in
        let rest : evaluate engine game_id budget total ps p' ≡ err x = ground arith in
        let (j, code, name, p'', is, u, below) = evaluate-err (suc n) ps p' x d.2 w k rest in
        (j, code, name, p'', is, u, omega arith)
  ]

pub nothing-IsEvaluated : IsEvaluated 0 [] []
unfolding contiguous references_hold
nothing-IsEvaluated = record {
  counted = refl;
  moved = refl;
  positions_numbered = refl;
  moves_numbered = refl;
  adjacent = refl;
}
