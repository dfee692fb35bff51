-- ===== src/FullGame/Linked.antt =====
-- The moves of an evaluation stand between two of its positions.
use boardtrace.Prelude.{
  ◌==◌, Option-cases, length, find, All, append-nil, find-snoc, find-append, ok, Result-cases,
  All-append, All-imp, ℕ, suc, ◌+◌, ◌≤◌, ◌≡◌, refl, sym, inl, inr, Bool, true, false, Option, none,
  some, List, [], ◌∷◌, ◌++◌, arith,
}
use boardtrace.FullGame.Evaluation.{PositionEvaluation, MoveEvaluation}
use boardtrace.FullGame.Replay.{FullGameAnalysisBudget, ReplayPosition}
use boardtrace.FullGame.Analyzer.{
  StockfishAnalysisResult, Engine, Progress, position_evaluation, ask, move_between, record_answer,
  evaluate,
}
use boardtrace.FullGame.Contract.{contiguous}
use boardtrace.FullGame.Evaluated.{IsEvaluated, Replayed, LastIs, record_answer-IsEvaluated}

abbrev pub at_ply : ℕ → PositionEvaluation → Bool
at_ply k p = p.ply == k

-- The two positions of a move are those of the list at their plys.
abbrev pub LinkedTo : List PositionEvaluation → MoveEvaluation → Type 0
LinkedTo ps m =
    (find (at_ply m.before.ply) ps ≡ some m.before) × (find (at_ply m.after.ply) ps ≡ some m.after)

abbrev LastThere : List PositionEvaluation → Option PositionEvaluation → Type 0
LastThere ps none = Unit
LastThere ps (some e) = find (at_ply e.ply) ps ≡ some e

pub record IsLinked (p : Progress) : Type 0 where
  pub linked : All (LinkedTo p.evaluations) p.moves
  pub last_there : LastThere p.evaluations p.last

find-past :
    (k n : ℕ) (ps : List PositionEvaluation)
    → contiguous PositionEvaluation.ply k ps ≡ true
    → k + length ps ≤ n
    → find (at_ply n) ps ≡ none
unfolding contiguous
find-past k n [] c h = refl
find-past k n (p ∷ ps) c h =
    let apart : (p.ply == n) ≡ false = ground arith in
    rw (apart, find-past (k + 1) n ps (ground arith) (omega (arith, h))) refl

module _ (engine : Engine) (game_id : ℕ) (budget : FullGameAnalysisBudget) (total : ℕ) where
  record_answer-IsLinked :
      (n : ℕ) (q : ReplayPosition) (r : StockfishAnalysisResult) (p : Progress)
      → contiguous PositionEvaluation.ply 0 p.evaluations ≡ true
      → length p.evaluations ≡ n
      → q.ply ≡ n
      → IsLinked p
      → IsLinked (record_answer engine game_id budget total q r p)
  unfolding record_answer position_evaluation move_between
  record_answer-IsLinked n q r p c l at v =
      let e = position_evaluation q r in
      let ps = p.evaluations ++ e ∷ [] in
      let new : find (at_ply e.ply) ps ≡ some e =
        find-snoc (at_ply e.ply) p.evaluations e
          (find-past 0 q.ply p.evaluations c (omega (arith, l, at))) (ground arith) in
      let old =
        All-imp (LinkedTo p.evaluations) (LinkedTo ps) p.moves
          (λ m h. (
            find-append (at_ply m.before.ply) p.evaluations (e ∷ []) m.before h.0,
            find-append (at_ply m.after.ply) p.evaluations (e ∷ []) m.after h.1,
          ))
          v.linked in
      elim (Option-cases q.preceding) [
        | inl absent ↦ rw (absent, append-nil p.moves) (record { linked = old; last_there = new })
        | inr ((uci, san), there) ↦ elim (Option-cases p.last) [
          | inl absent ↦
              rw (there, absent, append-nil p.moves) (record { linked = old; last_there = new })
          | inr (before, found) ↦
              let seen : find (at_ply before.ply) p.evaluations ≡ some before =
                rw found at v.last_there in
              rw (there, found)
                (record {
                  linked = All-append (LinkedTo ps) p.moves _ old (
                    (find-append (at_ply before.ply) p.evaluations (e ∷ []) before seen, new),
                    tt,
                  );
                  last_there = new;
                })
        ]
      ]

  pub evaluate-IsLinked :
      (n : ℕ) (ps : List ReplayPosition) (p p' : Progress)
      → Replayed n ps
      → IsEvaluated n p.evaluations p.moves
      → LastIs n p.last
      → IsLinked p
      → evaluate engine game_id budget total ps p ≡ ok p'
      → IsLinked p'
  unfolding evaluate
  evaluate-IsLinked n [] p p' d v l k e = let same : p ≡ p' = ground arith in rw (sym same) k
  evaluate-IsLinked n (q ∷ ps) p p' d v l k e =
      elim (Result-cases (ask engine game_id budget total q)) [
        | inr ((code, name), bad) ↦ absurd (ground arith)
        | inl (r, good) ↦
            let (w, m) =
              record_answer-IsEvaluated engine game_id budget total n q r p d.0 d.1 v l in
            let next = record_answer engine game_id budget total q r p in
            let rest : evaluate engine game_id budget total ps next ≡ ok p' = ground arith in
            evaluate-IsLinked (suc n) ps next p' d.2 w m
              (record_answer-IsLinked n q r p v.positions_numbered v.counted d.0 k) rest
      ]
