-- ===== src/Results/Unique.antt =====
-- The unique constraints of the tables of results (class AnalysisRun, AnalysisPositionEvaluation and
-- AnalysisMoveEvaluation of apps/api/src/boardtrace_api/models/models.py): one row for an identifier
-- of a run, and one for a run and a ply.
use boardtrace.Prelude.{
  ◌==◌, Bool-cases, Option-cases, is_some, length, filter, find, count, All, ok, Result-cases,
  All-imp, All-map, filter-none, filter-not, count-append, count-find-none, count-put_by,
  count-filter-le, count-imp, count-filter-nil, count-unless, ℕ, ◌+◌, ◌≤◌, ◌<◌, ◌≡◌, refl, sym, ap,
  ◌∙◌, inl, inr, Bool, true, false, ◌&&◌, none, List, [], ◌∷◌, ◌++◌, map, arith,
}
use boardtrace.FullGame.Contract.{sorted_by, contiguous, validate_result}
use boardtrace.Results.Rows.{
  AnalysisRun, AnalysisPositionEvaluation, AnalysisMoveEvaluation, Database, Uuid5, analysis_run_id,
  position_evaluation_id, get_run, put_run, position_of_run, move_of_run,
}
use boardtrace.FullGame.Evaluation.{PositionEvaluation, MoveEvaluation, FullGameAnalysisResult}
use boardtrace.Results.Replace.{
  OwnedGeneration, position_id_at, position_row, move_row, move_rows, cleared, inserted,
}
use boardtrace.Results.Replaced.{Replacement, replaced-get_run}
use boardtrace.Results.Keyed.{InRuns, OwnedPosition, OwnedMove, IsKeyed, move_rows-of_run}
use boardtrace.Results.Records.{contiguous-rows}

module _ {A : Type 0} where
  contiguous-later :
      (ply_of : A → ℕ) (k n : ℕ) (xs : List A)
      → contiguous ply_of k xs ≡ true
      → n < k
      → count (λ x. ply_of x == n) xs ≡ 0
  unfolding contiguous
  contiguous-later ply_of k n [] c b = refl
  contiguous-later ply_of k n (x ∷ xs) c b = ground (arith, contiguous-later ply_of (k + 1) n xs)

  -- Among plys that count up each stands once.
  contiguous-count :
      (ply_of : A → ℕ) (k n : ℕ) (xs : List A)
      → contiguous ply_of k xs ≡ true
      → count (λ x. ply_of x == n) xs ≤ 1
  unfolding contiguous
  contiguous-count ply_of k n [] c = omega arith
  contiguous-count ply_of k n (x ∷ xs) c =
      ground (arith, contiguous-count ply_of (k + 1) n xs, contiguous-later ply_of (k + 1) n xs)

  -- New rows of a run that has none stand once for each ply.
  rows_unique :
      (run_of ply_of : A → ℕ) (run_id first : ℕ) (room new : List A)
      → ((k n : ℕ) → count (λ a. run_of a == k && ply_of a == n) room ≤ 1)
      → count (λ a. run_of a == run_id) room ≡ 0
      → All (λ a. run_of a ≡ run_id) new
      → contiguous ply_of first new ≡ true
      → (k n : ℕ) → count (λ a. run_of a == k && ply_of a == n) (room ++ new) ≤ 1
  rows_unique run_of ply_of run_id first room new unique none_there mine c k n =
      let mark : A → Bool = λ a. run_of a == k && ply_of a == n in
      let parts = count-append mark room new in
      elim (Bool-cases (k == run_id)) [
        | inl same ↦
            let old = count-imp mark (λ a. run_of a == run_id) room (λ a h. ground arith) in
            let few = count-imp mark (λ a. ply_of a == n) new (λ a h. ground arith) in
            let once = contiguous-count ply_of first n new c in
            omega (arith, parts, old, few, once, none_there)
        | inr other ↦
            let absent = count-unless mark new (
              All-imp (λ a. run_of a ≡ run_id) (λ a. mark a ≡ false) new (λ a is. ground arith)
                mine) in
            omega (arith, parts, absent, unique k n)
      ]

-- A record of a run that is there is not one of a run that is not.
apart_from :
    (runs : List AnalysisRun) (k n i : ℕ)
    → i ≡ k
    → get_run k runs ≡ none
    → InRuns runs n
    → (n == i) ≡ false
apart_from runs k n i same absent own = elim (Bool-cases (n == i)) [
  | inl equal ↦
      let at : n ≡ k = ground arith in
      let gone : is_some (get_run n runs) ≡ false = rw (at, absent) refl in absurd (ground arith)
  | inr different ↦ different
]

-- What the checks of a result say, once they have passed.
pub validate_result-ok :
    (r : FullGameAnalysisResult)
    → validate_result r ≡ ok tt
    → (contiguous PositionEvaluation.ply 0 (sorted_by PositionEvaluation.ply r.position_evaluations)
        ≡ true)
      × (contiguous MoveEvaluation.ply 1 (sorted_by MoveEvaluation.ply r.move_evaluations) ≡ true)
      × (r.checkpoint.evaluated_positions
          ≡ length (sorted_by PositionEvaluation.ply r.position_evaluations))
      × (r.checkpoint.completed_moves ≡ length (sorted_by MoveEvaluation.ply r.move_evaluations))
      × (r.failure ≡ none)
unfolding validate_result
validate_result-ok r h = (ground arith, ground arith, ground arith, ground arith, ground arith)

-- One run for an identifier, and one record of each kind for a run and a ply.
pub record IsUnique (d : Database) : Type 0 where
  pub runs_unique : (k : ℕ) → count (λ (r : AnalysisRun). r.id == k) d.runs ≤ 1
  pub positions_unique :
      (k n : ℕ)
      → count (λ (p : AnalysisPositionEvaluation). p.analysis_run_id == k && p.ply == n) d.positions
        ≤ 1
  pub moves_unique :
      (k n : ℕ)
      → count (λ (m : AnalysisMoveEvaluation). m.analysis_run_id == k && m.ply == n) d.moves ≤ 1

module _ (uuid5 : Uuid5) where
  abbrev Unowned : ℕ → AnalysisPositionEvaluation → Type 0
  Unowned run_id p = position_of_run run_id p ≡ false

  abbrev UnownedMove : ℕ → AnalysisMoveEvaluation → Type 0
  UnownedMove run_id m = move_of_run run_id m ≡ false

  -- Once the run is written, none of the old records belongs to it.
  pub nothing_left :
      {g : OwnedGeneration} {d : Database} {run : AnalysisRun} {e : Database}
      → Replacement uuid5 g d run e
      → IsKeyed uuid5 d
      → let room =
          cleared run (get_run (analysis_run_id uuid5 g.job_id g.lease_generation) d.runs) d in
        (filter (position_of_run run.id) room.positions ≡ [])
        × (filter (move_of_run run.id) room.moves ≡ [])
  unfolding cleared get_run
  nothing_left {g} {d} {run} {e} r k =
      let run_id = analysis_run_id uuid5 g.job_id g.lease_generation in
      let (_, same, _, _, _, _) = replaced-get_run uuid5 r in
      elim (Option-cases (get_run run_id d.runs)) [
        | inl absent ↦ rw absent (
          filter-none (position_of_run run.id) d.positions (
              All-imp (OwnedPosition d.runs) (Unowned run.id) d.positions
                (λ p own. apart_from d.runs run_id p.analysis_run_id run.id same absent own)
                k.positions_owned),
          filter-none (move_of_run run.id) d.moves (
              All-imp (OwnedMove d.runs) (UnownedMove run.id) d.moves
                (λ m own. apart_from d.runs run_id m.analysis_run_id run.id same absent own)
                k.moves_owned),
        )
        | inr (old, found) ↦ rw found (
          filter-not (position_of_run run.id) d.positions,
          filter-not (move_of_run run.id) d.moves,
        )
      ]

  -- The rows of the moves have their plys.
  move_rows-contiguous :
      (run_id k : ℕ) (ps : List PositionEvaluation) (ms : List MoveEvaluation)
      (rows : List AnalysisMoveEvaluation)
      → move_rows uuid5 run_id ps ms ≡ ok rows
      → contiguous MoveEvaluation.ply k ms ≡ true
      → contiguous AnalysisMoveEvaluation.ply k rows ≡ true
  unfolding move_rows move_row contiguous
  move_rows-contiguous run_id k ps [] [] h c = refl
  move_rows-contiguous run_id k ps [] (r ∷ rows) h c = absurd (ground arith)
  move_rows-contiguous run_id k ps (m ∷ ms) rows h c =
      let id_of = position_evaluation_id uuid5 run_id in
      elim (Option-cases (position_id_at id_of ps m.before.ply)) [
        | inl gone ↦ absurd (ground arith)
        | inr (before, b) ↦ elim (Option-cases (position_id_at id_of ps m.after.ply)) [
          | inl gone ↦ absurd (ground arith)
          | inr (after, a) ↦ elim (Result-cases (move_rows uuid5 run_id ps ms)) [
            | inr (x, bad) ↦ absurd (ground arith)
            | inl (rest, more) ↦
                let same : rows ≡ move_row uuid5 run_id m before after ∷ rest = ground arith in
                let later = move_rows-contiguous run_id (k + 1) ps ms rest more (ground arith) in
                rw same (ground arith)
          ]
        ]
      ]

  -- The tables once the run is written and its old records are gone.
  cleared-IsUnique :
      {g : OwnedGeneration} {d : Database} {run : AnalysisRun} {e : Database}
      → Replacement uuid5 g d run e
      → IsUnique d
      → IsUnique
          (cleared run (get_run (analysis_run_id uuid5 g.job_id g.lease_generation) d.runs) d)
  unfolding cleared get_run put_run
  cleared-IsUnique {g} {d} {run} {e} r u =
      let run_id = analysis_run_id uuid5 g.job_id g.lease_generation in
      let (_, named, _, _, _, _) = replaced-get_run uuid5 r in
      elim (Option-cases (get_run run_id d.runs)) [
        | inl absent ↦ rw absent (record {
          runs_unique = λ k.
              let parts = count-append (λ (x : AnalysisRun). x.id == k) d.runs (run ∷ []) in
              elim (Bool-cases (run.id == k)) [
                | inl this ↦
                    let at : k ≡ run_id = ground arith in
                    let gone : find (λ (x : AnalysisRun). x.id == k) d.runs ≡ none = rw at absent in
                    ground
                      (arith, parts, count-find-none (λ (x : AnalysisRun). x.id == k) d.runs gone)
                | inr other ↦ ground (arith, parts, u.runs_unique k)
              ];
          positions_unique = u.positions_unique;
          moves_unique = u.moves_unique;
        })
        | inr (old, found) ↦ rw found (record {
          runs_unique = λ k. rw (count-put_by AnalysisRun.id run k d.runs) (u.runs_unique k);
          positions_unique =
              λ k n. omega (arith, count-filter-le _ _ d.positions, u.positions_unique k n);
          moves_unique = λ k n. omega (arith, count-filter-le _ _ d.moves, u.moves_unique k n);
        })
      ]

  -- A replacement leaves no two rows under one key.
  pub Replacement-IsUnique :
      {g : OwnedGeneration} {d : Database} {run : AnalysisRun} {e : Database}
      → Replacement uuid5 g d run e
      → IsKeyed uuid5 d
      → IsUnique d
      → IsUnique e
  unfolding inserted position_row
  Replacement-IsUnique {g} {d} {run} {e} r k u =
      let run_id = analysis_run_id uuid5 g.job_id g.lease_generation in
      let ps = sorted_by PositionEvaluation.ply g.result.position_evaluations in
      let ms = sorted_by MoveEvaluation.ply g.result.move_evaluations in
      let room = cleared run (get_run run_id d.runs) d in
      let c = cleared-IsUnique r u in
      let (np, nm) = nothing_left r k in
      let (_, named, _, _, _, _) = replaced-get_run uuid5 r in
      let (numbered_positions, numbered_moves, _, _, _) = validate_result-ok g.result r.valid in
      let new = map (position_row uuid5 run_id) ps in
      rw r.left (record {
        runs_unique = c.runs_unique;
        positions_unique =
            rows_unique AnalysisPositionEvaluation.analysis_run_id AnalysisPositionEvaluation.ply
              run_id 0 room.positions new c.positions_unique
              (sym (ap (λ i. count (position_of_run i) room.positions) named)
                ∙ count-filter-nil (position_of_run run.id) room.positions np)
              (All-map _ (position_row uuid5 run_id) ps (λ p. refl))
              (contiguous-rows uuid5 run_id 0 ps numbered_positions);
        moves_unique =
            rows_unique AnalysisMoveEvaluation.analysis_run_id AnalysisMoveEvaluation.ply run_id 1
              room.moves r.rows c.moves_unique
              (sym (ap (λ i. count (move_of_run i) room.moves) named)
                ∙ count-filter-nil (move_of_run run.id) room.moves nm)
              (move_rows-of_run uuid5 run_id ps ms r.rows r.rows_made)
              (move_rows-contiguous run_id 1 ps ms r.rows r.rows_made numbered_moves);
      })
