-- ===== src/Results/Keyed.antt =====
-- The keys of the tables of results: the identifier of a run is computed from its job and its
-- generation, and every record belongs to a run that is there.
use boardtrace.Prelude.{
  ◌==◌, Option-cases, is_some, All, find-true, ok, Result-cases, All-append, All-filter, All-imp,
  All-map, find-All, All-put_by, is_some-find-put_by, is_some-find-append, ℕ, ◌≡◌, refl, sym, ap,
  ◌∙◌, inl, inr, true, List, [], ◌∷◌, ◌++◌, arith,
}
use boardtrace.Jobs.Table.{get_by_id}
use boardtrace.FullGame.Evaluation.{PositionEvaluation, MoveEvaluation}
use boardtrace.FullGame.Contract.{sorted_by}
use boardtrace.Results.Rows.{
  AnalysisRun, AnalysisPositionEvaluation, AnalysisMoveEvaluation, Database, Uuid5, analysis_run_id,
  position_evaluation_id, get_run, put_run,
}
use boardtrace.Results.Replace.{
  OwnedGeneration, filled, new_run, position_id_at, position_row, move_row, move_rows, written_run,
  cleared, inserted,
}
use boardtrace.Results.Replaced.{Replacement, replaced-get_run}
use boardtrace.Jobs.Row.{AnalysisJob}

abbrev pub InRuns : List AnalysisRun → ℕ → Type 0
InRuns runs k = is_some (get_run k runs) ≡ true

abbrev pub OwnedPosition : List AnalysisRun → AnalysisPositionEvaluation → Type 0
OwnedPosition runs p = InRuns runs p.analysis_run_id

abbrev pub OwnedMove : List AnalysisRun → AnalysisMoveEvaluation → Type 0
OwnedMove runs m = InRuns runs m.analysis_run_id

module _ (uuid5 : Uuid5) where
  abbrev pub Keyed : AnalysisRun → Type 0
  Keyed r = r.id ≡ analysis_run_id uuid5 r.analysis_job_id r.lease_generation

  pub record IsKeyed (d : Database) : Type 0 where
    pub runs_keyed : All Keyed d.runs
    pub positions_owned : All (OwnedPosition d.runs) d.positions
    pub moves_owned : All (OwnedMove d.runs) d.moves

  pub move_rows-of_run :
      (run_id : ℕ) (ps : List PositionEvaluation) (ms : List MoveEvaluation)
      (rows : List AnalysisMoveEvaluation)
      → move_rows uuid5 run_id ps ms ≡ ok rows
      → All (λ (m : AnalysisMoveEvaluation). m.analysis_run_id ≡ run_id) rows
  unfolding move_rows move_row
  move_rows-of_run run_id ps [] [] h = tt
  move_rows-of_run run_id ps [] (r ∷ rows) h = absurd (ground arith)
  move_rows-of_run run_id ps (m ∷ ms) rows h =
      let id_of = position_evaluation_id uuid5 run_id in
      elim (Option-cases (position_id_at id_of ps m.before.ply)) [
        | inl gone ↦ absurd (ground arith)
        | inr (before, b) ↦ elim (Option-cases (position_id_at id_of ps m.after.ply)) [
          | inl gone ↦ absurd (ground arith)
          | inr (after, a) ↦ elim (Result-cases (move_rows uuid5 run_id ps ms)) [
            | inr (x, bad) ↦ absurd (ground arith)
            | inl (rest, more) ↦
                let same : rows ≡ move_row uuid5 run_id m before after ∷ rest = ground arith in
                rw same (refl, move_rows-of_run run_id ps ms rest more)
          ]
        ]
      ]

  -- The tables once the run is written.
  cleared-IsKeyed :
      {g : OwnedGeneration} {d : Database} {run : AnalysisRun} {e : Database}
      → Replacement uuid5 g d run e
      → IsKeyed d
      → IsKeyed (cleared run (get_run (analysis_run_id uuid5 g.job_id g.lease_generation) d.runs) d)
  unfolding get_run put_run written_run new_run filled cleared get_by_id
  cleared-IsKeyed {g} {d} {run} {e} r k =
      let run_id = analysis_run_id uuid5 g.job_id g.lease_generation in
      elim (Option-cases (get_run run_id d.runs)) [
        | inl absent ↦
            let w : run ≡ new_run run_id g r.job = ground (arith, r.written) in
            let hit = find-true (λ (j : AnalysisJob). j.id == g.job_id) d.jobs r.job_found in
            let same : g.job_id ≡ r.job.id = ground arith in
            let is : Keyed run = rw w (ap (λ n. analysis_run_id uuid5 n g.lease_generation) same) in
            let more : (n : ℕ) → InRuns d.runs n → InRuns (d.runs ++ run ∷ []) n =
              λ n h. is_some-find-append (λ (x : AnalysisRun). x.id == n) d.runs (run ∷ []) h in
            rw absent (record {
              runs_keyed = All-append Keyed d.runs (run ∷ []) k.runs_keyed (is, tt);
              positions_owned =
                  All-imp (OwnedPosition d.runs) _ d.positions (λ p h. more p.analysis_run_id h)
                    k.positions_owned;
              moves_owned =
                  All-imp (OwnedMove d.runs) _ d.moves (λ m h. more m.analysis_run_id h)
                    k.moves_owned;
            })
        | inr (old, found) ↦
            let w : run ≡ filled g old = ground (arith, r.written) in
            let is : Keyed run = rw w (find-All Keyed _ d.runs k.runs_keyed found) in
            let more : (n : ℕ) → InRuns d.runs n → InRuns (put_run run d.runs) n =
              λ n h. is_some-find-put_by AnalysisRun.id n run d.runs h in
            rw found (record {
              runs_keyed = All-put_by Keyed AnalysisRun.id run d.runs is k.runs_keyed;
              positions_owned = All-filter _ _ d.positions (
                  All-imp (OwnedPosition d.runs) _ d.positions (λ p h. more p.analysis_run_id h)
                    k.positions_owned);
              moves_owned = All-filter _ _ d.moves (
                  All-imp (OwnedMove d.runs) _ d.moves (λ m h. more m.analysis_run_id h)
                    k.moves_owned);
            })
      ]

  -- A replacement keeps the keys.
  pub Replacement-IsKeyed :
      {g : OwnedGeneration} {d : Database} {run : AnalysisRun} {e : Database}
      → Replacement uuid5 g d run e
      → IsKeyed d
      → IsKeyed e
  unfolding inserted position_row
  Replacement-IsKeyed {g} {d} {run} {e} r k =
      let run_id = analysis_run_id uuid5 g.job_id g.lease_generation in
      let room = cleared run (get_run run_id d.runs) d in
      let c = cleared-IsKeyed r k in
      let (there, _, _, _, _, _) = replaced-get_run uuid5 r in
      let here : InRuns room.runs run_id =
        ap (λ b. is_some (get_run run_id b)) (sym (ap Database.runs r.left)) ∙ ap is_some there in
      let rows =
        All-imp (λ (m : AnalysisMoveEvaluation). m.analysis_run_id ≡ run_id) (OwnedMove room.runs)
          r.rows (λ m is. rw is here) (move_rows-of_run run_id _ _ r.rows r.rows_made) in
      let ps = sorted_by PositionEvaluation.ply g.result.position_evaluations in
      let new = All-map (OwnedPosition room.runs) (position_row uuid5 run_id) ps (λ p. here) in
      rw r.left (record {
        runs_keyed = c.runs_keyed;
        positions_owned =
            All-append (OwnedPosition room.runs) room.positions _ c.positions_owned new;
        moves_owned = All-append (OwnedMove room.runs) room.moves r.rows c.moves_owned rows;
      })
