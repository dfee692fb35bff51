-- ===== src/Results/Replaced.antt =====
-- What a replacement of a generation's records has found and written.
use boardtrace.Prelude.{
  ◌==◌, Bool-cases, Option-cases, is_some, find-true, find-put_by, find-snoc, ok, Result-cases, ◌≡◌,
  ap, ◌∙◌, inl, inr, true, not, ◌||◌, some, List, [], ◌∷◌, ◌++◌, arith,
}
use boardtrace.FullGame.Evaluation.{PositionEvaluation, MoveEvaluation}
use boardtrace.FullGame.Contract.{sorted_by, is_complete, validate_result}
use boardtrace.Jobs.Row.{AnalysisJob}
use boardtrace.Jobs.Table.{get_by_id}
use boardtrace.Results.Rows.{
  Game, AnalysisRun, AnalysisMoveEvaluation, Database, Uuid5, analysis_run_id, get_game, get_run,
  put_run,
}
use boardtrace.Results.Replace.{
  OwnedGeneration, require_complete_result, owns_generation, filled, new_run, move_rows,
  written_run, cleared, inserted, replace_owned_generation,
}

module _ (uuid5 : Uuid5) where
  -- The rows that a replacement that succeeds has read, and the tables that it leaves.
  pub record Replacement (g : OwnedGeneration) (d : Database) (run : AnalysisRun) (e : Database)
      : Type 0 where
    pub job : AnalysisJob
    pub game : Game
    pub rows : List AnalysisMoveEvaluation
    pub job_found : get_by_id g.job_id d.jobs ≡ some job
    pub game_found : get_game job.game_id d.games ≡ some game
    pub owned : owns_generation g job game ≡ true
    pub valid : validate_result g.result ≡ ok tt
    pub written :
        run
        ≡ written_run
            (analysis_run_id uuid5 g.job_id g.lease_generation)
            g
            job
            (get_run (analysis_run_id uuid5 g.job_id g.lease_generation) d.runs)
    pub rows_made :
        move_rows uuid5
          (analysis_run_id uuid5 g.job_id g.lease_generation)
          (sorted_by PositionEvaluation.ply g.result.position_evaluations)
          (sorted_by MoveEvaluation.ply g.result.move_evaluations)
        ≡ ok rows
    pub left :
        e
        ≡ inserted uuid5
            (analysis_run_id uuid5 g.job_id g.lease_generation)
            g
            rows
            (cleared run (get_run (analysis_run_id uuid5 g.job_id g.lease_generation) d.runs) d)

  pub replace_owned_generation-Replacement :
      (g : OwnedGeneration) (d : Database) {run : AnalysisRun} {e : Database}
      → replace_owned_generation uuid5 g d ≡ ok (run, e)
      → Replacement g d run e
  unfolding replace_owned_generation require_complete_result
  replace_owned_generation-Replacement g d {run} {e} h =
      elim (Bool-cases (not (is_complete g.result.status) || is_some g.result.failure)) [
        | inl bad ↦ absurd (ground arith)
        | inr fine ↦ elim (Option-cases (get_by_id g.job_id d.jobs)) [
          | inl gone ↦ absurd (ground arith)
          | inr (job, found) ↦ elim (Option-cases (get_game job.game_id d.games)) [
            | inl gone ↦ absurd (ground arith)
            | inr (game, there) ↦ elim (Bool-cases (owns_generation g job game)) [
              | inr refused ↦ absurd (ground arith)
              | inl owned ↦ elim (Result-cases (validate_result g.result)) [
                | inr (x, invalid) ↦ absurd (ground arith)
                | inl (u, valid) ↦
                    elim (Result-cases (
                      move_rows uuid5 (analysis_run_id uuid5 g.job_id g.lease_generation)
                        (sorted_by PositionEvaluation.ply g.result.position_evaluations)
                        (sorted_by MoveEvaluation.ply g.result.move_evaluations))) [
                          | inr (x, missing) ↦ absurd (ground arith)
                          | inl (rows, made) ↦ record {
                            job = job;
                            game = game;
                            rows = rows;
                            job_found = found;
                            game_found = there;
                            owned = owned;
                            valid = ground arith;
                            written = ground arith;
                            rows_made = made;
                            left = ground arith;
                          }
                        ]
              ]
            ]
          ]
        ]
      ]

  -- The run is in the table under its identifier, and the other tables are as they were.
  pub replaced-get_run :
      {g : OwnedGeneration} {d : Database} {run : AnalysisRun} {e : Database}
      → Replacement g d run e
      → (get_run (analysis_run_id uuid5 g.job_id g.lease_generation) e.runs ≡ some run)
        × (run.id ≡ analysis_run_id uuid5 g.job_id g.lease_generation)
        × (e.jobs ≡ d.jobs)
        × (e.games ≡ d.games)
        × (e.frames ≡ d.frames)
        × (e.detected ≡ d.detected)
  unfolding get_run put_run written_run new_run filled cleared inserted
  replaced-get_run {g} {d} {run} {e} r =
      let k = analysis_run_id uuid5 g.job_id g.lease_generation in
      elim (Option-cases (get_run k d.runs)) [
        | inl absent ↦
            let w : run ≡ new_run k g r.job = ground (arith, r.written) in
            let same : run.id ≡ k = ground arith in
            let kept : e.runs ≡ d.runs ++ run ∷ [] = ground (arith, r.left) in
            let there =
              find-snoc (λ (x : AnalysisRun). x.id == k) d.runs run absent (ground arith) in
            (
              ap (get_run k) kept ∙ there,
              same,
              ground (arith, r.left),
              ground (arith, r.left),
              ground (arith, r.left),
              ground (arith, r.left),
            )
        | inr (old, found) ↦
            let w : run ≡ filled g old = ground (arith, r.written) in
            let hit = find-true (λ (x : AnalysisRun). x.id == k) d.runs found in
            let same : run.id ≡ k = ground arith in
            let kept : e.runs ≡ put_run run d.runs = ground (arith, r.left) in
            let there = find-put_by AnalysisRun.id k run d.runs found same in
            (
              ap (get_run k) kept ∙ there,
              same,
              ground (arith, r.left),
              ground (arith, r.left),
              ground (arith, r.left),
              ground (arith, r.left),
            )
      ]
