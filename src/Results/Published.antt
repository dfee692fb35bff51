-- ===== src/Results/Published.antt =====
-- What a completed generation leaves behind.
use boardtrace.Prelude.{
  ◌==◌, Bool-cases, Option-cases, filter, put_by, find-true, find-put_by, ok, Result-cases, Text, ℕ,
  ◌≡◌, refl, sym, ap, ◌∙◌, inl, inr, Bool, true, not, none, some, List, [], ◌∷◌, arith,
}
use boardtrace.FullGame.Replay.{analysis_available}
use boardtrace.Jobs.Status.{succeeded}
use boardtrace.Jobs.Row.{AnalysisJob}
use boardtrace.Jobs.Operations.{refused, complete_job}
use boardtrace.Jobs.Table.{get_by_id, put_job}
use boardtrace.Results.Rows.{Game, GameChild, AnalysisRun, Database, Uuid5, get_game, put_game}
use boardtrace.Results.Replace.{OwnedGeneration, replace_owned_generation}
use boardtrace.Results.Complete.{
  published, may_publish, make_owned_generation_available, anonymous, delete_for_job, complete_in,
  complete_owned_generation,
}
use boardtrace.Results.Replaced.{
  Replacement, replace_owned_generation-Replacement, replaced-get_run,
}

pub put_job-put_by :
    (row : AnalysisJob) (js : List AnalysisJob) → put_job row js ≡ put_by AnalysisJob.id row js
unfolding put_job put_by
put_job-put_by row [] = refl
put_job-put_by row (j ∷ js) = rw (put_job-put_by row js) refl

-- The row of a job that has been completed.
complete_job-row :
    (worker_id : Text) (now generation : ℕ) (job row : AnalysisJob)
    → complete_job worker_id now (some generation) job ≡ ok (some row)
    → (row.status ≡ succeeded) × (row.id ≡ job.id) × (row.game_id ≡ job.game_id)
unfolding complete_job
complete_job-row worker_id now generation job row h = (ground arith, ground arith, ground arith)

-- The completion of a job in the table.
complete_in-ok :
    (job_id : ℕ) (worker_id : Text) (now generation : ℕ) (d : Database) {u : Unit} {e : Database}
    → complete_in job_id worker_id now generation d ≡ ok (u, e)
    → (job row : AnalysisJob) × (get_by_id job_id d.jobs ≡ some job)
      × (complete_job worker_id now (some generation) job ≡ ok (some row))
      × (e ≡ record d { jobs = put_job row d.jobs })
unfolding complete_in
complete_in-ok job_id worker_id now generation d {u} {e} h =
    elim (Option-cases (get_by_id job_id d.jobs)) [
      | inl gone ↦ absurd (ground arith)
      | inr (job, found) ↦ elim (Result-cases (complete_job worker_id now (some generation) job)) [
        | inr (x, bad) ↦ absurd (ground arith)
        | inl (none, bad) ↦ absurd (ground arith)
        | inl (some row, good) ↦ (job, row, found, good, ground arith)
      ]
    ]

-- A game that was changed is found again.
pub found_after :
    (game_id : ℕ) (games : List Game) (game changed : Game)
    → get_game game_id games ≡ some game
    → changed.id ≡ game.id
    → get_game game_id (put_game changed games) ≡ some changed
unfolding get_game put_game
found_after game_id games game changed found same =
    let hit = find-true (λ (x : Game). x.id == game_id) games found in
    find-put_by Game.id game_id changed games found (ground arith)

module _ (uuid5 : Uuid5) where
  make_available-ok :
      (run : AnalysisRun) (job_id generation now : ℕ) (d : Database) {u : Unit} {e : Database}
      → make_owned_generation_available uuid5 run job_id generation now d ≡ ok (u, e)
      → (job : AnalysisJob) × (game : Game) × (get_by_id job_id d.jobs ≡ some job)
        × (get_game job.game_id d.games ≡ some game)
        × (may_publish uuid5 run job_id generation job game d ≡ true)
        × (e ≡ record d {
          games =
              put_game
                (record game { status = analysis_available; analysis_available_at = some now })
                d.games;
        })
  unfolding make_owned_generation_available
  make_available-ok run job_id generation now d {u} {e} h =
      elim (Option-cases (get_by_id job_id d.jobs)) [
        | inl gone ↦ absurd (ground arith)
        | inr (job, found) ↦ elim (Option-cases (get_game job.game_id d.games)) [
          | inl gone ↦ absurd (ground arith)
          | inr (game, there) ↦
              elim (Bool-cases (may_publish uuid5 run job_id generation job game d)) [
                | inr refused ↦ absurd (ground arith)
                | inl granted ↦ (job, game, found, there, granted, ground arith)
              ]
        ]
      ]

  -- The rows that a completed generation has found, and those that it leaves.
  pub record Publication (g : OwnedGeneration) (d : Database) (run : AnalysisRun) (e : Database)
      : Type 0 where
    pub row : AnalysisJob
    pub game : Game
    pub middle : Database
    pub late : Database
    pub replaced : Replacement uuid5 g d run middle
    pub completed : get_by_id g.job_id e.jobs ≡ some row
    pub succeeded_row : row.status ≡ succeeded
    pub row_game : row.game_id ≡ replaced.job.game_id
    pub game_found : get_game row.game_id d.games ≡ some game
    pub permitted : may_publish uuid5 run g.job_id g.lease_generation row game late ≡ true
    pub late_jobs : late.jobs ≡ e.jobs
    pub late_positions : late.positions ≡ middle.positions
    pub late_moves : late.moves ≡ middle.moves
    pub released : get_game row.game_id e.games ≡ some (anonymous (published g.finished_at game))
    pub runs_kept : e.runs ≡ middle.runs
    pub positions_kept : e.positions ≡ middle.positions
    pub moves_kept : e.moves ≡ middle.moves
    pub frames_gone : e.frames ≡ filter (λ (c : GameChild). not (c.game_id == row.game_id)) d.frames
    pub detected_gone :
        e.detected ≡ filter (λ (c : GameChild). not (c.game_id == row.game_id)) d.detected

  -- The clean-up of a game that is there.
  delete_for_job-found :
      (job_id : ℕ) (d : Database) (job : AnalysisJob) (game : Game)
      → get_by_id job_id d.jobs ≡ some job
      → get_game job.game_id d.games ≡ some game
      → delete_for_job job_id d ≡ (
        true,
        record d {
          detected = filter (λ (c : GameChild). not (c.game_id == job.game_id)) d.detected;
          frames = filter (λ (c : GameChild). not (c.game_id == job.game_id)) d.frames;
          games = put_game (anonymous game) d.games;
        },
      )
  unfolding delete_for_job
  delete_for_job-found job_id d job game found there = rw (delete_for_job, found, there) refl

  Publication-intro :
      (g : OwnedGeneration) (d : Database) (run : AnalysisRun) (d1 d2 d3 : Database) {u v : Unit}
      → Replacement uuid5 g d run d1
      → complete_in g.job_id g.worker_id g.finished_at g.lease_generation d1 ≡ ok (u, d2)
      → make_owned_generation_available uuid5 run g.job_id g.lease_generation g.finished_at d2
        ≡ ok (v, d3)
      → Publication g d run (delete_for_job g.job_id d3).1
  unfolding get_by_id anonymous
  Publication-intro g d run d1 d2 d3 r second third =
      let (_, _, jobs_kept, games_kept, frames_kept, detected_kept) = replaced-get_run uuid5 r in
      let (job1, row, f1, c1, e2) =
        complete_in-ok g.job_id g.worker_id g.finished_at g.lease_generation d1 second in
      let (job2, game2, f2, g2, granted, e3) =
        make_available-ok run g.job_id g.lease_generation g.finished_at d2 third in
      let (done, id_kept, game_kept) =
        complete_job-row g.worker_id g.finished_at g.lease_generation job1 row c1 in
      let hit = find-true (λ (j : AnalysisJob). j.id == g.job_id) d1.jobs f1 in
      let same1 : job1 ≡ r.job = ground (arith, r.job_found) in
      let at2 : get_by_id g.job_id d2.jobs ≡ some row =
        ap (get_by_id g.job_id) (ap Database.jobs e2 ∙ put_job-put_by row d1.jobs)
        ∙ find-put_by AnalysisJob.id g.job_id row d1.jobs f1 (ground arith) in
      let same2 : job2 ≡ row = ground arith in
      let there : get_game row.game_id d.games ≡ some game2 = ground arith in
      let at3 : get_by_id g.job_id d3.jobs ≡ some row =
        ap (get_by_id g.job_id) (ap Database.jobs e3) ∙ at2 in
      let out = published g.finished_at game2 in
      let games3 : get_game row.game_id d3.games ≡ some out =
        ap (get_game row.game_id) (ap Database.games e3)
        ∙ found_after row.game_id d2.games game2 out (ground arith) refl in
      let left =
        ap (λ (x : Bool × Database). x.1) (delete_for_job-found g.job_id d3 row out at3 games3) in
      record {
        row = row;
        game = game2;
        middle = d1;
        late = d2;
        replaced = r;
        completed = ap (get_by_id g.job_id) (ap Database.jobs left) ∙ at3;
        succeeded_row = done;
        row_game = ground arith;
        game_found = there;
        permitted = ground arith;
        late_jobs = sym (ap Database.jobs left ∙ ap Database.jobs e3);
        late_positions = ap Database.positions e2;
        late_moves = ap Database.moves e2;
        released =
            ap (get_game row.game_id) (ap Database.games left)
            ∙ found_after row.game_id d3.games out (anonymous out) games3 refl;
        runs_kept = ap Database.runs left ∙ ap Database.runs e3 ∙ ap Database.runs e2;
        positions_kept =
            ap Database.positions left ∙ ap Database.positions e3 ∙ ap Database.positions e2;
        moves_kept = ap Database.moves left ∙ ap Database.moves e3 ∙ ap Database.moves e2;
        frames_gone =
            ap Database.frames left
            ∙ ap (filter (λ (c : GameChild). not (c.game_id == row.game_id)))
                (ap Database.frames e3 ∙ ap Database.frames e2 ∙ frames_kept);
        detected_gone =
            ap Database.detected left
            ∙ ap (filter (λ (c : GameChild). not (c.game_id == row.game_id)))
                (ap Database.detected e3 ∙ ap Database.detected e2 ∙ detected_kept);
      }

  pub complete_owned_generation-Publication :
      (g : OwnedGeneration) (d : Database) {run : AnalysisRun} {e : Database}
      → complete_owned_generation uuid5 g d ≡ ok (run, e)
      → Publication g d run e
  unfolding complete_owned_generation
  complete_owned_generation-Publication g d {run} {e} h =
      elim (Result-cases (replace_owned_generation uuid5 g d)) [
        | inr (x, bad) ↦ absurd (ground arith)
        | inl ((run1, d1), first) ↦
            elim (Result-cases
              (complete_in g.job_id g.worker_id g.finished_at g.lease_generation d1)) [
                | inr (x, bad) ↦ absurd (ground arith)
                | inl ((u2, d2), second) ↦
                    elim (Result-cases (
                      make_owned_generation_available uuid5 run1 g.job_id g.lease_generation
                        g.finished_at d2)) [
                          | inr (x, bad) ↦ absurd (ground arith)
                          | inl ((u3, d3), third) ↦
                              let same : run ≡ run1 = ground arith in
                              let last : e ≡ (delete_for_job g.job_id d3).1 = ground arith in
                              let r = replace_owned_generation-Replacement uuid5 g d first in
                              rw (same, last) (Publication-intro g d run1 d1 d2 d3 r second third)
                        ]
              ]
      ]
