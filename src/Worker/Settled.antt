-- ===== src/Worker/Settled.antt =====
-- A run of the worker does not leave its job at work.
use boardtrace.Prelude.{
  Bool-cases, Option-cases, length, ok, Result-cases, Text, ℕ, ◌+◌, ◌≤◌, ◌<◌, ◌≡◌, refl, sym, ap,
  ◌∙◌, inl, inr, true, false, not, ◌||◌, some, arith,
}
use boardtrace.Jobs.Status.{queued, running}
use boardtrace.Jobs.Row.{AnalysisJob, seconds}
use boardtrace.Jobs.Operations.{expired, claim_job, start_job, schedule_retry, fail_job}
use boardtrace.Jobs.Table.{get_by_id, put_job}
use boardtrace.Results.Rows.{Database, get_game}
use boardtrace.Results.Complete.{delete_for_job}
use boardtrace.Worker.Terminal.{with_cleanup, fail_and_cleanup}
use boardtrace.Worker.Run.{
  World, Surroundings, run_failed, may_execute, completed_game, release_capacity, attempt, give_up,
  with_retry, try_later, handle, execute_claimed, start_claimed, run_analysis,
}
use boardtrace.FullGame.Analyzer.{analyse}
use boardtrace.Results.Replace.{OwnedGeneration}
use boardtrace.Results.Authority.{completion_cases, completed-Publication}
use boardtrace.Worker.Failures.{WorkerException, FailureDecision, classify_failure}
use boardtrace.Worker.Rows.{
  IsHeld, IsSettled, put_job-found, on_job-written, claim_job-queued, start_job-claimed,
  fail_job-running, schedule_retry-running, delete_for_job-jobs, release_capacity-database,
  running-unpublished, delay-ok,
}

module _ (s : Surroundings) (job_id : ℕ) (worker_id : Text) where
  -- What an attempt that succeeds leaves.
  attempt-IsSettled :
      (generation : ℕ) (current : AnalysisJob) (d : Database) {e : Database}
      → get_by_id job_id d.jobs ≡ some current
      → current.status ≡ running
      → attempt s job_id worker_id generation current d ≡ ok e
      → IsSettled job_id e
  unfolding attempt
  attempt-IsSettled generation current d {e} found runs h =
      elim (Option-cases (get_game current.game_id d.games)) [
        | inl gone ↦ absurd (ground arith)
        | inr (game, there) ↦
            elim (Result-cases (analyse s.chess s.engine (completed_game game) s.budget)) [
              | inr (x, bad) ↦ absurd (ground arith)
              | inl (result, analysed) ↦
                  let g : OwnedGeneration = record {
                    job_id = job_id;
                    worker_id = worker_id;
                    lease_generation = generation;
                    result = result;
                    configuration_snapshot = s.configuration;
                    started_at = s.analysis_started_at;
                    finished_at = s.analysis_finished_at;
                  } in
                  elim (completion_cases s.uuid5 (ok tt) s.commit g d) [
                    | inr (x, is) ↦ absurd (ground arith)
                    | inl (run, e1, staged, _, _, is) ↦
                        let p =
                          completed-Publication s.uuid5 (ok tt) s.commit g d is
                            (running-unpublished s.uuid5 job_id generation d current found runs) in
                        let same : e1 ≡ e = ground arith in
                        rw (sym same) (p.row, p.completed, ground (arith, p.succeeded_row))
                  ]
            ]
      ]

  release_capacity-IsSettled :
      (d : Database) (w : World) (event_id now owner : ℕ)
      → IsSettled job_id d
      → IsSettled job_id
          (release_capacity s.redis_up event_id now job_id owner
            (record w { database = d })).database
  release_capacity-IsSettled d w event_id now owner h =
      rw
        (release_capacity-database s.redis_up event_id now job_id owner (record w { database = d }))
        h

  give_up-IsSettled :
      (decision : FailureDecision) (job current : AnalysisJob) (w : World)
      → get_by_id job_id w.database.jobs ≡ some current
      → IsHeld worker_id running current
      → current.lease_generation ≡ job.lease_generation
      → s.settle_commits ≡ true
      → IsSettled job_id (give_up s job_id worker_id decision job w).1.database
  unfolding give_up fail_and_cleanup with_cleanup
  give_up-IsSettled decision job current w found h g commits =
      let (row, is, same, done) =
        fail_job-running worker_id decision.code decision.message s.failed_at current h in
      let again =
        ap (λ n. fail_job worker_id decision.code decision.message s.failed_at (some n) current)
          (sym g)
        ∙ is in
      let d1 : Database = record w.database { jobs = put_job row w.database.jobs } in
      let e = (delete_for_job job_id d1).1 in
      let written =
        on_job-written
          (fail_job worker_id decision.code decision.message s.failed_at
            (some job.lease_generation))
          job_id w.database current row found again in
      let cleaned : fail_and_cleanup worker_id decision.code decision.message s.failed_at
            (some job.lease_generation) job_id w.database
          ≡ ok (true, e) =
        rw (fail_and_cleanup, with_cleanup, written) refl in
      let at : get_by_id job_id e.jobs ≡ some row =
        ap (get_by_id job_id) (delete_for_job-jobs job_id d1)
        ∙ put_job-found job_id w.database.jobs current row found same in
      let shape : give_up s job_id worker_id decision job w ≡ (
        run_failed,
        release_capacity s.redis_up s.event_id s.failed_at job_id job.owner_user_id
            (record w { database = e }),
      ) =
        rw (give_up, cleaned, commits) refl in
      rw shape (
        release_capacity-IsSettled e w s.event_id s.failed_at job.owner_user_id
          (row, at, ground arith))

  try_later-IsSettled :
      (decision : FailureDecision) (job current : AnalysisJob) (w : World)
      → get_by_id job_id w.database.jobs ≡ some current
      → IsHeld worker_id running current
      → current.lease_generation ≡ job.lease_generation
      → s.settle_commits ≡ true
      → IsSettled job_id (try_later s job_id worker_id decision job w).1.database
  unfolding try_later
  try_later-IsSettled decision job current w found h g commits =
      let (delay, waits) = delay-ok job.attempt_count in
      let when = s.failed_at + seconds delay in
      let (row, is, same, done) =
        schedule_retry-running worker_id decision.code decision.message when current h in
      let again =
        ap (λ n. schedule_retry worker_id decision.code decision.message when (some n) current)
          (sym g)
        ∙ is in
      let d1 : Database = record w.database { jobs = put_job row w.database.jobs } in
      let written =
        on_job-written
          (schedule_retry worker_id decision.code decision.message when (some job.lease_generation))
          job_id w.database current row found again in
      let shape : try_later s job_id worker_id decision job w
          ≡ with_retry s job_id worker_id (some row) d1 w =
        rw (try_later, waits, written, commits) refl in
      rw shape (row, put_job-found job_id w.database.jobs current row found same, ground arith)

  handle-IsSettled :
      (error : WorkerException) (job current : AnalysisJob) (w : World)
      → get_by_id job_id w.database.jobs ≡ some current
      → IsHeld worker_id running current
      → current.lease_generation ≡ job.lease_generation
      → s.settle_commits ≡ true
      → IsSettled job_id (handle s job_id worker_id error job w).1.database
  unfolding handle
  handle-IsSettled error job current w found h g commits =
      let decision = classify_failure error in
      elim (Bool-cases (not decision.retryable || not s.retry_enabled)) [
        | inl last ↦ rw (handle, last) (give_up-IsSettled decision job current w found h g commits)
        | inr more ↦
            rw (handle, more) (try_later-IsSettled decision job current w found h g commits)
      ]

  execute_claimed-IsSettled :
      (job current : AnalysisJob) (w : World)
      → get_by_id job_id w.database.jobs ≡ some current
      → IsHeld worker_id running current
      → current.lease_generation ≡ job.lease_generation
      → expired current.lease_expires_at s.checked_at ≡ false
      → s.settle_commits ≡ true
      → IsSettled job_id (execute_claimed s job_id worker_id job w).1.database
  unfolding execute_claimed may_execute
  execute_claimed-IsSettled job current w found h g live commits =
      let may : may_execute current worker_id job.lease_generation s.checked_at ≡ true =
        ground (arith, h.in_status, h.named) in
      elim (Result-cases (attempt s job_id worker_id job.lease_generation current w.database)) [
        | inr (error, bad) ↦
            rw (execute_claimed, found, may, bad)
              (handle-IsSettled error job current w found h g commits)
        | inl (d, done) ↦
            rw (execute_claimed, found, may, done)
              (release_capacity-IsSettled d w s.event_id s.analysis_finished_at job.owner_user_id
                (attempt-IsSettled job.lease_generation current w.database found h.in_status done))
      ]

-- A run for a job that is queued, by a worker whose name fits its column, that comes to its
-- test of the authority before the lease ends, and that nobody else writes between, leaves the job
-- succeeded, failed or waiting for its retry, whatever the engine and the analysis do, whether
-- storing the result commits or raises, and whether Redis answers; the claim, the start, and the
-- failure or the retry have to commit.
pub run_analysis-IsSettled :
    (s : Surroundings) (job_id : ℕ) (worker_id : Text) (w : World) (job : AnalysisJob)
    → get_by_id job_id w.database.jobs ≡ some job
    → job.status ≡ queued
    → length worker_id ≤ 255
    → s.checked_at < s.claimed_at + seconds s.lease_seconds
    → s.claim_commits ≡ true
    → s.start_commits ≡ true
    → s.settle_commits ≡ true
    → IsSettled job_id (run_analysis s job_id worker_id w).1.database
unfolding run_analysis start_claimed
run_analysis-IsSettled s job_id worker_id w job found waits fits soon claims start_commits commits =
    let (row, is, same, held, until) =
      claim_job-queued worker_id s.claimed_at s.lease_seconds job waits fits in
    let at = put_job-found job_id w.database.jobs job row found same in
    let d1 : Database = record w.database { jobs = put_job row w.database.jobs } in
    let claimed_it =
      on_job-written (claim_job worker_id s.claimed_at s.lease_seconds) job_id w.database job row
        found is in
    let (next, starts, same2, held2, until2, generation) =
      start_job-claimed worker_id s.started_at row held in
    let at2 = put_job-found job_id d1.jobs row next at same2 in
    let d2 : Database = record d1 { jobs = put_job next d1.jobs } in
    let started_it =
      on_job-written (start_job worker_id s.started_at (some row.lease_generation)) job_id d1 row
        next at starts in
    let live : expired next.lease_expires_at s.checked_at ≡ false = ground (arith, until, until2) in
    let w1 : World = record w { database = d1 } in
    let w2 : World = record w { database = d2 } in
    let ran : run_analysis s job_id worker_id w ≡ start_claimed s job_id worker_id row w1 =
      rw (run_analysis, claimed_it, claims) refl in
    let went : start_claimed s job_id worker_id row w1 ≡ execute_claimed s job_id worker_id row w2 =
      rw (start_claimed, started_it, start_commits) refl in
    rw (ran, went)
      (execute_claimed-IsSettled s job_id worker_id row next w2 at2 held2 generation live commits)
