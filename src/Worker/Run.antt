-- ===== src/Worker/Run.antt =====
-- One delivery of a job to the worker: `_run_analysis` and `_release_capacity` of worker.py under
-- apps/api/src/boardtrace_api. Nobody else writes between its transactions here; the instants of
-- its clock, the engine, the library of chess, the identifiers, whether Redis can be reached and
-- whether each transaction on the job commits are parameters. The event of a promoted job commits.
use boardtrace.Prelude.{
  ◌==◌, if◌then◌else◌, Result, ok, err, ◌>>=◌, ◌>>◌, or_raise, map_err, Text, ℕ, ◌+◌, Bool, not,
  ◌&&◌, ◌||◌, Option, none, some, List, [],
}
use boardtrace.FullGame.Replay.{CompletedGameAnalysisInput, FullGameAnalysisBudget, Chess}
use boardtrace.FullGame.Analyzer.{Engine, analyse}
use boardtrace.Admission.Scripts.{Keys, complete_active}
use boardtrace.Jobs.Status.{pending, running, status_eq}
use boardtrace.Jobs.Retry.{zero_jitter, delay_for_attempt}
use boardtrace.Jobs.Row.{AnalysisJob, AnalysisJobOutbox, seconds, text_is}
use boardtrace.Jobs.Operations.{expired, claim_job, start_job, schedule_retry}
use boardtrace.Jobs.Table.{get_by_id, ensure_outbox, create_retry_outbox_if_absent}
use boardtrace.Jobs.Publisher.{publish_policy}
use boardtrace.Results.Config.{JsonObject}
use boardtrace.Results.Rows.{Game, Database, Uuid5, get_game}
use boardtrace.Results.Replace.{StoreError, OwnedGeneration}
use boardtrace.Results.Complete.{persist_and_complete_owned_generation}
use boardtrace.Worker.Failures.{
  WorkerException, lookup_error, FailureDecision, classify_failure, analysis_exception,
  store_exception,
}
use boardtrace.Worker.Terminal.{on_job, fail_and_cleanup}

pub record World : Type 0 where
  pub database : Database
  pub outbox : List AnalysisJobOutbox
  pub keys : Keys

-- The settings of the worker, and what surrounds a run.
pub record Surroundings : Type 1 where
  pub uuid5 : Uuid5
  pub chess : Chess
  pub engine : Engine
  pub budget : FullGameAnalysisBudget
  pub configuration : JsonObject
  pub session : Text → WorkerException
  pub lease_seconds : ℕ
  pub retry_enabled : Bool
  pub redis_up : Bool
  -- The commits of the claim, of the start, of the results, and of the failure or the retry.
  pub claim_commits : Bool
  pub start_commits : Bool
  pub commit : Result StoreError Unit
  pub settle_commits : Bool
  pub claimed_at : ℕ
  pub started_at : ℕ
  pub checked_at : ℕ
  pub analysis_started_at : ℕ
  pub analysis_finished_at : ℕ
  pub failed_at : ℕ
  pub event_id : ℕ
  pub correlation_id : ℕ

-- The texts that `_run_analysis` returns; `raised` is an exception that it lets pass.
pub data RunOutcome : Type 0 where
  duplicate_or_ineligible claim_lost execution_authority_rejected : RunOutcome
  run_completed run_failed failure_rejected : RunOutcome
  run_retry_scheduled retry_rejected raised : RunOutcome

-- The test before the analysis.
unfoldable pub may_execute : AnalysisJob → Text → ℕ → ℕ → Bool
may_execute job worker_id generation now =
    status_eq job.status running
    && text_is job.worker_id worker_id
    && job.lease_generation == generation
    && not (expired job.lease_expires_at now)

abbrev moves_or_none : Option (List Text) → List Text
moves_or_none none = []
moves_or_none (some moves) = moves

-- The input of the analyzer.
unfoldable pub completed_game : Game → CompletedGameAnalysisInput
completed_game game = record {
  game_id = game.id;
  game_status = game.status;
  completion_verified_at = game.completion_verified_at;
  initial_fen = game.initial_fen;
  normalized_moves_uci = moves_or_none game.normalized_moves;
}

-- The outbox event of the job that a release has promoted.
unfoldable pub promoted_event :
    ℕ → ℕ → Option ℕ → Database → List AnalysisJobOutbox → List AnalysisJobOutbox
promoted_event event_id now none d es = es
promoted_event event_id now (some job_id) d es = elim (get_by_id job_id d.jobs) [
  | none ↦ es
  | some job ↦
      if status_eq job.status pending
      then ensure_outbox event_id job.id job.admission_correlation_id now es
      else es
]

-- `_release_capacity`; a Redis that is down defers it.
unfoldable pub release_capacity : Bool → ℕ → ℕ → ℕ → ℕ → World → World
release_capacity redis_up event_id now job_id owner_user_id w =
    if not redis_up
    then w
    else let (promoted, keys) = complete_active job_id owner_user_id w.keys in
      record w { keys = keys; outbox = promoted_event event_id now promoted w.database w.outbox }

module _ (s : Surroundings) (job_id : ℕ) (worker_id : Text) where
  -- The analysis and the completion of the job, or the exception.
  unfoldable pub attempt : ℕ → AnalysisJob → Database → Result WorkerException Database
  attempt generation current d = do
    game ← or_raise (get_game current.game_id d.games) lookup_error
    result ←
        map_err (analysis_exception s.session)
          (analyse s.chess s.engine (completed_game game) s.budget)
    let g : OwnedGeneration = record {
      job_id = job_id;
      worker_id = worker_id;
      lease_generation = generation;
      result = result;
      configuration_snapshot = s.configuration;
      started_at = s.analysis_started_at;
      finished_at = s.analysis_finished_at;
    }
    let (answer, e) = persist_and_complete_owned_generation s.uuid5 (ok tt) s.commit g d
    map_err store_exception answer
    ok e

  -- A job that is not to be tried again.
  unfoldable pub give_up : FailureDecision → AnalysisJob → World → RunOutcome × World
  give_up decision job w =
      elim (fail_and_cleanup worker_id decision.code decision.message s.failed_at
        (some job.lease_generation) job_id w.database) [
          | err e ↦ (raised, w)
          | ok (accepted, e) ↦
              if not s.settle_commits
              then (raised, w)
              else if accepted
              then (
                run_failed,
                release_capacity s.redis_up s.event_id s.failed_at job_id job.owner_user_id
                    (record w { database = e }),
              )
              else (failure_rejected, w)
        ]

  abbrev pub with_retry : Option AnalysisJob → Database → World → RunOutcome × World
  with_retry none d w = (retry_rejected, w)
  with_retry (some row) d w = (
    run_retry_scheduled,
    record w {
      database = d;
      outbox = create_retry_outbox_if_absent s.event_id row s.correlation_id s.failed_at w.outbox;
    },
  )

  -- A job that is to be tried again later.
  unfoldable pub try_later : FailureDecision → AnalysisJob → World → RunOutcome × World
  try_later decision job w =
      elim (delay_for_attempt publish_policy (job.attempt_count + 1) zero_jitter) [
        | err e ↦ (raised, w)
        | ok delay ↦
            elim (on_job
              (schedule_retry worker_id decision.code decision.message (s.failed_at + seconds delay)
                (some job.lease_generation))
              job_id w.database) [
                | err e ↦ (raised, w)
                | ok (written, d) ↦
                    if not s.settle_commits then (raised, w) else with_retry written d w
              ]
      ]

  -- The handler of the exception.
  unfoldable pub handle : WorkerException → AnalysisJob → World → RunOutcome × World
  handle error job w =
      let decision = classify_failure error in
      if not decision.retryable || not s.retry_enabled
      then give_up decision job w
      else try_later decision job w

  -- From the test of the authority on, with the row that was claimed.
  unfoldable pub execute_claimed : AnalysisJob → World → RunOutcome × World
  execute_claimed job w = elim (get_by_id job_id w.database.jobs) [
    | none ↦ (execution_authority_rejected, w)
    | some current ↦
        if not (may_execute current worker_id job.lease_generation s.checked_at)
        then (execution_authority_rejected, w)
        else elim (attempt job.lease_generation current w.database) [
          | err error ↦ handle error job w
          | ok d ↦ (
            run_completed,
            release_capacity s.redis_up s.event_id s.analysis_finished_at job_id job.owner_user_id
                (record w { database = d }),
          )
        ]
  ]

  unfoldable pub start_claimed : AnalysisJob → World → RunOutcome × World
  start_claimed job w =
      elim (on_job (start_job worker_id s.started_at (some job.lease_generation)) job_id
        w.database) [
          | err e ↦ (raised, w)
          | ok (none, d) ↦ (claim_lost, w)
          | ok (some row, d) ↦
              if not s.start_commits
              then (raised, w)
              else execute_claimed job (record w { database = d })
        ]

  -- `_run_analysis`
  unfoldable pub run_analysis : World → RunOutcome × World
  run_analysis w =
      elim (on_job (claim_job worker_id s.claimed_at s.lease_seconds) job_id w.database) [
        | err e ↦ (raised, w)
        | ok (none, d) ↦ (duplicate_or_ineligible, w)
        | ok (some job, d) ↦
            if not s.claim_commits
            then (raised, w)
            else start_claimed job (record w { database = d })
      ]
