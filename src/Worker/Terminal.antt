-- ===== src/Worker/Terminal.antt =====
-- The operations on jobs as the worker calls them, on the table, each in a transaction of its own;
-- with those that end a job and clean its game up: AnalysisJobTerminalFailureService and
-- AnalysisJobTerminalService of services/analysis_jobs.py, under apps/api/src/boardtrace_api.
use boardtrace.Prelude.{
  if◌then◌else◌, is_some, Result, ok, err, ◌>>=◌, Text, ℕ, Bool, Option, none, some,
}
use boardtrace.Jobs.Status.{AnalysisJobStatus, JobError}
use boardtrace.Jobs.Row.{AnalysisJob}
use boardtrace.Jobs.Operations.{Answer, fail_job, terminalize_job}
use boardtrace.Jobs.Table.{get_by_id, put_job}
use boardtrace.Results.Rows.{Database}
use boardtrace.Results.Complete.{delete_for_job}

-- An operation on the row of a job: the row that it has written, if it has, and the database.
unfoldable pub on_job :
    (AnalysisJob → Answer) → ℕ → Database → Result JobError (Option AnalysisJob × Database)
on_job operation job_id d = elim (get_by_id job_id d.jobs) [
  | none ↦ ok (none, d)
  | some job ↦ elim (operation job) [
    | err e ↦ err e
    | ok none ↦ ok (none, d)
    | ok (some row) ↦ ok (some row, record d { jobs = put_job row d.jobs })
  ]
]

-- A terminal operation with the clean-up of the game: was it accepted?
unfoldable pub with_cleanup :
    (AnalysisJob → Answer) → ℕ → Database → Result JobError (Bool × Database)
with_cleanup operation job_id d = do
  (written, left) ← on_job operation job_id d
  ok (is_some written, if is_some written then (delete_for_job job_id left).1 else left)

-- `fail_job` of AnalysisJobTerminalFailureService
unfoldable pub fail_and_cleanup :
    Text → Text → Text → ℕ → Option ℕ → ℕ → Database → Result JobError (Bool × Database)
fail_and_cleanup worker_id code message now generation =
    with_cleanup (fail_job worker_id code message now generation)

-- `terminalize` of AnalysisJobTerminalService
unfoldable pub terminalize :
    AnalysisJobStatus → Text → Text → ℕ → ℕ → Database → Result JobError (Bool × Database)
terminalize target code message now = with_cleanup (terminalize_job target code message now)
