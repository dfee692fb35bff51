-- ===== src/Jobs/Operations.antt =====
-- The operations of class AnalysisJobRepository on one locked row
-- (apps/api/src/boardtrace_api/repositories/analysis_jobs.py). `ok none` is the answer False or
-- None, with the row unchanged; `ok (some job)` the row as it is written back; `err` a raise.
use boardtrace.Prelude.{
  leb, ◌==◌, if◌then◌else◌, take, Result, ok, ◌>>=◌, ◌>>◌, raise_if, Text, codes, ℕ, ◌+◌, Bool,
  true, not, ◌&&◌, ◌||◌, Option, none, some, [], ◌∷◌,
}
use boardtrace.Jobs.Status.{
  AnalysisJobStatus, pending, queued, claimed, running, retry_scheduled, succeeded, failed,
  cancelled, status_eq, status_in, terminal_statuses, active_statuses, JobError, unsupported_target,
  validate_transition,
}
use boardtrace.Jobs.Retry.{RetryPolicy, JitterSource, delay_for_attempt}
use boardtrace.Jobs.Row.{AnalysisJob, seconds, text_is}

abbrev pub Answer : Type 0
Answer = Result JobError (Option AnalysisJob)

abbrev pub refused : Answer
refused = ok none

-- `lease_generation is None or job.lease_generation == lease_generation`
abbrev pub generation_matches : AnalysisJob → Option ℕ → Bool
generation_matches job none = true
generation_matches job (some g) = job.lease_generation == g

unfoldable pub owns_lease : AnalysisJob → Text → Option ℕ → Bool
owns_lease job worker_id lease_generation =
    text_is job.worker_id worker_id && generation_matches job lease_generation

abbrev pub expired : Option ℕ → ℕ → Bool
expired none now = true
expired (some t) now = leb t now

unfoldable pub mark_published : Text → ℕ → AnalysisJob → Answer
unfolding validate_transition
mark_published message_id now job =
    if not (status_in job.status (pending ∷ retry_scheduled ∷ [])) then refused else do
      validate_transition job.status queued
      ok (
          some (record job {
            status = queued;
            queued_at = some now;
            queue_message_id = some (take 255 message_id);
          }))

unfoldable pub claim_job : Text → ℕ → ℕ → AnalysisJob → Answer
unfolding validate_transition
claim_job worker_id now lease_seconds job =
    if not (status_eq job.status queued) then refused else do
      validate_transition job.status claimed
      ok (
          some (record job {
            status = claimed;
            claimed_at = some now;
            heartbeat_at = some now;
            lease_expires_at = some (now + seconds lease_seconds);
            worker_id = some (take 255 worker_id);
            lease_generation = job.lease_generation + 1;
            attempt_count = job.attempt_count + 1;
            attempts = job.attempt_count + 1;
          }))

unfoldable pub start_job : Text → ℕ → Option ℕ → AnalysisJob → Answer
unfolding validate_transition owns_lease
start_job worker_id now lease_generation job =
    if not (status_eq job.status claimed) || not (owns_lease job worker_id lease_generation)
    then refused
    else do
      validate_transition job.status running
      ok (some (record job { status = running; started_at = some now }))

unfoldable pub heartbeat_job : Text → ℕ → ℕ → Option ℕ → AnalysisJob → Answer
unfolding owns_lease
heartbeat_job worker_id now lease_seconds lease_generation job =
    if not (status_in job.status active_statuses)
      || not (owns_lease job worker_id lease_generation)
      || expired job.lease_expires_at now
    then refused
    else ok (
        some (record job {
          heartbeat_at = some now;
          lease_expires_at = some (now + seconds lease_seconds);
        }))

unfoldable pub complete_job : Text → ℕ → Option ℕ → AnalysisJob → Answer
unfolding validate_transition owns_lease
complete_job worker_id now lease_generation job =
    if not (status_eq job.status running) || not (owns_lease job worker_id lease_generation)
    then refused
    else do
      validate_transition job.status succeeded
      ok (
          some (record job {
            status = succeeded;
            completed_at = some now;
            finished_at = some now;
            worker_id = none;
            lease_expires_at = none;
            heartbeat_at = none;
          }))

unfoldable pub schedule_retry : Text → Text → Text → ℕ → Option ℕ → AnalysisJob → Answer
unfolding validate_transition owns_lease
schedule_retry worker_id code message when lease_generation job =
    if not (status_in job.status active_statuses) || not (owns_lease job worker_id lease_generation)
    then refused
    else do
      validate_transition job.status retry_scheduled
      ok (
          some (record job {
            status = retry_scheduled;
            next_attempt_at = some when;
            attempt_count = job.attempt_count + 1;
            attempts = job.attempt_count + 1;
            last_error_code = some (take 100 code);
            last_error_message = some (take 500 message);
            worker_id = none;
            lease_expires_at = none;
            heartbeat_at = none;
          }))

unfoldable pub fail_job : Text → Text → Text → ℕ → Option ℕ → AnalysisJob → Answer
unfolding validate_transition owns_lease
fail_job worker_id code message now lease_generation job =
    if status_in job.status terminal_statuses || not (owns_lease job worker_id lease_generation)
    then refused
    else do
      validate_transition job.status failed
      ok (
          some (record job {
            status = failed;
            failed_at = some now;
            finished_at = some now;
            last_error_code = some (take 100 code);
            last_error_message = some (take 500 message);
            worker_id = none;
            lease_expires_at = none;
            heartbeat_at = none;
          }))

unfoldable pub terminalize_job : AnalysisJobStatus → Text → Text → ℕ → AnalysisJob → Answer
unfolding validate_transition
terminalize_job target code message now job = do
  raise_if (not (status_in target (failed ∷ cancelled ∷ []))) unsupported_target
  if status_in job.status terminal_statuses then refused else do
    validate_transition job.status target
    ok (
        some (record job {
          status = target;
          finished_at = some now;
          last_error_code = some (take 100 code);
          last_error_message = some (take 500 message);
          worker_id = none;
          lease_expires_at = none;
          heartbeat_at = none;
          failed_at = if status_eq target failed then some now else job.failed_at;
        }))

abbrev release_lease : AnalysisJob → AnalysisJob
release_lease job = record job { worker_id = none; lease_expires_at = none; heartbeat_at = none }

recover_exhausted : ℕ → AnalysisJob → Answer
unfolding validate_transition
recover_exhausted now job = do
  validate_transition job.status failed
  ok (
      some (record job {
        status = failed;
        failed_at = some now;
        last_error_code = some (codes "lease_attempts_exhausted");
      }))

recover_retry : ℕ → RetryPolicy → JitterSource → AnalysisJob → Answer
unfolding validate_transition
recover_retry now policy jitter job = do
  validate_transition job.status retry_scheduled
  delay ← delay_for_attempt policy (job.attempt_count + 1) jitter
  ok (
      some (record job {
        status = retry_scheduled;
        attempt_count = job.attempt_count + 1;
        attempts = job.attempt_count + 1;
        next_attempt_at = some (now + seconds delay);
        last_error_code = some (codes "lease_expired");
      }))

-- `lease_expires_at is None or lease_expires_at > now`
abbrev pub lease_live : Option ℕ → ℕ → Bool
lease_live none now = true
lease_live (some t) now = not (leb t now)

unfoldable pub recover_expired_lease : ℕ → RetryPolicy → JitterSource → AnalysisJob → Answer
unfolding recover_exhausted recover_retry
recover_expired_lease now policy jitter job =
    if not (status_in job.status active_statuses) || lease_live job.lease_expires_at now
    then refused
    else if leb job.max_attempts job.attempt_count
    then recover_exhausted now (release_lease job)
    else recover_retry now policy jitter (release_lease job)
