-- ===== src/Jobs/Steps.antt =====
-- Every operation on a job, as one step, and sequences of steps: the row is locked while an
-- operation works on it, so the operations of concurrent workers come one after the other.
use boardtrace.Prelude.{ok, err, Text, ℕ, ◌≡◌, refl, true, Option, none, some, List, [], ◌∷◌, arith}
use boardtrace.Jobs.Status.{
  AnalysisJobStatus, pending, queued, claimed, running, retry_scheduled, succeeded, failed,
  cancelled, status_in, active_statuses, invalid_transition,
}
use boardtrace.Jobs.Retry.{RetryPolicy, JitterSource, delay_for_attempt}
use boardtrace.Jobs.Row.{AnalysisJob}
use boardtrace.Jobs.Operations.{
  Answer, mark_published, claim_job, start_job, heartbeat_job, complete_job, schedule_retry,
  fail_job, terminalize_job, recover_expired_lease,
}

pub data Operation : Type 0 where
  publish : Text → ℕ → Operation
  claim : Text → ℕ → ℕ → Operation
  start : Text → ℕ → Option ℕ → Operation
  heartbeat : Text → ℕ → ℕ → Option ℕ → Operation
  complete : Text → ℕ → Option ℕ → Operation
  retry : Text → Text → Text → ℕ → Option ℕ → Operation
  fail : Text → Text → Text → ℕ → Option ℕ → Operation
  terminalize : AnalysisJobStatus → Text → Text → ℕ → Operation
  recover : ℕ → RetryPolicy → JitterSource → Operation

unfoldable pub perform : Operation → AnalysisJob → Answer
unfolding mark_published claim_job start_job heartbeat_job complete_job schedule_retry fail_job
    terminalize_job recover_expired_lease
perform (publish m now) = mark_published m now
perform (claim w now lease) = claim_job w now lease
perform (start w now g) = start_job w now g
perform (heartbeat w now lease g) = heartbeat_job w now lease g
perform (complete w now g) = complete_job w now g
perform (retry w code message when g) = schedule_retry w code message when g
perform (fail w code message now g) = fail_job w code message now g
perform (terminalize target code message now) = terminalize_job target code message now
perform (recover now policy jitter) = recover_expired_lease now policy jitter

-- A raise rolls the transaction back.
abbrev pub written : AnalysisJob → Answer → AnalysisJob
written job (ok none) = job
written job (ok (some job')) = job'
written job (err _) = job

unfoldable pub step : AnalysisJob → Operation → AnalysisJob
step job op = written job (perform op job)

unfoldable pub run : AnalysisJob → List Operation → AnalysisJob
run job [] = job
run job (op ∷ ops) = run (step job op) ops

-- The diagram of the states, written apart from the table of the source.
pub data Edge : AnalysisJobStatus → AnalysisJobStatus → Type 0 where
  enqueue : Edge pending queued
  take_up : Edge queued claimed
  begin : Edge claimed running
  finish : Edge running succeeded
  drop_claimed : Edge claimed retry_scheduled
  drop_running : Edge running retry_scheduled
  deliver_again : Edge retry_scheduled queued
  beat_claimed : Edge claimed claimed
  beat_running : Edge running running
  fail_pending : Edge pending failed
  fail_queued : Edge queued failed
  fail_claimed : Edge claimed failed
  fail_running : Edge running failed
  fail_retry : Edge retry_scheduled failed
  cancel_pending : Edge pending cancelled
  cancel_queued : Edge queued cancelled
  cancel_retry : Edge retry_scheduled cancelled

pub ruleset edges = (
  enqueue, take_up, begin, finish, drop_claimed, drop_running, deliver_again, beat_claimed,
  beat_running, fail_pending, fail_queued, fail_claimed, fail_running, fail_retry, cancel_pending,
  cancel_queued, cancel_retry,
)

-- An operation that writes the row moves its status along an edge of the diagram.
pub perform-Edge :
    (op : Operation) (job : AnalysisJob) {job' : AnalysisJob}
    → perform op job ≡ ok (some job')
    → Edge job.status job'.status
unfolding perform
perform-Edge (publish m now) job h = grind (arith, edges)
perform-Edge (claim w now lease) job h = grind (arith, edges)
perform-Edge (start w now g) job h = grind (arith, edges)
perform-Edge (heartbeat w now lease g) job h = grind (arith, edges)
perform-Edge (complete w now g) job h = grind (arith, edges)
perform-Edge (retry w code message when g) job h = grind (arith, edges)
perform-Edge (fail w code message now g) job h = grind (arith, edges)
perform-Edge (terminalize target code message now) job h = grind (arith, edges)
perform-Edge (recover now policy jitter) job h = grind (arith, edges)

-- An operation that raises InvalidJobTransition is the cancellation of a job that a worker holds.
pub perform-invalid_transition :
    (op : Operation) (job : AnalysisJob)
    → perform op job ≡ err invalid_transition
    → (status_in job.status active_statuses ≡ true)
      × (code : Text) × (message : Text) × (now : ℕ) × (op ≡ terminalize cancelled code message now)
unfolding perform delay_for_attempt
perform-invalid_transition (publish m now) job h = ground arith
perform-invalid_transition (claim w now lease) job h = ground arith
perform-invalid_transition (start w now g) job h = ground arith
perform-invalid_transition (heartbeat w now lease g) job h = ground arith
perform-invalid_transition (complete w now g) job h = ground arith
perform-invalid_transition (retry w code message when g) job h = ground arith
perform-invalid_transition (fail w code message now g) job h = ground arith
perform-invalid_transition (terminalize cancelled code message now) job h =
    (ground arith, code, message, now, refl)
perform-invalid_transition (terminalize failed code message now) job h = absurd (ground arith)
perform-invalid_transition (terminalize _ code message now) job h = cc
perform-invalid_transition (recover now policy jitter) job h = ground arith
