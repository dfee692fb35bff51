-- ===== src/Jobs/Publisher.antt =====
-- The publisher that drains the outbox: class OutboxPublisher of services/analysis_jobs.py, with
-- `mark_outbox_published` of repositories/analysis_jobs.py, under apps/api/src/boardtrace_api. The
-- broker is a parameter: a message's identifier for an event, or none where it raises an error of
-- the connection.
use boardtrace.Prelude.{
  is_none, take, filter, count, Result, ok, ◌>>=◌, Text, codes, ℕ, suc, ◌+◌, Bool, true, false, not,
  ◌&&◌, Option, none, some, List, [], ◌∷◌, map,
}
use boardtrace.FullGame.Contract.{sorted_by}
use boardtrace.Jobs.Status.{status_in, active_statuses, JobError}
use boardtrace.Jobs.Retry.{RetryPolicy, zero_jitter, delay_for_attempt}
use boardtrace.Jobs.Row.{AnalysisJob, outbox_published, AnalysisJobOutbox, seconds}
use boardtrace.Jobs.Operations.{mark_published, lease_live}
use boardtrace.Jobs.Table.{
  Queue, get_by_id, put_job, is_pending_event, list_publishable_outbox, record_outbox_failure,
  put_event,
}

abbrev pub Broker : Type 0
Broker = AnalysisJobOutbox → Option Text

-- RetryPolicy(30, 900, 0)
abbrev pub publish_policy : RetryPolicy
publish_policy = record { base_delay_seconds = 30; max_delay_seconds = 900; max_jitter_seconds = 0 }

abbrev pub published_event : ℕ → AnalysisJobOutbox → AnalysisJobOutbox
published_event now e = record e { status = outbox_published; published_at = some now }

abbrev pub put_answer : List AnalysisJob → Option AnalysisJob → List AnalysisJob
put_answer jobs none = jobs
put_answer jobs (some job) = put_job job jobs

-- The job of the event, as it is queued.
unfoldable pub queue_job_of :
    AnalysisJobOutbox → Text → ℕ → Queue → Result JobError (List AnalysisJob)
queue_job_of e message_id now q = elim (get_by_id e.analysis_job_id q.jobs) [
  | none ↦ ok q.jobs
  | some job ↦ do answer ← mark_published message_id now job; ok (put_answer q.jobs answer)
]

unfoldable pub mark_outbox_published : AnalysisJobOutbox → Text → ℕ → Queue → Result JobError Queue
mark_outbox_published e message_id now q = do
  jobs ← queue_job_of e message_id now q
  let left : Queue = record { jobs = jobs; outbox = put_event (published_event now e) q.outbox }
  ok left

abbrev pub one_more : Bool → ℕ → ℕ
one_more true n = suc n
one_more false n = n

module _ (broker : Broker) (now : ℕ) where
  -- The body of the loop: was the event published?
  unfoldable pub publish_event : AnalysisJobOutbox → Queue → Result JobError (Bool × Queue)
  publish_event e q = elim (broker e) [
    | some message_id ↦ do left ← mark_outbox_published e message_id now q; ok (true, left)
    | none ↦ do
      delay ← delay_for_attempt publish_policy (e.attempt_count + 1) zero_jitter
      let failure =
          record_outbox_failure (codes "queue_temporarily_unavailable") (now + seconds delay) e
      ok (false, record q { outbox = put_event failure q.outbox })
  ]

  -- The loop over the events, with the number of those published.
  unfoldable pub publish_all : List AnalysisJobOutbox → Queue → Result JobError (ℕ × Queue)
  publish_all [] q = ok (0, q)
  publish_all (e ∷ es) q = do
    (done, left) ← publish_event e q
    (n, last) ← publish_all es left
    ok (one_more done n, last)

  unfoldable pub publish_due : ℕ → Queue → Result JobError (ℕ × Queue)
  publish_due limit q = publish_all (list_publishable_outbox now limit q.outbox) q

-- `observability_snapshot`: the jobs in flight and the events that wait.
unfoldable pub observability_snapshot : Queue → ℕ × ℕ
observability_snapshot q = (
  count (λ (j : AnalysisJob). status_in j.status active_statuses) q.jobs,
  count (λ (e : AnalysisJobOutbox). is_pending_event e.status && is_none e.published_at) q.outbox,
)

abbrev lease_or_zero : AnalysisJob → ℕ
lease_or_zero job = elim job.lease_expires_at [ none ↦ 0 | some t ↦ t ]

abbrev has_expired : ℕ → AnalysisJob → Bool
has_expired now job =
    status_in job.status active_statuses && not (lease_live job.lease_expires_at now)

unfoldable pub list_expired_active_jobs : ℕ → ℕ → List AnalysisJob → List ℕ
list_expired_active_jobs now limit jobs =
    map AnalysisJob.id (take limit (sorted_by lease_or_zero (filter (has_expired now) jobs)))
