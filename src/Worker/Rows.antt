-- ===== src/Worker/Rows.antt =====
-- What the operations on a job do to a row that the worker holds.
use boardtrace.Prelude.{
  ◌==◌, Option-cases, length, take, find-true, find-put_by, ok, Result-cases, Text, text_eq,
  take-text_eq, ℕ, ◌+◌, ◌≤◌, ◌≡◌, refl, ap, ◌∙◌, inl, inr, Bool, true, false, none, some, List, [],
  ◌∷◌, arith,
}
use boardtrace.Jobs.Status.{
  AnalysisJobStatus, queued, claimed, running, retry_scheduled, succeeded, failed, status_in,
  allowed_transitions, validate_transition,
}
use boardtrace.Jobs.Row.{AnalysisJob, seconds, text_is}
use boardtrace.Jobs.Operations.{Answer, owns_lease, claim_job, start_job, schedule_retry, fail_job}
use boardtrace.Jobs.Table.{get_by_id, put_job}
use boardtrace.Results.Rows.{Database, Uuid5, get_game}
use boardtrace.Results.Complete.{
  published_before, get_idempotent_available_generation, delete_for_job,
}
use boardtrace.Worker.Terminal.{on_job}
use boardtrace.Worker.Run.{World, release_capacity}
use boardtrace.Results.Published.{put_job-put_by}
use boardtrace.Jobs.Retry.{zero_jitter, delay_for_attempt}
use boardtrace.Jobs.Delay.{delay_refused}
use boardtrace.Jobs.Publisher.{publish_policy}

-- The worker holds the row, in the given status, under the row's generation.
pub record IsHeld (worker_id : Text) (status : AnalysisJobStatus) (row : AnalysisJob) : Type 0 where
  pub in_status : row.status ≡ status
  pub named : text_is row.worker_id worker_id ≡ true

-- The job of the identifier has ended or waits for its retry.
abbrev pub IsSettled : ℕ → Database → Type 0
IsSettled job_id d =
    (row : AnalysisJob) × (get_by_id job_id d.jobs ≡ some row)
    × (status_in row.status (succeeded ∷ failed ∷ retry_scheduled ∷ []) ≡ true)

pub put_job-found :
    (job_id : ℕ) (jobs : List AnalysisJob) (job row : AnalysisJob)
    → get_by_id job_id jobs ≡ some job
    → row.id ≡ job.id
    → get_by_id job_id (put_job row jobs) ≡ some row
unfolding get_by_id
put_job-found job_id jobs job row found same =
    let hit = find-true (λ (j : AnalysisJob). j.id == job_id) jobs found in
    ap (get_by_id job_id) (put_job-put_by row jobs)
    ∙ find-put_by AnalysisJob.id job_id row jobs found (ground arith)

-- An operation that writes the row of a job that is there.
pub on_job-written :
    (operation : AnalysisJob → Answer) (job_id : ℕ) (d : Database) (job row : AnalysisJob)
    → get_by_id job_id d.jobs ≡ some job
    → operation job ≡ ok (some row)
    → on_job operation job_id d ≡ ok (some row, record d { jobs = put_job row d.jobs })
unfolding on_job
on_job-written operation job_id d job row found is = rw (on_job, found, is) refl

pub claim_job-queued :
    (worker_id : Text) (now lease_seconds : ℕ) (job : AnalysisJob)
    → job.status ≡ queued
    → length worker_id ≤ 255
    → (row : AnalysisJob) × (claim_job worker_id now lease_seconds job ≡ ok (some row))
      × (row.id ≡ job.id)
      × IsHeld worker_id claimed row
      × (row.lease_expires_at ≡ some (now + seconds lease_seconds))
unfolding claim_job validate_transition allowed_transitions
claim_job-queued worker_id now lease_seconds job waits fits =
    let name : text_eq (take 255 worker_id) worker_id ≡ true =
      ground (arith, take-text_eq 255 worker_id) in
    elim (Result-cases (claim_job worker_id now lease_seconds job)) [
      | inr (x, bad) ↦ absurd (ground arith)
      | inl (none, bad) ↦ absurd (ground arith)
      | inl (some row, is) ↦ (
        row,
        is,
        ground arith,
        record { in_status = ground arith; named = ground arith },
        ground arith,
      )
    ]

pub start_job-claimed :
    (worker_id : Text) (now : ℕ) (job : AnalysisJob)
    → IsHeld worker_id claimed job
    → (row : AnalysisJob) × (start_job worker_id now (some job.lease_generation) job
        ≡ ok (some row))
      × (row.id ≡ job.id)
      × IsHeld worker_id running row
      × (row.lease_expires_at ≡ job.lease_expires_at)
      × (row.lease_generation ≡ job.lease_generation)
unfolding start_job validate_transition allowed_transitions owns_lease
start_job-claimed worker_id now job h = (
  record job { status = running; started_at = some now },
  ground (arith, h.in_status, h.named),
  refl,
  record { in_status = refl; named = h.named },
  refl,
  refl,
)

pub fail_job-running :
    (worker_id code message : Text) (now : ℕ) (job : AnalysisJob)
    → IsHeld worker_id running job
    → (row : AnalysisJob) × (fail_job worker_id code message now (some job.lease_generation) job
        ≡ ok (some row))
      × (row.id ≡ job.id)
      × (row.status ≡ failed)
unfolding fail_job validate_transition allowed_transitions owns_lease
fail_job-running worker_id code message now job h =
    let mine : owns_lease job worker_id (some job.lease_generation) ≡ true =
      ground (arith, h.named) in
    elim (Result-cases (fail_job worker_id code message now (some job.lease_generation) job)) [
      | inr (x, bad) ↦ absurd (ground (arith, h.in_status))
      | inl (none, bad) ↦ absurd (ground (arith, h.in_status))
      | inl (some row, is) ↦ (row, is, ground arith, ground arith)
    ]

pub schedule_retry-running :
    (worker_id code message : Text) (when : ℕ) (job : AnalysisJob)
    → IsHeld worker_id running job
    → (row : AnalysisJob) × (schedule_retry worker_id code message when
          (some job.lease_generation)
          job
        ≡ ok (some row))
      × (row.id ≡ job.id)
      × (row.status ≡ retry_scheduled)
unfolding schedule_retry validate_transition allowed_transitions owns_lease
schedule_retry-running worker_id code message when job h =
    let mine : owns_lease job worker_id (some job.lease_generation) ≡ true =
      ground (arith, h.named) in
    elim (Result-cases
      (schedule_retry worker_id code message when (some job.lease_generation) job)) [
        | inr (x, bad) ↦ absurd (ground (arith, h.in_status))
        | inl (none, bad) ↦ absurd (ground (arith, h.in_status))
        | inl (some row, is) ↦ (row, is, ground arith, ground arith)
      ]

-- The clean-up leaves the jobs as they are.
pub delete_for_job-jobs : (job_id : ℕ) (d : Database) → (delete_for_job job_id d).1.jobs ≡ d.jobs
unfolding delete_for_job
delete_for_job-jobs job_id d = elim (Option-cases (get_by_id job_id d.jobs)) [
  | inl gone ↦ rw (delete_for_job, gone) refl
  | inr (job, found) ↦ elim (Option-cases (get_game job.game_id d.games)) [
    | inl gone ↦ rw (delete_for_job, found, gone) refl
    | inr (game, there) ↦ rw (delete_for_job, found, there) refl
  ]
]

pub release_capacity-database :
    (redis_up : Bool) (event_id now job_id owner : ℕ) (w : World)
    → (release_capacity redis_up event_id now job_id owner w).database ≡ w.database
unfolding release_capacity
release_capacity-database true event_id now job_id owner w = refl
release_capacity-database false event_id now job_id owner w = refl

-- A generation whose job still runs was not published.
pub running-unpublished :
    (uuid5 : Uuid5) (job_id generation : ℕ) (d : Database) (job : AnalysisJob)
    → get_by_id job_id d.jobs ≡ some job
    → job.status ≡ running
    → get_idempotent_available_generation uuid5 job_id generation d ≡ none
unfolding get_idempotent_available_generation published_before
running-unpublished uuid5 job_id generation d job found runs =
    elim (Option-cases (get_game job.game_id d.games)) [
      | inl gone ↦ rw (get_idempotent_available_generation, found, gone) refl
      | inr (game, there) ↦
          let unpublished : published_before job game generation d.jobs ≡ false = ground arith in
          rw (get_idempotent_available_generation, found, there, unpublished) refl
    ]

-- The delay of a retry is never refused.
pub delay-ok :
    (n : ℕ) → (delay : ℕ) × (delay_for_attempt publish_policy (n + 1) zero_jitter ≡ ok delay)
unfolding zero_jitter
delay-ok n = elim (Result-cases (delay_for_attempt publish_policy (n + 1) zero_jitter)) [
  | inl (delay, is) ↦ (delay, is)
  | inr (x, bad) ↦ elim (delay_refused publish_policy (n + 1) zero_jitter bad) [
    | inl (_, first) ↦ absurd (omega (arith, first))
    | inr (_, k, negative) ↦ absurd (ground arith)
  ]
]
