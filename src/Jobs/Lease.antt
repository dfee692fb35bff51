-- ===== src/Jobs/Lease.antt =====
-- Leases: what a worker that has lost its lease can still do, and what the row says of a lease.
use boardtrace.Prelude.{
  leb, ◌==◌, if◌then◌else◌, Bool-cases, is_some, length, take, ok, Text, eq_of_text_eq,
  take-text_eq, ℕ, ◌+◌, ◌≤◌, ◌<◌, ◌≡◌, refl, ◌∙◌, ◌⊎◌, inl, inr, Bool, true, false, Option, some,
  List, [], ◌∷◌, arith,
}
use boardtrace.Jobs.Status.{
  queued, running, succeeded, failed, status_eq, status_in, terminal_statuses, active_statuses,
}
use boardtrace.Jobs.Retry.{RetryPolicy, JitterSource, delay_for_attempt}
use boardtrace.Jobs.Row.{AnalysisJob, seconds}
use boardtrace.Jobs.Operations.{refused}
use boardtrace.Jobs.Table.{new_job}
use boardtrace.Jobs.Steps.{
  Operation, publish, claim, start, heartbeat, complete, retry, fail, terminalize, recover, perform,
  step, run,
}

-- What holds of the row of a job between two operations.
pub record IsValid (job : AnalysisJob) : Type 0 where
  pub held : status_in job.status active_statuses ≡ is_some job.worker_id
  pub leased : status_in job.status active_statuses ≡ is_some job.lease_expires_at
  pub beating : status_in job.status active_statuses ≡ is_some job.heartbeat_at
  pub mirrored : job.attempts ≡ job.attempt_count
  pub counted : job.lease_generation ≤ job.attempt_count
  pub claimed_once : status_in job.status active_statuses ≡ true → 0 < job.lease_generation
  pub completed : status_eq job.status succeeded ≡ is_some job.completed_at
  pub failed_on : status_eq job.status failed ≡ is_some job.failed_at

pub new_job-IsValid : (i g o c now : ℕ) → IsValid (new_job i g o c now)
unfolding new_job
new_job-IsValid i g o c now = ground arith

pub step-IsValid : (op : Operation) (job : AnalysisJob) → IsValid job → IsValid (step job op)
unfolding step perform delay_for_attempt
step-IsValid (publish m now) job v = ground arith
step-IsValid (claim w now lease) job v = ground arith
step-IsValid (start w now g) job v = ground arith
step-IsValid (heartbeat w now lease g) job v = ground arith
step-IsValid (complete w now g) job v = ground arith
step-IsValid (retry w code message when g) job v = ground arith
step-IsValid (fail w code message now g) job v = ground arith
step-IsValid (terminalize target code message now) job v = ground arith
step-IsValid (recover now policy jitter) job v = ground arith

-- Operations, accepted or not, make only valid rows out of a valid row.
pub run-IsValid : (job : AnalysisJob) (ops : List Operation) → IsValid job → IsValid (run job ops)
unfolding run
run-IsValid job [] v = v
run-IsValid job (op ∷ ops) v = run-IsValid (step job op) ops (step-IsValid op job v)

-- The operations of a worker that shows the generation of its lease.
abbrev pub acts_under : ℕ → Operation → Bool
acts_under g (start _ _ (some g')) = g' == g
acts_under g (heartbeat _ _ _ (some g')) = g' == g
acts_under g (complete _ _ (some g')) = g' == g
acts_under g (retry _ _ _ _ (some g')) = g' == g
acts_under g (fail _ _ _ _ (some g')) = g' == g
acts_under g _ = false

pub step-lease_generation :
    (op : Operation) (job : AnalysisJob) → job.lease_generation ≤ (step job op).lease_generation
unfolding step perform delay_for_attempt
step-lease_generation (publish m now) job = ground arith
step-lease_generation (claim w now lease) job = ground arith
step-lease_generation (start w now g) job = ground arith
step-lease_generation (heartbeat w now lease g) job = ground arith
step-lease_generation (complete w now g) job = ground arith
step-lease_generation (retry w code message when g) job = ground arith
step-lease_generation (fail w code message now g) job = ground arith
step-lease_generation (terminalize target code message now) job = ground arith
step-lease_generation (recover now policy jitter) job = ground arith

-- The generation of a lease never falls.
pub run-lease_generation :
    (job : AnalysisJob) (ops : List Operation)
    → job.lease_generation ≤ (run job ops).lease_generation
unfolding run
run-lease_generation job [] = omega arith
run-lease_generation job (op ∷ ops) =
    omega (arith, step-lease_generation op job, run-lease_generation (step job op) ops)

-- Whoever acts under a generation and is heard holds the lease of just that generation.
pub heard-lease_generation :
    (g : ℕ) (op : Operation) (job : AnalysisJob) {job' : AnalysisJob}
    → acts_under g op ≡ true
    → perform op job ≡ ok (some job')
    → (job.lease_generation ≡ g) × (is_some job.worker_id ≡ true)
unfolding perform
heard-lease_generation g (start w now (some g')) job a h = ground arith
heard-lease_generation g (heartbeat w now lease (some g')) job a h = ground arith
heard-lease_generation g (complete w now (some g')) job a h = ground arith
heard-lease_generation g (retry w code message when (some g')) job a h = ground arith
heard-lease_generation g (fail w code message now (some g')) job a h = ground arith
heard-lease_generation g _ job a h = cc

-- A worker whose generation has passed is refused.
stale_refused :
    (g : ℕ) (op : Operation) (job : AnalysisJob)
    → acts_under g op ≡ true
    → g < job.lease_generation
    → perform op job ≡ refused
unfolding perform
stale_refused g (start w now (some g')) job a h = ground arith
stale_refused g (heartbeat w now lease (some g')) job a h = ground arith
stale_refused g (complete w now (some g')) job a h = ground arith
stale_refused g (retry w code message when (some g')) job a h = ground arith
stale_refused g (fail w code message now (some g')) job a h = ground arith
stale_refused g _ job a h = cc

-- Once a later generation was claimed, a worker of generation `g` is refused ever after.
pub stale_worker_fenced :
    (g : ℕ) (op : Operation) (job : AnalysisJob) (ops : List Operation)
    → acts_under g op ≡ true
    → g < job.lease_generation
    → perform op (run job ops) ≡ refused
stale_worker_fenced g op job ops a h =
    stale_refused g op (run job ops) a (omega (arith, run-lease_generation job ops))

terminal_step :
    (job : AnalysisJob) (op : Operation)
    → IsValid job
    → status_in job.status terminal_statuses ≡ true
    → step job op ≡ job
unfolding step perform delay_for_attempt
terminal_step job (publish m now) v h = ground arith
terminal_step job (claim w now lease) v h = ground arith
terminal_step job (start w now g) v h = ground arith
terminal_step job (heartbeat w now lease g) v h = ground arith
terminal_step job (complete w now g) v h = ground arith
terminal_step job (retry w code message when g) v h = ground arith
terminal_step job (fail w code message now g) v h = ground arith
terminal_step job (terminalize target code message now) v h = ground arith
terminal_step job (recover now policy jitter) v h = ground arith

-- A valid row of a job that has succeeded, failed or been cancelled is never written again.
pub terminal_absorbs :
    (job : AnalysisJob) (ops : List Operation)
    → IsValid job
    → status_in job.status terminal_statuses ≡ true
    → run job ops ≡ job
unfolding run
terminal_absorbs job [] v h = refl
terminal_absorbs job (op ∷ ops) v h = rw (terminal_step job op v h) (terminal_absorbs job ops v h)

-- The row of a job that a worker has claimed and started, with the whole name of the worker.
abbrev pub started_by : Text → ℕ → ℕ → ℕ → AnalysisJob → AnalysisJob
started_by w now lease later job = record job {
  status = running;
  claimed_at = some now;
  heartbeat_at = some now;
  lease_expires_at = some (now + seconds lease);
  worker_id = some w;
  lease_generation = job.lease_generation + 1;
  attempt_count = job.attempt_count + 1;
  attempts = job.attempt_count + 1;
  started_at = some later;
}

-- The worker that has just claimed a queued job starts it when its name fits the column: the job
-- is then running under its name, with the lease and the generation of the claim and one attempt
-- more. It is refused when its name is longer than 255 characters: the name is cut when it is
-- written, and compared whole.
pub claim-start :
    (w : Text) (now lease later : ℕ) (job : AnalysisJob)
    → job.status ≡ queued
    → perform (start w later (some (job.lease_generation + 1))) (step job (claim w now lease))
      ≡ (if leb (length w) 255 then ok (some (started_by w now lease later job)) else refused)
unfolding step perform
claim-start w now lease later job h =
    let cut = take-text_eq 255 w in
    elim (Bool-cases (leb (length w) 255)) [
      | inr longer ↦ ground arith
      | inl fits ↦
          let whole : take 255 w ≡ w = eq_of_text_eq (take 255 w) w (cut ∙ fits) in ground arith
    ]

-- A lease that a claim or a heartbeat has set at `now` is not recovered before it runs out.
pub renewed_not_recovered :
    (op : Operation) (job : AnalysisJob) (w : Text) (now lease later : ℕ) (g : Option ℕ)
    (policy : RetryPolicy) (jitter : JitterSource) {job' : AnalysisJob}
    → (op ≡ claim w now lease) ⊎ (op ≡ heartbeat w now lease g)
    → perform op job ≡ ok (some job')
    → later < now + seconds lease
    → perform (recover later policy jitter) job' ≡ refused
unfolding perform
renewed_not_recovered op job w now lease later g policy jitter (inl e) h b = ground arith
renewed_not_recovered op job w now lease later g policy jitter (inr e) h b = ground arith
