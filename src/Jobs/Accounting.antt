-- ===== src/Jobs/Accounting.antt =====
-- How often a job was claimed, and what its attempt counter counts.
use boardtrace.Prelude.{
  if◌then◌else◌, ok, ℕ, ◌+◌, ◌≡◌, Bool, true, false, some, List, [], ◌∷◌, arith,
}
use boardtrace.Jobs.Status.{AnalysisJobStatus, retry_scheduled}
use boardtrace.Jobs.Retry.{delay_for_attempt}
use boardtrace.Jobs.Row.{AnalysisJob}
use boardtrace.Jobs.Operations.{Answer}
use boardtrace.Jobs.Steps.{
  Operation, publish, claim, start, heartbeat, complete, retry, fail, terminalize, recover, perform,
  step, run,
}

abbrev pub is_claim : Operation → Bool
is_claim (claim _ _ _) = true
is_claim _ = false

-- One more attempt is counted for a claim and for each return to the queue.
abbrev pub counts_attempt : Operation → AnalysisJobStatus → Bool
counts_attempt (claim _ _ _) _ = true
counts_attempt (retry _ _ _ _ _) _ = true
counts_attempt (recover _ _ _) retry_scheduled = true
counts_attempt _ _ = false

-- Did the operation write the row, and is it of the kind that the test picks by the operation and
-- the status that it leaves?
abbrev tally_one : (Operation → AnalysisJobStatus → Bool) → Operation → Answer → ℕ
tally_one p op (ok (some job)) = if p op job.status then 1 else 0
tally_one p op _ = 0

pub tally : (Operation → AnalysisJobStatus → Bool) → AnalysisJob → List Operation → ℕ
tally p job [] = 0
tally p job (op ∷ ops) = tally_one p op (perform op job) + tally p (step job op) ops

claim_step :
    (op : Operation) (job : AnalysisJob)
    → (step job op).lease_generation
      ≡ job.lease_generation + tally_one (λ o _. is_claim o) op (perform op job)
unfolding step perform delay_for_attempt
claim_step (publish m now) job = ground arith
claim_step (claim w now lease) job = ground arith
claim_step (start w now g) job = ground arith
claim_step (heartbeat w now lease g) job = ground arith
claim_step (complete w now g) job = ground arith
claim_step (retry w code message when g) job = ground arith
claim_step (fail w code message now g) job = ground arith
claim_step (terminalize target code message now) job = ground arith
claim_step (recover now policy jitter) job = ground arith

-- The generation of the lease counts the accepted claims.
pub lease_generation-tally :
    (job : AnalysisJob) (ops : List Operation)
    → (run job ops).lease_generation ≡ job.lease_generation + tally (λ o _. is_claim o) job ops
unfolding run tally
lease_generation-tally job [] = omega arith
lease_generation-tally job (op ∷ ops) =
    omega (arith, claim_step op job, lease_generation-tally (step job op) ops)

attempt_step :
    (op : Operation) (job : AnalysisJob)
    → (step job op).attempt_count ≡ job.attempt_count + tally_one counts_attempt op (perform op job)
unfolding step perform delay_for_attempt
attempt_step (publish m now) job = ground arith
attempt_step (claim w now lease) job = ground arith
attempt_step (start w now g) job = ground arith
attempt_step (heartbeat w now lease g) job = ground arith
attempt_step (complete w now g) job = ground arith
attempt_step (retry w code message when g) job = ground arith
attempt_step (fail w code message now g) job = ground arith
attempt_step (terminalize target code message now) job = ground arith
attempt_step (recover now policy jitter) job = ground arith

-- The attempt counter counts the accepted claims and the accepted returns to the queue: an attempt
-- that is retried is counted twice.
pub attempt_count-tally :
    (job : AnalysisJob) (ops : List Operation)
    → (run job ops).attempt_count ≡ job.attempt_count + tally counts_attempt job ops
unfolding run tally
attempt_count-tally job [] = omega arith
attempt_count-tally job (op ∷ ops) =
    omega (arith, attempt_step op job, attempt_count-tally (step job op) ops)
