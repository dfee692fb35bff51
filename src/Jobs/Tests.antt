-- ===== src/Jobs/Tests.antt =====
-- Jobs at work: each theorem at a row that a worker meets.
use boardtrace.Jobs.Uniqueness.{create_if_absent_once, events_once}
use boardtrace.Prelude.{
  leb, if◌then◌else◌, length, count, ok, err, Text, codes, text_eq, ℕ, ◌+◌, ◌-◌, ◌≤◌, min, ◌≡◌,
  refl, inl, true, Option, none, some, [], ◌∷◌, arith,
}
use boardtrace.Prelude.Int.{pos, negsuc}
use boardtrace.Jobs.Status.{
  AnalysisJobStatus, queued, claimed, retry_scheduled, failed, cancelled, invalid_transition,
  negative_jitter,
}
use boardtrace.Jobs.Retry.{RetryPolicy, retry_policy_accepted, JitterSource, delay_for_attempt}
use boardtrace.Jobs.Row.{AnalysisJob, outbox_pending, AnalysisJobOutbox}
use boardtrace.Jobs.Operations.{refused}
use boardtrace.Jobs.Table.{
  Queue, same_event, new_event, ensure_outbox, create_retry_outbox_if_absent, create_if_absent,
}
use boardtrace.Jobs.Publisher.{Broker, publish_due}
use boardtrace.Jobs.Events.{DistinctEvents, due_count, pending_count}
use boardtrace.Jobs.Drained.{publish_due-drains}
use boardtrace.Jobs.Steps.{
  publish, claim, start, heartbeat, complete, terminalize, recover, perform, written, step, run,
  Edge, perform-Edge,
}
use boardtrace.Jobs.Lease.{
  IsValid, run-IsValid, stale_worker_fenced, terminal_absorbs, started_by, claim-start,
  renewed_not_recovered,
}
use boardtrace.Jobs.Accounting.{counts_attempt, tally, attempt_count-tally}

abbrev alice : Text
alice = codes "worker-a"

abbrev bob : Text
bob = codes "worker-b"

abbrev row : AnalysisJobStatus → Option Text → ℕ → AnalysisJob
row status holder generation = record {
  id = 1;
  game_id = 2;
  owner_user_id = 3;
  status = status;
  attempts = generation;
  attempt_count = generation;
  max_attempts = 3;
  analysis_profile = codes "standard";
  analysis_version = 1;
  queued_at = some 10;
  claimed_at = some 20;
  lease_expires_at = elim holder [ none ↦ none | some _ ↦ some 30000000 ];
  lease_generation = generation;
  heartbeat_at = elim holder [ none ↦ none | some _ ↦ some 20 ];
  started_at = none;
  finished_at = none;
  completed_at = none;
  failed_at = none;
  next_attempt_at = none;
  last_error_code = none;
  last_error_message = none;
  worker_id = holder;
  queue_message_id = none;
  admission_correlation_id = 4;
  created_at = 5;
}

abbrev waiting_row : AnalysisJob
waiting_row = row queued none 1

abbrev held_by_bob : AnalysisJob
held_by_bob = row claimed (some bob) 2

abbrev ended : AnalysisJob
ended = record (row failed none 2) { failed_at = some 40 }

abbrev policy : RetryPolicy
policy = record { base_delay_seconds = 5; max_delay_seconds = 60; max_jitter_seconds = 2 }

abbrev jitter : JitterSource
jitter _ = pos 1

abbrev third : ℕ
third = 3

abbrev fast : JitterSource
fast _ = negsuc 0

waiting_row-IsValid : IsValid waiting_row
waiting_row-IsValid = ground arith

ended-IsValid : IsValid ended
ended-IsValid = ground arith

-- A worker of the first generation is refused while Bob, of the second, works.
stale_worker_fenced_example :
    perform
      (complete alice 400000000 (some 1))
      (run held_by_bob (start bob 25000000 (some 2) ∷ heartbeat bob 26000000 30 (some 2) ∷ []))
    ≡ refused
stale_worker_fenced_example =
    stale_worker_fenced 1 (complete alice 400000000 (some 1)) held_by_bob
      (start bob 25000000 (some 2) ∷ heartbeat bob 26000000 30 (some 2) ∷ []) (ground arith)
      (omega arith)

claim_accepted :
    perform (claim alice 20 30) waiting_row
    ≡ ok (some (written waiting_row (perform (claim alice 20 30) waiting_row)))
unfolding perform
claim_accepted = refl

perform-Edge_example :
    Edge queued (written waiting_row (perform (claim alice 20 30) waiting_row)).status
perform-Edge_example = perform-Edge (claim alice 20 30) waiting_row claim_accepted

run-IsValid_example : IsValid (
    run waiting_row
      (claim alice 20 30 ∷ recover 90000000 policy jitter ∷ publish (codes "m2") 200000000 ∷ []))
run-IsValid_example =
    run-IsValid waiting_row
      (claim alice 20 30 ∷ recover 90000000 policy jitter ∷ publish (codes "m2") 200000000 ∷ [])
      waiting_row-IsValid

terminal_absorbs_example :
    run ended (claim alice 20 30 ∷ terminalize cancelled (codes "c") (codes "m") 50 ∷ []) ≡ ended
terminal_absorbs_example =
    terminal_absorbs ended
      (claim alice 20 30 ∷ terminalize cancelled (codes "c") (codes "m") 50 ∷ []) ended-IsValid refl

start_accepted :
    perform (start bob 25000000 (some 2)) held_by_bob
    ≡ ok (some (written held_by_bob (perform (start bob 25000000 (some 2)) held_by_bob)))
unfolding perform text_eq
start_accepted = refl

renewed_not_recovered_example :
    perform
      (recover 1000 policy jitter)
      (written waiting_row (perform (claim alice 20 30) waiting_row))
    ≡ refused
renewed_not_recovered_example =
    renewed_not_recovered (claim alice 20 30) waiting_row alice 20 30 1000 none policy jitter
      (inl refl) claim_accepted (omega arith)

attempt_count-tally_example :
    (run waiting_row (claim alice 20 30 ∷ recover 90000000 policy jitter ∷ [])).attempt_count
    ≡ 1 + tally counts_attempt waiting_row (claim alice 20 30 ∷ recover 90000000 policy jitter ∷ [])
attempt_count-tally_example =
    attempt_count-tally waiting_row (claim alice 20 30 ∷ recover 90000000 policy jitter ∷ [])

claim-start_example :
    perform (start alice 25 (some (1 + 1))) (step waiting_row (claim alice 20 30)) ≡ (
      if leb (length alice) 255 then ok (some (started_by alice 20 30 25 waiting_row)) else refused)
claim-start_example = claim-start alice 20 30 25 waiting_row refl

cancel_refused :
    perform (terminalize cancelled (codes "c") (codes "m") 50) held_by_bob ≡ err invalid_transition
unfolding perform
cancel_refused = refl

policy_accepted : retry_policy_accepted policy ≡ true
unfolding retry_policy_accepted
policy_accepted = refl

delay_three : delay_for_attempt policy 3 jitter ≡ ok 21
unfolding delay_for_attempt
delay_three = refl

delay_four : delay_for_attempt policy 4 jitter ≡ ok 41
unfolding delay_for_attempt
delay_four = refl

negative_refused : delay_for_attempt policy 3 fast ≡ err negative_jitter
unfolding delay_for_attempt
negative_refused = refl

abbrev one_job : Queue
one_job = record { jobs = waiting_row ∷ []; outbox = [] }

create_if_absent_once_example :
    let (job, q') = create_if_absent 8 9 7 3 4 5 true one_job in
    create_if_absent 18 19 7 13 14 15 true q' ≡ (job, q')
create_if_absent_once_example = create_if_absent_once 8 9 7 3 4 5 18 19 13 14 15 true true one_job

abbrev first_event : AnalysisJobOutbox
first_event = new_event 30 1 1 4 none 5

one_event : (j g : ℕ) → count (same_event j g) (first_event ∷ []) ≤ 1
one_event j g = ground arith

events_once_example :
    (count (same_event 1 0) (ensure_outbox 31 1 4 6 (first_event ∷ [])) ≡ 1)
    × (count
          (same_event waiting_row.id waiting_row.attempt_count)
          (create_retry_outbox_if_absent 31 waiting_row 4 6 (first_event ∷ []))
        ≡ 1)
    × ((j g : ℕ) → count (same_event j g) (ensure_outbox 31 1 4 6 (first_event ∷ [])) ≤ 1)
    × ((j g : ℕ)
        → count
            (same_event j g)
            (create_retry_outbox_if_absent 31 waiting_row 4 6 (first_event ∷ []))
          ≤ 1)
events_once_example = events_once 31 6 1 4 waiting_row (first_event ∷ []) one_event

abbrev waiting_event : AnalysisJobOutbox
waiting_event = record {
  id = 9;
  analysis_job_id = 1;
  delivery_generation = 1;
  correlation_id = 4;
  status = outbox_pending;
  attempt_count = 0;
  next_attempt_at = none;
  published_at = none;
  last_error_code = none;
  created_at = 5;
}

abbrev two_waiting : Queue
two_waiting = record {
  jobs = row retry_scheduled none 1 ∷ [];
  outbox = waiting_event ∷ record waiting_event { id = 10; delivery_generation = 2 } ∷ [];
}

abbrev steady_broker : Broker
steady_broker _ = some (codes "message")

publish_due-drains_example :
    (left : Queue) × (publish_due steady_broker 50 1 two_waiting
      ≡ ok (min 1 (due_count 50 two_waiting.outbox), left))
    × (due_count 50 left.outbox ≡ due_count 50 two_waiting.outbox - 1)
    × (pending_count left.outbox + min 1 (due_count 50 two_waiting.outbox)
        ≡ pending_count two_waiting.outbox)
    × DistinctEvents left.outbox
publish_due-drains_example =
    publish_due-drains steady_broker 50 (λ e. refl) 1 two_waiting ((refl, tt), (tt, tt))
