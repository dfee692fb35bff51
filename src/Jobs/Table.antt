-- ===== src/Jobs/Table.antt =====
-- The tables of jobs and outbox events, and the methods of class AnalysisJobRepository that work
-- on them (apps/api/src/boardtrace_api/repositories/analysis_jobs.py). A table is the list of its
-- rows in the order of insertion; an identifier that `uuid4` draws is an argument.
use boardtrace.Prelude.{
  leb, ◌==◌, if◌then◌else◌, take, filter, find, any, Text, codes, text_eq, ℕ, ◌+◌, Bool, true,
  false, ◌&&◌, Option, none, some, List, [], ◌∷◌, ◌++◌,
}
use boardtrace.Jobs.Status.{pending}
use boardtrace.Jobs.Row.{
  AnalysisJob, OutboxStatus, outbox_pending, outbox_published, AnalysisJobOutbox,
}

pub record Queue : Type 0 where
  pub jobs : List AnalysisJob
  pub outbox : List AnalysisJobOutbox

unfoldable pub get_by_id : ℕ → List AnalysisJob → Option AnalysisJob
get_by_id job_id = find (λ (j : AnalysisJob). j.id == job_id)

pub get_owned_by_id : ℕ → ℕ → List AnalysisJob → Option AnalysisJob
get_owned_by_id job_id owner_user_id =
    find (λ (j : AnalysisJob). j.id == job_id && j.owner_user_id == owner_user_id)

unfoldable pub get_by_game_profile_version : ℕ → Text → ℕ → List AnalysisJob → Option AnalysisJob
get_by_game_profile_version game_id profile version = find (λ (j : AnalysisJob).
    j.game_id == game_id && text_eq j.analysis_profile profile && j.analysis_version == version)

-- An update of the row with the given key.
unfoldable pub put_job : AnalysisJob → List AnalysisJob → List AnalysisJob
put_job job [] = []
put_job job (j ∷ js) = if j.id == job.id then job ∷ js else j ∷ put_job job js

abbrev pub standard : Text
standard = codes "standard"

-- The values of the INSERT in `create_if_absent`, with the columns' defaults.
unfoldable pub new_job : ℕ → ℕ → ℕ → ℕ → ℕ → AnalysisJob
new_job proposed_id game_id owner_user_id correlation_id now = record {
  id = proposed_id;
  game_id = game_id;
  owner_user_id = owner_user_id;
  status = pending;
  attempts = 0;
  attempt_count = 0;
  max_attempts = 1;
  analysis_profile = standard;
  analysis_version = 1;
  queued_at = none;
  claimed_at = none;
  lease_expires_at = none;
  lease_generation = 0;
  heartbeat_at = none;
  started_at = none;
  finished_at = none;
  completed_at = none;
  failed_at = none;
  next_attempt_at = none;
  last_error_code = none;
  last_error_message = none;
  worker_id = none;
  queue_message_id = none;
  admission_correlation_id = correlation_id;
  created_at = now;
}

abbrev pub same_event : ℕ → ℕ → AnalysisJobOutbox → Bool
same_event job_id generation e = e.analysis_job_id == job_id && e.delivery_generation == generation

-- INSERT … ON CONFLICT DO NOTHING over the unique key of the outbox.
unfoldable pub insert_event : AnalysisJobOutbox → List AnalysisJobOutbox → List AnalysisJobOutbox
insert_event e es =
    if any (same_event e.analysis_job_id e.delivery_generation) es then es else es ++ e ∷ []

abbrev pub new_event : ℕ → ℕ → ℕ → ℕ → Option ℕ → ℕ → AnalysisJobOutbox
new_event event_id job_id generation correlation_id next_attempt_at now = record {
  id = event_id;
  analysis_job_id = job_id;
  delivery_generation = generation;
  correlation_id = correlation_id;
  status = outbox_pending;
  attempt_count = 0;
  next_attempt_at = next_attempt_at;
  published_at = none;
  last_error_code = none;
  created_at = now;
}

unfoldable pub ensure_outbox : ℕ → ℕ → ℕ → ℕ → List AnalysisJobOutbox → List AnalysisJobOutbox
unfolding insert_event
ensure_outbox event_id job_id correlation_id now =
    insert_event (new_event event_id job_id 0 correlation_id none now)

unfoldable pub create_retry_outbox_if_absent :
    ℕ → AnalysisJob → ℕ → ℕ → List AnalysisJobOutbox → List AnalysisJobOutbox
unfolding insert_event
create_retry_outbox_if_absent event_id job correlation_id now =
    insert_event
      (new_event event_id job.id job.attempt_count correlation_id job.next_attempt_at now)

-- The INSERT of `create_if_absent` for a game that has no job yet; with the job's row, the outbox
-- event. No other session writes between its SELECT and its INSERT here, so the INSERT meets no
-- conflict, after which it would select the other row and request its event, and the row is there.
unfoldable pub create_if_absent : ℕ → ℕ → ℕ → ℕ → ℕ → ℕ → Bool → Queue → AnalysisJob × Queue
unfolding get_by_game_profile_version ensure_outbox new_job
create_if_absent proposed_id event_id game_id owner_user_id correlation_id now enqueue q =
    elim (get_by_game_profile_version game_id standard 1 q.jobs) [
      | some existing ↦ (existing, q)
      | none ↦ (
        new_job proposed_id game_id owner_user_id correlation_id now,
        record q {
          jobs = q.jobs ++ new_job proposed_id game_id owner_user_id correlation_id now ∷ [];
          outbox =
              if enqueue
              then ensure_outbox event_id proposed_id correlation_id now q.outbox
              else q.outbox;
        },
      )
    ]

-- `next_attempt_at IS NULL OR next_attempt_at <= now`
abbrev pub due : Option ℕ → ℕ → Bool
due none now = true
due (some t) now = leb t now

abbrev pub is_pending_event : OutboxStatus → Bool
is_pending_event outbox_pending = true
is_pending_event outbox_published = false

-- ORDER BY created_at, with LIMIT; rows that another session has locked are not in the list.
unfoldable pub insert_by_created_at :
    AnalysisJobOutbox → List AnalysisJobOutbox → List AnalysisJobOutbox
insert_by_created_at e [] = e ∷ []
insert_by_created_at e (f ∷ fs) =
    if leb e.created_at f.created_at then e ∷ f ∷ fs else f ∷ insert_by_created_at e fs

unfoldable pub sort_by_created_at : List AnalysisJobOutbox → List AnalysisJobOutbox
sort_by_created_at [] = []
sort_by_created_at (e ∷ es) = insert_by_created_at e (sort_by_created_at es)

unfoldable pub list_publishable_outbox : ℕ → ℕ → List AnalysisJobOutbox → List AnalysisJobOutbox
unfolding sort_by_created_at insert_by_created_at
list_publishable_outbox now limit es = take limit (
    sort_by_created_at (
      filter (λ (e : AnalysisJobOutbox). is_pending_event e.status && due e.next_attempt_at now)
        es))

unfoldable pub record_outbox_failure : Text → ℕ → AnalysisJobOutbox → AnalysisJobOutbox
record_outbox_failure code next_attempt_at e = record e {
  attempt_count = e.attempt_count + 1;
  last_error_code = some (take 100 code);
  next_attempt_at = some next_attempt_at;
}

unfoldable pub put_event : AnalysisJobOutbox → List AnalysisJobOutbox → List AnalysisJobOutbox
put_event e [] = []
put_event e (f ∷ fs) = if f.id == e.id then e ∷ fs else f ∷ put_event e fs
