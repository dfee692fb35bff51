-- ===== src/Jobs/Uniqueness.antt =====
-- What the unique keys of the two tables give: one job for a game, one event for a delivery.
use boardtrace.Prelude.{
  if◌then◌else◌, Bool-cases, Option-cases, count, any, find-snoc, text_eq_refl, ℕ, ◌+◌, ◌≤◌, ◌≡◌,
  refl, inl, inr, Bool, true, false, none, some, List, [], ◌∷◌, ◌++◌, arith,
}
use boardtrace.Jobs.Row.{AnalysisJob, AnalysisJobOutbox}
use boardtrace.Jobs.Table.{
  Queue, get_by_game_profile_version, standard, new_job, same_event, insert_event, new_event,
  ensure_outbox, create_retry_outbox_if_absent, create_if_absent,
}

found_new :
    (p g o c now : ℕ) (q : Queue)
    → get_by_game_profile_version g standard 1 q.jobs ≡ none
    → get_by_game_profile_version g standard 1 (q.jobs ++ new_job p g o c now ∷ [])
      ≡ some (new_job p g o c now)
unfolding get_by_game_profile_version new_job
found_new p g o c now q absent = find-snoc _ q.jobs _ absent (ground (arith, text_eq_refl standard))

pub create_there :
    (p e g o c now : ℕ) (enqueue : Bool) (q : Queue) (job : AnalysisJob)
    → get_by_game_profile_version g standard 1 q.jobs ≡ some job
    → create_if_absent p e g o c now enqueue q ≡ (job, q)
unfolding create_if_absent
create_there p e g o c now enqueue q job there = rw (there, create_if_absent) refl

create_new :
    (p e g o c now : ℕ) (enqueue : Bool) (q : Queue)
    → get_by_game_profile_version g standard 1 q.jobs ≡ none
    → ((create_if_absent p e g o c now enqueue q).0 ≡ new_job p g o c now)
      × ((create_if_absent p e g o c now enqueue q).1.jobs ≡ q.jobs ++ new_job p g o c now ∷ [])
unfolding create_if_absent
create_new p e g o c now enqueue q absent =
    (rw (absent, create_if_absent) refl, rw (absent, create_if_absent) refl)

-- The job that a creation answers is the game's.
pub create_if_absent-found :
    (p e g o c now : ℕ) (enqueue : Bool) (q : Queue)
    → get_by_game_profile_version g standard 1 (create_if_absent p e g o c now enqueue q).1.jobs
      ≡ some (create_if_absent p e g o c now enqueue q).0
create_if_absent-found p e g o c now enqueue q =
    elim (Option-cases (get_by_game_profile_version g standard 1 q.jobs)) [
      | inr (job, there) ↦ rw (create_there p e g o c now enqueue q job there) there
      | inl absent ↦
          let (is_new, added) = create_new p e g o c now enqueue q absent in
          rw (added, is_new) (found_new p g o c now q absent)
    ]

-- To create the job of a game again, under whatever identifiers, owner and time, answers the job
-- that is there and changes neither table.
pub create_if_absent_once :
    (p e g o c now p' e' o' c' now' : ℕ) (enqueue enqueue' : Bool) (q : Queue)
    → let (job, q') = create_if_absent p e g o c now enqueue q in
      create_if_absent p' e' g o' c' now' enqueue' q' ≡ (job, q')
create_if_absent_once p e g o c now p' e' o' c' now' enqueue enqueue' q =
    create_there p' e' g o' c' now' enqueue' (create_if_absent p e g o c now enqueue q).1
      (create_if_absent p e g o c now enqueue q).0 (create_if_absent-found p e g o c now enqueue q)

count-none : {A : Type 0} (p : A → Bool) (xs : List A) → any p xs ≡ false → count p xs ≡ 0
count-none p [] h = refl
count-none p (x ∷ xs) h = ground (arith, count-none p xs)

count-snoc :
    {A : Type 0} (p : A → Bool) (xs : List A) (x : A)
    → count p (xs ++ x ∷ []) ≡ count p xs + (if p x then 1 else 0)
count-snoc p [] x = ground arith
count-snoc p (y ∷ xs) x = ground (arith, count-snoc p xs x)

inserted_once :
    (e : AnalysisJobOutbox) (j g : ℕ) (es : List AnalysisJobOutbox)
    → count (same_event j g) es ≤ 1
    → count (same_event j g) (insert_event e es) ≤ 1
unfolding insert_event
inserted_once e j g es h =
    elim (Bool-cases (any (same_event e.analysis_job_id e.delivery_generation) es)) [
      | inl there ↦ rw there h
      | inr absent ↦ elim (Bool-cases (same_event j g e)) [
        | inr other ↦ ground (arith, absent, count-snoc (same_event j g) es e)
        | inl same ↦
            let a : e.analysis_job_id ≡ j = ground arith in
            let b : e.delivery_generation ≡ g = ground arith in
            let none_yet : any (same_event j g) es ≡ false = rw (a, b) at absent in
            ground (
              arith,
              absent,
              count-snoc (same_event j g) es e,
              count-none (same_event j g) es none_yet,
            )
      ]
    ]

count-some : {A : Type 0} (p : A → Bool) (xs : List A) → any p xs ≡ true → 1 ≤ count p xs
count-some p [] h = absurd (ground arith)
count-some p (x ∷ xs) h = ground (arith, count-some p xs)

-- An event that is inserted is there once.
inserted_there :
    (e : AnalysisJobOutbox) (es : List AnalysisJobOutbox)
    → count (same_event e.analysis_job_id e.delivery_generation) es ≤ 1
    → count (same_event e.analysis_job_id e.delivery_generation) (insert_event e es) ≡ 1
unfolding insert_event
inserted_there e es h =
    let mine = same_event e.analysis_job_id e.delivery_generation in
    elim (Bool-cases (any mine es)) [
      | inl there ↦ rw there (ground (arith, count-some mine es there))
      | inr absent ↦ rw absent (ground (arith, count-snoc mine es e, count-none mine es absent))
    ]

-- Where no job has two events for one generation of its delivery, there is just one event for
-- generation 0 once the event of a new job is requested, and just one for the generation that is the
-- job's count of attempts once that of a retry is, and neither makes a second for any job and
-- generation.
pub events_once :
    (event_id now job_id c : ℕ) (job : AnalysisJob) (es : List AnalysisJobOutbox)
    → ((j g : ℕ) → count (same_event j g) es ≤ 1)
    → (count (same_event job_id 0) (ensure_outbox event_id job_id c now es) ≡ 1)
      × (count
            (same_event job.id job.attempt_count)
            (create_retry_outbox_if_absent event_id job c now es)
          ≡ 1)
      × ((j g : ℕ) → count (same_event j g) (ensure_outbox event_id job_id c now es) ≤ 1)
      × ((j g : ℕ)
          → count (same_event j g) (create_retry_outbox_if_absent event_id job c now es) ≤ 1)
unfolding ensure_outbox create_retry_outbox_if_absent
events_once event_id now job_id c job es h = (
  inserted_there (new_event event_id job_id 0 c none now) es (h job_id 0),
  inserted_there (new_event event_id job.id job.attempt_count c job.next_attempt_at now) es
      (h job.id job.attempt_count),
  (λ j g. inserted_once _ j g es (h j g)),
  (λ j g. inserted_once _ j g es (h j g)),
)
