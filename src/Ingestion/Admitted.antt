-- ===== src/Ingestion/Admitted.antt =====
-- A job that the endpoints let in.
use boardtrace.Prelude.{
  ◌==◌, Bool-cases, Option-cases, any, find-true, Result, ok, err, Result-cases, ℕ, ◌≡◌, refl, sym,
  ap, ◌∙◌, inl, inr, Bool, true, false, none, List, [], ◌∷◌, ◌++◌, arith,
}
use boardtrace.Admission.Redis.{mem, mem-sadd}
use boardtrace.Admission.Scripts.{QueueAdmission, Keys, activate, admit, state}
use boardtrace.Jobs.Status.{pending, status_eq}
use boardtrace.Jobs.Row.{AnalysisJob, AnalysisJobOutbox}
use boardtrace.Jobs.Table.{
  get_by_id, get_owned_by_id, get_by_game_profile_version, standard, same_event, insert_event,
  new_event, ensure_outbox,
}
use boardtrace.Results.Rows.{Game, Database}
use boardtrace.Worker.Run.{World}
use boardtrace.Ingestion.Provenance.{Digests, CompletedGameIngestionRequest}
use boardtrace.Ingestion.Service.{Draws, ingest}
use boardtrace.Ingestion.Endpoint.{
  ApiError, is_active, store_of, with_store, decide, requested, admit_pending_job,
  admission_rejection, conclude, admitted_or_rejected, raised_as, admit_job_of, ingest_and_admit,
  ingest_completed_game, consent_to_queue,
}

-- A job that is active and whose first delivery is in the outbox.
abbrev pub IsAdmitted : ℕ → World → Type 0
IsAdmitted job_id w =
    (mem job_id w.keys.running ≡ true) × (any (same_event job_id 0) w.outbox ≡ true)

moved : {i j : ℕ} (w : World) → i ≡ j → IsAdmitted i w → IsAdmitted j w
moved w e (inside, event) = (
  sym (ap (λ k. mem k w.keys.running) e) ∙ inside,
  sym (ap (λ k. any (same_event k 0) w.outbox) e) ∙ event,
)

decide-active :
    (job_id user_id : ℕ) (consent : Bool) (now : ℕ) (keys : Keys)
    → is_active (decide job_id user_id consent now keys).0.outcome ≡ true
    → mem job_id (decide job_id user_id consent now keys).1.running ≡ true
unfolding decide state admit activate
decide-active job_id user_id consent now keys h =
    ground (arith, mem-sadd job_id job_id keys.running)

any-snoc :
    {A : Type 0} (p : A → Bool) (xs : List A) (a : A) → p a ≡ true → any p (xs ++ a ∷ []) ≡ true
any-snoc p [] a h = ground arith
any-snoc p (x ∷ xs) a h = ground (arith, any-snoc p xs a h)

event_there :
    (event_id job_id correlation_id now : ℕ) (es : List AnalysisJobOutbox)
    → any (same_event job_id 0) (ensure_outbox event_id job_id correlation_id now es) ≡ true
unfolding ensure_outbox insert_event
event_there event_id job_id correlation_id now es =
    let e = new_event event_id job_id 0 correlation_id none now in
    elim (Bool-cases (any (same_event job_id 0) es)) [
      | inl there ↦ rw there there
      | inr absent ↦ rw absent (any-snoc (same_event job_id 0) es e (ground arith))
    ]

requested-event :
    (event_id now job_id : ℕ) (decision : QueueAdmission) (d : Database)
    (es : List AnalysisJobOutbox) {fs : List AnalysisJobOutbox}
    → requested event_id now job_id decision d es ≡ ok fs
    → is_active decision.outcome ≡ true
    → any (same_event job_id 0) fs ≡ true
unfolding requested get_by_id
requested-event event_id now job_id decision d es {fs} h let_in =
    elim (Option-cases (get_by_id job_id d.jobs)) [
      | inl gone ↦ absurd (ground arith)
      | inr (job, found) ↦
          let hit = find-true (λ (j : AnalysisJob). j.id == job_id) d.jobs found in
          let same : job.id ≡ job_id = ground arith in
          let there = event_there event_id job.id job.admission_correlation_id now es in
          let left : fs ≡ ensure_outbox event_id job.id job.admission_correlation_id now es =
            ground arith in
          rw left (
            ap
              (λ j.
                any (same_event j 0)
                  (ensure_outbox event_id job.id job.admission_correlation_id now es))
              (sym same)
            ∙ there)
    ]

admit_pending_job-IsAdmitted :
    (redis_up : Bool) (event_id now job_id user_id : ℕ) (consent : Bool) (w : World)
    {decision : QueueAdmission} {w' : World}
    → admit_pending_job redis_up event_id now job_id user_id consent w ≡ (ok decision, w')
    → is_active decision.outcome ≡ true
    → IsAdmitted job_id w'
unfolding admit_pending_job
admit_pending_job-IsAdmitted redis_up event_id now job_id user_id consent w {decision} {w'} h
      let_in =
    let (made, keys) = decide job_id user_id consent now w.keys in
    elim (Result-cases (requested event_id now job_id made w.database w.outbox)) [
      | inr (e, bad) ↦ absurd (ground arith)
      | inl (es, good) ↦
          let same : made ≡ decision = ground arith in
          let left : w' ≡ record w { keys = keys; outbox = es } = ground arith in
          let open_now : is_active made.outcome ≡ true = ground arith in
          (
            ap (λ v. mem job_id v.keys.running) left
                ∙ decide-active job_id user_id consent now w.keys open_now,
            ap (λ v. any (same_event job_id 0) v.outbox) left
                ∙ requested-event event_id now job_id made w.database w.outbox good open_now,
          )
    ]

module _ {A : Type 0} where
  conclude-ok :
      (committed : Result ApiError Unit) (before : World) (staged : Result ApiError A × World)
      {a : A} {w : World}
      → conclude committed before staged ≡ (ok a, w)
      → staged ≡ (ok a, w)
  unfolding conclude
  conclude-ok committed before (err e, after) {a} {w} h = absurd (ground arith)
  conclude-ok (err x) before (ok b, after) {a} {w} h = absurd (ground arith)
  conclude-ok (ok t) before (ok b, after) {a} {w} h = h

  admitted_or_rejected-ok :
      (answer : QueueAdmission → A) (admission : Result ApiError QueueAdmission × World) {a : A}
      {w : World}
      → admitted_or_rejected answer admission ≡ (ok a, w)
      → (decision : QueueAdmission) × (admission ≡ (ok decision, w)) × (answer decision ≡ a)
  unfolding admitted_or_rejected
  admitted_or_rejected-ok answer (err e, v) {a} {w} h = absurd (ground arith)
  admitted_or_rejected-ok answer (ok decision, v) {a} {w} h =
      elim (Result-cases (admission_rejection decision.outcome)) [
        | inr (x, bad) ↦ absurd (ground arith)
        | inl (t, fine) ↦ (decision, ground arith, ground arith)
      ]

module _ (redis_up : Bool) (committed : Result ApiError Unit) where
  -- When the user's consent is answered with an active job, the job is in the active set of Redis
  -- and its first delivery is in the outbox.
  pub consent_to_queue-IsAdmitted :
      (event_id now job_id user_id : ℕ) (w : World) {job : AnalysisJob} {decision : QueueAdmission}
      {w' : World}
      → consent_to_queue redis_up committed event_id now job_id user_id w ≡ (ok (job, decision), w')
      → is_active decision.outcome ≡ true
      → IsAdmitted job.id w'
  unfolding consent_to_queue
  consent_to_queue-IsAdmitted event_id now job_id user_id w {job} {decision} {w'} h let_in =
      let staged = conclude-ok committed w _ h in
      elim (Option-cases (get_owned_by_id job_id user_id w.database.jobs)) [
        | inl gone ↦ absurd (ground arith)
        | inr (row, found) ↦ elim (Bool-cases (status_eq row.status pending)) [
          | inr over ↦ absurd (ground arith)
          | inl waits ↦
              let (d, admitted, same) =
                admitted_or_rejected-ok {A = AnalysisJob × QueueAdmission} (λ d. (row, d))
                  (admit_pending_job redis_up event_id now row.id user_id true w)
                  {a = (job, decision)} {w = w'} (ground arith) in
              let that : IsAdmitted row.id w' =
                admit_pending_job-IsAdmitted redis_up event_id now row.id user_id true w admitted
                  (ground arith) in
              moved w' (ap (λ (x : AnalysisJob × QueueAdmission). x.0.id) same) that
        ]
      ]

  admit_job_of-IsAdmitted :
      (draws : Draws) (user_id : ℕ) (queue_consent : Bool) (g : Game) (w : World) {game : Game}
      {job : AnalysisJob} {decision : QueueAdmission} {w' : World}
      → admit_job_of redis_up draws user_id queue_consent g w ≡ (ok (game, job, decision), w')
      → status_eq job.status pending ≡ true
      → is_active decision.outcome ≡ true
      → IsAdmitted job.id w'
  unfolding admit_job_of
  admit_job_of-IsAdmitted draws user_id queue_consent g w {game} {job} {decision} {w'} h is_pending
        let_in =
      elim (Option-cases (get_by_game_profile_version g.id standard 1 w.database.jobs)) [
        | inl gone ↦ absurd (ground arith)
        | inr (row, found) ↦ elim (Bool-cases (status_eq row.status pending)) [
          | inr over ↦ absurd (ground arith)
          | inl waits ↦
              let (d, admitted, same) =
                admitted_or_rejected-ok {A = Game × AnalysisJob × QueueAdmission} (λ d. (g, row, d))
                  (admit_pending_job redis_up draws.event_id draws.now row.id user_id queue_consent
                    w)
                  {a = (game, job, decision)} {w = w'} (ground arith) in
              let that : IsAdmitted row.id w' =
                admit_pending_job-IsAdmitted redis_up draws.event_id draws.now row.id user_id
                  queue_consent w admitted (ground arith) in
              moved w' (ap (λ (x : Game × AnalysisJob × QueueAdmission). x.1.id) same) that
        ]
      ]

  -- When the ingestion of a game answers that its pending job is active, the job is in the active
  -- set of Redis and its first delivery is in the outbox.
  pub ingest_completed_game-IsAdmitted :
      (digests : Digests) (production : Bool) (draws : Draws) (user_id : ℕ)
      (payload : CompletedGameIngestionRequest) (queue_consent : Bool) (w : World) {game : Game}
      {job : AnalysisJob} {decision : QueueAdmission} {w' : World}
      → ingest_completed_game redis_up committed digests production draws user_id payload
          queue_consent w
        ≡ (ok (game, job, decision), w')
      → status_eq job.status pending ≡ true
      → is_active decision.outcome ≡ true
      → IsAdmitted job.id w'
  unfolding ingest_completed_game ingest_and_admit
  ingest_completed_game-IsAdmitted digests production draws user_id payload queue_consent w {game}
        {job} {decision} {w'} h is_pending let_in =
      let staged =
        conclude-ok committed w
          (ingest_and_admit redis_up digests production draws user_id payload queue_consent w) h in
      elim (Result-cases
        (ingest digests production false (λ s. s) draws user_id payload (store_of w))) [
          | inr (e, bad) ↦
              let went : ingest_and_admit redis_up digests production draws user_id payload
                    queue_consent w
                  ≡ (err (raised_as e), w) =
                rw (ingest_and_admit, bad) refl in
              let clash = sym went ∙ staged in absurd (ground arith)
          | inl ((g, s), good) ↦
              let went : ingest_and_admit redis_up digests production draws user_id payload
                    queue_consent w
                  ≡ admit_job_of redis_up draws user_id queue_consent g (with_store s w) =
                rw (ingest_and_admit, good) refl in
              admit_job_of-IsAdmitted draws user_id queue_consent g (with_store s w)
                (sym went ∙ staged) is_pending let_in
        ]
