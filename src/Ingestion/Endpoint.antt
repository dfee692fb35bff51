-- ===== src/Ingestion/Endpoint.antt =====
-- The endpoints of apps/api/src/boardtrace_api/api/v1/endpoints/ingestion.py, with the queue admission
-- in Redis. No other session writes during a request; whether Redis can be reached, what is drawn,
-- and what the hook before the commit and the commit answer are parameters.
use boardtrace.Prelude.{
  if◌then◌else◌, Result, ok, err, ◌>>=◌, ◌>>◌, raise_if, or_raise, codes, ℕ, Bool, true, false, not,
  ◌&&◌, ◌||◌, none, some, List,
}
use boardtrace.Admission.Scripts.{
  AdmissionOutcome, active, waiting, consent_required, user_busy, queue_full, terminal,
  QueueAdmission, Keys, admit, state, cancel_waiting, extend_wait,
}
use boardtrace.Jobs.Status.{AnalysisJobStatus, pending, succeeded, failed, cancelled, status_eq}
use boardtrace.Jobs.Row.{AnalysisJob, AnalysisJobOutbox}
use boardtrace.Jobs.Table.{
  get_by_id, get_owned_by_id, get_by_game_profile_version, standard, ensure_outbox,
}
use boardtrace.Results.Rows.{Game, Database}
use boardtrace.Worker.Run.{World}
use boardtrace.Worker.Terminal.{terminalize}
use boardtrace.Ingestion.Provenance.{Digests, CompletedGameIngestionRequest}
use boardtrace.Ingestion.Service.{
  Store, IngestionError, invalid_source, conflict, ineligible, Draws, ingest, get_for_user,
}

-- The codes of `ApiError`; `internal_error` is an exception that the endpoint lets pass.
pub data ApiError : Type 0 where
  ingestion_conflict provenance_rejected internal_error resource_not_found : ApiError
  analysis_admission_unavailable analysis_queue_full analysis_user_busy : ApiError
  queue_action_rejected : ApiError

abbrev pub is_active : AdmissionOutcome → Bool
is_active active = true
is_active _ = false

abbrev pub is_waiting : AdmissionOutcome → Bool
is_waiting waiting = true
is_waiting _ = false

abbrev pub outcome_only : AdmissionOutcome → QueueAdmission
outcome_only o = record { outcome = o; position = none; deadline_at = none }

abbrev pub store_of : World → Store
store_of w = record {
  games = w.database.games;
  queue = record { jobs = w.database.jobs; outbox = w.outbox };
}

abbrev pub with_store : Store → World → World
with_store s w = record w {
  database = record w.database { games = s.games; jobs = s.queue.jobs };
  outbox = s.queue.outbox;
}

-- `current or await admission.admit(...)`
unfoldable pub decide : ℕ → ℕ → Bool → ℕ → Keys → QueueAdmission × Keys
decide job_id user_id consent now keys = elim (state job_id keys) [
  | some current ↦ (current, keys)
  | none ↦ admit job_id user_id consent now keys
]

-- The outbox event of a job that is let in.
unfoldable pub requested :
    ℕ
    → ℕ
    → ℕ
    → QueueAdmission
    → Database
    → List AnalysisJobOutbox
    → Result ApiError (List AnalysisJobOutbox)
requested event_id now job_id decision d es =
    if not (is_active decision.outcome) then ok es else elim (get_by_id job_id d.jobs) [
      | none ↦ err internal_error
      | some job ↦ ok (ensure_outbox event_id job.id job.admission_correlation_id now es)
    ]

-- `_admit_pending_job`
unfoldable pub admit_pending_job :
    Bool → ℕ → ℕ → ℕ → ℕ → Bool → World → Result ApiError QueueAdmission × World
admit_pending_job redis_up event_id now job_id user_id consent w =
    if not redis_up
    then (err analysis_admission_unavailable, w)
    else let (decision, keys) = decide job_id user_id consent now w.keys in
      elim (requested event_id now job_id decision w.database w.outbox) [
        | err e ↦ (err e, record w { keys = keys })
        | ok es ↦ (ok decision, record w { keys = keys; outbox = es })
      ]

-- `_raise_admission_rejection`
abbrev pub admission_rejection : AdmissionOutcome → Result ApiError Unit
admission_rejection queue_full = err analysis_queue_full
admission_rejection user_busy = err analysis_user_busy
admission_rejection _ = ok tt

-- The end of a transaction: what raises rolls the tables back, and leaves Redis as it is by then.
unfoldable pub conclude :
    {A : Type 0}
    → Result ApiError Unit
    → World
    → Result ApiError A × World
    → Result ApiError A × World
conclude committed before (answer, after) = elim (do result ← answer; committed; ok result) [
  | err e ↦ (err e, record before { keys = after.keys })
  | ok result ↦ (ok result, after)
]

-- A pending job is admitted, or the request is rejected.
unfoldable pub admitted_or_rejected :
    {A : Type 0}
    → (QueueAdmission → A)
    → Result ApiError QueueAdmission × World
    → Result ApiError A × World
admitted_or_rejected answer (admission, w) =
    ((do decision ← admission; admission_rejection decision.outcome; ok (answer decision)), w)

abbrev pub raised_as : IngestionError → ApiError
raised_as (invalid_source e) = provenance_rejected
raised_as conflict = ingestion_conflict
raised_as ineligible = internal_error

module _ (redis_up : Bool) where
  -- The job of a game that was ingested.
  unfoldable pub admit_job_of :
      Draws
      → ℕ
      → Bool
      → Game
      → World
      → Result ApiError (Game × AnalysisJob × QueueAdmission) × World
  admit_job_of draws user_id queue_consent game w =
      elim (get_by_game_profile_version game.id standard 1 w.database.jobs) [
        | none ↦ (err internal_error, w)
        | some job ↦
            if status_eq job.status pending
            then admitted_or_rejected (λ decision. (game, job, decision))
                (admit_pending_job redis_up draws.event_id draws.now job.id user_id queue_consent w)
            else (ok (game, job, outcome_only active), w)
      ]

  unfoldable pub ingest_and_admit :
      Digests
      → Bool
      → Draws
      → ℕ
      → CompletedGameIngestionRequest
      → Bool
      → World
      → Result ApiError (Game × AnalysisJob × QueueAdmission) × World
  ingest_and_admit digests production draws user_id payload queue_consent w =
      elim (ingest digests production false (λ s. s) draws user_id payload (store_of w)) [
        | err e ↦ (err (raised_as e), w)
        | ok (game, s) ↦ admit_job_of draws user_id queue_consent game (with_store s w)
      ]

  unfoldable pub extend_waiting_job :
      ℕ → ℕ → ℕ → World → Result ApiError (AnalysisJob × QueueAdmission) × World
  extend_waiting_job now job_id user_id w = elim (get_owned_by_id job_id user_id w.database.jobs) [
    | none ↦ (err resource_not_found, w)
    | some job ↦
        if not redis_up
        then (err analysis_admission_unavailable, w)
        else let (extended, keys) = extend_wait job.id now w.keys in
          let left : World = record w { keys = keys } in
          elim (state job.id keys) [
            | none ↦ (err queue_action_rejected, left)
            | some current ↦
                if extended && is_waiting current.outcome
                then (ok (job, current), left)
                else (err queue_action_rejected, left)
          ]
  ]

  -- What is answered of a job that Redis does not know.
  abbrev pub unknown_job : AnalysisJobStatus → QueueAdmission
  unknown_job status =
      if status_eq status succeeded || status_eq status failed || status_eq status cancelled
      then outcome_only terminal
      else outcome_only consent_required

  unfoldable pub ingestion_status :
      ℕ → ℕ → World → Result ApiError (Game × AnalysisJob × QueueAdmission)
  ingestion_status game_id user_id w = do
    game ← or_raise (get_for_user game_id user_id w.database.games) resource_not_found
    job ←
        or_raise (get_by_game_profile_version game.id standard 1 w.database.jobs) resource_not_found
    raise_if (not redis_up) analysis_admission_unavailable
    ok (
      game,
      job,
      elim (state job.id w.keys) [ some current ↦ current | none ↦ unknown_job job.status ],
    )

module _ (redis_up : Bool) (committed : Result ApiError Unit) where
  unfoldable pub ingest_completed_game :
      Digests
      → Bool
      → Draws
      → ℕ
      → CompletedGameIngestionRequest
      → Bool
      → World
      → Result ApiError (Game × AnalysisJob × QueueAdmission) × World
  ingest_completed_game digests production draws user_id payload queue_consent w =
      conclude committed w
        (ingest_and_admit redis_up digests production draws user_id payload queue_consent w)

  unfoldable pub consent_to_queue :
      ℕ → ℕ → ℕ → ℕ → World → Result ApiError (AnalysisJob × QueueAdmission) × World
  consent_to_queue event_id now job_id user_id w =
      conclude committed w (elim (get_owned_by_id job_id user_id w.database.jobs) [
        | none ↦ (err resource_not_found, w)
        | some job ↦
            if not (status_eq job.status pending)
            then (err queue_action_rejected, w)
            else admitted_or_rejected (λ decision. (job, decision))
                (admit_pending_job redis_up event_id now job.id user_id true w)
      ])

  unfoldable pub cancel_waiting_job : ℕ → ℕ → ℕ → World → Result ApiError AnalysisJob × World
  cancel_waiting_job now job_id user_id w = elim (get_owned_by_id job_id user_id w.database.jobs) [
    | none ↦ (err resource_not_found, w)
    | some job ↦
        if not redis_up
        then (err analysis_admission_unavailable, w)
        else let (removed, keys) = cancel_waiting job.id user_id w.keys in
          let left : World = record w { keys = keys } in
          if not removed
          then (err queue_action_rejected, left)
          else elim (terminalize cancelled (codes "queue_cancelled_by_user")
              (codes "Queued analysis was cancelled.") now job.id w.database) [
                | err e ↦ (err internal_error, left)
                | ok (accepted, e) ↦
                    let (answer, after) =
                      conclude committed left (ok accepted, record left { database = e }) in
                    ((do was ← answer; raise_if (not was) queue_action_rejected; ok job), after)
              ]
  ]
