-- ===== src/Worker/Sweep.antt =====
-- The scheduled tasks of the worker: `_terminalize_external_failure`, `_expire_waiting_jobs` and
-- `_sweep_lifecycle` of worker.py under apps/api/src/boardtrace_api. No other session writes
-- meanwhile; whether Redis can be reached, and whether the transaction that ends a job commits, are
-- parameters. What was committed before an exception stays.
use boardtrace.Prelude.{
  if◌then◌else◌, Result, ok, err, ◌>>=◌, Text, codes, ℕ, ◌+◌, Bool, true, false, not, none, some,
  List, [], ◌∷◌,
}
use boardtrace.Admission.Scripts.{expire_waiting}
use boardtrace.Jobs.Status.{failed, JobError}
use boardtrace.Jobs.Table.{get_by_id}
use boardtrace.Jobs.Publisher.{one_more, list_expired_active_jobs}
use boardtrace.Worker.Terminal.{terminalize}
use boardtrace.Worker.Run.{World, release_capacity}

abbrev pub external_message : Text
external_message = codes "Analysis terminated before a valid result was committed."

pub data SweepError : Type 0 where
  admission_unavailable end_not_committed : SweepError
  job_error : JobError → SweepError

-- The number of the jobs that were ended, with one that may have been.
abbrev pub counting_one : Bool → Result SweepError ℕ × World → Result SweepError ℕ × World
counting_one accepted (answer, w) = ((do n ← answer; ok (one_more accepted n)), w)

abbrev pub adding : ℕ → Result SweepError ℕ × World → Result SweepError ℕ × World
adding waited (answer, w) = ((do n ← answer; ok (waited + n)), w)

module _ (redis_up : Bool) (commits : ℕ → Bool) (event_id now : ℕ) where
  -- Was the job ended, and its place in the queue released?
  unfoldable pub terminalize_external_failure : ℕ → Text → World → Result SweepError Bool × World
  terminalize_external_failure job_id code w = elim (get_by_id job_id w.database.jobs) [
    | none ↦ (ok false, w)
    | some job ↦ elim (terminalize failed code external_message now job_id w.database) [
      | err e ↦ (err (job_error e), w)
      | ok (accepted, d) ↦
          if not (commits job_id)
          then (err end_not_committed, w)
          else if not accepted
          then (ok false, record w { database = d })
          else (
            ok true,
            release_capacity redis_up event_id now job_id job.owner_user_id
                (record w { database = d }),
          )
    ]
  ]

  -- A loop over jobs that ends each, with the number of those that it has ended.
  unfoldable pub terminalize_all : Text → List ℕ → World → Result SweepError ℕ × World
  terminalize_all code [] w = (ok 0, w)
  terminalize_all code (job_id ∷ ids) w =
      let (answer, left) = terminalize_external_failure job_id code w in
      let rest = terminalize_all code ids left in
      elim answer [ err e ↦ (err e, left) | ok accepted ↦ counting_one accepted rest ]

  -- `_expire_waiting_jobs`, at an instant in seconds.
  unfoldable pub expire_waiting_jobs : ℕ → World → Result SweepError ℕ × World
  expire_waiting_jobs now_epoch w =
      if not redis_up
      then (err admission_unavailable, w)
      else let (overdue, keys) = expire_waiting now_epoch w.keys in
        terminalize_all (codes "queue_wait_expired") overdue (record w { keys = keys })

  -- `_sweep_lifecycle`
  unfoldable pub sweep_lifecycle : ℕ → World → Result SweepError ℕ × World
  sweep_lifecycle now_epoch w =
      let (answer, left) = expire_waiting_jobs now_epoch w in
      elim answer [
        | err e ↦ (err e, left)
        | ok waited ↦ adding waited (
            terminalize_all (codes "worker_lease_expired")
              (list_expired_active_jobs now 100 left.database.jobs) left)
      ]
