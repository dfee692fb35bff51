-- ===== src/Worker/Tests.antt =====
-- A job of two moves that the worker is given, with an engine that crashes at the last position.
use boardtrace.Prelude.{ok, codes, ℕ, ◌≡◌, refl, Bool, true, false, none, some, [], ◌∷◌, arith}
use boardtrace.FullGame.Tests.{counting, crashing, budget}
use boardtrace.Admission.Scripts.{empty}
use boardtrace.Jobs.Status.{queued}
use boardtrace.Jobs.Row.{AnalysisJob}
use boardtrace.Jobs.Table.{get_by_id}
use boardtrace.Results.Config.{as_json}
use boardtrace.Results.Tests.{numbered, held, before_it, configuration}
use boardtrace.Worker.Failures.{engine_error}
use boardtrace.Worker.Run.{World, Surroundings, run_analysis}
use boardtrace.Worker.Rows.{IsSettled}
use boardtrace.Worker.Settled.{run_analysis-IsSettled}

abbrev waiting : AnalysisJob
waiting = record held {
  status = queued;
  worker_id = none;
  lease_expires_at = none;
  heartbeat_at = none;
}

abbrev world : World
world = record { database = record before_it { jobs = waiting ∷ [] }; outbox = []; keys = empty }

abbrev surroundings : Surroundings
surroundings = record {
  uuid5 = numbered;
  chess = counting;
  engine = crashing;
  budget = budget;
  configuration = as_json configuration;
  session = λ _. engine_error;
  lease_seconds = 60;
  retry_enabled = false;
  redis_up = true;
  claim_commits = true;
  start_commits = true;
  commit = ok tt;
  settle_commits = true;
  claimed_at = 10;
  started_at = 11;
  checked_at = 12;
  analysis_started_at = 13;
  analysis_finished_at = 14;
  failed_at = 15;
  event_id = 1;
  correlation_id = 2;
}

job_waits : get_by_id 1 world.database.jobs ≡ some waiting
unfolding get_by_id
job_waits = refl

run_analysis-IsSettled_example :
    IsSettled 1 (run_analysis surroundings 1 (codes "worker-a") world).1.database
run_analysis-IsSettled_example =
    run_analysis-IsSettled surroundings 1 (codes "worker-a") world waiting job_waits refl
      (omega arith) (omega arith) refl refl refl

-- The lease of the job has run out.
abbrev lost_world : World
lost_world = record world { database = before_it }

abbrev every_job : ℕ → Bool
every_job _ = true
