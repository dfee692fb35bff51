-- ===== src/Jobs/Row.antt =====
-- The row of a job and of its outbox (class AnalysisJob and class AnalysisJobOutbox of
-- apps/api/src/boardtrace_api/models/models.py). Identifiers are numbers that are only compared;
-- instants are microseconds; texts are lists of code points.
use boardtrace.Prelude.{Text, text_eq, ℕ, ◌*◌, Bool, false, Option, none, some}
use boardtrace.Jobs.Status.{AnalysisJobStatus}

pub record AnalysisJob : Type 0 where
  pub id : ℕ
  pub game_id : ℕ
  pub owner_user_id : ℕ
  pub status : AnalysisJobStatus
  pub attempts : ℕ
  pub attempt_count : ℕ
  pub max_attempts : ℕ
  pub analysis_profile : Text
  pub analysis_version : ℕ
  pub queued_at : Option ℕ
  pub claimed_at : Option ℕ
  pub lease_expires_at : Option ℕ
  pub lease_generation : ℕ
  pub heartbeat_at : Option ℕ
  pub started_at : Option ℕ
  pub finished_at : Option ℕ
  pub completed_at : Option ℕ
  pub failed_at : Option ℕ
  pub next_attempt_at : Option ℕ
  pub last_error_code : Option Text
  pub last_error_message : Option Text
  pub worker_id : Option Text
  pub queue_message_id : Option Text
  pub admission_correlation_id : ℕ
  pub created_at : ℕ

pub data OutboxStatus : Type 0 where
  outbox_pending outbox_published : OutboxStatus

-- `event_type` and `payload_version` hold one value each in every row that the program writes.
pub record AnalysisJobOutbox : Type 0 where
  pub id : ℕ
  pub analysis_job_id : ℕ
  pub delivery_generation : ℕ
  pub correlation_id : ℕ
  pub status : OutboxStatus
  pub attempt_count : ℕ
  pub next_attempt_at : Option ℕ
  pub published_at : Option ℕ
  pub last_error_code : Option Text
  pub created_at : ℕ

-- `timedelta(seconds=s)`
abbrev pub seconds : ℕ → ℕ
seconds s = s * 1000000

-- `column == value` on a column that may be null.
abbrev pub text_is : Option Text → Text → Bool
text_is none w = false
text_is (some v) w = text_eq v w
