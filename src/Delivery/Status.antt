-- ===== src/Delivery/Status.antt =====
-- The status of an analysis that a player may poll: repositories/analysis_status.py and
-- services/analysis_status.py under apps/api/src/boardtrace_api.
use boardtrace.Prelude.{
  ◌==◌, if◌then◌else◌, is_some, find, ℕ, Bool, true, false, ◌&&◌, Option, none, some,
}
use boardtrace.FullGame.Replay.{
  GameStatus, finished, deep_analysis_running, analysis_available, game_failed,
}
use boardtrace.Jobs.Status.{
  AnalysisJobStatus, pending, queued, claimed, running, retry_scheduled, succeeded, failed,
  cancelled, status_eq,
}
use boardtrace.Jobs.Row.{AnalysisJob}
use boardtrace.Results.Rows.{Game, Database, game_status_eq, get_game}
use boardtrace.Results.Complete.{current_job}
use boardtrace.Delivery.Snapshot.{run_of_job}

pub record PublicReadinessAuthority : Type 0 where
  pub game_id : ℕ
  pub game_status : GameStatus
  pub job_status : Option AnalysisJobStatus
  pub has_current_complete_run : Bool

pub data PublicAnalysisReadiness : Type 0 where
  readiness_queued readiness_running readiness_available : PublicAnalysisReadiness
  readiness_failed readiness_unavailable : PublicAnalysisReadiness

pub record PublicPollingGuidance : Type 0 where
  pub should_retry : Bool
  pub retry_after_ms : Option ℕ
  pub minimum_interval_ms : ℕ
  pub maximum_interval_ms : ℕ

pub record PublicAnalysisStatusResponse : Type 0 where
  pub game_id : ℕ
  pub readiness : PublicAnalysisReadiness
  pub result_available : Bool
  pub polling : PublicPollingGuidance

-- The statuses of a game that has a status of analysis.
abbrev has_status : GameStatus → Bool
has_status finished = true
has_status deep_analysis_running = true
has_status analysis_available = true
has_status game_failed = true
has_status _ = false

abbrev pub visible : Game → ℕ → Bool
visible game owner_user_id =
    game.user_id == owner_user_id && is_some game.completion_verified_at && has_status game.status

abbrev pub authority_of : Game → Option AnalysisJob → Database → PublicReadinessAuthority
authority_of game none d = record {
  game_id = game.id;
  game_status = game.status;
  job_status = none;
  has_current_complete_run = false;
}
authority_of game (some job) d = record {
  game_id = game.id;
  game_status = game.status;
  job_status = some job.status;
  has_current_complete_run =
      status_eq job.status succeeded && is_some (find (run_of_job job game.id) d.runs);
}

unfoldable pub get_owner_readiness_authority : ℕ → ℕ → Database → Option PublicReadinessAuthority
get_owner_readiness_authority game_id owner_user_id d = elim (get_game game_id d.games) [
  | none ↦ none
  | some game ↦
      if visible game owner_user_id
      then some (authority_of game (current_job game_id d.jobs) d)
      else none
]

unfoldable pub readiness_of : AnalysisJobStatus → Bool → GameStatus → PublicAnalysisReadiness
readiness_of pending has_run game_status = readiness_queued
readiness_of queued has_run game_status = readiness_queued
readiness_of claimed has_run game_status = readiness_running
readiness_of running has_run game_status = readiness_running
readiness_of retry_scheduled has_run game_status = readiness_queued
readiness_of failed has_run game_status = readiness_failed
readiness_of cancelled has_run game_status = readiness_failed
readiness_of succeeded has_run game_status =
    if has_run && game_status_eq game_status analysis_available
    then readiness_available
    else readiness_failed

unfoldable pub map_public_readiness : PublicReadinessAuthority → PublicAnalysisReadiness
map_public_readiness a = elim a.job_status [
  | none ↦ readiness_unavailable
  | some status ↦ readiness_of status a.has_current_complete_run a.game_status
]

abbrev pub is_retry : Option AnalysisJobStatus → Bool
is_retry none = false
is_retry (some status) = status_eq status retry_scheduled

abbrev pub retry_after : Bool → PublicAnalysisReadiness → Option ℕ
retry_after true readiness = some 5000
retry_after false readiness_queued = some 2000
retry_after false readiness_running = some 3000
retry_after false _ = none

-- `_polling_guidance`; the factor of the back-off is the constant 1.5.
unfoldable pub polling_guidance :
    PublicAnalysisReadiness → Option AnalysisJobStatus → PublicPollingGuidance
polling_guidance readiness status = record {
  should_retry = is_some (retry_after (is_retry status) readiness);
  retry_after_ms = retry_after (is_retry status) readiness;
  minimum_interval_ms = 2000;
  maximum_interval_ms = 15000;
}

abbrev pub is_available : PublicAnalysisReadiness → Bool
is_available readiness_available = true
is_available _ = false

abbrev pub status_of : PublicReadinessAuthority → PublicAnalysisStatusResponse
status_of authority = record {
  game_id = authority.game_id;
  readiness = map_public_readiness authority;
  result_available = is_available (map_public_readiness authority);
  polling = polling_guidance (map_public_readiness authority) authority.job_status;
}

-- `read_for_owner`; none stands for the error that the status was not found.
unfoldable pub read_status : ℕ → ℕ → Database → Option PublicAnalysisStatusResponse
read_status game_id requesting_user_id d =
    elim (get_owner_readiness_authority game_id requesting_user_id d) [
      | none ↦ none
      | some authority ↦ some (status_of authority)
    ]
