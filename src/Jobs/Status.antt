-- ===== src/Jobs/Status.antt =====
-- The states of a job and the allowed transitions: models/enums.py and analysis/state.py under
-- apps/api/src/boardtrace_api.
use boardtrace.Prelude.{any, Result, raise_if, Bool, true, false, not, List, [], ◌∷◌}

pub data AnalysisJobStatus : Type 0 where
  pending queued claimed running retry_scheduled succeeded failed cancelled : AnalysisJobStatus

abbrev pub status_eq : AnalysisJobStatus → AnalysisJobStatus → Bool
status_eq pending pending = true
status_eq queued queued = true
status_eq claimed claimed = true
status_eq running running = true
status_eq retry_scheduled retry_scheduled = true
status_eq succeeded succeeded = true
status_eq failed failed = true
status_eq cancelled cancelled = true
status_eq _ _ = false

-- `status in {…}`
abbrev pub status_in : AnalysisJobStatus → List AnalysisJobStatus → Bool
status_in s l = any (status_eq s) l

abbrev pub terminal_statuses : List AnalysisJobStatus
terminal_statuses = succeeded ∷ failed ∷ cancelled ∷ []

abbrev pub active_statuses : List AnalysisJobStatus
active_statuses = claimed ∷ running ∷ []

unfoldable pub allowed_transitions : AnalysisJobStatus → List AnalysisJobStatus
allowed_transitions pending = queued ∷ failed ∷ cancelled ∷ []
allowed_transitions queued = claimed ∷ failed ∷ cancelled ∷ []
allowed_transitions claimed = running ∷ failed ∷ retry_scheduled ∷ []
allowed_transitions running = succeeded ∷ failed ∷ retry_scheduled ∷ []
allowed_transitions retry_scheduled = queued ∷ failed ∷ cancelled ∷ []
allowed_transitions succeeded = []
allowed_transitions failed = []
allowed_transitions cancelled = []

pub data JobError : Type 0 where
  invalid_transition unsupported_target invalid_attempt negative_jitter : JobError

unfoldable pub validate_transition : AnalysisJobStatus → AnalysisJobStatus → Result JobError Unit
unfolding allowed_transitions
validate_transition current target =
    raise_if (not (status_in target (allowed_transitions current))) invalid_transition
