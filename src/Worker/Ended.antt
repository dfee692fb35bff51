-- ===== src/Worker/Ended.antt =====
-- The scheduled tasks end every job that they are given.
use boardtrace.Prelude.{ℕ, ◌≡◌, ◌⊎◌, true, none, some, List}
use boardtrace.Jobs.Status.{status_in, terminal_statuses}
use boardtrace.Jobs.Row.{AnalysisJob}
use boardtrace.Jobs.Table.{get_by_id, put_job}

-- The job has succeeded, failed or was cancelled.
abbrev pub IsEnded : ℕ → List AnalysisJob → Type 0
IsEnded job_id jobs =
    (row : AnalysisJob) × (get_by_id job_id jobs ≡ some row)
    × (status_in row.status terminal_statuses ≡ true)

-- A table of jobs in which one row may have ended.
abbrev OneEnded : ℕ → List AnalysisJob → List AnalysisJob → Type 0
OneEnded job_id before after =
    (after ≡ before)
    ⊎ ((job row : AnalysisJob) × (get_by_id job_id before ≡ some job)
        × (row.id ≡ job.id)
        × (status_in row.status terminal_statuses ≡ true)
        × (after ≡ put_job row before))

abbrev pub Done : List AnalysisJob → List AnalysisJob → ℕ → Type 0
Done before after k = (get_by_id k before ≡ none) ⊎ IsEnded k after
