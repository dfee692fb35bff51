-- ===== src/Worker/Failures.antt =====
-- How a failure of the worker is judged: `classify_failure` of analysis/failures.py under
-- apps/api/src/boardtrace_api. An exception is the class that the tests tell apart.
use boardtrace.Prelude.{Text, codes, Bool, true, false, Option, none, some}
use boardtrace.FullGame.Evaluation.{FullGameFailureCode, game_budget_exhausted}
use boardtrace.FullGame.Analyzer.{AnalysisError, input_error, session_error, analysis_failed}
use boardtrace.Results.Replace.{
  StoreError, run_authority, completion_lost, missing_position, generation_not_positive,
  times_reversed, hook_failed, commit_failed, contract_error, transition_error,
}

-- FullGameAnalysisFailed with the code of its failure, the two errors of Stockfish, those of the
-- infrastructure, those of a request, LookupError, and every other exception.
pub data WorkerException : Type 0 where
  analysis_failure : Option FullGameFailureCode → WorkerException
  engine_error infrastructure_error request_error lookup_error other_error : WorkerException

pub record FailureDecision : Type 0 where
  pub retryable : Bool
  pub code : Text
  pub message : Text

abbrev engine_decision : FailureDecision
engine_decision = record {
  retryable = true;
  code = codes "engine_execution_failed";
  message = codes "Engine execution failed";
}

unfoldable pub classify_failure : WorkerException → FailureDecision
classify_failure (analysis_failure (some game_budget_exhausted)) = record {
  retryable = false;
  code = codes "analysis_budget_exhausted";
  message = codes "Analysis budget exhausted";
}
classify_failure (analysis_failure _) = engine_decision
classify_failure engine_error = engine_decision
classify_failure infrastructure_error = record {
  retryable = true;
  code = codes "temporary_infrastructure_error";
  message = codes "Temporary infrastructure error";
}
classify_failure request_error = record {
  retryable = false;
  code = codes "invalid_job_request";
  message = codes "Job request could not be processed";
}
classify_failure lookup_error = record {
  retryable = false;
  code = codes "job_dependency_missing";
  message = codes "Required job data is unavailable";
}
classify_failure other_error = record {
  retryable = true;
  code = codes "unexpected_worker_error";
  message = codes "Unexpected worker error";
}

-- What the analyzer raises, where `session` says what the start of the engine has raised.
unfoldable pub analysis_exception : (Text → WorkerException) → AnalysisError → WorkerException
analysis_exception session (input_error e) = request_error
analysis_exception session (session_error name) = session name
analysis_exception session (analysis_failed r) =
    analysis_failure (elim r.failure [ none ↦ none | some f ↦ some f.code ])

-- What persisting raises: a PermissionError, a ValueError, a KeyError, or an error of the database.
unfoldable pub store_exception : StoreError → WorkerException
store_exception run_authority = other_error
store_exception completion_lost = other_error
store_exception missing_position = lookup_error
store_exception generation_not_positive = request_error
store_exception times_reversed = request_error
store_exception hook_failed = infrastructure_error
store_exception commit_failed = infrastructure_error
store_exception (contract_error e) = request_error
store_exception (transition_error e) = request_error
