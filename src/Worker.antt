-- ===== src/Worker.antt =====
-- The worker that runs an analysis job: worker.py, analysis/failures.py and the terminal services of
-- services/analysis_jobs.py, under apps/api/src/boardtrace_api.
pub mod Failures
pub mod Terminal
pub mod Run
pub mod Rows
pub mod Settled
pub mod Sweep
pub mod Ended
mod Tests
