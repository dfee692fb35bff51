-- ===== src/Jobs.antt =====
-- The durable analysis job (apps/api/src/boardtrace_api/analysis/state.py, analysis/retry.py and
-- repositories/analysis_jobs.py): its states, its row, and the operations on the row.
pub mod Status
pub mod Retry
pub mod Row
pub mod Operations
pub mod Table
pub mod Steps
pub mod Lease
pub mod Delay
pub mod Accounting
pub mod Uniqueness
pub mod Publisher
pub mod Events
pub mod Drained
mod Tests
