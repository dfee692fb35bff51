-- ===== src/Results.antt =====
-- The durable results of an analysis: repositories/analysis_results.py, services/analysis_results.py,
-- services/analysis_cleanup.py and db/transactions.py under apps/api/src/boardtrace_api.
pub mod Config
pub mod Rows
pub mod Transactions
pub mod Replace
pub mod Complete
pub mod Read
pub mod Replaced
pub mod Published
pub mod Authority
pub mod Keyed
pub mod Unique
pub mod Records
pub mod RoundTrip
pub mod Whole
pub mod Tests
