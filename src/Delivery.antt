-- ===== src/Delivery.antt =====
-- The reads of a stored analysis by the player: repositories/analysis_reads.py,
-- services/analysis_reads.py, services/analysis_delivery.py, repositories/analysis_status.py and
-- services/analysis_status.py under apps/api/src/boardtrace_api.
pub mod Snapshot
pub mod Public
pub mod Status
pub mod Once
mod Tests
