-- ===== src/Ingestion.antt =====
-- The ingestion of a finished game: provenance.py, services/ingestion.py,
-- api/v1/endpoints/ingestion.py and `AnalysisJobService` of
-- services/analysis_jobs.py, under apps/api/src/boardtrace_api.
pub mod Provenance
pub mod Service
pub mod Once
pub mod Endpoint
pub mod Admitted
mod Tests
