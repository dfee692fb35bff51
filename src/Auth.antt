-- ===== src/Auth.antt =====
-- Sessions of refresh tokens and the pairing of an extension (auth/service.py, auth/tokens.py and
-- services/pairing.py under apps/api/src/boardtrace_api).
pub mod Sessions
pub mod Families
pub mod Replay
pub mod Pairing
mod Tests
