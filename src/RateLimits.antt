-- ===== src/RateLimits.antt =====
-- Rate limits (rate_limits.py and core/rate_limit_middleware.py under
-- apps/api/src/boardtrace_api).
pub mod Counters
pub mod Dispatch
pub mod Bounds
mod Tests
