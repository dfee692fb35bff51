-- ===== src/Admission.antt =====
-- The admission of jobs to the bounded analysis queue
-- (apps/api/src/boardtrace_api/queue_admission.py): two jobs are active, three wait in order.
pub mod Redis
pub mod Scripts
pub mod Invariant
pub mod Enter
pub mod Leave
pub mod Complete
pub mod Calls
pub mod Order
pub mod Deadlines
pub mod Line
pub mod Refinement
mod Tests
