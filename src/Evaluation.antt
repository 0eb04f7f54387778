-- ===== src/Evaluation.antt =====
-- The evaluation queue of app/service/evaluation_jobs.py.
pub mod State
pub mod Jobs
pub mod Calls
mod Fencing
mod Settled
mod Progress
mod Tests
