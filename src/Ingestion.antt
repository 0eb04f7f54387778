-- ===== src/Ingestion.antt =====
-- The ingestion queue of app/service/ingestion_jobs.py.
pub mod State
pub mod Metadata
pub mod Queue
pub mod Worker
pub mod Finish
pub mod Calls
mod Tasks
mod Sound
mod Fencing
mod Holding
mod Attempts
mod Delay
mod Backfill
mod Tests
