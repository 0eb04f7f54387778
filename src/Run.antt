-- ===== src/Run.antt =====
-- The durable runs of app/service/runs.py.
pub mod State
pub mod Journal
pub mod Owner
pub mod Answer
pub mod Checkpoint
pub mod Resume
pub mod Operation
pub mod Claim
pub mod Calls
pub mod Fencing
pub mod Stable
pub mod JournalInvariant
pub mod Operations
pub mod OperationInvariant
pub mod ExactlyOnce
pub mod Replay
pub mod Taking
pub mod Superseded
pub mod Terminal
pub mod Store
pub mod Queue
pub mod Idle
pub mod Oldest
pub mod Chosen
pub mod Dispatch
pub mod Dispatched
pub mod Ended
pub mod Rows
pub mod Exclusive
pub mod Creating
pub mod StoreHistory
pub mod Capacity
pub mod Firsts
pub mod Retrying
pub mod CreateAgain
pub mod Invoke
pub mod CalledOnce
mod Tests
mod StoreTests
pub mod Receipts
pub mod Resuming
