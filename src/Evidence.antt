-- ===== src/Evidence.antt =====
-- Evidence and citations: app/manager/evidence.py, with the contexts of
-- app/entity/bo/contracts.py.
pub mod Contracts
pub mod State
pub mod Registry
pub mod Knowledge
pub mod Citations
pub mod Snapshot
pub mod Operations
mod Sets
mod Accounting
mod Pages
mod Contexts
mod History
mod RoundTrip
mod Cited
mod Tests
