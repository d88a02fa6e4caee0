-- ===== src/Task.antt =====
-- The task pipeline: alerts of the session become events, and events become snapshots.
pub mod Event
pub mod Snapshot
pub mod Store
pub mod Alert
pub mod Ingest
