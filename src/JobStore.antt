-- ===== src/JobStore.antt =====
-- engine/job_store.py, the background jobs on disk: records, liveness, leases, reaping, heartbeats.
pub mod Record
pub mod Liveness
pub mod Store
pub mod Caps
pub mod Lease
pub mod Tests
