-- ===== src/Tier1Lock.antt =====
-- engine/tier1_lock.py, the lock that serialises the tier 1 tests of a repository.
pub mod Lock
pub mod Laws
pub mod Tests
