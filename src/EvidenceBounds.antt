-- ===== src/EvidenceBounds.antt =====
-- engine/evidence_bounds.py, the bound on recorded evidence that keeps both of its ends.
pub mod Lines
pub mod Marker
pub mod Bound
pub mod Tests
