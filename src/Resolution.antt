-- ===== src/Resolution.antt =====
-- engine/resolution.py, the resolution gate: what a decision service's answer may decide.
pub mod Value
pub mod Answers
pub mod Bands
pub mod Call
pub mod Pack
pub mod Verdict
pub mod Clip
pub mod Resolve
mod Tests
