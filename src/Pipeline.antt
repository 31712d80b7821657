-- ===== src/Pipeline.antt =====
-- engine/pipeline.py: the stages of a judged run, what their steps yield, which of them run, and
-- the marks of a run that is narrower than the gate.
pub mod Result
pub mod Skips
pub mod Condition
pub mod Script
pub mod Steps
pub mod Run
pub mod Refused
mod Tests
