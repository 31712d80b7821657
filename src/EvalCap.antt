-- ===== src/EvalCap.antt =====
-- engine/eval_cap.py, what an evaluation may consume: iterations, seconds and tokens.
pub mod Format
pub mod Cap
pub mod Bounds
pub mod Replies
pub mod Tests
