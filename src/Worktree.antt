-- ===== src/Worktree.antt =====
-- engine/worktree_manager.py, the merge of a task's worktree behind the judge's verdict.
pub mod State
pub mod Checkout
pub mod Verdict
pub mod Reconcile
pub mod Ready
pub mod Merge
pub mod Clean
pub mod Marks
mod Tests
