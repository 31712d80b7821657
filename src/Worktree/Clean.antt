-- ===== src/Worktree/Clean.antt =====
-- engine/worktree_manager.py, `clean`: which trees are reaped. A loop round gives a task its fate, and
-- the lists of the report are read off the fates.
pub mod Careful
use gitreins.Prelude.{
  Bool, true, false, ◌||◌, List, [], ◌∷◌, ◌++◌, Option, none, some, String, if◌then◌else◌, ◌==◌,
  string_eq,
}
use gitreins.Prelude.Dict.{Dict}
use gitreins.Prelude.Text.{Text, codes}
use gitreins.Worktree.State.{
  WorktreeRecord, Command, Outcome, returned, raised, ◌>>=◌, ◌>>◌, pure, Host,
}
use gitreins.Worktree.Reconcile.{reconcile_and_persist}
use gitreins.Worktree.Checkout.{is_clean}
use gitreins.Worktree.Merge.{remove_tree}

pub data Fate : Type 0 where
  removed : (branch_deleted : Bool) → Fate
  kept : (reason : Option Text) → Fate

abbrev pub is_protected : String → Bool
is_protected state = state == "stale" || state == "orphan"

abbrev pub unreadable : Text
unreadable =
    codes
      "worktree state could not be read; inspect it by hand before reaping (clean never removes a tree it cannot verify)"

abbrev pub uncommitted : Text
uncommitted =
    codes
      "worktree has uncommitted files; commit or discard them, then re-run `gitreins worktree clean`"

module _ {W : Type 0} where
  unfoldable pub ended : {A : Type 0} → Outcome A × W → Outcome (Option A) × W
  ended (returned a, w) = (returned (some a), w)
  ended (raised e, w) = (returned none, w)

  -- `try: … except WorktreeError: …`
  unfoldable pub caught : {A : Type 0} → Command W A → Command W (Option A)
  unfolding ended
  caught m w = ended (m w)

abbrev pub blocker_of : Option Bool → Option Text
blocker_of none = some unreadable
blocker_of (some true) = none
blocker_of (some false) = some uncommitted

module _ (h : Host) where
  open h use {W, F}

  -- `_failed_reap_blocker`
  unfoldable pub failed_reap_blocker : WorktreeRecord F → Command W (Option Text)
  unfolding caught is_clean
  failed_reap_blocker r = do
    there ← h.is_dir r.path
    if there then (caught (is_clean h r.path) >>= λ clean. pure (blocker_of clean)) else pure none

  abbrev pub reap_now : WorktreeRecord F → Command W Fate
  reap_now r = do deleted ← remove_tree h r; pure (removed deleted)

  abbrev pub unless_blocked : WorktreeRecord F → Option Text → Command W Fate
  unless_blocked r none = reap_now r
  unless_blocked r (some reason) = pure (kept (some reason))

  -- The body of the loop.
  unfoldable pub fate_of : Bool → WorktreeRecord F → Command W Fate
  unfolding failed_reap_blocker remove_tree
  fate_of confirm_stale_orphan r =
      if r.state == "merged"
      then reap_now r
      else if r.state == "failed"
      then (failed_reap_blocker r >>= unless_blocked r)
      else if is_protected r.state
      then if confirm_stale_orphan then reap_now r else pure (kept none)
      else pure (kept none)

  pub record Decision : Type 0 where
    pub task_id : String
    pub of : WorktreeRecord F
    pub fate : Fate

  unfoldable pub sweep : Bool → Dict (WorktreeRecord F) → Command W (List Decision)
  unfolding fate_of
  sweep confirm [] = pure []
  sweep confirm ((task_id, r) ∷ others) = do
    fate ← fate_of confirm r
    decisions ← sweep confirm others
    pure (record { task_id = task_id; of = r; fate = fate } ∷ decisions)

  -- The registry afterwards: a record that is kept for a reason notes it.
  abbrev keep_record : Decision → Dict (WorktreeRecord F) → Dict (WorktreeRecord F)
  keep_record d others = elim d.fate [
    | removed b ↦ others
    | kept none ↦ (d.task_id, d.of) ∷ others
    | kept (some reason) ↦ (d.task_id, record d.of { notes = reason ∷ [] }) ∷ others
  ]

  unfoldable pub remaining : List Decision → Dict (WorktreeRecord F)
  remaining [] = []
  remaining (d ∷ ds) = keep_record d (remaining ds)

  -- `clean`; it returns the fates, of which the report is made.
  unfoldable pub clean : Bool → Command W (List Decision)
  unfolding sweep remaining reconcile_and_persist
  clean confirm_stale_orphan = do
    records ← reconcile_and_persist h
    decisions ← sweep confirm_stale_orphan records
    h.save_registry (remaining decisions)
    pure decisions
