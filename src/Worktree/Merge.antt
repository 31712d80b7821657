-- ===== src/Worktree/Merge.antt =====
-- engine/worktree_manager.py, `merge`: its two gates, the checks just before main changes, and the
-- fast-forward.
pub mod Gated
pub mod Quiet
use gitreins.Prelude.{
  Bool, true, false, not, ◌&&◌, ◌||◌, List, [], ◌∷◌, ◌++◌, Option, none, some, String,
}
use gitreins.Prelude.{if◌then◌else◌, ◌==◌, text_eq, is_empty}
use gitreins.Prelude.Dict.{Dict, lookup, remove}
use gitreins.Prelude.Text.{Text, codes}
use gitreins.Gate.Value.{Value}
use gitreins.Worktree.State.{
  WorktreeRecord, Command, Refusal, Outcome, returned, raised, ◌>>=◌, ◌>>◌, pure, refuse, refuse_if,
  when, need, or_refuse, Event, overridden, merged, TreeMeta, GitResult, Host, invalid_task,
  no_actor, unregistered, tree_missing, other_main, unsafe_branch, metadata_mismatch, detached,
  dirty_main, dirty_tree, no_commit, no_branch_point, no_new_commits, rebase_failed, main_moved,
  guard_failed, judge_failed, not_forwardable, branch_gone, not_applied, not_reaped,
}
use gitreins.Worktree.Checkout.{
  succeeded, stripped, head, branch_tip, commit_exists, is_ancestor, is_clean,
}
use gitreins.Worktree.Ready.{Ready, is_text, blank, find_record, get_ready}
use gitreins.Worktree.Verdict.{runner_passed, accept, find_verdict, fresh_verdict}

-- What `merge` returns.
pub record Merged : Type 0 where
  pub task_id : String
  pub mode : String
  pub source_commit : Text
  pub destination_commit : Text
  pub branch : Text
  pub worktree : Text

module _ (h : Host) where
  open h use {W, F, python, main_root, git, resolve}

  -- The gate before anything changes.
  unfoldable pub hold_gate : String → WorktreeRecord F → Text → Command W Value
  unfolding find_verdict accept
  hold_gate task_id r source_head = do
    verdict ← find_verdict h task_id r source_head
    accept h verdict

  -- The gate after a rebase; a verdict that is missing and one that fails are refused alike there.
  unfoldable pub fresh_gate : String → WorktreeRecord F → Text → Command W Value
  unfolding fresh_verdict accept
  fresh_gate task_id r source_head = do
    fresh ← or_refuse (h.judge_runner (resolve r.path) task_id) judge_failed
    verdict ← fresh_verdict h task_id r source_head fresh
    accept h verdict

  abbrev aborted : Text → GitResult → Command W Unit
  aborted tree rebase =
      if succeeded rebase
      then pure tt
      else git tree (codes "rebase" ∷ codes "--abort" ∷ []) >>= λ _. refuse rebase_failed

  unfoldable pub rebase_onto : WorktreeRecord F → Ready → Command W Text
  unfolding branch_tip head
  rebase_onto r ready = do
    let tree = resolve r.path
    rebase ← git tree (codes "rebase" ∷ ready.destination ∷ [])
    aborted tree rebase
    tip ← branch_tip h r.branch
    source_head ← need tip no_commit
    main ← head h main_root
    refuse_if (not (is_text ready.main_head main)) main_moved
    pure source_head

  unfoldable pub guard_gate : WorktreeRecord F → Command W Unit
  unfolding runner_passed
  guard_gate r = do
    result ← or_refuse (h.guard_runner (resolve r.path)) guard_failed
    refuse_if (not (runner_passed result)) guard_failed

  abbrev pub unless_forced : Bool → Command W Value → Command W Unit
  unless_forced true gate = pure tt
  unless_forced false gate = gate >>= λ _. pure tt

  -- Main has moved since the branch point: rebase, guard and judge again.
  unfoldable pub follow_main : Bool → String → WorktreeRecord F → Ready → Command W Unit
  unfolding rebase_onto guard_gate fresh_gate
  follow_main force task_id r ready = do
    source_head ← rebase_onto r ready
    guard_gate r
    unless_forced force (fresh_gate task_id r source_head)

  abbrev pub moved : Ready → Bool
  moved ready = not (ready.main_head == ready.branch_point)

  -- The facts that are read again before main changes; the branch's tip then.
  unfoldable pub recheck : WorktreeRecord F → Ready → Command W Text
  unfolding head is_clean is_ancestor branch_tip
  recheck r ready = do
    main ← head h main_root
    refuse_if (not (is_text ready.main_head main)) main_moved
    main_clean ← is_clean h main_root
    refuse_if (not main_clean) dirty_main
    tree_clean ← is_clean h (resolve r.path)
    refuse_if (not tree_clean) dirty_tree
    forwardable ← is_ancestor h ready.destination r.branch
    refuse_if (not forwardable) not_forwardable
    tip ← branch_tip h r.branch
    need tip branch_gone

  -- `git branch -d` of a branch that is there, and whether it was deleted.
  abbrev delete_branch : Text → Option Text → Command W Bool
  delete_branch branch none = pure false
  delete_branch branch (some tip) = do
    r ← git main_root (codes "branch" ∷ codes "-d" ∷ branch ∷ [])
    pure (succeeded r)

  -- `_remove_tree`; it returns whether the branch goes to `branches_deleted`.
  unfoldable pub remove_tree : WorktreeRecord F → Command W Bool
  unfolding branch_tip
  remove_tree r = do
    removed ← git main_root (codes "worktree" ∷ codes "remove" ∷ codes "--force" ∷ r.path ∷ [])
    pruned ← git main_root (codes "worktree" ∷ codes "prune" ∷ [])
    tip ← branch_tip h r.branch
    delete_branch r.branch tip

  -- The fast-forward; it returns only when main stands at the given commit.
  unfoldable pub apply : WorktreeRecord F → Text → Command W Text
  unfolding head
  apply r source_head = do
    applied ← git main_root (codes "merge" ∷ codes "--ff-only" ∷ codes "--no-edit" ∷ r.branch ∷ [])
    refuse_if (not (succeeded applied)) not_applied
    main ← head h main_root
    main_head ← need main not_applied
    refuse_if (not (main_head == source_head)) not_applied
    pure main_head

  abbrev policy_of : Bool → Bool → String
  policy_of force rebased = if force then "force" else if rebased then "rebased_pass" else "pass"

  -- The tree and the branch go, and the registry forgets the task.
  unfoldable pub reap : String → Dict (WorktreeRecord F) → WorktreeRecord F → Command W Unit
  unfolding remove_tree branch_tip remove
  reap task_id records r = do
    deleted ← remove_tree r
    there ← h.exists (resolve r.path)
    refuse_if there not_reaped
    tip ← branch_tip h r.branch
    refuse_if (not (is_none tip)) not_reaped
    h.save_registry (remove task_id records)
    where
      is_none : Option Text → Bool
      is_none none = true
      is_none (some t) = false

  module _ (force : Bool) (actor : Option Text) (reason : Text) (task_id : String) where
    abbrev merged_event : WorktreeRecord F → Ready → Text → Event
    merged_event r ready commit =
        merged task_id actor r.branch commit ready.destination (policy_of force (moved ready))

    abbrev merged_result : WorktreeRecord F → Ready → Text → Merged
    merged_result r ready commit = record {
      task_id = task_id;
      mode = if moved ready then "rebased-fast-forward" else "fast-forward";
      source_commit = commit;
      destination_commit = commit;
      branch = r.branch;
      worktree = resolve r.path;
    }

    -- From the facts that are read again to the end.
    unfoldable pub finish : Dict (WorktreeRecord F) → WorktreeRecord F → Ready → Command W Merged
    unfolding recheck apply reap
    finish records r ready = do
      tip ← recheck r ready
      when force (h.append_event (overridden task_id actor r.branch tip reason))
      source_head ← apply r tip
      h.append_event (merged_event r ready source_head)
      reap task_id records r
      pure (merged_result r ready source_head)

    unfoldable pub gates : WorktreeRecord F → Ready → Command W Unit
    unfolding hold_gate follow_main
    gates r ready = do
      unless_forced force (hold_gate task_id r ready.source_head)
      when (moved ready) (follow_main force task_id r ready)

    unfoldable pub merge_from : Dict (WorktreeRecord F) × WorktreeRecord F → Command W Merged
    unfolding get_ready gates finish
    merge_from (records, r) = do ready ← get_ready h r; gates r ready; finish records r ready

    -- `merge`
    unfoldable pub merge : Command W Merged
    unfolding find_record merge_from
    merge = do
      refuse_if (not (h.valid_id task_id)) invalid_task
      refuse_if (force && blank h actor) no_actor
      found ← find_record h task_id
      merge_from found
