-- ===== src/Worktree/Ready.antt =====
-- engine/worktree_manager.py, `merge`: the record of the task and the checks of the two checkouts.
use gitreins.Prelude.{Bool, true, false, not, ◌&&◌, ◌||◌, [], ◌∷◌, ◌++◌, Option, none, some, String}
use gitreins.Prelude.{if◌then◌else◌, ◌==◌, text_eq, is_empty}
use gitreins.Prelude.Dict.{Dict, lookup}
use gitreins.Prelude.Text.{Text, codes}
use gitreins.Worktree.State.{
  WorktreeRecord, Command, ◌>>=◌, ◌>>◌, pure, refuse_if, need, TreeMeta, Host, unregistered,
  tree_missing, other_main, unsafe_branch, metadata_mismatch, detached, dirty_main, dirty_tree,
  no_commit, no_branch_point, no_new_commits,
}
use gitreins.Worktree.Reconcile.{find_tree, reconcile_and_persist}
use gitreins.Worktree.Checkout.{succeeded, stripped, head, branch_tip, commit_exists, is_clean}

-- `_branch_for`
abbrev pub branch_for : String → Text
branch_for task_id = codes "gitreins/task/" ++ codes task_id

-- The branch that is merged into, and the commits at the start.
pub record Ready : Type 0 where
  pub destination : Text
  pub main_head : Text
  pub source_head : Text
  pub branch_point : Text

abbrev pub is_text : Text → Option Text → Bool
is_text t none = false
is_text t (some s) = s == t

abbrev on_branch : Text → Option TreeMeta → Bool
on_branch branch none = false
on_branch branch (some t) = is_text (codes "refs/heads/" ++ branch) t.branch

module _ (h : Host) where
  open h use {W, F, python, main_root, git, resolve}

  abbrev pub blank : Option Text → Bool
  blank none = true
  blank (some actor) = is_empty (stripped h actor)

  abbrev elsewhere : Option Text → Bool
  elsewhere none = false
  elsewhere (some root) = not (is_empty root) && not (resolve root == resolve main_root)

  -- The record of the task, whose tree and branch are where they belong.
  unfoldable pub find_record : String → Command W (Dict (WorktreeRecord F) × WorktreeRecord F)
  unfolding lookup reconcile_and_persist
  find_record task_id = do
    records ← reconcile_and_persist h
    r ← need (lookup task_id records) unregistered
    let tree = resolve r.path
    there ← h.is_dir tree
    refuse_if (not there) tree_missing
    refuse_if (elsewhere r.main_root) other_main
    refuse_if
        (not (r.branch == branch_for task_id) || not (tree == resolve (h.default_tree task_id)))
        unsafe_branch
    trees ← h.list_worktrees
    refuse_if (not (on_branch r.branch (find_tree tree trees))) metadata_mismatch
    pure (records, r)

  -- `not record.branch_point or not self._commit_exists(record.branch_point)`
  abbrev pub known_commit : Option Text → Command W Bool
  known_commit none = pure false
  known_commit (some commit) = if is_empty commit then pure false else commit_exists h commit

  -- The checks of the two checkouts.
  unfoldable pub get_ready : WorktreeRecord F → Command W Ready
  unfolding is_clean head branch_tip commit_exists
  get_ready r = do
    ref ←
        git main_root (codes "symbolic-ref" ∷ codes "--quiet" ∷ codes "--short" ∷ codes "HEAD" ∷ [])
    let destination = stripped h ref.stdout
    refuse_if (not (succeeded ref) || is_empty destination) detached
    main_clean ← is_clean h main_root
    refuse_if (not main_clean) dirty_main
    tree_clean ← is_clean h (resolve r.path)
    refuse_if (not tree_clean) dirty_tree
    main ← head h main_root
    source ← branch_tip h r.branch
    main_head ← need main no_commit
    source_head ← need source no_commit
    known ← known_commit r.branch_point
    refuse_if (not known) no_branch_point
    branch_point ← need r.branch_point no_branch_point
    refuse_if (source_head == branch_point) no_new_commits
    pure (record {
      destination = destination;
      main_head = main_head;
      source_head = source_head;
      branch_point = branch_point;
    })
