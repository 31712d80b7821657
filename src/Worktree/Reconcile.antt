-- ===== src/Worktree/Reconcile.antt =====
-- engine/worktree_manager.py, `reconcile`: the state of each record, from git and the heartbeat.
pub mod Merged
use gitreins.Prelude.{
  Bool, true, false, not, ◌&&◌, ◌||◌, List, [], ◌∷◌, ◌++◌, Option, none, some, String,
}
use gitreins.Prelude.{if◌then◌else◌, ◌==◌, text_eq, string_eq, is_empty}
use gitreins.Prelude.Dict.{Dict}
use gitreins.Prelude.Text.{Text, codes}
use gitreins.Worktree.State.{WorktreeRecord, Command, ◌>>=◌, ◌>>◌, pure, TreeMeta, Host}
use gitreins.Worktree.Checkout.{succeeded, branch_tip}

abbrev pub find_tree : Text → List TreeMeta → Option TreeMeta
find_tree path [] = none
find_tree path (t ∷ ts) = if t.path == path then some t else find_tree path ts

abbrev pub is_point : Option Text → Text → Bool
is_point none tip = false
is_point (some commit) tip = not (is_empty commit) && tip == commit

-- `LANE_STATES`
abbrev pub is_lane_state : String → Bool
is_lane_state state =
    state == "created"
    || state == "running"
    || state == "guarding"
    || state == "judging"
    || state == "completed"
    || state == "failed"

module _ (h : Host) where
  open h use {W, F, main_root, git, resolve}

  abbrev pub merged_at : WorktreeRecord F → Option Text → Command W Bool
  merged_at r none = pure false
  merged_at r (some tip) =
      if is_point r.branch_point tip
      then pure false
      else (git main_root
            (codes "merge-base" ∷ codes "--is-ancestor" ∷ r.branch ∷ codes "HEAD" ∷ [])
          >>= λ found. pure (succeeded found))

  -- `_branch_is_merged`
  unfoldable pub branch_is_merged : WorktreeRecord F → Command W Bool
  unfolding branch_tip
  branch_is_merged r = do tip ← branch_tip h r.branch; merged_at r tip

  abbrev pub live_state : F → WorktreeRecord F → Bool → String × List Text
  live_state now r true = ("merged", [])
  live_state now r false =
      if h.stale now r.last_heartbeat
      then ("stale", codes "no heartbeat for more than 24h" ∷ [])
      else if is_lane_state r.state
      then (r.state, [])
      else ("running", [])

  abbrev pub in_tree : F → WorktreeRecord F → Bool → Command W (String × List Text)
  in_tree now r false = pure ("orphan", codes "tree directory no longer exists" ∷ [])
  in_tree now r true = do is_merged ← branch_is_merged r; pure (live_state now r is_merged)

  abbrev pub of_meta : F → WorktreeRecord F → Option TreeMeta → Command W (String × List Text)
  of_meta now r none = pure ("orphan", codes "tree missing from git worktree metadata" ∷ [])
  of_meta now r (some meta) = do there ← h.is_dir r.path; in_tree now r there

  -- A round of the loop of `reconcile`.
  unfoldable pub classify : List TreeMeta → F → WorktreeRecord F → Command W (WorktreeRecord F)
  unfolding branch_is_merged
  classify trees now r = do
    (state, notes) ← of_meta now r (find_tree (resolve r.path) trees)
    pure (record r { state = state; updated_at = now; notes = notes })

  unfoldable pub classify_all :
      List TreeMeta → F → Dict (WorktreeRecord F) → Command W (Dict (WorktreeRecord F))
  unfolding classify
  classify_all trees now [] = pure []
  classify_all trees now ((task_id, r) ∷ others) = do
    classified ← classify trees now r
    rest ← classify_all trees now others
    pure ((task_id, classified) ∷ rest)

  -- `reconcile`, and `reconcile_and_persist`
  unfoldable pub reconcile : Command W (Dict (WorktreeRecord F))
  unfolding classify_all
  reconcile = do
    records ← h.load_registry
    trees ← h.list_worktrees
    now ← h.clock
    classify_all trees now records

  unfoldable pub reconcile_and_persist : Command W (Dict (WorktreeRecord F))
  unfolding reconcile
  reconcile_and_persist = do records ← reconcile; h.save_registry records; pure records
