-- ===== src/Worktree/State.antt =====
-- engine/worktree_manager.py: records, refusals, and the commands that a manager issues.
pub mod Returned
use gitreins.Prelude.{Bool, true, false, List, Option, none, some, String}
use gitreins.Prelude.Dict.{Dict}
use gitreins.Prelude.Int.{ℤ}
use gitreins.Prelude.Text.{Text}
use gitreins.Gate.Value.{Value, Runtime}

pub record WorktreeRecord (F : Type 0) : Type 0 where
  pub task_id : String
  pub path : Text
  pub branch : Text
  pub created_at : F
  pub updated_at : F
  pub last_heartbeat : F
  pub state : String
  pub tick : Option Text
  pub brief_path : Option Text
  pub main_root : Option Text
  pub branch_point : Option Text
  pub notes : List Text
  pub lane_phase : Option String
  pub lane_result : Option Value
  pub lane_command : Option (List Text)
  pub exit_code : Option ℤ
  pub output : Option Text
  pub started_at : Option F
  pub finished_at : Option F
  pub error : Option Text

-- The places at which the sources raise a WorktreeError; its message is left out.
pub data Refusal : Type 0 where
  git_failed : Refusal
  store_failed : Refusal
  invalid_task : Refusal
  no_actor : Refusal
  unregistered : Refusal
  tree_missing : Refusal
  other_main : Refusal
  unsafe_branch : Refusal
  metadata_mismatch : Refusal
  detached : Refusal
  dirty_main : Refusal
  dirty_tree : Refusal
  no_commit : Refusal
  no_branch_point : Refusal
  no_new_commits : Refusal
  no_verdict : Refusal
  failed_verdict : Refusal
  skipped_checks : Refusal
  tier1_only : Refusal
  rebase_failed : Refusal
  main_moved : Refusal
  guard_failed : Refusal
  judge_failed : Refusal
  not_forwardable : Refusal
  branch_gone : Refusal
  not_applied : Refusal
  not_reaped : Refusal

pub data Outcome {ℓ} (A : Type ℓ) : Type ℓ where
  returned : A → Outcome A
  raised : Refusal → Outcome A

-- A command runs in a world: the repository, the disk and whoever else works on them.
abbrev pub Command : Type 0 → Type 0 → Type 0
Command W A = W → Outcome A × W

module _ {W : Type 0} where
  unfoldable pub after : {A B : Type 0} → (A → Command W B) → Outcome A × W → Outcome B × W
  after f (returned a, w) = f a w
  after f (raised e, w) = (raised e, w)

  infixl 5 ◌>>=◌ ◌>>◌
  unfoldable pub ◌>>=◌ : {A B : Type 0} → Command W A → (A → Command W B) → Command W B
  unfolding after
  ◌>>=◌ m f w = after f (m w)

  abbrev pub ◌>>◌ : {A B : Type 0} → Command W A → Command W B → Command W B
  m >> k = m >>= λ _. k

  abbrev pub pure : {A : Type 0} → A → Command W A
  pure a w = (returned a, w)

  abbrev pub refuse : {A : Type 0} → Refusal → Command W A
  refuse e w = (raised e, w)

  -- `if test: raise`
  abbrev pub refuse_if : Bool → Refusal → Command W Unit
  refuse_if true e = refuse e
  refuse_if false e = pure tt

  -- `if test: …`
  abbrev pub when : Bool → Command W Unit → Command W Unit
  when true m = m
  when false m = pure tt

  -- A value that is there, or a refusal.
  abbrev pub need : {A : Type 0} → Option A → Refusal → Command W A
  need none e = refuse e
  need (some a) e = pure a

  unfoldable pub instead : {A : Type 0} → Refusal → Outcome A × W → Outcome A × W
  instead e (returned a, w) = (returned a, w)
  instead e (raised f, w) = (raised e, w)

  -- `try: … except …: raise`
  unfoldable pub or_refuse : {A : Type 0} → Command W A → Refusal → Command W A
  unfolding instead
  or_refuse m e w = instead e (m w)

pub record GitResult : Type 0 where
  pub returncode : ℤ
  pub stdout : Text

-- The events that `merge` appends to the board; with no actor the merge's own name stands there.
pub data Event : Type 0 where
  overridden : (task_id : String) (actor : Option Text) (branch commit reason : Text) → Event
  merged :
      (task_id : String) (actor : Option Text) (branch commit destination : Text)
      (policy_state : String)
      → Event

-- A worktree of `git worktree list`, by its path, with the ref of its branch.
pub record TreeMeta : Type 0 where
  pub path : Text
  pub branch : Option Text

-- What a manager works with: git as a process, the files, the verdict store, the two runners, and
-- the configuration that is read at the start. `resolve` is `Path.resolve`, `default_tree` is the
-- path that a task's worktree stands at, `append_event` writes to the board, and `stale` says that a
-- heartbeat is more than a day before a reading of the clock.
pub record Host : Type 1 where
  pub W : Type 0
  pub F : Type 0
  pub python : Runtime
  pub sha256 : Text → Text
  pub waiver_env : Text
  pub waiver_config : Option Value
  pub main_root : Text
  pub venv_name : Text
  pub valid_id : String → Bool
  pub resolve : Text → Text
  pub default_tree : String → Text
  pub git : Text → List Text → Command W GitResult
  pub is_dir : Text → Command W Bool
  pub exists : Text → Command W Bool
  pub list_worktrees : Command W (List TreeMeta)
  pub clock : Command W F
  pub stale : F → F → Bool
  pub load_registry : Command W (Dict (WorktreeRecord F))
  pub save_registry : Dict (WorktreeRecord F) → Command W Unit
  pub list_verdicts : Text → String → Command W (List Value)
  pub read_disk_verdict : Text → Command W (Option Value)
  pub guard_runner : Text → Command W Value
  pub judge_runner : Text → String → Command W Value
  pub append_event : Event → Command W Unit
