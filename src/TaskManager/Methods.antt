-- ===== src/TaskManager/Methods.antt =====
-- engine/task_manager.py, the public methods of `TaskManager`. The clock is an argument of the
-- methods that read it.
pub mod Laws
pub mod Finish
pub mod Shared
use gitreins.Prelude.{
  ℕ, ◌≡◌, refl, Bool, true, false, not, ◌&&◌, ◌||◌, List, [], ◌∷◌, Option, none, some,
}
use gitreins.Prelude.{String, if◌then◌else◌, ◌==◌, string_eq, is_empty, keep}
use gitreins.Prelude.Text.{Text}
use gitreins.Prelude.Dict.{Dict, insert, lookup, remove, values}
use gitreins.TaskManager.Task.{Task, Yaml}
use gitreins.TaskManager.Store.{
  Manager, State, Result, return, raise, key_error, dependency_error, Action, Mutation, pure, throw,
  ◌>>=◌, ◌>>◌, locked_load_save, load, has,
}

abbrev pub is_complete : Option Task → Bool
is_complete none = false
is_complete (some t) = t.status == "complete"

-- The loop of `check_dependencies`.
unfoldable pub blocked_by : Dict Task → Option Task → List String
blocked_by tasks none = []
blocked_by tasks (some t) = keep (λ d. not (is_complete (lookup d tasks))) t.depends_on

-- The closures of `_apply_status`, `_apply_complete` and `delete`.
abbrev change : String → Option Task → (Task → Task) → Mutation
change id none f tasks = raise (key_error id)
change id (some t) f tasks = return (insert id (f t) tasks)

unfoldable pub apply_change : String → (Task → Task) → Mutation
apply_change id f tasks = change id (lookup id tasks) f tasks

abbrev pub started : Task → Task
started t = record t { status = "in_progress" }

abbrev pub completed : String → Task → Task
completed now t = record t { status = "complete"; completed_at = some now }

module _ (yaml : Yaml) where
  -- `self._tasks.get(id)`
  abbrev get_task : String → Action yaml.Bytes (Option Task)
  get_task id s = (return (lookup id s.self.tasks), s)

  abbrev put_task : String → Task → Action yaml.Bytes (Unit {0})
  put_task id t s =
      (return tt, record s { self = record s.self { tasks = insert id t s.self.tasks } })

  abbrev load_missing : Option Task → Action yaml.Bytes (Unit {0})
  load_missing none = locked_load_save yaml return
  load_missing (some t) = pure tt

  -- A locked load when the id is unknown in memory.
  load_if_missing : String → Action yaml.Bytes (Unit {0})
  load_if_missing id s = load_missing (lookup id s.self.tasks) s

  -- `create`; an absent `depends_on` is the empty list.
  pub create : String → String → List Text → List String → String → Action yaml.Bytes Task
  create id title criteria depends_on now = do
    let task : Task = record {
      id = id;
      title = title;
      criteria = criteria;
      status = "pending";
      created_at = now;
      completed_at = none;
      depends_on = depends_on;
    }
    put_task id task
    locked_load_save yaml (λ tasks. return (insert id task tasks))
    pure task

  -- `start`, once the task was looked up.
  start_found : String → Option Task → Action yaml.Bytes Task
  start_found id none = throw (key_error id)
  start_found id (some task) = do
    put_task id (started task)
    locked_load_save yaml (apply_change id started)
    pure (started task)

  pub start : String → Action yaml.Bytes Task
  unfolding load_if_missing start_found
  start id = do load_if_missing id; found ← get_task id; start_found id found

  abbrev refuse_blocked : List String → Action yaml.Bytes (Unit {0})
  refuse_blocked [] = pure tt
  refuse_blocked (d ∷ ds) = throw (dependency_error (d ∷ ds))

  -- The dependency check of `complete`; it reads the tasks in memory.
  check_blocked : Bool → String → Action yaml.Bytes (Unit {0})
  check_blocked true id s = pure tt s
  check_blocked false id s = refuse_blocked (blocked_by s.self.tasks (lookup id s.self.tasks)) s

  abbrev gets : {A : Type 0} → (State yaml.Bytes → A) → Action yaml.Bytes A
  gets f s = (return (f s), s)

  -- Whether the reload of a cycle replaces the object that the view holds for the task. Where it
  -- does not, `complete` returns the object that its `mutate` stamps again.
  unfoldable pub replaces : String → State yaml.Bytes → Bool
  replaces id s = s.disk.dir && has (lookup id (load yaml [] s).0)

  unfoldable pub returned_task : Bool → String → String → Task → Task
  returned_task true now later task = completed now task
  returned_task false now later task = completed later (completed now task)

  -- The end of `complete`. The clock is read for the task in memory and again for the task on disk.
  complete_held : String → String → String → Task → Action yaml.Bytes Task
  unfolding returned_task replaces
  complete_held id now later task = do
    put_task id (completed now task)
    replaced ← gets (replaces id)
    locked_load_save yaml (apply_change id (completed later))
    pure (returned_task replaced now later task)

  -- `complete`, once the task was looked up.
  complete_found : String → Bool → String → String → Option Task → Action yaml.Bytes Task
  complete_found id force now later none = throw (key_error id)
  complete_found id force now later (some task) = do
    check_blocked force id
    complete_held id now later task

  pub complete : String → Bool → String → String → Action yaml.Bytes Task
  unfolding load_if_missing complete_found check_blocked complete_held
  complete id force now later = do
    load_if_missing id
    found ← get_task id
    complete_found id force now later found

  delete_found : String → Option Task → Action yaml.Bytes (Unit {0})
  delete_found id none = throw (key_error id)
  delete_found id (some task) = locked_load_save yaml (λ tasks. return (remove id tasks))

  pub delete : String → Action yaml.Bytes (Unit {0})
  unfolding load_if_missing delete_found
  delete id = do load_if_missing id; found ← get_task id; delete_found id found

-- `get`, `all_tasks`, and `list_tasks`, which keeps every task for no status or an empty one.
unfoldable pub get : Dict Task → String → Option Task
get tasks id = lookup id tasks

unfoldable pub all_tasks : Dict Task → List Task
all_tasks tasks = values tasks

unfoldable pub list_tasks : Dict Task → Option String → List Task
list_tasks tasks none = values tasks
list_tasks tasks (some status) =
    if status == "" then values tasks else keep (λ t. t.status == status) (values tasks)
