-- ===== src/TaskManager/Methods/Laws.antt =====
-- engine/task_manager.py: what the methods leave on a store that can be read.
use gitreins.Prelude.{◌≡◌, refl, sym, ◌∙◌, subst, List, Option, none, some}
use gitreins.Prelude.{String, if◌then◌else◌, ◌==◌, string_eq, inl, inr, Bool-cases}
use gitreins.Prelude.Text.{Text}
use gitreins.Prelude.Dict.{Dict, lookup, insert, lookup-insert}
use gitreins.TaskManager.Task.{Task, Yaml, canonical}
use gitreins.TaskManager.Store.{State, Result, return, locked_load_save, with_self, pure}
use gitreins.TaskManager.Store.Merge.{over, map_option, insert-IsKeyed}
use gitreins.TaskManager.Store.Cycle.{
  IsReady, stored, merged, saved, cycle, merged-IsKeyed, lookup-merged, saved-IsReady, stored-saved,
  bind_return,
}
use gitreins.TaskManager.Methods.{create}

module _ (yaml : Yaml) where
  abbrev pub new_task : String → String → List Text → List String → String → Task
  new_task id title criteria depends_on now = record {
    id = id;
    title = title;
    criteria = criteria;
    status = "pending";
    created_at = now;
    completed_at = none;
    depends_on = depends_on;
  }

  abbrev pub put : String → Task → State yaml.Bytes → State yaml.Bytes
  put id t s = with_self s (record s.self { tasks = insert id t s.self.tasks })

  pub put-IsReady :
      (id : String) (t : Task) (s : State yaml.Bytes)
      → t.id ≡ id
      → IsReady yaml s
      → IsReady yaml (put id t s)
  put-IsReady id t s e r = record {
    dir = r.dir;
    readable = r.readable;
    clean = r.clean;
    keyed = insert-IsKeyed id t s.self.tasks e r.keyed;
  }

  -- The disk under `j` where the task `u` goes to `id` in a cycle that began in `s`.
  abbrev pub updated : String → Task → State yaml.Bytes → String → Option Task
  updated id u s j =
      if id == j
      then some (canonical u)
      else map_option canonical (over (stored yaml s.disk j) (lookup j s.self.tasks))

  -- A cycle that has put `t` in memory and writes `u`.
  unfoldable pub cycle_end : String → Task → Task → State yaml.Bytes → State yaml.Bytes
  cycle_end id t u s = saved yaml (put id t s) (insert id u (merged yaml (put id t s)))

  pub cycle_end-stored :
      (id : String) (t u : Task) (s : State yaml.Bytes) (j : String)
      → t.id ≡ id
      → u.id ≡ id
      → IsReady yaml s
      → stored yaml (cycle_end id t u s).disk j ≡ updated id u s j
  unfolding cycle_end
  cycle_end-stored id t u s j e f r =
      let r' = put-IsReady id t s e r in
      let m = merged yaml (put id t s) in
      let keyed = insert-IsKeyed id u m f (merged-IsKeyed yaml (put id t s) r') in
      stored-saved yaml (put id t s) (insert id u m) j keyed
      ∙ rw (lookup-insert id j u m) (elim (Bool-cases (id == j)) [
        | inl same ↦ rw same
        | inr other ↦
            rw (
              other,
              lookup-merged yaml (put id t s) j r',
              lookup-insert id j t s.self.tasks,
              other,
            )
      ])

  pub cycle_end-IsReady :
      (id : String) (t u : Task) (s : State yaml.Bytes)
      → t.id ≡ id
      → u.id ≡ id
      → IsReady yaml s
      → IsReady yaml (cycle_end id t u s)
  unfolding cycle_end
  cycle_end-IsReady id t u s e f r =
      let r' = put-IsReady id t s e r in
      saved-IsReady yaml (put id t s) _ r'
        (insert-IsKeyed id u (merged yaml (put id t s)) f (merged-IsKeyed yaml (put id t s) r'))

  create-eq :
      (id title : String) (criteria : List Text) (depends_on : List String) (now : String)
      (s : State yaml.Bytes)
      → IsReady yaml s
      → let t = new_task id title criteria depends_on now in
        create yaml id title criteria depends_on now s ≡ (return t, cycle_end id t t s)
  unfolding create cycle_end
  create-eq id title criteria depends_on now s r =
      let t = new_task id title criteria depends_on now in
      let r' = put-IsReady id t s refl r in
      let m = merged yaml (put id t s) in
      let insert_t = λ (tasks : Dict Task). return (insert id t tasks) in
      bind_return (locked_load_save yaml insert_t) (λ _. pure t) (put id t s)
        (saved yaml (put id t s) (insert id t m))
        (cycle yaml insert_t (put id t s) (insert id t m) r'.dir r'.readable r'.clean refl)

  -- On a readable store `create` returns the new task; the disk then holds it under its id, and
  -- under every other id what the disk held before or, where it held nothing, the process's own
  -- view of that id.
  pub create-stored :
      (id title : String) (criteria : List Text) (depends_on : List String) (now j : String)
      (s : State yaml.Bytes)
      → IsReady yaml s
      → let t = new_task id title criteria depends_on now in
        let after = create yaml id title criteria depends_on now s in
        (after.0 ≡ return t)
        × (stored yaml after.1.disk j ≡ updated id t s j)
        × IsReady yaml after.1
  create-stored id title criteria depends_on now j s r =
      let t = new_task id title criteria depends_on now in
      subst
        (λ (after : Result Task × State yaml.Bytes).
          (after.0 ≡ return t)
          × (stored yaml after.1.disk j ≡ updated id t s j)
          × IsReady yaml after.1)
        (sym (create-eq id title criteria depends_on now s r))
        (refl, cycle_end-stored id t t s j refl refl r, cycle_end-IsReady id t t s refl refl r)
