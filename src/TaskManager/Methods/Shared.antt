-- ===== src/TaskManager/Methods/Shared.antt =====
-- engine/task_manager.py, two processes at one store: completions of different tasks both land, and
-- a deletion by one process is undone by the next write of another that still has the task in view.
use gitreins.Prelude.{◌≡◌, ◌≢◌, refl, sym, ◌∙◌, Bool, false, List, Option, none, some}
use gitreins.Prelude.{String, arith, ◌==◌, string_eq}
use gitreins.Prelude.Text.{Text}
use gitreins.Prelude.Dict.{lookup}
use text.Mathlib.TextEquality.{eq_iff}
use text.Mathlib.TextPositions.{eq_refl}
use gitreins.TaskManager.Task.{Task, Yaml, canonical}
use gitreins.TaskManager.Store.{Manager, Disk, State}
use gitreins.TaskManager.Store.Cycle.{IsReady, stored}
use gitreins.TaskManager.Methods.{create, complete, completed}
use gitreins.TaskManager.Methods.Laws.{updated, create-stored}
use gitreins.TaskManager.Methods.Finish.{MayComplete, complete-stored, latest}

eq_false : (a b : String) → a ≢ b → (a == b) ≡ false
eq_false a b h = ground (arith, eq_iff a b)

module _ (yaml : Yaml) where
  -- A process with the view `m` at the disk `d`.
  abbrev pub at : Manager → Disk yaml.Bytes → State yaml.Bytes
  at m d = record { self = m; disk = d }

  abbrev pub HasStatus : String → Option Task → Type 0
  HasStatus status o = (t : Task) × (o ≡ some t) × (t.status ≡ status)

  updated_self :
      (id : String) (u : Task) (s : State yaml.Bytes) → updated yaml id u s id ≡ some (canonical u)
  updated_self id u s = rw (eq_refl id)

  updated_other :
      (id j : String) (u v : Task) (s : State yaml.Bytes)
      → id ≢ j
      → stored yaml s.disk j ≡ some v
      → updated yaml id u s j ≡ some (canonical v)
  updated_other id j u v s ne has = rw (eq_false id j ne, has)

  -- Two processes with views of their own, both older than the other's write, complete different
  -- tasks one after the other: afterwards the disk holds both tasks as complete.
  pub complete_both :
      (a b now later now' later' : String) (force force' : Bool) (p q : Manager)
      (d : Disk yaml.Bytes) (ta tb : Task)
      → a ≢ b
      → IsReady yaml (at p d)
      → IsReady yaml (at q d)
      → lookup a p.tasks ≡ some ta
      → lookup b q.tasks ≡ some tb
      → MayComplete yaml force a (at p d)
      → MayComplete yaml force' b (at q d)
      → let first = (complete yaml a force now later (at p d)).1 in
        let second = (complete yaml b force' now' later' (at q first.disk)).1 in
        HasStatus "complete" (stored yaml second.disk a)
        × HasStatus "complete" (stored yaml second.disk b)
  complete_both a b now later now' later' force force' p q d ta tb ne rp rq ha hb mp mq =
      let first = (complete yaml a force now later (at p d)).1 in
      let (_, here, r1) = complete-stored yaml a now later a force ta (at p d) rp ha mp in
      let ready : IsReady yaml (at q first.disk) = record {
        dir = r1.dir;
        readable = r1.readable;
        clean = rq.clean;
        keyed = rq.keyed;
      } in
      let two = λ (j : String).
        complete-stored yaml b now' later' j force' tb (at q first.disk) ready hb mq in
      let ua = completed later (latest (stored yaml d a) (completed now ta)) in
      let ub = completed later' (latest (stored yaml first.disk b) (completed now' tb)) in
      let on_disk = here ∙ updated_self a ua (at p d) in
      let kept = updated_other b a ub (canonical ua) (at q first.disk) (λ e. ne (sym e)) on_disk in
      (
        (canonical (canonical ua), (two a).1 ∙ kept, refl),
        (canonical ub, (two b).1 ∙ updated_self b ub (at q first.disk), refl),
      )

  -- A task that is gone from the disk, since another process deleted it, but is still in a process's
  -- view comes back to the disk when that process creates any other task.
  pub create_resurrects :
      (id title : String) (criteria : List Text) (depends_on : List String) (now gone : String)
      (t : Task) (s : State yaml.Bytes)
      → IsReady yaml s
      → id ≢ gone
      → stored yaml s.disk gone ≡ none
      → lookup gone s.self.tasks ≡ some t
      → stored yaml (create yaml id title criteria depends_on now s).1.disk gone
        ≡ some (canonical t)
  create_resurrects id title criteria depends_on now gone t s r ne deleted seen =
      (create-stored yaml id title criteria depends_on now gone s r).1
      ∙ rw (eq_false id gone ne, deleted, seen)
