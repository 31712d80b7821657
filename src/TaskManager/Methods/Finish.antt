-- ===== src/TaskManager/Methods/Finish.antt =====
-- engine/task_manager.py, `complete` and `start`: every branch, and two processes at one store.
use gitreins.Prelude.{
  ◌≡◌, ◌≢◌, refl, sym, ◌∙◌, ap, subst, Bool, true, false, ◌&&◌, List, [], ◌∷◌, Option, none, some,
}
use gitreins.Prelude.{String, string_eq, ◌⊎◌, inl, inr, Bool-cases, keep, not, All, ◌↔◌}
use gitreins.Prelude.Dict.{Dict, lookup, insert, lookup-insert_self}
use gitreins.TaskManager.Task.{Task, Yaml}
use gitreins.TaskManager.Store.{
  State, Result, return, raise, Error, dependency_error, locked_load_save, ◌>>=◌, pure, has, load,
}
use gitreins.TaskManager.Store.Merge.{over, lookup-id}
use gitreins.TaskManager.Store.Cycle.{
  IsReady, stored, merged, cycle, merged-IsKeyed, lookup-merged, bind_return, bind_raise,
  load_readable,
}
use gitreins.TaskManager.Methods.{
  is_complete, start, complete, apply_change, change, started, completed, blocked_by,
  load_if_missing, load_missing, refuse_blocked, get_task, complete_found, start_found,
  check_blocked, returned_task, replaces, complete_held,
}
use gitreins.TaskManager.Methods.Laws.{
  put, put-IsReady, cycle_end, updated, cycle_end-stored, cycle_end-IsReady,
}

abbrev pub latest : Option Task → Task → Task
latest none t = t
latest (some u) t = u

-- The task that `complete` returns: the object in memory, which the second stamp reaches as well
-- where the disk does not hold the task.
abbrev pub returned_by : Option Task → String → String → Task → Task
returned_by none now later t = completed later t
returned_by (some u) now later t = completed now t

over-some : (o : Option Task) (t : Task) → over o (some t) ≡ some (latest o t)
over-some none t = refl
over-some (some u) t = refl

module _ (yaml : Yaml) where
  lookup-merged-put :
      (id : String) (t : Task) (s : State yaml.Bytes)
      → t.id ≡ id
      → IsReady yaml s
      → lookup id (merged yaml (put yaml id t s)) ≡ some (latest (stored yaml s.disk id) t)
  lookup-merged-put id t s e r =
      lookup-merged yaml (put yaml id t s) id (put-IsReady yaml id t s e r)
      ∙ (ap (over (stored yaml s.disk id)) (lookup-insert_self id t s.self.tasks)
          ∙ over-some (stored yaml s.disk id) t)

  latest-id :
      (id : String) (t : Task) (s : State yaml.Bytes)
      → t.id ≡ id
      → IsReady yaml s
      → (latest (stored yaml s.disk id) t).id ≡ id
  latest-id id t s e r =
      let r' = put-IsReady yaml id t s e r in
      lookup-id (merged yaml (put yaml id t s)) id (merged-IsKeyed yaml (put yaml id t s) r')
        (lookup-merged-put id t s e r)

  -- The locked half of `start` and `complete`, once the task `t` was put in memory.
  change_cycle :
      (id : String) (t : Task) (f : Task → Task) (s : State yaml.Bytes)
      → t.id ≡ id
      → IsReady yaml s
      → locked_load_save yaml (apply_change id f) (put yaml id t s)
        ≡ (return tt, cycle_end yaml id t (f (latest (stored yaml s.disk id) t)) s)
  unfolding apply_change cycle_end
  change_cycle id t f s e r =
      let r' = put-IsReady yaml id t s e r in
      let m = merged yaml (put yaml id t s) in
      cycle yaml (apply_change id f) (put yaml id t s)
        (insert id (f (latest (stored yaml s.disk id) t)) m) r'.dir r'.readable r'.clean
        (ap (λ o. change id o f m) (lookup-merged-put id t s e r))

  -- Nothing blocks the completion, or it is forced.
  abbrev pub MayComplete : Bool → String → State yaml.Bytes → Type 0
  MayComplete force id s = (force ≡ true) ⊎ (blocked_by s.self.tasks (lookup id s.self.tasks) ≡ [])

  check_blocked_ok :
      (force : Bool) (id : String) (s : State yaml.Bytes)
      → MayComplete force id s
      → check_blocked yaml force id s ≡ (return tt, s)
  unfolding check_blocked
  check_blocked_ok true id s m = refl
  check_blocked_ok false id s (inl e) = cc
  check_blocked_ok false id s (inr e) = ap (λ ds. refuse_blocked yaml ds s) e

  load_if_missing_known :
      (id : String) (t : Task) (s : State yaml.Bytes)
      → lookup id s.self.tasks ≡ some t
      → load_if_missing yaml id s ≡ (return tt, s)
  unfolding load_if_missing
  load_if_missing_known id t s known = ap (λ o. load_missing yaml o s) known

  returned_task-by :
      (o : Option Task) (now later : String) (t : Task)
      → returned_task yaml (has o) now later t ≡ returned_by o now later t
  unfolding returned_task
  returned_task-by none now later t = refl
  returned_task-by (some u) now later t = refl

  replaces-stored :
      (id : String) (t : Task) (s : State yaml.Bytes)
      → IsReady yaml s
      → replaces yaml id (put yaml id t s) ≡ has (stored yaml s.disk id)
  unfolding replaces
  replaces-stored id t s r =
      ap (λ b. b && has (lookup id (load yaml [] (put yaml id t s)).0)) r.dir
      ∙ ap (λ (x : Dict Task × State yaml.Bytes). has (lookup id x.0))
          (load_readable yaml [] (put yaml id t s) r.readable)

  returned-eq :
      (id now later : String) (t : Task) (s : State yaml.Bytes)
      → IsReady yaml s
      → returned_task yaml (replaces yaml id (put yaml id (completed now t) s)) now later t
        ≡ returned_by (stored yaml s.disk id) now later t
  returned-eq id now later t s r =
      ap (λ b. returned_task yaml b now later t) (replaces-stored id (completed now t) s r)
      ∙ returned_task-by (stored yaml s.disk id) now later t

  complete-eq :
      (id now later : String) (force : Bool) (t : Task) (s : State yaml.Bytes)
      → IsReady yaml s
      → lookup id s.self.tasks ≡ some t
      → MayComplete force id s
      → complete yaml id force now later s ≡ (
        return (returned_by (stored yaml s.disk id) now later t),
        cycle_end yaml id
            (completed now t)
            (completed later (latest (stored yaml s.disk id) (completed now t)))
            s,
      )
  unfolding complete complete_found
  complete-eq id now later force t s r known may =
      let find = complete_found yaml id force now later in
      let end =
        pure {B = yaml.Bytes}
          (returned_task yaml (replaces yaml id (put yaml id (completed now t) s)) now later t) in
      let write = locked_load_save yaml (apply_change id (completed later)) in
      bind_return (load_if_missing yaml id) (λ _. get_task yaml id >>= find) s s
        (load_if_missing_known id t s known)
      ∙ ap (λ o. find o s) known
      ∙ bind_return (check_blocked yaml force id) (λ _. complete_held yaml id now later t) s s
          (check_blocked_ok force id s may)
      ∙ bind_return write (λ _. end) (put yaml id (completed now t) s) _
          (change_cycle id (completed now t) (completed later) s
            (lookup-id s.self.tasks id r.keyed known) r)
      ∙ ap
          (λ u. (
            return u,
            cycle_end yaml id (completed now t)
                (completed later (latest (stored yaml s.disk id) (completed now t))) s,
          ))
          (returned-eq id now later t s r)

  start-eq :
      (id : String) (t : Task) (s : State yaml.Bytes)
      → IsReady yaml s
      → lookup id s.self.tasks ≡ some t
      → start yaml id s ≡ (
        return (started t),
        cycle_end yaml id (started t) (started (latest (stored yaml s.disk id) (started t))) s,
      )
  unfolding start start_found
  start-eq id t s r known =
      let find = start_found yaml id in
      let end = pure {B = yaml.Bytes} (started t) in
      let write = locked_load_save yaml (apply_change id started) in
      bind_return (load_if_missing yaml id) (λ _. get_task yaml id >>= find) s s
        (load_if_missing_known id t s known)
      ∙ ap (λ o. find o s) known
      ∙ bind_return write (λ _. end) (put yaml id (started t) s) _
          (change_cycle id (started t) started s (lookup-id s.self.tasks id r.keyed known) r)

  -- What a method leaves: its result, the disk key by key, and a store that is fit for the next.
  abbrev pub Leaves :
      Task → String → Task → State yaml.Bytes → String → Result Task × State yaml.Bytes → Type 0
  Leaves t id u s j after =
      (after.0 ≡ return t)
      × (stored yaml after.1.disk j ≡ updated yaml id u s j)
      × IsReady yaml after.1

  -- On a readable store `complete` of a known task that nothing blocks (or that is forced) marks it
  -- complete in the newest version, the disk's if it has one, and returns its own, with the first
  -- stamp, or the second where the disk does not hold the task; under every other id the disk keeps
  -- what it held, and takes from the view what it did not hold.
  pub complete-stored :
      (id now later j : String) (force : Bool) (t : Task) (s : State yaml.Bytes)
      → IsReady yaml s
      → lookup id s.self.tasks ≡ some t
      → MayComplete force id s
      → Leaves
          (returned_by (stored yaml s.disk id) now later t)
          id
          (completed later (latest (stored yaml s.disk id) (completed now t)))
          s
          j
          (complete yaml id force now later s)
  complete-stored id now later j force t s r known may =
      let u = latest (stored yaml s.disk id) (completed now t) in
      let e = lookup-id s.self.tasks id r.keyed known in
      let f = latest-id id (completed now t) s e r in
      subst (Leaves (returned_by (stored yaml s.disk id) now later t) id (completed later u) s j)
        (sym (complete-eq id now later force t s r known may))
        (refl, cycle_end-stored yaml id _ _ s j e f r, cycle_end-IsReady yaml id _ _ s e f r)

  -- The same of `start`.
  pub start-stored :
      (id j : String) (t : Task) (s : State yaml.Bytes)
      → IsReady yaml s
      → lookup id s.self.tasks ≡ some t
      → Leaves
          (started t)
          id
          (started (latest (stored yaml s.disk id) (started t)))
          s
          j
          (start yaml id s)
  start-stored id j t s r known =
      let u = latest (stored yaml s.disk id) (started t) in
      let e = lookup-id s.self.tasks id r.keyed known in
      let f = latest-id id (started t) s e r in
      subst (Leaves (started t) id (started u) s j) (sym (start-eq id t s r known))
        (refl, cycle_end-stored yaml id _ _ s j e f r, cycle_end-IsReady yaml id _ _ s e f r)

  -- A completion that is refused names the blocking tasks and changes neither memory nor disk.
  pub complete_refused :
      (id now later d : String) (ds : List String) (t : Task) (s : State yaml.Bytes)
      → lookup id s.self.tasks ≡ some t
      → blocked_by s.self.tasks (lookup id s.self.tasks) ≡ d ∷ ds
      → complete yaml id false now later s ≡ (raise (dependency_error (d ∷ ds)), s)
  unfolding complete complete_found check_blocked
  complete_refused id now later d ds t s known blocked =
      let find = complete_found yaml id false now later in
      bind_return (load_if_missing yaml id) (λ _. get_task yaml id >>= find) s s
        (load_if_missing_known id t s known)
      ∙ ap (λ o. find o s) known
      ∙ bind_raise (check_blocked yaml false id) (λ _. complete_held yaml id now later t) s s
          (ap (λ bs. refuse_blocked yaml bs s) blocked)

-- The dependencies that block a task are those that the view does not hold as complete.
keep-nil-All {ℓ} :
    {A : Type ℓ} (p : A → Bool) (xs : List A)
    → (keep (λ x. not (p x)) xs ≡ []) ↔ All (λ x. p x ≡ true) xs
keep-nil-All p [] = (λ _. tt, λ _. refl)
keep-nil-All p (x ∷ xs) = elim (Bool-cases (p x)) [
  | inl good ↦ rw good (λ h. (refl, (keep-nil-All p xs).0 h), λ h. (keep-nil-All p xs).1 h.1)
  | inr bad ↦ rw bad (λ h. cc, λ h. cc h.0)
]

blocked_by-known :
    (tasks : Dict Task) (o : Option Task) (t : Task)
    → o ≡ some t
    → blocked_by tasks o ≡ keep (λ d. not (is_complete (lookup d tasks))) t.depends_on
unfolding blocked_by
blocked_by-known tasks o t known = ap (blocked_by tasks) known

List-cases {ℓ} : {A : Type ℓ} (xs : List A) → (xs ≡ []) ⊎ ((y : A) × (ys : List A) × (xs ≡ y ∷ ys))
List-cases [] = inl refl
List-cases (x ∷ xs) = inr (x, xs, refl)

raise≢return : {A : Type 0} {e : Error} {a : A} {r : Result A} → r ≡ raise e → r ≢ return a
raise≢return p q = cc

-- On a readable store an unforced completion of a known task returns it, complete, exactly when every task that it depends on is
-- held as complete in the view of the process.
pub complete-returns_iff :
    (yaml : Yaml) (id now later : String) (t : Task) (s : State yaml.Bytes)
    → IsReady yaml s
    → lookup id s.self.tasks ≡ some t
    → ((complete yaml id false now later s).0
        ≡ return (returned_by (stored yaml s.disk id) now later t))
      ↔ All (λ d. is_complete (lookup d s.self.tasks) ≡ true) t.depends_on
complete-returns_iff yaml id now later t s r known =
    let tasks = s.self.tasks in
    let same = blocked_by-known tasks (lookup id tasks) t known in
    let (to, from) = keep-nil-All (λ d. is_complete (lookup d tasks)) t.depends_on in
    (
      λ h. elim (List-cases (blocked_by tasks (lookup id tasks))) [
        | inl free ↦ to (sym same ∙ free)
        | inr (d, ds, blocked) ↦ absurd (
            raise≢return (ap (λ a. a.0) (complete_refused yaml id now later d ds t s known blocked))
              h)
      ],
      λ h. ap (λ a. a.0) (complete-eq yaml id now later false t s r known (inr (same ∙ from h))),
    )
