-- ===== src/TaskManager/Store/Cycle.antt =====
-- engine/task_manager.py, `_locked_load_save` on a store that can be read.
use gitreins.Prelude.{◌≡◌, refl, ◌∙◌, ap, Bool, true, false, List, [], Option, none, some, map}
use gitreins.Prelude.{String, if◌then◌else◌, All}
use gitreins.Prelude.Dict.{Dict, lookup, values}
use gitreins.TaskManager.Task.{
  Task, Entry, Document, entries, unparsable, Yaml, to_entry, canonical,
}
use gitreins.TaskManager.Store.{
  Disk, State, Result, return, raise, Error, read_entries, load_file, load, load_self, load_end,
  applied, apply, must_preserve, make_dir, write_over, write_tasks, preserve, has, Action, ◌>>=◌,
  ◌>>◌, save, locked_load_save, reload, Mutation, with_self,
}
use gitreins.TaskManager.Store.Merge.{
  IsKeyed, HasId, over, tasks_of, lookup-read_entries, read_entries_ok, read_entries-IsKeyed,
  lookup-tasks_of_saved, saved-HasId, map_option,
}

module _ {B : Type 0} {A C : Type 0} where
  -- A bind whose first action returns.
  pub bind_return :
      (m : Action B A) (f : A → Action B C) (s s' : State B) {a : A}
      → m s ≡ (return a, s')
      → (m >>= f) s ≡ f a s'
  bind_return m f s s' e =
      ap (λ (r : Result A × State B). elim r.0 [ return a ↦ f a r.1 | raise e ↦ (raise e, r.1) ]) e

  pub bind_raise :
      (m : Action B A) (f : A → Action B C) (s s' : State B) {e : Error}
      → m s ≡ (raise e, s')
      → (m >>= f) s ≡ (raise e, s')
  bind_raise m f s s' e =
      ap (λ (r : Result A × State B). elim r.0 [ return a ↦ f a r.1 | raise e ↦ (raise e, r.1) ]) e

pub if_true :
    {B A : Type 0} (m n : Action B A) (s : State B) {b : Bool}
    → b ≡ true
    → (if b then m s else n s) ≡ m s
if_true m n s e = ap (λ (c : Bool). if c then m s else n s) e

module _ (yaml : Yaml) where
  open yaml use {Bytes, parse, dump, cut_short, parse_dump, dump_whole}

  abbrev entries_of : Document → List Entry
  entries_of (unparsable e) = []
  entries_of (entries es) = es

  -- The entries that the file holds; none without a file.
  abbrev pub entries_in : Option Bytes → List Entry
  entries_in none = []
  entries_in (some raw) = entries_of (parse raw)

  -- What a process that has no view of its own reads from the disk.
  abbrev pub stored : Disk Bytes → String → Option Task
  stored d j = lookup j (tasks_of (entries_in d.file))

  -- The file is missing, or it is whole, parses, and every entry has an id.
  abbrev pub IsReadable : Option Bytes → Type 0
  IsReadable none = Unit
  IsReadable (some raw) =
      (cut_short raw ≡ false) × (es : List Entry) × (parse raw ≡ entries es) × All HasId es

  entries_in-HasId : (file : Option Bytes) → IsReadable file → All HasId (entries_in file)
  entries_in-HasId none h = tt
  entries_in-HasId (some raw) (whole, es, parsed, ids) = rw parsed ids

  read_entries_nil : (target : Dict Task) → (read_entries target []).0 ≡ target
  unfolding read_entries
  read_entries_nil target = refl

  load_file_readable :
      (file : Option Bytes) (target : Dict Task) (s : State Bytes)
      → IsReadable file
      → load_file yaml file target s ≡ ((read_entries target (entries_in file)).0, s)
  load_file_readable none target s h = rw (read_entries_nil target)
  load_file_readable (some raw) target s (whole, es, parsed, ids) =
      rw (whole, parsed, read_entries_ok target es ids)

  -- Loading a readable store merges its entries into the target and leaves everything else.
  pub load_readable :
      (target : Dict Task) (s : State Bytes)
      → IsReadable s.disk.file
      → load yaml target s ≡ ((read_entries target (entries_in s.disk.file)).0, s)
  unfolding load
  load_readable target s h = load_file_readable s.disk.file target s h

  -- The state after a save of the tasks `ts`.
  abbrev pub saved : State Bytes → Dict Task → State Bytes
  saved s ts = record {
    self = record s.self { tasks = ts };
    disk = record s.disk { dir = true; file = some (dump (map to_entry (values ts))) };
  }

  -- The view of the process with the file merged over it.
  abbrev pub merged : State Bytes → Dict Task
  merged s = (read_entries s.self.tasks (entries_in s.disk.file)).0

  pub save_clean :
      (s : State Bytes) → s.self.load_error ≡ none → save yaml s ≡ (return tt, saved s s.self.tasks)
  unfolding save
  save_clean s h =
      let quiet : must_preserve yaml (make_dir yaml s) ≡ false =
        ap (λ (e : Option String). elim e [ none ↦ false | some _ ↦ has s.disk.file ]) h in
      ap
        (λ (b : Bool).
          if b
          then write_over yaml (preserve yaml (make_dir yaml s))
          else (return tt, write_tasks yaml (make_dir yaml s)))
        quiet

  apply_return :
      (mutate : Mutation) (s : State Bytes) (ts : Dict Task)
      → mutate s.self.tasks ≡ return ts
      → apply yaml mutate s ≡ (return tt, with_self s (record s.self { tasks = ts }))
  apply_return mutate s ts e = ap (λ r. applied yaml r s) e

  -- A cycle on a store that exists and can be read, with a mutation that does not raise.
  pub cycle :
      (mutate : Mutation) (s : State Bytes) (ts : Dict Task)
      → s.disk.dir ≡ true
      → IsReadable s.disk.file
      → s.self.load_error ≡ none
      → mutate (merged s) ≡ return ts
      → locked_load_save yaml mutate s ≡ (return tt, saved s ts)
  unfolding locked_load_save
  cycle mutate s ts dir readable clean mutated =
      let ready = with_self s (record s.self { tasks = ts }) in
      if_true (load_self yaml >> apply yaml mutate >> save yaml) (apply yaml mutate >> save yaml) s
        dir
      ∙ bind_return (load_self yaml >> apply yaml mutate) (λ _. save yaml) s ready
          (bind_return (load_self yaml) (λ _. apply yaml mutate) s
              (with_self s (record s.self { tasks = merged s }))
              (ap (load_end yaml) (load_readable s.self.tasks s readable))
            ∙ apply_return mutate (with_self s (record s.self { tasks = merged s })) ts mutated)
      ∙ save_clean ready clean

  -- A store that exists and can be read, and a process that has seen no error.
  pub record IsReady (s : State Bytes) : Type 0 where
    pub dir : s.disk.dir ≡ true
    pub readable : IsReadable s.disk.file
    pub clean : s.self.load_error ≡ none
    pub keyed : IsKeyed s.self.tasks

  pub merged-IsKeyed : (s : State Bytes) → IsReady s → IsKeyed (merged s)
  merged-IsKeyed s r = read_entries-IsKeyed s.self.tasks (entries_in s.disk.file) r.keyed

  -- The view after a merge: the disk where it has the key, and the process's own view elsewhere.
  pub lookup-merged :
      (s : State Bytes) (j : String)
      → IsReady s
      → lookup j (merged s) ≡ over (stored s.disk j) (lookup j s.self.tasks)
  lookup-merged s j r =
      lookup-read_entries s.self.tasks (entries_in s.disk.file) j
        (entries_in-HasId s.disk.file r.readable)

  pub saved-IsReady :
      (s : State Bytes) (ts : Dict Task) → IsReady s → IsKeyed ts → IsReady (saved s ts)
  saved-IsReady s ts r k = record {
    dir = refl;
    readable = (dump_whole _, map to_entry (values ts), parse_dump _, saved-HasId (values ts));
    clean = r.clean;
    keyed = k;
  }

  pub stored-saved :
      (s : State Bytes) (ts : Dict Task) (j : String)
      → IsKeyed ts
      → stored (saved s ts).disk j ≡ map_option canonical (lookup j ts)
  stored-saved s ts j k =
      ap (λ doc. lookup j (tasks_of (entries_of doc))) (parse_dump (map to_entry (values ts)))
      ∙ lookup-tasks_of_saved ts j k

  -- After a reload the view of a process is what the disk holds: what other processes created is
  -- there, and what they deleted is gone.
  pub reload-stored :
      (s : State Bytes) (j : String)
      → IsReadable s.disk.file
      → ((reload yaml s).0 ≡ return tt)
        × (lookup j (reload yaml s).1.self.tasks ≡ stored s.disk j)
        × ((reload yaml s).1.disk ≡ s.disk)
  unfolding reload
  reload-stored s j h =
      let e = load_readable [] (with_self s (record s.self { load_error = none })) h in
      (refl, ap (λ r. lookup j r.0) e, ap (λ r. r.1.disk) e)
