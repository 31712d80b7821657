-- ===== src/TaskManager/Store.antt =====
-- engine/task_manager.py, the load-modify-save cycle. A process is its manager; the disk is shared.
-- The lock makes each cycle one step, so an interleaving of processes is a sequence of cycles.
pub mod Merge
pub mod Cycle
pub mod Corrupt
pub mod Lost
use gitreins.Prelude.{ℕ, ◌≡◌, refl, Bool, true, false, List, [], ◌∷◌, Option, none, some, map}
use gitreins.Prelude.{String, if◌then◌else◌, ◌==◌, string_eq}
use gitreins.Prelude.Dict.{Dict, insert, lookup, values}
use gitreins.TaskManager.Task.{Task, Entry, Document, unparsable, entries, Yaml, of_entry, to_entry}

pub data Error : Type 0 where
  key_error : String → Error
  dependency_error : List String → Error
  task_state_corrupt : Error

pub data Result (A : Type 0) : Type 0 where
  return : A → Result A
  raise : Error → Result A

pub record Manager : Type 0 where
  pub tasks : Dict Task
  pub load_error : Option String
  -- The sidecar that `_preserved_state` names, by the digest in its name.
  pub preserved : Option String

abbrev pub has : {A : Type 0} → Option A → Bool
has none = false
has (some a) = true

-- `dir` says that `.gitreins` exists, `copies` are the sidecars by their digest, and `writable`
-- says whether a new sidecar can be written.
pub record Disk (Bytes : Type 0) : Type 0 where
  pub dir : Bool
  pub file : Option Bytes
  pub copies : Dict Bytes
  pub writable : Bool

pub record State (Bytes : Type 0) : Type 0 where
  pub self : Manager
  pub disk : Disk Bytes

-- A method's statements: an exception leaves the state that it found.
abbrev pub Action : Type 0 → Type 0 → Type 0
Action Bytes A = State Bytes → Result A × State Bytes

module _ {B : Type 0} where
  infixl 5 ◌>>=◌ ◌>>◌
  abbrev pub ◌>>=◌ : {A C : Type 0} → Action B A → (A → Action B C) → Action B C
  ◌>>=◌ m f s = let (r, s') = m s in elim r [ return a ↦ f a s' | raise e ↦ (raise e, s') ]

  abbrev pub ◌>>◌ : {A C : Type 0} → Action B A → Action B C → Action B C
  m >> k = m >>= λ _. k

  abbrev pub pure : {A : Type 0} → A → Action B A
  pure a s = (return a, s)

  abbrev pub throw : {A : Type 0} → Error → Action B A
  throw e s = (raise e, s)

  abbrev pub with_self : State B → Manager → State B
  with_self s m = record s { self = m }

-- The mutation of a cycle: the new tasks, or the exception that it raises.
abbrev pub Mutation : Type 0
Mutation = Dict Task → Result (Dict Task)

-- The loop over the entries: the tasks read so far, and whether an entry without an id raised.
unfoldable pub read_entries : Dict Task → List Entry → Dict Task × Option String
read_entries target [] = (target, none)
read_entries target (e ∷ es) = elim e.id [
  | none ↦ (target, some "'id'")
  | some id ↦ read_entries (insert id (of_entry id e) target) es
]

module _ (yaml : Yaml) where
  open yaml use {Bytes, parse, dump, digest, cut_short}

  abbrev is_copied : Option String → Dict Bytes → Bool
  is_copied none copies = false
  is_copied (some d) copies = has (lookup d copies)

  abbrev remember : State Bytes → String → State Bytes
  remember s d = with_self s (record s.self { preserved = some d })

  -- The copying half of `_preserve_unreadable_state`, for the bytes that were read.
  copy_aside : Bytes → State Bytes → Option String × State Bytes
  copy_aside raw s =
      let dest = digest raw in
      if has (lookup dest s.disk.copies)
      then (some dest, remember s dest)
      else if s.disk.writable
      then (
        some dest,
        record (remember s dest) {
          disk = record s.disk { copies = insert dest raw s.disk.copies };
        },
      )
      else (none, s)

  abbrev read_and_copy : Option Bytes → State Bytes → Option String × State Bytes
  read_and_copy none s = (none, s)
  read_and_copy (some raw) s = copy_aside raw s

  -- `_preserve_unreadable_state`
  unfoldable pub preserve : State Bytes → Option String × State Bytes
  unfolding copy_aside
  preserve s =
      if is_copied s.self.preserved s.disk.copies
      then (s.self.preserved, s)
      else read_and_copy s.disk.file s

  abbrev fail_load : String → State Bytes → State Bytes
  fail_load e s = (preserve (with_self s (record s.self { load_error = some e }))).1

  abbrev end_load : Dict Task × Option String → State Bytes → Dict Task × State Bytes
  end_load r s = (r.0, elim r.1 [ none ↦ s | some e ↦ fail_load e s ])

  abbrev load_document : Document → Dict Task → State Bytes → Dict Task × State Bytes
  load_document (unparsable e) target s = (target, fail_load e s)
  load_document (entries es) target s = end_load (read_entries target es) s

  abbrev load_bytes : Bytes → Dict Task → State Bytes → Dict Task × State Bytes
  load_bytes raw target s = load_document (parse raw) target (
      if cut_short raw
      then fail_load "file appears truncated (no document-terminating newline)" s
      else s)

  abbrev load_file : Option Bytes → Dict Task → State Bytes → Dict Task × State Bytes
  load_file none target s = (target, s)
  load_file (some raw) target s = load_bytes raw target s

  -- `_load`, into `target`
  unfoldable pub load : Dict Task → State Bytes → Dict Task × State Bytes
  load target s = load_file s.disk.file target s

  write_tasks : State Bytes → State Bytes
  write_tasks s = record s {
    disk = record s.disk { file = some (dump (map to_entry (values s.self.tasks))) };
  }

  abbrev must_preserve : State Bytes → Bool
  must_preserve s = elim s.self.load_error [ none ↦ false | some e ↦ has s.disk.file ]

  abbrev make_dir : State Bytes → State Bytes
  make_dir s = record s { disk = record s.disk { dir = true } }

  abbrev write_over : Option String × State Bytes → Result (Unit {0}) × State Bytes
  write_over r = elim r.0 [
    | none ↦ (raise task_state_corrupt, r.1)
    | some d ↦ (return tt, write_tasks (with_self r.1 (record r.1.self { load_error = none })))
  ]

  -- `_save`
  unfoldable pub save : Action Bytes (Unit {0})
  unfolding preserve write_tasks
  save s =
      if must_preserve (make_dir s)
      then write_over (preserve (make_dir s))
      else (return tt, write_tasks (make_dir s))

  abbrev applied : Result (Dict Task) → Action Bytes (Unit {0})
  applied (raise e) s = (raise e, s)
  applied (return ts) s = (return tt, with_self s (record s.self { tasks = ts }))

  abbrev apply : Mutation → Action Bytes (Unit {0})
  apply mutate s = applied (mutate s.self.tasks) s

  abbrev load_end : Dict Task × State Bytes → Result (Unit {0}) × State Bytes
  load_end r = (return tt, with_self r.1 (record r.1.self { tasks = r.0 }))

  abbrev load_self : Action Bytes (Unit {0})
  load_self s = load_end (load s.self.tasks s)

  -- `_locked_load_save`
  unfoldable pub locked_load_save : Mutation → Action Bytes (Unit {0})
  locked_load_save mutate s =
      if s.disk.dir then (load_self >> apply mutate >> save) s else (apply mutate >> save) s

  -- `reload`
  unfoldable pub reload : Action Bytes (Unit {0})
  reload s = load_end (load [] (with_self s (record s.self { load_error = none })))
