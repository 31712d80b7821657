-- ===== src/TaskManager/Store/Corrupt.antt =====
-- engine/task_manager.py, a store that cannot be read: its bytes are kept, for one corruption in the
-- life of a process.
use gitreins.Prelude.{◌≡◌, ap, true, false, Option, none, some}
use gitreins.Prelude.{String, ◌⊎◌}
use gitreins.Prelude.Dict.{Dict, lookup}
use gitreins.TaskManager.Task.{Task, Yaml}
use gitreins.TaskManager.Store.{Disk, State, has, make_dir, must_preserve}

module _ (yaml : Yaml) (raw : yaml.Bytes) where
  open yaml use {Bytes, digest, parse, cut_short}

  -- The bytes stand in the sidecar that is named after them.
  abbrev pub IsKept : Disk Bytes → Type 0
  IsKept d = lookup (digest raw) d.copies ≡ some raw

  -- The file holds the bytes, no others stand under their name, and this process has not preserved
  -- anything yet or has preserved these.
  record IsAtRisk (s : State Bytes) : Type 0 where
    file : s.disk.file ≡ some raw
    sole : (r : Bytes) → lookup (digest raw) s.disk.copies ≡ some r → r ≡ raw
    first : (s.self.preserved ≡ none) ⊎ IsKept s.disk

  -- What `preserve` does with them.
  record Preserves (s : State Bytes) (r : Option String × State Bytes) : Type 0 where
    still : IsAtRisk r.1
    kept : (d : String) → r.0 ≡ some d → IsKept r.1.disk
    error : r.1.self.load_error ≡ s.self.load_error

  -- The process knows that it could not read the file.
  record IsWarned (s : State Bytes) : Type 0 where
    at_risk : IsAtRisk s
    warned : has s.self.load_error ≡ true

  -- The bytes are still the file's, or they stand in their sidecar.
  abbrev pub IsSafe : Disk Bytes → Type 0
  IsSafe d = (d.file ≡ some raw) ⊎ IsKept d

  pub must_preserve-true :
      (s : State Bytes)
      → has s.self.load_error ≡ true
      → s.disk.file ≡ some raw
      → must_preserve yaml (make_dir yaml s) ≡ true
  must_preserve-true s warned file = must_elim s.self.load_error warned
    where
      must_elim :
          (e : Option String)
          → has e ≡ true
          → (elim e [ none ↦ false | some _ ↦ has s.disk.file ]) ≡ true
      must_elim none h = cc
      must_elim (some _) h = ap has file
