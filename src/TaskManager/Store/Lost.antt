-- ===== src/TaskManager/Store/Lost.antt =====
-- engine/task_manager.py, a second corrupted store in the life of a process: its bytes are lost.
use gitreins.Prelude.{◌≡◌, refl, ◌∙◌, ap, true, Option, none, some, map}
use gitreins.Prelude.{String, if◌then◌else◌, if_ind}
use gitreins.Prelude.Dict.{Dict, lookup, values}
use gitreins.TaskManager.Task.{Task, Yaml, unparsable, to_entry}
use gitreins.TaskManager.Store.{
  State, Result, return, Mutation, with_self, has, is_copied, read_and_copy, preserve, fail_load,
  load_document, load_file, load, load_end, load_self, write_tasks, make_dir, write_over, save,
  applied, apply, locked_load_save, ◌>>◌,
}
use gitreins.TaskManager.Store.Cycle.{bind_return, if_true}
use gitreins.TaskManager.Store.Corrupt.{must_preserve-true}

module _ (yaml : Yaml) (raw : yaml.Bytes) where
  open yaml use {Bytes, digest, parse, cut_short}

  -- The process remembers a sidecar, for whatever bytes, that is still there.
  abbrev HasCopy : State Bytes → Type 0
  HasCopy s = is_copied yaml s.self.preserved s.disk.copies ≡ true

  abbrev note_error : String → State Bytes → State Bytes
  note_error e s = with_self s (record s.self { load_error = some e })

  has_copy :
      {p : String} {old : Bytes} (o : Option String) (copies : Dict Bytes)
      → o ≡ some p
      → lookup p copies ≡ some old
      → is_copied yaml o copies ≡ true
  has_copy o copies e f = ap (λ q. is_copied yaml q copies) e ∙ ap has f

  preserve_copied : (s : State Bytes) → HasCopy s → preserve yaml s ≡ (s.self.preserved, s)
  unfolding preserve
  preserve_copied s h =
      ap (λ b. if b then (s.self.preserved, s) else read_and_copy yaml s.disk.file s) h

  load_copied :
      (e : String) (target : Dict Task) (s : State Bytes)
      → s.disk.file ≡ some raw
      → parse raw ≡ unparsable e
      → HasCopy s
      → load yaml target s ≡ (target, note_error e s)
  unfolding load
  load_copied e target s file bad h =
      let pair : State Bytes → Dict Task × State Bytes = λ t. (target, t) in
      let end = λ (t : State Bytes). pair (fail_load yaml e t) in
      let failed : (m : String) → fail_load yaml m s ≡ note_error m s =
        λ m. ap (λ r. r.1) (preserve_copied (note_error m s) h) in
      let again : (m : String) → fail_load yaml e (note_error m s) ≡ note_error e s =
        λ m. ap (λ r. r.1) (preserve_copied (note_error e s) h) in
      let cut : String = "file appears truncated (no document-terminating newline)" in
      ap (λ f. load_file yaml f target s) file
      ∙ ap
          (λ doc. load_document yaml doc target (if cut_short raw then fail_load yaml cut s else s))
          bad
      ∙ if_ind (λ t. end t ≡ (target, note_error e s)) (cut_short raw)
          (λ _. ap end (failed cut) ∙ ap pair (again cut)) (λ _. ap pair (failed e))

  save_copied :
      (e p : String) (s : State Bytes)
      → s.disk.file ≡ some raw
      → s.self.load_error ≡ some e
      → s.self.preserved ≡ some p
      → HasCopy s
      → save yaml s ≡ (
        return tt,
        write_tasks yaml (with_self (make_dir yaml s) (record s.self { load_error = none })),
      )
  unfolding save
  save_copied e p s file warned seen h =
      let there = make_dir yaml s in
      let over : Option String → Result (Unit {0}) × State Bytes =
        λ d. write_over yaml (d, there) in
      ap
        (λ b.
          if b then write_over yaml (preserve yaml there) else (return tt, write_tasks yaml there))
        (must_preserve-true yaml raw s (ap has warned) file)
      ∙ ap (write_over yaml) (preserve_copied there h)
      ∙ ap over seen

  -- A long-lived process that has preserved one corrupted store and finds the file corrupted anew
  -- overwrites the new bytes: no sidecar is written for them.
  pub second_corruption_lost :
      (p e : String) (old : Bytes) (mutate : Mutation) (s : State Bytes) (ts : Dict Task)
      → s.disk.dir ≡ true
      → s.disk.file ≡ some raw
      → parse raw ≡ unparsable e
      → s.self.preserved ≡ some p
      → lookup p s.disk.copies ≡ some old
      → mutate s.self.tasks ≡ return ts
      → ((locked_load_save yaml mutate s).0 ≡ return tt)
        × ((locked_load_save yaml mutate s).1.disk.file
            ≡ some (yaml.dump (map to_entry (values ts))))
        × ((locked_load_save yaml mutate s).1.disk.copies ≡ s.disk.copies)
  unfolding locked_load_save write_tasks
  second_corruption_lost p e old mutate s ts dir file bad seen there mutated =
      let noted = note_error e s in
      let ready = with_self noted (record noted.self { tasks = ts }) in
      let copied : HasCopy s = has_copy s.self.preserved s.disk.copies seen there in
      let whole =
        if_true (load_self yaml >> apply yaml mutate >> save yaml) (apply yaml mutate >> save yaml)
          s dir
        ∙ bind_return (load_self yaml >> apply yaml mutate) (λ _. save yaml) s ready
            (bind_return (load_self yaml) (λ _. apply yaml mutate) s noted
                (ap (load_end yaml) (load_copied e s.self.tasks s file bad copied))
              ∙ ap (λ r. applied yaml r noted) mutated)
        ∙ save_copied e p ready file refl seen copied in
      (ap (λ r. r.0) whole, ap (λ r. r.1.disk.file) whole, ap (λ r. r.1.disk.copies) whole)
