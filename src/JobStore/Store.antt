-- ===== src/JobStore/Store.antt =====
-- engine/job_store.py, the shared directory of job files: leases, reaping, heartbeats, single flight.
pub mod Reap
pub mod Listing
pub mod Flight
use gitreins.Prelude.{ℕ, ◌+◌, Bool, true, false, ◌&&◌, List, [], ◌∷◌, Option, none, some}
use gitreins.Prelude.{String, if◌then◌else◌, ◌==◌, string_eq, contains}
use gitreins.Prelude.Dict.{Dict, lookup, insert, remove}
use gitreins.JobStore.Record.{
  Json, Job, Moment, Host, bool, str, float, field_is, is_running, text_of, as_field,
}
use gitreins.JobStore.Liveness.{worker_liveness}

pub data Error : Type 0 where
  key_error : Error
  os_error : Error
  type_error : Error

pub data Result (A : Type 0) : Type 0 where
  return : A → Result A
  raise : Error → Result A

-- The directory, in the order in which it is listed: a file that cannot be read as JSON is `none`.
-- The files are UTF-8; on another the source raises `UnicodeDecodeError`, which is not modelled.
-- `held` are the leases of other processes, and `writable` says whether a file can be written.
pub record Store (F : Type 0) : Type 0 where
  pub files : Dict (Option (Job F))
  pub held : List String
  pub writable : Bool

-- `reason or why`
abbrev pub or_reason : Option String → String → String
or_reason none why = why
or_reason (some reason) why = if reason == "" then why else reason

module _ {F : Type 0} where
  abbrev readable : Option (Option (Job F)) → Option (Job F)
  readable none = none
  readable (some content) = content

  -- `load_job`
  unfoldable pub load_job : String → Store F → Option (Job F)
  load_job id st = readable (lookup id st.files)

  abbrev exists : Option (Option (Job F)) → Bool
  exists none = false
  exists (some content) = true

  -- `delete_job`
  unfoldable pub delete_job : String → Store F → Bool × Store F
  delete_job id st =
      if exists (lookup id st.files)
      then (true, record st { files = remove id st.files })
      else (false, st)

  -- `acquire_resume_lease`: whether the lease is there to take. It is given back before any other
  -- process runs, so `held` does not change.
  unfoldable pub lease_free : String → Store F → Bool
  lease_free id st = if contains st.held id then false else true

  -- `current.update(extra)`
  unfoldable pub update : Job F → Job F → Job F
  update job [] = job
  update job ((key, value) ∷ extra) = update (insert key value job) extra

  -- The fields that `reap_stale_job` sets.
  unfoldable pub reaped : F → String → Job F → Job F
  reaped later error job = insert "finished_at" (float later) (
      insert "error_kind" (str "orphaned_worker") (
        insert "error" (str error)
          (insert "running" (bool false) (insert "status" (str "error") job))))

  -- A value with a store that a write has reached, or the exception with the store as it was.
  abbrev pub saved : {A : Type 0} → A → Store F → Result (Store F) → Result A × Store F
  saved a st (return st') = (return a, st')
  saved a st (raise e) = (raise e, st)

  -- `except OSError` of a heartbeat
  abbrev beaten : Store F → Result (Store F) → Result Bool × Store F
  beaten st (return st') = (return true, st')
  beaten st (raise os_error) = (return false, st)
  beaten st (raise e) = (raise e, st)

module _ (host : Host) where
  open host use {F, larger, decimal, abspath}

  abbrev pub save_as : Job F → Option (Json F) → Store F → Result (Store F)
  save_as job none st = raise key_error
  save_as job (some id) st =
      if st.writable
      then return (record st { files = insert (text_of host id) (some job) st.files })
      else raise os_error

  -- `save_job`: the file is named after the record's own id.
  unfoldable pub save_job : Job F → Store F → Result (Store F)
  unfolding text_of
  save_job job st = save_as job (lookup "id" job) st

  -- `list_jobs`: files that cannot be read and empty records are left out.
  unfoldable pub put_listed : Option (Job F) → List (Job F) → List (Job F)
  put_listed none jobs = jobs
  put_listed (some []) jobs = jobs
  put_listed (some (field ∷ fields)) jobs = (field ∷ fields) ∷ jobs

  unfoldable pub listed : Store F → Dict (Option (Job F)) → List (Job F)
  listed st [] = []
  listed st ((id, content) ∷ files) = put_listed (load_job id st) (listed st files)

  abbrev number_or_zero : Option F → F
  number_or_zero none = decimal 0 0
  number_or_zero (some f) = f

  -- `j.get("started_at", 0.0)`, a number in every record that `make_job` has made.
  abbrev started_at : Job F → F
  started_at job = number_or_zero (as_field host (lookup "started_at" job))

  -- A stable sort in descending order.
  unfoldable pub insert_newest : Job F → List (Job F) → List (Job F)
  insert_newest job [] = job ∷ []
  insert_newest job (other ∷ jobs) =
      if larger (started_at other) (started_at job)
      then other ∷ insert_newest job jobs
      else job ∷ other ∷ jobs

  unfoldable pub sort_newest : List (Job F) → List (Job F)
  sort_newest [] = []
  sort_newest (job ∷ jobs) = insert_newest job (sort_newest jobs)

  unfoldable pub list_jobs : Store F → List (Job F)
  list_jobs st = sort_newest (listed st st.files)

  abbrev reap_dead :
      F → Option String → Job F → Bool × String → Store F → Result (Option (Job F)) × Store F
  reap_dead later reason job (live, why) st =
      if live
      then (return (some job), st)
      else saved (some (reaped later (or_reason reason why) job)) st
          (save_job (reaped later (or_reason reason why) job) st)

  abbrev reap_current :
      Moment F → F → Option String → Option (Job F) → Store F → Result (Option (Job F)) × Store F
  reap_current m later reason none st = (return none, st)
  reap_current m later reason (some job) st =
      if is_running job
      then reap_dead later reason job (worker_liveness host m job) st
      else (return (some job), st)

  -- `reap_stale_job`
  unfoldable pub reap_stale_job :
      Moment F → F → String → Option String → Store F → Result (Option (Job F)) × Store F
  reap_stale_job m later id reason st =
      if lease_free id st
      then reap_current m later reason (load_job id st) st
      else (return (load_job id st), st)

  -- The record that a heartbeat writes.
  unfoldable pub stamped : F → Job F → Job F → Job F
  stamped now extra job = update (insert "heartbeat_at" (float now) job) extra

  abbrev beat_current : F → Job F → Option (Job F) → Store F → Result Bool × Store F
  beat_current now extra none st = (return false, st)
  beat_current now extra (some job) st =
      if is_running job then beaten st (save_job (stamped now extra job) st) else (return false, st)

  -- `JobHeartbeat.beat`
  unfoldable pub beat : F → Job F → String → Store F → Result Bool × Store F
  beat now extra id st =
      if lease_free id st then beat_current now extra (load_job id st) st else (return false, st)

  abbrev directory_of : Option (Json F) → Option String
  directory_of none = some (abspath "")
  directory_of (some (str path)) = some (abspath path)
  directory_of (some other) = none

  abbrev same_directory : Option String → String → Bool
  same_directory none wd = false
  same_directory (some path) wd = path == wd

  abbrev is_nowhere : Option String → Bool
  is_nowhere none = true
  is_nowhere (some path) = false

  -- A record of the task whose `workdir` is no text, on which `os.path.abspath` raises.
  unfoldable pub is_unplaced : String → Job F → Bool
  is_unplaced task_id job =
      field_is "task_id" task_id job && is_nowhere (directory_of (lookup "workdir" job))

  -- The guards of the loop of `find_running_job`, of a record with a place; `wd` is absolute.
  unfoldable pub has_key : String → String → Job F → Bool
  has_key task_id wd job =
      if field_is "task_id" task_id job
      then same_directory (directory_of (lookup "workdir" job)) wd
      else false

  -- What the round does after a reap: an exception ends the loop.
  abbrev go_on :
      (Store F → Result (Option (Job F)) × Store F)
      → Result (Option (Job F)) × Store F
      → Result (Option (Job F)) × Store F
  go_on rest (return current, st) = rest st
  go_on rest (raise e, st) = (raise e, st)

  abbrev reap_named :
      Moment F → F → String → Option (Json F) → Store F → Result (Option (Job F)) × Store F
  reap_named m later why none st = (raise key_error, st)
  reap_named m later why (some id) st = reap_stale_job m later (text_of host id) (some why) st

  -- A round for a running record of the key; `reap` is left at its default, true.
  abbrev judge_candidate :
      Moment F
      → F
      → Job F
      → Bool × String
      → (Store F → Result (Option (Job F)) × Store F)
      → Store F
      → Result (Option (Job F)) × Store F
  judge_candidate again later job (true, why) rest st = (return (some job), st)
  judge_candidate again later job (false, why) rest st =
      go_on rest (reap_named again later why (lookup "id" job) st)

  abbrev is_candidate : String → String → Job F → Bool
  is_candidate task_id wd job = if has_key task_id wd job then is_running job else false

  module _ (seen again : ℕ → Moment F) (later : ℕ → F) (task_id wd : String) where
    -- One round of the loop.
    abbrev round :
        ℕ
        → Job F
        → (Store F → Result (Option (Job F)) × Store F)
        → Store F
        → Result (Option (Job F)) × Store F
    round i job rest st =
        if is_unplaced task_id job
        then (raise type_error, st)
        else if is_candidate task_id wd job
        then judge_candidate (again i) (later i) job (worker_liveness host (seen i) job) rest st
        else rest st

    -- The loop, over the listing taken at its start. Round `i` reads the clock and the processes at
    -- `seen i`, and its reap reads them at `again i`.
    unfoldable pub find_in : ℕ → List (Job F) → Store F → Result (Option (Job F)) × Store F
    find_in i [] st = (return none, st)
    find_in i (job ∷ jobs) st = round i job (λ st'. find_in (i + 1) jobs st') st

  -- `find_running_job`
  unfoldable pub find_running_job :
      (seen again : ℕ → Moment F) (later : ℕ → F) (task_id workdir : String)
      → Store F
      → Result (Option (Job F)) × Store F
  find_running_job seen again later task_id workdir st =
      find_in seen again later task_id (abspath workdir) 0 (list_jobs st) st
