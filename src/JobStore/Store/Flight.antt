-- ===== src/JobStore/Store/Flight.antt =====
-- engine/job_store.py, `find_running_job`: one evaluation at a time for a task and a directory.
use gitreins.Prelude.{ℕ, ◌≡◌, Bool, true, false, List, []}
use gitreins.Prelude.{Option, none, some, String, string_eq}
use gitreins.Prelude.{All}
use mathlib.Core.List.{Memᴰ}
use gitreins.JobStore.Record.{Host, Moment, Job}
use gitreins.JobStore.Liveness.{worker_liveness}
use gitreins.JobStore.Store.{Store, Result, return, load_job, is_candidate}
use gitreins.JobStore.Store.Reap.{IsFiled}
use gitreins.JobStore.Store.Listing.{HasId}

module _ (host : Host) (seen again : ℕ → Moment host.F) (later : ℕ → host.F)
    (task_id wd : String) where
  open host use {F}

  abbrev candidate : Job F → Bool
  candidate = is_candidate host task_id wd

  -- A live record of the key that was listed.
  abbrev pub Found : List (Job F) → Result (Option (Job F)) × Store F → Type 0
  Found jobs r =
      (job : Job F) × (r.0 ≡ return (some job))
      × Memᴰ job jobs
      × (is_candidate host task_id wd job ≡ true)
      × (i : ℕ) × ((worker_liveness host (seen i) job).0 ≡ true)

  -- No running record of the key is left.
  abbrev pub Free : Result (Option (Job F)) × Store F → Type 0
  Free r =
      (r.0 ≡ return none)
      × ((id : String) (job : Job F)
          → load_job id r.1 ≡ some job
          → is_candidate host task_id wd job ≡ false)

  -- A worker that was found dead stays dead until the reap looks again.
  abbrev pub StaysDead : Type 0
  StaysDead =
      (i : ℕ) (job : Job F)
      → (worker_liveness host (seen i) job).0 ≡ false
      → (worker_liveness host (again i) job).0 ≡ false

  record Inv (jobs : List (Job F)) (st : Store F) : Type 0 where
    filed : IsFiled st
    held : st.held ≡ []
    writable : st.writable ≡ true
    named : All (HasId host) jobs
    left :
        (id : String) (job : Job F)
        → load_job id st ≡ some job
        → candidate job ≡ true
        → Memᴰ job jobs
