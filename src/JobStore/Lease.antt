-- ===== src/JobStore/Lease.antt =====
-- engine/job_store.py, beats and reaps of one job as interleaved steps. Each takes the lease, reads
-- the record, decides and writes, gives the lease back; any number of processes take turns.
pub mod Invariant
pub mod Ended
use gitreins.Prelude.{ℕ, ◌≡◌, ◌≢◌, Bool, true, false, Option, none, some, String, if◌then◌else◌}
use gitreins.Prelude.{◌==◌, nat_eq}
use gitreins.Prelude.Dict.{lookup}
use gitreins.JobStore.Record.{Host, Moment, Job, is_running}
use gitreins.JobStore.Liveness.{worker_liveness}
use gitreins.JobStore.Store.{Store, Result, return, load_job, save_job, stamped, reaped, or_reason}

-- Where a process stands in `beat` or `reap_stale_job`.
pub data Stage (F : Type 0) : Type 0 where
  idle : Stage F
  leased : Stage F
  loaded : Option (Job F) → Stage F
  written : Stage F

pub record System (F : Type 0) : Type 0 where
  pub store : Store F
  pub holder : Option ℕ
  pub stage : ℕ → Stage F

abbrev pub move : {F : Type 0} → ℕ → Stage F → System F → System F
move a x s = record s { stage = λ b. if a == b then x else s.stage b }

module _ (host : Host) (id : String) where
  open host use {F}

  -- A step of a process. The lease is the lock on the job's lock file: it is granted when no process
  -- holds it. A process that holds it may give it back at any point, which covers the early returns
  -- and the exceptions.
  pub data Step : System F → System F → Type 0 where
    acquire :
        (s : System F) (a : ℕ)
        → s.stage a ≡ idle
        → s.holder ≡ none
        → Step s (move a leased (record s { holder = some a }))
    load :
        (s : System F) (a : ℕ)
        → s.stage a ≡ leased
        → Step s (move a (loaded (load_job id s.store)) s)
    stamp :
        (s : System F) (a : ℕ) (now : F) (extra job : Job F) (st : Store F)
        → s.stage a ≡ loaded (some job)
        → is_running job ≡ true
        → lookup "id" extra ≡ none
        → save_job host (stamped host now extra job) s.store ≡ return st
        → Step s (move a written (record s { store = st }))
    reap :
        (s : System F) (a : ℕ) (m : Moment F) (later : F) (reason : Option String) (job : Job F)
        (st : Store F)
        → s.stage a ≡ loaded (some job)
        → is_running job ≡ true
        → (worker_liveness host m job).0 ≡ false
        → save_job host (reaped later (or_reason reason (worker_liveness host m job).1) job) s.store
          ≡ return st
        → Step s (move a written (record s { store = st }))
    release :
        (s : System F) (a : ℕ)
        → s.holder ≡ some a
        → Step s (move a idle (record s { holder = none }))

  pub data Reach (s : System F) : System F → Type 0 where
    here : Reach s s
    next : {t u : System F} → Reach s t → Step t u → Reach s u
