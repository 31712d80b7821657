-- ===== src/JobStore/Lease/Ended.antt =====
-- engine/job_store.py: a record that has ended stays as it is, whatever beats and reaps interleave.
use gitreins.Prelude.{ℕ, ◌≡◌, sym, ap, ◌∙◌, true, false, some, String}
use gitreins.Prelude.Dict.{lookup}
use gitreins.JobStore.Record.{Host, Job, str, is_running}
use gitreins.JobStore.Store.{load_job}
use gitreins.JobStore.Store.Reap.{some_eq, true≢false}
use gitreins.JobStore.Lease.{
  System, idle, loaded, Step, acquire, load, stamp, reap, release, Reach, here, next,
}
use gitreins.JobStore.Lease.Invariant.{Inv, Inv-start, Inv-Reach}

module _ (host : Host) (id : String) where
  open host use {F}

  -- A process that is to write has read a running record, which stands in the file.
  running_absurd :
      (s : System F) (a : ℕ) (job ended : Job F)
      → s.stage a ≡ loaded (some job)
      → is_running job ≡ true
      → load_job id s.store ≡ some ended
      → is_running ended ≡ false
      → Inv host id s
      → ⊥
  running_absurd s a job ended at runs there over inv =
      true≢false
        (sym runs ∙ ap is_running (some_eq (sym (inv.read a (some job) at) ∙ there)) ∙ over)

  Step-ended :
      (s t : System F) (job : Job F)
      → Step host id s t
      → Inv host id s
      → load_job id s.store ≡ some job
      → is_running job ≡ false
      → load_job id t.store ≡ some job
  Step-ended s t job (acquire _ a e free) inv there over = there
  Step-ended s t job (load _ a e) inv there over = there
  Step-ended s t job (stamp _ a now extra old st e runs plain h) inv there over =
      absurd (running_absurd s a old job e runs there over inv)
  Step-ended s t job (reap _ a m later reason old st e runs dead h) inv there over =
      absurd (running_absurd s a old job e runs there over inv)
  Step-ended s t job (release _ a e) inv there over = there

  Reach-ended :
      (s t : System F) (job : Job F)
      → Reach host id s t
      → Inv host id s
      → load_job id s.store ≡ some job
      → is_running job ≡ false
      → load_job id t.store ≡ some job
  Reach-ended s t job here inv there over = there
  Reach-ended s t job (next {t = m} path step) inv there over =
      Step-ended m t job step (Inv-Reach host id s m path inv)
        (Reach-ended s m job path inv there over) over

  -- From processes that are idle and a file that is named after its record: once the record is no
  -- longer running, no further beat or reap, however they interleave, changes it.
  pub ended_stays :
      (s t u : System F)
      → ((a : ℕ) → s.stage a ≡ idle)
      → ((job : Job F) → load_job id s.store ≡ some job → lookup "id" job ≡ some (str id))
      → Reach host id s t
      → Reach host id t u
      → (job : Job F) → load_job id t.store ≡ some job
      → is_running job ≡ false
      → load_job id u.store ≡ some job
  ended_stays s t u rest filed path on job there over =
      Reach-ended t u job on (Inv-Reach host id s t path (Inv-start host id s rest filed)) there
        over
