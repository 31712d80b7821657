-- ===== src/JobStore/Store/Reap.antt =====
-- engine/job_store.py: what a reap and a heartbeat leave in the directory, file by file.
use gitreins.Prelude.{◌≡◌, refl, ◌∙◌, sym, ap, subst, ◌&&◌, Bool, true, false, not}
use gitreins.Prelude.{Option, none, some, String, if◌then◌else◌, ◌==◌, string_eq, if_ind}
use gitreins.Prelude.{Bool-cases, ◌⊎◌, inl, inr, ◌≢◌}
use text.Mathlib.TextEquality.{eq_iff}
use gitreins.Prelude.Dict.{lookup, insert, lookup-insert}
use gitreins.JobStore.Record.{Host, Moment, Job, str, text_of, is_running, field_is}
use gitreins.JobStore.Liveness.{worker_liveness}
use gitreins.JobStore.Store.{
  Store, Result, return, raise, Error, os_error, load_job, lease_free, or_reason, reaped, saved,
  save_job, save_as, reap_dead, reap_current, reap_stale_job, readable,
}

pub none≢some : {A : Type 0} {a : A} → none ≢ some a
none≢some h = cc

pub some_eq : {A : Type 0} {a b : A} → some a ≡ some b → a ≡ b
some_eq h = cc

pub true≢false : true ≢ false
true≢false h = cc

return_eq : {A : Type 0} {a b : A} → return a ≡ return b → a ≡ b
return_eq h = cc

raise≢return : {A : Type 0} {a : A} {e : Error} → raise e ≢ return a
raise≢return h = cc

module _ {F : Type 0} where
  -- Every record stands in the file that is named after it.
  abbrev pub IsFiled : Store F → Type 0
  IsFiled st =
      (id : String) (job : Job F) → load_job id st ≡ some job → lookup "id" job ≡ some (str id)

  abbrev pub put : String → Job F → Store F → Store F
  put id job st = record st { files = insert id (some job) st.files }

  readable-if :
      (b : Bool) (job : Job F) (o : Option (Option (Job F)))
      → readable (if b then some (some job) else o) ≡ (if b then some job else readable o)
  readable-if true job o = refl
  readable-if false job o = refl

  pub load_job-put :
      (id : String) (job : Job F) (st : Store F) (j : String)
      → load_job j (put id job st) ≡ (if id == j then some job else load_job j st)
  unfolding load_job
  load_job-put id job st j =
      ap readable (lookup-insert id j (some job) st.files)
      ∙ readable-if (id == j) job (lookup j st.files)

  -- A key that a reap does not set.
  pub lookup-reaped-id :
      (later : F) (error : String) (job : Job F)
      → lookup "id" (reaped later error job) ≡ lookup "id" job
  unfolding reaped
  lookup-reaped-id later error job = simp lookup-insert

  pub is_running-reaped :
      (later : F) (error : String) (job : Job F) → is_running (reaped later error job) ≡ false
  unfolding reaped is_running field_is
  is_running-reaped later error job = simp lookup-insert

  if_same :
      (id j : String) (st : Store F)
      → load_job j st ≡ (if id == j then load_job id st else load_job j st)
  if_same id j st = elim (Bool-cases (id == j)) [
    | inl e ↦ rw e (ap (λ k. load_job k st) (sym ((eq_iff id j).0 e)))
    | inr e ↦ rw e refl
  ]

module _ (host : Host) where
  open host use {F}

  pub save_job-filed :
      (id : String) (job : Job F) (st : Store F)
      → lookup "id" job ≡ some (str id)
      → st.writable ≡ true
      → save_job host job st ≡ return (put id job st)
  unfolding save_job text_of
  save_job-filed id job st filed writable = ap (λ o. save_as host job o st) filed ∙ rw writable refl

  save_job-closed :
      (id : String) (job : Job F) (st : Store F)
      → lookup "id" job ≡ some (str id)
      → st.writable ≡ false
      → save_job host job st ≡ raise os_error
  unfolding save_job text_of
  save_job-closed id job st filed closed = ap (λ o. save_as host job o st) filed ∙ rw closed refl

  pub save_job-return :
      (id : String) (job : Job F) (st st' : Store F)
      → lookup "id" job ≡ some (str id)
      → save_job host job st ≡ return st'
      → st' ≡ put id job st
  save_job-return id job st st' filed h = elim (Bool-cases st.writable) [
    | inl open_file ↦ return_eq (sym h ∙ save_job-filed id job st filed open_file)
    | inr closed ↦ absurd (raise≢return (sym (save_job-closed id job st filed closed) ∙ h))
  ]

  module _ (m : Moment F) (later : F) (id : String) (reason : Option String) where
    -- The record that a reap ends: a running one whose worker is gone.
    abbrev pub is_gone : Job F → Bool
    is_gone job = is_running job && not (worker_liveness host m job).0

    abbrev pub ended : Option (Job F) → Option (Job F)
    ended none = none
    ended (some job) = some (
        if is_gone job
        then reaped later (or_reason reason (worker_liveness host m job).1) job
        else job)

    -- What a reap returns and leaves.
    pub record Ends (st : Store F) (r : Result (Option (Job F)) × Store F) : Type 0 where
      pub result : r.0 ≡ return (ended (load_job id st))
      pub files :
          (j : String)
          → load_job j r.1 ≡ (if id == j then ended (load_job id st) else load_job j st)
      pub held : r.1.held ≡ st.held
      pub writable : r.1.writable ≡ st.writable

    kept :
        (st : Store F) (o : Option (Job F))
        → load_job id st ≡ o
        → ended o ≡ o
        → Ends st (return o, st)
    kept st o there same =
        let e = ap ended there ∙ same in
        record {
          result = ap return (sym e);
          files =
              λ j. if_same id j st ∙ ap (λ o. if id == j then o else load_job j st) (there ∙ sym e);
          held = refl;
          writable = refl;
        }

    wrote :
        (st : Store F) (job new : Job F)
        → load_job id st ≡ some job
        → ended (some job) ≡ some new
        → Ends st (return (some new), put id new st)
    wrote st job new there same =
        let e = ap ended there ∙ same in
        record {
          result = ap return (sym e);
          files = λ j.
              load_job-put id new st j ∙ ap (λ o. if id == j then o else load_job j st) (sym e);
          held = refl;
          writable = refl;
        }

    pub reap_stale_job-Ends :
        (st : Store F)
        → IsFiled st
        → lease_free id st ≡ true
        → st.writable ≡ true
        → Ends st (reap_stale_job host m later id reason st)
    unfolding reap_stale_job
    reap_stale_job-Ends st filed free writable = rw free (by_record (load_job id st) refl)
      where
        by_live :
            (job : Job F) (v : Bool × String)
            → load_job id st ≡ some job
            → is_running job ≡ true
            → worker_liveness host m job ≡ v
            → Ends st (reap_dead host later reason job v st)
        by_live job (true, why) there runs e = kept st (some job) there (rw (runs, e) refl)
        by_live job (false, why) there runs e =
            let error = or_reason reason why in
            subst (λ r. Ends st (saved (some (reaped later error job)) st r))
              (sym (
                save_job-filed id (reaped later error job) st
                  (lookup-reaped-id later error job ∙ filed id job there) writable))
              (wrote st job (reaped later error job) there (rw (runs, e) refl))

        by_record :
            (o : Option (Job F))
            → load_job id st ≡ o
            → Ends st (reap_current host m later reason o st)
        by_record none e = kept st none e refl
        by_record (some job) e =
            if_ind (Ends st) (is_running job)
              (λ runs. by_live job (worker_liveness host m job) e runs refl)
              (λ over. kept st (some job) e (rw over refl))

    -- A reap keeps each record in its file.
    pub Ends-IsFiled :
        (st : Store F) (r : Result (Option (Job F)) × Store F)
        → IsFiled st
        → Ends st r
        → IsFiled r.1
    Ends-IsFiled st r filed ends j job there = by_file (Bool-cases (id == j))
      where
        of_ended :
            (o : Option (Job F))
            → load_job id st ≡ o
            → ended o ≡ some job
            → lookup "id" job ≡ some (str id)
        of_ended none e h = absurd (none≢some h)
        of_ended (some old) e h =
            sym (ap (lookup "id") (some_eq h))
            ∙ if_ind (λ new. lookup "id" new ≡ some (str id)) (is_gone old)
                (λ _. lookup-reaped-id later _ old ∙ filed id old e) (λ _. filed id old e)

        by_file : ((id == j) ≡ true) ⊎ ((id == j) ≡ false) → lookup "id" job ≡ some (str j)
        by_file (inl same) =
            of_ended (load_job id st) refl (sym (ends.files j ∙ rw same refl) ∙ there)
            ∙ ap (λ k. some (str k)) ((eq_iff id j).0 same)
        by_file (inr other) = filed j job (sym (ends.files j ∙ rw other refl) ∙ there)
