-- ===== src/JobStore/Store/Listing.antt =====
-- engine/job_store.py, `list_jobs`: which records it lists.
use gitreins.Prelude.{◌≡◌, refl, ◌∙◌, sym, ap, subst, List, [], ◌∷◌}
use gitreins.Prelude.{Option, none, some, String, if◌then◌else◌, ◌==◌, string_eq, if_ind}
use gitreins.Prelude.{Bool-cases, inl, inr, ◌≢◌, All}
use mathlib.Core.List.{Memᴰ}
use mathlib.Core.List.Memᴰ.{head, tail, cases_cons, not-nil}
use text.Mathlib.TextEquality.{eq_iff}
use gitreins.Prelude.Dict.{Dict, lookup}
use gitreins.JobStore.Record.{Host, Job, str}
use gitreins.JobStore.Store.{
  Store, load_job, put_listed, listed, insert_newest, sort_newest, list_jobs, started_at, readable,
}
use gitreins.JobStore.Store.Reap.{none≢some, IsFiled}

module _ (host : Host) where
  open host use {F, larger, abspath}

  -- The listing holds every record that can be read and is not empty.
  insert_newest-here : (job : Job F) (jobs : List (Job F)) → Memᴰ job (insert_newest host job jobs)
  unfolding insert_newest
  insert_newest-here job [] = head refl
  insert_newest-here job (other ∷ jobs) =
      if_ind (Memᴰ job) (larger (started_at host other) (started_at host job))
        (λ _. tail (insert_newest-here job jobs)) (λ _. head refl)

  insert_newest-there :
      (new job : Job F) (jobs : List (Job F))
      → Memᴰ job jobs
      → Memᴰ job (insert_newest host new jobs)
  unfolding insert_newest
  insert_newest-there new job [] m = absurd (not-nil m)
  insert_newest-there new job (other ∷ jobs) m =
      if_ind (Memᴰ job) (larger (started_at host other) (started_at host new))
        (λ _. elim (cases_cons m) [
          | inl e ↦ head e
          | inr later ↦ tail (insert_newest-there new job jobs later)
        ])
        (λ _. tail m)

  sort_newest-Mem :
      (job : Job F) (jobs : List (Job F)) → Memᴰ job jobs → Memᴰ job (sort_newest host jobs)
  unfolding sort_newest
  sort_newest-Mem job [] m = m
  sort_newest-Mem job (other ∷ jobs) m = elim (cases_cons m) [
    | inl e ↦
        subst (λ j. Memᴰ j (insert_newest host other (sort_newest host jobs))) (sym e)
          (insert_newest-here other (sort_newest host jobs))
    | inr later ↦
        insert_newest-there other job (sort_newest host jobs) (sort_newest-Mem job jobs later)
  ]

  put_listed-there :
      (o : Option (Job F)) (job : Job F) (jobs : List (Job F))
      → Memᴰ job jobs
      → Memᴰ job (put_listed host o jobs)
  unfolding put_listed
  put_listed-there none job jobs m = m
  put_listed-there (some []) job jobs m = m
  put_listed-there (some (f ∷ fs)) job jobs m = tail m

  put_listed-here :
      (job : Job F) (jobs : List (Job F)) → job ≢ [] → Memᴰ job (put_listed host (some job) jobs)
  unfolding put_listed
  put_listed-here [] jobs full = absurd (full refl)
  put_listed-here (f ∷ fs) jobs full = head refl

  listed-Mem :
      (st : Store F) (files : Dict (Option (Job F))) (id : String) (job : Job F)
      → readable (lookup id files) ≡ some job
      → load_job id st ≡ some job
      → job ≢ []
      → Memᴰ job (listed host st files)
  unfolding listed lookup
  listed-Mem st [] id job h there full = absurd (none≢some h)
  listed-Mem st ((name, content) ∷ files) id job h there full = elim (Bool-cases (name == id)) [
    | inl same ↦
        subst (λ o. Memᴰ job (put_listed host o (listed host st files)))
          (sym (ap (λ k. load_job k st) ((eq_iff name id).0 same) ∙ there))
          (put_listed-here job (listed host st files) full)
    | inr other ↦ put_listed-there (load_job name st) job (listed host st files) (
        listed-Mem st files id job
          (ap (λ b. readable (if b then some content else lookup id files)) (sym other) ∙ h) there
          full)
  ]

  pub list_jobs-Mem :
      (st : Store F) (id : String) (job : Job F)
      → load_job id st ≡ some job
      → job ≢ []
      → Memᴰ job (list_jobs host st)
  unfolding list_jobs load_job
  list_jobs-Mem st id job there full =
      sort_newest-Mem job (listed host st st.files) (listed-Mem st st.files id job there there full)

  -- A listed record is named by its own id.
  abbrev pub HasId : Job F → Type 0
  HasId job = (id : String) × (lookup "id" job ≡ some (str id))

  insert_newest-HasId :
      (job : Job F) (jobs : List (Job F))
      → HasId job
      → All HasId jobs
      → All HasId (insert_newest host job jobs)
  unfolding insert_newest
  insert_newest-HasId job [] h hs = (h, tt)
  insert_newest-HasId job (other ∷ jobs) h hs =
      if_ind (All HasId) (larger (started_at host other) (started_at host job))
        (λ _. (hs.0, insert_newest-HasId job jobs h hs.1)) (λ _. (h, hs))

  sort_newest-HasId : (jobs : List (Job F)) → All HasId jobs → All HasId (sort_newest host jobs)
  unfolding sort_newest
  sort_newest-HasId [] hs = tt
  sort_newest-HasId (job ∷ jobs) hs =
      insert_newest-HasId job (sort_newest host jobs) hs.0 (sort_newest-HasId jobs hs.1)

  put_listed-HasId :
      (o : Option (Job F)) (jobs : List (Job F))
      → ((job : Job F) → o ≡ some job → HasId job)
      → All HasId jobs
      → All HasId (put_listed host o jobs)
  unfolding put_listed
  put_listed-HasId none jobs h hs = hs
  put_listed-HasId (some []) jobs h hs = hs
  put_listed-HasId (some (f ∷ fs)) jobs h hs = (h (f ∷ fs) refl, hs)

  listed-HasId :
      (st : Store F) (files : Dict (Option (Job F))) → IsFiled st → All HasId (listed host st files)
  unfolding listed
  listed-HasId st [] filed = tt
  listed-HasId st ((name, content) ∷ files) filed =
      put_listed-HasId (load_job name st) (listed host st files)
        (λ job there. (name, filed name job there)) (listed-HasId st files filed)

  pub list_jobs-HasId : (st : Store F) → IsFiled st → All HasId (list_jobs host st)
  unfolding list_jobs
  list_jobs-HasId st filed =
      sort_newest-HasId (listed host st st.files) (listed-HasId st st.files filed)
