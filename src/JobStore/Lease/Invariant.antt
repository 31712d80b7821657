-- ===== src/JobStore/Lease/Invariant.antt =====
-- engine/job_store.py: what holds between the steps of beats and reaps.
use gitreins.Prelude.{ℕ, ◌≡◌, ◌≢◌, refl, sym, ap, ◌∙◌, subst, false, Option, none, some}
use gitreins.Prelude.{String, if◌then◌else◌, ◌==◌, nat_eq, ◌⊎◌, inl, inr, Bool-cases, [], ◌∷◌}
use gitreins.Prelude.{string_eq, nat_beq_iff}
use text.Mathlib.TextPositions.{eq_refl}
use gitreins.Prelude.Dict.{lookup, insert, lookup-insert}
use gitreins.JobStore.Record.{Host, Job, str, float}
use gitreins.JobStore.Store.{Store, return, load_job, save_job, stamped, update}
use gitreins.JobStore.Store.Reap.{
  put, load_job-put, lookup-reaped-id, save_job-return, some_eq, none≢some, true≢false,
}
use gitreins.JobStore.Lease.{
  Stage, idle, leased, loaded, written, System, move, Step, acquire, load, stamp, reap, release,
  Reach, here, next,
}

lookup-update :
    {F : Type 0} (key : String) (job extra : Job F)
    → lookup key extra ≡ none
    → lookup key (update job extra) ≡ lookup key job
unfolding lookup update
lookup-update key job [] h = refl
lookup-update key job ((k, v) ∷ extra) h = elim (Bool-cases (k == key)) [
  | inl same ↦ absurd (none≢some (sym h ∙ ap (λ b. if b then some v else lookup key extra) same))
  | inr other ↦
      lookup-update key (insert k v job) extra
        (sym (ap (λ b. if b then some v else lookup key extra) other) ∙ h)
      ∙ lookup-insert k key v job
      ∙ rw other refl
]

idle≢loaded : {F : Type 0} {o : Option (Job F)} → idle ≢ loaded o
idle≢loaded h = cc

leased≢loaded : {F : Type 0} {o : Option (Job F)} → leased ≢ loaded o
leased≢loaded h = cc

written≢loaded : {F : Type 0} {o : Option (Job F)} → written ≢ loaded o
written≢loaded h = cc

idle≢leased : {F : Type 0} → ◌≢◌ {A = Stage F} idle leased
idle≢leased h = cc

loaded_eq : {F : Type 0} {o p : Option (Job F)} → loaded o ≡ loaded p → o ≡ p
loaded_eq h = cc

module _ (host : Host) (id : String) where
  open host use {F}

  -- Who is at work holds the lease, what it has read is still in the file, and the file is named
  -- after its record.
  pub record Inv (s : System F) : Type 0 where
    pub holds : (a : ℕ) → s.stage a ≢ idle → s.holder ≡ some a
    pub read : (a : ℕ) (o : Option (Job F)) → s.stage a ≡ loaded o → load_job id s.store ≡ o
    pub filed : (job : Job F) → load_job id s.store ≡ some job → lookup "id" job ≡ some (str id)

  apart_absurd : (a b : ℕ) → (a == b) ≡ false → a ≡ b → ⊥
  apart_absurd a b h e = true≢false (sym ((nat_beq_iff a b).1 e) ∙ h)

  same_holder : {o : Option ℕ} {a b : ℕ} → o ≡ some a → o ≡ some b → a ≡ b
  same_holder h k = some_eq (sym h ∙ k)

  -- Where the processes stand after one has moved.
  moved :
      (s : System F) (a b : ℕ) (x : Stage F)
      → ((a ≡ b) × ((move a x s).stage b ≡ x))
        ⊎ (((a == b) ≡ false) × ((move a x s).stage b ≡ s.stage b))
  moved s a b x = elim (Bool-cases (a == b)) [
    | inl same ↦ inl ((nat_beq_iff a b).0 same, ap (λ c. if c then x else s.stage b) same)
    | inr other ↦ inr (other, ap (λ c. if c then x else s.stage b) other)
  ]

  busy-of_loaded : {x : Stage F} {o : Option (Job F)} → x ≡ loaded o → x ≢ idle
  busy-of_loaded h e = idle≢loaded (sym e ∙ h)

  Inv-acquire :
      (s : System F) (a : ℕ)
      → s.holder ≡ none
      → Inv s
      → Inv (move a leased (record s { holder = some a }))
  Inv-acquire s a free inv = record {
    holds = λ b h. elim (moved s a b leased) [
      | inl (e, _) ↦ ap some e
      | inr (_, e) ↦ absurd (none≢some (sym free ∙ inv.holds b (λ k. h (e ∙ k))))
    ];
    read = λ b o h. elim (moved s a b leased) [
      | inl (_, e) ↦ absurd (leased≢loaded (sym e ∙ h))
      | inr (_, e) ↦ inv.read b o (sym e ∙ h)
    ];
    filed = inv.filed;
  }

  Inv-load :
      (s : System F) (a : ℕ)
      → s.stage a ≡ leased
      → Inv s
      → Inv (move a (loaded (load_job id s.store)) s)
  Inv-load s a at inv = record {
    holds = λ b h. elim (moved s a b (loaded (load_job id s.store))) [
      | inl (e, _) ↦ inv.holds a (λ k. idle≢leased (sym k ∙ at)) ∙ ap some e
      | inr (_, e) ↦ inv.holds b (λ k. h (e ∙ k))
    ];
    read = λ b o h. elim (moved s a b (loaded (load_job id s.store))) [
      | inl (_, e) ↦ loaded_eq (sym e ∙ h)
      | inr (_, e) ↦ inv.read b o (sym e ∙ h)
    ];
    filed = inv.filed;
  }

  Inv-release :
      (s : System F) (a : ℕ)
      → s.holder ≡ some a
      → Inv s
      → Inv (move a idle (record s { holder = none }))
  Inv-release s a held inv = record {
    holds = λ b h. elim (moved s a b idle) [
      | inl (_, e) ↦ absurd (h e)
      | inr (apart, e) ↦
          absurd (apart_absurd a b apart (same_holder held (inv.holds b (λ k. h (e ∙ k)))))
    ];
    read = λ b o h. elim (moved s a b idle) [
      | inl (_, e) ↦ absurd (idle≢loaded (sym e ∙ h))
      | inr (_, e) ↦ inv.read b o (sym e ∙ h)
    ];
    filed = inv.filed;
  }

  Inv-write :
      (s : System F) (a : ℕ) (o : Option (Job F)) (new : Job F)
      → s.stage a ≡ loaded o
      → lookup "id" new ≡ some (str id)
      → Inv s
      → Inv (move a written (record s { store = put id new s.store }))
  Inv-write s a o new at name inv = record {
    holds = λ b h. elim (moved s a b written) [
      | inl (e, _) ↦ held ∙ ap some e
      | inr (_, e) ↦ inv.holds b (λ k. h (e ∙ k))
    ];
    read = λ b o' h. elim (moved s a b written) [
      | inl (_, e) ↦ absurd (written≢loaded (sym e ∙ h))
      | inr (apart, e) ↦
          absurd
            (apart_absurd a b apart (same_holder held (inv.holds b (busy-of_loaded (sym e ∙ h)))))
    ];
    filed = λ job h. ap (lookup "id") (sym (some_eq (sym (there new) ∙ h))) ∙ name;
  }
    where
      held : s.holder ≡ some a
      held = inv.holds a (busy-of_loaded at)

      there : (new : Job F) → load_job id (put id new s.store) ≡ some new
      there new = load_job-put id new s.store id ∙ rw (eq_refl id) refl

  -- The two writes, as what they put in the file.
  written_record :
      (s : System F) (a : ℕ) (job new : Job F) (st : Store F)
      → s.stage a ≡ loaded (some job)
      → lookup "id" new ≡ lookup "id" job
      → save_job host new s.store ≡ return st
      → Inv s
      → (lookup "id" new ≡ some (str id)) × (st ≡ put id new s.store)
  written_record s a job new st at same h inv =
      let name = same ∙ inv.filed job (inv.read a (some job) at) in
      (name, save_job-return host id new s.store st name h)

  Inv-save :
      (s : System F) (a : ℕ) (job new : Job F) (st : Store F)
      → s.stage a ≡ loaded (some job)
      → lookup "id" new ≡ lookup "id" job
      → save_job host new s.store ≡ return st
      → Inv s
      → Inv (move a written (record s { store = st }))
  Inv-save s a job new st at same h inv =
      let (name, e) = written_record s a job new st at same h inv in
      subst (λ st. Inv (move a written (record s { store = st }))) (sym e)
        (Inv-write s a (some job) new at name inv)

  lookup-stamped :
      (now : F) (extra job : Job F)
      → lookup "id" extra ≡ none
      → lookup "id" (stamped host now extra job) ≡ lookup "id" job
  unfolding stamped
  lookup-stamped now extra job plain =
      lookup-update "id" (insert "heartbeat_at" (float now) job) extra plain
      ∙ lookup-insert "heartbeat_at" "id" (float now) job

  pub Inv-Step : (s t : System F) → Step host id s t → Inv s → Inv t
  Inv-Step s t (acquire _ a e free) inv = Inv-acquire s a free inv
  Inv-Step s t (load _ a e) inv = Inv-load s a e inv
  Inv-Step s t (stamp _ a now extra job st e runs plain h) inv =
      Inv-save s a job (stamped host now extra job) st e (lookup-stamped now extra job plain) h inv
  Inv-Step s t (reap _ a m later reason job st e runs dead h) inv =
      Inv-save s a job _ st e (lookup-reaped-id later _ job) h inv
  Inv-Step s t (release _ a e) inv = Inv-release s a e inv

  pub Inv-start :
      (s : System F)
      → ((a : ℕ) → s.stage a ≡ idle)
      → ((job : Job F) → load_job id s.store ≡ some job → lookup "id" job ≡ some (str id))
      → Inv s
  Inv-start s rest filed = record {
    holds = λ a h. absurd (h (rest a));
    read = λ a o h. absurd (idle≢loaded (sym (rest a) ∙ h));
    filed = filed;
  }

  pub Inv-Reach : (s t : System F) → Reach host id s t → Inv s → Inv t
  Inv-Reach s t here inv = inv
  Inv-Reach s t (next {t = m} path step) inv = Inv-Step m t step (Inv-Reach s m path inv)
