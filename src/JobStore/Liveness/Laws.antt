-- ===== src/JobStore/Liveness/Laws.antt =====
-- engine/job_store.py: what `worker_liveness` and `worker_identified` answer.
use gitreins.Prelude.{
  ℕ, ◌≡◌, refl, ◌∙◌, sym, ap, ◌↔◌, ◌≢◌, ◌&&◌, Bool, true, false, not, Option, none, some,
}
use gitreins.Prelude.{String, if◌then◌else◌, ◌==◌, string_eq, arith, if_ind}
use text.Mathlib.TextEquality.{eq_iff}
use gitreins.JobStore.Record.{
  Host, Moment, Job, worker_pid, as_pid, is_positive, heartbeat_at, status_text,
}
use gitreins.JobStore.Liveness.{
  answers, alive_as, is_some, pid_alive, names_dead, is_stale, reported, worker_liveness,
}

none≢some : {A : Type 0} {a : A} → none ≢ some a
none≢some h = cc

some_eq : {A : Type 0} {a b : A} → some a ≡ some b → a ≡ b
some_eq h = cc

negated : (b : Bool) → not b ≡ false → b ≡ true
negated b h = ground arith

true≢false : true ≢ false
true≢false h = cc

-- A guard that answers false first.
first_true :
    (b : Bool) (x : String) (r : Bool × String)
    → (if b then (false, x) else r).0 ≡ true
    → (b ≡ false) × (r.0 ≡ true)
first_true true x r h = absurd (true≢false (sym h))
first_true false x r h = (refl, h)

module _ (host : Host) where
  open host use {F}

  -- What makes a record live: it runs, a pid that it names is alive, a heartbeat that it has is
  -- within the cap.
  pub record IsLive (m : Moment F) (job : Job F) : Type 0 where
    pub status : status_text host job ≡ "running"
    pub process : (n : ℕ) → as_pid (worker_pid job) ≡ some n → answers (m.kill n) ≡ true
    pub heartbeat : (t : F) → heartbeat_at host job ≡ some t → is_stale host m t ≡ false

  abbrev AnyAlive : Moment F → Option ℕ → Type 0
  AnyAlive m o = (n : ℕ) → o ≡ some n → answers (m.kill n) ≡ true

  dead_iff :
      (m : Moment F) (o : Option ℕ) → ((is_some o && not (alive_as m o)) ≡ false) ↔ AnyAlive m o
  dead_iff m none = (λ _ n e. absurd (none≢some e), λ _. refl)
  dead_iff m (some n) = (
    λ h k e. ap (λ (o : Option ℕ). alive_as m o) (sym e) ∙ negated (answers (m.kill n)) h,
    λ h. ap not (h n refl),
  )

  reported_iff :
      (m : Moment F) (job : Job F) (o : Option F)
      → ((reported host m job o).0 ≡ true) ↔ ((t : F) → o ≡ some t → is_stale host m t ≡ false)
  unfolding reported
  reported_iff m job none = (
    λ _ t e. absurd (none≢some e),
    λ _.
        if_ind (λ (r : Bool × String). r.0 ≡ true) (is_positive (worker_pid job)) (λ _. refl)
          (λ _. refl),
  )
  reported_iff m job (some t) = (
    λ h u e. ap (is_stale host m) (sym (some_eq e)) ∙ (first_true (is_stale host m t) _ _ h).0,
    λ h. rw (h t refl) refl,
  )

  pub worker_liveness_iff :
      (m : Moment F) (job : Job F) → ((worker_liveness host m job).0 ≡ true) ↔ IsLive m job
  unfolding worker_liveness names_dead pid_alive
  worker_liveness_iff m job = (
    λ h.
        let (runs, rest) = first_true (not (status_text host job == "running")) _ _ h in
        let (no_dead, last) = first_true (names_dead host m job) _ _ rest in
        record {
          status =
              (eq_iff (status_text host job) "running").0
                (negated (status_text host job == "running") runs);
          process = (dead_iff m (as_pid (worker_pid job))).0 no_dead;
          heartbeat = (reported_iff m job (heartbeat_at host job)).0 last;
        },
    λ live. rw (ap not ((eq_iff (status_text host job) "running").1 live.status)) (
        rw ((dead_iff m (as_pid (worker_pid job))).1 live.process)
          ((reported_iff m job (heartbeat_at host job)).1 live.heartbeat)),
  )
