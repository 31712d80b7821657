-- ===== src/Tier1Lock/Laws.antt =====
-- engine/tier1_lock.py: the wait ends, and no descriptor is left open.
use gitreins.Prelude.{
  ℕ, zero, suc, ◌+◌, ◌<◌, ◌≡◌, refl, sym, ap, subst, ◌∙◌, ◌⊎◌, inl, inr, Bool, true, false,
}
use gitreins.Prelude.{
  List, ◌∷◌, Option, none, some, String, string_eq, nat_eq, ◌==◌, if_ind, beq_refl,
}
use gitreins.Prelude.{arith, Bool-cases}
use gitreins.Tier1Lock.Lock.{
  Process, World, close, success, attempts, keep_or_close, settle_wait, try_lock, acquire, release,
  release_fd,
}

true≢false : true ≡ false → ⊥
true≢false h = cc

module _ (world : World) where
  open world use {tier1, opened, granted, expired}

  abbrev pub word : Bool → ℕ → String
  word waited zero = success world waited
  word waited (suc last) = "waited"

  always_waited : (last : ℕ) → word true last ≡ "waited"
  always_waited zero = refl
  always_waited (suc last) = refl

  add_zero : (k : ℕ) → k + 0 ≡ k
  add_zero k = omega arith

  add_suc : (k n : ℕ) → k + suc n ≡ k + 1 + n
  add_suc k n = omega arith

  not_below_zero : (j : ℕ) → j < 0 → ⊥
  not_below_zero j h = omega arith

  below_suc : (j n : ℕ) → suc j < suc n → j < n
  below_suc j n h = omega arith

  -- The attempt that ends the wait: the first that gets the lock or finds the deadline passed.
  pub record Ends (start last : ℕ) (waited : Bool) (result : String) : Type 0 where
    pub before : (j : ℕ) → j < last → (granted (start + j) ≡ false) × (expired (start + j) ≡ false)
    pub outcome :
        ((granted (start + last) ≡ true) × (result ≡ word waited last))
        ⊎ ((granted (start + last) ≡ false)
            × (expired (start + last) ≡ true)
            × (result ≡ "wait-expired"))

  Ends-granted : (k : ℕ) (waited : Bool) → granted k ≡ true → Ends k 0 waited (success world waited)
  Ends-granted k waited g = record {
    before = λ j h. absurd (not_below_zero j h);
    outcome = inl (ap granted (add_zero k) ∙ g, refl);
  }

  Ends-expired :
      (k : ℕ) (waited : Bool)
      → granted k ≡ false
      → expired k ≡ true
      → Ends k 0 waited "wait-expired"
  Ends-expired k waited ng e = record {
    before = λ j h. absurd (not_below_zero j h);
    outcome = inr (ap granted (add_zero k) ∙ ng, ap expired (add_zero k) ∙ e, refl);
  }

  Ends-later :
      (k last : ℕ) (waited : Bool) (result : String)
      → granted k ≡ false
      → expired k ≡ false
      → Ends (k + 1) last true result
      → Ends k (suc last) waited result
  Ends-later k last waited result ng ne ends = record { before = before; outcome = outcome }
    where
      before : (j : ℕ) → j < suc last → (granted (k + j) ≡ false) × (expired (k + j) ≡ false)
      before zero h = (ap granted (add_zero k) ∙ ng, ap expired (add_zero k) ∙ ne)
      before (suc j) h =
          let (g, e) = ends.before j (below_suc j last h) in
          (ap granted (add_suc k j) ∙ g, ap expired (add_suc k j) ∙ e)

      outcome :
          ((granted (k + suc last) ≡ true) × (result ≡ "waited"))
          ⊎ ((granted (k + suc last) ≡ false)
              × (expired (k + suc last) ≡ true)
              × (result ≡ "wait-expired"))
      outcome = elim ends.outcome [
        | inl (g, e) ↦ inl (ap granted (add_suc k last) ∙ g, e ∙ always_waited last)
        | inr (g, x, e) ↦ inr (ap granted (add_suc k last) ∙ g, ap expired (add_suc k last) ∙ x, e)
      ]

  -- When the deadline has passed `n` attempts after `k`, fuel for `n + 1` attempts gives a result:
  -- that of the first attempt from `k` on that gets the lock or finds the deadline passed. With the
  -- lock it is "acquired" when that is `k` and nothing was waited for before, and "waited" otherwise;
  -- without the lock it is "wait-expired".
  pub attempts-Ends :
      (n k : ℕ) (waited : Bool)
      → expired (k + n) ≡ true
      → (result : String) × (last : ℕ) × (attempts world (suc n) k waited ≡ some result)
        × Ends k last waited result
  unfolding attempts
  attempts-Ends zero k waited over = elim (Bool-cases (granted k)) [
    | inl g ↦ (success world waited, 0, rw g refl, Ends-granted k waited g)
    | inr ng ↦
        let e = ap expired (sym (add_zero k)) ∙ over in
        ("wait-expired", 0, rw (ng, e) refl, Ends-expired k waited ng e)
  ]
  attempts-Ends (suc n) k waited over =
      let (result, last, found, ends) =
        attempts-Ends n (k + 1) true (ap expired (sym (add_suc k n)) ∙ over) in
      elim (Bool-cases (granted k)) [
        | inl g ↦ (success world waited, 0, rw g refl, Ends-granted k waited g)
        | inr ng ↦ elim (Bool-cases (expired k)) [
          | inl e ↦ ("wait-expired", 0, rw (ng, e) refl, Ends-expired k waited ng e)
          | inr ne ↦
              (result, suc last, rw (ng, ne) found, Ends-later k last waited result ng ne ends)
        ]
      ]

  -- A release gives back what an acquire has opened.
  abbrev Balanced : Process → Option (Option String × Process) → Type 0
  Balanced p none = Unit
  Balanced p (some (result, p')) =
      ((release p').lock_fd ≡ none) × ((release p').open_fds ≡ p.open_fds)

  close-same : (fd : ℕ) (fds : List ℕ) → close fd (fd ∷ fds) ≡ fds
  unfolding close
  close-same fd fds = rw (beq_refl fd) refl

  release-none : (p : Process) → p.lock_fd ≡ none → release p ≡ p
  unfolding release
  release-none p h = ap (λ o. release_fd o p) h

  release-unlocked :
      (p p' : Process)
      → p'.lock_fd ≡ none
      → p'.open_fds ≡ p.open_fds
      → ((release p').lock_fd ≡ none) × ((release p').open_fds ≡ p.open_fds)
  release-unlocked p p' free same =
      let e = release-none p' free in
      (ap (λ (q : Process). q.lock_fd) e ∙ free, ap (λ (q : Process). q.open_fds) e ∙ same)

  keep_or_close-Balanced :
      (fd : ℕ) (p : Process) (result : String)
      → p.lock_fd ≡ none
      → Balanced p (some (keep_or_close world fd p result))
  unfolding release
  keep_or_close-Balanced fd p result free =
      if_ind (λ (r : Option String × Process). Balanced p (some r)) (result == "wait-expired")
        (λ _. release-unlocked p _ free (close-same fd p.open_fds))
        (λ _. (refl, close-same fd p.open_fds))

  try_lock-Balanced :
      (o : Option ℕ) (fuel : ℕ) (p : Process)
      → p.lock_fd ≡ none
      → Balanced p (try_lock world o fuel p)
  try_lock-Balanced none fuel p free = release-unlocked p _ free refl
  try_lock-Balanced (some fd) fuel p free = settled (attempts world fuel 0 false)
    where
      settled : (o : Option String) → Balanced p (settle_wait world fd p o)
      settled none = tt
      settled (some result) = keep_or_close-Balanced fd p result free

  acquire-Balanced : (fuel : ℕ) (p : Process) → p.lock_fd ≡ none → Balanced p (acquire world fuel p)
  unfolding acquire
  acquire-Balanced fuel p free =
      if_ind (Balanced p) tier1 (λ _. try_lock-Balanced opened fuel p free)
        (λ _. release-unlocked p p free refl)

  -- A process that holds no lock acquires, whatever comes of it, and releases: then it holds no
  -- lock, and it has the descriptors open that it had.
  pub release-acquire :
      (fuel : ℕ) (p p' : Process) (result : Option String)
      → p.lock_fd ≡ none
      → acquire world fuel p ≡ some (result, p')
      → ((release p').lock_fd ≡ none) × ((release p').open_fds ≡ p.open_fds)
  release-acquire fuel p p' result free e = subst (Balanced p) e (acquire-Balanced fuel p free)
