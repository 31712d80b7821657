-- ===== src/Worktree/Clean/Careful.antt =====
-- engine/worktree_manager.py: what `clean` may remove.
use gitreins.Prelude.{
  ◌≡◌, refl, sym, ap, subst, ◌∙◌, ◌⊎◌, inl, inr, Bool, true, false, List, [], ◌∷◌, Option, none,
  some, ◌==◌, string_eq, All, if_ind, map, Bool-cases,
}
use text.Mathlib.TextEquality.{eq_iff}
use gitreins.Prelude.Dict.{Dict}
use gitreins.Prelude.Text.{Text}
use gitreins.Worktree.State.{WorktreeRecord, Command, Outcome, returned, raised, pure, Host}
use gitreins.Worktree.State.Returned.{returned_value, Gave, bind-returned}
use gitreins.Worktree.Reconcile.{reconcile_and_persist}
use gitreins.Worktree.Checkout.{is_clean}
use gitreins.Worktree.Clean.{
  Fate, removed, kept, is_protected, ended, caught, blocker_of, failed_reap_blocker, reap_now,
  unless_blocked, fate_of, Decision, sweep, remaining, clean,
}

module _ (h : Host) where
  open h use {W, F}

  -- A failed tree may go when it is gone already or is clean.
  abbrev IsSpent : WorktreeRecord F → Type 0
  IsSpent r = Gave (h.is_dir r.path) false ⊎ Gave (is_clean h r.path) true

  -- Why a task was removed, and that a merged one is not kept.
  abbrev pub MayHave : Bool → WorktreeRecord F → Fate → Type 0
  MayHave confirm r (removed deleted) =
      (r.state ≡ "merged")
      ⊎ (((r.state ≡ "failed") × IsSpent r) ⊎ ((is_protected r.state ≡ true) × (confirm ≡ true)))
  MayHave confirm r (kept reason) = (r.state == "merged") ≡ false

  reap_now-returned :
      (r : WorktreeRecord F) (w : W) {f : Fate} {v : W}
      → reap_now h r w ≡ (returned f, v)
      → (b : Bool) × (f ≡ removed b)
  reap_now-returned r w k =
      let (b, u, _, k1) = bind-returned _ _ w k in (b, sym (returned_value k1))

  ended-some :
      (o : Outcome Bool × W) {b : Bool} {v : W}
      → ended o ≡ (returned (some b), v)
      → o ≡ (returned b, v)
  unfolding ended
  ended-some (returned a, u) k = cc
  ended-some (raised e, u) k = cc

  blocker_of-none : (o : Option Bool) → blocker_of o ≡ none → o ≡ some true
  blocker_of-none none e = cc
  blocker_of-none (some true) e = refl
  blocker_of-none (some false) e = cc

  spent :
      (r : WorktreeRecord F) (w : W) {v : W}
      → failed_reap_blocker h r w ≡ (returned none, v)
      → IsSpent r
  unfolding failed_reap_blocker caught
  spent r w k =
      let (there, u, asked, k1) = bind-returned _ _ w k in
      elim (Bool-cases there) [
        | inl here ↦
            let (o, u2, caught_at, k2) = bind-returned _ _ u (rw here at k1) in
            let e = blocker_of-none o (returned_value k2) in
            inr (
              u,
              u2,
              ended-some (is_clean h r.path u)
                  (caught_at ∙ ap (λ (x : Option Bool). (returned x, u2)) e),
            )
        | inr gone ↦ inl (w, u, asked ∙ ap (λ (x : Bool). (returned x, u)) gone)
      ]

  unless_blocked-MayHave :
      (confirm : Bool) (r : WorktreeRecord F) (o : Option Text) (w : W) {f : Fate} {v : W}
      → (r.state == "merged") ≡ false
      → r.state ≡ "failed"
      → (o ≡ none → IsSpent r)
      → unless_blocked h r o w ≡ (returned f, v)
      → MayHave confirm r f
  unless_blocked-MayHave confirm r none w unmerged failed spent k =
      let (b, e) = reap_now-returned r w k in
      subst (MayHave confirm r) (sym e) (inr (inl (failed, spent refl)))
  unless_blocked-MayHave confirm r (some reason) w unmerged failed spent k =
      subst (MayHave confirm r) (returned_value k) unmerged

  -- A command whose fates are all allowed.
  abbrev Allows : Bool → WorktreeRecord F → Command W Fate → Type 0
  Allows confirm r m = (f : Fate) (w v : W) → m w ≡ (returned f, v) → MayHave confirm r f

  reap_now-Allows :
      (confirm : Bool) (r : WorktreeRecord F)
      → ((b : Bool) → MayHave confirm r (removed b))
      → Allows confirm r (reap_now h r)
  reap_now-Allows confirm r may f w v k =
      let (b, e) = reap_now-returned r w k in subst (MayHave confirm r) (sym e) (may b)

  kept-Allows :
      (confirm : Bool) (r : WorktreeRecord F)
      → (r.state == "merged") ≡ false
      → Allows confirm r (pure (kept none))
  kept-Allows confirm r unmerged f w v k = subst (MayHave confirm r) (returned_value k) unmerged

  fate_of-Allows : (confirm : Bool) (r : WorktreeRecord F) → Allows confirm r (fate_of h confirm r)
  unfolding fate_of
  fate_of-Allows confirm r =
      if_ind (Allows confirm r) (r.state == "merged")
        (λ e. reap_now-Allows confirm r (λ b. inl ((eq_iff r.state "merged").0 e)))
        (λ unmerged.
          if_ind (Allows confirm r) (r.state == "failed")
            (λ e f w v k.
              let (o, u, blocked, k1) = bind-returned _ _ w k in
              unless_blocked-MayHave confirm r o u unmerged ((eq_iff r.state "failed").0 e)
                (λ n. spent r w (blocked ∙ ap (λ (x : Option Text). (returned x, u)) n)) k1)
            (λ _.
              if_ind (Allows confirm r) (is_protected r.state)
                (λ guarded.
                  if_ind (Allows confirm r) confirm
                    (λ sure. reap_now-Allows confirm r (λ b. inr (inr (guarded, sure))))
                    (λ _. kept-Allows confirm r unmerged))
                (λ _. kept-Allows confirm r unmerged)))

  -- The decisions are about the records, in order, and each is allowed.
  abbrev pub AreCareful : Bool → Dict (WorktreeRecord F) → List (Decision h) → Type 0
  AreCareful confirm records decisions =
      (map (λ (d : Decision h). (d.task_id, d.of)) decisions ≡ records)
      × All (λ (d : Decision h). MayHave confirm d.of d.fate) decisions

  sweep-AreCareful :
      (confirm : Bool) (records : Dict (WorktreeRecord F)) (w : W) {ds : List (Decision h)} {v : W}
      → sweep h confirm records w ≡ (returned ds, v)
      → AreCareful confirm records ds
  unfolding sweep
  sweep-AreCareful confirm [] w k = subst (AreCareful confirm []) (returned_value k) (refl, tt)
  sweep-AreCareful confirm ((task_id, r) ∷ others) w k =
      let (fate, w1, decided, k1) = bind-returned _ _ w k in
      let (ds, w2, swept, k2) = bind-returned _ _ w1 k1 in
      let (same, all) = sweep-AreCareful confirm others w1 swept in
      subst (AreCareful confirm ((task_id, r) ∷ others)) (returned_value k2) (
        ap (λ (rs : Dict (WorktreeRecord F)). (task_id, r) ∷ rs) same,
        (fate_of-Allows confirm r fate w w1 decided, all),
      )

  -- A `clean` that returns has decided on each reconciled record, in order: a tree that it removed is
  -- of a merged task, or of a failed one whose tree was gone or held no uncommitted work, or of a
  -- stale or orphan one under the confirmation; and no merged task is kept. The registry was then
  -- saved with what is kept.
  pub clean-AreCareful :
      (confirm : Bool) (w : W) (ds : List (Decision h)) (v : W)
      → clean h confirm w ≡ (returned ds, v)
      → (records : Dict (WorktreeRecord F)) × Gave (reconcile_and_persist h) records
        × AreCareful confirm records ds
        × Gave (h.save_registry (remaining h ds)) tt
  unfolding clean
  clean-AreCareful confirm w ds v k =
      let (records, w1, read, k1) = bind-returned _ _ w k in
      let (decisions, w2, swept, k2) = bind-returned _ _ w1 k1 in
      let (_, w3, saved, k3) = bind-returned _ _ w2 k2 in
      let e = returned_value k3 in
      (
        records,
        (w, w1, read),
        subst (AreCareful confirm records) e (sweep-AreCareful confirm records w1 swept),
        subst (λ (x : List (Decision h)). Gave (h.save_registry (remaining h x)) tt) e
            (w2, w3, saved),
      )
