-- ===== src/Worktree/Merge/Gated.antt =====
-- engine/worktree_manager.py: an unforced `merge` that returns has passed the judge's gate.
use gitreins.Prelude.{
  ◌≡◌, refl, sym, ap, subst, ◌∙◌, ◌⊎◌, inl, inr, Bool, true, false, Option, none, some, String,
  arith, ◌==◌, text_eq, text_beq_iff, is_empty, Bool-cases,
}
use gitreins.Prelude.Dict.{Dict}
use gitreins.Prelude.Text.{Text}
use gitreins.Gate.Value.{Value, null, get_field}
use gitreins.Worktree.State.{
  WorktreeRecord, Command, Refusal, returned, when, refuse_if, or_refuse, judge_failed,
  guard_failed, Host,
}
use gitreins.Worktree.State.Returned.{
  raised≢returned, returned_value, returned_world, negated, some_value, Gave, bind-returned,
  need-returned, refuse_if-returned,
}
use gitreins.Worktree.Checkout.{head, branch_tip}
use gitreins.Worktree.Verdict.{
  runner_passed, is_true, is_fresh, tier1_skipped_steps, unwaived, refusal_of, refuse_for, accept,
  find_verdict, fresh_verdict,
}
use gitreins.Worktree.Ready.{Ready, find_record, get_ready}
use gitreins.Worktree.Merge.{
  Merged, hold_gate, fresh_gate, rebase_onto, guard_gate, follow_main, apply,
}

module _ (h : Host) where
  open h use {W, F, main_root}

  -- A verdict that lets a merge through: it passed, no check of Tier 1 was skipped, and it is no
  -- verdict of Tier 1 alone, or its owner waived that.
  pub record IsAcceptable (verdict : Value) : Type 0 where
    pub passed : is_true (get_field verdict "passed" null) ≡ true
    pub whole : is_empty (tier1_skipped_steps h verdict) ≡ true
    pub judged : unwaived h verdict ≡ false

  refusal_of-none : (verdict : Value) → refusal_of h verdict ≡ none → IsAcceptable verdict
  unfolding refusal_of
  refusal_of-none verdict e = record {
    passed = ground arith;
    whole = ground arith;
    judged = ground arith;
  }

  refuse_for-returned :
      (verdict : Value) (e : Option Refusal) (w : W) {a : Value} {v : W}
      → refuse_for h verdict e w ≡ (returned a, v)
      → (verdict ≡ a) × (e ≡ none) × (w ≡ v)
  refuse_for-returned verdict none w k = (returned_value k, refl, returned_world k)
  refuse_for-returned verdict (some e) w k = absurd (raised≢returned k)

  accept-returned :
      (o : Option Value) (w : W) {a : Value} {v : W}
      → accept h o w ≡ (returned a, v)
      → (o ≡ some a) × IsAcceptable a × (w ≡ v)
  unfolding accept
  accept-returned none w k = absurd (raised≢returned k)
  accept-returned (some verdict) w k =
      let (e, n, same) = refuse_for-returned verdict (refusal_of h verdict) w k in
      (ap some e, subst IsAcceptable e (refusal_of-none verdict n), same)

  pub refuse_if-world :
      (b : Bool) (e : Refusal) (w : W) {a : Unit} {v : W}
      → refuse_if b e w ≡ (returned a, v)
      → w ≡ v
  refuse_if-world true e w k = absurd (raised≢returned k)
  refuse_if-world false e w k = returned_world k

  -- What a command that returned did.
  abbrev pub Ran : {A : Type 0} → Command W A → W → A → W → Type 0
  Ran m w a v = m w ≡ (returned a, v)

  module _ (task_id : String) (r : WorktreeRecord F) where
    -- A verdict was found for the commit, and it is acceptable.
    abbrev pub IsFound : Text → W → W → Type 0
    IsFound commit u v =
        (verdict : Value) × Ran (find_verdict h task_id r commit) u (some verdict) v
        × IsAcceptable verdict

    -- The judge ran on the tree; what it returned is a verdict for the commit, or else one was found
    -- for the commit then; and that verdict is acceptable.
    abbrev pub IsJudged : Text → W → W → Type 0
    IsJudged commit u v =
        (fresh : Value) × (u1 : W) × Ran
          (or_refuse (h.judge_runner (h.resolve r.path) task_id) judge_failed) u fresh u1
        × ((verdict : Value) × (((is_fresh commit fresh ≡ true) × (fresh ≡ verdict))
              ⊎ ((is_fresh commit fresh ≡ false)
                  × Ran (find_verdict h task_id r commit) u1 (some verdict) v))
            × IsAcceptable verdict)

    -- The guard ran on the tree and passed.
    abbrev pub IsGuarded : W → W → Type 0
    IsGuarded u v =
        (result : Value) × Ran (or_refuse (h.guard_runner (h.resolve r.path)) guard_failed) u result
          v
        × (runner_passed result ≡ true)

    -- The rebase gave the commit, the guard passed on its tree, and the commit was judged.
    abbrev pub IsRejudged : Ready → Text → W → W → Type 0
    IsRejudged ready commit u v =
        (u1 : W) × (u2 : W) × Ran (rebase_onto h r ready) u commit u1
        × IsGuarded u1 u2
        × IsJudged commit u2 v

    -- What the gates of a merge let through, from the facts `ready` that were read before: the tip of
    -- the branch had an acceptable verdict; and where main has not moved since the branch point the
    -- commit is that tip, and where it has it was rebased, guarded and judged.
    abbrev pub IsCleared : Ready → Text → W → Type 0
    IsCleared ready commit u =
        (u1 : W) × IsFound ready.source_head u u1
        × ((((ready.main_head == ready.branch_point) ≡ true) × (ready.source_head ≡ commit))
            ⊎ (((ready.main_head == ready.branch_point) ≡ false)
                × ((v : W) × IsRejudged ready commit u1 v)))

    pub hold_gate-returned :
        (commit : Text) (w : W) {a : Value} {v : W}
        → hold_gate h task_id r commit w ≡ (returned a, v)
        → IsFound commit w v
    unfolding hold_gate
    hold_gate-returned commit w {a} {v} k =
        let (o, u, found, accepted) = bind-returned _ _ w k in
        let (e, good, same) = accept-returned o u accepted in
        (
          a,
          found
              ∙ ap (λ (x : Option Value). (returned x, u)) e
              ∙ ap (λ x. (returned (some a), x)) same,
          good,
        )

    fresh_verdict-returned :
        (commit : Text) (fresh : Value) (w : W) {o : Option Value} {v : W}
        → fresh_verdict h task_id r commit fresh w ≡ (returned o, v)
        → ((is_fresh commit fresh ≡ true) × (some fresh ≡ o))
          ⊎ ((is_fresh commit fresh ≡ false) × Ran (find_verdict h task_id r commit) w o v)
    unfolding fresh_verdict
    fresh_verdict-returned commit fresh w {o} {v} k = elim (Bool-cases (is_fresh commit fresh)) [
      | inl new ↦ inl (new, returned_value (rw new at k))
      | inr old ↦ inr (old, rw old at k)
    ]

    judged_by :
        (commit : Text) (fresh verdict : Value) (w u v : W) (o : Option Value)
        → o ≡ some verdict
        → u ≡ v
        → ((is_fresh commit fresh ≡ true) × (some fresh ≡ o))
          ⊎ ((is_fresh commit fresh ≡ false) × Ran (find_verdict h task_id r commit) w o u)
        → ((is_fresh commit fresh ≡ true) × (fresh ≡ verdict))
          ⊎ ((is_fresh commit fresh ≡ false)
              × Ran (find_verdict h task_id r commit) w (some verdict) v)
    judged_by commit fresh verdict w u v o e same (inl (new, f)) = inl (new, some_value (f ∙ e))
    judged_by commit fresh verdict w u v o e same (inr (old, ran)) = inr (
      old,
      ran
          ∙ ap (λ (x : Option Value). (returned x, u)) e
          ∙ ap (λ x. (returned (some verdict), x)) same,
    )

    pub fresh_gate-returned :
        (commit : Text) (w : W) {a : Value} {v : W}
        → fresh_gate h task_id r commit w ≡ (returned a, v)
        → IsJudged commit w v
    unfolding fresh_gate
    fresh_gate-returned commit w {a} {v} k =
        let (fresh, u, ran, k2) = bind-returned _ _ w k in
        let (o, u2, gave, accepted) = bind-returned _ _ u k2 in
        let (e, good, same) = accept-returned o u2 accepted in
        (
          fresh,
          u,
          ran,
          (
            a,
            judged_by commit fresh a u u2 v o e same (fresh_verdict-returned commit fresh u gave),
            good,
          ),
        )

    pub guard_gate-returned :
        (w : W) {a : Unit} {v : W} → guard_gate h r w ≡ (returned a, v) → IsGuarded w v
    unfolding guard_gate
    guard_gate-returned w {a} {v} k =
        let (result, u, ran, k2) = bind-returned _ _ w k in
        (
          result,
          ran ∙ ap (λ x. (returned result, x)) (refuse_if-world _ _ u k2),
          negated (runner_passed result) (refuse_if-returned _ _ u k2),
        )

    pub follow_main-returned :
        (ready : Ready) (w : W) {a : Unit} {v : W}
        → follow_main h false task_id r ready w ≡ (returned a, v)
        → (commit : Text) × (u1 : W) × Ran (rebase_onto h r ready) w commit u1
          × IsRejudged ready commit w v
    unfolding follow_main
    follow_main-returned ready w {a} {v} k =
        let (commit, u, rebased, k2) = bind-returned _ _ w k in
        let (_, u2, guarded, k3) = bind-returned _ _ u k2 in
        let (_, u3, fresh, k4) = bind-returned _ _ u2 k3 in
        (
          commit,
          u,
          rebased,
          (
            u,
            u2,
            rebased,
            guard_gate-returned u guarded,
            subst (IsJudged commit u2) (returned_world k4) (fresh_gate-returned commit u2 fresh),
          ),
        )

    pub when-returned :
        (test : Bool) (m : Command W Unit) (w : W) {a : Unit} {v : W}
        → when test m w ≡ (returned a, v)
        → test ≡ true
        → m w ≡ (returned a, v)
    when-returned true m w k e = k
    when-returned false m w k e = cc

    pub apply-returned :
        (tip : Text) (w : W) {commit : Text} {v : W}
        → apply h r tip w ≡ (returned commit, v)
        → Gave (head h main_root) (some commit) × (commit ≡ tip)
    unfolding apply
    apply-returned tip w {commit} k =
        let (_, w1, _, k1) = bind-returned _ _ w k in
        let (_, w2, _, k2) = bind-returned _ _ w1 k1 in
        let (o, w3, gave, k3) = bind-returned _ _ w2 k2 in
        let (main_head, w4, needed, k4) = bind-returned _ _ w3 k3 in
        let (_, w5, same, k5) = bind-returned _ _ w4 k4 in
        let e = returned_value k5 in
        (
          (
            w2,
            w3,
            gave
                ∙ ap (λ (x : Option Text). (returned x, w3))
                    (need-returned o _ w3 needed ∙ ap some e),
          ),
          sym e
              ∙ (text_beq_iff main_head tip).0
                  (negated (main_head == tip) (refuse_if-returned _ _ w4 same)),
        )

  -- A merge from the world `w` that is gated: the gates let a commit through, for the record of the
  -- task and the facts that the merge read; main then stands at the commit that the result names,
  -- which was the branch's tip.
  pub record IsGated (task_id : String) (w : W) (m : Merged) : Type 0 where
    pub records : Dict (WorktreeRecord F)
    pub of_task : WorktreeRecord F
    pub w1 : W
    pub registered : Ran (find_record h task_id) w (records, of_task) w1
    pub ready : Ready
    pub w2 : W
    pub asked : Ran (get_ready h of_task) w1 ready w2
    pub commit : Text
    pub cleared : IsCleared task_id of_task ready commit w2
    pub tip : Gave (branch_tip h of_task.branch) (some m.source_commit)
    pub applied : Gave (head h main_root) (some m.source_commit)
