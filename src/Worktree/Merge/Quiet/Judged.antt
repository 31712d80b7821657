-- ===== src/Worktree/Merge/Quiet/Judged.antt =====
-- engine/worktree_manager.py: what a quiet `merge` merges was judged.
use gitreins.Prelude.{
  ◌≡◌, refl, inr, not, ◌&&◌, sym, ap, subst, ◌∙◌, inl, Bool, true, false, Option, some, String,
  ◌==◌, text_eq, text_beq_iff, or_false,
}
use gitreins.Prelude.Dict.{Dict}
use gitreins.Prelude.Text.{Text}
use gitreins.Worktree.State.{
  WorktreeRecord, returned, ◌>>=◌, when, need, Host, branch_gone, invalid_task, no_actor,
}
use gitreins.Worktree.Checkout.{branch_tip}
use gitreins.Worktree.Ready.{Ready, blank, branch_for, find_record, get_ready}
use gitreins.Worktree.Merge.{
  Merged, rebase_onto, follow_main, recheck, finish, gates, merge_from, merge,
}
use gitreins.Worktree.State.Returned.{
  returned_value, returned_world, bind-returned, need-returned, some_value, negated,
  refuse_if-returned,
}
use gitreins.Worktree.Merge.Gated.{
  hold_gate-returned, fresh_gate-returned, guard_gate-returned, apply-returned, refuse_if-world,
  Ran, IsFound, IsJudged, IsRejudged, IsCleared,
}
use gitreins.Worktree.Merge.Quiet.{
  IsQuiet, refuse_if-Keeps, need-Keeps, Yields, Holding, bind-Yields, bind-Holding, need-Holding,
  pure-Holding, head-Keeps, branch_tip-Holding, is_ancestor-Keeps, is_clean-Keeps,
  known_commit-Keeps, hold_gate-Keeps, fresh_gate-Keeps, guard_gate-Keeps,
}

module _ (h : Host) (tip_in : h.W → Option Text) where
  open h use {W, F}

  module _ (r : WorktreeRecord F) (quiet : IsQuiet h tip_in r.branch) (task_id : String) where
    abbrev AtCommit : Text → W → Type 0
    AtCommit commit v = tip_in v ≡ some commit

    rebase_onto-tip : (ready : Ready) → Yields h tip_in (rebase_onto h r ready) AtCommit
    unfolding rebase_onto
    rebase_onto-tip ready = bind-Yields h tip_in _ _ AtCommit (λ _.
        bind-Yields h tip_in _ _ AtCommit (λ _. branch_tip-Holding h tip_in quiet _ AtCommit (λ o.
          need-Holding h tip_in o o _ _ AtCommit (λ commit there.
            bind-Holding h tip_in o _ _ AtCommit (head-Keeps h tip_in quiet _) (λ _.
              bind-Holding h tip_in o _ _ AtCommit (refuse_if-Keeps h tip_in _ _)
                (λ _. pure-Holding h tip_in o commit AtCommit (λ v at. at ∙ there)))))))

    abbrev AtSource : Ready → W → Type 0
    AtSource ready v = tip_in v ≡ some ready.source_head

    get_ready-tip : Yields h tip_in (get_ready h r) AtSource
    unfolding get_ready
    get_ready-tip = bind-Yields h tip_in _ _ AtSource (λ _. bind-Yields h tip_in _ _ AtSource (λ _.
        bind-Yields h tip_in _ _ AtSource (λ _. bind-Yields h tip_in _ _ AtSource (λ _.
          bind-Yields h tip_in _ _ AtSource (λ _. bind-Yields h tip_in _ _ AtSource (λ _.
            bind-Yields h tip_in _ _ AtSource (λ _.
              branch_tip-Holding h tip_in quiet _ AtSource (λ o.
                bind-Holding h tip_in o _ _ AtSource (need-Keeps h tip_in _ _) (λ _.
                  need-Holding h tip_in o o _ _ AtSource (λ source there.
                    bind-Holding h tip_in o _ _ AtSource
                      (known_commit-Keeps h tip_in quiet r.branch_point)
                      (λ _.
                        bind-Holding h tip_in o _ _ AtSource (refuse_if-Keeps h tip_in _ _) (λ _.
                          bind-Holding h tip_in o _ _ AtSource (need-Keeps h tip_in _ _) (λ _.
                            bind-Holding h tip_in o _ _ AtSource (refuse_if-Keeps h tip_in _ _)
                              (λ _.
                                pure-Holding h tip_in o _ AtSource
                                  (λ v at. at ∙ there)))))))))))))))

    recheck-tip :
        (ready : Ready) (t : Option Text)
        → Holding h tip_in t (recheck h r ready) (λ tip v. t ≡ some tip)
    unfolding recheck
    recheck-tip ready t = bind-Holding h tip_in t _ _ Same (head-Keeps h tip_in quiet _) (λ _.
        bind-Holding h tip_in t _ _ Same (refuse_if-Keeps h tip_in _ _) (λ _.
          bind-Holding h tip_in t _ _ Same (is_clean-Keeps h tip_in quiet _) (λ _.
            bind-Holding h tip_in t _ _ Same (refuse_if-Keeps h tip_in _ _) (λ _.
              bind-Holding h tip_in t _ _ Same (is_clean-Keeps h tip_in quiet _) (λ _.
                bind-Holding h tip_in t _ _ Same (refuse_if-Keeps h tip_in _ _) (λ _.
                  bind-Holding h tip_in t _ _ Same (is_ancestor-Keeps h tip_in quiet _ _) (λ _.
                    bind-Holding h tip_in t _ _ Same (refuse_if-Keeps h tip_in _ _)
                      (λ _. last_read))))))))
      where
        Same : Text → W → Type 0
        Same tip v = t ≡ some tip

        last_read : Holding h tip_in t (branch_tip h r.branch >>= λ tip. need tip branch_gone) Same
        last_read a w v at e =
            let (o, u, e1, e2) = bind-returned _ _ w e in
            sym at ∙ sym (quiet.reads o w u e1) ∙ need-returned o _ u e2

    follow_main-tip :
        (ready : Ready) (a : Unit) (w v : W)
        → follow_main h false task_id r ready w ≡ (returned a, v)
        → (commit : Text) × IsRejudged h task_id r ready commit w v × (tip_in v ≡ some commit)
    unfolding follow_main
    follow_main-tip ready a w v k =
        let (commit, w1, rebased, k1) = bind-returned _ _ w k in
        let (_, w2, guarded, k2) = bind-returned _ _ w1 k1 in
        let (_, w3, fresh, k3) = bind-returned _ _ w2 k2 in
        (
          commit,
          (
            w1,
            w2,
            rebased,
            guard_gate-returned h task_id r w1 guarded,
            subst (IsJudged h task_id r commit w2) (returned_world k3)
                (fresh_gate-returned h task_id r commit w2 fresh),
          ),
          ap tip_in (sym (returned_world k3))
              ∙ fresh_gate-Keeps h tip_in quiet task_id r commit _ w2 w3 fresh
              ∙ guard_gate-Keeps h tip_in quiet task_id r _ w1 w2 guarded
              ∙ rebase_onto-tip ready commit w w1 rebased,
        )

    -- What the gates let through from the world `u`: the tip is the commit that they cleared.
    abbrev Through : Ready → W → W → Type 0
    Through ready u v =
        (commit : Text) × IsCleared h task_id r ready commit u × (tip_in v ≡ some commit)

    when-Through :
        (ready : Ready) (w u : W) (same : Bool) (a : Unit) (v : W)
        → (ready.main_head == ready.branch_point) ≡ same
        → IsFound h task_id r ready.source_head w u
        → tip_in u ≡ some ready.source_head
        → when (not same) (follow_main h false task_id r ready) u ≡ (returned a, v)
        → Through ready w v
    when-Through ready w u true a v e found at k =
        (ready.source_head, (u, found, inl (e, refl)), ap tip_in (sym (returned_world k)) ∙ at)
    when-Through ready w u false a v e found at k =
        let (commit, again, there) = follow_main-tip ready a u v k in
        (commit, (u, found, inr (e, (v, again))), there)

    module _ (actor : Option Text) (reason : Text) where
      gates-Through :
          (ready : Ready) (a : Unit) (w v : W)
          → tip_in w ≡ some ready.source_head
          → gates h false actor reason task_id r ready w ≡ (returned a, v)
          → Through ready w v
      unfolding gates
      gates-Through ready a w v at k =
          let (_, w1, held, k1) = bind-returned _ _ w k in
          let (_, w2, found, k2) = bind-returned _ _ w held in
          when-Through ready w w1 (ready.main_head == ready.branch_point) a v refl
            (subst (IsFound h task_id r ready.source_head w) (returned_world k2)
              (hold_gate-returned h task_id r ready.source_head w found))
            (ap tip_in (sym (returned_world k2))
              ∙ hold_gate-Keeps h tip_in quiet task_id r ready.source_head _ w w2 found
              ∙ at)
            k1

      finish-commit :
          (records : Dict (WorktreeRecord F)) (ready : Ready) (t : Option Text)
          → Holding h tip_in t
              (finish h false actor reason task_id records r ready)
              (λ m v. t ≡ some m.source_commit)
      unfolding finish
      finish-commit records ready t a w v at k =
          let (tip, w1, checked, k1) = bind-returned _ _ w k in
          let (_, w2, _, k2) = bind-returned _ _ w1 k1 in
          let (commit, w3, ran, k3) = bind-returned _ _ w2 k2 in
          let (_, w4, _, k4) = bind-returned _ _ w3 k3 in
          let (_, w5, _, k5) = bind-returned _ _ w4 k4 in
          let (_, same) = apply-returned h task_id r tip w2 ran in
          recheck-tip ready t tip w w1 at checked
          ∙ ap some (sym same ∙ ap (λ (x : Merged). x.source_commit) (returned_value k5))

      merge_from-Judged :
          (records : Dict (WorktreeRecord F)) (m : Merged) (w v : W)
          → merge_from h false actor reason task_id (records, r) w ≡ (returned m, v)
          → (ready : Ready) × (w1 : W) × Ran h (get_ready h r) w ready w1
            × IsCleared h task_id r ready m.source_commit w1
      unfolding merge_from
      merge_from-Judged records m w v k =
          let (ready, w1, checked, k1) = bind-returned _ _ w k in
          let (_, w2, gated, k2) = bind-returned _ _ w1 k1 in
          let (commit, cleared, at) =
            gates-Through ready _ w1 w2 (get_ready-tip ready w w1 checked) gated in
          (
            ready,
            w1,
            checked,
            subst (λ c. IsCleared h task_id r ready c w1)
                (some_value (finish-commit records ready (some commit) m w2 v at k2)) cleared,
          )

  find_record-branch :
      (task_id : String)
      → Yields h tip_in (find_record h task_id) (λ found v. found.1.branch ≡ branch_for task_id)
  unfolding find_record
  find_record-branch task_id a w v k =
      let (_, w1, _, k1) = bind-returned _ _ w k in
      let (r, w2, _, k2) = bind-returned _ _ w1 k1 in
      let (_, w3, _, k3) = bind-returned _ _ w2 k2 in
      let (_, w4, _, k4) = bind-returned _ _ w3 k3 in
      let (_, w5, _, k5) = bind-returned _ _ w4 k4 in
      let (_, w6, safe, k6) = bind-returned _ _ w5 k5 in
      let (_, w7, _, k7) = bind-returned _ _ w6 k6 in
      let (_, w8, _, k8) = bind-returned _ _ w7 k7 in
      let e =
        ap (λ (x : Dict (WorktreeRecord F) × WorktreeRecord F). x.1.branch) (returned_value k8) in
      sym e
      ∙ (text_beq_iff r.branch (branch_for task_id)).0 (
          negated (r.branch == branch_for task_id)
            (or_false _ _ (refuse_if-returned _ _ w5 safe)).0)

  -- The commit of a merge from the world `w` was cleared by its gates, for the record of the task
  -- and the facts that the merge read.
  abbrev pub IsMergeCleared : String → W → Text → Type 0
  IsMergeCleared task_id w commit =
      (records : Dict (WorktreeRecord F)) × (r : WorktreeRecord F) × (w1 : W) × Ran h
        (find_record h task_id) w (records, r) w1
      × ((ready : Ready) × (w2 : W) × Ran h (get_ready h r) w1 ready w2
          × IsCleared h task_id r ready commit w2)

  -- While the tip of the task's branch is what `git rev-parse` says and nothing but `merge` itself
  -- moves it, the commit that an unforced `merge` returns is one that its gates cleared: where main
  -- was at the branch point, the tip that was read, with an acceptable verdict found for it; and
  -- elsewhere the commit of the rebase, on whose tree the guard passed and the judge then ran, with
  -- an acceptable verdict for that commit.
  pub merge-IsJudged :
      (actor : Option Text) (reason : Text) (task_id : String)
      → IsQuiet h tip_in (branch_for task_id)
      → (w : W) (m : Merged) (v : W) → merge h false actor reason task_id w ≡ (returned m, v)
      → IsMergeCleared task_id w m.source_commit
  unfolding merge
  merge-IsJudged actor reason task_id quiet w m v k =
      let (_, w1, named, k1) = bind-returned _ _ w k in
      let (_, w2, acted, k2) = bind-returned _ _ w1 k1 in
      let ((records, r), w3, got, k3) = bind-returned _ _ w2 k2 in
      let at = find_record-branch task_id (records, r) w2 w3 got in
      let same =
        refuse_if-world h (not (h.valid_id task_id)) invalid_task w named
        ∙ refuse_if-world h (false && blank h actor) no_actor w1 acted in
      (
        records,
        r,
        w3,
        ap (find_record h task_id) same ∙ got,
        merge_from-Judged r (subst (IsQuiet h tip_in) (sym at) quiet) task_id actor reason records m
            w3 v k3,
      )
