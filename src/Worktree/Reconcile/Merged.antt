-- ===== src/Worktree/Reconcile/Merged.antt =====
-- engine/worktree_manager.py: what `reconcile` calls merged.
use gitreins.Prelude.{
  ◌≡◌, ap, subst, ◌∙◌, Bool, true, false, List, [], ◌∷◌, Option, none, some, String, All,
  Bool-cases, inl, inr, if_ind, string_eq,
}
use text.Mathlib.TextEquality.{eq_iff}
use gitreins.Prelude.Dict.{Dict}
use gitreins.Prelude.Text.{Text, codes}
use gitreins.Worktree.State.{WorktreeRecord, returned, TreeMeta, GitResult, Host}
use gitreins.Worktree.State.Returned.{returned_value, Gave, bind-returned}
use gitreins.Worktree.Checkout.{succeeded, branch_tip}
use gitreins.Worktree.Reconcile.{
  is_point, merged_at, is_lane_state, branch_is_merged, live_state, in_tree, of_meta, find_tree,
  classify, classify_all, reconcile,
}

false≢true : false ≡ true → ⊥
false≢true h = cc

module _ (h : Host) where
  open h use {W, F, main_root, git, resolve}

  -- The branch has a tip that is not its branch point, and git said that it is an ancestor of HEAD.
  pub record IsMerged (branch : Text) (branch_point : Option Text) : Type 0 where
    pub tip : Text
    pub read : Gave (branch_tip h branch) (some tip)
    pub beyond : is_point branch_point tip ≡ false
    pub found : GitResult
    pub asked :
        Gave
          (git main_root (codes "merge-base" ∷ codes "--is-ancestor" ∷ branch ∷ codes "HEAD" ∷ []))
          found
    pub ancestor : succeeded found ≡ true

  branch_is_merged-IsMerged :
      (r : WorktreeRecord F) (w : W) {v : W}
      → branch_is_merged h r w ≡ (returned true, v)
      → IsMerged r.branch r.branch_point
  unfolding branch_is_merged
  branch_is_merged-IsMerged r w {v} k =
      let (o, u, read, k1) = bind-returned _ _ w k in by_tip o u read k1
    where
      by_tip :
          (o : Option Text) (u : W)
          → branch_tip h r.branch w ≡ (returned o, u)
          → merged_at h r o u ≡ (returned true, v)
          → IsMerged r.branch r.branch_point
      by_tip none u read k1 = cc
      by_tip (some tip) u read k1 = elim (Bool-cases (is_point r.branch_point tip)) [
        | inl at ↦ cc
        | inr past ↦
            let (found, u2, asked, k2) = bind-returned _ _ u (rw past at k1) in
            record {
              tip = tip;
              read = (w, u, read);
              beyond = past;
              found = found;
              asked = (u, u2, asked);
              ancestor = returned_value k2;
            }
      ]

  -- A state that a round gives is "merged" only for a merged branch.
  abbrev pub IsTrue : WorktreeRecord F → Type 0
  IsTrue r = r.state ≡ "merged" → IsMerged r.branch r.branch_point

  lane_state-unmerged : (state : String) → is_lane_state state ≡ true → state ≡ "merged" → ⊥
  lane_state-unmerged state lane merged =
      false≢true (subst (λ s. is_lane_state s ≡ true) merged lane)

  live_state-unmerged :
      (now : F) (r : WorktreeRecord F) → (live_state h now r false).0 ≡ "merged" → ⊥
  live_state-unmerged now r =
      if_ind (λ (x : String × List Text). x.0 ≡ "merged" → ⊥) (h.stale now r.last_heartbeat)
        (λ _ e. false≢true ((eq_iff "stale" "merged").1 e))
        (λ _.
          if_ind (λ (x : String × List Text). x.0 ≡ "merged" → ⊥) (is_lane_state r.state)
            (λ lane e. lane_state-unmerged r.state lane e)
            (λ _ e. false≢true ((eq_iff "running" "merged").1 e)))

  by_answer :
      (now : F) (r : WorktreeRecord F) (b : Bool) (w u : W)
      → branch_is_merged h r w ≡ (returned b, u)
      → (live_state h now r b).0 ≡ "merged"
      → IsMerged r.branch r.branch_point
  by_answer now r true w u read e = branch_is_merged-IsMerged r w read
  by_answer now r false w u read e = absurd (live_state-unmerged now r e)

  orphan_absurd : {A : Type 0} → ◌≡◌ {A = String} "orphan" "merged" → A
  orphan_absurd e = absurd (false≢true ((eq_iff "orphan" "merged").1 e))

  in_tree-IsMerged :
      (now : F) (r : WorktreeRecord F) (there : Bool) (w : W) {x : String × List Text} {v : W}
      → in_tree h now r there w ≡ (returned x, v)
      → x.0 ≡ "merged"
      → IsMerged r.branch r.branch_point
  in_tree-IsMerged now r false w k e =
      orphan_absurd (ap (λ (x : String × List Text). x.0) (returned_value k) ∙ e)
  in_tree-IsMerged now r true w k e =
      let (b, u, read, k1) = bind-returned _ _ w k in
      by_answer now r b w u read (ap (λ (x : String × List Text). x.0) (returned_value k1) ∙ e)

  of_meta-IsMerged :
      (now : F) (r : WorktreeRecord F) (meta : Option TreeMeta) (w : W) {x : String × List Text}
      {v : W}
      → of_meta h now r meta w ≡ (returned x, v)
      → x.0 ≡ "merged"
      → IsMerged r.branch r.branch_point
  of_meta-IsMerged now r none w k e =
      orphan_absurd (ap (λ (x : String × List Text). x.0) (returned_value k) ∙ e)
  of_meta-IsMerged now r (some meta) w k e =
      let (there, u, _, k1) = bind-returned _ _ w k in in_tree-IsMerged now r there u k1 e

  classify-IsTrue :
      (trees : List TreeMeta) (now : F) (r : WorktreeRecord F) (w : W) {c : WorktreeRecord F}
      {v : W}
      → classify h trees now r w ≡ (returned c, v)
      → IsTrue c
  unfolding classify
  classify-IsTrue trees now r w k =
      let (x, u, read, k1) = bind-returned _ _ w k in
      subst IsTrue (returned_value k1)
        (of_meta-IsMerged now r (find_tree (resolve r.path) trees) w read)

  classify_all-AreTrue :
      (trees : List TreeMeta) (now : F) (records : Dict (WorktreeRecord F)) (w : W)
      {classified : Dict (WorktreeRecord F)} {v : W}
      → classify_all h trees now records w ≡ (returned classified, v)
      → All (λ (x : String × WorktreeRecord F). IsTrue x.1) classified
  unfolding classify_all
  classify_all-AreTrue trees now [] w k =
      subst (All (λ (x : String × WorktreeRecord F). IsTrue x.1)) (returned_value k) tt
  classify_all-AreTrue trees now ((task_id, r) ∷ others) w k =
      let (c, w1, read, k1) = bind-returned _ _ w k in
      let (rest, w2, more, k2) = bind-returned _ _ w1 k1 in
      subst (All (λ (x : String × WorktreeRecord F). IsTrue x.1)) (returned_value k2)
        (classify-IsTrue trees now r w read, classify_all-AreTrue trees now others w1 more)

  -- Whatever the registry says, a record is "merged" after a `reconcile` that returns only when its
  -- branch has a tip that is not its branch point, and git found the branch an ancestor of HEAD.
  pub reconcile-AreTrue :
      (w : W) (records : Dict (WorktreeRecord F)) (v : W)
      → reconcile h w ≡ (returned records, v)
      → All (λ (x : String × WorktreeRecord F). IsTrue x.1) records
  unfolding reconcile
  reconcile-AreTrue w records v k =
      let (read, w1, _, k1) = bind-returned _ _ w k in
      let (trees, w2, _, k2) = bind-returned _ _ w1 k1 in
      let (now, w3, _, k3) = bind-returned _ _ w2 k2 in classify_all-AreTrue trees now read w3 k3
