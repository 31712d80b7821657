-- ===== src/Worktree/Marks/Laws.antt =====
-- engine/worktree_manager.py: what a mark on a lane changes.
use gitreins.Prelude.{
  ◌≡◌, ◌≢◌, refl, subst, true, Option, none, some, String, Bool-cases, inl, inr, ◌==◌, string_eq,
  arith,
}
use text.Mathlib.TextEquality.{eq_iff}
use gitreins.Prelude.Dict.{Dict, lookup, insert, lookup-insert, lookup-insert_self}
use gitreins.Worktree.State.{WorktreeRecord}
use gitreins.Worktree.Reconcile.{is_lane_state}
use gitreins.Worktree.Marks.{marked, Evidence, update_record, lane_record, mark_lane}

module _ {F : Type 0} where
  -- A mark that took: the phase is a state of a lane, the record of the task is the old one marked,
  -- no other task's record has changed, and a start that was known stands.
  pub record HasMarked (task_id phase : String) (records later : Dict (WorktreeRecord F))
      (r : WorktreeRecord F) : Type 0 where
    pub lane : is_lane_state phase ≡ true
    pub stored : lookup task_id later ≡ some r
    pub others : (other : String) → other ≢ task_id → lookup other later ≡ lookup other records
    pub old : WorktreeRecord F
    pub was : lookup task_id records ≡ some old
    pub placed : (r.path ≡ old.path) × (r.branch ≡ old.branch) × (r.branch_point ≡ old.branch_point)
    pub started : (at : F) → old.started_at ≡ some at → r.started_at ≡ some at

  marked_eq :
      {d e : Dict (WorktreeRecord F)} {r s : WorktreeRecord F}
      → marked d r ≡ marked e s
      → (d ≡ e) × (r ≡ s)
  marked_eq h = (cc, cc)

  started_stays :
      (phase : String) (now : F) (e : Evidence) (old : WorktreeRecord F) (at : F)
      → old.started_at ≡ some at
      → (lane_record phase now e old).started_at ≡ some at
  started_stays phase now e old at h = elim (Bool-cases (phase == "running")) [
    | inl running ↦ rw (running, h) refl
    | inr other ↦ rw (other, h) refl
  ]

  lookup-other :
      (task_id other : String) (r : WorktreeRecord F) (records : Dict (WorktreeRecord F))
      → other ≢ task_id
      → lookup other (insert task_id r records) ≡ lookup other records
  lookup-other task_id other r records ne =
      ground (arith, lookup-insert task_id other r records, eq_iff task_id other)

  module _ (task_id phase : String) (now : F) (e : Evidence)
      (records : Dict (WorktreeRecord F)) where
    update-HasMarked :
        (o : Option (WorktreeRecord F)) {later : Dict (WorktreeRecord F)} {r : WorktreeRecord F}
        → is_lane_state phase ≡ true
        → lookup task_id records ≡ o
        → update_record task_id (lane_record phase now e) records o ≡ marked later r
        → HasMarked task_id phase records later r
    update-HasMarked none lane was h = cc
    update-HasMarked (some old) lane was h =
        let (d, s) = marked_eq h in
        subst2 d s record {
          lane = lane;
          stored = lookup-insert_self task_id (lane_record phase now e old) records;
          others = λ other ne. lookup-other task_id other _ records ne;
          old = old;
          was = was;
          placed = (refl, refl, refl);
          started = started_stays phase now e old;
        }
      where
        subst2 :
            {d later : Dict (WorktreeRecord F)} {s r : WorktreeRecord F}
            → d ≡ later
            → s ≡ r
            → HasMarked task_id phase records d s
            → HasMarked task_id phase records later r
        subst2 {d} {later} {s} {r} p q m =
            subst (λ x. HasMarked task_id phase records x r) p
              (subst (λ y. HasMarked task_id phase records d y) q m)

    -- A `mark_lane` that raises nothing has a phase that is a state of a lane; the registry that it
    -- saves has the marked record for the task and the old record of every other task; and the mark
    -- keeps the path, the branch and the branch point, and the time of the start once it is known.
    pub mark_lane-HasMarked :
        {later : Dict (WorktreeRecord F)} {r : WorktreeRecord F}
        → mark_lane task_id phase now e records ≡ marked later r
        → HasMarked task_id phase records later r
    unfolding mark_lane
    mark_lane-HasMarked h = elim (Bool-cases (is_lane_state phase)) [
      | inl lane ↦ update-HasMarked (lookup task_id records) lane refl (rw lane at h)
      | inr other ↦ cc
    ]
