-- ===== src/Gate/Coverage/Partition.antt =====
-- Every criterion that is to be graded ends up graded or ungraded, once; the note names a shortfall.
use gitreins.Prelude.{ℕ, List, [], ◌∷◌, ◌++◌, Option, none, some}
use gitreins.Prelude.{Bool-cases, inl, inr, ◌==◌, text_eq}
use mathlib.Core.List.{Perm, Sublist, perm_append_comm, append_assoc, append-nil, nil-sublist}
use mathlib.Core.List.Perm
use mathlib.Core.List.Sublist
use gitreins.Prelude.Text.{Text, codes}
use gitreins.Gate.Value.{Value, Runtime}
use gitreins.Gate.Coverage.{
  Tally, fresh, item_at, norm, status_of, find_match, settle, grade, grade_all, verdict_items,
  wanted, check_coverage,
}

module _ (py : Runtime) (items : List Value) where
  settle-perm :
      (t : Tally) (c : Text) (o : Option ℕ)
      → Perm
          ((settle py items t c o).graded ++ (settle py items t c o).ungraded)
          ((t.graded ++ t.ungraded) ++ c ∷ [])
  unfolding settle
  settle-perm t c none = rw append_assoc Perm.rfl
  settle-perm t c (some i) =
      rw (append_assoc, append_assoc)
        (Perm.append_left t.graded (perm_append_comm (c ∷ []) t.ungraded))

  grade_all-perm :
      (cs : List Text) (t : Tally)
      → Perm
          ((grade_all py items t cs).graded ++ (grade_all py items t cs).ungraded)
          ((t.graded ++ t.ungraded) ++ cs)
  unfolding grade_all grade
  grade_all-perm [] t = rw append-nil Perm.rfl
  grade_all-perm (c ∷ cs) t = Perm.trans (grade_all-perm cs (grade py items t c)) (
      rw (← append_assoc (t.graded ++ t.ungraded) (c ∷ []) cs)
        (Perm.append_right cs (settle-perm t c (find_match py (norm py c) t.used items))))

  settle-sublist :
      (t : Tally) (c : Text) (o : Option ℕ)
      → Sublist t.failing t.graded
      → Sublist (settle py items t c o).failing (settle py items t c o).graded
  unfolding settle
  settle-sublist t c none h = h
  settle-sublist t c (some i) h =
      elim (Bool-cases (status_of py (item_at items i) == codes "PASS")) [
        | inl pass ↦ rw pass (rw (← append-nil t.failing) (Sublist.append h (nil-sublist (c ∷ []))))
        | inr fail ↦ rw fail (Sublist.append h (Sublist.refl (c ∷ [])))
      ]

  grade_all-sublist :
      (cs : List Text) (t : Tally)
      → Sublist t.failing t.graded
      → Sublist (grade_all py items t cs).failing (grade_all py items t cs).graded
  unfolding grade_all grade
  grade_all-sublist [] t h = h
  grade_all-sublist (c ∷ cs) t h =
      grade_all-sublist cs _ (settle-sublist t c (find_match py (norm py c) t.used items) h)

-- The coverage splits the criteria that are not blank into graded and ungraded ones, each as often
-- as it was asked for, and those that do not pass are among the graded ones, in their order.
pub check_coverage_partition :
    (py : Runtime) (verdict : Value) (criteria : List Text)
    → Perm
        ((check_coverage py verdict criteria).graded
          ++ (check_coverage py verdict criteria).ungraded)
        (wanted py criteria)
      × Sublist
          (check_coverage py verdict criteria).failing
          (check_coverage py verdict criteria).graded
unfolding check_coverage
check_coverage_partition py verdict criteria = (
  grade_all-perm py (verdict_items verdict) (wanted py criteria) fresh,
  grade_all-sublist py (verdict_items verdict) (wanted py criteria) fresh (nil-sublist []),
)
