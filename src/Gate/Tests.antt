-- ===== src/Gate/Tests.antt =====
-- Small verdicts, and the theorems at them. The runtime is Python's on ASCII text.
use gitreins.Prelude.{ℕ, ◌+◌, ◌-◌, ◌≡◌, ◌≢◌, refl, ◌↔◌, true, false, ◌&&◌, ◌||◌}
use gitreins.Prelude.{
  List, [], ◌∷◌, ◌++◌, none, some, if◌then◌else◌, leb, ◌==◌, nat_eq, text_beq, contains,
}
use gitreins.Prelude.{arith, String}
use mathlib.Core.List.{Perm, Sublist, flat_map}
use gitreins.Prelude.Text.{Text, codes, starts_with, join, strip, split, upper, casefold}
use gitreins.Gate.Value.{
  Value, null, str, list, dict, object, Items, stop, more, bare, entry, Runtime, get_field, truthy,
  sequence, text_or_empty, elems, field_values, find_field,
}
use gitreins.Gate.PassClass.{pass_class, pass_class_judged}
use gitreins.Gate.Waiver.{
  waiver_satisfied, configured_waiver, recorded_waiver_digest, waiver_satisfied_iff,
}
use gitreins.Gate.Coverage.{
  verdict_is_passing, verdict_outcome, verdict_items, wanted, check_coverage, complete, norm,
  criterion_of, status_of, grade_all, grade, settle, find_match, first_unused, item_at, matches,
}
use gitreins.Gate.Coverage.Sound.{AllPass, verdict_is_passing-AllPass}
use gitreins.Gate.Coverage.Partition.{check_coverage_partition}
use gitreins.Gate.Coverage.Complete.{InOrder, verdict_is_passing_of_InOrder}

abbrev ascii : Runtime
ascii = record {
  unicode = record {
    is_space = λ c. c == 32 || (leb 9 c && leb c 13);
    upper_of = λ c. (if leb 97 c && leb c 122 then c - 32 else c) ∷ [];
    fold_of = λ c. (if leb 65 c && leb c 90 then c + 32 else c) ∷ [];
  };
  show = λ v. [];
}

abbrev item : String → String → Value
item criterion status =
    dict (entry "criterion" (str (codes criterion)) (entry "status" (str (codes status)) bare))

abbrev verdict : String → Items → Value
verdict outcome items =
    object (entry "verdict" (str (codes outcome)) (entry "items" (list items) bare))

abbrev criteria : List Text
criteria = codes "Has a login endpoint" ∷ codes "  " ∷ codes "Has tests" ∷ []

abbrev good : Value
good =
    verdict "complete"
      (more (item "has  a login endpoint" "pass") (more (item "Has tests" "PASS") stop))

abbrev short : Value
short = verdict "COMPLETE" (more (item "Has a login endpoint, and more" "FAIL") stop)

program : Unit {0}
unfolding verdict_is_passing verdict_outcome verdict_items wanted check_coverage complete norm
    criterion_of status_of grade_all grade settle find_match first_unused item_at matches text_beq
    contains starts_with join strip split upper casefold get_field truthy sequence text_or_empty
    elems field_values find_field flat_map
program = tt

good_passes : verdict_is_passing ascii good criteria ≡ true
unfolding program
good_passes = refl

short_fails : verdict_is_passing ascii short criteria ≡ false
unfolding program
short_fails = refl

short_coverage : check_coverage ascii short criteria ≡ record {
  criteria = codes "Has a login endpoint" ∷ codes "Has tests" ∷ [];
  graded = codes "Has a login endpoint" ∷ [];
  ungraded = codes "Has tests" ∷ [];
  failing = codes "Has a login endpoint" ∷ [];
}
unfolding program
short_coverage = refl

verdict_is_passing-AllPass_example :
    (verdict_outcome ascii good ≡ codes "COMPLETE")
    × (wanted ascii criteria ≢ [])
    × (is : List ℕ) × AllPass ascii (verdict_items good) (wanted ascii criteria) is []
verdict_is_passing-AllPass_example = verdict_is_passing-AllPass ascii good criteria good_passes

good_outcome : verdict_outcome ascii good ≡ codes "COMPLETE"
unfolding program
good_outcome = refl

good_wanted : wanted ascii criteria ≢ []
unfolding program
good_wanted h = ground arith

good-InOrder : InOrder ascii (verdict_items good) 0 (wanted ascii criteria)
unfolding program
good-InOrder = (omega arith, refl, refl, (omega arith, refl, refl, tt))

verdict_is_passing_of_InOrder_example : verdict_is_passing ascii good criteria ≡ true
verdict_is_passing_of_InOrder_example =
    verdict_is_passing_of_InOrder ascii good criteria good_outcome good_wanted good-InOrder

check_coverage_partition_example :
    Perm
      ((check_coverage ascii short criteria).graded
        ++ (check_coverage ascii short criteria).ungraded)
      (wanted ascii criteria)
    × Sublist
        (check_coverage ascii short criteria).failing
        (check_coverage ascii short criteria).graded
check_coverage_partition_example = check_coverage_partition ascii short criteria

-- A persisted pipeline record whose stage carries a verdict step.
abbrev staged : Value
staged = dict (
    entry "stages"
      (dict (
        entry "tier2"
          (dict (
            entry "steps"
              (list (
                more
                  (dict (entry "data" (dict (entry "verdict" (str (codes "COMPLETE")) bare)) bare))
                  stop))
              bare))
          bare))
      bare)

staged_judged : pass_class staged ≡ pass_class_judged
unfolding program pass_class
staged_judged = refl

abbrev reversed : Text → Text
reversed t = codes "#" ++ t

abbrev waived : Value
waived = dict (entry "tier2_waiver_digest" (str (codes "#secret")) bare)

waived_ok : waiver_satisfied ascii reversed waived (codes " secret ") none ≡ true
unfolding program waiver_satisfied configured_waiver recorded_waiver_digest
waived_ok = refl

waiver_satisfied_iff_example :
    (waiver_satisfied ascii reversed waived (codes " secret ") none ≡ true) ↔ (
      (t : Text) × (t ≢ [])
      × (configured_waiver ascii reversed (codes " secret ") none ≡ some t)
      × (get_field waived "tier2_waiver_digest" null ≡ str (reversed t))
      × (reversed t ≢ []))
waiver_satisfied_iff_example = waiver_satisfied_iff ascii reversed waived (codes " secret ") none
