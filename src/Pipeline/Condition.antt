-- ===== src/Pipeline/Condition.antt =====
-- engine/pipeline.py, `_check_condition`. The parts of a split hold no separator any more, so the
-- recursion of the source goes through three kinds of expression: those with `or`, those with
-- `and`, and the others.
use gitreins.Prelude.{
  ℕ, zero, suc, ◌-◌, Bool, true, false, not, ◌&&◌, ◌||◌, List, [], ◌∷◌, ◌++◌, Option, none, some,
  if◌then◌else◌, ◌==◌, text_eq, is_empty, length, any,
}
use gitreins.Prelude.Text.{Text, Unicode, codes, strip, starts_with}
use gitreins.Prelude.Dict.{Dict}
use gitreins.Gate.Value.{Value, null, get_field, truthy}
use gitreins.Pipeline.Result.{StageResult}

-- `text.split(sep)` where `sep` is not empty; the number is of code points of a separator that are
-- still to be passed over.
split_loop : Text → ℕ → Text → Text → List Text
split_loop sep skip word [] = word ∷ []
split_loop sep (suc skip) word (c ∷ s) = split_loop sep skip word s
split_loop sep zero word (c ∷ s) = elim (starts_with (c ∷ s) sep) [
  | true ↦ word ∷ split_loop sep (length sep - 1) [] s
  | false ↦ split_loop sep 0 (word ++ c ∷ []) s
]

unfoldable pub split_on : Text → Text → List Text
unfolding split_loop starts_with
split_on sep s = split_loop sep 0 [] s

-- `sep in text`
unfoldable pub holds : Text → Text → Bool
holds sep [] = is_empty sep
holds sep (c ∷ s) = starts_with (c ∷ s) sep || holds sep s

-- `self._stage_results.get(stage_id)`, for an id that stands in a text
unfoldable pub stage_named : Text → Dict StageResult → Option StageResult
stage_named name [] = none
stage_named name (first ∷ others) =
    if codes first.0 == name then some first.1 else stage_named name others

stage_property : Text → Option StageResult → Bool
stage_property prop none = false
stage_property prop (some stage) =
    if prop == codes "any_failed"
    then stage.any_failed
    else if prop == codes "passed"
    then stage.passed
    else false

unfoldable pub parts_hold : Dict StageResult → List Text → Bool
unfolding stage_property
parts_hold stages (word ∷ stage_id ∷ prop ∷ []) = stage_property prop (stage_named stage_id stages)
parts_hold stages parts = false

abbrev pub all_of {ℓ} : {A : Type ℓ} → (A → Bool) → List A → Bool
all_of p [] = true
all_of p (x ∷ xs) = p x && all_of p xs

module _ (u : Unicode) (stages : Dict StageResult) (task : Value) where
  -- The individual predicates.
  unfoldable pub check_atom : Text → Bool
  check_atom condition =
      if condition == codes "task.has_criteria"
      then truthy (get_field task "criteria" null)
      else if condition == codes "task.skip_tier2"
      then truthy (get_field task "skip_tier2" null)
      else if condition == codes "not task.skip_tier2"
      then not (truthy (get_field task "skip_tier2" null))
      else if starts_with condition (codes "stage.")
      then parts_hold stages (split_on (codes ".") condition)
      else true

  -- The tests at the head of `_check_condition`, and what is done behind them.
  abbrev pub headed : (Text → Bool) → Text → Bool
  headed rest condition =
      if is_empty condition
      then true
      else if condition == codes "true" || condition == codes "always"
      then true
      else if condition == codes "false"
      then false
      else rest (strip u condition)

  unfoldable pub check_and : Text → Bool
  check_and condition =
      if holds (codes " and ") condition
      then all_of (λ part. headed check_atom (strip u part)) (split_on (codes " and ") condition)
      else check_atom condition

  unfoldable pub check_or : Text → Bool
  check_or condition =
      if holds (codes " or ") condition
      then any (λ part. headed check_and (strip u part)) (split_on (codes " or ") condition)
      else check_and condition

  unfoldable pub check_condition : Option Text → Bool
  check_condition none = true
  check_condition (some condition) = headed check_or condition
