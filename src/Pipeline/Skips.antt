-- ===== src/Pipeline/Skips.antt =====
-- engine/pipeline.py, `parse_skip_sentinels` and `_record_runtime_skips`: the gates that did not
-- run, which the marks of a stage name.
pub mod Gathered
pub mod Recorded
use gitreins.Prelude.{
  ℕ, Bool, true, false, not, ◌||◌, List, [], ◌∷◌, ◌++◌, Option, none, some, if◌then◌else◌, map,
  is_empty, contains, text_eq, nat_beq,
}
use mathlib.Core.List.{flat_map}
use gitreins.Prelude.Text.{Text, Unicode, codes, strip, join}
use gitreins.Gate.Value.{Value, Runtime, null, get_field, truthy, text_or_empty}
use gitreins.EvidenceBounds.Lines.{split_newlines, newline}
use gitreins.EvidenceBounds.Marker.{after_prefix}
use gitreins.Pipeline.Result.{StepResult, StageResult, data_of, step_budget_timeout}

-- What stands behind the first place where the mark stands.
unfoldable pub find_after : Text → Text → Option Text
find_after mark [] = after_prefix mark []
find_after mark (c ∷ s) = elim (after_prefix mark (c ∷ s)) [
  | some rest ↦ some rest
  | none ↦ find_after mark s
]

-- `s.partition("=")`, with `none` where there is no separator.
push_front : ℕ → Text × Option Text → Text × Option Text
push_front c (before, behind) = (c ∷ before, behind)

unfoldable pub partition_equals : Text → Text × Option Text
unfolding push_front
partition_equals [] = ([], none)
partition_equals (c ∷ s) =
    if nat_beq c b'=' then ([], some s) else push_front c (partition_equals s)

abbrev pub Skip : Type 0
Skip = Text × Text

module _ (u : Unicode) where
  -- The reason, where there is one.
  reason_of : Option Text → Text
  reason_of none = codes "reason not recorded"
  reason_of (some reason) = strip u reason

  skip_of : Text × Option Text → List Skip
  skip_of (step, reason) =
      if is_empty (strip u step) then [] else (strip u step, reason_of reason) ∷ []

  -- The round of the loop over the lines.
  line_skips : Text → List Skip
  line_skips line = elim (find_after (codes "GITREINS_SKIP:") line) [
    | none ↦ []
    | some payload ↦ skip_of (partition_equals (strip u payload))
  ]

  unfoldable pub parse_skip_sentinels : Text → List Skip
  unfolding line_skips skip_of reason_of find_after after_prefix partition_equals
  parse_skip_sentinels output = flat_map line_skips (split_newlines output)

-- `step_id in stage.skipped_steps or step_id in [sid for sid, _ in found]`
abbrev pub is_known : List Text → List Skip → Text → Bool
is_known skipped found step_id =
    contains skipped step_id || contains (map (λ (skip : Skip). skip.0) found) step_id

-- A loop that appends what is not known yet.
unfoldable pub gather : List Text → List Skip → List Skip → List Skip
gather skipped found [] = found
gather skipped found (skip ∷ skips) =
    gather skipped (if is_known skipped found skip.0 then found else found ++ skip ∷ []) skips

-- What each of the three loops of `_record_runtime_skips` finds at a step. What is known already is
-- passed over by `gather`; the source asks that first.
module _ (python : Runtime) (as_int : Value → Option Text) where
  unfoldable pub sentinel_skips : StepResult → List Skip
  sentinel_skips step = parse_skip_sentinels python.unicode (step.output ++ (newline ∷ step.error))

  unfoldable pub timeout_skip : StepResult → Option Text → List Skip
  timeout_skip step none = []
  timeout_skip step (some budget) =
      (step.id, codes "timed out after " ++ (budget ++ codes "s (step budget)")) ∷ []

  unfoldable pub timeout_skips : StepResult → List Skip
  unfolding timeout_skip step_budget_timeout
  timeout_skips step =
      if step.passed then [] else timeout_skip step (step_budget_timeout as_int step)

  contention_reason : Text → Text
  contention_reason [] = codes "contention-degraded tier1 tests step"
  contention_reason reason = reason

  unfoldable pub contention_skips : StepResult → List Skip
  unfolding contention_reason data_of
  contention_skips step =
      if not (truthy (get_field (data_of step) "skipped_tests" null))
      then []
      else (
        step.id,
        contention_reason (text_or_empty python (get_field (data_of step) "skip_reason" null)),
      )
        ∷ []

  unfoldable pub runtime_skips : List StepResult → List Skip
  runtime_skips steps =
      flat_map sentinel_skips steps
      ++ (flat_map timeout_skips steps ++ flat_map contention_skips steps)

  named : Skip → Text
  named (step_id, reason) = step_id ++ (codes ": " ++ reason)

  after_reason : Text → Text → Text
  after_reason [] detail = detail
  after_reason reason detail = reason ++ (codes "; " ++ detail)

  unfoldable pub fold_found : StageResult → List Skip → StageResult
  unfolding named after_reason
  fold_found stage [] = stage
  fold_found stage found = record stage {
    degraded = true;
    skipped_steps = stage.skipped_steps ++ map (λ (skip : Skip). skip.0) found;
    degradation_reason =
        after_reason stage.degradation_reason
          (codes "skipped at runtime — " ++ join (codes ", ") (map named found));
  }

  unfoldable pub record_runtime_skips : StageResult → StageResult
  record_runtime_skips stage =
      fold_found stage (gather stage.skipped_steps [] (runtime_skips stage.steps))
