-- ===== src/Pipeline/Run.antt =====
-- engine/pipeline.py, `Pipeline.run` with the two kinds of stage and `_compile_results`. The steps of
-- a parallel stage act on the world one after the other, in the order in which they end, which the
-- environment chooses.
pub mod Passed
pub mod Order
use gitreins.Prelude.{
  ℕ, Bool, true, false, not, ◌&&◌, List, [], ◌∷◌, ◌++◌, Option, none, some, String, if◌then◌else◌,
  ◌==◌, string_eq, is_empty, length, any, contains,
}
use gitreins.Prelude.Text.{Text, Unicode, codes}
use gitreins.Prelude.Dict.{Dict, insert, values}
use gitreins.Gate.Value.{Value, Fields, Runtime, dict, bare, entry}
use gitreins.Pipeline.Result.{
  StepResult, StageResult, fresh_stage, fold_step_provenance, stage_to_dict, bool_value,
}
use gitreins.Pipeline.Skips.{record_runtime_skips}
use gitreins.Pipeline.Condition.{check_condition, all_of}
use gitreins.Pipeline.Script.{StepDef, Bounded, Classifiers, step_name, script_result}
use gitreins.Pipeline.Steps.{StageDef, Environment, run_step, run_own_step}

abbrev pub step_failed : StepResult → Bool
step_failed step = not step.passed

-- `any_failed` and `passed` of a stage, from its steps
abbrev pub checked : StageResult → List StepResult → StageResult
checked stage steps = record stage {
  steps = steps;
  any_failed = any step_failed steps;
  passed = not (any step_failed steps);
}

-- The result of a stage that is one step.
abbrev pub of_one : String → StepResult → StageResult
of_one stage_id result = record (fresh_stage stage_id) {
  steps = result ∷ [];
  passed = result.passed;
  any_failed = not result.passed;
}

module _ (e : Environment) (task : Value) where
  open e use {
    W, python, classifiers, as_int, stage_name, template, in_tier1, acquire, release, run_bounded,
    newest_guard_log, run_ai_eval, run_commit_audit, run_output, completed,
  }

  -- The loop of a stage with several steps.
  unfoldable pub run_steps : Dict StageResult → String → List StepDef → W → List StepResult × W
  run_steps stages stage_id [] w = ([], w)
  run_steps stages stage_id (def ∷ defs) w =
      let (result, after) = run_step e task stages stage_id def w in
      elim (not result.passed && not def.continues) [
        | true ↦ (result ∷ [], after)
        | false ↦ let rest = run_steps stages stage_id defs after in (result ∷ rest.0, rest.1)
      ]

  run_each : Dict StageResult → String → List StepDef → W → List StepResult × W
  run_each stages stage_id [] w = ([], w)
  run_each stages stage_id (def ∷ defs) w =
      let (result, after) = run_step e task stages stage_id def w in
      let rest = run_each stages stage_id defs after in (result ∷ rest.0, rest.1)

  unfoldable pub run_sequential_stage : Dict StageResult → String → StageDef → W → StageResult × W
  unfolding run_steps fold_step_provenance
  run_sequential_stage stages stage_id def w =
      if not (is_empty def.steps)
      then (let (steps, after) = run_steps stages stage_id def.steps w in
          (checked (fresh_stage stage_id) steps, after))
      else let (result, after) = run_own_step e task stages stage_id def.own w in
        (fold_step_provenance (of_one stage_id result), after)

  -- An executor of no workers is a `ValueError`, here `none`.
  unfoldable pub run_parallel_stage :
      Dict StageResult → String → StageDef → W → Option (StageResult × W)
  unfolding run_each fold_step_provenance
  run_parallel_stage stages stage_id def w =
      if is_empty def.steps
      then none
      else let (steps, after) = run_each stages stage_id (completed stage_id def.steps w) w in
        some (fold_step_provenance (checked (fresh_stage stage_id) steps), after)

  unfoldable pub run_stage : Dict StageResult → String → StageDef → W → Option (StageResult × W)
  unfolding run_parallel_stage run_sequential_stage
  run_stage stages stage_id def w =
      if def.parallel
      then run_parallel_stage stages stage_id def w
      else some (run_sequential_stage stages stage_id def w)

  -- The coverage marks of the definition, and those of the run.
  unfoldable pub mark_stage : StageDef → StageResult → StageResult
  unfolding record_runtime_skips
  mark_stage def stage = record_runtime_skips python as_int (record stage {
    coverage = def.coverage;
    degraded = def.degraded;
    skipped_steps = def.skipped_steps;
    degradation_reason = def.degradation_reason;
  })

  id_of : Dict StageResult → Option String → String
  id_of stages none = stage_name (length stages)
  id_of stages (some id) = id

  unfoldable pub does_run : String → Dict StageResult → StageDef → Bool
  unfolding check_condition contains
  does_run trigger stages def =
      if not (contains def.triggers trigger)
      then false
      else check_condition python.unicode stages task def.condition

  -- What `run` does with the result of a stage, before the next one.
  after_stage :
      (Dict StageResult → W → Option (Dict StageResult × W))
      → StageDef
      → String
      → Dict StageResult
      → Option (StageResult × W)
      → Option (Dict StageResult × W)
  after_stage next def stage_id stages none = none
  after_stage next def stage_id stages (some (stage, after)) =
      next (insert stage_id (mark_stage def stage) stages) after

  -- The loop of `run`, with the stage results so far.
  unfoldable pub run_stages :
      String → Dict StageResult → List StageDef → W → Option (Dict StageResult × W)
  unfolding after_stage id_of
  run_stages trigger stages [] w = some (stages, w)
  run_stages trigger stages (def ∷ defs) w =
      let stage_id = id_of stages def.own.id in
      let passed_over = run_stages trigger stages defs w in
      let ran =
        after_stage (λ kept after. run_stages trigger kept defs after) def stage_id stages
          (run_stage stages stage_id def w) in
      if does_run trigger stages def then ran else passed_over

abbrev pub stage_passed : StageResult → Bool
stage_passed stage = stage.passed

stages_dict : (StepResult → Value) → Dict StageResult → Fields
stages_dict show [] = bare
stages_dict show (first ∷ others) =
    entry first.0 (stage_to_dict show first.1) (stages_dict show others)

-- `_compile_results`
unfoldable pub compile_results : (StepResult → Value) → Dict StageResult → Value
unfolding stages_dict values
compile_results show stages = dict (
    entry "passed" (bool_value (all_of stage_passed (values stages)))
      (entry "stages" (dict (stages_dict show stages)) bare))
