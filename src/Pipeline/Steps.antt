-- ===== src/Pipeline/Steps.antt =====
-- engine/pipeline.py, `_run_script_step` with its lock and `_run_step`. Steps act on a world. The
-- evaluator, the commit audit, the output step and the templates are the environment's.
use gitreins.Prelude.{
  ℕ, Bool, true, false, ◌&&◌, List, [], ◌++◌, Option, none, some, String, if◌then◌else◌, ◌==◌,
  string_eq, is_empty,
}
use gitreins.Prelude.Text.{Text, codes}
use gitreins.Prelude.Dict.{Dict}
use gitreins.Gate.Value.{Value, Runtime, dict, bare}
use gitreins.Pipeline.Result.{StepResult, StageResult}
use gitreins.Pipeline.Script.{StepDef, Bounded, Classifiers, step_name, script_result}

-- A stage's definition. `own` has the stage's keys that a step has too, for a stage with no steps.
pub record StageDef : Type 0 where
  pub own : StepDef
  -- `stage_def.get("on", ["pre-eval", "pre-commit"])`
  pub triggers : List String
  pub condition : Option Text
  pub parallel : Bool
  pub steps : List StepDef
  pub coverage : Text
  pub degraded : Bool
  pub skipped_steps : List Text
  pub degradation_reason : Text

pub record Environment : Type 1 where
  pub W : Type 0
  pub python : Runtime
  pub classifiers : Classifiers
  -- `str(int(v))`, and the name of a stage that has none, by the number of stages before
  pub as_int : Value → Option Text
  pub stage_name : ℕ → String
  pub template : Text → Value → Dict StageResult → Text
  pub in_tier1 : W → Bool
  pub acquire : W → Option Text × W
  pub release : W → W
  pub run_bounded : StepDef → Text → W → Bounded × W
  pub newest_guard_log : W → Option Text
  pub run_ai_eval : StepDef → Value → Dict StageResult → W → StepResult × W
  pub run_commit_audit : StepDef → Value → Dict StageResult → W → StepResult × W
  pub run_output : StepDef → Value → Dict StageResult → W → StepResult × W
  -- the order in which the steps of a parallel stage end
  pub completed : String → List StepDef → W → List StepDef

module _ (e : Environment) (task : Value) where
  open e use {
    W, python, classifiers, as_int, stage_name, template, in_tier1, acquire, release, run_bounded,
    newest_guard_log, run_ai_eval, run_commit_audit, run_output, completed,
  }

  -- `_guard_log_ref`
  guard_log_ref : String → W → Option Text
  guard_log_ref stage_id w = if stage_id == "tier1" then newest_guard_log w else none

  -- The tier 1 tests step takes the lock around its command.
  bounded : Bool → StepDef → Text → W → Option Text × Bounded × W
  bounded false def cmd w = let (end, after) = run_bounded def cmd w in (none, end, after)
  bounded true def cmd w =
      let (lock, held) = acquire w in
      let (end, after) = run_bounded def cmd held in (lock, end, release after)

  run_command : StepDef → Text → Text → String → W → StepResult × W
  run_command def cmd analysis_cmd stage_id w =
      let hold = stage_id == "tier1" && (step_name def == "tests" && in_tier1 w) in
      let (lock, end, after) = bounded hold def cmd w in
      (
        script_result classifiers def cmd analysis_cmd lock (guard_log_ref stage_id after) end,
        after,
      )

  no_command : StepDef → StepResult
  no_command def = record {
    id = codes (step_name def);
    type = "script";
    passed = false;
    output = [];
    error = codes "No command specified";
    facts = dict bare;
  }

  unfoldable pub run_script_step : Dict StageResult → String → StepDef → W → StepResult × W
  unfolding run_command bounded guard_log_ref no_command
  run_script_step stages stage_id def w =
      if is_empty def.run
      then (no_command def, w)
      else let cmd = template def.run task stages in
        let analysis = if is_empty def.analysis_cmd then cmd else def.analysis_cmd in
        run_command def cmd (template analysis task stages) stage_id w

  unknown_type : StepDef → String → StepResult
  unknown_type def type = record {
    id = codes (step_name def);
    type = type;
    passed = false;
    output = [];
    error = codes "Unknown step type: " ++ codes type;
    facts = dict bare;
  }

  step_type : Option String → String
  step_type none = "script"
  step_type (some type) = type

  unfoldable pub run_step : Dict StageResult → String → StepDef → W → StepResult × W
  unfolding run_script_step unknown_type step_type
  run_step stages stage_id def w =
      let type = step_type def.type in
      if type == "script"
      then run_script_step stages stage_id def w
      else if type == "ai_eval"
      then run_ai_eval def task stages w
      else if type == "commit_audit"
      then run_commit_audit def task stages w
      else if type == "output"
      then run_output def task stages w
      else (unknown_type def type, w)

  -- A stage with no steps is one step itself.
  unfoldable pub run_own_step : Dict StageResult → String → StepDef → W → StepResult × W
  unfolding run_script_step step_type
  run_own_step stages stage_id def w =
      let type = step_type def.type in
      if type == "ai_eval"
      then run_ai_eval def task stages w
      else if type == "commit_audit"
      then run_commit_audit def task stages w
      else if type == "output"
      then run_output def task stages w
      else run_script_step stages stage_id def w
