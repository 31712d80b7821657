-- ===== src/Pipeline/Result.antt =====
-- engine/pipeline.py, `StepResult` and `StageResult` with `to_dict`, `_fold_step_provenance`,
-- `_step_skip_reason` and `_step_budget_timeout`. The `summary` of a stage, prose for a console, is
-- left out, and so is the shape of a step inside the stage's dict, which is an argument.
use gitreins.Prelude.{
  Bool, true, false, not, ◌&&◌, ◌||◌, List, [], ◌∷◌, Option, none, some, String, if◌then◌else◌,
  ◌==◌, string_eq, map, is_empty,
}
use gitreins.Prelude.Text.{Text, codes}
use gitreins.Gate.Value.{
  Value, Items, Fields, Runtime, null, atom, str, list, dict, stop, more, bare, entry, get_field,
  truthy, is_mapping, text_or_empty,
}

abbrev pub bool_value : Bool → Value
bool_value true = atom true (codes "True")
bool_value false = atom false (codes "False")

-- `fields[key] = value`
unfoldable pub put_field : String → Value → Fields → Fields
put_field key value bare = entry key value bare
put_field key value (entry k v fs) =
    if k == key then entry k value fs else entry k v (put_field key value fs)

-- `fields.setdefault(key, value)`
unfoldable pub set_default : String → Value → Fields → Fields
set_default key value bare = entry key value bare
set_default key value (entry k v fs) =
    if k == key then entry k v fs else entry k v (set_default key value fs)

pub record StepResult : Type 0 where
  pub id : Text
  pub type : String
  pub passed : Bool
  pub output : Text
  pub error : Text
  -- the field `data`
  pub facts : Value

pub record StageResult : Type 0 where
  pub id : String
  pub passed : Bool
  pub steps : List StepResult
  pub any_failed : Bool
  pub coverage : Text
  pub degraded : Bool
  pub skipped_steps : List Text
  pub degradation_reason : Text
  pub provenance : Fields

-- `StageResult(id=stage_id)`
abbrev pub fresh_stage : String → StageResult
fresh_stage stage_id = record {
  id = stage_id;
  passed = true;
  steps = [];
  any_failed = false;
  coverage = [];
  degraded = false;
  skipped_steps = [];
  degradation_reason = [];
  provenance = bare;
}

-- `step.data if isinstance(step.data, dict) else {}`
unfoldable pub data_of : StepResult → Value
data_of step = if is_mapping step.facts then step.facts else dict bare

-- What `_fold_step_provenance` keeps after a step.
unfoldable pub folded_with : Value → Fields → Fields
folded_with (dict bare) folded = folded
folded_with (dict prov) folded = prov
folded_with _ folded = folded

fold_provenance : Fields → List StepResult → Fields
fold_provenance folded [] = folded
fold_provenance folded (step ∷ steps) =
    fold_provenance (folded_with (get_field (data_of step) "provenance" null) folded) steps

abbrev is_bare : Fields → Bool
is_bare bare = true
is_bare _ = false

unfoldable pub fold_step_provenance : StageResult → StageResult
unfolding fold_provenance folded_with data_of
fold_step_provenance stage =
    let folded = fold_provenance bare stage.steps in
    if is_bare folded then stage else record stage { provenance = folded }

unfoldable pub step_skip_reason : Runtime → StepResult → Text
unfolding data_of
step_skip_reason python step =
    if not step.passed || not (truthy (get_field (data_of step) "skipped" null))
    then []
    else let reason = text_or_empty python (get_field (data_of step) "skip_reason" null) in
      if is_empty reason then codes "unknown reason" else reason

-- `str(int(v))`, which may raise, is a parameter; the result is the text of the budget.
unfoldable pub step_budget_timeout : (Value → Option Text) → StepResult → Option Text
unfolding data_of
step_budget_timeout as_int step =
    if step.type == "script" && truthy (get_field (data_of step) "timed_out" null)
    then elim (as_int (get_field (data_of step) "timeout_s" null)) [
      | some budget ↦ some budget
      | none ↦ some (codes "0")
    ]
    else none

unfoldable pub items_of : List Value → Items
items_of [] = stop
items_of (v ∷ vs) = more v (items_of vs)

unfoldable pub default_each : Fields → Fields → Fields
default_each bare d = d
default_each (entry key value fs) d = default_each fs (set_default key value d)

unfoldable pub put_coverage : Text → Fields → Fields
put_coverage [] d = d
put_coverage coverage d = put_field "coverage" (str coverage) d

unfoldable pub put_degradation : StageResult → Fields → Fields
put_degradation stage d =
    if stage.degraded
    then put_field "degradation_reason" (str stage.degradation_reason) (
        put_field "skipped_steps" (list (items_of (map str stage.skipped_steps)))
          (put_field "degraded" (bool_value true) d))
    else d

unfoldable pub stage_fields : (StepResult → Value) → StageResult → Fields
stage_fields step_to_dict stage = put_degradation stage (
    put_coverage stage.coverage (
      default_each stage.provenance (
        entry "id" (str (codes stage.id)) (
          entry "passed" (bool_value stage.passed) (
            entry "any_failed" (bool_value stage.any_failed)
              (entry "steps" (list (items_of (map step_to_dict stage.steps))) bare))))))

-- `StageResult.to_dict`, but for its summary.
unfoldable pub stage_to_dict : (StepResult → Value) → StageResult → Value
stage_to_dict step_to_dict stage = dict (stage_fields step_to_dict stage)
