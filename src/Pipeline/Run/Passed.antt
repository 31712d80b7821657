-- ===== src/Pipeline/Run/Passed.antt =====
-- When a run passes: exactly when every step of every stage that it keeps passed.
use gitreins.Prelude.{
  ◌≡◌, refl, ap, subst, Bool, not, List, [], ◌∷◌, Option, none, some, String, any, All, if_ind,
  arith, ◌==◌, string_eq, is_empty,
}
use gitreins.Prelude.Dict.{Dict, insert, values}
use gitreins.Prelude.Text.{Text}
use gitreins.Gate.Value.{Value, Runtime, null, get_field, find_field}
use gitreins.Pipeline.Result.{
  StepResult, StageResult, fresh_stage, bool_value, fold_step_provenance,
}
use gitreins.Pipeline.Skips.{Skip, fold_found, record_runtime_skips}
use gitreins.Pipeline.Condition.{all_of}
use gitreins.Pipeline.Steps.{StageDef, Environment, run_own_step}
use gitreins.Pipeline.Run.{
  step_failed, stage_passed, checked, of_one, run_steps, run_each, run_sequential_stage,
  run_parallel_stage, run_stage, mark_stage, does_run, id_of, after_stage, run_stages,
  compile_results,
}

abbrev pub step_passed : StepResult → Bool
step_passed step = step.passed

-- The marks of a stage are those of its steps.
abbrev pub IsChecked : StageResult → Type 0
IsChecked stage =
    (stage.passed ≡ all_of step_passed stage.steps)
    × (stage.any_failed ≡ not (all_of step_passed stage.steps))

none_failed : (steps : List StepResult) → not (any step_failed steps) ≡ all_of step_passed steps
none_failed [] = refl
none_failed (step ∷ steps) = ground (arith, none_failed steps)

some_failed : (steps : List StepResult) → any step_failed steps ≡ not (all_of step_passed steps)
some_failed [] = refl
some_failed (step ∷ steps) = ground (arith, some_failed steps)

of_one-IsChecked : (stage_id : String) (result : StepResult) → IsChecked (of_one stage_id result)
of_one-IsChecked stage_id result = (ground arith, ground arith)

fold_step_provenance-IsChecked :
    (stage : StageResult) → IsChecked stage → IsChecked (fold_step_provenance stage)
unfolding fold_step_provenance
fold_step_provenance-IsChecked stage h = if_ind IsChecked _ (λ bare. h) (λ folded. h)

-- What holds of the stage, where there is one.
abbrev OnStage : {W : Type 0} → (StageResult → Type 0) → Option (StageResult × W) → Type 0
OnStage P none = Unit
OnStage P (some ran) = P ran.0

fold_found-IsChecked :
    (python : Runtime) (as_int : Value → Option Text) (stage : StageResult) (found : List Skip)
    → IsChecked stage
    → IsChecked (fold_found python as_int stage found)
unfolding fold_found
fold_found-IsChecked python as_int stage [] h = h
fold_found-IsChecked python as_int stage (skip ∷ found) h = h

module _ (e : Environment) (task : Value) where
  run_sequential_stage-IsChecked :
      (stages : Dict StageResult) (stage_id : String) (def : StageDef) (w : e.W)
      → IsChecked (run_sequential_stage e task stages stage_id def w).0
  unfolding run_sequential_stage
  run_sequential_stage-IsChecked stages stage_id def w =
      if_ind (λ (ran : StageResult × e.W). IsChecked ran.0) (not (is_empty def.steps))
        (λ several.
          let steps = (run_steps e task stages stage_id def.steps w).0 in
          (none_failed steps, some_failed steps))
        (λ own.
          let result = (run_own_step e task stages stage_id def.own w).0 in
          fold_step_provenance-IsChecked (of_one stage_id result)
            (of_one-IsChecked stage_id result))

  run_parallel_stage-IsChecked :
      (stages : Dict StageResult) (stage_id : String) (def : StageDef) (w : e.W)
      → OnStage IsChecked (run_parallel_stage e task stages stage_id def w)
  unfolding run_parallel_stage
  run_parallel_stage-IsChecked stages stage_id def w =
      if_ind (OnStage IsChecked) (is_empty def.steps) (λ no_steps. tt)
        (λ several.
          let steps = (run_each e task stages stage_id (e.completed stage_id def.steps w) w).0 in
          fold_step_provenance-IsChecked (checked (fresh_stage stage_id) steps)
            (none_failed steps, some_failed steps))

  run_stage-IsChecked :
      (stages : Dict StageResult) (stage_id : String) (def : StageDef) (w : e.W)
      → OnStage IsChecked (run_stage e task stages stage_id def w)
  unfolding run_stage
  run_stage-IsChecked stages stage_id def w =
      if_ind (OnStage IsChecked) def.parallel
        (λ together. run_parallel_stage-IsChecked stages stage_id def w)
        (λ each. run_sequential_stage-IsChecked stages stage_id def w)

  mark_stage-IsChecked :
      (def : StageDef) (stage : StageResult)
      → IsChecked stage
      → IsChecked (mark_stage e task def stage)
  unfolding mark_stage record_runtime_skips
  mark_stage-IsChecked def stage h = fold_found-IsChecked e.python e.as_int _ _ h

values-insert-All :
    (P : StageResult → Type 0) (key : String) (stage : StageResult) (d : Dict StageResult)
    → P stage
    → All P (values d)
    → All P (values (insert key stage d))
unfolding values insert
values-insert-All P key stage [] p h = (p, tt)
values-insert-All P key stage (first ∷ others) p h =
    if_ind (λ d. All P (values d)) (first.0 == key) (λ same. (p, h.1))
      (λ other. (h.0, values-insert-All P key stage others p h.1))

-- The verdict of stages whose marks are those of their steps.
all_of_steps :
    (stages : List StageResult)
    → All IsChecked stages
    → all_of stage_passed stages ≡ all_of (λ stage. all_of step_passed stage.steps) stages
all_of_steps [] h = refl
all_of_steps (stage ∷ stages) h = ground (arith, h.0.0, all_of_steps stages h.1)

-- What holds of every stage that is kept, where the run ends.
abbrev OnKept : {W : Type 0} → (StageResult → Type 0) → Option (Dict StageResult × W) → Type 0
OnKept P none = Unit
OnKept P (some ran) = All P (values ran.0)

module _ (e : Environment) (task : Value) (trigger : String) where
  after_stage-IsChecked :
      (next : Dict StageResult → e.W → Option (Dict StageResult × e.W)) (def : StageDef)
      (stage_id : String) (stages : Dict StageResult) (ran : Option (StageResult × e.W))
      → ((kept : Dict StageResult) (w : e.W)
          → All IsChecked (values kept)
          → OnKept IsChecked (next kept w))
      → All IsChecked (values stages)
      → OnStage IsChecked ran
      → OnKept IsChecked (after_stage e task next def stage_id stages ran)
  unfolding after_stage
  after_stage-IsChecked next def stage_id stages none f h k = tt
  after_stage-IsChecked next def stage_id stages (some (stage, after)) f h k =
      f (insert stage_id (mark_stage e task def stage) stages) after (
        values-insert-All IsChecked stage_id (mark_stage e task def stage) stages
          (mark_stage-IsChecked e task def stage k) h)

  run_stages-IsChecked :
      (stages : Dict StageResult) (defs : List StageDef) (w : e.W)
      → All IsChecked (values stages)
      → OnKept IsChecked (run_stages e task trigger stages defs w)
  unfolding run_stages
  run_stages-IsChecked stages [] w h = h
  run_stages-IsChecked stages (def ∷ defs) w h =
      let stage_id = id_of e task stages def.own.id in
      if_ind (OnKept IsChecked) (does_run e task trigger stages def)
        (λ runs.
          after_stage-IsChecked (λ kept after. run_stages e task trigger kept defs after) def
            stage_id stages (run_stage e task stages stage_id def w)
            (λ kept after k. run_stages-IsChecked kept defs after k) h
            (run_stage-IsChecked e task stages stage_id def w))
        (λ skip. run_stages-IsChecked stages defs w h)

  -- Where a run ends, its verdict passes exactly when every step of every stage result that it keeps
  -- passed.
  pub run-passed :
      (show : StepResult → Value) (defs : List StageDef) (w : e.W) {kept : Dict StageResult}
      {after : e.W}
      → run_stages e task trigger [] defs w ≡ some (kept, after)
      → get_field (compile_results show kept) "passed" null
        ≡ bool_value (all_of (λ stage. all_of step_passed stage.steps) (values kept))
  unfolding compile_results get_field find_field
  run-passed show defs w {kept} {after} ran = ap bool_value (
      all_of_steps (values kept) (subst (OnKept IsChecked) ran (run_stages-IsChecked [] defs w tt)))
