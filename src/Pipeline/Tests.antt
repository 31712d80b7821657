-- ===== src/Pipeline/Tests.antt =====
-- Runs of a pipeline whose tests are interrupted by another run, and each theorem at such a run.
use gitreins.Prelude.{
  any, ◌≡◌, ◌⊎◌, refl, ℕ, true, false, ◌||◌, [], ◌∷◌, Option, none, some, length, contains, text_eq,
  text_beq, leb,
}
use mathlib.Core.List.{flat_map}
use gitreins.Prelude.Int.{pos}
use gitreins.Prelude.Text.{Text, Unicode, codes, strip, starts_with}
use gitreins.Prelude.Dict.{Dict, insert, values}
use gitreins.Gate.Value.{
  Value, Fields, Runtime, null, str, dict, bare, entry, get_field, find_field, truthy,
}
use gitreins.EvidenceBounds.Lines.{split_newlines}
use gitreins.EvidenceBounds.Marker.{decimal, after_prefix}
use gitreins.Pipeline.Result.{
  StepResult, StageResult, fresh_stage, bool_value, put_field, data_of, step_budget_timeout,
  fold_step_provenance, stage_to_dict,
}
use gitreins.Pipeline.Skips.{
  parse_skip_sentinels, find_after, gather, sentinel_skips, timeout_skips, contention_skips,
  runtime_skips, fold_found, record_runtime_skips,
}
use gitreins.Pipeline.Skips.Recorded.{recorded, reports, record_runtime_skips-contains}
use gitreins.Pipeline.Condition.{
  all_of, check_condition, check_or, check_and, check_atom, holds, split_on, stage_named,
  parts_hold,
}
use gitreins.Pipeline.Script.{
  StepDef, finished, Classifiers, is_zero, contention_pass, int_value, grade, script_result,
}
use gitreins.Pipeline.Script.Marked.{HasMark, grade-IsMarked}
use gitreins.Pipeline.Steps.{StageDef, Environment, run_script_step, run_step}
use gitreins.Pipeline.Run.{
  run_steps, run_sequential_stage, run_stage, mark_stage, does_run, run_stages, compile_results,
}
use gitreins.Pipeline.Run.Passed.{step_passed, run-passed}
use gitreins.Pipeline.Refused.{refusal_of_reported}
use gitreins.Worktree.State.{Host, pure, skipped_checks}
use gitreins.Worktree.Verdict.{is_true, refusal_of}

abbrev ascii : Unicode
ascii = record { is_space = λ c. leb c 32; upper_of = λ c. c ∷ []; fold_of = λ c. c ∷ [] }

abbrev python : Runtime
python = record { unicode = ascii; show = λ v. [] }

-- Pytest's output is of no kind that is known.
abbrev classifiers : Classifiers
classifiers = record {
  is_pytest = λ cmd. true;
  outcome_kind = λ code output. "unknown";
  outcome = λ code output. dict (entry "kind" (str (codes "unknown")) bare);
  no_tests_benign = λ output. false;
  runner_missing = λ cmd code output. none;
  secrets_scanners = λ output. [];
}

abbrev budget_of : Value → Option Text
budget_of v = none

abbrev passing : StepResult
passing = record {
  id = codes "x";
  type = "output";
  passed = true;
  output = [];
  error = [];
  facts = dict bare;
}

abbrev environment : Environment
environment = record {
  W = Unit {0};
  python = python;
  classifiers = classifiers;
  as_int = budget_of;
  stage_name = λ n. "stage";
  template = λ text task stages. text;
  in_tier1 = λ w. true;
  acquire = λ w. (some (codes "waited"), w);
  release = λ w. w;
  run_bounded = λ def cmd w. (finished (pos (length cmd)) [] [], w);
  newest_guard_log = λ w. none;
  run_ai_eval = λ def task stages w. (passing, w);
  run_commit_audit = λ def task stages w. (passing, w);
  run_output = λ def task stages w. (passing, w);
  completed = λ id steps w. steps;
}

abbrev tests_step : StepDef
tests_step = record {
  id = some "tests";
  type = none;
  run = codes "pytest";
  analysis_cmd = [];
  timeout = 120;
  continues = false;
}

abbrev lint_step : StepDef
lint_step = record tests_step { id = some "lint"; run = codes "ruff" }

abbrev tier1 : StageDef
tier1 = record {
  own = record tests_step { id = some "tier1"; run = [] };
  triggers = "pre-eval" ∷ [];
  condition = none;
  parallel = false;
  steps = tests_step ∷ lint_step ∷ [];
  coverage = [];
  degraded = false;
  skipped_steps = [];
  degradation_reason = [];
}

abbrev ran : StageResult × Unit {0}
ran = run_sequential_stage environment null [] "tier1" tier1 tt

grade-IsMarked_example :
    (is_zero (pos 6) ≡ true)
    ⊎ HasMark "skipped"
        (grade classifiers tests_step
          (codes "pytest")
          []
          (some (codes "waited"))
          none
          (pos 6)
          []
          []).facts
unfolding grade contention_pass
grade-IsMarked_example =
    grade-IsMarked classifiers (pos 6) tests_step (codes "pytest") [] (some (codes "waited")) none
      [] [] refl

sentinels :
    parse_skip_sentinels ascii (codes "ok\nGITREINS_SKIP: lint=no linter\nGITREINS_SKIP: types")
    ≡ (codes "lint", codes "no linter") ∷ (codes "types", codes "reason not recorded") ∷ []
unfolding parse_skip_sentinels split_newlines strip flat_map
sentinels = refl

failed_tier1 : StageResult
failed_tier1 = record (fresh_stage "tier1") { passed = false; any_failed = true }

condition_either :
    check_condition ascii
      (("tier1", failed_tier1) ∷ [])
      null
      (some (codes "task.has_criteria or stage.tier1.any_failed and not task.skip_tier2"))
    ≡ true
unfolding check_condition check_or check_and check_atom holds split_on stage_named parts_hold strip
    starts_with text_beq failed_tier1 get_field truthy
condition_either = refl

running : Unit {0}
unfolding run_sequential_stage run_steps run_step run_script_step script_result grade
    record_runtime_skips runtime_skips sentinel_skips timeout_skips contention_skips gather
    fold_found contains text_beq flat_map contention_pass parse_skip_sentinels split_newlines
    put_field data_of get_field find_field truthy fold_step_provenance find_after after_prefix
    step_budget_timeout int_value decimal run_stages run_stage mark_stage does_run check_condition
    insert values compile_results stage_to_dict strip
running = tt

-- The tests fail under the lock for no known reason: the stage passes, and is marked.
contention : (recorded python budget_of ran.0).skipped_steps ≡ codes "tests" ∷ []
unfolding running
contention = refl

-- A step that passed because there is no pytest to run carries the mark `skipped` alone: the stage
-- does not record it.
no_runner : StepResult
no_runner = record passing {
  id = codes "tests";
  type = "script";
  facts =
      dict (entry "skipped" (bool_value true) (entry "skip_reason" (str (codes "no pytest")) bare));
}

no_runner_unrecorded :
    (recorded python budget_of
      (record (fresh_stage "tier1") { steps = no_runner ∷ [] })).skipped_steps
    ≡ []
unfolding running no_runner
no_runner_unrecorded = refl

record_runtime_skips-contains_example :
    contains (recorded python budget_of ran.0).skipped_steps (codes "tests") ≡ (
      contains ran.0.skipped_steps (codes "tests")
      || any (reports python budget_of (codes "tests")) ran.0.steps)
record_runtime_skips-contains_example =
    record_runtime_skips-contains python budget_of ran.0 (codes "tests")

abbrev kept_stages : Dict StageResult
kept_stages = ("tier1", mark_stage environment null tier1 ran.0) ∷ []

run-passed_example :
    get_field (compile_results (λ step. null) kept_stages) "passed" null
    ≡ bool_value
        (all_of (λ (stage : StageResult). all_of step_passed stage.steps) (values kept_stages))
unfolding running
run-passed_example =
    run-passed environment null "pre-eval" (λ step. null) (tier1 ∷ []) tt {kept = kept_stages}
      {after = tt} refl

abbrev tests_twice : StageDef
tests_twice = record tier1 { steps = tests_step ∷ tests_step ∷ [] }

abbrev host : Host
host = record {
  W = Unit {0};
  F = ℕ;
  python = python;
  sha256 = λ t. t;
  waiver_env = [];
  waiver_config = none;
  main_root = codes "main";
  venv_name = codes ".venv";
  valid_id = λ id. true;
  resolve = λ path. path;
  default_tree = λ id. codes "wt";
  git = λ tree args. pure (record { returncode = pos 0; stdout = [] });
  is_dir = λ path. pure true;
  exists = λ path. pure false;
  list_worktrees = pure [];
  clock = pure 0;
  stale = λ now last. false;
  load_registry = pure [];
  save_registry = λ records. pure tt;
  list_verdicts = λ tree id. pure [];
  read_disk_verdict = λ tree. pure none;
  guard_runner = λ tree. pure null;
  judge_runner = λ tree id. pure null;
  append_event = λ event. pure tt;
}

abbrev tier1_only_pass : Fields
tier1_only_pass =
    entry "tier1" (stage_to_dict (λ step. null) (recorded python budget_of ran.0)) bare

abbrev verdict : Fields
verdict = entry "passed" (bool_value true) (entry "stages" (dict tier1_only_pass) bare)

refusal_of_reported_example : refusal_of host (dict verdict) ≡ some skipped_checks
unfolding running is_true
refusal_of_reported_example =
    refusal_of_reported host budget_of (λ step. null) ran.0 (codes "tests") verdict tier1_only_pass
      refl refl refl refl refl
