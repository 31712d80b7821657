-- ===== src/Pipeline/Script.antt =====
-- engine/pipeline.py, `_run_script_step`: how a command's end becomes the result of a step. What
-- `run_bounded` returns, the lock of the tier 1 tests, the patterns and the classifications of
-- pytest's output by other modules are the environment's.
pub mod Marked
use gitreins.Prelude.{
  ℕ, ◌+◌, Bool, true, false, not, ◌&&◌, List, [], ◌∷◌, ◌++◌, Option, none, some, String,
  if◌then◌else◌, ◌==◌, string_eq, text_eq, is_empty, nat_beq,
}
use gitreins.Prelude.Int.{ℤ, pos, negsuc}
use gitreins.Prelude.Text.{Text, codes}
use gitreins.Gate.Value.{
  Value, Fields, Runtime, null, atom, str, list, dict, bare, entry, get_field,
}
use gitreins.EvidenceBounds.Marker.{decimal}
use gitreins.Pipeline.Result.{StepResult, bool_value, put_field, items_of}
use mathlib.Core.List.{map}

-- A step's definition. The timeout is in seconds, 120 where none is given.
pub record StepDef : Type 0 where
  pub id : Option String
  pub type : Option String
  pub run : Text
  pub analysis_cmd : Text
  pub timeout : ℕ
  -- `on_fail == "continue"`
  pub continues : Bool

-- How `run_bounded` ends: by an exception, too, of which `timed_out` is one kind.
pub data Bounded : Type 0 where
  refused : (reason : Text) → Bounded
  timed_out : Bounded
  raised : (message : Text) → Bounded
  finished : (exit_code : ℤ) (output : Text) (leftover_pids : List Value) → Bounded

pub record Classifiers : Type 0 where
  pub is_pytest : Text → Bool
  -- `pytest_outcome` of engine/types.py: the kind, and the dict that is recorded
  pub outcome_kind : ℤ → Text → String
  pub outcome : ℤ → Text → Value
  -- `_pytest_no_tests_benign` and `_pytest_runner_missing_hint`
  pub no_tests_benign : Text → Bool
  pub runner_missing : Text → ℤ → Text → Option Text
  -- the scanners that a secrets step reports
  pub secrets_scanners : Text → List Value

unfoldable pub int_value : ℤ → Value
int_value (pos n) = atom (not (nat_beq n 0)) (decimal n)
int_value (negsuc n) = atom true (codes "-" ++ decimal (n + 1))

-- The variables of the method when it grades a command that has ended.
pub record Graded : Type 0 where
  pub passed : Bool
  pub facts : Fields

abbrev pub step_name : StepDef → String
step_name def = elim def.id [ some id ↦ id | none ↦ "unnamed" ]

abbrev pub is_zero : ℤ → Bool
is_zero (pos n) = nat_beq n 0
is_zero (negsuc n) = false

put_lock : Option Text → Fields → Fields
put_lock none facts = facts
put_lock (some lock) facts = put_field "tier1_tests_lock" (str lock) facts

put_list : String → List Value → Fields → Fields
put_list key [] facts = facts
put_list key (v ∷ vs) facts = put_field key (list (items_of (v ∷ vs))) facts

put_text : String → Option Text → Fields → Fields
put_text key none facts = facts
put_text key (some value) facts = put_field key (str value) facts

-- A pass of a step that graded nothing.
skipped_pass : Text → Fields → Graded
skipped_pass reason facts = record {
  passed = true;
  facts = put_field "skip_reason" (str reason) (put_field "skipped" (bool_value true) facts);
}

contention_reason : Text → Text
contention_reason lock =
    codes "unknown-class pytest failure under concurrent tier1 runs (tier1_tests_lock: "
    ++ (lock ++ codes ") — contention, not a code defect; re-run the judge alone to grade the tree")

-- A tier 1 tests step that failed for no recognised reason, under the lock.
unfoldable pub contention_pass : Text → Fields → Graded
unfolding contention_reason
contention_pass lock facts = record {
  passed = true;
  facts =
      put_field "skip_reason" (str (contention_reason lock))
        (put_field "skipped_tests" (bool_value true) (put_field "skipped" (bool_value true) facts));
}

module _ (c : Classifiers) where
  open c use {is_pytest, outcome_kind, outcome, no_tests_benign, runner_missing, secrets_scanners}

  grade_missing : Option Text → Graded → Graded
  grade_missing none graded = graded
  grade_missing (some hint) graded = skipped_pass hint graded.facts

  -- The classification of a pytest run.
  grade_pytest : Text → ℤ → Text → Graded → Graded
  unfolding skipped_pass
  grade_pytest analysis_cmd exit_code output graded =
      let facts = put_field "pytest_outcome" (outcome exit_code output) graded.facts in
      if outcome_kind exit_code output == "no-tests-collected" && no_tests_benign output
      then skipped_pass (codes "no tests collected") facts
      else grade_missing (runner_missing analysis_cmd exit_code output)
          (record graded { facts = facts })

  -- The contention rule, for a step that took the lock.
  grade_contention : Bool → Option Text → Graded → Graded
  grade_contention unknown none graded = graded
  grade_contention unknown (some lock) graded =
      if not graded.passed && unknown then contention_pass lock graded.facts else graded

  first_facts : Option Text → ℤ → List Value → Fields
  first_facts lock exit_code leftover_pids =
      put_list "leftover_pids" leftover_pids
        (put_lock lock (entry "exit_code" (int_value exit_code) bare))

  -- A command that has finished. The lock is given where the step took it, and only a tier 1 tests
  -- step does; the log is that of the newest guard run, for tier 1.
  unfoldable pub grade :
      StepDef → Text → Text → Option Text → Option Text → ℤ → Text → List Value → Graded
  unfolding grade_missing grade_pytest grade_contention first_facts put_list put_lock put_text
  grade def cmd analysis_cmd lock guard_log exit_code output leftover_pids =
      let start : Graded = record {
        passed = is_zero exit_code;
        facts = first_facts lock exit_code leftover_pids;
      } in
      let classified =
        if is_pytest cmd then grade_pytest analysis_cmd exit_code output start else start in
      let unknown = is_pytest cmd && outcome_kind exit_code output == "unknown" in
      let judged = grade_contention unknown lock classified in
      record judged {
        facts =
            put_list "secrets_scanners"
              (if step_name def == "secrets" then secrets_scanners output else [])
              (put_text "guard_log" guard_log judged.facts);
      }

  failed_step : StepDef → Text → Fields → StepResult
  failed_step def error facts = record {
    id = codes (step_name def);
    type = "script";
    passed = false;
    output = [];
    error = error;
    facts = dict facts;
  }

  graded_step : StepDef → Text → Graded → StepResult
  graded_step def output graded = record {
    id = codes (step_name def);
    type = "script";
    passed = graded.passed;
    output = output;
    error = [];
    facts = dict graded.facts;
  }

  timeout_error : ℕ → Text
  timeout_error budget =
      codes "Command timed out after " ++ (decimal budget ++ codes "s (step budget)")

  unfoldable pub script_result :
      StepDef → Text → Text → Option Text → Option Text → Bounded → StepResult
  unfolding failed_step graded_step timeout_error
  script_result def cmd analysis_cmd lock guard_log (refused reason) = failed_step def reason bare
  script_result def cmd analysis_cmd lock guard_log timed_out =
      failed_step def (timeout_error def.timeout)
        (entry "timed_out" (bool_value true) (entry "timeout_s" (int_value (pos def.timeout)) bare))
  script_result def cmd analysis_cmd lock guard_log (raised message) = failed_step def message bare
  script_result def cmd analysis_cmd lock guard_log (finished exit_code output leftover_pids) =
      graded_step def output
        (grade def cmd analysis_cmd lock guard_log exit_code output leftover_pids)
