-- ===== src/Pipeline/Script/Marked.antt =====
-- A script step passes without the exit code of success only with the mark that it was skipped.
use gitreins.Prelude.{
  ◌≡◌, ◌∙◌, ◌⊎◌, inl, inr, refl, sym, Bool, true, false, not, ◌&&◌, List, [], ◌∷◌, Option, none,
  some, String, if◌then◌else◌, ◌==◌, string_eq, if_ind, arith,
}
use gitreins.Prelude.Int.{ℤ}
use gitreins.Prelude.Text.{Text, codes}
use gitreins.Gate.Value.{Value, Fields, str, bare, entry, find_field}
use gitreins.Pipeline.Result.{bool_value, put_field}
use gitreins.Pipeline.Script.{
  StepDef, Classifiers, Graded, is_zero, put_list, put_text, skipped_pass, contention_pass,
  first_facts, step_name, grade_missing, grade_pytest, grade_contention, grade,
}
use text.Mathlib.TextEquality.{eq_iff}

pub find_field-put_field :
    (key wanted : String) (value : Value) (fs : Fields)
    → find_field wanted (put_field key value fs)
      ≡ (if key == wanted then some value else find_field wanted fs)
unfolding find_field put_field
find_field-put_field key wanted value bare = refl
find_field-put_field key wanted value (entry k v fs) = ground (
  arith,
  find_field-put_field key wanted value fs,
  eq_iff k key,
  eq_iff k wanted,
  eq_iff key wanted,
)

-- The mark is set.
abbrev pub HasMark : String → Fields → Type 0
HasMark key fs = find_field key fs ≡ some (bool_value true)

put_list-HasMark :
    (key : String) (vs : List Value) (mark : String) (fs : Fields)
    → (key == mark) ≡ false
    → HasMark mark fs
    → HasMark mark (put_list key vs fs)
unfolding put_list
put_list-HasMark key [] mark fs other h = h
put_list-HasMark key (v ∷ vs) mark fs other h = find_field-put_field key mark _ fs ∙ rw other h

put_text-HasMark :
    (key : String) (value : Option Text) (mark : String) (fs : Fields)
    → (key == mark) ≡ false
    → HasMark mark fs
    → HasMark mark (put_text key value fs)
unfolding put_text
put_text-HasMark key none mark fs other h = h
put_text-HasMark key (some value) mark fs other h =
    find_field-put_field key mark (str value) fs ∙ rw other h

skipped_pass-HasMark :
    (reason : Text) (fs : Fields) → HasMark "skipped" (skipped_pass reason fs).facts
unfolding skipped_pass
skipped_pass-HasMark reason fs =
    find_field-put_field "skip_reason" "skipped" (str reason)
      (put_field "skipped" (bool_value true) fs)
    ∙ find_field-put_field "skipped" "skipped" (bool_value true) fs

contention_pass-HasMark :
    (lock : Text) (fs : Fields)
    → HasMark "skipped" (contention_pass lock fs).facts
      × HasMark "skipped_tests" (contention_pass lock fs).facts
unfolding contention_pass
contention_pass-HasMark lock fs =
    let tests =
      put_field "skipped_tests" (bool_value true) (put_field "skipped" (bool_value true) fs) in
    (
      find_field-put_field "skip_reason" "skipped" _ tests
          ∙ find_field-put_field "skipped_tests" "skipped" (bool_value true)
              (put_field "skipped" (bool_value true) fs)
          ∙ find_field-put_field "skipped" "skipped" (bool_value true) fs,
      find_field-put_field "skip_reason" "skipped_tests" _ tests
          ∙ find_field-put_field "skipped_tests" "skipped_tests" (bool_value true)
              (put_field "skipped" (bool_value true) fs),
    )

module _ (c : Classifiers) (exit_code : ℤ) where
  -- A pass that is either a success or carries the mark.
  abbrev IsMarked : Graded → Type 0
  IsMarked g = g.passed ≡ true → (is_zero exit_code ≡ true) ⊎ HasMark "skipped" g.facts

  grade_missing-IsMarked :
      (hint : Option Text) (g : Graded)
      → (g.passed ≡ is_zero exit_code)
      → IsMarked (grade_missing c hint g)
  unfolding grade_missing
  grade_missing-IsMarked none g e passed = inl (sym e ∙ passed)
  grade_missing-IsMarked (some hint) g e passed = inr (skipped_pass-HasMark hint g.facts)

  grade_pytest-IsMarked :
      (analysis_cmd output : Text) (g : Graded)
      → (g.passed ≡ is_zero exit_code)
      → IsMarked (grade_pytest c analysis_cmd exit_code output g)
  unfolding grade_pytest
  grade_pytest-IsMarked analysis_cmd output g e =
      let facts = put_field "pytest_outcome" (c.outcome exit_code output) g.facts in
      if_ind IsMarked
        (c.outcome_kind exit_code output == "no-tests-collected" && c.no_tests_benign output)
        (λ benign passed. inr (skipped_pass-HasMark (codes "no tests collected") facts))
        (λ other.
          grade_missing-IsMarked (c.runner_missing analysis_cmd exit_code output)
            (record g { facts = facts }) e)

  grade_contention-IsMarked :
      (unknown : Bool) (lock : Option Text) (g : Graded)
      → IsMarked g
      → IsMarked (grade_contention c unknown lock g)
  unfolding grade_contention
  grade_contention-IsMarked unknown none g h = h
  grade_contention-IsMarked unknown (some lock) g h =
      if_ind IsMarked (not g.passed && unknown)
        (λ contended passed. inr (contention_pass-HasMark lock g.facts).0) (λ other. h)

  -- A script step whose command has finished passes only if the command succeeded or the step says
  -- that it was skipped.
  pub grade-IsMarked :
      (def : StepDef) (cmd analysis_cmd : Text) (lock guard_log : Option Text) (output : Text)
      (pids : List Value)
      → (grade c def cmd analysis_cmd lock guard_log exit_code output pids).passed ≡ true
      → (is_zero exit_code ≡ true)
        ⊎ HasMark "skipped"
            (grade c def cmd analysis_cmd lock guard_log exit_code output pids).facts
  unfolding grade
  grade-IsMarked def cmd analysis_cmd lock guard_log output pids passed =
      let start : Graded = record {
        passed = is_zero exit_code;
        facts = first_facts c lock exit_code pids;
      } in
      let classified =
        if c.is_pytest cmd then grade_pytest c analysis_cmd exit_code output start else start in
      let unknown = c.is_pytest cmd && c.outcome_kind exit_code output == "unknown" in
      let facts = (grade_contention c unknown lock classified).facts in
      let marked = grade_contention-IsMarked unknown lock classified (
        if_ind IsMarked (c.is_pytest cmd)
          (λ pytest. grade_pytest-IsMarked analysis_cmd output start refl)
          (λ other success. inl success)) in
      elim (marked passed) [
        | inl success ↦ inl success
        | inr mark ↦ inr (
            put_list-HasMark "secrets_scanners"
              (if step_name def == "secrets" then c.secrets_scanners output else []) "skipped"
              (put_text "guard_log" guard_log facts) refl
              (put_text-HasMark "guard_log" guard_log "skipped" facts refl mark))
      ]
