-- ===== src/Pipeline/Skips/Recorded.antt =====
-- The marks of a stage name every gate that did not run, each once, and a second pass adds nothing.
use gitreins.Prelude.{
  ◌≡◌, ◌∙◌, refl, sym, ap, true, false, ◌||◌, List, [], ◌∷◌, ◌++◌, Option, contains, text_eq, Bool,
  not, ◌&&◌, none, some, ◌==◌, any, arith, Bool-cases, inl, inr,
}
use mathlib.Core.List.{append-nil, flat_map, map-append}
use gitreins.Prelude.Text.{Text}
use gitreins.Gate.Value.{Value, Runtime, null, get_field, truthy}
use gitreins.Pipeline.Result.{StepResult, StageResult, data_of, step_budget_timeout}
use gitreins.EvidenceBounds.Lines.{newline}
use gitreins.Pipeline.Skips.{
  Skip, gather, runtime_skips, parse_skip_sentinels, sentinel_skips, timeout_skip, timeout_skips,
  contention_skips, fold_found, record_runtime_skips,
}
use gitreins.Pipeline.Skips.Gathered.{
  ids, Distinct, gather-contains, gather_known, gather-Distinct, or_right, known_ids,
  contains-append, contains-single,
}

abbrev pub is_some : {A : Type 0} → Option A → Bool
is_some none = false
is_some (some x) = true

module _ (python : Runtime) (as_int : Value → Option Text) where
  -- The gates that the steps themselves say did not run.
  abbrev pub reported_ids : List StepResult → List Text
  reported_ids steps = ids (runtime_skips python as_int steps)

  abbrev pub recorded : StageResult → StageResult
  recorded = record_runtime_skips python as_int

  skipped_steps-fold_found :
      (stage : StageResult) (found : List Skip)
      → (fold_found python as_int stage found).skipped_steps ≡ stage.skipped_steps ++ ids found
  unfolding fold_found
  skipped_steps-fold_found stage [] = sym (append-nil stage.skipped_steps)
  skipped_steps-fold_found stage (skip ∷ found) = refl

  found_ids-contains :
      (stage : StageResult) (id : Text)
      → contains
          (stage.skipped_steps
            ++ ids (gather stage.skipped_steps [] (runtime_skips python as_int stage.steps)))
          id
        ≡ (contains stage.skipped_steps id || contains (reported_ids stage.steps) id)
  found_ids-contains stage id =
      gather-contains stage.skipped_steps [] (runtime_skips python as_int stage.steps) id
      ∙ ap (λ xs. contains xs id || contains (reported_ids stage.steps) id)
          (append-nil stage.skipped_steps)

  pub record_runtime_skips-reported :
      (stage : StageResult) (id : Text)
      → contains (recorded stage).skipped_steps id
        ≡ (contains stage.skipped_steps id || contains (reported_ids stage.steps) id)
  unfolding record_runtime_skips
  record_runtime_skips-reported stage id =
      ap (λ xs. contains xs id)
        (skipped_steps-fold_found stage
          (gather stage.skipped_steps [] (runtime_skips python as_int stage.steps)))
      ∙ found_ids-contains stage id

  -- A step reports that the gate `id` did not run: a line that it wrote says so; or it is `id`
  -- itself, and it failed at the budget of its time, or its data say that its tests were skipped.
  abbrev pub reports : Text → StepResult → Bool
  reports id step =
      contains (ids (parse_skip_sentinels python.unicode (step.output ++ (newline ∷ step.error))))
        id
      || ((not step.passed && is_some (step_budget_timeout as_int step) && (id == step.id))
          || (truthy (get_field (data_of step) "skipped_tests" null) && (id == step.id)))

  timeout_skip-contains :
      (step : StepResult) (budget : Option Text) (id : Text)
      → contains (ids (timeout_skip python as_int step budget)) id
        ≡ (is_some budget && (id == step.id))
  unfolding timeout_skip contains
  timeout_skip-contains step none id = refl
  timeout_skip-contains step (some budget) id = contains-single step.id id

  timeout_skips-contains :
      (step : StepResult) (id : Text)
      → contains (ids (timeout_skips python as_int step)) id
        ≡ (not step.passed && is_some (step_budget_timeout as_int step) && (id == step.id))
  unfolding timeout_skips contains
  timeout_skips-contains step id =
      let behind = timeout_skip-contains step (step_budget_timeout as_int step) id in
      elim (Bool-cases step.passed) [ inl passed ↦ rw passed refl | inr failed ↦ rw failed behind ]

  contention_skips-contains :
      (step : StepResult) (id : Text)
      → contains (ids (contention_skips python as_int step)) id
        ≡ (truthy (get_field (data_of step) "skipped_tests" null) && (id == step.id))
  unfolding contention_skips contains
  contention_skips-contains step id =
      elim (Bool-cases (truthy (get_field (data_of step) "skipped_tests" null))) [
        | inl skipped ↦ rw skipped (contains-single step.id id)
        | inr ran ↦ rw ran refl
      ]

  step-reports :
      (id : Text) (step : StepResult)
      → (contains (ids (sentinel_skips python as_int step)) id
          || (contains (ids (timeout_skips python as_int step)) id
              || contains (ids (contention_skips python as_int step)) id))
        ≡ reports id step
  unfolding sentinel_skips timeout_skips contention_skips
  step-reports id step = rw (timeout_skips-contains step id, contention_skips-contains step id) refl

  flat_map-contains :
      (f : StepResult → List Skip) (steps : List StepResult) (id : Text)
      → contains (ids (flat_map f steps)) id ≡ any (λ step. contains (ids (f step)) id) steps
  unfolding contains flat_map
  flat_map-contains f [] id = refl
  flat_map-contains f (step ∷ steps) id =
      rw
        (
          map-append (λ (s : Skip). s.0) (f step) (flat_map f steps),
          contains-append (ids (f step)) (ids (flat_map f steps)) id,
          flat_map-contains f steps id,
        )
        refl

  any-three :
      (f g k t : StepResult → Bool) (steps : List StepResult)
      → ((step : StepResult) → (f step || (g step || k step)) ≡ t step)
      → (any f steps || (any g steps || any k steps)) ≡ any t steps
  any-three f g k t [] h = refl
  any-three f g k t (step ∷ steps) h =
      let here = h step in let rest = any-three f g k t steps h in ground arith

  reported_ids-contains :
      (steps : List StepResult) (id : Text)
      → contains (reported_ids steps) id ≡ any (reports id) steps
  unfolding runtime_skips
  reported_ids-contains steps id =
      let f = sentinel_skips python as_int in
      let g = timeout_skips python as_int in
      let k = contention_skips python as_int in
      rw
        (
          map-append (λ (s : Skip). s.0) (flat_map f steps) (flat_map g steps ++ flat_map k steps),
          map-append (λ (s : Skip). s.0) (flat_map g steps) (flat_map k steps),
          contains-append (ids (flat_map f steps))
              (ids (flat_map g steps) ++ ids (flat_map k steps)) id,
          contains-append (ids (flat_map g steps)) (ids (flat_map k steps)) id,
          flat_map-contains f steps id,
          flat_map-contains g steps id,
          flat_map-contains k steps id,
        )
        (any-three (λ step. contains (ids (f step)) id) (λ step. contains (ids (g step)) id)
          (λ step. contains (ids (k step)) id) (reports id) steps (step-reports id))

  -- A stage records exactly the ids that it declared and the ids that a step of it reports: by a
  -- line that it wrote, by failing at the budget of its time, or by the mark that its tests were
  -- skipped.
  pub record_runtime_skips-contains :
      (stage : StageResult) (id : Text)
      → contains (recorded stage).skipped_steps id
        ≡ (contains stage.skipped_steps id || any (reports id) stage.steps)
  record_runtime_skips-contains stage id =
      record_runtime_skips-reported stage id
      ∙ ap (λ b. contains stage.skipped_steps id || b) (reported_ids-contains stage.steps id)

  -- Where the declared ids are distinct, the recorded ones are.
  pub record_runtime_skips-Distinct :
      (stage : StageResult) → Distinct stage.skipped_steps → Distinct (recorded stage).skipped_steps
  unfolding record_runtime_skips
  record_runtime_skips-Distinct stage h =
      let skips = runtime_skips python as_int stage.steps in
      rw (skipped_steps-fold_found stage (gather stage.skipped_steps [] skips))
        (gather-Distinct stage.skipped_steps [] skips (rw (append-nil stage.skipped_steps) h))

  -- An id that the steps report and the stage did not declare marks the stage as degraded.
  degraded-fold_found :
      (stage : StageResult) (found : List Skip) (id : Text)
      → contains (stage.skipped_steps ++ ids found) id ≡ true
      → contains stage.skipped_steps id ≡ false
      → (fold_found python as_int stage found).degraded ≡ true
  unfolding fold_found
  degraded-fold_found stage [] id h n =
      absurd (cc (ap (λ xs. contains xs id) (sym (append-nil stage.skipped_steps)), h, n))
  degraded-fold_found stage (skip ∷ found) id h n = refl

  pub record_runtime_skips-degraded :
      (stage : StageResult) (id : Text)
      → contains (reported_ids stage.steps) id ≡ true
      → contains stage.skipped_steps id ≡ false
      → (recorded stage).degraded ≡ true
  unfolding record_runtime_skips
  record_runtime_skips-degraded stage id h n =
      degraded-fold_found stage
        (gather stage.skipped_steps [] (runtime_skips python as_int stage.steps)) id
        (found_ids-contains stage id ∙ or_right (contains stage.skipped_steps id) h) n

  fold_found_twice :
      (stage : StageResult) (found : List Skip)
      → gather
          (fold_found python as_int stage found).skipped_steps
          []
          (runtime_skips python as_int stage.steps)
        ≡ []
      → recorded (fold_found python as_int stage found) ≡ fold_found python as_int stage found
  unfolding record_runtime_skips fold_found
  fold_found_twice stage [] h = rw h refl
  fold_found_twice stage (skip ∷ found) h = rw h refl

  -- A second pass changes nothing.
  pub record_runtime_skips_twice :
      (stage : StageResult) → recorded (recorded stage) ≡ recorded stage
  record_runtime_skips_twice stage =
      let skips = runtime_skips python as_int stage.steps in
      let found = gather stage.skipped_steps [] skips in
      unfold record_runtime_skips in
      fold_found_twice stage found (
        gather_known (fold_found python as_int stage found).skipped_steps [] skips (
          known_ids skips (fold_found python as_int stage found).skipped_steps (λ x e.
            record_runtime_skips-reported stage x ∙ or_right (contains stage.skipped_steps x) e)))
