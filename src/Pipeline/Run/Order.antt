-- ===== src/Pipeline/Run/Order.antt =====
-- Where a stage of several steps stops.
use gitreins.Prelude.{
  ◌≡◌, ◌⊎◌, inl, inr, refl, sym, ap, ◌∙◌, Bool, true, false, not, ◌&&◌, List, [], ◌∷◌, String,
  Bool-cases, arith, any, length, or_false, is_empty,
}
use gitreins.Prelude.Dict.{Dict}
use gitreins.Gate.Value.{Value}
use gitreins.Pipeline.Result.{StepResult, StageResult, fresh_stage}
use gitreins.Pipeline.Script.{StepDef}
use gitreins.Pipeline.Steps.{StageDef, Environment, run_step}
use gitreins.Pipeline.Run.{step_failed, checked, run_steps, run_sequential_stage}

-- The results of the definitions up to the first that fails and does not let the next ones run, or
-- of all.
abbrev pub StopsAt : List StepDef → List StepResult → Type 0
StopsAt [] results = results ≡ []
StopsAt (def ∷ defs) [] = ⊥
StopsAt (def ∷ defs) (result ∷ results) =
    ((result.passed ≡ false) × (def.continues ≡ false) × (results ≡ []))
    ⊎ (((result.passed ≡ true) ⊎ (def.continues ≡ true)) × StopsAt defs results)

goes_on :
    (passed continues : Bool)
    → (not passed && not continues) ≡ false
    → (passed ≡ true) ⊎ (continues ≡ true)
goes_on true continues h = inl refl
goes_on false true h = inr refl
goes_on false false h = cc

stops :
    (passed continues : Bool)
    → (not passed && not continues) ≡ true
    → (passed ≡ false) × (continues ≡ false)
stops passed continues h = (ground arith, ground arith)

module _ (e : Environment) (task : Value) (stages : Dict StageResult) (stage_id : String) where
  -- A stage runs its steps in order, each in the world that the one before leaves, up to the first
  -- that fails without `on_fail: continue`; no later step runs.
  pub run_steps-StopsAt :
      (defs : List StepDef) (w : e.W) → StopsAt defs (run_steps e task stages stage_id defs w).0
  unfolding run_steps
  run_steps-StopsAt [] w = refl
  run_steps-StopsAt (def ∷ defs) w =
      let ran = run_step e task stages stage_id def w in
      elim (Bool-cases (not ran.0.passed && not def.continues)) [
        | inl stop ↦
            rw (stop, StopsAt)
              (let (failed, hard) = stops ran.0.passed def.continues stop in
                inl (failed, hard, refl))
        | inr on ↦
            rw (on, StopsAt)
              (inr (goes_on ran.0.passed def.continues on, run_steps-StopsAt defs ran.1))
      ]

all_ran :
    (defs : List StepDef) (results : List StepResult)
    → StopsAt defs results
    → any step_failed results ≡ false
    → length results ≡ length defs
all_ran [] results h p = rw h refl
all_ran (def ∷ defs) [] h p = absurd h
all_ran (def ∷ defs) (result ∷ results) (inl h) p =
    absurd (cc (h.0, (or_false (step_failed result) (any step_failed results) p).0))
all_ran (def ∷ defs) (result ∷ results) (inr h) p =
    omega (
      arith,
      all_ran defs results h.1 (or_false (step_failed result) (any step_failed results) p).1,
    )

module _ (e : Environment) (task : Value) (stages : Dict StageResult) (stage_id : String) where
  several_steps :
      (def : StageDef) (w : e.W)
      → is_empty def.steps ≡ false
      → (run_sequential_stage e task stages stage_id def w).0
        ≡ checked (fresh_stage stage_id) (run_steps e task stages stage_id def.steps w).0
  unfolding run_sequential_stage
  several_steps def w several = rw several refl

  -- A sequential stage of several steps that passes has run every one of them.
  pub run_sequential_stage-all_ran :
      (def : StageDef) (w : e.W)
      → is_empty def.steps ≡ false
      → (run_sequential_stage e task stages stage_id def w).0.passed ≡ true
      → length (run_sequential_stage e task stages stage_id def w).0.steps ≡ length def.steps
  run_sequential_stage-all_ran def w several passed =
      let steps = (run_steps e task stages stage_id def.steps w).0 in
      let clean : not (any step_failed steps) ≡ true =
        sym (ap (λ (s : StageResult). s.passed) (several_steps def w several)) ∙ passed in
      rw (several_steps def w several) (
        all_ran def.steps steps (run_steps-StopsAt e task stages stage_id def.steps w)
          (ground arith))
