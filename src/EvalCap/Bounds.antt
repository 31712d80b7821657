-- ===== src/EvalCap/Bounds.antt =====
-- engine/eval_cap.py: how far the iterations of a run can go past their cap.
use gitreins.Prelude.{
  ◌≡◌, refl, sym, subst, ap, ◌∙◌, ◌&&◌, true, false, List, [], ◌∷◌, Option, if_ind,
}
use gitreins.Prelude.{ℕ, String}
use gitreins.EvalCap.Format.{Number, EvalCap}
use gitreins.EvalCap.Cap.{
  State, exceeds, out_of_time, check_hard_caps, charge_llm, charge_tool, at_cap, guarded, Call, llm,
  tool, check, call, run, record_llm_call, record_tool_call,
}

module _ (num : Number) where
  open num use {F, zero_of, one, plus, greater, at_least}

  abbrev KeepsCap : State F → Option String × State F → Type 0
  KeepsCap s r = r.1.cap ≡ s.cap

  -- No check changes the cap.
  pub check_hard_caps-cap : (now : F) (s : State F) → (check_hard_caps num now s).1.cap ≡ s.cap
  unfolding check_hard_caps
  check_hard_caps-cap now s =
      if_ind (KeepsCap s) (out_of_time num now s.cap) (λ _. refl)
        (λ _.
          if_ind (KeepsCap s) (exceeds s.cap.max_input_tokens s.cap.cumulative_input_tokens)
            (λ _. refl)
            (λ _.
              if_ind (KeepsCap s) (exceeds s.cap.max_output_tokens s.cap.cumulative_output_tokens)
                (λ _. refl) (λ _. refl)))

  -- What the bound needs of floats; it holds of IEEE 754, where rounding is monotone.
  pub record Ordered : Type 0 where
    pub one_least : at_least one one ≡ true
    pub one_positive : at_least one zero_of ≡ true
    pub weaken : (x : F) → greater x zero_of ≡ true → at_least x zero_of ≡ true
    pub plus_positive :
        (x y : F)
        → at_least x zero_of ≡ true
        → at_least y zero_of ≡ true
        → at_least (plus x y) zero_of ≡ true
    pub plus_mono :
        (x m w : F)
        → at_least x zero_of ≡ true
        → at_least m zero_of ≡ true
        → at_least w zero_of ≡ true
        → at_least one w ≡ true
        → at_least x m ≡ false
        → at_least (plus m one) (plus x w) ≡ true

  -- A cap on iterations with a weight between 0 and 1, and at most one iteration past the cap.
  pub record IsBounded (c : EvalCap F) : Type 0 where
    pub capped : greater c.max_iterations zero_of ≡ true
    pub light : at_least one c.tool_call_weight ≡ true
    pub weight : at_least c.tool_call_weight zero_of ≡ true
    pub credit : at_least c.iteration_credit zero_of ≡ true
    pub bound : at_least (plus c.max_iterations one) c.iteration_credit ≡ true

  below :
      (c : EvalCap F)
      → IsBounded c
      → at_cap num c ≡ false
      → at_least c.iteration_credit c.max_iterations ≡ false
  unfolding at_cap
  below c b h = sym (ap (λ g. g && at_least c.iteration_credit c.max_iterations) b.capped) ∙ h

  -- A charge of at most one iteration, below the cap.
  module _ (laws : Ordered) (c : EvalCap F) (b : IsBounded c) (free : at_cap num c ≡ false) where
    charged_bound :
        (w : F)
        → at_least w zero_of ≡ true
        → at_least one w ≡ true
        → at_least (plus c.max_iterations one) (plus c.iteration_credit w) ≡ true
    charged_bound w positive light =
        laws.plus_mono c.iteration_credit c.max_iterations w b.credit
          (laws.weaken c.max_iterations b.capped) positive light (below c b free)

  charge_llm-IsBounded :
      Ordered
      → (p o r w : ℕ) (s : State F) → IsBounded s.cap
      → at_cap num s.cap ≡ false
      → IsBounded (charge_llm num p o r w s).cap
  unfolding charge_llm
  charge_llm-IsBounded laws p o r w s b free = record {
    capped = b.capped;
    light = b.light;
    weight = b.weight;
    credit = laws.plus_positive s.cap.iteration_credit one b.credit laws.one_positive;
    bound = charged_bound laws s.cap b free one laws.one_positive laws.one_least;
  }

  charge_tool-IsBounded :
      Ordered
      → (s : State F) → IsBounded s.cap
      → at_cap num s.cap ≡ false
      → IsBounded (charge_tool num s).cap
  unfolding charge_tool
  charge_tool-IsBounded laws s b free = record {
    capped = b.capped;
    light = b.light;
    weight = b.weight;
    credit = laws.plus_positive s.cap.iteration_credit s.cap.tool_call_weight b.credit b.weight;
    bound = charged_bound laws s.cap b free s.cap.tool_call_weight b.weight b.light;
  }

  guarded-IsBounded :
      (charge : State F → State F) (now : F) (s : State F)
      → (at_cap num s.cap ≡ false → IsBounded (charge s).cap)
      → IsBounded s.cap
      → IsBounded (guarded num charge now s).1.cap
  guarded-IsBounded charge now s h b =
      if_ind (λ (r : Option String × State F). IsBounded r.1.cap) (at_cap num s.cap) (λ _. b)
        (λ free. subst IsBounded (sym (check_hard_caps-cap now (charge s))) (h free))

  call-IsBounded :
      Ordered → (c : Call num) (s : State F) → IsBounded s.cap → IsBounded (call num c s).1.cap
  unfolding call record_llm_call record_tool_call
  call-IsBounded laws (llm p o r w now) s b =
      guarded-IsBounded (charge_llm num p o r w) now s (charge_llm-IsBounded laws p o r w s b) b
  call-IsBounded laws (tool now) s b =
      guarded-IsBounded (charge_tool num) now s (charge_tool-IsBounded laws s b) b
  call-IsBounded laws (check now) s b = subst IsBounded (sym (check_hard_caps-cap now s)) b

  -- With float operations that are ordered as above, an iteration cap, a tool weight between 0 and 1,
  -- and a credit from 0 to one iteration past the cap: after any calls the credit is at most one
  -- iteration past the cap, and the other conditions hold still.
  pub run-IsBounded :
      Ordered
      → (calls : List (Call num)) (s : State F) → IsBounded s.cap
      → IsBounded (run num calls s).1.cap
  unfolding run
  run-IsBounded laws [] s b = b
  run-IsBounded laws (c ∷ cs) s b =
      run-IsBounded laws cs (call num c s).1 (call-IsBounded laws c s b)
