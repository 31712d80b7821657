-- ===== src/EvalCap/Replies.antt =====
-- engine/eval_cap.py: when a call is refused or reported, and what the note of the last trip says.
use gitreins.Prelude.{◌≡◌, ◌≢◌, ◌⊎◌, inl, inr, refl, sym, subst, ap, ◌∙◌, ◌+◌, true, false}
use gitreins.Prelude.{ℕ, String, List, [], ◌∷◌, Option, none, some, if_ind, arith, All}
use gitreins.EvalCap.Format.{Number, EvalCap, ℤ, pos, negsuc}
use gitreins.EvalCap.Cap.{
  State, exceeds, out_of_time, check_hard_caps, charge_llm, charge_tool, at_cap, guarded, Call, llm,
  tool, check, call, run, record_llm_call, record_tool_call,
}
use gitreins.EvalCap.Bounds.{check_hard_caps-cap}

abbrev pub latest : List (Option String) → Option String → Option String
latest [] old = old
latest (none ∷ rs) old = latest rs old
latest (some m ∷ rs) old = latest rs (some m)

exceeds_add :
    (limit : ℤ) (used more : ℕ) → exceeds limit used ≡ true → exceeds limit (used + more) ≡ true
unfolding exceeds
exceeds_add (pos n) used more h = ground arith
exceeds_add (negsuc n) used more h = h

module _ (num : Number) where
  open num use {F}

  -- A token budget is used up.
  abbrev pub IsSpent : EvalCap F → Type 0
  IsSpent c =
      (exceeds c.max_input_tokens c.cumulative_input_tokens ≡ true)
      ⊎ (exceeds c.max_output_tokens c.cumulative_output_tokens ≡ true)

  abbrev Reports : Option String × State F → Type 0
  Reports r = r.0 ≢ none

  abbrev Notes : State F → Option String × State F → Type 0
  Notes s r = r.1.last_cap_trip ≡ latest (r.0 ∷ []) s.last_cap_trip

  some≢none : {A : Type 0} {a : A} → some a ≢ none
  some≢none h = cc

  true≢false : true ≢ false
  true≢false h = cc

  spent_absurd :
      (c : EvalCap F)
      → IsSpent c
      → exceeds c.max_input_tokens c.cumulative_input_tokens ≡ false
      → exceeds c.max_output_tokens c.cumulative_output_tokens ≡ false
      → ⊥
  spent_absurd c (inl h) i o = true≢false (sym h ∙ i)
  spent_absurd c (inr h) i o = true≢false (sym h ∙ o)

  check_hard_caps-Reports :
      (now : F) (s : State F) → IsSpent s.cap → Reports (check_hard_caps num now s)
  unfolding check_hard_caps
  check_hard_caps-Reports now s spent =
      if_ind Reports (out_of_time num now s.cap) (λ _. some≢none)
        (λ _.
          if_ind Reports (exceeds s.cap.max_input_tokens s.cap.cumulative_input_tokens)
            (λ _. some≢none)
            (λ i.
              if_ind Reports (exceeds s.cap.max_output_tokens s.cap.cumulative_output_tokens)
                (λ _. some≢none) (λ o. absurd (spent_absurd s.cap spent i o))))

  check_hard_caps-Notes : (now : F) (s : State F) → Notes s (check_hard_caps num now s)
  unfolding check_hard_caps
  check_hard_caps-Notes now s =
      if_ind (Notes s) (out_of_time num now s.cap) (λ _. refl)
        (λ _.
          if_ind (Notes s) (exceeds s.cap.max_input_tokens s.cap.cumulative_input_tokens)
            (λ _. refl)
            (λ _.
              if_ind (Notes s) (exceeds s.cap.max_output_tokens s.cap.cumulative_output_tokens)
                (λ _. refl) (λ _. refl)))

  charge_llm-IsSpent :
      (p o r w : ℕ) (s : State F) → IsSpent s.cap → IsSpent (charge_llm num p o r w s).cap
  unfolding charge_llm
  charge_llm-IsSpent p o r w s (inl h) =
      inl (exceeds_add s.cap.max_input_tokens s.cap.cumulative_input_tokens (p + r + w) h)
  charge_llm-IsSpent p o r w s (inr h) =
      inr (exceeds_add s.cap.max_output_tokens s.cap.cumulative_output_tokens o h)

  charge_tool-IsSpent : (s : State F) → IsSpent s.cap → IsSpent (charge_tool num s).cap
  unfolding charge_tool
  charge_tool-IsSpent s h = h

  -- A call that charges: refused at the cap, checked after the charge.
  guarded-Reports :
      (charge : State F → State F) (now : F) (s : State F)
      → IsSpent (charge s).cap
      → Reports (guarded num charge now s)
  guarded-Reports charge now s spent =
      if_ind Reports (at_cap num s.cap) (λ _. some≢none)
        (λ _. check_hard_caps-Reports now (charge s) spent)

  guarded-IsSpent :
      (charge : State F → State F) (now : F) (s : State F)
      → IsSpent (charge s).cap
      → IsSpent s.cap
      → IsSpent (guarded num charge now s).1.cap
  guarded-IsSpent charge now s later before =
      if_ind (λ (r : Option String × State F). IsSpent r.1.cap) (at_cap num s.cap) (λ _. before)
        (λ _. subst IsSpent (sym (check_hard_caps-cap num now (charge s))) later)

  guarded-Notes :
      (charge : State F → State F) (now : F) (s : State F)
      → (charge s).last_cap_trip ≡ s.last_cap_trip
      → Notes s (guarded num charge now s)
  guarded-Notes charge now s same =
      if_ind (Notes s) (at_cap num s.cap) (λ _. refl)
        (λ _.
          check_hard_caps-Notes now (charge s)
          ∙ ap (latest ((check_hard_caps num now (charge s)).0 ∷ [])) same)

  call-Reports :
      (c : Call num) (s : State F)
      → IsSpent s.cap
      → Reports (call num c s) × IsSpent (call num c s).1.cap
  unfolding call record_llm_call record_tool_call
  call-Reports (llm p o r w now) s h =
      let later = charge_llm-IsSpent p o r w s h in
      (
        guarded-Reports (charge_llm num p o r w) now s later,
        guarded-IsSpent (charge_llm num p o r w) now s later h,
      )
  call-Reports (tool now) s h =
      let later = charge_tool-IsSpent s h in
      (
        guarded-Reports (charge_tool num) now s later,
        guarded-IsSpent (charge_tool num) now s later h,
      )
  call-Reports (check now) s h =
      (check_hard_caps-Reports now s h, subst IsSpent (sym (check_hard_caps-cap num now s)) h)

  call-Notes : (c : Call num) (s : State F) → Notes s (call num c s)
  unfolding call record_llm_call record_tool_call charge_llm charge_tool
  call-Notes (llm p o r w now) s = guarded-Notes (charge_llm num p o r w) now s refl
  call-Notes (tool now) s = guarded-Notes (charge_tool num) now s refl
  call-Notes (check now) s = check_hard_caps-Notes now s

  -- Once a token budget is used up, every call of every kind is answered with a message.
  pub run-spent :
      (calls : List (Call num)) (s : State F)
      → IsSpent s.cap
      → All (λ reply. reply ≢ none) (run num calls s).0
  unfolding run
  run-spent [] s h = tt
  run-spent (c ∷ cs) s h =
      let (reports, still) = call-Reports c s h in (reports, run-spent cs (call num c s).1 still)

  latest-cons :
      (r : Option String) (rs : List (Option String)) (old : Option String)
      → latest rs (latest (r ∷ []) old) ≡ latest (r ∷ rs) old
  latest-cons none rs old = refl
  latest-cons (some m) rs old = refl

  -- After any calls the note of the last trip is the last message that a call was answered with, or
  -- what it was when none was.
  pub run-last_cap_trip :
      (calls : List (Call num)) (s : State F)
      → (run num calls s).1.last_cap_trip ≡ latest (run num calls s).0 s.last_cap_trip
  unfolding run
  run-last_cap_trip [] s = refl
  run-last_cap_trip (c ∷ cs) s =
      run-last_cap_trip cs (call num c s).1
      ∙ ap (latest (run num cs (call num c s).1).0) (call-Notes c s)
      ∙ latest-cons (call num c s).0 (run num cs (call num c s).1).0 s.last_cap_trip
