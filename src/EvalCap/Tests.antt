-- ===== src/EvalCap/Tests.antt =====
-- Small caps, and the theorems at them. A float is a whole number of tenths, and 0 stands for the
-- default -1.
use gitreins.Prelude.{ℕ, ◌≡◌, ◌≢◌, inl, refl, true, List, [], ◌∷◌, none, some}
use gitreins.Prelude.{◌+◌, ◌-◌, ◌*◌, ◌/◌, ltb, leb, nat_beq, if◌then◌else◌, arith, All}
use gitreins.EvalCap.Format.{
  Number, EvalCap, ℤ, pos, negsuc, time_message, budget_message, iteration_message, fmt_num,
  fmt_tokens, fmt_seconds,
}
use gitreins.EvalCap.Cap.{
  State, exceeds, out_of_time, check_hard_caps, charge_llm, charge_tool, at_cap, Call, llm, tool,
  call, run, record_llm_call, record_tool_call, remaining_seconds,
}
use gitreins.EvalCap.Bounds.{Ordered, IsBounded, run-IsBounded}
use gitreins.EvalCap.Replies.{run-spent}

abbrev of_whole : ℤ → ℕ
of_whole (pos n) = n * 10
of_whole (negsuc n) = 0

abbrev pub num : Number
num = record {
  F = ℕ;
  zero_of = 0;
  one = 10;
  minus_one = 0;
  one_tenth = 1;
  plus = λ a b. a + b;
  minus = λ a b. a - b;
  greater = λ a b. ltb b a;
  at_least = λ a b. leb b a;
  equals = nat_beq;
  of_int = of_whole;
  whole = λ a. pos (a / 10);
  tenth = λ a. "tenths";
  millions = λ n. "millions";
  show_int = λ n. if nat_beq n 2 then "2" else "n";
}

ordered : Ordered num
ordered = record {
  one_least = refl;
  one_positive = refl;
  weaken = λ x h. ground arith;
  plus_positive = λ x y h k. ground arith;
  plus_mono = λ x m w a b c d e. ground arith;
}

-- Two iterations, a tool call at a tenth, and 100 input tokens.
abbrev pub cap : EvalCap ℕ
cap = record {
  max_iterations = 20;
  max_seconds = 0;
  max_input_tokens = pos 100;
  max_output_tokens = negsuc 0;
  tool_call_weight = 1;
  iteration_credit = 0;
  start_time = 0;
  cumulative_input_tokens = 0;
  cumulative_output_tokens = 0;
  cumulative_cache_read = 0;
  cumulative_cache_write = 0;
  source = "";
}

abbrev fresh : State ℕ
fresh = record { cap = cap; last_cap_trip = none }

program : Unit {0}
unfolding exceeds out_of_time time_message budget_message check_hard_caps charge_llm charge_tool
    at_cap iteration_message call run record_llm_call record_tool_call fmt_num fmt_tokens
    fmt_seconds remaining_seconds
program = tt

-- At 1.9 of 2 iterations a whole call is still let through, and the next one is refused.
abbrev lenient : List (Call num)
lenient = llm 1 1 0 0 5 ∷ tool 5 ∷ llm 1 1 0 0 6 ∷ tool 7 ∷ []

lenient_credit : (run num lenient fresh).1.cap.iteration_credit ≡ 21
unfolding program
lenient_credit = refl

lenient_refused :
    (run num lenient fresh).0
    ≡ none
      ∷ none
      ∷ none
      ∷ some "Iteration cap (2) reached (tenths used). Increase max_iterations or split criteria."
      ∷ []
unfolding program
lenient_refused = refl

run-IsBounded_example : IsBounded num (run num lenient fresh).1.cap
run-IsBounded_example =
    run-IsBounded num ordered lenient fresh
      (record { capped = refl; light = refl; weight = refl; credit = refl; bound = refl })

abbrev spent : State ℕ
spent = record fresh { cap = record cap { cumulative_input_tokens = 100 } }

spent_input : exceeds (pos 100) 100 ≡ true
unfolding exceeds
spent_input = refl

run-spent_example : All (λ reply. reply ≢ none) (run num lenient spent).0
run-spent_example = run-spent num lenient spent (inl spent_input)
