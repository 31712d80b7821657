-- ===== src/EvalCap/Cap.antt =====
-- engine/eval_cap.py, `EvalCap` and the note of the last trip.
use gitreins.Prelude.{ℕ, ◌+◌, Bool, false, ◌&&◌, List, [], ◌∷◌}
use gitreins.Prelude.{Option, none, some, String, if◌then◌else◌, ltb, leb, nat_beq}
use gitreins.EvalCap.Format.{
  ℤ, pos, negsuc, Number, EvalCap, iteration_message, time_message, budget_message,
}

-- A process: its cap and `_last_cap_trip`.
pub record State (F : Type 0) : Type 0 where
  pub cap : EvalCap F
  pub last_cap_trip : Option String

-- `_trip`, `reset_cap_trip`, `reset_context_tracking`, `start`
abbrev pub trip : {F : Type 0} → String → State F → Option String × State F
trip message s = (some message, record s { last_cap_trip = some message })

unfoldable pub reset_cap_trip : {F : Type 0} → State F → State F
reset_cap_trip s = record s { last_cap_trip = none }

unfoldable pub reset_context_tracking : {F : Type 0} → State F → State F
reset_context_tracking s = record s {
  cap = record s.cap {
    cumulative_input_tokens = 0;
    cumulative_output_tokens = 0;
    cumulative_cache_read = 0;
    cumulative_cache_write = 0;
  };
}

unfoldable pub start : {F : Type 0} → F → State F → State F
start now s = record s { cap = record s.cap { start_time = now } }

-- `limit > 0 and used >= limit`
unfoldable pub exceeds : ℤ → ℕ → Bool
exceeds (pos limit) used = ltb 0 limit && leb limit used
exceeds (negsuc n) used = false

abbrev is_minus_one : ℤ → Bool
is_minus_one (pos n) = false
is_minus_one (negsuc n) = nat_beq n 0

module _ (num : Number) where
  open num use {
    F, zero_of, one, minus_one, plus, minus, greater, at_least, equals, of_int, whole, tenth,
    millions, show_int,
  }

  unfoldable pub is_unlimited : EvalCap F → Bool
  is_unlimited c =
      equals c.max_iterations minus_one
      && equals c.max_seconds minus_one
      && is_minus_one c.max_input_tokens
      && is_minus_one c.max_output_tokens

  -- The lenient test that comes before an iteration is charged.
  unfoldable pub at_cap : EvalCap F → Bool
  at_cap c = greater c.max_iterations zero_of && at_least c.iteration_credit c.max_iterations

  unfoldable pub out_of_time : F → EvalCap F → Bool
  out_of_time now c =
      greater c.max_seconds zero_of
      && greater c.start_time zero_of
      && at_least (minus now c.start_time) c.max_seconds

  -- `_check_hard_caps` and `check`, at the time `now`
  unfoldable pub check_hard_caps : F → State F → Option String × State F
  unfolding time_message budget_message out_of_time exceeds
  check_hard_caps now s =
      if out_of_time now s.cap
      then trip (time_message num (minus now s.cap.start_time) s.cap) s
      else if exceeds s.cap.max_input_tokens s.cap.cumulative_input_tokens
      then trip
          (budget_message num "Input" s.cap.max_input_tokens s.cap.cumulative_input_tokens
            "Increase max_input_tokens or reduce message context.")
          s
      else if exceeds s.cap.max_output_tokens s.cap.cumulative_output_tokens
      then trip
          (budget_message num "Output" s.cap.max_output_tokens s.cap.cumulative_output_tokens
            "Increase max_output_tokens or simplify criteria.")
          s
      else (none, s)

  -- What a reasoning call and a tool call cost.
  unfoldable pub charge_llm : ℕ → ℕ → ℕ → ℕ → State F → State F
  charge_llm prompt completion cache_read cache_write s = record s {
    cap = record s.cap {
      iteration_credit = plus s.cap.iteration_credit one;
      cumulative_input_tokens = s.cap.cumulative_input_tokens + (prompt + cache_read + cache_write);
      cumulative_output_tokens = s.cap.cumulative_output_tokens + completion;
      cumulative_cache_read = s.cap.cumulative_cache_read + cache_read;
      cumulative_cache_write = s.cap.cumulative_cache_write + cache_write;
    };
  }

  unfoldable pub charge_tool : State F → State F
  charge_tool s = record s {
    cap = record s.cap { iteration_credit = plus s.cap.iteration_credit s.cap.tool_call_weight };
  }

  abbrev pub guarded : (State F → State F) → F → State F → Option String × State F
  guarded charge now s =
      if at_cap s.cap then trip (iteration_message num s.cap) s else check_hard_caps now (charge s)

  unfoldable pub record_llm_call : ℕ → ℕ → ℕ → ℕ → F → State F → Option String × State F
  record_llm_call prompt completion cache_read cache_write =
      guarded (charge_llm prompt completion cache_read cache_write)

  unfoldable pub record_tool_call : F → State F → Option String × State F
  record_tool_call = guarded charge_tool

  unfoldable pub remaining_seconds : F → EvalCap F → F
  remaining_seconds now c =
      if at_least zero_of c.max_seconds
      then minus_one
      else if equals c.start_time zero_of
      then c.max_seconds
      else minus c.max_seconds (minus now c.start_time)

  unfoldable pub max_iterations_int : EvalCap F → ℤ
  max_iterations_int c =
      if at_least zero_of c.max_iterations then pos 10000 else whole c.max_iterations

  -- A use of the cap, at a time.
  pub data Call : Type 0 where
    llm : (prompt completion cache_read cache_write : ℕ) (now : F) → Call
    tool : (now : F) → Call
    check : (now : F) → Call

  unfoldable pub call : Call → State F → Option String × State F
  unfolding record_llm_call record_tool_call
  call (llm p c r w now) s = record_llm_call p c r w now s
  call (tool now) s = record_tool_call now s
  call (check now) s = check_hard_caps now s

  -- A run of the evaluator: the replies, and the state that it leaves.
  unfoldable pub run : List Call → State F → List (Option String) × State F
  unfolding call
  run [] s = ([], s)
  run (c ∷ cs) s =
      let (reply, s') = call c s in let (replies, end) = run cs s' in (reply ∷ replies, end)
