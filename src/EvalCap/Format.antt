-- ===== src/EvalCap/Format.antt =====
-- engine/eval_cap.py, the data of a cap, and the numbers and messages that it prints.
use gitreins.Prelude.{ℕ, ◌+◌, ◌/◌, ◌%◌, Bool, List, [], ◌∷◌}
use gitreins.Prelude.{String, if◌then◌else◌, ltb, leb, nat_beq}
use Prim.Native.String.{◌++◌ as append}
pub use gitreins.Prelude.Int.{ℤ, pos, negsuc}

-- Python's floats and the formats of the messages. `whole` is `int`, `tenth` is `:.1f`.
pub record Number : Type 1 where
  pub F : Type 0
  pub zero_of : F
  pub one : F
  pub minus_one : F
  -- 0.1
  pub one_tenth : F
  pub plus : F → F → F
  pub minus : F → F → F
  -- `>` and `>=`
  pub greater : F → F → Bool
  pub at_least : F → F → Bool
  pub equals : F → F → Bool
  pub of_int : ℤ → F
  pub whole : F → ℤ
  pub tenth : F → String
  pub millions : ℕ → String
  pub show_int : ℕ → String

pub record EvalCap (F : Type 0) : Type 0 where
  pub max_iterations : F
  pub max_seconds : F
  pub max_input_tokens : ℤ
  pub max_output_tokens : ℤ
  pub tool_call_weight : F
  pub iteration_credit : F
  pub start_time : F
  pub cumulative_input_tokens : ℕ
  pub cumulative_output_tokens : ℕ
  pub cumulative_cache_read : ℕ
  pub cumulative_cache_write : ℕ
  pub source : String

abbrev concat : List String → String
concat [] = ""
concat (s ∷ ss) = append s (concat ss)

module _ (num : Number) where
  open num use {
    F, zero_of, one, minus_one, plus, minus, greater, at_least, equals, of_int, whole, tenth,
    millions, show_int,
  }

  abbrev show_whole : ℤ → String
  show_whole (pos n) = show_int n
  show_whole (negsuc n) = append "-" (show_int (n + 1))

  -- `_fmt_num`
  unfoldable pub fmt_num : F → String
  fmt_num n = if equals n (of_int (whole n)) then show_whole (whole n) else tenth n

  -- `_fmt_tokens`
  unfoldable pub fmt_tokens : ℕ → String
  fmt_tokens n =
      if leb 1000000 n
      then append (millions n) "M"
      else if leb 1000 n
      then append (show_int (n / 1000)) "k"
      else show_int n

  abbrev fmt_limit : ℤ → String
  fmt_limit (pos n) = fmt_tokens n
  fmt_limit (negsuc n) = show_whole (negsuc n)

  abbrev fmt_whole_seconds : ℤ → String
  fmt_whole_seconds (negsuc n) = append (show_whole (negsuc n)) "s"
  fmt_whole_seconds (pos s) =
      if ltb s 60
      then append (show_int s) "s"
      else if ltb s 3600
      then concat (
          show_int (s / 60)
          ∷ "m"
          ∷ (if nat_beq (s % 60) 0 then [] else show_int (s % 60) ∷ "s" ∷ []))
      else concat (
          show_int (s / 3600)
          ∷ "h"
          ∷ (if nat_beq ((s % 3600) / 60) 0 then [] else show_int ((s % 3600) / 60) ∷ "m" ∷ []))

  -- `_fmt_seconds`
  unfoldable pub fmt_seconds : F → String
  fmt_seconds secs = fmt_whole_seconds (whole secs)

  unfoldable pub iteration_message : EvalCap F → String
  unfolding fmt_num
  iteration_message c = concat (
      "Iteration cap ("
      ∷ fmt_num c.max_iterations
      ∷ ") reached ("
      ∷ fmt_num c.iteration_credit
      ∷ " used). Increase max_iterations or split criteria."
      ∷ [])

  unfoldable pub time_message : F → EvalCap F → String
  unfolding fmt_seconds
  time_message elapsed c = concat (
      "Time cap ("
      ∷ fmt_seconds c.max_seconds
      ∷ ") exceeded ("
      ∷ fmt_seconds elapsed
      ∷ " elapsed). Increase max_time or simplify criteria."
      ∷ [])

  unfoldable pub budget_message : String → ℤ → ℕ → String → String
  unfolding fmt_tokens
  budget_message what limit used advice = concat (
      what
      ∷ " token budget ("
      ∷ fmt_limit limit
      ∷ ") exceeded ("
      ∷ fmt_tokens used
      ∷ " used). "
      ∷ advice
      ∷ [])
