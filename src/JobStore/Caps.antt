-- ===== src/JobStore/Caps.antt =====
-- engine/job_store.py, the caps of an evaluation in a job record.
use gitreins.Prelude.{◌≡◌, refl, [], ◌∷◌, Option, none, some, string_eq}
use gitreins.Prelude.Dict.{Dict, lookup}
use gitreins.EvalCap.Format.{ℤ, negsuc, Number, EvalCap}

-- What a field holds: a float or an int.
pub data Primitive (F : Type 0) : Type 0 where
  float : F → Primitive F
  int : ℤ → Primitive F

module _ (num : Number) where
  open num use {F, zero_of, minus_one, one_tenth, of_int, whole}

  -- `_CAP_FIELDS`, each with the attribute that it reads.
  abbrev cap_fields : EvalCap F → Dict (Primitive F)
  cap_fields c =
      ("max_iterations", float c.max_iterations)
      ∷ ("max_seconds", float c.max_seconds)
      ∷ ("max_input_tokens", int c.max_input_tokens)
      ∷ ("max_output_tokens", int c.max_output_tokens)
      ∷ ("tool_call_weight", float c.tool_call_weight)
      ∷ []

  unfoldable pub cap_to_dict : Option (EvalCap F) → Option (Dict (Primitive F))
  cap_to_dict none = none
  cap_to_dict (some c) = some (cap_fields c)

  abbrev float_of : Option (Primitive F) → F → F
  float_of none default = default
  float_of (some (float x)) default = x
  float_of (some (int n)) default = of_int n

  abbrev int_of : Option (Primitive F) → ℤ → ℤ
  int_of none default = default
  int_of (some (float x)) default = whole x
  int_of (some (int n)) default = n

  -- A cap with these limits that nothing has used.
  abbrev pub unused :
      (max_iterations max_seconds : F) (max_input max_output : ℤ) (weight : F) → EvalCap F
  unused max_iterations max_seconds max_input max_output weight = record {
    max_iterations = max_iterations;
    max_seconds = max_seconds;
    max_input_tokens = max_input;
    max_output_tokens = max_output;
    tool_call_weight = weight;
    iteration_credit = zero_of;
    start_time = zero_of;
    cumulative_input_tokens = 0;
    cumulative_output_tokens = 0;
    cumulative_cache_read = 0;
    cumulative_cache_write = 0;
    source = "";
  }

  unfoldable pub cap_from_dict : Option (Dict (Primitive F)) → Option (EvalCap F)
  cap_from_dict none = none
  cap_from_dict (some []) = none
  cap_from_dict (some (field ∷ fields)) =
      let d = field ∷ fields in
      some (
        unused (float_of (lookup "max_iterations" d) minus_one)
          (float_of (lookup "max_seconds" d) minus_one)
          (int_of (lookup "max_input_tokens" d) (negsuc 0))
          (int_of (lookup "max_output_tokens" d) (negsuc 0))
          (float_of (lookup "tool_call_weight" d) one_tenth))

  -- What is left of a cap: its limits.
  abbrev pub limits : Option (EvalCap F) → Option (EvalCap F)
  limits none = none
  limits (some c) = some (
      unused c.max_iterations c.max_seconds c.max_input_tokens c.max_output_tokens
        c.tool_call_weight)

  -- A cap that is written and read back has the five limits that it had, nothing used and no
  -- source; no cap stays no cap.
  pub cap_from_dict-cap_to_dict :
      (cap : Option (EvalCap F)) → cap_from_dict (cap_to_dict cap) ≡ limits cap
  unfolding cap_from_dict cap_to_dict lookup
  cap_from_dict-cap_to_dict none = refl
  cap_from_dict-cap_to_dict (some c) = refl
