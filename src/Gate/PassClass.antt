-- ===== src/Gate/PassClass.antt =====
-- engine/gate.py, `pass_class`: did Tier 2 ever run for a verdict.
use gitreins.Prelude.{Bool, true, false, not, ◌||◌}
use gitreins.Prelude.{if◌then◌else◌, ◌==◌, text_eq, text_beq_iff, any, arith}
use gitreins.Prelude.{◌≡◌, ◌⊎◌, ◌↔◌, ◌≢◌}
use gitreins.Prelude.Text.{Text, codes}
use gitreins.Gate.Value.{Value, null, str, dict, get_field, is_null, truthy, sequence, field_values}

abbrev pub pass_class_judged : Text
pass_class_judged = codes "judged"

abbrev pub pass_class_tier1_only : Text
pass_class_tier1_only = codes "tier1-only"

-- `isinstance(data, Mapping) and data.get("verdict")`
verdict_data : Value → Bool
unfolding truthy get_field
verdict_data (dict fs) = truthy (get_field (dict fs) "verdict" null)
verdict_data _ = false

-- `_field(stage, "steps", None) or []`, for steps that are a list.
stage_judged : Value → Bool
unfolding verdict_data sequence
stage_judged stage =
    any (λ step. verdict_data (get_field step "data" null))
      (sequence (get_field stage "steps" null))

stages_judged : Value → Bool
unfolding stage_judged field_values
stages_judged (dict fs) = any stage_judged (field_values fs)
stages_judged _ = false

-- One round of the loop over the candidates.
candidate_judged : Value → Bool
unfolding stages_judged
candidate_judged null = false
candidate_judged c =
    not (is_null (get_field c "tier2" null)) || stages_judged (get_field c "stages" null)

unfoldable pub tier2_evidence : Value → Bool
unfolding candidate_judged
tier2_evidence source =
    candidate_judged source || candidate_judged (get_field source "pipeline_result" null)

is_text : Value → Text → Bool
is_text (str s) t = s == t
is_text _ t = false

unfoldable pub pass_class : Value → Text
unfolding tier2_evidence is_text
pass_class source =
    let explicit = get_field source "pass_class" null in
    if is_text explicit pass_class_judged
    then pass_class_judged
    else if is_text explicit pass_class_tier1_only
    then pass_class_tier1_only
    else if tier2_evidence source
    then pass_class_judged
    else pass_class_tier1_only

is_text_iff : (v : Value) (t : Text) → (is_text v t ≡ true) ↔ (v ≡ str t)
unfolding is_text
is_text_iff (str s) t = ground (arith, text_beq_iff s t)
is_text_iff v t = ground arith

judged≢tier1_only : pass_class_judged ≡ pass_class_tier1_only → ⊥
judged≢tier1_only h = ground arith

module _ (e : Value) (ran : Bool) where
  abbrev classified : Text
  classified =
      if is_text e pass_class_judged
      then pass_class_judged
      else if is_text e pass_class_tier1_only
      then pass_class_tier1_only
      else if ran
      then pass_class_judged
      else pass_class_tier1_only

  classified-judged_iff :
      (classified ≡ pass_class_judged)
      ↔ ((e ≡ str pass_class_judged) ⊎ ((e ≢ str pass_class_tier1_only) × (ran ≡ true)))
  classified-judged_iff = ground (
    arith,
    is_text_iff e pass_class_judged,
    is_text_iff e pass_class_tier1_only,
    judged≢tier1_only,
  )

-- A verdict is `judged` exactly when it says so, or says neither of the two classes and carries
-- the evidence of a Tier 2 run; in every other case it is `tier1-only`.
pub pass_class-judged_iff :
    (source : Value)
    → (pass_class source ≡ pass_class_judged) ↔ (
        (get_field source "pass_class" null ≡ str pass_class_judged)
        ⊎ ((get_field source "pass_class" null ≢ str pass_class_tier1_only)
            × (tier2_evidence source ≡ true)))
unfolding pass_class
pass_class-judged_iff source =
    classified-judged_iff (get_field source "pass_class" null) (tier2_evidence source)
