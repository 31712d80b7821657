-- ===== src/Pipeline/Refused.antt =====
-- engine/pipeline.py and engine/worktree_manager.py together: a gate that did not run on the machine
-- keeps the verdict from being merged.
use gitreins.Prelude.{
  ◌≡◌, ◌∙◌, refl, ap, Bool, true, false, not, ◌||◌, List, [], ◌∷◌, Option, none, some, String, map,
  keep, contains, text_eq, is_empty, if_ind, ◌==◌, if◌then◌else◌, string_eq,
}
use gitreins.Prelude.Text.{Text, strip}
use gitreins.Gate.Value.{
  Value, Fields, null, str, list, dict, bare, entry, get_field, find_field, field_values, elems,
}
use gitreins.Pipeline.Result.{
  StepResult, StageResult, bool_value, put_field, items_of, put_degradation, stage_fields,
  stage_to_dict,
}
use gitreins.Pipeline.Skips.Gathered.{or_right}
use gitreins.Pipeline.Skips.Recorded.{
  reported_ids, recorded, record_runtime_skips-reported, record_runtime_skips-degraded,
}
use gitreins.Pipeline.Script.Marked.{find_field-put_field}
use gitreins.Worktree.State.{Refusal, Host, failed_verdict, skipped_checks, tier1_only}
use gitreins.Worktree.Verdict.{is_true, text_of, tier1_skipped_steps, unwaived, refusal_of}

elems-items_of : (vs : List Value) → elems (items_of vs) ≡ vs
unfolding elems items_of
elems-items_of [] = refl
elems-items_of (v ∷ vs) = ap (◌∷◌ v) (elems-items_of vs)

put_field-nonempty :
    (key : String) (v : Value) (fs : Fields) → is_empty (field_values (put_field key v fs)) ≡ false
unfolding put_field field_values
put_field-nonempty key v bare = refl
put_field-nonempty key v (entry k w fs) =
    if_ind (λ gs. is_empty (field_values gs) ≡ false) (k == key) (λ e. refl) (λ e. refl)

find_field-nonempty :
    (key : String) (fs : Fields) {v : Value}
    → find_field key fs ≡ some v
    → is_empty (field_values fs) ≡ false
unfolding find_field field_values
find_field-nonempty key bare h = cc
find_field-nonempty key (entry k w fs) h = refl

listed : (b : Bool) {c : Bool} → (b || c) ≡ true → (b ≡ true → ⊥) → c ≡ true
listed true h n = absurd (n refl)
listed false h n = h

module _ (h : Host) where
  texts : (ss : List Text) → map (text_of h) (map str ss) ≡ ss
  texts [] = refl
  texts (s ∷ ss) = ap (◌∷◌ s) (texts ss)

  -- The skipped steps that a merge counts.
  abbrev not_blank : Text → Bool
  not_blank step = not (is_empty (strip h.python.unicode step))

  keep-nonempty :
      (id : Text) (ss : List Text)
      → not_blank id ≡ true
      → contains ss id ≡ true
      → is_empty (keep not_blank ss) ≡ false
  unfolding contains
  keep-nonempty id [] n c = absurd (cc c)
  keep-nonempty id (s ∷ ss) n c =
      if_ind (λ (kept : List Text). is_empty kept ≡ false) (not_blank s) (λ shown. refl)
        (λ blank. keep-nonempty id ss n (
          listed (id == s) c
            (λ same. cc (ap not_blank ((text_eq.equals_iff id s).0 same), n, blank))))

module _ (stage : StageResult) (degraded : stage.degraded ≡ true) (d : Fields) where
  put_degradation-skipped :
      find_field "skipped_steps" (put_degradation stage d)
      ≡ some (list (items_of (map str stage.skipped_steps)))
  unfolding put_degradation
  put_degradation-skipped =
      let skipped = list (items_of (map str stage.skipped_steps)) in
      let marked = put_field "degraded" (bool_value true) d in
      rw degraded (
        find_field-put_field "degradation_reason" "skipped_steps" (str stage.degradation_reason)
          (put_field "skipped_steps" skipped marked)
        ∙ find_field-put_field "skipped_steps" "skipped_steps" skipped marked)

  put_degradation-nonempty : is_empty (field_values (put_degradation stage d)) ≡ false
  unfolding put_degradation
  put_degradation-nonempty = rw degraded (
      put_field-nonempty "degradation_reason" (str stage.degradation_reason) (
        put_field "skipped_steps" (list (items_of (map str stage.skipped_steps)))
          (put_field "degraded" (bool_value true) d)))

module _ (show : StepResult → Value) (stage : StageResult) (degraded : stage.degraded ≡ true) where
  stage_fields-skipped :
      find_field "skipped_steps" (stage_fields show stage)
      ≡ some (list (items_of (map str stage.skipped_steps)))
  unfolding stage_fields
  stage_fields-skipped = put_degradation-skipped stage degraded _

  stage_fields-nonempty : is_empty (field_values (stage_fields show stage)) ≡ false
  unfolding stage_fields
  stage_fields-nonempty = put_degradation-nonempty stage degraded _

module _ (h : Host) (show : StepResult → Value) (stage : StageResult) (id : Text) where
  -- The gates that a merge sees in a verdict with a degraded stage.
  tier1_skipped_steps-nonempty :
      (fs ss : Fields)
      → find_field "stages" fs ≡ some (dict ss)
      → find_field "tier1" ss ≡ some (stage_to_dict show stage)
      → stage.degraded ≡ true
      → contains stage.skipped_steps id ≡ true
      → not_blank h id ≡ true
      → is_empty (tier1_skipped_steps h (dict fs)) ≡ false
  unfolding tier1_skipped_steps stage_to_dict
  tier1_skipped_steps-nonempty fs ss e f degraded listed shown =
      rw
        (
          e,
          find_field-nonempty "tier1" ss f,
          f,
          stage_fields-nonempty show stage degraded,
          stage_fields-skipped show stage degraded,
          elems-items_of (map str stage.skipped_steps),
          texts h stage.skipped_steps,
        )
        (keep-nonempty h id stage.skipped_steps shown listed)

second_refusal :
    (passed none_skipped : Bool) (later : Option Refusal)
    → none_skipped ≡ false
    → (if not passed
        then some failed_verdict
        else if not none_skipped
        then some skipped_checks
        else later)
      ≡ some (if passed then skipped_checks else failed_verdict)
second_refusal true none_skipped later h = rw h refl
second_refusal false none_skipped later h = refl

refusal_of_skipped :
    (h : Host) (verdict : Value)
    → is_empty (tier1_skipped_steps h verdict) ≡ false
    → refusal_of h verdict
      ≡ some (if is_true (get_field verdict "passed" null) then skipped_checks else failed_verdict)
unfolding refusal_of
refusal_of_skipped h verdict skipped =
    second_refusal (is_true (get_field verdict "passed" null))
      (is_empty (tier1_skipped_steps h verdict))
      (if unwaived h verdict then some tier1_only else none) skipped

module _ (h : Host) (as_int : Value → Option Text) (show : StepResult → Value) (stage : StageResult)
    (id : Text) where
  -- A verdict whose `tier1` stage holds a step that reports a gate that did not run, one that the
  -- stage did not declare and whose id is not blank, is refused by a merge: as a failed verdict, or
  -- for its skipped checks where it passed.
  pub refusal_of_reported :
      (fs ss : Fields)
      → find_field "stages" fs ≡ some (dict ss)
      → find_field "tier1" ss ≡ some (stage_to_dict show (recorded h.python as_int stage))
      → contains (reported_ids h.python as_int stage.steps) id ≡ true
      → contains stage.skipped_steps id ≡ false
      → is_empty (strip h.python.unicode id) ≡ false
      → refusal_of h (dict fs)
        ≡ some
            (if is_true (get_field (dict fs) "passed" null) then skipped_checks else failed_verdict)
  refusal_of_reported fs ss e f reported undeclared shown =
      let listed : contains (recorded h.python as_int stage).skipped_steps id ≡ true =
        record_runtime_skips-reported h.python as_int stage id
        ∙ or_right (contains stage.skipped_steps id) reported in
      refusal_of_skipped h (dict fs) (
        tier1_skipped_steps-nonempty h show (recorded h.python as_int stage) id fs ss e f
          (record_runtime_skips-degraded h.python as_int stage id reported undeclared) listed
          (ap not shown))
