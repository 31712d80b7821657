-- ===== src/Resolution/Resolve.antt =====
-- engine/resolution.py, `resolve` from the assembled bundle on: the answer that comes back, and the
-- verdict.
pub mod Decided
use gitreins.Prelude.{
  ℕ, zero, suc, ◌+◌, ◌-◌, ◌*◌, ◌/◌, Bool, true, false, not, ◌&&◌, ◌||◌, List, [], ◌∷◌, ◌++◌, map,
  Option, none, some,
}
use gitreins.Prelude.{
  String, if◌then◌else◌, ◌==◌, string_eq, ltb, leb, length, take, is_empty, any, keep, contains,
  text_eq,
}
use gitreins.Prelude.Dict.{Dict, lookup}
use gitreins.Prelude.Int.{ℤ, pos, negsuc, leb_int}
use gitreins.Prelude.Text.{Text, Unicode, codes, join, strip}
use gitreins.EvidenceBounds.Lines.{splitlines}
use gitreins.EvidenceBounds.Marker.{decimal}
use gitreins.EvidenceBounds.Bound.{bound_step_evidence}
use gitreins.Resolution.Value.{
  Real, Json, Members, null, bool, int, float, string, array, object, get_member,
}
use gitreins.Resolution.Answers.{Answers, rubric_position}
use gitreins.Resolution.Bands.{Band, ManifestEntry, band_for}
use gitreins.Resolution.Call.{Reply, JevCallResult, occurs_in, call_jev}
use gitreins.Resolution.Pack.{estimate_tokens}
use gitreins.Resolution.Verdict.{AssembledBundle, ResolutionVerdict, abstain_with, join_disclosure}
use Prim.Native.Nat.{max}
use gitreins.Resolution.Clip.{Platform, worst_case_tokens, build_state, clip_state}

module _ (real : Real) (p : Platform real.F) where
  open real use {F}
  open p use {unicode}

  abbrev body_members : Json F → Members F
  body_members (object m) = m
  body_members _ = Members.empty

  abbrev or_none : Bool → Json F → Json F
  or_none true v = v
  or_none false v = null

  -- `isinstance(v, int)`, of which the booleans are; and `isinstance(v, (int, float))`.
  unfoldable pub is_int : Json F → Bool
  is_int (bool b) = true
  is_int (int n) = true
  is_int _ = false

  unfoldable pub is_number : Json F → Bool
  unfolding is_int
  is_number (float x) = true
  is_number v = is_int v

  -- An int that is not 0.
  abbrev nonzero_int : Json F → Option ℤ
  nonzero_int (bool b) = if b then some (pos 1) else none
  nonzero_int (int (pos zero)) = none
  nonzero_int (int n) = some n
  nonzero_int _ = none

  abbrev token_check : Text → Json F → Option ℤ → List Text
  token_check state reported none = []
  token_check state reported (some n) =
      if leb (estimate_tokens state) 0
      then []
      else (codes "token check: estimated="
          ++ (decimal (estimate_tokens state)
              ++ (codes " reported="
                  ++ (codes (p.show reported)
                      ++ (codes " chars="
                          ++ (decimal (length state)
                              ++ (codes " chars/token="
                                  ++ p.two_digits (
                                      real.over (real.of_int (pos (length state)))
                                        (real.of_int n)))))))))
        ∷ []

  abbrev safety_note : Text → Text
  safety_note state =
      codes "safety bound: "
      ++ (decimal (worst_case_tokens real state)
          ++ codes " tokens at the densest measured rate (1.39 chars/token) vs the 28000 ceiling")

  abbrev with_disclosure : AssembledBundle F → List Text
  with_disclosure b =
      if not (is_empty b.disclosure) && not (contains b.notes b.disclosure)
      then b.notes ++ b.disclosure ∷ []
      else b.notes

  abbrev usage_of : Json F → Members F
  usage_of body = body_members (get_member "usage" (body_members body))

  abbrev chosen : String → Option (Dict F) → Option F
  chosen label none = none
  chosen label (some d) = lookup label d

  -- The verdict of an answer that was read.
  unfoldable pub verdict_of :
      Text
      → Text
      → AssembledBundle F
      → (resolved_at review_at : F) → Json F
      → Answers F
      → List Text
      → ResolutionVerdict F
  unfolding worst_case_tokens get_member is_int is_number
  verdict_of question state b resolved_at review_at body answers attempts =
      let reported = get_member "input_tokens" (usage_of body) in
      let output = get_member "output_tokens" (usage_of body) in
      let cost = get_member "cost" (usage_of body) in
      record {
        question = question;
        verdict = band_for real (some answers.resolves) resolved_at review_at;
        probability = some answers.resolves;
        missing_kind = some answers.missing_kind;
        missing_kind_probability = chosen answers.missing_kind answers.kind_probabilities;
        evidence_quality = rubric_position real answers.quality_score answers.legend;
        evidence_quality_score = some answers.quality_score;
        evidence_quality_legend = answers.legend;
        manifest = b.manifest;
        model = get_member "model" (body_members body);
        request_id = get_member "id" (body_members body);
        provider = get_member "provider" (body_members body);
        tokens_estimated = estimate_tokens state;
        input_tokens = or_none (is_int reported) reported;
        output_tokens = or_none (is_int output) output;
        cost_usd = or_none (is_number cost) cost;
        clipped = b.clipped;
        clip_disclosure = b.disclosure;
        chars_dropped = b.chars_dropped;
        lines_dropped = b.lines_dropped;
        dropped_files = b.dropped_files;
        budget_exhausted = b.budget_exhausted;
        seeds = b.seeds;
        dependency_paths = b.dependency_paths;
        abstain_reason = none;
        abstain_detail = none;
        attempts = attempts;
        notes =
            with_disclosure b
            ++ (token_check state reported (nonzero_int reported) ++ safety_note state ∷ []);
      }

  abbrev or_transport : Option String → String
  or_transport none = "transport-error"
  or_transport (some why) = if why == "" then "transport-error" else why

  unfoldable pub judge :
      Text
      → Text
      → AssembledBundle F
      → (resolved_at review_at : F) → Option (Json F × Answers F)
      → JevCallResult F
      → ResolutionVerdict F
  unfolding abstain_with verdict_of
  judge question state b resolved_at review_at none call =
      abstain_with question (or_transport call.reason) call.detail (some b) call.attempts
  judge question state b resolved_at review_at (some (body, answers)) call =
      verdict_of question state b resolved_at review_at body answers call.attempts

  abbrev last : List Text → Option Text
  last [] = none
  last (note ∷ []) = some note
  last (note ∷ next ∷ notes) = last (next ∷ notes)

  -- Why no text was assembled; `graph` says that the checkout has a graph, `hilo` that the
  -- executable is found.
  unfoldable pub empty_reason : (graph hilo : Bool) → AssembledBundle F → String
  unfolding occurs_in
  empty_reason graph hilo b =
      if b.budget_exhausted
      then "budget-exhausted"
      else if graph
      then "empty-bundle"
      else if any (λ note. occurs_in (codes "hilo not found") (p.lower note)) b.notes || not hilo
      then "hilo-not-installed"
      else "hilo-not-initialized"

  module _ (graph hilo : Bool) (replies : Text → List (Reply F)) (resolved_at review_at : F) where
    unfoldable pub send : Text → Text × AssembledBundle F → ResolutionVerdict F
    unfolding judge call_jev
    send question (state, b) =
        let call = call_jev real p.lower (strip unicode) p.show (replies state) in
        judge question state b resolved_at review_at call.payload call

    -- `resolve`; `assemble` is `assemble_bundle` of the question, and `replies` what the service
    -- answers a state for each credential.
    unfoldable pub resolve : (Text → AssembledBundle F) → Text → ResolutionVerdict F
    unfolding send clip_state abstain_with empty_reason build_state
    resolve assemble question =
        let b = assemble question in
        if is_empty (strip unicode question)
        then abstain_with question "empty-question" (some (codes "the question was blank")) none []
        else if is_empty (strip unicode b.text)
        then abstain_with question (empty_reason graph hilo b) (last b.notes) (some b) []
        else send question (clip_state real p (build_state unicode question b.text) b)
