-- ===== src/Resolution/Verdict.antt =====
-- engine/resolution.py, the verdict, the bundle it was made from, and the verdict of a failure.
use gitreins.Prelude.{
  ℕ, Bool, true, false, ◌||◌, List, [], ◌∷◌, ◌++◌, Option, none, some, String, if◌then◌else◌, ◌==◌,
  string_eq, is_empty,
}
use gitreins.Prelude.Dict.{Dict}
use gitreins.Prelude.Int.{ℤ}
use gitreins.Prelude.Text.{Text, codes}
use gitreins.Resolution.Value.{Json, null}
use gitreins.Resolution.Bands.{Band, resolved, review, abstain, ManifestEntry}
use gitreins.Resolution.Call.{occurs_in}

pub record TraceSeed (F : Type 0) : Type 0 where
  pub file : Text
  pub score : F
  pub symbols : List Text

pub record AssembledBundle (F : Type 0) : Type 0 where
  pub text : Text
  pub manifest : List (ManifestEntry F)
  pub seeds : List (TraceSeed F)
  pub dependency_paths : Dict (List Text)
  pub tokens_estimated : ℕ
  pub clipped : Bool
  pub disclosure : Text
  pub chars_dropped : ℕ
  pub lines_dropped : ℕ
  pub dropped_files : List Text
  pub budget_exhausted : Bool
  pub notes : List Text

-- The fields that the response fills as it is hold its values; `null` is None.
pub record ResolutionVerdict (F : Type 0) : Type 0 where
  pub question : Text
  pub verdict : Band
  pub probability : Option F
  pub missing_kind : Option String
  pub missing_kind_probability : Option F
  pub evidence_quality : Option ℤ
  pub evidence_quality_score : Option F
  pub evidence_quality_legend : Option (Dict String)
  pub manifest : List (ManifestEntry F)
  pub model : Json F
  pub request_id : Json F
  pub provider : Json F
  pub tokens_estimated : ℕ
  pub input_tokens : Json F
  pub output_tokens : Json F
  pub cost_usd : Json F
  pub clipped : Bool
  pub clip_disclosure : Text
  pub chars_dropped : ℕ
  pub lines_dropped : ℕ
  pub dropped_files : List Text
  pub budget_exhausted : Bool
  pub seeds : List (TraceSeed F)
  pub dependency_paths : Dict (List Text)
  pub abstain_reason : Option String
  pub abstain_detail : Option Text
  pub attempts : List Text
  pub notes : List Text

abbrev usable : Band → Bool
usable resolved = true
usable review = true
usable _ = false

abbrev reason_is : String → Option String → Bool
reason_is word none = false
reason_is word (some why) = why == word

abbrev pub is_decided : Band → Bool
is_decided abstain = false
is_decided _ = true

module _ {F : Type 0} where
  -- `ResolutionVerdict.ok`
  abbrev pub ok : ResolutionVerdict F → Bool
  ok v = is_decided v.verdict

  -- `ResolutionVerdict.exit_code`
  unfoldable pub exit_code : ResolutionVerdict F → ℕ
  exit_code v =
      if usable v.verdict || reason_is "hilo-not-initialized" v.abstain_reason then 0 else 1

  -- What a verdict takes from no bundle.
  abbrev no_bundle : AssembledBundle F
  no_bundle = record {
    text = [];
    manifest = [];
    seeds = [];
    dependency_paths = [];
    tokens_estimated = 0;
    clipped = false;
    disclosure = [];
    chars_dropped = 0;
    lines_dropped = 0;
    dropped_files = [];
    budget_exhausted = false;
    notes = [];
  }

  abbrev bundle_or_none : Option (AssembledBundle F) → AssembledBundle F
  bundle_or_none none = no_bundle
  bundle_or_none (some b) = b

  abbrev disclosed : AssembledBundle F → List Text
  disclosed b = if is_empty b.disclosure then [] else b.disclosure ∷ []

  -- `_abstain`, with no notes of the caller, which `resolve` never gives.
  unfoldable pub abstain_with :
      Text → String → Option Text → Option (AssembledBundle F) → List Text → ResolutionVerdict F
  abstain_with question reason detail bundle attempts =
      let b = bundle_or_none bundle in
      record {
        question = question;
        verdict = abstain;
        probability = none;
        missing_kind = none;
        missing_kind_probability = none;
        evidence_quality = none;
        evidence_quality_score = none;
        evidence_quality_legend = none;
        manifest = b.manifest;
        model = null;
        request_id = null;
        provider = null;
        tokens_estimated = b.tokens_estimated;
        input_tokens = null;
        output_tokens = null;
        cost_usd = null;
        clipped = b.clipped;
        clip_disclosure = b.disclosure;
        chars_dropped = b.chars_dropped;
        lines_dropped = b.lines_dropped;
        dropped_files = b.dropped_files;
        budget_exhausted = b.budget_exhausted;
        seeds = b.seeds;
        dependency_paths = b.dependency_paths;
        abstain_reason = some reason;
        abstain_detail = detail;
        attempts = attempts;
        notes = disclosed b;
      }

-- `_join_disclosure`
unfoldable pub join_disclosure : Text → Text → Text
unfolding occurs_in
join_disclosure existing extra =
    if is_empty existing
    then extra
    else if occurs_in extra existing
    then existing
    else existing ++ (codes "; " ++ extra)
