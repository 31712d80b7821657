-- ===== src/DataProtection/Scan.antt =====
-- engine/data_protection.py, `scan`, `_resolve` and `redact_text`. The iterators over the regular
-- expressions, `fnmatch` and the test of an address against `preserve_list`, which asks
-- `ipaddress`, are parameters.
pub mod Selects
pub mod Caught
pub mod Order
pub mod Suppressed
use gitreins.Prelude.{
  ℕ, Bool, true, false, not, ◌&&◌, ◌||◌, List, [], ◌∷◌, ◌++◌, Option, none, some, String, map,
  is_empty, any, keep, if◌then◌else◌, ltb, nat_beq, ◌==◌, string_eq,
}
use gitreins.Prelude.Text.{Text, codes}
use gitreins.Prelude.Slices.{sort_by}
use gitreins.DataProtection.Policy.{
  Handling, Rule, email, phone, ssn, passport, medical, financial, names, ipv4, ipv6, cidr,
  preserve, DetectionRule, rule_by_name, CategoryPolicy, ExceptionPolicy, DataProtectionPolicy,
  category_ip, exception_matches, policy_active, category_for, effective_detection,
  effective_handling, confidence_threshold, rule_scans,
}
use gitreins.DataProtection.Findings.{Finding, ScanResult, line_of, apply_redactions}

-- `_Match`
pub record RuleMatch : Type 0 where
  pub rule : Rule
  pub start : ℕ
  pub end : ℕ
  pub value : Text
  pub confidence : ℕ

-- What the module takes from `re`, `fnmatch` and `ipaddress`.
pub record Detectors : Type 0 where
  -- `_ALL_ITERATORS[rule](text)`
  pub iterator : Rule → Text → List RuleMatch
  pub fnmatch : Text → Text → Bool
  -- `_address_in_preserve_list`
  pub address_in_preserve_list : Text → List Text → Bool

-- `_ALL_ITERATORS`, whose last entry the second loop of `scan` passes over
abbrev pub other_rules : List Rule
other_rules = email ∷ phone ∷ ssn ∷ passport ∷ medical ∷ financial ∷ names ∷ ipv4 ∷ ipv6 ∷ []

unfoldable pub overlaps : ℕ → ℕ → List RuleMatch → Bool
overlaps start end spans = any (λ span. ltb start span.end && ltb span.start end) spans

-- The order of `findings.sort(key=lambda f: (f.start, f.end))`.
abbrev pub stands_before : Finding → Finding → Bool
stands_before f g = ltb f.start g.start || (nat_beq f.start g.start && not (ltb g.end f.end))

module _ (d : Detectors) (p : DataProtectionPolicy) where
  open d use {iterator, fnmatch, address_in_preserve_list}

  first_exception : List ExceptionPolicy → RuleMatch → Option Text → Option ExceptionPolicy
  first_exception [] match path = none
  first_exception (e ∷ es) match path =
      if exception_matches fnmatch e (rule_by_name match.rule).category
        (rule_by_name match.rule).rule match.value path
      then some e
      else first_exception es match path

  unfoldable pub ip_handling : Text → Handling → CategoryPolicy → Handling
  ip_handling value handling category =
      if not (is_empty category.preserve_list)
        && address_in_preserve_list value category.preserve_list
      then preserve
      else elim category.default_action [ some action ↦ action | none ↦ handling ]

  unfoldable pub resolved_handling : RuleMatch → Handling
  unfolding ip_handling
  resolved_handling match =
      let handling = effective_handling p match.rule in
      if (rule_by_name match.rule).category == category_ip
      then ip_handling match.value handling (category_for p match.rule)
      else handling

  finding_of : Option ExceptionPolicy → RuleMatch → Text → Finding
  finding_of excepted match text = record {
    category = codes (rule_by_name match.rule).category;
    rule = match.rule;
    value = match.value;
    line = line_of text match.start;
    start = match.start;
    end = match.end;
    confidence = match.confidence;
    detection = effective_detection p match.rule;
    handling = resolved_handling match;
    suppressed = elim excepted [ some e ↦ true | none ↦ false ];
    exception_reason = elim excepted [ some e ↦ e.reason | none ↦ [] ];
  }

  unfoldable pub resolve : RuleMatch → Text → Option Text → Finding
  unfolding first_exception finding_of resolved_handling
  resolve match text path = finding_of (first_exception p.exceptions match path) match text

  -- The first loop; its matches are the spans that are covered.
  unfoldable pub cidr_matches : Text → List RuleMatch
  cidr_matches text = keep (λ match. rule_scans p cidr (some match.confidence)) (iterator cidr text)

  -- A match of another rule that the loop appends.
  abbrev pub is_selected : List RuleMatch → Rule → RuleMatch → Bool
  is_selected covered rule match =
      if overlaps match.start match.end covered
      then false
      else not (ltb match.confidence (confidence_threshold p rule))

  unfoldable pub rule_matches : List RuleMatch → Text → Rule → List RuleMatch
  rule_matches covered text rule =
      if not (rule_scans p rule none)
      then []
      else keep (is_selected covered rule) (iterator rule text)

  each_rule : List RuleMatch → Text → List Rule → List RuleMatch
  each_rule covered text [] = []
  each_rule covered text (rule ∷ rules) =
      rule_matches covered text rule ++ each_rule covered text rules

  unfoldable pub all_matches : Text → List RuleMatch
  unfolding cidr_matches rule_matches each_rule
  all_matches text =
      let covered = cidr_matches text in covered ++ each_rule covered text other_rules

  unfoldable pub scan : Text → Option Text → ScanResult
  unfolding all_matches resolve
  scan text path =
      if not (policy_active p) || is_empty text
      then record { findings = []; redacted_text = text }
      else let findings =
          sort_by stands_before (map (λ match. resolve match text path) (all_matches text)) in
        record { findings = findings; redacted_text = apply_redactions text findings }

  unfoldable pub redact_text : Text → Option Text → Text
  redact_text text path =
      if not (policy_active p) || is_empty text then text else (scan text path).redacted_text
