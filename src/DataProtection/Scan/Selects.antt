-- ===== src/DataProtection/Scan/Selects.antt =====
-- What a scan reports: only what the policy selects.
use gitreins.Prelude.{
  ℕ, ◌≤◌, ◌≡◌, ◌⊎◌, inl, inr, refl, true, false, not, ◌||◌, List, [], ◌∷◌, Option, is_empty, keep,
  All, All-append, Bool-cases, arith, map, some, none,
}
use gitreins.Prelude.Text.{Text}
use gitreins.Prelude.Slices.{All-keep, All-map, All-mono, All-sort_by}
use gitreins.DataProtection.Policy.{
  Rule, cidr, is_off, DataProtectionPolicy, policy_active, effective_detection,
  confidence_threshold, rule_enabled, rule_scans,
}
use gitreins.DataProtection.Findings.{Finding}
use gitreins.DataProtection.Scan.{
  RuleMatch, Detectors, other_rules, overlaps, stands_before, resolve, cidr_matches, is_selected,
  rule_matches, each_rule, all_matches, scan,
}

-- The iterator of a rule yields matches of that rule.
abbrev pub IsLabelled : Detectors → Type 0
IsLabelled d = (rule : Rule) (text : Text) → All (λ match. match.rule ≡ rule) (d.iterator rule text)

module _ (p : DataProtectionPolicy) where
  rule_enabled-on :
      (rule : Rule) → rule_enabled p rule ≡ true → is_off (effective_detection p rule) ≡ false
  unfolding rule_enabled
  rule_enabled-on rule h = ground arith

  rule_scans-enabled :
      (rule : Rule) (confidence : ℕ)
      → rule_scans p rule (some confidence) ≡ true
      → (rule_enabled p rule ≡ true) × (confidence_threshold p rule ≤ confidence)
  unfolding rule_scans
  rule_scans-enabled rule confidence h = ground arith

  pub rule_scans_of_enabled :
      (rule : Rule) (confidence : ℕ)
      → rule_enabled p rule ≡ true
      → confidence_threshold p rule ≤ confidence
      → rule_scans p rule (some confidence) ≡ true
  unfolding rule_scans
  rule_scans_of_enabled rule confidence h k = ground arith

module _ (d : Detectors) (p : DataProtectionPolicy) (text : Text) where
  -- A match that the policy selects.
  abbrev pub IsChosen : RuleMatch → Type 0
  IsChosen match =
      (rule_enabled p match.rule ≡ true)
      × (confidence_threshold p match.rule ≤ match.confidence)
      × ((match.rule ≡ cidr) ⊎ (overlaps match.start match.end (cidr_matches d p text) ≡ false))

  -- A finding that the policy selects, by the rule that it names.
  abbrev IsSelected : Finding → Type 0
  IsSelected f =
      (f.detection ≡ effective_detection p f.rule)
      × (is_off f.detection ≡ false)
      × (confidence_threshold p f.rule ≤ f.confidence)
      × ((f.rule ≡ cidr) ⊎ (overlaps f.start f.end (cidr_matches d p text) ≡ false))

  module _ (labelled : IsLabelled d) where
    cidr_matches-IsChosen : All IsChosen (cidr_matches d p text)
    unfolding cidr_matches
    cidr_matches-IsChosen =
        All-mono
          (λ match h.
            let (on, sure) = rule_scans-enabled p cidr match.confidence h.0 in
            (rw h.1 on, rw h.1 sure, inl h.1))
          (cidr_matches d p text)
          (All-keep (λ match. match.rule ≡ cidr)
            (λ match. rule_scans p cidr (some match.confidence)) (d.iterator cidr text)
            (labelled cidr text))

    selected_lem :
        (rule : Rule) (match : RuleMatch)
        → rule_scans p rule none ≡ true
        → is_selected d p (cidr_matches d p text) rule match ≡ true
        → match.rule ≡ rule
        → IsChosen match
    unfolding rule_scans
    selected_lem rule match on h e =
        let clear : overlaps match.start match.end (cidr_matches d p text) ≡ false = ground arith in
        let sure : confidence_threshold p rule ≤ match.confidence = ground arith in
        (rw e on, rw e sure, inr clear)

    rule_matches-IsChosen :
        (rule : Rule) → All IsChosen (rule_matches d p (cidr_matches d p text) text rule)
    unfolding rule_matches
    rule_matches-IsChosen rule = elim (Bool-cases (rule_scans p rule none)) [
      | inl on ↦ rw on (
          All-mono (λ match h. selected_lem rule match on h.0 h.1)
            (keep (is_selected d p (cidr_matches d p text) rule) (d.iterator rule text))
            (All-keep (λ match. match.rule ≡ rule) (is_selected d p (cidr_matches d p text) rule)
              (d.iterator rule text) (labelled rule text)))
      | inr off ↦ rw off tt
    ]

    each_rule-IsChosen :
        (rules : List Rule) → All IsChosen (each_rule d p (cidr_matches d p text) text rules)
    unfolding each_rule
    each_rule-IsChosen [] = tt
    each_rule-IsChosen (rule ∷ rules) =
        All-append IsChosen (rule_matches d p (cidr_matches d p text) text rule)
          (each_rule d p (cidr_matches d p text) text rules) (rule_matches-IsChosen rule)
          (each_rule-IsChosen rules)

    resolve-IsSelected :
        (path : Option Text) (match : RuleMatch)
        → IsChosen match
        → IsSelected (resolve d p match text path)
    unfolding resolve
    resolve-IsSelected path match h = (refl, rule_enabled-on p match.rule h.0, h.1, h.2)

    -- Every finding of a scan has the detection that the policy gives its rule, which is not `off`,
    -- and a confidence at or over the threshold of its rule; one of another rule than `cidr`
    -- overlaps no range that the scan covers.
    scan-IsSelected : (path : Option Text) → All IsSelected (scan d p text path).findings
    unfolding scan all_matches
    scan-IsSelected path = elim (Bool-cases (not (policy_active p) || is_empty text)) [
      | inl idle ↦ rw idle tt
      | inr busy ↦ rw busy (
          All-sort_by stands_before IsSelected
            (map (λ match. resolve d p match text path) (all_matches d p text))
            (All-map IsSelected (λ match. resolve d p match text path) (all_matches d p text)
              (All-mono (resolve-IsSelected path) (all_matches d p text) (
                All-append IsChosen (cidr_matches d p text)
                  (each_rule d p (cidr_matches d p text) text other_rules) cidr_matches-IsChosen
                  (each_rule-IsChosen other_rules)))))
    ]
