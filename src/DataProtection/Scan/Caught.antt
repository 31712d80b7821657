-- ===== src/DataProtection/Scan/Caught.antt =====
-- A value that the policy blocks fails the scan.
use gitreins.Prelude.{
  ◌≤◌, ◌≡◌, ◌∙◌, ◌⊎◌, inl, inr, refl, sym, subst, true, false, List, [], ◌∷◌, Option, is_empty,
  keep, All, if_ind, arith, map, some, none,
}
use gitreins.Prelude.Text.{Text}
use gitreins.Prelude.Slices.{
  Any, Any-exists, Any-All, Any-mono, Any-append_left, Any-append_right, Any-keep, Any-map, sort_by,
  Any-sort_by,
}
use gitreins.DataProtection.Policy.{
  Rule, email, phone, cidr, block, rule_by_name, DataProtectionPolicy, ExceptionPolicy,
  exception_matches, policy_active, effective_detection, confidence_threshold, rule_enabled,
  rule_scans,
}
use gitreins.DataProtection.Findings.{Finding, is_blocked, scan_passed}
use gitreins.DataProtection.Scan.{
  RuleMatch, Detectors, other_rules, stands_before, first_exception, resolve, cidr_matches,
  is_selected, rule_matches, each_rule, all_matches, scan,
}
use gitreins.DataProtection.Scan.Selects.{IsLabelled, IsChosen, rule_scans_of_enabled}

module _ (d : Detectors) (p : DataProtectionPolicy) (text : Text) where
  -- A match that the policy selects and blocks, and that no exception names.
  abbrev pub IsCaught : Option Text → RuleMatch → Type 0
  IsCaught path match =
      IsChosen d p text match
      × (effective_detection p match.rule ≡ block)
      × All
          (λ e.
            exception_matches d.fnmatch e (rule_by_name match.rule).category
              (rule_by_name match.rule).rule match.value path
            ≡ false)
          p.exceptions

  no_exception :
      (match : RuleMatch) (path : Option Text) (es : List ExceptionPolicy)
      → All
          (λ e.
            exception_matches d.fnmatch e
              (rule_by_name match.rule).category
              (rule_by_name match.rule).rule
              match.value
              path
            ≡ false)
          es
      → first_exception d p es match path ≡ none
  unfolding first_exception
  no_exception match path [] h = refl
  no_exception match path (e ∷ es) h = rw h.0 (no_exception match path es h.1)

  resolve-is_blocked :
      (path : Option Text) (match : RuleMatch)
      → IsCaught path match
      → is_blocked (resolve d p match text path) ≡ true
  unfolding resolve
  resolve-is_blocked path match h = rw (no_exception match path p.exceptions h.2, h.1) refl

  selected_of_IsChosen :
      (rule : Rule) (match : RuleMatch)
      → (rule ≡ cidr → ⊥)
      → match.rule ≡ rule
      → IsChosen d p text match
      → is_selected d p (cidr_matches d p text) rule match ≡ true
  selected_of_IsChosen rule match other e h = elim h.2 [
    | inl range ↦ absurd (other (sym e ∙ range))
    | inr clear ↦
        rw clear
          (let sure : confidence_threshold p rule ≤ match.confidence = rw (← e) h.1 in ground arith)
  ]

is_blocked-nonempty :
    (fs : List Finding) → Any (λ f. is_blocked f ≡ true) fs → is_empty (keep is_blocked fs) ≡ false
is_blocked-nonempty [] h = absurd h
is_blocked-nonempty (f ∷ fs) (inl h) = rw h refl
is_blocked-nonempty (f ∷ fs) (inr h) =
    if_ind (λ kept. is_empty kept ≡ false) (is_blocked f) (λ e. refl)
      (λ e. is_blocked-nonempty fs h)

rule_cases :
    (rule : Rule) → (rule ≡ cidr) ⊎ ((rule ≡ cidr → ⊥) × Any (λ other. other ≡ rule) other_rules)
rule_cases email = ground arith
rule_cases phone = ground arith
rule_cases cidr = inl refl
rule_cases rule = ground arith

module _ (d : Detectors) (p : DataProtectionPolicy) (text : Text) (path : Option Text)
    (labelled : IsLabelled d) where
  -- A caught match of the rule.
  abbrev IsCaughtBy : Rule → RuleMatch → Type 0
  IsCaughtBy rule match = IsCaught d p text path match × (match.rule ≡ rule)

  caught_by :
      (rule : Rule)
      → Any (IsCaught d p text path) (d.iterator rule text)
      → Any (IsCaughtBy rule) (d.iterator rule text)
  caught_by rule h =
      Any-All (IsCaught d p text path) (IsCaughtBy rule) (λ match. match.rule ≡ rule)
        (λ match c e. (c, e)) (d.iterator rule text) h (labelled rule text)

  cidr-caught :
      Any (IsCaughtBy cidr) (d.iterator cidr text) → Any (IsCaughtBy cidr) (cidr_matches d p text)
  unfolding cidr_matches
  cidr-caught =
      Any-keep (IsCaughtBy cidr) (λ match. rule_scans p cidr (some match.confidence))
        (λ match c.
          rule_scans_of_enabled p cidr match.confidence (rw (← c.1) c.0.0.0) (rw (← c.1) c.0.0.1))
        (d.iterator cidr text)

  other-caught :
      (rule : Rule)
      → (rule ≡ cidr → ⊥)
      → Any (IsCaughtBy rule) (d.iterator rule text)
      → Any (IsCaughtBy rule) (rule_matches d p (cidr_matches d p text) text rule)
  unfolding rule_matches rule_scans
  other-caught rule other h =
      let (match, c) = Any-exists (IsCaughtBy rule) (d.iterator rule text) h in
      let on : rule_enabled p rule ≡ true = rw (← c.1) c.0.0.0 in
      rw on (
        Any-keep (IsCaughtBy rule) (is_selected d p (cidr_matches d p text) rule)
          (λ m k. selected_of_IsChosen d p text rule m other k.1 k.0.0) (d.iterator rule text) h)

  each_rule-caught :
      (rule : Rule) (rules : List Rule)
      → Any (λ other. other ≡ rule) rules
      → Any (IsCaughtBy rule) (rule_matches d p (cidr_matches d p text) text rule)
      → Any (IsCaughtBy rule) (each_rule d p (cidr_matches d p text) text rules)
  unfolding each_rule
  each_rule-caught rule [] m h = absurd m
  each_rule-caught rule (other ∷ rules) (inl e) h =
      Any-append_left (IsCaughtBy rule) (rule_matches d p (cidr_matches d p text) text other)
        (each_rule d p (cidr_matches d p text) text rules) (rw e h)
  each_rule-caught rule (other ∷ rules) (inr m) h =
      Any-append_right (IsCaughtBy rule) (rule_matches d p (cidr_matches d p text) text other)
        (each_rule d p (cidr_matches d p text) text rules) (each_rule-caught rule rules m h)

  all_matches-caught :
      (rule : Rule)
      → Any (IsCaughtBy rule) (d.iterator rule text)
      → Any (IsCaughtBy rule) (all_matches d p text)
  unfolding all_matches
  all_matches-caught rule h =
      let covered = cidr_matches d p text in
      let others = each_rule d p covered text other_rules in
      elim (rule_cases rule) [
        | inl e ↦ Any-append_left (IsCaughtBy rule) covered others (
            subst (λ r. Any (IsCaughtBy r) (cidr_matches d p text)) (sym e)
              (cidr-caught (subst (λ r. Any (IsCaughtBy r) (d.iterator r text)) e h)))
        | inr (other, m) ↦
            Any-append_right (IsCaughtBy rule) covered others
              (each_rule-caught rule other_rules m (other-caught rule other h))
      ]

  -- A match of any rule that an active policy selects and blocks, and that no exception names, fails
  -- the scan of a text that is not empty.
  pub scan_passed_of_caught :
      (rule : Rule)
      → policy_active p ≡ true
      → is_empty text ≡ false
      → Any (IsCaught d p text path) (d.iterator rule text)
      → scan_passed (scan d p text path) ≡ false
  unfolding scan
  scan_passed_of_caught rule active some_text h =
      let found = map (λ match. resolve d p match text path) (all_matches d p text) in
      rw (active, some_text)
        (is_blocked-nonempty (sort_by stands_before found) (
          Any-sort_by stands_before (λ f. is_blocked f ≡ true) found
            (Any-map (λ f. is_blocked f ≡ true) (λ match. resolve d p match text path)
              (all_matches d p text)
              (Any-mono (IsCaughtBy rule) (λ match. is_blocked (resolve d p match text path) ≡ true)
                (λ match c. resolve-is_blocked d p text path match c.0) (all_matches d p text)
                (all_matches-caught rule (caught_by rule h))))))
