-- ===== src/DataProtection/Validate.antt =====
-- engine/data_protection.py, `DataProtectionPolicy.validate` with the checks that it calls. The
-- levels and modes of a policy are data here, so their checks cannot fail; `ipaddress` is a
-- parameter.
use gitreins.Prelude.{
  ℕ, Bool, true, false, not, ◌&&◌, List, [], ◌∷◌, Option, none, some, String, if◌then◌else◌, ◌==◌,
  string_eq, is_empty, map, keep, contains, leb, nat_beq,
}
use gitreins.Prelude.Text.{Text, Unicode, strip}
use gitreins.DataProtection.Policy.{
  Rule, email, phone, ssn, passport, medical, financial, names, ipv4, ipv6, cidr, rule_by_name,
  ClassPolicy, CategoryPolicy, ExceptionPolicy, DataProtectionPolicy, category_pii, category_ip,
}

pub data ConfigError : Type 0 where
  unknown_category : ConfigError
  confidence_range : ConfigError
  unknown_class : ConfigError
  preserve_blank : ConfigError
  preserve_invalid : ConfigError
  preserve_everything : ConfigError
  exception_category : ConfigError
  exception_rule : ConfigError
  exception_wide : ConfigError
  exception_no_reason : ConfigError

-- `CONFIGURABLE_CATEGORIES`
abbrev pub configurable_categories : List String
configurable_categories = category_pii ∷ category_ip ∷ []

abbrev pub all_rules : List Rule
all_rules = email ∷ phone ∷ ssn ∷ passport ∷ medical ∷ financial ∷ names ∷ ipv4 ∷ ipv6 ∷ cidr ∷ []

-- The names of `RULES_BY_CATEGORY[category]`
unfoldable pub valid_rules : String → List String
unfolding rule_by_name
valid_rules category =
    map (λ rule. (rule_by_name rule).rule)
      (keep (λ rule. (rule_by_name rule).category == category) all_rules)

-- What follows a check that raised nothing.
abbrev pub and_then : Option ConfigError → Option ConfigError → Option ConfigError
and_then (some e) later = some e
and_then none later = later

-- The first error that a loop raises.
abbrev pub first_error : {A : Type 0} → (A → Option ConfigError) → List A → Option ConfigError
first_error check [] = none
first_error check (x ∷ xs) = and_then (check x) (first_error check xs)

-- `_check_confidence`, of a confidence in thousandths
unfoldable pub check_confidence : Option ℕ → Option ConfigError
check_confidence none = none
check_confidence (some n) = if leb n 1000 then none else some confidence_range

unfoldable pub is_none : {A : Type 0} → Option A → Bool
is_none none = true
is_none (some x) = false

-- The prefix length of `ip_network(entry, strict=False)`, where it raises nothing.
module _ (u : Unicode) (prefix_length : Text → Option ℕ) where
  -- `_check_preserve_entry`
  unfoldable pub check_preserve_entry : Text → Option ConfigError
  check_preserve_entry entry =
      if is_empty (strip u entry) then some preserve_blank else elim (prefix_length entry) [
        | none ↦ some preserve_invalid
        | some n ↦ if nat_beq n 0 then some preserve_everything else none
      ]

  check_class : String → String × ClassPolicy → Option ConfigError
  check_class category named =
      if contains (valid_rules category) named.0 then none else some unknown_class

  unfoldable pub check_category : String × CategoryPolicy → Option ConfigError
  unfolding check_class
  check_category (name, category) =
      if not (contains configurable_categories name)
      then some unknown_category
      else and_then (check_confidence category.confidence) (
          and_then (first_error (check_class name) category.classes)
            (first_error check_preserve_entry category.preserve_list))

  rule_unknown : String → Option String → Bool
  rule_unknown category none = false
  rule_unknown category (some rule) = not (contains (valid_rules category) rule)

  unfoldable pub check_exception : ExceptionPolicy → Option ConfigError
  unfolding rule_unknown is_none
  check_exception e =
      if not (contains configurable_categories e.category)
      then some exception_category
      else if rule_unknown e.category e.rule
      then some exception_rule
      else if is_none e.rule && is_none e.match
      then some exception_wide
      else if is_empty (strip u e.reason)
      then some exception_no_reason
      else none

  -- `validate`: what it raises, or nothing
  unfoldable pub validate : DataProtectionPolicy → Option ConfigError
  validate p =
      and_then (first_error check_category p.categories) (first_error check_exception p.exceptions)
