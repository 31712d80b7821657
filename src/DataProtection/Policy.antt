-- ===== src/DataProtection/Policy.antt =====
-- engine/data_protection.py, the policy: the rules, the policies of a category and a class, the
-- exceptions, and what they select. A confidence is counted in thousandths: only the order of two
-- confidences is used. The name of a rule stands for a key of `RULE_BY_NAME`, which `validate` and
-- the iterators see to.
use gitreins.Prelude.{
  ℕ, Bool, true, false, not, ◌&&◌, List, [], ◌++◌, Option, none, some, String, if◌then◌else◌, ◌==◌,
  string_eq, text_eq, any, ltb,
}
use gitreins.Prelude.Text.{Text, codes}
use gitreins.Prelude.Dict.{Dict, lookup, values}

pub data Detection : Type 0 where
  off : Detection
  warn : Detection
  block : Detection

pub data Handling : Type 0 where
  preserve : Handling
  redact : Handling
  replace : Handling

pub data Rule : Type 0 where
  email : Rule
  phone : Rule
  ssn : Rule
  passport : Rule
  medical : Rule
  financial : Rule
  names : Rule
  ipv4 : Rule
  ipv6 : Rule
  cidr : Rule

-- The fields of `DetectionRule` that the code reads.
pub record DetectionRule : Type 0 where
  pub rule : String
  pub category : String
  pub placeholder : Text

abbrev pub category_pii : String
category_pii = "pii"

abbrev pub category_ip : String
category_ip = "ip_addresses"

abbrev pii : String → String → DetectionRule
pii name tag = record {
  rule = name;
  category = category_pii;
  placeholder = codes "[PII:" ++ (codes tag ++ codes "]");
}

abbrev address : String → String → DetectionRule
address name tag = record {
  rule = name;
  category = category_ip;
  placeholder = codes "[IP:" ++ (codes tag ++ codes "]");
}

unfoldable pub rule_by_name : Rule → DetectionRule
rule_by_name email = pii "email" "EMAIL"
rule_by_name phone = pii "phone" "PHONE"
rule_by_name ssn = pii "ssn" "SSN"
rule_by_name passport = pii "passport" "PASSPORT"
rule_by_name medical = pii "medical" "MEDICAL"
rule_by_name financial = pii "financial" "FINANCIAL"
rule_by_name names = pii "names" "NAME"
rule_by_name ipv4 = address "ipv4" "IPV4"
rule_by_name ipv6 = address "ipv6" "IPV6"
rule_by_name cidr = address "cidr" "CIDR"

pub record ClassPolicy : Type 0 where
  pub enabled : Bool
  pub detection : Option Detection
  pub handling : Option Handling
  pub confidence : Option ℕ

-- `ClassPolicy()`
abbrev pub default_class : ClassPolicy
default_class = record { enabled = true; detection = none; handling = none; confidence = none }

pub record CategoryPolicy : Type 0 where
  pub name : String
  pub detection : Detection
  pub handling : Handling
  pub confidence : Option ℕ
  pub classes : Dict ClassPolicy
  pub preserve_list : List Text
  pub default_action : Option Handling

-- `CategoryPolicy(name=name)`
abbrev pub default_category : String → CategoryPolicy
default_category name = record {
  name = name;
  detection = off;
  handling = redact;
  confidence = none;
  classes = [];
  preserve_list = [];
  default_action = none;
}

abbrev pub or_else {ℓ} : {A : Type ℓ} → Option A → A → A
or_else (some x) y = x
or_else none y = y

unfoldable pub class_policy : CategoryPolicy → Rule → ClassPolicy
unfolding rule_by_name lookup
class_policy category rule =
    or_else (lookup (rule_by_name rule).rule category.classes) default_class

pub record ExceptionPolicy : Type 0 where
  pub category : String
  pub reason : Text
  pub rule : Option String
  pub match : Option Text
  pub scope : Text

pub record DataProtectionPolicy : Type 0 where
  pub enabled : Bool
  pub categories : Dict CategoryPolicy
  pub exceptions : List ExceptionPolicy

-- `x is not None and x != y`
abbrev pub differs_text : Option Text → Text → Bool
differs_text none y = false
differs_text (some x) y = not (x == y)

abbrev pub differs_name : Option String → String → Bool
differs_name none y = false
differs_name (some x) y = not (x == y)

-- `fnmatch.fnmatch` of a path and a pattern is a parameter.
module _ (fnmatch : Text → Text → Bool) where
  unfoldable pub scope_matches : Text → Option Text → Bool
  scope_matches scope none = if scope == codes "*" then true else scope == codes "**"
  scope_matches scope (some path) = fnmatch path scope

  unfoldable pub exception_matches : ExceptionPolicy → String → String → Text → Option Text → Bool
  unfolding scope_matches
  exception_matches e category rule value path =
      if not (e.category == category)
      then false
      else if differs_name e.rule rule
      then false
      else if differs_text e.match value
      then false
      else scope_matches e.scope path

abbrev pub is_off : Detection → Bool
is_off off = true
is_off _ = false

abbrev pub is_on : CategoryPolicy → Bool
is_on c = not (is_off c.detection)

-- `DEFAULT_CATEGORY_CONFIDENCE.get(category, 0.0)`
unfoldable pub default_confidence : String → ℕ
default_confidence name = if name == category_pii then 700 else 0

module _ (p : DataProtectionPolicy) where
  -- the property `active`
  unfoldable pub policy_active : Bool
  unfolding values
  policy_active = p.enabled && any is_on (values p.categories)

  unfoldable pub category : String → CategoryPolicy
  unfolding lookup
  category name = or_else (lookup name p.categories) (default_category name)

  unfoldable pub category_for : Rule → CategoryPolicy
  unfolding category rule_by_name
  category_for rule = category (rule_by_name rule).category

  unfoldable pub effective_detection : Rule → Detection
  unfolding category_for class_policy
  effective_detection rule =
      or_else (class_policy (category_for rule) rule).detection (category_for rule).detection

  unfoldable pub effective_handling : Rule → Handling
  unfolding category_for class_policy
  effective_handling rule =
      or_else (class_policy (category_for rule) rule).handling (category_for rule).handling

  unfoldable pub rule_enabled : Rule → Bool
  unfolding category_for class_policy effective_detection
  rule_enabled rule =
      if is_off (category_for rule).detection
      then false
      else if not (class_policy (category_for rule) rule).enabled
      then false
      else not (is_off (effective_detection rule))

  unfoldable pub confidence_threshold : Rule → ℕ
  unfolding category_for class_policy default_confidence rule_by_name
  confidence_threshold rule =
      or_else (class_policy (category_for rule) rule).confidence
        (or_else (category_for rule).confidence (default_confidence (rule_by_name rule).category))

  -- `_rule_scans`
  unfoldable pub rule_scans : Rule → Option ℕ → Bool
  unfolding rule_enabled confidence_threshold
  rule_scans rule none = rule_enabled rule
  rule_scans rule (some confidence) =
      if not (rule_enabled rule) then false else not (ltb confidence (confidence_threshold rule))
