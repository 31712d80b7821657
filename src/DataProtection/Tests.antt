-- ===== src/DataProtection/Tests.antt =====
-- Runs of the checksum, the scan and the redaction, and each theorem at a concrete input.
use gitreins.Prelude.{
  ◌<◌, if◌then◌else◌, Option, some, text_beq, contains, ℕ, ◌-◌, ◌%◌, ◌≡◌, ◌⊎◌, inl, inr, refl, true,
  false, ◌&&◌, List, [], ◌∷◌, ◌++◌, none, length, All, leb, nat_beq, text_eq, arith,
}
use gitreins.Prelude.Text.{Text, Unicode, codes, upper, strip}
use gitreins.DataProtection.Luhn.{Digits, luhn_digits, valid_credit_card}
use gitreins.DataProtection.Luhn.Reference.{right_sum, luhn_digits-eq-right_sum}
use gitreins.DataProtection.Luhn.Detects.{luhn_digits-swapped}
use gitreins.DataProtection.Policy.{
  Rule, email, phone, ssn, block, redact, DataProtectionPolicy, default_category, category_pii,
  policy_active, rule_scans, effective_handling, effective_detection, rule_enabled,
  confidence_threshold, exception_matches,
}
use gitreins.DataProtection.Findings.{Finding, redacted_value, apply_redactions, scan_passed}
use gitreins.DataProtection.Findings.Rewrite.{left_to_right}
use gitreins.DataProtection.Scan.{RuleMatch, Detectors, overlaps, scan, redact_text}
use gitreins.DataProtection.Scan.Caught.{scan_passed_of_caught}
use gitreins.DataProtection.Scan.Order.{handled, redact_text-eq-left_to_right}
use gitreins.DataProtection.Scan.Suppressed.{IsAccounted, scan-IsAccounted}
use gitreins.DataProtection.Validate.{
  exception_wide, validate, check_category, check_confidence, valid_rules, check_exception,
}
use gitreins.DataProtection.Iban.{
  int_from, decimals, rearranged, remainder_is_one, compact_of, values_of, valid_iban,
}
use gitreins.DataProtection.Iban.Detects.{valid_iban-one_character}
use mathlib.Core.List.{reverse, flat_map}

abbrev ascii : Digits
ascii = record { is_digit = λ c. leb 48 c && leb c 57; int_of = λ c. c - 48 }

abbrev card : List ℕ
card = 4 ∷ 1 ∷ 1 ∷ 1 ∷ 1 ∷ 1 ∷ 1 ∷ 1 ∷ 1 ∷ 1 ∷ 1 ∷ 1 ∷ 1 ∷ 1 ∷ 1 ∷ 1 ∷ []

spaced_card : valid_credit_card ascii (codes "4111 1111-1111 1111") ≡ true
unfolding valid_credit_card
spaced_card = refl

wrong_card : valid_credit_card ascii (codes "4111 1111 1111 1112") ≡ false
unfolding valid_credit_card
wrong_card = refl

card_passes : luhn_digits card ≡ true
unfolding luhn_digits
card_passes = refl

card_decimal : All (λ digit. digit < 10) card
card_decimal = (
  omega arith,
  (
    omega arith,
    (
      omega arith,
      (
        omega arith,
        (
          omega arith,
          (
            omega arith,
            (
              omega arith,
              (
                omega arith,
                (
                  omega arith,
                  (
                    omega arith,
                    (
                      omega arith,
                      (omega arith, (omega arith, (omega arith, (omega arith, (omega arith, tt))))),
                    ),
                  ),
                ),
              ),
            ),
          ),
        ),
      ),
    ),
  ),
)

luhn_digits-eq-right_sum_example :
    luhn_digits card ≡ (leb 13 (length card) && nat_beq (right_sum 0 (reverse card) % 10) 0)
luhn_digits-eq-right_sum_example = luhn_digits-eq-right_sum card card_decimal

abbrev zeros : List ℕ
zeros = 0 ∷ 0 ∷ 0 ∷ 0 ∷ 0 ∷ 0 ∷ 0 ∷ 0 ∷ 0 ∷ 0 ∷ 0 ∷ []

nine_first : luhn_digits (9 ∷ 0 ∷ (0 ∷ zeros ++ 1 ∷ [])) ≡ true
unfolding luhn_digits
nine_first = refl

zero_first : luhn_digits (0 ∷ 9 ∷ (0 ∷ zeros ++ 1 ∷ [])) ≡ true
unfolding luhn_digits
zero_first = refl

luhn_digits-swapped_example : (◌≡◌ {A = ℕ} 9 0) ⊎ ((9 % 9 ≡ 0) × (0 % 9 ≡ 0))
luhn_digits-swapped_example =
    luhn_digits-swapped [] (0 ∷ zeros ++ 1 ∷ []) 9 0 (omega arith) (omega arith) nine_first
      zero_first

-- A detector of one address of mail, and a policy that blocks it.
abbrev mail_match : RuleMatch
mail_match = record { rule = email; start = 3; end = 8; value = codes "a@b.c"; confidence = 950 }

one_mail : Rule → Text → List RuleMatch
one_mail email text = mail_match ∷ []
one_mail _ text = []

abbrev detectors : Detectors
detectors = record {
  iterator = one_mail;
  fnmatch = λ path pattern. false;
  address_in_preserve_list = λ value kept. false;
}

one_mail-labelled :
    (rule : Rule) (text : Text) → All (λ match. match.rule ≡ rule) (one_mail rule text)
unfolding one_mail
one_mail-labelled email text = (refl, tt)
one_mail-labelled phone text = tt
one_mail-labelled rule text = tt

abbrev blocking : DataProtectionPolicy
blocking = record {
  enabled = true;
  categories = (category_pii, record (default_category category_pii) { detection = block }) ∷ [];
  exceptions = [];
}

abbrev line : Text
line = codes "to a@b.c now"

scan_line : redact_text detectors blocking line none ≡ codes "to [REDACTED:pii] now"
unfolding redact_text scan one_mail policy_active apply_redactions rule_scans overlaps
    effective_handling redacted_value
scan_line = refl

-- A social security number in an address of mail: the longer finding is cut by its old offsets in
-- a text that has grown, and the tail of the address stays.
abbrev whole_mail : Finding
whole_mail = record {
  category = codes "pii";
  rule = email;
  value = codes "123-45-6789@example.com";
  line = 1;
  start = 0;
  end = 23;
  confidence = 950;
  detection = block;
  handling = redact;
  suppressed = false;
  exception_reason = [];
}

abbrev number_part : Finding
number_part = record whole_mail {
  rule = ssn;
  value = codes "123-45-6789";
  end = 11;
  confidence = 900;
}

nested_findings :
    apply_redactions (codes "123-45-6789@example.com") (number_part ∷ whole_mail ∷ [])
    ≡ codes "[REDACTED:pii]com"
unfolding apply_redactions redacted_value
nested_findings = refl

scan_passed_of_caught_example : scan_passed (scan detectors blocking line none) ≡ false
unfolding scan one_mail policy_active rule_scans overlaps effective_handling effective_detection
    rule_enabled confidence_threshold exception_matches
scan_passed_of_caught_example =
    scan_passed_of_caught detectors blocking line none one_mail-labelled email refl refl
      (inl ((refl, omega arith, inr refl), refl, tt))

redact_text-eq-left_to_right_example :
    redact_text detectors blocking line none
    ≡ left_to_right 0 (handled detectors blocking line none) line
unfolding scan one_mail policy_active rule_scans overlaps effective_handling effective_detection
    rule_enabled confidence_threshold exception_matches
redact_text-eq-left_to_right_example =
    redact_text-eq-left_to_right detectors blocking line none (omega arith) (tt, tt)

-- A policy that excepts one address, by its value, for a reason.
abbrev excepting : DataProtectionPolicy
excepting = record blocking {
  exceptions =
      record {
        category = category_pii;
        match = some (codes "a@b.c");
        rule = none;
        scope = codes "*";
        reason = codes "sample";
      }
      ∷ [];
}

abbrev some_unicode : Unicode
some_unicode = record {
  is_space = λ c. nat_beq c 32;
  upper_of = λ c. c ∷ [];
  fold_of = λ c. c ∷ [];
}

mail_excepted : redact_text detectors excepting line none ≡ line
unfolding redact_text scan one_mail policy_active apply_redactions rule_scans overlaps
    effective_handling redacted_value exception_matches text_beq
mail_excepted = refl

-- One without a match or a rule would except the category.
wide_exception :
    validate some_unicode
      (λ t. some 8)
      (record blocking {
        exceptions =
            record {
              category = category_pii;
              match = none;
              rule = none;
              scope = codes "*";
              reason = codes "sample";
            }
            ∷ [];
      })
    ≡ some exception_wide
unfolding validate check_category check_confidence valid_rules check_exception contains
wide_exception = refl

scan-IsAccounted_example :
    All
      (IsAccounted some_unicode (λ t. some 8) detectors excepting)
      (scan detectors excepting line none).findings
unfolding validate check_category check_confidence valid_rules check_exception contains strip
scan-IsAccounted_example =
    scan-IsAccounted some_unicode (λ t. some 8) detectors excepting line none refl

-- `int(ch, 36)` of the letters of the alphabet, in capitals, and of two rows of digits.
abbrev int_36 : ℕ → Option ℕ
int_36 c =
    if leb 48 c && leb c 57
    then some (c - 48)
    else if leb 65 c && leb c 90
    then some (c - 55)
    else if leb 1632 c && leb c 1641
    then some (c - 1632)
    else none

abbrev account : Text
account = codes "GB82 WEST 1234 5698 7654 32"

account_passes : valid_iban some_unicode int_36 account ≡ some true
unfolding valid_iban compact_of values_of rearranged remainder_is_one decimals int_from upper
    flat_map
account_passes = refl

wrong_account : valid_iban some_unicode int_36 (codes "GB82 WEST 1234 5698 7654 33") ≡ some false
unfolding valid_iban compact_of values_of rearranged remainder_is_one decimals int_from upper
    flat_map
wrong_account = refl

-- One digit is of another script.
valid_iban-one_character_example : ◌≡◌ {A = ℕ} 1 1
unfolding valid_iban compact_of values_of rearranged remainder_is_one decimals int_from upper
    flat_map
valid_iban-one_character_example =
    valid_iban-one_character some_unicode int_36 account
      (codes "GB82 WEST " ++ (1633 ∷ codes "234 5698 7654 32")) (codes "GB82WEST")
      (codes "23456987654" ++ codes "32") 49 1633 1 1 refl refl refl refl (omega arith)
      (omega arith) refl refl refl
