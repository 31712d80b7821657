-- ===== src/DataProtection/Luhn.antt =====
-- engine/data_protection.py, `_luhn` and `_valid_credit_card`. The patterns let only decimal digits
-- through, whose values, `int(c)`, and whose test, `isdigit`, are Unicode's table, a parameter.
pub mod Reference
pub mod Detects
use gitreins.Prelude.{
  ℕ, ◌+◌, ◌-◌, ◌*◌, ◌%◌, Bool, true, false, not, ◌&&◌, List, [], ◌∷◌, map, if◌then◌else◌, ltb, leb,
  nat_beq, length, keep, contains, nat_eq,
}
use gitreins.Prelude.Text.{Text, codes}

pub record Digits : Type 0 where
  pub is_digit : ℕ → Bool
  pub int_of : ℕ → ℕ

-- What a digit counts for when it is doubled, and when it is not.
abbrev pub doubled_digit : ℕ → ℕ
doubled_digit digit = if ltb 9 (digit * 2) then digit * 2 - 9 else digit * 2

abbrev pub counted : Bool → ℕ → ℕ
counted true digit = doubled_digit digit
counted false digit = digit

-- The loop over the digits, with `index` and `checksum` for its variables.
unfoldable pub luhn_loop : ℕ → ℕ → ℕ → List ℕ → ℕ
luhn_loop parity index checksum [] = checksum
luhn_loop parity index checksum (digit ∷ digits) =
    luhn_loop parity (index + 1) (checksum + counted (nat_beq (index % 2) parity) digit) digits

unfoldable pub luhn_digits : List ℕ → Bool
unfolding luhn_loop
luhn_digits digits =
    if ltb (length digits) 13
    then false
    else nat_beq (luhn_loop (length digits % 2) 0 0 digits % 10) 0

module _ (d : Digits) where
  open d use {is_digit, int_of}

  unfoldable pub luhn : Text → Bool
  unfolding luhn_digits
  luhn number = luhn_digits (map int_of number)

  all_digits : Text → Bool
  all_digits [] = true
  all_digits (c ∷ s) = is_digit c && all_digits s

  -- `s.isdigit()` is false of the empty string.
  unfoldable pub isdigit : Text → Bool
  unfolding all_digits
  isdigit [] = false
  isdigit (c ∷ s) = all_digits (c ∷ s)

  -- `re.sub(r"[ \-]", "", value)`
  unfoldable pub card_digits : Text → Text
  card_digits = keep (λ c. not (contains (codes " -") c))

  -- `digits[0] in "23456"`, where `digits` is not empty
  unfoldable pub card_issuer : Text → Bool
  card_issuer [] = false
  card_issuer (c ∷ digits) = contains (codes "23456") c

  unfoldable pub valid_credit_card : Text → Bool
  unfolding luhn isdigit card_digits card_issuer contains
  valid_credit_card value =
      let digits = card_digits value in
      if not (isdigit digits && (leb 13 (length digits) && leb (length digits) 19))
      then false
      else if not (card_issuer digits)
      then false
      else luhn digits
