-- ===== src/DataProtection/Iban.antt =====
-- engine/data_protection.py, `_valid_iban`. Which characters `\s` drops and what `upper` makes of
-- one are Unicode's; `int(ch, 36)` is a parameter, nothing where it raises `ValueError`. The value
-- is a number of at most 68 digits, which `int` always reads.
pub mod Detects
use gitreins.Prelude.{
  ℕ, suc, ◌+◌, ◌*◌, ◌/◌, ◌%◌, ◌<◌, ◌≡◌, Bool, true, false, not, ◌&&◌, List, [], ◌∷◌, ◌++◌, Option,
  none, some, if◌then◌else◌, ltb, leb, nat_beq, length, keep, take, drop,
}
use gitreins.Prelude.Text.{Text, Unicode, upper}

-- The decimal digits of `str(n)`, for the values of `int(ch, 36)`, which are under 36
abbrev pub value_digits : ℕ → List ℕ
value_digits n = if ltb n 10 then n ∷ [] else n / 10 ∷ n % 10 ∷ []

-- `int` of decimal digits that follow the digits of a number
unfoldable pub int_from : ℕ → List ℕ → ℕ
int_from number [] = number
int_from number (digit ∷ digits) = int_from (number * 10 + digit) digits

unfoldable pub decimals : List ℕ → List ℕ
decimals [] = []
decimals (n ∷ ns) = value_digits n ++ decimals ns

unfoldable pub rearranged : Text → Text
rearranged compact = drop 4 compact ++ take 4 compact

-- `int(digits) % 97 == 1`
unfoldable pub remainder_is_one : List ℕ → Bool
unfolding int_from decimals
remainder_is_one values = nat_beq (int_from 0 (decimals values) % 97) 1

module _ (u : Unicode) (int_36 : ℕ → Option ℕ) where
  open u use {is_space}

  unfoldable pub compact_of : Text → Text
  compact_of value = upper u (keep (λ c. not (is_space c)) value)

  unfoldable pub and_value : Option ℕ → Option (List ℕ) → Option (List ℕ)
  and_value none values = none
  and_value (some n) none = none
  and_value (some n) (some ns) = some (n ∷ ns)

  unfoldable pub values_of : Text → Option (List ℕ)
  unfolding and_value
  values_of [] = some []
  values_of (c ∷ s) = and_value (int_36 c) (values_of s)

  unfoldable pub passes_of : Option (List ℕ) → Option Bool
  passes_of none = none
  passes_of (some values) = some (remainder_is_one values)

  -- Whether the value passes; nothing where `int(ch, 36)` raises.
  unfoldable pub valid_iban : Text → Option Bool
  unfolding values_of passes_of
  valid_iban value =
      let compact = compact_of value in
      if not (leb 15 (length compact) && leb (length compact) 34)
      then some false
      else passes_of (values_of (rearranged compact))
