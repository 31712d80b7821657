-- ===== src/EvidenceBounds/Marker.antt =====
-- engine/evidence_bounds.py, the omission marker and the test names that it carries.
pub mod Hoisted
use gitreins.Prelude.{
  ℕ, zero, suc, ◌+◌, ◌-◌, ◌/◌, ◌%◌, Bool, true, false, ◌||◌, List, [], ◌∷◌, ◌++◌,
}
use gitreins.Prelude.{
  Option, none, some, if◌then◌else◌, leb, ltb, nat_beq, length, contains, drop, is_empty, text_eq,
}
use gitreins.Prelude.Text.{Text, codes, Unicode, join, strip}
use gitreins.EvidenceBounds.Lines.{splitlines, split_newlines}
use Prim.Native.Nat.{min}

-- `str(n)`; a number has at most as many digits as its value and one more.
digits : ℕ → ℕ → Text
digits zero n = []
digits (suc fuel) n =
    let front = digits fuel (n / 10) in
    if ltb n 10 then (48 + n) ∷ [] else front ++ (48 + n % 10) ∷ []

unfoldable pub decimal : ℕ → Text
unfolding digits
decimal n = digits (n + 1) n

-- What follows a prefix.
unfoldable pub after_prefix : Text → Text → Option Text
after_prefix [] s = some s
after_prefix (c ∷ p) [] = none
after_prefix (c ∷ p) (d ∷ s) = if nat_beq c d then after_prefix p s else none

-- The variables of `_hoist_summary_lines`.
pub record Hoist : Type 0 where
  pub hoisted : List Text
  pub seen : List Text
  pub used : ℕ
  pub dropped : ℕ

abbrev pub nothing_hoisted : Hoist
nothing_hoisted = record { hoisted = []; seen = []; used = 0; dropped = 0 }

module _ (u : Unicode) where
  open u use {is_space}

  -- Whether `::` stands in the word that the text begins with.
  colons_in_word : Text → Bool
  colons_in_word [] = false
  colons_in_word (c ∷ []) = false
  colons_in_word (c ∷ d ∷ s) =
      if is_space c
      then false
      else if nat_beq c 58
      then (if nat_beq d 58 then true else colons_in_word (d ∷ s))
      else colons_in_word (d ∷ s)

  -- `\S+::`: a code point that is no space, and `::` further on in its word.
  abbrev names_test : Option Text → Bool
  names_test none = false
  names_test (some []) = false
  names_test (some (c ∷ s)) = if is_space c then false else colons_in_word s

  -- `_FAILED_TEST_LINE` or `_ERROR_TEST_LINE`
  unfoldable pub is_summary_line : Text → Bool
  unfolding colons_in_word after_prefix
  is_summary_line line =
      names_test (after_prefix (codes "FAILED ") line)
      || names_test (after_prefix (codes "ERROR ") line)

  abbrev pub max_hoisted_lines : ℕ
  max_hoisted_lines = 20

  abbrev pub max_hoisted_chars : ℕ
  max_hoisted_chars = 1000

  -- A summary line that was not seen before.
  abbrev pub hoist_new : ℕ → Text → Hoist → Hoist
  hoist_new budget line h =
      if leb max_hoisted_lines (length h.hoisted) || ltb budget (h.used + length line)
      then record h { seen = line ∷ h.seen; dropped = h.dropped + 1 }
      else record {
        hoisted = h.hoisted ++ line ∷ [];
        seen = line ∷ h.seen;
        used = h.used + length line;
        dropped = h.dropped;
      }

  unfoldable pub hoist_line : ℕ → Text → Hoist → Hoist
  unfolding is_summary_line contains
  hoist_line budget line h =
      if is_summary_line line
      then if contains h.seen line then h else hoist_new budget line h
      else h

  unfoldable pub hoist_lines : ℕ → List Text → Hoist → Hoist
  hoist_lines budget [] h = h
  hoist_lines budget (line ∷ lines) h =
      hoist_lines budget lines (hoist_line budget (strip u line) h)

  -- `_hoist_summary_lines`
  unfoldable pub hoist_summary_lines : Text → ℕ → Hoist
  hoist_summary_lines omitted budget = hoist_lines budget (split_newlines omitted) nothing_hoisted

  -- `_omission_marker`
  unfoldable pub omission_marker : Text → Bool → List Text → ℕ → Text
  omission_marker omitted partial hoisted dropped =
      codes "\n… ["
      ++ decimal (length omitted)
      ++ codes " chars omitted — "
      ++ decimal (length (splitlines omitted))
      ++ codes " line(s)"
      ++ (if partial then codes "; one over-budget line was cut mid-line" else [])
      ++ codes "] …\n"
      ++ (if is_empty hoisted then [] else join (codes "\n") hoisted ++ codes "\n…\n")
      ++ (if nat_beq dropped 0
          then []
          else codes "… ["
            ++ decimal dropped
            ++ codes " further FAILED/ERROR line(s) not hoisted] …\n")

  abbrev fitted : ℕ → Text → Text → Text
  fitted budget marker base = if leb (length marker) budget then marker else base

  abbrev marker_with : ℕ → Text → Bool → Hoist → Text
  marker_with budget omitted partial h =
      fitted budget (omission_marker omitted partial h.hoisted h.dropped)
        (omission_marker omitted partial [] 0)

  -- `_marker_for`
  unfoldable pub marker_for : Text → Bool → ℕ → Text
  marker_for omitted partial budget = marker_with budget omitted partial (
      hoist_summary_lines omitted
        (min max_hoisted_chars (budget - length (omission_marker omitted partial [] 0) - 40)))
