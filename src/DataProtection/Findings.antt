-- ===== src/DataProtection/Findings.antt =====
-- engine/data_protection.py, `Finding`, `ScanResult` and `_apply_redactions`: what is found in a
-- text, and the text with the found values replaced.
pub mod Rewrite
use gitreins.Prelude.{
  ℕ, suc, ◌+◌, Bool, true, false, not, ◌&&◌, List, [], ◌∷◌, ◌++◌, String, if◌then◌else◌, leb, ltb,
  nat_beq, length, take, drop, keep, is_empty,
}
use gitreins.Prelude.Text.{Text, codes}
use gitreins.Prelude.Slices.{sort_by}
use gitreins.DataProtection.Policy.{
  Detection, Handling, Rule, rule_by_name, off, warn, block, preserve, redact, replace,
}
use gitreins.EvidenceBounds.Lines.{newline}

pub record Finding : Type 0 where
  pub category : Text
  pub rule : Rule
  pub value : Text
  pub line : ℕ
  pub start : ℕ
  pub end : ℕ
  pub confidence : ℕ
  pub detection : Detection
  pub handling : Handling
  pub suppressed : Bool
  pub exception_reason : Text

abbrev is_block : Detection → Bool
is_block block = true
is_block _ = false

abbrev is_warn : Detection → Bool
is_warn warn = true
is_warn _ = false

-- `handling in (HANDLING_REDACT, HANDLING_REPLACE)`
abbrev pub rewrites : Handling → Bool
rewrites preserve = false
rewrites redact = true
rewrites replace = true

abbrev pub is_blocked : Finding → Bool
is_blocked f = not f.suppressed && is_block f.detection

abbrev pub is_warned : Finding → Bool
is_warned f = not f.suppressed && is_warn f.detection

-- `REDACTION_PLACEHOLDER.format(category=category)`
abbrev pub redaction_placeholder : Text → Text
redaction_placeholder category = codes "[REDACTED:" ++ (category ++ codes "]")

redacted_as : Handling → Finding → Text
redacted_as replace f = (rule_by_name f.rule).placeholder
redacted_as _ f = redaction_placeholder f.category

unfoldable pub redacted_value : Finding → Text
unfolding redacted_as rule_by_name
redacted_value f = redacted_as f.handling f

unfoldable pub safe_value : Finding → Text
unfolding redacted_value
safe_value f = if not (rewrites f.handling) && not f.suppressed then f.value else redacted_value f

pub record ScanResult : Type 0 where
  pub findings : List Finding
  pub redacted_text : Text

abbrev pub blocked : ScanResult → List Finding
blocked r = keep is_blocked r.findings

-- the property `passed`
abbrev pub scan_passed : ScanResult → Bool
scan_passed r = is_empty (blocked r)

count_newlines : Text → ℕ
count_newlines [] = 0
count_newlines (c ∷ s) = if nat_beq c newline then suc (count_newlines s) else count_newlines s

-- `text.count("\n", 0, offset) + 1`
unfoldable pub line_of : Text → ℕ → ℕ
unfolding count_newlines
line_of text offset = count_newlines (take offset text) + 1

-- The findings that a redaction handles.
abbrev pub is_handled : Finding → Bool
is_handled f = not f.suppressed && rewrites f.handling

-- `output[:start] + redacted_value + output[end:]`
unfoldable pub rewrite_one : Text → Finding → Text
rewrite_one output f = take f.start output ++ (redacted_value f ++ drop f.end output)

unfoldable pub rewrite_each : Text → List Finding → Text
unfolding rewrite_one
rewrite_each output [] = output
rewrite_each output (f ∷ fs) = rewrite_each (rewrite_one output f) fs

-- The order of `sorted(active, key=lambda f: f.start, reverse=True)`.
abbrev pub starts_later : Finding → Finding → Bool
starts_later f g = leb g.start f.start

unfoldable pub apply_redactions : Text → List Finding → Text
unfolding rewrite_each
apply_redactions text findings =
    let active = keep is_handled findings in
    if is_empty active then text else rewrite_each text (sort_by starts_later active)
