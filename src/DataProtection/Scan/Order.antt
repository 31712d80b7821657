-- ===== src/DataProtection/Scan/Order.antt =====
-- The redaction of a scan: findings come in the order of their places, so those that lie apart are
-- replaced from the left, and the text between them is kept.
use gitreins.Prelude.{
  ℕ, ◌≤◌, ◌<◌, ◌≡◌, ◌⊎◌, inl, inr, refl, true, false, not, ◌||◌, List, [], ◌∷◌, Option, is_empty,
  length, keep, map, All, Bool-cases, if_ind, arith,
}
use gitreins.Prelude.Text.{Text}
use gitreins.Prelude.Slices.{IsOrdered, IsOrdered-keep, sort_by-IsOrdered}
use gitreins.DataProtection.Policy.{DataProtectionPolicy, policy_active}
use gitreins.DataProtection.Findings.{Finding, ScanResult, is_handled, apply_redactions}
use gitreins.DataProtection.Findings.Rewrite.{
  left_to_right, Apart, apply_redactions-eq-left_to_right,
}
use gitreins.DataProtection.Scan.{Detectors, stands_before, resolve, all_matches, scan, redact_text}

-- Neither overlaps the other.
abbrev pub Disjoint : Finding → Finding → Type 0
Disjoint f g = (f.end ≤ g.start) ⊎ (g.end ≤ f.start)

abbrev pub AllDisjoint : List Finding → Type 0
AllDisjoint [] = Unit
AllDisjoint (f ∷ fs) = All (Disjoint f) fs × AllDisjoint fs

-- A span of the text that is not empty.
abbrev pub IsSpan : ℕ → Finding → Type 0
IsSpan limit f = (f.start < f.end) × (f.end ≤ limit)

stands_before_total : (f g : Finding) → stands_before f g ≡ false → stands_before g f ≡ true
stands_before_total f g h = ground arith

stands_before_trans :
    (f g k : Finding)
    → stands_before f g ≡ true
    → stands_before g k ≡ true
    → stands_before f k ≡ true
stands_before_trans f g k h j = ground arith

follows :
    (f g : Finding) (limit : ℕ)
    → stands_before f g ≡ true
    → IsSpan limit f
    → IsSpan limit g
    → Disjoint f g
    → f.end ≤ g.start
follows f g limit before one other (inl h) = h
follows f g limit before one other (inr h) = ground arith

all_follow :
    (f : Finding) (limit : ℕ) (gs : List Finding)
    → IsSpan limit f
    → All (λ g. stands_before f g ≡ true) gs
    → All (IsSpan limit) gs
    → All (Disjoint f) gs
    → All (λ g. f.end ≤ g.start) gs
all_follow f limit [] one before spans apart = tt
all_follow f limit (g ∷ gs) one before spans apart = (
  follows f g limit before.0 one spans.0 apart.0,
  all_follow f limit gs one before.1 spans.1 apart.1,
)

-- Spans in order that are disjoint lie apart.
Apart-of_AllDisjoint :
    (pos limit : ℕ) (fs : List Finding)
    → pos ≤ limit
    → All (λ f. pos ≤ f.start) fs
    → IsOrdered stands_before fs
    → All (IsSpan limit) fs
    → AllDisjoint fs
    → Apart pos limit fs
Apart-of_AllDisjoint pos limit [] start from order spans apart = start
Apart-of_AllDisjoint pos limit (f ∷ fs) start from order spans apart = (
  from.0,
  spans.0.0,
  Apart-of_AllDisjoint f.end limit fs spans.0.1
      (all_follow f limit fs spans.0 order.0 spans.1 apart.0) order.1 spans.1 apart.1,
)

from_zero : (fs : List Finding) → All (λ f. 0 ≤ f.start) fs
from_zero [] = tt
from_zero (f ∷ fs) = (omega arith, from_zero fs)

module _ (d : Detectors) (p : DataProtectionPolicy) (text : Text) (path : Option Text) where
  scan-IsOrdered : IsOrdered stands_before (scan d p text path).findings
  unfolding scan
  scan-IsOrdered =
      if_ind (λ (r : ScanResult). IsOrdered stands_before r.findings)
        (not (policy_active p) || is_empty text) (λ idle. tt)
        (λ busy.
          sort_by-IsOrdered stands_before stands_before_total stands_before_trans
            (map (λ match. resolve d p match text path) (all_matches d p text)))

  -- The findings of a scan that are rewritten.
  abbrev pub handled : List Finding
  handled = keep is_handled (scan d p text path).findings

  redacted_text_busy :
      (not (policy_active p) || is_empty text) ≡ false
      → (scan d p text path).redacted_text ≡ apply_redactions text (scan d p text path).findings
  unfolding scan
  redacted_text_busy busy = rw busy refl

  handled_idle : (not (policy_active p) || is_empty text) ≡ true → handled ≡ []
  unfolding scan
  handled_idle idle = rw idle refl

  -- Where the rewritten findings of a scan are spans of the text that do not overlap, the redacted
  -- text is the text with each of them replaced and every part between them kept.
  pub redact_text-eq-left_to_right :
      All (IsSpan (length text)) handled
      → AllDisjoint handled
      → redact_text d p text path ≡ left_to_right 0 handled text
  unfolding redact_text
  redact_text-eq-left_to_right spans apart =
      elim (Bool-cases (not (policy_active p) || is_empty text)) [
        | inl idle ↦ rw (idle, handled_idle idle) refl
        | inr busy ↦
            rw (busy, redacted_text_busy busy)
              (apply_redactions-eq-left_to_right text (scan d p text path).findings (
                Apart-of_AllDisjoint 0 (length text) handled (omega arith) (from_zero handled)
                  (IsOrdered-keep stands_before is_handled (scan d p text path).findings
                    scan-IsOrdered)
                  spans apart))
      ]
