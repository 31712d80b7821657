-- ===== src/DataProtection/Findings/Rewrite.antt =====
-- Redaction from the right, as the code does it, and from the left, as a reader expects it.
use gitreins.Prelude.{
  ℕ, ◌≤◌, ◌<◌, ◌≡◌, ◌∙◌, refl, sym, ap, false, List, [], ◌∷◌, ◌++◌, length, length-take,
  take-append-drop, take, drop, keep, is_empty, All, if◌then◌else◌, arith,
}
use gitreins.Prelude.Text.{Text}
use gitreins.Prelude.Slices.{
  slice, take-take, take-append-slice, take-append_left, drop-append_left, sort_by, insert_by-last,
  All-sort_by,
}
use gitreins.DataProtection.Findings.{
  Finding, redacted_value, is_handled, rewrite_one, rewrite_each, starts_later, apply_redactions,
}
use mathlib.Core.List.{append_assoc}

-- The reference: the text from `pos` on, with each gap copied and each finding replaced.
abbrev pub left_to_right : ℕ → List Finding → Text → Text
left_to_right pos [] text = drop pos text
left_to_right pos (f ∷ fs) text =
    slice pos f.start text ++ (redacted_value f ++ left_to_right f.end fs text)

-- The findings stand in order between `pos` and `limit`, none in another and none empty.
abbrev pub Apart : ℕ → ℕ → List Finding → Type 0
Apart pos limit [] = pos ≤ limit
Apart pos limit (f ∷ fs) = (pos ≤ f.start) × (f.start < f.end) × Apart f.end limit fs

Apart-le : (pos limit : ℕ) (fs : List Finding) → Apart pos limit fs → pos ≤ limit
Apart-le pos limit [] h = h
Apart-le pos limit (f ∷ fs) h = omega (arith, Apart-le f.end limit fs h.2)

-- All that follow start later.
Apart-All :
    (first : Finding) (pos limit : ℕ) (fs : List Finding)
    → first.start < pos
    → Apart pos limit fs
    → All (λ g. starts_later first g ≡ false) fs
Apart-All first pos limit [] p h = tt
Apart-All first pos limit (f ∷ fs) p h =
    (ground arith, Apart-All first f.end limit fs (omega arith) h.2)

sort_by-cons :
    (f : Finding) (limit : ℕ) (fs : List Finding)
    → f.start < f.end
    → Apart f.end limit fs
    → sort_by starts_later (f ∷ fs) ≡ sort_by starts_later fs ++ f ∷ []
sort_by-cons f limit fs p h =
    insert_by-last starts_later f (sort_by starts_later fs)
      (All-sort_by starts_later (λ g. starts_later f g ≡ false) fs (Apart-All f f.end limit fs p h))

rewrite_each-append :
    (fs : List Finding) (f : Finding) (text : Text)
    → rewrite_each text (fs ++ f ∷ []) ≡ rewrite_one (rewrite_each text fs) f
unfolding rewrite_each
rewrite_each-append [] f text = refl
rewrite_each-append (g ∷ fs) f text = rewrite_each-append fs f (rewrite_one text g)

rewrite_one-append :
    (f : Finding) (text later : Text)
    → f.start ≤ f.end
    → f.end ≤ length text
    → rewrite_one (take f.end text ++ later) f ≡ take f.start text ++ (redacted_value f ++ later)
unfolding rewrite_one
rewrite_one-append f text later p q =
    let n : length (take f.end text) ≡ f.end = omega (arith, length-take f.end text) in
    rw
      (
        take-append_left f.start (take f.end text) later (omega arith),
        take-take f.start f.end text p,
        drop-append_left f.end (take f.end text) later n,
      )
      refl

rewrite_each-eq-left_to_right :
    (pos : ℕ) (fs : List Finding) (text : Text)
    → Apart pos (length text) fs
    → rewrite_each text (sort_by starts_later fs) ≡ take pos text ++ left_to_right pos fs text
unfolding rewrite_each
rewrite_each-eq-left_to_right pos [] text h = sym (take-append-drop pos text)
rewrite_each-eq-left_to_right pos (f ∷ fs) text h =
    let later = redacted_value f ++ left_to_right f.end fs text in
    rw
      (
        sort_by-cons f (length text) fs h.1 h.2,
        rewrite_each-append (sort_by starts_later fs) f text,
        rewrite_each-eq-left_to_right f.end fs text h.2,
        rewrite_one-append f text (left_to_right f.end fs text) (omega arith)
            (Apart-le f.end (length text) fs h.2),
      )
      (ap (λ t. t ++ later) (sym (take-append-slice pos f.start text h.0))
        ∙ append_assoc (take pos text) (slice pos f.start text) later)

redaction-eq-left_to_right :
    (text : Text) (active : List Finding)
    → Apart 0 (length text) active
    → (if is_empty active then text else rewrite_each text (sort_by starts_later active))
      ≡ left_to_right 0 active text
redaction-eq-left_to_right text [] h = refl
redaction-eq-left_to_right text (f ∷ fs) h = rewrite_each-eq-left_to_right 0 (f ∷ fs) text h

-- For findings in the order of a scan whose handled ones lie apart in the text, the redaction is
-- the text with each gap copied and each handled finding replaced, from the left.
pub apply_redactions-eq-left_to_right :
    (text : Text) (findings : List Finding)
    → Apart 0 (length text) (keep is_handled findings)
    → apply_redactions text findings ≡ left_to_right 0 (keep is_handled findings) text
unfolding apply_redactions
apply_redactions-eq-left_to_right text findings h =
    redaction-eq-left_to_right text (keep is_handled findings) h
