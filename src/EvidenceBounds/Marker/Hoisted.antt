-- ===== src/EvidenceBounds/Marker/Hoisted.antt =====
-- engine/evidence_bounds.py: every test name of the omitted text is hoisted or counted.
use gitreins.Prelude.{ℕ, ◌+◌, ◌≤◌, ◌≡◌, true, List, [], ◌∷◌, ◌++◌}
use gitreins.Prelude.{length, contains, text_eq, arith, if_ind, All, length-append, beq_refl}
use gitreins.Prelude.Text.{Text, Unicode, strip}
use gitreins.EvidenceBounds.Lines.{split_newlines}
use gitreins.EvidenceBounds.Marker.{
  Hoist, nothing_hoisted, hoist_new, hoist_line, hoist_lines, hoist_summary_lines, is_summary_line,
}

abbrev pub total : List Text → ℕ
total [] = 0
total (line ∷ lines) = length line + total lines

total-append : (xs ys : List Text) → total (xs ++ ys) ≡ total xs + total ys
total-append [] ys = omega arith
total-append (x ∷ xs) ys = omega (arith, total-append xs ys)

module _ (u : Unicode) (budget : ℕ) where
  -- What the marker carries is within its limits, and each name seen is carried or counted.
  pub record IsCounted (h : Hoist) : Type 0 where
    pub count : length h.seen ≡ length h.hoisted + h.dropped
    pub few : length h.hoisted ≤ 20
    pub sum : total h.hoisted ≡ h.used
    pub room : h.used ≤ budget

  hoist_new-IsCounted :
      (line : Text) (h : Hoist) → IsCounted h → IsCounted (hoist_new u budget line h)
  hoist_new-IsCounted line h c =
      ground (arith, length-append h.hoisted (line ∷ []), total-append h.hoisted (line ∷ []))

  hoist_line-IsCounted :
      (line : Text) (h : Hoist) → IsCounted h → IsCounted (hoist_line u budget line h)
  unfolding hoist_line
  hoist_line-IsCounted line h c =
      if_ind IsCounted (is_summary_line u line)
        (λ _. if_ind IsCounted (contains h.seen line) (λ _. c) (λ _. hoist_new-IsCounted line h c))
        (λ _. c)

  hoist_lines-IsCounted :
      (lines : List Text) (h : Hoist) → IsCounted h → IsCounted (hoist_lines u budget lines h)
  unfolding hoist_lines
  hoist_lines-IsCounted [] h c = c
  hoist_lines-IsCounted (line ∷ lines) h c =
      hoist_lines-IsCounted lines (hoist_line u budget (strip u line) h)
        (hoist_line-IsCounted (strip u line) h c)

  -- What was seen stays seen.
  abbrev pub Sees : Text → Hoist → Type 0
  Sees line h = contains h.seen line ≡ true

  Sees-new :
      (line wanted : Text) (h : Hoist) → Sees wanted h → Sees wanted (hoist_new u budget line h)
  unfolding contains
  Sees-new line wanted h s = ground arith

  Sees-line :
      (line wanted : Text) (h : Hoist) → Sees wanted h → Sees wanted (hoist_line u budget line h)
  unfolding hoist_line
  Sees-line line wanted h s =
      if_ind (Sees wanted) (is_summary_line u line)
        (λ _. if_ind (Sees wanted) (contains h.seen line) (λ _. s) (λ _. Sees-new line wanted h s))
        (λ _. s)

  Sees-lines :
      (lines : List Text) (wanted : Text) (h : Hoist)
      → Sees wanted h
      → Sees wanted (hoist_lines u budget lines h)
  unfolding hoist_lines
  Sees-lines [] wanted h s = s
  Sees-lines (line ∷ lines) wanted h s =
      Sees-lines lines wanted (hoist_line u budget (strip u line) h)
        (Sees-line (strip u line) wanted h s)

  Sees-new_self : (line : Text) (h : Hoist) → Sees line (hoist_new u budget line h)
  unfolding contains
  Sees-new_self line h = ground (arith, beq_refl line)

  Sees-self :
      (line : Text) (h : Hoist)
      → is_summary_line u line ≡ true
      → Sees line (hoist_line u budget line h)
  unfolding hoist_line
  Sees-self line h s =
      rw s (if_ind (Sees line) (contains h.seen line) (λ old. old) (λ _. Sees-new_self line h))

  abbrev pub SeenIn : Hoist → Text → Type 0
  SeenIn h line = is_summary_line u (strip u line) ≡ true → Sees (strip u line) h

  hoist_lines-SeenIn :
      (lines : List Text) (h : Hoist) → All (SeenIn (hoist_lines u budget lines h)) lines
  unfolding hoist_lines
  hoist_lines-SeenIn [] h = tt
  hoist_lines-SeenIn (line ∷ lines) h = (
    λ s.
        Sees-lines lines (strip u line) (hoist_line u budget (strip u line) h)
          (Sees-self (strip u line) h s),
    hoist_lines-SeenIn lines (hoist_line u budget (strip u line) h),
  )

-- Of the omitted text, every line that names a failed test is seen; as many are seen as are hoisted
-- and dropped together; and the hoisted ones are at most 20, of at most `budget` code points in all.
pub hoist_summary_lines-IsCounted :
    (u : Unicode) (omitted : Text) (budget : ℕ)
    → let h = hoist_summary_lines u omitted budget in
      IsCounted u budget h × All (SeenIn u budget h) (split_newlines omitted)
unfolding hoist_summary_lines
hoist_summary_lines-IsCounted u omitted budget = (
  hoist_lines-IsCounted u budget (split_newlines omitted) nothing_hoisted (omega arith),
  hoist_lines-SeenIn u budget (split_newlines omitted) nothing_hoisted,
)
