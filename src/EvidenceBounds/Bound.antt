-- ===== src/EvidenceBounds/Bound.antt =====
-- engine/evidence_bounds.py, `_bound_step_evidence`.
pub mod Keeps
pub mod Whole
use gitreins.Prelude.{
  ℕ, zero, suc, ◌+◌, ◌-◌, ◌*◌, ◌/◌, Bool, true, false, ◌&&◌, ◌||◌, List, [], ◌∷◌, ◌++◌,
}
use gitreins.Prelude.{
  Option, none, some, if◌then◌else◌, leb, ltb, nat_beq, length, take, drop, is_empty,
}
use gitreins.Prelude.Text.{Text, Unicode}
use gitreins.EvidenceBounds.Lines.{
  head_end_for_budget, tail_start_for_budget, find_newline, rfind_newline,
}
use gitreins.EvidenceBounds.Marker.{marker_for}
use Prim.Native.Nat.{min, max}

abbrev pub max_evidence_chars : ℕ
max_evidence_chars = 4000

-- What is kept of an output: its two ends, and whether a line was cut within.
pub record Ends : Type 0 where
  pub head : Text
  pub tail : Text
  pub partial : Bool

abbrev pub cut_tail : ℕ → Ends → Ends
cut_tail left e = record e { tail = drop left e.tail; partial = true }

-- A round that drops a line from the front of the tail while `left` code points are still to go,
-- and `next` goes on.
abbrev pub tail_round : (ℕ → Ends → Ends) → ℕ → Ends → Option ℕ → Ends
tail_round next left e none = cut_tail left e
tail_round next left e (some i) = next (left - (i + 1)) (record e { tail = drop (i + 1) e.tail })

-- The loop over the tail. A round takes at least one code point, so fuel for `left` rounds is enough.
unfoldable pub trim_tail : ℕ → ℕ → Ends → Ends
trim_tail zero left e = e
trim_tail (suc fuel) left e =
    let round = tail_round (trim_tail fuel) left e (find_newline e.tail) in
    if nat_beq left 0 then e else round

abbrev pub cut_head : ℕ → Ends → Ends
cut_head left e = record e { head = take (length e.head - left) e.head; partial = true }

-- A round that drops a line from the back of the head, a newline at its front aside.
abbrev pub head_round : (ℕ → Ends → Ends) → ℕ → Ends → Option ℕ → Ends
head_round next left e none = cut_head left e
head_round next left e (some zero) = cut_head left e
head_round next left e (some (suc i)) =
    next (left - (length e.head - suc i)) (record e { head = take (suc i) e.head })

unfoldable pub trim_head : ℕ → ℕ → Ends → Ends
trim_head zero left e = e
trim_head (suc fuel) left e =
    let round = head_round (trim_head fuel) left e (rfind_newline e.head) in
    if nat_beq left 0 || is_empty e.head then e else round

abbrev pub shrink : ℕ → Ends → Ends
shrink over e = if is_empty e.tail then trim_head over over e else trim_tail over over e

abbrev pub omitted : Text → Ends → Text
omitted output e =
    take (length output - length e.tail - length e.head) (drop (length e.head) output)

module _ (u : Unicode) (output : Text) (cap : ℕ) where
  -- The rounds that shrink the two ends until they fit with their marker.
  unfoldable pub rounds : ℕ → Ends → Text → Ends × Text
  rounds zero e marker = (e, marker)
  rounds (suc n) e old =
      let marker =
        marker_for u (omitted output e) e.partial (cap - length e.head - length e.tail) in
      let over = length e.head + length marker + length e.tail - cap in
      let rest = rounds n (shrink over e) marker in
      if nat_beq over 0
      then (e, marker)
      else if is_empty e.tail && is_empty e.head
      then (e, marker)
      else rest

  abbrev pub usable : ℕ
  usable = cap - min 120 (cap / 4)

  abbrev pub head_budget : ℕ
  head_budget = usable * 6 / 10

  abbrev pub tail_budget : ℕ
  tail_budget = usable - head_budget

  -- Where the head ends and the tail starts, from the whole lines that fit their budgets.
  abbrev pub first_ends : ℕ → ℕ → Ends
  first_ends head_lines tail_lines =
      let head_end = if nat_beq head_lines 0 then head_budget else head_lines in
      let tail_start =
        if leb (length output) tail_lines then length output - tail_budget else tail_lines in
      record {
        head = take head_end output;
        tail = drop (max tail_start head_end) output;
        partial = nat_beq head_lines 0 || leb (length output) tail_lines;
      }

  abbrev pub fit : Text → Text
  fit result = if ltb cap (length result) then take cap result else result

  abbrev pub assemble : Ends × Text → Text
  assemble r = fit (r.0.head ++ (r.1 ++ r.0.tail))

  -- `_bound_step_evidence`
  unfoldable pub bound_step_evidence : Text
  bound_step_evidence =
      if leb (length output) cap
      then output
      else assemble (
          rounds 12
            (first_ends (head_end_for_budget output head_budget)
              (tail_start_for_budget output tail_budget))
            [])
