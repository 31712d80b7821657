-- ===== src/EvidenceBounds/Lines.antt =====
-- engine/evidence_bounds.py, the lines of a text and how many of them fit a budget.
use gitreins.Prelude.{
  ℕ, suc, ◌+◌, ◌-◌, Bool, true, false, ◌&&◌, ◌||◌, List, [], ◌∷◌, ◌++◌, Option, none, some,
}
use gitreins.Prelude.{if◌then◌else◌, leb, ltb, nat_beq, length}
use gitreins.Prelude.Text.{Text}
use mathlib.Core.List.{reverse}

abbrev pub newline : ℕ
newline = 10

-- The code points at which `str.splitlines` ends a line.
unfoldable pub is_line_end : ℕ → Bool
is_line_end c =
    (leb 10 c && leb c 13)
    || (leb 28 c && leb c 30)
    || nat_beq c 0x85
    || nat_beq c 0x2028
    || nat_beq c 0x2029

abbrev last_line : Text → List Text
last_line [] = []
last_line (c ∷ line) = (c ∷ line) ∷ []

-- A code point behind the line read so far; `next` goes on with a line and whether it ended in a
-- carriage return.
abbrev place : ℕ → Text → (Text → Bool → List Text) → List Text
place c line next =
    if nat_beq c 13
    then next (line ++ c ∷ []) true
    else if is_line_end c
    then (line ++ c ∷ []) ∷ next [] false
    else next (line ++ c ∷ []) false

abbrev place_behind : Bool → ℕ → Text → (Text → Bool → List Text) → List Text
place_behind false c line next = place c line next
place_behind true c line next =
    if nat_beq c newline then (line ++ c ∷ []) ∷ next [] false else line ∷ place c [] next

lines_from : Text → Bool → Text → List Text
lines_from line returned [] = last_line line
lines_from line returned (c ∷ s) = place_behind returned c line (λ w r. lines_from w r s)

-- `text.splitlines(keepends=True)`; a carriage return takes a newline behind it along.
unfoldable pub splitlines : Text → List Text
unfolding lines_from is_line_end
splitlines s = lines_from [] false s

-- How many code points of whole lines fit the budget, from the front of the list.
unfoldable pub fitting : ℕ → ℕ → List Text → ℕ
fitting budget used [] = used
fitting budget used (line ∷ lines) =
    let rest = fitting budget (used + length line) lines in
    if ltb budget (used + length line) then used else rest

-- `_head_end_for_budget`, `_tail_start_for_budget`
unfoldable pub head_end_for_budget : Text → ℕ → ℕ
head_end_for_budget output budget = fitting budget 0 (splitlines output)

unfoldable pub tail_start_for_budget : Text → ℕ → ℕ
tail_start_for_budget output budget = length output - fitting budget 0 (reverse (splitlines output))

abbrev one_later : Option ℕ → Option ℕ
one_later none = none
one_later (some i) = some (suc i)

-- `text.find("\n")`
unfoldable pub find_newline : Text → Option ℕ
find_newline [] = none
find_newline (c ∷ s) = if nat_beq c newline then some 0 else one_later (find_newline s)

abbrev or_here : ℕ → Option ℕ → Option ℕ
or_here c none = if nat_beq c newline then some 0 else none
or_here c (some i) = some (suc i)

-- `text.rfind("\n")`
unfoldable pub rfind_newline : Text → Option ℕ
rfind_newline [] = none
rfind_newline (c ∷ s) = or_here c (rfind_newline s)

split_from : Text → Text → List Text
split_from line [] = line ∷ []
split_from line (c ∷ s) =
    if nat_beq c newline then line ∷ split_from [] s else split_from (line ++ c ∷ []) s

-- `text.split("\n")`
unfoldable pub split_newlines : Text → List Text
unfolding split_from
split_newlines s = split_from [] s
