-- ===== src/EvidenceBounds/Tests.antt =====
-- Small outputs and caps.
use gitreins.Prelude.{◌≡◌, refl, [], ◌∷◌, ◌++◌, leb, contains, text_beq}
use gitreins.Prelude.Text.{Text, codes, Unicode, join, strip}
use gitreins.EvidenceBounds.Lines.{
  splitlines, head_end_for_budget, tail_start_for_budget, find_newline, rfind_newline,
  split_newlines, fitting,
}
use gitreins.EvidenceBounds.Marker.{
  hoist_summary_lines, is_summary_line, hoist_lines, hoist_line, omission_marker, marker_for,
  decimal,
}
use gitreins.EvidenceBounds.Bound.{bound_step_evidence, rounds, trim_tail, trim_head}

abbrev ascii : Unicode
ascii = record { is_space = λ c. leb c 32; upper_of = λ c. c ∷ []; fold_of = λ c. c ∷ [] }

program : Unit {0}
unfolding splitlines head_end_for_budget tail_start_for_budget find_newline rfind_newline
    split_newlines fitting hoist_summary_lines is_summary_line hoist_lines hoist_line
    omission_marker marker_for decimal text_beq bound_step_evidence rounds trim_tail trim_head
    contains strip join
program = tt

crlf : splitlines (codes "a\r\nb\rc") ≡ codes "a\r\n" ∷ codes "b\r" ∷ codes "c" ∷ []
unfolding program
crlf = refl

abbrev log : Text
log = codes "ok\nFAILED t.py::a - no\n FAILED t.py::a - no\nERROR t.py:b\nERROR u.py::b\n"

names :
    (hoist_summary_lines ascii log 100).hoisted
    ≡ codes "FAILED t.py::a - no" ∷ codes "ERROR u.py::b" ∷ []
unfolding program
names = refl

counted : (hoist_summary_lines ascii log 20).dropped ≡ 1
unfolding program
counted = refl

abbrev long : Text
long = log ++ (log ++ (log ++ (log ++ log)))

-- An output of exactly the cap's length is returned as it is.
exactly_cap : bound_step_evidence ascii (codes "abcd") 4 ≡ codes "abcd"
unfolding program
exactly_cap = refl
