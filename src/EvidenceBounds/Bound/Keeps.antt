-- ===== src/EvidenceBounds/Bound/Keeps.antt =====
-- engine/evidence_bounds.py: what is kept are the two ends of the output, within the cap.
use gitreins.Prelude.{
  ◌⊎◌, inl, inr, Bool-cases, ◌*◌, ◌/◌, ℕ, zero, suc, ◌+◌, ◌-◌, ◌≤◌, ◌<◌, ◌≡◌, refl, sym, ap, ◌∙◌,
  Bool, false, ◌&&◌, ◌||◌, List, [], ◌∷◌, ◌++◌,
}
use gitreins.Prelude.{
  Option, none, some, if◌then◌else◌, leb, ltb, nat_beq, length, take, drop, is_empty, arith, if_ind,
}
use gitreins.Prelude.{take-append-drop, length-take, length-append}
use gitreins.Prelude.Text.{Text, Unicode}
use gitreins.EvidenceBounds.Lines.{
  splitlines, head_end_for_budget, tail_start_for_budget, find_newline, rfind_newline,
}
use gitreins.EvidenceBounds.Marker.{marker_for, omission_marker}
use gitreins.EvidenceBounds.Bound.Whole.{
  total, first, room, HasRoom, omitted-le, first-rounds, first-within, head-covers, tail-covers,
}
use Prim.Native.Nat.{min}
use gitreins.EvidenceBounds.Bound.{
  Ends, trim_tail, trim_head, tail_round, head_round, shrink, rounds, omitted, first_ends, fit,
  bound_step_evidence, head_budget, tail_budget,
}
use mathlib.Core.List.{append_assoc}

drop-nil {ℓ} : {A : Type ℓ} (n : ℕ) → drop {A = A} n [] ≡ []
drop-nil zero = refl
drop-nil (suc n) = refl

drop-drop {ℓ} : {A : Type ℓ} (m n : ℕ) (xs : List A) → drop n (drop m xs) ≡ drop (m + n) xs
drop-drop zero n xs = let e : n ≡ 0 + n = omega arith in ap (λ k. drop k xs) e
drop-drop (suc m) n [] = drop-nil n ∙ sym (drop-nil (suc m + n))
drop-drop (suc m) n (x ∷ xs) =
    let e : suc (m + n) ≡ suc m + n = omega arith in drop-drop m n xs ∙ ap (λ k. drop k (x ∷ xs)) e

drop-length : (xs ys : Text) → drop (length xs) (xs ++ ys) ≡ ys
drop-length [] ys = refl
drop-length (x ∷ xs) ys = drop-length xs ys

take-length : (xs ys : Text) → take (length xs) (xs ++ ys) ≡ xs
take-length [] ys = refl
take-length (x ∷ xs) ys = ap (λ (r : Text). x ∷ r) (take-length xs ys)

module _ (P : Text → Text → Type 0)
    (P-drop : (k : ℕ) (head tail : Text) → P head tail → P head (drop k tail))
    (P-take : (k : ℕ) (head tail : Text) → P head tail → P (take k head) tail) where
  -- What stays true of the two ends where one of them is cut.
  abbrev pub KeepsEnds : Ends → Type 0
  KeepsEnds e = P e.head e.tail

  tail_round-KeepsEnds :
      (next : ℕ → Ends → Ends) (left : ℕ) (e : Ends) (o : Option ℕ)
      → ((left : ℕ) (e : Ends) → KeepsEnds e → KeepsEnds (next left e))
      → KeepsEnds e
      → KeepsEnds (tail_round next left e o)
  tail_round-KeepsEnds next left e none ih k = P-drop left e.head e.tail k
  tail_round-KeepsEnds next left e (some i) ih k =
      ih (left - (i + 1)) (record e { tail = drop (i + 1) e.tail }) (P-drop (i + 1) e.head e.tail k)

  trim_tail-KeepsEnds : (fuel left : ℕ) (e : Ends) → KeepsEnds e → KeepsEnds (trim_tail fuel left e)
  unfolding trim_tail
  trim_tail-KeepsEnds zero left e k = k
  trim_tail-KeepsEnds (suc fuel) left e k =
      if_ind KeepsEnds (nat_beq left 0) (λ _. k)
        (λ _.
          tail_round-KeepsEnds (trim_tail fuel) left e (find_newline e.tail)
            (trim_tail-KeepsEnds fuel) k)

  head_round-KeepsEnds :
      (next : ℕ → Ends → Ends) (left : ℕ) (e : Ends) (o : Option ℕ)
      → ((left : ℕ) (e : Ends) → KeepsEnds e → KeepsEnds (next left e))
      → KeepsEnds e
      → KeepsEnds (head_round next left e o)
  head_round-KeepsEnds next left e none ih k = P-take (length e.head - left) e.head e.tail k
  head_round-KeepsEnds next left e (some zero) ih k = P-take (length e.head - left) e.head e.tail k
  head_round-KeepsEnds next left e (some (suc i)) ih k =
      ih (left - (length e.head - suc i)) (record e { head = take (suc i) e.head })
        (P-take (suc i) e.head e.tail k)

  trim_head-KeepsEnds : (fuel left : ℕ) (e : Ends) → KeepsEnds e → KeepsEnds (trim_head fuel left e)
  unfolding trim_head
  trim_head-KeepsEnds zero left e k = k
  trim_head-KeepsEnds (suc fuel) left e k =
      if_ind KeepsEnds (nat_beq left 0 || is_empty e.head) (λ _. k)
        (λ _.
          head_round-KeepsEnds (trim_head fuel) left e (rfind_newline e.head)
            (trim_head-KeepsEnds fuel) k)

  shrink-KeepsEnds : (over : ℕ) (e : Ends) → KeepsEnds e → KeepsEnds (shrink over e)
  shrink-KeepsEnds over e k =
      if_ind KeepsEnds (is_empty e.tail) (λ _. trim_head-KeepsEnds over over e k)
        (λ _. trim_tail-KeepsEnds over over e k)

module _ (output : Text) where
  -- Head and tail are the two ends of the output, with the rest between them.
  abbrev pub Keeps : Text → Text → Type 0
  Keeps head tail = (middle : Text) × (output ≡ head ++ (middle ++ tail))

  Keeps-drop : (k : ℕ) (head tail : Text) → Keeps head tail → Keeps head (drop k tail)
  Keeps-drop k head tail (middle, e) = (
    middle ++ take k tail,
    e ∙ ap (λ t. head ++ (middle ++ t)) (sym (take-append-drop k tail)) ∙ simp append_assoc,
  )

  Keeps-take : (k : ℕ) (head tail : Text) → Keeps head tail → Keeps (take k head) tail
  Keeps-take k head tail (middle, e) = (
    drop k head ++ middle,
    e ∙ ap (λ h. h ++ (middle ++ tail)) (sym (take-append-drop k head)) ∙ simp append_assoc,
  )

  -- The ends of the output with a marker between them, which stands for a part of what is left out,
  -- and that part and what is around it.
  abbrev pub Marked : Unicode → Text → Text → Text → Type 0
  Marked u marker head tail =
      (before : Text) × (between : Text) × (after : Text) × (partial : Bool) × (room : ℕ) × (output
        ≡ head ++ (before ++ (between ++ (after ++ tail))))
      × (marker ≡ marker_for u between partial room)

  Marked-drop :
      (u : Unicode) (marker : Text) (k : ℕ) (head tail : Text)
      → Marked u marker head tail
      → Marked u marker head (drop k tail)
  Marked-drop u marker k head tail (before, between, after, partial, room, e, m) = (
    before,
    between,
    after ++ take k tail,
    partial,
    room,
    e
        ∙ ap (λ t. head ++ (before ++ (between ++ (after ++ t)))) (sym (take-append-drop k tail))
        ∙ ap (λ t. head ++ (before ++ (between ++ t)))
            (sym (append_assoc after (take k tail) (drop k tail))),
    m,
  )

  Marked-take :
      (u : Unicode) (marker : Text) (k : ℕ) (head tail : Text)
      → Marked u marker head tail
      → Marked u marker (take k head) tail
  Marked-take u marker k head tail (before, between, after, partial, room, e, m) = (
    drop k head ++ before,
    between,
    after,
    partial,
    room,
    e
        ∙ ap (λ h. h ++ (before ++ (between ++ (after ++ tail)))) (sym (take-append-drop k head))
        ∙ append_assoc (take k head) (drop k head) (before ++ (between ++ (after ++ tail)))
        ∙ ap (λ t. take k head ++ t)
            (sym (append_assoc (drop k head) before (between ++ (after ++ tail)))),
    m,
  )

  omitted-middle :
      (e : Ends) (middle : Text) → output ≡ e.head ++ (middle ++ e.tail) → omitted output e ≡ middle
  omitted-middle e middle is =
      let count : length output - length e.tail - length e.head ≡ length middle = omega (
        arith,
        ap length is,
        length-append e.head (middle ++ e.tail),
        length-append middle e.tail,
      ) in
      ap (λ n. take n (drop (length e.head) output)) count
      ∙ ap (λ t. take (length middle) (drop (length e.head) t)) is
      ∙ ap (take (length middle)) (drop-length e.head (middle ++ e.tail))
      ∙ take-length middle e.tail

  -- The marker of a round stands for all that is left out.
  round-Marked :
      (u : Unicode) (e : Ends) (room : ℕ)
      → Keeps e.head e.tail
      → Marked u (marker_for u (omitted output e) e.partial room) e.head e.tail
  round-Marked u e room (middle, is) = (
    [],
    omitted output e,
    [],
    e.partial,
    room,
    is ∙ ap (λ m. e.head ++ (m ++ e.tail)) (sym (omitted-middle e middle is)),
    refl,
  )

  abbrev MarkedBoth : Unicode → Ends × Text → Type 0
  MarkedBoth u r = Marked u r.1 r.0.head r.0.tail

  rounds-Marked :
      (u : Unicode) (cap n : ℕ) (e : Ends) (old : Text)
      → Keeps e.head e.tail
      → MarkedBoth u (rounds u output cap (suc n) e old)
  unfolding rounds
  rounds-Marked u cap zero e old k =
      let room = cap - length e.head - length e.tail in
      let marker = marker_for u (omitted output e) e.partial room in
      let over = length e.head + length marker + length e.tail - cap in
      let here = round-Marked u e room k in
      if_ind (MarkedBoth u) (nat_beq over 0) (λ _. here)
        (λ _.
          if_ind (MarkedBoth u) (is_empty e.tail && is_empty e.head) (λ _. here)
            (λ _.
              shrink-KeepsEnds (Marked u marker) (Marked-drop u marker) (Marked-take u marker) over
                e here))
  rounds-Marked u cap (suc n) e old k =
      let room = cap - length e.head - length e.tail in
      let marker = marker_for u (omitted output e) e.partial room in
      let over = length e.head + length marker + length e.tail - cap in
      let here = round-Marked u e room k in
      if_ind (MarkedBoth u) (nat_beq over 0) (λ _. here)
        (λ _.
          if_ind (MarkedBoth u) (is_empty e.tail && is_empty e.head) (λ _. here)
            (λ _.
              rounds-Marked u cap n (shrink over e) marker
                (shrink-KeepsEnds Keeps Keeps-drop Keeps-take over e k)))

  take-drop-Keeps : (i j : ℕ) → i ≤ j → Keeps (take i output) (drop j output)
  take-drop-Keeps i j h =
      let e : i + (j - i) ≡ j = omega arith in
      (
        take (j - i) (drop i output),
        sym (take-append-drop i output)
            ∙ ap (λ t. take i output ++ t)
                (sym (take-append-drop (j - i) (drop i output))
                  ∙ ap (λ t. take (j - i) (drop i output) ++ t)
                      (drop-drop i (j - i) output ∙ ap (λ k. drop k output) e)),
      )

  first_ends-KeepsEnds :
      (u : Unicode) (cap head_lines tail_lines : ℕ)
      → KeepsEnds Keeps Keeps-drop Keeps-take (first_ends u output cap head_lines tail_lines)
  first_ends-KeepsEnds u cap head_lines tail_lines = take-drop-Keeps _ _ (omega arith)

  fit-le : (u : Unicode) (cap : ℕ) (result : Text) → length (fit u output cap result) ≤ cap
  fit-le u cap result = ground (arith, length-take cap result)

over_cap : (n cap : ℕ) → cap < n → leb n cap ≡ false
over_cap n cap h = ground arith

-- The text, cut at the cap if it is longer
abbrev cut_at : ℕ → Text → Text
cut_at cap whole = if ltb cap (length whole) then take cap whole else whole

fit_within :
    (u : Unicode) (output : Text) (cap : ℕ) (result : Text)
    → length result ≤ cap
    → fit u output cap result ≡ result
fit_within u output cap result h = ground arith

-- The result keeps, at each end, all whole lines that fit that end's part of the budget, 60% and the
-- rest, around the marker of what is left out.
abbrev KeepsLines : Unicode → Text → ℕ → Text → Type 0
KeepsLines u output cap result =
    (head : Text) × (middle : Text) × (tail : Text) × (partial : Bool) × (room : ℕ) × (output
      ≡ head ++ (middle ++ tail))
    × (result ≡ head ++ (marker_for u middle partial room ++ tail))
    × ((front : List Text) (back : List Text)
        → splitlines output ≡ front ++ back
        → (total front ≤ (cap - min 120 (cap / 4)) * 6 / 10 → total front ≤ length head)
          × (total back ≤ cap - min 120 (cap / 4) - (cap - min 120 (cap / 4)) * 6 / 10
              → total back ≤ length tail))

-- The tally of some part of the output is longer than what is left aside for the marker.
abbrev IsCrowded : Unicode → Text → ℕ → Type 0
IsCrowded u output cap =
    (m : Text) × (partial : Bool) × (length m ≤ length output)
    × (min 120 (cap / 4) < length (omission_marker u m partial [] 0))

keeps_lines :
    (u : Unicode) (output : Text) (cap : ℕ)
    → cap < length output
    → KeepsLines u output cap (bound_step_evidence u output cap) ⊎ IsCrowded u output cap
unfolding bound_step_evidence
keeps_lines u output cap longer =
    let e = first u output cap longer in
    let tally = length (omission_marker u (omitted output e) e.partial [] 0) in
    elim (Bool-cases (leb tally (min 120 (cap / 4)))) [
      | inl fits ↦ inl (kept (ground arith))
      | inr over ↦ inr (omitted output e, e.partial, omitted-le u output cap longer, ground arith)
    ]
  where
    kept : HasRoom u output cap longer → KeepsLines u output cap (bound_step_evidence u output cap)
    kept has =
        let e = first u output cap longer in
        let (middle, whole) =
          first_ends-KeepsEnds output u cap (head_end_for_budget output (head_budget u output cap))
            (tail_start_for_budget output (tail_budget u output cap)) in
        (
          e.head,
          omitted output e,
          e.tail,
          e.partial,
          room u output cap longer,
          whole ∙ ap (λ m. e.head ++ (m ++ e.tail)) (sym (omitted-middle output e middle whole)),
          rw (over_cap (length output) cap longer) (
              ap (λ (r : Ends × Text). fit u output cap (r.0.head ++ (r.1 ++ r.0.tail)))
                (first-rounds u output cap longer has)
              ∙ fit_within u output cap _ (first-within u output cap longer has)),
          λ front back is. (
            head-covers u output cap longer front back is,
            tail-covers u output cap longer front back is,
          ),
        )

-- What a result is to the output it bounds.
pub record Bounded (u : Unicode) (output : Text) (cap : ℕ) (result : Text) : Type 0 where
  pub within : length result ≤ cap
  pub unchanged : length output ≤ cap → result ≡ output
  pub lines : cap < length output → KeepsLines u output cap result ⊎ IsCrowded u output cap
  pub ends :
      cap < length output
      → (head : Text) × (before : Text) × (between : Text) × (after : Text) × (tail : Text)
        × (partial : Bool) × (room : ℕ) × (output
            ≡ head ++ (before ++ (between ++ (after ++ tail))))
        × (result ≡ cut_at cap (head ++ (marker_for u between partial room ++ tail)))

pub bound_step_evidence-Bounded :
    (u : Unicode) (output : Text) (cap : ℕ)
    → Bounded u output cap (bound_step_evidence u output cap)
unfolding bound_step_evidence
bound_step_evidence-Bounded u output cap = record {
  within =
      if_ind (λ (r : Text). length r ≤ cap) (leb (length output) cap) (λ h. ground arith)
        (λ _. fit-le output u cap _);
  unchanged = λ h. ground arith;
  lines = keeps_lines u output cap;
  ends = λ h.
      let hl = head_end_for_budget output (head_budget u output cap) in
      let tl = tail_start_for_budget output (tail_budget u output cap) in
      let r = rounds u output cap 12 (first_ends u output cap hl tl) [] in
      let (before, between, after, partial, room, whole, marked) =
        rounds-Marked output u cap 11 (first_ends u output cap hl tl) []
          (first_ends-KeepsEnds output u cap hl tl) in
      (
        r.0.head,
        before,
        between,
        after,
        r.0.tail,
        partial,
        room,
        whole,
        rw (over_cap (length output) cap h)
            (ap (λ m. cut_at cap (r.0.head ++ (m ++ r.0.tail))) marked),
      );
}
