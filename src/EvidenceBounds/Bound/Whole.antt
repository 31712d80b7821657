-- ===== src/EvidenceBounds/Bound/Whole.antt =====
-- engine/evidence_bounds.py: the whole lines at the two ends that fit their budgets are kept.
use gitreins.Prelude.{
  ℕ, ◌+◌, ◌-◌, ◌/◌, ◌≤◌, ◌<◌, ◌≡◌, refl, sym, ap, ◌∙◌, subst, Bool, false, List, [], ◌∷◌, ◌++◌,
  if◌then◌else◌, leb, ltb, nat_beq, length, length-take, length-drop, length-append, suc, take,
  drop, arith, if_ind,
}
use gitreins.Prelude.Text.{Text, Unicode}
use gitreins.EvidenceBounds.Lines.{splitlines, fitting, head_end_for_budget, tail_start_for_budget}
use gitreins.EvidenceBounds.Marker.{omission_marker, marker_for}
use gitreins.EvidenceBounds.Bound.{Ends, omitted, first_ends, rounds, head_budget, tail_budget}
use mathlib.Core.List.{reverse, reverse-append}
use Prim.Native.Nat.{min, max}

-- The length of some lines, their ends included
abbrev pub total : List Text → ℕ
total [] = 0
total (line ∷ lines) = length line + total lines

total-append : (xs ys : List Text) → total (xs ++ ys) ≡ total xs + total ys
total-append [] ys = omega arith
total-append (x ∷ xs) ys = omega (arith, total-append xs ys)

total-reverse : (xs : List Text) → total (reverse xs) ≡ total xs
total-reverse [] = refl
total-reverse (x ∷ xs) =
    ap total (reverse-append (x ∷ []) xs)
    ∙ omega (arith, total-append (reverse xs) (x ∷ []), total-reverse xs)

fitting-grows : (xs : List Text) (budget used : ℕ) → used ≤ fitting budget used xs
unfolding fitting
fitting-grows [] budget used = omega arith
fitting-grows (x ∷ xs) budget used =
    if_ind (λ n. used ≤ n) (ltb budget (used + length x)) (λ _. omega arith)
      (λ _. omega (arith, fitting-grows xs budget (used + length x)))

fitting-covers :
    (xs ys : List Text) (budget used : ℕ)
    → used + total xs ≤ budget
    → used + total xs ≤ fitting budget used (xs ++ ys)
unfolding fitting
fitting-covers [] ys budget used h = omega (arith, fitting-grows ys budget used)
fitting-covers (x ∷ xs) ys budget used h =
    let in_it : ltb budget (used + length x) ≡ false = ground arith in
    rw in_it (omega (arith, fitting-covers xs ys budget (used + length x) (omega arith)))

fitting-le : (xs : List Text) (budget used : ℕ) → used ≤ budget → fitting budget used xs ≤ budget
unfolding fitting
fitting-le [] budget used h = h
fitting-le (x ∷ xs) budget used h =
    if_ind (λ n. n ≤ budget) (ltb budget (used + length x)) (λ _. h)
      (λ in_it. fitting-le xs budget (used + length x) (ground arith))

head_lem :
    (lines budget n : ℕ)
    → lines ≤ budget
    → budget ≤ n
    → min (if nat_beq lines 0 then budget else lines) n
      ≡ (if nat_beq lines 0 then budget else lines)
head_lem lines budget n h k = ground arith

tail_lem :
    (n fits tb hb hl : ℕ)
    → fits ≤ tb
    → hl ≤ hb
    → hb + tb < n
    → n - max (if leb n (n - fits) then n - tb else n - fits) (if nat_beq hl 0 then hb else hl)
      ≡ (if nat_beq fits 0 then tb else fits)
tail_lem n fits tb hb hl h k room = ground arith

choose-le :
    (lines budget : ℕ) → lines ≤ budget → (if nat_beq lines 0 then budget else lines) ≤ budget
choose-le lines budget h = ground arith

le-choose :
    (lines budget n : ℕ) → n ≤ budget → n ≤ lines → n ≤ (if nat_beq lines 0 then budget else lines)
le-choose lines budget n h k = ground arith

pick-le :
    (marker base : Text) (room : ℕ)
    → length base ≤ room
    → length (if leb (length marker) room then marker else base) ≤ room
pick-le marker base room h =
    if_ind (λ (t : Text). length t ≤ room) (leb (length marker) room) (λ fits. ground arith)
      (λ _. h)

part-le : (n k : ℕ) (xs : Text) → length (take n (drop k xs)) ≤ length xs
part-le n k xs = omega (arith, length-take n (drop k xs), length-drop k xs)

-- A round whose ends and marker fit is the last one.
rounds-fit :
    (u : Unicode) (output : Text) (cap n : ℕ) (e : Ends) (old : Text)
    → length e.head
        + length (marker_for u (omitted output e) e.partial (cap - length e.head - length e.tail))
        + length e.tail
        - cap
      ≡ 0
    → rounds u output cap (suc n) e old
      ≡ (e, marker_for u (omitted output e) e.partial (cap - length e.head - length e.tail))
unfolding rounds
rounds-fit u output cap n e old h = rw h refl

-- The bounds of the first two ends.
module _ (u : Unicode) (output : Text) (cap : ℕ) (longer : cap < length output) where
  abbrev hb : ℕ
  hb = head_budget u output cap

  abbrev tb : ℕ
  tb = tail_budget u output cap

  abbrev hl : ℕ
  hl = head_end_for_budget output hb

  abbrev tl : ℕ
  tl = tail_start_for_budget output tb

  abbrev pub first : Ends
  first = first_ends u output cap hl tl

  budgets : hb + tb ≤ cap - min 120 (cap / 4)
  budgets = omega arith

  hl-le : hl ≤ hb
  unfolding head_end_for_budget
  hl-le = fitting-le (splitlines output) hb 0 (omega arith)

  first-head : length first.head ≡ (if nat_beq hl 0 then hb else hl)
  first-head =
      length-take (if nat_beq hl 0 then hb else hl) output
      ∙ head_lem hl hb (length output) hl-le (omega (arith, budgets, longer))

  abbrev back_fits : ℕ
  back_fits = fitting tb 0 (reverse (splitlines output))

  first-tail : length first.tail ≡ (if nat_beq back_fits 0 then tb else back_fits)
  unfolding tail_start_for_budget
  first-tail =
      length-drop
        (max (if leb (length output) tl then length output - tb else tl)
          (if nat_beq hl 0 then hb else hl))
        output
      ∙ tail_lem (length output) back_fits tb hb hl
          (fitting-le (reverse (splitlines output)) tb 0 (omega arith)) hl-le
          (omega (arith, budgets, longer))

  -- The tally alone fits what is left aside for the marker.
  abbrev pub HasRoom : Type 0
  HasRoom = length (omission_marker u (omitted output first) first.partial [] 0) ≤ min 120 (cap / 4)

  marker_for-le :
      (m : Text) (partial : Bool) (room : ℕ)
      → length (omission_marker u m partial [] 0) ≤ room
      → length (marker_for u m partial room) ≤ room
  unfolding marker_for
  marker_for-le m partial room h = pick-le _ (omission_marker u m partial [] 0) room h

  pub omitted-le : length (omitted output first) ≤ length output
  omitted-le = part-le _ (length first.head) output

  ends-fit : length first.head + length first.tail ≤ cap - min 120 (cap / 4)
  ends-fit =
      let back = fitting-le (reverse (splitlines output)) tb 0 (omega arith) in
      omega
        (arith, first-head, first-tail, choose-le hl hb hl-le, choose-le back_fits tb back, budgets)

  abbrev pub room : ℕ
  room = cap - length first.head - length first.tail

  room-wide : min 120 (cap / 4) ≤ room
  room-wide = omega (arith, ends-fit)

  abbrev pub marker : Text
  marker = marker_for u (omitted output first) first.partial room

  marker-le : HasRoom → length marker ≤ room
  marker-le has =
      marker_for-le (omitted output first) first.partial room (omega (arith, has, room-wide))

  pub first-rounds : HasRoom → rounds u output cap 12 first [] ≡ (first, marker)
  first-rounds has = rounds-fit u output cap 11 first [] (omega (arith, marker-le has, ends-fit))

  pub first-within : HasRoom → length (first.head ++ (marker ++ first.tail)) ≤ cap
  first-within has = omega (
    arith,
    length-append first.head (marker ++ first.tail),
    length-append marker first.tail,
    marker-le has,
    ends-fit,
  )

  pub head-covers :
      (front back : List Text)
      → splitlines output ≡ front ++ back
      → total front ≤ hb
      → total front ≤ length first.head
  unfolding head_end_for_budget
  head-covers front back is fits =
      let covered : total front ≤ hl =
        subst (λ (lines : List Text). total front ≤ fitting hb 0 lines) (sym is)
          (omega (arith, fitting-covers front back hb 0 (omega arith))) in
      omega (arith, first-head, le-choose hl hb (total front) fits covered)

  pub tail-covers :
      (front back : List Text)
      → splitlines output ≡ front ++ back
      → total back ≤ tb
      → total back ≤ length first.tail
  tail-covers front back is fits =
      let turned = ap (λ (lines : List Text). reverse lines) is ∙ reverse-append front back in
      let size = total-reverse back in
      let covered : total back ≤ back_fits =
        subst (λ (lines : List Text). total back ≤ fitting tb 0 lines) (sym turned)
          (omega (arith, size, fitting-covers (reverse back) (reverse front) tb 0 (omega arith))) in
      omega (arith, first-tail, le-choose back_fits tb (total back) fits covered)
