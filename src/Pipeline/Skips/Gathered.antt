-- ===== src/Pipeline/Skips/Gathered.antt =====
-- What the loops of `_record_runtime_skips` gather: each new id once.
use gitreins.Prelude.{
  ◌≡◌, ◌∙◌, inl, inr, refl, sym, ap, Bool, true, false, ◌||◌, List, [], ◌∷◌, ◌++◌, map, contains,
  text_eq, All, Bool-cases, arith, ◌==◌, or_false, beq_refl,
}
use mathlib.Core.List.{append_assoc, map-append}
use gitreins.Prelude.Text.{Text}
use gitreins.Pipeline.Skips.{Skip, is_known, gather}

abbrev pub ids : List Skip → List Text
ids = map (λ (skip : Skip). skip.0)

pub contains-append :
    (xs ys : List Text) (x : Text) → contains (xs ++ ys) x ≡ (contains xs x || contains ys x)
unfolding contains
contains-append [] ys x = refl
contains-append (y ∷ xs) ys x = ground (arith, contains-append xs ys x)

pub same_contains : (x y : Text) (ys : List Text) → (x == y) ≡ true → contains ys x ≡ contains ys y
same_contains x y ys h = ap (contains ys) ((text_eq.equals_iff x y).0 h)

pub contains-cons :
    (x y : Text) (ys : List Text) → contains (y ∷ ys) x ≡ ((x == y) || contains ys x)
unfolding contains
contains-cons x y ys = refl

pub contains-single : (y x : Text) → contains (y ∷ []) x ≡ (x == y)
unfolding contains
contains-single y x = ground arith

contains-nil : (k : Bool) (x : Text) → k ≡ (k || contains [] x)
unfolding contains
contains-nil k x = ground arith

ids-snoc :
    (skipped : List Text) (found : List Skip) (skip : Skip)
    → skipped ++ ids (found ++ skip ∷ []) ≡ (skipped ++ ids found) ++ skip.0 ∷ []
ids-snoc skipped found skip =
    rw (map-append (λ (s : Skip). s.0) found (skip ∷ []))
      (sym (append_assoc skipped (ids found) (skip.0 ∷ [])))

contains-snoc :
    (skipped : List Text) (found : List Skip) (skip : Skip) (x : Text)
    → contains (skipped ++ ids (found ++ skip ∷ [])) x
      ≡ (contains (skipped ++ ids found) x || (x == skip.0))
contains-snoc skipped found skip x = rw (ids-snoc skipped found skip) (
    contains-append (skipped ++ ids found) (skip.0 ∷ []) x
    ∙ ap (λ b. contains (skipped ++ ids found) x || b) (contains-single skip.0 x))

-- No id stands twice.
abbrev pub Distinct : List Text → Type 0
Distinct [] = Unit
Distinct (x ∷ xs) = (contains xs x ≡ false) × Distinct xs

known_same :
    (skipped : List Text) (found : List Skip) (id x : Text)
    → is_known skipped found id ≡ true
    → (x == id) ≡ true
    → contains (skipped ++ ids found) x ≡ true
known_same skipped found id x old same =
    same_contains x id (skipped ++ ids found) same ∙ contains-append skipped (ids found) id ∙ old

absorb_known :
    (k b r : Bool) {l : Bool} → (b ≡ true → k ≡ true) → l ≡ (k || r) → l ≡ (k || (b || r))
absorb_known true b r f h = h
absorb_known false true r f h = cc (f refl)
absorb_known false false r f h = h

absorb_new : (k b r : Bool) {k' l : Bool} → k' ≡ (k || b) → l ≡ (k' || r) → l ≡ (k || (b || r))
absorb_new k b r e h = ground arith

-- The ids that are recorded in the end: those that were, and those of the skips.
pub gather-contains :
    (skipped : List Text) (found skips : List Skip) (x : Text)
    → contains (skipped ++ ids (gather skipped found skips)) x
      ≡ (contains (skipped ++ ids found) x || contains (ids skips) x)
unfolding gather
gather-contains skipped found [] x = contains-nil (contains (skipped ++ ids found) x) x
gather-contains skipped found (skip ∷ skips) x =
    let recorded = contains (skipped ++ ids found) x in
    rw (contains-cons x skip.0 (ids skips)) (elim (Bool-cases (is_known skipped found skip.0)) [
      | inl old ↦ rw old (
          absorb_known recorded (x == skip.0) (contains (ids skips) x)
            (known_same skipped found skip.0 x old) (gather-contains skipped found skips x))
      | inr new ↦ rw new (
          absorb_new recorded (x == skip.0) (contains (ids skips) x)
            (contains-snoc skipped found skip x)
            (gather-contains skipped (found ++ skip ∷ []) skips x))
    ])

pub gather_known :
    (skipped : List Text) (found skips : List Skip)
    → All (λ skip. contains skipped skip.0 ≡ true) skips
    → gather skipped found skips ≡ found
unfolding gather
gather_known skipped found [] h = refl
gather_known skipped found (skip ∷ skips) h = rw h.0 (gather_known skipped found skips h.1)

other_way : (x y : Text) → (x == y) ≡ false → (y == x) ≡ false
other_way x y h = elim (Bool-cases (y == x)) [
  | inl e ↦ absurd (cc (h, (text_eq.equals_iff x y).1 (sym ((text_eq.equals_iff y x).0 e))))
  | inr e ↦ e
]

Distinct-snoc :
    (xs : List Text) (y : Text) → Distinct xs → contains xs y ≡ false → Distinct (xs ++ y ∷ [])
Distinct-snoc [] y h n = (n, tt)
Distinct-snoc (x ∷ xs) y h n =
    let (other, away) = or_false (y == x) (contains xs y) (sym (contains-cons y x xs) ∙ n) in
    let apart : (contains xs x || (x == y)) ≡ false = rw (h.0, other_way y x other) refl in
    (
      contains-append xs (y ∷ []) x ∙ ap (λ b. contains xs x || b) (contains-single y x) ∙ apart,
      Distinct-snoc xs y h.1 away,
    )

pub gather-Distinct :
    (skipped : List Text) (found skips : List Skip)
    → Distinct (skipped ++ ids found)
    → Distinct (skipped ++ ids (gather skipped found skips))
unfolding gather
gather-Distinct skipped found [] h = h
gather-Distinct skipped found (skip ∷ skips) h = elim (Bool-cases (is_known skipped found skip.0)) [
  | inl old ↦ rw old (gather-Distinct skipped found skips h)
  | inr new ↦ rw new (
      gather-Distinct skipped (found ++ skip ∷ []) skips (
        rw (ids-snoc skipped found skip) (
          Distinct-snoc (skipped ++ ids found) skip.0 h
            (contains-append skipped (ids found) skip.0 ∙ new))))
]

pub or_right : (a : Bool) {b : Bool} → b ≡ true → (a || b) ≡ true
or_right true h = refl
or_right false h = h

pub known_ids :
    (skips : List Skip) (k : List Text)
    → ((x : Text) → contains (ids skips) x ≡ true → contains k x ≡ true)
    → All (λ skip. contains k skip.0 ≡ true) skips
known_ids [] k h = tt
known_ids (skip ∷ skips) k h = (
  h skip.0 (rw (contains-cons skip.0 skip.0 (ids skips), beq_refl skip.0) refl),
  known_ids skips k (λ x e. h x (contains-cons x skip.0 (ids skips) ∙ or_right (x == skip.0) e)),
)
