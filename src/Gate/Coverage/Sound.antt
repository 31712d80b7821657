-- ===== src/Gate/Coverage/Sound.antt =====
-- A passing verdict grades every criterion by an item of its own, whose status is PASS.
use gitreins.Prelude.{
  ℕ, zero, suc, ◌+◌, ◌≤◌, ◌<◌, ◌≡◌, refl, Bool, true, false, not, ◌&&◌, ◌||◌, List, [], ◌∷◌,
}
use gitreins.Prelude.{Option, none, some, arith, Bool-cases, Option-cases, inl, inr, ◌==◌, text_eq}
use gitreins.Prelude.{text_beq_iff, contains, length, nat_eq, is_empty}
use gitreins.Prelude.{if◌then◌else◌, ◌≢◌, snoc≢nil}
use native.Mathlib.Decide.{dec_lt}
use gitreins.Prelude.Text.{Text, codes}
use gitreins.Gate.Value.{Value, Runtime}
use gitreins.Gate.Coverage.{
  matches, Tally, settle, fresh, item_at, norm, criterion_of, status_of, first_unused, find_match,
  grade, grade_all, verdict_items, wanted, Coverage, check_coverage, complete, verdict_is_passing,
  verdict_outcome,
}

matches_of_eq : (g needle : Text) → (g == needle) ≡ true → matches needle g ≡ true
unfolding matches
matches_of_eq g needle h = ground (arith, text_beq_iff g needle, text_beq_iff needle g)

module _ (py : Runtime) where
  abbrev graded_text : Value → Text
  graded_text item = norm py (criterion_of py item)

  -- What a hit of the inner loop says of the item.
  first_unused-some :
      (test : Text → Bool) (used : List ℕ) (k : ℕ) (items : List Value) (i : ℕ)
      → first_unused py test used k items ≡ some i
      → (j : ℕ) × (i ≡ k + j)
        × (j < length items)
        × (contains used i ≡ false)
        × (test (graded_text (item_at items j)) ≡ true)
  unfolding first_unused item_at
  first_unused-some test used k [] i h = cc
  first_unused-some test used k (item ∷ items) i h =
      elim (Bool-cases (not (contains used k) && test (graded_text item))) [
        | inl hit ↦
            let e : k ≡ i = ground arith in
            (0, omega arith, omega arith, rw (← e) (ground arith), ground arith)
        | inr miss ↦
            let (j, e, lt, free, good) =
              first_unused-some test used (k + 1) items i (rw miss at h) in
            (suc j, omega arith, omega arith, free, good)
      ]

  -- What a hit of the search says, whichever of its two loops made it.
  record IsFit (used : List ℕ) (items : List Value) (needle : Text) (i : ℕ) : Type 0 where
    in_range : i < length items
    free : contains used i ≡ false
    fits : matches needle (graded_text (item_at items i)) ≡ true

  find_match-some :
      (needle : Text) (used : List ℕ) (items : List Value) (i : ℕ)
      → find_match py needle used items ≡ some i
      → IsFit used items needle i
  unfolding find_match
  find_match-some needle used items i h =
      elim (Option-cases (first_unused py (λ g. g == needle) used 0 items)) [
        | inl none_exact ↦
            let (j, e, lt, free, good) =
              first_unused-some (matches needle) used 0 items i (rw none_exact at h) in
            let same : j ≡ i = omega arith in
            record { in_range = omega arith; free = free; fits = rw same at good }
        | inr (i', exact) ↦
            let here : i' ≡ i = ground arith in
            let (j, e, lt, free, good) =
              first_unused-some (λ g. g == needle) used 0 items i' exact in
            let same : j ≡ i = omega arith in
            record {
              in_range = omega arith;
              free = rw here at free;
              fits = rw same at (matches_of_eq _ needle good);
            }
      ]

  -- Item `i` grades the criterion `c` with PASS.
  pub record IsPass (items : List Value) (c : Text) (i : ℕ) : Type 0 where
    pub in_range : i < length items
    pub fits : matches (norm py c) (graded_text (item_at items i)) ≡ true
    pub passed : status_of py (item_at items i) ≡ codes "PASS"

  -- The criteria are graded in turn by the items at `is`, no two by one item and none by a used one.
  abbrev pub AllPass : List Value → List Text → List ℕ → List ℕ → Type 0
  AllPass items [] [] used = Unit
  AllPass items (c ∷ cs) (i ∷ is) used =
      (contains used i ≡ false) × IsPass items c i × AllPass items cs is (i ∷ used)
  AllPass items _ _ used = ⊥

  module _ (items : List Value) where
    abbrev IsClean : Tally → Type 0
    IsClean t = (t.ungraded ≡ []) × (t.failing ≡ [])

    -- A tally that is clean after a round was clean before, and the round found a passing item.
    settle-IsClean :
        (t : Tally) (c : Text) (o : Option ℕ)
        → IsClean (settle py items t c o)
        → (i : ℕ) × (o ≡ some i)
          × (status_of py (item_at items i) ≡ codes "PASS")
          × IsClean t
          × ((settle py items t c o).used ≡ i ∷ t.used)
    unfolding settle
    settle-IsClean t c none h = absurd (snoc≢nil t.ungraded c h.0)
    settle-IsClean t c (some i) h =
        elim (Bool-cases (status_of py (item_at items i) == codes "PASS")) [
          | inl pass ↦ (i, refl, (text_beq_iff _ _).0 pass, (h.0, rw pass at h.1), refl)
          | inr fail ↦ absurd (snoc≢nil t.failing c (rw fail at h.1))
        ]

    grade-IsClean :
        (t : Tally) (c : Text)
        → IsClean (grade py items t c)
        → (i : ℕ) × (contains t.used i ≡ false)
          × IsPass items c i
          × IsClean t
          × ((grade py items t c).used ≡ i ∷ t.used)
    unfolding grade
    grade-IsClean t c h =
        let (i, found, passed, clean, used) = settle-IsClean t c _ h in
        let fit = find_match-some (norm py c) t.used items i found in
        (
          i,
          fit.free,
          record { in_range = fit.in_range; fits = fit.fits; passed = passed },
          clean,
          used,
        )

    -- The rounds that end clean give each criterion an item of its own.
    grade_all-AllPass :
        (cs : List Text) (t : Tally)
        → IsClean (grade_all py items t cs)
        → (is : List ℕ) × AllPass items cs is t.used × IsClean t
    unfolding grade_all
    grade_all-AllPass [] t h = ([], tt, h)
    grade_all-AllPass (c ∷ cs) t h =
        let (is, rest, clean_after) = grade_all-AllPass cs (grade py items t c) h in
        let (i, free, pass, clean, used) = grade-IsClean t c clean_after in
        (i ∷ is, (free, pass, rw used at rest), clean)

is_empty-nil {ℓ} : {A : Type ℓ} (xs : List A) → is_empty xs ≡ true → xs ≡ []
is_empty-nil [] h = refl
is_empty-nil (x ∷ xs) h = cc

pub complete-parts :
    (c : Coverage) → complete c ≡ true → (c.criteria ≢ []) × (c.ungraded ≡ []) × (c.failing ≡ [])
unfolding complete
complete-parts c h = ground (arith, is_empty-nil c.ungraded, is_empty-nil c.failing)

pub verdict_is_passing-parts :
    (py : Runtime) (verdict : Value) (criteria : List Text)
    → verdict_is_passing py verdict criteria ≡ true
    → ((verdict_outcome py verdict == codes "COMPLETE") ≡ true)
      × (complete (check_coverage py verdict criteria) ≡ true)
unfolding verdict_is_passing
verdict_is_passing-parts py verdict criteria h = ground arith

-- When a verdict passes, its own word is COMPLETE, there is a criterion to grade, and the criteria
-- are graded one by one by distinct items of the verdict: each item's text fits its criterion, and
-- its status is PASS.
pub verdict_is_passing-AllPass :
    (py : Runtime) (verdict : Value) (criteria : List Text)
    → verdict_is_passing py verdict criteria ≡ true
    → (verdict_outcome py verdict ≡ codes "COMPLETE")
      × (wanted py criteria ≢ [])
      × (is : List ℕ) × AllPass py (verdict_items verdict) (wanted py criteria) is []
unfolding check_coverage
verdict_is_passing-AllPass py verdict criteria h =
    let (outcome, covered) = verdict_is_passing-parts py verdict criteria h in
    let (some_wanted, ungraded, failing) = complete-parts _ covered in
    let (is, all, _) =
      grade_all-AllPass py (verdict_items verdict) (wanted py criteria) fresh (ungraded, failing) in
    ((text_beq_iff _ _).0 outcome, some_wanted, is, all)

-- How many of the first `n` indexes are unused.
room : List ℕ → ℕ → ℕ
room used zero = 0
room used (suc n) = if contains used n then room used n else suc (room used n)

contains-cons : (used : List ℕ) (i n : ℕ) → contains (i ∷ used) n ≡ (n == i || contains used n)
unfolding contains
contains-cons used i n = refl

room-le : (used : List ℕ) (n : ℕ) → room used n ≤ n
unfolding room
room-le used zero = omega arith
room-le used (suc n) = ground (arith, room-le used n)

-- A new index takes one place, or none when it lies beyond.
room-cons_beyond : (used : List ℕ) (i n : ℕ) → n ≤ i → room (i ∷ used) n ≡ room used n
unfolding room contains
room-cons_beyond used i zero h = refl
room-cons_beyond used i (suc n) h = ground (arith, room-cons_beyond used i n)

room-cons :
    (used : List ℕ) (i n : ℕ)
    → i < n
    → contains used i ≡ false
    → room used n ≡ suc (room (i ∷ used) n)
unfolding room
room-cons used i zero h free = absurd (omega arith)
room-cons used i (suc n) h free = elim (dec_lt i n) [
  | yes lt ↦ ground (arith, room-cons used i n lt free, contains-cons used i n)
  | no ge ↦ ground (arith, room-cons_beyond used i n, contains-cons used i n)
]

module _ (py : Runtime) (items : List Value) where
  AllPass-length :
      (cs : List Text) (is used : List ℕ)
      → AllPass py items cs is used
      → length cs ≤ room used (length items)
  AllPass-length [] is used h = omega arith
  AllPass-length (c ∷ cs) (i ∷ is) used (free, pass, rest) =
      let more = AllPass-length cs is (i ∷ used) rest in
      omega (arith, room-cons used i (length items) pass.in_range free)
  AllPass-length (c ∷ cs) [] used h = absurd h

-- A verdict with fewer items than criteria does not pass.
pub verdict_is_passing-length :
    (py : Runtime) (verdict : Value) (criteria : List Text)
    → verdict_is_passing py verdict criteria ≡ true
    → (0 < length (wanted py criteria))
      × (length (wanted py criteria) ≤ length (verdict_items verdict))
verdict_is_passing-length py verdict criteria h =
    let (_, some_wanted, is, all) = verdict_is_passing-AllPass py verdict criteria h in
    (
      ground arith,
      omega (
        arith,
        AllPass-length py (verdict_items verdict) _ is [] all,
        room-le [] (length (verdict_items verdict)),
      ),
    )
