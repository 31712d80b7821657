-- ===== src/Gate/Coverage/Complete.antt =====
-- A verdict that grades the criteria in their order passes; the note names every shortfall.
use gitreins.Prelude.{
  ℕ, zero, suc, ◌+◌, ◌<◌, ◌≡◌, refl, sym, Bool, true, false, List, [], ◌∷◌, ◌++◌,
}
use gitreins.Prelude.{subst, some, ◌↔◌, ◌≢◌, arith, ◌==◌, text_eq, nat_eq, ltb}
use gitreins.Prelude.{contains, length, is_empty, beq_refl}
use gitreins.Prelude.Text.{Text, codes}
use gitreins.Gate.Value.{Value, Runtime}
use gitreins.Gate.Coverage.{
  Coverage, Tally, fresh, item_at, norm, criterion_of, status_of, first_unused, find_match, settle,
  grade, grade_all, verdict_items, verdict_outcome, wanted, check_coverage, complete,
  verdict_is_passing, ungraded_note,
}

-- The used indexes are those below `n`.
UsesBelow : ℕ → List ℕ → Type 0
UsesBelow n used = (j : ℕ) → contains used j ≡ ltb j n

UsesBelow-cons : (n : ℕ) (used : List ℕ) → UsesBelow n used → UsesBelow (n + 1) (n ∷ used)
unfolding UsesBelow contains
UsesBelow-cons n used h j = ground (arith, h j)

UsesBelow-nil : UsesBelow 0 []
unfolding UsesBelow contains
UsesBelow-nil j = ground arith

module _ (py : Runtime) where
  first_unused-at :
      (test : Text → Bool) (used : List ℕ) (k : ℕ) (items : List Value) (m : ℕ)
      → m < length items
      → ((j : ℕ) → j < m → contains used (k + j) ≡ true)
      → contains used (k + m) ≡ false
      → test (norm py (criterion_of py (item_at items m))) ≡ true
      → first_unused py test used k items ≡ some (k + m)
  unfolding first_unused item_at
  first_unused-at test used k [] m lt before here good = absurd (omega arith)
  first_unused-at test used k (item ∷ items) zero lt before here good =
      let e : k + 0 ≡ k = omega arith in let free = rw e at here in rw (free, good) (ground arith)
  first_unused-at test used k (item ∷ items) (suc m) lt before here good =
      let e : k + 0 ≡ k = omega arith in
      let taken = rw e at (before 0 (omega arith)) in
      let shift : (j : ℕ) → k + suc j ≡ (k + 1) + j = λ j. omega arith in
      rw (taken, shift m)
        (first_unused-at test used (k + 1) items m (omega arith)
          (λ j lt'. rw (← shift j) (before (suc j) (omega arith))) (rw (← shift m) here) good)

  -- From item `n` on, the items grade the criteria in turn, all with PASS.
  abbrev pub InOrder : List Value → ℕ → List Text → Type 0
  InOrder items n [] = Unit
  InOrder items n (c ∷ cs) =
      (n < length items)
      × (norm py (criterion_of py (item_at items n)) ≡ norm py c)
      × (status_of py (item_at items n) ≡ codes "PASS")
      × InOrder items (n + 1) cs

  find_match-at :
      (needle : Text) (used : List ℕ) (items : List Value) (n : ℕ)
      → UsesBelow n used
      → n < length items
      → norm py (criterion_of py (item_at items n)) ≡ needle
      → find_match py needle used items ≡ some n
  unfolding find_match UsesBelow
  find_match-at needle used items n h lt same =
      let hit : first_unused py (λ g. g == needle) used 0 items ≡ some (0 + n) =
        first_unused-at (λ g. g == needle) used 0 items n lt (λ j below. ground (arith, h j))
          (ground (arith, h n)) (rw same (beq_refl needle)) in
      let e : 0 + n ≡ n = omega arith in rw (hit, e)

  settle-pass :
      (items : List Value) (t : Tally) (c : Text) (n : ℕ)
      → status_of py (item_at items n) ≡ codes "PASS"
      → settle py items t c (some n) ≡ record t { used = n ∷ t.used; graded = t.graded ++ c ∷ [] }
  unfolding settle
  settle-pass items t c n pass =
      let passes : (status_of py (item_at items n) == codes "PASS") ≡ true =
        rw pass (beq_refl (codes "PASS")) in
      rw passes

  grade-at :
      (items : List Value) (t : Tally) (c : Text) (n : ℕ)
      → UsesBelow n t.used
      → n < length items
      → norm py (criterion_of py (item_at items n)) ≡ norm py c
      → status_of py (item_at items n) ≡ codes "PASS"
      → grade py items t c ≡ record t { used = n ∷ t.used; graded = t.graded ++ c ∷ [] }
  unfolding grade
  grade-at items t c n h lt same pass =
      rw (find_match-at (norm py c) t.used items n h lt same) (settle-pass items t c n pass)

  grade_all-IsClean :
      (items : List Value) (cs : List Text) (t : Tally) (n : ℕ)
      → UsesBelow n t.used
      → t.ungraded ≡ []
      → t.failing ≡ []
      → InOrder items n cs
      → ((grade_all py items t cs).ungraded ≡ []) × ((grade_all py items t cs).failing ≡ [])
  unfolding grade_all
  grade_all-IsClean items [] t n h u f ok = (u, f)
  grade_all-IsClean items (c ∷ cs) t n h u f (lt, same, pass, ok) =
      subst
        (λ s. ((grade_all py items s cs).ungraded ≡ []) × ((grade_all py items s cs).failing ≡ []))
        (sym (grade-at items t c n h lt same pass))
        (grade_all-IsClean items cs (record t { used = n ∷ t.used; graded = t.graded ++ c ∷ [] })
          (n + 1) (UsesBelow-cons n t.used h) u f ok)

is_empty-false {ℓ} : {A : Type ℓ} (xs : List A) → xs ≢ [] → is_empty xs ≡ false
is_empty-false [] h = absurd (h refl)
is_empty-false (x ∷ xs) h = refl

is_empty-false_of_lt {ℓ} : {A : Type ℓ} (xs : List A) (n : ℕ) → n < length xs → is_empty xs ≡ false
is_empty-false_of_lt [] n h = absurd (omega arith)
is_empty-false_of_lt (x ∷ xs) n h = refl

InOrder-items :
    (py : Runtime) (items : List Value) (cs : List Text)
    → cs ≢ []
    → InOrder py items 0 cs
    → is_empty items ≡ false
InOrder-items py items [] h ok = absurd (h refl)
InOrder-items py items (c ∷ cs) h ok = is_empty-false_of_lt items 0 ok.0

-- A COMPLETE verdict passes when there is something to grade and its items grade the criteria in
-- their order, each with the same text up to white space and case, and with PASS.
pub verdict_is_passing_of_InOrder :
    (py : Runtime) (verdict : Value) (criteria : List Text)
    → verdict_outcome py verdict ≡ codes "COMPLETE"
    → wanted py criteria ≢ []
    → InOrder py (verdict_items verdict) 0 (wanted py criteria)
    → verdict_is_passing py verdict criteria ≡ true
unfolding verdict_is_passing check_coverage
verdict_is_passing_of_InOrder py verdict criteria outcome some_wanted ok =
    let (u, f) =
      grade_all-IsClean py (verdict_items verdict) (wanted py criteria) fresh 0 UsesBelow-nil refl
        refl ok in
    let word : (verdict_outcome py verdict == codes "COMPLETE") ≡ true =
      rw outcome (beq_refl (codes "COMPLETE")) in
    rw (
      word,
      InOrder-items py (verdict_items verdict) (wanted py criteria) some_wanted ok,
      is_empty-false (wanted py criteria) some_wanted,
      u,
      f,
    )

-- The note is empty exactly when the coverage is complete.
pub ungraded_note-eq-nil_iff : (c : Coverage) → (ungraded_note c ≡ []) ↔ (complete c ≡ true)
unfolding ungraded_note
ungraded_note-eq-nil_iff c = ground arith
