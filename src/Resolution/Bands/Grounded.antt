-- ===== src/Resolution/Bands/Grounded.antt =====
-- engine/resolution.py: when a question counts as resolved before dispatch.
use gitreins.Prelude.{◌≡◌, refl, ◌↔◌, Bool, true, false, List, [], ◌∷◌, Option, none, some}
use gitreins.Prelude.{
  is_empty, any, arith, ◌⊎◌, inl, inr, ◌||◌, ◌==◌, text_eq, text_beq, Bool-cases,
}
use gitreins.Prelude.Text.{codes}
use gitreins.Prelude.Slices.{Any}
use gitreins.Prelude.Int.{ℤ, pos, leb_int}
use gitreins.Resolution.Value.{Real}
use gitreins.Resolution.Bands.{
  Band, resolved, review, unresolved, abstain, ManifestEntry, band_for, reaches, is_strong,
  sufficient, top_quality, floored, effective_band_for,
}

abstain_absurd : abstain ≡ resolved → ⊥
abstain_absurd h = cc

module _ (real : Real) where
  open real use {F, decimal, finite, at_least}

  -- A shipped entry of recognized provenance that scores 0.80 or more.
  abbrev pub IsStrong : ManifestEntry F → Type 0
  IsStrong e =
      ((e.provenance ≡ codes "ast_exact") ⊎ (e.provenance ≡ codes "bounded-read"))
      × ((score : F) × (e.score ≡ some score) × (at_least score (decimal 80 2) ≡ true))

  reaches-score :
      (o : Option F)
      → reaches real o ≡ true
      → (score : F) × (o ≡ some score) × (at_least score (decimal 80 2) ≡ true)
  reaches-score none h = cc h
  reaches-score (some score) h = (score, refl, h)

  reaches_of :
      (o : Option F) (score : F)
      → o ≡ some score
      → at_least score (decimal 80 2) ≡ true
      → reaches real o ≡ true
  reaches_of o score e h = rw e h

  is_strong-IsStrong : (e : ManifestEntry F) → is_strong real e ≡ true → IsStrong e
  unfolding is_strong
  is_strong-IsStrong e h =
      let both : ((e.provenance == codes "ast_exact" || e.provenance == codes "bounded-read")
            ≡ true)
          × (reaches real e.score ≡ true) =
        (ground arith, ground arith) in
      (
        elim (Bool-cases (e.provenance == codes "ast_exact")) [
          | inl exact ↦ inl ((text_eq.equals_iff e.provenance (codes "ast_exact")).0 exact)
          | inr other ↦
              inr ((text_eq.equals_iff e.provenance (codes "bounded-read")).0 (rw other at both.0))
        ],
        reaches-score e.score both.1,
      )

  is_strong_of : (e : ManifestEntry F) → IsStrong e → is_strong real e ≡ true
  unfolding is_strong text_beq
  is_strong_of e (inl exact, (score, is, enough)) =
      rw (exact, reaches_of e.score score is enough) refl
  is_strong_of e (inr read, (score, is, enough)) =
      rw (read, reaches_of e.score score is enough) refl

  any-Any : (es : List (ManifestEntry F)) → any (is_strong real) es ≡ true → Any IsStrong es
  any-Any [] h = cc h
  any-Any (e ∷ es) h = elim (Bool-cases (is_strong real e)) [
    | inl strong ↦ inl (is_strong-IsStrong e strong)
    | inr weak ↦ inr (any-Any es (rw weak at h))
  ]

  Any-any : (es : List (ManifestEntry F)) → Any IsStrong es → any (is_strong real) es ≡ true
  Any-any [] h = absurd h
  Any-any (e ∷ es) (inl strong) = rw (is_strong_of e strong) refl
  Any-any (e ∷ es) (inr later) = let rest = Any-any es later in ground arith

  -- What lets a question count as resolved before dispatch.
  pub record IsGrounded (probability : Option F) (quality : Option ℤ)
      (manifest : List (ManifestEntry F)) (clipped budget_exhausted : Bool) (resolved_at : F)
      : Type 0 where
    pub likely :
        (x : F) × (probability ≡ some x) × (finite x ≡ true) × (at_least x resolved_at ≡ true)
    pub quality_top : (q : ℤ) × (quality ≡ some q) × (leb_int (pos 3) q ≡ true)
    pub strong : Any IsStrong manifest
    pub whole : clipped ≡ false
    pub roomy : budget_exhausted ≡ false

  band_for-resolved :
      (probability : Option F) (resolved_at review_at : F)
      → band_for real probability resolved_at review_at ≡ resolved
      → (x : F) × (probability ≡ some x) × (finite x ≡ true) × (at_least x resolved_at ≡ true)
  unfolding band_for
  band_for-resolved none resolved_at review_at h = absurd (abstain_absurd h)
  band_for-resolved (some x) resolved_at review_at h = (x, refl, ground arith, ground arith)

  resolved-band_for :
      (x resolved_at review_at : F)
      → finite x ≡ true
      → at_least x resolved_at ≡ true
      → band_for real (some x) resolved_at review_at ≡ resolved
  unfolding band_for
  resolved-band_for x resolved_at review_at f h = rw (f, h) refl

  floored-resolved :
      (enough : Bool) (band : Band)
      → floored real enough band ≡ resolved
      → (enough ≡ true) × (band ≡ resolved)
  floored-resolved enough resolved h = (ground arith, refl)
  floored-resolved enough review h = cc
  floored-resolved enough unresolved h = cc
  floored-resolved enough abstain h = cc

  top :
      (q : Option ℤ)
      → top_quality real q ≡ true
      → (n : ℤ) × (q ≡ some n) × (leb_int (pos 3) n ≡ true)
  top none h = cc
  top (some n) h = (n, refl, h)

  any-is_empty : {A : Type 0} (p : A → Bool) (xs : List A) → any p xs ≡ true → is_empty xs ≡ false
  any-is_empty p [] h = cc
  any-is_empty p (x ∷ xs) h = refl

  module _ (probability : Option F) (quality : Option ℤ) (manifest : List (ManifestEntry F))
      (clipped budget_exhausted : Bool) (resolved_at review_at : F) where
    grounded :
        effective_band_for real probability quality manifest clipped budget_exhausted resolved_at
            review_at
          ≡ resolved
        → IsGrounded probability quality manifest clipped budget_exhausted resolved_at
    unfolding effective_band_for sufficient
    grounded h =
        let (enough, band) =
          floored-resolved (sufficient real quality manifest clipped budget_exhausted)
            (band_for real probability resolved_at review_at) h in
        record {
          likely = band_for-resolved probability resolved_at review_at band;
          quality_top = top quality (ground arith);
          strong = any-Any manifest (ground arith);
          whole = ground arith;
          roomy = ground arith;
        }

    resolves :
        IsGrounded probability quality manifest clipped budget_exhausted resolved_at
        → effective_band_for real probability quality manifest clipped budget_exhausted resolved_at
            review_at
          ≡ resolved
    unfolding effective_band_for sufficient
    resolves g =
        let (x, p, f, a) = g.likely in
        let (q, e, t) = g.quality_top in
        rw
          (
            p,
            resolved-band_for x resolved_at review_at f a,
            e,
            t,
            any-is_empty (is_strong real) manifest (Any-any manifest g.strong),
            g.whole,
            g.roomy,
            Any-any manifest g.strong,
          )
          refl

    -- The production band is RESOLVED exactly when the probability is finite and reaches its
    -- threshold, the evidence rubric is at its third position or above, a shipped entry of recognized
    -- provenance scores 0.80 or more, and the evidence is neither clipped nor out of budget.
    pub effective_band_for-resolved_iff :
        (effective_band_for real probability quality manifest clipped budget_exhausted resolved_at
            review_at
          ≡ resolved)
        ↔ IsGrounded probability quality manifest clipped budget_exhausted resolved_at
    effective_band_for-resolved_iff = (grounded, resolves)
