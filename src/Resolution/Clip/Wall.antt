-- ===== src/Resolution/Clip/Wall.antt =====
-- engine/resolution.py: the state that is sent fits the wall, and the manifest claims what was sent.
use gitreins.Prelude.{
  ℕ, ◌≤◌, ◌<◌, ◌≡◌, refl, sym, subst, ◌⊎◌, inl, inr, Bool, true, List, [], ◌∷◌, keep, All, contains,
  if_ind, is_empty, ltb, length, arith, text_eq,
}
use gitreins.Prelude.Text.{Text}
use gitreins.EvidenceBounds.Bound.Keeps.{bound_step_evidence-Bounded}
use gitreins.Resolution.Value.{Real}
use gitreins.Resolution.Bands.{ManifestEntry}
use gitreins.Resolution.Verdict.{AssembledBundle}
use gitreins.Resolution.Clip.{
  Platform, jev_hard_wall_tokens, is_sent, reconcile, worst_case_tokens, wall_chars, sent_headers,
  exclude, tokens_of, clip_to, clip_state,
}

keep-All : {A : Type 0} (test : A → Bool) (xs : List A) → All (λ x. test x ≡ true) (keep test xs)
keep-All test [] = tt
keep-All {A} test (x ∷ xs) =
    if_ind (All (λ (y : A). test y ≡ true)) (test x) (λ h. (h, keep-All test xs))
      (λ h. keep-All test xs)

module _ (real : Real) (p : Platform real.F) where
  open real use {F}

  -- A state that is sent with its bundle: within the wall, and when it was clipped the bundle says
  -- so, and every file of the manifest has its header in the state, unless no header is there.
  pub record IsWithin (before : Text) (sent : Text × AssembledBundle F) : Type 0 where
    pub wall : worst_case_tokens real sent.0 ≤ jev_hard_wall_tokens
    pub whole : worst_case_tokens real before ≤ jev_hard_wall_tokens → sent.0 ≡ before
    pub clipped :
        jev_hard_wall_tokens < worst_case_tokens real before
        → (sent.1.clipped ≡ true)
          × ((is_empty (sent_headers real p sent.0) ≡ true)
              ⊎ All
                  (λ (e : ManifestEntry F). contains (sent_headers real p sent.0) e.file ≡ true)
                  sent.1.manifest)

  reconcile-Sent :
      (sent : List Text) (manifest : List (ManifestEntry F))
      → (is_empty sent ≡ true)
        ⊎ All (λ (e : ManifestEntry F). contains sent e.file ≡ true) (reconcile sent manifest).0
  unfolding reconcile is_sent
  reconcile-Sent [] manifest = inl refl
  reconcile-Sent (file ∷ sent) manifest = inr (keep-All (is_sent (file ∷ sent)) manifest)

  exclude-manifest :
      (excluded : List Text) (b : AssembledBundle F)
      → (exclude real p excluded b).manifest ≡ b.manifest
  exclude-manifest [] b = refl
  exclude-manifest (file ∷ excluded) b = refl

  exclude-clipped :
      (excluded : List Text) (b : AssembledBundle F)
      → (exclude real p excluded b).clipped ≡ b.clipped
  exclude-clipped [] b = refl
  exclude-clipped (file ∷ excluded) b = refl

  clip_to-clipped :
      (state : Text) (before : ℕ) (b : AssembledBundle F)
      → ((clip_to real p state before b).1.clipped ≡ true)
        × ((is_empty (sent_headers real p state) ≡ true)
            ⊎ All
                (λ (e : ManifestEntry F). contains (sent_headers real p state) e.file ≡ true)
                (clip_to real p state before b).1.manifest)
  clip_to-clipped state before b = (
    exclude-clipped (reconcile (sent_headers real p state) b.manifest).1 _,
    subst
        (λ (m : List (ManifestEntry F)).
          (is_empty (sent_headers real p state) ≡ true)
          ⊎ All (λ (e : ManifestEntry F). contains (sent_headers real p state) e.file ≡ true) m)
        (sym (exclude-manifest (reconcile (sent_headers real p state) b.manifest).1 _))
        (reconcile-Sent (sent_headers real p state) b.manifest),
  )

  worst_case_tokens-le :
      ((n : ℕ) → n ≤ wall_chars real → tokens_of real n ≤ jev_hard_wall_tokens)
      → (t : Text) → length t ≤ wall_chars real
      → worst_case_tokens real t ≤ jev_hard_wall_tokens
  unfolding worst_case_tokens
  worst_case_tokens-le dense t h =
      if_ind (λ n. n ≤ jev_hard_wall_tokens) (is_empty t) (λ _. omega arith)
        (λ _. dense (length t) h)

  -- When lengths up to `wall_chars` (33000 * 1.39, truncated) divide by 1.39 to no more than 33000,
  -- rounded up, the state that is sent costs no more than the wall. A state within the wall is sent as it is; a longer one is clipped, the bundle
  -- then says that it is, and each file left in its manifest has its header among the lines that
  -- are sent, unless those hold no header at all.
  pub clip_state-IsWithin :
      ((n : ℕ) → n ≤ wall_chars real → tokens_of real n ≤ jev_hard_wall_tokens)
      → (state : Text) (b : AssembledBundle F) → IsWithin state (clip_state real p state b)
  unfolding clip_state
  clip_state-IsWithin dense state b =
      if_ind (IsWithin state) (ltb jev_hard_wall_tokens (worst_case_tokens real state))
        (λ over. record {
          wall =
              worst_case_tokens-le dense _
                (bound_step_evidence-Bounded p.unicode state (wall_chars real)).within;
          whole = λ h. ground arith;
          clipped = λ h. clip_to-clipped _ (length state) b;
        })
        (λ within. record { wall = ground arith; whole = λ h. refl; clipped = λ h. ground arith })
