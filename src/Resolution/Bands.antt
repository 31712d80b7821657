-- ===== src/Resolution/Bands.antt =====
-- engine/resolution.py, the bands of a probability and the evidence floor under RESOLVED.
pub mod Grounded
use gitreins.Prelude.{
  ℕ, ◌≡◌, ◌≢◌, refl, sym, ap, ◌∙◌, ◌↔◌, Bool, true, false, not, ◌&&◌, ◌||◌, List, [], ◌∷◌, Option,
  none, some,
}
use gitreins.Prelude.{
  String, if◌then◌else◌, ◌==◌, string_eq, text_eq, leb, is_empty, any, arith, if_ind, Bool-cases,
  inl, inr, and_true,
}
use gitreins.Prelude.Text.{Text, codes}
use gitreins.Prelude.Int.{ℤ, pos, negsuc, leb_int}
use gitreins.Resolution.Value.{Real}

pub data Band : Type 0 where
  resolved : Band
  review : Band
  unresolved : Band
  abstain : Band

pub record ManifestEntry (F : Type 0) : Type 0 where
  pub file : Text
  pub provenance : Text
  pub score : Option F
  pub bytes : ℕ
  pub truncated : Bool
  pub source : String
  pub lines : ℕ

module _ (real : Real) where
  open real use {F, decimal, finite, at_least}

  -- `band_for`
  unfoldable pub band_for : Option F → F → F → Band
  band_for none resolved_at review_at = abstain
  band_for (some x) resolved_at review_at =
      if not (finite x)
      then abstain
      else if at_least x resolved_at
      then resolved
      else if at_least x review_at
      then review
      else unresolved

  abbrev reaches : Option F → Bool
  reaches none = false
  reaches (some x) = at_least x (decimal 80 2)

  -- The test of an entry in `effective_band_for`.
  unfoldable pub is_strong : ManifestEntry F → Bool
  is_strong e =
      (e.provenance == codes "ast_exact" || e.provenance == codes "bounded-read") && reaches e.score

  abbrev pub top_quality : Option ℤ → Bool
  top_quality none = false
  top_quality (some q) = leb_int (pos 3) q

  unfoldable pub sufficient : Option ℤ → List (ManifestEntry F) → Bool → Bool → Bool
  unfolding is_strong leb_int
  sufficient quality manifest clipped budget_exhausted =
      top_quality quality
      && not (is_empty manifest)
      && not clipped
      && not budget_exhausted
      && any is_strong manifest

  abbrev pub floored : Bool → Band → Band
  floored enough resolved = if enough then resolved else review
  floored enough band = band

  -- `effective_band_for`
  unfoldable pub effective_band_for :
      Option F → Option ℤ → List (ManifestEntry F) → Bool → Bool → F → F → Band
  unfolding sufficient
  effective_band_for probability quality manifest clipped budget_exhausted resolved_at review_at =
      floored (sufficient quality manifest clipped budget_exhausted)
        (band_for probability resolved_at review_at)
