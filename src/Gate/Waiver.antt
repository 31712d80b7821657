-- ===== src/Gate/Waiver.antt =====
-- engine/gate.py, the owner's waiver of a Tier 2 run. SHA-256 is a parameter, as are the value of
-- the environment variable and the configuration file that was read (`none` when reading failed).
use gitreins.Prelude.{Bool, true, false, Option, none, some, if◌then◌else◌, ◌==◌}
use gitreins.Prelude.{text_eq, text_beq_iff, is_empty, ◌≡◌, refl, ◌↔◌, arith, [], ◌≢◌}
use gitreins.Prelude.{Bool-cases, inl, inr, ◌∷◌, ap, beq_refl}
use gitreins.Prelude.Text.{Text, strip}
use gitreins.Gate.Value.{Value, null, str, dict, Runtime, get_field, is_null}

abbrev some_text : Text → Option Text
some_text t = if is_empty t then none else some t

-- `str(value)` of a configured token that is present.
token_text : Runtime → Value → Text
token_text py (str s) = s
token_text py v = py.show v

section_of : Value → Value
unfolding get_field
section_of (dict fs) = get_field (dict fs) "gate" null
section_of _ = null

waiver_of : Value → Value
unfolding get_field
waiver_of (dict fs) = get_field (dict fs) "tier2_waiver" null
waiver_of _ = null

-- `value if isinstance(value, str) and value else None`
digest_text : Value → Option Text
digest_text (str s) = some_text s
digest_text _ = none

-- `recorded_waiver_digest`
unfoldable pub recorded_waiver_digest : Value → Option Text
unfolding digest_text
recorded_waiver_digest verdict = digest_text (get_field verdict "tier2_waiver_digest" null)

digest_text-some : (v : Value) (t : Text) → digest_text v ≡ some t → (v ≡ str t) × (t ≢ [])
unfolding digest_text
digest_text-some (str s) t h = ground arith
digest_text-some v t h = cc

some-digest_text : (t : Text) → t ≢ [] → digest_text (str t) ≡ some t
unfolding digest_text
some-digest_text [] h = absurd (h refl)
some-digest_text (c ∷ t) h = refl

module _ (py : Runtime) (sha256 : Text → Text) where
  file_waiver : Option Value → Option Text
  unfolding section_of waiver_of token_text
  file_waiver none = none
  file_waiver (some raw) =
      let value = waiver_of (section_of raw) in
      if is_null value then none else some_text (strip py.unicode (token_text py value))

  -- `configured_waiver`
  unfoldable pub configured_waiver : Text → Option Value → Option Text
  unfolding file_waiver
  configured_waiver env raw =
      if is_empty (strip py.unicode env) then file_waiver raw else some (strip py.unicode env)

  digests_agree : Option Text → Option Text → Bool
  digests_agree (some recorded) (some token) = recorded == sha256 token
  digests_agree _ _ = false

  -- `waiver_satisfied`; `hmac.compare_digest` is equality of the two digests. On a recorded digest
  -- that is not ASCII it raises `TypeError`, where this is false.
  unfoldable pub waiver_satisfied : Value → Text → Option Value → Bool
  unfolding digests_agree
  waiver_satisfied verdict env raw =
      digests_agree (recorded_waiver_digest verdict) (configured_waiver env raw)

  file_waiver-ne_nil : (raw : Option Value) {t : Text} → file_waiver raw ≡ some t → t ≢ []
  unfolding file_waiver
  file_waiver-ne_nil none h = cc
  file_waiver-ne_nil (some raw) h = ground arith

  configured_waiver-ne_nil :
      (env : Text) (raw : Option Value) {t : Text} → configured_waiver env raw ≡ some t → t ≢ []
  unfolding configured_waiver
  configured_waiver-ne_nil env raw h = elim (Bool-cases (is_empty (strip py.unicode env))) [
    | inl empty ↦ file_waiver-ne_nil raw (rw empty at h)
    | inr full ↦ ground arith
  ]

  digests_agree-true :
      (recorded token : Option Text)
      → digests_agree recorded token ≡ true
      → (t : Text) × (token ≡ some t) × (recorded ≡ some (sha256 t))
  unfolding digests_agree
  digests_agree-true (some r) (some t) h = (t, refl, ap some ((text_beq_iff r (sha256 t)).0 h))
  digests_agree-true none token h = cc
  digests_agree-true (some r) none h = cc

  -- The merge gate accepts a waiver exactly when the owner has configured a token and the verdict
  -- records the digest of that token, and neither of the two is empty.
  pub waiver_satisfied_iff :
      (verdict : Value) (env : Text) (raw : Option Value)
      → (waiver_satisfied verdict env raw ≡ true) ↔ (
          (t : Text) × (t ≢ [])
          × (configured_waiver env raw ≡ some t)
          × (get_field verdict "tier2_waiver_digest" null ≡ str (sha256 t))
          × (sha256 t ≢ []))
  unfolding waiver_satisfied recorded_waiver_digest
  waiver_satisfied_iff verdict env raw = (
    λ h.
        let (t, configured, recorded) = digests_agree-true _ _ h in
        let (field_is, digest_ne) = digest_text-some _ _ recorded in
        (t, configured_waiver-ne_nil env raw configured, configured, field_is, digest_ne),
    λ (t, token_ne, configured, recorded, digest_ne).
        rw (recorded, configured, some-digest_text (sha256 t) digest_ne) (beq_refl (sha256 t)),
  )
