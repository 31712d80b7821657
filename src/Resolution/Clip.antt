-- ===== src/Resolution/Clip.antt =====
-- engine/resolution.py, the state that is sent: clipped to the wall, with the manifest to match.
pub mod Wall
use gitreins.Prelude.{
  ℕ, zero, suc, ◌+◌, ◌-◌, ◌*◌, ◌/◌, Bool, true, false, not, ◌&&◌, ◌||◌, List, [], ◌∷◌, ◌++◌, map,
  Option, none, some,
}
use gitreins.Prelude.{
  String, if◌then◌else◌, ◌==◌, string_eq, ltb, leb, length, take, is_empty, any, keep, contains,
  text_eq,
}
use gitreins.Prelude.Dict.{Dict, lookup}
use gitreins.Prelude.Int.{ℤ, pos, negsuc, leb_int}
use gitreins.Prelude.Text.{Text, Unicode, codes, join, strip}
use gitreins.EvidenceBounds.Lines.{splitlines}
use gitreins.EvidenceBounds.Marker.{decimal}
use gitreins.EvidenceBounds.Bound.{bound_step_evidence}
use gitreins.Resolution.Value.{
  Real, Json, Members, null, bool, int, float, string, array, object, get_member,
}
use gitreins.Resolution.Answers.{Answers, rubric_position}
use gitreins.Resolution.Bands.{Band, ManifestEntry, band_for}
use gitreins.Resolution.Call.{Reply, JevCallResult, occurs_in, call_jev}
use gitreins.Resolution.Pack.{estimate_tokens}
use gitreins.Resolution.Verdict.{AssembledBundle, ResolutionVerdict, abstain_with, join_disclosure}
use Prim.Native.Nat.{max}

abbrev pub jev_hard_wall_tokens : ℕ
jev_hard_wall_tokens = 33000

-- The platform: `lower` is `str.lower`, `show` is `str`, `two_digits` formats by `.2f`, `header_of`
-- is `_BLOCK_HEADER_RE.match` with its group "file", `tallies` finds the second groups of
-- `_OMISSION_LINE_RE`.
pub record Platform (F : Type 0) : Type 0 where
  pub unicode : Unicode
  pub lower : Text → Text
  pub show : Json F → String
  pub two_digits : F → Text
  pub header_of : Text → Option Text
  pub tallies : Text → List ℕ

abbrev to_nat : ℤ → ℕ
to_nat (pos n) = n
to_nat (negsuc n) = 0

abbrev sum : List ℕ → ℕ
sum [] = 0
sum (n ∷ ns) = n + sum ns

abbrev put_some : Option Text → List Text → List Text
put_some none found = found
put_some (some file) found = file ∷ found

-- The files whose header stands in the text.
unfoldable pub headers : (Text → Option Text) → List Text → List Text
headers header_of [] = []
headers header_of (line ∷ lines) = put_some (header_of line) (headers header_of lines)

module _ {F : Type 0} where
  unfoldable pub is_sent : List Text → ManifestEntry F → Bool
  is_sent sent e = contains sent e.file

  -- `reconcile_manifest`, over the files whose header was sent.
  unfoldable pub reconcile : List Text → List (ManifestEntry F) → List (ManifestEntry F) × List Text
  unfolding is_sent
  reconcile sent manifest = if is_empty sent then (manifest, []) else (
    keep (is_sent sent) manifest,
    map (λ (e : ManifestEntry F). e.file) (keep (λ e. not (is_sent sent e)) manifest),
  )

-- `_dropped_lines`
unfoldable pub dropped_lines : List ℕ → Text → ℕ → ℕ
dropped_lines [] clipped dropped_chars =
    if is_empty (splitlines clipped)
    then if ltb 0 dropped_chars then 1 else 0
    else dropped_chars / max 1 (length clipped / length (splitlines clipped))
dropped_lines (n ∷ ns) clipped dropped_chars = sum (n ∷ ns)

-- `build_state`
unfoldable pub build_state : Unicode → Text → Text → Text
build_state u question bundle_text = strip u question ++ (codes "\n\n" ++ bundle_text)

module _ (real : Real) where
  -- The tokens of a length at 1.39 code points to a token, rounded up.
  abbrev pub tokens_of : ℕ → ℕ
  tokens_of n = to_nat (real.ceiling (real.over (real.of_int (pos n)) (real.decimal 139 2)))

  -- `worst_case_tokens`
  unfoldable pub worst_case_tokens : Text → ℕ
  worst_case_tokens text = if is_empty text then 0 else tokens_of (length text)

  abbrev pub wall_chars : ℕ
  wall_chars =
      to_nat
        (real.truncated (real.times (real.of_int (pos jev_hard_wall_tokens)) (real.decimal 139 2)))

module _ (real : Real) (p : Platform real.F) where
  open real use {F}
  open p use {unicode}

  abbrev pub sent_headers : Text → List Text
  sent_headers state = headers p.header_of (map (strip unicode) (splitlines state))

  abbrev disclose : Text → AssembledBundle F → AssembledBundle F
  disclose note b = record b {
    notes = b.notes ++ note ∷ [];
    disclosure = join_disclosure b.disclosure note;
  }

  abbrev exclude : List Text → AssembledBundle F → AssembledBundle F
  exclude excluded b =
      if is_empty excluded
      then b
      else disclose
          (decimal (length excluded)
            ++ (codes
                  " manifest file(s) fell entirely outside the clipped state and are no longer claimed as evidence: "
                ++ join (codes ", ") (take 5 excluded)))
          b

  abbrev clip_note : Text → ℕ → ℕ → Text
  clip_note state chars lines =
      codes "state clipped to the worst-case wall: "
      ++ (decimal chars
          ++ (codes " chars / "
              ++ (decimal lines
                  ++ (codes " line(s) omitted, "
                      ++ (decimal (estimate_tokens state)
                          ++ (codes " tokens estimated ("
                              ++ (decimal (worst_case_tokens real state)
                                  ++ codes " at the densest measured rate)")))))))

  abbrev pub clip_to : Text → ℕ → AssembledBundle F → Text × AssembledBundle F
  clip_to state before b =
      let chars = before - length state in
      let lines = dropped_lines (p.tallies state) state chars in
      let counted = record b {
        clipped = true;
        chars_dropped = b.chars_dropped + chars;
        lines_dropped = b.lines_dropped + lines;
      } in
      let told = disclose (clip_note state chars lines) counted in
      let (manifest, excluded) = reconcile (sent_headers state) told.manifest in
      (state, exclude excluded (record told { manifest = manifest }))

  -- The state that is sent, clipped when it may cost more than the wall, with the bundle as it is
  -- then disclosed.
  unfoldable pub clip_state : Text → AssembledBundle F → Text × AssembledBundle F
  unfolding worst_case_tokens
  clip_state state b =
      if ltb jev_hard_wall_tokens (worst_case_tokens real state)
      then clip_to (bound_step_evidence unicode state (wall_chars real)) (length state) b
      else (state, b)
