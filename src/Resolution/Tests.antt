-- ===== src/Resolution/Tests.antt =====
-- A payload, blocks and bundles of a few words, over floats counted in hundredths.
use gitreins.Prelude.{
  ℕ, zero, suc, ◌+◌, ◌*◌, ◌/◌, ◌%◌, ◌^◌, ◌≡◌, ◌↔◌, refl, true, false, List, [], ◌∷◌, none, some,
  String, if◌then◌else◌, arith, leb, ltb, nat_beq, text_beq, contains,
}
use gitreins.Prelude.Int.{ℤ, pos, negsuc, leb_int, max_int, min_int}
use gitreins.Prelude.Text.{Text, codes, Unicode, join, starts_with}
use gitreins.EvidenceBounds.Lines.{splitlines}
use gitreins.EvidenceBounds.Marker.{decimal}
use gitreins.Resolution.Value.{
  Real, Json, Members, string, float, int, object, empty, member, get_member, entries, as_float,
}
use gitreins.Resolution.Answers.{
  Answers, typed, ◌>>=◌, as_probability, as_score, float_map, parse_answers, rubric_position,
}
use gitreins.Resolution.Bands.{
  resolved, review, ManifestEntry, band_for, is_strong, sufficient, effective_band_for,
}
use gitreins.Resolution.Bands.Grounded.{IsGrounded, effective_band_for-resolved_iff}
use gitreins.Resolution.Call.{unreadable, readable, Reply, raised, response}
use gitreins.Resolution.Pack.{
  Block, PackedBundle, estimate_tokens, utf8_length, strip_newlines, stamp, entry_for, pack_blocks,
  pack_block, pack_all, disclosure_of,
}
use gitreins.Resolution.Pack.Fits.{IsPacked, pack_blocks-IsPacked}
use gitreins.Resolution.Verdict.{AssembledBundle}
use gitreins.Resolution.Clip.{Platform, clip_state}
use gitreins.Resolution.Clip.Wall.{IsWithin, clip_state-IsWithin}
use gitreins.Resolution.Resolve.{resolve}
use gitreins.Resolution.Resolve.Decided.{IsDecided, resolve-IsDecided}

abbrev magnitude : ℤ → ℕ
magnitude (pos n) = n
magnitude (negsuc n) = 0

abbrev hundredths : Real
hundredths = record {
  F = ℕ;
  decimal = λ n k. n * 100 / 10 ^ k;
  of_int = λ i. magnitude i * 100;
  parse = λ s. none;
  finite = λ x. true;
  at_least = λ a b. leb b a;
  greater = λ a b. ltb b a;
  times = λ a b. a * b / 100;
  over = λ a b. a * 100 / b;
  ceiling = λ a. pos ((a + 99) / 100);
  rounded = λ a. pos ((a + 50) / 100);
  is_integer = λ a. nat_beq (a % 100) 0;
  truncated = λ a. pos (a / 100);
  int_of_text = λ s. none;
}

abbrev ascii : Unicode
ascii = record { is_space = λ c. leb c 32; upper_of = λ c. c ∷ []; fold_of = λ c. c ∷ [] }

abbrev show : Json ℕ → String
show v = "?"

abbrev same : Text → Text
same t = t

abbrev field : String → Json ℕ → Members ℕ → Members ℕ
field = member

abbrev payload : Json ℕ
payload = object (
    field "answers"
      (object (
        field "resolves" (object (field "type" (string "noul") (field "noul" (float 90) empty))) (
          field "missing_kind"
            (object (field "type" (string "choice") (field "choice" (string "none") empty)))
            (field "evidence_quality"
              (object (field "type" (string "score") (field "score" (int (pos 3)) empty))) empty))))
      empty)

abbrev answers : Answers ℕ
answers = record {
  resolves = 90;
  missing_kind = "none";
  kind_probabilities = none;
  kind_confidence = none;
  quality_score = 300;
  quality_probabilities = none;
  quality_confidence = none;
  legend = none;
}

reading : Unit {0}
unfolding get_member entries as_float ◌>>=◌ as_probability as_score float_map parse_answers
    rubric_position leb_int max_int min_int band_for is_strong sufficient effective_band_for
    text_beq
reading = tt

payload_read : parse_answers hundredths show payload ≡ typed answers
unfolding reading
payload_read = refl

abbrev entry : ManifestEntry ℕ
entry = record {
  file = codes "a.py";
  provenance = codes "ast_exact";
  score = some 90;
  bytes = 10;
  truncated = false;
  source = "understand";
  lines = 1;
}

-- The same answer counts as resolved over whole evidence, and is for review over clipped evidence.
whole_evidence :
    effective_band_for hundredths (some 90) (some (pos 3)) (entry ∷ []) false false 85 50 ≡ resolved
unfolding reading
whole_evidence = refl

clipped_evidence :
    effective_band_for hundredths (some 90) (some (pos 3)) (entry ∷ []) true false 85 50 ≡ review
unfolding reading
clipped_evidence = refl

effective_band_for-resolved_iff_example :
    (effective_band_for hundredths (some 90) (some (pos 3)) (entry ∷ []) false false 85 50
      ≡ resolved)
    ↔ IsGrounded hundredths (some 90) (some (pos 3)) (entry ∷ []) false false 85
effective_band_for-resolved_iff_example =
    effective_band_for-resolved_iff hundredths (some 90) (some (pos 3)) (entry ∷ []) false false 85
      50

abbrev replies : List (Reply ℕ)
replies =
    response 401 [] (unreadable [])
    ∷ raised (codes "timed out")
    ∷ response 200 [] (readable payload)
    ∷ []

abbrev block : String → String → Block ℕ
block file text = record {
  file = codes file;
  provenance = codes "ast_exact";
  score = none;
  text = codes text;
  source = "read";
  bundle_rank = 0;
  truncated = false;
}

abbrev blocks : List (Block ℕ)
blocks = block "a.py" "x = 1\n" ∷ block "b.py" "\n" ∷ block "c.py" "y = 2" ∷ []

abbrev no_digits : ℕ → Text
no_digits x = []

abbrev bundle : PackedBundle ℕ
bundle = record {
  text = codes "a.py [provenance=ast_exact, score=n/a]\nx = 1";
  entries =
      record {
        file = codes "a.py";
        provenance = codes "ast_exact";
        score = none;
        bytes = 44;
        truncated = false;
        source = "read";
        lines = 2;
      }
      ∷ [];
  dropped_files = codes "c.py" ∷ [];
  chars_dropped = 0;
  lines_dropped = 0;
  clipped = false;
  disclosure = codes "1 candidate file(s) dropped for budget: c.py";
}

packing : Unit {0}
unfolding pack_blocks pack_all pack_block estimate_tokens utf8_length strip_newlines stamp entry_for
    disclosure_of splitlines decimal join contains text_beq
packing = tt

-- A budget of 20 tokens takes the first file; the second is blank, and the third is named.
blocks_packed : pack_blocks ascii no_digits 21 1 true blocks ≡ some bundle
unfolding packing
blocks_packed = refl

pack_blocks-IsPacked_example : IsPacked 20 blocks bundle
pack_blocks-IsPacked_example =
    pack_blocks-IsPacked ascii no_digits 21 1 true blocks bundle blocks_packed

abbrev platform : Platform ℕ
platform = record {
  unicode = ascii;
  lower = same;
  show = show;
  two_digits = no_digits;
  header_of = λ line. if starts_with line (codes "a.py") then some (codes "a.py") else none;
  tallies = λ text. [];
}

abbrev assembled : AssembledBundle ℕ
assembled = record {
  text = codes "a.py [provenance=ast_exact, score=0.90]\nx = 1";
  manifest = entry ∷ [];
  seeds = [];
  dependency_paths = [];
  tokens_estimated = 12;
  clipped = false;
  disclosure = [];
  chars_dropped = 0;
  lines_dropped = 0;
  dropped_files = [];
  budget_exhausted = false;
  notes = [];
}

abbrev copies : ℕ → Text
copies zero = []
copies (suc n) = 97 ∷ copies n

clip_state-IsWithin_example :
    IsWithin hundredths platform
      (copies 50000)
      (clip_state hundredths platform (copies 50000) assembled)
clip_state-IsWithin_example =
    clip_state-IsWithin hundredths platform (λ n h. omega arith) (copies 50000) assembled

resolve-IsDecided_example : IsDecided hundredths platform 85 50 replies (
    resolve hundredths platform true true
      (λ state. replies)
      85
      50
      (λ q. assembled)
      (codes "where?"))
resolve-IsDecided_example =
    resolve-IsDecided hundredths platform true true (λ state. replies) 85 50 (λ q. assembled)
      (codes "where?")
