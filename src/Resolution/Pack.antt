-- ===== src/Resolution/Pack.antt =====
-- engine/resolution.py, `pack_blocks`: the evidence that fits the budget of tokens, and what it cost.
pub mod Fits
use gitreins.Prelude.{
  ℕ, ◌+◌, ◌-◌, ◌*◌, ◌/◌, Bool, true, false, not, ◌&&◌, ◌||◌, List, [], ◌∷◌, ◌++◌, Option, none,
  some,
}
use gitreins.Prelude.{
  String, if◌then◌else◌, leb, ltb, nat_beq, length, take, is_empty, contains, text_eq,
}
use gitreins.Prelude.Text.{Text, Unicode, codes, join}
use gitreins.EvidenceBounds.Lines.{newline, splitlines}
use gitreins.EvidenceBounds.Marker.{decimal}
use gitreins.EvidenceBounds.Bound.{bound_step_evidence}
use gitreins.Resolution.Bands.{ManifestEntry}
use Prim.Native.Nat.{max}
use mathlib.Core.List.{reverse}

pub record Block (F : Type 0) : Type 0 where
  pub file : Text
  pub provenance : Text
  pub score : Option F
  pub text : Text
  pub source : String
  pub bundle_rank : ℕ
  pub truncated : Bool

pub record PackedBundle (F : Type 0) : Type 0 where
  pub text : Text
  pub entries : List (ManifestEntry F)
  pub dropped_files : List Text
  pub chars_dropped : ℕ
  pub lines_dropped : ℕ
  pub clipped : Bool
  pub disclosure : Text

-- The variables of the loop; `seen_files` is a set.
pub record Packing (F : Type 0) : Type 0 where
  pub parts : List Text
  pub entries : List (ManifestEntry F)
  pub dropped : List Text
  pub chars_dropped : ℕ
  pub lines_dropped : ℕ
  pub clipped : Bool
  pub saw_clip : Bool
  pub used : ℕ
  pub seen_files : List Text

-- `estimate_tokens` with no tokenizer, at the default of 3.5 code points to a token.
unfoldable pub estimate_tokens : Text → ℕ
estimate_tokens text = if is_empty text then 0 else max 1 (length text * 2 / 7)

-- `len(text.encode("utf-8"))`, for code points that can be encoded.
abbrev bytes_of : ℕ → ℕ
bytes_of c = if ltb c 128 then 1 else if ltb c 2048 then 2 else if ltb c 65536 then 3 else 4

unfoldable pub utf8_length : Text → ℕ
utf8_length [] = 0
utf8_length (c ∷ s) = bytes_of c + utf8_length s

skip_newlines : Text → Text
skip_newlines [] = []
skip_newlines (c ∷ s) = if nat_beq c newline then skip_newlines s else c ∷ s

-- `text.strip("\n")`
unfoldable pub strip_newlines : Text → Text
unfolding skip_newlines
strip_newlines s = reverse (skip_newlines (reverse (skip_newlines s)))

abbrev pub min_clipped_block_tokens : ℕ
min_clipped_block_tokens = 200

module _ {F : Type 0} (two_digits : F → Text) where
  abbrev score_text : Option F → Text
  score_text none = codes "n/a"
  score_text (some x) = two_digits x

  -- `_stamp`; `two_digits` formats a float by `.2f`.
  unfoldable pub stamp : Block F → Text
  stamp block =
      block.file
      ++ (codes " [provenance="
          ++ (block.provenance ++ (codes ", score=" ++ (score_text block.score ++ codes "]"))))

-- `_entry_for`
unfoldable pub entry_for : {F : Type 0} → Block F → Text → Bool → ManifestEntry F
entry_for block shipped_text truncated = record {
  file = block.file;
  provenance = block.provenance;
  score = block.score;
  bytes = utf8_length shipped_text;
  truncated = truncated;
  source = block.source;
  lines = length (splitlines shipped_text);
}

module _ {F : Type 0} where
  abbrev pub no_packing : Packing F
  no_packing = record {
    parts = [];
    entries = [];
    dropped = [];
    chars_dropped = 0;
    lines_dropped = 0;
    clipped = false;
    saw_clip = false;
    used = 0;
    seen_files = [];
  }

  abbrev pub drop_block : Block F → Packing F → Packing F
  drop_block block p = record p { dropped = p.dropped ++ block.file ∷ [] }

  -- A part is shipped with its entry.
  abbrev pub ship : Block F → Text → Bool → Packing F → Packing F
  ship block text truncated p = record p {
    parts = p.parts ++ text ∷ [];
    entries = p.entries ++ entry_for block text truncated ∷ [];
    used = p.used + estimate_tokens text;
    seen_files = p.seen_files ++ block.file ∷ [];
  }

  abbrev pub note_clip : Text → Text → Packing F → Packing F
  note_clip text clipped_text p = record p {
    chars_dropped = p.chars_dropped + (length text - length clipped_text);
    lines_dropped = p.lines_dropped + (length (splitlines text) - length (splitlines clipped_text));
    clipped = true;
    saw_clip = true;
  }

  module _ (u : Unicode) (two_digits : F → Text) (dedupe : Bool) (budget : ℕ) where
    abbrev pub place_clipped : Block F → Text → Text → Packing F → Packing F
    place_clipped block text clipped_text p =
        if leb (length text) (length clipped_text)
          || ltb (budget - p.used) (estimate_tokens clipped_text)
        then drop_block block p
        else note_clip text clipped_text (ship block clipped_text true p)

    abbrev pub place : Block F → Text → Packing F → Packing F
    place block text p =
        if leb (estimate_tokens text) (budget - p.used)
        then ship block text block.truncated p
        else if ltb (budget - p.used) min_clipped_block_tokens
        then drop_block block p
        else place_clipped block text (bound_step_evidence u text ((budget - p.used) * 7 / 2)) p

    -- A block of the loop.
    unfoldable pub pack_block : Block F → Packing F → Packing F
    pack_block block p =
        if is_empty (strip_newlines block.text)
        then p
        else if dedupe && contains p.seen_files block.file
        then p
        else place block (stamp two_digits block ++ newline ∷ strip_newlines block.text) p

    unfoldable pub pack_all : List (Block F) → Packing F → Packing F
    pack_all [] p = p
    pack_all (block ∷ blocks) p = pack_all blocks (pack_block block p)

abbrev clip_note : Bool → ℕ → ℕ → Text
clip_note saw_clip chars lines =
    if saw_clip
    then codes "bundle clipped line-aligned: "
      ++ (decimal chars
          ++ (codes " chars / "
              ++ (decimal lines
                  ++ codes " line(s) omitted (see the omission markers in the bundle)")))
    else []

abbrev shown : List Text → Text
shown dropped =
    join (codes ", ") (take 5 dropped) ++ (if ltb 5 (length dropped) then codes "…" else [])

unfoldable pub disclosure_of : Bool → ℕ → ℕ → List Text → Text
disclosure_of saw_clip chars lines dropped =
    let clip = clip_note saw_clip chars lines in
    if is_empty dropped
    then clip
    else (if is_empty clip then [] else clip ++ codes "; ")
      ++ (decimal (length dropped)
          ++ (codes " candidate file(s) dropped for budget: " ++ shown dropped))

abbrev pub packed : {F : Type 0} → Packing F → Option (PackedBundle F)
packed p =
    if is_empty p.parts
    then none
    else some record {
      text = join (codes "\n\n") p.parts;
      entries = p.entries;
      dropped_files = p.dropped;
      chars_dropped = p.chars_dropped;
      lines_dropped = p.lines_dropped;
      clipped = p.clipped;
      disclosure = disclosure_of p.saw_clip p.chars_dropped p.lines_dropped p.dropped;
    }

-- `pack_blocks`. A budget below zero packs nothing, as does one of zero.
unfoldable pub pack_blocks :
    {F : Type 0} (u : Unicode) (two_digits : F → Text) (max_tokens reserve_tokens : ℕ)
    (dedupe : Bool)
    → List (Block F)
    → Option (PackedBundle F)
unfolding pack_all pack_block
pack_blocks u two_digits max_tokens reserve_tokens dedupe blocks =
    packed (pack_all u two_digits dedupe (max_tokens - reserve_tokens) blocks no_packing)
