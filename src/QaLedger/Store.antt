-- ===== src/QaLedger/Store.antt =====
-- engine/qa_ledger.py, `_prune`, `append_row` and `list_rows` over the bytes of the ledger. The lock
-- makes an append one step. UTF-8 with text mode, and JSON, are parameters.
pub mod Appended
pub mod Listed
use gitreins.Prelude.{
  ℕ, ◌+◌, ◌-◌, ◌≡◌, Bool, true, false, not, ◌&&◌, List, [], ◌∷◌, ◌++◌, Option, none, some,
  if◌then◌else◌, leb, All, keep, is_empty, length, drop, nat_beq,
}
use gitreins.Prelude.Int.{ℤ, pos, negsuc}
use gitreins.Prelude.Text.{Text, Unicode, strip}
use gitreins.EvidenceBounds.Lines.{newline, is_line_end}
use gitreins.QaLedger.Lines.{chunks, ended, written}

abbrev pub Bytes : Type 0
Bytes = List ℕ

-- A half of a surrogate pair, which no UTF-8 holds.
abbrev pub is_surrogate : ℕ → Bool
is_surrogate c = leb 55296 c && leb c 57343

-- A text that is written and read back as it is: no return, which text mode would turn into a
-- newline, and no half of a surrogate pair, which `encode` refuses.
abbrev pub IsPlain : Text → Type 0
IsPlain = All (λ c. (nat_beq c 13 ≡ false) × (is_surrogate c ≡ false))

-- Files of text: reading decodes, strictly or with a replacement of what is damaged. A return at the
-- end of what is there and a newline that follows it are one line end, so what is appended starts
-- with another character.
pub record Codec : Type 0 where
  pub decode : Bytes → Option Text
  pub decode_replacing : Bytes → Text
  pub encode : Text → Bytes
  pub decode-encode : (t : Text) → IsPlain t → decode (encode t) ≡ some t
  pub decode-append :
      (b : Bytes) (s : Text) (c : ℕ) (t : Text)
      → decode b ≡ some s
      → IsPlain (c ∷ t)
      → nat_beq newline c ≡ false
      → decode (b ++ encode (c ∷ t)) ≡ some (s ++ c ∷ t)
  pub decode-surrogate :
      (b : Bytes) (s : Text) → decode b ≡ some s → All (λ c. is_surrogate c ≡ false) s
  pub decode_replacing-eq : (b : Bytes) (s : Text) → decode b ≡ some s → decode_replacing b ≡ s

-- A value of `qa_ledger.max_entries` in the configuration.
pub data Setting : Type 0 where
  absent : Setting
  flag : Bool → Setting
  number : ℤ → Setting
  string : Text → Setting
  other : Setting

abbrev pub default_max_entries : ℕ
default_max_entries = 1000

unfoldable pub at_least_one : ℤ → ℕ
at_least_one (pos n) = if leb 1 n then n else default_max_entries
at_least_one (negsuc n) = default_max_entries

-- `int(s)`, which may raise, is a parameter.
unfoldable pub coerce_max_entries : (Text → Option ℤ) → Setting → ℕ
unfolding at_least_one
coerce_max_entries as_int (number n) = at_least_one n
coerce_max_entries as_int (string s) = elim (as_int s) [
  | some n ↦ at_least_one n
  | none ↦ default_max_entries
]
coerce_max_entries as_int _ = default_max_entries

-- What an append ends with: an exception leaves the bytes that were written.
pub data AppendResult : Type 0 where
  disabled : AppendResult
  stored : (file : Bytes) (evicted : ℕ) → AppendResult
  undecodable : (file : Bytes) → AppendResult

-- `xs[-n:]`, for an `n` of at least one, or all where there are fewer
abbrev pub last_of {ℓ} : {A : Type ℓ} → ℕ → List A → List A
last_of n xs = drop (length xs - n) xs

module _ (u : Unicode) where
  abbrev pub not_blank : Text → Bool
  not_blank line = not (is_empty (strip u line))

  -- `[line for line in text.splitlines() if line.strip()]`
  unfoldable pub ledger_lines : Text → List Text
  ledger_lines text = keep not_blank (chunks is_line_end [] text)

module _ (u : Unicode) (codec : Codec) where
  open codec use {decode, decode_replacing, encode}

  unfoldable pub prune_text : Bytes → ℕ → Text → AppendResult
  prune_text file max_entries text =
      let lines = ledger_lines u text in
      if leb (length lines) max_entries
      then stored file 0
      else stored (encode (written (last_of max_entries lines))) (length lines - max_entries)

  -- `_prune`
  unfoldable pub prune : Bytes → ℕ → AppendResult
  prune file max_entries = elim (decode file) [
    | none ↦ undecodable file
    | some text ↦ prune_text file max_entries text
  ]

  -- `append_row`, for a row whose JSON is given
  unfoldable pub append_row : Bool → ℕ → Bytes → Text → AppendResult
  append_row enabled max_entries file line =
      if not enabled then disabled else prune (file ++ encode (ended line)) max_entries

  module _ {J : Type 0} (loads : Text → Option J) (is_object : J → Bool) where
    -- The round of the loop of `list_rows`.
    unfoldable pub row_of : Text → List J
    row_of line = if is_empty (strip u line) then [] else elim (loads (strip u line)) [
      | none ↦ []
      | some row ↦ if is_object row then row ∷ [] else []
    ]

    unfoldable pub rows_of : List Text → List J
    rows_of [] = []
    rows_of (line ∷ lines) = row_of line ++ rows_of lines

    newest : Option ℤ → List J → List J
    newest none rows = rows
    newest (some (pos n)) rows = if leb 1 n then last_of n rows else []
    newest (some (negsuc n)) rows = []

    unfoldable pub list_rows : Bytes → Option ℤ → List J
    unfolding newest
    list_rows file n = newest n (rows_of (chunks (nat_beq newline) [] (decode_replacing file)))
