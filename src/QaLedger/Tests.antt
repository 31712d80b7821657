-- ===== src/QaLedger/Tests.antt =====
-- Runs of a small ledger, and each theorem at one.
use gitreins.Prelude.{
  ℕ, ◌-◌, ◌≡◌, inr, refl, ap, true, List, [], ◌∷◌, ◌++◌, none, some, length, leb, arith, Bool,
  Option, false, any, All, All-append, Bool-cases, inl, if◌then◌else◌, nat_beq, or_false, subst,
}
use gitreins.Prelude.Int.{pos}
use gitreins.Prelude.Text.{Text, Unicode, codes, strip}
use gitreins.EvidenceBounds.Lines.{newline, is_line_end}
use gitreins.Prelude.Slices.{All-mono}
use gitreins.QaLedger.Lines.{chunks, written, IsWhole}
use gitreins.QaLedger.Store.{
  Bytes, is_surrogate, IsPlain, Codec, number, coerce_max_entries, stored, last_of, ledger_lines,
  prune_text, prune, append_row, row_of, rows_of, list_rows,
}
use gitreins.QaLedger.Store.Appended.{Holds, append_row-Holds}
use gitreins.QaLedger.Store.Listed.{append_row-listed}

abbrev ascii : Unicode
ascii = record { is_space = λ c. leb c 32; upper_of = λ c. c ∷ []; fold_of = λ c. c ∷ [] }

-- Bytes are the code points, and the halves of surrogate pairs are damaged ones.
has_surrogate : Text → Bool
has_surrogate = any is_surrogate

no_surrogate : (s : Text) → has_surrogate s ≡ false → All (λ c. is_surrogate c ≡ false) s
unfolding has_surrogate
no_surrogate [] h = tt
no_surrogate (c ∷ s) h = let (here, later) = or_false _ _ h in (here, no_surrogate s later)

has_surrogate_of : (s : Text) → All (λ c. is_surrogate c ≡ false) s → has_surrogate s ≡ false
unfolding has_surrogate
has_surrogate_of [] h = refl
has_surrogate_of (c ∷ s) h = rw h.0 (has_surrogate_of s h.1)

abbrev read : Bytes → Option Text
read b = if has_surrogate b then none else some b

read-same : (b s : Text) → read b ≡ some s → (b ≡ s) × (has_surrogate b ≡ false)
read-same b s h = elim (Bool-cases (has_surrogate b)) [
  | inl bad ↦ absurd (none≢some s (rw bad at h))
  | inr good ↦ (cc (rw good at h), good)
]
  where
    none≢some : (s : Text) → none ≡ some s → ⊥
    none≢some s h = cc h

read_plain : (t : Text) → IsPlain t → read t ≡ some t
read_plain t h = rw (has_surrogate_of t (All-mono (λ c k. k.1) t h)) refl

plain-append :
    (b s : Text) (c : ℕ) (t : Text)
    → read b ≡ some s
    → IsPlain (c ∷ t)
    → nat_beq newline c ≡ false
    → read (b ++ (c ∷ t)) ≡ some (s ++ c ∷ t)
plain-append b s c t h k n =
    let (same, good) = read-same b s h in
    let whole =
      All-append (λ c. is_surrogate c ≡ false) b (c ∷ t) (no_surrogate b good)
        (All-mono (λ c k. k.1) (c ∷ t) k) in
    rw (has_surrogate_of (b ++ (c ∷ t)) whole) (ap (λ (r : List ℕ). some (r ++ c ∷ t)) same)

abbrev plain : Codec
plain = record {
  decode = read;
  decode_replacing = λ b. b;
  encode = λ t. t;
  decode-encode = read_plain;
  decode-append = plain-append;
  decode-surrogate = λ b s h.
      let (same, good) = read-same b s h in
      subst (All (λ c. is_surrogate c ≡ false)) same (no_surrogate b good);
  decode_replacing-eq = λ b s h. (read-same b s h).0;
}

abbrev two_rows : Bytes
two_rows = codes "{1}\n{2}\n"

abbrev row : Text
row = codes "{3}"

append_two : append_row ascii plain true 2 two_rows row ≡ stored (codes "{2}\n{3}\n") 1
unfolding has_surrogate append_row prune prune_text ledger_lines chunks written is_line_end strip
append_two = refl

listed_two :
    list_rows ascii plain some (λ t. true) (codes "{2}\n \n{3}\n") (some (pos 1)) ≡ row ∷ []
unfolding list_rows row_of rows_of chunks strip
listed_two = refl

zero_entries : coerce_max_entries (λ s. none) (number (pos 0)) ≡ 1000
unfolding coerce_max_entries
zero_entries = refl

two_rows-IsWhole : IsWhole two_rows
two_rows-IsWhole = inr (codes "{1}\n{2}", refl)

append_row-Holds_example :
    (file' : Bytes) × (append_row ascii plain true 2 two_rows row
      ≡ stored file' (length (ledger_lines ascii two_rows ++ row ∷ []) - 2))
    × Holds ascii plain row (last_of 2 (ledger_lines ascii two_rows ++ row ∷ [])) file'
unfolding has_surrogate is_line_end strip
append_row-Holds_example =
    append_row-Holds ascii plain 2 two_rows two_rows row refl two_rows-IsWhole
      (refl, ((refl, (refl, (refl, tt))), (refl, (refl, (refl, tt))))) (omega arith)

append_row-listed_example :
    (file' : Bytes) × (front : List Text) × (append_row ascii plain true 2 two_rows row
      ≡ stored file' (length (ledger_lines ascii two_rows ++ row ∷ []) - 2))
    × (list_rows ascii plain some (λ t. true) file' none ≡ front ++ row ∷ [])
unfolding has_surrogate is_line_end strip
append_row-listed_example =
    append_row-listed ascii plain some (λ t. true) 2 two_rows two_rows row row refl two_rows-IsWhole
      (refl, ((refl, (refl, (refl, tt))), (refl, (refl, (refl, tt))))) (omega arith) refl refl
