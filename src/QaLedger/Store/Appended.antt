-- ===== src/QaLedger/Store/Appended.antt =====
-- What an append leaves: the newest lines, at most as many as are allowed, with the new one last.
use gitreins.Prelude.{
  ℕ, zero, suc, ◌-◌, ◌≤◌, ◌≡◌, ◌∙◌, inl, inr, refl, sym, ap, Bool, true, false, List, [], ◌∷◌, ◌++◌,
  some, leb, All, All-append, Bool-cases, keep, length, length-append, drop, nat_beq, arith,
}
use mathlib.Core.List.{append_assoc, append-nil}
use gitreins.Prelude.Text.{Text, Unicode, strip}
use gitreins.Prelude.Slices.{All-keep, All-mono}
use gitreins.EvidenceBounds.Lines.{newline, is_line_end}
use gitreins.QaLedger.Lines.{
  chunks, ended, written, IsWhole, HasNoEnd, chunks-written, chunks-HasNoEnd, chunks-append,
}
use gitreins.QaLedger.Store.{
  Bytes, is_surrogate, IsPlain, Codec, stored, last_of, not_blank, ledger_lines, prune_text, prune,
  append_row,
}

newline-is_line_end : is_line_end newline ≡ true
unfolding is_line_end
newline-is_line_end = refl

-- A line of the ledger ends nowhere inside, so it holds no return.
return_free : (c : ℕ) → is_line_end c ≡ false → nat_beq c 13 ≡ false
unfolding is_line_end
return_free c h = ground arith

abbrev pub IsLine : Text → Type 0
IsLine = HasNoEnd is_line_end

-- No half of a surrogate pair
abbrev pub HasNoSurrogate : Text → Type 0
HasNoSurrogate = All (λ c. is_surrogate c ≡ false)

IsLine-IsPlain : (line : Text) → IsLine line → HasNoSurrogate line → IsPlain line
IsLine-IsPlain [] h k = tt
IsLine-IsPlain (c ∷ line) h k = ((return_free c h.0, k.0), IsLine-IsPlain line h.1 k.1)

ended-IsPlain : (line : Text) → IsLine line → HasNoSurrogate line → IsPlain (ended line)
ended-IsPlain line h k =
    All-append (λ c. (nat_beq c 13 ≡ false) × (is_surrogate c ≡ false)) line (newline ∷ [])
      (IsLine-IsPlain line h k) ((refl, refl), tt)

written-IsPlain :
    (lines : List Text)
    → All (λ line. IsLine line × HasNoSurrogate line) lines
    → IsPlain (written lines)
unfolding written
written-IsPlain [] h = tt
written-IsPlain (line ∷ lines) h =
    All-append (λ c. (nat_beq c 13 ≡ false) × (is_surrogate c ≡ false)) (ended line) (written lines)
      (ended-IsPlain line h.0.0 h.0.1) (written-IsPlain lines h.1)

All-both : (P Q : Text → Type 0) (xs : List Text) → All P xs → All Q xs → All (λ x. P x × Q x) xs
All-both P Q [] h k = tt
All-both P Q (x ∷ xs) h k = ((h.0, k.0), All-both P Q xs h.1 k.1)

last_chunk-All :
    (P : ℕ → Type 0) (line : Text) → All P line → All (All P) (chunks is_line_end line [])
unfolding chunks
last_chunk-All P [] h = tt
last_chunk-All P (c ∷ line) h = (h, tt)

chunks-All :
    (P : ℕ → Type 0) (s line : Text)
    → All P s
    → All P line
    → All (All P) (chunks is_line_end line s)
unfolding chunks
chunks-All P [] line h k = last_chunk-All P line k
chunks-All P (c ∷ s) line h k =
    elim (is_line_end c)
      as (λ b. All (All P) (elim b [
        | true ↦ line ∷ chunks is_line_end [] s
        | false ↦ chunks is_line_end (line ++ c ∷ []) s
      ])) [
        | true ↦ (k, chunks-All P s [] h.1 tt)
        | false ↦ chunks-All P s (line ++ c ∷ []) h.1 (All-append P line (c ∷ []) k (h.0, tt))
      ]

keep_all :
    (p : Text → Bool) (lines : List Text) → All (λ line. p line ≡ true) lines → keep p lines ≡ lines
keep_all p [] h = refl
keep_all p (line ∷ lines) h = rw (h.0, keep_all p lines h.1) refl

keep-append : (p : Text → Bool) (xs ys : List Text) → keep p (xs ++ ys) ≡ keep p xs ++ keep p ys
keep-append p [] ys = refl
keep-append p (x ∷ xs) ys = ground (arith, keep-append p xs ys)

All-drop : (P : Text → Type 0) (n : ℕ) (xs : List Text) → All P xs → All P (drop n xs)
All-drop P zero xs h = h
All-drop P (suc n) [] h = tt
All-drop P (suc n) (x ∷ xs) h = All-drop P n xs h.1

written-IsWhole : (lines : List Text) → IsWhole (written lines)
unfolding written
written-IsWhole [] = inl refl
written-IsWhole (line ∷ lines) = elim (written-IsWhole lines) [
  | inl e ↦ inr (line, rw e (append-nil (ended line)))
  | inr (t, e) ↦ inr (ended line ++ t, rw e (sym (append_assoc (ended line) t (newline ∷ []))))
]

module _ (u : Unicode) where
  -- A line that is kept.
  abbrev pub IsKept : Text → Type 0
  IsKept line = (not_blank u line ≡ true) × (IsLine line × HasNoSurrogate line)

  ledger_lines-IsKept : (s : Text) → HasNoSurrogate s → All IsKept (ledger_lines u s)
  unfolding ledger_lines
  ledger_lines-IsKept s h =
      All-keep (λ line. IsLine line × HasNoSurrogate line) (not_blank u) (chunks is_line_end [] s)
        (All-both IsLine HasNoSurrogate (chunks is_line_end [] s)
          (chunks-HasNoEnd is_line_end s [] tt)
          (chunks-All (λ c. is_surrogate c ≡ false) s [] h tt))

  ledger_lines-written :
      (lines : List Text) → All IsKept lines → ledger_lines u (written lines) ≡ lines
  unfolding ledger_lines
  ledger_lines-written lines h =
      ap (keep (not_blank u))
        (chunks-written is_line_end newline-is_line_end lines (All-mono (λ line k. k.1.0) lines h))
      ∙ keep_all (not_blank u) lines (All-mono (λ line k. k.0) lines h)

  ledger_lines-append :
      (s line : Text)
      → IsWhole s
      → IsKept line
      → ledger_lines u (s ++ ended line) ≡ ledger_lines u s ++ line ∷ []
  unfolding ledger_lines
  ledger_lines-append s line whole k =
      ap (keep (not_blank u)) (chunks-append is_line_end newline-is_line_end s line whole k.1.0)
      ∙ keep-append (not_blank u) (chunks is_line_end [] s) (line ∷ [])
      ∙ rw k.0 refl

drop-snoc :
    (n : ℕ) (xs : List Text) (x : Text)
    → n ≤ length xs
    → drop n (xs ++ x ∷ []) ≡ drop n xs ++ x ∷ []
drop-snoc zero xs x h = refl
drop-snoc (suc n) [] x h = absurd (omega arith)
drop-snoc (suc n) (y ∷ xs) x h = drop-snoc n xs x (omega arith)

-- What `append_row` has stored: the bytes decode to a whole text whose lines are the given ones,
-- and the last line that a reader of it sees is the new one.
abbrev pub Holds : Unicode → Codec → Text → List Text → Bytes → Type 0
Holds u codec line lines file =
    (text : Text) × (codec.decode file ≡ some text)
    × IsWhole text
    × (ledger_lines u text ≡ lines)
    × ((front : List Text) × (chunks (nat_beq newline) [] text ≡ front ++ line ∷ []))

newline_ne : (c : ℕ) → is_line_end c ≡ false → nat_beq newline c ≡ false
unfolding is_line_end
newline_ne c h = ground arith

prune_decoded :
    (u : Unicode) (codec : Codec) (file : Bytes) (s : Text) (max_entries : ℕ)
    → codec.decode file ≡ some s
    → prune u codec file max_entries ≡ prune_text u codec file max_entries s
unfolding prune
prune_decoded u codec file s max_entries h = rw (h, prune) refl

last_of_short : (n : ℕ) (xs : List Text) → length xs ≤ n → last_of n xs ≡ xs
last_of_short n xs h = let e : length xs - n ≡ 0 = omega arith in rw e refl

no_newline : (line : Text) → IsLine line → HasNoEnd (nat_beq newline) line
no_newline [] h = tt
no_newline (c ∷ line) h = (newline_ne c h.0, no_newline line h.1)

decode-ended :
    (u : Unicode) (codec : Codec) (file : Bytes) (old line : Text)
    → codec.decode file ≡ some old
    → IsKept u line
    → codec.decode (file ++ codec.encode (ended line)) ≡ some (old ++ ended line)
unfolding strip
decode-ended u codec file old [] decoded kept = cc kept.0
decode-ended u codec file old (c ∷ line) decoded kept =
    codec.decode-append file old c (line ++ newline ∷ []) decoded
      (ended-IsPlain (c ∷ line) kept.1.0 kept.1.1) (newline_ne c kept.1.0.0)

module _ (u : Unicode) (codec : Codec) (max_entries : ℕ) (file : Bytes) (old line : Text)
    (decoded : codec.decode file ≡ some old) (whole : IsWhole old) (kept : IsKept u line)
    (room : 1 ≤ max_entries) where
  abbrev after : List Text
  after = ledger_lines u old ++ line ∷ []

  appended : Bytes
  appended = file ++ codec.encode (ended line)

  decode-appended : codec.decode appended ≡ some (old ++ ended line)
  unfolding appended
  decode-appended = decode-ended u codec file old line decoded kept

  ended-IsWhole : IsWhole (old ++ ended line)
  ended-IsWhole = inr (old ++ line, sym (append_assoc old line (newline ∷ [])))

  fits : length after ≤ max_entries → Holds u codec line (last_of max_entries after) appended
  fits h = (
    old ++ ended line,
    decode-appended,
    ended-IsWhole,
    ledger_lines-append u old line whole kept ∙ sym (last_of_short max_entries after h),
    (
      chunks (nat_beq newline) [] old,
      chunks-append (nat_beq newline) refl old line whole (no_newline line kept.1.0),
    ),
  )

  newest : List Text
  newest = last_of max_entries after

  newest-IsKept : All (IsKept u) newest
  unfolding newest
  newest-IsKept = All-drop (IsKept u) (length after - max_entries) after (
      All-append (IsKept u) (ledger_lines u old) (line ∷ [])
        (ledger_lines-IsKept u old (codec.decode-surrogate file old decoded)) (kept, tt))

  newest-snoc :
      max_entries ≤ length after
      → newest ≡ drop (length after - max_entries) (ledger_lines u old) ++ line ∷ []
  unfolding newest
  newest-snoc h =
      drop-snoc (length after - max_entries) (ledger_lines u old) line
        (omega (arith, length-append (ledger_lines u old) (line ∷ [])))

  rotated : max_entries ≤ length after → Holds u codec line newest (codec.encode (written newest))
  rotated h = (
    written newest,
    codec.decode-encode (written newest)
        (written-IsPlain newest (All-mono (λ line k. k.1) newest newest-IsKept)),
    written-IsWhole newest,
    ledger_lines-written u newest newest-IsKept,
    (
      drop (length after - max_entries) (ledger_lines u old),
      chunks-written (nat_beq newline) refl newest
            (All-mono (λ line k. no_newline line k.1.0) newest newest-IsKept)
          ∙ newest-snoc h,
    ),
  )

  pruned :
      append_row u codec true max_entries file line
      ≡ prune_text u codec appended max_entries (old ++ ended line)
  unfolding append_row appended
  pruned = prune_decoded u codec appended (old ++ ended line) max_entries decode-appended

  pruned_short :
      leb (length after) max_entries ≡ true
      → prune_text u codec appended max_entries (old ++ ended line)
        ≡ stored appended (length after - max_entries)
  unfolding prune_text
  pruned_short short =
      rw (ledger_lines-append u old line whole kept, short) (ap (stored appended) (ground arith))

  pruned_long :
      leb (length after) max_entries ≡ false
      → prune_text u codec appended max_entries (old ++ ended line)
        ≡ stored (codec.encode (written newest)) (length after - max_entries)
  unfolding prune_text newest
  pruned_long long = rw (ledger_lines-append u old line whole kept, long) refl

  -- Where a ledger is a text that decodes and that ends its last line, an append of a line that is
  -- not blank, ends nowhere inside and holds no half of a surrogate pair, with room for a line at
  -- least, stores the ledger that holds the newest `max_entries` of the
  -- old lines and the new one, in order; it reports how many it evicted, and the text is whole
  -- again, with the new line its last.
  pub append_row-Holds :
      (file' : Bytes) × (append_row u codec true max_entries file line
        ≡ stored file' (length after - max_entries))
      × Holds u codec line (last_of max_entries after) file'
  append_row-Holds = elim (Bool-cases (leb (length after) max_entries)) [
    | inl short ↦ (appended, pruned ∙ pruned_short short, fits (ground arith))
    | inr long ↦ (
      codec.encode (written newest),
      pruned ∙ pruned_long long,
      unfold newest in rotated (ground arith),
    )
  ]
