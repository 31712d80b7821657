-- ===== src/QaLedger/Lines.antt =====
-- The lines of a ledger's text. Reading in text mode turns every `\r` and `\r\n` into `\n`, so no
-- return is left in it.
use gitreins.Prelude.{
  ℕ, ◌≡◌, ◌∙◌, ◌⊎◌, inl, inr, refl, sym, ap, subst, Bool, true, false, List, [], ◌∷◌, ◌++◌, All,
  All-append, Bool-cases,
}
use gitreins.Prelude.Text.{Text}
use gitreins.EvidenceBounds.Lines.{newline}
use mathlib.Core.List.{append_assoc, append-nil}

-- `line + "\n"`
abbrev pub ended : Text → Text
ended line = line ++ newline ∷ []

-- `"".join(f"{line}\n" for line in lines)`
unfoldable pub written : List Text → Text
written [] = []
written (line ∷ lines) = ended line ++ written lines

-- A text that is empty or whose last line is ended.
abbrev pub IsWhole : Text → Type 0
IsWhole s = (s ≡ []) ⊎ ((t : Text) × (s ≡ ended t))

module _ (ends : ℕ → Bool) where
  last_chunk : Text → List Text
  last_chunk [] = []
  last_chunk (c ∷ line) = (c ∷ line) ∷ []

  -- The lines of a text, without the code points that end them; `line` is read so far.
  unfoldable pub chunks : Text → Text → List Text
  unfolding last_chunk
  chunks line [] = last_chunk line
  chunks line (c ∷ s) = elim (ends c) [
    | true ↦ line ∷ chunks [] s
    | false ↦ chunks (line ++ c ∷ []) s
  ]

  abbrev pub HasNoEnd : Text → Type 0
  HasNoEnd = All (λ c. ends c ≡ false)

  module _ (newline_ends : ends newline ≡ true) where
    pub chunks-ended :
        (s line t : Text) → chunks line (ended s ++ t) ≡ chunks line (ended s) ++ chunks [] t
    unfolding chunks
    chunks-ended [] line t = rw newline_ends refl
    chunks-ended (c ∷ s) line t = elim (Bool-cases (ends c)) [
      | inl e ↦ rw e (ap (◌∷◌ line) (chunks-ended s [] t))
      | inr e ↦ rw e (chunks-ended s (line ++ c ∷ []) t)
    ]

    chunks-read : (s line : Text) → HasNoEnd s → chunks line (ended s) ≡ (line ++ s) ∷ []
    unfolding chunks
    chunks-read [] line h = rw (newline_ends, append-nil line) refl
    chunks-read (c ∷ s) line h =
        rw h.0 (chunks-read s (line ++ c ∷ []) h.1 ∙ rw (append_assoc line (c ∷ []) s) refl)

    -- A line that is written is read.
    pub chunks-line : (s : Text) → HasNoEnd s → chunks [] (ended s) ≡ s ∷ []
    chunks-line s h = chunks-read s [] h

    -- Lines that are written are read.
    pub chunks-written :
        (lines : List Text) → All HasNoEnd lines → chunks [] (written lines) ≡ lines
    unfolding written
    chunks-written [] h = unfold chunks in refl
    chunks-written (line ∷ lines) h =
        chunks-ended line [] (written lines)
        ∙ rw (chunks-line line h.0, chunks-written lines h.1) refl

  All-snoc : (line : Text) (c : ℕ) → HasNoEnd line → ends c ≡ false → HasNoEnd (line ++ c ∷ [])
  All-snoc line c h e = All-append (λ d. ends d ≡ false) line (c ∷ []) h (e, tt)

  chunks_end : (c : ℕ) (line s : Text) → ends c ≡ true → chunks line (c ∷ s) ≡ line ∷ chunks [] s
  unfolding chunks
  chunks_end c line s e = rw (e, chunks) refl

  chunks_on :
      (c : ℕ) (line s : Text) → ends c ≡ false → chunks line (c ∷ s) ≡ chunks (line ++ c ∷ []) s
  unfolding chunks
  chunks_on c line s e = rw (e, chunks) refl

  last_chunk-HasNoEnd : (line : Text) → HasNoEnd line → All HasNoEnd (chunks line [])
  unfolding chunks
  last_chunk-HasNoEnd [] h = tt
  last_chunk-HasNoEnd (c ∷ line) h = (h, tt)

  pub chunks-HasNoEnd : (s line : Text) → HasNoEnd line → All HasNoEnd (chunks line s)
  chunks-HasNoEnd [] line h = last_chunk-HasNoEnd line h
  chunks-HasNoEnd (c ∷ s) line h = elim (Bool-cases (ends c)) [
    | inl e ↦ subst (All HasNoEnd) (sym (chunks_end c line s e)) (h, chunks-HasNoEnd s [] tt)
    | inr e ↦
        subst (All HasNoEnd) (sym (chunks_on c line s e))
          (chunks-HasNoEnd s (line ++ c ∷ []) (All-snoc line c h e))
  ]

module _ (ends : ℕ → Bool) (newline_ends : ends newline ≡ true) where
  -- A line that is appended to a whole text is its last line.
  pub chunks-append :
      (s line : Text)
      → IsWhole s
      → HasNoEnd ends line
      → chunks ends [] (s ++ ended line) ≡ chunks ends [] s ++ line ∷ []
  chunks-append s line (inl e) h = rw e (unfold chunks in chunks-line ends newline_ends line h)
  chunks-append s line (inr (t, e)) h = rw e (
      chunks-ended ends newline_ends t [] (ended line)
      ∙ ap (λ rest. chunks ends [] (ended t) ++ rest) (chunks-line ends newline_ends line h))
