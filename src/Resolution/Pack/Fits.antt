-- ===== src/Resolution/Pack/Fits.antt =====
-- engine/resolution.py: what `pack_blocks` ships fits the budget, and nothing goes unmentioned.
use gitreins.Prelude.{
  ℕ, ◌+◌, ◌-◌, ◌*◌, ◌/◌, ◌≤◌, ◌≡◌, refl, sym, ap, subst, ◌∙◌, ◌⊎◌, inl, inr, Bool, true, false,
  ◌&&◌, ◌||◌, List, [], ◌∷◌, ◌++◌, map, none, some,
}
use gitreins.Prelude.{
  arith, beq_refl, leb, ltb, length, is_empty, contains, text_eq, if_ind, if◌then◌else◌, All,
  Comparable, and_true,
}
use gitreins.Prelude.Text.{Text, Unicode, codes, join}
use gitreins.EvidenceBounds.Lines.{splitlines}
use gitreins.EvidenceBounds.Bound.{bound_step_evidence}
use gitreins.Resolution.Bands.{ManifestEntry}
use gitreins.Resolution.Pack.{
  Block, PackedBundle, Packing, estimate_tokens, utf8_length, strip_newlines, entry_for, no_packing,
  drop_block, ship, place, pack_block, pack_all, pack_blocks,
}

-- The tokens of all parts.
unfoldable pub total_tokens : List Text → ℕ
total_tokens [] = 0
total_tokens (part ∷ parts) = estimate_tokens part + total_tokens parts

total_tokens-snoc :
    (ps : List Text) (p : Text) → total_tokens (ps ++ p ∷ []) ≡ total_tokens ps + estimate_tokens p
unfolding total_tokens
total_tokens-snoc [] p = omega arith
total_tokens-snoc (q ∷ ps) p = omega (arith, total_tokens-snoc ps p)

module _ {F : Type 0} where
  -- The entries describe the parts, one for one and in order.
  unfoldable pub Describes : List (ManifestEntry F) → List Text → Type 0
  Describes [] [] = Unit
  Describes (e ∷ es) (p ∷ ps) =
      ((e.bytes ≡ utf8_length p) × (e.lines ≡ length (splitlines p))) × Describes es ps
  Describes _ _ = ⊥

  Describes-snoc :
      (es : List (ManifestEntry F)) (ps : List Text) (e : ManifestEntry F) (p : Text)
      → Describes es ps
      → (e.bytes ≡ utf8_length p) × (e.lines ≡ length (splitlines p))
      → Describes (es ++ e ∷ []) (ps ++ p ∷ [])
  unfolding Describes
  Describes-snoc [] [] e p d h = (h, tt)
  Describes-snoc (f ∷ es) (q ∷ ps) e p d h = (d.0, Describes-snoc es ps e p d.1 h)
  Describes-snoc [] (q ∷ ps) e p d h = absurd d
  Describes-snoc (f ∷ es) [] e p d h = absurd d

module _ {ℓ} {A : Type ℓ} ⦃c : Comparable A⦄ where
  contains-append :
      (xs ys : List A) (a : A) → contains (xs ++ ys) a ≡ (contains xs a || contains ys a)
  unfolding contains
  contains-append [] ys a = refl
  contains-append (x ∷ xs) ys a = ground (arith, contains-append xs ys a)

  contains-snoc : (xs : List A) (a : A) → contains (xs ++ a ∷ []) a ≡ true
  unfolding contains
  contains-snoc xs a = ground (arith, contains-append xs (a ∷ []) a, beq_refl a)

  contains-grow : (xs ys : List A) (a : A) → contains xs a ≡ true → contains (xs ++ ys) a ≡ true
  contains-grow xs ys a h = ground (arith, contains-append xs ys a)

map-snoc :
    {A B : Type 0} (f : A → B) (xs : List A) (x : A) → map f (xs ++ x ∷ []) ≡ map f xs ++ f x ∷ []
map-snoc f [] x = refl
map-snoc f (y ∷ xs) x = ap (λ r. f y ∷ r) (map-snoc f xs x)

module _ {F : Type 0} (budget : ℕ) where
  -- The loop's invariant.
  abbrev IsFit : Packing F → Type 0
  IsFit p =
      (total_tokens p.parts ≡ p.used)
      × (p.used ≤ budget)
      × Describes p.entries p.parts
      × (map (λ (e : ManifestEntry F). e.file) p.entries ≡ p.seen_files)

  -- A file is among those that ship or those that are dropped.
  abbrev Named : Packing F → Text → Type 0
  Named p file = (contains p.seen_files file ≡ true) ⊎ (contains p.dropped file ≡ true)

  -- A later packing fits too, and names what the earlier one did.
  abbrev Extends : Packing F → Packing F → Type 0
  Extends p q = IsFit q × ((file : Text) → Named p file → Named q file)

  drop_block-Extends : (block : Block F) (p : Packing F) → IsFit p → Extends p (drop_block block p)
  drop_block-Extends block p fit =
      (fit, λ file. elim [ inl h ↦ inl h | inr h ↦ inr (contains-grow p.dropped _ file h) ])

  ship-Extends :
      (block : Block F) (text : Text) (truncated : Bool) (p : Packing F)
      → IsFit p
      → estimate_tokens text ≤ budget - p.used
      → Extends p (ship block text truncated p)
  unfolding entry_for
  ship-Extends block text truncated p (spent, within, described, seen) room = (
    (
      omega (arith, total_tokens-snoc p.parts text),
      omega arith,
      Describes-snoc p.entries p.parts (entry_for block text truncated) text described (refl, refl),
      map-snoc (λ (e : ManifestEntry F). e.file) p.entries (entry_for block text truncated)
          ∙ ap (λ files. files ++ block.file ∷ []) seen,
    ),
    λ file. elim [ inl h ↦ inl (contains-grow p.seen_files _ file h) | inr h ↦ inr h ],
  )

  module _ (u : Unicode) (two_digits : F → Text) (dedupe : Bool) where
    abbrev Places : Block F → Packing F → Packing F → Type 0
    Places block p q = Extends p q × Named q block.file

    drop-Places : (block : Block F) (p : Packing F) → IsFit p → Places block p (drop_block block p)
    drop-Places block p fit =
        (drop_block-Extends block p fit, inr (contains-snoc p.dropped block.file))

    place-Places :
        (block : Block F) (text : Text) (p : Packing F)
        → IsFit p
        → Places block p (place u two_digits dedupe budget block text p)
    place-Places block text p fit =
        let clipped_text = bound_step_evidence u text ((budget - p.used) * 7 / 2) in
        if_ind (Places block p) (leb (estimate_tokens text) (budget - p.used))
          (λ h. (
            ship-Extends block text block.truncated p fit (ground arith),
            inl (contains-snoc p.seen_files block.file),
          ))
          (λ _.
            if_ind (Places block p) (ltb (budget - p.used) 200) (λ _. drop-Places block p fit)
              (λ _.
                if_ind (Places block p)
                  (leb (length text) (length clipped_text)
                    || ltb (budget - p.used) (estimate_tokens clipped_text))
                  (λ _. drop-Places block p fit)
                  (λ h. (
                    ship-Extends block clipped_text true p fit (ground arith),
                    inl (contains-snoc p.seen_files block.file),
                  ))))

    -- What becomes of a block.
    abbrev Settled : Packing F → Block F → Type 0
    Settled q block = (is_empty (strip_newlines block.text) ≡ true) ⊎ Named q block.file

    pack_block-Settled :
        (block : Block F) (p : Packing F)
        → IsFit p
        → Extends p (pack_block u two_digits dedupe budget block p)
          × Settled (pack_block u two_digits dedupe budget block p) block
    unfolding pack_block
    pack_block-Settled block p fit =
        if_ind (λ q. Extends p q × Settled q block) (is_empty (strip_newlines block.text))
          (λ h. ((fit, λ file h. h), inl h))
          (λ _.
            if_ind (λ q. Extends p q × Settled q block) (dedupe && contains p.seen_files block.file)
              (λ h. ((fit, λ file h. h), inr (inl (and_true _ _ h).1)))
              (λ _. let (e, n) = place-Places block _ p fit in (e, inr n)))

    Settled-Extends :
        (p q : Packing F) (block : Block F) → Extends p q → Settled p block → Settled q block
    Settled-Extends p q block e (inl h) = inl h
    Settled-Extends p q block e (inr n) = inr (e.1 block.file n)

    pack_all-Settled :
        (blocks : List (Block F)) (p : Packing F)
        → IsFit p
        → Extends p (pack_all u two_digits dedupe budget blocks p)
          × All (Settled (pack_all u two_digits dedupe budget blocks p)) blocks
    unfolding pack_all
    pack_all-Settled [] p fit = ((fit, λ file h. h), tt)
    pack_all-Settled (block ∷ blocks) p fit =
        let (e, s) = pack_block-Settled block p fit in
        let q = pack_block u two_digits dedupe budget block p in
        let (f, t) = pack_all-Settled blocks q e.0 in
        (
          (f.0, λ file n. f.1 file (e.1 file n)),
          (Settled-Extends q (pack_all u two_digits dedupe budget blocks q) block f s, t),
        )

-- A bundle that fits `budget` and accounts for `blocks`.
pub record IsPacked {F : Type 0} (budget : ℕ) (blocks : List (Block F)) (b : PackedBundle F)
    : Type 0 where
  pub parts : List Text
  pub joined : b.text ≡ join (codes "\n\n") parts
  pub within : total_tokens parts ≤ budget
  pub described : Describes b.entries parts
  pub accounted :
      All
        (λ (block : Block F).
          (is_empty (strip_newlines block.text) ≡ true)
          ⊎ ((contains (map (λ (e : ManifestEntry F). e.file) b.entries) block.file ≡ true)
              ⊎ (contains b.dropped_files block.file ≡ true)))
        blocks

All-map :
    {A : Type 0} {P Q : A → Type 0} (f : (a : A) → P a → Q a) (xs : List A) → All P xs → All Q xs
All-map f [] h = tt
All-map f (x ∷ xs) h = (f x h.0, All-map f xs h.1)

some_of_else : {A : Type 0} (b : Bool) {x y : A} → (if b then none else some x) ≡ some y → x ≡ y
some_of_else true h = cc
some_of_else false h = cc

module _ {F : Type 0} (u : Unicode) (two_digits : F → Text) where
  -- The parts of a packed bundle cost at most the budget less the reserve, by the estimate; the
  -- entries describe the parts in order, with the length of each in bytes and lines; and every
  -- block is blank, or its file is among the entries, or among the files that are dropped by name.
  pub pack_blocks-IsPacked :
      (max_tokens reserve_tokens : ℕ) (dedupe : Bool) (blocks : List (Block F)) (b : PackedBundle F)
      → pack_blocks u two_digits max_tokens reserve_tokens dedupe blocks ≡ some b
      → IsPacked (max_tokens - reserve_tokens) blocks b
  unfolding pack_blocks total_tokens Describes
  pack_blocks-IsPacked max_tokens reserve_tokens dedupe blocks b h =
      let budget = max_tokens - reserve_tokens in
      let p = pack_all u two_digits dedupe budget blocks no_packing in
      let (((spent, within, described, seen), _), settled) =
        pack_all-Settled budget u two_digits dedupe blocks no_packing
          (refl, omega arith, tt, refl) in
      subst (IsPacked budget blocks) (some_of_else (is_empty p.parts) h) record {
        parts = p.parts;
        joined = refl;
        within = omega arith;
        described = described;
        accounted =
            subst
              (λ files.
                All
                  (λ (block : Block F).
                    (is_empty (strip_newlines block.text) ≡ true)
                    ⊎ ((contains files block.file ≡ true) ⊎ (contains p.dropped block.file ≡ true)))
                  blocks)
              (sym seen) settled;
      }
