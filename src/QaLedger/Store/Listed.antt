-- ===== src/QaLedger/Store/Listed.antt =====
-- An appended row is the last one that `list_rows` returns.
use gitreins.Prelude.{
  ℕ, ◌-◌, ◌≤◌, ◌≡◌, ◌∙◌, refl, sym, ap, Bool, true, false, List, [], ◌∷◌, ◌++◌, Option, none, some,
  is_empty, length, arith,
}
use mathlib.Core.List.{append_assoc}
use gitreins.Prelude.Text.{Text, Unicode, strip}
use gitreins.QaLedger.Lines.{IsWhole}
use gitreins.QaLedger.Store.{
  Bytes, Codec, stored, last_of, ledger_lines, append_row, row_of, rows_of, list_rows,
}
use gitreins.QaLedger.Store.Appended.{IsKept, Holds, append_row-Holds}

module _ {J : Type 0} (u : Unicode) (codec : Codec) (loads : Text → Option J)
    (is_object : J → Bool) where
  rows_of-append :
      (xs ys : List Text)
      → rows_of u codec loads is_object (xs ++ ys)
        ≡ rows_of u codec loads is_object xs ++ rows_of u codec loads is_object ys
  unfolding rows_of
  rows_of-append [] ys = refl
  rows_of-append (x ∷ xs) ys =
      ap (λ rest. row_of u codec loads is_object x ++ rest) (rows_of-append xs ys)
      ∙ sym (
          append_assoc (row_of u codec loads is_object x) (rows_of u codec loads is_object xs)
            (rows_of u codec loads is_object ys))

  row_of_row :
      (line : Text) (row : J)
      → is_empty (strip u line) ≡ false
      → loads (strip u line) ≡ some row
      → is_object row ≡ true
      → rows_of u codec loads is_object (line ∷ []) ≡ row ∷ []
  unfolding rows_of row_of
  row_of_row line row shown read object = rw (shown, read, object) refl

  list_rows-Holds :
      (line : Text) (row : J) (lines : List Text) (file : Bytes)
      → Holds u codec line lines file
      → is_empty (strip u line) ≡ false
      → loads (strip u line) ≡ some row
      → is_object row ≡ true
      → (front : List J) × (list_rows u codec loads is_object file none ≡ front ++ row ∷ [])
  unfolding list_rows
  list_rows-Holds line row lines file (text, decoded, whole, held, (front, read)) shown parsed
        object =
      (
        rows_of u codec loads is_object front,
        rw (codec.decode_replacing-eq file text decoded, read)
            (rows_of-append front (line ∷ [])
              ∙ ap (λ rest. rows_of u codec loads is_object front ++ rest)
                  (row_of_row line row shown parsed object)),
      )

  -- An append to a whole ledger of a line that is the JSON of an object, is not blank, ends nowhere
  -- inside and holds no half of a surrogate pair, with room for a line at least, stores a ledger whose last listed row is that object, whatever was evicted.
  pub append_row-listed :
      (max_entries : ℕ) (file : Bytes) (old line : Text) (row : J)
      → codec.decode file ≡ some old
      → IsWhole old
      → IsKept u line
      → 1 ≤ max_entries
      → loads (strip u line) ≡ some row
      → is_object row ≡ true
      → (file' : Bytes) × (front : List J) × (append_row u codec true max_entries file line
          ≡ stored file' (length (ledger_lines u old ++ line ∷ []) - max_entries))
        × (list_rows u codec loads is_object file' none ≡ front ++ row ∷ [])
  append_row-listed max_entries file old line row decoded whole kept room parsed object =
      let (file', stores, holds) =
        append_row-Holds u codec max_entries file old line decoded whole kept room in
      let shown : is_empty (strip u line) ≡ false = ground arith in
      let (front, listed) =
        list_rows-Holds line row (last_of max_entries (ledger_lines u old ++ line ∷ [])) file' holds
          shown parsed object in
      (file', front, stores, listed)
