-- ===== src/Prelude/Dict.antt =====
-- A `dict` with text keys, in insertion order: a write to a known key keeps its place.
use mathlib.Core.Path.{◌≡◌, ◌∙◌, refl}
use mathlib.Core.Option.{Option, none, some}
use mathlib.Core.List.{List, [], ◌∷◌, map}
use Prim.Native.String.{String}
use native.Mathlib.Omega.{arith}
use text.Mathlib.TextEquality.{eq_iff}
use text.Mathlib.TextPositions.{eq_refl}
use gitreins.Prelude.Tests.{if◌then◌else◌, ◌==◌, string_eq}

abbrev pub Dict {ℓ} : Type ℓ → Type ℓ
Dict V = List (String × V)

module _ {ℓ} {V : Type ℓ} where
  -- `d.get(key)`
  unfoldable pub lookup : String → Dict V → Option V
  lookup key [] = none
  lookup key (first ∷ others) = if first.0 == key then some first.1 else lookup key others

  -- `d[key] = value`
  unfoldable pub insert : String → V → Dict V → Dict V
  insert key value [] = (key, value) ∷ []
  insert key value (first ∷ others) =
      if first.0 == key then (first.0, value) ∷ others else first ∷ insert key value others

  -- `d.pop(key, None)`. A key stands once in a dict that `insert` has built; every entry goes.
  unfoldable pub remove : String → Dict V → Dict V
  remove key [] = []
  remove key (first ∷ others) =
      if first.0 == key then remove key others else first ∷ remove key others

  -- `list(d.values())`
  unfoldable pub values : Dict V → List V
  values = map (λ kept. kept.1)

  pub lookup-remove :
      (gone key : String) (d : Dict V)
      → lookup key (remove gone d) ≡ (if gone == key then none else lookup key d)
  unfolding lookup remove
  lookup-remove gone key [] = ground arith
  lookup-remove gone key ((held, value) ∷ others) =
      ground
        (arith, lookup-remove gone key others, eq_iff held gone, eq_iff held key, eq_iff gone key)

  pub lookup-insert :
      (new key : String) (value : V) (d : Dict V)
      → lookup key (insert new value d) ≡ (if new == key then some value else lookup key d)
  unfolding lookup insert
  lookup-insert new key value [] = refl
  lookup-insert new key value ((held, old) ∷ others) =
      ground (
        arith,
        lookup-insert new key value others,
        eq_iff held new,
        eq_iff held key,
        eq_iff new key,
      )

  pub lookup-insert_self :
      (key : String) (value : V) (d : Dict V) → lookup key (insert key value d) ≡ some value
  lookup-insert_self key value d = lookup-insert key key value d ∙ rw (eq_refl key)
