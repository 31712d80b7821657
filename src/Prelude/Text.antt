-- ===== src/Prelude/Text.antt =====
-- Text as the list of its code points, with the methods of `str` that the sources call.
-- Which code points are white space and how they change case is Unicode's table, a parameter.
use Prim.Native.Char.{code}
use Prim.Native.Nat.{ℕ}
use mathlib.Core.Bool.{Bool, true, false, ◌&&◌}
use mathlib.Core.List.{List, [], ◌∷◌, ◌++◌, reverse, flat_map}
use gitreins.Prelude.Tests.{if◌then◌else◌, nat_beq}
use Prim.Native.String.{String}

abbrev pub Text : Type 0
Text = List ℕ

-- The code points of a literal.
abbrev pub codes : String → Text
codes String.[] = []
codes (String.◌∷◌ c s) = code c ∷ codes s

pub record Unicode : Type 0 where
  pub is_space : ℕ → Bool
  -- `upper` and `casefold` act on each code point by itself.
  pub upper_of : ℕ → Text
  pub fold_of : ℕ → Text

-- `s.startswith(t)`
unfoldable pub starts_with : Text → Text → Bool
starts_with s [] = true
starts_with [] (c ∷ t) = false
starts_with (d ∷ s) (c ∷ t) = nat_beq d c && starts_with s t

-- `sep.join(parts)`
unfoldable pub join : Text → List Text → Text
join sep [] = []
join sep (p ∷ []) = p
join sep (p ∷ q ∷ ps) = p ++ (sep ++ join sep (q ∷ ps))

module _ (u : Unicode) where
  open u use {is_space, upper_of, fold_of}

  lstrip : Text → Text
  lstrip [] = []
  lstrip (c ∷ s) = if is_space c then lstrip s else c ∷ s

  unfoldable pub strip : Text → Text
  unfolding lstrip
  strip s = reverse (lstrip (reverse (lstrip s)))

  -- A word that is read so far is put down when it is not empty.
  put_word : Text → List Text → List Text
  put_word [] ws = ws
  put_word (c ∷ w) ws = (c ∷ w) ∷ ws

  split_from : Text → Text → List Text
  split_from w [] = put_word w []
  split_from w (c ∷ s) =
      if is_space c then put_word w (split_from [] s) else split_from (w ++ c ∷ []) s

  -- `s.split()`
  unfoldable pub split : Text → List Text
  unfolding split_from put_word
  split s = split_from [] s

  unfoldable pub upper : Text → Text
  upper s = flat_map upper_of s

  unfoldable pub casefold : Text → Text
  casefold s = flat_map fold_of s
