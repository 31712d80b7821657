-- ===== src/Prelude/Int.antt =====
-- Python's `int`, over the native numbers; `negsuc n` is -(n + 1).
use Prim.Native.Nat.{ℕ}
use mathlib.Core.Bool.{Bool, true, false}
use gitreins.Prelude.Tests.{if◌then◌else◌, leb}

pub data ℤ : Type 0 where
  pos : ℕ → ℤ
  negsuc : ℕ → ℤ

-- `a <= b`
unfoldable pub leb_int : ℤ → ℤ → Bool
leb_int (pos a) (pos b) = leb a b
leb_int (pos a) (negsuc b) = false
leb_int (negsuc a) (pos b) = true
leb_int (negsuc a) (negsuc b) = leb b a

-- `max(a, b)` and `min(a, b)`
unfoldable pub max_int : ℤ → ℤ → ℤ
unfolding leb_int
max_int a b = if leb_int b a then a else b

unfoldable pub min_int : ℤ → ℤ → ℤ
unfolding leb_int
min_int a b = if leb_int a b then a else b
