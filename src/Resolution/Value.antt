-- ===== src/Resolution/Value.antt =====
-- engine/resolution.py, the JSON that a response holds, and the numbers in it.
use gitreins.Prelude.{
  ℕ, Bool, false, [], ◌∷◌, Option, none, some, String, if◌then◌else◌, ◌==◌, string_eq,
}
use gitreins.Prelude.Dict.{Dict}
use gitreins.Prelude.Int.{ℤ}

-- Python's floats. `decimal n k` is n / 10 ^ k, `parse` is `float(s)` and `int_of_text` is `int(s)`,
-- none when they raise; `rounded` is `int(round(x))`, and `finite` says neither NaN nor infinite.
pub record Real : Type 1 where
  pub F : Type 0
  pub decimal : ℕ → ℕ → F
  pub of_int : ℤ → F
  pub parse : String → Option F
  pub finite : F → Bool
  pub at_least : F → F → Bool
  pub greater : F → F → Bool
  pub times : F → F → F
  pub over : F → F → F
  pub ceiling : F → ℤ
  pub rounded : F → ℤ
  pub is_integer : F → Bool
  pub truncated : F → ℤ
  pub int_of_text : String → Option ℤ

-- A list is opaque: nothing reads its items. A whole number is one that a float can hold; on another
-- `float(value)` raises `OverflowError`, which is not modelled.
mutual
  pub data Json (F : Type 0) : Type 0 where
    null : Json F
    bool : Bool → Json F
    int : ℤ → Json F
    float : F → Json F
    string : String → Json F
    array : Json F
    object : Members F → Json F

  pub data Members (F : Type 0) : Type 0 where
    empty : Members F
    member : (key : String) (value : Json F) (others : Members F) → Members F

module _ {F : Type 0} where
  -- `d.get(key)` of a `dict`
  unfoldable pub get_member : String → Members F → Json F
  get_member key empty = null
  get_member key (member k v others) = if k == key then v else get_member key others

  unfoldable pub entries : Members F → Dict (Json F)
  entries empty = []
  entries (member k v others) = (k, v) ∷ entries others

  abbrev pub is_text : String → Json F → Bool
  is_text word (string s) = s == word
  is_text word _ = false

module _ (real : Real) where
  open real use {F, of_int, parse}

  -- `float(value)` of an int, a float or a text that is no bool.
  unfoldable pub as_float : Json F → Option F
  as_float (int n) = some (of_int n)
  as_float (float x) = some x
  as_float (string s) = parse s
  as_float _ = none
