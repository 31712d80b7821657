-- ===== src/Gate/Value.antt =====
-- The dynamic values that engine/gate.py reads: a live object and a persisted record are read by
-- the same functions.
use gitreins.Prelude.{Bool, true, false, not, List, [], ◌∷◌, Option, none, some}
use gitreins.Prelude.{String, if◌then◌else◌, ◌==◌, string_eq, is_empty}
use gitreins.Prelude.Text.{Text, Unicode}

-- `atom` is any other scalar (a number or a `bool`), by its truth value and its `str`.
mutual
  pub data Value : Type 0 where
    null : Value
    atom : Bool → Text → Value
    str : Text → Value
    list : Items → Value
    dict : Fields → Value
    object : Fields → Value

  pub data Items : Type 0 where
    stop : Items
    more : (first : Value) (others : Items) → Items

  pub data Fields : Type 0 where
    bare : Fields
    entry : (key : String) (value : Value) (others : Fields) → Fields

unfoldable pub elems : Items → List Value
elems stop = []
elems (more v vs) = v ∷ elems vs

-- `mapping.values()`
unfoldable pub field_values : Fields → List Value
field_values bare = []
field_values (entry k v fs) = v ∷ field_values fs

unfoldable pub find_field : String → Fields → Option Value
find_field key bare = none
find_field key (entry k v fs) = if k == key then some v else find_field key fs

abbrev pub or_default : Option Value → Value → Value
or_default none default = default
or_default (some v) default = v

-- `_field`: a key of a mapping, or an attribute of anything else.
unfoldable pub get_field : Value → String → Value → Value
get_field (dict fs) key default = or_default (find_field key fs) default
get_field (object fs) key default = or_default (find_field key fs) default
get_field _ key default = default

abbrev pub is_mapping : Value → Bool
is_mapping (dict fs) = true
is_mapping _ = false

abbrev pub is_null : Value → Bool
is_null null = true
is_null _ = false

-- `bool(v)`
unfoldable pub truthy : Value → Bool
unfolding elems field_values
truthy null = false
truthy (atom b s) = b
truthy (str s) = not (is_empty s)
truthy (list vs) = not (is_empty (elems vs))
truthy (dict fs) = not (is_empty (field_values fs))
truthy (object fs) = true

-- `isinstance(v, (list, tuple))`, with the elements.
unfoldable pub sequence : Value → List Value
sequence (list vs) = elems vs
sequence _ = []

-- What the sources take from the Python runtime: Unicode's tables, and `str` of a container.
pub record Runtime : Type 0 where
  pub unicode : Unicode
  pub open unicode use *
  pub show : Value → Text

-- `str(v or "")`
unfoldable pub text_or_empty : Runtime → Value → Text
unfolding truthy
text_or_empty py (str s) = s
text_or_empty py (atom b s) = if b then s else []
text_or_empty py null = []
text_or_empty py v = if truthy v then py.show v else []
