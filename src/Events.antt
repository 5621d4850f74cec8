-- ===== src/Events.antt =====
-- The payload gate, alpha-one/scripts/check_event_payloads.py: the walk over a payload schema for
-- money fields whose type is the text number. The JSON library is not part of the repository: a parsed file is a
-- value of `Json`, in which a number is kept as its literal.
pub mod Fields
pub mod Money
pub mod Payload
pub mod Reads
pub mod Composed
pub mod Catalog
mod Samples
use alpha_one.Base.{
  ℕ, zero, suc, ◌+◌, ◌&&◌, ◌||◌, not, Bool, true, false, Option, none, some, List, [], ◌∷◌, ◌++◌,
  Str, codes, str_eq, if◌then◌else◌,
}
use alpha_one.Events.Fields.{is_money}

mutual
  pub data Json : Type 0 where
    null : Json
    boolean : Bool → Json
    number : Str → Json
    string : Str → Json
    array : Items → Json
    object : Members → Json

  pub data Items : Type 0 where
    no_items : Items
    item : Json → Items → Items

  pub data Members : Type 0 where
    no_members : Members
    member : Str → Json → Members → Members

-- `d.get(k)`
unfoldable pub get : Str → Members → Option Json
get k no_members = none
get k (member j v ms) = if str_eq j k then some v else get k ms

-- `v == text`
unfoldable pub is_string : Str → Option Json → Bool
is_string text (some (string s)) = str_eq s text
is_string text _ = false

-- `t == "number" and MONEY_KEY.search(k) and not NOT_MONEY.search(k)`, for a value that is a
-- dictionary.
unfoldable pub float_money : Str → Json → Bool
unfolding get is_string
float_money k (object ms) = is_string (codes "number") (get (codes "type") ms) && is_money k
float_money k _ = false

-- A part of a path: `.k` or `[i]`.
pub data Part : Type 0 where
  dot : Str → Part
  index : ℕ → Part

abbrev pub FieldPath : Type 0
FieldPath = List Part

-- `walk(node, path)` and its two loops: the paths of the fields that it reports.
unfoldable mutual
  unfolding float_money

  pub walk_schema : Json → FieldPath → List FieldPath
  walk_schema (object ms) path = walk_members ms path
  walk_schema _ path = []

  -- `for k, v in node.items()`
  pub walk_members : Members → FieldPath → List FieldPath
  walk_members no_members path = []
  walk_members (member k v ms) path =
      (if float_money k v then (path ++ dot k ∷ []) ∷ [] else [])
      ++ (walk_value v (path ++ dot k ∷ []) ++ walk_members ms path)

  -- The two branches on the type of `v`.
  pub walk_value : Json → FieldPath → List FieldPath
  walk_value (array xs) path = walk_items xs 0 path
  walk_value (object ms) path = walk_members ms path
  walk_value _ path = []

  -- `for i, item in enumerate(v)`
  pub walk_items : Items → ℕ → FieldPath → List FieldPath
  walk_items no_items i path = []
  walk_items (item v xs) i path = walk_schema v (path ++ index i ∷ []) ++ walk_items xs (suc i) path
