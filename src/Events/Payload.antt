-- ===== src/Events/Payload.antt =====
-- The body of the loop of `check` in alpha-one/scripts/check_event_payloads.py, for an event and
-- what its file holds. `none`: `.get`, `len` or an index raises on a value of another type.
use alpha_one.Base.{Option, none, some, List, [], ◌∷◌, ◌++◌, map, Str, if◌then◌else◌}
use alpha_one.Base.{codes}
use alpha_one.Events.{
  Json, string, array, object, no_items, item, no_members, member, get, is_string, FieldPath,
  walk_schema,
}

pub data File : Type 0 where
  missing unreadable : File
  parsed : Json → File

pub data PayloadProblem : Type 0 where
  no_file not_json no_dialect no_envelope no_payload : PayloadProblem
  wrong_const : Option Json → PayloadProblem
  float_field : FieldPath → PayloadProblem

unfoldable pub and_then {ℓ κ} : {A : Type ℓ} {B : Type κ} → Option A → (A → Option B) → Option B
and_then none f = none
and_then (some x) f = f x

-- `v.get(k)`
unfoldable pub get_value : Str → Json → Option (Option Json)
unfolding get
get_value k (object ms) = some (get k ms)
get_value k _ = none

-- `v.get(k, d)`
unfoldable pub get_default : Str → Json → Json → Option Json
unfolding get
get_default k d (object ms) = some (elim (get k ms) [ none ↦ d | some v ↦ v ])
get_default k d _ = none

-- `len(v)`, and the two elements of a list of length 2. The index, or `.get` on what it gives,
-- raises on another value of length 2.
unfoldable pub pair_of : Json → Option (Option (Json × Json))
pair_of (array (item a (item b no_items))) = some (some (a, b))
pair_of (array _) = some none
pair_of (string (c ∷ d ∷ [])) = none
pair_of (string _) = some none
pair_of (object (member j v (member k w no_members))) = none
pair_of (object _) = some none
pair_of _ = none

-- `all_of[1].get("properties", {})`
unfoldable pub properties_of : Json → Option Json
unfolding get_default
properties_of second = get_default (codes "properties") (object no_members) second

unfoldable pub const_problems : Str → Json → Option (List PayloadProblem)
unfolding and_then get_value get_default properties_of is_string
const_problems name second = and_then (properties_of second) (λ properties.
    and_then (get_default (codes "type") (object no_members) properties) (λ type.
      and_then (get_value (codes "const") type)
        (λ const. some (if is_string name const then [] else wrong_const const ∷ []))))

unfoldable pub envelope_problems : Str → Option (Json × Json) → Option (List PayloadProblem)
unfolding const_problems and_then get_value
envelope_problems name none = some (no_envelope ∷ [])
envelope_problems name (some (a, b)) = and_then (get_value (codes "$ref") a) (λ ref.
    if is_string (codes "envelope.schema.json#/$defs/envelope") ref
    then const_problems name b
    else some (no_envelope ∷ []))

-- `payload`
unfoldable pub payload_of : Option (Json × Json) → Option (Option Json)
unfolding and_then get_value properties_of
payload_of none = some none
payload_of (some (a, b)) = and_then (properties_of b) (get_value (codes "payload"))

unfoldable pub schema_problems : Option Json → List PayloadProblem
unfolding walk_schema
schema_problems (some (object ms)) = map float_field (walk_schema (object ms) [])
schema_problems _ = no_payload ∷ []

-- The test of `doc.get("$schema")`.
unfoldable pub dialect_problems : Option Json → List PayloadProblem
unfolding is_string
dialect_problems dialect =
    if is_string (codes "https://json-schema.org/draft/2020-12/schema") dialect
    then []
    else no_dialect ∷ []

unfoldable pub document_problems : Str → Json → Option (List PayloadProblem)
unfolding and_then get_value get_default pair_of envelope_problems payload_of schema_problems
document_problems name doc = and_then (get_value (codes "$schema") doc) (λ dialect.
    and_then (get_default (codes "allOf") (array no_items) doc) (λ all_of.
      and_then (pair_of all_of) (λ pair. and_then (envelope_problems name pair) (λ composed.
        and_then (payload_of pair)
          (λ payload. some (dialect_problems dialect ++ (composed ++ schema_problems payload)))))))

unfoldable pub event_problems : Str → File → Option (List PayloadProblem)
unfolding document_problems
event_problems name missing = some (no_file ∷ [])
event_problems name unreadable = some (not_json ∷ [])
event_problems name (parsed doc) = document_problems name doc
