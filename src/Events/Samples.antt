-- ===== src/Events/Samples.antt =====
-- A small payload schema, and what the theorems say of it.
use alpha_one.Base.{some, true, false, [], ◌∷◌, str_eq, ◌≡◌, refl, ◌↔◌}
use alpha_one.Base.{codes}
use alpha_one.Events.Fields.{is_money}
use alpha_one.Events.{
  Json, string, array, object, no_items, item, Members, no_members, member, dot, index, walk_schema,
  get, is_string,
}
use alpha_one.Events.Payload.{parsed, event_problems, wrong_const, dialect_problems}
use alpha_one.Events.Composed.{IsComposed, event_problems-nil}
use alpha_one.Tables.{span}
use alpha_one.Base.{split_char, strip, mem, Str, All, ◌≢◌, if◌then◌else◌}
use alpha_one.Events.Payload.{File, missing}
use alpha_one.Events.Catalog.{catalog_events, check, exit_code, no_events}
use alpha_one.Events.Catalog.Passing.{HasSchema, check-passing}
use alpha_one.Events.Money.{Clean, walk_schema-nil}

number_type : Members
number_type = member (codes "type") (string (codes "number")) no_members

-- Names that the two regular expressions tell apart.
is_money-sample :
    (is_money (codes "fee_total") ≡ true)
    × (is_money (codes "Split_a_bps") ≡ true)
    × (is_money (codes "coffee") ≡ false)
    × (is_money (codes "profit_split") ≡ false)
unfolding is_money
is_money-sample = (refl, refl, refl, refl)

-- `{"items": {"oneOf": [{"fee": {"type": "number"}}]}}`
abbrev schema : Members
unfolding number_type
schema =
    member (codes "items")
      (object (
        member (codes "oneOf")
          (array (item (object (member (codes "fee") (object number_type) no_members)) no_items))
          no_members))
      no_members

walk_schema-sample :
    walk_schema (object schema) []
    ≡ (dot (codes "items") ∷ dot (codes "oneOf") ∷ index 0 ∷ dot (codes "fee") ∷ []) ∷ []
unfolding walk_schema is_money get is_string str_eq number_type
walk_schema-sample = refl

walk_schema-nil_example : (walk_schema (object schema) [] ≡ []) ↔ Clean schema
walk_schema-nil_example = walk_schema-nil schema []

-- The payload file of an event, with an integer amount.
abbrev payload_file : Json
payload_file = object (
    member (codes "$schema") (string (codes "https://json-schema.org/draft/2020-12/schema")) (
      member (codes "allOf")
        (array (
          item
            (object (
              member (codes "$ref") (string (codes "envelope.schema.json#/$defs/envelope"))
                no_members))
            (item
              (object (
                member (codes "properties")
                  (object (
                    member (codes "type")
                      (object (member (codes "const") (string (codes "fee.paid")) no_members))
                      (member (codes "payload")
                        (object (
                          member (codes "fee")
                            (object (member (codes "type") (string (codes "integer")) no_members))
                            no_members))
                        no_members)))
                  no_members))
              no_items)))
        no_members))

event_problems-sample :
    (event_problems (codes "fee.paid") (parsed payload_file) ≡ some [])
    × (event_problems (codes "fee.due") (parsed payload_file)
        ≡ some (wrong_const (some (string (codes "fee.paid"))) ∷ []))
unfolding event_problems get is_string str_eq dialect_problems walk_schema
event_problems-sample = (refl, refl)

event_problems-nil_example :
    (event_problems (codes "fee.paid") (parsed payload_file) ≡ some [])
    ↔ IsComposed (codes "fee.paid") payload_file
event_problems-nil_example = event_problems-nil (codes "fee.paid") payload_file

-- A catalog with one event.
abbrev catalog : Str
catalog =
    codes
      "# Events\n\n| Event | A | B | C | Schema |\n|---|---|---|---|---|\n| fee.paid | a | b | c | `payloads/fee.json` |\n"

abbrev files : Str → File
files path = if str_eq path (codes "payloads/fee.json") then parsed payload_file else missing

check-passing_example :
    (exit_code (check files catalog) ≡ 0)
    ↔ ((catalog_events catalog ≢ []) × All (HasSchema files) (catalog_events catalog))
check-passing_example = check-passing files catalog

catalog_events-sample : catalog_events catalog ≡ (codes "fee.paid", codes "payloads/fee.json") ∷ []
unfolding catalog_events split_char strip mem str_eq span
catalog_events-sample = refl

check-sample :
    (check files catalog ≡ some []) × (check files (codes "no table") ≡ some (no_events ∷ []))
unfolding check split_char strip mem str_eq span dialect_problems
check-sample = (refl, refl)
