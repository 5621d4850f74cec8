-- ===== src/Events/Composed.antt =====
-- When a payload file passes the gate of alpha-one/scripts/check_event_payloads.py.
use alpha_one.Base.{
  Option, none, some, List, [], ◌∷◌, ◌++◌, map, Str, str_eq, ◌≡◌, ◌∙◌, refl, ap, ap₂, str_eq_refl,
  Bool-cases, Option-cases, ◌↔◌, inl, inr, sym, some-injective,
}
use alpha_one.Base.{codes, append-eq-nil}
use alpha_one.Events.{
  Json, null, boolean, number, string, array, object, no_items, item, Members, get, is_string,
  walk_schema,
}
use alpha_one.Events.Money.{Clean, walk_schema-nil}
use alpha_one.Events.Payload.{
  parsed, no_dialect, and_then, get_value, get_default, pair_of, properties_of, const_problems,
  envelope_problems, payload_of, schema_problems, document_problems, event_problems, float_field,
  dialect_problems,
}
use alpha_one.Events.Reads.{
  get_value-some, get_default-some, pair_of-some, is_string-some, report-nil, const-nil,
}

map-nil {ℓ κ} : {A : Type ℓ} {B : Type κ} (f : A → B) (xs : List A) → map f xs ≡ [] → xs ≡ []
map-nil f [] h = refl
map-nil f (x ∷ xs) h = cc

schema-nil :
    (payload : Option Json)
    → schema_problems payload ≡ []
    → (ms : Members) × (payload ≡ some (object ms)) × Clean ms
unfolding schema_problems
schema-nil (some (object ms)) h =
    (ms, refl, (walk_schema-nil ms []).0 (map-nil float_field (walk_schema (object ms) []) h))
schema-nil none h = cc
schema-nil (some null) h = cc
schema-nil (some (boolean b)) h = cc
schema-nil (some (number n)) h = cc
schema-nil (some (string s)) h = cc
schema-nil (some (array xs)) h = cc

-- What the gate asks of a payload schema for an event.
pub record IsComposed (name : Str) (doc : Json) : Type 0 where
  pub top : Members
  pub first : Members
  pub second : Members
  pub props : Members
  pub types : Members
  pub payload : Members
  is_doc : doc ≡ object top
  dialect :
      get (codes "$schema") top
      ≡ some (string (codes "https://json-schema.org/draft/2020-12/schema"))
  all_of :
      get (codes "allOf") top ≡ some (array (item (object first) (item (object second) no_items)))
  envelope : get (codes "$ref") first ≡ some (string (codes "envelope.schema.json#/$defs/envelope"))
  properties : get (codes "properties") second ≡ some (object props)
  event_type : get (codes "type") props ≡ some (object types)
  const_name : get (codes "const") types ≡ some (string name)
  is_payload : get (codes "payload") props ≡ some (object payload)
  clean : Clean payload

IsComposed-passed :
    (name : Str) (doc : Json) → IsComposed name doc → document_problems name doc ≡ some []
unfolding document_problems str_eq dialect_problems walk_schema
IsComposed-passed name doc h =
    let quiet = (walk_schema-nil h.payload []).1 h.clean in
    rw
      (
        h.is_doc,
        document_problems,
        h.dialect,
        h.all_of,
        envelope_problems,
        h.envelope,
        h.properties,
        h.event_type,
        h.const_name,
        h.is_payload,
        str_eq_refl name,
        quiet,
      )
      refl

parts-nil {ℓ} :
    {A : Type ℓ} (xs ys zs : List A)
    → some (xs ++ (ys ++ zs)) ≡ some []
    → (xs ≡ []) × (ys ≡ []) × (zs ≡ [])
parts-nil xs ys zs h =
    let (first, rest) = append-eq-nil xs (ys ++ zs) (some-injective _ _ h) in
    let (second, third) = append-eq-nil ys zs rest in (first, second, third)

dialect_problems-nil :
    (found : Option Json)
    → dialect_problems found ≡ []
    → found ≡ some (string (codes "https://json-schema.org/draft/2020-12/schema"))
unfolding dialect_problems
dialect_problems-nil found h = is_string-some _ found (
    report-nil no_dialect (is_string (codes "https://json-schema.org/draft/2020-12/schema") found)
      (ap some h))

-- What each of the stages found, where nothing raised and nothing is reported.
stages :
    (name : Str) (doc : Json)
    → document_problems name doc ≡ some []
    → (dialect : Option Json) × (all_of : Json) × (pair : Option (Json × Json)) × (payload : Option
        Json)
      × (get_value (codes "$schema") doc ≡ some dialect)
      × (get_default (codes "allOf") (array no_items) doc ≡ some all_of)
      × (pair_of all_of ≡ some pair)
      × (envelope_problems name pair ≡ some [])
      × (payload_of pair ≡ some payload)
      × (dialect_problems dialect ≡ [])
      × (schema_problems payload ≡ [])
unfolding document_problems and_then
stages name doc h = elim (Option-cases (get_value (codes "$schema") doc)) [
  | inl e ↦ let wrong = rw (e, and_then) at h in cc
  | inr (dialect, e) ↦
      let h1 = rw (e, and_then) at h in
      elim (Option-cases (get_default (codes "allOf") (array no_items) doc)) [
        | inl e1 ↦ let wrong = rw (e1, and_then) at h1 in cc
        | inr (all_of, e1) ↦
            let h2 = rw (e1, and_then) at h1 in
            elim (Option-cases (pair_of all_of)) [
              | inl e2 ↦ let wrong = rw (e2, and_then) at h2 in cc
              | inr (pair, e2) ↦
                  let h3 = rw (e2, and_then) at h2 in
                  elim (Option-cases (envelope_problems name pair)) [
                    | inl e3 ↦ let wrong = rw (e3, and_then) at h3 in cc
                    | inr (composed, e3) ↦
                        let h4 = rw (e3, and_then) at h3 in
                        elim (Option-cases (payload_of pair)) [
                          | inl e4 ↦ let wrong = rw (e4, and_then) at h4 in cc
                          | inr (payload, e4) ↦
                              let h5 = rw (e4, and_then) at h4 in
                              let (first, second, third) =
                                parts-nil (dialect_problems dialect) composed
                                  (schema_problems payload) h5 in
                              (
                                dialect,
                                all_of,
                                pair,
                                payload,
                                e,
                                e1,
                                e2,
                                e3 ∙ ap some second,
                                e4,
                                first,
                                third,
                              )
                        ]
                  ]
            ]
      ]
]

envelope-nil :
    (name : Str) (pair : Option (Json × Json))
    → envelope_problems name pair ≡ some []
    → (a : Json) × (b : Json) × (pair ≡ some (a, b))
      × (first : Members) × (a ≡ object first)
      × (get (codes "$ref") first ≡ some (string (codes "envelope.schema.json#/$defs/envelope")))
      × (const_problems name b ≡ some [])
unfolding envelope_problems and_then
envelope-nil name none h = cc
envelope-nil name (some (a, b)) h = elim (Option-cases (get_value (codes "$ref") a)) [
  | inl e ↦ let wrong = rw (e, and_then) at h in cc
  | inr (ref, e) ↦
      let h1 = rw (e, and_then) at h in
      let (first, is_first, read) = get_value-some (codes "$ref") a ref e in
      elim (Bool-cases (is_string (codes "envelope.schema.json#/$defs/envelope") ref)) [
        | inl named ↦
            (a, b, refl, first, is_first, read ∙ is_string-some _ ref named, rw named at h1)
        | inr other ↦ let wrong = rw other at h1 in cc
      ]
]

payload_of-read :
    (a : Json) (second props : Members)
    → get (codes "properties") second ≡ some (object props)
    → payload_of (some (a, object second)) ≡ some (get (codes "payload") props)
unfolding payload_of properties_of
payload_of-read a second props h = rw h refl

all_of-read :
    (doc a b : Json) (top : Members)
    → doc ≡ object top
    → get_default (codes "allOf") (array no_items) doc ≡ some (array (item a (item b no_items)))
    → get (codes "allOf") top ≡ some (array (item a (item b no_items)))
all_of-read doc a b top is_top h =
    let (ms, is_ms, either) = get_default-some (codes "allOf") (array no_items) doc _ h in
    elim either [ inl read ↦ let same : ms ≡ top = cc in rw same at read | inr empty ↦ cc ]

passed-IsComposed :
    (name : Str) (doc : Json) → document_problems name doc ≡ some [] → IsComposed name doc
passed-IsComposed name doc h =
    let (dialect, all_of, pair, payload, e, e1, e2, e3, e4, e5, e6) = stages name doc h in
    let (top, is_top, read) = get_value-some (codes "$schema") doc dialect e in
    let (a, b, is_pair, first, is_first, envelope, rest) = envelope-nil name pair e3 in
    let (second, props, types, is_second, properties, event_type, const_name) =
      const-nil name b rest in
    let (content, is_content, clean) = schema-nil payload e6 in
    let is_list = pair_of-some all_of a b (e2 ∙ ap some is_pair) in
    let listed = all_of-read doc a b top is_top (e1 ∙ ap some is_list) in
    record {
      top = top;
      first = first;
      second = second;
      props = props;
      types = types;
      payload = content;
      is_doc = is_top;
      dialect = read ∙ dialect_problems-nil dialect e5;
      all_of = listed ∙ ap₂ (λ u w. some (array (item u (item w no_items)))) is_first is_second;
      envelope = envelope;
      properties = properties;
      event_type = event_type;
      const_name = const_name;
      is_payload =
          some-injective _ _ (
            sym (payload_of-read a second props properties)
            ∙ ap (λ w. payload_of (some (a, w))) (sym is_second)
            ∙ ap payload_of (sym is_pair)
            ∙ e4)
          ∙ is_content;
      clean = clean;
    }

-- A payload file passes the gate without a problem exactly when it holds a schema of the required
-- dialect that composes the envelope with the constant of its event and a payload schema, in which
-- no money field that the walk reaches has the text number as its type. A list of types is no such
-- text.
pub event_problems-nil :
    (name : Str) (doc : Json) → (event_problems name (parsed doc) ≡ some []) ↔ IsComposed name doc
unfolding event_problems
event_problems-nil name doc = (passed-IsComposed name doc, IsComposed-passed name doc)
