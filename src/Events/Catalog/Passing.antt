-- ===== src/Events/Catalog/Passing.antt =====
-- When the payload gate, alpha-one/scripts/check_event_payloads.py, passes.
use alpha_one.Base.{
  Option, none, some, List, [], ◌∷◌, Str, arith, ◌≡◌, ◌≢◌, ◌∙◌, refl, ap, Option-cases, ◌↔◌, inl,
  inr, some-injective,
}
use alpha_one.Base.{All}
use alpha_one.Events.{Json}
use alpha_one.Events.Payload.{File, missing, unreadable, parsed, event_problems}
use alpha_one.Events.Composed.{IsComposed, event_problems-nil}
use alpha_one.Events.Catalog.{catalog_events, GateError, check_events, check, exit_code}

-- The file of an event holds a document that composes the envelope with the constant of the event and
-- a payload schema.
unfoldable pub HasSchema : (Str → File) → Str × Str → Type 0
HasSchema files (name, path) = (doc : Json) × (files path ≡ parsed doc) × IsComposed name doc

file-HasSchema :
    (name : Str) (file : File)
    → event_problems name file ≡ some []
    → (doc : Json) × (file ≡ parsed doc) × IsComposed name doc
unfolding event_problems
file-HasSchema name missing h = cc
file-HasSchema name unreadable h = cc
file-HasSchema name (parsed doc) h = (doc, refl, (event_problems-nil name doc).0 h)

HasSchema-problems :
    (files : Str → File) (name path : Str)
    → HasSchema files (name, path)
    → event_problems name (files path) ≡ some []
unfolding HasSchema
HasSchema-problems files name path (doc, at, composed) =
    rw at ((event_problems-nil name doc).1 composed)

check_events-HasSchema :
    (files : Str → File) (events : List (Str × Str))
    → check_events files events ≡ some []
    → All (HasSchema files) events
unfolding check_events HasSchema
check_events-HasSchema files [] h = tt
check_events-HasSchema files ((name, path) ∷ events) h =
    elim (Option-cases (event_problems name (files path))) [
      | inl e ↦ cc (rw (e, check_events) at h)
      | inr (x ∷ xs, e) ↦ elim (Option-cases (check_events files events)) [
        | inl e1 ↦ cc (rw (e, check_events, e1) at h)
        | inr (rest, e1) ↦ cc (rw (e, check_events, e1) at h)
      ]
      | inr ([], e) ↦ elim (Option-cases (check_events files events)) [
        | inl e1 ↦ cc (rw (e, check_events, e1) at h)
        | inr (rest, e1) ↦
            let clean : rest ≡ [] = some-injective _ _ (rw (e, check_events, e1) at h) in
            (
              file-HasSchema name (files path) e,
              check_events-HasSchema files events (e1 ∙ ap some clean),
            )
      ]
    ]

HasSchema-check_events :
    (files : Str → File) (events : List (Str × Str))
    → All (HasSchema files) events
    → check_events files events ≡ some []
unfolding check_events
HasSchema-check_events files [] h = refl
HasSchema-check_events files ((name, path) ∷ events) (first, others) =
    rw (HasSchema-problems files name path first, HasSchema-check_events files events others) refl

check-HasSchema :
    (files : Str → File) (events : List (Str × Str)) (text : Str)
    → catalog_events text ≡ events
    → (check files text ≡ some []) ↔ ((events ≢ []) × All (HasSchema files) events)
unfolding check
check-HasSchema files [] text e = (λ h. cc (rw (e, check) at h), λ h. absurd (h.0 refl))
check-HasSchema files (event ∷ events) text e = (
  λ h. (λ none_left. cc, check_events-HasSchema files (event ∷ events) (rw (e, check) at h)),
  λ h. rw (e, check) (HasSchema-check_events files (event ∷ events) h.1),
)

exit_code-zero : (result : Option (List GateError)) → (exit_code result ≡ 0) ↔ (result ≡ some [])
unfolding exit_code
exit_code-zero none = (λ h. absurd (omega arith), λ h. cc)
exit_code-zero (some []) = (λ h. refl, λ h. refl)
exit_code-zero (some (error ∷ errors)) = (λ h. absurd (omega arith), λ h. cc)

-- The payload gate exits with 0 exactly when the catalog holds an event and the file of each event of the
-- catalog is there and holds a schema of the required dialect that composes the envelope with the
-- constant of the event and a payload schema, in which no money field that the walk reaches has the
-- text number as its type. A list of types is no such text.
pub check-passing :
    (files : Str → File) (text : Str)
    → (exit_code (check files text) ≡ 0)
      ↔ ((catalog_events text ≢ []) × All (HasSchema files) (catalog_events text))
check-passing files text =
    let (to, from) = check-HasSchema files (catalog_events text) text refl in
    let (zero_to, zero_from) = exit_code-zero (check files text) in
    (λ h. to (zero_to h), λ h. zero_from (from h))
