-- ===== src/Events/Reads.antt =====
-- What the reads of a payload file in alpha-one/scripts/check_event_payloads.py gave, where none
-- of them raised.
use alpha_one.Base.{
  Bool, true, false, Option, none, some, [], ◌∷◌, Str, if◌then◌else◌, ◌≡◌, ◌∙◌, refl, ap,
  str_eq_sound, Option-cases, ◌⊎◌, inl, inr, sym, some-injective,
}
use alpha_one.Base.{codes}
use alpha_one.Events.{
  Json, null, boolean, number, string, array, object, no_items, item, Members, no_members, member,
  get, is_string,
}
use alpha_one.Events.Payload.{
  PayloadProblem, wrong_const, and_then, get_value, get_default, pair_of, properties_of,
  const_problems,
}

pub and_then-some {ℓ κ} :
    {A : Type ℓ} {B : Type κ} (m : Option A) (f : A → Option B) (y : B)
    → and_then m f ≡ some y
    → (x : A) × (m ≡ some x) × (f x ≡ some y)
unfolding and_then
and_then-some none f y h = cc
and_then-some (some x) f y h = (x, refl, h)

pub get_value-some :
    (k : Str) (v : Json) (r : Option Json)
    → get_value k v ≡ some r
    → (ms : Members) × (v ≡ object ms) × (get k ms ≡ r)
unfolding get_value
get_value-some k (object ms) r h = (ms, refl, some-injective _ _ h)
get_value-some k null r h = cc
get_value-some k (boolean b) r h = cc
get_value-some k (number n) r h = cc
get_value-some k (string s) r h = cc
get_value-some k (array xs) r h = cc

-- A value that is read from a dictionary, where the default has another form.
pub get_default-some :
    (k : Str) (d v r : Json)
    → get_default k d v ≡ some r
    → (ms : Members) × (v ≡ object ms) × ((get k ms ≡ some r) ⊎ (r ≡ d))
unfolding get_default
get_default-some k d (object ms) r h = elim (Option-cases (get k ms)) [
  | inl e ↦ (ms, refl, inr (sym (some-injective _ _ (rw e at h))))
  | inr (w, e) ↦ (ms, refl, inl (e ∙ rw e at h))
]
get_default-some k d null r h = cc
get_default-some k d (boolean b) r h = cc
get_default-some k d (number n) r h = cc
get_default-some k d (string s) r h = cc
get_default-some k d (array xs) r h = cc

pub pair_of-some :
    (v a b : Json) → pair_of v ≡ some (some (a, b)) → v ≡ array (item a (item b no_items))
unfolding pair_of
pair_of-some (array (item c (item d no_items))) a b h = cc
pair_of-some (array no_items) a b h = cc
pair_of-some (array (item c no_items)) a b h = cc
pair_of-some (array (item c (item d (item e xs)))) a b h = cc
pair_of-some (string []) a b h = cc
pair_of-some (string (c ∷ [])) a b h = cc
pair_of-some (string (c ∷ d ∷ [])) a b h = cc
pair_of-some (string (c ∷ d ∷ e ∷ s)) a b h = cc
pair_of-some (object no_members) a b h = cc
pair_of-some (object (member j v no_members)) a b h = cc
pair_of-some (object (member j v (member k w no_members))) a b h = cc
pair_of-some (object (member j v (member k w (member l u ms)))) a b h = cc
pair_of-some null a b h = cc
pair_of-some (boolean c) a b h = cc
pair_of-some (number n) a b h = cc

-- A value found in a dictionary with the empty one as default is in no empty dictionary.
pub get_object :
    (k j : Str) (v : Json) (props : Members) (r : Json)
    → get_default k (object no_members) v ≡ some (object props)
    → get j props ≡ some r
    → (ms : Members) × (v ≡ object ms) × (get k ms ≡ some (object props))
unfolding get
get_object k j v props r h found =
    let (ms, e, either) = get_default-some k (object no_members) v (object props) h in
    elim either [
      | inl read ↦ (ms, e, read)
      | inr empty ↦ let bare : props ≡ no_members = cc in let wrong = rw bare at found in cc
    ]

pub is_string-some :
    (text : Str) (v : Option Json) → is_string text v ≡ true → v ≡ some (string text)
unfolding is_string
is_string-some text (some (string s)) h = rw (str_eq_sound s text h) refl
is_string-some text none h = cc
is_string-some text (some null) h = cc
is_string-some text (some (boolean b)) h = cc
is_string-some text (some (number n)) h = cc
is_string-some text (some (array xs)) h = cc
is_string-some text (some (object ms)) h = cc

pub report-nil :
    (problem : PayloadProblem) (passed : Bool)
    → some (if passed then [] else problem ∷ []) ≡ some []
    → passed ≡ true
report-nil problem true h = refl
report-nil problem false h = cc

pub const-nil :
    (name : Str) (second : Json)
    → const_problems name second ≡ some []
    → (ss props ts : Members) × (second ≡ object ss)
      × (get (codes "properties") ss ≡ some (object props))
      × (get (codes "type") props ≡ some (object ts))
      × (get (codes "const") ts ≡ some (string name))
unfolding const_problems properties_of and_then
const-nil name second h =
    elim (Option-cases (get_default (codes "properties") (object no_members) second)) [
      | inl e ↦ let wrong = rw (e, and_then) at h in cc
      | inr (properties, e) ↦
          let h1 = rw (e, and_then) at h in
          elim (Option-cases (get_default (codes "type") (object no_members) properties)) [
            | inl e1 ↦ let wrong = rw (e1, and_then) at h1 in cc
            | inr (types, e1) ↦
                let h2 = rw (e1, and_then) at h1 in
                elim (Option-cases (get_value (codes "const") types)) [
                  | inl e2 ↦ let wrong = rw (e2, and_then) at h2 in cc
                  | inr (found, e2) ↦
                      let h3 = rw (e2, and_then) at h2 in
                      let named =
                        is_string-some name found
                          (report-nil (wrong_const found) (is_string name found) h3) in
                      let (ts, is_ts, read) = get_value-some (codes "const") types found e2 in
                      let (props, is_props, typed) =
                        get_object (codes "type") (codes "const") properties ts (string name)
                          (e1 ∙ ap some is_ts) (read ∙ named) in
                      let (ss, is_ss, held) =
                        get_object (codes "properties") (codes "type") second props (object ts)
                          (e ∙ ap some is_props) typed in
                      (ss, props, ts, is_ss, held, typed, read ∙ named)
                ]
          ]
    ]
