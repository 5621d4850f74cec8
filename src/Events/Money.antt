-- ===== src/Events/Money.antt =====
-- What the walk of alpha-one/scripts/check_event_payloads.py finds in a payload schema.
use alpha_one.Base.{
  ℕ, suc, false, List, [], ◌∷◌, ◌++◌, Str, if◌then◌else◌, arith, ◌≡◌, refl, subst, ◌↔◌,
}
use alpha_one.Base.{append-eq-nil}
use alpha_one.Events.{
  Json, null, boolean, number, string, array, object, Items, no_items, item, Members, no_members,
  member, float_money, FieldPath, dot, index, walk_schema, walk_members, walk_value, walk_items,
}

-- A member of a dictionary, and an element of a list.
pub data Has (k : Str) (v : Json) : Members → Type 0 where
  here : {ms : Members} → Has k v (member k v ms)
  there : {j : Str} {w : Json} {ms : Members} → Has k v ms → Has k v (member j w ms)

pub data Elem (v : Json) : Items → Type 0 where
  head : {xs : Items} → Elem v (item v xs)
  tail : {w : Json} {xs : Items} → Elem v xs → Elem v (item w xs)

-- A field anywhere in a schema: the steps lead through dictionaries, and through lists of
-- dictionaries.
pub data Within : Members → Str → Json → Type 0 where
  direct : {ms : Members} {k : Str} {v : Json} → Has k v ms → Within ms k v
  nested :
      {ms ns : Members} {j k : Str} {v : Json}
      → Has j (object ns) ms
      → Within ns k v
      → Within ms k v
  listed :
      {ms ns : Members} {xs : Items} {j k : Str} {v : Json}
      → Has j (array xs) ms
      → Elem (object ns) xs
      → Within ns k v
      → Within ms k v

-- None of the fields is money whose type is the text number.
unfoldable pub Clean : Members → Type 0
Clean ms = (k : Str) (v : Json) → Within ms k v → float_money k v ≡ false

Within-tail : {j k : Str} {v w : Json} {ms : Members} → Within ms k v → Within (member j w ms) k v
Within-tail (direct h) = direct (there h)
Within-tail (nested h r) = nested (there h) r
Within-tail (listed h m r) = listed (there h) m r

nil-append {ℓ} : {A : Type ℓ} {xs ys : List A} → xs ≡ [] → ys ≡ [] → xs ++ ys ≡ []
nil-append h k = rw (h, k) refl

-- What a quiet walk has seen.
Has-quiet :
    {k : Str} {v : Json} (ms : Members) (path : FieldPath)
    → walk_members ms path ≡ []
    → Has k v ms
    → (float_money k v ≡ false) × (below : FieldPath) × (walk_value v below ≡ [])
unfolding walk_members
Has-quiet no_members path quiet h = elim h [ ]
Has-quiet (member k v ms) path quiet here =
    let (own, rest) =
      append-eq-nil (if float_money k v then (path ++ dot k ∷ []) ∷ [] else [])
        (walk_value v (path ++ dot k ∷ []) ++ walk_members ms path) quiet in
    (
      ground arith,
      path ++ dot k ∷ [],
      (append-eq-nil (walk_value v (path ++ dot k ∷ [])) (walk_members ms path) rest).0,
    )
Has-quiet (member k v ms) path quiet (there h) =
    let (own, rest) =
      append-eq-nil (if float_money k v then (path ++ dot k ∷ []) ∷ [] else [])
        (walk_value v (path ++ dot k ∷ []) ++ walk_members ms path) quiet in
    Has-quiet ms path
      ((append-eq-nil (walk_value v (path ++ dot k ∷ [])) (walk_members ms path) rest).1) h

Elem-quiet :
    {ns : Members} (xs : Items) (i : ℕ) (path : FieldPath)
    → walk_items xs i path ≡ []
    → Elem (object ns) xs
    → (below : FieldPath) × (walk_members ns below ≡ [])
unfolding walk_members
Elem-quiet no_items i path quiet m = elim m [ ]
Elem-quiet {ns} (item v xs) i path quiet head = (
  path ++ index i ∷ [],
  (append-eq-nil (walk_members ns (path ++ index i ∷ [])) (walk_items xs (suc i) path) quiet).0,
)
Elem-quiet (item v xs) i path quiet (tail m) =
    Elem-quiet xs (suc i) path
      ((append-eq-nil (walk_schema v (path ++ index i ∷ [])) (walk_items xs (suc i) path) quiet).1)
      m

Within-quiet :
    {ms : Members} {k : Str} {v : Json} (path : FieldPath)
    → walk_members ms path ≡ []
    → Within ms k v
    → float_money k v ≡ false
unfolding walk_members
Within-quiet path quiet (direct h) = (Has-quiet _ path quiet h).0
Within-quiet path quiet (nested h r) =
    let (_, below, still) = Has-quiet _ path quiet h in Within-quiet below still r
Within-quiet path quiet (listed {xs} h m r) =
    let (_, below, still) = Has-quiet _ path quiet h in
    let (under, silent) = Elem-quiet xs 0 below still m in Within-quiet under silent r

-- Fields that are clean are passed over in silence.
mutual
  unfolding walk_members Clean

  members-quiet : (ms : Members) (path : FieldPath) → Clean ms → walk_members ms path ≡ []
  members-quiet no_members path clean = refl
  members-quiet (member k v ms) path clean = rw (clean k v (direct here)) (
      nil-append
        (value-quiet v (path ++ dot k ∷ [])
          (λ ns e j w r. clean j w (nested (subst (λ u. Has k u (member k v ms)) e here) r))
          (λ xs ns e m j w r. clean j w (listed (subst (λ u. Has k u (member k v ms)) e here) m r)))
        (members-quiet ms path (λ j w r. clean j w (Within-tail r))))

  value-quiet :
      (v : Json) (path : FieldPath)
      → ((ns : Members) → v ≡ object ns → Clean ns)
      → ((xs : Items) (ns : Members) → v ≡ array xs → Elem (object ns) xs → Clean ns)
      → walk_value v path ≡ []
  value-quiet null path one many = refl
  value-quiet (boolean b) path one many = refl
  value-quiet (number n) path one many = refl
  value-quiet (string s) path one many = refl
  value-quiet (array xs) path one many = items-quiet xs 0 path (λ ns m. many xs ns refl m)
  value-quiet (object ms) path one many = members-quiet ms path (one ms refl)

  items-quiet :
      (xs : Items) (i : ℕ) (path : FieldPath)
      → ((ns : Members) → Elem (object ns) xs → Clean ns)
      → walk_items xs i path ≡ []
  items-quiet no_items i path many = refl
  items-quiet (item v xs) i path many =
      nil-append
        (schema-quiet v (path ++ index i ∷ [])
          (λ ns e. many ns (subst (λ u. Elem u (item v xs)) e head)))
        (items-quiet xs (suc i) path (λ ns m. many ns (tail m)))

  schema-quiet :
      (v : Json) (path : FieldPath)
      → ((ns : Members) → v ≡ object ns → Clean ns)
      → walk_schema v path ≡ []
  schema-quiet (object ms) path one = members-quiet ms path (one ms refl)
  schema-quiet null path one = refl
  schema-quiet (boolean b) path one = refl
  schema-quiet (number n) path one = refl
  schema-quiet (string s) path one = refl
  schema-quiet (array xs) path one = refl

-- The walk over a payload schema reports nothing exactly when no field that is reached through
-- dictionaries and lists of dictionaries has a money name and the type `number`.
pub walk_schema-nil :
    (ms : Members) (path : FieldPath) → (walk_schema (object ms) path ≡ []) ↔ Clean ms
unfolding walk_schema Clean
walk_schema-nil ms path = (λ quiet k v r. Within-quiet path quiet r, members-quiet ms path)
