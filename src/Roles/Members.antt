-- ===== src/Roles/Members.antt =====
-- What the checks of alpha-one/scripts/verify_roles.py compute, by membership.
use alpha_one.Base.{
  lookup, has_key, IsDict, ◌&&◌, ◌||◌, not, Bool, true, false, Option, none, some, List, [], ◌∷◌,
  ◌++◌, Str, mem, str_eq, if◌then◌else◌, arith, ◌≡◌, refl, subst, str_eq_refl, str_eq_sound,
  Bool-cases, ◌↔◌, inl, inr, sym, str_eq_comm, str_eq_iff, mem-append, some-injective, All, sorted,
  IsDistinct,
}
use alpha_one.Roles.{Catalog, Bindings, ancestors}
use alpha_one.Roles.Gate.{
  to_set, minus, collect, listed, meets, inherited, union, effective, same_list, join,
}

module _ {ℓ} {V : Type ℓ} where
  -- A loop over a dictionary sees each entry once.
  pub lookup-absent : (k : Str) (d : List (Str × V)) → has_key k d ≡ false → lookup k d ≡ none
  unfolding lookup has_key
  lookup-absent k [] h = refl
  lookup-absent k ((j, v) ∷ d) h = ground (arith, lookup-absent k d)

  pub All-lookup {κ} :
      (P : Str × V → Type κ) (k : Str) (v : V) (d : List (Str × V))
      → All P d
      → lookup k d ≡ some v
      → P (k, v)
  unfolding lookup
  All-lookup P k v [] h e = cc
  All-lookup P k v ((j, w) ∷ d) h e = elim (Bool-cases (str_eq j k)) [
    | inl same ↦
        let e' = rw same at e in
        subst (λ x. P (k, x)) (some-injective _ _ e')
          (subst (λ x. P (x, w)) (str_eq_sound j k same) h.0)
    | inr other ↦ All-lookup P k v d h.1 (rw other at e)
  ]

  pub lookup-All {κ} :
      (P : Str × V → Type κ) (d : List (Str × V))
      → IsDict d
      → ((k : Str) (v : V) → lookup k d ≡ some v → P (k, v))
      → All P d
  unfolding lookup
  lookup-All P [] dict h = tt
  lookup-All P ((j, w) ∷ d) dict h =
      (h j w (rw (str_eq_refl j)), lookup-All P d dict.1 (λ k v e. h k v (later k v e)))
    where
      later : (k : Str) (v : V) → lookup k d ≡ some v → lookup k ((j, w) ∷ d) ≡ some v
      later k v e = elim (Bool-cases (str_eq j k)) [
        | inl same ↦ cc (rw (str_eq_sound j k same) at (lookup-absent j d dict.0), e)
        | inr other ↦ rw (other, lookup) e
      ]

module _ {ℓ} (P : Str → Type ℓ) where
  pub All-mem : (v : Str) (xs : List Str) → All P xs → mem v xs ≡ true → P v
  unfolding mem
  All-mem v [] h m = cc
  All-mem v (x ∷ xs) h m = elim (Bool-cases (str_eq v x)) [
    | inl e ↦ rw (str_eq_sound v x e) h.0
    | inr e ↦ All-mem v xs h.1 (rw e at m)
  ]

  pub mem-All : (xs : List Str) → ((v : Str) → mem v xs ≡ true → P v) → All P xs
  unfolding mem
  mem-All [] h = tt
  mem-All (x ∷ xs) h = (h x (rw (str_eq_refl x)), mem-All xs (λ v m. h v (ground arith)))

join-nil {ℓ} :
    {B : Type ℓ} (o r : Option (List B)) → (join o r ≡ some []) ↔ ((o ≡ some []) × (r ≡ some []))
unfolding join
join-nil none r = ground arith
join-nil (some ys) none = ground arith
join-nil (some []) (some zs) = ground arith
join-nil (some (y ∷ ys)) (some zs) = ground arith

-- A loop that appends nothing appended nothing for each element.
pub collect-nil {ℓ κ} :
    {A : Type ℓ} {B : Type κ} (f : A → Option (List B)) (xs : List A)
    → (collect f xs ≡ some []) ↔ All (λ x. f x ≡ some []) xs
unfolding collect
collect-nil f [] = (λ _. tt, λ _. refl)
collect-nil f (x ∷ xs) =
    let (split, merge) = join-nil (f x) (collect f xs) in
    let (to, from) = collect-nil f xs in
    (λ h. ((split h).0, to (split h).1), λ h. merge (h.0, from h.1))

pub mem-to_set : (v : Str) (xs : List Str) → mem v (to_set xs) ≡ mem v xs
unfolding to_set mem
mem-to_set v [] = refl
mem-to_set v (x ∷ xs) = elim (Bool-cases (str_eq v x)) [
  | inl e ↦ ground (arith, mem-to_set v xs, str_eq_sound v x e)
  | inr e ↦ ground (arith, mem-to_set v xs)
]

pub minus-nil : (xs ys : List Str) → (minus xs ys ≡ []) ↔ All (λ v. mem v ys ≡ true) xs
unfolding minus
minus-nil [] ys = (λ _. tt, λ _. refl)
minus-nil (x ∷ xs) ys = ground (arith, minus-nil xs ys)

mem-minus : (v : Str) (xs ys : List Str) → mem v (minus ys xs) ≡ (mem v ys && not (mem v xs))
unfolding minus mem
mem-minus v xs [] = refl
mem-minus v xs (y ∷ ys) = elim (Bool-cases (str_eq v y)) [
  | inl e ↦ ground (arith, mem-minus v xs ys, str_eq_sound v y e)
  | inr e ↦ ground (arith, mem-minus v xs ys)
]

pub mem-union : (v : Str) (xs ys : List Str) → mem v (union xs ys) ≡ (mem v xs || mem v ys)
unfolding union
mem-union v xs ys = ground (arith, mem-append v xs (minus ys xs), mem-minus v xs ys)

pub same_list_iff : (xs ys : List Str) → (same_list xs ys ≡ true) ↔ (xs ≡ ys)
unfolding same_list
same_list_iff [] [] = ground arith
same_list_iff [] (y ∷ ys) = ground arith
same_list_iff (x ∷ xs) [] = ground arith
same_list_iff (x ∷ xs) (y ∷ ys) = ground (arith, same_list_iff xs ys, str_eq_iff x y)

-- The roles that a key lists; none, if it is not bound.
unfoldable pub holders : Str → Bindings → List Str
holders key bindings = elim (lookup key bindings) [ none ↦ [] | some rule ↦ rule.roles ]

-- The keys whose list of roles passes a test.
selected : (List Str → Bool) → Bindings → List Str
selected p [] = []
selected p ((key, rule) ∷ b) = if p rule.roles then key ∷ selected p b else selected p b

listed-selected : (role : Str) (b : Bindings) → listed role b ≡ selected (mem role) b
unfolding listed selected
listed-selected role [] = refl
listed-selected role ((j, rule) ∷ b) = rw (listed-selected role b)

inherited_ends :
    (role : Str) (up : List Str) (b : Bindings) (catalog : Catalog)
    → ancestors role catalog ≡ some up
    → inherited role b catalog ≡ some (selected (meets up) b)
unfolding inherited selected
inherited_ends role up [] catalog e = refl
inherited_ends role up ((j, rule) ∷ b) catalog e =
    ground (arith, inherited_ends role up b catalog e)

module _ (p : List Str → Bool) where
  selected_absent : (k : Str) (b : Bindings) → has_key k b ≡ false → mem k (selected p b) ≡ false
  unfolding selected has_key mem
  selected_absent k [] h = refl
  selected_absent k ((j, rule) ∷ b) h = ground (arith, selected_absent k b, str_eq_comm j k)

  mem-selected :
      (k : Str) (b : Bindings) → p [] ≡ false → IsDict b → mem k (selected p b) ≡ p (holders k b)
  unfolding selected holders lookup mem
  mem-selected k [] never d = sym never
  mem-selected k ((j, rule) ∷ b) never d = elim (Bool-cases (str_eq j k)) [
    | inl e ↦ ground (arith, str_eq_comm j k, selected_absent k b, rw (str_eq_sound j k e) at (d.0))
    | inr e ↦ ground (arith, str_eq_comm j k, mem-selected k b never d.1)
  ]

  selected-IsDistinct : (b : Bindings) → IsDict b → IsDistinct (selected p b)
  unfolding selected
  selected-IsDistinct [] d = tt
  selected-IsDistinct ((j, rule) ∷ b) d = elim (Bool-cases (p rule.roles)) [
    | inl e ↦ rw e (selected_absent j b d.0, selected-IsDistinct b d.1)
    | inr e ↦ rw e (selected-IsDistinct b d.1)
  ]

meets-nil : (up : List Str) → meets up [] ≡ false
unfolding meets mem
meets-nil [] = refl
meets-nil (x ∷ up) = meets-nil up

pub mem-listed :
    (k role : Str) (b : Bindings) → IsDict b → mem k (listed role b) ≡ mem role (holders k b)
unfolding mem
mem-listed k role b d = rw (listed-selected role b) (mem-selected (mem role) k b refl d)

pub listed-IsDistinct : (role : Str) (b : Bindings) → IsDict b → IsDistinct (listed role b)
listed-IsDistinct role b d = rw (listed-selected role b) (selected-IsDistinct (mem role) b d)

minus-IsDistinct : (xs ys : List Str) → IsDistinct xs → IsDistinct (minus xs ys)
unfolding minus
minus-IsDistinct [] ys d = tt
minus-IsDistinct (x ∷ xs) ys d = elim (Bool-cases (mem x ys)) [
  | inl e ↦ rw e (minus-IsDistinct xs ys d.1)
  | inr e ↦ rw e (ground (arith, mem-minus x ys xs), minus-IsDistinct xs ys d.1)
]

append-IsDistinct :
    (xs ys : List Str)
    → IsDistinct xs
    → IsDistinct ys
    → ((v : Str) → mem v ys ≡ true → mem v xs ≡ false)
    → IsDistinct (xs ++ ys)
unfolding mem
append-IsDistinct [] ys d e apart = e
append-IsDistinct (x ∷ xs) ys d e apart = (
  elim (Bool-cases (mem x ys)) [
    | inl m ↦ cc (apart x m, str_eq_refl x)
    | inr m ↦ ground (arith, mem-append x xs ys)
  ],
  append-IsDistinct xs ys d.1 e (λ v m. ground (arith, apart v m)),
)

union-IsDistinct : (xs ys : List Str) → IsDistinct xs → IsDistinct ys → IsDistinct (union xs ys)
unfolding union
union-IsDistinct xs ys d e =
    append-IsDistinct xs (minus ys xs) d (minus-IsDistinct ys xs e)
      (λ v m. ground (arith, mem-minus v xs ys))

-- The set that `effective` sorts: the keys that the role or an ancestor of it lists.
pub effective_keys :
    (role : Str) (up : List Str) (b : Bindings) (catalog : Catalog)
    → IsDict b
    → ancestors role catalog ≡ some up
    → (keys : List Str) × (effective role b catalog ≡ some (sorted keys))
      × IsDistinct keys
      × ((k : Str) → mem k keys ≡ (mem role (holders k b) || meets up (holders k b)))
unfolding effective
effective_keys role up b catalog d e = (
  union (listed role b) (selected (meets up) b),
  ground (arith, inherited_ends role up b catalog e),
  union-IsDistinct (listed role b) (selected (meets up) b) (listed-IsDistinct role b d)
      (selected-IsDistinct (meets up) b d),
  λ k. ground (
    arith,
    mem-union k (listed role b) (selected (meets up) b),
    mem-listed k role b d,
    mem-selected (meets up) k b (meets-nil up) d,
  ),
)
