-- ===== src/Base/Dicts.antt =====
-- Python's `dict` as the list of its entries, in their order of insertion.
use Prim.Native.Nat.{suc, ◌≤◌}
use mathlib.Core.Path.{◌≡◌, refl, ◌∙◌, ap, subst}
use mathlib.Core.Logic.{inl, inr}
use mathlib.Core.Bool.{Bool, true, false, ◌||◌}
use mathlib.Core.Option.{Option, none, some}
use mathlib.Core.List.{List, [], ◌∷◌}
use native.Mathlib.Omega.{arith}
use alpha_one.Base.Tests.{if◌then◌else◌, Bool-cases}
use alpha_one.Base.Lists.{length}
use alpha_one.Base.Text.{Str, str_eq, str_lt, str_eq_refl, str_eq_comm, str_eq_sound}

module _ {ℓ} {V : Type ℓ} where
  -- `d.get(k)`
  unfoldable pub lookup : Str → List (Str × V) → Option V
  lookup k [] = none
  lookup k ((j, v) ∷ d) = if str_eq j k then some v else lookup k d

  -- `k in d`
  unfoldable pub has_key : Str → List (Str × V) → Bool
  has_key k [] = false
  has_key k ((j, v) ∷ d) = str_eq j k || has_key k d

  -- What makes a list of pairs a dictionary.
  abbrev pub IsDict : List (Str × V) → Type 0
  IsDict [] = Unit
  IsDict ((k, v) ∷ d) = (has_key k d ≡ false) × IsDict d

  -- `d[k] = v`: a new key comes last, an old one keeps its place.
  unfoldable pub put : Str → V → List (Str × V) → List (Str × V)
  put k v [] = (k, v) ∷ []
  put k v ((j, w) ∷ d) = if str_eq j k then (j, v) ∷ d else (j, w) ∷ put k v d

  -- `sorted(d.items())`: the keys differ, so no two values are compared.
  unfoldable pub insert_entry : Str × V → List (Str × V) → List (Str × V)
  insert_entry e [] = e ∷ []
  insert_entry e (f ∷ d) = if str_lt (f.0) (e.0) then f ∷ insert_entry e d else e ∷ f ∷ d

  unfoldable pub sorted_items : List (Str × V) → List (Str × V)
  unfolding insert_entry
  sorted_items [] = []
  sorted_items (e ∷ d) = insert_entry e (sorted_items d)

  pub lookup-put :
      (k j : Str) (v : V) (d : List (Str × V))
      → lookup k (put j v d) ≡ (if str_eq j k then some v else lookup k d)
  unfolding lookup put
  lookup-put k j v [] = refl
  lookup-put k j v ((i, w) ∷ d) = elim (Bool-cases (str_eq i j)) [
    | inl e ↦ rw (str_eq_sound i j e, str_eq_refl j, lookup, put) (ground arith)
    | inr e ↦
        rw (e, lookup, put)
          (elim (Bool-cases (str_eq i k)) [
            | inl m ↦ ground (arith, str_eq_sound i k m, str_eq_comm j k)
            | inr m ↦ ground (arith, lookup-put k j v d)
          ])
  ]

  pub has_key-put :
      (k j : Str) (v : V) (d : List (Str × V)) → has_key k (put j v d) ≡ (str_eq j k || has_key k d)
  unfolding has_key put
  has_key-put k j v [] = refl
  has_key-put k j v ((i, w) ∷ d) = elim (Bool-cases (str_eq i j)) [
    | inl e ↦ ground (arith, str_eq_sound i j e)
    | inr e ↦ ground (arith, has_key-put k j v d)
  ]

  pub put-IsDict : (j : Str) (v : V) (d : List (Str × V)) → IsDict d → IsDict (put j v d)
  unfolding put has_key
  put-IsDict j v [] h = (refl, tt)
  put-IsDict j v ((i, w) ∷ d) h = elim (Bool-cases (str_eq i j)) [
    | inl e ↦ rw (e, put) h
    | inr e ↦
        rw (e, put)
          (ground (arith, has_key-put i j v d, str_eq_comm i j, h.0), put-IsDict j v d h.1)
  ]

  -- The entry of a key, where there is one.
  pub has_key-lookup :
      (k : Str) (d : List (Str × V)) → has_key k d ≡ true → (v : V) × (lookup k d ≡ some v)
  unfolding has_key lookup
  has_key-lookup k [] h = absurd (ground arith)
  has_key-lookup k ((j, v) ∷ d) h = elim (Bool-cases (str_eq j k)) [
    | inl e ↦ (v, ground arith)
    | inr e ↦ let (w, found) = has_key-lookup k d (ground arith) in (w, ground arith)
  ]

  pub lookup-has_key :
      (k : Str) (d : List (Str × V)) (v : V) → lookup k d ≡ some v → has_key k d ≡ true
  unfolding has_key lookup
  lookup-has_key k [] v h = cc
  lookup-has_key k ((j, w) ∷ d) v h = elim (Bool-cases (str_eq j k)) [
    | inl e ↦ ground arith
    | inr e ↦ ground (arith, lookup-has_key k d v (rw (e, lookup) at h))
  ]

  pub lookup-none : (k : Str) (d : List (Str × V)) → lookup k d ≡ none → has_key k d ≡ false
  unfolding has_key lookup
  lookup-none k [] h = refl
  lookup-none k ((j, w) ∷ d) h = elim (Bool-cases (str_eq j k)) [
    | inl e ↦ let wrong = rw (e, lookup) at h in cc
    | inr e ↦ ground (arith, lookup-none k d (rw (e, lookup) at h))
  ]

  -- Sorting keeps the keys, their values and their number.
  has_key-insert :
      (k : Str) (e : Str × V) (d : List (Str × V))
      → has_key k (insert_entry e d) ≡ (str_eq e.0 k || has_key k d)
  unfolding has_key insert_entry
  has_key-insert k e [] = refl
  has_key-insert k e (f ∷ d) = ground (arith, has_key-insert k e d)

  pub has_key-sorted : (k : Str) (d : List (Str × V)) → has_key k (sorted_items d) ≡ has_key k d
  unfolding has_key sorted_items
  has_key-sorted k [] = refl
  has_key-sorted k (e ∷ d) = ground (arith, has_key-insert k e (sorted_items d), has_key-sorted k d)

  insert-IsDict :
      (e : Str × V) (d : List (Str × V))
      → has_key e.0 d ≡ false
      → IsDict d
      → IsDict (insert_entry e d)
  unfolding has_key insert_entry
  insert-IsDict e [] h u = (h, u)
  insert-IsDict e (f ∷ d) h u = elim (Bool-cases (str_lt (f.0) (e.0))) [
    | inl m ↦
        rw (m, insert_entry)
          (
            ground (arith, has_key-insert (f.0) e d, str_eq_comm (e.0) (f.0), u.0),
            insert-IsDict e d (ground arith) u.1,
          )
    | inr m ↦ rw (m, insert_entry) (h, u)
  ]

  pub sorted-IsDict : (d : List (Str × V)) → IsDict d → IsDict (sorted_items d)
  unfolding sorted_items
  sorted-IsDict [] u = u
  sorted-IsDict (e ∷ d) u =
      insert-IsDict e (sorted_items d) (has_key-sorted (e.0) d ∙ u.0) (sorted-IsDict d u.1)

  lookup-insert :
      (k : Str) (e : Str × V) (d : List (Str × V))
      → has_key e.0 d ≡ false
      → lookup k (insert_entry e d) ≡ (if str_eq e.0 k then some e.1 else lookup k d)
  unfolding has_key lookup insert_entry
  lookup-insert k e [] h = refl
  lookup-insert k e (f ∷ d) h = elim (Bool-cases (str_lt (f.0) (e.0))) [
    | inl m ↦
        rw (m, insert_entry, lookup)
          (elim (Bool-cases (str_eq (f.0) k)) [
            | inl a ↦
                let differs =
                  subst (λ (x : Str). str_eq x e.0 ≡ false) (str_eq_sound (f.0) k a)
                    (ground arith) in
                ground (arith, str_eq_comm k (e.0))
            | inr a ↦ ground (arith, lookup-insert k e d)
          ])
    | inr m ↦ rw (m, insert_entry, lookup) refl
  ]

  pub lookup-sorted :
      (k : Str) (d : List (Str × V)) → IsDict d → lookup k (sorted_items d) ≡ lookup k d
  unfolding lookup sorted_items
  lookup-sorted k [] u = refl
  lookup-sorted k (e ∷ d) u =
      lookup-insert k e (sorted_items d) (has_key-sorted (e.0) d ∙ u.0)
      ∙ ap (λ found. if str_eq e.0 k then some e.1 else found) (lookup-sorted k d u.1)

  length-insert : (e : Str × V) (d : List (Str × V)) → length (insert_entry e d) ≡ suc (length d)
  unfolding insert_entry
  length-insert e [] = refl
  length-insert e (f ∷ d) = ground (arith, length-insert e d)

  pub length-sorted : (d : List (Str × V)) → length (sorted_items d) ≡ length d
  unfolding sorted_items
  length-sorted [] = refl
  length-sorted (e ∷ d) = ground (arith, length-insert e (sorted_items d), length-sorted d)

  pub length-put :
      (k : Str) (v : V) (d : List (Str × V))
      → length (put k v d) ≡ (if has_key k d then length d else suc (length d))
  unfolding put has_key
  length-put k v [] = refl
  length-put k v ((j, w) ∷ d) = ground (arith, length-put k v d)

  -- `del d[k]`
  unfoldable pub remove : Str → List (Str × V) → List (Str × V)
  remove k [] = []
  remove k ((j, v) ∷ d) = if str_eq j k then d else (j, v) ∷ remove k d

  length-remove :
      (k : Str) (d : List (Str × V)) → has_key k d ≡ true → length d ≡ suc (length (remove k d))
  unfolding has_key remove
  length-remove k [] h = absurd (ground arith)
  length-remove k ((j, v) ∷ d) h = ground (arith, length-remove k d)

  has_key-remove :
      (i k : Str) (d : List (Str × V))
      → str_eq k i ≡ false
      → has_key i d ≡ true
      → has_key i (remove k d) ≡ true
  unfolding has_key remove
  has_key-remove i k [] n h = ground arith
  has_key-remove i k ((j, v) ∷ d) n h = elim (Bool-cases (str_eq j k)) [
    | inl e ↦ ground (arith, str_eq_sound j k e)
    | inr e ↦ ground (arith, has_key-remove i k d n)
  ]

module _ {ℓ κ} {V : Type ℓ} {W : Type κ} where
  -- A dictionary whose keys are all keys of another is not longer.
  pub length-keys :
      (d : List (Str × V)) (c : List (Str × W))
      → IsDict d
      → ((k : Str) → has_key k d ≡ true → has_key k c ≡ true)
      → length d ≤ length c
  unfolding has_key
  length-keys [] c u h = omega arith
  length-keys ((k, v) ∷ d) c u h =
      let here = h k (ground (arith, str_eq_refl k)) in
      omega (
        arith,
        length-remove k c here,
        length-keys d (remove k c) u.1 (λ i m. elim (Bool-cases (str_eq k i)) [
          | inl e ↦ absurd (ground (arith, str_eq_sound k i e, u.0))
          | inr e ↦ has_key-remove i k c e (h i (ground arith))
        ]),
      )
