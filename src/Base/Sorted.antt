-- ===== src/Base/Sorted.antt =====
-- Python's `sorted` on a collection of texts. A set is a list of distinct texts in any order;
-- what is sorted no longer depends on that order.
use mathlib.Core.Path.{◌≡◌, refl, ap₂}
use mathlib.Core.Logic.{inl, inr}
use mathlib.Core.Bool.{Bool, true, false, ◌&&◌, ◌||◌}
use mathlib.Core.List.{List, [], ◌∷◌}
use native.Mathlib.Omega.{arith}
use alpha_one.Base.Tests.{if◌then◌else◌, Bool-cases}
use alpha_one.Base.Lists.{all}
use alpha_one.Base.Text.{
  Str, str_eq, str_eq_refl, str_eq_sound, str_eq_comm, mem, str_lt, str_lt_irrefl, str_lt_trans,
  str_lt_total,
}

unfoldable pub insert : Str → List Str → List Str
insert x [] = x ∷ []
insert x (y ∷ ys) = if str_lt y x then y ∷ insert x ys else x ∷ y ∷ ys

unfoldable pub sorted : List Str → List Str
sorted [] = []
sorted (x ∷ xs) = insert x (sorted xs)

abbrev pub IsDistinct : List Str → Type 0
IsDistinct [] = Unit
IsDistinct (x ∷ xs) = (mem x xs ≡ false) × IsDistinct xs

abbrev pub IsSorted : List Str → Type 0
IsSorted [] = Unit
IsSorted (x ∷ xs) = (all (str_lt x) xs ≡ true) × IsSorted xs

mem-insert : (v x : Str) (ys : List Str) → mem v (insert x ys) ≡ (str_eq v x || mem v ys)
unfolding mem insert
mem-insert v x [] = refl
mem-insert v x (y ∷ ys) = ground (arith, mem-insert v x ys)

pub mem-sorted : (v : Str) (xs : List Str) → mem v (sorted xs) ≡ mem v xs
unfolding mem sorted
mem-sorted v [] = refl
mem-sorted v (x ∷ xs) = ground (arith, mem-insert v x (sorted xs), mem-sorted v xs)

all-insert : (p : Str → Bool) (x : Str) (ys : List Str) → all p (insert x ys) ≡ (p x && all p ys)
unfolding insert
all-insert p x [] = refl
all-insert p x (y ∷ ys) = ground (arith, all-insert p x ys)

all-mem :
    (p : Str → Bool) (v : Str) (ys : List Str) → all p ys ≡ true → mem v ys ≡ true → p v ≡ true
unfolding mem
all-mem p v [] h m = ground arith
all-mem p v (y ∷ ys) h m = elim (Bool-cases (str_eq v y)) [
  | inl e ↦ rw (str_eq_sound v y e) (ground arith)
  | inr e ↦ all-mem p v ys (ground arith) (ground arith)
]

all_lt_trans :
    (x y : Str) (zs : List Str)
    → str_lt x y ≡ true
    → all (str_lt y) zs ≡ true
    → all (str_lt x) zs ≡ true
all_lt_trans x y [] h k = refl
all_lt_trans x y (z ∷ zs) h k = ground (arith, str_lt_trans x y z h, all_lt_trans x y zs h)

insert-IsSorted :
    (x : Str) (ys : List Str) → IsSorted ys → mem x ys ≡ false → IsSorted (insert x ys)
unfolding insert mem
insert-IsSorted x [] s m = (refl, tt)
insert-IsSorted x (y ∷ ys) s m = elim (Bool-cases (str_lt y x)) [
  | inl e ↦
      rw e (ground (arith, all-insert (str_lt y) x ys), insert-IsSorted x ys s.1 (ground arith))
  | inr e ↦
      let below = str_lt_total y x e (ground (arith, str_eq_comm x y)) in
      rw e (ground (arith, all_lt_trans x y ys below), s)
]

pub sorted-IsSorted : (xs : List Str) → IsDistinct xs → IsSorted (sorted xs)
unfolding sorted
sorted-IsSorted [] d = tt
sorted-IsSorted (x ∷ xs) d =
    insert-IsSorted x (sorted xs) (sorted-IsSorted xs d.1) (ground (arith, mem-sorted x xs))

above-not-mem : (x : Str) (xs : List Str) → all (str_lt x) xs ≡ true → mem x xs ≡ false
above-not-mem x xs h = elim (Bool-cases (mem x xs)) [
  | inl m ↦ cc (all-mem (str_lt x) x xs h m, str_lt_irrefl x)
  | inr m ↦ m
]

-- Of two sorted lists with the same members, the heads agree.
heads_agree :
    (x y : Str) (xs ys : List Str)
    → IsSorted (x ∷ xs)
    → IsSorted (y ∷ ys)
    → mem x (y ∷ ys) ≡ true
    → mem y (x ∷ xs) ≡ true
    → x ≡ y
unfolding mem
heads_agree x y xs ys s t h k = elim (Bool-cases (str_eq x y)) [
  | inl e ↦ str_eq_sound x y e
  | inr e ↦
      let up = all-mem (str_lt y) x ys t.0 (ground arith) in
      let down = all-mem (str_lt x) y xs s.0 (ground (arith, str_eq_comm x y)) in
      cc (str_lt_trans x y x down up, str_lt_irrefl x)
]

tails_agree :
    (x v : Str) (xs ys : List Str)
    → all (str_lt x) xs ≡ true
    → all (str_lt x) ys ≡ true
    → mem v (x ∷ xs) ≡ mem v (x ∷ ys)
    → mem v xs ≡ mem v ys
unfolding mem
tails_agree x v xs ys s t h = elim (Bool-cases (str_eq v x)) [
  | inl e ↦ rw (str_eq_sound v x e) (ground (arith, above-not-mem x xs s, above-not-mem x ys t))
  | inr e ↦ ground arith
]

sorted_unique :
    (xs ys : List Str) → IsSorted xs → IsSorted ys → ((v : Str) → mem v xs ≡ mem v ys) → xs ≡ ys
unfolding mem
sorted_unique [] [] s t h = refl
sorted_unique [] (y ∷ ys) s t h = cc (h y, str_eq_refl y)
sorted_unique (x ∷ xs) [] s t h = cc (h x, str_eq_refl x)
sorted_unique (x ∷ xs) (y ∷ ys) s t h =
    let same =
      heads_agree x y xs ys s t (ground (arith, h x, str_eq_refl x))
        (ground (arith, h y, str_eq_refl y)) in
    ap₂ ◌∷◌ same (
      sorted_unique xs ys s.1 t.1
        (λ v. tails_agree y v xs ys (rw same at s.0) t.0 (rw same at (h v))))

-- Two sets are equal as sorted lists exactly when they have the same members.
pub sorted-eq :
    (xs ys : List Str)
    → IsDistinct xs
    → IsDistinct ys
    → ((v : Str) → mem v xs ≡ mem v ys)
    → sorted xs ≡ sorted ys
sorted-eq xs ys d e h =
    sorted_unique (sorted xs) (sorted ys) (sorted-IsSorted xs d) (sorted-IsSorted ys e)
      (λ v. rw (mem-sorted, mem-sorted) (h v))
