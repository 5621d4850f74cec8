-- ===== src/Base/Every.antt =====
-- What holds of every element of a list.
use Prim.Native.Nat.{ℕ, zero, suc}
use native.Mathlib.Omega.{arith}
use mathlib.Core.Path.{◌≡◌, refl, sym, subst, ◌∙◌}
use mathlib.Core.Logic.{inl, inr}
use mathlib.Core.Bool.{Bool, true}
use mathlib.Core.List.{List, [], ◌∷◌, ◌++◌}
use mathlib.Core.Option.{some, some-injective}
use alpha_one.Base.Tests.{Bool-cases}
use alpha_one.Base.Lists.{All, get_elem?, keep, length}
use alpha_one.Base.Order.{sort_by, insert_by, count, count-sort_by}

pub All-append {ℓ κ} :
    {A : Type ℓ} (P : A → Type κ) (xs ys : List A) → All P xs → All P ys → All P (xs ++ ys)
All-append P [] ys p q = q
All-append P (x ∷ xs) ys (px, p) q = (px, All-append P xs ys p q)

pub All-keep {ℓ} : {A : Type ℓ} (p : A → Bool) (xs : List A) → All (λ x. p x ≡ true) (keep p xs)
All-keep p [] = tt
All-keep p (x ∷ xs) = elim (Bool-cases (p x)) [
  | inl e ↦ rw e (e, All-keep p xs)
  | inr e ↦ rw e (All-keep p xs)
]

pub All-both {ℓ κ μ ν} :
    {A : Type ℓ} {P : A → Type κ} {Q : A → Type μ} {R : A → Type ν} (xs : List A)
    → All P xs
    → All Q xs
    → ((x : A) → P x → Q x → R x)
    → All R xs
All-both [] p q f = tt
All-both (x ∷ xs) (px, p) (qx, q) f = (f x px qx, All-both xs p q f)

pub keep-All {ℓ κ} :
    {A : Type ℓ} (P : A → Type κ) (p : A → Bool) (xs : List A) → All P xs → All P (keep p xs)
keep-All P p [] h = tt
keep-All P p (x ∷ xs) (px, h) = elim (Bool-cases (p x)) [
  | inl e ↦ rw e (px, keep-All P p xs h)
  | inr e ↦ rw e (keep-All P p xs h)
]

pub get_elem?-All {ℓ κ} :
    {A : Type ℓ} (P : A → Type κ) (xs : List A) (i : ℕ) (a : A)
    → All P xs
    → get_elem? xs i ≡ some a
    → P a
get_elem?-All P [] i a h e = cc
get_elem?-All P (x ∷ xs) zero a (px, h) e = subst P (some-injective _ _ e) px
get_elem?-All P (x ∷ xs) (suc i) a (px, h) e = get_elem?-All P xs i a h e

insert_by-All {ℓ κ} :
    {A : Type ℓ} (P : A → Type κ) (before : A → A → Bool) (x : A) (ys : List A)
    → P x
    → All P ys
    → All P (insert_by before x ys)
unfolding insert_by
insert_by-All P before x [] px h = (px, tt)
insert_by-All P before x (y ∷ ys) px (py, h) = elim (Bool-cases (before y x)) [
  | inl e ↦ rw e (py, insert_by-All P before x ys px h)
  | inr e ↦ rw e (px, (py, h))
]

pub sort_by-All {ℓ κ} :
    {A : Type ℓ} (P : A → Type κ) (before : A → A → Bool) (xs : List A)
    → All P xs
    → All P (sort_by before xs)
unfolding sort_by
sort_by-All P before [] h = tt
sort_by-All P before (x ∷ xs) (px, h) =
    insert_by-All P before x (sort_by before xs) px (sort_by-All P before xs h)

count-length {ℓ} : {A : Type ℓ} (xs : List A) → count (λ x. true) xs ≡ length xs
unfolding count
count-length [] = refl
count-length (x ∷ xs) = omega (arith, count-length xs)

pub length-sort_by {ℓ} :
    {A : Type ℓ} (before : A → A → Bool) (xs : List A) → length (sort_by before xs) ≡ length xs
length-sort_by before xs =
    sym (count-length (sort_by before xs)) ∙ count-sort_by before (λ x. true) xs ∙ count-length xs
