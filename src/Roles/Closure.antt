-- ===== src/Roles/Closure.antt =====
-- Checks 3 and 4 of `main` in alpha-one/scripts/verify_roles.py, and what their agreement gives.
use alpha_one.Base.{
  lookup, IsDict, true, some, List, [], ◌∷◌, map, Str, mem, str_eq, arith, ◌≡◌, ◌∙◌, ap,
  str_eq_refl, str_eq_sound, Bool-cases, ◌↔◌, inl, inr, sym, All, sorted, mem-sorted, sorted-eq,
}
use alpha_one.Roles.{Catalog, RoleMeta, Rule, Bindings, ancestors, descendants}
use alpha_one.Roles.Gate.{
  to_set, open_below, closure_problems, listed, meets, not_own, effective_problems,
}
use alpha_one.Roles.Inheritance.{
  ancestors_ends, descendants_ends, mem-descendants, descendants_known, ancestors_known,
}
use alpha_one.Roles.Members.{
  lookup-All, All-lookup, All-mem, mem-All, collect-nil, mem-to_set, minus-nil, same_list_iff,
  holders, mem-listed, effective_keys, listed-IsDistinct,
}

-- Whoever inherits from a holder of a key holds it.
pub record IsClosed (catalog : Catalog) (bindings : Bindings) : Type 0 where
  pub inherits_keys :
      (key role : Str) (up : List Str)
      → ancestors role catalog ≡ some up
      → meets up (holders key bindings) ≡ true
      → mem role (holders key bindings) ≡ true

-- Check 4 for one role.
not_own-nil :
    (catalog : Catalog) (bindings : Bindings) (role : Str) (up : List Str)
    → IsDict bindings
    → ancestors role catalog ≡ some up
    → (not_own bindings catalog role ≡ some []) ↔ (
        (key : Str)
        → meets up (holders key bindings) ≡ true
        → mem role (holders key bindings) ≡ true)
unfolding not_own
not_own-nil catalog bindings role up d e =
    let (keys, found, distinct, members) = effective_keys role up bindings catalog d e in
    let same = same_list_iff (sorted (listed role bindings)) (sorted keys) in
    (
      λ h k m.
          let eq = same.0 (ground arith) in
          let both = ap (mem k) eq in
          ground (
            arith,
            members k,
            mem-listed k role bindings d,
            mem-sorted k keys,
            mem-sorted k (listed role bindings),
          ),
      λ h.
          let eq =
            sorted-eq (listed role bindings) keys (listed-IsDistinct role bindings d) distinct
              (λ k. ground (arith, members k, mem-listed k role bindings d, h k)) in
          ground (arith, same.1 eq),
    )

open_below-nil :
    (catalog : Catalog) (key role : Str) (holding down : List Str)
    → descendants role catalog ≡ some down
    → (open_below catalog key holding role ≡ some []) ↔ All (λ v. mem v holding ≡ true) down
unfolding open_below
open_below-nil catalog key role holding down e = (
  λ h. (minus-nil down holding).0 (ground arith),
  λ h. ground (arith, (minus-nil down holding).1 h),
)

meets-mem : (a : Str) (xs ys : List Str) → mem a xs ≡ true → mem a ys ≡ true → meets xs ys ≡ true
unfolding meets mem
meets-mem a [] ys h k = cc
meets-mem a (x ∷ xs) ys h k = elim (Bool-cases (str_eq a x)) [
  | inl e ↦ ground (arith, rw (str_eq_sound a x e) at k)
  | inr e ↦ ground (arith, meets-mem a xs ys)
]

mem-meets :
    (xs ys : List Str) → meets xs ys ≡ true → (a : Str) × (mem a xs ≡ true) × (mem a ys ≡ true)
unfolding meets mem
mem-meets [] ys h = cc
mem-meets (x ∷ xs) ys h = elim (Bool-cases (mem x ys)) [
  | inl e ↦ (x, ground (arith, str_eq_refl x), e)
  | inr e ↦ let (a, m, n) = mem-meets xs ys (ground arith) in (a, ground arith, n)
]

bound :
    (key role : Str) (bindings : Bindings)
    → mem role (holders key bindings) ≡ true
    → (rule : Rule) × (lookup key bindings ≡ some rule) × (holders key bindings ≡ rule.roles)
unfolding holders mem
bound key role bindings h = ground arith

holders-lookup :
    (key : Str) (rule : Rule) (bindings : Bindings)
    → lookup key bindings ≡ some rule
    → holders key bindings ≡ rule.roles
unfolding holders
holders-lookup key rule bindings h = ground arith

module _ (catalog : Catalog) (bindings : Bindings) (roles_dict : IsDict catalog)
    (keys_dict : IsDict bindings) where
  -- Check 3 reports nothing exactly when the bindings are closed.
  pub closure_problems-nil :
      (closure_problems catalog bindings ≡ some []) ↔ IsClosed catalog bindings
  unfolding closure_problems
  closure_problems-nil = (
    λ h. record { inherits_keys = λ key role up e m. closed h key role up e m },
    λ c. (collect-nil _ bindings).1 (
        lookup-All _ bindings keys_dict (λ key rule found. (collect-nil _ (to_set rule.roles)).1 (
          mem-All _ (to_set rule.roles)
            (λ role m. silent c key rule found role (rw mem-to_set at m))))),
  )
    where
      closed :
          closure_problems catalog bindings ≡ some []
          → (key role : Str) (up : List Str) → ancestors role catalog ≡ some up
          → meets up (holders key bindings) ≡ true
          → mem role (holders key bindings) ≡ true
      closed h key role up e m =
          let (a, above, holds) = mem-meets up (holders key bindings) m in
          let (rule, found, same) = bound key a bindings holds in
          let inner = All-lookup _ key rule bindings ((collect-nil _ bindings).0 h) found in
          let (down, below) = descendants_ends catalog a in
          let quiet =
            All-mem _ a (to_set rule.roles) ((collect-nil _ (to_set rule.roles)).0 inner)
              (rw mem-to_set (rw same at holds)) in
          let all_in = (open_below-nil catalog key a (to_set rule.roles) down below).0 quiet in
          let there =
            All-mem _ role down all_in
              (mem-descendants catalog a role up down roles_dict e below ∙ above) in
          rw same (rw mem-to_set at there)

      silent :
          IsClosed catalog bindings
          → (key : Str) (rule : Rule) → lookup key bindings ≡ some rule
          → (role : Str) → mem role rule.roles ≡ true
          → open_below catalog key (to_set rule.roles) role ≡ some []
      silent c key rule found role m =
          let (down, below) = descendants_ends catalog role in
          (open_below-nil catalog key role (to_set rule.roles) down below).1 (
            mem-All _ down (λ v inside.
              let (meta, known) = descendants_known catalog role v down roles_dict below inside in
              let (up, above) = ancestors_ends catalog v meta known in
              let same = holders-lookup key rule bindings found in
              rw mem-to_set (
                rw same at (
                  c.inherits_keys key v up above (
                    meets-mem role up (holders key bindings)
                      (sym (mem-descendants catalog role v up down roles_dict above below) ∙ inside)
                      (rw same m))))))

All-keys :
    (P : Str → Type 0) (catalog : Catalog)
    → All P (map (λ (entry : Str × RoleMeta). entry.0) catalog)
      ↔ All (λ (entry : Str × RoleMeta). P (entry.0)) catalog
All-keys P [] = (λ _. tt, λ _. tt)
All-keys P ((k, v) ∷ catalog) =
    let (to, from) = All-keys P catalog in (λ h. (h.0, to h.1), λ h. (h.0, from h.1))

module _ (catalog : Catalog) (bindings : Bindings) (roles_dict : IsDict catalog)
    (keys_dict : IsDict bindings) where
  -- Check 4 reports nothing exactly when the bindings are closed.
  pub effective_problems-nil :
      (effective_problems catalog bindings ≡ some []) ↔ IsClosed catalog bindings
  unfolding effective_problems
  effective_problems-nil = (
    λ h. record {
      inherits_keys = λ key role up e m.
          let (meta, known) = ancestors_known catalog role up e in
          let each = (All-keys _ catalog).0 ((collect-nil (not_own bindings catalog) _).0 h) in
          (not_own-nil catalog bindings role up keys_dict e).0
            (All-lookup _ role meta catalog each known) key m;
    },
    λ c. (collect-nil (not_own bindings catalog) _).1 (
        (All-keys _ catalog).1 (
          lookup-All _ catalog roles_dict (λ role meta known.
            let (up, e) = ancestors_ends catalog role meta known in
            (not_own-nil catalog bindings role up keys_dict e).1
              (λ key m. c.inherits_keys key role up e m)))),
  )

-- Over a catalog and bindings that are dictionaries, check 3 (`descendants` of a holder hold the
-- key) reports nothing exactly when check 4 (`effective` equals the listed keys, for each role)
-- reports nothing, and both exactly when whoever inherits from a holder of a key holds it.
pub gates_agree :
    (catalog : Catalog) (bindings : Bindings)
    → IsDict catalog
    → IsDict bindings
    → ((closure_problems catalog bindings ≡ some [])
        ↔ (effective_problems catalog bindings ≡ some []))
      × ((closure_problems catalog bindings ≡ some []) ↔ IsClosed catalog bindings)
gates_agree catalog bindings d e =
    let (open_to, open_from) = closure_problems-nil catalog bindings d e in
    let (own_to, own_from) = effective_problems-nil catalog bindings d e in
    ((λ h. own_from (open_to h), λ h. open_from (own_to h)), (open_to, open_from))
