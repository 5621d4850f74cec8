-- ===== src/Roles/Realms.antt =====
-- Checks 1 and 2 of `main` in alpha-one/scripts/verify_roles.py: registered keys, known roles, and
-- realms that stay apart.
use alpha_one.Base.{
  lookup, IsDict, ◌||◌, true, false, Option, some, List, [], ◌∷◌, ◌++◌, Str, mem, str_eq,
  if◌then◌else◌, arith, ◌≡◌, refl, Option-cases, ◌↔◌, inl, inr, All, codes, flat_map, flat_map-nil,
  append-nil_iff, All-iff, report-nil,
}
use alpha_one.Roles.{Catalog, RoleMeta, Rule, Bindings}
use alpha_one.Roles.Gate.{not_in_registry, platform, scope_is, role_problems, binding_problems}
use alpha_one.Roles.Members.{lookup-All, All-lookup, All-mem, mem-All}

-- What a rule says of one role that it lists.
abbrev pub IsAllowed : Catalog → Option Str → Str → Type 0
IsAllowed catalog scope role =
    (meta : RoleMeta) × (lookup role catalog ≡ some meta)
    × (scope_is platform scope ≡ true → str_eq meta.realm platform ≡ true)
    × ((scope_is (codes "all") scope || scope_is (codes "own") scope) ≡ true
        → str_eq meta.realm platform ≡ false)

-- No key spans both realms, and every name that the bindings use is declared.
pub record IsSeparated (keys : List Str) (catalog : Catalog) (bindings : Bindings) : Type 0 where
  pub registered : (key : Str) (rule : Rule) → lookup key bindings ≡ some rule → mem key keys ≡ true
  pub allowed :
      (key : Str) (rule : Rule) (role : Str)
      → lookup key bindings ≡ some rule
      → mem role rule.roles ≡ true
      → IsAllowed catalog rule.scope role

role_problems-nil :
    (catalog : Catalog) (key : Str) (scope : Option Str) (role : Str)
    → (role_problems catalog key scope role ≡ []) ↔ IsAllowed catalog scope role
unfolding role_problems
role_problems-nil catalog key scope role = elim (Option-cases (lookup role catalog)) [
  | inl e ↦ (λ h. cc (rw (e, role_problems) at h), λ a. cc (e, a.1))
  | inr (meta, e) ↦
      (λ h. (meta, e, (λ p. ground arith), (λ p. ground arith)), λ a. ground (arith, a.1, a.2, a.3))
]

entry_problems :
    (keys : List Str) (catalog : Catalog) (bindings : Bindings)
    → (binding_problems keys catalog bindings ≡ [])
      ↔ All
          (λ (entry : Str × Rule).
            (mem entry.0 keys ≡ true) × All (IsAllowed catalog entry.1.scope) entry.1.roles)
          bindings
unfolding binding_problems
entry_problems keys catalog [] = (λ _. tt, λ _. refl)
entry_problems keys catalog ((key, rule) ∷ bindings) =
    let (to, from) = entry_problems keys catalog bindings in
    let (split, merge) = append-nil_iff (if mem key keys then [] else not_in_registry key ∷ []) (
      flat_map (role_problems catalog key rule.scope) rule.roles
      ++ binding_problems keys catalog bindings) in
    let (split', merge') =
      append-nil_iff (flat_map (role_problems catalog key rule.scope) rule.roles)
        (binding_problems keys catalog bindings) in
    let known = report-nil (mem key keys) (not_in_registry key) in
    let each = flat_map-nil (role_problems catalog key rule.scope) rule.roles in
    let all_roles = All-iff rule.roles (role_problems-nil catalog key rule.scope) in
    (
      λ h. (
        (known.0 (split h).0, all_roles.0 (each.0 (split' (split h).1).0)),
        to (split' (split h).1).1,
      ),
      λ a. merge (known.1 a.0.0, merge' (each.1 (all_roles.1 a.0.1), from a.1)),
    )

-- Over bindings that are a dictionary, the first loop of `main` reports nothing exactly when every
-- bound key is registered, every listed role is in the catalog, a role under the scope `platform`
-- is of the platform realm, and one under `all` or `own` is not.
pub binding_problems-nil :
    (keys : List Str) (catalog : Catalog) (bindings : Bindings)
    → IsDict bindings
    → (binding_problems keys catalog bindings ≡ []) ↔ IsSeparated keys catalog bindings
binding_problems-nil keys catalog bindings d =
    let (to, from) = entry_problems keys catalog bindings in
    (
      λ h. record {
        registered = λ key rule found. (All-lookup _ key rule bindings (to h) found).0;
        allowed = λ key rule role found m.
            All-mem (IsAllowed catalog rule.scope) role rule.roles
              (All-lookup _ key rule bindings (to h) found).1 m;
      },
      λ s. from (
          lookup-All _ bindings d (λ key rule found. (
            s.registered key rule found,
            mem-All (IsAllowed catalog rule.scope) rule.roles
                (λ role m. s.allowed key rule role found m),
          ))),
    )
