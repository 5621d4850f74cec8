-- ===== src/Roles/Samples.antt =====
-- Small inputs of the authorization gate, and what the theorems say of them.
use alpha_one.Base.{
  lookup, has_key, IsDict, false, true, none, some, List, [], ◌∷◌, Str, mem, str_eq, ◌≡◌, refl, ◌↔◌,
  codes, sorted, insert,
}
use alpha_one.Roles.{
  Catalog, RoleMeta, Rule, Bindings, ancestors, descendants, parents_of, inherits_of, add,
  add_child, add_children, invert, childless, children_of, inheritance,
}
use alpha_one.Roles.Walk.{walk, weight, targets, Reach}
use alpha_one.Roles.Gate
use alpha_one.Roles.Gate.{
  GateProblem, effective, closure_problems, effective_problems, binding_problems,
}
use alpha_one.Roles.Inheritance.{ancestors_lem, mem-descendants}
use alpha_one.Roles.Closure.{gates_agree, IsClosed}
use alpha_one.Roles.Realms.{binding_problems-nil, IsSeparated}
use alpha_one.Roles.Seed.{grants, policy_rows, grants-effective}
use alpha_one.Roles.Matrix.{cell, cell-grants}

abbrev owner : Str
owner = codes "owner"

abbrev admin : Str
admin = codes "admin"

abbrev risk : Str
risk = codes "risk"

abbrev tenant_role : List Str → RoleMeta
tenant_role parents = record { realm = codes "tenant"; inherits = some parents }

-- owner inherits from admin, and admin from risk.
abbrev roles : Catalog
roles =
    (risk, tenant_role [])
    ∷ (admin, tenant_role (risk ∷ []))
    ∷ (owner, tenant_role (admin ∷ []))
    ∷ []

abbrev holding : List Str → Rule
holding names = record { scope = some (codes "all"); roles = names; abac = none; note = none }

abbrev closed_bindings : Bindings
closed_bindings =
    (codes "risk.read", holding (risk ∷ admin ∷ owner ∷ []))
    ∷ (codes "tenant.update", holding (owner ∷ []))
    ∷ []

abbrev open_bindings : Bindings
open_bindings = (codes "risk.read", holding (risk ∷ owner ∷ [])) ∷ []

program : Unit {0}
unfolding mem str_eq lookup has_key ancestors descendants parents_of inherits_of add add_child
    add_children invert childless children_of inheritance walk weight targets closure_problems
    effective_problems binding_problems sorted insert
program = tt

roles-IsDict : IsDict roles
unfolding program
roles-IsDict = (refl, (refl, (refl, tt)))

bindings-IsDict : IsDict closed_bindings
unfolding program
bindings-IsDict = (refl, (refl, tt))

ancestors-owner : ancestors owner roles ≡ some (risk ∷ admin ∷ [])
unfolding program
ancestors-owner = refl

descendants-risk : descendants risk roles ≡ some (owner ∷ admin ∷ [])
unfolding program
descendants-risk = refl

lookup-owner : lookup owner roles ≡ some (tenant_role (admin ∷ []))
unfolding program
lookup-owner = refl

closed_quiet : closure_problems roles closed_bindings ≡ some []
unfolding program
closed_quiet = refl

open_reported :
    closure_problems roles open_bindings
    ≡ some (Gate.not_closed (codes "risk.read") risk (admin ∷ []) ∷ [])
unfolding program
open_reported = refl

ancestors_lem_example :
    (res : List Str) × (ancestors owner roles ≡ some res)
    × ((v : Str) → (mem v res ≡ true) ↔ Reach (parents_of roles) (parents_of roles owner) v)
ancestors_lem_example = ancestors_lem roles owner (tenant_role (admin ∷ [])) lookup-owner

mem-descendants_example : mem owner (owner ∷ admin ∷ []) ≡ mem risk (risk ∷ admin ∷ [])
mem-descendants_example =
    mem-descendants roles risk owner (risk ∷ admin ∷ []) (owner ∷ admin ∷ []) roles-IsDict
      ancestors-owner descendants-risk

gates_agree_example :
    ((closure_problems roles closed_bindings ≡ some [])
      ↔ (effective_problems roles closed_bindings ≡ some []))
    × ((closure_problems roles closed_bindings ≡ some []) ↔ IsClosed roles closed_bindings)
gates_agree_example = gates_agree roles closed_bindings roles-IsDict bindings-IsDict

grants-effective_example :
    (keys : List Str) × (effective owner closed_bindings roles ≡ some keys)
    × ((key : Str) → grants (policy_rows closed_bindings) owner key ≡ mem key keys)
grants-effective_example =
    grants-effective roles closed_bindings owner (tenant_role (admin ∷ [])) roles-IsDict
      bindings-IsDict closed_quiet lookup-owner

binding_problems-nil_example :
    (binding_problems (codes "risk.read" ∷ codes "tenant.update" ∷ []) roles closed_bindings ≡ [])
    ↔ IsSeparated (codes "risk.read" ∷ codes "tenant.update" ∷ []) roles closed_bindings
binding_problems-nil_example =
    binding_problems-nil (codes "risk.read" ∷ codes "tenant.update" ∷ []) roles closed_bindings
      bindings-IsDict

cell-grants_example :
    (cell closed_bindings (codes "risk.read") admin ≡ codes "·")
    ↔ (grants (policy_rows closed_bindings) admin (codes "risk.read") ≡ false)
cell-grants_example = cell-grants closed_bindings (codes "risk.read") admin bindings-IsDict
