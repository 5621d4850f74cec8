-- ===== src/Roles.antt =====
-- The authorization gate, alpha-one/scripts/verify_roles.py: the role catalog, the bindings of
-- permission keys to roles, and the sets that the gate computes from them. `yaml.safe_load` is
-- not part of the repository: the parsed files are the arguments `Catalog` and `Bindings`.
pub mod Walk
pub mod Inheritance
pub mod Gate
pub mod Members
pub mod Closure
pub mod Seed
pub mod Routes
pub mod Operations
pub mod RouteCount
pub mod Matrix
pub mod Document
pub mod Registry
pub mod Main
pub mod Stages
pub mod Verdicts
pub mod Consistent
mod MainSamples
mod Samples
mod DocumentSamples
mod RouteSamples
pub mod Realms
use alpha_one.Base.{
  lookup, ℕ, ◌+◌, ◌&&◌, ◌||◌, Bool, true, false, Option, none, some, List, [], ◌∷◌, ◌++◌, map,
  reverse, length, Str, mem, str_eq, if◌then◌else◌, any, ◌≡◌,
}
use alpha_one.Roles.Walk.{walk, Adj, targets, weight}

-- An entry of `role_catalog`.
pub record RoleMeta : Type 0 where
  pub realm : Str
  pub inherits : Option (List Str)

-- An entry of `bindings`; a missing `roles` reads as the empty list.
pub record Rule : Type 0 where
  pub scope : Option Str
  pub roles : List Str
  pub abac : Option Str
  pub note : Option Str

-- Dictionaries, in their order of insertion.
abbrev pub Catalog : Type 0
Catalog = List (Str × RoleMeta)

abbrev pub Bindings : Type 0
Bindings = List (Str × Rule)

-- `meta.get("inherits") or []`
unfoldable pub inherits_of : RoleMeta → List Str
inherits_of meta = elim meta.inherits [ none ↦ [] | some parents ↦ parents ]

-- `catalog.get(parent, {}).get("inherits") or []`
unfoldable pub parents_of : Catalog → Str → List Str
parents_of catalog role = elim (lookup role catalog) [ none ↦ [] | some meta ↦ inherits_of meta ]

unfoldable pub inheritance : Catalog → Adj
inheritance [] = []
inheritance ((role, meta) ∷ catalog) = (role, inherits_of meta) ∷ inheritance catalog

-- `none` is the KeyError of `catalog[role]`. The fuel is the number of `inherits` entries that
-- the loop can push.
unfoldable pub ancestors : Str → Catalog → Option (List Str)
ancestors role catalog = elim (lookup role catalog) [
  | none ↦ none
  | some meta ↦
      walk (parents_of catalog) (length (inherits_of meta) + weight (inheritance catalog) []) []
        (reverse (inherits_of meta))
]

-- `xs.add(x)` on a set
unfoldable pub add : Str → List Str → List Str
add x xs = if mem x xs then xs else x ∷ xs

-- `children.setdefault(parent, set()).add(role)`
unfoldable pub add_child : Str → Str → Adj → Adj
add_child parent role [] = (parent, role ∷ []) ∷ []
add_child parent role ((k, xs) ∷ children) =
    if str_eq k parent
    then (k, add role xs) ∷ children
    else (k, xs) ∷ add_child parent role children

unfoldable pub add_children : List Str → Str → Adj → Adj
add_children [] role children = children
add_children (parent ∷ parents) role children =
    add_children parents role (add_child parent role children)

unfoldable pub invert : Catalog → Adj → Adj
invert [] children = children
invert ((role, meta) ∷ catalog) children =
    invert catalog (add_children (inherits_of meta) role children)

-- `{r: set() for r in catalog}`
unfoldable pub childless : Catalog → Adj
childless catalog = map (λ (entry : Str × RoleMeta). (entry.0, [])) catalog

unfoldable pub children_of : Catalog → Adj
children_of catalog = invert catalog (childless catalog)

unfoldable pub descendants : Str → Catalog → Option (List Str)
descendants role catalog =
    let children = children_of catalog in
    let start = targets children role in
    walk (targets children) (length start + weight children []) [] (reverse start)
