-- ===== src/Roles/Gate.antt =====
-- The checks of `main` in alpha-one/scripts/verify_roles.py: what `errors` receives, one
-- constructor for each message.
use alpha_one.Base.{
  lookup, ◌&&◌, ◌||◌, not, Bool, true, false, Option, none, some, List, [], ◌∷◌, ◌++◌, map, Str,
  codes, mem, str_eq, if◌then◌else◌, any, flat_map, sorted, keep,
}
use alpha_one.Roles.{Catalog, RoleMeta, Rule, Bindings, ancestors, descendants, add}

pub data GateProblem : Type 0 where
  not_in_registry : (key : Str) → GateProblem
  unknown_role : (key role : Str) → GateProblem
  tenant_role : (key role : Str) → GateProblem
  platform_role : (key scope role : Str) → GateProblem
  not_closed : (key role : Str) → (missing : List Str) → GateProblem
  not_reproduced : (role : Str) → GateProblem
  unknown_provisional : (keys : List Str) → GateProblem

abbrev pub platform : Str
platform = codes "platform"

-- `scope == text`, where a missing scope is `None`.
unfoldable pub scope_is : Str → Option Str → Bool
scope_is text none = false
scope_is text (some scope) = str_eq scope text

unfoldable pub scope_text : Option Str → Str
scope_text none = codes "None"
scope_text (some scope) = scope

-- `set(xs)`, `set(xs) - set(ys)`
unfoldable pub to_set : List Str → List Str
unfolding add
to_set [] = []
to_set (x ∷ xs) = add x (to_set xs)

unfoldable pub minus : List Str → List Str → List Str
minus xs ys = keep (λ x. not (mem x ys)) xs

-- The body of the loop over a rule's roles.
unfoldable pub role_problems : Catalog → Str → Option Str → Str → List GateProblem
unfolding scope_is scope_text
role_problems catalog key scope role = elim (lookup role catalog) [
  | none ↦ unknown_role key role ∷ []
  | some meta ↦
      (if scope_is platform scope && not (str_eq meta.realm platform)
        then tenant_role key role ∷ []
        else [])
      ++ (if (scope_is (codes "all") scope || scope_is (codes "own") scope)
            && str_eq meta.realm platform
          then platform_role key (scope_text scope) role ∷ []
          else [])
]

unfoldable pub binding_problems : List Str → Catalog → Bindings → List GateProblem
unfolding role_problems
binding_problems keys catalog [] = []
binding_problems keys catalog ((key, rule) ∷ bindings) =
    (if mem key keys then [] else not_in_registry key ∷ [])
    ++ (flat_map (role_problems catalog key rule.scope) rule.roles
        ++ binding_problems keys catalog bindings)

-- What two rounds of a loop append, unless one of them raises.
unfoldable pub join {ℓ} : {B : Type ℓ} → Option (List B) → Option (List B) → Option (List B)
join none rest = none
join (some ys) none = none
join (some ys) (some zs) = some (ys ++ zs)

module _ {ℓ κ} {A : Type ℓ} {B : Type κ} where
  -- A loop whose body can raise, and appends to one list.
  unfoldable pub collect : (A → Option (List B)) → List A → Option (List B)
  unfolding join
  collect f [] = some []
  collect f (x ∷ xs) = join (f x) (collect f xs)

-- Check 3, for one role that holds the key.
unfoldable pub open_below : Catalog → Str → List Str → Str → Option (List GateProblem)
unfolding minus
open_below catalog key holders role = elim (descendants role catalog) [
  | none ↦ none
  | some below ↦
      let missing = minus below holders in
      elim missing [ [] ↦ some [] | m ∷ ms ↦ some (not_closed key role (sorted (m ∷ ms)) ∷ []) ]
]

unfoldable pub closure_problems : Catalog → Bindings → Option (List GateProblem)
unfolding collect open_below to_set
closure_problems catalog bindings =
    collect
      (λ (entry : Str × Rule).
        let holders = to_set entry.1.roles in collect (open_below catalog entry.0 holders) holders)
      bindings

-- `{k for k, rule in bindings.items() if role in rule.get("roles", [])}`
unfoldable pub listed : Str → Bindings → List Str
listed role [] = []
listed role ((key, rule) ∷ bindings) =
    if mem role rule.roles then key ∷ listed role bindings else listed role bindings

-- `bool(xs & ys)`
unfoldable pub meets : List Str → List Str → Bool
meets xs ys = any (λ x. mem x ys) xs

unfoldable pub inherited : Str → Bindings → Catalog → Option (List Str)
unfolding meets
inherited role [] catalog = some []
inherited role ((key, rule) ∷ bindings) catalog = elim (ancestors role catalog) [
  | none ↦ none
  | some up ↦
      let rest = inherited role bindings catalog in
      elim rest [
        | none ↦ none
        | some keys ↦ some (if meets up rule.roles then key ∷ keys else keys)
      ]
]

-- `own | inherited`
unfoldable pub union : List Str → List Str → List Str
unfolding minus
union xs ys = xs ++ minus ys xs

unfoldable pub effective : Str → Bindings → Catalog → Option (List Str)
unfolding inherited union listed
effective role bindings catalog = elim (inherited role bindings catalog) [
  | none ↦ none
  | some keys ↦ some (sorted (union (listed role bindings) keys))
]

unfoldable pub same_list : List Str → List Str → Bool
same_list [] [] = true
same_list [] (y ∷ ys) = false
same_list (x ∷ xs) [] = false
same_list (x ∷ xs) (y ∷ ys) = str_eq x y && same_list xs ys

-- Check 4, for one role of the catalog.
unfoldable pub not_own : Bindings → Catalog → Str → Option (List GateProblem)
unfolding effective same_list
not_own bindings catalog role = elim (effective role bindings catalog) [
  | none ↦ none
  | some keys ↦
      some (if same_list (sorted (listed role bindings)) keys then [] else not_reproduced role ∷ [])
]

unfoldable pub effective_problems : Catalog → Bindings → Option (List GateProblem)
unfolding collect not_own
effective_problems catalog bindings =
    collect (not_own bindings catalog) (map (λ (entry : Str × RoleMeta). entry.0) catalog)
