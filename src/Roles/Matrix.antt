-- ===== src/Roles/Matrix.antt =====
-- The generated views of `render_matrix` in alpha-one/scripts/verify_roles.py: the role × key
-- matrix, the detail of each key, and the map of V1 routes. `none` is the KeyError of `ROLE_ABBR`.
use alpha_one.Base.{
  decimal, lookup, IsDict, sorted_items, ℕ, zero, suc, not, Bool, true, false, Option, none, some,
  List, [], ◌∷◌, ◌++◌, map, length, Str, mem, str_eq, if◌then◌else◌, arith, ◌≡◌, ◌≢◌, refl,
  Bool-cases, Option-cases, ◌↔◌, inl, inr, keep, codes, join_with, newline, concat, quoted, sorted,
}
use alpha_one.Roles.{Catalog, RoleMeta, Rule, Bindings}
use alpha_one.Roles.Gate.{join, collect, scope_is}
use alpha_one.Roles.Seed.{seed_scope, grants, policy_rows, grants-policy_rows}
use alpha_one.Roles.Members.{holders}
use alpha_one.Roles.Routes.{Route, is_marker, self_marker, upper}

abbrev pub role_abbr : List (Str × Str)
role_abbr =
    (codes "user:trader", codes "trader")
    ∷ (codes "firm:support", codes "sup")
    ∷ (codes "firm:finance", codes "fin")
    ∷ (codes "firm:compliance", codes "comp")
    ∷ (codes "firm:risk", codes "risk")
    ∷ (codes "firm:admin", codes "admin")
    ∷ (codes "firm:owner", codes "owner")
    ∷ (codes "platform:readonly", codes "ro")
    ∷ (codes "platform:finance", codes "p:fin")
    ∷ (codes "platform:support", codes "p:sup")
    ∷ (codes "platform:ops", codes "ops")
    ∷ (codes "platform:super_admin", codes "sadmin")
    ∷ []

-- `spec.get('version')`, `spec.get('decision')`, `spec.get('decided')`, as they print.
pub record Version : Type 0 where
  pub version : Str
  pub decision : Str
  pub decided : Str

-- `rule.get("abac")` that is neither missing nor empty.
unfoldable pub given_text : Option Str → Option Str
given_text none = none
given_text (some []) = none
given_text (some (c ∷ cs)) = some (c ∷ cs)

unfoldable pub has_constraint : Rule → Bool
has_constraint rule = elim (given_text rule.abac) [ none ↦ false | some text ↦ true ]

-- `enumerate` from 1 on the sorted keys with a constraint.
unfoldable pub numbered : ℕ → List Str → List (Str × Str)
numbered n [] = []
numbered n (k ∷ ks) = (k, decimal (suc n) n) ∷ numbered (suc n) ks

unfoldable pub constraint_numbers : Bindings → List (Str × Str)
constraint_numbers bindings = numbered 1 (
    sorted (
      map (λ (entry : Str × Rule). entry.0)
        (keep (λ (entry : Str × Rule). has_constraint entry.1) bindings)))

unfoldable pub scope_mark : Option Str → Str
scope_mark scope =
    if scope_is (codes "all") scope
    then codes "A"
    else if scope_is (codes "own") scope
    then codes "O"
    else if scope_is (codes "platform") scope
    then codes "P"
    else codes "?"

unfoldable pub number_mark : Str → List (Str × Str) → Str
number_mark key numbers = elim (lookup key numbers) [ none ↦ [] | some n ↦ n ]

unfoldable pub cell : Bindings → Str → Str → Str
cell bindings key role = elim (lookup key bindings) [
  | none ↦ codes "·"
  | some rule ↦
      if not (mem role rule.roles)
      then codes "·"
      else scope_mark rule.scope ++ number_mark key (constraint_numbers bindings)
]

-- `[ROLE_ABBR[r] for r in roles]`
unfoldable pub abbreviations : List Str → Option (List Str)
abbreviations =
    collect (λ role. elim (lookup role role_abbr) [ none ↦ none | some short ↦ some (short ∷ []) ])

unfoldable pub matrix_line : Bindings → List Str → Str × Rule → Str
matrix_line bindings roles (key, rule) = concat (
    codes "| `"
    ∷ key
    ∷ codes "` | "
    ∷ seed_scope rule.scope
    ∷ codes " | "
    ∷ join_with (codes " | ") (map (cell bindings key) roles)
    ∷ codes " |"
    ∷ [])

-- `for r in roles if r in rule.get("roles", [])`
unfoldable pub holder_names : List Str → List Str → Option Str
holder_names roles holding = elim (abbreviations (keep (λ role. mem role holding) roles)) [
  | none ↦ none
  | some names ↦ some (join_with (codes ", ") (map quoted names))
]

-- `rule.get("abac") or rule.get("note") or "—"`
unfoldable pub constraint_text : Rule → Str
constraint_text rule = elim (given_text rule.abac) [
  | some text ↦ text
  | none ↦ elim (given_text rule.note) [ some text ↦ text | none ↦ codes "—" ]
]

unfoldable pub numbered_constraint : Bindings → Str → Rule → Str
numbered_constraint bindings key rule = elim (lookup key (constraint_numbers bindings)) [
  | none ↦ constraint_text rule
  | some n ↦ concat (codes "(" ∷ n ∷ codes ") " ∷ constraint_text rule ∷ [])
]

-- A registry row is the module and the description.
unfoldable pub detail_line :
    List (Str × (Str × Str)) → List Str → Bindings → Str × Rule → Option (List Str)
detail_line registry roles bindings (key, rule) =
    let owner : Str = elim (lookup key registry) [ none ↦ codes "—" | some row ↦ row.0 ] in
    elim (holder_names roles rule.roles) [
      | none ↦ none
      | some names ↦ some (
          concat (
            codes "| `"
            ∷ key
            ∷ codes "` | "
            ∷ owner
            ∷ codes " | "
            ∷ seed_scope rule.scope
            ∷ codes " | "
            ∷ names
            ∷ codes " | "
            ∷ numbered_constraint bindings key rule
            ∷ codes " |"
            ∷ [])
          ∷ [])
    ]

unfoldable pub route_holders : List Str → Bindings → Str → Option Str
route_holders roles bindings permission =
    if is_marker permission
    then some (
        if str_eq permission self_marker
        then codes "caller only (own data)"
        else codes "public / provider signature (no user authz)")
    else elim (holder_names roles
        (elim (lookup permission bindings) [ none ↦ [] | some rule ↦ rule.roles ])) [
          | none ↦ none
          | some [] ↦ some (codes "_no binding — denied for every role_")
          | some (c ∷ cs) ↦ some (c ∷ cs)
        ]

unfoldable pub route_line : List Str → Bindings → Route → Option (List Str)
route_line roles bindings route = elim (route_holders roles bindings route.permission) [
  | none ↦ none
  | some who ↦ some (
      concat (
        codes "| `"
        ∷ route.file
        ∷ codes "` | `"
        ∷ upper route.method
        ∷ codes " "
        ∷ route.path
        ∷ codes "` | `"
        ∷ route.permission
        ∷ codes "` | "
        ∷ who
        ∷ codes " |"
        ∷ [])
      ∷ [])
]

abbrev pub title_lines : List Str
title_lines =
    codes "# Permission Matrix (generated — do not edit by hand)"
    ∷ []
    ∷ codes
        "> Rendered by `scripts/verify_roles.py --write-matrix` from `contracts/permissions/roles.yaml`"
    ∷ codes
        "> (decision D14, docs/44 §4) + the V1 table of `registry.md` + the `x-phase: V1` operations in"
    ∷ codes
        "> `contracts/*.openapi.yaml`. The machine sources are binding; this file is a view — CI fails on"
    ∷ codes "> drift (gate 15, docs/99). The consolidated specification is"
    ∷ codes "> [docs/46-authorization-model.md](../../docs/46-authorization-model.md)."
    ∷ []
    ∷ []

abbrev pub matrix_intro : List Str
matrix_intro =
    []
    ∷ codes "## 1. Role × key matrix (V1)"
    ∷ []
    ∷ codes "Cell = the scope under which the role holds the key: **A** `all` (tenant-wide),"
    ∷ codes
        "**O** `own` (self-scoped, ABAC own-data matcher), **P** `platform` (cross-tenant, console"
    ∷ codes
        "realm only); `·` = denied. A digit cites the constraint in §2. Tenant roles can never hold"
    ∷ codes "`P` keys and platform roles can never hold `A`/`O` keys (AUTH-16 realm separation)."
    ∷ []
    ∷ []

abbrev pub detail_intro : List Str
detail_intro =
    []
    ∷ codes "## 2. Key detail — what each key allows, who holds it, under which constraint"
    ∷ []
    ∷ codes "| Key | Module | Scope | Holders (effective) | Constraint |"
    ∷ codes "|---|---|---|---|---|"
    ∷ []

abbrev pub route_intro : List Str
route_intro =
    []
    ∷ codes
        "Module + description are the registry's; a key with no binding is denied for every role"
    ∷ codes "(fail-closed rule, roles.yaml `model.fail_closed`)."
    ∷ []
    ∷ codes "## 3. V1 route map — every V1 operation, its declared permission, and who can call it"
    ∷ []
    ∷ codes
        "> Review G41 / gate 13: every `x-phase: V1` operation declares a registry key or an explicit"
    ∷ codes
        "> `self` / `none` marker. `self` = the caller acting on their own data (the own-data matcher,"
    ∷ codes
        "> docs/46 §7 A1, still runs); `none` = unauthenticated or provider-signature-authenticated."
    ∷ codes "> Post-V1 operations annotate at their own contract freeze (docs/45 §6.2)."
    ∷ []
    ∷ codes "| Contract | Operation | Permission | Authorized roles |"
    ∷ codes "|---|---|---|---|"
    ∷ []

abbrev pub unused_intro : List Str
unused_intro =
    []
    ∷ codes "## 4. Bound V1 keys with no V1 route (reserved — first surface named in docs/46 §4.4)"
    ∷ []
    ∷ []

abbrev pub closing : List Str
closing =
    []
    ∷ codes
        "These bindings are ratified now and enforced from the moment their route ships; until then"
    ∷ codes
        "they are exercised by runbooks and internal surfaces only. docs/46 §4.4 names each key's"
    ∷ codes "first surface. _End of generated file._"
    ∷ []

unfoldable pub version_line : Version → Str
version_line v = concat (
    codes "Version: "
    ∷ v.version
    ∷ codes " · decision: "
    ∷ v.decision
    ∷ codes " · decided: "
    ∷ v.decided
    ∷ [])

-- "`role` = `short`", for each role.
unfoldable pub legend_entries : List Str → List Str → List Str
legend_entries [] names = []
legend_entries (role ∷ roles) [] = []
legend_entries (role ∷ roles) (name ∷ names) =
    concat (quoted role ∷ codes " = " ∷ quoted name ∷ []) ∷ legend_entries roles names

unfoldable pub legend_line : List Str → List Str → Str
legend_line roles names = concat (
    codes "Role columns: "
    ∷ join_with (codes "; ") (legend_entries roles names)
    ∷ codes
        ". Inheritance is pre-expanded (every listed holder can exercise the key — closure is checked)."
    ∷ [])

-- `sorted(k for k in bindings if k not in {r[3] for r in v1_routes})`
unfoldable pub unrouted : Bindings → List Route → List Str
unrouted bindings routes = sorted (
    keep (λ key. not (mem key (map (λ (r : Route). r.permission) routes)))
      (map (λ (entry : Str × Rule). entry.0) bindings))

unfoldable pub unused_line : List Str → Str
unused_line [] = codes "_none — every bound key is exercised by a V1 route._"
unused_line (key ∷ keys) = join_with (codes ", ") (map quoted (key ∷ keys))

unfoldable pub repeat_text : ℕ → Str → Str
repeat_text zero text = []
repeat_text (suc n) text = text ++ repeat_text n text

unfoldable pub render_matrix :
    Version → Catalog → Bindings → List (Str × (Str × Str)) → List Route → Option Str
render_matrix version catalog bindings registry routes =
    let roles = map (λ (entry : Str × RoleMeta). entry.0) catalog in
    let rows = sorted_items bindings in
    elim (abbreviations roles) [
      | none ↦ none
      | some names ↦
          elim (join (collect (detail_line registry roles bindings) rows) (
            join (some route_intro) (
              join (collect (route_line roles bindings) routes)
                (some (unused_intro ++ (unused_line (unrouted bindings routes) ∷ closing)))))) [
                  | none ↦ none
                  | some rest ↦ some (
                      join_with newline (
                        title_lines
                        ++ (version_line version
                            ∷ (matrix_intro
                                ++ (concat (
                                      codes "| Key | Scope | "
                                      ∷ join_with (codes " | ") names
                                      ∷ codes " |"
                                      ∷ [])
                                    ∷ (codes "|---|---|"
                                        ++ repeat_text (length roles) (codes "---|"))
                                    ∷ (map (matrix_line bindings roles) rows
                                        ++ ([]
                                            ∷ legend_line roles names
                                            ∷ (detail_intro ++ rest)))))))
                      ++ newline)
                ]
    ]

-- The mark of a scope is none of the marks of a denied cell.
scope_mark_shown : (scope : Option Str) (rest : Str) → scope_mark scope ++ rest ≢ codes "·"
unfolding scope_mark
scope_mark_shown scope rest = ground arith

-- The matrix shows a cell as denied exactly where the rule of the key does not list the role, or
-- the key is not bound.
pub cell-denied :
    (bindings : Bindings) (key role : Str)
    → (cell bindings key role ≡ codes "·") ↔ (mem role (holders key bindings) ≡ false)
unfolding cell holders mem
cell-denied bindings key role = elim (Option-cases (lookup key bindings)) [
  | inl e ↦ rw (e, cell, holders) (λ _. refl, λ _. refl)
  | inr (rule, e) ↦ elim (Bool-cases (mem role rule.roles)) [
    | inl m ↦
        rw (e, cell, holders, m)
          (
            λ h.
                absurd
                  (scope_mark_shown rule.scope (number_mark key (constraint_numbers bindings)) h),
            λ h. cc,
          )
    | inr m ↦ rw (e, cell, holders, m) (λ _. refl, λ _. refl)
  ]
]

-- On bindings that are a dictionary the view agrees with the policy: the matrix shows a cell as
-- denied exactly where the seeded rows do not grant the key to the role.
pub cell-grants :
    (bindings : Bindings) (key role : Str)
    → IsDict bindings
    → (cell bindings key role ≡ codes "·") ↔ (grants (policy_rows bindings) role key ≡ false)
cell-grants bindings key role d =
    rw (grants-policy_rows role key bindings d) (cell-denied bindings key role)
