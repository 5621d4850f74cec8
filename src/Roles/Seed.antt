-- ===== src/Roles/Seed.antt =====
-- `--seed` of alpha-one/scripts/verify_roles.py: the rows of `casbin_rule`, and what they grant.
use alpha_one.Base.{
  insert_entry, lookup, has_key, IsDict, sorted_items, ◌&&◌, ◌||◌, Bool, false, Option, none, some,
  List, [], ◌∷◌, map, Str, mem, str_eq, any, arith, ◌≡◌, ◌∙◌, refl, str_eq_sound, Bool-cases, inl,
  inr, str_eq_comm, codes, flat_map, sorted, mem-sorted, any-append,
}
use alpha_one.Roles.{Catalog, RoleMeta, Rule, Bindings, inherits_of}
use alpha_one.Roles.Gate.{effective, closure_problems}
use alpha_one.Roles.Members.{holders, effective_keys}
use alpha_one.Roles.Closure.{closure_problems-nil}
use alpha_one.Roles.Inheritance.{ancestors_ends}

-- ('p', role, key, scope)
pub record PolicyRow : Type 0 where
  pub role : Str
  pub key : Str
  pub scope : Str

-- ('g', role, parent)
pub record GroupRow : Type 0 where
  pub role : Str
  pub parent : Str

-- `rule.get('scope', 'all')`
unfoldable pub seed_scope : Option Str → Str
seed_scope none = codes "all"
seed_scope (some scope) = scope

unfoldable pub entry_rows : Str × Rule → List PolicyRow
unfolding seed_scope
entry_rows entry =
    map (λ (role : Str). record { role = role; key = entry.0; scope = seed_scope entry.1.scope })
      (sorted entry.1.roles)

unfoldable pub policy_rows : Bindings → List PolicyRow
unfolding sorted_items entry_rows
policy_rows bindings = flat_map entry_rows (sorted_items bindings)

unfoldable pub group_rows : Catalog → List GroupRow
unfolding sorted_items
group_rows catalog =
    flat_map
      (λ (entry : Str × RoleMeta).
        map (λ (parent : Str). record { role = entry.0; parent = parent }) (inherits_of entry.1))
      (sorted_items catalog)

-- What a request is checked against: a row for the role and the key.
unfoldable pub grants : List PolicyRow → Str → Str → Bool
grants rows role key = any (λ (row : PolicyRow). str_eq role row.role && str_eq key row.key) rows

grants-map :
    (role key k : Str) (scope : Str) (roles : List Str)
    → grants (map (λ (r : Str). record { role = r; key = k; scope = scope }) roles) role key
      ≡ (mem role roles && str_eq key k)
unfolding grants mem
grants-map role key k scope [] = refl
grants-map role key k scope (r ∷ roles) = ground (arith, grants-map role key k scope roles)

-- Some entry of the dictionary is for the key and lists the role.
some_entry : Str → Str → Bindings → Bool
some_entry role key [] = false
some_entry role key ((k, rule) ∷ b) = mem role rule.roles && str_eq key k || some_entry role key b

some_entry-insert :
    (role key : Str) (e : Str × Rule) (b : Bindings)
    → some_entry role key (insert_entry e b)
      ≡ (mem role e.1.roles && str_eq key e.0 || some_entry role key b)
unfolding some_entry insert_entry
some_entry-insert role key e [] = refl
some_entry-insert role key e (f ∷ b) = ground (arith, some_entry-insert role key e b)

some_entry-sorted :
    (role key : Str) (b : Bindings) → some_entry role key (sorted_items b) ≡ some_entry role key b
unfolding some_entry sorted_items
some_entry-sorted role key [] = refl
some_entry-sorted role key (e ∷ b) =
    ground (arith, some_entry-insert role key e (sorted_items b), some_entry-sorted role key b)

grants-some_entry :
    (role key : Str) (b : Bindings)
    → grants (flat_map entry_rows b) role key ≡ some_entry role key b
unfolding grants some_entry entry_rows
grants-some_entry role key [] = refl
grants-some_entry role key ((k, rule) ∷ b) =
    any-append (λ (row : PolicyRow). str_eq role row.role && str_eq key row.key)
      (entry_rows (k, rule)) (flat_map entry_rows b)
    ∙ ground (
      arith,
      grants-map role key k (seed_scope rule.scope) (sorted rule.roles),
      mem-sorted role rule.roles,
      grants-some_entry role key b,
    )

some_entry_absent :
    (role key : Str) (b : Bindings) → has_key key b ≡ false → some_entry role key b ≡ false
unfolding some_entry has_key
some_entry_absent role key [] h = refl
some_entry_absent role key ((k, rule) ∷ b) h =
    ground (arith, some_entry_absent role key b, str_eq_comm k key)

some_entry-holders :
    (role key : Str) (b : Bindings) → IsDict b → some_entry role key b ≡ mem role (holders key b)
unfolding some_entry holders lookup mem
some_entry-holders role key [] d = refl
some_entry-holders role key ((k, rule) ∷ b) d = elim (Bool-cases (str_eq k key)) [
  | inl e ↦
      ground
        (arith, str_eq_comm k key, some_entry_absent role key b, rw (str_eq_sound k key e) at (d.0))
  | inr e ↦ ground (arith, str_eq_comm k key, some_entry-holders role key b d.1)
]

-- The seeded rows grant a key to exactly the roles that its rule lists.
pub grants-policy_rows :
    (role key : Str) (bindings : Bindings)
    → IsDict bindings
    → grants (policy_rows bindings) role key ≡ mem role (holders key bindings)
unfolding policy_rows
grants-policy_rows role key bindings d =
    grants-some_entry role key (sorted_items bindings)
    ∙ some_entry-sorted role key bindings
    ∙ some_entry-holders role key bindings d

-- Where check 3 reports nothing on dictionaries, the seeded rows grant a role of the catalog
-- exactly its effective keys, own and inherited, though no row resolves inheritance.
pub grants-effective :
    (catalog : Catalog) (bindings : Bindings) (role : Str) (meta : RoleMeta)
    → IsDict catalog
    → IsDict bindings
    → closure_problems catalog bindings ≡ some []
    → lookup role catalog ≡ some meta
    → (keys : List Str) × (effective role bindings catalog ≡ some keys)
      × ((key : Str) → grants (policy_rows bindings) role key ≡ mem key keys)
grants-effective catalog bindings role meta rd d quiet known =
    let (up, e) = ancestors_ends catalog role meta known in
    let closed = (closure_problems-nil catalog bindings rd d).0 quiet in
    let (keys, found, distinct, members) = effective_keys role up bindings catalog d e in
    (
      sorted keys,
      found,
      λ key. ground (
        arith,
        grants-policy_rows role key bindings d,
        mem-sorted key keys,
        members key,
        closed.inherits_keys key role up e,
      ),
    )
