-- ===== src/Roles/Inheritance.antt =====
-- `ancestors` and `descendants` of alpha-one/scripts/verify_roles.py.
use alpha_one.Base.{
  lookup, has_key, IsDict, ◌&&◌, ◌||◌, Bool, true, false, some, List, [], ◌∷◌, reverse, Str, mem,
  str_eq, arith, ◌≡◌, refl, str_eq_sound, Bool-cases, Option-cases, fun_ext, ◌↔◌, inl, inr, sym,
  str_eq_comm, str_eq_iff, Bool-ext,
}
use alpha_one.Roles.Walk.{
  Adj, targets, Reach, walk_lem, walk_ends, Reach-reverse, length-reverse, last_step,
}
use alpha_one.Roles.{
  Catalog, RoleMeta, inherits_of, parents_of, inheritance, ancestors, descendants, add, add_child,
  add_children, invert, childless, children_of,
}

parents-targets :
    (catalog : Catalog) (role : Str) → parents_of catalog role ≡ targets (inheritance catalog) role
unfolding parents_of lookup inheritance targets
parents-targets [] role = refl
parents-targets ((r, meta) ∷ catalog) role = ground (arith, parents-targets catalog role)

-- On every role of the catalog `ancestors` returns, however the roles inherit from one another.
pub ancestors_ends :
    (catalog : Catalog) (role : Str) (meta : RoleMeta)
    → lookup role catalog ≡ some meta
    → (res : List Str) × (ancestors role catalog ≡ some res)
unfolding ancestors
ancestors_ends catalog role meta h =
    rw (h, ancestors, fun_ext (parents-targets catalog))
      (walk_ends (inheritance catalog) _ [] (reverse (inherits_of meta))
        (omega (arith, length-reverse (inherits_of meta))))

ancestors-Reach :
    (catalog : Catalog) (role : Str) (res : List Str) (v : Str)
    → ancestors role catalog ≡ some res
    → (mem v res ≡ true) ↔ Reach (parents_of catalog) (parents_of catalog role) v
unfolding ancestors parents_of
ancestors-Reach catalog role res v h = elim (Option-cases (lookup role catalog)) [
  | inl e ↦ cc (rw (e, ancestors) at h)
  | inr (meta, e) ↦
      rw (e, parents_of)
        (walk_lem (parents_of catalog) _ (inherits_of meta) res v (rw (e, ancestors) at h))
]

-- The entries of the catalog that list `x` among their parents.
has_child : Str → Str → Catalog → Bool
has_child v x [] = false
has_child v x ((r, meta) ∷ catalog) =
    str_eq v r && mem x (inherits_of meta) || has_child v x catalog

mem-add : (v x : Str) (xs : List Str) → mem v (add x xs) ≡ (str_eq v x || mem v xs)
unfolding add mem
mem-add v x xs = elim (Bool-cases (str_eq v x)) [
  | inl e ↦ ground (arith, str_eq_sound v x e)
  | inr e ↦ ground arith
]

targets-add_child :
    (p r x v : Str) (g : Adj)
    → mem v (targets (add_child p r g) x) ≡ (str_eq p x && str_eq v r || mem v (targets g x))
unfolding add_child targets mem
targets-add_child p r x v [] = ground arith
targets-add_child p r x v ((k, xs) ∷ g) = ground (
  arith,
  targets-add_child p r x v g,
  mem-add v r xs,
  str_eq_iff k p,
  str_eq_iff k x,
  str_eq_iff p x,
)

targets-add_children :
    (ps : List Str) (r x v : Str) (g : Adj)
    → mem v (targets (add_children ps r g) x) ≡ (str_eq v r && mem x ps || mem v (targets g x))
unfolding add_children mem
targets-add_children [] r x v g = ground arith
targets-add_children (p ∷ ps) r x v g = ground (
  arith,
  targets-add_children ps r x v (add_child p r g),
  targets-add_child p r x v g,
  str_eq_comm p x,
)

targets-invert :
    (catalog : Catalog) (x v : Str) (g : Adj)
    → mem v (targets (invert catalog g) x) ≡ (has_child v x catalog || mem v (targets g x))
unfolding invert has_child
targets-invert [] x v g = refl
targets-invert ((r, meta) ∷ catalog) x v g = ground (
  arith,
  targets-invert catalog x v (add_children (inherits_of meta) r g),
  targets-add_children (inherits_of meta) r x v g,
)

targets-childless : (catalog : Catalog) (x : Str) → targets (childless catalog) x ≡ []
unfolding childless targets
targets-childless [] x = refl
targets-childless ((r, meta) ∷ catalog) x = ground (arith, targets-childless catalog x)

parents_of-absent :
    (catalog : Catalog) (role : Str) → has_key role catalog ≡ false → parents_of catalog role ≡ []
unfolding parents_of lookup has_key
parents_of-absent [] role h = refl
parents_of-absent ((r, meta) ∷ catalog) role h = ground (arith, parents_of-absent catalog role)

has_child-parents_of :
    (catalog : Catalog) (v x : Str)
    → IsDict catalog
    → has_child v x catalog ≡ mem x (parents_of catalog v)
unfolding has_child parents_of lookup mem
has_child-parents_of [] v x d = refl
has_child-parents_of ((r, meta) ∷ catalog) v x d = elim (Bool-cases (str_eq r v)) [
  | inl e ↦ ground (
    arith,
    str_eq_comm r v,
    has_child-parents_of catalog v x d.1,
    parents_of-absent catalog v,
    str_eq_sound r v e,
  )
  | inr e ↦ ground (arith, str_eq_comm r v, has_child-parents_of catalog v x d.1)
]

-- The inverted dictionary lists `v` under `x` exactly when `v` inherits from `x`.
pub children_of_lem :
    (catalog : Catalog) (x v : Str)
    → IsDict catalog
    → mem v (targets (children_of catalog) x) ≡ mem x (parents_of catalog v)
unfolding children_of mem
children_of_lem catalog x v d = ground (
  arith,
  targets-invert catalog x v (childless catalog),
  targets-childless catalog x,
  has_child-parents_of catalog v x d,
)

pub descendants_ends :
    (catalog : Catalog) (role : Str) → (res : List Str) × (descendants role catalog ≡ some res)
unfolding descendants
descendants_ends catalog role =
    let children = children_of catalog in
    walk_ends children _ [] (reverse (targets children role))
      (omega (arith, length-reverse (targets children role)))

descendants-Reach :
    (catalog : Catalog) (role : Str) (res : List Str) (v : Str)
    → descendants role catalog ≡ some res
    → (mem v res ≡ true)
      ↔ Reach (targets (children_of catalog)) (targets (children_of catalog) role) v
unfolding descendants
descendants-Reach catalog role res v h =
    walk_lem (targets (children_of catalog)) _ (targets (children_of catalog) role) res v h

known_child :
    (catalog : Catalog) (x v : Str)
    → mem x (parents_of catalog v) ≡ true
    → (meta : RoleMeta) × (lookup v catalog ≡ some meta)
unfolding parents_of mem
known_child catalog x v h = ground arith

-- Only roles of the catalog are descendants.
pub descendants_known :
    (catalog : Catalog) (role v : Str) (res : List Str)
    → IsDict catalog
    → descendants role catalog ≡ some res
    → mem v res ≡ true
    → (meta : RoleMeta) × (lookup v catalog ≡ some meta)
descendants_known catalog role v res d e m =
    last_step (targets (children_of catalog)) (targets (children_of catalog) role) (child role)
      child ((descendants-Reach catalog role res v e).0 m)
  where
    child :
        (x : Str)
        → mem v (targets (children_of catalog) x) ≡ true
        → (meta : RoleMeta) × (lookup v catalog ≡ some meta)
    child x h = known_child catalog x v (rw (children_of_lem catalog x v d) at h)

-- Over a catalog that is a dictionary, where `ancestors(d)` and `descendants(a)` return: one
-- role `d` is a descendant of another `a` exactly when `a` is an ancestor of `d`.
pub mem-descendants :
    (catalog : Catalog) (a d : Str) (up down : List Str)
    → IsDict catalog
    → ancestors d catalog ≡ some up
    → descendants a catalog ≡ some down
    → mem d down ≡ mem a up
mem-descendants catalog a d up down dict e f =
    let (up_sound, up_full) = ancestors-Reach catalog d up a e in
    let (down_sound, down_full) = descendants-Reach catalog a down d f in
    let dual = λ (u v : Str). children_of_lem catalog u v dict in
    Bool-ext (mem d down) (mem a up)
      (λ m.
        up_full (
          Reach-reverse (targets (children_of catalog)) (parents_of catalog) dual a (down_sound m)))
      (λ m. down_full (
        Reach-reverse (parents_of catalog) (targets (children_of catalog)) (λ u v. sym (dual v u)) d
          (up_sound m)))

-- `ancestors` raises on every name that the catalog lacks.
pub ancestors_known :
    (catalog : Catalog) (role : Str) (res : List Str)
    → ancestors role catalog ≡ some res
    → (meta : RoleMeta) × (lookup role catalog ≡ some meta)
unfolding ancestors
ancestors_known catalog role res h = ground arith

-- For each role of the catalog `ancestors` returns a set, and its members are exactly the roles
-- that a chain of one or more `inherits` entries leads to.
pub ancestors_lem :
    (catalog : Catalog) (role : Str) (meta : RoleMeta)
    → lookup role catalog ≡ some meta
    → (res : List Str) × (ancestors role catalog ≡ some res)
      × ((v : Str) → (mem v res ≡ true) ↔ Reach (parents_of catalog) (parents_of catalog role) v)
ancestors_lem catalog role meta h =
    let (res, e) = ancestors_ends catalog role meta h in
    (res, e, λ v. ancestors-Reach catalog role res v e)
