-- ===== src/Roles/RouteCount.antt =====
-- What `check_contracts` of alpha-one/scripts/verify_roles.py counts and reports.
use alpha_one.Base.{
  has_key, ℕ, suc, ◌+◌, ◌||◌, true, List, [], ◌∷◌, ◌++◌, length, Str, mem, str_eq, if◌then◌else◌,
  arith, ◌≡◌, refl, Bool-cases, Option-cases, inl, inr, codes, All, length-append, append-nil_iff,
  flat_map, append-eq-nil,
}
use alpha_one.Roles.{Bindings}
use alpha_one.Roles.Operations.{route_of, v1_operations, check_contracts_lem}
use alpha_one.Roles.Routes.{
  Operation, Route, RouteProblem, no_permission, not_bound, Scan, methods, is_marker, lower, upper,
  bump, given, keyed, visit, visit_item, visit_paths, visit_files, Contracts, blank,
  check_contracts,
}

pub uses : List (Str × ℕ) → ℕ
uses [] = 0
uses ((k, n) ∷ used) = n + uses used

uses-bump : (k : Str) (used : List (Str × ℕ)) → uses (bump k used) ≡ uses used + 1
unfolding uses bump
uses-bump k [] = refl
uses-bump k ((j, n) ∷ used) = ground (arith, uses-bump k used)

-- The problems of operations that declare nothing.
pub keyless : List RouteProblem → ℕ
keyless [] = 0
keyless (no_permission file method path ∷ es) = suc (keyless es)
keyless (not_bound file method path permission ∷ es) = keyless es

keyless-append : (xs ys : List RouteProblem) → keyless (xs ++ ys) ≡ keyless xs + keyless ys
unfolding keyless
keyless-append [] ys = omega arith
keyless-append (no_permission f m p ∷ xs) ys = omega (arith, keyless-append xs ys)
keyless-append (not_bound f m p k ∷ xs) ys = omega (arith, keyless-append xs ys)

-- A route whose permission can be exercised: a marker, or a bound key.
abbrev pub IsBound : Bindings → Route → Type 0
IsBound bindings route = (is_marker route.permission || has_key route.permission bindings) ≡ true

pub record Accounted (bindings : Bindings) (s : Scan) : Type 0 where
  pub each_once : s.n_v1 ≡ s.n_self + s.n_none + uses s.v1_used + keyless s.errors
  pub declared : s.n_v1 ≡ length s.routes + keyless s.errors
  pub bound : s.errors ≡ [] → All (IsBound bindings) s.routes

All-concat {ℓ κ} :
    {A : Type ℓ} (P : A → Type κ) (xs ys : List A) → All P xs → All P ys → All P (xs ++ ys)
All-concat P [] ys a b = b
All-concat P (x ∷ xs) ys a b = (a.0, All-concat P xs ys a.1 b)

module _ (bindings : Bindings) where
  keyed_quiet :
      (route : Route) (s : Scan)
      → (keyed bindings route s).errors ≡ []
      → (s.errors ≡ []) × IsBound bindings route
  unfolding keyed
  keyed_quiet route s h =
      let report =
        if has_key route.permission bindings
        then []
        else not_bound route.file route.method route.path route.permission ∷ [] in
      ground (arith, append-nil_iff s.errors report)

  keyed_routes :
      (route : Route) (s : Scan) → (keyed bindings route s).routes ≡ s.routes ++ route ∷ []
  unfolding keyed
  keyed_routes route s = ground arith

  keyed-Accounted :
      (route : Route) (s : Scan)
      → Accounted bindings s
      → Accounted bindings (keyed bindings route s)
  unfolding keyed keyless
  keyed-Accounted route s a =
      let report =
        if has_key route.permission bindings
        then []
        else not_bound route.file route.method route.path route.permission ∷ [] in
      record {
        each_once = ground (
          arith,
          a.each_once,
          keyless-append s.errors report,
          uses-bump route.permission s.v1_used,
        );
        declared = ground (
          arith,
          a.declared,
          keyless-append s.errors report,
          length-append s.routes (route ∷ []),
        );
        bound = λ quiet.
            let (before, fits) = keyed_quiet route s quiet in
            rw (keyed_routes route s)
              (All-concat (IsBound bindings) s.routes (route ∷ []) (a.bound before) (fits, tt));
      }

  keyless-Accounted :
      (s : Scan) (file method path : Str)
      → Accounted bindings s
      → Accounted bindings
          (record s { n_v1 = s.n_v1 + 1; errors = s.errors ++ no_permission file method path ∷ [] })
  unfolding keyless
  keyless-Accounted s file method path a =
      let report = no_permission file method path ∷ [] in
      record {
        each_once = omega (arith, a.each_once, keyless-append s.errors report);
        declared = omega (arith, a.declared, keyless-append s.errors report);
        bound = λ quiet. cc ((append-eq-nil s.errors report quiet).1);
      }

  post-Accounted :
      (s : Scan) (used : List (Str × ℕ))
      → Accounted bindings s
      → Accounted bindings (record s { post_used = used })
  post-Accounted s used a = record {
    each_once = a.each_once;
    declared = a.declared;
    bound = a.bound;
  }

  visit-Accounted :
      (file path method : Str) (op : Operation) (s : Scan)
      → Accounted bindings s
      → Accounted bindings (visit bindings file path method op s)
  unfolding visit
  visit-Accounted file path method op s a = elim (Bool-cases (mem method methods)) [
    | inr e ↦ rw e a
    | inl e ↦ elim (Bool-cases (str_eq (lower op.phase) (codes "v1"))) [
      | inl v1 ↦ elim (Option-cases (given op.permission)) [
        | inl g ↦ rw (e, v1, g) (keyless-Accounted s file (upper method) path a)
        | inr (permission, g) ↦
            rw (e, v1, g)
              (keyed-Accounted
                (record {
                  file = file;
                  method = upper method;
                  path = path;
                  permission = permission;
                })
                s a)
      ]
      | inr post ↦ elim (Option-cases (given op.permission)) [
        | inl g ↦ rw (e, post, g) a
        | inr (permission, g) ↦ elim (Bool-cases (is_marker permission)) [
          | inl marked ↦ rw (e, post, g, marked) a
          | inr key ↦ rw (e, post, g, key) (post-Accounted s (bump permission s.post_used) a)
        ]
      ]
    ]
  ]

  item-Accounted :
      (file path : Str) (item : List (Str × Operation)) (s : Scan)
      → Accounted bindings s
      → Accounted bindings (visit_item bindings file path item s)
  unfolding visit_item
  item-Accounted file path [] s a = a
  item-Accounted file path ((method, op) ∷ item) s a =
      item-Accounted file path item (visit bindings file path method op s)
        (visit-Accounted file path method op s a)

  paths-Accounted :
      (file : Str) (paths : List (Str × List (Str × Operation))) (s : Scan)
      → Accounted bindings s
      → Accounted bindings (visit_paths bindings file paths s)
  unfolding visit_paths
  paths-Accounted file [] s a = a
  paths-Accounted file ((path, item) ∷ paths) s a =
      paths-Accounted file paths (visit_item bindings file path item s)
        (item-Accounted file path item s a)

  files-Accounted :
      (contracts : Contracts) (s : Scan)
      → Accounted bindings s
      → Accounted bindings (visit_files bindings contracts s)
  unfolding visit_files
  files-Accounted [] s a = a
  files-Accounted ((file, paths) ∷ contracts) s a =
      files-Accounted contracts (visit_paths bindings file paths s) (paths-Accounted file paths s a)

blank-Accounted : (bindings : Bindings) → Accounted bindings blank
unfolding uses keyless
blank-Accounted bindings = record { each_once = refl; declared = refl; bound = λ _. tt }

all_Accounted :
    (bindings : Bindings) (contracts : Contracts)
    → Accounted bindings (check_contracts bindings contracts)
unfolding check_contracts
all_Accounted bindings contracts =
    files-Accounted bindings contracts blank (blank-Accounted bindings)

-- The scan counts the operations of the contracts that stand under get, post, put, patch or delete
-- at phase V1, and lists the routes of those that declare a permission, in order. Each was counted
-- once, as `self`, as `none`, as a use of a key or as one that declares nothing; it is listed as a
-- route unless it declares nothing; and where no error was reported every listed route carries a
-- marker or a bound key.
pub check_contracts-Accounted :
    (bindings : Bindings) (contracts : Contracts)
    → Accounted bindings (check_contracts bindings contracts)
      × ((check_contracts bindings contracts).n_v1 ≡ length (v1_operations contracts))
      × ((check_contracts bindings contracts).routes ≡ flat_map route_of (v1_operations contracts))
check_contracts-Accounted bindings contracts =
    let (counted, listed) = check_contracts_lem bindings contracts in
    (all_Accounted bindings contracts, counted, listed)
