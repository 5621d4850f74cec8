-- ===== src/Roles/Operations.antt =====
-- The V1 operations of the contracts that alpha-one/scripts/verify_roles.py scans, read off the files
-- without its counters.
use alpha_one.Base.{
  ◌+◌, ◌&&◌, ◌||◌, Bool, true, false, none, some, List, [], ◌∷◌, ◌++◌, map, length, Str, mem,
  str_eq, codes, flat_map, keep, arith, ◌≡◌, ◌∙◌, refl, ap, sym, Bool-cases, Option-cases, inl, inr,
  append_assoc, length-append, append-nil,
}
use alpha_one.Roles.{Bindings}
use alpha_one.Roles.Routes.{
  Operation, Route, Scan, methods, is_marker, lower, upper, given, keyed, visit, visit_item,
  visit_paths, visit_files, Contracts, blank, check_contracts,
}

-- An operation with where it stands.
pub record Located : Type 0 where
  pub file : Str
  pub path : Str
  pub method : Str
  pub op : Operation

abbrev in_item : Str → Str → Str × Operation → Located
in_item file path entry = record { file = file; path = path; method = entry.0; op = entry.1 }

abbrev in_path : Str → Str × List (Str × Operation) → List Located
in_path file entry = map (in_item file entry.0) entry.1

abbrev in_file : Str × List (Str × List (Str × Operation)) → List Located
in_file entry = flat_map (in_path entry.0) entry.1

pub operations : Contracts → List Located
operations contracts = flat_map in_file contracts

-- The five methods of HTTP that an item declares operations for, at phase V1 in any case.
unfoldable pub is_v1 : Located → Bool
is_v1 o =
    (str_eq o.method (codes "get")
      || str_eq o.method (codes "post")
      || str_eq o.method (codes "put")
      || str_eq o.method (codes "patch")
      || str_eq o.method (codes "delete"))
    && str_eq (lower o.op.phase) (codes "v1")

-- The route of an operation that declares a permission.
unfoldable pub route_of : Located → List Route
route_of o = elim (given o.op.permission) [
  | none ↦ []
  | some permission ↦
      record { file = o.file; method = upper o.method; path = o.path; permission = permission } ∷ []
]

abbrev pub v1_operations : Contracts → List Located
v1_operations contracts = keep is_v1 (operations contracts)

module _ (bindings : Bindings) where
  scan_all : List Located → Scan → Scan
  scan_all [] s = s
  scan_all (o ∷ os) s = scan_all os (visit bindings o.file o.path o.method o.op s)

  scan_all-append :
      (os more : List Located) (s : Scan) → scan_all (os ++ more) s ≡ scan_all more (scan_all os s)
  unfolding scan_all
  scan_all-append [] more s = refl
  scan_all-append (o ∷ os) more s =
      scan_all-append os more (visit bindings o.file o.path o.method o.op s)

  item_all :
      (file path : Str) (item : List (Str × Operation)) (s : Scan)
      → visit_item bindings file path item s ≡ scan_all (map (in_item file path) item) s
  unfolding visit_item scan_all
  item_all file path [] s = refl
  item_all file path ((method, op) ∷ item) s =
      item_all file path item (visit bindings file path method op s)

  paths_all :
      (file : Str) (paths : List (Str × List (Str × Operation))) (s : Scan)
      → visit_paths bindings file paths s ≡ scan_all (flat_map (in_path file) paths) s
  unfolding visit_paths scan_all
  paths_all file [] s = refl
  paths_all file ((path, item) ∷ paths) s =
      paths_all file paths (visit_item bindings file path item s)
      ∙ ap (scan_all (flat_map (in_path file) paths)) (item_all file path item s)
      ∙ sym (scan_all-append (map (in_item file path) item) (flat_map (in_path file) paths) s)

  files_all :
      (contracts : Contracts) (s : Scan)
      → visit_files bindings contracts s ≡ scan_all (operations contracts) s
  unfolding visit_files scan_all operations
  files_all [] s = refl
  files_all ((file, paths) ∷ contracts) s =
      files_all contracts (visit_paths bindings file paths s)
      ∙ ap (scan_all (flat_map in_file contracts)) (paths_all file paths s)
      ∙ sym (scan_all-append (flat_map (in_path file) paths) (flat_map in_file contracts) s)

  -- What one operation adds to the count and to the routes.
  record Adds (o : Located) (s t : Scan) : Type 0 where
    adds_count : t.n_v1 ≡ s.n_v1 + length (keep is_v1 (o ∷ []))
    adds_routes : t.routes ≡ s.routes ++ flat_map route_of (keep is_v1 (o ∷ []))

  methods_lem :
      (m : Str)
      → (str_eq m (codes "get")
          || str_eq m (codes "post")
          || str_eq m (codes "put")
          || str_eq m (codes "patch")
          || str_eq m (codes "delete"))
        ≡ mem m methods
  unfolding mem
  methods_lem m = ground arith

  keyed_adds :
      (route : Route) (s : Scan)
      → ((keyed bindings route s).n_v1 ≡ s.n_v1 + 1)
        × ((keyed bindings route s).routes ≡ s.routes ++ route ∷ [])
  unfolding keyed
  keyed_adds route s = (ground arith, ground arith)

  is_v1-methods :
      (o : Located) → is_v1 o ≡ (mem o.method methods && str_eq (lower o.op.phase) (codes "v1"))
  unfolding is_v1
  is_v1-methods o = ap (λ b. b && str_eq (lower o.op.phase) (codes "v1")) (methods_lem o.method)

  silent_route : (o : Located) → given o.op.permission ≡ none → route_of o ≡ []
  unfolding route_of
  silent_route o g = rw (g, route_of) refl

  keyed_route :
      (o : Located) (permission : Str)
      → given o.op.permission ≡ some permission
      → route_of o
        ≡ record { file = o.file; method = upper o.method; path = o.path; permission = permission }
          ∷ []
  unfolding route_of
  keyed_route o permission g = rw (g, route_of) refl

  visit-Adds : (o : Located) (s : Scan) → Adds o s (visit bindings o.file o.path o.method o.op s)
  unfolding visit
  visit-Adds o s = elim (Bool-cases (mem o.method methods)) [
    | inr e ↦
        let out : is_v1 o ≡ false = is_v1-methods o ∙ rw e refl in
        record {
          adds_count = rw (e, out) (omega arith);
          adds_routes = rw (e, out) (sym (append-nil s.routes));
        }
    | inl e ↦ elim (Bool-cases (str_eq (lower o.op.phase) (codes "v1"))) [
      | inl v1 ↦
          let inside : is_v1 o ≡ true = is_v1-methods o ∙ rw (e, v1) refl in
          elim (Option-cases (given o.op.permission)) [
            | inl g ↦ record {
              adds_count = rw (e, v1, g, inside) refl;
              adds_routes =
                  rw (e, v1, g, inside)
                    (sym
                      (ap (λ r. s.routes ++ (r ++ [])) (silent_route o g) ∙ append-nil s.routes));
            }
            | inr (permission, g) ↦
                let (count_one, routes_one) =
                  keyed_adds
                    (record {
                      file = o.file;
                      method = upper o.method;
                      path = o.path;
                      permission = permission;
                    })
                    s in
                record {
                  adds_count = rw (e, v1, g, inside) count_one;
                  adds_routes =
                      rw (e, v1, g, inside)
                        (routes_one
                          ∙ sym (ap (λ r. s.routes ++ (r ++ [])) (keyed_route o permission g)));
                }
          ]
      | inr post ↦
          let out : is_v1 o ≡ false = is_v1-methods o ∙ rw (e, post) refl in
          elim (Option-cases (given o.op.permission)) [
            | inl g ↦ record {
              adds_count = rw (e, post, g, out) (omega arith);
              adds_routes = rw (e, post, g, out) (sym (append-nil s.routes));
            }
            | inr (permission, g) ↦ elim (Bool-cases (is_marker permission)) [
              | inl marked ↦ record {
                adds_count = rw (e, post, g, marked, out) (omega arith);
                adds_routes = rw (e, post, g, marked, out) (sym (append-nil s.routes));
              }
              | inr key ↦ record {
                adds_count = rw (e, post, g, key, out) (omega arith);
                adds_routes = rw (e, post, g, key, out) (sym (append-nil s.routes));
              }
            ]
          ]
    ]
  ]

  keep-cons :
      (o : Located) (os : List Located) → keep is_v1 (o ∷ os) ≡ keep is_v1 (o ∷ []) ++ keep is_v1 os
  keep-cons o os = elim (Bool-cases (is_v1 o)) [ inl e ↦ rw e refl | inr e ↦ rw e refl ]

  routes-cons :
      (o : Located) (os : List Located)
      → flat_map route_of (keep is_v1 (o ∷ os))
        ≡ flat_map route_of (keep is_v1 (o ∷ [])) ++ flat_map route_of (keep is_v1 os)
  routes-cons o os = elim (Bool-cases (is_v1 o)) [
    | inl e ↦
        rw e (ap (λ r. r ++ flat_map route_of (keep is_v1 os)) (sym (append-nil (route_of o))))
    | inr e ↦ rw e refl
  ]

  scan_all-count :
      (os : List Located) (s : Scan) → (scan_all os s).n_v1 ≡ s.n_v1 + length (keep is_v1 os)
  unfolding scan_all
  scan_all-count [] s = omega arith
  scan_all-count (o ∷ os) s =
      let next = visit bindings o.file o.path o.method o.op s in
      omega (
        arith,
        scan_all-count os next,
        (visit-Adds o s).adds_count,
        ap length (keep-cons o os),
        length-append (keep is_v1 (o ∷ [])) (keep is_v1 os),
      )

  scan_all-routes :
      (os : List Located) (s : Scan)
      → (scan_all os s).routes ≡ s.routes ++ flat_map route_of (keep is_v1 os)
  unfolding scan_all
  scan_all-routes [] s = sym (append-nil s.routes)
  scan_all-routes (o ∷ os) s =
      let next = visit bindings o.file o.path o.method o.op s in
      let here = flat_map route_of (keep is_v1 (o ∷ [])) in
      let later = flat_map route_of (keep is_v1 os) in
      scan_all-routes os next
      ∙ ap (λ r. r ++ later) (visit-Adds o s).adds_routes
      ∙ append_assoc s.routes here later
      ∙ ap (λ r. s.routes ++ r) (sym (routes-cons o os))

-- The scan counts the V1 operations of the contracts and lists their routes, each in its place.
pub check_contracts_lem :
    (bindings : Bindings) (contracts : Contracts)
    → ((check_contracts bindings contracts).n_v1 ≡ length (v1_operations contracts))
      × ((check_contracts bindings contracts).routes ≡ flat_map route_of (v1_operations contracts))
unfolding check_contracts
check_contracts_lem bindings contracts =
    let all_ops = operations contracts in
    let scanned = files_all bindings contracts blank in
    (
      omega (arith, ap (λ (t : Scan). t.n_v1) scanned, scan_all-count bindings all_ops blank),
      ap (λ (t : Scan). t.routes) scanned ∙ scan_all-routes bindings all_ops blank,
    )
