-- ===== src/Roles/Routes.antt =====
-- `check_contracts` of alpha-one/scripts/verify_roles.py: every V1 operation declares a permission.
-- The parsed OpenAPI files are the argument.
use alpha_one.Base.{
  has_key, ℕ, ◌+◌, ◌-◌, ◌&&◌, not, Bool, Option, none, some, List, [], ◌∷◌, ◌++◌, map, Str, mem,
  str_eq, if◌then◌else◌, keep, codes, leb, sorted,
}
use alpha_one.Roles.{Rule, Bindings}

-- An operation: `op.get("x-permission")`, and `str(op.get("x-phase", ""))`.
pub record Operation : Type 0 where
  pub permission : Option Str
  pub phase : Str

pub record Route : Type 0 where
  pub file : Str
  pub method : Str
  pub path : Str
  pub permission : Str

pub data RouteProblem : Type 0 where
  no_permission : (file method path : Str) → RouteProblem
  not_bound : (file method path permission : Str) → RouteProblem

-- The local variables of the function.
pub record Scan : Type 0 where
  pub errors : List RouteProblem
  pub routes : List Route
  pub v1_used : List (Str × ℕ)
  pub post_used : List (Str × ℕ)
  pub n_v1 : ℕ
  pub n_self : ℕ
  pub n_none : ℕ

abbrev pub methods : List Str
methods = codes "get" ∷ codes "post" ∷ codes "put" ∷ codes "patch" ∷ codes "delete" ∷ []

abbrev pub self_marker : Str
self_marker = codes "self"

abbrev pub none_marker : Str
none_marker = codes "none"

-- `perm in MARKERS`
unfoldable pub is_marker : Str → Bool
is_marker permission = mem permission (self_marker ∷ none_marker ∷ [])

-- `text.lower()` and `text.upper()` on ASCII letters.
unfoldable pub lower : Str → Str
lower = map (λ c. if leb 65 c && leb c 90 then c + 32 else c)

unfoldable pub upper : Str → Str
upper = map (λ c. if leb 97 c && leb c 122 then c - 32 else c)

-- `used[k] = used.get(k, 0) + 1`
unfoldable pub bump : Str → List (Str × ℕ) → List (Str × ℕ)
bump k [] = (k, 1) ∷ []
bump k ((j, n) ∷ used) = if str_eq j k then (j, n + 1) ∷ used else (j, n) ∷ bump k used

-- `if not perm` is the missing and the empty permission.
unfoldable pub given : Option Str → Option Str
given none = none
given (some []) = none
given (some (c ∷ cs)) = some (c ∷ cs)

-- A V1 operation with a permission.
unfoldable pub keyed : Bindings → Route → Scan → Scan
keyed bindings route s =
    if is_marker route.permission
    then (if str_eq route.permission self_marker
        then record s { routes = s.routes ++ route ∷ []; n_v1 = s.n_v1 + 1; n_self = s.n_self + 1 }
        else record s { routes = s.routes ++ route ∷ []; n_v1 = s.n_v1 + 1; n_none = s.n_none + 1 })
    else record s {
      routes = s.routes ++ route ∷ [];
      n_v1 = s.n_v1 + 1;
      v1_used = bump route.permission s.v1_used;
      errors =
          s.errors
          ++ (if has_key route.permission bindings
              then []
              else not_bound route.file route.method route.path route.permission ∷ []);
    }

-- The body of the innermost loop.
unfoldable pub visit : Bindings → Str → Str → Str → Operation → Scan → Scan
visit bindings file path method op s =
    if not (mem method methods)
    then s
    else if str_eq (lower op.phase) (codes "v1")
    then elim (given op.permission) [
      | none ↦ record s {
        n_v1 = s.n_v1 + 1;
        errors = s.errors ++ no_permission file (upper method) path ∷ [];
      }
      | some permission ↦
          keyed bindings
            (record { file = file; method = upper method; path = path; permission = permission }) s
    ]
    else elim (given op.permission) [
      | none ↦ s
      | some permission ↦
          if is_marker permission then s else record s { post_used = bump permission s.post_used }
    ]

unfoldable pub visit_item : Bindings → Str → Str → List (Str × Operation) → Scan → Scan
visit_item bindings file path [] s = s
visit_item bindings file path ((method, op) ∷ item) s =
    visit_item bindings file path item (visit bindings file path method op s)

unfoldable pub visit_paths : Bindings → Str → List (Str × List (Str × Operation)) → Scan → Scan
visit_paths bindings file [] s = s
visit_paths bindings file ((path, item) ∷ paths) s =
    visit_paths bindings file paths (visit_item bindings file path item s)

abbrev pub Contracts : Type 0
Contracts = List (Str × List (Str × List (Str × Operation)))

unfoldable pub visit_files : Bindings → Contracts → Scan → Scan
visit_files bindings [] s = s
visit_files bindings ((file, paths) ∷ contracts) s =
    visit_files bindings contracts (visit_paths bindings file paths s)

abbrev pub blank : Scan
blank = record {
  errors = [];
  routes = [];
  v1_used = [];
  post_used = [];
  n_v1 = 0;
  n_self = 0;
  n_none = 0;
}

unfoldable pub check_contracts : Bindings → Contracts → Scan
check_contracts bindings contracts = visit_files bindings contracts blank

-- `sorted(k for k in bindings if k not in v1_used and k not in post_used)`
unfoldable pub unused : Bindings → Scan → List Str
unused bindings s = sorted (
    keep (λ k. not (has_key k s.v1_used) && not (has_key k s.post_used))
      (map (λ (entry : Str × Rule). entry.0) bindings))
