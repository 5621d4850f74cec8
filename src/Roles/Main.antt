-- ===== src/Roles/Main.antt =====
-- `main` of alpha-one/scripts/verify_roles.py: the six checks, the two writers and the exit code.
use alpha_one.Roles.Registry.{registry_meta}
use alpha_one.Base.{
  ℕ, Bool, true, false, Option, none, some, List, [], ◌∷◌, ◌++◌, map, Str, str_eq, if◌then◌else◌,
}
use alpha_one.Base.{codes, sorted, ◌>>=◌}
use alpha_one.Markers.{DocProblem, block_missing, find_block}
use alpha_one.Roles.{Catalog, Rule, Bindings}
use alpha_one.Roles.Gate.{
  GateProblem, unknown_provisional, binding_problems, closure_problems, effective_problems, minus,
}
use alpha_one.Roles.Document.{
  written, no_anchor, escape_in_block, begin_marker, end_marker, render, check_doc, write_doc,
}
use alpha_one.Roles.Routes.{RouteProblem, Contracts, check_contracts}
use alpha_one.Roles.Matrix.{Version, render_matrix}
use alpha_one.Roles.Seed.{PolicyRow, GroupRow, policy_rows, group_rows}

-- The options of the command line.
pub record Flags : Type 0 where
  pub write_document : Bool
  pub write_view : Bool
  pub seed : Bool

-- roles.yaml; `provisional` holds the keys of `provisional_bindings`.
pub record Spec : Type 0 where
  pub version : Version
  pub catalog : Catalog
  pub bindings : Bindings
  pub provisional : List Str

-- What is read beside it: `registry_keys()`, its V1 part, registry.md, the OpenAPI files,
-- docs/02 and matrix.md, which can be missing.
pub record Files : Type 0 where
  pub keys : List Str
  pub v1_keys : List Str
  pub registry : Str
  pub contracts : Contracts
  pub document : Str
  pub view : Option Str

pub data RoleError : Type 0 where
  gate : GateProblem → RoleError
  document_error : DocProblem → RoleError
  route_error : RouteProblem → RoleError
  view_missing view_stale : RoleError

pub data Warning : Type 0 where
  no_contracts : Warning
  unbound : List Str → Warning

pub record Outcome : Type 0 where
  pub errors : List RoleError
  pub warnings : List Warning
  pub code : ℕ
  pub policies : List PolicyRow
  pub groups : List GroupRow
  pub files : Files

-- docs/02 behind `write_doc(spec)`. `none`: the writer exits, or would write another text.
unfoldable pub document_after : Bool → Spec → Str → Option Str
document_after false spec text = some text
document_after true spec text = do
  want ← render spec.catalog spec.bindings
  elim (write_doc text want) [ written new ↦ some new | no_anchor ↦ none | escape_in_block ↦ none ]

-- `check_doc(spec)`: it renders only where there is a block.
unfoldable pub drift_problems : Spec → Str → Option (List DocProblem)
drift_problems spec text = elim (find_block begin_marker end_marker text) [
  | none ↦ some (block_missing ∷ [])
  | some block ↦ do want ← render spec.catalog spec.bindings; some (check_doc text want)
]

unfoldable pub view_problems : Bool → Option Str → Str → List RoleError
view_problems true found want = []
view_problems false none want = view_missing ∷ []
view_problems false (some text) want = if str_eq text want then [] else view_stale ∷ []

-- `provisional - keys`, without the comment entry.
unfoldable pub provisional_problems : List Str → List Str → List GateProblem
unfolding minus
provisional_problems provisional keys =
    let unknown = minus (minus provisional (codes "$comment" ∷ [])) keys in
    elim unknown [ [] ↦ [] | k ∷ ks ↦ unknown_provisional (sorted (k ∷ ks)) ∷ [] ]

unfoldable pub run_warnings : Contracts → List Str → Bindings → List Warning
unfolding minus
run_warnings contracts v1_keys bindings =
    let missing = minus v1_keys (map (λ (entry : Str × Rule). entry.0) bindings) in
    elim contracts [ [] ↦ no_contracts ∷ [] | c ∷ cs ↦ [] ]
    ++ elim missing [ [] ↦ [] | k ∷ ks ↦ unbound (sorted (k ∷ ks)) ∷ [] ]

-- `return 1` where there are errors, and the seed behind the last check.
unfoldable pub finish : Flags → Spec → Files → List RoleError → Outcome
finish flags spec files [] = record {
  errors = [];
  warnings = run_warnings files.contracts files.v1_keys spec.bindings;
  code = 0;
  policies = if flags.seed then policy_rows spec.bindings else [];
  groups = if flags.seed then group_rows spec.catalog else [];
  files = files;
}
finish flags spec files (e ∷ es) = record {
  errors = e ∷ es;
  warnings = [];
  code = 1;
  policies = [];
  groups = [];
  files = files;
}

-- `none` is a KeyError, or the exit of the writer.
unfoldable pub main : Flags → Spec → Files → Option Outcome
unfolding document_after drift_problems view_problems provisional_problems finish
main flags spec files = do
  text ← document_after flags.write_document spec files.document
  open_keys ← closure_problems spec.catalog spec.bindings
  own ← effective_problems spec.catalog spec.bindings
  drift ← drift_problems spec text
  let scan = check_contracts spec.bindings files.contracts
  want ←
      render_matrix spec.version spec.catalog spec.bindings (registry_meta files.registry)
        scan.routes
  some (
      finish flags spec
        (record files {
          document = text;
          view = if flags.write_view then some want else files.view;
        })
        (map gate (binding_problems files.keys spec.catalog spec.bindings)
          ++ (map gate open_keys
              ++ (map gate own
                  ++ (map document_error drift
                      ++ (map route_error scan.errors
                          ++ (view_problems flags.write_view files.view want
                              ++ map gate (provisional_problems spec.provisional files.keys))))))))
