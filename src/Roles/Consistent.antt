-- ===== src/Roles/Consistent.antt =====
-- What exit code 0 of alpha-one/scripts/verify_roles.py says of the files, and what its writers
-- leave for the next run.
use alpha_one.Roles.Registry.{registry_meta}
use alpha_one.Base.{
  Bool, true, false, Option, some, List, [], ◌∷◌, ◌++◌, map, Str, mem, if◌then◌else◌, arith, ◌≡◌,
  ◌∙◌, refl, ap, str_eq_refl, ◌↔◌, sym, some-injective, codes, IsDict, append-nil_iff, All,
}
use alpha_one.Markers.{Block, DocProblem, find_block, strip_newlines}
use alpha_one.Roles.Gate.{GateProblem, binding_problems, minus}
use alpha_one.Roles.Closure.{IsClosed, gates_agree}
use alpha_one.Roles.Realms.{IsSeparated, binding_problems-nil}
use alpha_one.Roles.Document.{begin_marker, end_marker, render}
use alpha_one.Roles.Matrix.{render_matrix}
use alpha_one.Roles.Main.{
  Flags, Spec, Files, RoleError, gate, document_error, route_error, Outcome, document_after,
  view_problems, provisional_problems, finish, main,
}
use alpha_one.Roles.Stages.{scan_of, run_errors, main-Stages}
use alpha_one.Roles.Verdicts.{
  finish-code, map-nil, provisional_problems-nil, view_problems-nil, drift_problems-nil,
}

-- Nothing is wrong with the files: the documents show what is computed from roles.yaml.
pub record IsConsistent (spec : Spec) (files : Files) : Type 0 where
  pub separated : IsSeparated files.keys spec.catalog spec.bindings
  pub closed : IsClosed spec.catalog spec.bindings
  pub block : Block
  pub block_found : find_block begin_marker end_marker files.document ≡ some block
  pub rendered :
      render spec.catalog spec.bindings
      ≡ some (strip_newlines (begin_marker ++ (block.inside ++ end_marker)))
  pub routed : (scan_of spec files).errors ≡ []
  pub view : Str
  pub view_found : files.view ≡ some view
  pub view_rendered :
      render_matrix spec.version spec.catalog spec.bindings
        (registry_meta files.registry)
        (scan_of spec files).routes
      ≡ some view
  pub provisional :
      All (λ key. mem key files.keys ≡ true) (minus spec.provisional (codes "$comment" ∷ []))

-- The run that only checks.
abbrev pub checking : Bool → Flags
checking seed = record { write_document = false; write_view = false; seed = seed }

run_errors-nil :
    (write : Bool) (spec : Spec) (files : Files) (open_keys own : List GateProblem)
    (drift : List DocProblem) (want : Str)
    → (run_errors write spec files open_keys own drift want ≡ []) ↔ (
        (binding_problems files.keys spec.catalog spec.bindings ≡ [])
        × (open_keys ≡ [])
        × (own ≡ [])
        × (drift ≡ [])
        × ((scan_of spec files).errors ≡ [])
        × (view_problems write files.view want ≡ [])
        × (provisional_problems spec.provisional files.keys ≡ []))
unfolding run_errors
run_errors-nil write spec files open_keys own drift want =
    let bound = binding_problems files.keys spec.catalog spec.bindings in
    let routes = (scan_of spec files).errors in
    let left = provisional_problems spec.provisional files.keys in
    let after_view = view_problems write files.view want ++ map gate left in
    let after_routes = map route_error routes ++ after_view in
    let after_drift = map document_error drift ++ after_routes in
    let after_own = map gate own ++ after_drift in
    ground (
      arith,
      append-nil_iff (map gate bound) (map gate open_keys ++ after_own),
      append-nil_iff (map gate open_keys) after_own,
      append-nil_iff (map gate own) after_drift,
      append-nil_iff (map document_error drift) after_routes,
      append-nil_iff (map route_error routes) after_view,
      append-nil_iff (view_problems write files.view want) (map gate left),
      map-nil gate bound,
      map-nil gate open_keys,
      map-nil gate own,
      map-nil document_error drift,
      map-nil route_error routes,
      map-nil gate left,
    )

passed-IsConsistent :
    (seed : Bool) (spec : Spec) (files : Files) (out : Outcome)
    → IsDict spec.catalog
    → IsDict spec.bindings
    → main (checking seed) spec files ≡ some out
    → out.code ≡ 0
    → IsConsistent spec files
unfolding document_after
passed-IsConsistent seed spec files out rd bd ran zero_code =
    let s = main-Stages (checking seed) spec files out ran in
    let quiet =
      (finish-code (checking seed) spec _ _).0
        (sym (ap (λ (o : Outcome). o.code) s.is_out) ∙ zero_code) in
    let (bound, open_keys, own, drift, routes, view, provisional) =
      (run_errors-nil false spec files s.open_keys s.own s.drift s.want).0 quiet in
    let is_text = some-injective _ _ s.is_text in
    let (block, found, rendered) =
      (drift_problems-nil spec files.document).0 (rw is_text (s.is_drift ∙ ap some drift)) in
    record {
      separated = (binding_problems-nil files.keys spec.catalog spec.bindings bd).0 bound;
      closed = (gates_agree spec.catalog spec.bindings rd bd).1.0 (s.is_open ∙ ap some open_keys);
      block = block;
      block_found = found;
      rendered = rendered;
      routed = routes;
      view = s.want;
      view_found = (view_problems-nil files.view s.want).0 view;
      view_rendered = s.is_want;
      provisional = (provisional_problems-nil spec.provisional files.keys).0 provisional;
    }

IsConsistent-passed :
    (seed : Bool) (spec : Spec) (files : Files)
    → IsDict spec.catalog
    → IsDict spec.bindings
    → IsConsistent spec files
    → (out : Outcome) × (main (checking seed) spec files ≡ some out) × (out.code ≡ 0)
unfolding main run_errors
IsConsistent-passed seed spec files rd bd c =
    let (same, shut) = gates_agree spec.catalog spec.bindings rd bd in
    let shut_keys = shut.1 c.closed in
    let own = same.0 shut_keys in
    let drift = (drift_problems-nil spec files.document).1 (c.block, c.block_found, c.rendered) in
    let quiet = (run_errors-nil false spec files [] [] [] c.view).1 (
      (binding_problems-nil files.keys spec.catalog spec.bindings bd).1 c.separated,
      refl,
      refl,
      refl,
      c.routed,
      (view_problems-nil files.view c.view).1 c.view_found,
      (provisional_problems-nil spec.provisional files.keys).1 c.provisional,
    ) in
    (
      finish (checking seed) spec files (run_errors false spec files [] [] [] c.view),
      rw (shut_keys, own, drift, c.view_rendered) refl,
      (finish-code (checking seed) spec files _).1 quiet,
    )

finish-files :
    (flags : Flags) (spec : Spec) (files : Files) (errors : List RoleError)
    → (finish flags spec files errors).files ≡ files
unfolding finish
finish-files flags spec files [] = refl
finish-files flags spec files (e ∷ es) = refl

-- What the writer of matrix.md leaves is what the next run expects.
view_after :
    (write : Bool) (found : Option Str) (want : Str)
    → view_problems write found want ≡ []
    → view_problems false (if write then some want else found) want ≡ []
unfolding view_problems
view_after true found want h = ground (arith, str_eq_refl want)
view_after false found want h = h

-- Over a catalog and bindings that are dictionaries, a run that only checks ends with exit code 0
-- exactly when the files are consistent: registered keys, known roles and separated realms, closed
-- bindings, a block of docs/02 and a matrix.md that are what roles.yaml renders to, no error in the
-- scan of the operations, and provisional bindings of registered keys only.
pub main-IsConsistent :
    (seed : Bool) (spec : Spec) (files : Files)
    → IsDict spec.catalog
    → IsDict spec.bindings
    → ((out : Outcome) × (main (checking seed) spec files ≡ some out) × (out.code ≡ 0))
      ↔ IsConsistent spec files
main-IsConsistent seed spec files rd bd = (
  λ r. passed-IsConsistent seed spec files r.0 rd bd r.1 r.2,
  IsConsistent-passed seed spec files rd bd,
)

-- Where a run of any options ends with exit code 0, a run that only checks ends with exit code 0 on
-- the files that it left.
pub main-checking :
    (flags : Flags) (seed : Bool) (spec : Spec) (files : Files) (out : Outcome)
    → main flags spec files ≡ some out
    → out.code ≡ 0
    → (later : Outcome) × (main (checking seed) spec out.files ≡ some later) × (later.code ≡ 0)
unfolding main run_errors
main-checking flags seed spec files out ran zero_code =
    let s = main-Stages flags spec files out ran in
    let left : Files = record files {
      document = s.text;
      view = if flags.write_view then some s.want else files.view;
    } in
    let quiet =
      (finish-code flags spec left _).0 (sym (ap (λ (o : Outcome). o.code) s.is_out) ∙ zero_code) in
    let (bound, open_keys, own, drift, routes, view, provisional) =
      (run_errors-nil flags.write_view spec files s.open_keys s.own s.drift s.want).0 quiet in
    let again = (run_errors-nil false spec left s.open_keys s.own s.drift s.want).1 (
      bound,
      open_keys,
      own,
      drift,
      routes,
      view_after flags.write_view files.view s.want view,
      provisional,
    ) in
    let same : out.files ≡ left =
      ap (λ (o : Outcome). o.files) s.is_out ∙ finish-files flags spec left _ in
    rw same (
      finish (checking seed) spec left
          (run_errors false spec left s.open_keys s.own s.drift s.want),
      rw (s.is_open, s.is_own, s.is_drift, s.is_want) refl,
      (finish-code (checking seed) spec left _).1 again,
    )
