-- ===== src/Roles/Stages.antt =====
-- The steps of `main` of alpha-one/scripts/verify_roles.py that a run which ends has taken.
use alpha_one.Roles.Registry.{registry_meta}
use alpha_one.Base.{
  Bool, some, List, ◌++◌, map, Str, if◌then◌else◌, ◌≡◌, Option-cases, inl, inr, sym, some-injective,
}
use alpha_one.Markers.{DocProblem}
use alpha_one.Roles.Gate.{GateProblem, binding_problems, closure_problems, effective_problems}
use alpha_one.Roles.Routes.{Scan, check_contracts}
use alpha_one.Roles.Matrix.{render_matrix}
use alpha_one.Roles.Main.{
  Flags, Spec, Files, RoleError, gate, document_error, route_error, Outcome, document_after,
  drift_problems, view_problems, provisional_problems, finish, main,
}

abbrev pub scan_of : Spec → Files → Scan
scan_of spec files = check_contracts spec.bindings files.contracts

-- The errors of a run, in the order in which they are reported.
unfoldable pub run_errors :
    Bool
    → Spec
    → Files
    → List GateProblem
    → List GateProblem
    → List DocProblem
    → Str
    → List RoleError
run_errors write spec files open_keys own drift want =
    map gate (binding_problems files.keys spec.catalog spec.bindings)
    ++ (map gate open_keys
        ++ (map gate own
            ++ (map document_error drift
                ++ (map route_error (scan_of spec files).errors
                    ++ (view_problems write files.view want
                        ++ map gate (provisional_problems spec.provisional files.keys))))))

-- What each of the stages returned, in a run that did not raise.
pub record Stages (flags : Flags) (spec : Spec) (files : Files) (out : Outcome) : Type 0 where
  pub text : Str
  pub open_keys : List GateProblem
  pub own : List GateProblem
  pub drift : List DocProblem
  pub want : Str
  pub is_text : document_after flags.write_document spec files.document ≡ some text
  pub is_open : closure_problems spec.catalog spec.bindings ≡ some open_keys
  pub is_own : effective_problems spec.catalog spec.bindings ≡ some own
  pub is_drift : drift_problems spec text ≡ some drift
  pub is_want :
      render_matrix spec.version spec.catalog spec.bindings
        (registry_meta files.registry)
        (scan_of spec files).routes
      ≡ some want
  pub is_out :
      out
      ≡ finish flags spec
          (record files {
            document = text;
            view = if flags.write_view then some want else files.view;
          })
          (run_errors flags.write_view spec files open_keys own drift want)

pub main-Stages :
    (flags : Flags) (spec : Spec) (files : Files) (out : Outcome)
    → main flags spec files ≡ some out
    → Stages flags spec files out
unfolding main run_errors
main-Stages flags spec files out h =
    elim (Option-cases (document_after flags.write_document spec files.document)) [
      | inl e ↦ cc (rw (e, main) at h)
      | inr (text, e) ↦
          let h1 = rw (e, main) at h in
          elim (Option-cases (closure_problems spec.catalog spec.bindings)) [
            | inl e1 ↦ cc (rw (e1) at h1)
            | inr (open_keys, e1) ↦
                let h2 = rw e1 at h1 in
                elim (Option-cases (effective_problems spec.catalog spec.bindings)) [
                  | inl e2 ↦ cc (rw e2 at h2)
                  | inr (own, e2) ↦
                      let h3 = rw e2 at h2 in
                      elim (Option-cases (drift_problems spec text)) [
                        | inl e3 ↦ cc (rw e3 at h3)
                        | inr (drift, e3) ↦
                            let h4 = rw e3 at h3 in
                            elim (Option-cases (
                              render_matrix spec.version spec.catalog spec.bindings
                                (registry_meta files.registry) (scan_of spec files).routes)) [
                                  | inl e4 ↦ cc (rw e4 at h4)
                                  | inr (want, e4) ↦ record {
                                    text = text;
                                    open_keys = open_keys;
                                    own = own;
                                    drift = drift;
                                    want = want;
                                    is_text = e;
                                    is_open = e1;
                                    is_own = e2;
                                    is_drift = e3;
                                    is_want = e4;
                                    is_out = sym (some-injective _ _ (rw e4 at h4));
                                  }
                                ]
                      ]
                ]
          ]
    ]
