-- ===== src/Roles/MainSamples.antt =====
-- Small files of the gate, and what the theorems say of a run on them.
use alpha_one.Roles.Registry.{registry_meta}
use alpha_one.Base.{is_space, strip}
use alpha_one.Tables.{span, is_key_char, head_of, after_char}
use alpha_one.Base.{
  decimal, IsDict, true, false, none, some, [], ◌∷◌, ◌≡◌, refl, ◌↔◌, codes, str_eq, mem, str_lt,
  insert, sorted, lookup, has_key, put, insert_entry, sorted_items, remove, join_with, concat,
  quoted,
}
use alpha_one.Roles.{
  inherits_of, parents_of, inheritance, ancestors, add, add_child, add_children, invert, childless,
  children_of, descendants,
}
use alpha_one.Roles.Walk.{walk, targets, weight}
use alpha_one.Roles.Gate.{
  scope_is, scope_text, to_set, minus, role_problems, binding_problems, join, collect, open_below,
  closure_problems, listed, meets, inherited, union, effective, same_list, not_own,
  effective_problems,
}
use alpha_one.Roles.Document.{
  begin_marker, end_marker, shown_keys, role_line, realm_lines, realm_title, scope_lines, render,
  check_doc, first_char, other_chars, insert_block, write_doc,
}
use alpha_one.Roles.Matrix.{
  given_text, has_constraint, numbered, constraint_numbers, scope_mark, number_mark, cell,
  abbreviations, matrix_line, holder_names, constraint_text, numbered_constraint, detail_line,
  route_holders, route_line, version_line, legend_entries, legend_line, unrouted, unused_line,
  repeat_text, render_matrix,
}
use alpha_one.Roles.Routes.{
  is_marker, lower, upper, bump, given, keyed, visit, visit_item, visit_paths, visit_files,
  check_contracts, unused,
}
use alpha_one.Roles.Seed.{seed_scope, entry_rows, policy_rows, group_rows, grants}
use alpha_one.Roles.Main.{
  Flags, Spec, Files, Outcome, document_after, drift_problems, view_problems, provisional_problems,
  run_warnings, finish, main,
}
use alpha_one.Markers.{find_block, strip_cons, strip_newlines, replace_blocks, has_escape}
use alpha_one.Markers.Search.{strip_prefix, split_first}
use alpha_one.Roles.Consistent.{checking, IsConsistent, main-IsConsistent, main-checking}

abbrev spec : Spec
spec = record {
  version = record { version = codes "1"; decision = codes "D14"; decided = codes "2026" };
  catalog = (codes "firm:admin", record { realm = codes "tenant"; inherits = none }) ∷ [];
  bindings =
      (
        codes "risk.read",
        record {
          scope = some (codes "all");
          roles = codes "firm:admin" ∷ [];
          abac = none;
          note = none;
        },
      )
      ∷ [];
  provisional = codes "$comment" ∷ [];
}

-- A block that is out of date, and no matrix.md.
abbrev files : Files
files = record {
  keys = codes "risk.read" ∷ [];
  v1_keys = codes "risk.read" ∷ codes "risk.write" ∷ [];
  registry = codes "| Key | Owner |\n| `risk.read` | RSK | Read  risk |\n";
  contracts = [];
  document = concat (codes "# Access " ∷ begin_marker ∷ codes "old" ∷ end_marker ∷ []);
  view = none;
}

abbrev writing : Flags
writing = record { write_document = true; write_view = true; seed = true }

spec-IsDict : IsDict spec.catalog
unfolding has_key
spec-IsDict = (refl, tt)

bindings_once : IsDict spec.bindings
unfolding has_key
bindings_once = (refl, tt)

main-IsConsistent_example :
    ((out : Outcome) × (main (checking false) spec files ≡ some out) × (out.code ≡ 0))
    ↔ IsConsistent spec files
main-IsConsistent_example = main-IsConsistent false spec files spec-IsDict bindings_once

-- What a run computes with.
program : Unit {0}
unfolding str_eq mem str_lt insert sorted lookup has_key put insert_entry sorted_items remove
    join_with concat quoted inherits_of parents_of inheritance ancestors add add_child add_children
    invert childless children_of descendants walk targets weight scope_is scope_text to_set minus
    role_problems binding_problems join collect open_below closure_problems listed meets inherited
    union effective same_list not_own effective_problems shown_keys role_line realm_lines
    realm_title scope_lines render check_doc first_char other_chars insert_block write_doc decimal
    given_text has_constraint numbered constraint_numbers scope_mark number_mark cell abbreviations
    matrix_line holder_names constraint_text numbered_constraint detail_line route_holders
    route_line version_line legend_entries legend_line unrouted unused_line repeat_text
    render_matrix is_marker lower upper bump given keyed visit visit_item visit_paths visit_files
    check_contracts unused seed_scope entry_rows policy_rows group_rows grants document_after
    drift_problems view_problems provisional_problems run_warnings finish main find_block strip_cons
    strip_newlines replace_blocks has_escape strip_prefix split_first
program = tt

-- What `--write-doc --write-matrix --seed` returns on the files.
outcome : Outcome
outcome = elim (main writing spec files) [
  | none ↦ record {
    errors = [];
    warnings = [];
    code = 2;
    policies = [];
    groups = [];
    files = files;
  }
  | some out ↦ out
]

outcome-code : outcome.code ≡ 0
unfolding outcome program
outcome-code = refl

main-writing : main writing spec files ≡ some outcome
unfolding outcome program
main-writing = refl

main-checking_example :
    (later : Outcome) × (main (checking false) spec outcome.files ≡ some later) × (later.code ≡ 0)
main-checking_example = main-checking writing false spec files outcome main-writing outcome-code

registry_meta-sample :
    registry_meta files.registry ≡ (codes "risk.read", (codes "RSK", codes "Read risk")) ∷ []
unfolding program registry_meta head_of after_char span is_space is_key_char strip
registry_meta-sample = refl
