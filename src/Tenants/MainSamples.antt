-- ===== src/Tenants/MainSamples.antt =====
-- A small matrix and its documents, and what the theorems say of a run on them.
use alpha_one.Base.{
  true, false, none, some, [], ◌∷◌, ◌++◌, Str, ◌≡◌, refl, codes, str_eq, mem, str_lt, is_space,
  lstrip, strip, insert, sorted, lookup, has_key, put, insert_entry, sorted_items, remove,
  join_with, concat, quoted,
}
use alpha_one.Roles.Gate.{
  scope_is, scope_text, to_set, minus, role_problems, binding_problems, join, collect, open_below,
  closure_problems, listed, meets, inherited, union, effective, same_list, not_own,
  effective_problems,
}
use alpha_one.Tables.{
  is_key_char, span, after_char, match_key, find_keys, table_keys, head_of, registry_keys,
}
use alpha_one.Tenants.{
  Cell, text, mapping, Capabilities, States, allow, note_text, render_cell, row_cells, row_line,
  table_lines, lifecycle_problems, is_comment, is_cell, cell_problems, code_problem, problems,
}
use alpha_one.Tenants.Document.{render, check_doc, write_doc}
use alpha_one.Tenants.Lifecycle.{
  match_check, search_check, is_name_char, match_name, find_names, ddl_states,
}
use alpha_one.Tenants.Main.{Outcome, document_step, exit_code, main}
use alpha_one.Markers.{find_block, strip_cons, strip_newlines, replace_blocks, has_escape}
use alpha_one.Markers.Search.{strip_prefix, split_first}
use alpha_one.Tenants.Passing.{IsPublished, main-IsPublished, main-missing_cell}

-- What a run computes with.
program : Unit {0}
unfolding str_eq mem str_lt is_space lstrip strip insert sorted lookup has_key put insert_entry
    sorted_items remove join_with concat quoted scope_is scope_text to_set minus role_problems
    binding_problems join collect open_below closure_problems listed meets inherited union effective
    same_list not_own effective_problems is_key_char span after_char match_key find_keys table_keys
    head_of registry_keys note_text render_cell row_cells row_line table_lines lifecycle_problems
    is_comment is_cell cell_problems code_problem problems render check_doc write_doc match_check
    search_check is_name_char match_name find_names ddl_states document_step exit_code main
    find_block strip_cons strip_newlines replace_blocks has_escape strip_prefix split_first
program = tt

open_cell : Cell
open_cell = text allow

abbrev row : Capabilities
unfolding open_cell
row =
    (codes "trader_routes", open_cell)
    ∷ (codes "staff_routes", open_cell)
    ∷ (codes "api_keys", open_cell)
    ∷ (codes "webhooks_out", open_cell)
    ∷ (codes "bridge_sync", open_cell)
    ∷ (codes "payments", open_cell)
    ∷ (codes "payouts", mapping (some (codes "tenant.suspended")) none none)
    ∷ []

abbrev states : States
states = (codes "live", row) ∷ []

taxonomy : Str
taxonomy = codes "| Code |\n|---|\n| `tenant.suspended` | 403 |\n"

-- docs/03 with the table that `render` gives.
document : Str
document = elim (render states) [
  | none ↦ []
  | some table ↦ concat (table ∷ codes " CREATE TABLE tenants (CHECK (status IN ('live')));" ∷ [])
]

-- The run that only checks.
outcome : Outcome
outcome = record { errors = []; code = 0; document = document }

main-documents : main false states taxonomy document ≡ some outcome
unfolding outcome taxonomy document open_cell program
main-documents = refl

outcome-code : outcome.code ≡ 0
unfolding outcome
outcome-code = refl

main-IsPublished_example : IsPublished states taxonomy document
main-IsPublished_example =
    main-IsPublished states taxonomy document outcome main-documents outcome-code

-- A row with no cell for the API keys.
abbrev short_row : Capabilities
short_row = (codes "trader_routes", open_cell) ∷ (codes "staff_routes", open_cell) ∷ []

main-missing_cell_example :
    main true (states ++ (codes "live", short_row) ∷ []) taxonomy document ≡ none
unfolding program
main-missing_cell_example =
    main-missing_cell true states (codes "live") short_row []
      ((codes "trader_routes", codes "Trader login/traffic")
        ∷ (codes "staff_routes", codes "Staff (ADM)")
        ∷ [])
      (codes "api_keys") (codes "API keys")
      ((codes "webhooks_out", codes "Webhooks out")
        ∷ (codes "bridge_sync", codes "Bridge sync")
        ∷ (codes "payments", codes "Payments")
        ∷ (codes "payouts", codes "Payouts")
        ∷ [])
      taxonomy document refl refl
