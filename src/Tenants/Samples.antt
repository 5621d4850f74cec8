-- ===== src/Tenants/Samples.antt =====
-- A small matrix and a small document, and what the theorems say of them.
use alpha_one.Base.{
  lookup, has_key, true, false, none, some, List, [], ◌∷◌, ◌++◌, length, Str, mem, str_eq, ◌≡◌,
  refl, codes, All, concat, join_with, quoted,
}
use alpha_one.Roles.Gate.{join}
use alpha_one.Markers.{Block, find_block, replace_blocks, strip_newlines, has_escape}
use alpha_one.Markers.Search.{split_first, strip_prefix}
use alpha_one.Markers.RoundTrip.{IsRendered}
use alpha_one.Tenants.{
  Cell, text, mapping, Capabilities, States, render_cell, row_cells, row_line, table_lines,
  problems, lifecycle_problems, cell_problems, code_problem, is_cell, is_comment, allow, note_text,
}
use alpha_one.Tenants.Complete.{problems-nil, IsFullRow, HasKnownCode}
use alpha_one.Tenants.Document.{
  begin_marker, end_marker, check_doc, written, marker_missing, write_doc,
  check_doc-write_doc_states,
}

abbrev denied : Cell
denied = mapping (some (codes "tenant.suspended")) none (some (codes "read only"))

abbrev open_cell : Cell
open_cell = text allow

abbrev live_row : Capabilities
live_row =
    (codes "trader_routes", open_cell)
    ∷ (codes "staff_routes", open_cell)
    ∷ (codes "api_keys", open_cell)
    ∷ (codes "webhooks_out", open_cell)
    ∷ (codes "bridge_sync", open_cell)
    ∷ (codes "payments", open_cell)
    ∷ (codes "payouts", denied)
    ∷ []

abbrev states : States
states = (codes "live", live_row) ∷ []

abbrev ddl : List Str
ddl = codes "live" ∷ []

abbrev known : List Str
known = codes "tenant.suspended" ∷ []

program : Unit {0}
unfolding mem str_eq lookup has_key problems lifecycle_problems cell_problems code_problem is_cell
    is_comment render_cell row_cells row_line table_lines concat join_with quoted note_text join
    find_block replace_blocks strip_newlines has_escape split_first strip_prefix
program = tt

problems-states : problems states ddl known ≡ []
unfolding program
problems-states = refl

render_cell-denied : render_cell denied ≡ codes "— (`tenant.suspended`; read only)"
unfolding program
render_cell-denied = refl

problems-nil_example :
    All (λ (entry : Str × Capabilities). mem entry.0 ddl ≡ true) states
    × All (λ name. has_key name states ≡ true) ddl
    × All (λ (entry : Str × Capabilities). IsFullRow entry.1) states
    × All (λ (entry : Str × Capabilities). All (HasKnownCode known) entry.1) states
    × ((lines : List Str) × (table_lines states ≡ some lines) × (length lines ≡ length states))
problems-nil_example = problems-nil states ddl known problems-states

abbrev rendered : Str
rendered = begin_marker ++ (codes " table " ++ end_marker)

abbrev document : Str
document = codes "a " ++ (begin_marker ++ (codes "old" ++ (end_marker ++ codes " z")))

rendered-IsRendered : IsRendered begin_marker end_marker (strip_newlines rendered)
unfolding program
rendered-IsRendered = record { body = codes " table "; framed = refl; closed = refl }

plain-rendered : has_escape (strip_newlines rendered) ≡ false
unfolding program
plain-rendered = refl

check_doc-write_doc_states_example :
    ((block : Block)
      → find_block begin_marker end_marker document ≡ some block
      → (new : Str) × (write_doc document rendered ≡ written new) × (check_doc new rendered ≡ []))
    × (find_block begin_marker end_marker document ≡ none
        → write_doc document rendered ≡ marker_missing)
check_doc-write_doc_states_example =
    check_doc-write_doc_states document rendered plain-rendered rendered-IsRendered
