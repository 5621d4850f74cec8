-- ===== src/Tenants.antt =====
-- The tenant state matrix, alpha-one/scripts/verify_tenant_states.py: its cells, the structural
-- checks of `main`, the rendered table and the marked block of docs/03 §5.1. The parsed YAML, the
-- states of the DDL and the codes of the taxonomy are arguments; a cell is a text or a mapping.
pub mod Complete
pub mod Document
pub mod Lifecycle
pub mod Main
pub mod Passing
mod MainSamples
mod Samples
use alpha_one.Base.{
  lookup, has_key, ℕ, zero, suc, ◌+◌, ◌-◌, ◌≤◌, ◌<◌, ◌&&◌, ◌||◌, not, Bool, true, false, Option,
  none, some, List, [], ◌∷◌, ◌++◌, map, reverse, length, Str, mem, str_eq, ◌==◌, if◌then◌else◌, any,
  all, arith, ◌≡◌, ◌≢◌, ◌∙◌, refl, ap, subst, str_eq_refl, str_eq_sound, Bool-cases, Option-cases,
  fun_ext, ◌↔◌, ◌⊎◌, inl, inr, sym, str_eq_comm, str_eq_iff, mem-append, some-injective, Bool-ext,
  keep, codes, join_with, newline, concat, quoted, flat_map,
}
use alpha_one.Roles.Gate.{join}

-- A cell: a text, or a mapping with the values of `deny`, `degraded` and `note`.
pub data Cell : Type 0 where
  text : Str → Cell
  mapping : (deny degraded note : Option Str) → Cell

abbrev pub Capabilities : Type 0
Capabilities = List (Str × Cell)

abbrev pub States : Type 0
States = List (Str × Capabilities)

abbrev pub columns : List (Str × Str)
columns =
    (codes "trader_routes", codes "Trader login/traffic")
    ∷ (codes "staff_routes", codes "Staff (ADM)")
    ∷ (codes "api_keys", codes "API keys")
    ∷ (codes "webhooks_out", codes "Webhooks out")
    ∷ (codes "bridge_sync", codes "Bridge sync")
    ∷ (codes "payments", codes "Payments")
    ∷ (codes "payouts", codes "Payouts")
    ∷ []

abbrev pub allow : Str
allow = codes "allow"

-- `if note:` — neither missing nor empty.
unfoldable pub note_text : Option Str → Str
note_text none = []
note_text (some []) = []
note_text (some (c ∷ cs)) = codes "; " ++ (c ∷ cs)

unfoldable pub render_cell : Cell → Str
render_cell (text cap) = if str_eq cap allow then codes "✓" else codes "?"
render_cell (mapping (some code) degraded remark) =
    concat (codes "— (`" ∷ code ∷ codes "`" ∷ note_text remark ∷ codes ")" ∷ [])
render_cell (mapping none (some how) remark) = concat (codes "~ (" ∷ how ∷ codes ")" ∷ [])
render_cell (mapping none none remark) = codes "?"

-- The cells of a row; `none` is the KeyError of `caps[key]`.
unfoldable pub row_cells : Capabilities → List (Str × Str) → Option (List Str)
row_cells caps [] = some []
row_cells caps ((key, label) ∷ rest) = elim (lookup key caps) [
  | none ↦ none
  | some cap ↦ join (some (render_cell cap ∷ [])) (row_cells caps rest)
]

unfoldable pub row_line : Str → List Str → Str
row_line state cells =
    concat (codes "| " ∷ join_with (codes " | ") (quoted state ∷ cells) ∷ codes " |" ∷ [])

unfoldable pub table_lines : States → Option (List Str)
table_lines [] = some []
table_lines ((state, caps) ∷ rest) = elim (row_cells caps columns) [
  | none ↦ none
  | some cells ↦ join (some (row_line state cells ∷ [])) (table_lines rest)
]

-- What `main` appends to `errors` before it renders.
pub data StateProblem : Type 0 where
  not_in_ddl : (state : Str) → StateProblem
  not_in_matrix : (state : Str) → StateProblem
  missing_cell : (state key : Str) → StateProblem
  malformed_cell : (state key : Str) → StateProblem
  unregistered_code : (state key code : Str) → StateProblem

unfoldable pub lifecycle_problems : States → List Str → List StateProblem
lifecycle_problems states ddl =
    flat_map
      (λ (entry : Str × Capabilities). if mem entry.0 ddl then [] else not_in_ddl entry.0 ∷ [])
      states
    ++ flat_map (λ (name : Str). if has_key name states then [] else not_in_matrix name ∷ []) ddl

-- `key.startswith("$")`
unfoldable pub is_comment : Str → Bool
is_comment [] = false
is_comment (c ∷ cs) = c == 36

-- `cap == "allow"`, or a mapping with `deny` or `degraded`
unfoldable pub is_cell : Cell → Bool
is_cell (text cap) = str_eq cap allow
is_cell (mapping none none remark) = false
is_cell (mapping (some code) degraded remark) = true
is_cell (mapping none (some how) remark) = true

unfoldable pub cell_problems : Str × Capabilities → List StateProblem
cell_problems entry =
    flat_map
      (λ (column : Str × Str).
        if has_key column.0 entry.1 then [] else missing_cell entry.0 column.0 ∷ [])
      columns
    ++ flat_map
        (λ (cell : Str × Cell).
          if is_comment cell.0 || is_cell cell.1 then [] else malformed_cell entry.0 cell.0 ∷ [])
        entry.1

unfoldable pub code_problem : List Str → Str → Str × Cell → List StateProblem
code_problem known state (key, text cap) = []
code_problem known state (key, mapping none degraded remark) = []
code_problem known state (key, mapping (some code) degraded remark) =
    if mem code known then [] else unregistered_code state key code ∷ []

unfoldable pub problems : States → List Str → List Str → List StateProblem
problems states ddl known =
    lifecycle_problems states ddl
    ++ (flat_map cell_problems states
        ++ flat_map (λ (entry : Str × Capabilities). flat_map (code_problem known entry.0) entry.1)
            states)
