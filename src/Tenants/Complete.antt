-- ===== src/Tenants/Complete.antt =====
-- What the structural checks of alpha-one/scripts/verify_tenant_states.py give.
use alpha_one.Base.{
  lookup, has_key, suc, ◌||◌, true, false, none, some, List, [], ◌∷◌, ◌++◌, length, Str, mem,
  str_eq, if◌then◌else◌, arith, ◌≡◌, ◌≢◌, refl, ap, str_eq_sound, Bool-cases, ◌↔◌, inl, inr, codes,
  flat_map, flat_map-nil, append-nil_iff, All, All-iff, report-nil, concat,
}
use alpha_one.Roles.Gate.{join}
use alpha_one.Tenants.{
  Cell, text, mapping, Capabilities, States, columns, render_cell, row_cells, table_lines, problems,
  lifecycle_problems, cell_problems, code_problem, is_cell, is_comment, missing_cell,
  malformed_cell, not_in_ddl, not_in_matrix, row_line,
}

-- A cell that the table shows as allowed, denied or degraded.
abbrev pub IsShown : Capabilities → Str × Str → Type 0
IsShown caps column = (cap : Cell) × (lookup column.0 caps ≡ some cap) × (is_cell cap ≡ true)

render_cell_known : (cap : Cell) → is_cell cap ≡ true → render_cell cap ≢ codes "?"
unfolding is_cell render_cell concat
render_cell_known (text cap) h = ground arith
render_cell_known (mapping (some code) degraded remark) h = ground arith
render_cell_known (mapping none (some how) remark) h = ground arith
render_cell_known (mapping none none remark) h = ground arith

key_cell :
    (key : Str) (caps : Capabilities)
    → is_comment key ≡ false
    → has_key key caps ≡ true
    → All (λ (cell : Str × Cell). (is_comment cell.0 || is_cell cell.1) ≡ true) caps
    → (cap : Cell) × (lookup key caps ≡ some cap) × (is_cell cap ≡ true)
unfolding has_key lookup
key_cell key [] plain h a = cc
key_cell key ((k, cap) ∷ caps) plain h a = elim (Bool-cases (str_eq k key)) [
  | inl e ↦ (cap, rw e, ground (arith, rw (str_eq_sound k key e) at (a.0)))
  | inr e ↦
      let (c, found, good) = key_cell key caps plain (rw e at h) a.1 in
      (c, rw (e, lookup) found, good)
]

columns_plain : All (λ (column : Str × Str). is_comment column.0 ≡ false) columns
unfolding is_comment
columns_plain = (refl, (refl, (refl, (refl, (refl, (refl, (refl, tt)))))))

All-IsShown :
    (caps : Capabilities) (cols : List (Str × Str))
    → All (λ (column : Str × Str). is_comment column.0 ≡ false) cols
    → All (λ (column : Str × Str). has_key column.0 caps ≡ true) cols
    → All (λ (cell : Str × Cell). (is_comment cell.0 || is_cell cell.1) ≡ true) caps
    → All (IsShown caps) cols
All-IsShown caps [] plain present good = tt
All-IsShown caps ((key, label) ∷ cols) plain present good =
    (key_cell key caps plain.0 present.0 good, All-IsShown caps cols plain.1 present.1 good)

shown : (entry : Str × Capabilities) → cell_problems entry ≡ [] → All (IsShown entry.1) columns
unfolding cell_problems
shown (state, caps) h =
    let absent = λ (column : Str × Str).
      if has_key column.0 caps then [] else missing_cell state column.0 ∷ [] in
    let bad = λ (cell : Str × Cell).
      if is_comment cell.0 || is_cell cell.1 then [] else malformed_cell state cell.0 ∷ [] in
    let both = (append-nil_iff (flat_map absent columns) (flat_map bad caps)).0 h in
    All-IsShown caps columns columns_plain
      ((All-iff columns
          (λ column. report-nil (has_key column.0 caps) (missing_cell state column.0))).0
        ((flat_map-nil absent columns).0 both.0))
      ((All-iff caps (λ cell.
          report-nil (is_comment cell.0 || is_cell cell.1) (malformed_cell state cell.0))).0
        ((flat_map-nil bad caps).0 both.1))

row_cells_ends :
    (caps : Capabilities) (cols : List (Str × Str))
    → All (IsShown caps) cols
    → (cells : List Str) × (row_cells caps cols ≡ some cells) × All (λ cell. cell ≢ codes "?") cells
unfolding row_cells join
row_cells_ends caps [] a = ([], refl, tt)
row_cells_ends caps ((key, label) ∷ cols) a =
    let (cells, e, good) = row_cells_ends caps cols a.1 in
    (render_cell (a.0.0) ∷ cells, rw (a.0.1, row_cells, e), (render_cell_known a.0.0 a.0.2, good))

-- A row with a cell for each column, and none of them is the mark of a malformed cell.
abbrev pub IsFullRow : Capabilities → Type 0
IsFullRow caps =
    (cells : List Str) × (row_cells caps columns ≡ some cells)
    × All (λ cell. cell ≢ codes "?") cells

table_lines_ends :
    (states : States)
    → All (λ (entry : Str × Capabilities). IsFullRow entry.1) states
    → (lines : List Str) × (table_lines states ≡ some lines) × (length lines ≡ length states)
unfolding table_lines join
table_lines_ends [] a = ([], refl, refl)
table_lines_ends ((state, caps) ∷ states) a =
    let (lines, e, n) = table_lines_ends states a.1 in
    (row_line state (a.0.0) ∷ lines, rw (a.0.1, table_lines, e), ap suc n)

-- The deny code of a cell, if it has one, is registered.
abbrev pub HasKnownCode : List Str → Str × Cell → Type 0
HasKnownCode known (key, text cap) = Unit
HasKnownCode known (key, mapping none degraded remark) = Unit
HasKnownCode known (key, mapping (some code) degraded remark) = mem code known ≡ true

code_problem-nil :
    (known : List Str) (state : Str) (cell : Str × Cell)
    → (code_problem known state cell ≡ []) ↔ HasKnownCode known cell
unfolding code_problem
code_problem-nil known state (key, text cap) = (λ _. tt, λ _. refl)
code_problem-nil known state (key, mapping none degraded remark) = (λ _. tt, λ _. refl)
code_problem-nil known state (key, mapping (some code) degraded remark) = ground arith

registered :
    (known : List Str) (states : States)
    → flat_map
        (λ (entry : Str × Capabilities). flat_map (code_problem known entry.0) entry.1)
        states
      ≡ []
    → All (λ (entry : Str × Capabilities). All (HasKnownCode known) entry.1) states
registered known states h =
    (All-iff states (λ entry. (
      λ k.
          (All-iff entry.1 (code_problem-nil known entry.0)).0
            ((flat_map-nil (code_problem known entry.0) entry.1).0 k),
      λ a.
          (flat_map-nil (code_problem known entry.0) entry.1).1
            ((All-iff entry.1 (code_problem-nil known entry.0)).1 a),
    ))).0
      ((flat_map-nil _ states).0 h)

full_rows :
    (states : States)
    → All (λ (entry : Str × Capabilities). cell_problems entry ≡ []) states
    → All (λ (entry : Str × Capabilities). IsFullRow entry.1) states
full_rows [] a = tt
full_rows (entry ∷ states) a =
    (row_cells_ends entry.1 columns (shown entry a.0), full_rows states a.1)

-- Where the structural checks report nothing: each state of the matrix is in the DDL and each
-- state of the DDL in the matrix, every row renders with no malformed cell, every deny code is
-- registered, and the table renders with one line for each state.
pub problems-nil :
    (states : States) (ddl known : List Str)
    → problems states ddl known ≡ []
    → All (λ (entry : Str × Capabilities). mem entry.0 ddl ≡ true) states
      × All (λ name. has_key name states ≡ true) ddl
      × All (λ (entry : Str × Capabilities). IsFullRow entry.1) states
      × All (λ (entry : Str × Capabilities). All (HasKnownCode known) entry.1) states
      × ((lines : List Str) × (table_lines states ≡ some lines) × (length lines ≡ length states))
unfolding problems lifecycle_problems
problems-nil states ddl known h =
    let outside =
      λ (entry : Str × Capabilities). if mem entry.0 ddl then [] else not_in_ddl entry.0 ∷ [] in
    let forgotten = λ (name : Str). if has_key name states then [] else not_in_matrix name ∷ [] in
    let codes_of =
      flat_map (λ (entry : Str × Capabilities). flat_map (code_problem known entry.0) entry.1)
        states in
    let split =
      (append-nil_iff (flat_map outside states ++ flat_map forgotten ddl)
          (flat_map cell_problems states ++ codes_of)).0
        h in
    let names = (append-nil_iff (flat_map outside states) (flat_map forgotten ddl)).0 split.0 in
    let cells = (append-nil_iff (flat_map cell_problems states) codes_of).0 split.1 in
    let rows = full_rows states ((flat_map-nil cell_problems states).0 cells.0) in
    (
      (All-iff states (λ entry. report-nil (mem entry.0 ddl) (not_in_ddl entry.0))).0
          ((flat_map-nil outside states).0 names.0),
      (All-iff ddl (λ name. report-nil (has_key name states) (not_in_matrix name))).0
          ((flat_map-nil forgotten ddl).0 names.1),
      rows,
      registered known states cells.1,
      table_lines_ends states rows,
    )
