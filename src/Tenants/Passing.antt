-- ===== src/Tenants/Passing.antt =====
-- What the exit code of alpha-one/scripts/verify_tenant_states.py says, and where the script ends
-- before its report.
use alpha_one.Base.{
  Bool, true, false, none, some, List, [], ◌∷◌, ◌++◌, map, Str, mem, arith, ◌≡◌, ◌∙◌, refl, ap,
  Option-cases, inl, inr, str_eq_iff, some-injective,
}
use alpha_one.Base.{lookup, has_key, All, append-nil_iff}
use alpha_one.Markers.{Block, find_block, strip_newlines}
use alpha_one.Roles.Gate.{join}
use alpha_one.Tables.{table_keys}
use alpha_one.Tenants.{States, Capabilities, columns, problems, row_cells, table_lines}
use alpha_one.Tenants.Complete.{IsFullRow, HasKnownCode, problems-nil}
use alpha_one.Tenants.Document.{begin_marker, end_marker, render, check_doc}
use alpha_one.Tenants.Lifecycle.{ddl_states}
use alpha_one.Tenants.Main.{StateError, matrix_error, document_error, Outcome, exit_code, main}

row_cells-missing :
    (caps : Capabilities) (before : List (Str × Str)) (key label : Str) (after : List (Str × Str))
    → lookup key caps ≡ none
    → row_cells caps (before ++ (key, label) ∷ after) ≡ none
unfolding row_cells join
row_cells-missing caps [] key label after e = rw (e, row_cells) refl
row_cells-missing caps ((k, l) ∷ before) key label after e =
    let rest = row_cells-missing caps before key label after e in
    elim (Option-cases (lookup k caps)) [
      | inl f ↦ rw (f, row_cells) refl
      | inr (cap, f) ↦ rw (f, row_cells, rest) refl
    ]

table_lines-missing :
    (before : States) (state : Str) (caps : Capabilities) (after : States)
    → row_cells caps columns ≡ none
    → table_lines (before ++ (state, caps) ∷ after) ≡ none
unfolding table_lines join
table_lines-missing [] state caps after e = rw (e, table_lines) refl
table_lines-missing ((s, c) ∷ before) state caps after e =
    let rest = table_lines-missing before state caps after e in
    elim (Option-cases (row_cells c columns)) [
      | inl f ↦ rw (f, table_lines) refl
      | inr (cells, f) ↦ rw (f, table_lines, rest) refl
    ]

render-missing : (states : States) → table_lines states ≡ none → render states ≡ none
unfolding render
render-missing states e = rw (e, render) refl

-- A row that lacks the cell of a column ends the run before its report, with either option: the
-- table is rendered before the errors are printed, so the message on the missing cell is lost.
pub main-missing_cell :
    (write : Bool) (before : States) (state : Str) (caps : Capabilities) (after : States)
    (left : List (Str × Str)) (key label : Str) (right : List (Str × Str)) (taxonomy text : Str)
    → columns ≡ left ++ (key, label) ∷ right
    → lookup key caps ≡ none
    → main write (before ++ (state, caps) ∷ after) taxonomy text ≡ none
unfolding main
main-missing_cell write before state caps after left key label right taxonomy text split absent =
    let states = before ++ (state, caps) ∷ after in
    let row : row_cells caps columns ≡ none =
      rw split (row_cells-missing caps left key label right absent) in
    let table = render-missing states (table_lines-missing before state caps after row) in
    elim (Option-cases (ddl_states text)) [
      | inl e ↦ rw (e, main) refl
      | inr (ddl, e) ↦ rw (e, main, table) refl
    ]

-- The documents agree with the matrix.
pub record IsPublished (states : States) (taxonomy text : Str) : Type 0 where
  pub ddl : List Str
  pub is_ddl : ddl_states text ≡ some ddl
  pub in_ddl : All (λ (entry : Str × Capabilities). mem entry.0 ddl ≡ true) states
  pub in_matrix : All (λ name. has_key name states ≡ true) ddl
  pub full : All (λ (entry : Str × Capabilities). IsFullRow entry.1) states
  pub known :
      All (λ (entry : Str × Capabilities). All (HasKnownCode (table_keys taxonomy)) entry.1) states
  pub block : Block
  pub block_found : find_block begin_marker end_marker text ≡ some block
  pub rendered : Str
  pub is_rendered : render states ≡ some rendered
  pub shown :
      strip_newlines (begin_marker ++ (block.inside ++ end_marker)) ≡ strip_newlines rendered

exit_code-zero : (errors : List StateError) → exit_code errors ≡ 0 → errors ≡ []
unfolding exit_code
exit_code-zero [] h = refl
exit_code-zero (e ∷ es) h = absurd (omega arith)

map-nil {ℓ κ} : {A : Type ℓ} {B : Type κ} (f : A → B) (xs : List A) → map f xs ≡ [] → xs ≡ []
map-nil f [] h = refl
map-nil f (x ∷ xs) h = cc

check_doc-shown :
    (text rendered : Str)
    → check_doc text rendered ≡ []
    → (block : Block) × (find_block begin_marker end_marker text ≡ some block)
      × (strip_newlines (begin_marker ++ (block.inside ++ end_marker)) ≡ strip_newlines rendered)
unfolding check_doc
check_doc-shown text rendered h = elim (Option-cases (find_block begin_marker end_marker text)) [
  | inl e ↦ cc (rw (e, check_doc) at h)
  | inr (block, e) ↦
      let shown = strip_newlines (begin_marker ++ (block.inside ++ end_marker)) in
      (block, e, ground (arith, rw (e, check_doc) at h, str_eq_iff shown (strip_newlines rendered)))
]

-- Where a run that only checks ends with exit code 0, the documents agree with the matrix: the
-- states are those of the CHECK list of docs/03, every row has a well-formed cell for each column,
-- every deny code is in the taxonomy, and the marked block of docs/03 is the rendered table.
pub main-IsPublished :
    (states : States) (taxonomy text : Str) (out : Outcome)
    → main false states taxonomy text ≡ some out
    → out.code ≡ 0
    → IsPublished states taxonomy text
unfolding main
main-IsPublished states taxonomy text out ran zero_code = elim (Option-cases (ddl_states text)) [
  | inl e ↦ cc (rw (e, main) at ran)
  | inr (ddl, e) ↦
      let h = rw (e, main) at ran in
      elim (Option-cases (render states)) [
        | inl r ↦ cc (rw r at h)
        | inr (rendered, r) ↦
            let is_out = some-injective _ _ (rw r at h) in
            let found = map matrix_error (problems states ddl (table_keys taxonomy)) in
            let drift = map document_error (check_doc text rendered) in
            let quiet =
              exit_code-zero (found ++ drift) (ap (λ (o : Outcome). o.code) is_out ∙ zero_code) in
            let (first, second) = (append-nil_iff found drift).0 quiet in
            let (in_ddl, in_matrix, full, known, lines) =
              problems-nil states ddl (table_keys taxonomy) (map-nil matrix_error _ first) in
            let (block, block_found, shown) =
              check_doc-shown text rendered (map-nil document_error _ second) in
            record {
              ddl = ddl;
              is_ddl = e;
              in_ddl = in_ddl;
              in_matrix = in_matrix;
              full = full;
              known = known;
              block = block;
              block_found = block_found;
              rendered = rendered;
              is_rendered = r;
              shown = shown;
            }
      ]
]
