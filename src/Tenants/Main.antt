-- ===== src/Tenants/Main.antt =====
-- `main` of alpha-one/scripts/verify_tenant_states.py.
use alpha_one.Base.{ℕ, Bool, true, false, Option, none, some, List, [], ◌∷◌, ◌++◌, map, Str}
use alpha_one.Base.{◌>>=◌}
use alpha_one.Markers.{DocProblem}
use alpha_one.Tables.{table_keys}
use alpha_one.Tenants.{States, StateProblem, problems}
use alpha_one.Tenants.Document.{
  written, marker_missing, escape_in_block, render, check_doc, write_doc,
}
use alpha_one.Tenants.Lifecycle.{ddl_states}

pub data StateError : Type 0 where
  matrix_error : StateProblem → StateError
  document_error : DocProblem → StateError

pub record Outcome : Type 0 where
  pub errors : List StateError
  pub code : ℕ
  pub document : Str

-- docs/03 behind the run, and what its last check adds. `none`: the writer exits, or would write
-- another text.
unfoldable pub document_step : Bool → Str → Str → Option (Str × List DocProblem)
document_step false text rendered = some (text, check_doc text rendered)
document_step true text rendered = elim (write_doc text rendered) [
  | written new ↦ some (new, [])
  | marker_missing ↦ none
  | escape_in_block ↦ none
]

unfoldable pub exit_code : List StateError → ℕ
exit_code [] = 0
exit_code (e ∷ es) = 1

-- `text` is docs/03, `taxonomy` the text of taxonomy.md; `none`: the run raises or exits before its
-- report.
unfoldable pub main : Bool → States → Str → Str → Option Outcome
unfolding document_step exit_code
main write states taxonomy text = do
  ddl ← ddl_states text
  rendered ← render states
  (new, drift) ← document_step write text rendered
  let errors =
      map matrix_error (problems states ddl (table_keys taxonomy)) ++ map document_error drift
  some (record { errors = errors; code = exit_code errors; document = new })
