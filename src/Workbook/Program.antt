-- ===== src/Workbook/Program.antt =====
-- `main` of alpha-one/scripts/parse_prd_workbook.py as a whole: the sheets in their order, and what the
-- options do.
pub mod Synced
use alpha_one.Base.{
  ℕ, Bool, Option, none, some, List, [], ◌∷◌, map, length, Str, if◌then◌else◌, keep,
}
use alpha_one.Base.{codes, ◌>>=◌, get_elem?, lookup}
use alpha_one.Workbook.Cells.{
  is_domain_id, is_req_id, is_prop_id, is_release_id, is_timestamp, is_bvr_id,
}
use alpha_one.Workbook.Pages.{Frag, PageLine, page_lines}
use alpha_one.Workbook.Legacy.{Row, Legacy, LegacyProblem, check, merge_legacy}
use alpha_one.Workbook.Rows.{SheetRow, norm_row}
use alpha_one.Workbook.Questions.{parse_open_questions}
use alpha_one.Workbook.Scope.{ScopeItem, parse_out_of_scope}
use alpha_one.Workbook.Keys.{
  names_of, domain_keys, backlog_keys, proposal_keys, roadmap_keys, change_keys, integration_keys,
  tooling_keys, rule_keys, change_bands, roadmap_bands,
}
use alpha_one.Workbook.Main.{
  Audit, modules_of, page_range, repair_module, audit_lines, dictionary_pages, sheet_rows,
  norm_rows, has_cell,
}

-- `out`, without what is the same on every run.
pub record Output : Type 0 where
  pub domains : List SheetRow
  pub backlog : List SheetRow
  pub v1_execution : List SheetRow
  pub future_backlog : List SheetRow
  pub audit : Audit
  pub proposals : List SheetRow
  pub roadmap : List SheetRow
  pub changes : List SheetRow
  pub integrations : List SheetRow
  pub tools : List SheetRow
  pub rules : List SheetRow
  pub dictionary : List (Str × Str)
  pub questions : List SheetRow
  pub out_of_scope : List ScopeItem

module _ (is_word : ℕ → Bool) where
  -- The master backlog: the rows with a request, repaired.
  unfoldable pub backlog_rows : List (List PageLine) → Option (List SheetRow)
  unfolding sheet_rows is_req_id has_cell repair_module norm_row names_of
  backlog_rows lines = do
    rows ←
        sheet_rows is_word lines 2 (page_range 27 2) (names_of backlog_keys) (some is_req_id)
          (codes "Req ID") none
    some (
        map (λ (row : SheetRow). norm_row backlog_keys (repair_module is_word row))
          (keep (has_cell (codes "Req ID")) rows))

  -- A sheet whose rows are all handled alike.
  unfoldable pub plain_sheet :
      List (List PageLine)
      → ℕ
      → List ℕ
      → List (Str × Str)
      → Option (Str → Bool)
      → Str
      → Option (List (Str × ℕ × ℕ))
      → Str
      → Option (List SheetRow)
  unfolding sheet_rows names_of norm_rows
  plain_sheet lines first pages mapping pattern header bands required = do
    rows ← sheet_rows is_word lines first pages (names_of mapping) pattern header bands
    some (norm_rows required mapping rows)

  unfoldable pub parse_workbook : List (List PageLine) → Option Output
  unfolding plain_sheet backlog_rows modules_of audit_lines dictionary_pages parse_open_questions
      parse_out_of_scope page_range is_domain_id is_prop_id is_release_id is_timestamp is_bvr_id
  parse_workbook lines = do
    domains ←
        plain_sheet lines 0 (0 ∷ 1 ∷ []) domain_keys (some is_domain_id) (codes "Domain ID") none
          (codes "Module ID")
    module_names ← modules_of domains
    backlog ← backlog_rows lines
    v1 ←
        plain_sheet lines 46 (46 ∷ 47 ∷ []) backlog_keys (some is_req_id) (codes "Req ID") none
          (codes "Req ID")
    future ←
        plain_sheet lines 53 (page_range 10 53) backlog_keys (some is_req_id) (codes "Req ID") none
          (codes "Req ID")
    audit_page ← get_elem? lines 40
    let audit = audit_lines is_word audit_page (record { run_at = []; totals = []; findings = [] })
    proposals ←
        plain_sheet lines 41 (41 ∷ []) proposal_keys (some is_prop_id) (codes "Proposal ID") none
          (codes "Proposal ID")
    roadmap ←
        plain_sheet lines 42 (42 ∷ []) roadmap_keys (some is_release_id) (codes "Release")
          (some roadmap_bands) (codes "Release")
    changes ←
        plain_sheet lines 43 (43 ∷ 44 ∷ 45 ∷ []) change_keys (some is_timestamp) (codes "Timestamp")
          (some change_bands) (codes "Action")
    integrations ←
        plain_sheet lines 52 (52 ∷ []) integration_keys none (codes "Tool") none (codes "Tool")
    tools ← plain_sheet lines 63 (63 ∷ 64 ∷ []) tooling_keys none (codes "Tool") none (codes "Tool")
    rules ←
        plain_sheet lines 65 (65 ∷ []) rule_keys (some is_bvr_id) (codes "Rule ID") none
          (codes "Rule ID")
    dictionary ← dictionary_pages is_word lines (66 ∷ 67 ∷ 68 ∷ []) []
    questions ← parse_open_questions is_word module_names lines (page_range 8 69)
    out_of_scope ← parse_out_of_scope is_word lines (77 ∷ 78 ∷ []) module_names
    some (record {
      domains = domains;
      backlog = backlog;
      v1_execution = v1;
      future_backlog = future;
      audit = audit;
      proposals = proposals;
      roadmap = roadmap;
      changes = changes;
      integrations = integrations;
      tools = tools;
      rules = rules;
      dictionary = dictionary;
      questions = questions;
      out_of_scope = out_of_scope;
    })

-- `out["_meta"]["counts"]`: the audit is no list and counts as 1.
unfoldable pub counts_of : Output → List (Str × ℕ)
counts_of out =
    (codes "domains_and_modules", length out.domains)
    ∷ (codes "master_backlog", length out.backlog)
    ∷ (codes "v1_execution", length out.v1_execution)
    ∷ (codes "future_backlog", length out.future_backlog)
    ∷ (codes "backlog_audit", 1)
    ∷ (codes "feature_proposals", length out.proposals)
    ∷ (codes "version_roadmap", length out.roadmap)
    ∷ (codes "change_log", length out.changes)
    ∷ (codes "integration_map", length out.integrations)
    ∷ (codes "tooling_register", length out.tools)
    ∷ (codes "build_vs_buy_rules", length out.rules)
    ∷ (codes "data_dictionary", length out.dictionary)
    ∷ (codes "open_questions", length out.questions)
    ∷ (codes "out_of_scope", length out.out_of_scope)
    ∷ []

-- `row["req"]` of every row of the backlog.
unfoldable pub requests : List SheetRow → Option (List Row)
requests [] = some []
requests (row ∷ rows) = do
  req ← lookup (codes "req") row.cells
  rest ← requests rows
  some (record { req = req; cells = row.cells } ∷ rest)

pub record Options : Type 0 where
  pub check_only : Bool
  pub merge : Bool

-- How a run ends: the exit code, the workbook that is written with its counts, and prd-backlog.json.
pub record RunEnd : Type 0 where
  pub code : ℕ
  pub written : Option (Output × List (Str × ℕ))
  pub legacy : Legacy

unfoldable pub problems_code : List LegacyProblem → ℕ
problems_code [] = 0
problems_code (p ∷ ps) = 1

-- What follows the parsing.
unfoldable pub finish_run : Options → Output → Legacy → Option RunEnd
unfolding requests check merge_legacy counts_of problems_code
finish_run options out legacy =
    let wrote = some (out, counts_of out) in
    if options.check_only
    then (do
      rows ← requests out.backlog
      some (record { code = problems_code (check rows legacy); written = none; legacy = legacy }))
    else if options.merge
    then (do
      rows ← requests out.backlog
      some (record { code = 0; written = wrote; legacy = (merge_legacy rows legacy).legacy }))
    else some (record { code = 0; written = wrote; legacy = legacy })

-- `main`, for the fragments of the pages of the PDF, if there is one; `none`: it raises.
unfoldable pub main : (ℕ → Bool) → Options → Option (List (List Frag)) → Legacy → Option RunEnd
unfolding parse_workbook page_lines finish_run
main is_word options none legacy = some (record { code = 1; written = none; legacy = legacy })
main is_word options (some pages) legacy = do
  out ← parse_workbook is_word (map page_lines pages)
  finish_run options out legacy
