-- ===== src/Workbook/Main.antt =====
-- `main` of alpha-one/scripts/parse_prd_workbook.py, sheet by sheet. The pages are given as what pypdf
-- reports of them, with rounded positions.
pub mod Dictionary
use alpha_one.Base.{
  ℕ, zero, suc, ◌&&◌, ◌||◌, Bool, true, false, Option, none, some, List, [], ◌∷◌, ◌++◌, map, Str,
  str_eq, if◌then◌else◌, any, all, keep,
}
use alpha_one.Base.{
  codes, ◌==◌, ◌>>=◌, is_space, get_elem?, lookup, put, is_digit, number_of, join_with,
}
use alpha_one.Tables.{span}
use alpha_one.Markers.Search.{strip_prefix}
use alpha_one.Workbook.Cells.{is_capital, has_length, squash}
use alpha_one.Workbook.Pages.{PageLine, Band, header_columns, bucket_to_bands}
use alpha_one.Workbook.Legacy.{Fields, field}
use alpha_one.Workbook.Rows.{SheetRow, anchor_rows, norm_row}
use alpha_one.Workbook.Keys.{audit_bands, dictionary_bands}

-- `MODULE_ID`: the two groups. The text is squashed, so that something stands behind its white space.
unfoldable pub match_module : Str → Option (Str × Str)
unfolding is_capital has_length
match_module text =
    let (letters, a) = span is_capital text in
    let (blanks, rest) = span is_space a in
    if has_length 2 5 letters
    then elim blanks [
      | [] ↦ none
      | b ∷ bs ↦ elim rest [ [] ↦ none | c ∷ s ↦ some (letters, c ∷ s) ]
    ]
    else none

-- `row.get(name)` as a test.
unfoldable pub has_cell : Str → SheetRow → Bool
has_cell name row = elim (field name row.cells) [ [] ↦ false | c ∷ s ↦ true ]

-- `{m["module_name"] for m in rows}`
unfoldable pub modules_of : List SheetRow → Option (List Str)
modules_of [] = some []
modules_of (row ∷ rows) = do
  name ← lookup (codes "module_name") row.cells
  names ← modules_of rows
  some (name ∷ names)

-- `{"severity": ..., "sheet": ..., "row": ..., "rule": ..., "detail": ...}`
unfoldable pub finding_of : Fields → Fields
finding_of vals =
    (codes "severity", field (codes "severity") vals)
    ∷ (codes "sheet", field (codes "sheet") vals)
    ∷ (codes "row", field (codes "row") vals)
    ∷ (codes "rule", field (codes "rule") vals)
    ∷ (codes "detail", field (codes "detail") vals)
    ∷ []

pub record Audit : Type 0 where
  pub run_at : Str
  pub totals : List (Str × ℕ)
  pub findings : List Fields

-- `^Audit run: (\S+)$`
unfoldable pub match_run : Str → Option Str
match_run text = do
  rest ← strip_prefix (codes "Audit run: ") text
  elim rest [ [] ↦ none | c ∷ s ↦ if any is_space (c ∷ s) then none else some (c ∷ s) ]

-- `(\d+)$` behind a label.
unfoldable pub match_total : Str → Str → Option ℕ
match_total label text = do
  rest ← strip_prefix label text
  elim rest [
    | [] ↦ none
    | c ∷ s ↦ if all is_digit (c ∷ s) then some (number_of 0 (c ∷ s)) else none
  ]

-- `^(Findings|Errors|Warnings): (\d+)$`, with the key of the count.
unfoldable pub total_of : Str → Option (Str × ℕ)
unfolding match_total
total_of text = elim (match_total (codes "Findings: ") text) [
  | some n ↦ some (codes "findings_count", n)
  | none ↦ elim (match_total (codes "Errors: ") text) [
    | some n ↦ some (codes "errors", n)
    | none ↦ elim (match_total (codes "Warnings: ") text) [
      | some n ↦ some (codes "warnings", n)
      | none ↦ none
    ]
  ]
]

-- `if not s or s == "Section" or (s, v) in seen: continue`, else the entry is added.
unfoldable pub has_entry : Str × Str → List (Str × Str) → Bool
has_entry entry [] = false
has_entry entry (e ∷ seen) = str_eq entry.0 e.0 && str_eq entry.1 e.1 || has_entry entry seen

unfoldable pub add_entry : Str → Str → List (Str × Str) → List (Str × Str)
unfolding has_entry
add_entry [] v dd = dd
add_entry (c ∷ s) v dd =
    if str_eq (c ∷ s) (codes "Section") || has_entry (c ∷ s, v) dd
    then dd
    else dd ++ (c ∷ s, v) ∷ []

-- `[norm_row(r, mapping) for r in rows if r.get(name)]`
unfoldable pub norm_rows : Str → List (Str × Str) → List SheetRow → List SheetRow
unfolding has_cell norm_row
norm_rows name mapping rows = map (norm_row mapping) (keep (has_cell name) rows)

-- The pages of a workbook, from page `n` on.
unfoldable pub page_range : ℕ → ℕ → List ℕ
page_range zero n = []
page_range (suc count) n = n ∷ page_range count (suc n)

module _ (is_word : ℕ → Bool) where
  -- On a few pages a module cell stands in the column of its number.
  unfoldable pub repair_module : SheetRow → SheetRow
  unfolding match_module squash
  repair_module row =
      let number = field (codes "Module ID") row.cells in
      if any (λ c. c == 32) number
      then elim (match_module number) [
        | none ↦ row
        | some (letters, rest) ↦
            let name = squash is_word (rest ++ (32 ∷ field (codes "Module") row.cells)) in
            record row {
              cells = put (codes "Module") name (put (codes "Module ID") letters row.cells);
            }
      ]
      else row

  -- The loop over the lines of the audit page.
  unfoldable pub audit_lines : List PageLine → Audit → Audit
  unfolding squash match_run total_of bucket_to_bands finding_of
  audit_lines [] audit = audit
  audit_lines (line ∷ lines) audit =
      let text = squash is_word (join_with (32 ∷ []) (map (λ (f : ℕ × Str). f.1) line.1)) in
      let vals = bucket_to_bands is_word line.1 audit_bands in
      let severity = field (codes "severity") vals in
      let run = elim (match_run text) as (λ r. Str) [ none ↦ audit.run_at | some at ↦ at ] in
      let totals = elim (total_of text) as (λ r. List (Str × ℕ)) [
        | none ↦ audit.totals
        | some (key, n) ↦ put key n audit.totals
      ] in
      let more =
        if str_eq severity (codes "ERROR") || str_eq severity (codes "WARN")
        then finding_of vals ∷ []
        else [] in
      audit_lines lines
        (record { run_at = run; totals = totals; findings = audit.findings ++ more })

  -- The loops over the pages of the data dictionary.
  unfoldable pub dictionary_lines : List PageLine → List (Str × Str) → List (Str × Str)
  unfolding bucket_to_bands add_entry
  dictionary_lines [] dd = dd
  dictionary_lines (line ∷ lines) dd =
      let vals = bucket_to_bands is_word line.1 dictionary_bands in
      dictionary_lines lines
        (add_entry (field (codes "section") vals) (field (codes "value") vals) dd)

  unfoldable pub dictionary_pages :
      List (List PageLine) → List ℕ → List (Str × Str) → Option (List (Str × Str))
  unfolding dictionary_lines
  dictionary_pages all_lines [] dd = some dd
  dictionary_pages all_lines (pno ∷ pages) dd = do
    lines ← get_elem? all_lines pno
    dictionary_pages all_lines pages (dictionary_lines lines dd)

  -- `header_columns` on the first page of a sheet, `anchor_rows` on all of them.
  unfoldable pub sheet_rows :
      List (List PageLine)
      → ℕ
      → List ℕ
      → List Str
      → Option (Str → Bool)
      → Str
      → Option (List Band)
      → Option (List SheetRow)
  unfolding header_columns anchor_rows
  sheet_rows all_lines first pages names pattern header bands = do
    lines ← get_elem? all_lines first
    anchor_rows is_word all_lines pages (header_columns lines names) pattern (some header) bands
