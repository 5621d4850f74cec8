-- ===== src/Workbook/Program/Synced.antt =====
-- Two runs of `main` of alpha-one/scripts/parse_prd_workbook.py on one workbook.
use alpha_one.Base.{
  ℕ, Bool, true, false, none, some, List, [], ◌∷◌, map, Str, arith, ◌≡◌, refl, ◌↔◌,
}
use alpha_one.Base.{has_key, IsDict}
use alpha_one.Workbook.Pages.{Frag, page_lines}
use alpha_one.Workbook.Legacy.{Row, Legacy, LegacyProblem, check, merge_legacy}
use alpha_one.Workbook.Legacy.Agreement.{parsed}
use alpha_one.Workbook.Legacy.Agreement.{check-merge_legacy}
use alpha_one.Workbook.Program.{
  Output, parse_workbook, counts_of, requests, Options, RunEnd, problems_code, finish_run, main,
}

-- `--merge-legacy` and `--check`
abbrev pub merging : Options
merging = record { check_only = false; merge = true }

abbrev pub checking : Options
checking = record { check_only = true; merge = false }

problems_code-none : (ps : List LegacyProblem) → (problems_code ps ≡ 0) ↔ (ps ≡ [])
unfolding problems_code
problems_code-none [] = (λ e. refl, λ e. refl)
problems_code-none (p ∷ ps) = (λ e. absurd (ground arith), λ e. cc)

-- When the workbook parses to `out`, whose backlog has the requests `rows`, a run with `--merge-legacy`
-- ends with code 0 and writes `out` with its counts; a run with `--check` on what it leaves as
-- prd-backlog.json writes nothing, leaves that file as it is, and ends with code 0 exactly when
-- every request of the first prd-backlog.json is the request of a row of the backlog.
pub main-merge_check :
    (is_word : ℕ → Bool) (pages : List (List Frag)) (legacy : Legacy) (out : Output)
    (rows : List Row)
    → parse_workbook is_word (map page_lines pages) ≡ some out
    → requests out.backlog ≡ some rows
    → IsDict legacy
    → (merged : RunEnd) × (checked : RunEnd) × (main is_word merging (some pages) legacy
        ≡ some merged)
      × (main is_word checking (some pages) merged.legacy ≡ some checked)
      × (merged.code ≡ 0)
      × (merged.written ≡ some (out, counts_of out))
      × (checked.written ≡ none)
      × (checked.legacy ≡ merged.legacy)
      × ((checked.code ≡ 0) ↔ ((req : Str) → has_key req legacy ≡ true → parsed rows req ≡ true))
unfolding main finish_run
main-merge_check is_word pages legacy out rows e r u =
    let after = (merge_legacy rows legacy).legacy in
    let (codes_forth, codes_back) = problems_code-none (check rows after) in
    let (forth, back) = check-merge_legacy rows legacy u in
    (
      record { code = 0; written = some (out, counts_of out); legacy = after },
      record { code = problems_code (check rows after); written = none; legacy = after },
      rw (e, r) refl,
      rw (e, r) refl,
      refl,
      refl,
      refl,
      refl,
      (λ c. forth (codes_forth c), λ known. codes_back (back known)),
    )
