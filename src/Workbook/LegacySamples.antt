-- ===== src/Workbook/LegacySamples.antt =====
-- A small workbook and backlog file, and what the theorems say of them.
use alpha_one.Base.{
  ◌+◌, ◌≤◌, ◌&&◌, not, true, some, List, [], ◌∷◌, length, Str, mem, str_eq, ◌≡◌, refl, ◌↔◌,
}
use alpha_one.Base.{IsDict, codes, lookup, has_key, put, sorted_items, str_lt}
use alpha_one.Workbook.Legacy.{Row, Legacy, merge_legacy, check, mismatch, row_count}
use alpha_one.Workbook.Legacy.Agreement.{parsed, check-merge_legacy}
use alpha_one.Workbook.Legacy.Counts.{merge_legacy-counts}

-- Two parsed rows, and a file with an older phase for one of them.
abbrev rows : List Row
rows =
    record { req = codes "R-2"; cells = (codes "phase", codes "V1.0") ∷ [] }
    ∷ record { req = codes "R-1"; cells = (codes "feature", codes "Login") ∷ [] }
    ∷ []

abbrev legacy : Legacy
legacy = (codes "R-2", (codes "phase", codes "V2.0") ∷ []) ∷ []

legacy-IsDict : IsDict legacy
unfolding has_key
legacy-IsDict = (refl, tt)

-- The file is one row short, and one phase differs.
check-sample :
    check rows legacy
    ≡ row_count 1 2
      ∷ mismatch (codes "R-2") (codes "phase") (some (codes "V2.0")) (some (codes "V1.0"))
      ∷ []
unfolding check has_key lookup put str_eq
check-sample = refl

-- The merge adds one request and refreshes the other.
merge_legacy-sample :
    ((merge_legacy rows legacy).added ≡ codes "R-1" ∷ []) × ((merge_legacy rows legacy).changed ≡ 1)
unfolding merge_legacy lookup put str_eq sorted_items str_lt
merge_legacy-sample = (refl, refl)

check-merge_legacy_example :
    (check rows (merge_legacy rows legacy).legacy ≡ [])
    ↔ ((req : Str) → has_key req legacy ≡ true → parsed rows req ≡ true)
check-merge_legacy_example = check-merge_legacy rows legacy legacy-IsDict

merge_legacy-counts_example :
    (length (merge_legacy rows legacy).legacy
      ≡ length legacy + length (merge_legacy rows legacy).added)
    × ((req : Str)
        → mem req (merge_legacy rows legacy).added ≡ (parsed rows req && not (has_key req legacy)))
    × (length (merge_legacy rows legacy).added + (merge_legacy rows legacy).changed ≤ length rows)
merge_legacy-counts_example = merge_legacy-counts rows legacy
