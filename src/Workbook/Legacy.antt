-- ===== src/Workbook/Legacy.antt =====
-- `check` and `merge_legacy` of alpha-one/scripts/parse_prd_workbook.py, on the parsed master
-- backlog and the contents of alpha-one/scripts/prd-backlog.json. The JSON library is not part of
-- the repository: the file's dictionary is an argument, and its cells are texts.
pub mod Agreement
pub mod Counts
use alpha_one.Base.{
  is_space, lstrip, strip, ℕ, suc, ◌&&◌, ◌||◌, not, Bool, true, false, Option, none, some, List, [],
  ◌∷◌, ◌++◌, reverse, length, Str, codes, str_eq, if◌then◌else◌, any, flat_map, ◌==◌, leb, lookup,
  put, sorted_items,
}

abbrev pub Fields : Type 0
Fields = List (Str × Str)

-- A parsed row: the request number, which `main` requires, and the other cells.
pub record Row : Type 0 where
  pub req : Str
  pub cells : Fields

abbrev pub Legacy : Type 0
Legacy = List (Str × Fields)

-- `d.get(k, "")`
unfoldable pub field : Str → Fields → Str
field k d = elim (lookup k d) [ none ↦ [] | some v ↦ v ]

-- The fields of prd-backlog.json and the columns of the workbook, in the order of `check`.
abbrev pub compared : List (Str × Str)
compared =
    (codes "phase", codes "phase")
    ∷ (codes "rel", codes "release")
    ∷ (codes "pri", codes "priority")
    ∷ (codes "cx", codes "complexity")
    ∷ (codes "own", codes "owner")
    ∷ (codes "feat", codes "feature")
    ∷ (codes "story", codes "story")
    ∷ []

-- `fresh`
unfoldable pub fresh : Row → Fields
unfolding field
fresh row =
    (codes "phase", field (codes "phase") row.cells)
    ∷ (codes "rel", field (codes "release") row.cells)
    ∷ (codes "pri", field (codes "priority") row.cells)
    ∷ (codes "cx", field (codes "complexity") row.cells)
    ∷ (codes "own", field (codes "owner") row.cells)
    ∷ (codes "story", field (codes "story") row.cells)
    ∷ (codes "feat", field (codes "feature") row.cells)
    ∷ []

-- `any(old.get(k, "") != v for k, v in fresh.items())`
unfoldable pub differs : Fields → Fields → Bool
differs old items = any (λ (item : Str × Str). not (str_eq (field (item.0) old) (item.1))) items

-- The local variables of `merge_legacy`; `changed` is a counter.
pub record Merge : Type 0 where
  pub legacy : Legacy
  pub added : List Str
  pub changed : ℕ

-- The body of the loop over the rows.
unfoldable pub merge_row : Row → Merge → Merge
unfolding fresh differs
merge_row row state = elim (lookup row.req state.legacy) [
  | none ↦ record {
    legacy = put row.req (fresh row) state.legacy;
    added = state.added ++ row.req ∷ [];
    changed = state.changed;
  }
  | some old ↦ record {
    legacy = put row.req (fresh row) state.legacy;
    added = state.added;
    changed = if differs old (fresh row) then suc state.changed else state.changed;
  }
]

unfoldable pub merge_rows : List Row → Merge → Merge
unfolding merge_row
merge_rows [] state = state
merge_rows (row ∷ rows) state = merge_rows rows (merge_row row state)

-- What `merge_legacy` reports; `legacy` is sorted when it is written back.
unfoldable pub merge_legacy : List Row → Legacy → Merge
unfolding merge_rows
merge_legacy rows legacy =
    let state = merge_rows rows record { legacy = legacy; added = []; changed = 0 } in
    record { legacy = sorted_items state.legacy; added = state.added; changed = state.changed }

-- `{r["req"]: r for r in rows}`
unfoldable pub master_of : List Row → List (Str × Row) → List (Str × Row)
master_of [] master = master
master_of (row ∷ rows) master = master_of rows (put row.req row master)

pub data LegacyProblem : Type 0 where
  row_count : (legacy master : ℕ) → LegacyProblem
  absent : (req : Str) → LegacyProblem
  mismatch : (req new_key : Str) → (old_value new_value : Option Str) → LegacyProblem

unfoldable pub field_problems : Str → Fields → Row → Str × Str → List LegacyProblem
unfolding field strip
field_problems req old new keys =
    if str_eq (strip (field (keys.0) old)) (strip (field (keys.1) new.cells))
    then []
    else mismatch req (keys.1) (lookup (keys.0) old) (lookup (keys.1) new.cells) ∷ []

-- The body of the loop over `legacy.items()`.
unfoldable pub entry_problems : List (Str × Row) → Str × Fields → List LegacyProblem
unfolding field_problems
entry_problems master entry = elim (lookup (entry.0) master) [
  | none ↦ absent (entry.0) ∷ []
  | some new ↦ flat_map (field_problems (entry.0) (entry.1) new) compared
]

-- `problems`; the exit code is 1 where there is one.
unfoldable pub check : List Row → Legacy → List LegacyProblem
unfolding master_of entry_problems
check rows legacy =
    let master = master_of rows [] in
    (if length legacy == length master then [] else row_count (length legacy) (length master) ∷ [])
    ++ flat_map (entry_problems master) legacy
