-- ===== src/Workbook/Rows/Anchored.antt =====
-- `anchor_rows` of alpha-one/scripts/parse_prd_workbook.py does not raise where the columns are known.
use alpha_one.Base.{
  ℕ, zero, suc, ◌<◌, ◌||◌, Bool, true, Option, none, some, List, [], ◌∷◌, ◌++◌, map, length, Str,
  any, arith, ◌≡◌, ◌∙◌, refl, ap, subst, Bool-cases, inl, inr, some-injective,
}
use alpha_one.Base.{◌==◌, get_elem?, get_elem?-some, All, List-cases, sort_by, put, ◌>>=◌}
use alpha_one.Workbook.Align.{align_runs}
use alpha_one.Workbook.Align.Table.{Align, start, pair, no_run, no_anchor}
use alpha_one.Workbook.Align.Backtrack.{align_runs_optimal}
use alpha_one.Workbook.Legacy.{Fields}
use alpha_one.Workbook.Pages.{PageLine, Column, Run, indexed_runs, runs_of, higher, header_columns}
use alpha_one.Workbook.Rows.{
  Sheet, SheetRow, Rows, add_row, start_rows, set_cell, place_runs, fill_column, fill_rows_near,
  near_frags, page_rows, page_columns, anchor_pages, anchors_of, above, fill_page, header_position,
  run_gap, anchor_rows,
}

-- The pairs of an alignment are numbers of runs and of anchors.
abbrev pub IsInside : ℕ → ℕ → ℕ × ℕ → Type 0
IsInside n m (i, j) = (i < n) × (j < m)

Align-IsInside :
    (runs : List (ℕ × ℕ)) (anchors : List ℕ) {i j c : ℕ} {ps : List (ℕ × ℕ)}
    → Align runs anchors i j c ps
    → All (IsInside (length runs) (length anchors)) ps
Align-IsInside runs anchors start = tt
Align-IsInside runs anchors (pair a p q e) = ((p, q), Align-IsInside runs anchors a)
Align-IsInside runs anchors (no_run a q e) = Align-IsInside runs anchors a
Align-IsInside runs anchors (no_anchor a p e) = Align-IsInside runs anchors a

pub align_runs-IsInside :
    (runs : List (ℕ × ℕ)) (anchors : List ℕ)
    → (pairs : List (ℕ × ℕ)) × (align_runs runs anchors ≡ some pairs)
      × All (IsInside (length runs) (length anchors)) pairs
align_runs-IsInside runs anchors =
    let (pairs, cost, e, a, least) = align_runs_optimal runs anchors in
    (pairs, e, Align-IsInside runs anchors a)

pub length-indexed_runs : (i : ℕ) (runs : List Run) → length (indexed_runs i runs) ≡ length runs
unfolding indexed_runs
length-indexed_runs i [] = refl
length-indexed_runs i (run ∷ runs) = ap suc (length-indexed_runs (suc i) runs)

has_row : ℕ → Rows → Bool
has_row y rows = any (λ (row : ℕ × Fields). row.0 == y) rows

has_row-add_row : (y z : ℕ) (rows : Rows) → has_row z (add_row y rows) ≡ (y == z || has_row z rows)
unfolding has_row add_row
has_row-add_row y z [] = refl
has_row-add_row y z ((x, cells) ∷ rows) = ground (arith, has_row-add_row y z rows)

has_row-start_rows :
    (anchors : List ℕ) (rows : Rows) (z : ℕ)
    → has_row z (start_rows anchors rows) ≡ (any (λ y. y == z) anchors || has_row z rows)
unfolding start_rows
has_row-start_rows [] rows z = refl
has_row-start_rows (y ∷ anchors) rows z =
    has_row-start_rows anchors (add_row y rows) z ∙ ground (arith, has_row-add_row y z rows)

set_cell-ends :
    (y : ℕ) (name : Str) (f : Fields → Str) (rows : Rows)
    → has_row y rows ≡ true
    → (after : Rows) × (set_cell y name f rows ≡ some after)
      × ((z : ℕ) → has_row z after ≡ has_row z rows)
unfolding set_cell has_row
set_cell-ends y name f [] h = cc
set_cell-ends y name f ((x, cells) ∷ rows) h = elim (Bool-cases (x == y)) [
  | inl e ↦ ((x, put name (f cells) cells) ∷ rows, rw e refl, λ z. refl)
  | inr e ↦
      let (after, found, same) = set_cell-ends y name f rows (ground arith) in
      ((x, cells) ∷ after, rw (e, set_cell, found) refl, λ z. ground (arith, same z))
]

-- Every anchor has its row.
HasRows : List ℕ → Rows → Type 0
HasRows anchors rows = (j y : ℕ) → get_elem? anchors j ≡ some y → has_row y rows ≡ true

-- A step on the rows that does not raise, and leaves every anchor its row.
KeepsRows : List ℕ → Option Rows → Type 0
KeepsRows anchors result = (after : Rows) × (result ≡ some after) × HasRows anchors after

some-KeepsRows :
    (anchors : List ℕ) (rows : Rows) → HasRows anchors rows → KeepsRows anchors (some rows)
unfolding KeepsRows
some-KeepsRows anchors rows h = (rows, refl, h)

>>=-KeepsRows :
    (anchors : List ℕ) (m : Option Rows) (f : Rows → Option Rows)
    → KeepsRows anchors m
    → ((after : Rows) → HasRows anchors after → KeepsRows anchors (f after))
    → KeepsRows anchors (m >>= f)
unfolding KeepsRows
>>=-KeepsRows anchors m f (after, e, h) next = rw e (next after h)

set_cell-KeepsRows :
    (anchors : List ℕ) (y j : ℕ) (name : Str) (f : Fields → Str) (rows : Rows)
    → get_elem? anchors j ≡ some y
    → HasRows anchors rows
    → KeepsRows anchors (set_cell y name f rows)
unfolding KeepsRows HasRows
set_cell-KeepsRows anchors y j name f rows at h =
    let (after, e, same) = set_cell-ends y name f rows (h j y at) in
    (after, e, λ k z found. same z ∙ h k z found)

any-found : (xs : List ℕ) (j y : ℕ) → get_elem? xs j ≡ some y → any (λ z. z == y) xs ≡ true
any-found [] j y h = cc
any-found (x ∷ xs) zero y h = ground (arith, some-injective _ _ h)
any-found (x ∷ xs) (suc j) y h = ground (arith, any-found xs j y h)

start_rows-HasRows : (anchors : List ℕ) → HasRows anchors (start_rows anchors [])
unfolding HasRows
start_rows-HasRows anchors j y h =
    has_row-start_rows anchors [] y ∙ rw (any-found anchors j y h) refl

page_columns-cons :
    (sheet : Sheet) (column : Column) (columns : List Column) (lines : List PageLine)
    → (c : Column) × (cs : List Column) × (page_columns sheet (column ∷ columns) lines ≡ c ∷ cs)
unfolding page_columns
page_columns-cons sheet column columns lines =
    elim (List-cases (header_columns lines sheet.names)) [
      | inl e ↦ (column, columns, rw (e, page_columns) refl)
      | inr (c, cs, e) ↦ (c, cs, rw (e, page_columns) refl)
    ]

module _ (is_word : ℕ → Bool) where
  place_runs-KeepsRows :
      (name : Str) (runs : List Run) (anchors : List ℕ) (pairs : List (ℕ × ℕ)) (rows : Rows)
      → All (IsInside (length runs) (length anchors)) pairs
      → HasRows anchors rows
      → KeepsRows anchors (place_runs is_word name runs anchors pairs rows)
  unfolding place_runs
  place_runs-KeepsRows name runs anchors [] rows p h = some-KeepsRows anchors rows h
  place_runs-KeepsRows name runs anchors ((i, j) ∷ pairs) rows ((pi, pj), p) h =
      let (run, found) = get_elem?-some runs i pi in
      let (y, at) = get_elem?-some anchors j pj in
      rw (found, at)
        (>>=-KeepsRows anchors _ _ (set_cell-KeepsRows anchors y j name _ rows at h)
          (λ after k. place_runs-KeepsRows name runs anchors pairs after p k))

  fill_column-KeepsRows :
      (name : Str) (anchors : List ℕ) (frags : List (ℕ × Str)) (rows : Rows)
      → HasRows anchors rows
      → KeepsRows anchors (fill_column is_word name anchors frags rows)
  unfolding fill_column
  fill_column-KeepsRows name anchors [] rows h = some-KeepsRows anchors rows h
  fill_column-KeepsRows name anchors (f ∷ fs) rows h =
      let runs = runs_of run_gap (sort_by higher (f ∷ fs)) in
      let (pairs, e, inside) = align_runs-IsInside (indexed_runs 0 runs) anchors in
      rw (e, fill_column)
        (place_runs-KeepsRows name runs anchors pairs rows
          (subst (λ n. All (IsInside n (length anchors)) pairs) (length-indexed_runs 0 runs) inside)
          h)

  fill_rows_near-KeepsRows :
      (columns : List Column) (i : ℕ) (more : List Column) (lines : List PageLine)
      (anchors : List ℕ) (rows : Rows)
      → HasRows anchors rows
      → KeepsRows anchors (fill_rows_near is_word columns i more lines anchors rows)
  unfolding fill_rows_near
  fill_rows_near-KeepsRows columns i [] lines anchors rows h = some-KeepsRows anchors rows h
  fill_rows_near-KeepsRows columns i (column ∷ more) lines anchors rows h =
      >>=-KeepsRows anchors _ _
        (fill_column-KeepsRows column.0 anchors (near_frags is_word columns i lines) rows h)
        (λ after k. fill_rows_near-KeepsRows columns (suc i) more lines anchors after k)

  page_rows-ends :
      (sheet : Sheet) (column : Column) (columns : List Column) (lines : List PageLine)
      → sheet.bands ≡ none
      → (rows : Rows) × (page_rows is_word sheet (column ∷ columns) lines ≡ some rows)
  unfolding page_rows fill_page KeepsRows
  page_rows-ends sheet column columns lines e =
      let names = map (λ (c : Column). c.0) (column ∷ columns) in
      let header_x = header_position sheet.header (column ∷ columns) column.1 in
      let anchors = sort_by above (anchors_of sheet.pattern header_x names lines) in
      elim (List-cases anchors) [
        | inl e_none ↦ ([], rw (e_none, page_rows) refl)
        | inr (y, ys, some_anchors) ↦
            let (rows, run, kept) =
              fill_rows_near-KeepsRows (column ∷ columns) 0 (column ∷ columns) lines (y ∷ ys)
                (start_rows (y ∷ ys) []) (start_rows-HasRows (y ∷ ys)) in
            (rows, rw (some_anchors, page_rows, e, fill_page) run)
      ]

  anchor_pages-ends :
      (sheet : Sheet) (all_lines : List (List PageLine)) (pages : List ℕ) (column : Column)
      (columns : List Column)
      → sheet.bands ≡ none
      → All (λ pno. pno < length all_lines) pages
      → (rows : List SheetRow) × (anchor_pages is_word sheet all_lines pages (column ∷ columns)
          ≡ some rows)
  unfolding anchor_pages
  anchor_pages-ends sheet all_lines [] column columns e h = ([], refl)
  anchor_pages-ends sheet all_lines (pno ∷ pages) column columns e (p, h) =
      let (lines, at) = get_elem?-some all_lines pno p in
      let (c, cs, here) = page_columns-cons sheet column columns lines in
      let (rows, read) = page_rows-ends sheet c cs lines e in
      let (rest, run) = anchor_pages-ends sheet all_lines pages c cs e h in
      (
        map (λ (row : ℕ × Fields). record { cells = row.1; page = suc pno }) rows ++ rest,
        rw (at, anchor_pages, here, read, run) refl,
      )

  -- On a sheet read by its headers `anchor_rows` does not raise, where the columns at the start are not
  -- empty and the pages are pages of the workbook: the runs that are aligned have their rows, also on pages
  -- that show another header or none.
  pub anchor_rows-ends :
      (all_lines : List (List PageLine)) (pages : List ℕ) (column : Column) (columns : List Column)
      (pattern : Option (Str → Bool)) (header : Option Str)
      → All (λ pno. pno < length all_lines) pages
      → (rows : List SheetRow) × (anchor_rows is_word all_lines pages
            (column ∷ columns)
            pattern
            header
            none
          ≡ some rows)
  unfolding anchor_rows
  anchor_rows-ends all_lines pages column columns pattern header h =
      anchor_pages-ends
        (record {
          names = map (λ (c : Column). c.0) (column ∷ columns);
          pattern = pattern;
          header = header;
          bands = none;
        })
        all_lines pages column columns refl h
