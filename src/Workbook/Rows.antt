-- ===== src/Workbook/Rows.antt =====
-- `anchor_rows` and `norm_row` of alpha-one/scripts/parse_prd_workbook.py: the rows of a sheet.
pub mod Anchored
use alpha_one.Workbook.Floats.{apart, points, tenths}
use alpha_one.Base.{
  ℕ, suc, ◌&&◌, Bool, false, Option, none, some, List, [], ◌∷◌, ◌++◌, map, Str, mem, str_eq,
  if◌then◌else◌, all, keep,
}
use alpha_one.Base.{
  ltb, leb, ◌==◌, ◌>>=◌, is_space, sort_by, lookup, put, get_elem?, flat_map, add_first,
}
use alpha_one.Workbook.Align.{align_runs}
use alpha_one.Workbook.Cells.{squash}
use alpha_one.Workbook.Legacy.{Fields, field}
use alpha_one.Workbook.Pages.{
  PageLine, Column, Band, Run, header_columns, column_index, bucket_to_bands, runs_of, higher,
  indexed_runs,
}

-- What `anchor_rows` is told of a sheet: the names of its columns, the pattern and the header of its first
-- column, and the bands, where the cells do not stand below their headers.
pub record Sheet : Type 0 where
  pub names : List Str
  pub pattern : Option (Str → Bool)
  pub header : Option Str
  pub bands : Option (List Band)

-- A row: its cells, and the number of its page.
pub record SheetRow : Type 0 where
  pub cells : Fields
  pub page : ℕ

-- `anchor_tolerance` 26, the tolerance 8, `run_gap` 3.7
abbrev pub anchor_tolerance : ℕ
anchor_tolerance = points 26

abbrev pub plain_tolerance : ℕ
plain_tolerance = points 8

abbrev pub run_gap : ℕ
run_gap = tenths 37

-- `all(t in header_names for _, t in frags)`
unfoldable pub is_header : List Str → PageLine → Bool
is_header names line = all (λ (frag : ℕ × Str). mem frag.1 names) line.1

unfoldable pub is_anchor : Option (Str → Bool) → ℕ → ℕ × Str → Bool
is_anchor none header_x (x, t) = leb (apart x header_x) plain_tolerance
is_anchor (some matches) header_x (x, t) = matches t && leb (apart x header_x) anchor_tolerance

-- `anchors`, before they are sorted.
unfoldable pub anchors_of : Option (Str → Bool) → ℕ → List Str → List PageLine → List ℕ
unfolding is_header is_anchor
anchors_of pattern header_x names [] = []
anchors_of pattern header_x names ((y, []) ∷ lines) = anchors_of pattern header_x names lines
anchors_of pattern header_x names ((y, frag ∷ frags) ∷ lines) =
    let rest = anchors_of pattern header_x names lines in
    if is_header names (y, frag ∷ frags)
    then rest
    else if is_anchor pattern header_x frag
    then y ∷ rest
    else rest

unfoldable pub above : ℕ → ℕ → Bool
above a b = ltb b a

-- `rows`, by the position of the anchor.
abbrev pub Rows : Type 0
Rows = List (ℕ × Fields)

unfoldable pub add_row : ℕ → Rows → Rows
add_row y [] = (y, []) ∷ []
add_row y ((z, cells) ∷ rows) = if z == y then (y, []) ∷ rows else (z, cells) ∷ add_row y rows

unfoldable pub start_rows : List ℕ → Rows → Rows
unfolding add_row
start_rows [] rows = rows
start_rows (y ∷ anchors) rows = start_rows anchors (add_row y rows)

-- `rows[y][name] = f(rows[y])`; `none`: there is no such row.
unfoldable pub set_cell : ℕ → Str → (Fields → Str) → Rows → Option Rows
set_cell y name f [] = none
set_cell y name f ((z, cells) ∷ rows) =
    let rest = set_cell y name f rows in
    if z == y
    then some ((z, put name (f cells) cells) ∷ rows)
    else elim rest [ none ↦ none | some after ↦ some ((z, cells) ∷ after) ]

-- `header_x`, where the columns are not empty.
unfoldable pub header_position : Option Str → List Column → ℕ → ℕ
header_position none columns first_x = first_x
header_position (some name) columns first_x = elim (lookup name columns) [
  | none ↦ first_x
  | some x ↦ x
]

-- The columns of a page: those of the page before, where it shows no header.
unfoldable pub page_columns : Sheet → List Column → List PageLine → List Column
unfolding header_columns
page_columns sheet columns lines = elim (header_columns lines sheet.names) [
  | [] ↦ columns
  | c ∷ cs ↦ c ∷ cs
]

-- `by_band`, as pairs in the order in which they are appended; `none`: a band has no column.
unfoldable pub banded :
    List Band → List Str → ℕ → List (Str × Str) → Option (List (Str × (ℕ × Str)))
banded bands names y [] = some []
banded bands names y ((name, t) ∷ cells) =
    let rest = banded bands names y cells in
    if mem name names
    then elim rest [ none ↦ none | some more ↦ some ((name, (y, t)) ∷ more) ]
    else none

-- `by_band.get(name, [])`
unfoldable pub of_band : Str → List (Str × (ℕ × Str)) → List (ℕ × Str)
of_band name found =
    map (λ (f : Str × (ℕ × Str)). f.1) (keep (λ (f : Str × (ℕ × Str)). str_eq f.0 name) found)

module _ (is_word : ℕ → Bool) where
  unfoldable pub band_frags : List Band → List Str → List PageLine → Option (List (Str × (ℕ × Str)))
  unfolding banded is_header bucket_to_bands
  band_frags bands names [] = some []
  band_frags bands names (line ∷ lines) =
      let rest = band_frags bands names lines in
      if is_header names line then rest else do
        here ← banded bands names line.0 (bucket_to_bands is_word line.1 bands)
        more ← rest
        some (here ++ more)

  -- The fragments of one column: the number of the column, and its name.
  unfoldable pub near_frags : List Column → ℕ → List PageLine → List (ℕ × Str)
  unfolding column_index is_header
  near_frags columns i lines =
      let xs = map (λ (c : Column). c.1) columns in
      let names = map (λ (c : Column). c.0) columns in
      flat_map
        (λ (line : PageLine).
          if is_header names line
          then []
          else map (λ (frag : ℕ × Str). (line.0, frag.1))
              (keep
                (λ (frag : ℕ × Str). elim (column_index is_word frag.0 frag.1 xs names) [
                  | some (some j) ↦ j == i
                  | some none ↦ false
                  | none ↦ false
                ])
                line.1))
        lines

  -- The loop over the pairs of `_align_runs`.
  unfoldable pub place_runs : Str → List Run → List ℕ → List (ℕ × ℕ) → Rows → Option Rows
  unfolding set_cell squash
  place_runs name runs anchors [] rows = some rows
  place_runs name runs anchors ((i, j) ∷ pairs) rows = do
    run ← get_elem? runs i
    y ← get_elem? anchors j
    after ← set_cell y name (λ cells. squash is_word (field name cells ++ (32 ∷ run.text))) rows
    place_runs name runs anchors pairs after

  -- The body of the loop over the columns, for the fragments of one column.
  unfoldable pub fill_column : Str → List ℕ → List (ℕ × Str) → Rows → Option Rows
  unfolding runs_of higher indexed_runs align_runs place_runs
  fill_column name anchors frags rows = elim frags [
    | [] ↦ some rows
    | f ∷ fs ↦ do
      let runs = runs_of run_gap (sort_by higher (f ∷ fs))
      pairs ← align_runs (indexed_runs 0 runs) anchors
      place_runs name runs anchors pairs rows
  ]

  unfoldable pub fill_rows_near :
      List Column → ℕ → List Column → List PageLine → List ℕ → Rows → Option Rows
  unfolding near_frags fill_column
  fill_rows_near columns i [] lines anchors rows = some rows
  fill_rows_near columns i (column ∷ more) lines anchors rows = do
    after ← fill_column column.0 anchors (near_frags columns i lines) rows
    fill_rows_near columns (suc i) more lines anchors after

  unfoldable pub fill_rows_banded :
      List (Str × (ℕ × Str)) → List Column → List ℕ → Rows → Option Rows
  unfolding of_band fill_column
  fill_rows_banded found [] anchors rows = some rows
  fill_rows_banded found (column ∷ more) anchors rows = do
    after ← fill_column column.0 anchors (of_band column.0 found) rows
    fill_rows_banded found more anchors after

  unfoldable pub fill_page :
      Option (List Band) → List Column → List PageLine → List ℕ → Rows → Option Rows
  unfolding fill_rows_near fill_rows_banded band_frags
  fill_page none columns lines anchors rows = fill_rows_near columns 0 columns lines anchors rows
  fill_page (some bands) columns lines anchors rows = do
    found ← band_frags bands (map (λ (c : Column). c.0) columns) lines
    fill_rows_banded found columns anchors rows

  -- The body of the loop over the pages; `none`: it raises, as on no columns.
  unfoldable pub page_rows : Sheet → List Column → List PageLine → Option Rows
  unfolding header_position anchors_of above start_rows fill_page
  page_rows sheet [] lines = none
  page_rows sheet (column ∷ columns) lines =
      let names = map (λ (c : Column). c.0) (column ∷ columns) in
      let header_x = header_position sheet.header (column ∷ columns) column.1 in
      let anchors = sort_by above (anchors_of sheet.pattern header_x names lines) in
      elim anchors [
        | [] ↦ some []
        | y ∷ ys ↦ fill_page sheet.bands (column ∷ columns) lines (y ∷ ys) (start_rows (y ∷ ys) [])
      ]

  -- The loop over the pages; `all_names` are the names of the columns at the start.
  unfoldable pub anchor_pages :
      Sheet → List (List PageLine) → List ℕ → List Column → Option (List SheetRow)
  unfolding page_rows page_columns
  anchor_pages sheet all_lines [] columns = some []
  anchor_pages sheet all_lines (pno ∷ pages) columns = do
    lines ← get_elem? all_lines pno
    let here = page_columns sheet columns lines
    rows ← page_rows sheet here lines
    rest ← anchor_pages sheet all_lines pages here
    some (map (λ (row : ℕ × Fields). record { cells = row.1; page = suc pno }) rows ++ rest)

  unfoldable pub anchor_rows :
      List (List PageLine)
      → List ℕ
      → List Column
      → Option (Str → Bool)
      → Option Str
      → Option (List Band)
      → Option (List SheetRow)
  unfolding anchor_pages
  anchor_rows all_lines pages columns pattern header bands =
      anchor_pages
        (record {
          names = map (λ (c : Column). c.0) columns;
          pattern = pattern;
          header = header;
          bands = bands;
        })
        all_lines pages columns

-- `val.split()`
unfoldable pub split_words : Str → List Str
unfolding add_first
split_words [] = []
split_words (c ∷ []) = if is_space c then [] else (c ∷ []) ∷ []
split_words (c ∷ d ∷ s) =
    let rest = split_words (d ∷ s) in
    if is_space c then rest else if is_space d then (c ∷ []) ∷ rest else add_first c rest

-- `len(parts) > 1 and len(set(parts)) == 1`
unfoldable pub all_same : List Str → Option Str
all_same [] = none
all_same (part ∷ []) = none
all_same (part ∷ next ∷ parts) = if all (str_eq part) (next ∷ parts) then some part else none

-- The value of a cell that is not empty.
unfoldable pub norm_cell : Str → Str
unfolding all_same split_words
norm_cell value = elim (all_same (split_words value)) [ none ↦ value | some part ↦ part ]

-- The loop of `norm_row`.
unfoldable pub norm_cells : List (Str × Str) → Fields → Fields → Fields
unfolding norm_cell
norm_cells [] row out = out
norm_cells ((src, dst) ∷ mapping) row out = elim (field src row) [
  | [] ↦ norm_cells mapping row out
  | c ∷ s ↦ norm_cells mapping row (put dst (norm_cell (c ∷ s)) out)
]

unfoldable pub norm_row : List (Str × Str) → SheetRow → SheetRow
unfolding norm_cells
norm_row mapping row = record { cells = norm_cells mapping row.cells []; page = row.page }
