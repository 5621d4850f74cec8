-- ===== src/Workbook/Pages.antt =====
-- The lines, columns and runs of a page in alpha-one/scripts/parse_prd_workbook.py. Positions are floats in
-- the units of `Workbook.Floats`, with its differences and sums.
pub mod Nearest
pub mod Kept
use alpha_one.Workbook.Floats.{apart, minus, plus, points, tenths}
use alpha_one.Base.{
  ℕ, zero, suc, ◌&&◌, ◌||◌, not, Bool, true, false, Option, none, some, List, [], ◌∷◌, ◌++◌, map,
  Str, mem, str_eq, if◌then◌else◌,
}
use alpha_one.Base.{
  codes, ltb, leb, ◌==◌, ◌>>=◌, strip, str_lt, join_with, sort_by, get_or, lookup, put, has_key,
  flat_map, ◌/◌,
}
use alpha_one.Workbook.Cells.{unsplit_ids, squash, is_story}

-- `(y, x, t)`
pub record Frag : Type 0 where
  pub height : ℕ
  pub left : ℕ
  pub text : Str

-- `(y, [(x, t)])`
abbrev pub PageLine : Type 0
PageLine = ℕ × List (ℕ × Str)

-- The body of `visitor`, with the rounded position.
unfoldable pub visitor : Frag → List Frag
unfolding unsplit_ids
visitor frag = elim (unsplit_ids (strip frag.text)) [
  | [] ↦ []
  | c ∷ s ↦ record { height = frag.height; left = frag.left; text = c ∷ s } ∷ []
]

-- `key=lambda f: (-f[0], f[1])`
unfoldable pub reads_before : Frag → Frag → Bool
reads_before a b = ltb b.height a.height || a.height == b.height && ltb a.left b.left

-- The order of pairs of a position and a text.
unfoldable pub pair_before : ℕ × Str → ℕ × Str → Bool
pair_before (x, s) (y, t) = ltb x y || x == y && str_lt s t

-- `y_tolerance`, 1.6
abbrev pub y_tolerance : ℕ
y_tolerance = tenths 16

-- The loop over the sorted fragments, with the last bucket.
unfoldable pub fill_buckets : ℕ → List (ℕ × Str) → List Frag → List PageLine
fill_buckets y frags [] = (y, frags) ∷ []
fill_buckets y frags (f ∷ rest) = elim (leb (apart y f.height) y_tolerance) [
  | true ↦ fill_buckets y (frags ++ (f.left, f.text) ∷ []) rest
  | false ↦ (y, frags) ∷ fill_buckets f.height ((f.left, f.text) ∷ []) rest
]

unfoldable pub buckets_of : List Frag → List PageLine
unfolding fill_buckets
buckets_of [] = []
buckets_of (f ∷ frags) = fill_buckets f.height ((f.left, f.text) ∷ []) frags

-- `page_lines(page)`, for what pypdf gives to `visitor`.
unfoldable pub page_lines : List Frag → List PageLine
unfolding visitor reads_before pair_before buckets_of
page_lines given =
    map (λ (line : PageLine). (line.0, sort_by pair_before line.1))
      (buckets_of (sort_by reads_before (flat_map visitor given)))

-- A column: its name, and its position.
abbrev pub Column : Type 0
Column = Str × ℕ

-- `lines[:4]`
unfoldable pub first_lines : ℕ → List PageLine → List PageLine
first_lines zero lines = []
first_lines (suc n) [] = []
first_lines (suc n) (line ∷ lines) = line ∷ first_lines n lines

-- The inner loop of `header_columns`, and the outer one.
unfoldable pub note_headers : List Str → List (ℕ × Str) → List Column → List Column
note_headers names [] found = found
note_headers names ((x, t) ∷ frags) found =
    note_headers names frags (if mem t names && not (has_key t found) then put t x found else found)

unfoldable pub note_lines : List Str → List PageLine → List Column → List Column
unfolding note_headers
note_lines names [] found = found
note_lines names (line ∷ lines) found = note_lines names lines (note_headers names line.1 found)

unfoldable pub found_columns : List Str → List Column → List Column
found_columns [] found = []
found_columns (name ∷ names) found =
    let rest = found_columns names found in
    elim (lookup name found) [ none ↦ rest | some x ↦ (name, x) ∷ rest ]

unfoldable pub header_columns : List PageLine → List Str → List Column
unfolding first_lines note_lines found_columns
header_columns lines names = found_columns names (note_lines names (first_lines 4 lines) [])

-- `min(range(len(xs)), key=lambda i: abs(x - xs[i]))`: the first of the nearest positions, with the
-- best so far; the positions from `i` on.
unfoldable pub nearest_from : ℕ → ℕ → ℕ → ℕ → List ℕ → ℕ
nearest_from x best at i [] = best
nearest_from x best at i (y ∷ ys) = elim (ltb (apart x y) (apart x at)) [
  | true ↦ nearest_from x i y (suc i) ys
  | false ↦ nearest_from x best at (suc i) ys
]

unfoldable pub nearest : ℕ → List ℕ → Option ℕ
unfolding nearest_from
nearest x [] = none
nearest x (y ∷ ys) = some (nearest_from x 0 y 1 ys)

-- `names.index(name)`
unfoldable pub index_of : Str → List Str → Option ℕ
index_of name [] = none
index_of name (n ∷ names) =
    let rest = index_of name names in
    if str_eq n name then some 0 else elim rest [ none ↦ none | some i ↦ some (suc i) ]

-- `tolerance`, 45
abbrev pub x_tolerance : ℕ
x_tolerance = points 45

-- A band: its name, and where it begins and ends.
abbrev pub Band : Type 0
Band = Str × ℕ × ℕ

unfoldable pub in_band : ℕ → Band → Bool
in_band x (name, low, high) = leb low x && ltb x high

-- The first band that holds a position.
unfoldable pub band_of : ℕ → List Band → Option Str
unfolding in_band
band_of x [] = none
band_of x (band ∷ bands) = if in_band x band then some band.0 else band_of x bands

-- `acc.setdefault(name, []).append(t)`
unfoldable pub append_cell : Str → Str → List (Str × List Str) → List (Str × List Str)
append_cell name t [] = (name, t ∷ []) ∷ []
append_cell name t ((n, ts) ∷ acc) =
    if str_eq n name then (n, ts ++ t ∷ []) ∷ acc else (n, ts) ∷ append_cell name t acc

unfoldable pub fill_bands :
    List Band → List (ℕ × Str) → List (Str × List Str) → List (Str × List Str)
unfolding band_of append_cell
fill_bands bands [] acc = acc
fill_bands bands ((x, t) ∷ frags) acc =
    fill_bands bands frags
      (elim (band_of x bands) [ none ↦ acc | some name ↦ append_cell name t acc ])

-- `{n: [] for n, _ in columns}`
unfoldable pub start_from : List Column → List (Str × List Str) → List (Str × List Str)
start_from [] acc = acc
start_from (column ∷ columns) acc = start_from columns (put column.0 [] acc)

unfoldable pub start_cells : List Column → List (Str × List Str)
unfolding start_from
start_cells columns = start_from columns []

module _ (is_word : ℕ → Bool) where
  -- `column_index`: the outer `none` is the error of `min` on no columns.
  unfoldable pub column_index : ℕ → Str → List ℕ → List Str → Option (Option ℕ)
  unfolding nearest index_of is_story
  column_index x text xs names = elim (nearest x xs) [
    | none ↦ none
    | some i ↦ elim (if is_story is_word text then index_of (codes "User Story") names else none) [
      | some story ↦ some (some story)
      | none ↦ some (if leb (apart x (get_or xs i 0)) x_tolerance then some i else none)
    ]
  ]

  -- `{n: squash(" ".join(v)) for n, v in acc.items() if v}`
  unfoldable pub joined_cells : List (Str × List Str) → List (Str × Str)
  unfolding squash
  joined_cells [] = []
  joined_cells ((name, []) ∷ acc) = joined_cells acc
  joined_cells ((name, t ∷ ts) ∷ acc) =
      (name, squash is_word (join_with (32 ∷ []) (t ∷ ts))) ∷ joined_cells acc

  unfoldable pub bucket_to_bands : List (ℕ × Str) → List Band → List (Str × Str)
  unfolding fill_bands joined_cells
  bucket_to_bands frags bands = joined_cells (fill_bands bands frags [])

  -- The loop of `bucket_to_columns`; `none`: it raises.
  unfoldable pub fill_columns :
      List Column → List (ℕ × Str) → List (Str × List Str) → Option (List (Str × List Str))
  unfolding column_index append_cell
  fill_columns columns [] acc = some acc
  fill_columns columns ((x, t) ∷ frags) acc = do
    place ← column_index x t (map (λ (c : Column). c.1) columns) (map (λ (c : Column). c.0) columns)
    fill_columns columns frags (elim place [
      | none ↦ acc
      | some i ↦ append_cell (get_or (map (λ (c : Column). c.0) columns) i []) t acc
    ])

  unfoldable pub bucket_to_columns : List (ℕ × Str) → List Column → Option (List (Str × Str))
  unfolding fill_columns joined_cells start_cells
  bucket_to_columns frags columns = do
    acc ← fill_columns columns frags (start_cells columns)
    some (joined_cells acc)

-- A run of lines of one cell.
pub record Run : Type 0 where
  pub first : ℕ
  pub last : ℕ
  pub text : Str

-- The loop of `_group_runs` and of `anchor_rows`, with the last run.
unfoldable pub extend_runs : ℕ → Run → List (ℕ × Str) → List Run
extend_runs gap run [] = run ∷ []
extend_runs gap run ((y, t) ∷ frags) = elim (leb (minus run.last y) gap) [
  | true ↦
      extend_runs gap (record { first = run.first; last = y; text = run.text ++ (32 ∷ t) }) frags
  | false ↦ run ∷ extend_runs gap (record { first = y; last = y; text = t }) frags
]

unfoldable pub runs_of : ℕ → List (ℕ × Str) → List Run
unfolding extend_runs
runs_of gap [] = []
runs_of gap ((y, t) ∷ frags) = extend_runs gap (record { first = y; last = y; text = t }) frags

-- `key=lambda f: -f[0]`
unfoldable pub higher : ℕ × Str → ℕ × Str → Bool
higher a b = ltb b.0 a.0

unfoldable pub group_runs : List (ℕ × Str) → ℕ → List Run
unfolding runs_of higher
group_runs frags gap = runs_of gap (sort_by higher frags)

-- `(r["first"] + r["last"]) / 2`
unfoldable pub centre : Run → ℕ
centre run = plus run.first run.last / 2

-- `[(c, i) for c, i in zip(centres, range(len(runs)))]`
unfoldable pub indexed_runs : ℕ → List Run → List (ℕ × ℕ)
unfolding centre
indexed_runs i [] = []
indexed_runs i (run ∷ runs) = (centre run, i) ∷ indexed_runs (suc i) runs
