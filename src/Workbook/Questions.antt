-- ===== src/Workbook/Questions.antt =====
-- `parse_open_questions` of alpha-one/scripts/parse_prd_workbook.py.
pub mod Sections
pub mod Complete
pub mod Named
use alpha_one.Workbook.Floats.{points, tenths}
use alpha_one.Base.{
  ℕ, zero, suc, ◌&&◌, ◌||◌, Bool, true, false, Option, none, some, List, [], ◌∷◌, ◌++◌, map, length,
  Str, mem, if◌then◌else◌, keep,
}
use alpha_one.Base.{codes, leb, ◌==◌, ◌>>=◌, sort_by, put, has_key, get_elem?, flat_map, join_with}
use alpha_one.Markers.Search.{strip_prefix, split_first}
use alpha_one.Workbook.Align.{align_runs}
use alpha_one.Workbook.Cells.{squash}
use alpha_one.Workbook.Legacy.{Fields, field}
use alpha_one.Workbook.Pages.{PageLine, Band, in_band, Run, centre, group_runs, indexed_runs}
use alpha_one.Workbook.Rows.{SheetRow, above}

-- `QUESTION_BANDS_DICT`
abbrev pub question_band : Band
question_band = (codes "question", points 90, points 255)

abbrev pub answer_bands : List (Band × ℕ)
answer_bands =
    ((codes "raised_by", points 255, points 318), tenths 45)
    ∷ ((codes "owner", points 318, points 398), tenths 45)
    ∷ ((codes "deadline", points 398, points 472), tenths 45)
    ∷ ((codes "answer", points 472, points 900), tenths 66)
    ∷ []

-- `s.startswith(start)`, `part in s`
unfoldable pub starts_text : Str → Str → Bool
starts_text start s = elim (strip_prefix start s) [ none ↦ false | some rest ↦ true ]

unfoldable pub contains : Str → Str → Bool
contains part s = elim (split_first part s) [ none ↦ false | some found ↦ true ]

unfoldable pub is_question_header : Str → Bool
unfolding starts_text contains
is_question_header joined =
    starts_text (codes "3. Open Questions") joined
    || starts_text (codes "Question") joined && contains (codes "Deadline") joined

-- `band(name)`
unfoldable pub band_texts : Band → List PageLine → List (ℕ × Str)
unfolding in_band
band_texts band body =
    flat_map
      (λ (line : PageLine).
        map (λ (frag : ℕ × Str). (line.0, frag.1))
          (keep (λ (frag : ℕ × Str). in_band frag.0 band) line.1))
      body

-- `cells[j] = f(cells[j])`; `none`: out of range.
unfoldable pub change_at : ℕ → (Fields → Fields) → List Fields → Option (List Fields)
change_at j f [] = none
change_at zero f (cells ∷ more) = some (f cells ∷ more)
change_at (suc j) f (cells ∷ more) = elim (change_at j f more) [
  | none ↦ none
  | some after ↦ some (cells ∷ after)
]

-- The banners of a page and its other lines.
abbrev pub Banner : Type 0
Banner = ℕ × Str

-- `[name for y, name in banners if y >= anchor]`, its last element.
unfoldable pub last_above : ℕ → List Banner → Str → Str
last_above anchor [] name = name
last_above anchor ((y, banner) ∷ banners) name =
    last_above anchor banners (if leb anchor y then banner else name)

unfoldable pub last_banner : List Banner → Str → Str
last_banner [] name = name
last_banner ((y, banner) ∷ banners) name = last_banner banners banner

unfoldable pub close_questions :
    ℕ → Str → List Banner → List ℕ → List Fields → Option (List SheetRow)
unfolding last_above
close_questions page carry banners [] cells = some []
close_questions page carry banners (anchor ∷ anchors) [] = none
close_questions page carry banners (anchor ∷ anchors) (cell ∷ cells) = do
  rest ← close_questions page carry banners anchors cells
  some (
      record { cells = put (codes "section") (last_above anchor banners carry) cell; page = page }
      ∷ rest)

-- `row.setdefault(name, "")`
unfoldable pub set_default : Str → Fields → Fields
set_default name cells = if has_key name cells then cells else put name [] cells

unfoldable pub set_defaults : Fields → Fields
unfolding set_default
set_defaults cells = set_default (codes "answer") (
    set_default (codes "deadline")
      (set_default (codes "owner") (set_default (codes "raised_by") cells)))

module _ (is_word : ℕ → Bool) (module_names : List Str) where
  -- The loop over the lines of a page.
  unfoldable pub split_banners : List PageLine → List Banner × List PageLine
  unfolding squash is_question_header
  split_banners [] = ([], [])
  split_banners ((y, []) ∷ lines) = split_banners lines
  split_banners ((y, frag ∷ frags) ∷ lines) =
      let rest = split_banners lines in
      let joined =
        squash is_word (join_with (32 ∷ []) (map (λ (f : ℕ × Str). f.1) (frag ∷ frags))) in
      if length frags == 0 && mem joined module_names
      then ((y, joined) ∷ rest.0, rest.1)
      else if is_question_header joined
      then rest
      else (rest.0, (y, frag ∷ frags) ∷ rest.1)

  -- The inner loop over the pairs of `_align_runs`.
  unfoldable pub place_answers : Str → List Run → List (ℕ × ℕ) → List Fields → Option (List Fields)
  unfolding change_at squash
  place_answers name runs [] cells = some cells
  place_answers name runs ((i, j) ∷ pairs) cells = do
    run ← get_elem? runs i
    after ←
        change_at j (λ cell. put name (squash is_word (field name cell ++ (32 ∷ run.text))) cell)
          cells
    place_answers name runs pairs after

  unfoldable pub fill_answers :
      List (Band × ℕ) → List PageLine → List ℕ → List Fields → Option (List Fields)
  unfolding band_texts group_runs indexed_runs align_runs place_answers
  fill_answers [] body anchors cells = some cells
  fill_answers ((band, gap) ∷ bands) body anchors cells = do
    after ← (elim (group_runs (band_texts band body) gap) [
      | [] ↦ some cells
      | run ∷ runs ↦ do
        pairs ← align_runs (indexed_runs 0 (run ∷ runs)) anchors
        place_answers band.0 (run ∷ runs) pairs cells
    ])
    fill_answers bands body anchors after

  -- The body of the loop over the pages: the rows, and `carry` behind it.
  unfoldable pub question_page : ℕ → Str → List PageLine → Option (List SheetRow × Str)
  unfolding split_banners band_texts group_runs centre fill_answers close_questions last_banner
      above
  question_page page carry lines =
      let (banners, body) = split_banners lines in
      elim (group_runs (band_texts question_band body) (tenths 66)) [
        | [] ↦ some ([], carry)
        | run ∷ runs ↦ do
          let anchors = sort_by above (map centre (run ∷ runs))
          let cells = map (λ (r : Run). (codes "question", r.text) ∷ []) (run ∷ runs)
          after ← fill_answers answer_bands body anchors cells
          rows ← close_questions page carry banners anchors after
          some (rows, last_banner banners carry)
      ]

  unfoldable pub question_pages : List (List PageLine) → List ℕ → Str → Option (List SheetRow)
  unfolding question_page
  question_pages all_lines [] carry = some []
  question_pages all_lines (pno ∷ pages) carry = do
    lines ← get_elem? all_lines pno
    here ← question_page (suc pno) carry lines
    rest ← question_pages all_lines pages here.1
    some (here.0 ++ rest)

  unfoldable pub parse_open_questions : List (List PageLine) → List ℕ → Option (List SheetRow)
  unfolding question_pages set_defaults
  parse_open_questions all_lines pages = do
    rows ← question_pages all_lines pages []
    some (
        keep
          (λ (row : SheetRow). elim (field (codes "question") row.cells) [
            | [] ↦ false
            | c ∷ s ↦ true
          ])
          (map (λ (row : SheetRow). record row { cells = set_defaults row.cells }) rows))
