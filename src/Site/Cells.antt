-- ===== src/Site/Cells.antt =====
-- Tables in alpha-one/scripts/build_docs_site.py: `split_row`, `_align`, `_is_table_start` and
-- `_render_table`.
use alpha_one.Base.{split_char}
use alpha_one.Base.{
  ℕ, ◌+◌, ◌&&◌, ◌||◌, not, Bool, true, false, List, [], ◌∷◌, map, reverse, Str, str_eq,
  if◌then◌else◌, all,
}
use alpha_one.Base.{codes, ◌==◌, leb, strip, concat}
use alpha_one.Site.Patterns.{run_of}

-- `s[1:]` and `s[:-1]` behind `startswith("|")` and `endswith("|")`
unfoldable pub drop_first_bar : Str → Str
drop_first_bar [] = []
drop_first_bar (c ∷ s) = if c == 124 then s else c ∷ s

unfoldable pub drop_last_bar : Str → Str
drop_last_bar s = elim (reverse s) [ [] ↦ s | c ∷ r ↦ if c == 124 then reverse r else s ]

-- `s.replace("\\|", "\x01")`
unfoldable pub mark_bars : Str → Str
mark_bars [] = []
mark_bars (c ∷ []) = c ∷ []
mark_bars (c ∷ d ∷ s) = elim (c == 92 && d == 124) [
  | true ↦ 1 ∷ mark_bars s
  | false ↦ c ∷ mark_bars (d ∷ s)
]

-- `c.replace("\x01", "|")`
unfoldable pub unmark_bars : Str → Str
unmark_bars = map (λ c. if c == 1 then 124 else c)

unfoldable pub split_row : Str → List Str
unfolding drop_first_bar drop_last_bar mark_bars unmark_bars split_char
split_row line =
    map (λ cell. strip (unmark_bars cell))
      (split_char 124 (mark_bars (drop_last_bar (drop_first_bar (strip line)))))

-- `cell.startswith(":")`, `cell.endswith(":")`
unfoldable pub starts_with : ℕ → Str → Bool
starts_with d [] = false
starts_with d (c ∷ s) = c == d

unfoldable pub ends_with : ℕ → Str → Bool
unfolding starts_with
ends_with d s = starts_with d (reverse s)

unfoldable pub align_of : Str → Str
unfolding starts_with ends_with
align_of cell =
    if starts_with 58 cell && ends_with 58 cell
    then codes "center"
    else if ends_with 58 cell
    then codes "right"
    else if starts_with 58 cell
    then codes "left"
    else []

-- `:?$`, where a line break may stand at the end
unfoldable pub is_sep_end : Str → Bool
is_sep_end [] = true
is_sep_end (c ∷ []) = c == 58 || c == 10
is_sep_end (c ∷ d ∷ []) = c == 58 && d == 10
is_sep_end (c ∷ d ∷ e ∷ s) = false

-- `TABLE_SEP_CELL`
unfoldable pub is_sep_cell : Str → Bool
unfolding is_sep_end run_of
is_sep_cell cell =
    let body : Str = elim cell [ [] ↦ [] | c ∷ s ↦ if c == 58 then s else c ∷ s ] in
    let (count, rest) = run_of 45 body in leb 1 count && is_sep_end rest

unfoldable pub count_char : ℕ → Str → ℕ
count_char d [] = 0
count_char d (c ∷ s) = (if c == d then 1 else 0) + count_char d s

-- `_is_table_start(lines, i)`, for the lines from `i` on.
unfoldable pub is_table_start : List Str → Bool
unfolding starts_with is_sep_cell count_char split_row
is_table_start [] = false
is_table_start (line ∷ []) = false
is_table_start (line ∷ next ∷ rest) =
    starts_with 124 (strip line)
    && (starts_with 124 (strip next)
        && (leb 2 (count_char 124 (strip next)) && all is_sep_cell (split_row (strip next))))

-- `lines[i].strip().startswith("|") and lines[i].strip() != "|"`
unfoldable pub is_table_row : Str → Bool
unfolding starts_with
is_table_row line = starts_with 124 (strip line) && not (str_eq (strip line) (codes "|"))

-- The rows of a table, and the lines behind it.
unfoldable pub take_rows : List Str → List (List Str) × List Str
unfolding is_table_row split_row
take_rows [] = ([], [])
take_rows (line ∷ lines) =
    let rest = take_rows lines in
    if is_table_row line then (split_row line ∷ rest.0, rest.1) else ([], line ∷ lines)

-- `style(idx)`, with the alignments from `idx` on.
unfoldable pub style_of : List Str → Str
style_of [] = []
style_of ([] ∷ aligns) = []
style_of ((c ∷ s) ∷ aligns) = concat (codes " style=\"text-align:" ∷ (c ∷ s) ∷ codes "\"" ∷ [])

unfoldable pub rest_of {ℓ} : {A : Type ℓ} → List A → List A
rest_of [] = []
rest_of (x ∷ xs) = xs

unfoldable pub cell_or_empty : List Str → Str
cell_or_empty [] = []
cell_or_empty (cell ∷ cells) = cell

-- What renders a text reads and changes the state of the page.
module _ {S : Type 0} (inline : S → Str → Str × S) where
  unfoldable pub render_heads : List Str → List Str → S → Str × S
  unfolding style_of rest_of
  render_heads [] aligns s = ([], s)
  render_heads (cell ∷ header) aligns s =
      let (text, s1) = inline s cell in
      let (rest, s2) = render_heads header (rest_of aligns) s1 in
      (concat (codes "<th" ∷ style_of aligns ∷ codes ">" ∷ text ∷ codes "</th>" ∷ rest ∷ []), s2)

  -- `for i in range(len(header))`, with the cells from `i` on.
  unfoldable pub render_cells : List Str → List Str → List Str → S → Str × S
  unfolding style_of rest_of cell_or_empty
  render_cells [] aligns row s = ([], s)
  render_cells (head ∷ header) aligns row s =
      let (text, s1) = inline s (cell_or_empty row) in
      let (rest, s2) = render_cells header (rest_of aligns) (rest_of row) s1 in
      (concat (codes "<td" ∷ style_of aligns ∷ codes ">" ∷ text ∷ codes "</td>" ∷ rest ∷ []), s2)

  unfoldable pub render_rows : List Str → List Str → List (List Str) → S → Str × S
  unfolding render_cells
  render_rows header aligns [] s = ([], s)
  render_rows header aligns (row ∷ rows) s =
      let (cells, s1) = render_cells header aligns row s in
      let (rest, s2) = render_rows header aligns rows s1 in
      (concat (codes "<tr>" ∷ cells ∷ codes "</tr>" ∷ rest ∷ []), s2)

  unfoldable pub render_table : List Str → List Str → List (List Str) → S → Str × S
  unfolding render_heads render_rows
  render_table header aligns rows s =
      let (heads, s1) = render_heads header aligns s in
      let (body, s2) = render_rows header aligns rows s1 in
      (
        concat (
            codes "<div class=\"tablewrap\"><table><thead><tr>"
            ∷ heads
            ∷ codes "</tr></thead><tbody>"
            ∷ body
            ∷ codes "</tbody></table></div>"
            ∷ []),
        s2,
      )
