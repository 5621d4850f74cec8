-- ===== src/Workbook/Scope.antt =====
-- `parse_out_of_scope` of alpha-one/scripts/parse_prd_workbook.py.
pub mod Sound
use alpha_one.Workbook.Floats.{minus, tenths}
use alpha_one.Base.{
  ℕ, ◌&&◌, ◌||◌, Bool, true, false, Option, some, List, [], ◌∷◌, ◌++◌, map, length, Str, mem,
  str_eq, if◌then◌else◌, keep,
}
use alpha_one.Base.{ltb, leb, ◌==◌, ◌>>=◌, strip, sort_by, get_elem?}
use alpha_one.Workbook.Cells.{squash}
use alpha_one.Workbook.Pages.{PageLine, nearest, pair_before}

-- A header line: its page, its position, and the modules with theirs.
pub record Header : Type 0 where
  pub pno : ℕ
  pub height : ℕ
  pub cols : List (ℕ × Str)

pub record BodyLine : Type 0 where
  pub pno : ℕ
  pub height : ℕ
  pub frags : List (ℕ × Str)

-- The loop over the lines of the pages.
unfoldable pub page_parts : List Str → ℕ → List PageLine → List Header × List BodyLine
unfolding pair_before
page_parts module_names pno [] = ([], [])
page_parts module_names pno ((y, frags) ∷ lines) =
    let rest = page_parts module_names pno lines in
    let names = sort_by pair_before (keep (λ (f : ℕ × Str). mem f.1 module_names) frags) in
    elim frags [
      | [] ↦ rest
      | f ∷ fs ↦
          if leb 2 (length names)
          then (record { pno = pno; height = y; cols = names } ∷ rest.0, rest.1)
          else (rest.0, record { pno = pno; height = y; frags = f ∷ fs } ∷ rest.1)
    ]

unfoldable pub sheet_parts :
    List Str → List (List PageLine) → List ℕ → Option (List Header × List BodyLine)
unfolding page_parts
sheet_parts module_names all_lines [] = some ([], [])
sheet_parts module_names all_lines (pno ∷ pages) = do
  lines ← get_elem? all_lines pno
  rest ← sheet_parts module_names all_lines pages
  let here = page_parts module_names pno lines
  some (here.0 ++ rest.0, here.1 ++ rest.1)

-- `hp < pno or (hp == pno and hy > y)`
unfoldable pub precedes : BodyLine → Header → Bool
precedes line h = ltb h.pno line.pno || h.pno == line.pno && ltb line.height h.height

-- `(h[0], -h[1])` of `a` is the smaller.
unfoldable pub reads_earlier : Header → Header → Bool
reads_earlier a b = ltb a.pno b.pno || a.pno == b.pno && ltb b.height a.height

-- `max(headers, key=...)`: the first of the greatest, with the best so far.
unfoldable pub latest : Header → List Header → Header
unfolding reads_earlier
latest best [] = best
latest best (h ∷ headers) = latest (if reads_earlier best h then h else best) headers

-- `by_col`
unfoldable pub add_column : ℕ → Str → List (ℕ × Str) → List (ℕ × Str)
add_column i t [] = (i, strip (32 ∷ t)) ∷ []
add_column i t ((j, s) ∷ found) =
    if j == i then (j, strip (s ++ (32 ∷ t))) ∷ found else (j, s) ∷ add_column i t found

unfoldable pub columns_of :
    List (ℕ × Str) → List (ℕ × Str) → List (ℕ × Str) → Option (List (ℕ × Str))
unfolding nearest add_column
columns_of cols [] found = some found
columns_of cols ((x, t) ∷ frags) found = do
  i ← nearest x (map (λ (c : ℕ × Str). c.0) cols)
  columns_of cols frags (add_column i t found)

-- An item, with the place of its last line.
pub record ScopeItem : Type 0 where
  pub module_name : Str
  pub text : Str
  pub height : ℕ
  pub pno : ℕ

-- The jump to a new bullet, 4.9
abbrev pub bullet_gap : ℕ
bullet_gap = tenths 49

module _ (is_word : ℕ → Bool) where
  -- The last item of the module on this page, with the text if the line continues it; the test says
  -- whether there is one.
  unfoldable pub continue_last : Str → ℕ → ℕ → Str → List ScopeItem → Bool × List ScopeItem
  unfolding squash
  continue_last name pno y text [] = (false, [])
  continue_last name pno y text (item ∷ items) =
      let (found, after) = continue_last name pno y text items in
      if found
      then (true, item ∷ after)
      else if str_eq item.module_name name && item.pno == pno
      then (
        true,
        if leb (minus item.height y) bullet_gap
            then record item { text = squash is_word (item.text ++ (32 ∷ text)); height = y }
              ∷ after
            else item ∷ after
              ++ record { module_name = name; text = text; height = y; pno = pno } ∷ [],
      )
      else (false, item ∷ after)

  -- The body of the loop over `by_col`.
  unfoldable pub add_item : Str → ℕ → ℕ → Str → List ScopeItem → List ScopeItem
  unfolding continue_last
  add_item name pno y text items =
      let (found, after) = continue_last name pno y text items in
      if found
      then after
      else items ++ record { module_name = name; text = text; height = y; pno = pno } ∷ []

  unfoldable pub add_items :
      List (ℕ × Str) → ℕ → ℕ → List (ℕ × Str) → List ScopeItem → Option (List ScopeItem)
  unfolding add_item
  add_items cols pno y [] items = some items
  add_items cols pno y ((i, text) ∷ found) items = do
    col ← get_elem? cols i
    add_items cols pno y found (add_item col.1 pno y text items)

  -- The loop over the body lines.
  unfoldable pub body_lines : List Header → List BodyLine → List ScopeItem → Option (List ScopeItem)
  unfolding precedes latest columns_of add_items
  body_lines headers [] items = some items
  body_lines headers (line ∷ lines) items = elim (keep (precedes line) headers) [
    | [] ↦ body_lines headers lines items
    | h ∷ hs ↦ do
      let cols = (latest h hs).cols
      found ← columns_of cols line.frags []
      after ← add_items cols line.pno line.height found items
      body_lines headers lines after
  ]

  unfoldable pub parse_out_of_scope :
      List (List PageLine) → List ℕ → List Str → Option (List ScopeItem)
  unfolding sheet_parts body_lines
  parse_out_of_scope all_lines pages module_names = do
    parts ← sheet_parts module_names all_lines pages
    items ← body_lines parts.0 parts.1 []
    some (keep (λ (item : ScopeItem). elim item.text [ [] ↦ false | c ∷ s ↦ true ]) items)
