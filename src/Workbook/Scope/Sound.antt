-- ===== src/Workbook/Scope/Sound.antt =====
-- The items of the Out Of Scope sheet in alpha-one/scripts/parse_prd_workbook.py.
use alpha_one.Workbook.Floats.{minus}
use alpha_one.Base.{All-append, All-keep, keep-All, sort_by-All, get_elem?-All}
use alpha_one.Base.{
  ℕ, ◌≤◌, ◌<◌, ◌&&◌, Bool, true, false, some, List, [], ◌∷◌, ◌++◌, map, length, Str, mem, str_eq,
  arith, ◌≡◌, ◌≢◌, refl, Bool-cases, inl, inr, keep,
}
use alpha_one.Base.{◌==◌, leb, get_elem?-some, get_elem?-lt, All, sort_by, length-map}
use alpha_one.Workbook.Pages.{PageLine, nearest, nearest_from, pair_before}
use alpha_one.Workbook.Pages.Nearest.{nearest_lem}
use alpha_one.Workbook.Scope.{
  Header, BodyLine, page_parts, sheet_parts, precedes, reads_earlier, latest, add_column,
  columns_of, ScopeItem, bullet_gap, continue_last, add_item, add_items, body_lines,
  parse_out_of_scope,
}

module _ (module_names : List Str) where
  abbrev IsModule : ℕ × Str → Type 0
  IsModule col = mem col.1 module_names ≡ true

  -- A header line names at least two modules.
  record IsHeader (h : Header) : Type 0 where
    several : 2 ≤ length h.cols
    named : All IsModule h.cols

  page_parts-IsHeader :
      (pno : ℕ) (lines : List PageLine) → All IsHeader (page_parts module_names pno lines).0
  unfolding page_parts
  page_parts-IsHeader pno [] = tt
  page_parts-IsHeader pno ((y, []) ∷ lines) = page_parts-IsHeader pno lines
  page_parts-IsHeader pno ((y, f ∷ fs) ∷ lines) =
      let is_module = λ (g : ℕ × Str). mem g.1 module_names in
      let names = sort_by pair_before (keep is_module (f ∷ fs)) in
      elim (Bool-cases (leb 2 (length names))) [
        | inl e ↦
            rw (e, page_parts)
              (
                record {
                  several = ground arith;
                  named =
                      sort_by-All IsModule pair_before (keep is_module (f ∷ fs))
                        (All-keep is_module (f ∷ fs));
                },
                page_parts-IsHeader pno lines,
              )
        | inr e ↦ rw (e, page_parts) (page_parts-IsHeader pno lines)
      ]

  sheet_parts-ends :
      (all_lines : List (List PageLine)) (pages : List ℕ)
      → All (λ pno. pno < length all_lines) pages
      → (headers : List Header) × (body : List BodyLine) × (sheet_parts module_names all_lines pages
          ≡ some (headers, body))
        × All IsHeader headers
  unfolding sheet_parts
  sheet_parts-ends all_lines [] h = ([], [], refl, tt)
  sheet_parts-ends all_lines (pno ∷ pages) (p, h) =
      let (lines, at) = get_elem?-some all_lines pno p in
      let (headers, body, run, all_headers) = sheet_parts-ends all_lines pages h in
      let here = page_parts module_names pno lines in
      (
        here.0 ++ headers,
        here.1 ++ body,
        rw (at, sheet_parts, run) refl,
        All-append IsHeader here.0 headers (page_parts-IsHeader pno lines) all_headers,
      )

  latest-IsHeader :
      (best : Header) (headers : List Header)
      → IsHeader best
      → All IsHeader headers
      → IsHeader (latest best headers)
  unfolding latest
  latest-IsHeader best [] b h = b
  latest-IsHeader best (x ∷ headers) b (px, h) = elim (Bool-cases (reads_earlier best x)) [
    | inl e ↦ rw (e, latest) (latest-IsHeader x headers px h)
    | inr e ↦ rw (e, latest) (latest-IsHeader best headers b h)
  ]

abbrev IsColumn : List (ℕ × Str) → ℕ × Str → Type 0
IsColumn cols found = found.0 < length cols

add_column-IsColumn :
    (cols : List (ℕ × Str)) (i : ℕ) (t : Str) (found : List (ℕ × Str))
    → i < length cols
    → All (IsColumn cols) found
    → All (IsColumn cols) (add_column i t found)
unfolding add_column
add_column-IsColumn cols i t [] lt h = (lt, tt)
add_column-IsColumn cols i t ((j, s) ∷ found) lt (p, h) = elim (Bool-cases (j == i)) [
  | inl e ↦ rw e (p, h)
  | inr e ↦ rw e (p, add_column-IsColumn cols i t found lt h)
]

columns_of-IsColumn :
    (col : ℕ × Str) (cols frags found : List (ℕ × Str))
    → All (IsColumn (col ∷ cols)) found
    → (after : List (ℕ × Str)) × (columns_of (col ∷ cols) frags found ≡ some after)
      × All (IsColumn (col ∷ cols)) after
unfolding columns_of nearest
columns_of-IsColumn col cols [] found h = (found, refl, h)
columns_of-IsColumn col cols ((x, t) ∷ frags) found h =
    let xs = map (λ (c : ℕ × Str). c.0) cols in
    let near = nearest_lem x col.0 xs in
    let i = nearest_from x 0 col.0 1 xs in
    let inside : i < length (col ∷ cols) = omega (
      arith,
      get_elem?-lt (col.0 ∷ xs) i near.place near.at_place,
      length-map (λ (c : ℕ × Str). c.0) cols,
    ) in
    columns_of-IsColumn col cols frags (add_column i t found)
      (add_column-IsColumn (col ∷ cols) i t found inside h)

module _ (is_word : ℕ → Bool) (module_names : List Str) where
  -- The module of an item is one of the names.
  abbrev IsKnown : ScopeItem → Type 0
  IsKnown item = mem item.module_name module_names ≡ true

  continue_last-All :
      (name : Str) (pno y : ℕ) (text : Str) (items : List ScopeItem)
      → mem name module_names ≡ true
      → All IsKnown items
      → All IsKnown (continue_last is_word name pno y text items).1
  unfolding continue_last
  continue_last-All name pno y text [] known h = tt
  continue_last-All name pno y text (item ∷ items) known (p, h) =
      let rest = continue_last-All name pno y text items known h in
      elim (Bool-cases (continue_last is_word name pno y text items).0) [
        | inl e ↦ rw e (p, rest)
        | inr e ↦ elim (Bool-cases (str_eq item.module_name name && item.pno == pno)) [
          | inl f ↦ elim (Bool-cases (leb (minus item.height y) bullet_gap)) [
            | inl g ↦ rw (e, f, g) (p, rest)
            | inr g ↦ rw (e, f, g) (p, All-append IsKnown _ _ rest (known, tt))
          ]
          | inr f ↦ rw (e, f) (p, rest)
        ]
      ]

  add_item-All :
      (name : Str) (pno y : ℕ) (text : Str) (items : List ScopeItem)
      → mem name module_names ≡ true
      → All IsKnown items
      → All IsKnown (add_item is_word name pno y text items)
  unfolding add_item
  add_item-All name pno y text items known h =
      elim (Bool-cases (continue_last is_word name pno y text items).0) [
        | inl e ↦ rw e (continue_last-All name pno y text items known h)
        | inr e ↦ rw e (All-append IsKnown items _ h (known, tt))
      ]

  add_items-ends :
      (cols : List (ℕ × Str)) (pno y : ℕ) (found : List (ℕ × Str)) (items : List ScopeItem)
      → All (IsModule module_names) cols
      → All (IsColumn cols) found
      → All IsKnown items
      → (after : List ScopeItem) × (add_items is_word cols pno y found items ≡ some after)
        × All IsKnown after
  unfolding add_items
  add_items-ends cols pno y [] items named inside h = (items, refl, h)
  add_items-ends cols pno y ((i, text) ∷ found) items named (lt, inside) h =
      let (col, at) = get_elem?-some cols i lt in
      let known = get_elem?-All (IsModule module_names) cols i col named at in
      let (after, run, all_after) =
        add_items-ends cols pno y found (add_item is_word col.1 pno y text items) named inside
          (add_item-All col.1 pno y text items known h) in
      (after, rw (at, add_items) run, all_after)

  scope_line-ends :
      (cols frags : List (ℕ × Str)) (pno y : ℕ) (items : List ScopeItem)
      → 2 ≤ length cols
      → All (IsModule module_names) cols
      → All IsKnown items
      → (found : List (ℕ × Str)) × (after : List ScopeItem) × (columns_of cols frags []
          ≡ some found)
        × (add_items is_word cols pno y found items ≡ some after)
        × All IsKnown after
  scope_line-ends [] frags pno y items several named h = absurd (omega arith)
  scope_line-ends (col ∷ cols) frags pno y items several named h =
      let (found, run, inside) = columns_of-IsColumn col cols frags [] tt in
      let (after, added, all_after) =
        add_items-ends (col ∷ cols) pno y found items named inside h in
      (found, after, run, added, all_after)

  body_lines-ends :
      (headers : List Header) (body : List BodyLine) (items : List ScopeItem)
      → All (IsHeader module_names) headers
      → All IsKnown items
      → (after : List ScopeItem) × (body_lines is_word headers body items ≡ some after)
        × All IsKnown after
  unfolding body_lines
  body_lines-ends headers [] items hs h = (items, refl, h)
  body_lines-ends headers (line ∷ body) items hs h =
      step (keep (precedes line) headers) refl
        (keep-All (IsHeader module_names) (precedes line) headers hs)
        (λ kept. body_lines-ends headers body kept hs)
    where
      step :
          (before : List Header)
          → keep (precedes line) headers ≡ before
          → All (IsHeader module_names) before
          → ((kept : List ScopeItem)
              → All IsKnown kept
              → (after : List ScopeItem) × (body_lines is_word headers body kept ≡ some after)
                × All IsKnown after)
          → (after : List ScopeItem) × (body_lines is_word headers (line ∷ body) items ≡ some after)
            × All IsKnown after
      step [] e tops others = rw (e, body_lines) (others items h)
      step (x ∷ before) e (p, tops) others =
          let top = latest-IsHeader module_names x before p tops in
          let (found, items', run, added, all_items) =
            scope_line-ends (latest x before).cols line.frags line.pno line.height items top.several
              top.named h in
          let (after, rest, all_after) = others items' all_items in
          (after, rw (e, run, added, body_lines) rest, all_after)

  -- The items of the sheet have a text and a module of the list.
  pub record IsSound (item : ScopeItem) : Type 0 where
    pub known : mem item.module_name module_names ≡ true
    pub filled : item.text ≢ []

  filled-IsSound :
      (items : List ScopeItem)
      → All IsKnown items
      → All IsSound
          (keep (λ (item : ScopeItem). elim item.text [ [] ↦ false | c ∷ s ↦ true ]) items)
  filled-IsSound [] h = tt
  filled-IsSound (item ∷ items) (p, h) = split item.text refl (filled-IsSound items h)
    where
      split :
          (text : Str)
          → item.text ≡ text
          → All IsSound
              (keep (λ (item : ScopeItem). elim item.text [ [] ↦ false | c ∷ s ↦ true ]) items)
          → All IsSound (
              keep
                (λ (item : ScopeItem). elim item.text [ [] ↦ false | c ∷ s ↦ true ])
                (item ∷ items))
      split [] e rest = rw e rest
      split (c ∷ s) e rest = rw e (record { known = p; filled = λ f. cc }, rest)

  -- On pages of the workbook the Out Of Scope sheet is read without an error, whatever its lines are, and
  -- each item has a text that is not empty and a module that is one of the given names.
  pub parse_out_of_scope-ends :
      (all_lines : List (List PageLine)) (pages : List ℕ)
      → All (λ pno. pno < length all_lines) pages
      → (items : List ScopeItem) × (parse_out_of_scope is_word all_lines pages module_names
          ≡ some items)
        × All IsSound items
  unfolding parse_out_of_scope
  parse_out_of_scope-ends all_lines pages h =
      let (headers, body, parts, tops) = sheet_parts-ends module_names all_lines pages h in
      let (items, run, known) = body_lines-ends headers body [] tops tt in
      (_, rw (parts, run) refl, filled-IsSound items known)
