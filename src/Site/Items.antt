-- ===== src/Site/Items.antt =====
-- Lists in alpha-one/scripts/build_docs_site.py: `_render_list` and `_render_items`.
pub mod Rendered
pub mod Nested
use alpha_one.Base.{
  ℕ, zero, suc, Bool, true, false, Option, none, some, List, [], ◌∷◌, ◌++◌, map, length, Str,
  if◌then◌else◌,
}
use alpha_one.Base.{codes, ltb, leb, ◌==◌, strip, concat, str_of}
use alpha_one.Site.Patterns.{bullet_of, indent_width}

-- `[ind, ordered, start_num, text]`
pub record Item : Type 0 where
  pub indent : ℕ
  pub start : Option ℕ
  pub text : Str

-- `items[-1][3] += " " + text`
unfoldable pub extend_last : Str → List Item → List Item
extend_last more [] = []
extend_last more (item ∷ []) = record item { text = item.text ++ (32 ∷ more) } ∷ []
extend_last more (item ∷ next ∷ items) = item ∷ extend_last more (next ∷ items)

unfoldable pub is_blank : Str → Bool
is_blank line = elim (strip line) [ [] ↦ true | c ∷ s ↦ false ]

-- The loop over `j`
unfoldable pub skip_blank : List Str → List Str
unfolding is_blank
skip_blank [] = []
skip_blank (line ∷ lines) = if is_blank line then skip_blank lines else line ∷ lines

-- `LI_RE.match(line) and _indent_width(line) >= first`
unfoldable pub goes_on : ℕ → List Str → Bool
goes_on first [] = false
goes_on first (line ∷ lines) = elim (bullet_of line) [
  | none ↦ false
  | some bullet ↦ leb first (indent_width line)
]

-- The loop of `_render_list` over the lines that are left; `none`: the fuel ran out.
unfoldable pub list_loop : ℕ → ℕ → List Str → List Item → Option (List Item × List Str)
unfolding goes_on skip_blank is_blank extend_last
list_loop fuel first [] items = some (items, [])
list_loop zero first (line ∷ lines) items = none
list_loop (suc fuel) first (line ∷ lines) items = elim (bullet_of line) [
  | some bullet ↦ elim (ltb (indent_width line) first) [
    | true ↦ some (items, line ∷ lines)
    | false ↦ list_loop fuel first lines (
        items
        ++ record { indent = indent_width line; start = bullet.start; text = bullet.text } ∷ [])
  ]
  | none ↦ elim (is_blank line) [
    | true ↦ elim (goes_on first (skip_blank lines)) [
      | true ↦ list_loop fuel first (skip_blank lines) items
      | false ↦ some (items, line ∷ lines)
    ]
    | false ↦ elim items [
      | [] ↦ some ([], line ∷ lines)
      | item ∷ more ↦ elim (ltb first (indent_width line)) [
        | true ↦ list_loop fuel first lines (extend_last (strip line) (item ∷ more))
        | false ↦ some (item ∷ more, line ∷ lines)
      ]
    ]
  ]
]

-- The pieces of a rendered list.
pub data Piece : Type 0 where
  open_list : Option ℕ → Piece
  close_list : Option ℕ → Piece
  open_item : Str → Piece
  close_item : Piece

unfoldable pub piece_text : Piece → Str
piece_text (open_list none) = codes "<ul>"
piece_text (open_list (some n)) =
    if n == 1 then codes "<ol>" else concat (codes "<ol start=\"" ∷ str_of n ∷ codes "\">" ∷ [])
piece_text (close_list none) = codes "</ul>"
piece_text (close_list (some n)) = codes "</ol>"
piece_text (open_item text) = codes "<li>" ++ text
piece_text close_item = codes "</li>"

unfoldable pub deeper : ℕ → List Item → Bool
deeper indent [] = false
deeper indent (item ∷ items) = ltb indent item.indent

-- `items[i][0]` and `items[i][2]`, where there is an item.
unfoldable pub first_indent : List Item → ℕ
first_indent [] = 0
first_indent (item ∷ items) = item.indent

unfoldable pub first_start : List Item → Option ℕ
first_start [] = none
first_start (item ∷ items) = item.start

-- `_indent_width(lines[i])`
unfoldable pub first_width : List Str → ℕ
first_width [] = 0
first_width (line ∷ lines) = indent_width line

unfoldable pub wrap : Option ℕ → List Piece → List Piece
wrap start pieces = open_list start ∷ (pieces ++ close_list start ∷ [])

module _ {S : Type 0} (inline : S → Str → Str × S) where
  -- The loop of `_render_items`, for the items from `i` on: the pieces, the items that are left, and
  -- the state. Where the next item is deeper, a call renders from it on; every call renders its
  -- first item, so the number of items is fuel enough.
  unfoldable pub item_loop : ℕ → ℕ → List Item → S → List Piece × (List Item × S)
  unfolding deeper wrap
  item_loop zero indent items s = ([], (items, s))
  item_loop (suc fuel) indent [] s = ([], ([], s))
  item_loop (suc fuel) indent (item ∷ items) s = elim (ltb item.indent indent) [
    | true ↦ ([], (item ∷ items, s))
    | false ↦
        let (text, s1) = inline s item.text in
        elim (deeper indent items) [
          | false ↦
              let (rest, left) = item_loop fuel indent items s1 in
              (open_item text ∷ close_item ∷ rest, left)
          | true ↦
              let (inner, (behind, s2)) = item_loop fuel (first_indent items) items s1 in
              let (rest, left) = item_loop fuel indent behind s2 in
              (open_item text ∷ (wrap (first_start items) inner ++ (close_item ∷ rest)), left)
        ]
  ]

  unfoldable pub render_items : ℕ → ℕ → List Item → S → List Piece × (List Item × S)
  unfolding item_loop wrap
  render_items fuel indent items s =
      let (pieces, left) = item_loop fuel indent items s in (wrap (first_start items) pieces, left)

  -- `_render_list(lines, i)`: the text, the lines from the new `i` on, and the state.
  unfoldable pub render_list : ℕ → List Str → S → Option (Str × (List Str × S))
  unfolding list_loop render_items piece_text
  render_list fuel lines s =
      let first = first_width lines in
      elim (list_loop fuel first lines []) [
        | none ↦ none
        | some (items, behind) ↦
            let (pieces, (left, s1)) = render_items (length items) first items s in
            some (concat (map piece_text pieces), (behind, s1))
      ]
