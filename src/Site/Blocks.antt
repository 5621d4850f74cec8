-- ===== src/Site/Blocks.antt =====
-- `render_markdown` of alpha-one/scripts/build_docs_site.py: the blocks of a document.
use alpha_one.Base.{split_char}
use alpha_one.Base.{
  ℕ, zero, suc, ◌+◌, true, false, Option, none, some, List, [], ◌∷◌, ◌++◌, map, length, Str,
  if◌then◌else◌,
}
use alpha_one.Base.{codes, leb, ◌==◌, strip, str_of, concat, join_with, newline}
use alpha_one.Site.Patterns.{
  Fence, fence_of, closes, Heading, heading_of, is_rule, unquoted, bullet_of, indent_width,
  escape_html,
}
use alpha_one.Site.Cells.{split_row, align_of, is_table_start, take_rows, render_table, rest_of}
use alpha_one.Site.Items.{is_blank, render_list}
use alpha_one.Site.Slugs.{slug_of}

-- `text.replace("\r\n", "\n").replace("\r", "\n")`
unfoldable pub line_feeds : Str → Str
line_feeds [] = []
line_feeds (c ∷ []) = if c == 13 then 10 ∷ [] else c ∷ []
line_feeds (c ∷ d ∷ s) = elim (c == 13) [
  | false ↦ c ∷ line_feeds (d ∷ s)
  | true ↦ elim (d == 10) [ true ↦ 10 ∷ line_feeds s | false ↦ 10 ∷ line_feeds (d ∷ s) ]
]

unfoldable pub split_lines : Str → List Str
unfolding line_feeds split_char
split_lines text = split_char 10 (line_feeds text)

-- The lines of a fenced block, and the lines behind its closing fence, or none if it has none.
unfoldable pub take_fence : Fence → List Str → List Str × List Str
unfolding closes
take_fence fence [] = ([], [])
take_fence fence (line ∷ lines) =
    let rest = take_fence fence lines in
    if closes fence line then ([], lines) else (line ∷ rest.0, rest.1)

-- The lines of a block quote without their marks, and the lines behind it.
unfoldable pub take_quote : List Str → List Str × List Str
unfolding unquoted
take_quote [] = ([], [])
take_quote (line ∷ lines) =
    let rest = take_quote lines in
    elim (unquoted line) [ none ↦ ([], line ∷ lines) | some inner ↦ (inner ∷ rest.0, rest.1) ]

-- The first test of the loop that holds for the lines from `i` on.
pub data Kind : Type 0 where
  blank_kind : Kind
  fence_kind : Fence → Kind
  heading_kind : Heading → Kind
  rule_kind quote_kind table_kind list_kind text_kind : Kind

unfoldable pub kind_of : Str → List Str → Kind
unfolding is_blank fence_of heading_of is_rule unquoted is_table_start bullet_of indent_width
kind_of line lines = elim (is_blank line) [
  | true ↦ blank_kind
  | false ↦ elim (fence_of line) [
    | some fence ↦ fence_kind fence
    | none ↦ elim (heading_of line) [
      | some heading ↦ heading_kind heading
      | none ↦ elim (is_rule line) [
        | true ↦ rule_kind
        | false ↦ elim (unquoted line) [
          | some inner ↦ quote_kind
          | none ↦ elim (is_table_start (line ∷ lines)) [
            | true ↦ table_kind
            | false ↦ elim (bullet_of line) [
              | some bullet ↦ if leb (indent_width line) 3 then list_kind else text_kind
              | none ↦ text_kind
            ]
          ]
        ]
      ]
    ]
  ]
]

unfoldable pub fence_html : Fence → List Str → Str
unfolding escape_html
fence_html fence buf =
    let mark = elim fence.lang as (λ l. Str) [
      | [] ↦ []
      | c ∷ s ↦ concat (codes " class=\"language-" ∷ (c ∷ s) ∷ codes "\"" ∷ [])
    ] in
    concat (
      codes "<pre><code"
      ∷ mark
      ∷ codes ">"
      ∷ escape_html true (join_with newline buf)
      ∷ codes "</code></pre>"
      ∷ [])

unfoldable pub heading_html : Heading → Str → Str → Str
heading_html heading slug text =
    let level = str_of heading.level in
    concat (
      codes "<h"
      ∷ level
      ∷ codes " id=\""
      ∷ slug
      ∷ codes "\">"
      ∷ text
      ∷ codes "</h"
      ∷ level
      ∷ codes ">"
      ∷ [])

-- `ctx`: the used slugs, and what `inline` reads and changes.
pub record Page (S : Type 0) : Type 0 where
  pub used : List Str
  pub site : S

-- `lines[i + 1]`
unfoldable pub cell_line : List Str → Str
cell_line [] = []
cell_line (line ∷ lines) = line

-- A block in front of the blocks behind it.
unfoldable pub before :
    {S : Type 0} → List Str → Option (List Str × Page S) → Option (List Str × Page S)
before blocks none = none
before blocks (some (rest, page)) = some (blocks ++ rest, page)

unfoldable pub weight : List Str → ℕ
weight [] = 0
weight (line ∷ lines) = suc (length line) + weight lines

module _ {S : Type 0} (inline : S → Str → Str × S) where
  -- `flush_para()`
  unfoldable pub flushed : List Str → Page S → List Str × Page S
  flushed [] page = ([], page)
  flushed (line ∷ lines) page =
      let (text, site) = inline page.site (join_with (32 ∷ []) (line ∷ lines)) in
      (concat (codes "<p>" ∷ text ∷ codes "</p>" ∷ []) ∷ [], record page { site = site })

  -- The loop, for the lines from `i` on, with the open paragraph: what it appends to `out` from here
  -- on, and the page behind it; `none`: the fuel ran out.
  unfoldable pub render_blocks : ℕ → List Str → List Str → Page S → Option (List Str × Page S)
  unfolding flushed before
  render_blocks fuel [] para page = some (flushed para page)
  render_blocks zero (line ∷ lines) para page = none
  render_blocks (suc fuel) (line ∷ lines) para page =
      let (head, p) = flushed para page in
      elim (kind_of line lines) [
        | blank_kind ↦ before head (render_blocks fuel lines [] p)
        | fence_kind fence ↦
            let (buf, behind) = take_fence fence lines in
            before (head ++ fence_html fence buf ∷ []) (render_blocks fuel behind [] p)
        | heading_kind heading ↦ elim (slug_of p.used heading.title) [
          | none ↦ none
          | some (slug, used) ↦
              let (text, site) = inline p.site heading.title in
              before (head ++ heading_html heading slug text ∷ [])
                (render_blocks fuel lines [] (record { used = used; site = site }))
        ]
        | rule_kind ↦ before (head ++ codes "<hr>" ∷ []) (render_blocks fuel lines [] p)
        | quote_kind ↦
            let (buf, behind) = take_quote (line ∷ lines) in
            elim (render_blocks fuel (split_lines (join_with newline buf)) [] p) [
              | none ↦ none
              | some (inner, p1) ↦
                  before
                    (head
                      ++ concat (
                          codes "<blockquote>"
                          ∷ join_with newline inner
                          ∷ codes "</blockquote>"
                          ∷ [])
                        ∷ [])
                    (render_blocks fuel behind [] p1)
            ]
        | table_kind ↦
            let aligns = map align_of (split_row (cell_line lines)) in
            let (rows, behind) = take_rows (rest_of lines) in
            let (table, site) = render_table inline (split_row line) aligns rows p.site in
            before (head ++ table ∷ []) (render_blocks fuel behind [] (record p { site = site }))
        | list_kind ↦ elim (render_list inline (length (line ∷ lines)) (line ∷ lines) p.site) [
          | none ↦ none
          | some (list, (behind, site)) ↦
              before (head ++ list ∷ []) (render_blocks fuel behind [] (record p { site = site }))
        ]
        | text_kind ↦ render_blocks fuel lines (para ++ strip line ∷ []) page
      ]

  -- The fuel is the number of characters, each line with its end.
  unfoldable pub render_markdown : Str → Page S → Option (Str × Page S)
  unfolding weight
  render_markdown text page =
      elim (render_blocks (weight (split_lines text)) (split_lines text) [] page) [
        | none ↦ none
        | some (blocks, after) ↦ some (join_with newline blocks, after)
      ]
