-- ===== src/Site/Renders.antt =====
-- `render_markdown` of alpha-one/scripts/build_docs_site.py returns on every document.
pub mod Weights
pub mod Listed
use alpha_one.Base.{split_char, add_first}
use alpha_one.Base.{
  ℕ, zero, suc, ◌+◌, ◌-◌, ◌≤◌, ◌<◌, ◌&&◌, ◌||◌, not, Bool, true, false, Option, none, some, List,
  [], ◌∷◌, ◌++◌, map, reverse, length, Str, mem, str_eq, if◌then◌else◌, any, all, arith, ◌≡◌, ◌≢◌,
  ◌∙◌, refl, ap, subst, str_eq_refl, str_eq_sound, Bool-cases, Option-cases, fun_ext, ◌↔◌, ◌⊎◌, inl,
  inr, sym, str_eq_comm, str_eq_iff, mem-append, some-injective, Bool-ext, keep,
}
use alpha_one.Base.{◌<◌, ltb, leb, ◌==◌, is_space, join_with, newline, length-append, concat}
use alpha_one.Site.Patterns.{
  fence_of, heading_of, is_rule, Fence, closes, unquoted, few_spaces, bullet_of, Bullet,
  indent_width,
}
use alpha_one.Site.Cells.{
  is_table_start, take_rows, is_table_row, rest_of, split_row, align_of, render_table,
}
use alpha_one.Site.Items.{
  Item, list_loop, render_list, render_items, skip_blank, is_blank, goes_on, extend_last,
  first_width,
}
use alpha_one.Site.Slugs.{slug_of}
use alpha_one.Site.Slugs.Fresh.{slug_of-fresh}
use alpha_one.Site.Blocks.{
  Kind, blank_kind, fence_kind, heading_kind, rule_kind, quote_kind, table_kind, list_kind,
  text_kind, kind_of, Page, before, flushed, render_blocks, render_markdown, weight, line_feeds,
  split_lines, take_fence, take_quote, cell_line,
}
use alpha_one.Site.Renders.Weights.{
  take_fence-weight, take_rows-weight, take_quote-first, rest_of-weight,
}
use alpha_one.Site.Renders.Listed.{render_list-first}

-- What the first line of a quote and of a list are.
unfoldable pub Opens : Str → Kind → Type 0
Opens line quote_kind = (inner : Str) × (unquoted line ≡ some inner)
Opens line list_kind = (bullet : Bullet) × (bullet_of line ≡ some bullet)
Opens line blank_kind = Unit {0}
Opens line (fence_kind fence) = Unit {0}
Opens line (heading_kind heading) = Unit {0}
Opens line rule_kind = Unit {0}
Opens line table_kind = Unit {0}
Opens line text_kind = Unit {0}

pub kind_of-Opens : (line : Str) (lines : List Str) → Opens line (kind_of line lines)
unfolding kind_of Opens
kind_of-Opens line lines = elim (Bool-cases (is_blank line)) [
  | inl e ↦ rw (e, kind_of) tt
  | inr full ↦ elim (Option-cases (fence_of line)) [
    | inr (fence, e) ↦ rw (full, kind_of, e) tt
    | inl no_fence ↦ elim (Option-cases (heading_of line)) [
      | inr (heading, e) ↦ rw (full, kind_of, no_fence, e) tt
      | inl no_heading ↦ elim (Bool-cases (is_rule line)) [
        | inl e ↦ rw (full, kind_of, no_fence, no_heading, e) tt
        | inr no_rule ↦ elim (Option-cases (unquoted line)) [
          | inr (inner, e) ↦ rw (full, kind_of, no_fence, no_heading, no_rule, e) (inner, e)
          | inl no_quote ↦ elim (Bool-cases (is_table_start (line ∷ lines))) [
            | inl e ↦ rw (full, kind_of, no_fence, no_heading, no_rule, no_quote, e) tt
            | inr no_table ↦ elim (Option-cases (bullet_of line)) [
              | inl e ↦ rw (full, kind_of, no_fence, no_heading, no_rule, no_quote, no_table, e) tt
              | inr (bullet, e) ↦ elim (Bool-cases (leb (indent_width line) 3)) [
                | inl flat ↦
                    rw (full, kind_of, no_fence, no_heading, no_rule, no_quote, no_table, e, flat)
                      (bullet, e)
                | inr deep ↦
                    rw (full, kind_of, no_fence, no_heading, no_rule, no_quote, no_table, e, deep)
                      tt
              ]
            ]
          ]
        ]
      ]
    ]
  ]
]

-- The blocks are rendered.
Returns : {S : Type 0} → Option (List Str × Page S) → Type 0
Returns {S} result = (rendered : List Str × Page S) × (result ≡ some rendered)

Returns-some : {S : Type 0} (rendered : List Str × Page S) → Returns (some rendered)
unfolding Returns
Returns-some rendered = (rendered, refl)

Returns-rendered :
    {S : Type 0} (result : Option (List Str × Page S))
    → Returns result
    → (rendered : List Str × Page S) × (result ≡ some rendered)
unfolding Returns
Returns-rendered result returns = returns

before-Returns :
    {S : Type 0} (blocks : List Str) (result : Option (List Str × Page S))
    → Returns result
    → Returns (before blocks result)
unfolding Returns before
before-Returns blocks result ((rest, page), e) = ((blocks ++ rest, page), rw e refl)

-- One block, where the blocks behind it are rendered.
render_blocks-step :
    {S : Type 0} (inline : S → Str → Str × S) (fuel : ℕ) (line : Str) (lines para : List Str)
    (page : Page S) (kind : Kind)
    → kind_of line lines ≡ kind
    → Opens line kind
    → weight (line ∷ lines) ≤ suc fuel
    → ((behind next : List Str) (after : Page S)
        → weight behind ≤ fuel
        → Returns (render_blocks inline fuel behind next after))
    → Returns (render_blocks inline (suc fuel) (line ∷ lines) para page)
unfolding render_blocks weight Opens
render_blocks-step inline fuel line lines para page blank_kind e opens h next =
    rw (e, render_blocks) (before-Returns _ _ (next lines [] _ (omega arith)))
render_blocks-step inline fuel line lines para page (fence_kind fence) e opens h next =
    rw (e, render_blocks)
      (before-Returns _ _ (next _ [] _ (omega (arith, take_fence-weight fence lines))))
render_blocks-step inline fuel line lines para page (heading_kind heading) e opens h next =
    let (slug, found, fresh) = slug_of-fresh (flushed inline para page).1.used heading.title in
    rw (e, render_blocks, found) (before-Returns _ _ (next lines [] _ (omega arith)))
render_blocks-step inline fuel line lines para page rule_kind e opens h next =
    rw (e, render_blocks) (before-Returns _ _ (next lines [] _ (omega arith)))
render_blocks-step inline fuel line lines para page quote_kind e (inner, mark) h next =
    let (inside, behind) = take_quote-first line inner lines mark in
    let ((blocks, after), run) = Returns-rendered _ (
      next (split_lines (join_with newline (take_quote (line ∷ lines)).0)) []
        (flushed inline para page).1 (omega (arith, inside))) in
    rw (e, render_blocks, run) (before-Returns _ _ (next _ [] _ (omega (arith, behind))))
render_blocks-step inline fuel line lines para page table_kind e opens h next =
    rw (e, render_blocks)
      (before-Returns _ _
        (next _ [] _ (omega (arith, take_rows-weight (rest_of lines), rest_of-weight lines))))
render_blocks-step inline fuel line lines para page list_kind e (bullet, mark) h next =
    let (text, behind, after, run, w) =
      render_list-first inline line lines bullet (flushed inline para page).1.site mark in
    rw (e, render_blocks, run) (before-Returns _ _ (next behind [] _ (omega (arith, w))))
render_blocks-step inline fuel line lines para page text_kind e opens h next =
    rw (e, render_blocks) (next lines _ page (omega arith))

render_blocks-Returns :
    {S : Type 0} (inline : S → Str → Str × S) (fuel : ℕ) (lines para : List Str) (page : Page S)
    → weight lines ≤ fuel
    → Returns (render_blocks inline fuel lines para page)
unfolding weight render_blocks
render_blocks-Returns inline zero [] para page h = Returns-some (flushed inline para page)
render_blocks-Returns inline (suc fuel) [] para page h = Returns-some (flushed inline para page)
render_blocks-Returns inline zero (line ∷ lines) para page h = absurd (omega arith)
render_blocks-Returns inline (suc fuel) (line ∷ lines) para page h =
    render_blocks-step inline fuel line lines para page (kind_of line lines) refl
      (kind_of-Opens line lines) h (render_blocks-Returns inline fuel)

-- For an `inline` that returns, `render_markdown` returns on every text and every state of the page.
pub render_markdown-ends :
    {S : Type 0} (inline : S → Str → Str × S) (text : Str) (page : Page S)
    → (rendered : Str × Page S) × (render_markdown inline text page ≡ some rendered)
unfolding render_markdown Returns
render_markdown-ends inline text page =
    let lines = split_lines text in
    let ((blocks, after), run) =
      render_blocks-Returns inline (weight lines) lines [] page (omega arith) in
    ((join_with newline blocks, after), rw (run, render_markdown) refl)
