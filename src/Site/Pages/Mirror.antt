-- ===== src/Site/Pages/Mirror.antt =====
-- What holds of the site behind each text that alpha-one/scripts/build_docs_site.py renders, and so
-- behind a whole document.
use alpha_one.Base.{
  ℕ, zero, suc, Option, none, some, List, [], ◌∷◌, ◌++◌, Str, ◌≡◌, refl, ap, subst, Option-cases,
  inl, inr, ◌⊎◌, some-injective,
}
use alpha_one.Base.{join_with, newline}
use alpha_one.Site.Cells.{
  render_heads, render_cells, render_rows, render_table, rest_of, cell_or_empty,
}
use alpha_one.Site.Items.{Item}
use alpha_one.Site.Items.Rendered.{rendered}
use alpha_one.Site.Items.Nested.{render_list-IsNested}
use alpha_one.Site.Slugs.{slug_of}
use alpha_one.Site.Renders.{Opens, kind_of-Opens}
use alpha_one.Site.Blocks.{
  Kind, blank_kind, fence_kind, heading_kind, rule_kind, quote_kind, table_kind, list_kind,
  text_kind, kind_of, Page, before, flushed, render_blocks, render_markdown, weight, split_lines,
  take_quote,
}
use alpha_one.Site.Inline.{render_inline}
use alpha_one.Site.Links.{Disk, Place, SiteState, rewrite}
use alpha_one.Site.Links.Mirror.{IsMirror, render_inline-IsMirror}
use alpha_one.Site.Pages.{PageState, going, raised, inline_or_raise, page_end, render_page}

module _ {S : Type 0} (inline : S → Str → Str × S) (P : S → Type 0)
    (kept : (s : S) (text : Str) → P s → P (inline s text).1) where
  heads-keeps : (header aligns : List Str) (s : S) → P s → P (render_heads inline header aligns s).1
  unfolding render_heads
  heads-keeps [] aligns s h = h
  heads-keeps (cell ∷ header) aligns s h = heads-keeps header (rest_of aligns) _ (kept s cell h)

  cells-keeps :
      (header aligns row : List Str) (s : S) → P s → P (render_cells inline header aligns row s).1
  unfolding render_cells
  cells-keeps [] aligns row s h = h
  cells-keeps (head ∷ header) aligns row s h =
      cells-keeps header (rest_of aligns) (rest_of row) _ (kept s (cell_or_empty row) h)

  rows-keeps :
      (header aligns : List Str) (rows : List (List Str)) (s : S)
      → P s
      → P (render_rows inline header aligns rows s).1
  unfolding render_rows
  rows-keeps header aligns [] s h = h
  rows-keeps header aligns (row ∷ rows) s h =
      rows-keeps header aligns rows _ (cells-keeps header aligns row s h)

  table-keeps :
      (header aligns : List Str) (rows : List (List Str)) (s : S)
      → P s
      → P (render_table inline header aligns rows s).1
  unfolding render_table
  table-keeps header aligns rows s h =
      rows-keeps header aligns rows _ (heads-keeps header aligns s h)

  items-keeps : (items : List Item) (s : S) → P s → P (rendered inline items s).1
  unfolding rendered
  items-keeps [] s h = h
  items-keeps (item ∷ items) s h = items-keeps items _ (kept s item.text h)

  flushed-keeps :
      (para : List Str) (page : Page S) → P page.site → P (flushed inline para page).1.site
  unfolding flushed
  flushed-keeps [] page h = h
  flushed-keeps (line ∷ lines) page h = kept page.site (join_with (32 ∷ []) (line ∷ lines)) h

  -- What a page holds behind its blocks, where they are rendered.
  Keeps : Option (List Str × Page S) → Type 0
  Keeps result = (blocks : List Str) (after : Page S) → result ≡ some (blocks, after) → P after.site

  none-Keeps : Keeps none
  unfolding Keeps
  none-Keeps blocks after e = cc

  Keeps-site :
      (result : Option (List Str × Page S)) (blocks : List Str) (after : Page S)
      → Keeps result
      → result ≡ some (blocks, after)
      → P after.site
  unfolding Keeps
  Keeps-site result blocks after h e = h blocks after e

  some-Keeps : (blocks : List Str) (page : Page S) → P page.site → Keeps (some (blocks, page))
  unfolding Keeps
  some-Keeps blocks page h more after e =
      subst (λ p. P p.site) (ap (λ r. r.1) (some-injective _ _ e)) h

  before-Keeps :
      (blocks : List Str) (result : Option (List Str × Page S))
      → Keeps result
      → Keeps (before blocks result)
  unfolding before
  before-Keeps blocks none h = none-Keeps
  before-Keeps blocks (some (more, page)) h =
      some-Keeps (blocks ++ more) page (Keeps-site _ more page h refl)

  render_blocks-step :
      (fuel : ℕ) (line : Str) (lines para : List Str) (page : Page S) (kind : Kind)
      → kind_of line lines ≡ kind
      → Opens line kind
      → P page.site
      → ((behind next : List Str) (after : Page S)
          → P after.site
          → Keeps (render_blocks inline fuel behind next after))
      → Keeps (render_blocks inline (suc fuel) (line ∷ lines) para page)
  unfolding render_blocks Opens
  render_blocks-step fuel line lines para page blank_kind e opens h next =
      rw (e, render_blocks) (before-Keeps _ _ (next lines [] _ (flushed-keeps para page h)))
  render_blocks-step fuel line lines para page (fence_kind fence) e opens h next =
      rw (e, render_blocks) (before-Keeps _ _ (next _ [] _ (flushed-keeps para page h)))
  render_blocks-step fuel line lines para page (heading_kind heading) e opens h next =
      let p = (flushed inline para page).1 in
      elim (Option-cases (slug_of p.used heading.title)) [
        | inl absent ↦ rw (e, render_blocks, absent) none-Keeps
        | inr (found, slug) ↦
            rw (e, render_blocks, slug)
              (before-Keeps _ _
                (next lines [] _ (kept p.site heading.title (flushed-keeps para page h))))
      ]
  render_blocks-step fuel line lines para page rule_kind e opens h next =
      rw (e, render_blocks) (before-Keeps _ _ (next lines [] _ (flushed-keeps para page h)))
  render_blocks-step fuel line lines para page quote_kind e opens h next =
      let p = (flushed inline para page).1 in
      let inside = split_lines (join_with newline (take_quote (line ∷ lines)).0) in
      elim (Option-cases (render_blocks inline fuel inside [] p)) [
        | inl absent ↦ rw (e, render_blocks, absent) none-Keeps
        | inr ((blocks, after), run) ↦
            rw (e, render_blocks, run)
              (before-Keeps _ _ (
                next _ [] _
                  (Keeps-site _ blocks after (next inside [] p (flushed-keeps para page h)) run)))
      ]
  render_blocks-step fuel line lines para page table_kind e opens h next =
      rw (e, render_blocks)
        (before-Keeps _ _ (next _ [] _ (table-keeps _ _ _ _ (flushed-keeps para page h))))
  render_blocks-step fuel line lines para page list_kind e (bullet, mark) h next =
      let p = (flushed inline para page).1 in
      let (items, behind, pieces, found, run, texts, nested) =
        render_list-IsNested inline line lines bullet p.site mark in
      rw (e, render_blocks, run)
        (before-Keeps _ _ (next behind [] _ (items-keeps items p.site (flushed-keeps para page h))))
  render_blocks-step fuel line lines para page text_kind e opens h next =
      rw (e, render_blocks) (next lines _ page h)

  render_blocks-Keeps :
      (fuel : ℕ) (lines para : List Str) (page : Page S)
      → P page.site
      → Keeps (render_blocks inline fuel lines para page)
  unfolding render_blocks
  render_blocks-Keeps zero [] para page h = some-Keeps _ _ (flushed-keeps para page h)
  render_blocks-Keeps (suc fuel) [] para page h = some-Keeps _ _ (flushed-keeps para page h)
  render_blocks-Keeps zero (line ∷ lines) para page h = none-Keeps
  render_blocks-Keeps (suc fuel) (line ∷ lines) para page h =
      render_blocks-step fuel line lines para page (kind_of line lines) refl
        (kind_of-Opens line lines) h (render_blocks-Keeps fuel)

  pub render_markdown-keeps :
      (text html : Str) (page after : Page S)
      → P page.site
      → render_markdown inline text page ≡ some (html, after)
      → P after.site
  unfolding render_markdown
  render_markdown-keeps text html page after h e =
      let lines = split_lines text in
      elim (Option-cases (render_blocks inline (weight lines) lines [] page)) [
        | inl absent ↦ cc (rw (absent, render_markdown) at e)
        | inr ((blocks, last), run) ↦
            subst (λ p. P p.site)
              (ap (λ r. r.1) (some-injective _ _ (rw (run, render_markdown) at e)))
              (Keeps-site _ blocks last (render_blocks-Keeps (weight lines) lines [] page h) run)
      ]

-- What holds of the site of a page on which nothing was raised.
Sound : Disk → PageState → Type 0
Sound disk (raised site at) = Unit {0}
Sound disk (going site) = IsMirror disk site

inline_or_raise-Sound :
    (disk : Disk) (place : Place) (state : PageState) (text : Str)
    → Sound disk state
    → Sound disk (inline_or_raise (rewrite disk place) state text).1
unfolding Sound inline_or_raise
inline_or_raise-Sound disk place (raised site at) text h = tt
inline_or_raise-Sound disk place (going site) text h =
    elim (Option-cases (render_inline (rewrite disk place) site text)) [
      | inl e ↦ rw (e, inline_or_raise) tt
      | inr ((html, after), e) ↦
          rw (e, inline_or_raise) (render_inline-IsMirror disk place site after text html h e)
    ]

pub PageState-cases :
    (state : PageState)
    → ((site : SiteState) × (at : Str) × (state ≡ raised site at))
      ⊎ ((site : SiteState) × (state ≡ going site))
PageState-cases (raised site at) = inl (site, at, refl)
PageState-cases (going site) = inr (site, refl)

-- A page that is rendered, from a site whose files to mirror are there, are no documents and lie in the
-- repository at the places they are mirrored to, and whose directories to list are directories of the
-- repository without a rendered readme, leaves a site of which this holds.
pub render_page-IsMirror :
    (disk : Disk) (place : Place) (site after : SiteState) (text html : Str)
    → IsMirror disk site
    → render_page disk place site text ≡ some (html, after)
    → IsMirror disk after
unfolding render_page page_end Sound
render_page-IsMirror disk place site after text html m h =
    let link = inline_or_raise (rewrite disk place) in
    let start : Page PageState = record { used = []; site = going site } in
    elim (Option-cases (render_markdown link text start)) [
      | inl e ↦ cc (rw (e, render_page, page_end) at h)
      | inr ((body, page), run) ↦
          let sound : Sound disk page.site =
            render_markdown-keeps link (Sound disk) (inline_or_raise-Sound disk place) text body
              start page m run in
          elim (PageState-cases page.site) [
            | inl (at_site, at, e) ↦ cc (rw (run, render_page, page_end, e) at h)
            | inr (last, e) ↦
                subst (IsMirror disk)
                  (ap (λ r. r.1) (some-injective _ _ (rw (run, render_page, page_end, e) at h)))
                  (subst (Sound disk) e sound)
          ]
    ]
