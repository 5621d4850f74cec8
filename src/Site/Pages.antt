-- ===== src/Site/Pages.antt =====
-- A document of alpha-one/scripts/build_docs_site.py with its links: `render_markdown` over
-- `render_inline` and `Site.rewrite`. An exception of `render_inline` ends the page, with the site and the text
-- on which it was raised.
pub mod Mirror
pub mod Ends
use alpha_one.Base.{Option, none, some, [], Str}
use alpha_one.Site.Inline.{render_inline}
use alpha_one.Site.Links.{Disk, Place, SiteState, rewrite}
use alpha_one.Site.Blocks.{render_markdown}

-- The site while a page is rendered, or where an exception was raised, and on which text.
pub data PageState : Type 0 where
  going : SiteState → PageState
  raised : SiteState → Str → PageState

-- `ctx.inline(text)`
unfoldable pub inline_or_raise :
    (SiteState → Str → Str × SiteState) → PageState → Str → Str × PageState
unfolding render_inline
inline_or_raise link (raised site at) text = ([], raised site at)
inline_or_raise link (going site) text = elim (render_inline link site text) [
  | none ↦ ([], raised site text)
  | some (html, after) ↦ (html, going after)
]

-- How the rendering of a page ends: `stuck` where `render_markdown` gives nothing.
pub data PageEnd : Type 0 where
  finished : Str → SiteState → PageEnd
  failed : SiteState → Str → PageEnd
  stuck : PageEnd

-- `render_markdown(text, ctx)` for a page with no slugs yet.
unfoldable pub page_end : Disk → Place → SiteState → Str → PageEnd
unfolding inline_or_raise render_markdown rewrite
page_end disk place site text =
    elim (render_markdown (inline_or_raise (rewrite disk place)) text
      (record { used = []; site = going site })) [
        | none ↦ stuck
        | some (html, page) ↦ elim page.site [
          | raised at t ↦ failed at t
          | going after ↦ finished html after
        ]
      ]

unfoldable pub render_page : Disk → Place → SiteState → Str → Option (Str × SiteState)
unfolding page_end
render_page disk place site text = elim (page_end disk place site text) [
  | finished html after ↦ some (html, after)
  | failed at t ↦ none
  | stuck ↦ none
]
