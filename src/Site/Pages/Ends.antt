-- ===== src/Site/Pages/Ends.antt =====
-- How the rendering of a document of alpha-one/scripts/build_docs_site.py ends, exceptions included.
use alpha_one.Base.{none, [], Str, ◌⊎◌, ◌≡◌, refl, subst, Option-cases, inl, inr}
use alpha_one.Site.Renders.{render_markdown-ends}
use alpha_one.Site.Blocks.{Page}
use alpha_one.Site.Inline.{render_inline}
use alpha_one.Site.Links.{Disk, Place, SiteState, rewrite}
use alpha_one.Site.Pages.{PageState, going, raised, inline_or_raise, finished, failed, page_end}
use alpha_one.Site.Pages.Mirror.{PageState-cases, render_markdown-keeps}

-- What was raised was raised by `render_inline`.
IsRaised : Disk → Place → PageState → Type 0
IsRaised disk place (raised site at) = render_inline (rewrite disk place) site at ≡ none
IsRaised disk place (going site) = Unit {0}

inline_or_raise-IsRaised :
    (disk : Disk) (place : Place) (state : PageState) (text : Str)
    → IsRaised disk place state
    → IsRaised disk place (inline_or_raise (rewrite disk place) state text).1
unfolding IsRaised inline_or_raise
inline_or_raise-IsRaised disk place (raised site at) text h = h
inline_or_raise-IsRaised disk place (going site) text h =
    elim (Option-cases (render_inline (rewrite disk place) site text)) [
      | inl e ↦ rw (e, inline_or_raise) e
      | inr ((html, after), e) ↦ rw (e, inline_or_raise) tt
    ]

-- Rendering a document ends, whatever its text: with its HTML, or with the exception of `render_inline` on the
-- site and the text that are reported, on which `render_inline` does raise. The loops over the blocks,
-- the quotes within them, the lists and the slugs all end, and none of them raises.
pub page_end_lem :
    (disk : Disk) (place : Place) (site : SiteState) (text : Str)
    → ((html : Str) × (after : SiteState) × (page_end disk place site text ≡ finished html after))
      ⊎ ((at_site : SiteState) × (at : Str) × (page_end disk place site text ≡ failed at_site at)
          × (render_inline (rewrite disk place) at_site at ≡ none))
unfolding page_end IsRaised
page_end_lem disk place site text =
    let link = inline_or_raise (rewrite disk place) in
    let start : Page PageState = record { used = []; site = going site } in
    let ((body, page), run) = render_markdown-ends link text start in
    let cause : IsRaised disk place page.site =
      render_markdown-keeps link (IsRaised disk place) (inline_or_raise-IsRaised disk place) text
        body start page tt run in
    elim (PageState-cases page.site) [
      | inl (at_site, at, e) ↦
          inr (at_site, at, rw (run, page_end, e) refl, subst (IsRaised disk place) e cause)
      | inr (last, e) ↦ inl (body, last, rw (run, page_end, e) refl)
    ]
