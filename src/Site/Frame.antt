-- ===== src/Site/Frame.antt =====
-- The page around a rendered text in alpha-one/scripts/build_docs_site.py: the sidebar, the table of
-- contents, the pager, the listing of a directory. Documents are told apart by their sources.
use alpha_one.Base.{
  ℕ, suc, ◌&&◌, ◌||◌, Bool, Option, none, some, List, [], ◌∷◌, ◌++◌, map, length, Str, mem, str_eq,
  if◌then◌else◌,
}
use alpha_one.Base.{codes, ltb, ◌==◌, concat, lookup, put, sort_by, str_lt, str_of, strip}
use alpha_one.Markers.Search.{strip_prefix}
use alpha_one.Site.Contents.{escape, toc}
use alpha_one.Site.Links.{SiteState}
use alpha_one.Site.Docs.{DocSpec}

-- `GROUP_ORDER`
abbrev pub group_order : List Str
group_order =
    codes "Overview"
    ∷ codes "Start here"
    ∷ codes "D1 "
    ∷ codes "D2 "
    ∷ codes "D3 "
    ∷ codes "D4 "
    ∷ codes "D5 "
    ∷ codes "Cross-cutting"
    ∷ codes "PRD registers"
    ∷ codes "Design decisions"
    ∷ codes "Development plan"
    ∷ codes "Contracts"
    ∷ codes "Contracts · API"
    ∷ []

unfoldable pub rank_from : ℕ → List Str → Str → ℕ
rank_from i [] name = i
rank_from i (prefix ∷ order) name =
    let later = rank_from (suc i) order name in
    elim (strip_prefix (strip prefix) name) [
      | some rest ↦ i
      | none ↦ if str_eq name prefix then i else later
    ]

-- `_group_rank(name)`, its number, and the order of the pairs.
unfoldable pub group_rank : Str → ℕ
unfolding rank_from
group_rank name = rank_from 0 group_order name

unfoldable pub group_before : Str → Str → Bool
unfolding group_rank
group_before a b = ltb (group_rank a) (group_rank b) || group_rank a == group_rank b && str_lt a b

-- `groups.setdefault(d.group, []).append(d)`
unfoldable pub group_docs : List DocSpec → List (Str × List DocSpec) → List (Str × List DocSpec)
group_docs [] groups = groups
group_docs (d ∷ docs) groups = elim (lookup d.group groups) [
  | none ↦ group_docs docs (put d.group (d ∷ []) groups)
  | some items ↦ group_docs docs (put d.group (items ++ d ∷ []) groups)
]

-- `href d e` is `rel_url(Path(d.site_path).parent, e.site_path)`.
module _ (href : Str → Str → Str) where
  unfoldable pub nav_link : DocSpec → DocSpec → Str
  unfolding escape
  nav_link doc d = concat (
      codes "<a href=\""
      ∷ href doc.site_path d.site_path
      ∷ codes "\""
      ∷ (if str_eq d.src doc.src then codes " class=\"active\" aria-current=\"page\"" else [])
      ∷ codes ">"
      ∷ escape d.title
      ∷ codes "</a>"
      ∷ [])

  unfoldable pub nav_group : DocSpec → Str × List DocSpec → Str
  unfolding nav_link
  nav_group doc (group, items) = concat (
      codes "<div class=\"nav-group\"><div class=\"nav-group-title\">"
      ∷ escape group
      ∷ codes " <span class=\"count\">"
      ∷ str_of (length items)
      ∷ codes "</span></div>"
      ∷ concat (map (nav_link doc) items)
      ∷ codes "</div>"
      ∷ [])

  -- `_sidebar(doc, docs)`
  unfoldable pub sidebar : DocSpec → List DocSpec → Str
  unfolding group_docs group_before nav_group
  sidebar doc docs =
      let ordered = sort_by (λ (a : DocSpec) (b : DocSpec). str_lt a.group b.group) docs in
      let groups =
        sort_by (λ (g : Str × List DocSpec) (h : Str × List DocSpec). group_before g.0 h.0)
          (group_docs ordered []) in
      codes
        "<div class=\"nav-search\"><input id=\"nav-filter\" type=\"search\" placeholder=\"Filter docs…\" aria-label=\"Filter documentation\"></div>"
      ++ concat (map (nav_group doc) groups)

  -- The documents before and behind one.
  unfoldable pub neighbours :
      Str → Option DocSpec → List DocSpec → Option (Option DocSpec × Option DocSpec)
  neighbours src prev [] = none
  neighbours src prev (d ∷ docs) =
      let later = neighbours src (some d) docs in
      if str_eq d.src src
      then some (prev, elim docs [ [] ↦ none | next ∷ more ↦ some next ])
      else later

  unfoldable pub slot : DocSpec → Str → Option DocSpec → Str → Str
  unfolding escape
  slot doc label none cls = concat (codes "<div class=\"slot " ∷ cls ∷ codes "\"></div>" ∷ [])
  slot doc label (some d) cls = concat (
      codes "<a class=\""
      ∷ cls
      ∷ codes "\" href=\""
      ∷ href doc.site_path d.site_path
      ∷ codes "\"><span class=\"dir\">"
      ∷ label
      ∷ codes "</span><span class=\"label\">"
      ∷ escape d.title
      ∷ codes "</span></a>"
      ∷ [])

  unfoldable pub pager_of : DocSpec → Option DocSpec → Option DocSpec → Str
  unfolding slot
  pager_of doc none none = []
  pager_of doc (some d) next = concat (
      codes "<nav class=\"pager\" aria-label=\"Adjacent pages\">"
      ∷ slot doc (codes "← Previous") (some d) (codes "prev")
      ∷ slot doc (codes "Next →") next (codes "next")
      ∷ codes "</nav>"
      ∷ [])
  pager_of doc none (some d) = concat (
      codes "<nav class=\"pager\" aria-label=\"Adjacent pages\">"
      ∷ slot doc (codes "← Previous") none (codes "prev")
      ∷ slot doc (codes "Next →") (some d) (codes "next")
      ∷ codes "</nav>"
      ∷ [])

  -- `_pager(doc, docs)`
  unfoldable pub pager : DocSpec → List DocSpec → Str
  unfolding neighbours pager_of
  pager doc docs = elim (neighbours doc.src none docs) [
    | none ↦ []
    | some (prev, next) ↦ pager_of doc prev next
  ]

-- The constants CSS and JS, and `html.unescape`.
pub record Assets : Type 0 where
  pub css : Str
  pub script : Str
  pub unescape : Str → Str

unfoldable pub footer_of : Bool → Str → Str
unfolding escape
footer_of dir_index src_rel =
    if dir_index
    then concat (
        codes "Auto-generated directory index for <code>"
        ∷ escape src_rel
        ∷ codes "/</code> by <code>scripts/build_docs_site.py</code>."
        ∷ [])
    else concat (
        codes "Rendered from <code>"
        ∷ escape src_rel
        ∷ codes
            "</code> by <code>scripts/build_docs_site.py</code>. Regenerate with <code>python3 scripts/build_docs_site.py</code>."
        ∷ [])

-- `page_html(doc, body, docs, site, dir_index)`
unfoldable pub page_html : (Str → Str → Str) → Assets → DocSpec → Str → List DocSpec → Bool → Str
unfolding escape footer_of sidebar toc pager
page_html href assets doc body docs dir_index =
    let title = escape doc.title in
    concat (
      codes
        "<!doctype html>\n<html lang=\"en\">\n<head>\n<meta charset=\"utf-8\">\n<meta name=\"viewport\" content=\"width=device-width, initial-scale=1\">\n<meta name=\"generator\" content=\"alpha-one scripts/build_docs_site.py\">\n<title>"
      ∷ title
      ∷ codes " · Alpha One Docs</title>\n<style>"
      ∷ assets.css
      ∷ codes
          "</style>\n</head>\n<body>\n<a class=\"skip\" href=\"#content\">Skip to content</a>\n<header class=\"topbar\">\n  <button id=\"nav-toggle\" aria-label=\"Toggle navigation\" aria-expanded=\"false\">☰</button>\n  <a class=\"brand\" href=\""
      ∷ href doc.site_path (codes "index.html")
      ∷ codes "\">Alpha One <span>Docs</span></a>\n  <span class=\"crumb\">"
      ∷ escape doc.group
      ∷ codes " &rsaquo; "
      ∷ title
      ∷ codes
          "</span>\n</header>\n<div id=\"scrim\" aria-hidden=\"true\"></div>\n<nav id=\"sidebar\" aria-label=\"Documentation\">"
      ∷ sidebar href doc docs
      ∷ codes "</nav>\n<main id=\"content\">\n<article>\n"
      ∷ toc assets.unescape body
      ∷ codes "\n"
      ∷ body
      ∷ codes "\n</article>\n"
      ∷ pager href doc docs
      ∷ codes "\n<footer class=\"page-footer\">\n  "
      ∷ footer_of dir_index doc.src
      ∷ codes "\n</footer>\n</main>\n<script>"
      ∷ assets.script
      ∷ codes "</script>\n</body>\n</html>\n"
      ∷ [])

-- A file or directory in a directory: its name, and its resolved path.
pub record Entry : Type 0 where
  pub name : Str
  pub path : Str

unfoldable pub dir_item : List Str → Entry → Str
unfolding escape
dir_item dirs s =
    if mem s.path dirs
    then concat (
        codes "<li class=\"dir\"><a href=\""
        ∷ escape s.name
        ∷ codes "/\">"
        ∷ escape s.name
        ∷ codes "/</a></li>"
        ∷ [])
    else concat (codes "<li class=\"dir\"><code>" ∷ escape s.name ∷ codes "/</code></li>" ∷ [])

unfoldable pub file_link : Str → Str → Str
unfolding escape
file_link url name =
    concat (codes "<li><a href=\"" ∷ url ∷ codes "\">" ∷ escape name ∷ codes "</a></li>" ∷ [])

-- `from_dir target` is `rel_url(rel, target)`.
unfoldable pub file_item : (Str → Str) → SiteState → Entry → Str
unfolding file_link escape
file_item from_dir site f = elim (lookup f.path site.md_map) [
  | some page ↦ file_link (from_dir page) f.name
  | none ↦ elim (lookup f.path site.asset_map) [
    | some asset ↦ file_link (from_dir asset) f.name
    | none ↦ concat (codes "<li class=\"plain\"><code>" ∷ escape f.name ∷ codes "</code></li>" ∷ [])
  ]
]

-- `_dir_index_body(site, d, rel, all_dirs)`, with the directories and files of `d` in order, none where
-- `iterdir` raises.
unfoldable pub dir_index_body :
    (Str → Str) → SiteState → Str → List Str → List Entry → List Entry → Str
unfolding escape dir_item file_item
dir_index_body from_dir site rel dirs subs files =
    let items = map (dir_item dirs) subs ++ map (file_item from_dir site) files in
    concat (
      codes "<h1>"
      ∷ escape rel
      ∷ codes
          "</h1><p class=\"dir-note\">Auto-generated directory listing &mdash; the source directory has no rendered index document. Files without a link are not part of the rendered documentation set.</p><ul class=\"dirlist\">"
      ∷ (elim items as (λ x. Str) [ [] ↦ codes "<li>(empty)</li>" | i ∷ is ↦ concat (i ∷ is) ])
      ∷ codes "</ul>"
      ∷ [])
