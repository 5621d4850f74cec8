-- ===== src/Site/Checked.antt =====
-- `verify_links` of alpha-one/scripts/build_docs_site.py: the links of the written pages.
use alpha_one.Base.{
  ℕ, zero, suc, ◌-◌, ◌||◌, not, Bool, false, Option, none, some, List, [], ◌∷◌, ◌++◌, length, Str,
  if◌then◌else◌,
}
use alpha_one.Base.{codes, ◌==◌, ◌>>=◌}
use alpha_one.Tables.{span}
use alpha_one.Markers.Search.{strip_prefix}
use alpha_one.Site.Links.{has_scheme}

-- `href="([^"]+)"` at the start of a text: the group, and what follows.
unfoldable pub match_href : Str → Option (Str × Str)
match_href s = do
  rest ← strip_prefix (codes "href=\"") s
  let (url, after) = span (λ c. not (c == 34)) rest
  elim url [ [] ↦ none | u ∷ us ↦ elim after [ [] ↦ none | mark ∷ more ↦ some (u ∷ us, more) ] ]

-- `[^>]*` is greedy: the last place that still matches.
unfoldable pub last_href : Str → Option (Str × Str)
unfolding match_href
last_href [] = none
last_href (c ∷ s) =
    let later = last_href s in
    elim (if c == 62 then none else later) [ some found ↦ some found | none ↦ match_href (c ∷ s) ]

-- `HREF_RE` at the start of a text.
unfoldable pub match_link : Str → Option (Str × Str)
unfolding last_href
match_link s = do rest ← strip_prefix (codes "<a ") s; last_href rest

-- `HREF_RE.finditer(text)`: the groups; the number counts what an earlier match has taken.
unfoldable pub find_hrefs : Str → ℕ → List Str
unfolding match_link
find_hrefs [] taken = []
find_hrefs (c ∷ s) (suc taken) = find_hrefs s taken
find_hrefs (c ∷ s) zero = elim (match_link (c ∷ s)) [
  | none ↦ find_hrefs s zero
  | some (url, after) ↦ url ∷ find_hrefs s (length s - length after)
]

-- `url.partition("#")[0]`
unfoldable pub path_part : Str → Str
path_part url = (span (λ c. not (c == 35)) url).0

-- `exists path` is `(f.parent / path).resolve().exists()`. The test on one link.
unfoldable pub is_broken : (Str → Bool) → Str → Bool
unfolding has_scheme path_part
is_broken exists url = elim url [
  | [] ↦ false
  | c ∷ s ↦
      if has_scheme (c ∷ s) || c == 35
      then false
      else elim (path_part (c ∷ s)) [ [] ↦ false | d ∷ path ↦ not (exists (d ∷ path)) ]
]

-- The inner loop.
unfoldable pub broken_in : (Str → Str) → (Str → Bool) → Str → List Str → List (Str × Str)
unfolding is_broken
broken_in unescape exists page [] = []
broken_in unescape exists page (raw ∷ urls) =
    let rest = broken_in unescape exists page urls in
    if is_broken exists (unescape raw) then (page, unescape raw) ∷ rest else rest

-- `verify_links(out)` for the pages in order, each with its text.
unfoldable pub verify_links : (Str → Str) → (Str → Str → Bool) → List (Str × Str) → List (Str × Str)
unfolding find_hrefs broken_in
verify_links unescape exists [] = []
verify_links unescape exists ((page, text) ∷ pages) =
    broken_in unescape (exists page) page (find_hrefs text 0) ++ verify_links unescape exists pages
