-- ===== src/Site/Contents.antt =====
-- What alpha-one/scripts/build_docs_site.py reads off a rendered text: the table of contents, and the
-- text without its first heading.
use alpha_one.Base.{
  ℕ, zero, suc, ◌-◌, ◌&&◌, ◌||◌, not, Bool, true, false, Option, none, some, List, [], ◌∷◌, ◌++◌,
  length, Str, if◌then◌else◌, any,
}
use alpha_one.Base.{codes, ltb, ◌==◌, ◌>>=◌, concat, strip, lstrip}
use alpha_one.Tables.{span}
use alpha_one.Markers.Search.{strip_prefix, split_first}
use alpha_one.Site.Patterns.{escape_html}

-- `html.escape(s, quote=True)`
unfoldable pub escape : Str → Str
unfolding escape_html
escape s = escape_html true s

-- `re.sub(r"<[^>]+>", "", text)`; the test says whether a tag is open.
unfoldable pub strip_tags : Bool → Str → Str
strip_tags inside [] = []
strip_tags true (c ∷ s) = if c == 62 then strip_tags false s else strip_tags true s
strip_tags false (c ∷ s) =
    let kept = c ∷ strip_tags false s in
    let dropped = strip_tags true s in
    if c == 60
    then elim s [
      | [] ↦ kept
      | d ∷ rest ↦ if not (d == 62) && any (λ e. e == 62) rest then dropped else kept
    ]
    else kept

-- A heading with an anchor: its level, the anchor, its text, and what follows.
unfoldable pub match_heading : Str → Option ((ℕ × Str × Str) × Str)
match_heading s = do
  tag ← strip_prefix (codes "<h") s
  elim tag [
    | [] ↦ none
    | level ∷ more ↦
        if level == 50 || level == 51
        then (do
          rest ← strip_prefix (codes " id=\"") more
          let (anchor, a) = span (λ c. not (c == 34)) rest
          let (attributes, b) = span (λ c. not (c == 62)) a
          elim anchor [
            | [] ↦ none
            | x ∷ xs ↦ elim b [
              | [] ↦ none
              | mark ∷ inner ↦ do
                found ← split_first (codes "</h" ++ level ∷ codes ">") inner
                some ((level, x ∷ xs, found.0), found.1)
            ]
          ])
        else none
  ]

-- `re.finditer(...)`; the number counts what an earlier match has taken.
unfoldable pub find_headings : Str → ℕ → List (ℕ × Str × Str)
unfolding match_heading
find_headings [] taken = []
find_headings (c ∷ s) (suc taken) = find_headings s taken
find_headings (c ∷ s) zero = elim (match_heading (c ∷ s)) [
  | none ↦ find_headings s zero
  | some (heading, after) ↦ heading ∷ find_headings s (length s - length after)
]

unfoldable pub toc_items : (Str → Str) → List (ℕ × Str × Str) → List Str
unfolding escape strip_tags
toc_items unescape [] = []
toc_items unescape ((level, anchor, inner) ∷ headings) =
    let rest = toc_items unescape headings in
    elim (strip (unescape (strip_tags false inner))) [
      | [] ↦ rest
      | c ∷ s ↦
          concat (
            codes "<li class=\""
            ∷ (if level == 51 then codes "toc-h3" else codes "toc-h2")
            ∷ codes "\"><a href=\"#"
            ∷ escape anchor
            ∷ codes "\">"
            ∷ escape (c ∷ s)
            ∷ codes "</a></li>"
            ∷ [])
          ∷ rest
    ]

-- `_toc(body)`
unfoldable pub toc : (Str → Str) → Str → Str
unfolding find_headings toc_items
toc unescape body =
    let items = toc_items unescape (find_headings body 0) in
    if ltb (length items) 3
    then []
    else concat (
        codes "<details id=\"toc\" open><summary>On this page</summary><ul>"
        ∷ concat items
        ∷ codes "</ul></details>"
        ∷ [])

-- `_strip_first_h1(body)`
unfoldable pub strip_first_h1 : Str → Str
strip_first_h1 body =
    elim (do
      tag ← strip_prefix (codes "<h1") (lstrip body)
      split_first (codes "</h1>") (span (λ c. not (c == 62)) tag).1)
      as (λ x. Str) [ none ↦ body | some (inner, rest) ↦ lstrip rest ]
