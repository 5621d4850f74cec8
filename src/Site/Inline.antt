-- ===== src/Site/Inline.antt =====
-- `render_inline` of alpha-one/scripts/build_docs_site.py: the marks inside a text.
pub mod Lacks
pub mod Plain
use alpha_one.Base.{
  ℕ, zero, suc, ◌-◌, ◌&&◌, ◌||◌, not, Bool, true, false, Option, none, some, List, [], ◌∷◌, ◌++◌,
  length, Str, if◌then◌else◌, any,
}
use alpha_one.Base.{get_elem?, codes, ◌==◌, ◌>>=◌, is_space, concat, str_of, number_of, is_digit}
use alpha_one.Tables.{span, after_char}
use alpha_one.Site.Patterns.{run_of, escape_html}

-- `re.sub` with a function that reads and changes a state, for a pattern that is matched from a text
-- on, and that matches no empty text; the number counts the characters of the last match that are left
-- to pass.
unfoldable pub substitute :
    {A S : Type 0} → (Str → Option (A × Str)) → (S → A → Str × S) → ℕ → S → Str → Str × S
substitute match_at replace inside s [] = ([], s)
substitute match_at replace (suc inside) s (c ∷ text) = substitute match_at replace inside s text
substitute match_at replace zero s (c ∷ text) = elim (match_at (c ∷ text)) [
  | none ↦ let (rest, after) = substitute match_at replace 0 s text in (c ∷ rest, after)
  | some (found, behind) ↦
      let (new, s1) = replace s found in
      let (rest, after) = substitute match_at replace (length text - length behind) s1 text in
      (new ++ rest, after)
]

-- `[\\`*_{}\[\]()#+\-.!~|<>]`
unfoldable pub is_escapable : ℕ → Bool
is_escapable c = any (λ d. c == d) (codes "\\`*_{}[]()#+-.!~|<>")

-- `BSLASH_RE`
unfoldable pub match_escape : Str → Option (Str × Str)
unfolding is_escapable
match_escape [] = none
match_escape (c ∷ []) = none
match_escape (c ∷ d ∷ text) = if c == 92 && is_escapable d then some (d ∷ [], text) else none

-- The text behind a run of `count` of one character.
unfoldable pub behind_marks : ℕ → ℕ → Str → Option Str
behind_marks zero d text = some text
behind_marks (suc count) d [] = none
behind_marks (suc count) d (c ∷ text) = if c == d then behind_marks count d text else none

-- `(.+?)\1` for a group of `count` backticks
unfoldable pub match_body : ℕ → Str → Option (Str × Str)
unfolding behind_marks
match_body count [] = none
match_body count (c ∷ text) = elim (behind_marks count 96 text) [
  | some behind ↦ some (c ∷ [], behind)
  | none ↦ do found ← match_body count text; some (c ∷ found.0, found.1)
]

-- The group takes as many backticks as it can.
unfoldable pub match_ticks : ℕ → Str → Option (Str × Str)
unfolding match_body behind_marks
match_ticks zero text = none
match_ticks (suc count) text = elim (behind_marks (suc count) 96 text >>= match_body (suc count)) [
  | some found ↦ some found
  | none ↦ match_ticks count text
]

-- `CODE_RE`
unfoldable pub match_code : Str → Option (Str × Str)
unfolding match_ticks run_of
match_code text = match_ticks (run_of 96 text).0 text

-- `(?:\s+\"[^\"]*\")?\s*\)`; a target takes all up to white space or `)`, so that no quote mark follows
-- it at once.
unfoldable pub match_title : Str → Option Str
match_title text = elim (span is_space text).1 [
  | [] ↦ none
  | c ∷ s ↦
      if c == 34
      then (do
        behind ← after_char 34 (span (λ d. not (d == 34)) s).1
        after_char 41 (span is_space behind).1)
      else after_char 41 (c ∷ s)
]

-- `\(\s*([^)\s]+)(?:\s+\"[^\"]*\")?\s*\)`
unfoldable pub match_target : Str → Option (Str × Str)
unfolding match_title
match_target text = do
  a ← after_char 40 text
  let (target, b) = span (λ c. not (c == 41 || is_space c)) (span is_space a).1
  rest ← match_title b
  elim target [ [] ↦ none | c ∷ s ↦ some (c ∷ s, rest) ]

-- `IMG_RE`: the text and the target.
unfoldable pub match_image : Str → Option ((Str × Str) × Str)
unfolding match_target
match_image text = do
  a ← after_char 33 text
  b ← after_char 91 a
  let (alt, c) = span (λ d. not (d == 93)) b
  d ← after_char 93 c
  found ← match_target d
  some ((alt, found.0), found.1)

-- `LINK_RE`
unfoldable pub match_anchor : Str → Option ((Str × Str) × Str)
unfolding match_target
match_anchor text = do
  a ← after_char 91 text
  let (label, b) = span (λ c. not (c == 93)) a
  c ← after_char 93 b
  found ← match_target c
  elim label [ [] ↦ none | l ∷ ls ↦ some ((l ∷ ls, found.0), found.1) ]

-- `\*\*([^*]+)\*\*`, `\*([^*\n]+)\*` and `~~([^~\n]+)~~`: `count` marks `d` on each side; the test says
-- whether a line feed ends the text.
unfoldable pub match_marked : ℕ → ℕ → Bool → Str → Option (Str × Str)
unfolding behind_marks
match_marked count d one_line text = do
  a ← behind_marks count d text
  let (body, b) = span (λ c. not (c == d || one_line && c == 10)) a
  rest ← behind_marks count d b
  elim body [ [] ↦ none | c ∷ s ↦ some (c ∷ s, rest) ]

-- What `stash` keeps: whether it is code, and the text.
abbrev Stash : Type 0
Stash = List (Bool × Str)

-- `stash(kind, value)`
unfoldable pub stash : Bool → Stash → Str → Str × Stash
stash is_code stashed value =
    (concat ((0 ∷ []) ∷ str_of (length stashed) ∷ (0 ∷ []) ∷ []), stashed ++ (is_code, value) ∷ [])

-- `\x00(\d+)\x00`
unfoldable pub match_stash : Str → Option (Str × Str)
match_stash text = do
  a ← after_char 0 text
  let (digits, b) = span is_digit a
  rest ← after_char 0 b
  elim digits [ [] ↦ none | c ∷ s ↦ some (c ∷ s, rest) ]

-- `restore(m)`; `none`: the index is out of range.
unfoldable pub restored : Stash → Str → Option Str
restored stashed digits = do
  entry ← get_elem? stashed (number_of 0 digits)
  let text = escape_html true entry.1
  some (if entry.0 then concat (codes "<code>" ∷ text ∷ codes "</code>" ∷ []) else text)

unfoldable pub restore_all : ℕ → Stash → Str → Option Str
unfolding match_stash restored
restore_all inside stashed [] = some []
restore_all (suc inside) stashed (c ∷ text) = restore_all inside stashed text
restore_all zero stashed (c ∷ text) = elim (match_stash (c ∷ text)) [
  | none ↦ do rest ← restore_all 0 stashed text; some (c ∷ rest)
  | some (digits, behind) ↦ do
    new ← restored stashed digits
    rest ← restore_all (length text - length behind) stashed text
    some (new ++ rest)
]

-- The text between two tags.
unfoldable pub tagged : Str → Unit {0} → Str → Str × Unit {0}
tagged tag u body =
    (concat (codes "<" ∷ tag ∷ codes ">" ∷ body ∷ codes "</" ∷ tag ∷ codes ">" ∷ []), u)

unfoldable pub emphasis : Str → Str
unfolding substitute match_marked tagged
emphasis text =
    let bold = (substitute (match_marked 2 42 false) (tagged (codes "strong")) 0 tt text).0 in
    let italic = (substitute (match_marked 1 42 true) (tagged (codes "em")) 0 tt bold).0 in
    (substitute (match_marked 2 126 true) (tagged (codes "del")) 0 tt italic).0

-- What rewrites the target of a link reads and changes the site.
module _ {S : Type 0} (rewrite : S → Str → Str × S) where
  unfoldable pub image_html : S → Str × Str → Str × S
  image_html site (alt, target) =
      let (href, after) = rewrite site target in
      (
        concat (
            codes "<img src=\""
            ∷ href
            ∷ codes "\" alt=\""
            ∷ escape_html true alt
            ∷ codes "\" loading=\"lazy\">"
            ∷ []),
        after,
      )

  unfoldable pub anchor_html : S → Str × Str → Str × S
  anchor_html site (label, target) =
      let (href, after) = rewrite site target in
      (concat (codes "<a href=\"" ∷ href ∷ codes "\">" ∷ label ∷ codes "</a>" ∷ []), after)

  -- `none`: it raises.
  unfoldable pub render_inline : S → Str → Option (Str × S)
  unfolding substitute match_escape match_code match_image match_anchor image_html anchor_html
      emphasis stash
  render_inline site text =
      let (escaped, lits) = substitute match_escape (stash false) 0 [] text in
      let (coded, stashed) = substitute match_code (stash true) 0 lits escaped in
      let (pictured, s1) = substitute match_image image_html 0 site (escape_html false coded) in
      let (linked, s2) = substitute match_anchor anchor_html 0 s1 pictured in
      do html ← restore_all 0 stashed (emphasis linked); some (html, s2)
