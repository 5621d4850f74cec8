-- ===== src/Site/Slugs.antt =====
-- The anchors of headings in alpha-one/scripts/build_docs_site.py: `slugify` and `RenderCtx.slug`.
pub mod Fresh
use alpha_one.Base.{
  ℕ, zero, suc, ◌+◌, ◌-◌, ◌&&◌, ◌||◌, not, Bool, true, false, Option, none, some, List, [], ◌∷◌,
  ◌++◌, reverse, length, Str, mem, if◌then◌else◌, keep,
}
use alpha_one.Base.{codes, leb, ◌==◌, ◌>>=◌, str_of}
use alpha_one.Tables.{span}

-- A match of `\[([^\]]+)\]\([^)]*\)` behind its first character: the label, and the rest.
unfoldable pub match_link : Str → Option (Str × Str)
match_link text =
    let (label, a) = span (λ c. not (c == 93)) text in
    elim label [
      | [] ↦ none
      | l ∷ ls ↦ elim a [
        | [] ↦ none
        | b ∷ [] ↦ none
        | b ∷ d ∷ s ↦
            if d == 40
            then elim (span (λ c. not (c == 41)) s).1 [ [] ↦ none | e ∷ rest ↦ some (l ∷ ls, rest) ]
            else none
      ]
    ]

-- `re.sub` of the links by their labels; the number counts the characters of the last match that
-- are left to pass.
unfoldable pub unlink : ℕ → Str → Str
unfolding match_link
unlink inside [] = []
unlink (suc inside) (c ∷ s) = unlink inside s
unlink zero (c ∷ s) = elim (if c == 91 then match_link s else none) [
  | none ↦ c ∷ unlink zero s
  | some (label, rest) ↦ label ++ unlink (length s - length rest) s
]

-- `s.lower()`, up to characters that are no ASCII: besides the capitals two letters have an ASCII
-- letter in their lower case.
unfoldable pub lower_char : ℕ → Str
lower_char c =
    if leb 65 c && leb c 90
    then (c + 32) ∷ []
    else if c == 304
    then 105 ∷ 775 ∷ []
    else if c == 8490
    then 107 ∷ []
    else c ∷ []

unfoldable pub lower_all : Str → Str
unfolding lower_char
lower_all [] = []
lower_all (c ∷ s) = lower_char c ++ lower_all s

-- `[a-z0-9]`
unfoldable pub is_slug_char : ℕ → Bool
is_slug_char c = leb 97 c && leb c 122 || leb 48 c && leb c 57

-- `re.sub(r"[^a-z0-9]+", "-", s)`; the test says whether the last character was replaced.
unfoldable pub dash_runs : Bool → Str → Str
unfolding is_slug_char
dash_runs dashed [] = []
dash_runs dashed (c ∷ s) =
    let rest = dash_runs (not (is_slug_char c)) s in
    if is_slug_char c then c ∷ rest else if dashed then rest else 45 ∷ rest

-- `s.strip("-")`
unfoldable pub drop_dashes : Str → Str
drop_dashes [] = []
drop_dashes (c ∷ s) = if c == 45 then drop_dashes s else c ∷ s

unfoldable pub strip_dashes : Str → Str
unfolding drop_dashes
strip_dashes s = reverse (drop_dashes (reverse (drop_dashes s)))

-- `[`*_~]`
unfoldable pub is_emphasis : ℕ → Bool
is_emphasis c = c == 96 || c == 42 || c == 95 || c == 126

unfoldable pub slugify : Str → Str
unfolding unlink lower_all dash_runs strip_dashes is_emphasis
slugify text =
    let plain = keep (λ c. not (is_emphasis c)) (unlink 0 text) in
    let slug = strip_dashes (dash_runs false (lower_all plain)) in
    elim slug [ [] ↦ codes "section" | c ∷ s ↦ c ∷ s ]

-- `f"{base}-{n}"`
unfoldable pub numbered_slug : Str → ℕ → Str
numbered_slug base n = base ++ (45 ∷ str_of n)

-- `while slug in self.used_slugs`; `none`: the fuel ran out.
unfoldable pub slug_loop : ℕ → List Str → Str → Str → ℕ → Option Str
unfolding numbered_slug
slug_loop zero used base slug n = if mem slug used then none else some slug
slug_loop (suc fuel) used base slug n = elim (mem slug used) [
  | true ↦ slug_loop fuel used base (numbered_slug base n) (n + 1)
  | false ↦ some slug
]

-- The slug, and the set of the used ones behind the call.
unfoldable pub slug_of : List Str → Str → Option (Str × List Str)
unfolding slug_loop slugify
slug_of used text = do
  slug ← slug_loop (length used) used (slugify text) (slugify text) 2
  some (slug, slug ∷ used)
