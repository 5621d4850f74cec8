-- ===== src/Markers.antt =====
-- The marked block of a document that alpha-one/scripts/verify_roles.py and
-- alpha-one/scripts/verify_tenant_states.py render, compare and replace. The regular expression
-- `re.escape(BEGIN) + r".*?" + re.escape(END)` under `re.S` is the first begin marker and the
-- nearest end marker behind it.
pub mod Search
pub mod RoundTrip
use alpha_one.Base.{
  ℕ, zero, suc, Bool, true, false, Option, none, some, List, [], ◌∷◌, ◌++◌, ◌&&◌, length, Str,
  str_eq, if◌then◌else◌, ◌==◌, any,
}
use alpha_one.Markers.Search.{split_first}

-- A match: the text before it, between the markers, and behind it.
pub record Block : Type 0 where
  pub before : Str
  pub inside : Str
  pub after : Str

-- `re.search(pattern, text, re.S)`. If no end marker stands behind the first begin marker, none
-- stands behind a later one.
unfoldable pub find_block : Str → Str → Str → Option Block
find_block begin end text = elim (split_first begin text) [
  | none ↦ none
  | some (before, rest) ↦ elim (split_first end rest) [
    | none ↦ none
    | some (inside, after) ↦ some (record { before = before; inside = inside; after = after })
  ]
]

-- `text.rstrip("\n")`
unfoldable pub strip_cons : ℕ → Str → Str
strip_cons c [] = if c == 10 then [] else c ∷ []
strip_cons c (d ∷ ds) = c ∷ d ∷ ds

unfoldable pub strip_newlines : Str → Str
unfolding strip_cons
strip_newlines [] = []
strip_newlines (c ∷ cs) = strip_cons c (strip_newlines cs)

-- `re.sub(pattern, want, text)`: each match is replaced, from the left. The fuel is the length of
-- the text.
unfoldable pub replace_blocks : Str → Str → Str → ℕ → Str → Str
replace_blocks begin end want zero text = text
replace_blocks begin end want (suc fuel) text = elim (find_block begin end text) [
  | none ↦ text
  | some block ↦ block.before ++ (want ++ replace_blocks begin end want fuel block.after)
]

-- `re.sub` reads a backslash in the replacement as an escape; the writers pass none.
unfoldable pub has_escape : Str → Bool
has_escape want = any (λ c. c == 92) want

pub data DocProblem : Type 0 where
  block_missing block_differs : DocProblem
