-- ===== src/Roles/Registry.antt =====
-- `registry_meta` of alpha-one/scripts/verify_roles.py: the rows of the table in registry.md.
use alpha_one.Base.{
  ℕ, zero, suc, ◌-◌, Bool, true, false, Option, none, some, List, [], ◌∷◌, ◌++◌, length, Str,
  if◌then◌else◌,
}
use alpha_one.Base.{◌==◌, ◌>>=◌, is_space, strip, put}
use alpha_one.Tables.{span, after_char, is_key_char, head_of}
use alpha_one.Workbook.Cells.{is_capital, has_length, single_spaces}

-- The module that owns a key, and the description.
abbrev pub Meta : Type 0
Meta = Str × Str

-- White space before more text: what follows up to the last line break in it.
unfoldable pub from_last_break : Str → Str → Option Str
from_last_break [] rest = none
from_last_break (c ∷ blanks) rest = elim (from_last_break blanks rest) [
  | some found ↦ some found
  | none ↦ if c == 10 then some ((c ∷ blanks) ++ rest) else none
]

-- `\s*$` with `re.M`: what follows.
unfoldable pub ends_line : Str → Option Str
unfolding from_last_break
ends_line s =
    let (blanks, rest) = span is_space s in
    elim rest [ [] ↦ some [] | c ∷ more ↦ from_last_break blanks (c ∷ more) ]

-- `(.*?)\|\s*$`: the group, and what follows.
unfoldable pub match_description : Str → Option (Str × Str)
unfolding ends_line
match_description [] = none
match_description (c ∷ s) =
    let longer : Option (Str × Str) =
      (if c == 10 then none else (do found ← match_description s; some (c ∷ found.0, found.1))) in
    if c == 124
    then elim (ends_line s) [ some after ↦ some ([], after) | none ↦ longer ]
    else longer

-- A match at this place: key, owner and description, and what follows.
unfoldable pub match_row : Str → Option ((Str × Meta) × Str)
unfolding match_description single_spaces is_capital has_length
match_row text = do
  a ← after_char 124 text
  b ← after_char 96 (span is_space a).1
  let (key, c) = span is_key_char b
  d ← after_char 96 c
  e ← after_char 124 (span is_space d).1
  let (owner, f) = span is_capital (span is_space e).1
  g ← after_char 124 (span is_space f).1
  found ← match_description g
  (if has_length 2 4 owner
      then elim key [
        | [] ↦ none
        | k ∷ ks ↦ some ((k ∷ ks, (owner, strip (single_spaces false found.0))), found.1)
      ]
      else none)

-- The matches at the starts of lines; the number counts what an earlier match has taken.
unfoldable pub find_rows : Str → ℕ → Bool → List (Str × Meta)
unfolding match_row
find_rows [] taken start = []
find_rows (c ∷ s) (suc taken) start = find_rows s taken false
find_rows (c ∷ s) zero start = elim (if start then match_row (c ∷ s) else none) [
  | none ↦ find_rows s zero (c == 10)
  | some (row, rest) ↦ row ∷ find_rows s (length s - length rest) false
]

-- `meta[m.group(1)] = ...` for each match.
unfoldable pub add_rows : List (Str × Meta) → List (Str × Meta) → List (Str × Meta)
add_rows [] found = found
add_rows ((key, row) ∷ rows) found = add_rows rows (put key row found)

unfoldable pub registry_meta : Str → List (Str × Meta)
unfolding find_rows add_rows
registry_meta text = add_rows (find_rows (head_of text) 0 true) []
