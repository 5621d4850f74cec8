-- ===== src/Tenants/Lifecycle.antt =====
-- `ddl_states` of alpha-one/scripts/verify_tenant_states.py: the states in the CHECK list of the
-- `tenants` table in docs/03.
use alpha_one.Base.{
  ℕ, zero, suc, ◌-◌, ◌&&◌, ◌||◌, not, Bool, Option, none, some, List, [], ◌∷◌, length, Str,
}
use alpha_one.Base.{codes, leb, ◌==◌, ◌>>=◌}
use alpha_one.Markers.Search.{strip_prefix, split_first}
use alpha_one.Tables.{span}

-- A match of CHECK \(status IN \(([^)]*)\)\) at this place: the list. The run up to the first
-- parenthesis is the only one that can be followed by two.
unfoldable pub match_check : Str → Option Str
match_check text = do
  a ← strip_prefix (codes "CHECK (status IN (") text
  let (names, b) = span (λ c. not (c == 41)) a
  rest ← strip_prefix (codes "))") b
  some names

-- `re.search`
unfoldable pub search_check : Str → Option Str
unfolding match_check
search_check [] = none
search_check (c ∷ s) = elim (match_check (c ∷ s)) [
  | some names ↦ some names
  | none ↦ search_check s
]

-- `[a-z_]`
unfoldable pub is_name_char : ℕ → Bool
is_name_char c = leb 97 c && leb c 122 || c == 95

-- A match of '([a-z_]+)' at this place: the name, and the rest of the text.
unfoldable pub match_name : Str → Option (Str × Str)
unfolding is_name_char
match_name text = do
  a ← strip_prefix (codes "'") text
  let (name, b) = span is_name_char a
  rest ← strip_prefix (codes "'") b
  elim name [ [] ↦ none | c ∷ cs ↦ some (c ∷ cs, rest) ]

-- `re.findall`; the number counts the characters of the last match that are left to pass.
unfoldable pub find_names : ℕ → Str → List Str
unfolding match_name
find_names inside [] = []
find_names (suc inside) (c ∷ s) = find_names inside s
find_names zero (c ∷ s) = elim (match_name (c ∷ s)) [
  | none ↦ find_names zero s
  | some (name, rest) ↦ name ∷ find_names (length s - length rest) s
]

-- `none` is the IndexError of a document with no such table, or the exit where it has no list.
unfoldable pub ddl_states : Str → Option (List Str)
unfolding search_check find_names
ddl_states text = do
  (before, behind) ← split_first (codes "CREATE TABLE tenants") text
  names ← search_check behind
  some (find_names 0 names)
