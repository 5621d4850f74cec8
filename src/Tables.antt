-- ===== src/Tables.antt =====
-- The keys in the first column of a markdown table, as `re.findall` reads them with the pattern
-- ^\|\s*`([a-z0-9_.]+)`\s*\| under `re.M`: `taxonomy_codes` of
-- alpha-one/scripts/verify_tenant_states.py and `registry_keys` of alpha-one/scripts/verify_roles.py.
pub mod Rows
mod Samples
use alpha_one.Base.{
  ℕ, zero, suc, ◌+◌, ◌-◌, ◌≤◌, ◌<◌, ◌&&◌, ◌||◌, not, Bool, true, false, Option, none, some, List,
  [], ◌∷◌, ◌++◌, map, reverse, length, Str, mem, str_eq, if◌then◌else◌, any, all, arith, ◌≡◌, ◌≢◌,
  ◌∙◌, refl, ap, subst, str_eq_refl, str_eq_sound, Bool-cases, Option-cases, fun_ext, ◌↔◌, ◌⊎◌, inl,
  inr, sym, str_eq_comm, str_eq_iff, mem-append, some-injective, Bool-ext, keep,
}
use alpha_one.Base.{codes, leb, ◌==◌, is_space, ◌>>=◌}
use alpha_one.Markers.Search.{split_first}

-- `[a-z0-9_.]`
unfoldable pub is_key_char : ℕ → Bool
is_key_char c = leb 97 c && leb c 122 || leb 48 c && leb c 57 || c == 95 || c == 46

-- The characters at the start that pass a test, and the rest.
unfoldable pub span : (ℕ → Bool) → Str → Str × Str
span p [] = ([], [])
span p (c ∷ s) = elim (p c) [ true ↦ (c ∷ (span p s).0, (span p s).1) | false ↦ ([], c ∷ s) ]

-- The text behind one given character.
unfoldable pub after_char : ℕ → Str → Option Str
after_char d [] = none
after_char d (c ∷ s) = if c == d then some s else none

-- A match at this place: the key, and the rest of the text. No choice is left to the expression:
-- white space holds no backtick or bar, and a key holds no backtick.
unfoldable pub match_key : Str → Option (Str × Str)
unfolding is_key_char
match_key text = do
  a ← after_char 124 text
  b ← after_char 96 (span is_space a).1
  let (key, c) = span is_key_char b
  d ← after_char 96 c
  rest ← after_char 124 (span is_space d).1
  elim key [ [] ↦ none | k ∷ ks ↦ some (k ∷ ks, rest) ]

-- The matches from the left, at the starts of lines; the number counts the characters of the last
-- match that are left to pass.
unfoldable pub find_keys : ℕ → Bool → Str → List Str
unfolding match_key
find_keys inside start [] = []
find_keys (suc inside) start (c ∷ s) = find_keys inside false s
find_keys zero start (c ∷ s) = elim (if start then match_key (c ∷ s) else none) [
  | none ↦ find_keys zero (c == 10) s
  | some (key, rest) ↦ key ∷ find_keys (length s - length rest) false s
]

-- `set(re.findall(...))`
unfoldable pub table_keys : Str → List Str
table_keys text = find_keys 0 true text

-- `text.split("## Permission model notes", 1)[0]`
unfoldable pub head_of : Str → Str
head_of text = elim (split_first (codes "## Permission model notes") text) [
  | none ↦ text
  | some (head, rest) ↦ head
]

-- `registry_keys(head_only)`
unfoldable pub registry_keys : Bool → Str → List Str
registry_keys head_only text = table_keys (if head_only then head_of text else text)
