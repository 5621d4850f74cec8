-- ===== src/Events/Catalog.antt =====
-- `catalog_events` and `check` of alpha-one/scripts/check_event_payloads.py: the events of
-- contracts/events/catalog.md, and the loop over their files.
pub mod Passing
use alpha_one.Base.{
  ℕ, ◌&&◌, ◌||◌, not, Bool, true, false, Option, none, some, List, [], ◌∷◌, ◌++◌, map, reverse,
  length, Str, mem, if◌then◌else◌, all, codes, ltb, leb, ◌==◌, ◌>>=◌, strip, split_char,
}
use alpha_one.Tables.{span}
use alpha_one.Markers.Search.{strip_prefix}
use alpha_one.Events.Payload.{File, PayloadProblem, event_problems}

-- The line boundaries of `str.splitlines`, but for a carriage return.
unfoldable pub ends_line : ℕ → Bool
ends_line c = leb 10 c && leb c 12 || leb 28 c && leb c 30 || c == 133 || c == 8232 || c == 8233

unfoldable pub add_char : ℕ → List Str → List Str
add_char c [] = (c ∷ []) ∷ []
add_char c (line ∷ lines) = (c ∷ line) ∷ lines

-- `text.splitlines()`: nothing stands for an empty last line.
unfoldable pub splitlines : Str → List Str
unfolding ends_line add_char
splitlines [] = []
splitlines (c ∷ []) = if ends_line c || c == 13 then [] ∷ [] else (c ∷ []) ∷ []
splitlines (c ∷ d ∷ s) = elim (c == 13 && d == 10) [
  | true ↦ [] ∷ splitlines s
  | false ↦ elim (ends_line c || c == 13) [
    | true ↦ [] ∷ splitlines (d ∷ s)
    | false ↦ add_char c (splitlines (d ∷ s))
  ]
]

-- `s.strip("|")`
unfoldable pub drop_bars : Str → Str
drop_bars [] = []
drop_bars (c ∷ s) = if c == 124 then drop_bars s else c ∷ s

unfoldable pub strip_bars : Str → Str
unfolding drop_bars
strip_bars s = reverse (drop_bars (reverse (drop_bars s)))

-- A match of the pattern "`(payloads/[^`]+)`" at the start of a text.
unfoldable pub match_path : Str → Option Str
unfolding strip_prefix
match_path text = do
  rest ← strip_prefix (codes "`payloads/") text
  let (path, behind) = span (λ c. not (c == 96)) rest
  elim path [
    | [] ↦ none
    | c ∷ s ↦ elim behind [ [] ↦ none | d ∷ t ↦ some (codes "payloads/" ++ (c ∷ s)) ]
  ]

-- `re.search`: the first match.
unfoldable pub search_path : Str → Option Str
unfolding match_path
search_path [] = none
search_path (c ∷ text) = elim (match_path (c ∷ text)) [
  | some path ↦ some path
  | none ↦ search_path text
]

unfoldable pub is_row : Str → Bool
is_row [] = false
is_row (c ∷ s) = c == 124

unfoldable pub row_cells : Str → List Str
unfolding strip_bars
row_cells line = map strip (split_char 124 (strip_bars (strip line)))

-- The first cell is a heading or a rule.
unfoldable pub is_heading : Str → Bool
is_heading cell = mem cell (codes "Event" ∷ codes "---" ∷ []) || all (λ c. c == 45) cell

-- One line of the catalog: the event, and the path of its file.
unfoldable pub row_event : Str → Option (Str × Str)
unfolding is_row row_cells is_heading search_path
row_event line =
    if is_row line
    then elim (row_cells line) [
      | [] ↦ none
      | name ∷ cells ↦
          if ltb (length (name ∷ cells)) 5 || is_heading name
          then none
          else do path ← search_path line; some (name, path)
    ]
    else none

-- The rows that are events.
unfoldable pub row_events : List Str → List (Str × Str)
unfolding row_event
row_events [] = []
row_events (line ∷ lines) = elim (row_event line) [
  | none ↦ row_events lines
  | some event ↦ event ∷ row_events lines
]

unfoldable pub catalog_events : Str → List (Str × Str)
unfolding row_events splitlines
catalog_events text = row_events (splitlines text)

-- `errors`: the catalog holds no event, or a problem of one event's file.
pub data GateError : Type 0 where
  no_events : GateError
  event_error : Str → Str → PayloadProblem → GateError

-- The loop of `check`; `files` gives what stands at a path. `none`: it raises.
unfoldable pub check_events : (Str → File) → List (Str × Str) → Option (List GateError)
unfolding event_problems
check_events files [] = some []
check_events files ((name, path) ∷ events) = do
  problems ← event_problems name (files path)
  rest ← check_events files events
  some (map (event_error name path) problems ++ rest)

unfoldable pub check : (Str → File) → Str → Option (List GateError)
unfolding catalog_events check_events
check files text = elim (catalog_events text) [
  | [] ↦ some (no_events ∷ [])
  | event ∷ events ↦ check_events files (event ∷ events)
]

-- The exit code: 1 where there are errors, and where the run ends in an exception.
unfoldable pub exit_code : Option (List GateError) → ℕ
exit_code none = 1
exit_code (some []) = 0
exit_code (some (error ∷ errors)) = 1
