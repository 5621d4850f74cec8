-- ===== src/Workbook/Cells.antt =====
-- The text of cells in alpha-one/scripts/parse_prd_workbook.py: `unsplit_ids`, `squash` and the
-- expressions on identifiers. The word characters of Python's `re` are a parameter. A text that is
-- matched holds no line feed at its end, since every fragment is stripped.
use alpha_one.Base.{
  ℕ, zero, suc, ◌-◌, ◌&&◌, ◌||◌, not, Bool, true, false, Option, none, some, List, [], ◌∷◌, ◌++◌,
  length, Str, str_eq, if◌then◌else◌, any,
}
use alpha_one.Base.{codes, leb, ◌==◌, ◌>>=◌, is_space, lstrip, strip, is_digit}
use alpha_one.Tables.{span, after_char}
use alpha_one.Markers.Search.{strip_prefix}

-- `[A-Z]`
unfoldable pub is_capital : ℕ → Bool
is_capital c = leb 65 c && leb c 90

-- `[A-Za-z0-9]`
unfoldable pub is_alnum : ℕ → Bool
unfolding is_capital
is_alnum c = is_capital c || leb 97 c && leb c 122 || leb 48 c && leb c 57

-- `low <= len(s) <= high`
unfoldable pub has_length : ℕ → ℕ → Str → Bool
has_length low high s = leb low (length s) && leb (length s) high

-- `[A-Z]{2,4} [A-Z]-\d{2,3}` at the start of a text: the three groups and what follows. A run of
-- capitals or digits that is too long has no match, since a space or a word boundary must follow it.
unfoldable pub match_split : Str → Option ((Str × Str × Str) × Str)
unfolding is_capital has_length
match_split text = do
  let (first, a) = span is_capital text
  b ← after_char 32 a
  let (second, c) = span is_capital b
  d ← after_char 45 c
  let (digits, rest) = span is_digit d
  (if has_length 2 4 first && (has_length 1 1 second && has_length 2 3 digits)
      then some ((first, second, digits), rest)
      else none)

-- `\1\2-\3`
unfoldable pub joined_id : Str × Str × Str → Str
joined_id (first, second, digits) = first ++ (second ++ (45 ∷ digits))

-- `SPLIT_ID.sub`
unfoldable pub unsplit_ids : Str → Str
unfolding match_split joined_id
unsplit_ids text = elim (match_split text) [
  | some (groups, []) ↦ joined_id groups
  | some (groups, c ∷ rest) ↦ text
  | none ↦ text
]

-- `re.sub(r"\s+", " ", text)`; the test says whether white space stands before.
unfoldable pub single_spaces : Bool → Str → Str
single_spaces spaced [] = []
single_spaces spaced (c ∷ s) =
    let rest = single_spaces (is_space c) s in
    if is_space c then (if spaced then rest else 32 ∷ rest) else c ∷ rest

-- `(?<=[A-Za-z0-9])- (?=[A-Za-z0-9])`: the space behind a hyphen between such characters is left out;
-- the test says whether such a character stands before.
unfoldable pub close_hyphens : Bool → Str → Str
unfolding is_alnum
close_hyphens behind (c ∷ d ∷ e ∷ s) = elim (behind && (c == 45 && (d == 32 && is_alnum e))) [
  | true ↦ 45 ∷ close_hyphens false (e ∷ s)
  | false ↦ c ∷ close_hyphens (is_alnum c) (d ∷ e ∷ s)
]
close_hyphens behind (c ∷ d ∷ []) = c ∷ d ∷ []
close_hyphens behind (c ∷ []) = c ∷ []
close_hyphens behind [] = []

-- `[,.;:!?%)]`
unfoldable pub is_closing : ℕ → Bool
is_closing c = any (λ d. c == d) (codes ",.;:!?%)")

unfoldable pub starts_closing : Str → Bool
unfolding is_closing
starts_closing [] = false
starts_closing (c ∷ s) = is_closing c

-- `re.sub(r"\s+([,.;:!?%)])", r"\1", text)`
unfoldable pub close_marks : Str → Str
unfolding starts_closing
close_marks [] = []
close_marks (c ∷ s) =
    let rest = close_marks s in if is_space c && starts_closing (lstrip s) then rest else c ∷ rest

abbrev tellers : List Str
tellers =
    codes "a"
    ∷ codes "an"
    ∷ codes "the"
    ∷ codes "any"
    ∷ codes "ops"
    ∷ codes "risk"
    ∷ codes "tenant"
    ∷ codes "trader"
    ∷ codes "client"
    ∷ codes "platform"
    ∷ codes "support"
    ∷ []

module _ (is_word : ℕ → Bool) where
  -- `\b` behind a word character.
  unfoldable pub at_boundary : Str → Bool
  at_boundary [] = true
  at_boundary (c ∷ s) = not (is_word c)

  -- The identifiers inside a text; the number counts the characters of the last match that are left to
  -- pass, the test says whether a word character stands before.
  unfoldable pub close_ids : ℕ → Bool → Str → Str
  unfolding match_split joined_id at_boundary
  close_ids inside behind [] = []
  close_ids (suc inside) behind (c ∷ s) = close_ids inside (is_word c) s
  close_ids zero behind (c ∷ s) = elim (if behind then none else match_split (c ∷ s)) [
    | none ↦ c ∷ close_ids zero (is_word c) s
    | some (groups, rest) ↦ elim (at_boundary rest) [
      | true ↦ joined_id groups ++ close_ids (length s - length rest) (is_word c) s
      | false ↦ c ∷ close_ids zero (is_word c) s
    ]
  ]

  unfoldable pub squash : Str → Str
  unfolding single_spaces close_hyphens close_ids close_marks
  squash text =
      close_marks (close_ids zero false (close_hyphens false (strip (single_spaces false text))))

  -- `STORY_HINT`
  unfoldable pub is_story : Str → Bool
  unfolding at_boundary
  is_story text =
      any
        (λ who. elim (strip_prefix (codes "As " ++ who) text) [
          | none ↦ false
          | some rest ↦ at_boundary rest
        ])
        tellers

-- `REQ_ID`, `BVR_ID`, `PROP_ID`: capitals, a hyphen and digits.
unfoldable pub is_numbered : (Str → Bool) → (Str → Bool) → Str → Bool
unfolding is_capital
is_numbered head tail text =
    let (letters, a) = span is_capital text in
    head letters && elim (after_char 45 a) [
      | none ↦ false
      | some b ↦
          let (digits, rest) = span is_digit b in
          tail digits && elim rest [ [] ↦ true | c ∷ s ↦ false ]
    ]

unfoldable pub is_req_id : Str → Bool
unfolding is_numbered has_length
is_req_id = is_numbered (has_length 2 5) (has_length 2 3)

unfoldable pub is_bvr_id : Str → Bool
unfolding is_numbered has_length
is_bvr_id = is_numbered (str_eq (codes "BVR")) (has_length 2 2)

unfoldable pub is_prop_id : Str → Bool
unfolding is_numbered has_length
is_prop_id = is_numbered (str_eq (codes "PROP")) (has_length 4 4)

-- `^D[1-5]$`
unfoldable pub is_domain_id : Str → Bool
is_domain_id (c ∷ d ∷ []) = c == 68 && (leb 49 d && leb d 53)
is_domain_id _ = false

-- A pattern of digits and other characters: for each part the fewest and the most digits, and the
-- character behind them, if any.
unfoldable pub match_digits : List (ℕ × ℕ × Option ℕ) → Str → Bool
unfolding has_length
match_digits [] text = elim text [ [] ↦ true | c ∷ s ↦ false ]
match_digits ((low, high, sep) ∷ parts) text =
    let (digits, a) = span is_digit text in
    has_length low high digits && elim sep [
      | none ↦ match_digits parts a
      | some c ↦ elim (after_char c a) [ none ↦ false | some b ↦ match_digits parts b ]
    ]

-- `RELEASE_ID`
unfoldable pub is_release_id : Str → Bool
unfolding match_digits
is_release_id text = elim (after_char 86 text) [
  | none ↦ false
  | some rest ↦ match_digits ((1, 1, some 46) ∷ (1, 1, none) ∷ []) rest
]

-- `LEGACY_TIMESTAMP`
unfoldable pub is_timestamp : Str → Bool
unfolding match_digits
is_timestamp text =
    let time : List (ℕ × ℕ × Option ℕ) = (1, 2, some 58) ∷ (2, 2, some 58) ∷ (2, 2, none) ∷ [] in
    match_digits ((1, 2, some 47) ∷ (1, 2, some 47) ∷ (4, 4, some 32) ∷ time) text
    || match_digits ((4, 4, some 45) ∷ (2, 2, some 45) ∷ (2, 2, some 32) ∷ time) text
