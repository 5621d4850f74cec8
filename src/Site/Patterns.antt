-- ===== src/Site/Patterns.antt =====
-- The regular expressions of alpha-one/scripts/build_docs_site.py on one line of a document, and the
-- escapes of `html.escape`. A line holds no line feed. Each expression is read off from the left:
-- where a repetition stops is fixed by what must follow it.
use alpha_one.Base.{
  ℕ, zero, suc, ◌+◌, ◌-◌, ◌%◌, ◌&&◌, ◌||◌, Bool, false, Option, none, some, [], ◌∷◌, ◌++◌, reverse,
  length, Str, if◌then◌else◌,
}
use alpha_one.Base.{codes, leb, ◌==◌, is_space, lstrip, strip, ◌>>=◌, is_digit, number_of}
use alpha_one.Tables.{span}

-- ` {0,3}`: the text behind at most three spaces, unless a fourth follows.
unfoldable pub few_spaces : ℕ → Str → Option Str
few_spaces left [] = some []
few_spaces left (c ∷ s) =
    if c == 32 then elim left [ zero ↦ none | suc n ↦ few_spaces n s ] else some (c ∷ s)

-- `\s{0,3}`
unfoldable pub few_blanks : ℕ → Str → Option Str
few_blanks left [] = some []
few_blanks left (c ∷ s) =
    if is_space c then elim left [ zero ↦ none | suc n ↦ few_blanks n s ] else some (c ∷ s)

-- The length of the run of a character, and what follows it.
unfoldable pub run_of : ℕ → Str → ℕ × Str
run_of d [] = (0, [])
run_of d (c ∷ s) = if c == d then (suc (run_of d s).0, (run_of d s).1) else (0, c ∷ s)

pub record Fence : Type 0 where
  pub mark : ℕ
  pub count : ℕ
  pub lang : Str

-- `[A-Za-z0-9_+\-]`
unfoldable pub is_lang_char : ℕ → Bool
is_lang_char c =
    leb 65 c && leb c 90
    || leb 97 c && leb c 122
    || leb 48 c && leb c 57
    || c == 95
    || c == 43
    || c == 45

unfoldable pub fence_run : ℕ → Str → Option Fence
unfolding run_of is_lang_char
fence_run mark text =
    let (count, rest) = run_of mark text in
    if leb 3 count
    then some (record { mark = mark; count = count; lang = (span is_lang_char (lstrip rest)).0 })
    else none

-- `FENCE_RE`
unfoldable pub fence_of : Str → Option Fence
unfolding fence_run few_blanks
fence_of line = do
  text ← few_blanks 3 line
  elim (fence_run 96 text) [ some fence ↦ some fence | none ↦ fence_run 126 text ]

-- The line that closes a fence: its characters alone, as many or more.
unfoldable pub closes : Fence → Str → Bool
unfolding run_of
closes fence line =
    let (count, rest) = run_of fence.mark (strip line) in
    elim rest [ [] ↦ leb fence.count count | c ∷ cs ↦ false ]

-- `rstrip()`
unfoldable pub rstrip : Str → Str
rstrip s = reverse (lstrip (reverse s))

pub record Heading : Type 0 where
  pub level : ℕ
  pub title : Str

-- `HEADING_RE`: the group `.*\S` is greedy, so it takes all up to the last character that is no
-- white space.
unfoldable pub heading_of : Str → Option Heading
unfolding run_of few_spaces rstrip
heading_of line = do
  text ← few_spaces 3 line
  let (level, rest) = run_of 35 text
  let title = rstrip (lstrip rest)
  (if leb 1 level && leb level 6
      then elim rest [
        | [] ↦ none
        | c ∷ cs ↦
            if is_space c
            then elim title [ [] ↦ none | d ∷ ds ↦ some (record { level = level; title = d ∷ ds }) ]
            else none
      ]
      else none)

-- How many characters are the mark, unless one is neither the mark nor white space.
unfoldable pub rule_marks : ℕ → Str → Option ℕ
rule_marks d [] = some 0
rule_marks d (c ∷ s) =
    let rest = rule_marks d s in
    if c == d
    then elim rest [ none ↦ none | some n ↦ some (suc n) ]
    else if is_space c
    then rest
    else none

-- `HR_RE`
unfoldable pub is_rule : Str → Bool
unfolding rule_marks few_spaces
is_rule line = elim (few_spaces 3 line) [
  | none ↦ false
  | some [] ↦ false
  | some (c ∷ s) ↦
      (c == 45 || c == 42 || c == 95)
      && elim (rule_marks c (c ∷ s)) [ none ↦ false | some n ↦ leb 3 n ]
]

-- `re.sub(r"^ {0,3}>\s?", "", line)` where `BLOCKQUOTE_RE` matches.
unfoldable pub unquoted : Str → Option Str
unfolding few_spaces
unquoted line = elim (few_spaces 3 line) [
  | none ↦ none
  | some [] ↦ none
  | some (c ∷ s) ↦
      if c == 62
      then some (elim s [ [] ↦ [] | d ∷ ds ↦ if is_space d then ds else d ∷ ds ])
      else none
]

-- A list item: the number of an ordered one, and its text.
pub record Bullet : Type 0 where
  pub start : Option ℕ
  pub text : Str

-- `\s+(.*)$`
unfoldable pub bullet_text : Option ℕ → Str → Option Bullet
bullet_text start [] = none
bullet_text start (c ∷ s) =
    if is_space c then some (record { start = start; text = lstrip s }) else none

unfoldable pub numbered_bullet : Str → Option Bullet
unfolding bullet_text
numbered_bullet text =
    let (digits, rest) = span is_digit text in
    if leb 1 (length digits) && leb (length digits) 3
    then elim rest [
      | [] ↦ none
      | c ∷ s ↦ if c == 46 || c == 41 then bullet_text (some (number_of 0 digits)) s else none
    ]
    else none

-- `LI_RE`
unfoldable pub bullet_of : Str → Option Bullet
unfolding numbered_bullet bullet_text
bullet_of line = elim (lstrip line) [
  | [] ↦ none
  | c ∷ s ↦ if c == 45 || c == 42 || c == 43 then bullet_text none s else numbered_bullet (c ∷ s)
]

-- `_indent_width`: the blanks at the start of the line, a tab up to the next multiple of four.
unfoldable pub indent_from : ℕ → Str → ℕ
indent_from width [] = width
indent_from width (c ∷ s) =
    let tabbed = indent_from (width + (4 - width % 4)) s in
    let spaced = indent_from (width + 1) s in
    if c == 32 then spaced else if c == 9 then tabbed else width

unfoldable pub indent_width : Str → ℕ
unfolding indent_from
indent_width line = indent_from 0 line

-- `html.escape(s, quote)`
unfoldable pub escape_char : Bool → ℕ → Str
escape_char quote c =
    if c == 38
    then codes "&amp;"
    else if c == 60
    then codes "&lt;"
    else if c == 62
    then codes "&gt;"
    else if quote && c == 34
    then codes "&quot;"
    else if quote && c == 39
    then codes "&#x27;"
    else c ∷ []

unfoldable pub escape_html : Bool → Str → Str
unfolding escape_char
escape_html quote [] = []
escape_html quote (c ∷ s) = escape_char quote c ++ escape_html quote s
