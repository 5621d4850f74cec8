-- ===== src/Site/Renders/Weights.antt =====
-- The lines that the loops of alpha-one/scripts/build_docs_site.py take, and those they leave.
use alpha_one.Base.{split_char, add_first}
use alpha_one.Base.{
  ℕ, zero, suc, ◌+◌, ◌≤◌, ◌<◌, some, List, [], ◌∷◌, ◌++◌, length, Str, if◌then◌else◌, arith, ◌≡◌,
  ap, Bool-cases, Option-cases, inl, inr, some-injective,
}
use alpha_one.Base.{◌<◌, ◌==◌, is_space, join_with, newline, length-append}
use alpha_one.Site.Patterns.{Fence, closes, unquoted, few_spaces}
use alpha_one.Site.Cells.{take_rows, is_table_row, rest_of}
use alpha_one.Site.Items.{skip_blank, is_blank}
use alpha_one.Site.Blocks.{weight, line_feeds, split_lines, take_fence, take_quote}

pub take_fence-weight :
    (fence : Fence) (lines : List Str) → weight (take_fence fence lines).1 ≤ weight lines
unfolding take_fence weight
take_fence-weight fence [] = omega arith
take_fence-weight fence (line ∷ lines) = elim (Bool-cases (closes fence line)) [
  | inl e ↦ rw (e, take_fence) (omega arith)
  | inr e ↦ rw (e, take_fence) (omega (arith, take_fence-weight fence lines))
]

pub take_rows-weight : (lines : List Str) → weight (take_rows lines).1 ≤ weight lines
unfolding take_rows weight
take_rows-weight [] = omega arith
take_rows-weight (line ∷ lines) = elim (Bool-cases (is_table_row line)) [
  | inl e ↦ rw (e, take_rows) (omega (arith, take_rows-weight lines))
  | inr e ↦ rw (e, take_rows) (omega arith)
]

few_spaces-length :
    (left : ℕ) (line rest : Str) → few_spaces left line ≡ some rest → length rest ≤ length line
unfolding few_spaces
few_spaces-length left [] rest h = omega (arith, ap length (some-injective _ _ h))
few_spaces-length zero (c ∷ s) rest h = elim (Bool-cases (c == 32)) [
  | inr e ↦ omega (arith, ap length (some-injective _ _ (rw (e, few_spaces) at h)))
  | inl e ↦ cc (rw (e, few_spaces) at h)
]
few_spaces-length (suc left) (c ∷ s) rest h = elim (Bool-cases (c == 32)) [
  | inr e ↦ omega (arith, ap length (some-injective _ _ (rw (e, few_spaces) at h)))
  | inl e ↦ omega (arith, few_spaces-length left s rest (rw (e, few_spaces) at h))
]

-- The text behind a quote mark.
behind_mark : Str → Str
behind_mark [] = []
behind_mark (d ∷ ds) = if is_space d then ds else d ∷ ds

behind_mark-length : (s : Str) → length (behind_mark s) ≤ length s
unfolding behind_mark
behind_mark-length [] = omega arith
behind_mark-length (d ∷ ds) = ground arith

unquoted-length : (line inner : Str) → unquoted line ≡ some inner → length inner < length line
unfolding unquoted behind_mark
unquoted-length line inner h = elim (Option-cases (few_spaces 3 line)) [
  | inl e ↦ cc (rw (e, unquoted) at h)
  | inr ([], e) ↦ cc (rw (e, unquoted) at h)
  | inr (c ∷ s, e) ↦ elim (Bool-cases (c == 62)) [
    | inr other ↦ cc (rw (e, unquoted, other) at h)
    | inl mark ↦
        let inside : some (behind_mark s) ≡ some inner = rw (e, unquoted, mark) at h in
        omega (
          arith,
          few_spaces-length 3 line (c ∷ s) e,
          behind_mark-length s,
          ap length (some-injective _ _ inside),
        )
  ]
]

add_first-weight :
    (c : ℕ) (parts : List Str) → 1 ≤ weight parts → weight (add_first c parts) ≡ suc (weight parts)
unfolding add_first weight
add_first-weight c [] h = absurd (omega arith)
add_first-weight c (part ∷ parts) h = omega arith

split_char-weight : (d : ℕ) (s : Str) → weight (split_char d s) ≡ suc (length s)
unfolding split_char weight
split_char-weight d [] = omega arith
split_char-weight d (c ∷ s) = elim (Bool-cases (c == d)) [
  | inl e ↦ rw (e, split_char) (omega (arith, split_char-weight d s))
  | inr e ↦
      rw (e, split_char)
        (omega (
          arith,
          split_char-weight d s,
          add_first-weight c (split_char d s) (omega (arith, split_char-weight d s)),
        ))
]

line_feeds-length : (s : Str) → length (line_feeds s) ≤ length s
unfolding line_feeds
line_feeds-length [] = omega arith
line_feeds-length (c ∷ []) = ground arith
line_feeds-length (c ∷ d ∷ s) = ground (arith, line_feeds-length (d ∷ s), line_feeds-length s)

join_with-weight :
    (line : Str) (lines : List Str)
    → suc (length (join_with newline (line ∷ lines))) ≡ weight (line ∷ lines)
unfolding join_with weight
join_with-weight line [] = omega arith
join_with-weight line (next ∷ lines) = omega (
  arith,
  join_with-weight next lines,
  length-append line (newline ++ join_with newline (next ∷ lines)),
  length-append newline (join_with newline (next ∷ lines)),
)

pub split_lines-weight :
    (line : Str) (lines : List Str)
    → weight (split_lines (join_with newline (line ∷ lines))) ≤ weight (line ∷ lines)
unfolding split_lines
split_lines-weight line lines =
    let text = join_with newline (line ∷ lines) in
    omega (
      arith,
      split_char-weight 10 (line_feeds text),
      line_feeds-length text,
      join_with-weight line lines,
    )

-- The lines of a quote, and the lines behind it.
take_quote-weight :
    (lines : List Str) → weight (take_quote lines).0 + weight (take_quote lines).1 ≤ weight lines
unfolding take_quote weight
take_quote-weight [] = omega arith
take_quote-weight (line ∷ lines) = elim (Option-cases (unquoted line)) [
  | inl e ↦ rw (e, take_quote) (omega arith)
  | inr (inner, e) ↦
      rw (e, take_quote) (omega (arith, take_quote-weight lines, unquoted-length line inner e))
]

pub take_quote-first :
    (line inner : Str) (lines : List Str)
    → unquoted line ≡ some inner
    → (weight (split_lines (join_with newline (take_quote (line ∷ lines)).0))
        < weight (line ∷ lines))
      × (weight (take_quote (line ∷ lines)).1 < weight (line ∷ lines))
unfolding take_quote weight
take_quote-first line inner lines e =
    rw (e, take_quote)
      (
        omega (
          arith,
          split_lines-weight inner (take_quote lines).0,
          take_quote-weight lines,
          unquoted-length line inner e,
        ),
        omega (arith, take_quote-weight lines),
      )

pub skip_blank-weight :
    (lines : List Str)
    → (weight (skip_blank lines) ≤ weight lines) × (length (skip_blank lines) ≤ length lines)
unfolding skip_blank weight
skip_blank-weight [] = (omega arith, omega arith)
skip_blank-weight (line ∷ lines) = elim (Bool-cases (is_blank line)) [
  | inl e ↦
      let (w, l) = skip_blank-weight lines in
      rw (e, skip_blank) (omega (arith, w), omega (arith, l))
  | inr e ↦ rw (e, skip_blank) (omega arith, omega arith)
]

pub rest_of-weight : (lines : List Str) → weight (rest_of lines) ≤ weight lines
unfolding rest_of weight
rest_of-weight [] = omega arith
rest_of-weight (line ∷ lines) = omega arith
