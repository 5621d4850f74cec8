-- ===== src/Workbook/Align.antt =====
-- `_align_runs` of alpha-one/scripts/parse_prd_workbook.py. Positions and costs are in units of 2^-60 of a
-- point, and costs are added exactly. `none` in the table is `float("inf")`.
pub mod Table
pub mod Optimal
pub mod Backtrack
use alpha_one.Base.{
  ℕ, zero, suc, ◌+◌, ◌-◌, ◌&&◌, Bool, true, false, Option, none, some, List, [], ◌∷◌, length,
  get_or, if◌then◌else◌, ltb, ◌==◌,
}

abbrev pub Table : Type 0
Table = ℕ → ℕ → Option ℕ

-- `dp[i][j] = v`; the loops write inside the table only.
unfoldable pub write : Table → ℕ → ℕ → ℕ → Table
write dp i j v a b = if i == a && j == b then some v else dp a b

-- `v < dp[i][j]`
unfoldable pub below : ℕ → Option ℕ → Bool
below v none = true
below v (some w) = ltb v w

-- `if v < dp[i][j]: dp[i][j] = v`
unfoldable pub relax : Table → ℕ → ℕ → ℕ → Table
unfolding write below
relax dp i j v = if below v (dp i j) then write dp i j v else dp

-- `abs(a - b)`
unfoldable pub distance : ℕ → ℕ → ℕ
distance a b = (a - b) + (b - a)

abbrev pub anchor_skip : ℕ
anchor_skip = 5764607523034234880

abbrev pub run_skip : ℕ
run_skip = 34587645138205409280

-- A run of text is its centre and its number.
module _ (runs : List (ℕ × ℕ)) (anchors : List ℕ) where
  -- `abs(runs[i][0] - anchors[j])`
  unfoldable pub match_cost : ℕ → ℕ → ℕ
  unfolding distance
  match_cost i j = distance ((get_or runs i (0, 0)).0) (get_or anchors j 0)

  -- The body of the two loops that fill the table.
  unfoldable pub fill_cell : ℕ → ℕ → Table → Table
  unfolding relax match_cost
  fill_cell i j dp = elim (dp i j) [
    | none ↦ dp
    | some cur ↦
        let matched =
          if ltb i (length runs) && ltb j (length anchors)
          then relax dp (suc i) (suc j) (cur + match_cost i j)
          else dp in
        let skipped =
          if ltb j (length anchors) then relax matched i (suc j) (cur + anchor_skip) else matched in
        if ltb i (length runs) then relax skipped (suc i) j (cur + run_skip) else skipped
  ]

  -- `for j in range(m + 1)`, `for i in range(n + 1)`, with the rounds that are left.
  unfoldable pub fill_row : ℕ → ℕ → ℕ → Table → Table
  unfolding fill_cell
  fill_row zero i j dp = dp
  fill_row (suc rounds) i j dp = fill_row rounds i (suc j) (fill_cell i j dp)

  unfoldable pub fill_rows : ℕ → ℕ → Table → Table
  unfolding fill_row
  fill_rows zero i dp = dp
  fill_rows (suc rounds) i dp = fill_rows rounds (suc i) (fill_row (suc (length anchors)) i 0 dp)

  unfoldable pub table : Table
  unfolding fill_rows write
  table = fill_rows (suc (length runs)) 0 (write (λ i j. none) 0 0 0)

-- `x == y + w` on numbers that can be infinite
unfoldable pub equals_plus : Option ℕ → Option ℕ → ℕ → Bool
equals_plus none none w = true
equals_plus none (some y) w = false
equals_plus (some x) none w = false
equals_plus (some x) (some y) w = x == y + w

pub data Move : Type 0 where
  stop take_pair skip_anchor skip_run : Move

module _ (runs : List (ℕ × ℕ)) (anchors : List ℕ) where
  -- The branch that a round of the backtracking loop takes. With `i` or `j` at 0 each of the
  -- branches that is left decrements the other; with both above 0, the last three branches all
  -- decrement `i`.
  unfoldable pub move : Table → ℕ → ℕ → Move
  unfolding equals_plus match_cost
  move dp zero zero = stop
  move dp zero (suc j) = skip_anchor
  move dp (suc i) zero = skip_run
  move dp (suc i) (suc j) =
      if equals_plus (dp (suc i) (suc j)) (dp i j) (match_cost runs anchors i j)
      then take_pair
      else if equals_plus (dp (suc i) (suc j)) (dp (suc i) j) anchor_skip
      then skip_anchor
      else skip_run

  -- `while i > 0 or j > 0`; `none`: the fuel ran out.
  unfoldable pub backtrack : Table → ℕ → ℕ → ℕ → Option (List (ℕ × ℕ))
  backtrack dp zero i j = elim (move dp i j) [ stop ↦ some [] | _ ↦ none ]
  backtrack dp (suc fuel) i j = elim (move dp i j) [
    | stop ↦ some []
    | take_pair ↦
        let rest = backtrack dp fuel (i - 1) (j - 1) in
        elim rest [ none ↦ none | some pairs ↦ some ((i - 1, j - 1) ∷ pairs) ]
    | skip_anchor ↦ backtrack dp fuel i (j - 1)
    | skip_run ↦ backtrack dp fuel (i - 1) j
  ]

  unfoldable pub align_runs : Option (List (ℕ × ℕ))
  unfolding backtrack table
  align_runs =
      backtrack (table runs anchors) (length runs + length anchors) (length runs) (length anchors)
