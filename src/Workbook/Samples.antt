-- ===== src/Workbook/Samples.antt =====
-- Small columns of the workbook, and what the theorems say of them.
use alpha_one.Workbook.Floats.{points}
use alpha_one.Base.{ℕ, some, List, [], ◌∷◌, length, ◌≡◌, ◌≤◌, refl}
use alpha_one.Workbook.Align.{align_runs, move}
use alpha_one.Workbook.Align.Table.{Align}
use alpha_one.Workbook.Align.Backtrack.{align_runs_optimal}

-- Two runs, at 35 and 25 points, and three rows.
abbrev runs : List (ℕ × ℕ)
runs = (points 35, 0) ∷ (points 25, 1) ∷ []

abbrev anchors : List ℕ
anchors = points 36 ∷ points 30 ∷ points 26 ∷ []

align_runs-sample : align_runs runs anchors ≡ some ((1, 2) ∷ (0, 0) ∷ [])
unfolding align_runs move points
align_runs-sample = refl

align_runs_optimal_example :
    (pairs : List (ℕ × ℕ)) × (cost : ℕ) × (align_runs runs anchors ≡ some pairs)
    × Align runs anchors (length runs) (length anchors) cost pairs
    × ((other : ℕ) (ps : List (ℕ × ℕ))
        → Align runs anchors (length runs) (length anchors) other ps
        → cost ≤ other)
align_runs_optimal_example = align_runs_optimal runs anchors
