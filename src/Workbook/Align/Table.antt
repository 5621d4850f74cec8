-- ===== src/Workbook/Align/Table.antt =====
-- The table of `_align_runs`: what one entry means, and what filling keeps.
use alpha_one.Workbook.Align.{anchor_skip, run_skip}
use alpha_one.Base.{
  ℕ, zero, suc, ◌+◌, ◌≤◌, ◌<◌, ◌&&◌, false, Option, none, some, List, [], ◌∷◌, length, ◌==◌, ◌≡◌,
  ◌⊎◌, inl, inr, refl, Option-cases, arith,
}
use alpha_one.Workbook.Align.{Table, write, below, relax, match_cost}

module _ (runs : List (ℕ × ℕ)) (anchors : List ℕ) where
  -- An alignment of the first `i` runs to the first `j` anchors, its cost, and its pairs from the
  -- last on.
  pub data Align : ℕ → ℕ → ℕ → List (ℕ × ℕ) → Type 0 where
    start : Align zero zero zero []
    pair :
        {i j c c' : ℕ} {ps : List (ℕ × ℕ)}
        → Align i j c ps
        → i < length runs
        → j < length anchors
        → c' ≡ c + match_cost runs anchors i j
        → Align (suc i) (suc j) c' ((i, j) ∷ ps)
    no_run :
        {i j c c' : ℕ} {ps : List (ℕ × ℕ)}
        → Align i j c ps
        → j < length anchors
        → c' ≡ c + anchor_skip
        → Align i (suc j) c' ps
    no_anchor :
        {i j c c' : ℕ} {ps : List (ℕ × ℕ)}
        → Align i j c ps
        → i < length runs
        → c' ≡ c + run_skip
        → Align (suc i) j c' ps

  abbrev pub IsSound : Table → Type 0
  IsSound dp = (a b c : ℕ) → dp a b ≡ some c → (ps : List (ℕ × ℕ)) × Align a b c ps

abbrev pub AtMost : Option ℕ → ℕ → Type 0
AtMost none c = ⊥
AtMost (some v) c = v ≤ c

pub AtMost-weaken : (o : Option ℕ) (c d : ℕ) → AtMost o c → c ≤ d → AtMost o d
AtMost-weaken none c d h k = h
AtMost-weaken (some v) c d h k = omega arith

pub AtMost-some : (o : Option ℕ) (c : ℕ) → AtMost o c → (v : ℕ) × (o ≡ some v) × (v ≤ c)
AtMost-some none c h = absurd h
AtMost-some (some v) c h = (v, refl, h)

pub relax_at : (dp : Table) (i j v : ℕ) → AtMost (relax dp i j v i j) v
unfolding relax below write
relax_at dp i j v = elim (Option-cases (dp i j)) [
  | inl e ↦ ground arith
  | inr (w, e) ↦ ground arith
]

pub relax_mono : (dp : Table) (i j v a b c : ℕ) → AtMost (dp a b) c → AtMost (relax dp i j v a b) c
unfolding relax below write
relax_mono dp i j v a b c h = elim (Option-cases (dp i j)) [
  | inl e ↦ ground arith
  | inr (w, e) ↦ ground arith
]

pub relax_other :
    (dp : Table) (i j v a b : ℕ) → (i == a && j == b) ≡ false → relax dp i j v a b ≡ dp a b
unfolding relax write
relax_other dp i j v a b h = ground arith

relax_cases :
    (dp : Table) (i j v a b c : ℕ)
    → relax dp i j v a b ≡ some c
    → ((a ≡ i) × (b ≡ j) × (c ≡ v)) ⊎ (dp a b ≡ some c)
unfolding relax write
relax_cases dp i j v a b c h = ground arith

pub relax-IsSound :
    (runs : List (ℕ × ℕ)) (anchors : List ℕ) (dp : Table) (i j v : ℕ) (ps : List (ℕ × ℕ))
    → Align runs anchors i j v ps
    → IsSound runs anchors dp
    → IsSound runs anchors (relax dp i j v)
relax-IsSound runs anchors dp i j v ps here sound a b c e = elim (relax_cases dp i j v a b c e) [
  | inl (p, q, r) ↦ (ps, rw (p, q, r) here)
  | inr old ↦ sound a b c old
]
