-- ===== src/Workbook/Align/Backtrack.antt =====
-- The backtracking loop of `_align_runs`: it ends, and returns an alignment of least cost.
use alpha_one.Workbook.Align.{anchor_skip, run_skip}
use alpha_one.Base.{
  ℕ, zero, suc, ◌+◌, ◌-◌, ◌≤◌, true, false, Option, none, some, List, [], ◌∷◌, length, ◌≡◌, inl,
  inr, refl, Bool-cases, arith, some-injective, sym, ◌∙◌,
}
use alpha_one.Workbook.Align.{
  Table, match_cost, table, equals_plus, take_pair, skip_anchor, skip_run, move, backtrack,
  align_runs,
}
use alpha_one.Workbook.Align.Table.{Align, start, pair, no_run, no_anchor, AtMost-some}
use alpha_one.Workbook.Align.Optimal.{table-le, table-IsSound, table_finite}

equals_plus-some :
    (o : Option ℕ) (c w : ℕ)
    → equals_plus (some c) o w ≡ true
    → (v : ℕ) × (o ≡ some v) × (c ≡ v + w)
unfolding equals_plus
equals_plus-some none c w h = ground arith
equals_plus-some (some v) c w h = (v, refl, ground arith)

equals_plus_intro :
    (o : Option ℕ) (c v w : ℕ) → o ≡ some v → c ≡ v + w → equals_plus (some c) o w ≡ true
unfolding equals_plus
equals_plus_intro o c v w h e = ground arith

pred_suc : (j : ℕ) → suc j - 1 ≡ j
pred_suc j = omega arith

module _ (runs : List (ℕ × ℕ)) (anchors : List ℕ) where
  abbrev dp : Table
  dp = table runs anchors

  -- The predecessor from which an entry got its value.
  data Came : ℕ → ℕ → ℕ → Type 0 where
    origin : {c : ℕ} → c ≡ 0 → Came zero zero c
    by_pair :
        {i j c : ℕ} (v : ℕ)
        → dp i j ≡ some v
        → c ≡ v + match_cost runs anchors i j
        → Came (suc i) (suc j) c
    by_anchor : {i j c : ℕ} (v : ℕ) → dp i j ≡ some v → c ≡ v + anchor_skip → Came i (suc j) c
    by_run : {i j c : ℕ} (v : ℕ) → dp i j ≡ some v → c ≡ v + run_skip → Came (suc i) j c

  -- An alignment that costs no more than the entry is the entry's value.
  le_entry :
      (i j c d : ℕ) (ps : List (ℕ × ℕ)) → dp i j ≡ some c → Align runs anchors i j d ps → c ≤ d
  le_entry i j c d ps e a =
      let (v, found, less) = AtMost-some (dp i j) d (table-le runs anchors a) in
      let same = some-injective _ _ (sym e ∙ found) in omega arith

  came :
      {i j c : ℕ} {ps : List (ℕ × ℕ)} → Align runs anchors i j c ps → dp i j ≡ some c → Came i j c
  came start e = origin refl
  came (pair {i} {j} {c} {c' = c'} a p q h) e =
      let (v, found, less) = AtMost-some (dp i j) c (table-le runs anchors a) in
      let (ps, shorter) = table-IsSound runs anchors i j v found in
      by_pair v found (
        omega (
          arith,
          le_entry (suc i) (suc j) c' (v + match_cost runs anchors i j) ((i, j) ∷ ps) e
              (pair shorter p q refl),
        ))
  came (no_run {i} {j} {c} {c' = c'} a q h) e =
      let (v, found, less) = AtMost-some (dp i j) c (table-le runs anchors a) in
      let (ps, shorter) = table-IsSound runs anchors i j v found in
      by_anchor v found
        (omega (arith, le_entry i (suc j) c' (v + anchor_skip) ps e (no_run shorter q refl)))
  came (no_anchor {i} {j} {c} {c' = c'} a p h) e =
      let (v, found, less) = AtMost-some (dp i j) c (table-le runs anchors a) in
      let (ps, shorter) = table-IsSound runs anchors i j v found in
      by_run v found
        (omega (arith, le_entry (suc i) j c' (v + run_skip) ps e (no_anchor shorter p refl)))

  entry-Came : (i j c : ℕ) → dp i j ≡ some c → Came i j c
  entry-Came i j c e = let (ps, a) = table-IsSound runs anchors i j c e in came a e

  left_anchor :
      (j c : ℕ) → Came zero (suc j) c → (v : ℕ) × (dp zero j ≡ some v) × (c ≡ v + anchor_skip)
  left_anchor j c (by_anchor v e h) = (v, e, h)

  left_run : (i c : ℕ) → Came (suc i) zero c → (v : ℕ) × (dp i zero ≡ some v) × (c ≡ v + run_skip)
  left_run i c (by_run v e h) = (v, e, h)

  at_start : (c : ℕ) → Came zero zero c → c ≡ 0
  at_start c (origin h) = h

  -- Where neither of the first two tests passes, the third branch is right.
  last_branch :
      (i j c : ℕ)
      → Came (suc i) (suc j) c
      → equals_plus (some c) (dp i j) (match_cost runs anchors i j) ≡ false
      → equals_plus (some c) (dp (suc i) j) anchor_skip ≡ false
      → (v : ℕ) × (dp i (suc j) ≡ some v) × (c ≡ v + run_skip)
  last_branch i j c (by_pair v e h) p q =
      cc (p, equals_plus_intro (dp i j) c v (match_cost runs anchors i j) e h)
  last_branch i j c (by_anchor v e h) p q =
      cc (q, equals_plus_intro (dp (suc i) j) c v anchor_skip e h)
  last_branch i j c (by_run v e h) p q = (v, e, h)

  module _ (i j c : ℕ) (e : dp (suc i) (suc j) ≡ some c) where
    move_pair :
        equals_plus (some c) (dp i j) (match_cost runs anchors i j) ≡ true
        → move runs anchors dp (suc i) (suc j) ≡ take_pair
    unfolding move
    move_pair t = rw (e, t)

    move_anchor :
        equals_plus (some c) (dp i j) (match_cost runs anchors i j) ≡ false
        → equals_plus (some c) (dp (suc i) j) anchor_skip ≡ true
        → move runs anchors dp (suc i) (suc j) ≡ skip_anchor
    unfolding move
    move_anchor t u = rw (e, t, u)

    move_run :
        equals_plus (some c) (dp i j) (match_cost runs anchors i j) ≡ false
        → equals_plus (some c) (dp (suc i) j) anchor_skip ≡ false
        → move runs anchors dp (suc i) (suc j) ≡ skip_run
    unfolding move
    move_run t u = rw (e, t, u)

  abbrev Ends : ℕ → ℕ → ℕ → ℕ → Type 0
  Ends fuel i j c =
      (ps : List (ℕ × ℕ)) × (backtrack runs anchors dp fuel i j ≡ some ps)
      × Align runs anchors i j c ps

  backtrack-Ends :
      (fuel i j c : ℕ)
      → i + j ≤ fuel
      → i ≤ length runs
      → j ≤ length anchors
      → dp i j ≡ some c
      → Ends fuel i j c
  unfolding backtrack move
  backtrack-Ends zero zero zero c f p q e = ([], refl, rw (at_start c (entry-Came 0 0 c e)) start)
  backtrack-Ends zero zero (suc j) c f p q e = absurd (omega arith)
  backtrack-Ends zero (suc i) j c f p q e = absurd (omega arith)
  backtrack-Ends (suc fuel) zero zero c f p q e =
      ([], refl, rw (at_start c (entry-Came 0 0 c e)) start)
  backtrack-Ends (suc fuel) zero (suc j) c f p q e =
      let (v, found, h) = left_anchor j c (entry-Came zero (suc j) c e) in
      let (ps, r, a) = backtrack-Ends fuel zero j v (omega arith) p (omega arith) found in
      (ps, rw pred_suc r, no_run a q h)
  backtrack-Ends (suc fuel) (suc i) zero c f p q e =
      let (v, found, h) = left_run i c (entry-Came (suc i) zero c e) in
      let (ps, r, a) = backtrack-Ends fuel i zero v (omega arith) (omega arith) q found in
      (ps, rw pred_suc r, no_anchor a p h)
  backtrack-Ends (suc fuel) (suc i) (suc j) c f p q e =
      elim (Bool-cases (equals_plus (some c) (dp i j) (match_cost runs anchors i j))) [
        | inl t ↦
            let (v, found, h) = equals_plus-some (dp i j) c (match_cost runs anchors i j) t in
            let (ps, r, a) =
              backtrack-Ends fuel i j v (omega arith) (omega arith) (omega arith) found in
            (
              (i, j) ∷ ps,
              rw (
                move_pair i j c e t,
                backtrack,
                pred_suc i,
                pred_suc j,
                r,
                pred_suc i,
                pred_suc j,
              ),
              pair a p q h,
            )
        | inr t ↦ elim (Bool-cases (equals_plus (some c) (dp (suc i) j) anchor_skip)) [
          | inl u ↦
              let (v, found, h) = equals_plus-some (dp (suc i) j) c anchor_skip u in
              let (ps, r, a) =
                backtrack-Ends fuel (suc i) j v (omega arith) p (omega arith) found in
              (ps, rw (move_anchor i j c e t u, backtrack, pred_suc j) r, no_run a q h)
          | inr u ↦
              let (v, found, h) = last_branch i j c (entry-Came (suc i) (suc j) c e) t u in
              let (ps, r, a) =
                backtrack-Ends fuel i (suc j) v (omega arith) (omega arith) q found in
              (ps, rw (move_run i j c e t u, backtrack, pred_suc i) r, no_anchor a p h)
        ]
      ]

  -- On every list of runs and every list of anchors `_align_runs` returns pairs. They are an
  -- order-preserving alignment of all runs and anchors, and no alignment costs less.
  pub align_runs_optimal :
      (pairs : List (ℕ × ℕ)) × (cost : ℕ) × (align_runs runs anchors ≡ some pairs)
      × Align runs anchors (length runs) (length anchors) cost pairs
      × ((other : ℕ) (ps : List (ℕ × ℕ))
          → Align runs anchors (length runs) (length anchors) other ps
          → cost ≤ other)
  unfolding align_runs
  align_runs_optimal =
      let (cost, e) =
        table_finite runs anchors (length runs) (length anchors) (omega arith) (omega arith) in
      let (pairs, ends, a) =
        backtrack-Ends (length runs + length anchors) (length runs) (length anchors) cost
          (omega arith) (omega arith) (omega arith) e in
      (
        pairs,
        cost,
        ends,
        a,
        λ other ps b. le_entry (length runs) (length anchors) cost other ps e b,
      )
