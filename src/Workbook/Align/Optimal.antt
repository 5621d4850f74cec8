-- ===== src/Workbook/Align/Optimal.antt =====
-- Filling the table of `_align_runs`: each entry ends as the least cost of an alignment.
use alpha_one.Workbook.Align.{anchor_skip, run_skip}
use alpha_one.Base.{
  ℕ, zero, suc, ◌+◌, ◌≤◌, ◌<◌, ◌&&◌, none, some, List, [], ◌∷◌, length, if◌then◌else◌, ltb, ◌≡◌,
  ◌⊎◌, inl, inr, refl, Bool-cases, Option-cases, arith, some-injective, subst, sym, ◌∙◌,
}
use native.Mathlib.Nat.{zero-add}
use alpha_one.Workbook.Align.{
  Table, write, relax, match_cost, fill_cell, fill_row, fill_rows, table,
}
use alpha_one.Workbook.Align.Table.{
  Align, start, pair, no_run, no_anchor, IsSound, AtMost, AtMost-weaken, AtMost-some, relax_at,
  relax_mono, relax_other, relax-IsSound,
}

-- An entry has passed its value on to its three successors.
pub record IsPassedOn (runs : List (ℕ × ℕ)) (anchors : List ℕ) (dp : Table) (a b c : ℕ)
    : Type 0 where
  pub matched :
      a < length runs
      → b < length anchors
      → AtMost (dp (suc a) (suc b)) (c + match_cost runs anchors a b)
  pub run_skipped : b < length anchors → AtMost (dp a (suc b)) (c + anchor_skip)
  pub anchor_skipped : a < length runs → AtMost (dp (suc a) b) (c + run_skip)

-- The entries before entry (i, j), in the order of the loops.
abbrev pub Before : ℕ → ℕ → ℕ → ℕ → Type 0
Before a b i j = (a < i) ⊎ ((a ≡ i) × (b < j))

pub record Inv (runs : List (ℕ × ℕ)) (anchors : List ℕ) (i j : ℕ) (dp : Table) : Type 0 where
  pub sound : IsSound runs anchors dp
  pub origin : AtMost (dp 0 0) 0
  pub passed :
      (a b c : ℕ)
      → Before a b i j
      → dp a b ≡ some c
      → b ≤ length anchors
      → IsPassedOn runs anchors dp a b c

module _ (runs : List (ℕ × ℕ)) (anchors : List ℕ) (i j cur : ℕ) (dp : Table) where
  -- The three writes of a round, at an entry with a value.
  first_write : Table
  first_write =
      if ltb i (length runs) && ltb j (length anchors)
      then relax dp (suc i) (suc j) (cur + match_cost runs anchors i j)
      else dp

  second_write : Table
  second_write =
      if ltb j (length anchors)
      then relax first_write i (suc j) (cur + anchor_skip)
      else first_write

  third_write : Table
  third_write =
      if ltb i (length runs) then relax second_write (suc i) j (cur + run_skip) else second_write

  fill_cell-third_write : dp i j ≡ some cur → fill_cell runs anchors i j dp ≡ third_write
  unfolding fill_cell third_write second_write first_write
  fill_cell-third_write h = rw (h, fill_cell)

  writes_mono : (a b c : ℕ) → AtMost (dp a b) c → AtMost (third_write a b) c
  unfolding third_write second_write first_write
  writes_mono a b c h =
      let cost = cur + match_cost runs anchors i j in
      ground (
        arith,
        relax_mono dp (suc i) (suc j) cost a b c,
        relax_mono first_write i (suc j) (cur + anchor_skip) a b c,
        relax_mono second_write (suc i) j (cur + run_skip) a b c,
      )

  writes_other : (a b : ℕ) → Before a b i (suc j) → third_write a b ≡ dp a b
  unfolding third_write second_write first_write
  writes_other a b h =
      let cost = cur + match_cost runs anchors i j in
      ground (
        arith,
        relax_other dp (suc i) (suc j) cost a b,
        relax_other first_write i (suc j) (cur + anchor_skip) a b,
        relax_other second_write (suc i) j (cur + run_skip) a b,
      )

  first-IsSound : dp i j ≡ some cur → IsSound runs anchors dp → IsSound runs anchors first_write
  unfolding first_write
  first-IsSound h sound = elim (Bool-cases (ltb i (length runs) && ltb j (length anchors))) [
    | inl e ↦
        let (ps, here) = sound i j cur h in
        rw e (
          relax-IsSound runs anchors dp (suc i) (suc j) (cur + match_cost runs anchors i j)
            ((i, j) ∷ ps) (pair here (ground arith) (ground arith) refl) sound)
    | inr e ↦ rw e sound
  ]

  second-IsSound : dp i j ≡ some cur → IsSound runs anchors dp → IsSound runs anchors second_write
  unfolding second_write
  second-IsSound h sound = elim (Bool-cases (ltb j (length anchors))) [
    | inl e ↦
        let (ps, here) = sound i j cur h in
        rw e (
          relax-IsSound runs anchors first_write i (suc j) (cur + anchor_skip) ps
            (no_run here (ground arith) refl) (first-IsSound h sound))
    | inr e ↦ rw e (first-IsSound h sound)
  ]

  writes-IsSound : dp i j ≡ some cur → IsSound runs anchors dp → IsSound runs anchors third_write
  unfolding third_write
  writes-IsSound h sound = elim (Bool-cases (ltb i (length runs))) [
    | inl e ↦
        let (ps, here) = sound i j cur h in
        rw e (
          relax-IsSound runs anchors second_write (suc i) j (cur + run_skip) ps
            (no_anchor here (ground arith) refl) (second-IsSound h sound))
    | inr e ↦ rw e (second-IsSound h sound)
  ]

  writes-IsPassedOn : IsPassedOn runs anchors third_write i j cur
  unfolding third_write second_write first_write
  writes-IsPassedOn =
      let cost = cur + match_cost runs anchors i j in
      record {
        matched = λ p q. ground (
          arith,
          relax_at dp (suc i) (suc j) cost,
          relax_mono first_write i (suc j) (cur + anchor_skip) (suc i) (suc j) cost,
          relax_mono second_write (suc i) j (cur + run_skip) (suc i) (suc j) cost,
        );
        run_skipped = λ q. ground (
          arith,
          relax_at first_write i (suc j) (cur + anchor_skip),
          relax_mono second_write (suc i) j (cur + run_skip) i (suc j) (cur + anchor_skip),
        );
        anchor_skipped = λ p. ground (arith, relax_at second_write (suc i) j (cur + run_skip));
      }

module _ (runs : List (ℕ × ℕ)) (anchors : List ℕ) where
  passed_mono :
      (dp dp' : Table) (a b c : ℕ)
      → ((x y v : ℕ) → AtMost (dp x y) v → AtMost (dp' x y) v)
      → IsPassedOn runs anchors dp a b c
      → IsPassedOn runs anchors dp' a b c
  passed_mono dp dp' a b c mono h = record {
    matched = λ p q. mono (suc a) (suc b) (c + match_cost runs anchors a b) (h.matched p q);
    run_skipped = λ q. mono a (suc b) (c + anchor_skip) (h.run_skipped q);
    anchor_skipped = λ p. mono (suc a) b (c + run_skip) (h.anchor_skipped p);
  }

  -- One round.
  fill_cell-Inv :
      (i j : ℕ) (dp : Table)
      → Inv runs anchors i j dp
      → Inv runs anchors i (suc j) (fill_cell runs anchors i j dp)
  unfolding fill_cell
  fill_cell-Inv i j dp h = elim (Option-cases (dp i j)) [
    | inl e ↦
        rw (e, fill_cell)
          (record {
            sound = h.sound;
            origin = h.origin;
            passed = λ a b c before found fits. h.passed a b c (ground arith) found fits;
          })
    | inr (cur, e) ↦
        let dp' = third_write runs anchors i j cur dp in
        let mono = writes_mono runs anchors i j cur dp in
        rw (fill_cell-third_write runs anchors i j cur dp e) (record {
          sound = writes-IsSound runs anchors i j cur dp e h.sound;
          origin = mono 0 0 0 h.origin;
          passed = λ a b c before found fits.
              let old = writes_other runs anchors i j cur dp a b before in
              elim (split a b before) [
                | inl earlier ↦
                    passed_mono dp dp' a b c mono (h.passed a b c earlier (sym old ∙ found) fits)
                | inr (p, q) ↦
                    let same = some-injective _ _ (sym e ∙ rw (p, q) at (sym old ∙ found)) in
                    rw (p, q, ← same) (writes-IsPassedOn runs anchors i j cur dp)
              ];
        })
  ]
    where
      split : (a b : ℕ) → Before a b i (suc j) → Before a b i j ⊎ ((a ≡ i) × (b ≡ j))
      split a b h = ground arith

  fill_row-Inv :
      (rounds i j : ℕ) (dp : Table)
      → Inv runs anchors i j dp
      → Inv runs anchors i (rounds + j) (fill_row runs anchors rounds i j dp)
  unfolding fill_row
  fill_row-Inv zero i j dp h = rw zero-add h
  fill_row-Inv (suc rounds) i j dp h =
      let later =
        fill_row-Inv rounds i (suc j) (fill_cell runs anchors i j dp) (fill_cell-Inv i j dp h) in
      subst
        (λ k.
          Inv runs anchors i k
            (fill_row runs anchors rounds i (suc j) (fill_cell runs anchors i j dp)))
        (omega arith) later

  -- The next row begins.
  next_row :
      (i : ℕ) (dp : Table)
      → Inv runs anchors i (suc (length anchors) + 0) dp
      → Inv runs anchors (suc i) 0 dp
  next_row i dp h = record {
    sound = h.sound;
    origin = h.origin;
    passed = λ a b c before found fits. h.passed a b c (ground arith) found fits;
  }

  fill_rows-Inv :
      (rounds i : ℕ) (dp : Table)
      → Inv runs anchors i 0 dp
      → Inv runs anchors (rounds + i) 0 (fill_rows runs anchors rounds i dp)
  unfolding fill_rows
  fill_rows-Inv zero i dp h = rw zero-add h
  fill_rows-Inv (suc rounds) i dp h =
      let row = fill_row runs anchors (suc (length anchors)) i 0 dp in
      let filled = next_row i row (fill_row-Inv (suc (length anchors)) i 0 dp h) in
      subst (λ k. Inv runs anchors k 0 (fill_rows runs anchors rounds (suc i) row)) (omega arith)
        (fill_rows-Inv rounds (suc i) row filled)

  at_origin : (a b c : ℕ) → write (λ i j. none) 0 0 0 a b ≡ some c → (a ≡ 0) × (b ≡ 0) × (c ≡ 0)
  unfolding write
  at_origin a b c e = ground arith

  origin-Inv : Inv runs anchors 0 0 (write (λ i j. none) 0 0 0)
  unfolding write
  origin-Inv = record {
    sound = λ a b c e. let (p, q, r) = at_origin a b c e in ([], rw (p, q, r) start);
    origin = ground arith;
    passed = λ a b c before found fits. absurd (ground arith);
  }

  table-Inv : Inv runs anchors (suc (length runs)) 0 (table runs anchors)
  unfolding table
  table-Inv =
      subst (λ k. Inv runs anchors k 0 (table runs anchors)) (omega arith)
        (fill_rows-Inv (suc (length runs)) 0 (write (λ i j. none) 0 0 0) origin-Inv)

  fits :
      {i j c : ℕ} {ps : List (ℕ × ℕ)}
      → Align runs anchors i j c ps
      → (i ≤ length runs) × (j ≤ length anchors)
  fits start = omega arith
  fits (pair a p q e) = omega (arith, fits a)
  fits (no_run a q e) = omega (arith, fits a)
  fits (no_anchor a p e) = omega (arith, fits a)

  -- No alignment costs less than the entry of the table.
  pub table-le :
      {i j c : ℕ} {ps : List (ℕ × ℕ)}
      → Align runs anchors i j c ps
      → AtMost (table runs anchors i j) c
  table-le start = table-Inv.origin
  table-le (pair {i} {j} {c} {c' = c'} a p q e) =
      let (v, found, less) = AtMost-some (table runs anchors i j) c (table-le a) in
      let moved = table-Inv.passed i j v (inl (omega arith)) found (omega arith) in
      AtMost-weaken (table runs anchors (suc i) (suc j)) _ c' (moved.matched p q) (omega arith)
  table-le (no_run {i} {j} {c} {c' = c'} a q e) =
      let (v, found, less) = AtMost-some (table runs anchors i j) c (table-le a) in
      let moved = table-Inv.passed i j v (inl (omega (arith, fits a))) found (omega arith) in
      AtMost-weaken (table runs anchors i (suc j)) _ c' (moved.run_skipped q) (omega arith)
  table-le (no_anchor {i} {j} {c} {c' = c'} a p e) =
      let (v, found, less) = AtMost-some (table runs anchors i j) c (table-le a) in
      let moved = table-Inv.passed i j v (inl (omega arith)) found (omega (arith, fits a)) in
      AtMost-weaken (table runs anchors (suc i) j) _ c' (moved.anchor_skipped p) (omega arith)

  pub table-IsSound : IsSound runs anchors (table runs anchors)
  table-IsSound = table-Inv.sound

  -- Every entry of the table is finite.
  skip_all :
      (i j : ℕ) → i ≤ length runs → j ≤ length anchors → (c : ℕ) × Align runs anchors i j c []
  skip_all zero zero p q = (0, start)
  skip_all zero (suc j) p q =
      let (c, a) = skip_all zero j p (omega arith) in (c + anchor_skip, no_run a q refl)
  skip_all (suc i) j p q =
      let (c, a) = skip_all i j (omega arith) q in (c + run_skip, no_anchor a p refl)

  pub table_finite :
      (i j : ℕ) → i ≤ length runs → j ≤ length anchors → (v : ℕ) × (table runs anchors i j ≡ some v)
  table_finite i j p q =
      let (c, a) = skip_all i j p q in
      let (v, found, less) = AtMost-some (table runs anchors i j) c (table-le a) in (v, found)
