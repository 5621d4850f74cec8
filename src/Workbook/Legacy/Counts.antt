-- ===== src/Workbook/Legacy/Counts.antt =====
-- What `merge_legacy` of alpha-one/scripts/parse_prd_workbook.py counts and prints.
use alpha_one.Base.{
  ◌+◌, ◌≤◌, ◌&&◌, ◌||◌, not, List, [], ◌∷◌, length, Str, mem, str_eq, arith, ◌≡◌, ◌∙◌, refl,
  str_eq_sound, Bool-cases, Option-cases, inl, inr, str_eq_comm, mem-append,
}
use alpha_one.Base.{
  lookup, has_key, has_key-put, length-sorted, length-put, lookup-has_key, lookup-none,
  length-append,
}
use alpha_one.Workbook.Legacy.{Row, Legacy, fresh, Merge, merge_row, merge_rows, merge_legacy}
use alpha_one.Workbook.Legacy.Agreement.{parsed}

-- What a round, or the loop, owes to the state it starts in.
record Counted (rows : List Row) (before after : Merge) : Type 0 where
  members :
      (k : Str)
      → mem k after.added ≡ (mem k before.added || parsed rows k && not (has_key k before.legacy))
  keys : (k : Str) → has_key k after.legacy ≡ (parsed rows k || has_key k before.legacy)
  sizes : length after.legacy + length before.added ≡ length before.legacy + length after.added
  rounds : length after.added + after.changed ≤ length rows + length before.added + before.changed

merge_row-Counted : (row : Row) (state : Merge) → Counted (row ∷ []) state (merge_row row state)
unfolding merge_row parsed mem
merge_row-Counted row state = elim (Option-cases (lookup row.req state.legacy)) [
  | inl e ↦
      let new = lookup-none row.req state.legacy e in
      rw (e, merge_row)
        record {
          members = λ k. elim (Bool-cases (str_eq row.req k)) [
            | inl same ↦ ground (
              arith,
              mem-append k state.added (row.req ∷ []),
              str_eq_sound row.req k same,
              str_eq_comm k row.req,
            )
            | inr other ↦
                ground (arith, mem-append k state.added (row.req ∷ []), str_eq_comm k row.req)
          ];
          keys = λ k. has_key-put k row.req (fresh row) state.legacy ∙ ground arith;
          sizes = ground (
            arith,
            length-put row.req (fresh row) state.legacy,
            length-append state.added (row.req ∷ []),
          );
          rounds = omega (arith, length-append state.added (row.req ∷ []));
        }
  | inr (old, e) ↦
      let known = lookup-has_key row.req state.legacy old e in
      rw (e, merge_row)
        record {
          members = λ k. elim (Bool-cases (str_eq row.req k)) [
            | inl same ↦ ground (arith, str_eq_sound row.req k same)
            | inr other ↦ ground arith
          ];
          keys = λ k. has_key-put k row.req (fresh row) state.legacy ∙ ground arith;
          sizes = ground (arith, length-put row.req (fresh row) state.legacy);
          rounds = ground arith;
        }
]

merge_rows-Counted : (rows : List Row) (state : Merge) → Counted rows state (merge_rows rows state)
unfolding merge_rows parsed
merge_rows-Counted [] state = record {
  members = λ k. ground arith;
  keys = λ k. refl;
  sizes = omega arith;
  rounds = omega arith;
}
merge_rows-Counted (row ∷ rows) state =
    let one = merge_row-Counted row state in
    let rest = merge_rows-Counted rows (merge_row row state) in
    record {
      members = λ k. ground (arith, one.members k, one.keys k, rest.members k);
      keys = λ k. ground (arith, one.keys k, rest.keys k);
      sizes = omega (arith, one.sizes, rest.sizes);
      rounds = omega (arith, one.rounds, rest.rounds);
    }

-- What is printed after a merge: the file has grown by the number of the added requests, the
-- added requests are the parsed ones that the file did not have, and the added and the refreshed
-- rows together are at most the parsed rows.
pub merge_legacy-counts :
    (rows : List Row) (legacy : Legacy)
    → (length (merge_legacy rows legacy).legacy
        ≡ length legacy + length (merge_legacy rows legacy).added)
      × ((req : Str)
          → mem req (merge_legacy rows legacy).added
            ≡ (parsed rows req && not (has_key req legacy)))
      × (length (merge_legacy rows legacy).added + (merge_legacy rows legacy).changed ≤ length rows)
unfolding merge_legacy mem
merge_legacy-counts rows legacy =
    let counted = merge_rows-Counted rows record { legacy = legacy; added = []; changed = 0 } in
    (
      omega (
        arith,
        counted.sizes,
        length-sorted (merge_rows rows record { legacy = legacy; added = []; changed = 0 }).legacy,
      ),
      (λ req. counted.members req),
      omega (arith, counted.rounds),
    )
