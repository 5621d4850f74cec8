-- ===== src/Workbook/Legacy/Agreement.antt =====
-- What `merge_legacy` of alpha-one/scripts/parse_prd_workbook.py leaves for `check`.
use alpha_one.Base.{
  ◌||◌, Bool, true, some, List, [], ◌∷◌, ◌++◌, length, Str, str_eq, if◌then◌else◌, any, arith, ◌≡◌,
  ◌∙◌, refl, ap, ap₂, str_eq_refl, str_eq_sound, Bool-cases, Option-cases, ◌↔◌, inl, inr, sym,
  some-injective,
}
use alpha_one.Base.{
  lookup, has_key, IsDict, put, lookup-put, has_key-put, put-IsDict, has_key-lookup, lookup-has_key,
  has_key-sorted, sorted-IsDict, lookup-sorted, length-keys, flat_map, append-eq-nil, ◌==◌,
}
use alpha_one.Workbook.Legacy.{
  Fields, Row, Legacy, field, compared, fresh, Merge, merge_row, merge_rows, merge_legacy,
  master_of, row_count, field_problems, entry_problems, check,
}

-- Some row is for the request.
unfoldable pub parsed : List Row → Str → Bool
parsed rows req = any (λ (row : Row). str_eq row.req req) rows

-- Both branches of the loop's body write the row.
merge_row-legacy :
    (row : Row) (state : Merge)
    → (merge_row row state).legacy ≡ put row.req (fresh row) state.legacy
unfolding merge_row
merge_row-legacy row state = elim (Option-cases (lookup row.req state.legacy)) [
  | inl e ↦ rw (e, merge_row) refl
  | inr (old, e) ↦ rw (e, merge_row) refl
]

has_key-merge :
    (k : Str) (rows : List Row) (state : Merge)
    → has_key k (merge_rows rows state).legacy ≡ (parsed rows k || has_key k state.legacy)
unfolding merge_rows parsed
has_key-merge k [] state = refl
has_key-merge k (row ∷ rows) state =
    has_key-merge k rows (merge_row row state) ∙ rw (merge_row-legacy, has_key-put) (ground arith)

merge-IsDict :
    (rows : List Row) (state : Merge) → IsDict state.legacy → IsDict (merge_rows rows state).legacy
unfolding merge_rows
merge-IsDict [] state u = u
merge-IsDict (row ∷ rows) state u =
    merge-IsDict rows (merge_row row state)
      (rw merge_row-legacy (put-IsDict row.req (fresh row) state.legacy u))

has_key-master :
    (k : Str) (rows : List Row) (master : List (Str × Row))
    → has_key k (master_of rows master) ≡ (parsed rows k || has_key k master)
unfolding master_of parsed
has_key-master k [] master = refl
has_key-master k (row ∷ rows) master =
    has_key-master k rows (put row.req row master) ∙ rw has_key-put (ground arith)

master-IsDict :
    (rows : List Row) (master : List (Str × Row)) → IsDict master → IsDict (master_of rows master)
unfolding master_of
master-IsDict [] master u = u
master-IsDict (row ∷ rows) master u =
    master-IsDict rows (put row.req row master) (put-IsDict row.req row master u)

-- A request of the master holds its own fresh fields in the file.
Synced : Legacy → List (Str × Row) → Type 0
Synced legacy master =
    (k : Str) (row : Row) → lookup k master ≡ some row → lookup k legacy ≡ some (fresh row)

put-Synced :
    (legacy : Legacy) (master : List (Str × Row)) (row : Row)
    → Synced legacy master
    → Synced (put row.req (fresh row) legacy) (put row.req row master)
unfolding Synced
put-Synced legacy master row h k new e = elim (Bool-cases (str_eq row.req k)) [
  | inl m ↦
      let here = rw (lookup-put, m) at e in
      rw (lookup-put, m) (ap (λ r. some (fresh r)) (some-injective _ _ here))
  | inr m ↦ let there = rw (lookup-put, m) at e in rw (lookup-put, m) (h k new there)
]

merge-Synced :
    (rows : List Row) (state : Merge) (master : List (Str × Row))
    → Synced state.legacy master
    → Synced (merge_rows rows state).legacy (master_of rows master)
unfolding merge_rows master_of
merge-Synced [] state master h = h
merge-Synced (row ∷ rows) state master h =
    merge-Synced rows (merge_row row state) (put row.req row master)
      (rw merge_row-legacy (put-Synced state.legacy master row h))

-- The seven fields of a fresh entry agree with its row.
fresh-quiet : (req : Str) (row : Row) → flat_map (field_problems req (fresh row) row) compared ≡ []
unfolding field_problems fresh field lookup str_eq
fresh-quiet req row = simp str_eq_refl

entry-quiet :
    (master : List (Str × Row)) (req : Str) (row : Row) (old : Fields)
    → lookup req master ≡ some row
    → old ≡ fresh row
    → entry_problems master (req, old) ≡ []
unfolding entry_problems
entry-quiet master req row old found same = rw (found, entry_problems, same) (fresh-quiet req row)

-- Nothing is reported on entries that are all fresh.
entries-quiet :
    (legacy : Legacy) (master : List (Str × Row))
    → IsDict legacy
    → ((k : Str) → has_key k legacy ≡ true → has_key k master ≡ true)
    → ((k : Str) (row : Row)
        → has_key k legacy ≡ true
        → lookup k master ≡ some row
        → lookup k legacy ≡ some (fresh row))
    → flat_map (entry_problems master) legacy ≡ []
unfolding has_key lookup
entries-quiet [] master u sub h = refl
entries-quiet ((req, old) ∷ legacy) master u sub h =
    let known : has_key req ((req, old) ∷ legacy) ≡ true = ground (arith, str_eq_refl req) in
    let (row, found) = has_key-lookup req master (sub req known) in
    let same = some-injective _ _ (rw (str_eq_refl, lookup) at (h req row known found)) in
    ap₂ (λ xs ys. xs ++ ys) (entry-quiet master req row old found same)
      (entries-quiet legacy master u.1 (λ k m. sub k (ground arith))
        (λ k new m e. elim (Bool-cases (str_eq req k)) [
          | inl eq ↦ absurd (ground (arith, str_eq_sound req k eq, u.0))
          | inr ne ↦ rw (ne, lookup) at (h k new (ground arith) e)
        ]))

entries-known :
    (legacy : Legacy) (master : List (Str × Row))
    → flat_map (entry_problems master) legacy ≡ []
    → (k : Str) → has_key k legacy ≡ true
    → has_key k master ≡ true
unfolding entry_problems has_key
entries-known [] master quiet k m = ground arith
entries-known ((req, old) ∷ legacy) master quiet k m =
    let (here, rest) =
      append-eq-nil (entry_problems master (req, old)) (flat_map (entry_problems master) legacy)
        quiet in
    elim (Bool-cases (str_eq req k)) [
      | inl e ↦ elim (Option-cases (lookup req master)) [
        | inl missing ↦ let wrong = rw (missing, entry_problems) at here in cc
        | inr (row, found) ↦ rw (sym (str_eq_sound req k e)) (lookup-has_key req master row found)
      ]
      | inr e ↦ entries-known legacy master rest k (ground arith)
    ]

has_key-merge_legacy :
    (k : Str) (rows : List Row) (legacy : Legacy)
    → has_key k (merge_legacy rows legacy).legacy ≡ (parsed rows k || has_key k legacy)
unfolding merge_legacy
has_key-merge_legacy k rows legacy = has_key-sorted k _ ∙ has_key-merge k rows _

merge_legacy-IsDict :
    (rows : List Row) (legacy : Legacy) → IsDict legacy → IsDict (merge_legacy rows legacy).legacy
unfolding merge_legacy
merge_legacy-IsDict rows legacy u = sorted-IsDict _ (merge-IsDict rows _ u)

has_key-master_of : (k : Str) (rows : List Row) → has_key k (master_of rows []) ≡ parsed rows k
unfolding has_key
has_key-master_of k rows = has_key-master k rows [] ∙ ground arith

merge_legacy-Synced :
    (rows : List Row) (legacy : Legacy)
    → IsDict legacy
    → Synced (merge_legacy rows legacy).legacy (master_of rows [])
unfolding Synced merge_legacy lookup
merge_legacy-Synced rows legacy u k row e =
    lookup-sorted k _ (merge-IsDict rows _ u)
    ∙ merge-Synced rows record { legacy = legacy; added = []; changed = 0 } [] (λ j r m. cc) k row e

check-entries :
    (rows : List Row) (legacy : Legacy)
    → check rows legacy ≡ []
    → flat_map (entry_problems (master_of rows [])) legacy ≡ []
unfolding check
check-entries rows legacy quiet =
    let count = length legacy in
    let parsed_count = length (master_of rows []) in
    (append-eq-nil (if count == parsed_count then [] else row_count count parsed_count ∷ [])
      (flat_map (entry_problems (master_of rows [])) legacy) quiet).1

check-quiet :
    (rows : List Row) (legacy : Legacy)
    → length legacy ≡ length (master_of rows [])
    → flat_map (entry_problems (master_of rows [])) legacy ≡ []
    → check rows legacy ≡ []
unfolding check
check-quiet rows legacy same quiet = ground arith

-- On the dictionary of the file, `check` reports nothing right after `merge_legacy` exactly when
-- every request of the file is the request of a parsed row.
pub check-merge_legacy :
    (rows : List Row) (legacy : Legacy)
    → IsDict legacy
    → (check rows (merge_legacy rows legacy).legacy ≡ [])
      ↔ ((req : Str) → has_key req legacy ≡ true → parsed rows req ≡ true)
unfolding check Synced
check-merge_legacy rows legacy u = (forth, back)
  where
    written : Legacy
    written = (merge_legacy rows legacy).legacy

    forth :
        check rows written ≡ [] → (req : Str) → has_key req legacy ≡ true → parsed rows req ≡ true
    forth quiet req m = ground (
      arith,
      has_key-master_of req rows,
      entries-known written (master_of rows []) (check-entries rows written quiet) req,
      has_key-merge_legacy req rows legacy,
    )

    same_keys :
        ((req : Str) → has_key req legacy ≡ true → parsed rows req ≡ true)
        → (k : Str) → has_key k written ≡ has_key k (master_of rows [])
    same_keys known k =
        ground (arith, has_key-master_of k rows, has_key-merge_legacy k rows legacy, known k)

    back :
        ((req : Str) → has_key req legacy ≡ true → parsed rows req ≡ true) → check rows written ≡ []
    back known =
        let same = same_keys known in
        let shorter =
          length-keys written (master_of rows []) (merge_legacy-IsDict rows legacy u)
            (λ k m. sym (same k) ∙ m) in
        let longer =
          length-keys (master_of rows []) written (master-IsDict rows [] tt) (λ k m. same k ∙ m) in
        check-quiet rows written (omega arith) (
          entries-quiet written (master_of rows []) (merge_legacy-IsDict rows legacy u)
            (λ k m. sym (same k) ∙ m) (λ k row m e. merge_legacy-Synced rows legacy u k row e))
