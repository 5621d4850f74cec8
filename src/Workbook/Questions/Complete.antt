-- ===== src/Workbook/Questions/Complete.antt =====
-- The rows of the Open Questions sheet in alpha-one/scripts/parse_prd_workbook.py.
use alpha_one.Workbook.Floats.{tenths}
use alpha_one.Base.{
  ℕ, suc, ◌<◌, ◌&&◌, Bool, true, false, some, List, [], ◌∷◌, ◌++◌, map, length, Str, mem, arith,
  ◌≡◌, ◌≢◌, ◌∙◌, refl, subst, Bool-cases, inl, inr, sym, keep,
}
use alpha_one.Base.{
  All, All-both, All-append, All-keep, keep-All, length-sort_by, ◌==◌, codes, get_elem?-some,
  sort_by, put, has_key, length-map, join_with, List-cases,
}
use alpha_one.Workbook.Cells.{squash}
use alpha_one.Workbook.Legacy.{Fields, field}
use alpha_one.Workbook.Pages.{PageLine, Band, Run, centre, group_runs, indexed_runs}
use alpha_one.Workbook.Rows.{SheetRow, above}
use alpha_one.Workbook.Rows.Anchored.{IsInside, align_runs-IsInside, length-indexed_runs}
use alpha_one.Workbook.Questions.{
  question_band, answer_bands, is_question_header, band_texts, last_banner, set_defaults,
  split_banners, place_answers, fill_answers, question_page, question_pages, parse_open_questions,
}
use alpha_one.Workbook.Questions.Sections.{
  change_at-ends, answer_names, IsSection, HasModule, last_banner-holds, IsPlaced,
  close_questions-ends, set_defaults-answered, set_defaults-section,
}

module _ (is_word : ℕ → Bool) (module_names : List Str) where
  pub split_banners-HasModule :
      (lines : List PageLine)
      → All (HasModule module_names) (split_banners is_word module_names lines).0
  unfolding split_banners
  split_banners-HasModule [] = tt
  split_banners-HasModule ((y, []) ∷ lines) = split_banners-HasModule lines
  split_banners-HasModule ((y, frag ∷ frags) ∷ lines) =
      let joined =
        squash is_word (join_with (32 ∷ []) (map (λ (f : ℕ × Str). f.1) (frag ∷ frags))) in
      elim (Bool-cases (length frags == 0 && mem joined module_names)) [
        | inl e ↦ rw (e, split_banners) (ground arith, split_banners-HasModule lines)
        | inr e ↦ elim (Bool-cases (is_question_header joined)) [
          | inl h ↦ rw (e, h, split_banners) (split_banners-HasModule lines)
          | inr h ↦ rw (e, h, split_banners) (split_banners-HasModule lines)
        ]
      ]

  place_answers-ends :
      (name : Str) (runs : List Run) (pairs : List (ℕ × ℕ)) (cells : List Fields)
      → All (IsInside (length runs) (length cells)) pairs
      → (after : List Fields) × (place_answers is_word module_names name runs pairs cells
          ≡ some after)
        × (length after ≡ length cells)
  unfolding place_answers
  place_answers-ends name runs [] cells h = (cells, refl, refl)
  place_answers-ends name runs ((i, j) ∷ pairs) cells ((pi, pj), h) =
      let (run, found) = get_elem?-some runs i pi in
      let change =
        λ (cell : Fields). put name (squash is_word (field name cell ++ (32 ∷ run.text))) cell in
      let (changed, e, same) = change_at-ends j change cells pj in
      let (after, rest, same_after) =
        place_answers-ends name runs pairs changed
          (subst (λ n. All (IsInside (length runs) n) pairs) (sym same) h) in
      (after, rw (found, e, place_answers) rest, same_after ∙ same)

  fill_answers-ends :
      (bands : List (Band × ℕ)) (body : List PageLine) (anchors : List ℕ) (cells : List Fields)
      → length anchors ≡ length cells
      → (after : List Fields) × (fill_answers is_word module_names bands body anchors cells
          ≡ some after)
        × (length after ≡ length cells)
  unfolding fill_answers
  fill_answers-ends [] body anchors cells same = (cells, refl, refl)
  fill_answers-ends ((band, gap) ∷ bands) body anchors cells same =
      elim (List-cases (group_runs (band_texts band body) gap)) [
        | inl e ↦
            let (after, rest, kept) = fill_answers-ends bands body anchors cells same in
            (after, rw (e, fill_answers) rest, kept)
        | inr (run, runs, e) ↦
            let (pairs, aligned, inside) =
              align_runs-IsInside (indexed_runs 0 (run ∷ runs)) anchors in
            let (changed, placed_here, kept_here) =
              place_answers-ends band.0 (run ∷ runs) pairs cells (
                subst (λ n. All (IsInside n (length cells)) pairs)
                  (length-indexed_runs 0 (run ∷ runs))
                  (subst (λ n. All (IsInside (length (indexed_runs 0 (run ∷ runs))) n) pairs) same
                    inside)) in
            let (after, rest, kept) =
              fill_answers-ends bands body anchors changed (same ∙ sym kept_here) in
            (after, rw (e, aligned, placed_here, fill_answers) rest, kept ∙ kept_here)
      ]

module _ (is_word : ℕ → Bool) (module_names : List Str) (P : Str → Type 0)
    (named : (name : Str) → mem name module_names ≡ true → P name) where
  pub question_page-ends :
      (page : ℕ) (carry : Str) (lines : List PageLine)
      → P carry
      → (rows : List SheetRow) × (name : Str) × (question_page is_word module_names page carry lines
          ≡ some (rows, name))
        × All (IsPlaced P) rows
        × All (λ (row : SheetRow). row.page ≡ page) rows
        × P name
  unfolding question_page
  question_page-ends page carry lines s =
      let banners = (split_banners is_word module_names lines).0 in
      let body = (split_banners is_word module_names lines).1 in
      let modules = split_banners-HasModule is_word module_names lines in
      elim (List-cases (group_runs (band_texts question_band body) (tenths 66))) [
        | inl e ↦ ([], carry, rw (e, question_page) refl, tt, tt, s)
        | inr (run, runs, e) ↦
            let anchors = sort_by above (map centre (run ∷ runs)) in
            let cells = map (λ (r : Run). (codes "question", r.text) ∷ []) (run ∷ runs) in
            let same : length anchors ≡ length cells =
              length-sort_by above (map centre (run ∷ runs))
              ∙ length-map centre (run ∷ runs)
              ∙ sym (length-map (λ (r : Run). (codes "question", r.text) ∷ []) (run ∷ runs)) in
            let (after, filled, kept) =
              fill_answers-ends is_word module_names answer_bands body anchors cells same in
            let (rows, closed, all_rows, on_page) =
              close_questions-ends module_names P named page carry banners anchors after
                (same ∙ sym kept) modules s in
            (
              rows,
              last_banner banners carry,
              rw (e, filled, closed, question_page) refl,
              all_rows,
              on_page,
              last_banner-holds module_names P named banners carry modules s,
            )
      ]

  pub question_pages-ends :
      (all_lines : List (List PageLine)) (pages : List ℕ) (carry : Str)
      → All (λ pno. pno < length all_lines) pages
      → P carry
      → (rows : List SheetRow) × (question_pages is_word module_names all_lines pages carry
          ≡ some rows)
        × All (IsPlaced P) rows
  unfolding question_pages
  question_pages-ends all_lines [] carry h s = ([], refl, tt)
  question_pages-ends all_lines (pno ∷ pages) carry (p, h) s =
      let (lines, at) = get_elem?-some all_lines pno p in
      let (here, name, read, all_here, on_page, section) =
        question_page-ends (suc pno) carry lines s in
      let (rows, run, all_rows) = question_pages-ends all_lines pages name h section in
      (
        here ++ rows,
        rw (at, read, question_pages, run) refl,
        All-append (IsPlaced P) here rows all_here all_rows,
      )

unfoldable pub with_defaults : SheetRow → SheetRow
unfolding set_defaults
with_defaults row = record row { cells = set_defaults row.cells }

unfoldable pub is_asked : SheetRow → Bool
is_asked row = elim (field (codes "question") row.cells) [ [] ↦ false | c ∷ s ↦ true ]

module _ (is_word : ℕ → Bool) (module_names : List Str) where
  -- What every row of the sheet has.
  pub record IsComplete (row : SheetRow) : Type 0 where
    pub asked : field (codes "question") row.cells ≢ []
    pub placed : IsPlaced (IsSection module_names) row
    pub answered : All (λ k. has_key k row.cells ≡ true) answer_names

  -- What the loop over the rows leaves of them.
  IsFilled : SheetRow → Type 0
  IsFilled row =
      IsPlaced (IsSection module_names) row × All (λ k. has_key k row.cells ≡ true) answer_names

  with_defaults-IsFilled :
      (rows : List SheetRow)
      → All (IsPlaced (IsSection module_names)) rows
      → All IsFilled (map with_defaults rows)
  unfolding with_defaults IsFilled
  with_defaults-IsFilled [] h = tt
  with_defaults-IsFilled (row ∷ rows) ((section, at, s), h) = (
    ((section, set_defaults-section row.cells ∙ at, s), set_defaults-answered row.cells),
    with_defaults-IsFilled rows h,
  )

  asked-IsComplete : (row : SheetRow) → is_asked row ≡ true → IsFilled row → IsComplete row
  unfolding is_asked IsFilled
  asked-IsComplete row h (placed_row, answered_row) = record {
    asked = λ f. cc (rw (f, is_asked) at h);
    placed = placed_row;
    answered = answered_row;
  }

  -- The rows that are kept, with what holds of them and of their fields that are there.
  pub kept-IsComplete :
      (Q : SheetRow → Type 0)
      → ((row : SheetRow) → Q row → Q (with_defaults row))
      → (rows : List SheetRow) → All (IsPlaced (IsSection module_names)) rows
      → All Q rows
      → All IsComplete (keep is_asked (map with_defaults rows))
        × All Q (keep is_asked (map with_defaults rows))
  kept-IsComplete Q stays rows placed_rows h =
      let filled = map with_defaults rows in
      (
        All-both (keep is_asked filled) (All-keep is_asked filled)
            (keep-All IsFilled is_asked filled (with_defaults-IsFilled rows placed_rows))
            asked-IsComplete,
        keep-All Q is_asked filled (all_stay rows h),
      )
    where
      all_stay : (some_rows : List SheetRow) → All Q some_rows → All Q (map with_defaults some_rows)
      all_stay [] g = tt
      all_stay (row ∷ more) (q, g) = (stays row q, all_stay more g)

  -- On pages of the workbook the Open Questions sheet is read without an error, whatever its lines are. Each
  -- row has a question that is not empty, the fields for who raised it, its owner, its deadline and
  -- its answer, and a section that is one of the module names or empty.
  parse_open_questions-ends :
      (all_lines : List (List PageLine)) (pages : List ℕ)
      → All (λ pno. pno < length all_lines) pages
      → (rows : List SheetRow) × (parse_open_questions is_word module_names all_lines pages
          ≡ some rows)
        × All IsComplete rows
  unfolding parse_open_questions is_asked with_defaults
  parse_open_questions-ends all_lines pages h =
      let (rows, run, all_rows) =
        question_pages-ends is_word module_names (IsSection module_names) (λ name m. inr m)
          all_lines pages [] h (inl refl) in
      (
        keep is_asked (map with_defaults rows),
        rw (run, parse_open_questions) refl,
        (kept-IsComplete (IsPlaced (IsSection module_names))
            (λ row placed_row.
              (placed_row.0, set_defaults-section row.cells ∙ placed_row.1, placed_row.2))
            rows all_rows all_rows).0,
      )
