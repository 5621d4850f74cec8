-- ===== src/Workbook/Questions/Named.antt =====
-- The sections of the Open Questions sheet in alpha-one/scripts/parse_prd_workbook.py behind a banner.
use alpha_one.Workbook.Floats.{tenths}
use alpha_one.Base.{
  ℕ, suc, ◌<◌, ◌&&◌, Bool, true, false, some, List, [], ◌∷◌, ◌++◌, map, length, Str, mem, ◌≡◌, ◌∙◌,
  refl, ap, sym, subst, Bool-cases, ◌⊎◌, inl, inr, keep, arith,
}
use alpha_one.Base.{
  All, All-append, codes, Option-cases, some-injective, ◌==◌, get_elem?, length-sort_by, sort_by,
  join_with, List-cases,
}
use alpha_one.Workbook.Cells.{squash}
use alpha_one.Workbook.Pages.{PageLine, Band, Run, centre, in_band, higher, runs_of, group_runs}
use alpha_one.Workbook.Pages.Kept.{extend_runs-cons}
use alpha_one.Workbook.Legacy.{Fields}
use alpha_one.Workbook.Rows.{SheetRow, above}
use alpha_one.Workbook.Questions.{
  question_band, answer_bands, fill_answers, close_questions, is_question_header, band_texts,
  Banner, last_banner, split_banners, question_page, question_pages, parse_open_questions,
}
use alpha_one.Workbook.Questions.Sections.{
  IsSection, HasModule, IsPlaced, last_banner-holds, set_defaults-section,
}
use alpha_one.Workbook.Questions.Complete.{
  split_banners-HasModule, question_page-ends, question_pages-ends, with_defaults, is_asked,
  IsComplete, kept-IsComplete,
}

IsFull {ℓ} : {A : Type ℓ} → List A → Type ℓ
IsFull xs = (x : _) × (rest : _) × (xs ≡ x ∷ rest)

full_lem {ℓ} : {A : Type ℓ} {xs : List A} → IsFull xs → (x : A) × (rest : List A) × (xs ≡ x ∷ rest)
unfolding IsFull
full_lem h = h

behind-IsFull {ℓ} : {A : Type ℓ} (xs ys : List A) → IsFull ys → IsFull (xs ++ ys)
unfolding IsFull
behind-IsFull [] ys h = h
behind-IsFull (x ∷ xs) ys h = (x, xs ++ ys, refl)

group_runs-IsFull :
    (frags : List (ℕ × Str)) (gap : ℕ) → IsFull frags → IsFull (group_runs frags gap)
unfolding group_runs runs_of IsFull
group_runs-IsFull frags gap (f, rest, e) =
    let sorted_frags = sort_by higher frags in
    elim (List-cases sorted_frags) [
      | inl n ↦ absurd (omega (arith, length-sort_by higher frags, ap length n, ap length e))
      | inr ((y, t), more, same) ↦
          let (run, runs, run_e, first) =
            extend_runs-cons gap (record { first = y; last = y; text = t }) more in
          (run, runs, ap (runs_of gap) same ∙ run_e)
    ]

first_text :
    (band : Band) (y : ℕ) (f : ℕ × Str) (frags : List (ℕ × Str)) (body : List PageLine)
    → in_band f.0 band ≡ true
    → IsFull (band_texts band ((y, f ∷ frags) ∷ body))
unfolding band_texts IsFull
first_text band y f frags body inside = rw inside (_, _, refl)

module _ (is_word : ℕ → Bool) (module_names : List Str) where
  -- Some line of a page is one fragment, the name of a module.
  unfoldable pub HasBanner : List PageLine → Type 0
  HasBanner lines =
      (before : List PageLine) × (y : ℕ) × (x : ℕ) × (t : Str) × (after : List PageLine) × (lines
        ≡ before ++ (y, (x, t) ∷ []) ∷ after)
      × (mem (squash is_word t) module_names ≡ true)

  -- Some line of two or more fragments begins in the band of the questions and is no header.
  unfoldable pub HasQuestion : List PageLine → Type 0
  HasQuestion lines =
      (before : List PageLine) × (y : ℕ) × (f : ℕ × Str) × (g : ℕ × Str) × (frags : List (ℕ × Str))
      × (after : List PageLine) × (lines ≡ before ++ (y, f ∷ g ∷ frags) ∷ after)
      × (in_band f.0 question_band ≡ true)
      × (is_question_header
            (squash is_word (join_with (32 ∷ []) (map (λ (h : ℕ × Str). h.1) (f ∷ g ∷ frags))))
          ≡ false)

  banners-IsFull :
      (before : List PageLine) (y x : ℕ) (t : Str) (after : List PageLine)
      → mem (squash is_word t) module_names ≡ true
      → IsFull (split_banners is_word module_names (before ++ (y, (x, t) ∷ []) ∷ after)).0
  unfolding split_banners join_with IsFull
  banners-IsFull [] y x t after h = rw (h, split_banners) (_, _, refl)
  banners-IsFull ((y', []) ∷ before) y x t after h = banners-IsFull before y x t after h
  banners-IsFull ((y', frag ∷ frags) ∷ before) y x t after h =
      let joined =
        squash is_word (join_with (32 ∷ []) (map (λ (f : ℕ × Str). f.1) (frag ∷ frags))) in
      let later = banners-IsFull before y x t after h in
      elim (Bool-cases (length frags == 0 && mem joined module_names)) [
        | inl e ↦ rw (e, split_banners) (_, _, refl)
        | inr e ↦ elim (Bool-cases (is_question_header joined)) [
          | inl header ↦ rw (e, header, split_banners) later
          | inr header ↦ rw (e, header, split_banners) later
        ]
      ]

  questions-IsFull :
      (before : List PageLine) (y : ℕ) (f g : ℕ × Str) (frags : List (ℕ × Str))
      (after : List PageLine)
      → in_band f.0 question_band ≡ true
      → is_question_header
          (squash is_word (join_with (32 ∷ []) (map (λ (h : ℕ × Str). h.1) (f ∷ g ∷ frags))))
        ≡ false
      → IsFull (
          band_texts question_band
            (split_banners is_word module_names (before ++ (y, f ∷ g ∷ frags) ∷ after)).1)
  unfolding split_banners band_texts IsFull
  questions-IsFull [] y f g frags after inside body =
      let joined =
        squash is_word (join_with (32 ∷ []) (map (λ (h : ℕ × Str). h.1) (f ∷ g ∷ frags))) in
      let several : (length (g ∷ frags) == 0 && mem joined module_names) ≡ false = ground arith in
      rw (several, body, split_banners)
        (first_text question_band y f (g ∷ frags) (split_banners is_word module_names after).1
          inside)
  questions-IsFull ((y', []) ∷ before) y f g frags after inside body =
      questions-IsFull before y f g frags after inside body
  questions-IsFull ((y', frag ∷ others) ∷ before) y f g frags after inside body =
      let joined =
        squash is_word (join_with (32 ∷ []) (map (λ (h : ℕ × Str). h.1) (frag ∷ others))) in
      let later = questions-IsFull before y f g frags after inside body in
      elim (Bool-cases (length others == 0 && mem joined module_names)) [
        | inl e ↦ rw (e, split_banners) later
        | inr e ↦ elim (Bool-cases (is_question_header joined)) [
          | inl header ↦ rw (e, header, split_banners) later
          | inr header ↦ rw (e, header, split_banners) (behind-IsFull _ _ later)
        ]
      ]

  abbrev IsModule : Str → Type 0
  IsModule name = mem name module_names ≡ true

  full-last_banner :
      (banners : List Banner) (name : Str)
      → All (HasModule module_names) banners
      → IsFull banners
      → IsModule (last_banner banners name)
  unfolding last_banner IsFull
  full-last_banner [] name h (x, rest, e) = cc e
  full-last_banner ((y, banner) ∷ banners) name (b, h) full =
      last_banner-holds module_names IsModule (λ n m. m) banners banner h b

  -- The name that a page with a banner and a question carries on.
  question_page-carry :
      (page : ℕ) (carry : Str) (lines : List PageLine) (rows : List SheetRow) (name : Str)
      → HasBanner lines
      → HasQuestion lines
      → question_page is_word module_names page carry lines ≡ some (rows, name)
      → IsModule name
  unfolding question_page HasBanner HasQuestion
  question_page-carry page carry lines rows name (before, y, x, t, after, same, m) question e =
      let (before_q, y_q, f, g, frags, after_q, same_q, inside, body_q) = question in
      let banners = (split_banners is_word module_names lines).0 in
      let body = (split_banners is_word module_names lines).1 in
      let full : IsFull banners =
        subst (λ ls. IsFull (split_banners is_word module_names ls).0) (sym same)
          (banners-IsFull before y x t after m) in
      let texts : IsFull (band_texts question_band body) =
        subst (λ ls. IsFull (band_texts question_band (split_banners is_word module_names ls).1))
          (sym same_q) (questions-IsFull before_q y_q f g frags after_q inside body_q) in
      let (run, runs, grouped) = full_lem (group_runs-IsFull _ (tenths 66) texts) in
      let anchors = sort_by above (map centre (run ∷ runs)) in
      let cells : List Fields = map (λ (r : Run). (codes "question", r.text) ∷ []) (run ∷ runs) in
      let known =
        full-last_banner banners carry (split_banners-HasModule is_word module_names lines) full in
      elim (Option-cases (fill_answers is_word module_names answer_bands body anchors cells)) [
        | inl n ↦ cc (rw (grouped, n, question_page) at e)
        | inr (filled, n) ↦
            elim (Option-cases (close_questions page carry banners anchors filled)) [
              | inl c ↦ cc (rw (grouped, n, c, question_page) at e)
              | inr (closed, c) ↦
                  subst IsModule
                    (ap (λ r. r.1) (some-injective _ _ (rw (grouped, n, c, question_page) at e)))
                    known
            ]
      ]

  -- A row of a page, or one under a module.
  abbrev IsOn : ℕ → SheetRow → Type 0
  IsOn page row = (row.page ≡ page) ⊎ IsPlaced IsModule row

  with_defaults-IsOn : (page : ℕ) (row : SheetRow) → IsOn page row → IsOn page (with_defaults row)
  unfolding with_defaults
  with_defaults-IsOn page row (inl e) = inl e
  with_defaults-IsOn page row (inr (section, at, m)) =
      inr (section, set_defaults-section row.cells ∙ at, m)

  page-IsOn :
      (page : ℕ) (rows : List SheetRow)
      → All (λ (row : SheetRow). row.page ≡ page) rows
      → All (IsOn page) rows
  page-IsOn page [] h = tt
  page-IsOn page (row ∷ rows) (e, h) = (inl e, page-IsOn page rows h)

  named-IsOn :
      (page : ℕ) (rows : List SheetRow)
      → All (IsPlaced IsModule) rows
      → All (IsOn page) rows × All (IsPlaced (IsSection module_names)) rows
  named-IsOn page [] h = (tt, tt)
  named-IsOn page (row ∷ rows) ((section, at, m), h) =
      let (on, placed_rows) = named-IsOn page rows h in
      ((inr (section, at, m), on), ((section, at, inr m), placed_rows))

  -- On pages of the workbook of which the first has a banner, a line that is the name of a module, and a
  -- question, a line of two or more texts that is no header and begins in the band of the questions,
  -- the Open Questions sheet is read without an error. Each row has a question that is not empty,
  -- the fields for who raised it, its owner, its deadline and its answer, and a section that is one
  -- of the module names or empty; each row that does not stand on the first page has one of the
  -- module names.
  pub parse_open_questions-named :
      (all_lines : List (List PageLine)) (first_page : ℕ) (more : List ℕ) (lines : List PageLine)
      → get_elem? all_lines first_page ≡ some lines
      → All (λ pno. pno < length all_lines) more
      → HasBanner lines
      → HasQuestion lines
      → (rows : List SheetRow) × (parse_open_questions is_word module_names all_lines
            (first_page ∷ more)
          ≡ some rows)
        × All (IsComplete is_word module_names) rows
        × All
            (λ (row : SheetRow).
              (row.page ≡ suc first_page) ⊎ IsPlaced (λ name. mem name module_names ≡ true) row)
            rows
  unfolding parse_open_questions is_asked with_defaults question_pages
  parse_open_questions-named all_lines first_page more lines at inside banner question =
      let (here, name, read, placed_here, on_page, section) =
        question_page-ends is_word module_names (IsSection module_names) (λ n m. inr m)
          (suc first_page) [] lines (inl refl) in
      let known = question_page-carry (suc first_page) [] lines here name banner question read in
      let (rest, run, placed_rest) =
        question_pages-ends is_word module_names IsModule (λ n m. m) all_lines more name inside
          known in
      let page = suc first_page in
      let (on_rest, placed_sections) = named-IsOn page rest placed_rest in
      let all_rows =
        All-append (IsPlaced (IsSection module_names)) here rest placed_here placed_sections in
      let all_on = All-append (IsOn page) here rest (page-IsOn page here on_page) on_rest in
      let (complete, on) =
        kept-IsComplete is_word module_names (IsOn page) (with_defaults-IsOn page) (here ++ rest)
          all_rows all_on in
      (
        keep is_asked (map with_defaults (here ++ rest)),
        rw (at, read, run, question_pages) refl,
        complete,
        on,
      )
