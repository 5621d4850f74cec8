-- ===== src/Workbook/Questions/Sections.antt =====
-- The sections and fields of the rows of the Open Questions sheet in
-- alpha-one/scripts/parse_prd_workbook.py.
use alpha_one.Base.{
  ℕ, zero, suc, ◌<◌, ◌||◌, true, false, some, List, [], ◌∷◌, length, Str, mem, str_eq, arith, ◌≡◌,
  ◌∙◌, refl, ap, str_eq_refl, str_eq_sound, Bool-cases, ◌⊎◌, inl, inr,
}
use alpha_one.Base.{All, leb, codes, put, has_key, lookup, lookup-put, has_key-put}
use alpha_one.Workbook.Legacy.{Fields}
use alpha_one.Workbook.Rows.{SheetRow}
use alpha_one.Workbook.Questions.{
  change_at, Banner, last_above, last_banner, close_questions, set_default, set_defaults,
}

pub change_at-ends :
    (j : ℕ) (f : Fields → Fields) (cells : List Fields)
    → j < length cells
    → (after : List Fields) × (change_at j f cells ≡ some after) × (length after ≡ length cells)
unfolding change_at
change_at-ends j f [] h = absurd (omega arith)
change_at-ends zero f (cell ∷ cells) h = (f cell ∷ cells, refl, refl)
change_at-ends (suc j) f (cell ∷ cells) h =
    let (after, e, same) = change_at-ends j f cells (omega arith) in
    (cell ∷ after, rw (e, change_at) refl, ap suc same)

-- The names of the fields that each row has.
abbrev pub answer_names : List Str
answer_names = codes "raised_by" ∷ codes "owner" ∷ codes "deadline" ∷ codes "answer" ∷ []

-- The section of a row: a module, or nothing above the first banner.
abbrev pub IsSection : List Str → Str → Type 0
IsSection module_names name = (name ≡ []) ⊎ (mem name module_names ≡ true)

abbrev pub HasModule : List Str → Banner → Type 0
HasModule module_names banner = mem banner.1 module_names ≡ true

-- A row has a section of which `P` holds.
abbrev pub IsPlaced : (Str → Type 0) → SheetRow → Type 0
IsPlaced P row = (section : Str) × (lookup (codes "section") row.cells ≡ some section) × P section

module _ (module_names : List Str) (P : Str → Type 0)
    (named : (name : Str) → mem name module_names ≡ true → P name) where
  last_above-holds :
      (anchor : ℕ) (banners : List Banner) (name : Str)
      → All (HasModule module_names) banners
      → P name
      → P (last_above anchor banners name)
  unfolding last_above
  last_above-holds anchor [] name h s = s
  last_above-holds anchor ((y, banner) ∷ banners) name (b, h) s = elim (Bool-cases (leb anchor y)) [
    | inl e ↦ rw (e, last_above) (last_above-holds anchor banners banner h (named banner b))
    | inr e ↦ rw (e, last_above) (last_above-holds anchor banners name h s)
  ]

  pub last_banner-holds :
      (banners : List Banner) (name : Str)
      → All (HasModule module_names) banners
      → P name
      → P (last_banner banners name)
  unfolding last_banner
  last_banner-holds [] name h s = s
  last_banner-holds ((y, banner) ∷ banners) name (b, h) s =
      last_banner-holds banners banner h (named banner b)

  pub close_questions-ends :
      (page : ℕ) (carry : Str) (banners : List Banner) (anchors : List ℕ) (cells : List Fields)
      → length anchors ≡ length cells
      → All (HasModule module_names) banners
      → P carry
      → (rows : List SheetRow) × (close_questions page carry banners anchors cells ≡ some rows)
        × All (IsPlaced P) rows
        × All (λ (row : SheetRow). row.page ≡ page) rows
  unfolding close_questions
  close_questions-ends page carry banners [] cells same h s = ([], refl, tt, tt)
  close_questions-ends page carry banners (anchor ∷ anchors) [] same h s = absurd (omega arith)
  close_questions-ends page carry banners (anchor ∷ anchors) (cell ∷ cells) same h s =
      let (rows, e, all_rows, on_page) =
        close_questions-ends page carry banners anchors cells (omega arith) h s in
      let section = last_above anchor banners carry in
      (
        record { cells = put (codes "section") section cell; page = page } ∷ rows,
        rw (e, close_questions) refl,
        (
          (
            section,
            lookup-put (codes "section") (codes "section") section cell
                ∙ rw (str_eq_refl (codes "section")) refl,
            last_above-holds anchor banners carry h s,
          ),
          all_rows,
        ),
        (refl, on_page),
      )

has_key-set_default :
    (name k : Str) (cells : Fields)
    → has_key k (set_default name cells) ≡ (str_eq name k || has_key k cells)
unfolding set_default
has_key-set_default name k cells = elim (Bool-cases (has_key name cells)) [
  | inl e ↦ rw e (ground (arith, str_eq_sound name k))
  | inr e ↦ rw e (has_key-put k name [] cells)
]

pub set_defaults-answered :
    (cells : Fields) → All (λ k. has_key k (set_defaults cells) ≡ true) answer_names
unfolding set_defaults
set_defaults-answered cells =
    let one = set_default (codes "raised_by") cells in
    let two = set_default (codes "owner") one in
    let three = set_default (codes "deadline") two in
    (
      ground (
        arith,
        has_key-set_default (codes "answer") (codes "raised_by") three,
        has_key-set_default (codes "deadline") (codes "raised_by") two,
        has_key-set_default (codes "owner") (codes "raised_by") one,
        has_key-set_default (codes "raised_by") (codes "raised_by") cells,
        str_eq_refl (codes "raised_by"),
      ),
      (
        ground (
          arith,
          has_key-set_default (codes "answer") (codes "owner") three,
          has_key-set_default (codes "deadline") (codes "owner") two,
          has_key-set_default (codes "owner") (codes "owner") one,
          str_eq_refl (codes "owner"),
        ),
        (
          ground (
            arith,
            has_key-set_default (codes "answer") (codes "deadline") three,
            has_key-set_default (codes "deadline") (codes "deadline") two,
            str_eq_refl (codes "deadline"),
          ),
          (
            ground (
              arith,
              has_key-set_default (codes "answer") (codes "answer") three,
              str_eq_refl (codes "answer"),
            ),
            tt,
          ),
        ),
      ),
    )

set_default-section :
    (name : Str) (cells : Fields)
    → str_eq name (codes "section") ≡ false
    → lookup (codes "section") (set_default name cells) ≡ lookup (codes "section") cells
unfolding set_default
set_default-section name cells other = elim (Bool-cases (has_key name cells)) [
  | inl e ↦ rw e refl
  | inr e ↦ rw e (lookup-put (codes "section") name [] cells ∙ rw other refl)
]

pub set_defaults-section :
    (cells : Fields)
    → lookup (codes "section") (set_defaults cells) ≡ lookup (codes "section") cells
unfolding set_defaults str_eq
set_defaults-section cells =
    let one = set_default (codes "raised_by") cells in
    let two = set_default (codes "owner") one in
    let three = set_default (codes "deadline") two in
    set_default-section (codes "answer") three refl
    ∙ set_default-section (codes "deadline") two refl
    ∙ set_default-section (codes "owner") one refl
    ∙ set_default-section (codes "raised_by") cells refl
