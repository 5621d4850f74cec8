-- ===== src/Workbook/Main/Dictionary.antt =====
-- The data dictionary of alpha-one/scripts/parse_prd_workbook.py holds every entry once.
use alpha_one.Base.{
  ℕ, ◌<◌, ◌&&◌, ◌||◌, not, Bool, true, false, none, some, List, [], ◌∷◌, ◌++◌, length, Str, str_eq,
  any, arith, ◌≡◌, ◌∙◌, refl, str_eq_sound, Bool-cases, inl, inr, str_eq_comm,
}
use alpha_one.Base.{codes, get_elem?, get_elem?-some, All}
use alpha_one.Workbook.Legacy.{field}
use alpha_one.Workbook.Keys.{dictionary_bands}
use alpha_one.Workbook.Pages.{PageLine, bucket_to_bands}
use alpha_one.Workbook.Main.{has_entry, add_entry, dictionary_lines, dictionary_pages}

-- No entry stands in the list twice.
unfoldable pub IsOnce : List (Str × Str) → Type 0
IsOnce [] = Unit {0}
IsOnce (e ∷ entries) = (has_entry e entries ≡ false) × IsOnce entries

-- A section and its value can be an entry.
unfoldable pub counts_as : Str → Bool
counts_as [] = false
counts_as (c ∷ s) = not (str_eq (c ∷ s) (codes "Section"))

has_entry-append :
    (e : Str × Str) (xs ys : List (Str × Str))
    → has_entry e (xs ++ ys) ≡ (has_entry e xs || has_entry e ys)
unfolding has_entry
has_entry-append e [] ys = refl
has_entry-append e (x ∷ xs) ys = ground (arith, has_entry-append e xs ys)

has_entry-same :
    (x y a b : Str) (dd : List (Str × Str))
    → has_entry (a, b) dd ≡ true
    → (str_eq x a && str_eq y b) ≡ true
    → has_entry (x, y) dd ≡ true
has_entry-same x y a b dd h same =
    let ex : x ≡ a = str_eq_sound x a (ground arith) in
    let ey : y ≡ b = str_eq_sound y b (ground arith) in rw (ex, ey) h

has_entry-add_entry :
    (s v : Str) (dd : List (Str × Str)) (e : Str × Str)
    → has_entry e (add_entry s v dd)
      ≡ (has_entry e dd || counts_as s && (str_eq e.0 s && str_eq e.1 v))
unfolding add_entry counts_as has_entry
has_entry-add_entry [] v dd (x, y) = ground arith
has_entry-add_entry (c ∷ s) v dd (x, y) = elim (Bool-cases (str_eq (c ∷ s) (codes "Section"))) [
  | inl title ↦ rw title (ground arith)
  | inr other ↦ elim (Bool-cases (has_entry (c ∷ s, v) dd)) [
    | inl seen ↦
        let known : (str_eq x (c ∷ s) && str_eq y v) ≡ true → has_entry (x, y) dd ≡ true =
          has_entry-same x y (c ∷ s) v dd seen in
        rw (other, seen)
          (elim (Bool-cases (str_eq x (c ∷ s) && str_eq y v)) [
            | inl same ↦ rw (same, known same) refl
            | inr apart ↦ rw apart (ground arith)
          ])
    | inr new ↦ rw (other, new) (has_entry-append (x, y) dd ((c ∷ s, v) ∷ []) ∙ ground arith)
  ]
]

snoc-IsOnce :
    (entries : List (Str × Str)) (e : Str × Str)
    → IsOnce entries
    → has_entry e entries ≡ false
    → IsOnce (entries ++ e ∷ [])
unfolding IsOnce has_entry
snoc-IsOnce [] e once new = (refl, tt)
snoc-IsOnce (x ∷ entries) e (fresh, once) new = (
  has_entry-append x entries (e ∷ [])
      ∙ ground (arith, fresh, str_eq_comm x.0 e.0, str_eq_comm x.1 e.1),
  snoc-IsOnce entries e once (ground arith),
)

add_entry-IsOnce : (s v : Str) (dd : List (Str × Str)) → IsOnce dd → IsOnce (add_entry s v dd)
unfolding add_entry
add_entry-IsOnce [] v dd once = once
add_entry-IsOnce (c ∷ s) v dd once = elim (Bool-cases (str_eq (c ∷ s) (codes "Section"))) [
  | inl title ↦ rw title once
  | inr other ↦ elim (Bool-cases (has_entry (c ∷ s, v) dd)) [
    | inl seen ↦ rw (other, seen) once
    | inr new ↦ rw (other, new) (snoc-IsOnce dd (c ∷ s, v) once new)
  ]
]

or_assoc : (a b c : Bool) → ((a || b) || c) ≡ (a || (b || c))
or_assoc a b c = ground arith

module _ (is_word : ℕ → Bool) where
  -- A line gives an entry: its cells in the two bands, under a section that is none of the header.
  unfoldable pub gives : Str × Str → PageLine → Bool
  unfolding counts_as bucket_to_bands
  gives e line =
      let vals = bucket_to_bands is_word line.1 dictionary_bands in
      counts_as (field (codes "section") vals)
      && (str_eq e.0 (field (codes "section") vals) && str_eq e.1 (field (codes "value") vals))

  dictionary_lines-IsOnce :
      (lines : List PageLine) (dd : List (Str × Str))
      → IsOnce dd
      → IsOnce (dictionary_lines is_word lines dd)
        × ((e : Str × Str)
            → has_entry e (dictionary_lines is_word lines dd)
              ≡ (has_entry e dd || any (gives e) lines))
  unfolding dictionary_lines gives
  dictionary_lines-IsOnce [] dd once = (once, λ e. ground arith)
  dictionary_lines-IsOnce (line ∷ lines) dd once =
      let vals = bucket_to_bands is_word line.1 dictionary_bands in
      let s = field (codes "section") vals in
      let v = field (codes "value") vals in
      let (once_after, entries) =
        dictionary_lines-IsOnce lines (add_entry s v dd) (add_entry-IsOnce s v dd once) in
      (
        once_after,
        λ e. entries e ∙ rw (has_entry-add_entry s v dd e) (or_assoc (has_entry e dd) _ _),
      )

  -- A page of the workbook gives an entry.
  unfoldable pub page_gives : List (List PageLine) → Str × Str → ℕ → Bool
  unfolding gives
  page_gives all_lines e pno = elim (get_elem? all_lines pno) [
    | none ↦ false
    | some lines ↦ any (gives e) lines
  ]

  dictionary_pages-step :
      (all_lines : List (List PageLine)) (pages : List ℕ) (dd : List (Str × Str))
      → All (λ pno. pno < length all_lines) pages
      → IsOnce dd
      → (after : List (Str × Str)) × (dictionary_pages is_word all_lines pages dd ≡ some after)
        × IsOnce after
        × ((e : Str × Str)
            → has_entry e after ≡ (has_entry e dd || any (page_gives all_lines e) pages))
  unfolding dictionary_pages page_gives
  dictionary_pages-step all_lines [] dd h once = (dd, refl, once, λ e. ground arith)
  dictionary_pages-step all_lines (pno ∷ pages) dd (p, h) once =
      let (lines, at) = get_elem?-some all_lines pno p in
      let (once_here, here) = dictionary_lines-IsOnce lines dd once in
      let (after, run, once_after, entries) =
        dictionary_pages-step all_lines pages (dictionary_lines is_word lines dd) h once_here in
      (
        after,
        rw (at, dictionary_pages) run,
        once_after,
        λ e. entries e ∙ rw (here e, at, page_gives) (or_assoc (has_entry e dd) _ _),
      )

  -- On pages of the workbook the data dictionary is read without an error, holds no entry twice, and holds
  -- exactly the entries that a line of these pages gives under a section other than the header's.
  pub dictionary_pages-IsOnce :
      (all_lines : List (List PageLine)) (pages : List ℕ)
      → All (λ pno. pno < length all_lines) pages
      → (dd : List (Str × Str)) × (dictionary_pages is_word all_lines pages [] ≡ some dd)
        × IsOnce dd
        × ((e : Str × Str) → has_entry e dd ≡ any (page_gives all_lines e) pages)
  unfolding has_entry IsOnce
  dictionary_pages-IsOnce all_lines pages h = dictionary_pages-step all_lines pages [] h tt
