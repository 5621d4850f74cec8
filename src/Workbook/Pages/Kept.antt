-- ===== src/Workbook/Pages/Kept.antt =====
-- What the lines and the runs of alpha-one/scripts/parse_prd_workbook.py keep of the text of a page.
use alpha_one.Base.{List-cases, strip, ◌≤◌, false}
use alpha_one.Workbook.Cells.{unsplit_ids}
use alpha_one.Workbook.Floats.{apart, minus}
use alpha_one.Base.{
  ℕ, ◌+◌, ◌<◌, Bool, List, [], ◌∷◌, ◌++◌, map, Str, arith, ◌≡◌, ◌∙◌, refl, ap, Bool-cases, inl, inr,
  sym,
}
use alpha_one.Base.{leb, count, sort_by, count-sort_by, flat_map, join_with, append_assoc}
use alpha_one.Workbook.Pages.{
  Frag, PageLine, visitor, reads_before, pair_before, y_tolerance, fill_buckets, buckets_of,
  page_lines, Run, extend_runs,
}

count-append {ℓ} :
    {A : Type ℓ} (p : A → Bool) (xs ys : List A) → count p (xs ++ ys) ≡ count p xs + count p ys
unfolding count
count-append p [] ys = omega arith
count-append p (x ∷ xs) ys = omega (arith, count-append p xs ys)

-- The position and the text of a fragment, and those of a page.
abbrev pub placed : Frag → ℕ × Str
placed f = (f.left, f.text)

abbrev pub texts_of : List PageLine → List (ℕ × Str)
texts_of = flat_map (λ (line : PageLine). line.1)

fill_buckets-texts :
    (y : ℕ) (frags : List (ℕ × Str)) (rest : List Frag)
    → texts_of (fill_buckets y frags rest) ≡ frags ++ map placed rest
unfolding fill_buckets
fill_buckets-texts y frags [] = refl
fill_buckets-texts y frags (f ∷ rest) = elim (Bool-cases (leb (apart y f.height) y_tolerance)) [
  | inl e ↦
      rw (e, fill_buckets)
        (fill_buckets-texts y (frags ++ placed f ∷ []) rest
          ∙ append_assoc frags (placed f ∷ []) (map placed rest))
  | inr e ↦
      rw (e, fill_buckets) (ap (◌++◌ frags) (fill_buckets-texts f.height (placed f ∷ []) rest))
]

buckets_of-texts : (frags : List Frag) → texts_of (buckets_of frags) ≡ map placed frags
unfolding buckets_of
buckets_of-texts [] = refl
buckets_of-texts (f ∷ frags) = fill_buckets-texts f.height (placed f ∷ []) frags

count-texts_sorted :
    (p : ℕ × Str → Bool) (lines : List PageLine)
    → count p (texts_of (map (λ (line : PageLine). (line.0, sort_by pair_before line.1)) lines))
      ≡ count p (texts_of lines)
unfolding count
count-texts_sorted p [] = refl
count-texts_sorted p (line ∷ lines) = omega (
  arith,
  count-append p (sort_by pair_before line.1)
      (texts_of (map (λ (line : PageLine). (line.0, sort_by pair_before line.1)) lines)),
  count-append p line.1 (texts_of lines),
  count-sort_by pair_before p line.1,
  count-texts_sorted p lines,
)

count-map {ℓ κ} :
    {A : Type ℓ} {B : Type κ} (p : B → Bool) (f : A → B) (xs : List A)
    → count p (map f xs) ≡ count (λ x. p (f x)) xs
unfolding count
count-map p f [] = refl
count-map p f (x ∷ xs) = omega (arith, count-map p f xs)

-- A fragment whose text, stripped and repaired, is not empty and passes a test with its place.
unfoldable pub passes : (ℕ × Str → Bool) → Frag → Bool
unfolding unsplit_ids
passes p frag = elim (unsplit_ids (strip frag.text)) [ [] ↦ false | c ∷ s ↦ p (frag.left, c ∷ s) ]

count-visitor :
    (p : ℕ × Str → Bool) (given : List Frag)
    → count p (map placed (flat_map visitor given)) ≡ count (passes p) given
unfolding count visitor passes
count-visitor p [] = refl
count-visitor p (frag ∷ given) = elim (List-cases (unsplit_ids (strip frag.text))) [
  | inl e ↦ rw (e, visitor, passes) (omega (arith, count-visitor p given))
  | inr (c, s, e) ↦ rw (e, visitor, passes) (omega (arith, count-visitor p given))
]

-- The lines of a page hold the fragments whose text, stripped and repaired, is not empty, each with its
-- horizontal place and as often as pypdf reports it, and nothing else: for each test as many pass.
pub page_lines-count :
    (p : ℕ × Str → Bool) (given : List Frag)
    → count p (texts_of (page_lines given)) ≡ count (passes p) given
unfolding page_lines
page_lines-count p given =
    let frags = flat_map visitor given in
    let sorted_frags = sort_by reads_before frags in
    count-texts_sorted p (buckets_of sorted_frags)
    ∙ ap (count p) (buckets_of-texts sorted_frags)
    ∙ count-map p placed sorted_frags
    ∙ count-sort_by reads_before (λ f. p (placed f)) frags
    ∙ sym (count-map p placed frags)
    ∙ count-visitor p given

-- From the last line of a run to the first of the next it is more than the gap, as floats differ.
unfoldable pub IsSeparated : ℕ → List Run → Type 0
IsSeparated gap [] = Unit {0}
IsSeparated gap (run ∷ []) = Unit {0}
IsSeparated gap (run ∷ next ∷ runs) =
    (gap < minus run.last next.first) × IsSeparated gap (next ∷ runs)

-- What follows a text, if anything does.
unfoldable pub joined_behind : Str → List Str → Str
joined_behind text [] = text
joined_behind text (next ∷ texts) = text ++ (32 ∷ join_with (32 ∷ []) (next ∷ texts))

pub extend_runs-cons :
    (gap : ℕ) (run : Run) (frags : List (ℕ × Str))
    → (next : Run) × (runs : List Run) × (extend_runs gap run frags ≡ next ∷ runs)
      × (next.first ≡ run.first)
unfolding extend_runs
extend_runs-cons gap run [] = (run, [], refl, refl)
extend_runs-cons gap run ((y, t) ∷ frags) = elim (Bool-cases (leb (minus run.last y) gap)) [
  | inl e ↦
      let (next, runs, same, first) =
        extend_runs-cons gap (record { first = run.first; last = y; text = run.text ++ (32 ∷ t) })
          frags in
      (next, runs, rw (e, extend_runs) same, first)
  | inr e ↦ (
    run,
    extend_runs gap (record { first = y; last = y; text = t }) frags,
    rw (e, extend_runs) refl,
    refl,
  )
]

abbrev pub texts_in : List Run → Str
texts_in runs = join_with (32 ∷ []) (map (λ (r : Run). r.text) runs)

-- From the top of the page to its bottom.
unfoldable pub IsDescending : List (ℕ × Str) → Type 0
IsDescending [] = Unit {0}
IsDescending (f ∷ []) = Unit {0}
IsDescending (f ∷ g ∷ frags) = (g.0 ≤ f.0) × IsDescending (g ∷ frags)
