-- ===== src/Site/Renders/Listed.antt =====
-- Where `_render_list` of alpha-one/scripts/build_docs_site.py stops.
use alpha_one.Base.{
  ℕ, zero, suc, ◌≤◌, ◌<◌, false, Option, none, some, List, [], ◌∷◌, length, Str, arith, ◌≡◌, refl,
  Bool-cases, Option-cases, inl, inr,
}
use alpha_one.Base.{◌<◌, ltb}
use alpha_one.Site.Patterns.{bullet_of, Bullet, indent_width}
use alpha_one.Site.Items.{Item, list_loop, render_list, skip_blank, is_blank, goes_on, first_width}
use alpha_one.Site.Blocks.{weight}
use alpha_one.Site.Renders.Weights.{skip_blank-weight}

-- What a list leaves of the lines is no more than `bound`.
Leaves : ℕ → Option (List Item × List Str) → Type 0
Leaves bound result =
    (found : List Item) × (behind : List Str) × (result ≡ some (found, behind))
    × (weight behind ≤ bound)

Leaves-more :
    (small large : ℕ) (result : Option (List Item × List Str))
    → small ≤ large
    → Leaves small result
    → Leaves large result
unfolding Leaves
Leaves-more small large result le (found, behind, run, w) =
    (found, behind, run, omega (arith, le, w))

Leaves-all :
    (line : Str) (lines : List Str) (found : List Item)
    → Leaves (weight (line ∷ lines)) (some (found, line ∷ lines))
unfolding Leaves
Leaves-all line lines found = (found, line ∷ lines, refl, omega arith)

Leaves-end : (found : List Item) → Leaves 0 (some (found, []))
unfolding Leaves weight
Leaves-end found = (found, [], refl, omega arith)

-- The line behind a list that is neither blank nor an item.
list_loop-text :
    (fuel first : ℕ) (line : Str) (lines : List Str) (items : List Item)
    → bullet_of line ≡ none
    → is_blank line ≡ false
    → ((found : List Item) → Leaves (weight (line ∷ lines)) (list_loop fuel first lines found))
    → Leaves (weight (line ∷ lines)) (list_loop (suc fuel) first (line ∷ lines) items)
unfolding list_loop
list_loop-text fuel first line lines [] e full next =
    rw (e, list_loop, full) (Leaves-all line lines [])
list_loop-text fuel first line lines (item ∷ more) e full next =
    elim (Bool-cases (ltb first (indent_width line))) [
      | inl deep ↦ rw (e, list_loop, full, deep) (next _)
      | inr flat ↦ rw (e, list_loop, full, flat) (Leaves-all line lines (item ∷ more))
    ]

list_loop-ends :
    (fuel first : ℕ) (lines : List Str) (items : List Item)
    → length lines ≤ fuel
    → Leaves (weight lines) (list_loop fuel first lines items)
unfolding list_loop weight
list_loop-ends zero first [] items h = Leaves-end items
list_loop-ends (suc fuel) first [] items h = Leaves-end items
list_loop-ends zero first (line ∷ lines) items h = absurd (omega arith)
list_loop-ends (suc fuel) first (line ∷ lines) items h =
    let next : (found : List Item)
        → Leaves (weight (line ∷ lines)) (list_loop fuel first lines found) =
      λ found.
        Leaves-more (weight lines) (weight (line ∷ lines)) _ (omega arith)
          (list_loop-ends fuel first lines found (omega arith)) in
    elim (Option-cases (bullet_of line)) [
      | inr (bullet, e) ↦ elim (Bool-cases (ltb (indent_width line) first)) [
        | inl less ↦ rw (e, list_loop, less) (Leaves-all line lines items)
        | inr more ↦ rw (e, list_loop, more) (next _)
      ]
      | inl e ↦ elim (Bool-cases (is_blank line)) [
        | inr full ↦ list_loop-text fuel first line lines items e full next
        | inl blank ↦
            let (w, l) = skip_blank-weight lines in
            elim (Bool-cases (goes_on first (skip_blank lines))) [
              | inr ends ↦ rw (e, list_loop, blank, ends) (Leaves-all line lines items)
              | inl on ↦
                  rw (e, list_loop, blank, on)
                    (Leaves-more (weight (skip_blank lines)) (weight (line ∷ lines)) _
                      (omega (arith, w))
                      (list_loop-ends fuel first (skip_blank lines) items (omega (arith, l))))
            ]
      ]
    ]

-- A line that opens a list is taken.
pub render_list-first :
    {S : Type 0} (inline : S → Str → Str × S) (line : Str) (lines : List Str) (bullet : Bullet)
    (s : S)
    → bullet_of line ≡ some bullet
    → (text : Str) × (behind : List Str) × (after : S) × (render_list inline
          (length (line ∷ lines))
          (line ∷ lines)
          s
        ≡ some (text, (behind, after)))
      × (weight behind < weight (line ∷ lines))
unfolding render_list list_loop Leaves weight first_width
render_list-first inline line lines bullet s e =
    let first = indent_width line in
    let less : ltb first first ≡ false = ground arith in
    let (found, behind, run, w) =
      list_loop-ends (length lines) first lines
        (record { indent = first; start = bullet.start; text = bullet.text } ∷ []) (omega arith) in
    let whole : list_loop (length (line ∷ lines)) first (line ∷ lines) [] ≡ some (found, behind) =
      rw (e, list_loop, less) run in
    rw (whole, render_list) (_, behind, _, refl, omega (arith, w))
