-- ===== src/Site/Items/Nested.antt =====
-- Where a line of alpha-one/scripts/build_docs_site.py opens a list: what is rendered of it.
use alpha_one.Base.{
  ℕ, zero, suc, ◌≤◌, false, none, some, List, [], ◌∷◌, ◌++◌, map, length, Str, arith, ◌≡◌, refl, ap,
  subst, Bool-cases, Option-cases, inl, inr, some-injective,
}
use alpha_one.Base.{ltb, strip, All, concat}
use alpha_one.Site.Patterns.{Bullet, bullet_of, indent_width}
use alpha_one.Site.Items.{
  Item, Piece, list_loop, piece_text, render_items, render_list, extend_last, is_blank, skip_blank,
  goes_on, first_width,
}
use alpha_one.Site.Items.Rendered.{
  IsNested-left_open, opened, left_open, IsDeep, rendered, render_items-IsRendered,
}
use alpha_one.Site.Renders.Listed.{render_list-first}

append-IsDeep :
    (first : ℕ) (items : List Item) (item : Item)
    → All (IsDeep first) items
    → first ≤ item.indent
    → All (IsDeep first) (items ++ item ∷ [])
unfolding IsDeep
append-IsDeep first [] item h d = (d, tt)
append-IsDeep first (i ∷ items) item (di, h) d = (di, append-IsDeep first items item h d)

extend_last-IsDeep :
    (first : ℕ) (more : Str) (items : List Item)
    → All (IsDeep first) items
    → All (IsDeep first) (extend_last more items)
unfolding IsDeep extend_last
extend_last-IsDeep first more [] h = h
extend_last-IsDeep first more (item ∷ []) h = h
extend_last-IsDeep first more (item ∷ next ∷ items) (d, h) =
    (d, extend_last-IsDeep first more (next ∷ items) h)

-- The line that is neither blank nor an item.
list_loop_text-IsDeep :
    (fuel first : ℕ) (line : Str) (lines behind : List Str) (items found : List Item)
    → bullet_of line ≡ none
    → is_blank line ≡ false
    → ((next : List Item)
        → All (IsDeep first) next
        → list_loop fuel first lines next ≡ some (found, behind)
        → All (IsDeep first) found)
    → All (IsDeep first) items
    → list_loop (suc fuel) first (line ∷ lines) items ≡ some (found, behind)
    → All (IsDeep first) found
unfolding list_loop
list_loop_text-IsDeep fuel first line lines behind [] found e full next d h =
    subst (All (IsDeep first)) (ap (λ r. r.0) (some-injective _ _ (rw (e, list_loop, full) at h)))
      tt
list_loop_text-IsDeep fuel first line lines behind (item ∷ more) found e full next d h =
    elim (Bool-cases (ltb first (indent_width line))) [
      | inl deep ↦
          next (extend_last (strip line) (item ∷ more))
            (extend_last-IsDeep first (strip line) (item ∷ more) d)
            (rw (e, list_loop, full, deep) at h)
      | inr flat ↦
          subst (All (IsDeep first))
            (ap (λ r. r.0) (some-injective _ _ (rw (e, list_loop, full, flat) at h))) d
    ]

list_loop-IsDeep :
    (fuel first : ℕ) (lines behind : List Str) (items found : List Item)
    → All (IsDeep first) items
    → list_loop fuel first lines items ≡ some (found, behind)
    → All (IsDeep first) found
unfolding list_loop
list_loop-IsDeep zero first [] behind items found d h =
    subst (All (IsDeep first)) (ap (λ r. r.0) (some-injective _ _ h)) d
list_loop-IsDeep (suc fuel) first [] behind items found d h =
    subst (All (IsDeep first)) (ap (λ r. r.0) (some-injective _ _ h)) d
list_loop-IsDeep zero first (line ∷ lines) behind items found d h = cc
list_loop-IsDeep (suc fuel) first (line ∷ lines) behind items found d h =
    elim (Option-cases (bullet_of line)) [
      | inr (bullet, e) ↦ elim (Bool-cases (ltb (indent_width line) first)) [
        | inl less ↦
            subst (All (IsDeep first))
              (ap (λ r. r.0) (some-injective _ _ (rw (e, list_loop, less) at h))) d
        | inr more ↦
            list_loop-IsDeep fuel first lines behind _ found
              (append-IsDeep first items
                (record { indent = indent_width line; start = bullet.start; text = bullet.text }) d
                (ground arith))
              (rw (e, list_loop, more) at h)
      ]
      | inl e ↦ elim (Bool-cases (is_blank line)) [
        | inr full ↦
            list_loop_text-IsDeep fuel first line lines behind items found e full
              (λ next. list_loop-IsDeep fuel first lines behind next found) d h
        | inl blank ↦ elim (Bool-cases (goes_on first (skip_blank lines))) [
          | inl on ↦
              list_loop-IsDeep fuel first (skip_blank lines) behind items found d
                (rw (e, list_loop, blank, on) at h)
          | inr ends ↦
              subst (All (IsDeep first))
                (ap (λ r. r.0) (some-injective _ _ (rw (e, list_loop, blank, ends) at h))) d
        ]
      ]
    ]

-- A line that opens a list: `_render_list` returns, every item that its loop collects is rendered once
-- and in their order, on a state that goes through the calls in that order, and the tags of the list
-- nest.
pub render_list-IsNested :
    {S : Type 0} (inline : S → Str → Str × S) (line : Str) (lines : List Str) (bullet : Bullet)
    (s : S)
    → bullet_of line ≡ some bullet
    → (items : List Item) × (behind : List Str) × (pieces : List Piece) × (list_loop
          (length (line ∷ lines))
          (indent_width line)
          (line ∷ lines)
          []
        ≡ some (items, behind))
      × (render_list inline (length (line ∷ lines)) (line ∷ lines) s
          ≡ some (concat (map piece_text pieces), (behind, (rendered inline items s).1)))
      × (opened pieces ≡ (rendered inline items s).0)
      × (left_open [] pieces ≡ some [])
unfolding render_list first_width
render_list-IsNested inline line lines bullet s e =
    let first = indent_width line in
    let (text, left, after, run, w) = render_list-first inline line lines bullet s e in
    elim (Option-cases (list_loop (length (line ∷ lines)) first (line ∷ lines) [])) [
      | inl stuck ↦ cc (rw (stuck, render_list) at run)
      | inr ((items, behind), found) ↦
          let pieces = (render_items inline (length items) first items s).0 in
          let (texts, nested, state) = render_items-IsRendered inline first items s (
            list_loop-IsDeep (length (line ∷ lines)) first (line ∷ lines) behind [] items tt
              found) in
          (
            items,
            behind,
            pieces,
            found,
            rw (found, render_list, state) refl,
            texts,
            IsNested-left_open pieces nested,
          )
    ]
