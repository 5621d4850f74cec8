-- ===== src/Site/Items/Rendered.antt =====
-- The lists that alpha-one/scripts/build_docs_site.py renders: every item once, with tags that nest.
use alpha_one.Base.{
  ℕ, zero, suc, ◌≤◌, ◌<◌, Bool, true, false, Option, none, some, List, [], ◌∷◌, ◌++◌, length, Str,
  arith, ◌≡◌, ◌∙◌, refl, ap, subst, Bool-cases, inl, inr, sym,
}
use alpha_one.Base.{ltb, append_assoc, append-nil, length-append, All, List-cases}
use alpha_one.Site.Items.{
  Item, Piece, open_list, close_list, open_item, close_item, wrap, item_loop, render_items, deeper,
  first_indent, first_start,
}

-- The texts of the items that the pieces open.
unfoldable pub opened : List Piece → List Str
opened [] = []
opened (open_item text ∷ pieces) = text ∷ opened pieces
opened (close_item ∷ pieces) = opened pieces
opened (open_list start ∷ pieces) = opened pieces
opened (close_list start ∷ pieces) = opened pieces

-- The open elements: an item, or a list that is ordered or not.
pub data Tag : Type 0 where
  item_tag : Tag
  list_tag : Bool → Tag

unfoldable pub is_ordered : Option ℕ → Bool
is_ordered none = false
is_ordered (some n) = true

-- The elements left open by the pieces; none: one is closed that is not the last one opened.
unfoldable pub left_open : List Tag → List Piece → Option (List Tag)
unfolding is_ordered
left_open tags [] = some tags
left_open tags (open_item text ∷ pieces) = left_open (item_tag ∷ tags) pieces
left_open tags (open_list start ∷ pieces) = left_open (list_tag (is_ordered start) ∷ tags) pieces
left_open (item_tag ∷ tags) (close_item ∷ pieces) = left_open tags pieces
left_open (list_tag ordered ∷ tags) (close_item ∷ pieces) = none
left_open [] (close_item ∷ pieces) = none
left_open (list_tag false ∷ tags) (close_list none ∷ pieces) = left_open tags pieces
left_open (list_tag true ∷ tags) (close_list none ∷ pieces) = none
left_open (list_tag true ∷ tags) (close_list (some n) ∷ pieces) = left_open tags pieces
left_open (list_tag false ∷ tags) (close_list (some n) ∷ pieces) = none
left_open (item_tag ∷ tags) (close_list start ∷ pieces) = none
left_open [] (close_list start ∷ pieces) = none

-- Pieces that close what they open, in order, and nothing else.
unfoldable pub IsNested : List Piece → Type 0
IsNested pieces =
    (tags : List Tag) (rest : List Piece) → left_open tags (pieces ++ rest) ≡ left_open tags rest

nil-IsNested : IsNested []
unfolding IsNested
nil-IsNested tags rest = refl

pub IsNested-left_open : (pieces : List Piece) → IsNested pieces → left_open [] pieces ≡ some []
unfolding IsNested left_open
IsNested-left_open pieces h = ap (left_open []) (sym (append-nil pieces)) ∙ h [] []

close-left_open :
    (start : Option ℕ) (tags : List Tag) (rest : List Piece)
    → left_open (list_tag (is_ordered start) ∷ tags) (close_list start ∷ rest) ≡ left_open tags rest
unfolding left_open
close-left_open none tags rest = refl
close-left_open (some n) tags rest = refl

wrap-IsNested :
    (start : Option ℕ) (pieces : List Piece) → IsNested pieces → IsNested (wrap start pieces)
unfolding IsNested wrap left_open
wrap-IsNested start pieces h tags rest = rw (append_assoc pieces (close_list start ∷ []) rest) (
    h (list_tag (is_ordered start) ∷ tags) (close_list start ∷ rest)
    ∙ close-left_open start tags rest)

item-IsNested :
    (text : Str) (inner rest : List Piece)
    → IsNested inner
    → IsNested rest
    → IsNested (open_item text ∷ (inner ++ close_item ∷ rest))
unfolding IsNested left_open
item-IsNested text inner rest h k tags more =
    rw (append_assoc inner (close_item ∷ rest) more)
      (h (item_tag ∷ tags) (close_item ∷ (rest ++ more)) ∙ k tags more)

opened-append : (p q : List Piece) → opened (p ++ q) ≡ opened p ++ opened q
unfolding opened
opened-append [] q = refl
opened-append (open_item text ∷ p) q = ap (◌∷◌ text) (opened-append p q)
opened-append (close_item ∷ p) q = opened-append p q
opened-append (open_list start ∷ p) q = opened-append p q
opened-append (close_list start ∷ p) q = opened-append p q

opened-wrap : (start : Option ℕ) (p : List Piece) → opened (wrap start p) ≡ opened p
unfolding opened wrap
opened-wrap start p = opened-append p (close_list start ∷ []) ∙ append-nil (opened p)

All-middle :
    {A : Type 0} (P : A → Type 0) (front : List A) (x : A) (rest : List A)
    → All P (front ++ x ∷ rest)
    → P x
All-middle P [] x rest (px, others) = px
All-middle P (y ∷ front) x rest (py, others) = All-middle P front x rest others

-- An item of a list that begins with some indentation.
unfoldable pub IsDeep : ℕ → Item → Type 0
IsDeep indent item = indent ≤ item.indent

module _ {S : Type 0} (inline : S → Str → Str × S) where
  -- The texts of items, rendered in order, and the state behind them.
  unfoldable pub rendered : List Item → S → List Str × S
  rendered [] s = ([], s)
  rendered (item ∷ items) s =
      let (text, s1) = inline s item.text in
      let (texts, s2) = rendered items s1 in (text ∷ texts, s2)

  rendered-append :
      (a b : List Item) (s : S)
      → rendered (a ++ b) s
        ≡ ((rendered a s).0 ++ (rendered b (rendered a s).1).0, (rendered b (rendered a s).1).1)
  unfolding rendered
  rendered-append [] b s = refl
  rendered-append (item ∷ a) b s = rw (rendered-append a b (inline s item.text).1) refl

  -- What the loop renders from some items on: those it takes, each once and in order.
  record IsRendered (indent : ℕ) (items : List Item) (s : S) (result : List Piece × (List Item × S))
      : Type 0 where
    taken : List Item
    parts : items ≡ taken ++ result.1.0
    texts : opened result.0 ≡ (rendered taken s).0
    state : result.1.1 ≡ (rendered taken s).1
    nested : IsNested result.0
    stops : (item : Item) (rest : List Item) → result.1.0 ≡ item ∷ rest → item.indent < indent

  nothing-IsRendered :
      (indent : ℕ) (items : List Item) (s : S)
      → ((item : Item) (rest : List Item) → items ≡ item ∷ rest → item.indent < indent)
      → IsRendered indent items s ([], (items, s))
  unfolding rendered opened
  nothing-IsRendered indent items s h = record {
    taken = [];
    parts = refl;
    texts = refl;
    state = refl;
    nested = nil-IsNested;
    stops = h;
  }

  -- An item with the deeper ones behind it.
  deeper-IsRendered :
      (indent below : ℕ) (start : Option ℕ) (item : Item) (items : List Item) (s : S)
      (inner rest : List Piece × (List Item × S))
      → IsRendered below items (inline s item.text).1 inner
      → IsRendered indent inner.1.0 inner.1.1 rest
      → IsRendered indent
          (item ∷ items)
          s
          (open_item (inline s item.text).0 ∷ (wrap start inner.0 ++ (close_item ∷ rest.0)), rest.1)
  unfolding rendered opened
  deeper-IsRendered indent below start item items s inner rest h k = record {
    taken = item ∷ (h.taken ++ k.taken);
    parts =
        ap (◌∷◌ item)
          (h.parts ∙ ap (◌++◌ h.taken) k.parts ∙ sym (append_assoc h.taken k.taken rest.1.0));
    texts = ap (◌∷◌ (inline s item.text).0) (
        opened-append (wrap start inner.0) (close_item ∷ rest.0)
        ∙ rw
            (
              opened-wrap start inner.0,
              h.texts,
              k.texts,
              h.state,
              rendered-append h.taken k.taken (inline s item.text).1,
            )
            refl);
    state =
        rw (k.state, h.state)
          (sym (ap (λ r. r.1) (rendered-append h.taken k.taken (inline s item.text).1)));
    nested =
        item-IsNested (inline s item.text).0 (wrap start inner.0) rest.0
          (wrap-IsNested start inner.0 h.nested) k.nested;
    stops = k.stops;
  }

  flat-IsRendered :
      (indent : ℕ) (item : Item) (items : List Item) (s : S) (rest : List Piece × (List Item × S))
      → IsRendered indent items (inline s item.text).1 rest
      → IsRendered indent
          (item ∷ items)
          s
          (open_item (inline s item.text).0 ∷ close_item ∷ rest.0, rest.1)
  unfolding rendered opened
  flat-IsRendered indent item items s rest k = record {
    taken = item ∷ k.taken;
    parts = ap (◌∷◌ item) k.parts;
    texts = ap (◌∷◌ (inline s item.text).0) k.texts;
    state = k.state;
    nested = item-IsNested (inline s item.text).0 [] rest.0 nil-IsNested k.nested;
    stops = k.stops;
  }

  item_loop-IsRendered :
      (fuel indent : ℕ) (items : List Item) (s : S)
      → length items ≤ fuel
      → IsRendered indent items s (item_loop inline fuel indent items s)
  unfolding item_loop
  item_loop-IsRendered zero indent [] s h = nothing-IsRendered indent [] s (λ item rest e. cc)
  item_loop-IsRendered (suc fuel) indent [] s h = nothing-IsRendered indent [] s (λ item rest e. cc)
  item_loop-IsRendered zero indent (item ∷ items) s h = absurd (omega arith)
  item_loop-IsRendered (suc fuel) indent (item ∷ items) s h =
      let (text, s1) = inline s item.text in
      elim (Bool-cases (ltb item.indent indent)) [
        | inl e ↦
            rw (e, item_loop)
              (nothing-IsRendered indent (item ∷ items) s (λ next rest same.
                let first : item ≡ next = cc in
                subst (λ i. i.indent < indent) first (ground arith)))
        | inr e ↦ elim (Bool-cases (deeper indent items)) [
          | inr flat ↦
              rw (e, item_loop, flat)
                (flat-IsRendered indent item items s _
                  (item_loop-IsRendered fuel indent items s1 (omega arith)))
          | inl deep ↦
              let inner = item_loop-IsRendered fuel (first_indent items) items s1 (omega arith) in
              let behind = (item_loop inline fuel (first_indent items) items s1).1 in
              rw (e, item_loop, deep)
                (deeper-IsRendered indent (first_indent items) (first_start items) item items s _ _
                  inner
                  (item_loop-IsRendered fuel indent behind.0 behind.1
                    (omega (arith, ap length inner.parts, length-append inner.taken behind.0))))
        ]
      ]

  -- Where no item is less indented than the list, none is left.
  pub render_items-IsRendered :
      (indent : ℕ) (items : List Item) (s : S)
      → All (IsDeep indent) items
      → (opened (render_items inline (length items) indent items s).0 ≡ (rendered items s).0)
        × (IsNested (render_items inline (length items) indent items s).0)
        × ((render_items inline (length items) indent items s).1.1 ≡ (rendered items s).1)
  unfolding render_items IsDeep
  render_items-IsRendered indent items s deep =
      let r = item_loop-IsRendered (length items) indent items s (omega arith) in
      let pieces = (item_loop inline (length items) indent items s).0 in
      elim (List-cases (item_loop inline (length items) indent items s).1.0) [
        | inr (item, rest, e) ↦
            let all_deep = subst (All (IsDeep indent)) (r.parts ∙ ap (◌++◌ r.taken) e) deep in
            absurd (
              omega
                (arith, All-middle (IsDeep indent) r.taken item rest all_deep, r.stops item rest e))
        | inl e ↦
            let whole : items ≡ r.taken = r.parts ∙ ap (◌++◌ r.taken) e ∙ append-nil r.taken in
            (
              opened-wrap (first_start items) pieces
                  ∙ r.texts
                  ∙ ap (λ i. (rendered i s).0) (sym whole),
              wrap-IsNested (first_start items) pieces r.nested,
              r.state ∙ ap (λ i. (rendered i s).1) (sym whole),
            )
      ]
