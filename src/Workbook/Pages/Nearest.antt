-- ===== src/Workbook/Pages/Nearest.antt =====
-- The column of a fragment in alpha-one/scripts/parse_prd_workbook.py is the nearest one.
use alpha_one.Base.{
  ℕ, zero, suc, ◌≤◌, ◌<◌, Bool, none, some, List, [], ◌∷◌, ◌++◌, length, Str, if◌then◌else◌, arith,
  ◌≡◌, ◌∙◌, refl, ap, subst, Bool-cases, ◌↔◌, ◌⊎◌, inl, inr, sym, some-injective,
}
use alpha_one.Base.{
  get_elem?-lt, get_elem?-snoc_new, get_elem?-snoc_old, get_elem?-snoc_cases, get_elem?, get_or,
  ltb, leb, codes, append-nil, append_assoc, length-append,
}
use alpha_one.Workbook.Floats.{apart}
use alpha_one.Workbook.Cells.{is_story}
use alpha_one.Workbook.Pages.{nearest_from, index_of, column_index, x_tolerance}

-- The first position that is no farther than any other.
pub record IsNearest (x : ℕ) (xs : List ℕ) (i : ℕ) : Type 0 where
  pub place : ℕ
  pub at_place : get_elem? xs i ≡ some place
  pub no_nearer : (j y : ℕ) → get_elem? xs j ≡ some y → apart x place ≤ apart x y
  pub earlier : (j y : ℕ) → get_elem? xs j ≡ some y → j < i → apart x place < apart x y

compare_cases : (i j : ℕ) → ((i < j) ⊎ (j < i)) ⊎ (i ≡ j)
compare_cases i j = elim (Bool-cases (ltb i j)) [
  | inl e ↦ inl (inl (ground arith))
  | inr e ↦ elim (Bool-cases (ltb j i)) [
    | inl f ↦ inl (inr (ground arith))
    | inr f ↦ inr (ground arith)
  ]
]

IsNearest-unique : (x : ℕ) (xs : List ℕ) (i j : ℕ) → IsNearest x xs i → IsNearest x xs j → i ≡ j
IsNearest-unique x xs i j p q =
    let le = p.no_nearer j q.place q.at_place in
    let ge = q.no_nearer i p.place p.at_place in
    elim (compare_cases i j) [
      | inl (inl lt) ↦ absurd (omega (arith, q.earlier i p.place p.at_place lt))
      | inl (inr gt) ↦ absurd (omega (arith, p.earlier j q.place q.at_place gt))
      | inr e ↦ e
    ]

snoc_new-IsNearest :
    (x best at y : ℕ) (front : List ℕ)
    → IsNearest x front best
    → get_elem? front best ≡ some at
    → apart x y < apart x at
    → IsNearest x (front ++ y ∷ []) (length front)
snoc_new-IsNearest x best at y front p e near =
    let same : p.place ≡ at = some-injective _ _ (sym p.at_place ∙ e) in
    let near_best : apart x y < apart x p.place = rw same near in
    record {
      place = y;
      at_place = get_elem?-snoc_new front y;
      no_nearer = λ j z h. elim (get_elem?-snoc_cases front y j z h) [
        | inl old ↦ omega (arith, near_best, p.no_nearer j z old)
        | inr (i, z_new) ↦ rw z_new (omega arith)
      ];
      earlier = λ j z h lt. elim (get_elem?-snoc_cases front y j z h) [
        | inl old ↦ omega (arith, near_best, p.no_nearer j z old)
        | inr (i, z_new) ↦ absurd (omega (arith, i, lt))
      ];
    }

snoc_old-IsNearest :
    (x best at y : ℕ) (front : List ℕ)
    → IsNearest x front best
    → get_elem? front best ≡ some at
    → apart x at ≤ apart x y
    → IsNearest x (front ++ y ∷ []) best
snoc_old-IsNearest x best at y front p e far =
    let same : p.place ≡ at = some-injective _ _ (sym p.at_place ∙ e) in
    let far_best : apart x p.place ≤ apart x y = rw same far in
    record {
      place = p.place;
      at_place = get_elem?-snoc_old front y best p.place p.at_place;
      no_nearer = λ j z h. elim (get_elem?-snoc_cases front y j z h) [
        | inl old ↦ p.no_nearer j z old
        | inr (i, z_new) ↦ rw z_new far_best
      ];
      earlier = λ j z h lt. elim (get_elem?-snoc_cases front y j z h) [
        | inl old ↦ p.earlier j z old lt
        | inr (i, z_new) ↦ absurd (omega (arith, i, lt, get_elem?-lt front best at e))
      ];
    }

-- The search from `i` on, behind a prefix whose nearest position is `best`.
nearest_from-IsNearest :
    (x best at : ℕ) (front ys : List ℕ)
    → IsNearest x front best
    → get_elem? front best ≡ some at
    → IsNearest x (front ++ ys) (nearest_from x best at (length front) ys)
unfolding nearest_from
nearest_from-IsNearest x best at front [] p e =
    subst (λ l. IsNearest x l best) (sym (append-nil front)) p
nearest_from-IsNearest x best at front (y ∷ ys) p e =
    let same : p.place ≡ at = some-injective _ _ (sym p.at_place ∙ e) in
    let size : length (front ++ y ∷ []) ≡ suc (length front) =
      omega (arith, length-append front (y ∷ [])) in
    elim (Bool-cases (ltb (apart x y) (apart x at))) [
      | inl near ↦
          rw (near, nearest_from)
            (subst (λ l. IsNearest x l (nearest_from x (length front) y (suc (length front)) ys))
              (append_assoc front (y ∷ []) ys)
              (subst
                (λ n. IsNearest x ((front ++ y ∷ []) ++ ys) (nearest_from x (length front) y n ys))
                size
                (nearest_from-IsNearest x (length front) y (front ++ y ∷ []) ys
                  (snoc_new-IsNearest x best at y front p e (ground arith))
                  (get_elem?-snoc_new front y))))
      | inr far ↦
          rw (far, nearest_from)
            (subst (λ l. IsNearest x l (nearest_from x best at (suc (length front)) ys))
              (append_assoc front (y ∷ []) ys)
              (subst (λ n. IsNearest x ((front ++ y ∷ []) ++ ys) (nearest_from x best at n ys)) size
                (nearest_from-IsNearest x best at (front ++ y ∷ []) ys
                  (snoc_old-IsNearest x best at y front p e (ground arith))
                  (get_elem?-snoc_old front y best at e))))
    ]

pub nearest_lem : (x y : ℕ) (ys : List ℕ) → IsNearest x (y ∷ ys) (nearest_from x 0 y 1 ys)
nearest_lem x y ys =
    nearest_from-IsNearest x 0 y (y ∷ []) ys
      (record {
        place = y;
        at_place = refl;
        no_nearer = first_only;
        earlier = λ j z h lt. absurd (omega arith);
      })
      refl
  where
    first_only : (j z : ℕ) → get_elem? (y ∷ []) j ≡ some z → apart x y ≤ apart x z
    first_only zero z h = rw (some-injective _ _ h) (omega arith)
    first_only (suc j) z h = cc

get_or-place : (xs : List ℕ) (i d a : ℕ) → get_elem? xs i ≡ some a → get_or xs i d ≡ a
get_or-place [] i d a h = cc
get_or-place (x ∷ xs) zero d a h = some-injective _ _ h
get_or-place (x ∷ xs) (suc i) d a h = get_or-place xs i d a h

-- On a fragment that does not read like a user story, or where no column is called so, `column_index`
-- gives a column exactly when it is the first of the nearest ones and at most the tolerance away, by
-- differences of floats that are rounded as Python rounds them.
pub column_index-IsNearest :
    (is_word : ℕ → Bool) (x y : ℕ) (ys : List ℕ) (text : Str) (names : List Str) (i : ℕ)
    → (if is_story is_word text then index_of (codes "User Story") names else none) ≡ none
    → (column_index is_word x text (y ∷ ys) names ≡ some (some i))
      ↔ (IsNearest x (y ∷ ys) i × (apart x (get_or (y ∷ ys) i 0) ≤ x_tolerance))
unfolding column_index
column_index-IsNearest is_word x y ys text names i plain =
    let best = nearest_from x 0 y 1 ys in
    let near = nearest_lem x y ys in
    let d = apart x (get_or (y ∷ ys) best 0) in
    elim (Bool-cases (leb d x_tolerance)) [
      | inl close ↦
          rw (plain, column_index, close)
            (
              λ h.
                  let same : best ≡ i = some-injective _ _ (some-injective _ _ h) in
                  subst
                    (λ k. IsNearest x (y ∷ ys) k × (apart x (get_or (y ∷ ys) k 0) ≤ x_tolerance))
                    same (near, ground arith),
              λ (p, c). ap (λ k. some (some k)) (IsNearest-unique x (y ∷ ys) best i near p),
            )
      | inr far ↦
          rw (plain, column_index, far)
            (
              λ h. cc,
              λ (p, c).
                  let same = IsNearest-unique x (y ∷ ys) i best p near in
                  let c_best : d ≤ x_tolerance =
                    subst (λ k. apart x (get_or (y ∷ ys) k 0) ≤ x_tolerance) same c in
                  absurd (ground arith),
            )
    ]
