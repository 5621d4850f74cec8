-- ===== src/Site/Docs/Groups.antt =====
-- The groups of alpha-one/scripts/build_docs_site.py, by the number of a document.
use alpha_one.Base.{
  ℕ, zero, suc, ◌+◌, ◌*◌, ◌||◌, Bool, false, none, some, List, [], ◌∷◌, map, Str, mem, str_eq,
  if◌then◌else◌, ◌≡◌, refl, subst, Bool-cases, Option-cases, inl, inr, some-injective, All,
}
use alpha_one.Base.{codes, leb, lookup}
use alpha_one.Site.Docs.{match_number, module_domain, domain_titles, group_of, doc_group}

-- The groups for a document with the number `n`.
unfoldable pub groups_for : ℕ → List Str
groups_for n =
    if leb n 1
    then codes "Start here" ∷ []
    else if leb n 27
    then map (λ (d : Str × Str). d.1) domain_titles
    else if leb n 35
    then codes "Cross-cutting (28–35)" ∷ []
    else if leb n 40
    then codes "PRD registers (36–40)" ∷ []
    else if leb n 62
    then codes "Design decisions (41–62)" ∷ []
    else codes "Development plan" ∷ []

is_grouped : ℕ → ℕ → Bool
unfolding group_of groups_for
is_grouped i j = elim (group_of ((48 + i) ∷ (48 + j) ∷ [])) [
  | none ↦ false
  | some group ↦ mem group (groups_for (10 * i + j))
]

below : ℕ → List ℕ
below zero = []
below (suc n) = n ∷ below n

-- The domain of a number has a title.
abbrev HasTitle : Str → Type 0
HasTitle domain = (title : Str) × (lookup domain domain_titles ≡ some title)

lookup-All :
    (P : Str → Type 0) (k v : Str) (d : List (Str × Str))
    → All (λ (e : Str × Str). P e.1) d
    → lookup k d ≡ some v
    → P v
unfolding lookup
lookup-All P k v [] h e = cc
lookup-All P k v ((i, w) ∷ d) (pw, h) e = elim (Bool-cases (str_eq i k)) [
  | inl f ↦ subst P (some-injective _ _ (rw (f, lookup) at e)) pw
  | inr f ↦ lookup-All P k v d h (rw (f, lookup) at e)
]

domains-HasTitle :
    HasTitle (codes "D1")
    × HasTitle (codes "D2")
    × HasTitle (codes "D3")
    × HasTitle (codes "D4")
    × HasTitle (codes "D5")
unfolding lookup str_eq
domains-HasTitle = ((_, refl), (_, refl), (_, refl), (_, refl), (_, refl))

module_domain-HasTitle : All (λ (e : Str × Str). HasTitle e.1) module_domain
module_domain-HasTitle =
    let (d1, d2, d3, d4, d5) = domains-HasTitle in
    (
      d4,
      (
        d4,
        (
          d4,
          (
            d4,
            (
              d4,
              (
                d4,
                (
                  d1,
                  (
                    d1,
                    (
                      d1,
                      (
                        d1,
                        (
                          d1,
                          (
                            d2,
                            (
                              d2,
                              (
                                d2,
                                (
                                  d2,
                                  (
                                    d2,
                                    (d2, (d3, (d3, (d3, (d3, (d3, (d5, (d5, (d5, (d5, tt)))))))))),
                                  ),
                                ),
                              ),
                            ),
                          ),
                        ),
                      ),
                    ),
                  ),
                ),
              ),
            ),
          ),
        ),
      ),
    )

-- A group is found for every number.
group_of-ends : (num : Str) → (group : Str) × (group_of num ≡ some group)
unfolding group_of
group_of-ends num = elim (Bool-cases (str_eq num (codes "00") || str_eq num (codes "01"))) [
  | inl e ↦ rw e (_, refl)
  | inr e ↦ elim (Option-cases (lookup num module_domain)) [
    | inl f ↦ rw (e, f) (_, refl)
    | inr (domain, f) ↦
        let (title, found) : HasTitle domain =
          lookup-All HasTitle num domain module_domain module_domain-HasTitle f in
        (title, rw (e, f) found)
  ]
]

pub doc_group-ends : (name : Str) → (group : Str) × (doc_group name ≡ some group)
unfolding doc_group
doc_group-ends name = elim (Option-cases (match_number name)) [
  | inl e ↦ rw (e, doc_group) (_, refl)
  | inr ((num, s), e) ↦ rw (e, doc_group) (group_of-ends num)
]
