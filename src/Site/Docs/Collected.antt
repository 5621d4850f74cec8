-- ===== src/Site/Docs/Collected.antt =====
-- The pages and groups that alpha-one/scripts/build_docs_site.py gives to its documents.
use alpha_one.Base.{
  false, none, some, [], ◌∷◌, ◌++◌, length, Str, str_eq, arith, ◌≡◌, ◌≢◌, ◌∙◌, refl, ap, subst, sym,
  str_eq_refl, str_eq_sound, Bool-cases, Option-cases, List-cases, inl, inr, some-injective,
  append_assoc, length-append,
}
use alpha_one.Base.{codes}
use alpha_one.Site.Docs.{strip_suffix, site_path_of}

strip_suffix-some : (end s before : Str) → strip_suffix end s ≡ some before → s ≡ before ++ end
unfolding strip_suffix
strip_suffix-some end [] before h = elim (Bool-cases (str_eq end [])) [
  | inl e ↦ ground (arith, str_eq_sound end [])
  | inr e ↦ cc (rw (e, strip_suffix) at h)
]
strip_suffix-some end (c ∷ s) before h = elim (Bool-cases (str_eq end (c ∷ s))) [
  | inl e ↦ ground (arith, str_eq_sound end (c ∷ s))
  | inr e ↦ elim (Option-cases (strip_suffix end s)) [
    | inl none_later ↦ cc (rw (e, none_later, strip_suffix) at h)
    | inr (later, f) ↦
        let same : c ∷ later ≡ before = some-injective _ _ (rw (e, f, strip_suffix) at h) in
        subst (λ b. c ∷ s ≡ b ++ end) same (ap (λ t. c ∷ t) (strip_suffix-some end s later f))
  ]
]

pub strip_suffix-append : (end before : Str) → strip_suffix end (before ++ end) ≡ some before
unfolding strip_suffix str_eq
strip_suffix-append [] [] = refl
strip_suffix-append (c ∷ end) [] = rw (str_eq_refl (c ∷ end)) refl
strip_suffix-append end (c ∷ before) = elim (Bool-cases (str_eq end (c ∷ (before ++ end)))) [
  | inl e ↦ absurd (
      omega (arith, ap length (str_eq_sound end (c ∷ (before ++ end)) e), length-append before end))
  | inr e ↦ rw (e, strip_suffix-append end before, strip_suffix) refl
]

append_cancel : (end xs ys : Str) → xs ++ end ≡ ys ++ end → xs ≡ ys
append_cancel end xs ys e =
    some-injective _ _
      (sym (strip_suffix-append end xs) ∙ ap (strip_suffix end) e ∙ strip_suffix-append end ys)

-- How a source gets its page.
data Paged (src page : Str) : Type 0 where
  top : src ≡ codes "README.md" → page ≡ codes "index.html" → Paged src page
  below :
      (parent : Str)
      → src ≡ parent ++ codes "/README.md"
      → page ≡ parent ++ codes "/index.html"
      → Paged src page
  absolute : src ≡ codes "/README.md" → Paged src page
  named : (stem : Str) → src ≡ stem ++ codes ".md" → page ≡ stem ++ codes ".html" → Paged src page

readme_source :
    (src stem parent : Str)
    → src ≡ stem ++ codes ".md"
    → stem ++ codes ".html" ≡ parent ++ codes "/README.html"
    → src ≡ parent ++ codes "/README.md"
readme_source src stem parent e f =
    let same : stem ≡ parent ++ codes "/README" =
      append_cancel (codes ".html") stem (parent ++ codes "/README")
        (f ∙ sym (append_assoc parent (codes "/README") (codes ".html"))) in
    e ∙ ap (λ t. t ++ codes ".md") same ∙ append_assoc parent (codes "/README") (codes ".md")

site_path_of-Paged : (src page : Str) → site_path_of src ≡ some page → Paged src page
unfolding site_path_of
site_path_of-Paged src page h = elim (Option-cases (strip_suffix (codes ".md") src)) [
  | inl e ↦ cc (rw (e, site_path_of) at h)
  | inr (stem, e) ↦
      let at_end = strip_suffix-some (codes ".md") src stem e in
      elim (Bool-cases (str_eq (stem ++ codes ".html") (codes "README.html"))) [
        | inl f ↦
            top
              (at_end
                ∙ ap (λ t. t ++ codes ".md")
                    (append_cancel (codes ".html") stem (codes "README") (str_eq_sound _ _ f)))
              (sym (some-injective _ _ (rw (e, f, site_path_of) at h)))
        | inr f ↦
            elim (Option-cases (strip_suffix (codes "/README.html") (stem ++ codes ".html"))) [
              | inl g ↦
                  named stem at_end (sym (some-injective _ _ (rw (e, f, g, site_path_of) at h)))
              | inr (parent, g) ↦
                  let source =
                    readme_source src stem parent at_end (strip_suffix-some _ _ parent g) in
                  elim (List-cases parent) [
                    | inl empty ↦ absolute (source ∙ ap (λ t. t ++ codes "/README.md") empty)
                    | inr (c, s, filled) ↦ below parent source (
                        sym (some-injective _ _ (rw (e, f, g, filled, site_path_of) at h))
                        ∙ ap (λ t. t ++ codes "/index.html") (sym filled))
                  ]
            ]
      ]
]

-- A path below the root whose last part is not index.md.
pub record IsPlain (src : Str) : Type 0 where
  pub not_top : str_eq src (codes "index.md") ≡ false
  pub not_below : strip_suffix (codes "/index.md") src ≡ none
  pub relative : str_eq src (codes "/README.md") ≡ false

differs_from : (a b : Str) → str_eq a b ≡ false → a ≢ b
differs_from a b h e = cc (rw (e, str_eq_refl b) at h)

not_index : (src dir : Str) → IsPlain src → src ≢ dir ++ codes "/index.md"
not_index src dir plain e =
    let bad =
      ap (strip_suffix (codes "/index.md")) e ∙ strip_suffix-append (codes "/index.md") dir in
    cc (plain.not_below, bad)

-- A page that a README.md and another source would share makes the other an index.md.
shared_top :
    (src stem : Str)
    → IsPlain src
    → src ≡ stem ++ codes ".md"
    → codes "index.html" ≢ stem ++ codes ".html"
shared_top src stem plain e f =
    let same = append_cancel (codes ".html") (codes "index") stem f in
    differs_from src (codes "index.md") plain.not_top (e ∙ ap (λ t. t ++ codes ".md") (sym same))

shared_below :
    (src stem parent : Str)
    → IsPlain src
    → src ≡ stem ++ codes ".md"
    → parent ++ codes "/index.html" ≢ stem ++ codes ".html"
shared_below src stem parent plain e f =
    let same =
      append_cancel (codes ".html") (parent ++ codes "/index") stem
        (append_assoc parent (codes "/index") (codes ".html") ∙ f) in
    not_index src parent plain (
      e
      ∙ ap (λ t. t ++ codes ".md") (sym same)
      ∙ append_assoc parent (codes "/index") (codes ".md"))

top_below : (parent : Str) → codes "index.html" ≢ parent ++ codes "/index.html"
top_below parent e = absurd (omega (arith, ap length e, length-append parent (codes "/index.html")))

Paged-unique : (a b page : Str) → IsPlain a → IsPlain b → Paged a page → Paged b page → a ≡ b
Paged-unique a b page pa pb (absolute e) q = absurd (differs_from a _ pa.relative e)
Paged-unique a b page pa pb p (absolute f) = absurd (differs_from b _ pb.relative f)
Paged-unique a b page pa pb (top e u) (top f v) = e ∙ sym f
Paged-unique a b page pa pb (top e u) (below parent f v) = absurd (top_below parent (sym u ∙ v))
Paged-unique a b page pa pb (top e u) (named stem f v) = absurd (shared_top b stem pb f (sym u ∙ v))
Paged-unique a b page pa pb (below parent e u) (top f v) = absurd (top_below parent (sym v ∙ u))
Paged-unique a b page pa pb (below parent e u) (below other f v) =
    e
    ∙ ap (λ t. t ++ codes "/README.md")
        (append_cancel (codes "/index.html") parent other (sym u ∙ v))
    ∙ sym f
Paged-unique a b page pa pb (below parent e u) (named stem f v) =
    absurd (shared_below b stem parent pb f (sym u ∙ v))
Paged-unique a b page pa pb (named stem e u) (top f v) = absurd (shared_top a stem pa e (sym v ∙ u))
Paged-unique a b page pa pb (named stem e u) (below parent f v) =
    absurd (shared_below a stem parent pa e (sym v ∙ u))
Paged-unique a b page pa pb (named stem e u) (named other f v) =
    e ∙ ap (λ t. t ++ codes ".md") (append_cancel (codes ".html") stem other (sym u ∙ v)) ∙ sym f

-- Two sources with paths below the root, neither called index.md, do not get the same page.
pub site_path_of_unique :
    (a b page : Str)
    → IsPlain a
    → IsPlain b
    → site_path_of a ≡ some page
    → site_path_of b ≡ some page
    → a ≡ b
site_path_of_unique a b page pa pb e f =
    Paged-unique a b page pa pb (site_path_of-Paged a page e) (site_path_of-Paged b page f)
