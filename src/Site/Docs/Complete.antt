-- ===== src/Site/Docs/Complete.antt =====
-- `collect_docs` of alpha-one/scripts/build_docs_site.py as a whole.
use alpha_one.Base.{
  Bool, true, false, Option, none, some, List, [], ◌∷◌, ◌++◌, Str, ◌≡◌, ◌≢◌, ◌∙◌, refl, ap, sym,
  Bool-cases, inl, inr, All, All-append, append_assoc, str_lt,
}
use alpha_one.Base.{codes, sorted, insert}
use alpha_one.Site.Docs.{
  DocSpec, ReadEnd, lines_of, os_error, not_utf8, heading_in, Files, doc_group, site_path_of,
  add_doc, add_docs, add_readme, add_dir, collect_docs,
}
use alpha_one.Site.Docs.Collected.{strip_suffix-append}
use alpha_one.Site.Docs.Groups.{doc_group-ends}

-- A name as `glob("*.md")` gives it.
abbrev pub IsMarkdown : Str → Type 0
IsMarkdown name = (stem : Str) × (name ≡ stem ++ codes ".md")

-- A document stands under the page of its source.
abbrev pub HasPage : DocSpec → Type 0
HasPage doc = site_path_of doc.src ≡ some doc.site_path

insert-All : (P : Str → Type 0) (x : Str) (ys : List Str) → P x → All P ys → All P (insert x ys)
unfolding insert
insert-All P x [] px h = (px, tt)
insert-All P x (y ∷ ys) px (py, h) = elim (Bool-cases (str_lt y x)) [
  | inl e ↦ rw e (py, insert-All P x ys px h)
  | inr e ↦ rw e (px, (py, h))
]

sorted-All : (P : Str → Type 0) (xs : List Str) → All P xs → All P (sorted xs)
unfolding sorted
sorted-All P [] h = tt
sorted-All P (x ∷ xs) (px, h) = insert-All P x (sorted xs) px (sorted-All P xs h)

site_path_of-ends : (src : Str) → IsMarkdown src → (page : Str) × (site_path_of src ≡ some page)
unfolding site_path_of
site_path_of-ends src (stem, e) = rw (e, strip_suffix-append (codes ".md") stem) (_, refl)

-- A step that keeps the documents under the pages of their sources.
KeepsPages : Option (List DocSpec) → Type 0
KeepsPages result = (docs : List DocSpec) × (result ≡ some docs) × All HasPage docs

-- A file whose text can be read, or cannot be opened.
abbrev pub IsText : ReadEnd → Type 0
IsText end = end ≢ not_utf8

heading_in-ends : (end : ReadEnd) → IsText end → (heading : Str) × (heading_in end ≡ some heading)
unfolding heading_in
heading_in-ends (lines_of lines) h = (_, refl)
heading_in-ends os_error h = ([], refl)
heading_in-ends not_utf8 h = absurd (h refl)

add_doc-KeepsPages :
    (files : Files) (is_api : Bool) (src group : Str) (label : Option Str) (docs : List DocSpec)
    → IsText (files.read src)
    → IsMarkdown src
    → All HasPage docs
    → KeepsPages (add_doc files is_api src group label docs)
unfolding add_doc KeepsPages
add_doc-KeepsPages files is_api src group label docs text md h =
    let (page, e) = site_path_of-ends src md in
    let (heading, read) = heading_in-ends (files.read src) text in
    rw (e, read) (_, refl, All-append HasPage docs _ h (e, tt))

add_docs-KeepsPages :
    (files : Files) (is_api : Bool) (dir : Str) (group : Str → Option Str) (names : List Str)
    (docs : List DocSpec)
    → ((src : Str) → IsText (files.read src))
    → ((name : Str) → (g : Str) × (group name ≡ some g))
    → All IsMarkdown names
    → All HasPage docs
    → KeepsPages (add_docs files is_api dir group names docs)
unfolding add_docs KeepsPages
add_docs-KeepsPages files is_api dir group [] docs texts groups md h = (docs, refl, h)
add_docs-KeepsPages files is_api dir group (name ∷ names) docs texts groups ((stem, e), md) h =
    let (g, found) = groups name in
    let (after, added, pages) =
      add_doc-KeepsPages files is_api (dir ++ name) g none docs (texts (dir ++ name))
        (dir ++ stem, ap (λ t. dir ++ t) e ∙ sym (append_assoc dir stem (codes ".md"))) h in
    rw (found, added, add_docs)
      (add_docs-KeepsPages files is_api dir group names after texts groups md pages)

add_readme-KeepsPages :
    (files : Files) (src group label : Str) (docs : List DocSpec)
    → IsText (files.read src)
    → IsMarkdown src
    → All HasPage docs
    → KeepsPages (add_readme files src group label docs)
unfolding add_readme KeepsPages
add_readme-KeepsPages files src group label docs text md h = elim (Bool-cases (files.is_file src)) [
  | inl e ↦ rw e (add_doc-KeepsPages files false src group (some label) docs text md h)
  | inr e ↦ rw e (docs, refl, h)
]

add_dir-KeepsPages :
    (files : Files) (is_api : Bool) (dir : Str) (group : Str → Option Str) (docs : List DocSpec)
    → ((src : Str) → IsText (files.read src))
    → ((name : Str) → (g : Str) × (group name ≡ some g))
    → All IsMarkdown (files.glob dir)
    → All HasPage docs
    → KeepsPages (add_dir files is_api dir group docs)
unfolding add_dir KeepsPages
add_dir-KeepsPages files is_api dir group docs texts groups md h =
    elim (Bool-cases (files.is_dir dir)) [
      | inl e ↦ rw e (
          add_docs-KeepsPages files is_api (dir ++ codes "/") group (sorted (files.glob dir)) docs
            texts groups (sorted-All IsMarkdown (files.glob dir) md) h)
      | inr e ↦ rw e (docs, refl, h)
    ]

-- Where every name that the file system lists for a directory ends in .md, and no file that is read fails to
-- be UTF-8, `collect_docs` does not raise, and each document stands under the page of its source.
pub collect_docs-ends :
    (files : Files)
    → ((src : Str) → IsText (files.read src))
    → ((dir : Str) → All IsMarkdown (files.glob dir))
    → (docs : List DocSpec) × (collect_docs files ≡ some docs) × All HasPage docs
unfolding collect_docs KeepsPages
collect_docs-ends files texts md =
    let (readme, e1, p1) =
      add_readme-KeepsPages files (codes "README.md") (codes "Overview") (codes "Overview") []
        (texts (codes "README.md")) (codes "README", refl) tt in
    let (docs, e2, p2) =
      add_dir-KeepsPages files false (codes "docs") doc_group readme texts doc_group-ends
        (md (codes "docs")) p1 in
    let (contracts, e3, p3) =
      add_readme-KeepsPages files (codes "contracts/README.md") (codes "Contracts")
        (codes "Contracts pack") docs (texts (codes "contracts/README.md"))
        (codes "contracts/README", refl) p2 in
    let (all_docs, e4, p4) =
      add_dir-KeepsPages files true (codes "contracts/api") (λ name. some (codes "API contracts"))
        contracts texts (λ name. (codes "API contracts", refl)) (md (codes "contracts/api")) p3 in
    (all_docs, rw (e1, e2, e3, e4) refl, p4)
