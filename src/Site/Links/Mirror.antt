-- ===== src/Site/Links/Mirror.antt =====
-- What the links of a page leave behind in alpha-one/scripts/build_docs_site.py: the files to mirror and
-- the directories to list.
use alpha_one.Base.{
  ℕ, zero, suc, ◌-◌, true, false, Option, none, some, [], ◌∷◌, length, Str, mem, str_eq,
  if◌then◌else◌, ◌≡◌, ◌∙◌, ap, subst, str_eq_sound, Bool-cases, Option-cases, inl, inr, sym,
  some-injective,
}
use alpha_one.Base.{codes, strip, lookup, put, lookup-put}
use alpha_one.Site.Slugs.{lower_all}
use alpha_one.Site.Patterns.{escape_html}
use alpha_one.Site.Inline.{
  substitute, image_html, anchor_html, render_inline, match_image, match_anchor, restore_all,
  match_escape, match_code, stash, emphasis,
}
use alpha_one.Site.Links.{
  Disk, SiteState, Place, warn, link_dir, warned, rewrite_dir, rewrite_file, found_file,
  rewrite_local, rewrite, is_external, split_target,
}

-- A file to mirror is there, is no document, and lies in the repository at the place it is mirrored to.
pub record IsAsset (disk : Disk) (file relative : Str) : Type 0 where
  pub is_there : disk.exists file ≡ true
  pub no_document : str_eq (lower_all (disk.suffix file)) (codes ".md") ≡ false
  pub at_place : disk.in_root file ≡ some relative

-- A directory to list is one in the repository, without a rendered readme.
pub record IsListed (disk : Disk) (site : SiteState) (dir : Str) : Type 0 where
  pub a_dir : disk.is_dir dir ≡ true
  pub no_readme : lookup (disk.readme dir) site.md_map ≡ none
  pub inside : (relative : Str) × (disk.in_root dir ≡ some relative)

pub record IsMirror (disk : Disk) (site : SiteState) : Type 0 where
  pub assets :
      (file relative : Str)
      → lookup file site.asset_map ≡ some relative
      → IsAsset disk file relative
  pub listed : (dir : Str) → mem dir site.linked_dirs ≡ true → IsListed disk site dir

warn-IsMirror :
    (disk : Disk) (site : SiteState) (msg : Str)
    → IsMirror disk site
    → IsMirror disk (warn site msg)
unfolding warn
warn-IsMirror disk site msg m = elim (Bool-cases (mem msg site.warnings)) [
  | inl e ↦ rw e m
  | inr e ↦ rw e (record {
    assets = m.assets;
    listed = λ dir h. record {
      a_dir = (m.listed dir h).a_dir;
      no_readme = (m.listed dir h).no_readme;
      inside = (m.listed dir h).inside;
    };
  })
]

link_dir-IsMirror :
    (disk : Disk) (site : SiteState) (dest : Str)
    → IsListed disk site dest
    → IsMirror disk site
    → IsMirror disk (link_dir site dest)
unfolding link_dir mem
link_dir-IsMirror disk site dest d m = elim (Bool-cases (mem dest site.linked_dirs)) [
  | inl e ↦ rw e m
  | inr e ↦ rw e (record {
    assets = m.assets;
    listed = λ dir h.
        let old : IsListed disk site dir = elim (Bool-cases (str_eq dir dest)) [
          | inl same ↦ subst (IsListed disk site) (sym (str_eq_sound dir dest same)) d
          | inr other ↦ m.listed dir (rw (mem, other) at h)
        ] in
        record { a_dir = old.a_dir; no_readme = old.no_readme; inside = old.inside };
  })
]

put-IsMirror :
    (disk : Disk) (site : SiteState) (file relative : Str)
    → IsAsset disk file relative
    → IsMirror disk site
    → IsMirror disk (record site { asset_map = put file relative site.asset_map })
put-IsMirror disk site file relative a m = record {
  assets = λ other place h.
      let looked = lookup-put other file relative site.asset_map in
      elim (Bool-cases (str_eq file other)) [
        | inl same ↦
            subst (λ f. IsAsset disk f place) (str_eq_sound file other same)
              (subst (IsAsset disk file) (some-injective _ _ (sym (rw same at looked) ∙ h)) a)
        | inr apart ↦ m.assets other place (sym (rw apart at looked) ∙ h)
      ];
  listed = λ dir h. record {
    a_dir = (m.listed dir h).a_dir;
    no_readme = (m.listed dir h).no_readme;
    inside = (m.listed dir h).inside;
  };
}

module _ (disk : Disk) (place : Place) where
  rewrite_dir-IsMirror :
      (site : SiteState) (target path frag dest : Str)
      → disk.is_dir dest ≡ true
      → IsMirror disk site
      → IsMirror disk (rewrite_dir disk place site target path frag dest).1
  unfolding rewrite_dir warned
  rewrite_dir-IsMirror site target path frag dest d m =
      elim (Option-cases (lookup (disk.readme dest) site.md_map)) [
        | inr (page, e) ↦ rw (e, rewrite_dir) m
        | inl e ↦ elim (Option-cases (disk.in_root dest)) [
          | inl out ↦ rw (e, rewrite_dir, out) (warn-IsMirror disk site _ m)
          | inr (relative, at) ↦
              rw (e, rewrite_dir, at)
                (link_dir-IsMirror disk site dest
                  (record { a_dir = d; no_readme = e; inside = (relative, at) }) m)
        ]
      ]

  rewrite_file-IsMirror :
      (site : SiteState) (target frag dest : Str)
      → disk.exists dest ≡ true
      → IsMirror disk site
      → IsMirror disk (rewrite_file disk place site target frag dest).1
  unfolding rewrite_file warned
  rewrite_file-IsMirror site target frag dest d m =
      elim (Bool-cases (str_eq (lower_all (disk.suffix dest)) (codes ".md"))) [
        | inl doc ↦ elim (Option-cases (lookup dest site.md_map)) [
          | inr (page, e) ↦ rw (doc, rewrite_file, e) m
          | inl e ↦ rw (doc, rewrite_file, e) (warn-IsMirror disk site _ m)
        ]
        | inr other ↦ elim (Option-cases (disk.in_root dest)) [
          | inl out ↦ rw (other, rewrite_file, out) (warn-IsMirror disk site _ m)
          | inr (relative, at) ↦
              rw (other, rewrite_file, at)
                (put-IsMirror disk site dest relative
                  (record { is_there = d; no_document = other; at_place = at }) m)
        ]
      ]

  found_file-exists :
      (dest file : Str) → found_file disk place dest ≡ some file → disk.exists file ≡ true
  unfolding found_file
  found_file-exists dest file h =
      let other = if str_eq (disk.suffix dest) (codes ".md") then dest else disk.with_md dest in
      elim (Bool-cases (disk.exists dest)) [
        | inl e ↦ rw (sym (some-injective _ _ (rw (e, found_file) at h))) e
        | inr absent ↦ elim (Bool-cases (disk.exists other)) [
          | inl e ↦ rw (sym (some-injective _ _ (rw (absent, found_file, e) at h))) e
          | inr e ↦ cc (rw (absent, found_file, e) at h)
        ]
      ]

  rewrite_local-IsMirror :
      (site : SiteState) (target path frag : Str)
      → IsMirror disk site
      → IsMirror disk (rewrite_local disk place site target path frag).1
  unfolding rewrite_local warned
  rewrite_local-IsMirror site target path frag m =
      let dest = disk.resolved place.src_file path in
      elim (Bool-cases (disk.is_dir dest)) [
        | inl d ↦ rw d (rewrite_dir-IsMirror site target path frag dest d m)
        | inr absent ↦ elim (Option-cases (found_file disk place dest)) [
          | inl e ↦ rw (absent, e) (warn-IsMirror disk site _ m)
          | inr (file, e) ↦
              rw (absent, e)
                (rewrite_file-IsMirror site target frag file (found_file-exists dest file e) m)
        ]
      ]

  -- The path of a target, behind the fragment.
  rewrite_path-IsMirror :
      (site : SiteState) (target path frag : Str)
      → IsMirror disk site
      → IsMirror disk
          (elim path as (λ p. Str × SiteState) [
            | [] ↦ (target, site)
            | c ∷ s ↦ rewrite_local disk place site target (c ∷ s) frag
          ]).1
  rewrite_path-IsMirror site target [] frag m = m
  rewrite_path-IsMirror site target (c ∷ s) frag m =
      rewrite_local-IsMirror site target (c ∷ s) frag m

  pub rewrite-IsMirror :
      (site : SiteState) (raw : Str)
      → IsMirror disk site
      → IsMirror disk (rewrite disk place site raw).1
  unfolding rewrite
  rewrite-IsMirror site raw m =
      let target = strip raw in
      elim (Bool-cases (is_external target)) [
        | inl e ↦ rw e m
        | inr local ↦
            let (part, frag) = split_target target in
            rw local (rewrite_path-IsMirror site target (disk.unquote part) frag m)
      ]

-- A property of the state that each replacement keeps is kept.
substitute-keeps :
    {A S : Type 0} (match_at : Str → Option (A × Str)) (replace : S → A → Str × S) (P : S → Type 0)
    → ((s : S) (found : A) → P s → P (replace s found).1)
    → (inside : ℕ) (s : S) (text : Str) → P s
    → P (substitute match_at replace inside s text).1
unfolding substitute
substitute-keeps match_at replace P kept inside s [] h = h
substitute-keeps match_at replace P kept (suc inside) s (c ∷ text) h =
    substitute-keeps match_at replace P kept inside s text h
substitute-keeps match_at replace P kept zero s (c ∷ text) h =
    elim (Option-cases (match_at (c ∷ text))) [
      | inl e ↦ rw (e, substitute) (substitute-keeps match_at replace P kept 0 s text h)
      | inr (found, e) ↦
          rw (e, substitute)
            (substitute-keeps match_at replace P kept (length text - length found.1)
              (replace s found.0).1 text (kept s found.0 h))
    ]

-- Where the files to mirror are there, are no documents and lie in the repository at the places they are
-- mirrored to, and the directories to list are directories of the repository without a rendered readme,
-- this is so behind a text that is rendered with the links of any page, whatever the file system
-- answers.
pub render_inline-IsMirror :
    (disk : Disk) (place : Place) (site after : SiteState) (text html : Str)
    → IsMirror disk site
    → render_inline (rewrite disk place) site text ≡ some (html, after)
    → IsMirror disk after
unfolding render_inline image_html anchor_html
render_inline-IsMirror disk place site after text html m h =
    let (escaped, lits) = substitute match_escape (stash false) 0 [] text in
    let (coded, stashed) = substitute match_code (stash true) 0 lits escaped in
    let link = rewrite disk place in
    let kept_by : (s : SiteState) (raw : Str) → IsMirror disk s → IsMirror disk (link s raw).1 =
      rewrite-IsMirror disk place in
    let pictures = substitute match_image (image_html link) 0 site (escape_html false coded) in
    let anchors = substitute match_anchor (anchor_html link) 0 pictures.1 pictures.0 in
    let kept : IsMirror disk anchors.1 =
      substitute-keeps match_anchor (anchor_html link) (IsMirror disk)
        (λ s found. kept_by s found.1) 0 pictures.1 pictures.0
        (substitute-keeps match_image (image_html link) (IsMirror disk)
          (λ s found. kept_by s found.1) 0 site (escape_html false coded) m) in
    elim (Option-cases (restore_all 0 stashed (emphasis anchors.0))) [
      | inl e ↦ cc (rw e at h)
      | inr (new, e) ↦ subst (IsMirror disk) (ap (λ r. r.1) (some-injective _ _ (rw e at h))) kept
    ]
