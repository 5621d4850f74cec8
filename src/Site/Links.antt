-- ===== src/Site/Links.antt =====
-- `Site.rewrite` of alpha-one/scripts/build_docs_site.py. What it asks of `pathlib`, `os.path` and
-- `urllib.parse` is a record of functions; a path is its text.
pub mod Mirror
use alpha_one.Base.{
  ℕ, ◌&&◌, ◌||◌, not, Bool, true, false, Option, none, some, List, [], ◌∷◌, ◌++◌, Str, mem, str_eq,
  if◌then◌else◌,
}
use alpha_one.Base.{codes, ◌==◌, leb, strip, lookup, put}
use alpha_one.Tables.{span}
use alpha_one.Site.Slugs.{lower_all}
use alpha_one.Site.Cells.{ends_with}

-- `resolved file target` is `(file.parent / target).resolve()`, `readme dir` is
-- `(dir / "README.md").resolve()`, `in_root path` is `path.relative_to(self.root)` with none where it
-- raises, and `relative_url page path` is `rel_url(page, path)`.
pub record Disk : Type 0 where
  pub unquote : Str → Str
  pub resolved : Str → Str → Str
  pub readme : Str → Str
  pub is_dir : Str → Bool
  pub exists : Str → Bool
  pub suffix : Str → Str
  pub with_md : Str → Str
  pub name : Str → Str
  pub in_root : Str → Option Str
  pub relative_url : Str → Str → Str

pub record SiteState : Type 0 where
  pub md_map : List (Str × Str)
  pub asset_map : List (Str × Str)
  pub linked_dirs : List Str
  pub warnings : List Str

-- `self.warn(msg)`
unfoldable pub warn : SiteState → Str → SiteState
warn site msg =
    if mem msg site.warnings then site else record site { warnings = site.warnings ++ msg ∷ [] }

-- `self.linked_dirs.add(dest)`
unfoldable pub link_dir : SiteState → Str → SiteState
link_dir site dest =
    if mem dest site.linked_dirs
    then site
    else record site { linked_dirs = dest ∷ site.linked_dirs }

-- `[a-z]` with `re.I`, which takes four more letters.
unfoldable pub is_letter : ℕ → Bool
is_letter c =
    leb 97 c && leb c 122 || leb 65 c && leb c 90 || c == 304 || c == 305 || c == 383 || c == 8490

-- `[a-z0-9+.\-]` with `re.I`
unfoldable pub is_scheme_char : ℕ → Bool
unfolding is_letter
is_scheme_char c = is_letter c || leb 48 c && leb c 57 || c == 43 || c == 46 || c == 45

unfoldable pub has_scheme : Str → Bool
unfolding is_letter is_scheme_char
has_scheme [] = false
has_scheme (c ∷ s) =
    is_letter c && elim (span is_scheme_char s).1 [ [] ↦ false | d ∷ rest ↦ d == 58 ]

-- The targets that stay as they are: empty, with a scheme, or from `#` or `/` on.
unfoldable pub is_external : Str → Bool
unfolding has_scheme
is_external [] = true
is_external (c ∷ s) = has_scheme (c ∷ s) || (c == 35 || c == 47)

-- `target.partition("#")`, with the `#` before a fragment that is not empty.
unfoldable pub fragment : Str → Str
fragment [] = []
fragment (c ∷ []) = []
fragment (c ∷ d ∷ s) = c ∷ d ∷ s

unfoldable pub split_target : Str → Str × Str
unfolding fragment
split_target target = let (path, rest) = span (λ c. not (c == 35)) target in (path, fragment rest)

-- The link of one page.
pub record Place : Type 0 where
  pub src_file : Str
  pub page_dir : Str

module _ (disk : Disk) (place : Place) where
  -- `self.warn(f"{src_file.name}{what}{target}{tail}")`, and the target as it is.
  unfoldable pub warned : SiteState → Str → Str → Str → Str × SiteState
  unfolding warn
  warned site what target tail =
      (target, warn site (disk.name place.src_file ++ (what ++ (target ++ tail))))

  -- A directory.
  unfoldable pub rewrite_dir : SiteState → Str → Str → Str → Str → Str × SiteState
  unfolding warned link_dir
  rewrite_dir site target path frag dest = elim (lookup (disk.readme dest) site.md_map) [
    | some page ↦ (disk.relative_url place.page_dir page ++ frag, site)
    | none ↦ elim (disk.in_root dest) [
      | none ↦ warned site (codes ": directory link escapes the repo root: ") target []
      | some relative ↦
          let url = if ends_with 47 path then path else path ++ codes "/index.html" in
          (url ++ frag, link_dir site dest)
    ]
  ]

  -- A file that is there.
  unfoldable pub rewrite_file : SiteState → Str → Str → Str → Str × SiteState
  unfolding warned
  rewrite_file site target frag dest =
      if str_eq (lower_all (disk.suffix dest)) (codes ".md")
      then elim (lookup dest site.md_map) [
        | some page ↦ (disk.relative_url place.page_dir page ++ frag, site)
        | none ↦ warned site (codes ": link to md file outside the rendered set: ") target []
      ]
      else elim (disk.in_root dest) [
        | none ↦ warned site (codes ": link escapes the repo root: ") target []
        | some relative ↦ (
          disk.relative_url place.page_dir relative ++ frag,
          record site { asset_map = put dest relative site.asset_map },
        )
      ]

  -- The file a path stands for: itself, or the one with `.md` as its suffix.
  unfoldable pub found_file : Str → Option Str
  found_file dest =
      let other = if str_eq (disk.suffix dest) (codes ".md") then dest else disk.with_md dest in
      if disk.exists dest then some dest else if disk.exists other then some other else none

  unfoldable pub rewrite_local : SiteState → Str → Str → Str → Str × SiteState
  unfolding rewrite_dir rewrite_file found_file warned
  rewrite_local site target path frag =
      let dest = disk.resolved place.src_file path in
      if disk.is_dir dest then rewrite_dir site target path frag dest else elim (found_file dest) [
        | some file ↦ rewrite_file site target frag file
        | none ↦ warned site (codes ": unresolved link '") target (codes "'")
      ]

  unfoldable pub rewrite : SiteState → Str → Str × SiteState
  unfolding rewrite_local is_external split_target
  rewrite site raw =
      let target = strip raw in
      if is_external target
      then (target, site)
      else let (part, frag) = split_target target in
        let path = disk.unquote part in
        elim path [ [] ↦ (target, site) | c ∷ s ↦ rewrite_local site target (c ∷ s) frag ]
