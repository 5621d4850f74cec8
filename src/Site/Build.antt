-- ===== src/Site/Build.antt =====
-- `build` and `main` of alpha-one/scripts/build_docs_site.py. The output directory is the dictionary of
-- its files. What the file system answers and the hub of the overview are given; an exception is none.
pub mod Again
use alpha_one.Base.{
  ℕ, zero, suc, ◌||◌, not, Bool, true, false, Option, none, some, List, [], ◌∷◌, Str, if◌then◌else◌,
  keep,
}
use alpha_one.Base.{codes, ◌>>=◌, put, has_key, sort_by}
use alpha_one.Site.Links.{Disk, Place, SiteState}
use alpha_one.Site.Indexes.{all_dirs}
use alpha_one.Site.Pages.{render_page}
use alpha_one.Site.Docs.{DocSpec, Files, collect_docs, strip_suffix}
use alpha_one.Base.{str_eq, ◌++◌}
use alpha_one.Site.Contents.{strip_first_h1}
use alpha_one.Site.Frame.{Assets, Entry, page_html, dir_index_body}
use alpha_one.Site.Checked.{verify_links}

-- `read src` is `d.src.read_text()`, `resolved src` is `d.src.resolve()`, `parent` that of a path,
-- `entries` is `sorted(d.iterdir())`, `relative d` is `d.relative_to(root)`, `index_page rel` the file
-- `rel/index.html` of the output, `before` the order of paths, `subs` and `files` what
-- `_dir_index_body` finds in a directory, `exists` what `verify_links` asks of the files written,
-- `href page target` is `rel_url` from the directory of a page. `hub` is `build_hub`,
-- `copied` the content of a file.
pub record Outside : Type 0 where
  pub read : Str → Option Str
  pub resolved : Str → Str
  pub parent : Str → Str
  pub entries : Str → List Str
  pub relative : Str → Option Str
  pub index_page : Str → Str
  pub before : Str → Str → Bool
  pub exists : List (Str × Str) → Str → Str → Bool
  pub href : Str → Str → Str
  pub assets : Assets
  pub hub : List DocSpec → DocSpec → Str
  pub subs : Str → List Entry
  pub files : Str → List Entry
  pub copied : Str → Option Str

-- `MARKER`
abbrev pub marker : Str
marker = codes ".docs-site.json"

pub data Report : Type 0 where
  no_docs : Report
  foreign_out : Report
  broken_links : (Str × Str) → List (Str × Str) → Report
  built : Report

pub record BuildEnd : Type 0 where
  pub code : ℕ
  pub report : Report
  pub out : Option (List (Str × Str))

-- `Site(root, out, docs)`
unfoldable pub md_map_of : Outside → List DocSpec → List (Str × Str) → List (Str × Str)
md_map_of outside [] found = found
md_map_of outside (d ∷ docs) found =
    md_map_of outside docs (put (outside.resolved d.src) d.site_path found)

-- The loop over the documents: each with its rendered text.
unfoldable pub render_docs :
    Disk → Outside → List DocSpec → SiteState → Option (List (DocSpec × Str) × SiteState)
unfolding render_page
render_docs disk outside [] site = some ([], site)
render_docs disk outside (d ∷ docs) site = do
  text ← outside.read d.src
  let place : Place = record { src_file = d.src; page_dir = outside.parent d.site_path }
  rendered ← render_page disk place site text
  rest ← render_docs disk outside docs rendered.1
  some ((d, rendered.0) ∷ rest.0, rest.1)

-- The text of a page: the overview has the hub above its own.
unfoldable pub body_of : Outside → List DocSpec → DocSpec → Str → Str
unfolding strip_first_h1
body_of outside docs d body =
    if str_eq (outside.resolved d.src) (outside.resolved (codes "README.md"))
    then outside.hub docs d ++ strip_first_h1 body
    else body

unfoldable pub write_pages :
    Outside → List DocSpec → List (DocSpec × Str) → List (Str × Str) → List (Str × Str)
unfolding body_of page_html
write_pages outside docs [] files = files
write_pages outside docs ((d, body) ∷ rendered) files =
    let page = page_html outside.href outside.assets d (body_of outside docs d body) docs false in
    write_pages outside docs rendered (put d.site_path page files)

-- The page of a directory, for its path below the root.
unfoldable pub listing_of : Outside → List DocSpec → SiteState → List Str → Str → Str → Str
unfolding dir_index_body page_html
listing_of outside docs site dirs d rel =
    let path = rel ++ codes "/index.html" in
    let spec : DocSpec = record {
      site_path = path;
      src = rel;
      group = codes "Directory index";
      title = rel;
    } in
    let body =
      dir_index_body (outside.href path) site rel dirs (outside.subs d) (outside.files d) in
    page_html outside.href outside.assets spec body docs true

-- `generate_dir_indexes`, its last loop.
unfoldable pub write_listings :
    Outside
    → List DocSpec
    → SiteState
    → List Str
    → List Str
    → List (Str × Str)
    → Option (List (Str × Str))
unfolding listing_of
write_listings outside docs site dirs [] files = some files
write_listings outside docs site dirs (d ∷ more) files = do
  rel ← outside.relative d
  write_listings outside docs site dirs more
      (put (outside.index_page rel) (listing_of outside docs site dirs d rel) files)

unfoldable pub generate_dir_indexes :
    Disk → Outside → List DocSpec → SiteState → List (Str × Str) → Option (List (Str × Str))
unfolding all_dirs write_listings
generate_dir_indexes disk outside docs site files =
    let dirs = all_dirs disk.is_dir outside.entries site.linked_dirs in
    write_listings outside docs site dirs (sort_by outside.before dirs) files

-- The loop over `site.asset_map`.
unfoldable pub copy_assets :
    Outside → List (Str × Str) → List (Str × Str) → Option (List (Str × Str))
copy_assets outside [] files = some files
copy_assets outside ((src, repo_rel) ∷ assets) files = do
  content ← outside.copied src
  copy_assets outside assets (put repo_rel content files)

-- What stands in the output behind the checks of `build`.
unfoldable pub written : Disk → Outside → List DocSpec → Option (List (Str × Str))
unfolding md_map_of render_docs write_pages generate_dir_indexes copy_assets
written disk outside docs = do
  let site : SiteState = record {
    md_map = md_map_of outside docs [];
    asset_map = [];
    linked_dirs = [];
    warnings = [];
  }
  rendered ← render_docs disk outside docs site
  let pages = write_pages outside docs rendered.0 []
  listed ← generate_dir_indexes disk outside docs rendered.1 pages
  copy_assets outside rendered.1.asset_map listed

-- `rglob("*.html")` on the name of a file.
unfoldable pub is_page : Str × Str → Bool
unfolding strip_suffix
is_page file = elim (strip_suffix (codes ".html") file.0) [ none ↦ false | some stem ↦ true ]

unfoldable pub broken_of : Outside → List (Str × Str) → List (Str × Str)
unfolding verify_links is_page
broken_of outside files =
    verify_links outside.assets.unescape (outside.exists files)
      (sort_by (λ (f : Str × Str) (g : Str × Str). outside.before f.0 g.0) (keep is_page files))

-- `out.exists()` without `--clean` and without the marker of an earlier build.
unfoldable pub is_foreign : Bool → Option (List (Str × Str)) → Bool
is_foreign clean none = false
is_foreign clean (some files) = not (clean || has_key marker files)

unfoldable pub finish_build : Outside → List (Str × Str) → BuildEnd
unfolding broken_of
finish_build outside files = elim (broken_of outside files) [
  | [] ↦ record { code = 0; report = built; out = some files }
  | b ∷ bs ↦ record { code = 1; report = broken_links b bs; out = some files }
]

-- `build(root, out, clean)`
unfoldable pub build : Disk → Outside → Files → Bool → Option (List (Str × Str)) → Option BuildEnd
unfolding collect_docs is_foreign written finish_build
build disk outside sources clean out = do
  docs ← collect_docs sources
  elim docs [
    | [] ↦ some (record { code = 1; report = no_docs; out = out })
    | d ∷ ds ↦
        if is_foreign clean out
        then some (record { code = 1; report = foreign_out; out = out })
        else (do files ← written disk outside (d ∷ ds); some (finish_build outside files))
  ]

-- What `main` does behind `build`; `stamp`: what it writes to the marker, the time of the run included.
unfoldable pub mark : Str → BuildEnd → BuildEnd
mark stamp end = elim end.code [
  | zero ↦ elim end.out [
    | none ↦ end
    | some files ↦ record end { out = some (put marker stamp files) }
  ]
  | suc n ↦ end
]

unfoldable pub main :
    Disk → Outside → Files → Str → Bool → Option (List (Str × Str)) → Option BuildEnd
unfolding build mark
main disk outside sources stamp clean out = do
  end ← build disk outside sources clean out
  some (mark stamp end)
