-- ===== src/Site/BuildSamples.antt =====
-- A small site, and what the theorems say of it.
use alpha_one.Base.{
  false, none, some, List, [], ◌∷◌, ◌++◌, Str, ◌≡◌, refl, codes, str_eq, mem, map, All, ◌>>=◌,
  str_lt, is_space, lstrip, strip, insert, sorted, lookup, has_key, put, insert_entry, sorted_items,
  remove, join_with, concat, quoted, add_first, split_char, is_digit, digit_value, number_of,
  decimal, str_of, count, insert_by, sort_by,
}
use alpha_one.Tables.{
  is_key_char, span, after_char, match_key, find_keys, table_keys, head_of, registry_keys,
}
use alpha_one.Site.Patterns.{
  few_spaces, few_blanks, run_of, is_lang_char, fence_run, fence_of, closes, rstrip, heading_of,
  rule_marks, is_rule, unquoted, bullet_text, numbered_bullet, bullet_of, indent_from, indent_width,
  escape_char, escape_html,
}
use alpha_one.Site.Cells.{
  drop_first_bar, drop_last_bar, mark_bars, unmark_bars, split_row, starts_with, ends_with,
  align_of, is_sep_end, is_sep_cell, count_char, is_table_start, is_table_row, take_rows, style_of,
  rest_of, cell_or_empty, render_heads, render_cells, render_rows, render_table,
}
use alpha_one.Site.Items.{
  extend_last, is_blank, skip_blank, goes_on, list_loop, piece_text, deeper, first_indent,
  first_start, first_width, wrap, item_loop, render_items, render_list,
}
use alpha_one.Site.Items.Rendered.{opened, is_ordered, left_open, IsNested, IsDeep, rendered}
use alpha_one.Site.Slugs.{
  match_link, unlink, lower_char, lower_all, is_slug_char, dash_runs, drop_dashes, strip_dashes,
  is_emphasis, slugify, numbered_slug, slug_loop, slug_of,
}
use alpha_one.Site.Blocks.{
  line_feeds, split_lines, take_fence, take_quote, kind_of, fence_html, heading_html, cell_line,
  before, weight, flushed, render_blocks, render_markdown,
}
use alpha_one.Site.Inline.{
  substitute, is_escapable, match_escape, behind_marks, match_body, match_ticks, match_code,
  match_title, match_target, match_image, match_anchor, match_marked, stash, match_stash, restored,
  restore_all, tagged, emphasis, image_html, anchor_html, render_inline,
}
use alpha_one.Site.Inline.Lacks.{lacks, is_plain}
use alpha_one.Site.Links.{
  Disk, warn, link_dir, is_letter, is_scheme_char, has_scheme, is_external, fragment, split_target,
  warned, rewrite_dir, rewrite_file, found_file, rewrite_local, rewrite,
}
use alpha_one.Site.Pages.{inline_or_raise, page_end, render_page}
use alpha_one.Site.Indexes.{subdirs, add_subdirs, scan_frontier, grow, all_dirs, found_below}
use alpha_one.Markers.Search.{strip_prefix, split_first}
use alpha_one.Events.Fields.{
  fold, at_end, then_rest, search_in, closed_word, ends_bps, money_word, after_underscore,
  money_key, not_money, is_money,
}
use alpha_one.Workbook.Cells.{
  is_capital, is_alnum, has_length, match_split, joined_id, unsplit_ids, single_spaces,
  close_hyphens, is_closing, starts_closing, close_marks, at_boundary, close_ids, squash, is_story,
  is_numbered, is_req_id, is_bvr_id, is_prop_id, is_domain_id, match_digits, is_release_id,
  is_timestamp,
}
use alpha_one.Site.Docs.{
  DocSpec, Files, lines_of, first_heading, heading_in, strip_suffix, drop_md, match_number,
  join_words, prettify, match_codes, search_codes, is_contract, drop_contract, file_name, api_label,
  group_of, doc_group, site_path_of, add_doc, add_docs, add_readme, add_dir, collect_docs,
}
use alpha_one.Site.Docs.Groups.{groups_for}
use alpha_one.Site.Contents.{
  escape, strip_tags, match_heading, find_headings, toc_items, toc, strip_first_h1,
}
use alpha_one.Site.Frame.{
  rank_from, group_rank, group_before, group_docs, nav_link, nav_group, sidebar, neighbours, slot,
  pager_of, pager, footer_of, page_html, dir_item, file_link, file_item, dir_index_body,
}
use alpha_one.Site.Checked.{
  match_href, last_href, find_hrefs, path_part, is_broken, broken_in, verify_links,
}
use alpha_one.Site.Build.{
  Outside, marker, no_docs, foreign_out, broken_links, built, BuildEnd, md_map_of, render_docs,
  body_of, write_pages, listing_of, write_listings, generate_dir_indexes, copy_assets, written,
  is_page, broken_of, is_foreign, finish_build, build, mark, main,
}
use alpha_one.Site.Docs.Collected.{IsPlain, site_path_of_unique}
use alpha_one.Site.Docs.Complete.{IsMarkdown, IsText, HasPage, collect_docs-ends}
use alpha_one.Site.Build.Again.{refused_end, main-again, main-failed}

-- What a run computes with.
program : Unit {0}
unfolding str_eq mem str_lt is_space lstrip strip insert sorted lookup has_key put insert_entry
    sorted_items remove join_with concat quoted add_first split_char is_digit digit_value number_of
    decimal str_of count insert_by sort_by is_key_char span after_char match_key find_keys
    table_keys head_of registry_keys few_spaces few_blanks run_of is_lang_char fence_run fence_of
    closes rstrip heading_of rule_marks is_rule unquoted bullet_text numbered_bullet bullet_of
    indent_from indent_width escape_char escape_html drop_first_bar drop_last_bar mark_bars
    unmark_bars split_row starts_with ends_with align_of is_sep_end is_sep_cell count_char
    is_table_start is_table_row take_rows style_of rest_of cell_or_empty render_heads render_cells
    render_rows render_table extend_last is_blank skip_blank goes_on list_loop piece_text deeper
    first_indent first_start first_width wrap item_loop render_items render_list opened is_ordered
    left_open IsNested IsDeep rendered match_link unlink lower_char lower_all is_slug_char dash_runs
    drop_dashes strip_dashes is_emphasis slugify numbered_slug slug_loop slug_of line_feeds
    split_lines take_fence take_quote kind_of fence_html heading_html cell_line before weight
    flushed render_blocks render_markdown substitute is_escapable match_escape behind_marks
    match_body match_ticks match_code match_title match_target match_image match_anchor match_marked
    stash match_stash restored restore_all tagged emphasis image_html anchor_html render_inline
    lacks is_plain warn link_dir is_letter is_scheme_char has_scheme is_external fragment
    split_target warned rewrite_dir rewrite_file found_file rewrite_local rewrite inline_or_raise
    page_end render_page subdirs add_subdirs scan_frontier grow all_dirs found_below strip_prefix
    split_first fold at_end then_rest search_in closed_word ends_bps money_word after_underscore
    money_key not_money is_money is_capital is_alnum has_length match_split joined_id unsplit_ids
    single_spaces close_hyphens is_closing starts_closing close_marks at_boundary close_ids squash
    is_story is_numbered is_req_id is_bvr_id is_prop_id is_domain_id match_digits is_release_id
    is_timestamp first_heading heading_in strip_suffix drop_md match_number join_words prettify
    match_codes search_codes is_contract drop_contract file_name api_label group_of doc_group
    site_path_of add_doc add_docs add_readme add_dir collect_docs groups_for escape strip_tags
    match_heading find_headings toc_items toc strip_first_h1 rank_from group_rank group_before
    group_docs nav_link nav_group sidebar neighbours slot pager_of pager footer_of page_html
    dir_item file_link file_item dir_index_body match_href last_href find_hrefs path_part is_broken
    broken_in verify_links md_map_of render_docs body_of write_pages listing_of write_listings
    generate_dir_indexes copy_assets written is_page broken_of is_foreign finish_build build mark
    main
program = tt

-- Documents of the same names in every directory.
abbrev sources : Files
sources = record {
  is_file = λ path. str_eq path (codes "README.md");
  is_dir = λ path. str_eq path (codes "docs");
  glob = λ dir. codes "36-list.md" ∷ codes "07-broker.md" ∷ [];
  read = λ src. lines_of (codes "" ∷ codes "# Broker (BRG)" ∷ []);
  titled = λ s. s;
}

sources-IsMarkdown : (dir : Str) → All IsMarkdown (sources.glob dir)
unfolding program
sources-IsMarkdown dir = ((codes "36-list", refl), ((codes "07-broker", refl), tt))

sources-IsText : (src : Str) → IsText (sources.read src)
unfolding program
sources-IsText src = λ e. cc

collect_docs-ends_example :
    (docs : List DocSpec) × (collect_docs sources ≡ some docs) × All HasPage docs
collect_docs-ends_example = collect_docs-ends sources sources-IsText sources-IsMarkdown

collect_docs-sample :
    (do
      docs ← collect_docs sources
      some (map {B = Str × Str} (λ (d : DocSpec). (d.site_path, d.group)) docs))
    ≡ some (
        (codes "index.html", codes "Overview")
        ∷ (
          codes "docs/07-broker.html",
          codes "D1 · Core Trading Engine (BRG · EVL · LCC · PAY · RSK)",
        )
        ∷ (codes "docs/36-list.html", codes "PRD registers (36–40)")
        ∷ [])
unfolding program
collect_docs-sample = refl

labels-sample :
    (api_label sources (codes "contracts/api/x.md") (codes "Broker (BRG/EV)") ≡ codes "BRG/EV")
    × (api_label sources (codes "contracts/api/x.md") (codes "Ledger api contract")
        ≡ codes "Ledger")
    × (api_label sources (codes "contracts/api/10-a_b.md") [] ≡ codes "a b")
unfolding program
labels-sample = (refl, refl, refl)

broker-IsPlain : IsPlain (codes "docs/README.md")
unfolding program
broker-IsPlain = record { not_top = refl; not_below = refl; relative = refl }

broker-page : site_path_of (codes "docs/README.md") ≡ some (codes "docs/index.html")
unfolding program
broker-page = refl

site_path_of_unique_example : codes "docs/README.md" ≡ codes "docs/README.md"
site_path_of_unique_example =
    site_path_of_unique (codes "docs/README.md") (codes "docs/README.md") (codes "docs/index.html")
      broker-IsPlain broker-IsPlain broker-page broker-page

-- The condition on the names: an index.md shares the page of its neighbour.
shared-sample : site_path_of (codes "docs/index.md") ≡ site_path_of (codes "docs/README.md")
unfolding program
shared-sample = refl

abbrev disk : Disk
disk = record {
  unquote = λ s. s;
  resolved = λ file target. codes "/r/" ++ target;
  readme = λ dir. dir ++ codes "/README.md";
  is_dir = λ path. false;
  exists = λ path. false;
  suffix = λ path. codes ".md";
  with_md = λ path. path ++ codes ".md";
  name = λ path. path;
  in_root = λ path. some path;
  relative_url = λ page path. path;
}

-- The hub is a link, to the page of the overview or to none.
outside : Str → Outside
outside link = record {
  read = λ src. some (codes "Text");
  resolved = λ src. codes "/r/" ++ src;
  parent = λ path. [];
  entries = λ dir. [];
  relative = λ dir. some dir;
  index_page = λ rel. rel ++ codes "/index.html";
  before = str_lt;
  exists = λ files page path. has_key path files;
  href = λ page target. target;
  assets = record { css = []; script = []; unescape = λ s. s };
  hub = λ docs d. codes "<a class=\"x\" href=\"" ++ link ++ codes "\">";
  subs = λ dir. [];
  files = λ dir. [];
  copied = λ src. some [];
}

abbrev one_source : Files
one_source = record sources { is_dir = λ path. false }

overview : DocSpec
overview = record {
  site_path = codes "index.html";
  src = codes "README.md";
  group = codes "Overview";
  title = codes "Overview";
}

page_text : Str → Str
unfolding overview outside
page_text link =
    page_html (outside link).href (outside link).assets overview
      ((outside link).hub (overview ∷ []) overview ++ codes "<p>Text</p>") (overview ∷ []) false

-- A run whose links hold.
good_end : BuildEnd
good_end = record {
  code = 0;
  report = built;
  out = some ((codes "index.html", page_text (codes "index.html")) ∷ (marker, codes "{}") ∷ []);
}

good_run :
    main disk (outside (codes "index.html")) one_source (codes "{}") false none ≡ some good_end
unfolding program outside good_end page_text overview
good_run = refl

good_code : good_end.code ≡ 0
unfolding good_end
good_code = refl

main-again_example :
    (files : List (Str × Str)) × (good_end.out ≡ some (put marker (codes "{}") files))
    × (main disk (outside (codes "index.html")) one_source (codes "{1}") false good_end.out
        ≡ some (record { code = 0; report = built; out = some (put marker (codes "{1}") files) }))
main-again_example =
    main-again disk (outside (codes "index.html")) one_source (codes "{}") (codes "{1}") false false
      none good_end good_run good_code

-- A run with a broken link, and its output.
bad_files : List (Str × Str)
unfolding page_text
bad_files = (codes "index.html", page_text (codes "gone.html")) ∷ []

bad_end : BuildEnd
bad_end = record {
  code = 1;
  report = broken_links (codes "index.html", codes "gone.html") [];
  out = some bad_files;
}

bad_run : main disk (outside (codes "gone.html")) one_source (codes "{}") false none ≡ some bad_end
unfolding program outside bad_end bad_files page_text overview
bad_run = refl

main-failed_example :
    (bad_end.report ≡ no_docs → bad_end.out ≡ none)
    × (bad_end.report ≡ foreign_out → bad_end.out ≡ none)
    × ((b : Str × Str) (bs : List (Str × Str))
        → bad_end.report ≡ broken_links b bs
        → (files : List (Str × Str)) × (bad_end.out ≡ some files)
          × (broken_of (outside (codes "gone.html")) files ≡ b ∷ bs)
          × (has_key marker files ≡ false
              → main disk (outside (codes "gone.html")) one_source (codes "{}") false bad_end.out
                ≡ some (refused_end foreign_out bad_end.out)))
main-failed_example =
    main-failed disk (outside (codes "gone.html")) one_source (codes "{}") false none bad_end
      bad_run

-- The table of contents of three headings, and the pager between two documents.
toc-sample : toc (λ s. s) (codes "<h2 id=\"a\">A</h2><h3 id=\"b\">B <b>c</b></h3>") ≡ []
unfolding program
toc-sample = refl

find_headings-sample :
    find_headings (codes "<p></p><h2 id=\"a\" x>A</h2><h3 id=\"b\">B <b>c</b></h3>") 0
    ≡ (50, codes "a", codes "A") ∷ (51, codes "b", codes "B <b>c</b>") ∷ []
unfolding program
find_headings-sample = refl

strip_tags-sample : strip_tags false (codes "B <b>c</b> < d") ≡ codes "B c < d"
unfolding program
strip_tags-sample = refl

group_rank-sample :
    (group_rank (codes "D3 · Tenant Operations") ≡ 4) × (group_rank (codes "API contracts") ≡ 13)
unfolding program
group_rank-sample = (refl, refl)

strip_first_h1-sample : strip_first_h1 (codes " <h1 id=\"t\">T</h1> <p>x</p>") ≡ codes "<p>x</p>"
unfolding program
strip_first_h1-sample = refl
