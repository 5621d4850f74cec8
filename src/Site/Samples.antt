-- ===== src/Site/Samples.antt =====
-- Documents, links and slugs, and what the theorems say of them.
use alpha_one.Base.{
  true, false, Bool, none, some, List, [], ◌∷◌, ◌++◌, Str, ◌≡◌, refl, codes, str_eq, mem, not, ◌↔◌,
  ◌⊎◌, map, length, if◌then◌else◌, str_lt, is_space, lstrip, strip, insert, sorted, lookup, has_key,
  put, insert_entry, sorted_items, remove, join_with, concat, quoted, add_first, split_char,
  is_digit, digit_value, number_of, decimal, str_of,
}
use alpha_one.Tables.{
  is_key_char, span, after_char, match_key, find_keys, table_keys, head_of, registry_keys,
}
use alpha_one.Site.Patterns.{
  few_spaces, few_blanks, run_of, is_lang_char, fence_run, fence_of, closes, rstrip, heading_of,
  rule_marks, is_rule, unquoted, bullet_text, numbered_bullet, bullet_of, indent_from, indent_width,
  escape_char, escape_html,
}
use alpha_one.Site.Cells.{
  drop_first_bar, drop_last_bar, mark_bars, unmark_bars, split_row, starts_with, ends_with,
  align_of, is_sep_end, is_sep_cell, count_char, is_table_start, is_table_row, take_rows, style_of,
  rest_of, cell_or_empty, render_heads, render_cells, render_rows, render_table,
}
use alpha_one.Site.Items.{
  Item, Piece, extend_last, is_blank, skip_blank, goes_on, list_loop, piece_text, deeper,
  first_indent, first_start, first_width, wrap, item_loop, render_items, render_list,
}
use alpha_one.Site.Items.Rendered.{opened, is_ordered, left_open, IsNested, IsDeep, rendered}
use alpha_one.Site.Slugs.{
  match_link, unlink, lower_char, lower_all, is_slug_char, dash_runs, drop_dashes, strip_dashes,
  is_emphasis, slugify, numbered_slug, slug_loop, slug_of,
}
use alpha_one.Site.Blocks.{
  line_feeds, split_lines, take_fence, take_quote, kind_of, fence_html, heading_html, cell_line,
  before, weight, flushed, render_blocks, render_markdown,
}
use alpha_one.Site.Inline.{
  substitute, is_escapable, match_escape, behind_marks, match_body, match_ticks, match_code,
  match_title, match_target, match_image, match_anchor, match_marked, stash, match_stash, restored,
  restore_all, tagged, emphasis, image_html, anchor_html, render_inline,
}
use alpha_one.Site.Inline.Lacks.{lacks, is_plain}
use alpha_one.Site.Inline.Plain.{render_inline-code, code_html}
use alpha_one.Site.Links.{
  Disk, Place, SiteState, warn, link_dir, is_letter, is_scheme_char, has_scheme, is_external,
  fragment, split_target, warned, rewrite_dir, rewrite_file, found_file, rewrite_local, rewrite,
}
use alpha_one.Site.Pages.{finished, failed, inline_or_raise, page_end, render_page}
use alpha_one.Site.Indexes.{
  max_dir_depth, IsBelow, subdirs, add_subdirs, scan_frontier, grow, all_dirs, found_below,
}
use alpha_one.Site.Links.Mirror.{IsMirror}
use alpha_one.Site.Indexes.Bounded.{all_dirs-IsBelow}
use alpha_one.Site.Pages.Mirror.{render_page-IsMirror}
use alpha_one.Site.Items.Nested.{render_list-IsNested}
use alpha_one.Site.Slugs.Fresh.{slug_of-fresh}
use alpha_one.Site.Pages.Ends.{page_end_lem}

-- What a run computes with.
program : Unit {0}
unfolding str_eq mem str_lt is_space lstrip strip insert sorted lookup has_key put insert_entry
    sorted_items remove join_with concat quoted add_first split_char is_digit digit_value number_of
    decimal str_of is_key_char span after_char match_key find_keys table_keys head_of registry_keys
    few_spaces few_blanks run_of is_lang_char fence_run fence_of closes rstrip heading_of rule_marks
    is_rule unquoted bullet_text numbered_bullet bullet_of indent_from indent_width escape_char
    escape_html drop_first_bar drop_last_bar mark_bars unmark_bars split_row starts_with ends_with
    align_of is_sep_end is_sep_cell count_char is_table_start is_table_row take_rows style_of
    rest_of cell_or_empty render_heads render_cells render_rows render_table extend_last is_blank
    skip_blank goes_on list_loop piece_text deeper first_indent first_start first_width wrap
    item_loop render_items render_list opened is_ordered left_open IsNested IsDeep rendered
    match_link unlink lower_char lower_all is_slug_char dash_runs drop_dashes strip_dashes
    is_emphasis slugify numbered_slug slug_loop slug_of line_feeds split_lines take_fence take_quote
    kind_of fence_html heading_html cell_line before weight flushed render_blocks render_markdown
    substitute is_escapable match_escape behind_marks match_body match_ticks match_code match_title
    match_target match_image match_anchor match_marked stash match_stash restored restore_all tagged
    emphasis image_html anchor_html render_inline lacks is_plain warn link_dir is_letter
    is_scheme_char has_scheme is_external fragment split_target warned rewrite_dir rewrite_file
    found_file rewrite_local rewrite inline_or_raise page_end render_page subdirs add_subdirs
    scan_frontier grow all_dirs found_below
program = tt

slug_of-fresh_example :
    (slug : Str) × (slug_of (codes "a" ∷ codes "a-2" ∷ []) (codes "**A**")
      ≡ some (slug, slug ∷ codes "a" ∷ codes "a-2" ∷ []))
    × (mem slug (codes "a" ∷ codes "a-2" ∷ []) ≡ false)
slug_of-fresh_example = slug_of-fresh (codes "a" ∷ codes "a-2" ∷ []) (codes "**A**")

slug_of-sample :
    slug_of (codes "a" ∷ codes "a-2" ∷ []) (codes "**A**")
    ≡ some (codes "a-3", codes "a-3" ∷ codes "a" ∷ codes "a-2" ∷ [])
unfolding program
slug_of-sample = refl

-- A repository with one file, one document and one directory.
abbrev disk : Disk
disk = record {
  unquote = λ s. s;
  resolved = λ file target. codes "/r/" ++ target;
  readme = λ dir. dir ++ codes "/README.md";
  is_dir = λ path. str_eq path (codes "/r/dir");
  exists = λ path. mem path (codes "/r/dir" ∷ codes "/r/a.md" ∷ codes "/r/b.json" ∷ []);
  suffix = λ path. if str_eq path (codes "/r/b.json") then codes ".json" else codes ".md";
  with_md = λ path. path ++ codes ".md";
  name = λ path. path;
  in_root = λ path. if str_eq path (codes "/r/b.json") then some (codes "b.json") else some path;
  relative_url = λ page path. codes "../" ++ path;
}

abbrev place : Place
place = record { src_file = codes "x.md"; page_dir = codes "docs" }

abbrev site : SiteState
site = record {
  md_map = (codes "/r/a.md", codes "a.html") ∷ [];
  asset_map = [];
  linked_dirs = [];
  warnings = [];
}

site-IsMirror : IsMirror disk site
unfolding program
site-IsMirror = record { assets = λ file relative h. cc; listed = λ dir h. cc }

abbrev source : Str
source = codes "[a](a.md#s) [b](b.json) [d](dir) [no](c.md)"

abbrev html : Str
html =
    codes
      "<a href=\"../a.html#s\">a</a> <a href=\"../b.json\">b</a> <a href=\"dir/index.html\">d</a> <a href=\"c.md\">no</a>"

abbrev after : SiteState
after = record {
  md_map = (codes "/r/a.md", codes "a.html") ∷ [];
  asset_map = (codes "/r/b.json", codes "b.json") ∷ [];
  linked_dirs = codes "/r/dir" ∷ [];
  warnings = codes "x.md: unresolved link 'c.md'" ∷ [];
}

run : render_inline (rewrite disk place) site source ≡ some (html, after)
unfolding program
run = refl

page_html : Str
unfolding program
page_html = concat (codes "<p>" ∷ html ∷ codes "</p>" ∷ [])

page_run : render_page disk place site source ≡ some (page_html, after)
unfolding program page_html
page_run = refl

render_page-IsMirror_example : IsMirror disk after
render_page-IsMirror_example =
    render_page-IsMirror disk place site after source page_html site-IsMirror page_run

abbrev list_lines : List Str
list_lines = codes "  1. b" ∷ codes "   more" ∷ codes "- c" ∷ codes "" ∷ codes "text" ∷ []

bullet_of-sample : bullet_of (codes "- a") ≡ some (record { start = none; text = codes "a" })
unfolding program
bullet_of-sample = refl

render_list-IsNested_example :
    (items : List Item) × (behind : List Str) × (pieces : List Piece) × (list_loop
        (length (codes "- a" ∷ list_lines))
        (indent_width (codes "- a"))
        (codes "- a" ∷ list_lines)
        []
      ≡ some (items, behind))
    × (render_list
          (rewrite disk place)
          (length (codes "- a" ∷ list_lines))
          (codes "- a" ∷ list_lines)
          site
        ≡ some (
          concat (map piece_text pieces),
          (behind, (rendered (rewrite disk place) items site).1),
        ))
    × (opened pieces ≡ (rendered (rewrite disk place) items site).0)
    × (left_open [] pieces ≡ some [])
render_list-IsNested_example =
    render_list-IsNested (rewrite disk place) (codes "- a") list_lines
      (record { start = none; text = codes "a" }) site bullet_of-sample

render_list-sample :
    render_list (λ u text. (text, u)) 6 (codes "- a" ∷ list_lines) tt
    ≡ some (
      codes "<ul><li>a<ol><li>b more</li></ol></li><li>c</li></ul>",
      (codes "" ∷ codes "text" ∷ [], tt),
    )
unfolding program
render_list-sample = refl

render_inline-code_example :
    render_inline
      (rewrite disk place)
      site
      (codes "see " ++ (96 ∷ ((97 ∷ codes "*b*<[") ++ 96 ∷ codes " & so")))
    ≡ some (
      escape_html false (codes "see ")
          ++ (code_html (97 ∷ codes "*b*<[") ++ escape_html false (codes " & so")),
      site,
    )
unfolding program
render_inline-code_example =
    render_inline-code (rewrite disk place) site (codes "see ") (codes " & so") (codes "*b*<[") 97
      refl refl refl refl

-- A code span keeps the mark of the stash of an escape inside it.
nested_stash :
    render_inline (rewrite disk place) site (codes "`a\\*b`")
    ≡ some (codes "<code>a" ++ (0 ∷ 48 ∷ 0 ∷ codes "b</code>"), site)
unfolding program
nested_stash = refl

-- The closing marks of a heading stay in its title.
closed_heading :
    heading_of (codes "## Title ##") ≡ some (record { level = 2; title = codes "Title ##" })
unfolding program
closed_heading = refl

abbrev document : Str
document =
    codes
      "# T\n\nsome *text*\n> quoted\n\n- a\n  1. b\n- c\n\n| h |\n|--|\n| x \\| y |\n```py\na<b\n```\n---\n"

page_end_lem_example :
    ((html : Str) × (ended : SiteState) × (page_end disk place site document ≡ finished html ended))
    ⊎ ((at_site : SiteState) × (at : Str) × (page_end disk place site document ≡ failed at_site at)
        × (render_inline (rewrite disk place) at_site at ≡ none))
page_end_lem_example = page_end_lem disk place site document

-- A paragraph that looks like a stashed piece, behind one that is rendered.
raised-sample :
    page_end disk place site (codes "a\n\n" ++ 0 ∷ 48 ∷ 0 ∷ []) ≡ failed site (0 ∷ 48 ∷ 0 ∷ [])
unfolding program
raised-sample = refl

render_page-sample :
    render_page disk place site document
    ≡ some (
      codes
          "<h1 id=\"t\">T</h1>\n<p>some <em>text</em></p>\n<blockquote><p>quoted</p></blockquote>\n<ul><li>a<ol><li>b</li></ol></li><li>c</li></ul>\n<div class=\"tablewrap\"><table><thead><tr><th>h</th></tr></thead><tbody><tr><td>x | y</td></tr></tbody></table></div>\n<pre><code class=\"language-py\">a&lt;b</code></pre>\n<hr>",
      site,
    )
unfolding program
render_page-sample = refl

-- Directories that lie in each other; the last one is too deep.
abbrev is_folder : Str → Bool
is_folder dir = not (str_eq dir (codes "file"))

abbrev entries : Str → List Str
entries dir =
    if str_eq dir (codes "a")
    then codes "b" ∷ codes "file" ∷ []
    else if str_eq dir (codes "b")
    then codes "a" ∷ codes "c" ∷ []
    else if str_eq dir (codes "c")
    then codes "d" ∷ []
    else if str_eq dir (codes "d")
    then codes "e" ∷ []
    else []

all_dirs-IsBelow_example :
    (mem (codes "d") (all_dirs is_folder entries (codes "a" ∷ [])) ≡ true) ↔ (
      (x : Str) × (mem x (codes "a" ∷ []) ≡ true)
      × IsBelow is_folder entries max_dir_depth x (codes "d"))
all_dirs-IsBelow_example = all_dirs-IsBelow is_folder entries (codes "a" ∷ []) (codes "d")

all_dirs-sample :
    all_dirs is_folder entries (codes "a" ∷ []) ≡ codes "d" ∷ codes "c" ∷ codes "b" ∷ codes "a" ∷ []
unfolding program
all_dirs-sample = refl
