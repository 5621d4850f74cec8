-- ===== src/Workbook/SheetSamples.antt =====
-- A small workbook, and what the theorems say of it.
use alpha_one.Base.{
  ℕ, zero, suc, true, false, Bool, none, some, List, [], ◌∷◌, ◌++◌, Str, ◌≡◌, refl, codes, str_eq,
  mem, ◌↔◌, ◌≤◌, ◌<◌, map, if◌then◌else◌, any, arith, ◌&&◌, ◌||◌, All, IsDict, leb, get_or, ◌==◌,
  ◌>>=◌, count, insert_by, sort_by, str_lt, is_space, lstrip, strip, insert, sorted, lookup,
  has_key, put, insert_entry, sorted_items, remove, join_with, concat, quoted, add_first,
  split_char, is_digit, digit_value, number_of, decimal, str_of,
}
use alpha_one.Tables.{
  is_key_char, span, after_char, match_key, find_keys, table_keys, head_of, registry_keys,
}
use alpha_one.Markers.Search.{strip_prefix, split_first}
use alpha_one.Workbook.Floats.{unit_from, nearest_double, points, tenths, minus, plus, apart}
use alpha_one.Workbook.Align.{
  write, below, relax, distance, match_cost, fill_cell, fill_row, fill_rows, table, equals_plus,
  move, backtrack, align_runs,
}
use alpha_one.Workbook.Legacy.{
  Row, Legacy, field, fresh, differs, merge_row, merge_rows, merge_legacy, master_of,
  field_problems, entry_problems, check,
}
use alpha_one.Workbook.Legacy.Agreement.{parsed}
use alpha_one.Workbook.Cells.{
  is_capital, is_alnum, has_length, match_split, joined_id, unsplit_ids, single_spaces,
  close_hyphens, is_closing, starts_closing, close_marks, at_boundary, close_ids, squash, is_story,
  is_numbered, is_req_id, is_bvr_id, is_prop_id, is_domain_id, match_digits, is_release_id,
  is_timestamp,
}
use alpha_one.Workbook.Pages.{
  Frag, PageLine, Column, x_tolerance, visitor, reads_before, pair_before, fill_buckets, buckets_of,
  page_lines, first_lines, note_headers, note_lines, found_columns, header_columns, nearest_from,
  nearest, index_of, in_band, band_of, append_cell, fill_bands, start_from, start_cells,
  column_index, joined_cells, bucket_to_bands, fill_columns, bucket_to_columns, extend_runs,
  runs_of, higher, group_runs, centre, indexed_runs,
}
use alpha_one.Workbook.Pages.Kept.{
  texts_of, page_lines-count, passes, IsSeparated, joined_behind, IsDescending,
}
use alpha_one.Workbook.Rows.{
  SheetRow, is_header, is_anchor, anchors_of, above, add_row, start_rows, set_cell, header_position,
  page_columns, banded, of_band, band_frags, near_frags, place_runs, fill_column, fill_rows_near,
  fill_rows_banded, fill_page, page_rows, anchor_pages, anchor_rows, split_words, all_same,
  norm_cell, norm_cells, norm_row,
}
use alpha_one.Workbook.Questions.{
  starts_text, contains, is_question_header, band_texts, change_at, last_above, last_banner,
  close_questions, set_default, set_defaults, split_banners, place_answers, fill_answers,
  question_page, question_pages, parse_open_questions,
}
use alpha_one.Workbook.Scope.{
  ScopeItem, page_parts, sheet_parts, precedes, reads_earlier, latest, add_column, columns_of,
  continue_last, add_item, add_items, body_lines, parse_out_of_scope,
}
use alpha_one.Workbook.Keys.{names_of}
use alpha_one.Workbook.Main.{
  match_module, has_cell, modules_of, finding_of, match_run, match_total, total_of, has_entry,
  add_entry, norm_rows, page_range, repair_module, audit_lines, dictionary_lines, dictionary_pages,
  sheet_rows,
}
use alpha_one.Workbook.Main.Dictionary.{
  dictionary_pages-IsOnce, IsOnce, counts_as, gives, page_gives,
}
use alpha_one.Workbook.Program.{
  Output, RunEnd, backlog_rows, plain_sheet, parse_workbook, counts_of, requests, problems_code,
  finish_run, main,
}
use alpha_one.Workbook.Pages.Nearest.{IsNearest, column_index-IsNearest}
use alpha_one.Workbook.Rows.Anchored.{anchor_rows-ends}
use alpha_one.Workbook.Scope.Sound.{IsSound, parse_out_of_scope-ends}
use alpha_one.Workbook.Program.Synced.{merging, checking, main-merge_check}

-- What a run computes with.
program : Unit {0}
unfolding count insert_by sort_by str_eq mem str_lt is_space lstrip strip insert sorted lookup
    has_key put insert_entry sorted_items remove join_with concat quoted add_first split_char
    is_digit digit_value number_of decimal str_of is_key_char span after_char match_key find_keys
    table_keys head_of registry_keys strip_prefix split_first unit_from nearest_double points tenths
    minus plus apart write below relax distance match_cost fill_cell fill_row fill_rows table
    equals_plus move backtrack align_runs field fresh differs merge_row merge_rows merge_legacy
    master_of field_problems entry_problems check parsed is_capital is_alnum has_length match_split
    joined_id unsplit_ids single_spaces close_hyphens is_closing starts_closing close_marks
    at_boundary close_ids squash is_story is_numbered is_req_id is_bvr_id is_prop_id is_domain_id
    match_digits is_release_id is_timestamp visitor reads_before pair_before fill_buckets buckets_of
    page_lines first_lines note_headers note_lines found_columns header_columns nearest_from nearest
    index_of in_band band_of append_cell fill_bands start_from start_cells column_index joined_cells
    bucket_to_bands fill_columns bucket_to_columns extend_runs runs_of higher group_runs centre
    indexed_runs passes IsSeparated joined_behind IsDescending is_header is_anchor anchors_of above
    add_row start_rows set_cell header_position page_columns banded of_band band_frags near_frags
    place_runs fill_column fill_rows_near fill_rows_banded fill_page page_rows anchor_pages
    anchor_rows split_words all_same norm_cell norm_cells norm_row starts_text contains
    is_question_header band_texts change_at last_above last_banner close_questions set_default
    set_defaults split_banners place_answers fill_answers question_page question_pages
    parse_open_questions page_parts sheet_parts precedes reads_earlier latest add_column columns_of
    continue_last add_item add_items body_lines parse_out_of_scope names_of match_module has_cell
    modules_of finding_of match_run match_total total_of has_entry add_entry norm_rows page_range
    repair_module audit_lines dictionary_lines dictionary_pages sheet_rows IsOnce counts_as gives
    page_gives backlog_rows plain_sheet parse_workbook counts_of requests problems_code finish_run
    main
program = tt

abbrev is_word : ℕ → Bool
is_word = λ c. leb 48 c && leb c 57 || (leb 65 c && leb c 90) || (leb 97 c && leb c 122) || c == 95

squash-sample : squash is_word (codes " server-  side , PL T-01 ") ≡ codes "server-side, PLT-01"
unfolding program
squash-sample = refl

is_story-sample :
    (is_story is_word (codes "As a trader") ≡ true) × (is_story is_word (codes "As ants") ≡ false)
unfolding program
is_story-sample = (refl, refl)

-- Two columns, at (points 5) and (points 10) points.
no_story :
    (if is_story is_word (codes "High")
      then index_of (codes "User Story") (codes "A" ∷ codes "B" ∷ [])
      else none)
    ≡ none
unfolding program
no_story = refl

column_index-IsNearest_example :
    (column_index is_word
        (points 195)
        (codes "High")
        ((points 100) ∷ (points 200) ∷ [])
        (codes "A" ∷ codes "B" ∷ [])
      ≡ some (some 1))
    ↔ (IsNearest (points 195) ((points 100) ∷ (points 200) ∷ []) 1
        × (apart (points 195) (get_or ((points 100) ∷ (points 200) ∷ []) 1 0) ≤ x_tolerance))
column_index-IsNearest_example =
    column_index-IsNearest is_word (points 195) (points 100) ((points 200) ∷ []) (codes "High")
      (codes "A" ∷ codes "B" ∷ []) 1 no_story

column_index-sample :
    column_index is_word
      (points 195)
      (codes "High")
      ((points 100) ∷ (points 200) ∷ [])
      (codes "A" ∷ codes "B" ∷ [])
    ≡ some (some 1)
unfolding program
column_index-sample = refl

-- Three fragments on two lines, and one of white space.
abbrev frags : List Frag
frags =
    record { height = (points 499); left = (points 200); text = codes "right" }
    ∷ record { height = (points 400); left = (points 100); text = codes "PL T-01" }
    ∷ record { height = (points 500); left = (points 100); text = codes " left " }
    ∷ record { height = (points 350); left = (points 100); text = codes " " }
    ∷ []

page_lines-sample :
    page_lines frags
    ≡ ((points 500), ((points 100), codes "left") ∷ ((points 200), codes "right") ∷ [])
      ∷ ((points 400), ((points 100), codes "PLT-01") ∷ [])
      ∷ []
unfolding program
page_lines-sample = refl

page_lines-count_example :
    count (λ (f : ℕ × Str). str_eq f.1 (codes "left")) (texts_of (page_lines frags))
    ≡ count (passes (λ (f : ℕ × Str). str_eq f.1 (codes "left"))) frags
page_lines-count_example = page_lines-count (λ (f : ℕ × Str). str_eq f.1 (codes "left")) frags

abbrev cell_lines : List (ℕ × Str)
cell_lines =
    ((points 40), codes "other") ∷ ((points 50), codes "two") ∷ ((points 47), codes "lines") ∷ []

group_runs-sample :
    group_runs cell_lines (tenths 37)
    ≡ record { first = (points 50); last = (points 47); text = codes "two lines" }
      ∷ record { first = (points 40); last = (points 40); text = codes "other" }
      ∷ []
unfolding program
group_runs-sample = refl

-- Where floats differ from tenths: 36.2 is nearer to 42.4 than to 30.0, 64.4 is more than 45 from 19.4,
-- and 16.6 more than 6.6 above 10.0.
rounding-sample :
    (nearest (tenths 362) (tenths 300 ∷ tenths 424 ∷ []) ≡ some 1)
    × (leb (apart (tenths 644) (tenths 194)) x_tolerance ≡ false)
    × (leb (minus (tenths 166) (tenths 100)) (tenths 66) ≡ false)
    × (tenths 16 ≡ 1844674407370955264)
unfolding program
rounding-sample = (refl, refl, refl, refl)

-- A sheet of two columns, with the second row's feature on two lines.
abbrev sheet_lines : List PageLine
sheet_lines =
    ((points 600), ((points 50), codes "Req ID") ∷ ((points 150), codes "Feature Name") ∷ [])
    ∷ ((points 550), ((points 50), codes "PLT-01") ∷ ((points 150), codes "Login") ∷ [])
    ∷ ((points 503), ((points 150), codes "Audit") ∷ [])
    ∷ ((tenths 5012), ((points 50), codes "PLT-02") ∷ [])
    ∷ ((tenths 4995), ((points 150), codes "trail") ∷ [])
    ∷ []

abbrev sheet_columns : List Column
sheet_columns = (codes "Req ID", (points 50)) ∷ (codes "Feature Name", (points 150)) ∷ []

one_page : 0 < 1
one_page = omega arith

two_pages : 1 < 2
two_pages = omega arith

anchor_rows-ends_example :
    (rows : List SheetRow) × (anchor_rows is_word
        (sheet_lines ∷ [])
        (0 ∷ [])
        sheet_columns
        (some is_req_id)
        (some (codes "Req ID"))
        none
      ≡ some rows)
anchor_rows-ends_example =
    anchor_rows-ends is_word (sheet_lines ∷ []) (0 ∷ []) (codes "Req ID", (points 50))
      ((codes "Feature Name", (points 150)) ∷ []) (some is_req_id) (some (codes "Req ID"))
      (one_page, tt)

anchor_rows-sample :
    (do
      rows ←
          anchor_rows is_word
            (sheet_lines ∷ [])
            (0 ∷ [])
            sheet_columns
            (some is_req_id)
            (some (codes "Req ID"))
            none
      some (map (λ (row : SheetRow). field (codes "Feature Name") row.cells) rows))
    ≡ some (codes "Login" ∷ codes "Audit trail" ∷ [])
unfolding program
anchor_rows-sample = refl

-- A page of the dictionary, with its header and a repeated entry.
abbrev dictionary_lines_page : List PageLine
dictionary_lines_page =
    ((points 600), ((points 120), codes "Section") ∷ ((points 320), codes "Value") ∷ [])
    ∷ ((points 550), ((points 120), codes "Phase") ∷ ((points 320), codes "V1.0") ∷ [])
    ∷ ((points 500), ((points 120), codes "Phase") ∷ ((points 320), codes "V1.0") ∷ [])
    ∷ []

dictionary_pages-sample :
    dictionary_pages is_word (dictionary_lines_page ∷ []) (0 ∷ []) []
    ≡ some ((codes "Phase", codes "V1.0") ∷ [])
unfolding program
dictionary_pages-sample = refl

dictionary_pages-IsOnce_example :
    (dd : List (Str × Str)) × (dictionary_pages is_word (dictionary_lines_page ∷ []) (0 ∷ []) []
      ≡ some dd)
    × IsOnce dd
    × ((e : Str × Str)
        → has_entry e dd ≡ any (page_gives is_word (dictionary_lines_page ∷ []) e) (0 ∷ []))
dictionary_pages-IsOnce_example =
    dictionary_pages-IsOnce is_word (dictionary_lines_page ∷ []) (0 ∷ []) (one_page, tt)

-- Two modules and a bullet on two lines under the second.
abbrev scope_page : List PageLine
scope_page =
    ((points 600), ((points 50), codes "Trading") ∷ ((points 250), codes "Billing") ∷ [])
    ∷ ((points 595), ((points 255), codes "No") ∷ ((points 270), codes "crypto") ∷ [])
    ∷ ((tenths 5908), ((points 255), codes "payouts") ∷ [])
    ∷ ((points 585), ((points 55), codes "Spot") ∷ [])
    ∷ []

abbrev modules : List Str
modules = codes "Billing" ∷ codes "Trading" ∷ []

parse_out_of_scope-sample :
    (do
      items ← parse_out_of_scope is_word (scope_page ∷ []) (0 ∷ []) modules
      some (map {B = Str × Str} (λ (item : ScopeItem). (item.module_name, item.text)) items))
    ≡ some ((codes "Billing", codes "No crypto payouts") ∷ (codes "Trading", codes "Spot") ∷ [])
unfolding program
parse_out_of_scope-sample = refl

parse_out_of_scope-ends_example :
    (items : List ScopeItem) × (parse_out_of_scope is_word (scope_page ∷ []) (0 ∷ []) modules
      ≡ some items)
    × All (IsSound is_word modules) items
parse_out_of_scope-ends_example =
    parse_out_of_scope-ends is_word modules (scope_page ∷ []) (0 ∷ []) (one_page, tt)

-- A workbook of 79 pages with a header on each sheet's first page and one row in the backlog.
frag : ℕ → ℕ → Str → Frag
frag y x t = record { height = y; left = x; text = t }

header_page : Str → List Frag
unfolding frag
header_page name = frag (points 600) (points 50) name ∷ []

empty_pages : ℕ → List (List Frag)
empty_pages zero = []
empty_pages (suc n) = [] ∷ empty_pages n

abbrev workbook : List (List Frag)
unfolding frag header_page empty_pages
workbook =
    header_page (codes "Domain ID")
      ∷ []
      ∷ (frag (points 600) (points 50) (codes "Req ID")
          ∷ frag (points 600) (points 150) (codes "Feature Name")
          ∷ frag (points 550) (points 50) (codes "PLT-01")
          ∷ frag (points 550) (points 150) (codes "Login")
          ∷ [])
      ∷ empty_pages 38
    ++ header_page (codes "Proposal ID")
      ∷ header_page (codes "Release")
      ∷ header_page (codes "Timestamp")
      ∷ empty_pages 2
    ++ header_page (codes "Req ID") ∷ empty_pages 5
    ++ header_page (codes "Tool") ∷ header_page (codes "Req ID") ∷ empty_pages 9
    ++ header_page (codes "Tool") ∷ [] ∷ header_page (codes "Rule ID") ∷ empty_pages 13

abbrev login : SheetRow
login = record {
  page = 3;
  cells = (codes "req", codes "PLT-01") ∷ (codes "feature", codes "Login") ∷ [];
}

abbrev parsed_workbook : Output
parsed_workbook = record {
  domains = [];
  backlog = login ∷ [];
  v1_execution = [];
  future_backlog = [];
  audit = record { run_at = []; totals = []; findings = [] };
  proposals = [];
  roadmap = [];
  changes = [];
  integrations = [];
  tools = [];
  rules = [];
  dictionary = [];
  questions = [];
  out_of_scope = [];
}

abbrev login_rows : List Row
login_rows = record { req = codes "PLT-01"; cells = login.cells } ∷ []

workbook-parsed : parse_workbook is_word (map page_lines workbook) ≡ some parsed_workbook
unfolding program workbook
workbook-parsed = refl

workbook-requests : requests parsed_workbook.backlog ≡ some login_rows
unfolding program
workbook-requests = refl

-- A backlog file with a request that the workbook does not have.
abbrev old_file : Legacy
old_file = (codes "PLT-09", (codes "phase", codes "V1.0") ∷ []) ∷ []

old_file-IsDict : IsDict old_file
unfolding program
old_file-IsDict = (refl, tt)

main-merge_check_example :
    (merged : RunEnd) × (checked : RunEnd) × (main is_word merging (some workbook) old_file
      ≡ some merged)
    × (main is_word checking (some workbook) merged.legacy ≡ some checked)
    × (merged.code ≡ 0)
    × (merged.written ≡ some (parsed_workbook, counts_of parsed_workbook))
    × (checked.written ≡ none)
    × (checked.legacy ≡ merged.legacy)
    × ((checked.code ≡ 0)
        ↔ ((req : Str) → has_key req old_file ≡ true → parsed login_rows req ≡ true))
main-merge_check_example =
    main-merge_check is_word workbook old_file parsed_workbook login_rows workbook-parsed
      workbook-requests old_file-IsDict
