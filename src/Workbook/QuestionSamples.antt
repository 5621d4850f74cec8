-- ===== src/Workbook/QuestionSamples.antt =====
-- A page of the Open Questions sheet, and what the theorems say of it.
use alpha_one.Base.{
  ℕ, true, Bool, some, List, [], ◌∷◌, Str, ◌≡◌, refl, codes, str_eq, mem, ◌<◌, map, arith, ◌&&◌,
  All, leb, ◌>>=◌, ◌⊎◌, count, insert_by, sort_by, str_lt, is_space, lstrip, strip, insert, sorted,
  lookup, has_key, put, insert_entry, sorted_items, remove, join_with, concat, quoted, add_first,
  split_char, is_digit, digit_value, number_of, decimal, str_of,
}
use alpha_one.Tables.{
  is_key_char, span, after_char, match_key, find_keys, table_keys, head_of, registry_keys,
}
use alpha_one.Markers.Search.{strip_prefix, split_first}
use alpha_one.Workbook.Floats.{unit_from, nearest_double, points, tenths, minus, plus, apart}
use alpha_one.Workbook.Align.{
  write, below, relax, distance, match_cost, fill_cell, fill_row, fill_rows, table, equals_plus,
  move, backtrack, align_runs,
}
use alpha_one.Workbook.Legacy.{
  field, fresh, differs, merge_row, merge_rows, merge_legacy, master_of, field_problems,
  entry_problems, check,
}
use alpha_one.Workbook.Legacy.Agreement.{parsed}
use alpha_one.Workbook.Cells.{
  is_capital, is_alnum, has_length, match_split, joined_id, unsplit_ids, single_spaces,
  close_hyphens, is_closing, starts_closing, close_marks, at_boundary, close_ids, squash, is_story,
  is_numbered, is_req_id, is_bvr_id, is_prop_id, is_domain_id, match_digits, is_release_id,
  is_timestamp,
}
use alpha_one.Workbook.Pages.{
  PageLine, visitor, reads_before, pair_before, fill_buckets, buckets_of, page_lines, first_lines,
  note_headers, note_lines, found_columns, header_columns, nearest_from, nearest, index_of, in_band,
  band_of, append_cell, fill_bands, start_from, start_cells, column_index, joined_cells,
  bucket_to_bands, fill_columns, bucket_to_columns, extend_runs, runs_of, higher, group_runs,
  centre, indexed_runs,
}
use alpha_one.Workbook.Pages.Kept.{passes, IsSeparated, joined_behind, IsDescending}
use alpha_one.Workbook.Rows.{
  SheetRow, is_header, is_anchor, anchors_of, above, add_row, start_rows, set_cell, header_position,
  page_columns, banded, of_band, band_frags, near_frags, place_runs, fill_column, fill_rows_near,
  fill_rows_banded, fill_page, page_rows, anchor_pages, anchor_rows, split_words, all_same,
  norm_cell, norm_cells, norm_row,
}
use alpha_one.Workbook.Questions.{
  starts_text, contains, is_question_header, band_texts, change_at, last_above, last_banner,
  close_questions, set_default, set_defaults, split_banners, place_answers, fill_answers,
  question_page, question_pages, parse_open_questions,
}
use alpha_one.Workbook.Questions.Named.{parse_open_questions-named, HasBanner, HasQuestion}
use alpha_one.Workbook.Scope.{
  page_parts, sheet_parts, precedes, reads_earlier, latest, add_column, columns_of, continue_last,
  add_item, add_items, body_lines, parse_out_of_scope,
}
use alpha_one.Workbook.Keys.{names_of}
use alpha_one.Workbook.Main.{
  match_module, has_cell, modules_of, finding_of, match_run, match_total, total_of, has_entry,
  add_entry, norm_rows, page_range, repair_module, audit_lines, dictionary_lines, dictionary_pages,
  sheet_rows,
}
use alpha_one.Workbook.Main.Dictionary.{IsOnce, counts_as, gives, page_gives}
use alpha_one.Workbook.Program.{
  backlog_rows, plain_sheet, parse_workbook, counts_of, requests, problems_code, finish_run, main,
}
use alpha_one.Workbook.Questions.Complete.{IsComplete}
use alpha_one.Workbook.Questions.Sections.{IsPlaced}

-- What a run computes with.
program : Unit {0}
unfolding count insert_by sort_by str_eq mem str_lt is_space lstrip strip insert sorted lookup
    has_key put insert_entry sorted_items remove join_with concat quoted add_first split_char
    is_digit digit_value number_of decimal str_of is_key_char span after_char match_key find_keys
    table_keys head_of registry_keys strip_prefix split_first unit_from nearest_double points tenths
    minus plus apart write below relax distance match_cost fill_cell fill_row fill_rows table
    equals_plus move backtrack align_runs field fresh differs merge_row merge_rows merge_legacy
    master_of field_problems entry_problems check parsed is_capital is_alnum has_length match_split
    joined_id unsplit_ids single_spaces close_hyphens is_closing starts_closing close_marks
    at_boundary close_ids squash is_story is_numbered is_req_id is_bvr_id is_prop_id is_domain_id
    match_digits is_release_id is_timestamp visitor reads_before pair_before fill_buckets buckets_of
    page_lines first_lines note_headers note_lines found_columns header_columns nearest_from nearest
    index_of in_band band_of append_cell fill_bands start_from start_cells column_index joined_cells
    bucket_to_bands fill_columns bucket_to_columns extend_runs runs_of higher group_runs centre
    indexed_runs passes IsSeparated joined_behind IsDescending is_header is_anchor anchors_of above
    add_row start_rows set_cell header_position page_columns banded of_band band_frags near_frags
    place_runs fill_column fill_rows_near fill_rows_banded fill_page page_rows anchor_pages
    anchor_rows split_words all_same norm_cell norm_cells norm_row starts_text contains
    is_question_header band_texts change_at last_above last_banner close_questions set_default
    set_defaults split_banners place_answers fill_answers question_page question_pages
    parse_open_questions HasBanner HasQuestion page_parts sheet_parts precedes reads_earlier latest
    add_column columns_of continue_last add_item add_items body_lines parse_out_of_scope names_of
    match_module has_cell modules_of finding_of match_run match_total total_of has_entry add_entry
    norm_rows page_range repair_module audit_lines dictionary_lines dictionary_pages sheet_rows
    IsOnce counts_as gives page_gives backlog_rows plain_sheet parse_workbook counts_of requests
    problems_code finish_run main
program = tt

abbrev is_word : ℕ → Bool
is_word = λ c. leb 97 c && leb c 122

abbrev modules : List Str
modules = codes "Billing" ∷ []

-- A banner, a header, a question on two lines with its owner, and one without.
abbrev question_lines : List PageLine
question_lines =
    ((points 600), ((points 100), codes "Billing") ∷ [])
    ∷ ((points 590), ((points 100), codes "Question") ∷ ((points 400), codes "Deadline") ∷ [])
    ∷ ((points 580), ((points 100), codes "Who") ∷ ((points 325), codes "Ann") ∷ [])
    ∷ ((tenths 5743), ((points 100), codes "pays?") ∷ [])
    ∷ ((points 550), ((points 100), codes "When?") ∷ [])
    ∷ []

parse_open_questions-sample :
    (do
      rows ← parse_open_questions is_word modules (question_lines ∷ []) (0 ∷ [])
      some (
          map {B = Str × Str × Str}
            (λ (row : SheetRow). (
              field (codes "question") row.cells,
              field (codes "owner") row.cells,
              field (codes "section") row.cells,
            ))
            rows))
    ≡ some (
        (codes "Who pays?", codes "Ann", codes "Billing")
        ∷ (codes "When?", [], codes "Billing")
        ∷ [])
unfolding program
parse_open_questions-sample = refl

-- A page without a banner.
abbrev later_lines : List PageLine
later_lines = ((points 580), ((points 100), codes "How?") ∷ []) ∷ []

later_page : 1 < 2
later_page = omega arith

question_lines-HasBanner : HasBanner is_word modules question_lines
unfolding program
question_lines-HasBanner = ([], points 600, points 100, codes "Billing", _, refl, refl)

question_lines-HasQuestion : HasQuestion is_word modules question_lines
unfolding program
question_lines-HasQuestion = (
  ((points 600), ((points 100), codes "Billing") ∷ [])
      ∷ ((points 590), ((points 100), codes "Question") ∷ ((points 400), codes "Deadline") ∷ [])
      ∷ [],
  points 580,
  (points 100, codes "Who"),
  (points 325, codes "Ann"),
  [],
  _,
  refl,
  refl,
  refl,
)

parse_open_questions-named_example :
    (rows : List SheetRow) × (parse_open_questions is_word modules
        (question_lines ∷ later_lines ∷ [])
        (0 ∷ 1 ∷ [])
      ≡ some rows)
    × All (IsComplete is_word modules) rows
    × All (λ (row : SheetRow). (row.page ≡ 1) ⊎ IsPlaced (λ name. mem name modules ≡ true) row) rows
parse_open_questions-named_example =
    parse_open_questions-named is_word modules (question_lines ∷ later_lines ∷ []) 0 (1 ∷ [])
      question_lines refl (later_page, tt) question_lines-HasBanner question_lines-HasQuestion
