-- ===== src/Roles/Document.antt =====
-- The rendered table of docs/02 §3.1: `render`, `check_doc` and `write_doc` of
-- alpha-one/scripts/verify_roles.py.
use alpha_one.Base.{
  suc, not, false, Option, none, some, List, [], ◌∷◌, ◌++◌, map, length, Str, str_eq, if◌then◌else◌,
  ◌≡◌, str_eq_refl, codes, join_with, newline, concat, quoted,
}
use alpha_one.Markers.{
  Block, find_block, replace_blocks, strip_newlines, has_escape, DocProblem, block_missing,
  block_differs,
}
use alpha_one.Markers.Search.{split_first}
use alpha_one.Markers.RoundTrip.{IsRendered, find_block-replace_blocks}
use alpha_one.Roles.{Catalog, Bindings}
use alpha_one.Roles.Gate.{effective, join}

abbrev pub begin_marker : Str
begin_marker =
    codes
      "<!-- roles:begin (generated from contracts/permissions/roles.yaml — do not edit by hand) -->"

abbrev pub end_marker : Str
end_marker = codes "<!-- roles:end -->"

abbrev pub realm_order : List Str
realm_order = codes "tenant" ∷ codes "platform" ∷ []

unfoldable pub shown_keys : List Str → Str
shown_keys [] = codes "_none_"
shown_keys (key ∷ keys) = join_with (codes ", ") (map quoted (key ∷ keys))

unfoldable pub role_line : Str → List Str → Str
role_line role keys = concat (codes "| `" ∷ role ∷ codes "` | " ∷ shown_keys keys ∷ codes " |" ∷ [])

-- `for role, meta in catalog.items()`, under one realm.
unfoldable pub realm_lines : Str → Catalog → Bindings → Catalog → Option (List Str)
realm_lines scope catalog bindings [] = some []
realm_lines scope catalog bindings ((role, meta) ∷ rest) =
    let later = realm_lines scope catalog bindings rest in
    if not (str_eq meta.realm scope) then later else elim (effective role bindings catalog) [
      | none ↦ none
      | some keys ↦ join (some (role_line role keys ∷ [])) later
    ]

unfoldable pub realm_title : Str → Str
realm_title scope =
    if str_eq scope (codes "tenant") then codes "**Tenant realm**" else codes "**Platform realm**"

unfoldable pub scope_lines : List Str → Catalog → Bindings → Option (List Str)
scope_lines [] catalog bindings = some []
scope_lines (scope ∷ scopes) catalog bindings =
    join
      (join
        (some (
          realm_title scope
          ∷ []
          ∷ codes "| Role | Permission keys (effective) |"
          ∷ codes "|---|---|"
          ∷ []))
        (join (realm_lines scope catalog bindings catalog) (some ([] ∷ []))))
      (scope_lines scopes catalog bindings)

unfoldable pub render : Catalog → Bindings → Option Str
render catalog bindings = elim (scope_lines realm_order catalog bindings) [
  | none ↦ none
  | some lines ↦ some (join_with newline (begin_marker ∷ [] ∷ (lines ++ end_marker ∷ [])))
]

unfoldable pub check_doc : Str → Str → List DocProblem
check_doc text want = elim (find_block begin_marker end_marker text) [
  | none ↦ block_missing ∷ []
  | some block ↦
      if str_eq (strip_newlines (begin_marker ++ (block.inside ++ end_marker))) want
      then []
      else block_differs ∷ []
]

pub data Written : Type 0 where
  written : Str → Written
  no_anchor : Written
  escape_in_block : Written

abbrev pub anchor : Str
anchor = codes "**Role catalog (AUTH-12"

abbrev pub blank_line : Str
blank_line = 10 ∷ 10 ∷ []

-- `text[:1]`, `text[1:]`
unfoldable pub first_char : Str → Str
first_char [] = []
first_char (c ∷ cs) = c ∷ []

unfoldable pub other_chars : Str → Str
other_chars [] = []
other_chars (c ∷ cs) = cs

-- `text[:end + 2] + want + "\n\n" + text[end + 2:]`, where `end` is the blank line behind the
-- anchor, and -1 if there is none.
unfoldable pub insert_block : Str → Str → Written
insert_block text want = elim (split_first anchor text) [
  | none ↦ no_anchor
  | some (before, behind) ↦ elim (split_first blank_line (anchor ++ behind)) [
    | some (head, rest) ↦
        written (concat (before ∷ head ∷ blank_line ∷ want ∷ blank_line ∷ rest ∷ []))
    | none ↦ written (first_char text ++ (want ++ (blank_line ++ other_chars text)))
  ]
]

unfoldable pub write_doc : Str → Str → Written
write_doc text want = elim (find_block begin_marker end_marker text) [
  | none ↦ insert_block text want
  | some block ↦
      if has_escape want
      then escape_in_block
      else written (replace_blocks begin_marker end_marker want (suc (length text)) text)
]

-- Where the document has a marked block, and the rendered block is framed by the markers, holds no
-- other end marker, no backslash, and no newline at its end: `--write-doc` writes, and on what it
-- wrote `check_doc` reports nothing.
pub check_doc-write_doc :
    (text want : Str) (block : Block)
    → find_block begin_marker end_marker text ≡ some block
    → IsRendered begin_marker end_marker want
    → has_escape want ≡ false
    → strip_newlines want ≡ want
    → (new : Str) × (write_doc text want ≡ written new) × (check_doc new want ≡ [])
unfolding write_doc check_doc
check_doc-write_doc text want block h r plain kept =
    let new = replace_blocks begin_marker end_marker want (suc (length text)) text in
    let (later, found) =
      find_block-replace_blocks begin_marker end_marker want text (length text) block r h in
    (new, rw (h, write_doc, plain), rw (found, check_doc, ← r.framed, kept, str_eq_refl))
