-- ===== src/Site/Docs.antt =====
-- The documents that alpha-one/scripts/build_docs_site.py collects: their pages, groups and titles.
-- A source is its path below the root; the file system and `str.title` are given.
pub mod Collected
pub mod Groups
pub mod Complete
use alpha_one.Base.{
  ◌&&◌, ◌||◌, not, Bool, true, false, Option, none, some, List, [], ◌∷◌, ◌++◌, map, Str, str_eq,
  if◌then◌else◌, any, all,
}
use alpha_one.Base.{
  codes, leb, ◌==◌, ◌>>=◌, lookup, is_digit, number_of, is_space, lstrip, strip, sorted,
}
use alpha_one.Events.Fields.{fold}
use alpha_one.Workbook.Cells.{is_capital, has_length}
use alpha_one.Site.Patterns.{heading_of}

pub record DocSpec : Type 0 where
  pub site_path : Str
  pub src : Str
  pub group : Str
  pub title : Str

-- What `src.read_text(encoding="utf-8").splitlines()` does: it gives the lines, or raises an `OSError`,
-- or a `UnicodeDecodeError` on a file that is not UTF-8.
pub data ReadEnd : Type 0 where
  lines_of : List Str → ReadEnd
  os_error not_utf8 : ReadEnd

-- What the file system and Python's `str.title` answer: `read` what reading a file does, `glob` the
-- names of a directory's files that end in `.md`.
pub record Files : Type 0 where
  pub is_file : Str → Bool
  pub is_dir : Str → Bool
  pub glob : Str → List Str
  pub read : Str → ReadEnd
  pub titled : Str → Str

unfoldable pub first_heading : List Str → Str
unfolding heading_of
first_heading [] = []
first_heading (line ∷ lines) = elim (heading_of line) [
  | none ↦ first_heading lines
  | some heading ↦ heading.title
]

-- `_first_heading` behind the reading; `none`: it raises.
unfoldable pub heading_in : ReadEnd → Option Str
unfolding first_heading
heading_in (lines_of lines) = some (first_heading lines)
heading_in os_error = some []
heading_in not_utf8 = none

-- `s.endswith(end)`, with what stands before it.
unfoldable pub strip_suffix : Str → Str → Option Str
strip_suffix end [] = if str_eq end [] then some [] else none
strip_suffix end (c ∷ s) =
    let later = strip_suffix end s in
    if str_eq end (c ∷ s)
    then some []
    else elim later [ none ↦ none | some before ↦ some (c ∷ before) ]

-- `re.sub(r"\.md$", "", name)`
unfoldable pub drop_md : Str → Str
unfolding strip_suffix
drop_md name = elim (strip_suffix (codes ".md") name) [
  | some stem ↦ stem
  | none ↦ elim (strip_suffix (codes ".md\n") name) [ some stem ↦ stem ++ codes "\n" | none ↦ name ]
]

-- `^(\d{2})-`: the digits and what follows.
unfoldable pub match_number : Str → Option (Str × Str)
match_number [] = none
match_number (a ∷ []) = none
match_number (a ∷ b ∷ []) = none
match_number (a ∷ b ∷ c ∷ s) =
    if is_digit a && is_digit b && c == 45 then some (a ∷ b ∷ [], s) else none

-- `re.sub(r"[-_]+", " ", stem)`; the test says whether a mark stands before.
unfoldable pub join_words : Bool → Str → Str
join_words inside [] = []
join_words inside (c ∷ s) =
    if c == 45 || c == 95
    then (if inside then join_words true s else 32 ∷ join_words true s)
    else c ∷ join_words false s

unfoldable pub prettify : Files → Str → Str
unfolding drop_md match_number join_words
prettify files name =
    let stem = drop_md name in
    let rest : Str = elim (match_number stem) [ none ↦ stem | some (num, s) ↦ s ] in
    elim (files.titled (strip (join_words false rest))) [ [] ↦ name | c ∷ s ↦ c ∷ s ]

-- `[A-Z]{2,4}(?:/[A-Z]{2,4})*\)\s*$` at the start of a text, behind the letters of a code: the group.
unfoldable pub match_codes : Str → Str → Option Str
unfolding is_capital has_length
match_codes [] letters = none
match_codes (c ∷ s) letters =
    let longer = match_codes s (letters ++ c ∷ []) in
    let next = match_codes s [] in
    if is_capital c
    then longer
    else if not (has_length 2 4 letters)
    then none
    else if c == 47
    then (do others ← next; some (letters ++ (47 ∷ others)))
    else if c == 41 && all is_space s
    then some letters
    else none

-- `re.search(r"\(([A-Z]{2,4}(?:/[A-Z]{2,4})*)\)\s*$", heading)`
unfoldable pub search_codes : Str → Option Str
unfolding match_codes
search_codes [] = none
search_codes (c ∷ s) =
    let later = search_codes s in
    if c == 40 then elim (match_codes s []) [ none ↦ later | some found ↦ some found ] else later

-- `(API )?Contract$`, case ignored, for a text without a line break at its end.
unfoldable pub is_contract : Str → Bool
unfolding fold
is_contract s =
    let low = map fold s in str_eq low (codes "contract") || str_eq low (codes "api contract")

-- `re.sub(r"\s+(API )?Contract$", "", heading, flags=re.I)`
unfoldable pub drop_contract : Str → Str
unfolding is_contract
drop_contract [] = []
drop_contract (c ∷ s) =
    let later = drop_contract s in if is_space c && is_contract (lstrip s) then [] else c ∷ later

-- The last part of a path.
unfoldable pub file_name : Str → Str
file_name [] = []
file_name (c ∷ s) = let later = file_name s in if any (λ d. d == 47) (c ∷ s) then later else c ∷ s

unfoldable pub api_label : Files → Str → Str → Str
unfolding search_codes drop_contract prettify file_name
api_label files src [] = prettify files (file_name src)
api_label files src (c ∷ heading) = elim (search_codes (c ∷ heading)) [
  | some found ↦ found
  | none ↦ elim (strip (drop_contract (c ∷ heading))) [
    | [] ↦ prettify files (file_name src)
    | d ∷ label ↦ d ∷ label
  ]
]

-- `MODULE_DOC_DOMAIN`
abbrev pub module_domain : List (Str × Str)
module_domain =
    (codes "02", codes "D4")
    ∷ (codes "03", codes "D4")
    ∷ (codes "04", codes "D4")
    ∷ (codes "05", codes "D4")
    ∷ (codes "06", codes "D4")
    ∷ (codes "21", codes "D4")
    ∷ (codes "07", codes "D1")
    ∷ (codes "08", codes "D1")
    ∷ (codes "09", codes "D1")
    ∷ (codes "10", codes "D1")
    ∷ (codes "11", codes "D1")
    ∷ (codes "12", codes "D2")
    ∷ (codes "13", codes "D2")
    ∷ (codes "14", codes "D2")
    ∷ (codes "15", codes "D2")
    ∷ (codes "16", codes "D2")
    ∷ (codes "26", codes "D2")
    ∷ (codes "17", codes "D3")
    ∷ (codes "18", codes "D3")
    ∷ (codes "19", codes "D3")
    ∷ (codes "20", codes "D3")
    ∷ (codes "25", codes "D3")
    ∷ (codes "22", codes "D5")
    ∷ (codes "23", codes "D5")
    ∷ (codes "24", codes "D5")
    ∷ (codes "27", codes "D5")
    ∷ []

-- `DOMAIN_TITLES`
abbrev pub domain_titles : List (Str × Str)
domain_titles =
    (codes "D1", codes "D1 · Core Trading Engine (BRG · EVL · LCC · PAY · RSK)")
    ∷ (
      codes "D2",
      codes "D2 · Trader Experience (TD · CHK · KYC · NOT · DOC · EDU · JRN · MOB · CHT)",
    )
    ∷ (codes "D3", codes "D3 · Tenant Operations (ADM · SUP · ANA · CRM · MIG)")
    ∷ (
      codes "D4",
      codes "D4 · Platform Infrastructure (AUTH · TEN · EVT · GW · LED · AUD · OPS · CON)",
    )
    ∷ (
      codes "D5",
      codes "D5 · Ecosystem & Growth (AFF · CMS · CMP · BIL · SDK · DVP · PLT · CS · TRD)",
    )
    ∷ []

-- `_doc_group` behind its match; `none`: a `KeyError`.
unfoldable pub group_of : Str → Option Str
group_of num =
    if str_eq num (codes "00") || str_eq num (codes "01")
    then some (codes "Start here")
    else elim (lookup num module_domain) [
      | some domain ↦ lookup domain domain_titles
      | none ↦
          let n = number_of 0 num in
          some (
            if leb n 35
            then codes "Cross-cutting (28–35)"
            else if leb n 40
            then codes "PRD registers (36–40)"
            else if leb n 62
            then codes "Design decisions (41–62)"
            else codes "Development plan")
    ]

unfoldable pub doc_group : Str → Option Str
doc_group name = elim (match_number name) [
  | none ↦ some (codes "Documentation")
  | some (num, s) ↦ group_of num
]

-- The page of a source; `none`: the assertion fails. The name README.html has no further `/`, so
-- that the parent is what stands before it.
unfoldable pub site_path_of : Str → Option Str
unfolding strip_suffix
site_path_of src = do
  stem ← strip_suffix (codes ".md") src
  let page = stem ++ codes ".html"
  some (
      if str_eq page (codes "README.html")
      then codes "index.html"
      else elim (strip_suffix (codes "/README.html") page) [
        | none ↦ page
        | some parent ↦ elim parent [
          | [] ↦ codes "index.html"
          | c ∷ s ↦ (c ∷ s) ++ codes "/index.html"
        ]
      ])

-- `add(src, group, label)`; `is_api`: the directory of the source is called api.
unfoldable pub add_doc :
    Files → Bool → Str → Str → Option Str → List DocSpec → Option (List DocSpec)
unfolding site_path_of heading_in api_label prettify
add_doc files is_api src group label docs = do
  path ← site_path_of src
  heading ← heading_in (files.read src)
  let title : Str = (elim label [
    | some given ↦ given
    | none ↦
        if is_api
        then api_label files src heading
        else elim heading [ [] ↦ prettify files (file_name src) | c ∷ s ↦ c ∷ s ]
  ])
  some (docs ++ record { site_path = path; src = src; group = group; title = title } ∷ [])

-- `for src in sorted(directory.glob("*.md")): add(src, ...)`
unfoldable pub add_docs :
    Files → Bool → Str → (Str → Option Str) → List Str → List DocSpec → Option (List DocSpec)
unfolding add_doc
add_docs files is_api dir group [] docs = some docs
add_docs files is_api dir group (name ∷ names) docs = do
  found ← group name
  after ← add_doc files is_api (dir ++ name) found none docs
  add_docs files is_api dir group names after

unfoldable pub add_readme : Files → Str → Str → Str → List DocSpec → Option (List DocSpec)
unfolding add_doc
add_readme files src group label docs =
    if files.is_file src then add_doc files false src group (some label) docs else some docs

unfoldable pub add_dir :
    Files → Bool → Str → (Str → Option Str) → List DocSpec → Option (List DocSpec)
unfolding add_docs
add_dir files is_api dir group docs =
    if files.is_dir dir
    then add_docs files is_api (dir ++ codes "/") group (sorted (files.glob dir)) docs
    else some docs

unfoldable pub collect_docs : Files → Option (List DocSpec)
unfolding add_readme add_dir doc_group
collect_docs files = do
  readme ← add_readme files (codes "README.md") (codes "Overview") (codes "Overview") []
  docs ← add_dir files false (codes "docs") doc_group readme
  contracts ←
      add_readme files (codes "contracts/README.md") (codes "Contracts") (codes "Contracts pack")
        docs
  add_dir files true (codes "contracts/api") (λ name. some (codes "API contracts")) contracts
