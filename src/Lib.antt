-- ===== src/Lib.antt =====
-- A model of the tooling that guards the Alpha One specification: the Python scripts under
-- alpha-one/scripts. They read the machine-readable contracts and the documents, check that the
-- views agree, and extract the product requirements from a workbook.
--
-- Parts. `Roles` follows alpha-one/scripts/verify_roles.py: the role catalog and the bindings of
-- permission keys (`Catalog`, `Bindings`), `ancestors` and `descendants` over one worklist loop
-- (`Roles.Walk`), the checks of `main` (`Roles.Gate`), the seed of `--seed` (`Roles.Seed`), the
-- rendered table (`Roles.Document`), the scan of the OpenAPI operations (`Roles.Routes`; the same
-- operations without its counters in `Roles.Operations`), the rows of the registry
-- (`Roles.Registry`), the generated matrix (`Roles.Matrix`) and the whole of `main` with its exit
-- code (`Roles.Main`). `Tenants` follows alpha-one/scripts/verify_tenant_states.py: the state
-- matrix, its checks and its table, `ddl_states` (`Tenants.Lifecycle`) and `main`
-- (`Tenants.Main`). `Tables` is the expression with which both gates read keys from the first
-- column of a table. `Markers` is the marked block of a document, which both gates search,
-- compare and replace. `Workbook` follows alpha-one/scripts/parse_prd_workbook.py: the repairs of
-- a text and the regular expressions (`Workbook.Cells`), the lines, columns, bands and runs of a
-- page (`Workbook.Pages`), `_align_runs` (`Workbook.Align`), `anchor_rows` and `norm_row`
-- (`Workbook.Rows`), the two free-form sheets (`Workbook.Questions`, `Workbook.Scope`), the
-- tables of names and bands (`Workbook.Keys`), what `main` does sheet by sheet (`Workbook.Main`)
-- and as a whole (`Workbook.Program`), and `check` and `merge_legacy` (`Workbook.Legacy`), which
-- compare the parsed backlog with the older alpha-one/scripts/prd-backlog.json and bring that
-- file up to date. `Events` follows alpha-one/scripts/check_event_payloads.py: the walk over a
-- payload schema, in `Events.Payload` the checks of one payload file, and in `Events.Fields` the
-- two regular expressions on the names of fields, case ignored, in `Events.Catalog` the table of
-- events and the loop over their files. `Site` follows alpha-one/scripts/build_docs_site.py: the
-- regular expressions on a line (`Site.Patterns`), tables (`Site.Cells`), lists (`Site.Items`),
-- anchors (`Site.Slugs`), the marks inside a text (`Site.Inline`), the links (`Site.Links`), the
-- blocks of a document (`Site.Blocks`), a page of a new context (`Site.Pages`, where an exception
-- of `ctx.inline` ends the page), the directories with an index page (`Site.Indexes`), the
-- documents with their groups and titles (`Site.Docs`), the page around a rendered text
-- (`Site.Frame`, `Site.Contents`), `verify_links` (`Site.Checked`), and `build` and `main` over
-- the dictionary of the output's files (`Site.Build`); what `main` writes to the marker, its time
-- included, is an argument of each run. `render_markdown` takes the rendering of a text as a
-- parameter; `Site.Pages` gives it `render_inline` with `Site.rewrite`, which asks the file
-- system through the functions of a record (`Disk`). `Base` holds what all share: Boolean tests,
-- lists under native indices, Python's `str` as a list of code points, `sorted`, `dict` as the
-- list of its entries.
--
-- Conventions. A dictionary is the list of its entries in order of insertion (`IsDict` says that
-- the keys differ); a set is a list read by membership, so no result rests on its order. A
-- message that a script appends to `errors` is a constructor that carries the parts of the
-- message. An operation that can raise returns `none` there. Positions on a page are floats,
-- counted in units of 2^-60 of a point (`Workbook.Floats`): a float of 2^-8 or more is a whole
-- number of them. Positions are not negative. Their differences and the sums of the centres are
-- rounded to 53 bits as Python rounds them; only the costs that `_align_runs` sums are added
-- exactly. The class `\w` of a regular expression is a parameter (`is_word`) of what tests for
-- it.
--
-- Fuel. The worklist loop takes the length of its stack plus the lengths of all lists that it can
-- push; the backtracking loop takes the number of runs plus the number of anchors; the loop of
-- `render_markdown` takes the number of characters of the lines and their ends, the loop of a
-- list its number of lines, the loop over its items the number of items, the search of a slug the
-- number of used slugs. All are proved to be enough on every input. The rounding of a float tries
-- 64 doublings of its unit, which is enough below 2^57 points.
--
-- Not modelled: PyYAML, pypdf and the file system (the parsed contents are arguments), the output
-- to the terminal, `build_hub` (given as a function), the generators of the contracts and of the
-- registers, and the Go and Rust prototypes under pf-platform.
pub mod Base
pub mod Events
pub mod Markers
pub mod Roles
pub mod Site
pub mod Tables
pub mod Tenants
pub mod Workbook
