-- ===== src/Tenants/Document.antt =====
-- The rendered table of docs/03 §5.1: `render`, `check_doc` and `write_doc` of
-- alpha-one/scripts/verify_tenant_states.py.
use alpha_one.Base.{
  ℕ, suc, false, Option, none, some, List, [], ◌∷◌, ◌++◌, length, Str, str_eq, if◌then◌else◌, arith,
  ◌≡◌, refl, str_eq_refl, codes, join_with, newline,
}
use alpha_one.Markers.{
  Block, find_block, replace_blocks, strip_newlines, strip_cons, has_escape, DocProblem,
  block_missing, block_differs,
}
use alpha_one.Markers.RoundTrip.{IsRendered, find_block-replace_blocks}
use alpha_one.Tenants.{States, table_lines}

abbrev pub begin_marker : Str
begin_marker =
    codes
      "<!-- tenant-states:begin (generated from contracts/tenants/state-capabilities.yaml — do not edit by hand) -->"

abbrev pub end_marker : Str
end_marker = codes "<!-- tenant-states:end -->"

abbrev table_header : List Str
table_header =
    codes
      "| State | Trader login/traffic | Staff (ADM) | API keys | Webhooks out | Bridge sync | Payments | Payouts |"
    ∷ codes "|---|---|---|---|---|---|---|---|"
    ∷ []

abbrev legend : Str
legend =
    codes
      "`✓` allowed · `—` blocked (the GW-18 code returned; `details.state` carries the tenant state where the code is generic) · `~` allowed but degraded (note). Generated from `contracts/tenants/state-capabilities.yaml` — the same file the docs/35 I-20 table-driven test consumes; enforcement point is GW step 3.5a (docs/04 §3.1), with module-level holds (payout hold, bridge pause, webhook queue → DLQ) applied by the owning modules from the same `tenant.*` events. Console (platform realm) is not governed by tenant state."

-- `none`: a row lacks a column.
unfoldable pub render : States → Option Str
render states = elim (table_lines states) [
  | none ↦ none
  | some lines ↦ some (
      join_with newline
        (begin_marker ∷ [] ∷ (table_header ++ (lines ++ [] ∷ legend ∷ [] ∷ end_marker ∷ []))))
]

unfoldable pub check_doc : Str → Str → List DocProblem
check_doc text rendered = elim (find_block begin_marker end_marker text) [
  | none ↦ block_missing ∷ []
  | some block ↦
      if str_eq (strip_newlines (begin_marker ++ (block.inside ++ end_marker)))
        (strip_newlines rendered)
      then []
      else block_differs ∷ []
]

pub data Written : Type 0 where
  written : Str → Written
  marker_missing : Written
  escape_in_block : Written

unfoldable pub write_doc : Str → Str → Written
write_doc text rendered = elim (find_block begin_marker end_marker text) [
  | none ↦ marker_missing
  | some block ↦
      if has_escape (strip_newlines rendered)
      then escape_in_block
      else written (
          replace_blocks begin_marker end_marker (strip_newlines rendered) (suc (length text)) text)
]

strip_cons_kept :
    (c : ℕ) (rest : Str)
    → strip_newlines rest ≡ rest
    → strip_newlines (strip_cons c rest) ≡ strip_cons c rest
unfolding strip_newlines
strip_cons_kept c [] h = ground arith
strip_cons_kept c (d ∷ ds) h = rw h

strip_newlines_twice : (text : Str) → strip_newlines (strip_newlines text) ≡ strip_newlines text
unfolding strip_newlines
strip_newlines_twice [] = refl
strip_newlines_twice (c ∷ cs) = strip_cons_kept c (strip_newlines cs) (strip_newlines_twice cs)

-- Where the document has a marked block, and the rendered block without its last newlines is
-- framed by the markers, holds no other end marker and no backslash: `--write-doc` writes, and on
-- what it wrote `check_doc` reports nothing. A document with no block is refused, and stays.
pub check_doc-write_doc_states :
    (text rendered : Str)
    → has_escape (strip_newlines rendered) ≡ false
    → IsRendered begin_marker end_marker (strip_newlines rendered)
    → ((block : Block)
        → find_block begin_marker end_marker text ≡ some block
        → (new : Str) × (write_doc text rendered ≡ written new) × (check_doc new rendered ≡ []))
      × (find_block begin_marker end_marker text ≡ none → write_doc text rendered ≡ marker_missing)
unfolding write_doc check_doc
check_doc-write_doc_states text rendered plain r = (
  λ block h.
      let want = strip_newlines rendered in
      let new = replace_blocks begin_marker end_marker want (suc (length text)) text in
      let (later, found) =
        find_block-replace_blocks begin_marker end_marker want text (length text) block r h in
      (
        new,
        rw (h, write_doc, plain),
        rw (found, check_doc, ← r.framed, strip_newlines_twice rendered, str_eq_refl),
      ),
  λ h. rw (h, write_doc),
)
