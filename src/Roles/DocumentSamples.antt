-- ===== src/Roles/DocumentSamples.antt =====
-- A document with a marked block, for `check_doc` and `write_doc` of
-- alpha-one/scripts/verify_roles.py.
use alpha_one.Base.{false, some, [], ◌++◌, Str, ◌≡◌, refl, codes}
use alpha_one.Markers.{Block, find_block, replace_blocks, strip_newlines, has_escape}
use alpha_one.Markers.Search.{split_first, strip_prefix}
use alpha_one.Markers.RoundTrip.{IsRendered}
use alpha_one.Roles.Document.{
  begin_marker, end_marker, check_doc, write_doc, written, check_doc-write_doc,
}

abbrev want : Str
want = begin_marker ++ (codes " roles " ++ end_marker)

abbrev document : Str
document = codes "a " ++ (begin_marker ++ (codes "old" ++ (end_marker ++ codes " z")))

abbrev block : Block
block = record { before = codes "a "; inside = codes "old"; after = codes " z" }

program : Unit {0}
unfolding find_block replace_blocks strip_newlines has_escape split_first strip_prefix
program = tt

block-found : find_block begin_marker end_marker document ≡ some block
unfolding program
block-found = refl

want-IsRendered : IsRendered begin_marker end_marker want
unfolding program
want-IsRendered = record { body = codes " roles "; framed = refl; closed = refl }

want_plain : (has_escape want ≡ false) × (strip_newlines want ≡ want)
unfolding program
want_plain = (refl, refl)

check_doc-write_doc_example :
    (new : Str) × (write_doc document want ≡ written new) × (check_doc new want ≡ [])
check_doc-write_doc_example =
    check_doc-write_doc document want block block-found want-IsRendered want_plain.0 want_plain.1
