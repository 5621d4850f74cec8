-- ===== src/Tables/Samples.antt =====
-- A small table, and what the theorem says of it.
use alpha_one.Base.{codes, List, [], ◌∷◌, ◌≡◌, refl, flat_map, All, inr, arith}
use alpha_one.Tables.{table_keys, is_key_char}
use alpha_one.Tables.Rows.{
  Line, row, other, line_key, document, IsLine, no_tick, table_keys-document,
}

abbrev lines : List Line
lines =
    other (codes "| Code | Meaning |")
    ∷ other (codes "|---|---|")
    ∷ row (codes "a.b") (codes " 404 |")
    ∷ other []
    ∷ row (codes "c_1") (codes " 409 |")
    ∷ []

lines-IsLine : All IsLine lines
unfolding is_key_char no_tick
lines-IsLine = (
  (inr refl, omega arith),
  (
    (inr refl, omega arith),
    (
      (cc, (refl, (refl, (refl, tt))), omega arith),
      ((tt, tt), ((cc, (refl, (refl, (refl, tt))), omega arith), tt)),
    ),
  ),
)

table_keys-document_example : table_keys (document lines) ≡ flat_map line_key lines
table_keys-document_example = table_keys-document lines lines-IsLine

table_keys-sample : flat_map line_key lines ≡ codes "a.b" ∷ codes "c_1" ∷ []
unfolding line_key
table_keys-sample = refl
