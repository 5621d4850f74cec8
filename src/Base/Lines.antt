-- ===== src/Base/Lines.antt =====
-- Texts put together as Python's `"sep".join(parts)` and f-strings do.
use Prim.Native.Nat.{ℕ}
use mathlib.Core.List.{List, [], ◌∷◌, ◌++◌}
use alpha_one.Base.Tests.{◌==◌, if◌then◌else◌}
use alpha_one.Base.Text.{Str, codes}

-- `sep.join(parts)`
unfoldable pub join_with : Str → List Str → Str
join_with sep [] = []
join_with sep (x ∷ []) = x
join_with sep (x ∷ y ∷ xs) = x ++ (sep ++ join_with sep (y ∷ xs))

abbrev pub newline : Str
newline = 10 ∷ []

-- An f-string: its pieces in order.
unfoldable pub concat : List Str → Str
concat [] = []
concat (x ∷ xs) = x ++ concat xs

-- A text in backticks.
unfoldable pub quoted : Str → Str
quoted text = codes "`" ++ (text ++ codes "`")

-- `s.split(d)`
unfoldable pub add_first : ℕ → List Str → List Str
add_first c [] = (c ∷ []) ∷ []
add_first c (part ∷ parts) = (c ∷ part) ∷ parts

unfoldable pub split_char : ℕ → Str → List Str
unfolding add_first
split_char d [] = [] ∷ []
split_char d (c ∷ s) =
    let parts = split_char d s in if c == d then [] ∷ parts else add_first c parts
