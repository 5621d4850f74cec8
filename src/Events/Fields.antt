-- ===== src/Events/Fields.antt =====
-- The two regular expressions of alpha-one/scripts/check_event_payloads.py, `MONEY_KEY` and
-- `NOT_MONEY`, searched in the name of a field with `re.I`.
use alpha_one.Base.{
  ℕ, ◌+◌, ◌&&◌, ◌||◌, not, Bool, true, false, List, [], ◌∷◌, any, Str, codes, leb, ◌==◌,
  if◌then◌else◌,
}

-- The lower-case ASCII letter that `re.I` identifies a code point with: the capitals, two forms of
-- `i`, the long `s` and the Kelvin sign.
unfoldable pub fold : ℕ → ℕ
fold c =
    if leb 65 c && leb c 90
    then c + 32
    else if c == 304 || c == 305
    then 105
    else if c == 383
    then 115
    else if c == 8490
    then 107
    else c

-- `$`: the end, or the last line break.
unfoldable pub at_end : Str → Bool
at_end [] = true
at_end (c ∷ []) = c == 10
at_end (c ∷ d ∷ s) = false

-- A literal stands here, and `rest` holds of what follows it.
unfoldable pub then_rest : (Str → Bool) → Str → Str → Bool
unfolding fold
then_rest rest [] s = rest s
then_rest rest (p ∷ ps) [] = false
then_rest rest (p ∷ ps) (c ∷ s) = fold c == p && then_rest rest ps s

-- `re.search`: some suffix matches.
unfoldable pub search_in : (Str → Bool) → Str → Bool
search_in here [] = here []
search_in here (c ∷ s) = here (c ∷ s) || search_in here s

abbrev anything : Str → Bool
anything s = true

-- `(_|$)`
unfoldable pub closed_word : Str → Bool
unfolding at_end
closed_word [] = true
closed_word (c ∷ s) = c == 95 || at_end (c ∷ s)

-- `[_a-z]*bps(_|$)`
unfoldable pub ends_bps : Str → Bool
unfolding then_rest closed_word fold
ends_bps [] = false
ends_bps (c ∷ s) =
    then_rest closed_word (codes "bps") (c ∷ s)
    || (c == 95 || leb 97 (fold c) && leb (fold c) 122) && ends_bps s

abbrev money_words : List Str
money_words =
    codes "amount"
    ∷ codes "cents"
    ∷ codes "balance"
    ∷ codes "equity"
    ∷ codes "pnl"
    ∷ codes "profit"
    ∷ codes "fee"
    ∷ codes "price_cents"
    ∷ []

-- The words of `MONEY_KEY` with what must follow.
unfoldable pub money_word : Str → Bool
unfolding then_rest closed_word ends_bps
money_word s =
    any (λ (word : Str). then_rest closed_word word s) money_words
    || then_rest ends_bps (codes "split") s

-- `_` and a word
unfoldable pub after_underscore : Str → Bool
unfolding money_word
after_underscore [] = false
after_underscore (c ∷ s) = c == 95 && money_word s

-- `MONEY_KEY.search(k)`
unfoldable pub money_key : Str → Bool
unfolding search_in after_underscore
money_key k = money_word k || search_in after_underscore k

-- `NOT_MONEY.search(k)`
unfoldable pub not_money : Str → Bool
unfolding search_in then_rest at_end
not_money k =
    search_in (then_rest anything (codes "open_price")) k
    || search_in (then_rest anything (codes "current_price")) k
    || search_in (then_rest at_end (codes "_price")) k
    || search_in (then_rest at_end (codes "lots")) k
    || search_in (then_rest at_end (codes "profit_split")) k

unfoldable pub is_money : Str → Bool
unfolding money_key not_money
is_money k = money_key k && not (not_money k)
