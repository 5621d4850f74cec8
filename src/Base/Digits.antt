-- ===== src/Base/Digits.antt =====
-- Decimal numbers in texts: what Python's `\d`, `int` and `str` do.
use Prim.Native.Nat.{ℕ, zero, suc, ◌+◌, ◌-◌, ◌*◌, ◌/◌, ◌%◌, ◌<◌}
use mathlib.Core.Path.{◌≡◌}
use native.Mathlib.Omega.{arith}
use mathlib.Core.Bool.{Bool, ◌&&◌}
use mathlib.Core.List.{List, [], ◌∷◌, ◌++◌}
use alpha_one.Base.Tests.{ltb, leb, if◌then◌else◌}
use alpha_one.Base.Lists.{any}
use alpha_one.Base.Text.{Str}

-- The zeros of Unicode's decimal digits (category Nd); the nine digits behind each follow it.
abbrev other_zeros : List ℕ
other_zeros =
    1632 ∷ 1776 ∷ 1984 ∷ 2406 ∷ 2534 ∷ 2662 ∷ 2790 ∷ 2918 ∷ 3046 ∷ 3174 ∷ 3302 ∷ 3430 ∷ 3558 ∷ 3664
    ∷ 3792 ∷ 3872 ∷ 4160 ∷ 4240 ∷ 6112 ∷ 6160 ∷ 6470 ∷ 6608 ∷ 6784 ∷ 6800 ∷ 6992 ∷ 7088 ∷ 7232
    ∷ 7248 ∷ 42528 ∷ 43216 ∷ 43264 ∷ 43472 ∷ 43504 ∷ 43600 ∷ 44016 ∷ 65296 ∷ 66720 ∷ 68912 ∷ 69734
    ∷ 69872 ∷ 69942 ∷ 70096 ∷ 70384 ∷ 70736 ∷ 70864 ∷ 71248 ∷ 71360 ∷ 71472 ∷ 71904 ∷ 72016 ∷ 72784
    ∷ 73040 ∷ 73120 ∷ 73552 ∷ 92768 ∷ 92864 ∷ 93008 ∷ 120782 ∷ 120792 ∷ 120802 ∷ 120812 ∷ 120822
    ∷ 123200 ∷ 123632 ∷ 124144 ∷ 125264 ∷ 130032 ∷ []

abbrev zeros : List ℕ
zeros = 48 ∷ other_zeros

-- `\d`
unfoldable pub is_digit : ℕ → Bool
is_digit c = any (λ z. leb z c && leb c (z + 9)) zeros

value_from : List ℕ → ℕ → ℕ
value_from [] c = 0
value_from (z ∷ zs) c = if leb z c && leb c (z + 9) then c - z else value_from zs c

-- The value of one digit.
unfoldable pub digit_value : ℕ → ℕ
unfolding value_from
digit_value c = value_from zeros c

-- `int(s)` on digits
unfoldable pub number_of : ℕ → Str → ℕ
number_of n [] = n
number_of n (c ∷ s) = number_of (n * 10 + digit_value c) s

value_from-first : (zs : List ℕ) (d : ℕ) → d < 10 → value_from (48 ∷ zs) (d + 48) ≡ d
unfolding value_from
value_from-first zs d h = ground arith

pub digit_value-ascii : (d : ℕ) → d < 10 → digit_value (d + 48) ≡ d
unfolding digit_value
digit_value-ascii d h = value_from-first other_zeros d h

-- `str(n)`, by its digits; the fuel bounds their number.
unfoldable pub decimal : ℕ → ℕ → Str
decimal zero n = []
decimal (suc fuel) n =
    let front = decimal fuel (n / 10) in
    if ltb n 10 then (n + 48) ∷ [] else front ++ (n % 10 + 48) ∷ []

-- `str(n)`
unfoldable pub str_of : ℕ → Str
unfolding decimal
str_of n = decimal (suc n) n
