-- ===== src/Workbook/Floats.antt =====
-- The floats of alpha-one/scripts/parse_prd_workbook.py. A float that is not negative is the number of its
-- units of 2^-60; a double from 2^-8 on is a whole number of them. What `-` and `+` give is rounded to 53
-- bits, to the even one of two that are as near.
use alpha_one.Base.{
  ℕ, zero, suc, ◌+◌, ◌-◌, ◌*◌, ◌/◌, ◌%◌, ◌^◌, ◌&&◌, ◌||◌, ◌<◌, arith, Bool-cases, inl, inr,
  if◌then◌else◌,
}
use alpha_one.Base.{ltb, ◌==◌}

-- The first of `p`, `2 * p`, ... with at most 53 bits of `n` above it. The 64 doublings that are tried are
-- enough below 2^57 points (`unit_from-enough`).
unfoldable pub unit_from : ℕ → ℕ → ℕ → ℕ
unit_from zero n p = p
unit_from (suc fuel) n p =
    let more = unit_from fuel n (2 * p) in if ltb n (2 ^ 53 * p) then p else more

doubled : ℕ → ℕ → ℕ
doubled zero p = p
doubled (suc fuel) p = doubled fuel (2 * p)

unit_from-holds : (fuel n p : ℕ) → n < 2 ^ 53 * doubled fuel p → n < 2 ^ 53 * unit_from fuel n p
unfolding unit_from doubled
unit_from-holds zero n p h = h
unit_from-holds (suc fuel) n p h = elim (Bool-cases (ltb n (2 ^ 53 * p))) [
  | inl e ↦ rw e (ground arith)
  | inr e ↦ rw e (unit_from-holds fuel n (2 * p) h)
]

-- The unit of a number of units of 2^-60 below 2^117 leaves at most 53 bits.
unit_from-enough : (n : ℕ) → n < 2 ^ 117 → n < 2 ^ 53 * unit_from 64 n 1
unfolding doubled
unit_from-enough n h = unit_from-holds 64 n 1 h

-- The double next to `n / d`.
unfoldable pub nearest_double : ℕ → ℕ → ℕ
unfolding unit_from
nearest_double n d =
    let p = unit_from 64 n d in
    let q = n / p in
    let rest = n % p in
    let up = ltb p (2 * rest) || 2 * rest == p && q % 2 == 1 in (if up then q + 1 else q) * (p / d)

-- A literal: whole points, and tenths.
unfoldable pub points : ℕ → ℕ
points n = n * 2 ^ 60

unfoldable pub tenths : ℕ → ℕ
unfolding nearest_double
tenths n = nearest_double (n * 2 ^ 60) 10

-- `a - b` where `b` is not the greater, and 0 where it is.
unfoldable pub minus : ℕ → ℕ → ℕ
unfolding nearest_double
minus a b = nearest_double (a - b) 1

unfoldable pub plus : ℕ → ℕ → ℕ
unfolding nearest_double
plus a b = nearest_double (a + b) 1

-- `abs(a - b)`
unfoldable pub apart : ℕ → ℕ → ℕ
unfolding nearest_double
apart a b = nearest_double ((a - b) + (b - a)) 1
