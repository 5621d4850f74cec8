-- ===== src/Markers/Search.antt =====
-- Searching a literal in a text, for the marked blocks of alpha-one/scripts/verify_roles.py and
-- alpha-one/scripts/verify_tenant_states.py.
use alpha_one.Base.{
  ℕ, ◌≤◌, Option, none, some, [], ◌∷◌, ◌++◌, append_assoc, length, length-append, Str, ◌==◌,
  Option-cases, arith, ◌≡◌, refl, inl, inr, ◌⊎◌, if◌then◌else◌,
}

-- The rest of a text behind a literal that it starts with.
unfoldable pub strip_prefix : Str → Str → Option Str
strip_prefix [] text = some text
strip_prefix (p ∷ ps) [] = none
strip_prefix (p ∷ ps) (c ∷ cs) = if p == c then strip_prefix ps cs else none

-- The texts before and behind the first occurrence of a literal.
unfoldable pub split_first : Str → Str → Option (Str × Str)
split_first pat [] = elim (strip_prefix pat []) [ none ↦ none | some rest ↦ some ([], rest) ]
split_first pat (c ∷ cs) =
    let later = split_first pat cs in
    elim (strip_prefix pat (c ∷ cs)) [
      | some rest ↦ some ([], rest)
      | none ↦ elim later [ none ↦ none | some (before, rest) ↦ some (c ∷ before, rest) ]
    ]

strip_prefix-append : (pat rest : Str) → strip_prefix pat (pat ++ rest) ≡ some rest
unfolding strip_prefix
strip_prefix-append [] rest = refl
strip_prefix-append (p ∷ ps) rest = ground (arith, strip_prefix-append ps rest)

strip_prefix-some : (pat text rest : Str) → strip_prefix pat text ≡ some rest → text ≡ pat ++ rest
unfolding strip_prefix
strip_prefix-some [] text rest h = ground arith
strip_prefix-some (p ∷ ps) [] rest h = ground arith
strip_prefix-some (p ∷ ps) (c ∷ cs) rest h = ground (arith, strip_prefix-some ps cs rest)

-- Whether a text starts with a literal does not depend on what stands behind enough of it.
strip_prefix_local :
    (pat u x y : Str)
    → length pat ≤ length u
    → strip_prefix pat (u ++ x) ≡ none
    → strip_prefix pat (u ++ y) ≡ none
unfolding strip_prefix
strip_prefix_local [] u x y h e = ground arith
strip_prefix_local (p ∷ ps) [] x y h e = absurd (omega arith)
strip_prefix_local (p ∷ ps) (c ∷ cs) x y h e = ground (arith, strip_prefix_local ps cs x y)

pub split_first-some :
    (pat text before rest : Str)
    → split_first pat text ≡ some (before, rest)
    → text ≡ before ++ (pat ++ rest)
unfolding split_first
split_first-some pat [] before rest h = elim (Option-cases (strip_prefix pat [])) [
  | inl e ↦ ground arith
  | inr (r, e) ↦ ground (arith, strip_prefix-some pat [] r)
]
split_first-some pat (c ∷ cs) before rest h = elim (Option-cases (strip_prefix pat (c ∷ cs))) [
  | inl e ↦ elim (Option-cases (split_first pat cs)) [
    | inl f ↦ ground arith
    | inr ((b, r), f) ↦ ground (arith, split_first-some pat cs b r)
  ]
  | inr (r, e) ↦ ground (arith, strip_prefix-some pat (c ∷ cs) r)
]

split_here :
    (pat text rest : Str)
    → strip_prefix pat text ≡ some rest
    → split_first pat text ≡ some ([], rest)
unfolding split_first
split_here pat [] rest h = rw (h, split_first)
split_here pat (c ∷ cs) rest h = rw (h, split_first)

split_first-nil : (pat before rest : Str) → split_first pat [] ≡ some (before, rest) → before ≡ []
unfolding split_first
split_first-nil pat before rest h = ground arith

split_first-cons :
    (pat : Str) (c : ℕ) (cs before rest : Str)
    → split_first pat (c ∷ cs) ≡ some (before, rest)
    → (before ≡ [])
      ⊎ ((b : Str) × (strip_prefix pat (c ∷ cs) ≡ none)
          × (before ≡ c ∷ b)
          × (split_first pat cs ≡ some (b, rest)))
unfolding split_first
split_first-cons pat c cs before rest h = elim (Option-cases (strip_prefix pat (c ∷ cs))) [
  | inr (r, e) ↦ inl (ground arith)
  | inl e ↦ elim (Option-cases (split_first pat cs)) [
    | inl f ↦ cc (rw (e, split_first, f) at h)
    | inr ((b, r), f) ↦ inr (b, e, ground arith, ground arith)
  ]
]

split_skip :
    (pat : Str) (c : ℕ) (cs b rest : Str)
    → strip_prefix pat (c ∷ cs) ≡ none
    → split_first pat cs ≡ some (b, rest)
    → split_first pat (c ∷ cs) ≡ some (c ∷ b, rest)
unfolding split_first
split_skip pat c cs b rest h e = rw (h, split_first, e)

-- The first occurrence is still the first one with another text behind it.
pub split_first_keeps :
    (pat text before rest other : Str)
    → split_first pat text ≡ some (before, rest)
    → split_first pat (before ++ (pat ++ other)) ≡ some (before, other)
split_first_keeps pat [] before rest other h =
    rw (split_first-nil pat before rest h)
      (split_here pat (pat ++ other) other (strip_prefix-append pat other))
split_first_keeps pat (c ∷ cs) before rest other h =
    elim (split_first-cons pat c cs before rest h) [
      | inl e ↦ rw e (split_here pat (pat ++ other) other (strip_prefix-append pat other))
      | inr (b, missed, e, later) ↦
          let same = split_first-some pat cs b rest later in
          let away = rw (same, ← append_assoc b pat rest) at missed in
          let still =
            strip_prefix_local pat (c ∷ (b ++ pat)) rest other (omega (arith, length-append b pat))
              away in
          rw e (
            split_skip pat c (b ++ (pat ++ other)) b other (rw append_assoc at still)
              (split_first_keeps pat cs b rest other later))
    ]
