-- ===== src/Site/Slugs/Fresh.antt =====
-- Every heading of alpha-one/scripts/build_docs_site.py gets an anchor of its own.
use alpha_one.Base.{
  ℕ, zero, suc, ◌+◌, ◌<◌, true, false, none, some, List, [], ◌∷◌, ◌++◌, map, length, Str, mem,
  str_eq, arith, ◌≡◌, ◌≢◌, ◌∙◌, refl, ap, str_eq_sound, Bool-cases, Option-cases, inl, inr, sym,
  str_eq_comm, some-injective,
}
use alpha_one.Base.{
  length-append, digit_value, digit_value-ascii, ◌*◌, ◌/◌, ◌%◌, ◌<◌, ltb, decimal, str_of,
  number_of, length-keys, has_key, IsDict,
}
use alpha_one.Site.Slugs.{slugify, numbered_slug, slug_loop, slug_of}

number_of-append : (n : ℕ) (s t : Str) → number_of n (s ++ t) ≡ number_of (number_of n s) t
unfolding number_of
number_of-append n [] t = refl
number_of-append n (c ∷ s) t = number_of-append (n * 10 + digit_value c) s t

number_of-digit : (n d : ℕ) → d < 10 → number_of n ((d + 48) ∷ []) ≡ n * 10 + d
unfolding number_of
number_of-digit n d h = rw (digit_value-ascii d h)

number_of-decimal : (fuel n : ℕ) → n < fuel → number_of 0 (decimal fuel n) ≡ n
unfolding decimal
number_of-decimal zero n h = absurd (omega arith)
number_of-decimal (suc fuel) n h = elim (Bool-cases (ltb n 10)) [
  | inl small ↦ rw small (number_of-digit 0 n (ground arith) ∙ omega arith)
  | inr large ↦
      let front = decimal fuel (n / 10) in
      rw large (
        number_of-append 0 front ((n % 10 + 48) ∷ [])
        ∙ number_of-digit _ (n % 10) (omega arith)
        ∙ omega (arith, number_of-decimal fuel (n / 10) (ground arith)))
]

str_of-injective : (m n : ℕ) → str_of m ≡ str_of n → m ≡ n
unfolding str_of
str_of-injective m n e =
    sym (number_of-decimal (suc m) m (omega arith))
    ∙ ap (number_of 0) e
    ∙ number_of-decimal (suc n) n (omega arith)

append-cancel : (s t u : Str) → s ++ t ≡ s ++ u → t ≡ u
append-cancel [] t u e = e
append-cancel (c ∷ s) t u e = append-cancel s t u (cc)

numbered_slug-injective :
    (base : Str) (m n : ℕ) → numbered_slug base m ≡ numbered_slug base n → m ≡ n
unfolding numbered_slug
numbered_slug-injective base m n e =
    let tails = append-cancel base (45 ∷ str_of m) (45 ∷ str_of n) e in
    str_of-injective m n (append-cancel (45 ∷ []) (str_of m) (str_of n) tails)

-- The numbered slugs from `n` on, as the keys of a dictionary.
numbered_from : ℕ → Str → ℕ → List (Str × Unit {0})
numbered_from zero base n = []
numbered_from (suc count) base n = (numbered_slug base n, tt) ∷ numbered_from count base (n + 1)

has_key-numbered :
    (count : ℕ) (base : Str) (m n : ℕ)
    → m < n
    → has_key (numbered_slug base m) (numbered_from count base n) ≡ false
unfolding numbered_from has_key
has_key-numbered zero base m n h = refl
has_key-numbered (suc count) base m n h =
    let rest = has_key-numbered count base m (n + 1) (omega arith) in
    elim (Bool-cases (str_eq (numbered_slug base n) (numbered_slug base m))) [
      | inl e ↦ absurd (omega (arith, numbered_slug-injective base n m (str_eq_sound _ _ e)))
      | inr e ↦ rw (e, rest) refl
    ]

numbered-IsDict : (count : ℕ) (base : Str) (n : ℕ) → IsDict (numbered_from count base n)
unfolding numbered_from
numbered-IsDict zero base n = tt
numbered-IsDict (suc count) base n =
    (has_key-numbered count base n (n + 1) (omega arith), numbered-IsDict count base (n + 1))

length-numbered : (count : ℕ) (base : Str) (n : ℕ) → length (numbered_from count base n) ≡ count
unfolding numbered_from
length-numbered zero base n = refl
length-numbered (suc count) base n = ap suc (length-numbered count base (n + 1))

-- A list of texts as the keys of a dictionary.
keyed : List Str → List (Str × Unit {0})
keyed used = map (λ slug. (slug, tt)) used

has_key-keyed : (slug : Str) (used : List Str) → has_key slug (keyed used) ≡ mem slug used
unfolding keyed has_key mem
has_key-keyed slug [] = refl
has_key-keyed slug (u ∷ used) = ground (arith, str_eq_comm slug u, has_key-keyed slug used)

length-keyed : (used : List Str) → length (keyed used) ≡ length used
unfolding keyed
length-keyed [] = refl
length-keyed (u ∷ used) = ap suc (length-keyed used)

-- Where the loop finds no slug, every candidate is used.
slug_loop-none :
    (fuel : ℕ) (used : List Str) (base slug : Str) (n : ℕ)
    → slug_loop fuel used base slug n ≡ none
    → (mem slug used ≡ true)
      × ((k : Str) → has_key k (numbered_from fuel base n) ≡ true → mem k used ≡ true)
unfolding slug_loop numbered_from has_key
slug_loop-none zero used base slug n h = (ground arith, λ k m. cc)
slug_loop-none (suc fuel) used base slug n h = elim (Bool-cases (mem slug used)) [
  | inr free ↦ cc (rw (free, slug_loop) at h)
  | inl taken ↦
      let (next, others) =
        slug_loop-none fuel used base (numbered_slug base n) (n + 1) (rw (taken, slug_loop) at h) in
      (
        taken,
        λ k m. elim (Bool-cases (str_eq (numbered_slug base n) k)) [
          | inl e ↦ rw (sym (str_eq_sound (numbered_slug base n) k e)) next
          | inr e ↦ others k (ground arith)
        ],
      )
]

slug_loop-some :
    (fuel : ℕ) (used : List Str) (base slug : Str) (n : ℕ) (found : Str)
    → slug_loop fuel used base slug n ≡ some found
    → mem found used ≡ false
unfolding slug_loop
slug_loop-some zero used base slug n found h = elim (Bool-cases (mem slug used)) [
  | inl taken ↦ cc (rw taken at h)
  | inr free ↦ rw (sym (some-injective _ _ (rw free at h))) free
]
slug_loop-some (suc fuel) used base slug n found h = elim (Bool-cases (mem slug used)) [
  | inl taken ↦
      slug_loop-some fuel used base (numbered_slug base n) (n + 1) found
        (rw (taken, slug_loop) at h)
  | inr free ↦ rw (sym (some-injective _ _ (rw (free, slug_loop) at h))) free
]

numbered_slug-longer : (base : Str) (n : ℕ) → length base < length (numbered_slug base n)
unfolding numbered_slug
numbered_slug-longer base n = omega (arith, length-append base (45 ∷ str_of n))

has_key-base : (count : ℕ) (base : Str) (n : ℕ) → has_key base (numbered_from count base n) ≡ false
unfolding numbered_from has_key
has_key-base zero base n = refl
has_key-base (suc count) base n = elim (Bool-cases (str_eq (numbered_slug base n) base)) [
  | inl e ↦ absurd (
      omega (
        arith,
        numbered_slug-longer base n,
        ap length (str_eq_sound (numbered_slug base n) base e),
      ))
  | inr e ↦ rw (e, has_key-base count base (n + 1)) refl
]

-- Of a slug and as many numbered ones as are used, one is free.
slug_loop-ends :
    (used : List Str) (base : Str) (n : ℕ) → slug_loop (length used) used base base n ≢ none
unfolding has_key
slug_loop-ends used base n h =
    let count = length used in
    let (taken, others) = slug_loop-none count used base base n h in
    let all_slugs = (base, tt) ∷ numbered_from count base n in
    absurd (
      omega (
        arith,
        length-numbered count base n,
        length-keyed used,
        length-keys all_slugs (keyed used) (has_key-base count base n, numbered-IsDict count base n)
            (λ k m. elim (Bool-cases (str_eq base k)) [
              | inl e ↦ has_key-keyed k used ∙ rw (sym (str_eq_sound base k e)) taken
              | inr e ↦ has_key-keyed k used ∙ others k (ground arith)
            ]),
      ))

-- `ctx.slug` always returns; the slug was not used before, and is marked as used.
pub slug_of-fresh :
    (used : List Str) (text : Str)
    → (slug : Str) × (slug_of used text ≡ some (slug, slug ∷ used)) × (mem slug used ≡ false)
unfolding slug_of
slug_of-fresh used text =
    let base = slugify text in
    elim (Option-cases (slug_loop (length used) used base base 2)) [
      | inl e ↦ absurd (slug_loop-ends used base 2 e)
      | inr (slug, e) ↦ (slug, rw e refl, slug_loop-some (length used) used base base 2 slug e)
    ]
