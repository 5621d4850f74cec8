-- ===== src/Roles/Walk.antt =====
-- The `while stack:` loop that `ancestors` and `descendants` of
-- alpha-one/scripts/verify_roles.py share, over any adjacency `next`.
use alpha_one.Base.{
  ℕ, zero, suc, ◌+◌, ◌≤◌, ◌≡◌, refl, sym, ◌⊎◌, inl, inr, ◌↔◌, true, false, Option, none, some, List,
  [], ◌∷◌, ◌++◌, reverse, arith, length, length-append, Str, mem, mem-append, str_eq, str_eq_refl,
  str_eq_sound, if◌then◌else◌, Bool-cases, reverse-append, subst, ◌∙◌, some-injective,
}

-- The head of `stack` is its top: `pop()` takes it, and `extend(xs)` leaves the last of `xs` on
-- top. `out` is a set, so `add` puts the new element anywhere. `none`: the fuel ran out.
unfoldable pub walk : (Str → List Str) → ℕ → List Str → List Str → Option (List Str)
walk next fuel out [] = some out
walk next zero out (p ∷ stack) = none
walk next (suc fuel) out (p ∷ stack) = elim (mem p out) [
  | true ↦ walk next fuel out stack
  | false ↦ walk next fuel (p ∷ out) (reverse (next p) ++ stack)
]

pub mem-reverse : (a : Str) (xs : List Str) → mem a (reverse xs) ≡ mem a xs
unfolding mem
mem-reverse a [] = refl
mem-reverse a (x ∷ xs) =
    rw (reverse-append (x ∷ []) xs, mem-append) (ground (arith, mem-reverse a xs))

pub length-reverse : (xs : List Str) → length (reverse xs) ≡ length xs
length-reverse [] = refl
length-reverse (x ∷ xs) =
    rw (reverse-append (x ∷ []) xs)
      (omega (arith, length-append (reverse xs) (x ∷ []), length-reverse xs))

-- The elements that a chain of one or more steps leads to, the first of them into `start`.
pub data Reach (next : Str → List Str) (start : List Str) : Str → Type 0 where
  first : {v : Str} → mem v start ≡ true → Reach next start v
  step : {u v : Str} → Reach next start u → mem v (next u) ≡ true → Reach next start v

record Inv (next : Str → List Str) (start out stack : List Str) : Type 0 where
  sound_out : (v : Str) → mem v out ≡ true → Reach next start v
  sound_stack : (v : Str) → mem v stack ≡ true → Reach next start v
  begun : (v : Str) → mem v start ≡ true → (mem v out ≡ true) ⊎ (mem v stack ≡ true)
  closed :
      (u v : Str)
      → mem u out ≡ true
      → mem v (next u) ≡ true
      → (mem v out ≡ true) ⊎ (mem v stack ≡ true)

module _ (next : Str → List Str) (start : List Str) where
  -- An element that was met before is dropped.
  Inv-skip :
      (out : List Str) (p : Str) (stack : List Str)
      → mem p out ≡ true
      → Inv next start out (p ∷ stack)
      → Inv next start out stack
  unfolding mem
  Inv-skip out p stack seen h = record {
    sound_out = h.sound_out;
    sound_stack = λ v m. h.sound_stack v (ground arith);
    begun = λ v m. weaken v (h.begun v m);
    closed = λ u v m e. weaken v (h.closed u v m e);
  }
    where
      weaken :
          (v : Str)
          → (mem v out ≡ true) ⊎ (mem v (p ∷ stack) ≡ true)
          → (mem v out ≡ true) ⊎ (mem v stack ≡ true)
      weaken v (inl m) = inl m
      weaken v (inr m) = elim (Bool-cases (str_eq v p)) [
        | inl e ↦ inl (rw (str_eq_sound v p e) seen)
        | inr e ↦ inr (ground arith)
      ]

  Inv-visit :
      (out : List Str) (p : Str) (stack : List Str)
      → Inv next start out (p ∷ stack)
      → Inv next start (p ∷ out) (reverse (next p) ++ stack)
  unfolding mem
  Inv-visit out p stack h = record {
    sound_out = λ v m. elim (Bool-cases (str_eq v p)) [
      | inl e ↦ rw (str_eq_sound v p e) to_p
      | inr e ↦ h.sound_out v (ground arith)
    ];
    sound_stack = λ v m. elim (Bool-cases (mem v (next p))) [
      | inl e ↦ step to_p e
      | inr e ↦
          h.sound_stack v
            (ground (arith, mem-append v (reverse (next p)) stack, mem-reverse v (next p)))
    ];
    begun = λ v m.
        ground (arith, h.begun v m, mem-append v (reverse (next p)) stack, mem-reverse v (next p));
    closed = λ u v m e. elim (Bool-cases (str_eq u p)) [
      | inl same ↦
          let e' = rw (str_eq_sound u p same) at e in
          inr (ground (arith, mem-append v (reverse (next p)) stack, mem-reverse v (next p)))
      | inr other ↦
          ground
            (arith, h.closed u v, mem-append v (reverse (next p)) stack, mem-reverse v (next p))
    ];
  }
    where
      to_p : Reach next start p
      to_p = h.sound_stack p (ground (arith, str_eq_refl p))

  walk-Inv :
      (fuel : ℕ) (out stack res : List Str)
      → walk next fuel out stack ≡ some res
      → Inv next start out stack
      → Inv next start res []
  unfolding walk
  walk-Inv fuel out [] res e h = subst (λ o. Inv next start o []) (some-injective _ _ e) h
  walk-Inv zero out (p ∷ stack) res e h = ground arith
  walk-Inv (suc fuel) out (p ∷ stack) res e h = elim (Bool-cases (mem p out)) [
    | inl seen ↦ walk-Inv fuel out stack res (rw (seen, walk) at e) (Inv-skip out p stack seen h)
    | inr new ↦
        walk-Inv fuel (p ∷ out) (reverse (next p) ++ stack) res (rw (new, walk) at e)
          (Inv-visit out p stack h)
  ]

-- What the loop returns is the set of the elements reached.
pub walk_lem :
    (next : Str → List Str) (fuel : ℕ) (start res : List Str) (v : Str)
    → walk next fuel [] (reverse start) ≡ some res
    → (mem v res ≡ true) ↔ Reach next start v
unfolding mem
walk_lem next fuel start res v e =
    let inv = walk-Inv next start fuel [] (reverse start) res e initial in
    (inv.sound_out v, λ r. complete inv r)
  where
    initial : Inv next start [] (reverse start)
    initial = record {
      sound_out = λ v m. cc;
      sound_stack = λ v m. first (rw mem-reverse at m);
      begun = λ v m. inr (rw mem-reverse m);
      closed = λ u v m e. cc;
    }

    complete : Inv next start res [] → {w : Str} → Reach next start w → mem w res ≡ true
    complete inv (first m) = ground (arith, inv.begun _ m)
    complete inv (step {u} r m) = ground (arith, inv.closed u _ (complete inv r) m)

-- A dictionary from names to lists of names.
abbrev pub Adj : Type 0
Adj = List (Str × List Str)

-- `g.get(p, ())`
unfoldable pub targets : Adj → Str → List Str
targets [] p = []
targets ((k, xs) ∷ g) p = if str_eq k p then xs else targets g p

-- The lists of the entries whose key was not visited yet.
unfoldable pub weight : Adj → List Str → ℕ
weight [] out = 0
weight ((k, xs) ∷ g) out = (if mem k out then 0 else length xs) + weight g out

weight-grow : (g : Adj) (p : Str) (out : List Str) → weight g (p ∷ out) ≤ weight g out
unfolding weight mem
weight-grow [] p out = omega arith
weight-grow ((k, xs) ∷ g) p out = ground (arith, weight-grow g p out)

weight-visit :
    (g : Adj) (p : Str) (out : List Str)
    → mem p out ≡ false
    → weight g (p ∷ out) + length (targets g p) ≤ weight g out
unfolding weight mem targets
weight-visit [] p out h = omega arith
weight-visit ((k, xs) ∷ g) p out h = elim (Bool-cases (str_eq k p)) [
  | inl e ↦ ground (arith, weight-grow g p out, str_eq_sound k p e)
  | inr e ↦ ground (arith, weight-visit g p out h)
]

-- Each round drops an element of the stack, and pushes only targets of an entry not visited yet.
pub walk_ends :
    (g : Adj) (fuel : ℕ) (out stack : List Str)
    → length stack + weight g out ≤ fuel
    → (res : List Str) × (walk (targets g) fuel out stack ≡ some res)
unfolding walk
walk_ends g fuel out [] h = (out, refl)
walk_ends g zero out (p ∷ stack) h = absurd (omega arith)
walk_ends g (suc fuel) out (p ∷ stack) h = elim (Bool-cases (mem p out)) [
  | inl seen ↦ rw (seen, walk) (walk_ends g fuel out stack (omega arith))
  | inr new ↦
      rw (new, walk)
        (walk_ends g fuel (p ∷ out) (reverse (targets g p) ++ stack) (
          omega (
            arith,
            weight-visit g p out new,
            length-append (reverse (targets g p)) stack,
            length-reverse (targets g p),
          )))
]

-- A chain that starts one element earlier.
prepend :
    (next : Str → List Str) (a c : Str) {b : Str}
    → mem a (next c) ≡ true
    → Reach next (next a) b
    → Reach next (next c) b
prepend next a c m (first h) = step (first m) h
prepend next a c m (step r h) = step (prepend next a c m r) h

-- Against the arrows the same chains lead back.
pub Reach-reverse :
    (next back : Str → List Str)
    → ((u v : Str) → mem v (next u) ≡ mem u (back v))
    → (a : Str) {b : Str} → Reach next (next a) b
    → Reach back (back b) a
Reach-reverse next back dual a (first {v} h) = first (sym (dual a v) ∙ h)
Reach-reverse next back dual a (step {u} {v} r h) =
    prepend back u v (sym (dual u v) ∙ h) (Reach-reverse next back dual a r)

-- What holds at the end of every step holds of what is reached.
pub last_step {ℓ} :
    (next : Str → List Str) (start : List Str) {v : Str} {P : Type ℓ}
    → (mem v start ≡ true → P)
    → ((u : Str) → mem v (next u) ≡ true → P)
    → Reach next start v
    → P
last_step next start begin go (first m) = begin m
last_step next start begin go (step {u} r m) = go u m
