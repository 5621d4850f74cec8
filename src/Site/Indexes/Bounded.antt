-- ===== src/Site/Indexes/Bounded.antt =====
-- Which directories `generate_dir_indexes` of alpha-one/scripts/build_docs_site.py lists.
use alpha_one.Base.{
  ℕ, zero, suc, ◌||◌, Bool, true, false, List, [], ◌∷◌, Str, mem, str_eq, any, arith, ◌≡◌, ◌∙◌,
  refl, str_eq_refl, str_eq_sound, Bool-cases, ◌↔◌, inl, inr, sym,
}
use alpha_one.Site.Indexes.{
  max_dir_depth, subdirs, scan_frontier, grow, all_dirs, IsBelow, itself, below, found_below,
  scan_frontier-known, scan_frontier-more,
}

any-mem :
    (p : Str → Bool) (x : Str) (xs : List Str) → mem x xs ≡ true → p x ≡ true → any p xs ≡ true
unfolding mem
any-mem p x [] m h = cc
any-mem p x (y ∷ xs) m h = elim (Bool-cases (str_eq x y)) [
  | inl e ↦ rw (sym (str_eq_sound x y e), h) refl
  | inr e ↦ rw (any-mem p x xs (rw (e, mem) at m) h) (ground arith)
]

any-found :
    (p : Str → Bool) (xs : List Str)
    → any p xs ≡ true
    → (x : Str) × (mem x xs ≡ true) × (p x ≡ true)
unfolding mem
any-found p [] h = cc
any-found p (y ∷ xs) h = elim (Bool-cases (p y)) [
  | inl e ↦ (y, rw (str_eq_refl y) refl, e)
  | inr e ↦ let (x, m, at) = any-found p xs (rw e at h) in (x, rw m (ground arith), at)
]

found-new : (a b c : Bool) → a ≡ false → c ≡ (a || b) → c ≡ true → b ≡ true
found-new a b c e h t = ground arith

module _ (is_dir : Str → Bool) (entries : Str → List Str) where
  IsBelow-more :
      (levels : ℕ) (dir low : Str)
      → IsBelow is_dir entries levels dir low
      → IsBelow is_dir entries (suc levels) dir low
  IsBelow-more levels dir low itself = itself
  IsBelow-more (suc levels) dir low (below m b) = below m (IsBelow-more levels _ low b)

  -- What the levels rest on: the frontier is known, and what is directly below a known directory is
  -- known, unless the directory is in the frontier.
  record IsScanned (frontier known : List Str) : Type 0 where
    within : (x : Str) → mem x frontier ≡ true → mem x known ≡ true
    closed :
        (x y : Str)
        → mem x known ≡ true
        → mem x frontier ≡ false
        → mem y (subdirs is_dir entries x) ≡ true
        → mem y known ≡ true

  -- What is directly below a known directory is known behind the scan.
  scan_frontier-below :
      (frontier known : List Str) (x y : Str)
      → IsScanned frontier known
      → mem x known ≡ true
      → mem y (subdirs is_dir entries x) ≡ true
      → mem y (scan_frontier is_dir entries frontier known []).0 ≡ true
  unfolding found_below
  scan_frontier-below frontier known x y s h m =
      rw (scan_frontier-known is_dir entries frontier known [] y)
        (elim (Bool-cases (mem x frontier)) [
          | inl e ↦
              let hit : found_below is_dir entries frontier y ≡ true =
                any-mem (λ dir. mem y (subdirs is_dir entries dir)) x frontier e m in
              rw hit (ground arith)
          | inr e ↦ rw (s.closed x y h e m) refl
        ])

  scan_frontier-within :
      (frontier known : List Str) (x : Str)
      → mem x (scan_frontier is_dir entries frontier known []).1 ≡ true
      → mem x (scan_frontier is_dir entries frontier known []).0 ≡ true
  unfolding mem
  scan_frontier-within frontier known x h =
      rw (scan_frontier-known is_dir entries frontier known [] x)
        (ground (arith, scan_frontier-more is_dir entries frontier known [] x))

  scan_frontier-IsScanned :
      (frontier known : List Str)
      → IsScanned frontier known
      → IsScanned
          (scan_frontier is_dir entries frontier known []).1
          (scan_frontier is_dir entries frontier known []).0
  unfolding mem
  scan_frontier-IsScanned frontier known s = record {
    within = scan_frontier-within frontier known;
    closed = λ x y h old m.
        scan_frontier-below frontier known x y s
          (ground (
            arith,
            scan_frontier-known is_dir entries frontier known [] x,
            scan_frontier-more is_dir entries frontier known [] x,
          ))
          m;
  }

  grow-known :
      (levels : ℕ) (frontier known : List Str) (z : Str)
      → mem z known ≡ true
      → mem z (grow is_dir entries levels frontier known) ≡ true
  unfolding grow
  grow-known zero frontier known z h = h
  grow-known (suc levels) [] known z h = h
  grow-known (suc levels) (dir ∷ frontier) known z h =
      grow-known levels _ _ z
        (scan_frontier-known is_dir entries (dir ∷ frontier) known [] z ∙ rw h refl)

  -- Where the frontier is empty, nothing below is left to find.
  closed-below :
      (levels : ℕ) (known : List Str) (x z : Str)
      → IsScanned [] known
      → mem x known ≡ true
      → IsBelow is_dir entries levels x z
      → mem z known ≡ true
  unfolding mem
  closed-below levels known x z s h itself = h
  closed-below (suc levels) known x z s h (below m b) =
      closed-below levels known _ z s (s.closed x _ h refl m) b

  -- Whatever is at most so many levels below a known directory is found.
  grow-below :
      (levels : ℕ) (frontier known : List Str) (x z : Str)
      → IsScanned frontier known
      → mem x known ≡ true
      → IsBelow is_dir entries levels x z
      → mem z (grow is_dir entries levels frontier known) ≡ true
  unfolding grow mem
  grow-below levels frontier known x z s h itself = grow-known levels frontier known x h
  grow-below (suc levels) [] known x z s h (below m b) =
      closed-below (suc levels) known x z s h (below m b)
  grow-below (suc levels) (dir ∷ frontier) known x z s h (below m b) =
      let scanned = scan_frontier-IsScanned (dir ∷ frontier) known s in
      grow-below levels _ _ _ z scanned (scan_frontier-below (dir ∷ frontier) known x _ s h m) b

  -- Nothing else is found.
  below-grow :
      (levels : ℕ) (frontier known : List Str) (z : Str)
      → ((x : Str) → mem x frontier ≡ true → mem x known ≡ true)
      → mem z (grow is_dir entries levels frontier known) ≡ true
      → (x : Str) × (mem x known ≡ true) × IsBelow is_dir entries levels x z
  unfolding grow found_below
  below-grow zero frontier known z s h = (z, h, itself)
  below-grow (suc levels) [] known z s h = (z, h, itself)
  below-grow (suc levels) (dir ∷ frontier) known z s h =
      let (next, found) = scan_frontier is_dir entries (dir ∷ frontier) known [] in
      let (x, m, b) =
        below-grow levels found next z (scan_frontier-within (dir ∷ frontier) known) h in
      elim (Bool-cases (mem x known)) [
        | inl e ↦ (x, e, IsBelow-more levels x z b)
        | inr e ↦
            let new : found_below is_dir entries (dir ∷ frontier) x ≡ true =
              found-new (mem x known) _ _ e
                (scan_frontier-known is_dir entries (dir ∷ frontier) known [] x) m in
            let (up, at, sub) =
              any-found (λ d. mem x (subdirs is_dir entries d)) (dir ∷ frontier) new in
            (up, s up at, below sub b)
      ]

  -- The directories that `generate_dir_indexes` collects are exactly those that are linked or at most
  -- `MAX_DIR_DEPTH` levels below a linked one.
  pub all_dirs-IsBelow :
      (linked : List Str) (z : Str)
      → (mem z (all_dirs is_dir entries linked) ≡ true)
        ↔ ((x : Str) × (mem x linked ≡ true) × IsBelow is_dir entries max_dir_depth x z)
  unfolding all_dirs
  all_dirs-IsBelow linked z =
      let start : IsScanned linked linked = record {
        within = λ x h. h;
        closed = λ x y h none_left m. cc;
      } in
      (
        λ h. below-grow max_dir_depth linked linked z (λ x m. m) h,
        λ (x, m, b). grow-below max_dir_depth linked linked x z start m b,
      )
