-- ===== src/Site/Indexes.antt =====
-- The directories that `generate_dir_indexes` of alpha-one/scripts/build_docs_site.py lists.
pub mod Bounded
use alpha_one.Base.{
  ℕ, zero, suc, ◌&&◌, ◌||◌, not, Bool, true, false, List, [], ◌∷◌, ◌++◌, Str, mem, str_eq,
  if◌then◌else◌, any, arith, ◌≡◌, refl, str_eq_refl, str_eq_sound, Bool-cases, inl, inr, mem-append,
  keep,
}

-- How many levels below a linked directory get a page.
abbrev pub max_dir_depth : ℕ
max_dir_depth = 3

-- `entries dir` is `sorted(dir.iterdir())`.
module _ (is_dir : Str → Bool) (entries : Str → List Str) where
  -- The directories in a directory of the frontier.
  unfoldable pub subdirs : Str → List Str
  subdirs dir = if is_dir dir then keep is_dir (entries dir) else []

  -- The inner loop: `all_dirs` and `more` behind it.
  unfoldable pub add_subdirs : List Str → List Str → List Str → List Str × List Str
  add_subdirs [] known more = (known, more)
  add_subdirs (sub ∷ subs) known more = elim (mem sub known) [
    | true ↦ add_subdirs subs known more
    | false ↦ add_subdirs subs (sub ∷ known) (more ++ sub ∷ [])
  ]

  -- The loop over the frontier.
  unfoldable pub scan_frontier : List Str → List Str → List Str → List Str × List Str
  unfolding add_subdirs subdirs
  scan_frontier [] known more = (known, more)
  scan_frontier (dir ∷ frontier) known more =
      let (next, found) = add_subdirs (subdirs dir) known more in scan_frontier frontier next found

  -- The loop over the levels, of which some are left.
  unfoldable pub grow : ℕ → List Str → List Str → List Str
  unfolding scan_frontier
  grow zero frontier known = known
  grow (suc levels) [] known = known
  grow (suc levels) (dir ∷ frontier) known =
      let (next, found) = scan_frontier (dir ∷ frontier) known [] in grow levels found next

  unfoldable pub all_dirs : List Str → List Str
  unfolding grow
  all_dirs linked = grow max_dir_depth linked linked

  -- A directory at most some levels below another.
  pub data IsBelow : ℕ → Str → Str → Type 0 where
    itself : {levels : ℕ} {dir : Str} → IsBelow levels dir dir
    below :
        {levels : ℕ} {dir sub low : Str}
        → mem sub (subdirs dir) ≡ true
        → IsBelow levels sub low
        → IsBelow (suc levels) dir low

  add_subdirs-known :
      (subs known more : List Str) (z : Str)
      → mem z (add_subdirs subs known more).0 ≡ (mem z known || mem z subs)
  unfolding add_subdirs mem
  add_subdirs-known [] known more z = ground arith
  add_subdirs-known (sub ∷ subs) known more z = elim (Bool-cases (mem sub known)) [
    | inl e ↦
        rw (e, add_subdirs, add_subdirs-known subs known more z)
          (elim (Bool-cases (str_eq z sub)) [
            | inl same ↦ rw (str_eq_sound z sub same, e) refl
            | inr other ↦ rw other refl
          ])
    | inr e ↦
        rw (e, add_subdirs, add_subdirs-known subs (sub ∷ known) (more ++ sub ∷ []) z)
          (ground arith)
  ]

  add_subdirs-more :
      (subs known more : List Str) (z : Str)
      → mem z (add_subdirs subs known more).1 ≡ (mem z more || (not (mem z known) && mem z subs))
  unfolding add_subdirs mem
  add_subdirs-more [] known more z = ground arith
  add_subdirs-more (sub ∷ subs) known more z = elim (Bool-cases (mem sub known)) [
    | inl e ↦
        rw (e, add_subdirs, add_subdirs-more subs known more z)
          (elim (Bool-cases (str_eq z sub)) [
            | inl same ↦ rw (str_eq_sound z sub same, e) refl
            | inr other ↦ rw other refl
          ])
    | inr e ↦
        rw
          (
            e,
            add_subdirs,
            add_subdirs-more subs (sub ∷ known) (more ++ sub ∷ []) z,
            mem-append z more (sub ∷ []),
          )
          (elim (Bool-cases (str_eq z sub)) [
            | inl same ↦ rw (str_eq_sound z sub same, e, str_eq_refl sub) (ground arith)
            | inr other ↦ rw other (ground arith)
          ])
  ]

  -- The directories directly below those of the frontier.
  unfoldable pub found_below : List Str → Str → Bool
  found_below frontier z = any (λ dir. mem z (subdirs dir)) frontier

  pub scan_frontier-known :
      (frontier known more : List Str) (z : Str)
      → mem z (scan_frontier frontier known more).0 ≡ (mem z known || found_below frontier z)
  unfolding scan_frontier found_below
  scan_frontier-known [] known more z = ground arith
  scan_frontier-known (dir ∷ frontier) known more z =
      let (next, found) = add_subdirs (subdirs dir) known more in
      rw (scan_frontier-known frontier next found z, add_subdirs-known (subdirs dir) known more z)
        (ground arith)

  pub scan_frontier-more :
      (frontier known more : List Str) (z : Str)
      → mem z (scan_frontier frontier known more).1
        ≡ (mem z more || (not (mem z known) && found_below frontier z))
  unfolding scan_frontier found_below
  scan_frontier-more [] known more z = ground arith
  scan_frontier-more (dir ∷ frontier) known more z =
      let (next, found) = add_subdirs (subdirs dir) known more in
      rw
        (
          scan_frontier-more frontier next found z,
          add_subdirs-known (subdirs dir) known more z,
          add_subdirs-more (subdirs dir) known more z,
        )
        (ground arith)
