-- ===== src/Markers/RoundTrip.antt =====
-- A document whose marked block was written passes the comparison: alpha-one/scripts/verify_roles.py
-- and alpha-one/scripts/verify_tenant_states.py, `write_doc` and `check_doc`.
use alpha_one.Base.{
  ℕ, suc, some, some-injective, [], ◌++◌, append_assoc, Str, Option-cases, arith, ◌≡◌, inl, inr,
}
use alpha_one.Markers.{Block, find_block, replace_blocks}
use alpha_one.Markers.Search.{split_first, split_first_keeps}

-- A rendered block: the markers, and between them a text whose end marker is the last.
pub record IsRendered (begin end want : Str) : Type 0 where
  pub body : Str
  pub framed : want ≡ begin ++ (body ++ end)
  pub closed : split_first end (body ++ (end ++ [])) ≡ some (body, [])

find_block_intro :
    (begin end text before rest inside after : Str)
    → split_first begin text ≡ some (before, rest)
    → split_first end rest ≡ some (inside, after)
    → find_block begin end text ≡ some (record { before = before; inside = inside; after = after })
unfolding find_block
find_block_intro begin end text before rest inside after h k = rw (h, find_block, k)

find_block-some :
    (begin end text : Str) (block : Block)
    → find_block begin end text ≡ some block
    → (rest : Str) × (split_first begin text ≡ some (block.before, rest))
unfolding find_block
find_block-some begin end text block h = elim (Option-cases (split_first begin text)) [
  | inl e ↦ cc (rw (e, find_block) at h)
  | inr ((b, rest), e) ↦ elim (Option-cases (split_first end rest)) [
    | inl f ↦ cc (rw (e, find_block, f) at h)
    | inr ((i, a), f) ↦ (rest, ground (arith, some-injective _ _ (rw (e, find_block, f) at h)))
  ]
]

-- Where the document has a block, the first block behind `write_doc` is the one that was written,
-- at the place of the first block before.
pub find_block-replace_blocks :
    (begin end want text : Str) (fuel : ℕ) (block : Block) (r : IsRendered begin end want)
    → find_block begin end text ≡ some block
    → (later : Str) × (find_block begin end (replace_blocks begin end want (suc fuel) text)
        ≡ some (record { before = block.before; inside = r.body; after = later }))
unfolding replace_blocks
find_block-replace_blocks begin end want text fuel block r h =
    let rest = replace_blocks begin end want fuel block.after in
    let (old, first) = find_block-some begin end text block h in
    (
      rest,
      rw
          (
            h,
            replace_blocks,
            r.framed,
            append_assoc begin (r.body ++ end) rest,
            append_assoc r.body end rest,
          )
          (find_block_intro begin end _ block.before (r.body ++ (end ++ rest)) r.body rest
            (split_first_keeps begin text block.before old (r.body ++ (end ++ rest)) first)
            (split_first_keeps end (r.body ++ (end ++ [])) r.body [] rest r.closed)),
    )
