-- ===== src/Roles/Verdicts.antt =====
-- The single reports of `main` of alpha-one/scripts/verify_roles.py that are empty.
use alpha_one.Base.{
  true, false, Option, none, some, List, [], ◌∷◌, ◌++◌, map, Str, mem, arith, ◌≡◌, ◌∙◌, refl, ap,
  Option-cases, ◌↔◌, inl, inr, sym, str_eq_iff, some-injective, codes, List-cases, All,
}
use alpha_one.Markers.{Block, find_block, strip_newlines}
use alpha_one.Roles.Gate.{minus}
use alpha_one.Roles.Members.{minus-nil}
use alpha_one.Roles.Document.{begin_marker, end_marker, render, check_doc}
use alpha_one.Roles.Main.{
  Flags, Spec, Files, RoleError, drift_problems, view_problems, provisional_problems, finish,
}

pub finish-code :
    (flags : Flags) (spec : Spec) (files : Files) (errors : List RoleError)
    → ((finish flags spec files errors).code ≡ 0) ↔ (errors ≡ [])
unfolding finish
finish-code flags spec files [] = (λ _. refl, λ _. refl)
finish-code flags spec files (e ∷ es) = (λ h. absurd (omega arith), λ h. cc)

pub map-nil {ℓ κ} :
    {A : Type ℓ} {B : Type κ} (f : A → B) (xs : List A) → (map f xs ≡ []) ↔ (xs ≡ [])
map-nil f [] = (λ _. refl, λ _. refl)
map-nil f (x ∷ xs) = ground arith

pub provisional_problems-nil :
    (provisional keys : List Str)
    → (provisional_problems provisional keys ≡ [])
      ↔ All (λ key. mem key keys ≡ true) (minus provisional (codes "$comment" ∷ []))
unfolding provisional_problems
provisional_problems-nil provisional keys =
    let unknown = minus (minus provisional (codes "$comment" ∷ [])) keys in
    let (to, from) = minus-nil (minus provisional (codes "$comment" ∷ [])) keys in
    elim (List-cases unknown) [
      | inl e ↦ (λ _. to e, λ _. rw (e, provisional_problems) refl)
      | inr (k, ks, e) ↦ (λ h. cc (rw (e, provisional_problems) at h), λ a. cc (e, from a))
    ]

pub view_problems-nil :
    (found : Option Str) (want : Str) → (view_problems false found want ≡ []) ↔ (found ≡ some want)
unfolding view_problems
view_problems-nil none want = ground arith
view_problems-nil (some text) want = ground (arith, str_eq_iff text want)

check_doc-nil :
    (text want : Str) (block : Block)
    → find_block begin_marker end_marker text ≡ some block
    → (check_doc text want ≡ [])
      ↔ (strip_newlines (begin_marker ++ (block.inside ++ end_marker)) ≡ want)
unfolding check_doc
check_doc-nil text want block found =
    let shown = strip_newlines (begin_marker ++ (block.inside ++ end_marker)) in
    rw (found, check_doc) (ground (arith, str_eq_iff shown want))

pub drift_problems-nil :
    (spec : Spec) (text : Str)
    → (drift_problems spec text ≡ some []) ↔ (
        (block : Block) × (find_block begin_marker end_marker text ≡ some block)
        × (render spec.catalog spec.bindings
            ≡ some (strip_newlines (begin_marker ++ (block.inside ++ end_marker)))))
unfolding drift_problems
drift_problems-nil spec text = (forth, back)
  where
    forth :
        drift_problems spec text ≡ some []
        → (block : Block) × (find_block begin_marker end_marker text ≡ some block)
          × (render spec.catalog spec.bindings
              ≡ some (strip_newlines (begin_marker ++ (block.inside ++ end_marker))))
    forth h = elim (Option-cases (find_block begin_marker end_marker text)) [
      | inl e ↦ cc (rw (e, drift_problems) at h)
      | inr (block, e) ↦
          let h1 = rw (e, drift_problems) at h in
          elim (Option-cases (render spec.catalog spec.bindings)) [
            | inl r ↦ cc (rw r at h1)
            | inr (want, r) ↦ (
              block,
              e,
              r
                  ∙ ap some
                      (sym ((check_doc-nil text want block e).0 (some-injective _ _ (rw r at h1)))),
            )
          ]
    ]

    back :
        (block : Block) × (find_block begin_marker end_marker text ≡ some block)
          × (render spec.catalog spec.bindings
              ≡ some (strip_newlines (begin_marker ++ (block.inside ++ end_marker))))
        → drift_problems spec text ≡ some []
    back (block, e, r) = rw (e, drift_problems, r) (ap some ((check_doc-nil text _ block e).1 refl))
