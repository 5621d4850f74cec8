-- ===== src/Site/Build/Again.antt =====
-- Runs of alpha-one/scripts/build_docs_site.py on the output of an earlier run.
use alpha_one.Base.{
  Bool, true, false, Option, some, List, [], ◌∷◌, Str, arith, ◌≡◌, ◌∙◌, refl, ap, sym, Bool-cases,
  Option-cases, List-cases, inl, inr, some-injective, str_eq_refl,
}
use alpha_one.Base.{put, has_key, has_key-put}
use alpha_one.Site.Links.{Disk}
use alpha_one.Site.Docs.{DocSpec, Files, collect_docs}
use alpha_one.Site.Build.{
  Outside, marker, Report, no_docs, foreign_out, broken_links, built, BuildEnd, written, broken_of,
  is_foreign, finish_build, build, mark, main,
}

-- What a refused run ends with.
abbrev pub refused_end : Report → Option (List (Str × Str)) → BuildEnd
refused_end report out = record { code = 1; report = report; out = out }

module _ (disk : Disk) (outside : Outside) (sources : Files) where
  -- A run that reaches the writing: its documents and files.
  record IsWritten (clean : Bool) (out : Option (List (Str × Str))) : Type 0 where
    first_doc : DocSpec
    other_docs : List DocSpec
    files : List (Str × Str)
    collected : collect_docs sources ≡ some (first_doc ∷ other_docs)
    own : is_foreign clean out ≡ false
    writes : written disk outside (first_doc ∷ other_docs) ≡ some files

  main-IsWritten :
      (stamp : Str) (clean : Bool) (out : Option (List (Str × Str))) (w : IsWritten clean out)
      → main disk outside sources stamp clean out ≡ some (mark stamp (finish_build outside w.files))
  unfolding main build
  main-IsWritten stamp clean out w = rw (w.collected, w.own, w.writes) refl

  -- How a run that does not raise ends.
  data Ends (stamp : Str) (clean : Bool) (out : Option (List (Str × Str))) (end : BuildEnd)
      : Type 0 where
    empty : end ≡ refused_end no_docs out → Ends stamp clean out end
    foreign :
        is_foreign clean out ≡ true → end ≡ refused_end foreign_out out → Ends stamp clean out end
    wrote :
        (w : IsWritten clean out)
        → end ≡ mark stamp (finish_build outside w.files)
        → Ends stamp clean out end

  main-Ends :
      (stamp : Str) (clean : Bool) (out : Option (List (Str × Str))) (end : BuildEnd)
      → main disk outside sources stamp clean out ≡ some end
      → Ends stamp clean out end
  unfolding main build mark
  main-Ends stamp clean out end h = elim (Option-cases (collect_docs sources)) [
    | inl e ↦ cc (rw (e, main, build) at h)
    | inr (docs, e) ↦ elim (List-cases docs) [
      | inl n ↦ empty (sym (some-injective _ _ (rw (e, n, main, build) at h)))
      | inr (d, ds, c) ↦ elim (Bool-cases (is_foreign clean out)) [
        | inl f ↦ foreign f (sym (some-injective _ _ (rw (e, c, f, main, build) at h)))
        | inr f ↦ elim (Option-cases (written disk outside (d ∷ ds))) [
          | inl g ↦ cc (rw (e, c, f, g, main, build) at h)
          | inr (files, g) ↦
              wrote
                (record {
                  first_doc = d;
                  other_docs = ds;
                  files = files;
                  collected = e ∙ ap some c;
                  own = f;
                  writes = g;
                })
                (sym (some-injective _ _ (rw (e, c, f, g, main, build) at h)))
        ]
      ]
    ]
  ]

  marked : Str → List (Str × Str) → BuildEnd
  marked stamp files = record { code = 0; report = built; out = some (put marker stamp files) }

  finish_quiet :
      (files : List (Str × Str))
      → broken_of outside files ≡ []
      → finish_build outside files ≡ record { code = 0; report = built; out = some files }
  unfolding finish_build
  finish_quiet files e = rw (e, finish_build) refl

  finish_broken :
      (files : List (Str × Str)) (b : Str × Str) (bs : List (Str × Str))
      → broken_of outside files ≡ b ∷ bs
      → finish_build outside files
        ≡ record { code = 1; report = broken_links b bs; out = some files }
  unfolding finish_build
  finish_broken files b bs e = rw (e, finish_build) refl

  quiet_end :
      (stamp : Str) (files : List (Str × Str))
      → broken_of outside files ≡ []
      → mark stamp (finish_build outside files) ≡ marked stamp files
  unfolding mark marked
  quiet_end stamp files e = ap (mark stamp) (finish_quiet files e)

  broken_end :
      (stamp : Str) (files : List (Str × Str)) (b : Str × Str) (bs : List (Str × Str))
      → broken_of outside files ≡ b ∷ bs
      → mark stamp (finish_build outside files)
        ≡ record { code = 1; report = broken_links b bs; out = some files }
  unfolding mark
  broken_end stamp files b bs e = ap (mark stamp) (finish_broken files b bs e)

  main-foreign :
      (stamp : Str) (d : DocSpec) (ds : List DocSpec) (clean : Bool)
      (out : Option (List (Str × Str)))
      → collect_docs sources ≡ some (d ∷ ds)
      → is_foreign clean out ≡ true
      → main disk outside sources stamp clean out ≡ some (refused_end foreign_out out)
  unfolding main build mark
  main-foreign stamp d ds clean out e f = rw (e, f) refl

  unmarked-foreign :
      (files : List (Str × Str))
      → has_key marker files ≡ false
      → is_foreign false (some files) ≡ true
  unfolding is_foreign
  unmarked-foreign files e = rw e refl

  marked-own :
      (stamp : Str) (clean : Bool) (files : List (Str × Str))
      → is_foreign clean (marked stamp files).out ≡ false
  unfolding is_foreign marked
  marked-own stamp clean files =
      ground (arith, has_key-put marker marker stamp files, str_eq_refl marker)

  -- A run that ends with code 0 leaves the files of the site with its marker in an output that every later run
  -- accepts while the file system and the templates answer the same, with or without `--clean`: the
  -- later run ends with code 0 too and leaves the same files, in which only the marker has what that
  -- run writes to it.
  pub main-again :
      (now next_stamp : Str) (clean later : Bool) (out : Option (List (Str × Str))) (end : BuildEnd)
      → main disk outside sources now clean out ≡ some end
      → end.code ≡ 0
      → (files : List (Str × Str)) × (end.out ≡ some (put marker now files))
        × (main disk outside sources next_stamp later end.out
            ≡ some (record { code = 0; report = built; out = some (put marker next_stamp files) }))
  unfolding marked
  main-again now next_stamp clean later out end h zero_code = elim (main-Ends now clean out end h) [
    | empty e ↦ cc (zero_code, e)
    | foreign f e ↦ cc (zero_code, e)
    | wrote w e ↦ elim (List-cases (broken_of outside w.files)) [
      | inr (b, bs, q) ↦ cc (zero_code, e ∙ broken_end now w.files b bs q)
      | inl q ↦
          let same : end ≡ marked now w.files = e ∙ quiet_end now w.files q in
          let again : IsWritten later end.out = record {
            first_doc = w.first_doc;
            other_docs = w.other_docs;
            files = w.files;
            collected = w.collected;
            own = ap (λ (x : BuildEnd). is_foreign later x.out) same ∙ marked-own now later w.files;
            writes = w.writes;
          } in
          (
            w.files,
            ap (λ (x : BuildEnd). x.out) same,
            main-IsWritten next_stamp later end.out again
                ∙ ap some (quiet_end next_stamp w.files q),
          )
    ]
  ]

  -- What a run that reports an error leaves: without documents, or where the output is not marked as that
  -- of an earlier build and `--clean` is not given, it leaves the output as it was; with broken links it
  -- leaves the files written, and where none of them is the marker, a later run without
  -- `--clean` refuses them as no output of its own.
  pub main-failed :
      (stamp : Str) (clean : Bool) (out : Option (List (Str × Str))) (end : BuildEnd)
      → main disk outside sources stamp clean out ≡ some end
      → (end.report ≡ no_docs → end.out ≡ out)
        × (end.report ≡ foreign_out → end.out ≡ out)
        × ((b : Str × Str) (bs : List (Str × Str))
            → end.report ≡ broken_links b bs
            → (files : List (Str × Str)) × (end.out ≡ some files)
              × (broken_of outside files ≡ b ∷ bs)
              × (has_key marker files ≡ false
                  → main disk outside sources stamp false end.out
                    ≡ some (refused_end foreign_out end.out)))
  unfolding marked
  main-failed stamp clean out end h = elim (main-Ends stamp clean out end h) [
    | empty e ↦ (λ r. ap (λ (x : BuildEnd). x.out) e, λ r. cc (e, r), λ b bs r. cc (e, r))
    | foreign f e ↦ (λ r. cc (e, r), λ r. ap (λ (x : BuildEnd). x.out) e, λ b bs r. cc (e, r))
    | wrote w e ↦ elim (List-cases (broken_of outside w.files)) [
      | inl q ↦
          let same = ap (λ (x : BuildEnd). x.report) (e ∙ quiet_end stamp w.files q) in
          (λ r. cc (same, r), λ r. cc (same, r), λ b bs r. cc (same, r))
      | inr (b', bs', q) ↦
          let same = e ∙ broken_end stamp w.files b' bs' q in
          (
            λ r. cc (same, r),
            λ r. cc (same, r),
            λ b bs r. (
              w.files,
              ap (λ (x : BuildEnd). x.out) same,
              q ∙ cc (same, r),
              λ unmarked. main-foreign stamp w.first_doc w.other_docs false end.out w.collected (
                  ap (λ (x : BuildEnd). is_foreign false x.out) same
                  ∙ unmarked-foreign w.files unmarked),
            ),
          )
    ]
  ]
