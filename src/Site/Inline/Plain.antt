-- ===== src/Site/Inline/Plain.antt =====
-- Texts without marks, and code spans, in `render_inline` of alpha-one/scripts/build_docs_site.py.
use alpha_one.Base.{
  ℕ, ◌-◌, true, false, some, [], ◌∷◌, ◌++◌, length, Str, arith, ◌≡◌, refl, Option-cases, inl, inr,
  sym,
}
use alpha_one.Base.{
  number_of, digit_value, codes, ◌>>=◌, concat, str_of, is_digit, append_assoc, length-append,
}
use alpha_one.Tables.{span, after_char}
use alpha_one.Site.Patterns.{run_of, escape_html}
use alpha_one.Site.Inline.{
  substitute, match_escape, behind_marks, match_body, match_ticks, match_code, match_image,
  match_anchor, match_marked, Stash, stash, restored, restore_all, match_stash, tagged, emphasis,
  image_html, anchor_html, render_inline,
}
use alpha_one.Site.Inline.Lacks.{
  lacks, is_plain, lacks-append, lacks-cons, substitute-lacks, escape-misses, code-misses,
  image-misses, anchor-misses, marked-misses, stash-misses, escape-lacks, escape-append,
  substitute-match, substitute-none, is_plain-lacks,
}

restore-lacks :
    (stashed : Stash) (front text : Str)
    → lacks 0 front ≡ true
    → restore_all 0 stashed (front ++ text)
      ≡ (do rest ← restore_all 0 stashed text; some (front ++ rest))
unfolding restore_all
restore-lacks stashed [] text h = elim (Option-cases (restore_all 0 stashed text)) [
  | inl e ↦ rw e refl
  | inr (rest, e) ↦ rw e refl
]
restore-lacks stashed (c ∷ front) text h =
    let (first, rest) = lacks-cons 0 c front h in
    elim (Option-cases (restore_all 0 stashed text)) [
      | inl e ↦
          rw
            (
              stash-misses c (front ++ text) first,
              restore_all,
              restore-lacks stashed front text rest,
              e,
            )
            refl
      | inr (new, e) ↦
          rw
            (
              stash-misses c (front ++ text) first,
              restore_all,
              restore-lacks stashed front text rest,
              e,
            )
            refl
    ]

restore-skip :
    (stashed : Stash) (front text : Str)
    → restore_all (length front) stashed (front ++ text) ≡ restore_all 0 stashed text
unfolding restore_all
restore-skip stashed [] text = refl
restore-skip stashed (c ∷ front) text = restore-skip stashed front text

-- A code span with one backtick on each side.
match_body-closed :
    (c : ℕ) (body text : Str)
    → lacks 96 body ≡ true
    → match_body 1 ((c ∷ body) ++ 96 ∷ text) ≡ some (c ∷ body, text)
unfolding match_body behind_marks
match_body-closed c [] text h = refl
match_body-closed c (d ∷ body) text h =
    let (first, rest) = lacks-cons 96 d body h in
    rw (first, match_body, match_body-closed d body text rest) refl

match_code-closed :
    (c : ℕ) (body text : Str)
    → lacks 96 (c ∷ body) ≡ true
    → match_code (96 ∷ (c ∷ body) ++ 96 ∷ text) ≡ some (c ∷ body, text)
unfolding match_code run_of match_ticks behind_marks
match_code-closed c body text h =
    let (first, rest) = lacks-cons 96 c body h in
    rw (first, match_ticks, match_body-closed c body text rest) refl

-- What stands for the first span of the stash.
abbrev first_stash : Str
first_stash = 0 ∷ 48 ∷ 0 ∷ []

restore-none :
    (stashed : Stash) (text : Str) → lacks 0 text ≡ true → restore_all 0 stashed text ≡ some text
unfolding restore_all lacks
restore-none stashed [] h = refl
restore-none stashed (c ∷ text) h =
    let (first, rest) = lacks-cons 0 c text h in
    rw (stash-misses c text first, restore_all, restore-none stashed text rest) refl

restore-match :
    (stashed : Stash) (c : ℕ) (front text digits new : Str)
    → match_stash (c ∷ (front ++ text)) ≡ some (digits, text)
    → restored stashed digits ≡ some new
    → lacks 0 text ≡ true
    → restore_all 0 stashed (c ∷ (front ++ text)) ≡ some (new ++ text)
unfolding restore_all
restore-match stashed c front text digits new hit found h =
    let passed : length (front ++ text) - length text ≡ length front =
      omega (arith, length-append front text) in
    rw
      (
        hit,
        restore_all,
        found,
        passed,
        restore-skip stashed front text,
        restore-none stashed text h,
      )
      refl

-- A code span behind a text without its marks becomes a mark of the stash.
substitute-code :
    (front body text : Str) (c : ℕ)
    → lacks 96 front ≡ true
    → lacks 96 (c ∷ body) ≡ true
    → lacks 96 text ≡ true
    → substitute match_code (stash true) 0 [] (front ++ (96 ∷ ((c ∷ body) ++ 96 ∷ text)))
      ≡ (front ++ (first_stash ++ text), (true, c ∷ body) ∷ [])
unfolding stash concat str_of
substitute-code front body text c f b t =
    let span_text = (c ∷ body) ++ 96 ∷ text in
    rw
      (
        substitute-lacks match_code (stash true) 96 code-misses [] front (96 ∷ span_text) f,
        substitute-match match_code (stash true) [] 96 span_text ((c ∷ body) ++ 96 ∷ []) text
            (c ∷ body) (sym (append_assoc (c ∷ body) (96 ∷ []) text))
            (match_code-closed c body text b),
        substitute-none match_code (stash true) 96 code-misses ((true, c ∷ body) ∷ []) text t,
      )
      refl

abbrev pub code_html : Str → Str
code_html value = concat (codes "<code>" ∷ escape_html true value ∷ codes "</code>" ∷ [])

restore-code :
    (value front text : Str)
    → lacks 0 front ≡ true
    → lacks 0 text ≡ true
    → restore_all 0 ((true, value) ∷ []) (front ++ (first_stash ++ text))
      ≡ some (front ++ (code_html value ++ text))
unfolding match_stash restored after_char span is_digit number_of digit_value
restore-code value front text f t =
    rw
      (
        restore-lacks ((true, value) ∷ []) front (first_stash ++ text) f,
        restore-match ((true, value) ∷ []) 0 (48 ∷ 0 ∷ []) text (48 ∷ []) (code_html value) refl
            refl t,
      )
      refl

emphasis-none : (text : Str) → lacks 42 text ≡ true → lacks 126 text ≡ true → emphasis text ≡ text
unfolding emphasis
emphasis-none text stars waves =
    rw
      (
        substitute-none (match_marked 2 42 false) (tagged (codes "strong")) 42
            (marked-misses 1 42 false) tt text stars,
        substitute-none (match_marked 1 42 true) (tagged (codes "em")) 42 (marked-misses 0 42 true)
            tt text stars,
        substitute-none (match_marked 2 126 true) (tagged (codes "del")) 126
            (marked-misses 1 126 true) tt text waves,
        emphasis,
      )
      refl

-- What the steps behind the code spans do to a text without marks.
spans_of-none :
    {S : Type 0} (rewrite : S → Str → Str × S) (site : S) (text : Str)
    → lacks 33 text ≡ true
    → lacks 91 text ≡ true
    → lacks 42 text ≡ true
    → lacks 126 text ≡ true
    → (substitute match_image (image_html rewrite) 0 site text ≡ (text, site))
      × (substitute match_anchor (anchor_html rewrite) 0 site text ≡ (text, site))
      × (emphasis text ≡ text)
spans_of-none rewrite site text pictures links stars waves = (
  substitute-none match_image (image_html rewrite) 33 image-misses site text pictures,
  substitute-none match_anchor (anchor_html rewrite) 91 anchor-misses site text links,
  emphasis-none text stars waves,
)

-- The text between two plain ones, behind the escapes.
lacks-between :
    (d : ℕ) (a b : Str)
    → lacks d (codes "&;gltamp") ≡ true
    → lacks d first_stash ≡ true
    → lacks d a ≡ true
    → lacks d b ≡ true
    → lacks d (escape_html false a ++ (first_stash ++ escape_html false b)) ≡ true
lacks-between d a b h m p q =
    rw
      (
        lacks-append d (escape_html false a) (first_stash ++ escape_html false b),
        lacks-append d first_stash (escape_html false b),
        escape-lacks d a h p,
        escape-lacks d b h q,
        m,
      )
      refl

-- A code span of one backtick on each side, with a text that holds no backtick and no backslash, between
-- two texts that hold no mark: the text of the span comes out escaped in a `code` element and otherwise
-- as it is, whatever marks it holds, the texts around it come out escaped, and the site is not changed.
pub render_inline-code :
    {S : Type 0} (rewrite : S → Str → Str × S) (site : S) (a b body : Str) (c : ℕ)
    → is_plain a ≡ true
    → is_plain b ≡ true
    → lacks 92 (c ∷ body) ≡ true
    → lacks 96 (c ∷ body) ≡ true
    → render_inline rewrite site (a ++ (96 ∷ ((c ∷ body) ++ 96 ∷ b)))
      ≡ some (escape_html false a ++ (code_html (c ∷ body) ++ escape_html false b), site)
unfolding render_inline lacks restore_all escape_html
render_inline-code rewrite site a b body c pa pb slashes ticks =
    let (a1, a2, a3, a4, a5, a6, a7) = is_plain-lacks a pa in
    let (b1, b2, b3, b4, b5, b6, b7) = is_plain-lacks b pb in
    let (pictures, links, marks) =
      spans_of-none rewrite site (escape_html false a ++ (first_stash ++ escape_html false b))
        (lacks-between 33 a b refl refl a3 b3) (lacks-between 91 a b refl refl a4 b4)
        (lacks-between 42 a b refl refl a5 b5) (lacks-between 126 a b refl refl a6 b6) in
    let escapes : lacks 92 (a ++ (96 ∷ ((c ∷ body) ++ 96 ∷ b))) ≡ true =
      rw
        (
          lacks-append 92 a (96 ∷ ((c ∷ body) ++ 96 ∷ b)),
          a1,
          lacks-append 92 (c ∷ body) (96 ∷ b),
          slashes,
        )
        b1 in
    rw
      (
        substitute-none match_escape (stash false) 92 escape-misses []
            (a ++ (96 ∷ ((c ∷ body) ++ 96 ∷ b))) escapes,
        substitute-code a body b c a2 ticks b2,
        escape-append false a (first_stash ++ b),
        escape-append false first_stash b,
        pictures,
        links,
        marks,
        restore-code (c ∷ body) (escape_html false a) (escape_html false b)
            (escape-lacks 0 a refl a7) (escape-lacks 0 b refl b7),
      )
      refl
