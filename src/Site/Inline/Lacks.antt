-- ===== src/Site/Inline/Lacks.antt =====
-- Texts that lack the marks of alpha-one/scripts/build_docs_site.py: no expression of `render_inline`
-- matches in them.
use alpha_one.Base.{
  ℕ, suc, ◌-◌, ◌&&◌, not, Bool, true, false, Option, none, some, [], ◌∷◌, ◌++◌, length, Str, all,
  arith, ◌≡◌, refl, ap, sym,
}
use alpha_one.Base.{codes, ◌==◌, append_assoc, length-append}
use alpha_one.Tables.{after_char}
use alpha_one.Site.Patterns.{run_of, escape_html, escape_char}
use alpha_one.Site.Inline.{
  substitute, match_escape, behind_marks, match_ticks, match_code, match_image, match_anchor,
  match_marked, match_stash,
}

-- The text holds no `d`.
unfoldable pub lacks : ℕ → Str → Bool
lacks d s = all (λ c. not (c == d)) s

-- The text holds no mark of a code span, an escape, a picture, a link or an emphasis, and no mark of the
-- stash.
unfoldable pub is_plain : Str → Bool
unfolding lacks
is_plain s =
    lacks 92 s && lacks 96 s && lacks 33 s && lacks 91 s && lacks 42 s && lacks 126 s && lacks 0 s

pub lacks-append : (d : ℕ) (s t : Str) → lacks d (s ++ t) ≡ (lacks d s && lacks d t)
unfolding lacks
lacks-append d [] t = refl
lacks-append d (c ∷ s) t = ground (arith, lacks-append d s t)

pub lacks-cons :
    (d c : ℕ) (s : Str) → lacks d (c ∷ s) ≡ true → ((c == d) ≡ false) × (lacks d s ≡ true)
unfolding lacks
lacks-cons d c s h = (ground arith, ground arith)

-- Where no match starts at a character of the text, the text stays.
pub substitute-lacks :
    {A S : Type 0} (match_at : Str → Option (A × Str)) (replace : S → A → Str × S) (d : ℕ)
    → ((c : ℕ) (text : Str) → (c == d) ≡ false → match_at (c ∷ text) ≡ none)
    → (s : S) (front text : Str) → lacks d front ≡ true
    → substitute match_at replace 0 s (front ++ text) ≡ (
      front ++ (substitute match_at replace 0 s text).0,
      (substitute match_at replace 0 s text).1,
    )
unfolding substitute lacks
substitute-lacks match_at replace d misses s [] text h = refl
substitute-lacks match_at replace d misses s (c ∷ front) text h =
    let (first, rest) = lacks-cons d c front h in
    rw
      (
        misses c (front ++ text) first,
        substitute,
        substitute-lacks match_at replace d misses s front text rest,
      )
      refl

pub substitute-skip :
    {A S : Type 0} (match_at : Str → Option (A × Str)) (replace : S → A → Str × S) (s : S)
    (front text : Str)
    → substitute match_at replace (length front) s (front ++ text)
      ≡ substitute match_at replace 0 s text
unfolding substitute
substitute-skip match_at replace s [] text = refl
substitute-skip match_at replace s (c ∷ front) text = substitute-skip match_at replace s front text

pub after_char-other : (d c : ℕ) (text : Str) → (c == d) ≡ false → after_char d (c ∷ text) ≡ none
unfolding after_char
after_char-other d c text e = rw e refl

pub escape-misses : (c : ℕ) (text : Str) → (c == 92) ≡ false → match_escape (c ∷ text) ≡ none
unfolding match_escape
escape-misses c [] e = refl
escape-misses c (d ∷ text) e = rw e refl

pub code-misses : (c : ℕ) (text : Str) → (c == 96) ≡ false → match_code (c ∷ text) ≡ none
unfolding match_code run_of match_ticks
code-misses c text e = rw e refl

pub image-misses : (c : ℕ) (text : Str) → (c == 33) ≡ false → match_image (c ∷ text) ≡ none
unfolding match_image
image-misses c text e = rw (after_char-other 33 c text e) refl

pub anchor-misses : (c : ℕ) (text : Str) → (c == 91) ≡ false → match_anchor (c ∷ text) ≡ none
unfolding match_anchor
anchor-misses c text e = rw (after_char-other 91 c text e) refl

pub marked-misses :
    (count d : ℕ) (one_line : Bool) (c : ℕ) (text : Str)
    → (c == d) ≡ false
    → match_marked (suc count) d one_line (c ∷ text) ≡ none
unfolding match_marked behind_marks
marked-misses count d one_line c text e = rw e refl

pub stash-misses : (c : ℕ) (text : Str) → (c == 0) ≡ false → match_stash (c ∷ text) ≡ none
unfolding match_stash
stash-misses c text e = rw (after_char-other 0 c text e) refl

-- `html.escape` brings in no character but those of the entities.
pub escape_char-lacks :
    (d c : ℕ)
    → lacks d (codes "&;gltamp") ≡ true
    → (c == d) ≡ false
    → lacks d (escape_char false c) ≡ true
unfolding lacks escape_char
escape_char-lacks d c h e = ground arith

pub escape-lacks :
    (d : ℕ) (s : Str)
    → lacks d (codes "&;gltamp") ≡ true
    → lacks d s ≡ true
    → lacks d (escape_html false s) ≡ true
unfolding escape_html lacks
escape-lacks d [] h l = refl
escape-lacks d (c ∷ s) h l =
    let (first, rest) = lacks-cons d c s l in
    rw
      (
        lacks-append d (escape_char false c) (escape_html false s),
        escape_char-lacks d c h first,
        escape-lacks d s h rest,
      )
      refl

pub escape-append :
    (quote : Bool) (s t : Str)
    → escape_html quote (s ++ t) ≡ escape_html quote s ++ escape_html quote t
unfolding escape_html
escape-append quote [] t = refl
escape-append quote (c ∷ s) t =
    rw (escape-append quote s t)
      (sym (append_assoc (escape_char quote c) (escape_html quote s) (escape_html quote t)))

-- A match at the first character is replaced.
pub substitute-match :
    {A S : Type 0} (match_at : Str → Option (A × Str)) (replace : S → A → Str × S) (s : S) (c : ℕ)
    (whole front text : Str) (found : A)
    → whole ≡ front ++ text
    → match_at (c ∷ whole) ≡ some (found, text)
    → substitute match_at replace 0 s (c ∷ whole) ≡ (
      (replace s found).0 ++ (substitute match_at replace 0 (replace s found).1 text).0,
      (substitute match_at replace 0 (replace s found).1 text).1,
    )
unfolding substitute
substitute-match match_at replace s c whole front text found parts hit =
    let passed : length whole - length text ≡ length front =
      omega (arith, ap length parts, length-append front text) in
    rw
      (
        hit,
        substitute,
        passed,
        parts,
        substitute-skip match_at replace (replace s found).1 front text,
      )
      refl

pub substitute-none :
    {A S : Type 0} (match_at : Str → Option (A × Str)) (replace : S → A → Str × S) (d : ℕ)
    → ((c : ℕ) (text : Str) → (c == d) ≡ false → match_at (c ∷ text) ≡ none)
    → (s : S) (text : Str) → lacks d text ≡ true
    → substitute match_at replace 0 s text ≡ (text, s)
unfolding substitute lacks
substitute-none match_at replace d misses s [] h = refl
substitute-none match_at replace d misses s (c ∷ text) h =
    let (first, rest) = lacks-cons d c text h in
    rw (misses c text first, substitute, substitute-none match_at replace d misses s text rest) refl

pub is_plain-lacks :
    (s : Str)
    → is_plain s ≡ true
    → (lacks 92 s ≡ true)
      × (lacks 96 s ≡ true)
      × (lacks 33 s ≡ true)
      × (lacks 91 s ≡ true)
      × (lacks 42 s ≡ true)
      × (lacks 126 s ≡ true)
      × (lacks 0 s ≡ true)
unfolding is_plain
is_plain-lacks s h = (
  ground arith,
  ground arith,
  ground arith,
  ground arith,
  ground arith,
  ground arith,
  ground arith,
)
