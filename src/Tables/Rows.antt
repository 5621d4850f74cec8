-- ===== src/Tables/Rows.antt =====
-- The keys that `taxonomy_codes` and `registry_keys` read are those of the rows of the tables.
use alpha_one.Base.{
  ℕ, ◌-◌, not, Bool, true, false, none, some, List, [], ◌∷◌, ◌++◌, length, Str, if◌then◌else◌,
  arith, ◌≡◌, ◌≢◌, ◌∙◌, refl, ap, Bool-cases, ◌⊎◌, inl, inr, ◌==◌, is_space, flat_map, All,
  append_assoc, length-append,
}
use alpha_one.Tables.{is_key_char, span, after_char, match_key, find_keys, table_keys}

-- A line of a document: a row that names a key, or one that is not read.
pub data Line : Type 0 where
  row : (key rest : Str) → Line
  other : Str → Line

unfoldable pub line_text : Line → Str
line_text (row key rest) = 124 ∷ 32 ∷ 96 ∷ (key ++ (96 ∷ 32 ∷ 124 ∷ rest))
line_text (other text) = text

unfoldable pub line_key : Line → List Str
line_key (row key rest) = key ∷ []
line_key (other text) = []

-- Behind blanks comes something other than a backtick.
unfoldable pub no_tick : Str → Bool
unfolding is_space
no_tick [] = false
no_tick (d ∷ s) = if is_space d then no_tick s else not (d == 96)

-- Such as a heading, a text, and the lines `| Code |` and `|---|`.
abbrev pub IsPassed : Str → Type 0
IsPassed [] = Unit
IsPassed (c ∷ s) = ((c == 124) ≡ false) ⊎ (no_tick s ≡ true)

abbrev pub IsOneLine : Str → Type 0
IsOneLine text = All (λ c. c ≢ 10) text

abbrev pub IsLine : Line → Type 0
IsLine (row key rest) = (key ≢ []) × All (λ c. is_key_char c ≡ true) key × IsOneLine rest
IsLine (other text) = IsPassed text × IsOneLine text

unfoldable pub document : List Line → Str
document lines = flat_map (λ line. line_text line ++ 10 ∷ []) lines

span-key :
    (key rest : Str)
    → All (λ c. is_key_char c ≡ true) key
    → span is_key_char (key ++ 96 ∷ rest) ≡ (key, 96 ∷ rest)
unfolding span
span-key [] rest a = unfold is_key_char in refl
span-key (c ∷ key) rest a = rw (a.0, span, span-key key rest a.1)

pass_match : (m rest : Str) → find_keys (length m) false (m ++ rest) ≡ find_keys 0 false rest
unfolding find_keys
pass_match [] rest = refl
pass_match (c ∷ m) rest = pass_match m rest

pass_line :
    (line rest : Str)
    → IsOneLine line
    → find_keys 0 false (line ++ 10 ∷ rest) ≡ find_keys 0 true rest
unfolding find_keys
pass_line [] rest a = refl
pass_line (c ∷ line) rest a =
    let other : (c == 10) ≡ false = ground (arith, a.0) in rw other (pass_line line rest a.1)

match_key-row :
    (key rest : Str)
    → key ≢ []
    → All (λ c. is_key_char c ≡ true) key
    → match_key (124 ∷ 32 ∷ 96 ∷ (key ++ (96 ∷ 32 ∷ 124 ∷ rest))) ≡ some (key, rest)
unfolding match_key after_char is_space span
match_key-row [] rest n a = absurd (n refl)
match_key-row (k ∷ key) rest n a = rw (span-key (k ∷ key) (32 ∷ 124 ∷ rest) a, after_char) refl

find_keys-some :
    (c : ℕ) (s key rest : Str)
    → match_key (c ∷ s) ≡ some (key, rest)
    → find_keys 0 true (c ∷ s) ≡ key ∷ find_keys (length s - length rest) false s
unfolding find_keys
find_keys-some c s key rest e = rw (e, find_keys) refl

find_keys-none :
    (c : ℕ) (s : Str)
    → match_key (c ∷ s) ≡ none
    → find_keys 0 true (c ∷ s) ≡ find_keys 0 (c == 10) s
unfolding find_keys
find_keys-none c s e = rw (e, find_keys) refl

pass_behind :
    (s m behind : Str)
    → s ≡ m ++ behind
    → find_keys (length s - length behind) false s ≡ find_keys 0 false behind
pass_behind s m behind e =
    let count : length (m ++ behind) - length behind ≡ length m =
      omega (arith, length-append m behind) in
    rw (e, count) (pass_match m behind)

-- A row in front of other lines.
find_keys-row :
    (key rest t : Str)
    → key ≢ []
    → All (λ c. is_key_char c ≡ true) key
    → IsOneLine rest
    → find_keys 0 true (124 ∷ 32 ∷ 96 ∷ (key ++ (96 ∷ 32 ∷ 124 ∷ (rest ++ 10 ∷ t))))
      ≡ key ∷ find_keys 0 true t
find_keys-row key rest t n a one =
    let behind = rest ++ 10 ∷ t in
    find_keys-some 124 (32 ∷ 96 ∷ (key ++ (96 ∷ 32 ∷ 124 ∷ behind))) key behind
      (match_key-row key behind n a)
    ∙ ap (λ keys. key ∷ keys)
        (pass_behind (32 ∷ 96 ∷ (key ++ (96 ∷ 32 ∷ 124 ∷ behind)))
            (32 ∷ 96 ∷ (key ++ 96 ∷ 32 ∷ 124 ∷ [])) behind (simp append_assoc)
          ∙ pass_line rest t one)

no_tick-after : (s u : Str) → no_tick s ≡ true → after_char 96 (span is_space (s ++ u)).1 ≡ none
unfolding no_tick span after_char
no_tick-after [] u h = cc
no_tick-after (d ∷ s) u h = elim (Bool-cases (is_space d)) [
  | inl blank ↦ rw (blank, span) (no_tick-after s u (rw blank at h))
  | inr mark ↦
      let tick : (d == 96) ≡ false = ground (arith, rw mark at h) in rw (mark, span, tick) refl
]

after_char-here : (d c : ℕ) (s : Str) → (c == d) ≡ true → after_char d (c ∷ s) ≡ some s
unfolding after_char
after_char-here d c s e = rw e refl

after_char-none : (d c : ℕ) (s : Str) → (c == d) ≡ false → after_char d (c ∷ s) ≡ none
unfolding after_char
after_char-none d c s e = rw e refl

match_key-other :
    (c : ℕ) (s u : Str)
    → ((c == 124) ≡ false) ⊎ (no_tick s ≡ true)
    → match_key (c ∷ (s ++ u)) ≡ none
unfolding match_key
match_key-other c s u (inl e) = rw (after_char-none 124 c (s ++ u) e) refl
match_key-other c s u (inr e) = elim (Bool-cases (c == 124)) [
  | inl bar ↦ rw (after_char-here 124 c (s ++ u) bar, no_tick-after s u e) refl
  | inr none_here ↦ rw (after_char-none 124 c (s ++ u) none_here) refl
]

find_keys-other :
    (text t : Str)
    → IsPassed text
    → IsOneLine text
    → find_keys 0 true (text ++ 10 ∷ t) ≡ find_keys 0 true t
unfolding match_key after_char
find_keys-other [] t p one = find_keys-none 10 t refl
find_keys-other (c ∷ s) t p one =
    let newline : (c == 10) ≡ false = ground (arith, one.0) in
    find_keys-none c (s ++ 10 ∷ t) (match_key-other c s (10 ∷ t) p)
    ∙ rw newline (pass_line s t one.1)

-- `re.findall` on a document of key rows and of other lines gives the keys of the rows, in order.
pub table_keys-document :
    (lines : List Line) → All IsLine lines → table_keys (document lines) ≡ flat_map line_key lines
unfolding table_keys document line_text line_key
table_keys-document [] a = unfold find_keys in refl
table_keys-document (row key rest ∷ lines) a =
    ap (find_keys 0 true) (simp append_assoc)
    ∙ find_keys-row key rest (document lines) a.0.0 a.0.1 a.0.2
    ∙ ap (λ keys. key ∷ keys) (table_keys-document lines a.1)
table_keys-document (other text ∷ lines) a =
    rw (append_assoc text (10 ∷ []) (document lines))
      (find_keys-other text (document lines) a.0.0 a.0.1 ∙ table_keys-document lines a.1)
