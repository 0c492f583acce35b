-- ===== src/Parse/Lexer/Quoting.antt =====
-- Which strings and patterns can be written.
use mdsort.Base.{
  ℕ, ◌+◌, ◌-◌, ◌<◌, Bool, true, false, is_space, All, before, [], ◌∷◌, ◌++◌, ◌≡◌, ◌≢◌, refl, ap,
  ◌∙◌, arith, Bytes, ◌==◌, if◌then◌else◌, length, length-append, append_assoc, append-nil,
  Bool-cases, inl, inr, ◌⊎◌,
}
use mdsort.Decode.{c_string}
use mdsort.Parse.Lexer.{
  Token, pattern, unterminated, too_long, lexed_pattern, string, skip_blank, lexed_string,
  lex_token, lexed_behind, yylex1, backslash, Peek, wanted, escaped, other, yypeek, Text, text, put,
  lex_text,
}

-- A text as it is written between delimiters: a backslash before each delimiter.
unfoldable pub quoted : ℕ → Bytes → Bytes
quoted want [] = []
quoted want (c ∷ s) = if c == want then backslash ∷ c ∷ quoted want s else c ∷ quoted want s

-- The last byte, if there is one, is not a backslash.
abbrev pub EndsPlain : Bytes → Type 0
EndsPlain [] = Unit
EndsPlain (c ∷ []) = c ≢ backslash
EndsPlain (c ∷ d ∷ s) = EndsPlain (d ∷ s)

put-fits :
    (bufsiz : ℕ) (buf : Bytes) (c : ℕ) (s : Bytes) (next : Bytes → Text)
    → length buf + 1 < bufsiz
    → put bufsiz buf c s next ≡ next (buf ++ c ∷ [])
unfolding put
put-fits bufsiz buf c s next h = ground (arith, h)

module _ (bufsiz want : ℕ) (rest : Bytes) (plain : want ≢ backslash) where
  -- A byte that is not the delimiter, before a text that is written.
  ordinary :
      (c : ℕ) (s : Bytes)
      → c ≢ want
      → EndsPlain (c ∷ s)
      → yypeek want c (quoted want s ++ want ∷ rest) ≡ other
  unfolding yypeek quoted
  ordinary c [] n e = ground (arith, n, e)
  ordinary c (d ∷ s) n e = elim (Bool-cases (d == want)) [
    | inl f ↦ rw (quoted, f) (ground (arith, n, plain))
    | inr f ↦ rw (quoted, f) (ground (arith, n, f))
  ]

  delimiter_escaped : (c : ℕ) (s : Bytes) → c ≡ want → yypeek want backslash (c ∷ s) ≡ escaped
  unfolding yypeek
  delimiter_escaped c s e = ground (arith, plain, e)

  delimiter_wanted : yypeek want want rest ≡ wanted
  unfolding yypeek
  delimiter_wanted = elim rest [ [] ↦ ground arith | c ∷ s ↦ ground arith ]

  EndsPlain-tail : (c : ℕ) (s : Bytes) → EndsPlain (c ∷ s) → EndsPlain s
  EndsPlain-tail c [] e = tt
  EndsPlain-tail c (d ∷ s) e = e

  lex_text-from :
      (s buf : Bytes)
      → length buf + length s < bufsiz
      → EndsPlain s
      → lex_text bufsiz want false buf (quoted want s ++ want ∷ rest) ≡ text (buf ++ s) rest
  unfolding lex_text quoted
  lex_text-from [] buf h e = rw (lex_text, delimiter_wanted, append-nil buf) refl
  lex_text-from (c ∷ s) buf h e =
      let longer : length (buf ++ c ∷ []) + length s < bufsiz =
        rw (length-append buf (c ∷ [])) (ground (arith, h)) in
      let next : lex_text bufsiz want false (buf ++ c ∷ []) (quoted want s ++ want ∷ rest)
          ≡ text (buf ++ c ∷ s) rest =
        lex_text-from s (buf ++ c ∷ []) longer (EndsPlain-tail c s e)
        ∙ ap (λ b. text b rest) (append_assoc buf (c ∷ []) s) in
      elim (Bool-cases (c == want)) [
        | inr f ↦
            rw (quoted, f, lex_text, ordinary c s (ground (arith, f)) e)
              (put-fits bufsiz buf c _
                  (λ b. lex_text bufsiz want false b (quoted want s ++ want ∷ rest))
                  (ground (arith, h))
                ∙ next)
        | inl f ↦
            rw
              (
                quoted,
                f,
                lex_text,
                delimiter_escaped c (quoted want s ++ want ∷ rest) (ground (arith, f)),
              )
              (put-fits bufsiz buf c _
                  (λ b. lex_text bufsiz want false b (quoted want s ++ want ∷ rest))
                  (ground (arith, h))
                ∙ next)
      ]

-- A text without NULs is the C string that stands in its buffer.
c_string_whole : (s : Bytes) → All (λ c. c ≢ 0) s → c_string s ≡ s
unfolding before
c_string_whole [] h = refl
c_string_whole (c ∷ s) h = ground (arith, h.0, c_string_whole s h.1)

-- A quoted string that has no NUL, does not end in a backslash, is not empty and fits into the buffer
-- is read as it is, with no error, and what follows is left.
pub yylex1-quoted :
    (bufsiz : ℕ) (sflag pflag : Bool) (s rest : Bytes)
    → 0 < length s
    → length s < bufsiz
    → EndsPlain s
    → All (λ c. c ≢ 0) s
    → yylex1 bufsiz sflag pflag false (34 ∷ (quoted 34 s ++ 34 ∷ rest))
      ≡ record { token = string s; errors = 0; rest = rest }
unfolding yylex1 skip_blank lexed_behind lex_token lexed_string is_space
yylex1-quoted bufsiz sflag pflag s rest n h e z =
    let read : lex_text bufsiz 34 false [] (quoted 34 s ++ 34 ∷ rest) ≡ text s rest =
      lex_text-from bufsiz 34 rest (λ x. ground (arith, x)) s [] (ground (arith, h)) e in
    let filled : (length s == 0) ≡ false = ground (arith, n) in
    rw (read, c_string_whole s z, filled) refl

-- The next byte, if there is one, is not the delimiter.
abbrev Continues : ℕ → Bytes → Type 0
Continues want [] = Unit
Continues want (d ∷ s) = d ≢ want

-- Behind an escape the delimiter comes; else a backslash in the buffer is not before one.
abbrev Reading : ℕ → Bool → Bytes → Bytes → Type 0
Reading want true buf [] = Unit
Reading want true buf (d ∷ s) = d ≡ want
Reading want false buf s = EndsPlain buf ⊎ Continues want s

EndsPlain-last : (buf : Bytes) (c : ℕ) → c ≢ backslash → EndsPlain (buf ++ c ∷ [])
EndsPlain-last [] c n = n
EndsPlain-last (x ∷ []) c n = n
EndsPlain-last (x ∷ y ∷ buf) c n = EndsPlain-last (y ∷ buf) c n

-- What the text is, if one is read.
abbrev Gives : (Bytes → Type 0) → Text → Type 0
Gives P (text b r) = P b
Gives P _ = Unit

put-Gives :
    (P : Bytes → Type 0) (bufsiz : ℕ) (buf : Bytes) (c : ℕ) (s : Bytes) (next : Bytes → Text)
    → Gives P (next (buf ++ c ∷ []))
    → Gives P (put bufsiz buf c s next)
unfolding put
put-Gives P bufsiz buf c s next h = elim (Bool-cases (length buf == bufsiz - 1)) [
  | inl e ↦ rw (put, e) tt
  | inr e ↦ rw (put, e) h
]

module _ (bufsiz want : ℕ) (plain : want ≢ backslash) where
  peeked :
      (buf : Bytes) (c : ℕ) (s : Bytes)
      → Reading want false buf (c ∷ s)
      → (q : Peek) → yypeek want c s ≡ q
      → ((e : Bool) (b : Bytes) → Reading want e b s → Gives EndsPlain (lex_text bufsiz want e b s))
      → Gives EndsPlain (elim q [
        | wanted ↦ text buf s
        | escaped ↦ lex_text bufsiz want true buf s
        | other ↦ put bufsiz buf c s (λ b. lex_text bufsiz want false b s)
      ])
  unfolding yypeek
  peeked buf c s (inl p) wanted q f = p
  peeked buf c [] (inr n) wanted q f = absurd (ground (arith, n, q))
  peeked buf c (d ∷ s) (inr n) wanted q f = absurd (ground (arith, n, q))
  peeked buf c [] r escaped q f = absurd (ground (arith, q))
  peeked buf c (d ∷ s) r escaped q f = f true buf (ground (arith, q))
  peeked buf c [] r other q f =
      put-Gives EndsPlain bufsiz buf c [] _ (f false (buf ++ c ∷ []) (inr tt))
  peeked buf c (d ∷ s) r other q f = elim (Bool-cases (c == backslash)) [
    | inl e ↦
        put-Gives EndsPlain bufsiz buf c (d ∷ s) _
          (f false (buf ++ c ∷ []) (inr (λ x. ground (arith, q, e, x))))
    | inr e ↦
        put-Gives EndsPlain bufsiz buf c (d ∷ s) _
          (f false (buf ++ c ∷ []) (inl (EndsPlain-last buf c (λ x. ground (arith, e, x)))))
  ]

  lex_text-plain :
      (s : Bytes) (e : Bool) (buf : Bytes)
      → Reading want e buf s
      → Gives EndsPlain (lex_text bufsiz want e buf s)
  unfolding lex_text
  lex_text-plain [] e buf r = tt
  lex_text-plain (c ∷ s) true buf r =
      put-Gives EndsPlain bufsiz buf c s (λ b. lex_text bufsiz want false b s)
        (lex_text-plain s false (buf ++ c ∷ [])
          (inl (EndsPlain-last buf c (λ x. plain (ground (arith, r, x))))))
  lex_text-plain (c ∷ s) false buf r =
      peeked buf c s r (yypeek want c s) refl (λ e b. lex_text-plain s e b)

All-last : (P : ℕ → Type 0) (buf : Bytes) (c : ℕ) → All P buf → P c → All P (buf ++ c ∷ [])
All-last P [] c h p = (p, tt)
All-last P (x ∷ buf) c h p = (h.0, All-last P buf c h.1 p)

-- What is read of a file without NULs has none.
module _ (bufsiz want : ℕ) where
  abbrev Whole : Bytes → Type 0
  Whole = All (λ c. c ≢ 0)

  peeked-Whole :
      (buf : Bytes) (c : ℕ) (s : Bytes) (q : Peek)
      → Whole buf
      → c ≢ 0
      → ((e : Bool) (b : Bytes) → Whole b → Gives Whole (lex_text bufsiz want e b s))
      → Gives Whole (elim q [
        | wanted ↦ text buf s
        | escaped ↦ lex_text bufsiz want true buf s
        | other ↦ put bufsiz buf c s (λ b. lex_text bufsiz want false b s)
      ])
  peeked-Whole buf c s wanted w n f = w
  peeked-Whole buf c s escaped w n f = f true buf w
  peeked-Whole buf c s other w n f =
      put-Gives Whole bufsiz buf c s _ (f false (buf ++ c ∷ []) (All-last (λ x. x ≢ 0) buf c w n))

  lex_text-Whole :
      (s : Bytes) (e : Bool) (buf : Bytes)
      → Whole s
      → Whole buf
      → Gives Whole (lex_text bufsiz want e buf s)
  unfolding lex_text
  lex_text-Whole [] e buf h w = tt
  lex_text-Whole (c ∷ s) true buf h w =
      put-Gives Whole bufsiz buf c s (λ b. lex_text bufsiz want false b s)
        (lex_text-Whole s false (buf ++ c ∷ []) h.1 (All-last (λ x. x ≢ 0) buf c w h.0))
  lex_text-Whole (c ∷ s) false buf h w =
      peeked-Whole buf c s (yypeek want c s) w h.0 (λ e b. lex_text-Whole s e b h.1)

-- A token that is a string or a pattern does not end in a backslash.
abbrev pub TokenPlain : Token → Type 0
TokenPlain (string b) = EndsPlain b
TokenPlain (pattern b flags) = EndsPlain b
TokenPlain _ = Unit

lexed-TokenPlain :
    (t : Text)
    → Gives EndsPlain t
    → Gives (All (λ c. c ≢ 0)) t
    → TokenPlain (lexed_string t).token × TokenPlain (lexed_pattern t).token
unfolding lexed_string lexed_pattern
lexed-TokenPlain (text b r) h w = rw (c_string_whole b w) (h, h)
lexed-TokenPlain unterminated h w = (tt, tt)
lexed-TokenPlain (too_long s) h w = (tt, tt)

-- If the rest of the file has no NUL and the delimiter is not a backslash, neither the string nor the
-- pattern that is read from it ends in a backslash, however it is written.
pub lex_text-EndsPlain :
    (bufsiz want : ℕ) (s : Bytes)
    → want ≢ backslash
    → All (λ c. c ≢ 0) s
    → TokenPlain (lexed_string (lex_text bufsiz want false [] s)).token
      × TokenPlain (lexed_pattern (lex_text bufsiz want false [] s)).token
lex_text-EndsPlain bufsiz want s n w =
    lexed-TokenPlain (lex_text bufsiz want false [] s)
      (lex_text-plain bufsiz want n s false [] (inl tt))
      (lex_text-Whole bufsiz want s false [] w tt)
