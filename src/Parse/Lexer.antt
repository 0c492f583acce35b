-- ===== src/Parse/Lexer.antt =====
-- `yylex1` of parse.y on the rest of the file, which stands as a list of bytes; EOF is its end. BUFSIZ
-- is a parameter.
pub mod Quoting
pub mod Numbers
use mdsort.Base.{
  ℕ, zero, suc, ◌+◌, ◌-◌, ◌*◌, ◌%◌, ◌^◌, Bool, true, false, not, ◌&&◌, ◌||◌, Option, none, some,
  List, [], ◌∷◌, ◌++◌, Bytes, codes, leb, ◌==◌, if◌then◌else◌, length, bytes_eq, starts_with,
  is_digit, is_space, is_lower, keep,
}
use mdsort.Decode.{c_string}
use mdsort.Expr.Setters.{PatternFlags}

abbrev pub backslash : ℕ
backslash = 92

-- What `yypeek` sees in front of the byte `c`, before `s`: what it wants, an escaped one, of which the
-- backslash is dropped, or another byte.
pub data Peek : Type 0 where
  wanted escaped other : Peek

unfoldable pub yypeek : ℕ → ℕ → Bytes → Peek
yypeek want c [] = if c == want then wanted else other
yypeek want c (d ∷ s) =
    if c == want then wanted else if (c == backslash) && (d == want) then escaped else other

-- A delimited text and what follows it, or an error.
pub data Text : Type 0 where
  text : Bytes → Bytes → Text
  unterminated : Text
  too_long : Bytes → Text

-- A byte is put into the buffer, of which the last place is kept for the NUL.
unfoldable pub put : ℕ → Bytes → ℕ → Bytes → (Bytes → Text) → Text
put bufsiz buf c s next = if length buf == bufsiz - 1 then too_long s else next (buf ++ c ∷ [])

-- The loop over a string or a pattern; `true` behind an escape.
unfoldable pub lex_text : ℕ → ℕ → Bool → Bytes → Bytes → Text
unfolding yypeek put
lex_text bufsiz want e buf [] = unterminated
lex_text bufsiz want true buf (c ∷ s) = put bufsiz buf c s (λ b. lex_text bufsiz want false b s)
lex_text bufsiz want false buf (c ∷ s) = elim (yypeek want c s) [
  | wanted ↦ text buf s
  | escaped ↦ lex_text bufsiz want true buf s
  | other ↦ put bufsiz buf c s (λ b. lex_text bufsiz want false b s)
]

-- The flags behind a pattern: how often `l` and `u` clash, the flags, and what follows.
unfoldable pub lex_flags : PatternFlags → Bytes → ℕ × PatternFlags × Bytes
lex_flags flags [] = (0, flags, [])
lex_flags flags (c ∷ s) =
    let icase = lex_flags (record flags { icase = true }) s in
    let lcase = lex_flags (record flags { lcase = true }) s in
    let ucase = lex_flags (record flags { ucase = true }) s in
    if c == b'i'
    then icase
    else if c == b'l'
    then ((if flags.ucase then 1 else 0) + lcase.0, lcase.1, lcase.2)
    else if c == b'u'
    then ((if flags.lcase then 1 else 0) + ucase.0, ucase.1, ucase.2)
    else (0, flags, c ∷ s)

-- KS_u32_mul_overflow and KS_u32_add_overflow of one digit: whether one of them overflows, and the
-- number.
unfoldable pub add_digit : ℕ → ℕ → Bool × ℕ
add_digit number c =
    let scaled = (number * 10) % 2 ^ 32 in
    if leb (2 ^ 32) (number * 10)
    then (true, scaled)
    else (leb (2 ^ 32) (scaled + (c - b'0')), (scaled + (c - b'0')) % 2 ^ 32)

-- The loop over the digits: the errors, the number, and what follows.
unfoldable pub lex_number : Bool → ℕ → Bytes → ℕ × ℕ × Bytes
unfolding is_digit add_digit
lex_number overflow number [] = (0, number, [])
lex_number overflow number (c ∷ s) =
    let skipped = lex_number true number s in
    let (over, n) = add_digit number c in
    let rest = lex_number over n s in
    if not (is_digit c)
    then (0, number, c ∷ s)
    else if overflow
    then skipped
    else ((if over then 1 else 0) + rest.0, rest.1, rest.2)

-- A word and what follows it, or what follows a part of a word that is too long.
pub data Word : Type 0 where
  word : Bytes → Bytes → Word
  long_word : Bytes → Word

-- The loop over lower case letters and dashes.
unfoldable pub lex_word : ℕ → Bytes → Bytes → Word
unfolding is_lower
lex_word bufsiz buf [] = word buf []
lex_word bufsiz buf (c ∷ s) =
    let rest = lex_word bufsiz (buf ++ c ∷ []) s in
    if not (is_lower c || (c == b'-'))
    then word buf (c ∷ s)
    else if length buf == bufsiz - 1
    then long_word s
    else rest

abbrev pub keywords : List Bytes
keywords =
    codes "access"
    ∷ codes "add-header"
    ∷ codes "all"
    ∷ codes "and"
    ∷ codes "attachment"
    ∷ codes "body"
    ∷ codes "break"
    ∷ codes "command"
    ∷ codes "created"
    ∷ codes "date"
    ∷ codes "discard"
    ∷ codes "exec"
    ∷ codes "flag"
    ∷ codes "flags"
    ∷ codes "header"
    ∷ codes "isdirectory"
    ∷ codes "label"
    ∷ codes "maildir"
    ∷ codes "match"
    ∷ codes "modified"
    ∷ codes "move"
    ∷ codes "new"
    ∷ codes "old"
    ∷ codes "or"
    ∷ codes "pass"
    ∷ codes "reject"
    ∷ codes "stdin"
    ∷ []

abbrev pub scalars : List (Bytes × ℕ)
scalars =
    (codes "seconds", 1)
    ∷ (codes "minutes", 60)
    ∷ (codes "hours", 60 * 60)
    ∷ (codes "days", 60 * 60 * 24)
    ∷ (codes "weeks", 60 * 60 * 24 * 7)
    ∷ (codes "months", 60 * 60 * 24 * 30)
    ∷ (codes "years", 60 * 60 * 24 * 365)
    ∷ []

unfoldable pub is_keyword : Bytes → List Bytes → Bool
unfolding bytes_eq
is_keyword lexeme [] = false
is_keyword lexeme (k ∷ ks) = bytes_eq lexeme k || is_keyword lexeme ks

-- The loop over the scalars: `match` and `ambiguous` at its end.
unfoldable pub find_scalar : Bytes → Option ℕ → ℕ → List (Bytes × ℕ) → Option ℕ × ℕ
unfolding starts_with
find_scalar lexeme match ambiguous [] = (match, ambiguous)
find_scalar lexeme match ambiguous ((str, val) ∷ l) =
    let first = find_scalar lexeme (some val) ambiguous l in
    let again = find_scalar lexeme (some val) (ambiguous + 1) l in
    let rest = find_scalar lexeme match ambiguous l in
    if not (starts_with lexeme str) then rest else elim match [ none ↦ first | some m ↦ again ]

-- A token with its value. An ambiguous scalar has none of its own.
pub data Token : Type 0 where
  end_of_file negation : Token
  string macro_name keyword : Bytes → Token
  pattern : Bytes → PatternFlags → Token
  int scalar character : ℕ → Token
  ambiguous_scalar : Token

-- A token, the errors that are counted while it is read, and what follows it.
pub record Lexed : Type 0 where
  pub token : Token
  pub errors : ℕ
  pub rest : Bytes

-- The buffer is read as a C string, which ends at the first NUL of the file, if there is one.
unfoldable pub lexed_string : Text → Lexed
lexed_string (text buf s) = record {
  token = string (c_string buf);
  errors = if length (c_string buf) == 0 then 1 else 0;
  rest = s;
}
lexed_string unterminated = record { token = end_of_file; errors = 1; rest = [] }
lexed_string (too_long s) = record { token = end_of_file; errors = 1; rest = s }

abbrev no_pattern_flags : PatternFlags
no_pattern_flags = record { icase = false; lcase = false; ucase = false }

unfoldable pub lexed_pattern : Text → Lexed
unfolding lex_flags
lexed_pattern (text buf s) =
    let (errors, flags, rest) = lex_flags no_pattern_flags s in
    record { token = pattern (c_string buf) flags; errors = errors; rest = rest }
lexed_pattern unterminated = record { token = end_of_file; errors = 1; rest = [] }
lexed_pattern (too_long s) = record { token = end_of_file; errors = 1; rest = s }

unfoldable pub scalar_token : Option ℕ × ℕ → Bytes → Token × ℕ
scalar_token (match, suc n) lexeme = (ambiguous_scalar, 1)
scalar_token (some val, zero) lexeme = (scalar val, 0)
scalar_token (none, zero) lexeme = (macro_name lexeme, 0)

-- A word is a keyword, a scalar where one may stand, or a macro.
unfoldable pub word_token : Bool → Bytes → Token × ℕ
unfolding is_keyword find_scalar scalar_token
word_token sflag lexeme =
    if is_keyword lexeme keywords
    then (keyword lexeme, 0)
    else if sflag
    then scalar_token (find_scalar lexeme none 0 scalars) lexeme
    else (macro_name lexeme, 0)

unfoldable pub lexed_word : Bool → Word → Lexed
unfolding word_token
lexed_word sflag (long_word s) = record { token = end_of_file; errors = 1; rest = s }
lexed_word sflag (word lexeme s) =
    let (token, errors) = word_token sflag lexeme in
    record { token = token; errors = errors; rest = s }

unfoldable pub lexed_int : ℕ × ℕ × Bytes → Lexed
lexed_int (errors, number, s) = record { token = int number; errors = errors; rest = s }

-- Blanks and comments; a word that was taken for a macro is an error unless `=` follows. The errors and
-- what follows.
unfoldable pub skip_blank : Bool → Bool → Bytes → ℕ × Bytes
unfolding is_space
skip_blank last_macro true [] = (0, [])
skip_blank last_macro true (c ∷ s) =
    let rest = skip_blank last_macro true s in
    let again = skip_blank last_macro false s in if c == 10 then again else rest
skip_blank last_macro false [] = ((if last_macro then 1 else 0), [])
skip_blank last_macro false (c ∷ s) =
    let rest = skip_blank last_macro false s in
    let comment = skip_blank last_macro true s in
    let n = if last_macro && not (c == b'=') then 1 else 0 in
    if is_space c then rest else if c == b'#' then (n + comment.0, comment.1) else (n, c ∷ s)

-- The token that starts with the byte `c`.
unfoldable pub lex_token : ℕ → Bool → Bool → ℕ → Bytes → Lexed
unfolding lexed_string lexed_pattern lex_text lexed_int lex_number lexed_word lex_word is_digit
    is_lower
lex_token bufsiz sflag pflag c s =
    if c == b'!'
    then record { token = negation; errors = 0; rest = s }
    else if c == 34
    then lexed_string (lex_text bufsiz 34 false [] s)
    else if pflag
    then lexed_pattern (lex_text bufsiz c false [] s)
    else if is_digit c
    then lexed_int (lex_number false 0 (c ∷ s))
    else if is_lower c
    then lexed_word sflag (lex_word bufsiz [] (c ∷ s))
    else record { token = character c; errors = 0; rest = s }

unfoldable pub lexed_behind : ℕ → Bool → Bool → ℕ × Bytes → Lexed
unfolding lex_token
lexed_behind bufsiz sflag pflag (n, []) = record { token = end_of_file; errors = n; rest = [] }
lexed_behind bufsiz sflag pflag (n, c ∷ s) =
    let l = lex_token bufsiz sflag pflag c s in
    record { token = l.token; errors = n + l.errors; rest = l.rest }

-- `yylex1`; `last_macro` is whether the last token was a macro.
unfoldable pub yylex1 : ℕ → Bool → Bool → Bool → Bytes → Lexed
unfolding skip_blank lexed_behind
yylex1 bufsiz sflag pflag last_macro s =
    lexed_behind bufsiz sflag pflag (skip_blank last_macro false s)
