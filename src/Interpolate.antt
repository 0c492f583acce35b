-- ===== src/Interpolate.antt =====
-- Back-references and macros in the strings of actions: the interpolation of match.c.
pub mod Plain
pub mod Extent
pub mod Safe
use mathlib.Core.Option
use mdsort.Base.{
  ℕ, zero, suc, ◌+◌, ◌-◌, ◌*◌, ◌%◌, ◌^◌, Bool, true, false, not, ◌&&◌, ◌||◌, Option, none, some,
  List, [], ◌∷◌, ◌++◌, map, Bytes, codes, ltb, leb, ◌==◌, if◌then◌else◌, length, get_elem?, set,
  keep, is_digit, is_space, skip_while,
}
use mdsort.Util.{path_max}
use mdsort.Macro.{
  MacroList, IsMacro, no_macro, unterminated, macro, ismacro, macros_find, macros_alloc,
  macros_insertc, ctx_action,
}
use mdsort.Expr.{ExprType, type_eq, ex_flags, ExprAttrs}
use mdsort.Match.{Submatch, Match, MatchList, is_type}
use mdsort.Message.{Message}
use mdsort.Message.Headers.{message_get_header, message_set_header}
use mdsort.Message.Body.{Store}

-- A step that gives a value, that fails with a warning, or that reads through a null pointer.
pub data Outcome {ℓ} (A : Type ℓ) : Type ℓ where
  done : A → Outcome A
  failed crashed : Outcome A

infixl 5 ◌>>=◌
abbrev pub ◌>>=◌ {ℓ κ} : {A : Type ℓ} {B : Type κ} → Outcome A → (A → Outcome B) → Outcome B
done a >>= f = f a
failed >>= f = failed
crashed >>= f = crashed

-- INT_MAX and ULONG_MAX.
abbrev pub int_max : ℕ
int_max = 2 ^ 31 - 1

abbrev pub ulong_max : ℕ
ulong_max = 2 ^ 64 - 1

-- The digits of strtoul(3): their value and what follows.
unfoldable pub digits_value : ℕ → Bytes → ℕ × Bytes
unfolding is_digit
digits_value acc [] = (acc, [])
digits_value acc (c ∷ s) =
    let more = digits_value (acc * 10 + (c - b'0')) s in if is_digit c then more else (acc, c ∷ s)

abbrev starts_digit : Bytes → Bool
starts_digit [] = false
starts_digit (c ∷ s) = is_digit c

-- Behind the sign. With no digit nothing is consumed of `whole`.
unfoldable pub strtoul_digits : Bytes → Bool → Bytes → ℕ × Bytes
unfolding digits_value is_digit
strtoul_digits whole negative s =
    if not (starts_digit s)
    then (0, whole)
    else let (n, rest) = digits_value 0 s in
      if ltb ulong_max n
      then (ulong_max, rest)
      else if negative
      then ((2 ^ 64 - n) % 2 ^ 64, rest)
      else (n, rest)

-- strtoul(3) in base 10: the value and `end`.
unfoldable pub strtoul : Bytes → ℕ × Bytes
unfolding strtoul_digits skip_while is_space
strtoul str = elim (skip_while is_space str) [
  | [] ↦ (0, str)
  | c ∷ s ↦
      if c == b'-'
      then strtoul_digits str true s
      else if c == b'+'
      then strtoul_digits str false s
      else strtoul_digits str false (c ∷ s)
]

-- The three answers of `isbackref`: 0, -1, or a length with the match and the subexpression.
pub data IsBackref : Type 0 where
  no_backref bad_backref : IsBackref
  backref : ℕ → ℕ → ℕ → IsBackref

abbrev pub backslash : ℕ
backslash = 92

abbrev starts_dot : Bytes → Bool
starts_dot [] = false
starts_dot (c ∷ s) = c == b'.'

-- Behind the first number, which is `n`; `total` is the length of the whole string.
unfoldable pub isbackref_tail : ℕ → ℕ → Bytes → IsBackref
isbackref_tail total n [] = backref total 0 n
isbackref_tail total n (c ∷ s) =
    if c == b'.'
    then (let (m, rest) = strtoul s in
        if ltb int_max m then bad_backref else backref (total - length rest) n m)
    else if c == backslash && starts_dot s
    then backref (total - length s) 0 n
    else backref (total - suc (length s)) 0 n

unfoldable pub isbackref : Bytes → IsBackref
unfolding isbackref_tail
isbackref (b ∷ d ∷ s) =
    if not (b == backslash) || not (is_digit d)
    then no_backref
    else let (n, rest) = strtoul (d ∷ s) in
      if ltb int_max n then bad_backref else isbackref_tail (length (b ∷ d ∷ s)) n rest
isbackref _ = no_backref

-- What stands in the list behind its last sentinel of type `match`.
unfoldable pub since_sentinel : MatchList → Option MatchList
since_sentinel [] = none
since_sentinel (m ∷ ml) = elim (since_sentinel ml) [
  | some seg ↦ some seg
  | none ↦ if is_type ExprType.match m then some ml else none
]

abbrev pub can_interpolate : Match → Bool
can_interpolate m = (ex_flags m.type).is_interpolate

-- `match_backref` of a match, given what stands before it in the list.
unfoldable pub match_backref : MatchList → ℕ → ℕ → Option Bytes
unfolding since_sentinel
match_backref before mi si = elim (since_sentinel before) [
  | none ↦ none
  | some seg ↦ elim (get_elem? (keep can_interpolate seg) mi) [
    | none ↦ none
    | some m ↦ Option.map (λ sub. sub.str) (get_elem? m.matches si)
  ]
]

-- The value of a macro; `macros` is NULL where there is no list.
unfoldable pub macro_value : Option MacroList → Bytes → Outcome Bytes
unfolding macros_find
macro_value none name = crashed
macro_value (some macros) name = elim (macros_find macros name) [
  | none ↦ failed
  | some mc ↦ done mc.value
]

-- What stands at the front of a string: one byte, or the length and text of a substitution.
unfoldable pub interpolate_at : MatchList → Option MacroList → Bytes → Outcome (Option (ℕ × Bytes))
unfolding isbackref match_backref ismacro macro_value
interpolate_at before macros str = elim (isbackref str) [
  | bad_backref ↦ failed
  | backref n mi si ↦ elim (match_backref before mi si) [
    | none ↦ failed
    | some sub ↦ done (some (n, sub))
  ]
  | no_backref ↦ elim (ismacro str) [
    | unterminated ↦ failed
    | no_macro ↦ done none
    | macro n name ↦ do value ← macro_value macros name; done (some (n, value))
  ]
]

-- The loop: `skip` bytes belong to what has been substituted.
unfoldable pub interpolate_loop : MatchList → Option MacroList → ℕ → Bytes → Bytes → Outcome Bytes
unfolding interpolate_at
interpolate_loop before macros skip [] bf = done bf
interpolate_loop before macros (suc skip) (c ∷ s) bf = interpolate_loop before macros skip s bf
interpolate_loop before macros zero (c ∷ s) bf = elim (interpolate_at before macros (c ∷ s)) [
  | failed ↦ failed
  | crashed ↦ crashed
  | done none ↦ interpolate_loop before macros zero s (bf ++ c ∷ [])
  | done (some (n, sub)) ↦ interpolate_loop before macros (n - 1) s (bf ++ sub)
]

unfoldable pub interpolate : MatchList → Option MacroList → Bytes → Outcome Bytes
unfolding interpolate_loop
interpolate before macros str = interpolate_loop before macros zero str []

unfoldable pub interpolate_each : MatchList → Option MacroList → List Bytes → Outcome (List Bytes)
unfolding interpolate
interpolate_each before macros [] = done []
interpolate_each before macros (s ∷ ss) = do
  arg ← interpolate before macros s
  args ← interpolate_each before macros ss
  done (arg ∷ args)

-- The values joined by spaces, as the loop over the labels of the message writes them.
unfoldable pub join_labels : List Bytes → Bytes
join_labels [] = []
join_labels (l ∷ []) = l
join_labels (l ∷ m ∷ ls) = l ++ (b' ' ∷ join_labels (m ∷ ls))

-- The labels of the expression, each behind a space unless the buffer is empty.
unfoldable pub add_labels : Bytes → List Bytes → Bytes
add_labels bf [] = bf
add_labels [] (l ∷ ls) = add_labels l ls
add_labels (c ∷ bf) (l ∷ ls) = add_labels (c ∷ bf ++ (b' ' ∷ l)) ls

abbrev pub x_label : Bytes
x_label = codes "X-Label"

unfoldable pub label_text : Message → ExprAttrs → Bytes
unfolding message_get_header join_labels add_labels
label_text msg attrs = elim (message_get_header msg x_label) [
  | none ↦ add_labels [] attrs.strings
  | some labels ↦ add_labels (join_labels labels) attrs.strings
]

-- `match_interpolate`: the match and its message afterwards.
unfoldable pub match_interpolate :
    MatchList → Option MacroList → Match → Message → Outcome (Match × Message)
unfolding interpolate interpolate_each label_text message_set_header
match_interpolate before macros mh msg = elim mh.type [
  | ExprType.stat ↦ do
    path ← interpolate before macros mh.path
    if leb path_max (length path) then failed else done (record mh { path = path }, msg)
  | ExprType.move ↦ do
    path ← interpolate before macros mh.path
    if leb path_max (length path) then failed else done (record mh { path = path }, msg)
  | ExprType.label ↦ do
    label ← interpolate before macros (label_text msg mh.attrs)
    done (mh, message_set_header msg x_label label)
  | ExprType.command ↦ do
    argv ← interpolate_each before macros mh.attrs.strings
    done (record mh { argv = argv }, msg)
  | ExprType.exec ↦ do
    argv ← interpolate_each before macros mh.attrs.strings
    done (record mh { argv = argv }, msg)
  | ExprType.add_header ↦ do
    val ← interpolate before macros mh.attrs.header_val
    done (mh, message_set_header msg mh.attrs.header_key val)
  | _ ↦ done (mh, msg)
]

-- The loop of `matches_interpolate` over the list, of which `before` has been done.
unfoldable pub interpolate_list :
    MacroList → MatchList → MatchList → Store → Outcome (MatchList × Store)
unfolding match_interpolate
interpolate_list macros before [] st = done (before, st)
interpolate_list macros before (mh ∷ ml) st = elim (get_elem? st mh.msg) [
  | none ↦ crashed
  | some msg ↦ elim (match_interpolate before (some macros) mh msg) [
    | failed ↦ failed
    | crashed ↦ crashed
    | done (mh', msg') ↦ interpolate_list macros (before ++ mh' ∷ []) ml (set st mh.msg msg')
  ]
]

unfoldable pub matches_interpolate : MatchList → Store → Outcome (MatchList × Store)
unfolding interpolate_list macros_alloc macros_insertc
matches_interpolate [] st = crashed
matches_interpolate (mh ∷ ml) st = elim (get_elem? st mh.msg) [
  | none ↦ crashed
  | some msg ↦ elim (macros_insertc (macros_alloc ctx_action) (codes "path") msg.path) [
    | none ↦ failed
    | some macros ↦ interpolate_list macros [] (mh ∷ ml) st
  ]
]
