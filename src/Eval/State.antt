-- ===== src/Eval/State.antt =====
-- What the evaluation of an expression reads and changes, and the leaves that add a match.
use mdsort.Base.{
  ℕ, suc, ◌-◌, ◌^◌, Bool, Option, none, some, List, [], ◌∷◌, map, Bytes, if◌then◌else◌, get_elem?,
  take, drop, to_lower, to_upper,
}
use mdsort.Base.Int.{ℤ}
use mdsort.DateTime.{Clock}
pub use mdsort.Environment.{Env}
use mdsort.Expr.{ExprType, ExprAttrs, ExprRegex}
use mdsort.Match.{Submatch, Match, MatchList, match_alloc, matches_append, update_match}
use mdsort.Message.Body.{Store}

-- EXPR_MATCH, EXPR_NOMATCH and EXPR_ERROR; `ev_crash` is a read through a null pointer.
pub data Ev : Type 0 where
  ev_match ev_nomatch ev_error ev_crash : Ev

-- The answer of regexec(3), with the offsets of each subexpression, `none` for -1.
pub data RegResult : Type 0 where
  reg_ok : List (Option (ℕ × ℕ)) → RegResult
  reg_nomatch reg_error : RegResult

-- The answer of `exec`: zero, a positive number, or a fatal error.
pub data ExecStatus : Type 0 where
  exit_zero exit_fatal : ExecStatus
  exit_code : ℕ → ExecStatus

pub record Stat : Type 0 where
  pub is_dir : Bool
  pub atim : ℤ
  pub mtim : ℤ
  pub ctim : ℤ

-- What the evaluation reads of the system.
pub record System (Tm : Type 0) : Type 0 where
  pub regexec : Bytes → Bool → Bytes → RegResult
  pub run : List (List Bytes) → List Bytes → ExecStatus
  pub stat : List (List Bytes) → Bytes → Option Stat
  pub clock : Clock Tm

-- The match list, the messages, the next fresh address, the commands run and the TZ variable.
pub record EvalState : Type 0 where
  pub ml : MatchList
  pub store : Store
  pub next : ℕ
  pub ran : List (List Bytes)
  pub tz_var : Option Bytes

-- Evaluation on the message at an address.
abbrev pub Eval : Type 0
Eval = ℕ → EvalState → Ev × EvalState

abbrev pub path_of : ℕ → EvalState → Bytes
path_of msg s = elim (get_elem? s.store msg) [ none ↦ [] | some m ↦ m.path ]

-- `match_alloc` and `matches_append`, with the members set in between.
unfoldable pub append_with :
    (Match → Match) → ExprType → ExprAttrs → ℕ → EvalState → Bool × EvalState
unfolding matches_append match_alloc
append_with init type attrs msg s =
    let (error, ml) =
      matches_append (path_of msg s) s.ml (init (match_alloc s.next type attrs msg)) in
    (error, record s { ml = ml; next = suc s.next })

abbrev pub no_init : Match → Match
no_init m = m

-- `expr_match`
unfoldable pub expr_match : ExprType → ExprAttrs → Eval
expr_match type attrs msg s =
    let (error, s') = append_with no_init type attrs msg s in
    ((if error then ev_error else ev_match), s')

-- tolower(3) and toupper(3) over a copy, as the propagated flags say.
unfoldable pub change_case : ExprRegex → Bytes → Bytes
unfolding to_lower to_upper
change_case re cpy =
    let lowered = if re.lcase then map to_lower cpy else cpy in
    if re.ucase then map to_upper lowered else lowered

-- One element of `mh_matches`. An offset of -1 is the largest size_t.
unfoldable pub submatch : ExprRegex → Bytes → Option (ℕ × ℕ) → Submatch
unfolding change_case
submatch re str none = record { str = []; beg = 2 ^ 64 - 1; end = 2 ^ 64 - 1 }
submatch re str (some (so, eo)) = record {
  str = change_case re (take (eo - so) (drop so str));
  beg = so;
  end = eo;
}

unfoldable pub expr_regcopy : ExprRegex → Bytes → List (Option (ℕ × ℕ)) → Match → Match
unfolding submatch
expr_regcopy re str offsets m = record m { matches = map (submatch re str) offsets }

abbrev pub set_key_val : Bool → Bytes → Bytes → Match → Match
set_key_val dryrun key val m = if dryrun then record m { key = some key; val = some val } else m

abbrev pub update_state : ℕ → (Match → Match) → EvalState → EvalState
update_state id f s = record s { ml = update_match id f s.ml }

-- The first value of a list of strings, which `LIST_FIRST(ex->ex_strings)->val` reads.
abbrev pub first_string : ExprAttrs → Option Bytes
first_string attrs = elim attrs.strings [ [] ↦ none | str ∷ _ ↦ some str ]

-- In a loop: no match goes on, and a match or an error ends it.
unfoldable pub unless_nomatch : (EvalState → Ev × EvalState) → Ev × EvalState → Ev × EvalState
unless_nomatch next (ev_nomatch, s) = next s
unless_nomatch next (other, s) = (other, s)
