-- ===== src/Eval/Leaves.antt =====
-- The matchers and the actions of expr.c.
use mdsort.Base.{
  ℕ, ◌+◌, Bool, true, false, Option, none, some, List, [], ◌∷◌, Bytes, codes, leb, if◌then◌else◌,
  length, get_elem?, set, bytes_eq,
}
use mdsort.Base.Int.{negsuc}
use mdsort.Util.{path_max, name_max, pathslice}
use mdsort.Expr.{ExprType, ExprAttrs, ExprRegex}
use mdsort.Match.{Match, update_match}
use mdsort.Message.{Message, MessageFlags}
use mdsort.Message.Flags.{message_flags_isset, message_flags_set}
use mdsort.Message.Headers.{message_get_header}
use mdsort.Message.Body.{message_get_body}
use mdsort.Eval.State.{
  Ev, ev_match, ev_nomatch, ev_error, ev_crash, RegResult, reg_ok, reg_nomatch, reg_error, System,
  Env, EvalState, Eval, path_of, append_with, no_init, unless_nomatch, expr_match, expr_regcopy,
  set_key_val, update_state, first_string,
}

-- Adding a match with one member set, unless its value does not fit.
unfoldable pub append_sized : ℕ → Bytes → (Match → Match) → ExprType → ExprAttrs → Eval
append_sized siz str init type attrs msg s =
    if leb siz (length str)
    then (ev_error, s)
    else let (error, s') = append_with init type attrs msg s in
      ((if error then ev_error else ev_match), s')

unfoldable pub expr_eval_flag : ExprAttrs → Eval
unfolding append_sized
expr_eval_flag attrs msg s = elim (first_string attrs) [
  | none ↦ (ev_crash, s)
  | some subdir ↦
      append_sized (name_max + 1) subdir (λ m. record m { subdir = subdir }) ExprType.flag attrs msg
        s
]

unfoldable pub expr_eval_move : ExprAttrs → Eval
unfolding append_sized
expr_eval_move attrs msg s = elim (first_string attrs) [
  | none ↦ (ev_crash, s)
  | some maildir ↦
      append_sized path_max maildir (λ m. record m { maildir = maildir }) ExprType.move attrs msg s
]

-- Every flag of a string is set; an unknown one is an error, and the others are set all the same.
unfoldable pub set_flags : MessageFlags → Bytes → Bool × MessageFlags
unfolding message_flags_set
set_flags mf [] = (false, mf)
set_flags mf (c ∷ s) = elim (message_flags_set mf c) [
  | none ↦ (true, (set_flags mf s).1)
  | some mf' ↦ set_flags mf' s
]

unfoldable pub expr_eval_flags : ExprAttrs → Eval
unfolding set_flags expr_match
expr_eval_flags attrs msg s = elim (first_string attrs) [
  | none ↦ (ev_crash, s)
  | some str ↦ elim (get_elem? s.store msg) [
    | none ↦ (ev_crash, s)
    | some m ↦
        let (error, mf) = set_flags m.mflags str in
        let s' = record s { store = set s.store msg (record m { mflags = mf }) } in
        if error then (ev_error, s') else expr_match ExprType.flags attrs msg s'
  ]
]

-- An expression that adds itself and says no match: the rest of the actions is not evaluated.
unfoldable pub expr_eval_pass : ExprAttrs → Eval
expr_eval_pass attrs msg s =
    let (error, s') = append_with no_init ExprType.pass attrs msg s in
    ((if error then ev_error else ev_nomatch), s')

-- The name of the directory that the message stands in.
abbrev pub in_subdir : Bytes → ℕ → EvalState → Bool
in_subdir name msg s = elim (pathslice (path_of msg s) (name_max + 1) (negsuc 1) (negsuc 1)) [
  | none ↦ false
  | some buf ↦ bytes_eq buf name
]

unfoldable pub expr_eval_new : Eval
unfolding pathslice bytes_eq
expr_eval_new msg s = ((if in_subdir (codes "new") msg s then ev_match else ev_nomatch), s)

unfoldable pub old_ev : ℕ → EvalState → Option Message → Ev
unfolding pathslice bytes_eq message_flags_isset
old_ev msg s none = ev_crash
old_ev msg s (some m) =
    if message_flags_isset m.mflags b'S'
    then ev_nomatch
    else if in_subdir (codes "cur") msg s
    then ev_match
    else ev_nomatch

unfoldable pub expr_eval_old : Eval
unfolding old_ev
expr_eval_old msg s = (old_ev msg s (get_elem? s.store msg), s)

-- Behind the append of `expr_regexec`, the members that the match at an address is given.
unfoldable pub copy_matches :
    Bool → ExprRegex → Bytes → Bytes → List (Option (ℕ × ℕ)) → ℕ → Bool × EvalState → Ev × EvalState
unfolding update_match expr_regcopy
copy_matches dryrun re key val offsets id (true, s) = (ev_error, s)
copy_matches dryrun re key val offsets id (false, s) =
    (ev_match, update_state id (λ m. set_key_val dryrun key val (expr_regcopy re val offsets m)) s)

-- The values of a header of the message, none where `message_get_header` gives NULL.
abbrev pub values_of : ℕ → EvalState → Bytes → List Bytes
values_of msg s key = elim (get_elem? s.store msg) [
  | none ↦ []
  | some m ↦ elim (message_get_header m key) [ none ↦ [] | some vs ↦ vs ]
]

module _ {Tm : Type 0} (sys : System Tm) (env : Env) where
  -- `expr_regexec`, behind a match of the pattern.
  unfoldable pub regexec_matched :
      ExprType → ExprAttrs → ExprRegex → Bytes → Bytes → List (Option (ℕ × ℕ)) → Eval
  unfolding copy_matches
  regexec_matched type attrs re key val offsets msg s =
      copy_matches env.dryrun re key val offsets s.next (append_with no_init type attrs msg s)

  -- The answers of regexec(3).
  unfoldable pub reg_result :
      ExprType → ExprAttrs → ExprRegex → Bytes → Bytes → ℕ → EvalState → RegResult → Ev × EvalState
  unfolding regexec_matched
  reg_result type attrs re key val msg s reg_nomatch = (ev_nomatch, s)
  reg_result type attrs re key val msg s reg_error = (ev_error, s)
  reg_result type attrs re key val msg s (reg_ok offsets) =
      regexec_matched type attrs re key val offsets msg s

  unfoldable pub regexec_with :
      ExprType → ExprAttrs → Bytes → Bytes → ℕ → EvalState → Option ExprRegex → Ev × EvalState
  unfolding reg_result
  regexec_with type attrs key val msg s none = (ev_crash, s)
  regexec_with type attrs key val msg s (some re) =
      reg_result type attrs re key val msg s (sys.regexec re.pattern re.icase val)

  unfoldable pub expr_regexec : ExprType → ExprAttrs → Bytes → Bytes → Eval
  unfolding regexec_with
  expr_regexec type attrs key val msg s = regexec_with type attrs key val msg s attrs.re

  unfoldable pub body_result : ExprAttrs → ℕ → Option Bytes × EvalState → Ev × EvalState
  unfolding expr_regexec
  body_result attrs msg (none, s) = (ev_error, s)
  body_result attrs msg (some text, s) = expr_regexec ExprType.body attrs (codes "Body") text msg s

  unfoldable pub expr_eval_body : ExprAttrs → Eval
  unfolding body_result message_get_body
  expr_eval_body attrs msg s =
      let (body, store) = message_get_body msg s.store in
      body_result attrs msg (body, record s { store = store })

  -- The values of one header: the first match or error ends the loop.
  unfoldable pub header_values : ExprAttrs → Bytes → List Bytes → Eval
  unfolding expr_regexec unless_nomatch
  header_values attrs key [] msg s = (ev_nomatch, s)
  header_values attrs key (v ∷ vs) msg s =
      unless_nomatch (header_values attrs key vs msg)
        (expr_regexec ExprType.header attrs key v msg s)

  unfoldable pub header_keys : ExprAttrs → List Bytes → Eval
  unfolding header_values message_get_header unless_nomatch
  header_keys attrs [] msg s = (ev_nomatch, s)
  header_keys attrs (k ∷ ks) msg s =
      unless_nomatch (header_keys attrs ks msg) (header_values attrs k (values_of msg s k) msg s)

  unfoldable pub expr_eval_header : ExprAttrs → Eval
  unfolding header_keys
  expr_eval_header attrs msg s = header_keys attrs attrs.strings msg s
