-- ===== src/Eval/Effects.antt =====
-- The matchers of expr.c that ask the system: commands, directories and dates.
use mdsort.Base.{
  ℕ, Bool, true, false, not, Option, none, some, List, [], ◌∷◌, ◌++◌, Bytes, codes, leb, ◌==◌,
  if◌then◌else◌, length, get_elem?,
}
use mdsort.Base.Int.{ℤ, ◌-ℤ◌, lt_ℤ}
use mdsort.Util.{path_max}
use mdsort.DateTime.{time_parse}
use mdsort.Expr.{
  ExprType, ExprAttrs, DateCmp, cmp_lt, cmp_gt, DateField, field_header, field_access,
  field_modified,
}
use mdsort.Match.{Match, MatchList, match_alloc, matches_remove}
use mdsort.Message.{Message}
use mdsort.Message.Headers.{message_get_header1}
use mdsort.Interpolate.{Outcome, done, failed, crashed, match_interpolate}
use mdsort.Eval.State.{
  Ev, ev_match, ev_nomatch, ev_error, ev_crash, ExecStatus, exit_zero, exit_fatal, exit_code, Stat,
  System, Env, EvalState, Eval, path_of, append_with, no_init, first_string,
}
use mdsort.Eval.Leaves.{expr_regexec}

-- What stands in the list before the match at an address.
unfoldable pub list_before : ℕ → MatchList → MatchList
list_before id [] = []
list_before id (m ∷ ml) = if m.id == id then [] else m ∷ list_before id ml

abbrev drop_match : ℕ → EvalState → EvalState
drop_match id s = record s { ml = matches_remove s.ml id }

-- `match_interpolate` of a match that is not in use for an action, with no macros.
abbrev pub interpolate_bare : Match → ℕ → EvalState → Outcome (Match × Message)
interpolate_bare mh msg s = elim (get_elem? s.store msg) [
  | none ↦ crashed
  | some m ↦ match_interpolate (list_before mh.id s.ml) none mh m
]

-- A non-zero exit is not fatal.
unfoldable pub exec_ev : ExecStatus → Ev
exec_ev exit_zero = ev_match
exec_ev (exit_code n) = ev_nomatch
exec_ev exit_fatal = ev_error

module _ {Tm : Type 0} (sys : System Tm) (env : Env) where
  unfoldable pub run_command : List Bytes → EvalState → Ev × EvalState
  unfolding exec_ev
  run_command argv s = (exec_ev (sys.run s.ran argv), record s { ran = s.ran ++ argv ∷ [] })

  -- Behind the interpolation of the arguments.
  unfoldable pub command_result : ℕ → EvalState → Outcome (Match × Message) → Ev × EvalState
  unfolding run_command
  command_result id s crashed = (ev_crash, s)
  command_result id s failed = (ev_error, s)
  command_result id s (done (mh, m)) = run_command mh.argv s

  unfoldable pub command_appended : ExprAttrs → ℕ → ℕ → Bool × EvalState → Ev × EvalState
  unfolding match_alloc match_interpolate list_before command_result matches_remove
  command_appended attrs id msg (true, s) = (ev_error, s)
  command_appended attrs id msg (false, s) =
      let mh = match_alloc id ExprType.command attrs msg in
      let (ev, s') = command_result id s (interpolate_bare mh msg s) in (ev, drop_match id s')

  unfoldable pub expr_eval_command : ExprAttrs → Eval
  unfolding command_appended
  expr_eval_command attrs msg s =
      command_appended attrs s.next msg (append_with no_init ExprType.command attrs msg s)

  -- Behind the interpolation of the path.
  unfoldable pub stat_result : Bytes → EvalState → Ev
  stat_result path s = elim (sys.stat s.ran path) [
    | none ↦ ev_nomatch
    | some st ↦ if st.is_dir then ev_match else ev_nomatch
  ]

  unfoldable pub stat_path : Bytes → ExprAttrs → ℕ → ℕ → EvalState → Ev
  unfolding match_alloc match_interpolate list_before stat_result
  stat_path str attrs id msg s =
      if leb path_max (length str)
      then ev_error
      else let mh = record (match_alloc id ExprType.stat attrs msg) { path = str } in
        elim (interpolate_bare mh msg s) [
          | crashed ↦ ev_crash
          | failed ↦ ev_error
          | done (mh', _) ↦ stat_result mh'.path s
        ]

  unfoldable pub stat_ev : ExprAttrs → ℕ → ℕ → EvalState → Option Bytes → Ev
  unfolding stat_path
  stat_ev attrs id msg s none = ev_crash
  stat_ev attrs id msg s (some str) = stat_path str attrs id msg s

  unfoldable pub stat_appended : ExprAttrs → ℕ → ℕ → Bool × EvalState → Ev × EvalState
  unfolding stat_ev matches_remove
  stat_appended attrs id msg (true, s) = (ev_error, drop_match id s)
  stat_appended attrs id msg (false, s) =
      (stat_ev attrs id msg s (first_string attrs), drop_match id s)

  unfoldable pub expr_eval_stat : ExprAttrs → Eval
  unfolding stat_appended
  expr_eval_stat attrs msg s =
      stat_appended attrs s.next msg (append_with no_init ExprType.stat attrs msg s)

  -- The age is compared with the time between now and the date.
  unfoldable pub date_fits : DateCmp → ℤ → ℤ → Bool
  unfolding ◌-ℤ◌
  date_fits cmp_lt age tim = lt_ℤ (env.now -ℤ tim) age
  date_fits cmp_gt age tim = lt_ℤ age (env.now -ℤ tim)

  unfoldable pub compare_date : ExprAttrs → ℤ → Bytes → Eval
  unfolding date_fits expr_regexec
  compare_date attrs tim date msg s =
      if not (date_fits attrs.date_cmp attrs.date_age tim)
      then (ev_nomatch, s)
      else expr_regexec sys env ExprType.date attrs (codes "Date") date msg s

  abbrev stat_time : DateField → Stat → ℤ
  stat_time field_access st = st.atim
  stat_time field_modified st = st.mtim
  stat_time _ st = st.ctim

  unfoldable pub parsed_date : ExprAttrs → Bytes → ℕ → Option ℤ × EvalState → Ev × EvalState
  unfolding compare_date
  parsed_date attrs date msg (none, s) = (ev_error, s)
  parsed_date attrs date msg (some tim, s) = compare_date attrs tim date msg s

  unfoldable pub header_date : ExprAttrs → Option Bytes → Eval
  unfolding time_parse parsed_date
  header_date attrs none msg s = (ev_nomatch, s)
  header_date attrs (some date) msg s =
      let (parsed, tz_var) = time_parse sys.clock date env.tz s.tz_var in
      parsed_date attrs date msg (parsed, record s { tz_var = tz_var })

  -- The `Date` header.
  unfoldable pub date_of_header : ExprAttrs → Option Message → Eval
  unfolding message_get_header1 header_date
  date_of_header attrs none msg s = (ev_crash, s)
  date_of_header attrs (some m) msg s =
      header_date attrs (message_get_header1 m (codes "Date")) msg s

  unfoldable pub formatted_date : ExprAttrs → ℤ → Option Bytes → Eval
  unfolding compare_date
  formatted_date attrs tim none msg s = (ev_error, s)
  formatted_date attrs tim (some date) msg s = compare_date attrs tim date msg s

  unfoldable pub file_date : ExprAttrs → Option Stat → Eval
  unfolding formatted_date
  file_date attrs none msg s = (ev_error, s)
  file_date attrs (some st) msg s =
      let tim = stat_time attrs.date_field st in
      formatted_date attrs tim (sys.clock.strftime s.tz_var tim) msg s

  -- A time of the message's file.
  unfoldable pub date_of_file : ExprAttrs → Eval
  unfolding file_date
  date_of_file attrs msg s = file_date attrs (sys.stat s.ran (path_of msg s)) msg s

  unfoldable pub date_in : DateField → ExprAttrs → Eval
  unfolding date_of_header date_of_file
  date_in field_header attrs msg s = date_of_header attrs (get_elem? s.store msg) msg s
  date_in _ attrs msg s = date_of_file attrs msg s

  unfoldable pub expr_eval_date : ExprAttrs → Eval
  unfolding date_in
  expr_eval_date attrs msg s = date_in attrs.date_field attrs msg s
