-- ===== src/Main/Handle.antt =====
-- `handle_message` of mdsort.c: a message is read, the expression is evaluated on it, and the matches
-- are interpolated, shown and executed.
use mdsort.Base.{
  ℕ, Bool, true, false, Option, none, some, List, [], ◌∷◌, ◌++◌, Bytes, if◌then◌else◌,
}
use mdsort.Environment.{Env}
use mdsort.Expr.{Expr}
use mdsort.Match.{MatchList}
use mdsort.Interpolate.{Outcome, done, failed, crashed, matches_interpolate}
use mdsort.Message.{Message}
use mdsort.Message.File.{message_parse}
use mdsort.Message.Body.{Store}
use mdsort.Eval.State.{Ev, ev_match, ev_nomatch, ev_error, ev_crash, ExecStatus, System, EvalState}
use mdsort.Eval.Node.{expr_eval}
use mdsort.Maildir.{Maildir, Entry, Os, World}
use mdsort.Maildir.Calls.{call}
use mdsort.Exec.{
  Input, ExecState, ExecCode, exec_success, exec_rejected, exec_error, exec_gone, matches_exec,
}

-- The files, the TZ variable, the commands that were run as conditions and as actions, and `error`
-- and `reject` of `main`.
pub record Run : Type 0 where
  pub world : World
  pub tz_var : Option Bytes
  pub asked : List (List Bytes)
  pub ran : List (List Bytes × Input)
  pub error : Bool
  pub reject : Bool

-- The program goes on, or it has ended within a call.
pub data Handled : Type 0 where
  back died : Run → Handled

unfoldable pub with_error : Run → Run
with_error st = record st { error = true }

unfoldable pub after_exec : Run → ExecCode × ExecState → Handled
unfolding with_error
after_exec st (exec_success, e) = back (record st { world = e.world; ran = st.ran ++ e.ran })
after_exec st (exec_rejected, e) =
    back (record st { world = e.world; ran = st.ran ++ e.ran; reject = true })
after_exec st (exec_error, e) =
    back (with_error (record st { world = e.world; ran = st.ran ++ e.ran }))
after_exec st (exec_gone, e) = died (record st { world = e.world; ran = st.ran ++ e.ran })

module _ {Tm : Type 0} (sys : System Tm) (os : Os) (run : ℕ → List Bytes → Input → ExecStatus)
    (env : Env) where
  -- `matches_inspect` returns whether this is a dry run.
  unfoldable pub message_executed : Maildir → Run → Outcome (MatchList × Store) → Handled
  unfolding after_exec matches_exec with_error
  message_executed md st failed = back (with_error st)
  message_executed md st crashed = died st
  message_executed md st (done (ml, store)) =
      if env.dryrun then back st else after_exec st (matches_exec os run env ml md store st.world)

  unfoldable pub message_evaluated : Maildir → Run → Ev × EvalState → Handled
  unfolding message_executed matches_interpolate with_error
  message_evaluated md st (ev_nomatch, s) = back (record st { tz_var = s.tz_var; asked = s.ran })
  message_evaluated md st (ev_error, s) =
      back (with_error (record st { tz_var = s.tz_var; asked = s.ran }))
  message_evaluated md st (ev_crash, s) = died (record st { tz_var = s.tz_var; asked = s.ran })
  message_evaluated md st (ev_match, s) =
      message_executed md (record st { tz_var = s.tz_var; asked = s.ran })
        (matches_interpolate s.ml s.store)

  unfoldable pub message_parsed : Expr → Maildir → Run → Option Message → Handled
  unfolding message_evaluated expr_eval with_error
  message_parsed expr md st none = back (with_error st)
  message_parsed expr md st (some msg) = message_evaluated md st (
      expr_eval sys env expr 0
        (record { ml = []; store = msg ∷ []; next = 0; ran = st.asked; tz_var = st.tz_var }))

  -- The content of the file, if it is there.
  unfoldable pub message_read : Expr → Maildir → Entry → ℕ → Run → Option Bytes → Handled
  unfolding message_parsed message_parse with_error
  message_read expr md me fd st none = back (with_error st)
  message_read expr md me fd st (some content) =
      message_parsed expr md st (message_parse me.dir me.path fd content)

  -- openat(2) of the file at `fd`, and its reading.
  unfoldable pub message_opened : Expr → Maildir → Entry → ℕ → Run → Bool × World → Handled
  unfolding message_read with_error
  message_opened expr md me fd st (true, w) = back (with_error (record st { world = w }))
  message_opened expr md me fd st (false, w) =
      message_read expr md me fd (record st { world = w }) (w.files me.dir me.path)

  unfoldable pub message_found : Expr → Maildir → Entry → ℕ → Run → Bool × World → Handled
  unfolding message_opened call with_error
  message_found expr md me fd st (true, w) = back (with_error (record st { world = w }))
  message_found expr md me fd st (false, w) = message_opened expr md me fd st (call os w)

  unfoldable pub handle_message : Expr → Maildir → Entry → Run → Handled
  unfolding message_found call
  handle_message expr md me st = message_found expr md me st.world.calls st (call os st.world)
