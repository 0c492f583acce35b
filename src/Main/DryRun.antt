-- ===== src/Main/DryRun.antt =====
-- What a run does not do: a dry run, and what is never taken back.
use mdsort.Base.{ℕ, Bool, true, false, Option, none, some, List, [], ◌∷◌, ◌≡◌, refl, ◌∙◌, Bytes}
use mdsort.Environment.{Env}
use mdsort.Expr.{Expr}
use mdsort.Match.{MatchList}
use mdsort.Interpolate.{Outcome, done, failed, crashed, matches_interpolate}
use mdsort.Message.{Message}
use mdsort.Message.File.{message_parse}
use mdsort.Message.Body.{Store}
use mdsort.Eval.State.{Ev, ev_match, ev_nomatch, ev_error, ev_crash, ExecStatus, System, EvalState}
use mdsort.Eval.Node.{expr_eval}
use mdsort.Maildir.{Maildir, Entry, Os, World}
use mdsort.Maildir.Calls.{call}
use mdsort.Maildir.Files.{if-cases}
use mdsort.Exec.{Input, ExecState, ExecCode, exec_success, exec_rejected, exec_error, exec_gone}
use mdsort.Main.{Config}
use mdsort.Main.Handle.{
  Run, with_error, after_exec, message_executed, message_evaluated, message_parsed, message_read,
  message_opened, message_found, handle_message,
}
use mdsort.Main.Walk.{run_configs}
use mdsort.Main.Laws.{Holding, HoldingAny, Kept, run_configs-Holding}

-- The handling of a message keeps a statement on the run that the execution of its matches keeps.
module _ {Tm : Type 0} (sys : System Tm) (os : Os) (run : ℕ → List Bytes → Input → ExecStatus)
    (env : Env) (K : Kept env)
    (evals : (st : Run) (v : Option Bytes) (asked : List (List Bytes))
      → K.I st
      → K.I (record st { tz_var = v; asked = asked }))
    (execs : (md : Maildir) (st : Run) (ml : MatchList) (store : Store)
      → K.I st
      → Holding K.I (message_executed sys os run env md st (done (ml, store)))) where
  message_executed-Holding :
      (md : Maildir) (st : Run) (o : Outcome (MatchList × Store))
      → K.I st
      → Holding K.I (message_executed sys os run env md st o)
  unfolding message_executed
  message_executed-Holding md st failed i = K.errors st i
  message_executed-Holding md st crashed i = i
  message_executed-Holding md st (done (ml, store)) i = execs md st ml store i

  message_evaluated-Holding :
      (md : Maildir) (st : Run) (r : Ev × EvalState)
      → K.I st
      → Holding K.I (message_evaluated sys os run env md st r)
  unfolding message_evaluated
  message_evaluated-Holding md st (ev_nomatch, s) i = evals st s.tz_var s.ran i
  message_evaluated-Holding md st (ev_error, s) i = K.errors _ (evals st s.tz_var s.ran i)
  message_evaluated-Holding md st (ev_crash, s) i = evals st s.tz_var s.ran i
  message_evaluated-Holding md st (ev_match, s) i =
      message_executed-Holding md (record st { tz_var = s.tz_var; asked = s.ran })
        (matches_interpolate s.ml s.store) (evals st s.tz_var s.ran i)

  message_parsed-Holding :
      (expr : Expr) (md : Maildir) (st : Run) (m : Option Message)
      → K.I st
      → Holding K.I (message_parsed sys os run env expr md st m)
  unfolding message_parsed
  message_parsed-Holding expr md st none i = K.errors st i
  message_parsed-Holding expr md st (some msg) i =
      message_evaluated-Holding md st
        (expr_eval sys env expr 0
          (record { ml = []; store = msg ∷ []; next = 0; ran = st.asked; tz_var = st.tz_var }))
        i

  message_read-Holding :
      (expr : Expr) (md : Maildir) (me : Entry) (fd : ℕ) (st : Run) (o : Option Bytes)
      → K.I st
      → Holding K.I (message_read sys os run env expr md me fd st o)
  unfolding message_read
  message_read-Holding expr md me fd st none i = K.errors st i
  message_read-Holding expr md me fd st (some content) i =
      message_parsed-Holding expr md st (message_parse me.dir me.path fd content) i

  message_opened-Holding :
      (expr : Expr) (md : Maildir) (me : Entry) (fd : ℕ) (st : Run) (p : Bool × World)
      → p.1.files ≡ st.world.files
      → K.I st
      → Holding K.I (message_opened sys os run env expr md me fd st p)
  unfolding message_opened
  message_opened-Holding expr md me fd st (true, w) f i = K.errors _ (K.ticks st w (λ _. f) i)
  message_opened-Holding expr md me fd st (false, w) f i =
      message_read-Holding expr md me fd (record st { world = w }) (w.files me.dir me.path)
        (K.ticks st w (λ _. f) i)

  handle_message-Holding :
      (expr : Expr) (md : Maildir) (me : Entry) (st : Run)
      → K.I st
      → Holding K.I (handle_message sys os run env expr md me st)
  unfolding handle_message message_found call
  handle_message-Holding expr md me st i = go (call os st.world) refl
    where
      go :
          (p : Bool × World)
          → p.1.files ≡ st.world.files
          → Holding K.I (message_found sys os run env expr md me st.world.calls st p)
      go (true, w) f = K.errors _ (K.ticks st w (λ _. f) i)
      go (false, w) f = message_opened-Holding expr md me st.world.calls st (call os w) f i

-- In a dry run the files and the commands run as actions stay as they are.
abbrev pub Unchanged : Run → Run → Type 0
Unchanged st st' = (st'.world.files ≡ st.world.files) × (st'.ran ≡ st.ran)

abbrev unchanged : (env : Env) → env.is_stdin ≡ false → Run → Kept env
unfolding with_error
unchanged env e st = record {
  I = Unchanged st;
  ticks = λ s w f i. (f e ∙ i.0, i.1);
  errors = λ s i. i;
}

-- A dry run over maildirs changes no file and runs no command of an action, however it ends.
pub run_configs-Unchanged :
    {Tm : Type 0} (sys : System Tm) (os : Os) (run : ℕ → List Bytes → Input → ExecStatus)
    (env : Env) (fuel : ℕ) (cl : List Config) (st : Run)
    → env.dryrun ≡ true
    → env.is_stdin ≡ false
    → HoldingAny (Unchanged st) (run_configs sys os run env fuel cl st)
unfolding unchanged with_error message_executed
run_configs-Unchanged sys os run env fuel cl st d e =
    run_configs-Holding sys os run env (unchanged env e st)
      (handle_message-Holding sys os run env (unchanged env e st) (λ s v a i. i)
        (λ md s ml store i. rw (message_executed, d) i))
      fuel cl st (refl, refl)

-- The error and the reject of a run.
abbrev pub Sticky : Run → Run → Type 0
Sticky st st' = (st.error ≡ true → st'.error ≡ true) × (st.reject ≡ true → st'.reject ≡ true)

abbrev sticky : (env : Env) → Run → Kept env
unfolding with_error
sticky env st = record { I = Sticky st; ticks = λ s w f i. i; errors = λ s i. (λ _. refl, i.1) }

after_exec-Sticky :
    (st s : Run) (r : ExecCode × ExecState) → Sticky st s → Holding (Sticky st) (after_exec s r)
unfolding after_exec with_error
after_exec-Sticky st s (exec_success, e) i = i
after_exec-Sticky st s (exec_rejected, e) i = (i.0, λ _. refl)
after_exec-Sticky st s (exec_error, e) i = (λ _. refl, i.1)
after_exec-Sticky st s (exec_gone, e) i = i

-- What has been set of `error` and `reject` is never taken back.
pub run_configs-Sticky :
    {Tm : Type 0} (sys : System Tm) (os : Os) (run : ℕ → List Bytes → Input → ExecStatus)
    (env : Env) (fuel : ℕ) (cl : List Config) (st : Run)
    → HoldingAny (Sticky st) (run_configs sys os run env fuel cl st)
unfolding sticky message_executed
run_configs-Sticky sys os run env fuel cl st =
    run_configs-Holding sys os run env (sticky env st)
      (handle_message-Holding sys os run env (sticky env st) (λ s v a i. i)
        (λ md s ml store i.
          if-cases env.dryrun (Holding (Sticky st)) i (after_exec-Sticky st s _ i)))
      fuel cl st (λ x. x, λ x. x)
