-- ===== src/Main/Evaluated.antt =====
-- The handling of a message when its expression is of admitted types.
use mdsort.Base.{
  ℕ, Bool, true, false, Option, none, some, List, [], ◌∷◌, ◌++◌, ◌≡◌, refl, sym, ap, Bytes,
}
use mdsort.Environment.{Env}
use mdsort.Expr.{ExprType, Expr}
use mdsort.Message.{Message}
use mdsort.Message.File.{message_parse}
use mdsort.Message.BodyKeeps.{Keeps-refl, Keeps-at}
use mdsort.Match.{MatchList}
use mdsort.Message.Body.{Store}
use mdsort.Interpolate.{Outcome, done, failed, crashed, matches_interpolate}
use mdsort.Eval.State.{Ev, ev_match, ev_nomatch, ev_error, ev_crash, ExecStatus, System, EvalState}
use mdsort.Eval.Confined.{Rules, Fits, Confined, AllAdmitted}
use mdsort.Eval.Confined.Nodes.{expr_eval-Confines}
use mdsort.Eval.Confined.Interpolated.{
  Giving, HasMail, Interpolated, matches_interpolate-Interpolated,
}
use mdsort.Maildir.{Maildir, Entry, Os, World}
use mdsort.Maildir.Calls.{call}
use mdsort.Exec.{Input}
use mdsort.Main.Handle.{
  Run, with_error, message_executed, message_evaluated, message_parsed, message_read,
  message_opened, message_found, handle_message,
}
use mdsort.Main.Laws.{Holding}

-- What the types that are admitted bring about in the handling of a message.
pub record Handling {Tm : Type 0} (sys : System Tm) (os : Os)
    (run : ℕ → List Bytes → Input → ExecStatus) (env : Env) (md : Maildir) (me : Entry) (st : Run)
    : Type 1 where
  pub Admits : ExprType → ℕ → Type 0
  pub Ran : List (List Bytes) → Type 0
  pub runs :
      (msg : ℕ) (ran : List (List Bytes)) (argv : List Bytes)
      → Admits ExprType.command msg
      → Ran ran
      → Ran (ran ++ argv ∷ [])
  pub I : Run → Type 0
  pub quits : (s : Run) → s.world.files ≡ st.world.files → s.ran ≡ st.ran → Ran s.asked → I s
  pub executes :
      (s : Run) (fd : ℕ) (content : Bytes) (msg : Message) (ml : MatchList) (store : Store)
      → s.world.files ≡ st.world.files
      → s.ran ≡ st.ran
      → Ran s.asked
      → st.world.files me.dir me.path ≡ some content
      → message_parse me.dir me.path fd content ≡ some msg
      → AllAdmitted Admits ml
      → HasMail store 0 msg
      → Holding I (message_executed sys os run env md s (done (ml, store)))

module _ {Tm : Type 0} (sys : System Tm) (os : Os) (run : ℕ → List Bytes → Input → ExecStatus)
    (env : Env) (md : Maildir) (me : Entry) (st : Run) (H : Handling sys os run env md me st) where
  -- The run before its expression is evaluated.
  abbrev Ready : Run → Type 0
  Ready s = (s.world.files ≡ st.world.files) × (s.ran ≡ st.ran) × H.Ran s.asked

  abbrev rules : Message → Rules
  rules msg = record { Admits = H.Admits; Ran = H.Ran; before = msg ∷ []; runs = H.runs }

  interpolated :
      (s : Run) (fd : ℕ) (content : Bytes) (msg : Message) (o : Outcome (MatchList × Store))
      → Ready s
      → st.world.files me.dir me.path ≡ some content
      → message_parse me.dir me.path fd content ≡ some msg
      → Giving (Interpolated H.Admits 0 msg) o
      → Holding H.I (message_executed sys os run env md s o)
  unfolding message_executed with_error
  interpolated s fd content msg failed (f, r, a) c p g = H.quits (with_error s) f r a
  interpolated s fd content msg crashed (f, r, a) c p g = H.quits s f r a
  interpolated s fd content msg (done (ml, store)) (f, r, a) c p g =
      H.executes s fd content msg ml store f r a c p g.0 g.1

  evaluated :
      (s : Run) (fd : ℕ) (content : Bytes) (msg : Message) (r : Ev × EvalState)
      → s.world.files ≡ st.world.files
      → s.ran ≡ st.ran
      → st.world.files me.dir me.path ≡ some content
      → message_parse me.dir me.path fd content ≡ some msg
      → Confined (rules msg) r.1
      → Holding H.I (message_evaluated sys os run env md s r)
  unfolding message_evaluated with_error
  evaluated s fd content msg (ev_nomatch, t) f r c p (h, a, k) =
      H.quits (record s { tz_var = t.tz_var; asked = t.ran }) f r a
  evaluated s fd content msg (ev_error, t) f r c p (h, a, k) =
      H.quits (with_error (record s { tz_var = t.tz_var; asked = t.ran })) f r a
  evaluated s fd content msg (ev_crash, t) f r c p (h, a, k) =
      H.quits (record s { tz_var = t.tz_var; asked = t.ran }) f r a
  evaluated s fd content msg (ev_match, t) f r c p (h, a, k) =
      let (n, e, same) = Keeps-at (msg ∷ []) t.store 0 msg k refl in
      interpolated (record s { tz_var = t.tz_var; asked = t.ran }) fd content msg
        (matches_interpolate t.ml t.store) (f, r, a) c p
        (matches_interpolate-Interpolated H.Admits 0 msg t.ml t.store h (n, e, (same.0, same.2)))

  parsed :
      (expr : Expr) (s : Run) (fd : ℕ) (content : Bytes) (m : Option Message)
      → Fits H.Admits expr 0
      → Ready s
      → st.world.files me.dir me.path ≡ some content
      → message_parse me.dir me.path fd content ≡ m
      → Holding H.I (message_parsed sys os run env expr md s m)
  unfolding message_parsed with_error
  parsed expr s fd content none fits (f, r, a) c p = H.quits (with_error s) f r a
  parsed expr s fd content (some msg) fits (f, r, a) c p = evaluated s fd content msg _ f r c p (
      expr_eval-Confines sys env (rules msg) expr 0 fits
        (record { ml = []; store = msg ∷ []; next = 0; ran = s.asked; tz_var = s.tz_var })
        (tt, a, Keeps-refl (msg ∷ [])))

  read :
      (expr : Expr) (fd : ℕ) (s : Run) (o : Option Bytes)
      → Fits H.Admits expr 0
      → Ready s
      → st.world.files me.dir me.path ≡ o
      → Holding H.I (message_read sys os run env expr md me fd s o)
  unfolding message_read with_error
  read expr fd s none fits (f, r, a) c = H.quits (with_error s) f r a
  read expr fd s (some content) fits g c =
      parsed expr s fd content (message_parse me.dir me.path fd content) fits g c refl

  opened :
      (expr : Expr) (fd : ℕ) (s : Run) (p : Bool × World)
      → Fits H.Admits expr 0
      → Ready s
      → p.1.files ≡ st.world.files
      → Holding H.I (message_opened sys os run env expr md me fd s p)
  unfolding message_opened with_error
  opened expr fd s (true, w) fits (f, r, a) g = H.quits (with_error (record s { world = w })) g r a
  opened expr fd s (false, w) fits (f, r, a) g =
      read expr fd (record s { world = w }) (w.files me.dir me.path) fits (g, r, a)
        (ap (λ x. x me.dir me.path) (sym g))

  -- If every expression is of an admitted type, the statement holds however the handling ends.
  pub handle_message-admitted :
      (expr : Expr)
      → Fits H.Admits expr 0
      → H.Ran st.asked
      → Holding H.I (handle_message sys os run env expr md me st)
  unfolding handle_message message_found call with_error
  handle_message-admitted expr fits a = go (call os st.world) refl
    where
      go :
          (p : Bool × World)
          → p.1.files ≡ st.world.files
          → Holding H.I (message_found sys os run env expr md me st.world.calls st p)
      go (true, w) f = H.quits (with_error (record st { world = w })) f refl a
      go (false, w) f = opened expr st.world.calls st (call os w) fits (refl, refl, a) f
