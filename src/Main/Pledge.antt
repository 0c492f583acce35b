-- ===== src/Main/Pledge.antt =====
-- Without the privilege to execute no command is started.
use mdsort.Base.{
  ℕ, ◌<◌, Bool, true, false, not, some, List, [], ◌∷◌, ◌++◌, ◌≡◌, refl, sym, ap, ◌∙◌, arith, Bytes,
  append-nil, subst, if◌then◌else◌, Bool-cases, inl, inr,
}
use mdsort.Environment.{Env}
use mdsort.Expr.{ExprType, Expr, expr_count}
use mdsort.Match.{MatchList}
use mdsort.Message.Body.{Store}
use mdsort.Interpolate.{done}
use mdsort.Eval.State.{ExecStatus, System}
use mdsort.Eval.Confined.{AllAdmitted}
use mdsort.Eval.Confined.Accepted.{Silent, Silent-Fits}
use mdsort.Maildir.{Maildir, Entry, Os}
use mdsort.Exec.{
  Input, ExecState, ExecCode, exec_success, exec_rejected, exec_error, exec_gone, matches_exec,
}
use mdsort.Exec.Quiet.{NoExec, matches_exec-quiet}
use mdsort.Main.{Config, maildir_skip, config_has_exec}
use mdsort.Main.Commands.{any, runs_here, runs_type, config_has_exec-any}
use mdsort.Main.Handle.{Run, back, with_error, after_exec, message_executed, handle_message}
use mdsort.Main.Laws.{Holding, HoldingAny, Kept, then_run-Holding, run_paths-Holding}
use mdsort.Main.Walk.{Handler, then_run, run_path, run_paths, run_configs}
use mdsort.Main.Evaluated.{Handling, handle_message-admitted}

-- The commands of a run are those of another.
abbrev pub SameCommands : Run → Run → Type 0
SameCommands st s = (s.asked ≡ st.asked) × (s.ran ≡ st.ran)

Silent-NoExec :
    (dry : Type 0) (ml : MatchList) → (dry → ⊥) → AllAdmitted (Silent dry) ml → NoExec ml
Silent-NoExec dry [] n h = tt
Silent-NoExec dry (mh ∷ ml) n h = (λ e. n (go mh.type mh.msg e h.0), Silent-NoExec dry ml n h.1)
  where
    go : (t : ExprType) (i : ℕ) → t ≡ ExprType.exec → Silent dry t i → dry
    go t i e a = subst (λ x. Silent dry x i) e a

after_exec-quiet :
    (st s : Run) (r : ExecCode × ExecState)
    → SameCommands st s
    → r.1.ran ≡ []
    → Holding (SameCommands st) (after_exec s r)
unfolding after_exec with_error
after_exec-quiet st s (exec_success, e) (a, b) q =
    (a, ap (λ l. s.ran ++ l) q ∙ append-nil s.ran ∙ b)
after_exec-quiet st s (exec_rejected, e) (a, b) q =
    (a, ap (λ l. s.ran ++ l) q ∙ append-nil s.ran ∙ b)
after_exec-quiet st s (exec_error, e) (a, b) q = (a, ap (λ l. s.ran ++ l) q ∙ append-nil s.ran ∙ b)
after_exec-quiet st s (exec_gone, e) (a, b) q = (a, ap (λ l. s.ran ++ l) q ∙ append-nil s.ran ∙ b)

abbrev same_commands : (env : Env) → Run → Kept env
unfolding with_error
same_commands env st = record { I = SameCommands st; ticks = λ s w f i. i; errors = λ s i. i }

module _ {Tm : Type 0} (sys : System Tm) (os : Os) (run : ℕ → List Bytes → Input → ExecStatus)
    (env : Env) (st : Run) where
  executed-quiet :
      (md : Maildir) (s : Run) (ml : MatchList) (store : Store)
      → SameCommands st s
      → AllAdmitted (Silent (env.dryrun ≡ true)) ml
      → Holding (SameCommands st) (message_executed sys os run env md s (done (ml, store)))
  unfolding message_executed
  executed-quiet md s ml store i h = go env.dryrun (λ e. e)
    where
      go :
          (b : Bool)
          → (env.dryrun ≡ true → b ≡ true)
          → Holding
              (SameCommands st)
              (if b then back s else after_exec s (matches_exec os run env ml md store s.world))
      go true e = i
      go false e = after_exec-quiet st s (matches_exec os run env ml md store s.world) i (
          matches_exec-quiet os run env ml md store s.world
            (Silent-NoExec (env.dryrun ≡ true) ml (λ d. ground (arith, e d)) h))

  abbrev stays_quiet :
      (md : Maildir) (me : Entry) (s : Run) → SameCommands st s → Handling sys os run env md me s
  stays_quiet md me s i = record {
    Admits = Silent (env.dryrun ≡ true);
    Ran = λ ran. ran ≡ st.asked;
    runs = λ msg ran argv a r. absurd a;
    I = SameCommands st;
    quits = λ t f r a. (a, r ∙ i.1);
    executes = λ t fd content msg ml store f r a c p admitted mail.
        executed-quiet md t ml store (a, r ∙ i.1) admitted;
  }

  handle_message-quiet :
      (expr : Expr)
      → expr_count expr ExprType.command ≡ 0
      → (0 < expr_count expr ExprType.exec → env.dryrun ≡ true)
      → (md : Maildir) (me : Entry) (s : Run) → SameCommands st s
      → Holding (SameCommands st) (handle_message sys os run env expr md me s)
  handle_message-quiet expr c x md me s i =
      handle_message-admitted sys os run env md me s (stays_quiet md me s i) expr
        (Silent-Fits (env.dryrun ≡ true) expr c x 0) i.0

  -- A configuration of which every path is skipped.
  skipped :
      (h : Handler) (n : ℕ) (paths : List Bytes) (s : Run)
      → any (λ path. not (maildir_skip path env)) paths ≡ false
      → run_paths os env h n paths s ≡ some (back s)
  unfolding run_paths run_path then_run
  skipped h n [] s e = refl
  skipped h n (path ∷ paths) s e = elim (Bool-cases (maildir_skip path env)) [
    | inl b ↦ rw (run_paths, run_path, b) (skipped h n paths s (ground (arith, e, b)))
    | inr b ↦ absurd (ground (arith, e, b))
  ]

  run_conf-quiet :
      (n : ℕ) (conf : Config) (s : Run)
      → runs_type ExprType.command env conf ≡ false
      → (runs_type ExprType.exec env conf ≡ true → env.dryrun ≡ true)
      → SameCommands st s
      → HoldingAny
          (SameCommands st)
          (run_paths os env (handle_message sys os run env conf.expr) n conf.paths s)
  unfolding same_commands
  run_conf-quiet n conf s c x i = elim (Bool-cases (runs_here env conf)) [
    | inl b ↦
        run_paths-Holding os env (same_commands env st) (handle_message sys os run env conf.expr)
          (handle_message-quiet conf.expr (ground (arith, b, c)) (λ p. x (ground (arith, b, p)))) n
          conf.paths s i
    | inr b ↦ rw (skipped (handle_message sys os run env conf.expr) n conf.paths s b) i
  ]

  runs_quiet :
      (n : ℕ) (cl : List Config) (s : Run)
      → any (runs_type ExprType.command env) cl ≡ false
      → (any (runs_type ExprType.exec env) cl ≡ true → env.dryrun ≡ true)
      → SameCommands st s
      → HoldingAny (SameCommands st) (run_configs sys os run env n cl s)
  unfolding run_configs
  runs_quiet n [] s c x i = i
  runs_quiet n (conf ∷ cl) s c x i =
      then_run-Holding (SameCommands st) (run_configs sys os run env n cl) _
        (λ t j. runs_quiet n cl t (ground (arith, c)) (λ e. x (ground (arith, e))) j)
        (run_conf-quiet n conf s (ground (arith, c)) (λ e. x (ground (arith, e))) i)

  -- If the program decides that it needs no privilege to execute, a run starts no command, neither for
  -- a condition nor as an action, however it ends.
  pub run_configs-quiet :
      (n : ℕ) (cl : List Config)
      → config_has_exec cl env ≡ false
      → HoldingAny (SameCommands st) (run_configs sys os run env n cl st)
  run_configs-quiet n cl e =
      let any_exec = sym (config_has_exec-any cl env) ∙ e in
      runs_quiet n cl st (ground (arith, any_exec)) (λ x. ground (arith, any_exec, x)) (refl, refl)
