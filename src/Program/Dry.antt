-- ===== src/Program/Dry.antt =====
-- What is never done by a dry run or by a syntax check, from the arguments on.
use mdsort.Base.{
  ℕ, Bool, true, false, Option, none, some, List, [], ◌≡◌, refl, ◌∙◌, arith, Bytes, ltb,
  if◌then◌else◌, Option-cases, inl, inr, before, subst,
}
use mdsort.Util.{path_max}
use mdsort.DateTime.{Tz}
use mdsort.Environment.{Env, environment_init}
use mdsort.Eval.State.{ExecStatus, System}
use mdsort.Maildir.{Os, World}
use mdsort.Exec.{Input}
use mdsort.Main.{exit_status}
use mdsort.Main.Options.{Opt, Options, Read, goes, exits, read_arguments}
use mdsort.Main.Arguments.{is_dryrun, Asked, Reads, read_arguments-Reads}
use mdsort.Main.Commands.{any}
use mdsort.Main.Handle.{Run, Handled, back, died}
use mdsort.Main.Walk.{run_configs}
use mdsort.Main.Laws.{HoldingAny}
use mdsort.Main.DryRun.{Unchanged, run_configs-Unchanged}
use mdsort.Parse.{Parser}
use mdsort.Parse.Syntax.{Statement}
use mdsort.Parse.Grammar.{config_list_parse}
use mdsort.Program.{
  Answers, nonempty, or_else, copied, read_tz, env_zoned, env_tmpdir, tmpdir_of, env_home, readenv,
  Ended, exited, gone, ended, Files, main_parsed, main_opened, main_path, confpath_of, main_env,
  main_read, main, start_options, run_started,
}

-- The options are not read from the environment.
abbrev pub SameOptions : Env → Option Env → Type 0
SameOptions env none = Unit
SameOptions env (some e) =
    (e.dryrun ≡ env.dryrun)
    × (e.syntax ≡ env.syntax)
    × (e.is_stdin ≡ env.is_stdin)
    × (e.confpath ≡ env.confpath)

env_zoned-SameOptions :
    (a : Answers) (env e : Env) (tz : Option Tz)
    → SameOptions env (some e)
    → SameOptions env (env_zoned a e tz)
unfolding env_zoned
env_zoned-SameOptions a env e none h = tt
env_zoned-SameOptions a env e (some tz) h = elim (Option-cases a.gmtoff) [
  | inl g ↦ rw (env_zoned, g) tt
  | inr g ↦ rw (env_zoned, g.1) h
]

env_tmpdir-SameOptions :
    (a : Answers) (env e : Env) (dir : Option Bytes)
    → SameOptions env (some e)
    → SameOptions env (env_tmpdir a e dir)
unfolding env_tmpdir
env_tmpdir-SameOptions a env e none h = tt
env_tmpdir-SameOptions a env e (some dir) h =
    env_zoned-SameOptions a env (record e { tmpdir = dir }) (read_tz a.tz e.tz) h

env_home-SameOptions :
    (a : Answers) (env e : Env) (home : Option Bytes)
    → SameOptions env (some e)
    → SameOptions env (env_home a e home)
unfolding env_home
env_home-SameOptions a env e none h = tt
env_home-SameOptions a env e (some home) h = elim (Option-cases (copied path_max home)) [
  | inl g ↦ rw (env_home, g) tt
  | inr g ↦
      rw (env_home, g.1)
        (env_tmpdir-SameOptions a env (record e { home = g.0 }) (copied path_max (tmpdir_of a)) h)
]

pub readenv-SameOptions : (a : Answers) (env : Env) → SameOptions env (readenv a env)
unfolding readenv
readenv-SameOptions a env = elim (Option-cases a.hostname) [
  | inl g ↦ rw (readenv, g) tt
  | inr g ↦
      rw (readenv, g.1)
        (env_home-SameOptions a env (record env { hostname = before b'.' g.0 })
          (or_else (nonempty a.home) a.pw_dir) (refl, refl, refl, refl))
]

-- How the program left the run.
abbrev pub Leaves : (Run → Type 0) → Option Ended → Type 0
Leaves I none = Unit
Leaves I (some (exited n s)) = I s
Leaves I (some (gone s)) = I s

module _ {Tm : Type 0} (sys : System Tm) (os : Os) (run : ℕ → List Bytes → Input → ExecStatus)
    (regcomp : Bytes → Bool → Option ℕ) (files : Files) (answers : Answers) (fuel : ℕ)
    (st : Run) where
  -- Whatever holds of the run before the messages are walked, and behind them.
  module _ (I : Run → Type 0) (D : Env → Type 0) (start : I st)
      (path : (env : Env) (c : Option Bytes) → D env → D (record env { confpath = c }))
      (walks : (env : Env) (p : Parser)
        → D env
        → env.syntax ≡ false
        → Leaves I (ended env (run_configs sys os run env fuel p.cl st))) where
    parsed-Leaves :
        (env : Env) (p : Parser)
        → D env
        → Leaves I (main_parsed sys os run regcomp files answers fuel st env p)
    unfolding main_parsed
    parsed-Leaves env p d = go (ltb 0 p.error) env.syntax (λ e. walks env p d e)
      where
        go :
            (e s : Bool)
            → (s ≡ false → Leaves I (ended env (run_configs sys os run env fuel p.cl st)))
            → Leaves I (
                if e
                then some (exited (exit_status env true false) st)
                else if s
                then some (exited (exit_status env false false) st)
                else ended env (run_configs sys os run env fuel p.cl st))
        go true s w = start
        go false true w = start
        go false false w = w refl

    opened-Leaves :
        (env : Env) (o : Options) (l : Option (List (ℕ × Statement)))
        → D env
        → Leaves I (main_opened sys os run regcomp files answers fuel st env o l)
    unfolding main_opened
    opened-Leaves env o none d = start
    opened-Leaves env o (some l) d =
        parsed-Leaves env
          (config_list_parse env.home regcomp l
            (record { cl = []; macros = o.macros; error = 0 })).1
          d

    path-Leaves :
        (env : Env) (o : Options) (p : Option Bytes)
        → D env
        → Leaves I (main_path sys os run regcomp files answers fuel st env o p)
    unfolding main_path
    path-Leaves env o none d = start
    path-Leaves env o (some p) d =
        opened-Leaves (record env { confpath = some p }) o (files p) (path env (some p) d)

    env-Leaves :
        (o : Options) (e : Option Env)
        → SameOptions o.env e
        → ((env : Env) → SameOptions o.env (some env) → D env)
        → Leaves I (main_env sys os run regcomp files answers fuel st o e)
    unfolding main_env
    env-Leaves o none h d = start
    env-Leaves o (some env) h d =
        path-Leaves env o (confpath_of sys os run regcomp files answers fuel st env) (d env h)

    read-Leaves :
        (r : Read)
        → ((o : Options) → r ≡ goes o → (env : Env) → SameOptions o.env (some env) → D env)
        → Leaves I (main_read sys os run regcomp files answers fuel st r)
    unfolding main_read
    read-Leaves (exits n) d = start
    read-Leaves (goes o) d =
        env-Leaves o (readenv answers o.env) (readenv-SameOptions answers o.env) (d o refl)

  ended-Leaves :
      (I : Run → Type 0) (env : Env) (r : Option Handled) → HoldingAny I r → Leaves I (ended env r)
  unfolding ended
  ended-Leaves I env none h = tt
  ended-Leaves I env (some (back s)) h = h
  ended-Leaves I env (some (died s)) h = h

-- With -d among the options and no operand the program changes no file and starts no command of an
-- action, whatever the environment and the configuration are, and however it ends.
pub main-Unchanged :
    {Tm : Type 0} (sys : System Tm) (os : Os) (run : ℕ → List Bytes → Input → ExecStatus)
    (regcomp : Bytes → Bool → Option ℕ) (files : Files) (answers : Answers) (fuel : ℕ) (w : World)
    (opts : List Opt)
    → any is_dryrun opts ≡ true
    → Leaves
        (Unchanged (run_started answers w))
        (main sys os run regcomp files answers fuel w opts [])
unfolding main start_options environment_init
main-Unchanged sys os run regcomp files answers fuel w opts d =
    let st = run_started answers w in
    read-Leaves sys os run regcomp files answers fuel st (Unchanged st)
      (λ env. (env.dryrun ≡ true) × (env.is_stdin ≡ false)) (refl, refl) (λ env c q. q)
      (λ env p q s.
        ended-Leaves sys os run regcomp files answers fuel st (Unchanged st) env _
          (run_configs-Unchanged sys os run env fuel p.cl st q.0 q.1))
      (read_arguments opts [] start_options)
      (λ x e env h. go x env h (
        subst (λ y. Reads opts [] start_options.env y) e
          (read_arguments-Reads opts [] start_options refl)))
  where
    go :
        (x : Options) (env : Env)
        → SameOptions x.env (some env)
        → Asked opts [] start_options.env x
        → (env.dryrun ≡ true) × (env.is_stdin ≡ false)
    go x env (a, b, c, f) (r, s, t, inl u, v) = (a ∙ r ∙ ground (arith, d), c ∙ u.1)
    go x env (a, b, c, f) (r, s, t, inr u, v) = cc
