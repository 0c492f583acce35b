-- ===== src/Program/Refusing.antt =====
-- The exit status of the program and the configuration that it was run with.
use mdsort.Base.{
  ℕ, Bool, true, false, Option, none, some, List, [], ◌≡◌, refl, ap, ◌∙◌, subst, arith, Bytes, ltb,
  if◌then◌else◌, All,
}
use mdsort.Macro.{MacroList}
use mdsort.Environment.{Env, environment_init}
use mdsort.Eval.State.{ExecStatus, System}
use mdsort.Maildir.{Os, World}
use mdsort.Exec.{Input}
use mdsort.Main.{defaultconf, exit_status}
use mdsort.Main.Options.{Opt, Options, Read, goes, exits, read_arguments}
use mdsort.Main.Handle.{Run, Handled, back, died}
use mdsort.Main.Walk.{run_configs}
use mdsort.Main.Status.{exit_status-Status}
use mdsort.Main.Arguments.{last_conf, Reads, read_arguments-Reads}
use mdsort.Parse.{Parser}
use mdsort.Parse.Syntax.{Statement}
use mdsort.Parse.Grammar.{config_list_parse}
use mdsort.Parse.Configs.{Sound, config_list_parse-Sound}
use mdsort.Program.{
  Answers, or_else, readenv, Ended, exited, gone, ended, Files, main_parsed, main_opened, main_path,
  confpath_of, main_env, main_read, main, start_options, run_started,
}
use mdsort.Program.Paths.{HomeOf, PathBy, Homed, readenv-Homed, defaultconf-PathBy}
use mdsort.Program.Dry.{SameOptions, readenv-SameOptions}

abbrev initial : MacroList → Parser
initial macros = record { cl = []; macros = macros; error = 0 }

-- The program goes on behind the arguments and the environment, the file at the path of the last -f,
-- or without one in the home directory, is there, it is parsed with no error, and its configurations
-- are sound.
abbrev pub Configured : (Bytes → Bool → Option ℕ) → Files → Answers → List Opt → List Bytes → Type 0
Configured regcomp files answers opts args =
    (o : Options) × (env : Env) × (path : Bytes) × (l : List (ℕ × Statement)) × (read_arguments opts
        args start_options
      ≡ goes o)
    × (readenv answers o.env ≡ some env)
    × HomeOf answers.home answers.pw_dir env.home
    × PathBy (last_conf none opts) env.home path
    × (files path ≡ some l)
    × ((config_list_parse env.home regcomp l (initial o.macros)).1.error ≡ 0)
    × All Sound (config_list_parse env.home regcomp l (initial o.macros)).1.cl

-- With the status 0 there was no error, and the configuration was accepted, which is `C`.
abbrev pub Succeeds : Type 0 → Option Ended → Type 0
Succeeds C none = Unit
Succeeds C (some (gone s)) = Unit
Succeeds C (some (exited n s)) = n ≡ 0 → C × (s.error ≡ false)

fails_always : (env : Env) → exit_status env true false ≡ 0 → ⊥
fails_always env e = ground (arith, ((exit_status-Status env true false).1.0 e).0)

module _ {Tm : Type 0} (sys : System Tm) (os : Os) (run : ℕ → List Bytes → Input → ExecStatus)
    (regcomp : Bytes → Bool → Option ℕ) (files : Files) (answers : Answers) (fuel : ℕ) (st : Run)
    (C : Type 0) (quiet : st.error ≡ false) where
  -- The file at the path is parsed with no error, with the home directory and the macros.
  abbrev Accepting : Bytes → Options → Bytes → Type 0
  Accepting home o path =
      (l : List (ℕ × Statement))
      → files path ≡ some l
      → (config_list_parse home regcomp l (initial o.macros)).1.error ≡ 0
      → C

  ended-Succeeds : (env : Env) (r : Option Handled) → C → Succeeds C (ended env r)
  unfolding ended
  ended-Succeeds env none c = tt
  ended-Succeeds env (some (died s)) c = tt
  ended-Succeeds env (some (back s)) c =
      λ z. (c, ((exit_status-Status env s.error s.reject).1.0 z).0)

  parsed-Succeeds :
      (env : Env) (p : Parser)
      → (p.error ≡ 0 → C)
      → Succeeds C (main_parsed sys os run regcomp files answers fuel st env p)
  unfolding main_parsed
  parsed-Succeeds env p c = go (ltb 0 p.error) env.syntax (λ e. c (ground (arith, e)))
    where
      go :
          (e s : Bool)
          → (e ≡ false → C)
          → Succeeds C (
              if e
              then some (exited (exit_status env true false) st)
              else if s
              then some (exited (exit_status env false false) st)
              else ended env (run_configs sys os run env fuel p.cl st))
      go true s k = λ z. absurd (fails_always env z)
      go false true k = λ z. (k refl, quiet)
      go false false k = ended-Succeeds env (run_configs sys os run env fuel p.cl st) (k refl)

  opened-Succeeds :
      (env : Env) (o : Options) (path : Bytes) (l : Option (List (ℕ × Statement)))
      → files path ≡ l
      → Accepting env.home o path
      → Succeeds C (main_opened sys os run regcomp files answers fuel st env o l)
  unfolding main_opened
  opened-Succeeds env o path none e c = λ z. absurd (fails_always env z)
  opened-Succeeds env o path (some l) e c =
      parsed-Succeeds env (config_list_parse env.home regcomp l (initial o.macros)).1 (c l e)

  path-Succeeds :
      (env : Env) (o : Options) (p : Option Bytes)
      → ((path : Bytes) → p ≡ some path → Accepting env.home o path)
      → Succeeds C (main_path sys os run regcomp files answers fuel st env o p)
  unfolding main_path
  path-Succeeds env o none c = λ z. absurd (ground (arith, z))
  path-Succeeds env o (some p) c =
      opened-Succeeds (record env { confpath = some p }) o p (files p) refl (c p refl)

  env-Succeeds :
      (o : Options) (e : Option Env)
      → ((env : Env)
          → e ≡ some env
          → (path : Bytes) → or_else env.confpath (defaultconf env.home) ≡ some path
          → Accepting env.home o path)
      → Succeeds C (main_env sys os run regcomp files answers fuel st o e)
  unfolding main_env confpath_of
  env-Succeeds o none c = λ z. absurd (ground (arith, z))
  env-Succeeds o (some env) c =
      path-Succeeds env o (confpath_of sys os run regcomp files answers fuel st env) (c env refl)

  read-Succeeds :
      (r : Read)
      → (r ≡ exits 0 → ⊥)
      → ((o : Options)
          → r ≡ goes o
          → (env : Env) → readenv answers o.env ≡ some env
          → (path : Bytes) → or_else env.confpath (defaultconf env.home) ≡ some path
          → Accepting env.home o path)
      → Succeeds C (main_read sys os run regcomp files answers fuel st r)
  unfolding main_read
  read-Succeeds (exits n) h c = λ z. absurd (h (ap exits z))
  read-Succeeds (goes x) h c = env-Succeeds x (readenv answers x.env) (c x refl)

read_arguments-fails :
    (opts : List Opt) (args : List Bytes) → read_arguments opts args start_options ≡ exits 0 → ⊥
unfolding start_options environment_init
read_arguments-fails opts args e =
    let h =
      subst (λ r. Reads opts args start_options.env r) e
        (read_arguments-Reads opts args start_options refl) in
    ground (arith, h)

confpath_lem :
    (answers : Answers) (opts : List Opt) (args : List Bytes) (o : Options) (env : Env)
    → read_arguments opts args start_options ≡ goes o
    → readenv answers o.env ≡ some env
    → env.confpath ≡ last_conf none opts
unfolding start_options environment_init
confpath_lem answers opts args o env e r =
    let (a, b, c, d, g) =
      subst (λ r. Reads opts args start_options.env r) e
        (read_arguments-Reads opts args start_options refl) in
    let (s, t, u, v) = subst (λ x. SameOptions o.env x) r (readenv-SameOptions answers o.env) in
    v ∙ c

-- If the program exits with status 0, no error occurred on any message, and its configuration, the
-- file of the last -f, or without one .mdsort.conf in the home directory, which HOME or else the
-- user's entry names, was there and was parsed with no error into sound configurations, with the
-- macros of the arguments.
pub main-Succeeds :
    {Tm : Type 0} (sys : System Tm) (os : Os) (run : ℕ → List Bytes → Input → ExecStatus)
    (regcomp : Bytes → Bool → Option ℕ) (files : Files) (answers : Answers) (fuel : ℕ) (w : World)
    (opts : List Opt) (args : List Bytes)
    → Succeeds
        (Configured regcomp files answers opts args)
        (main sys os run regcomp files answers fuel w opts args)
unfolding main run_started
main-Succeeds sys os run regcomp files answers fuel w opts args =
    read-Succeeds sys os run regcomp files answers fuel (run_started answers w)
      (Configured regcomp files answers opts args) refl (read_arguments opts args start_options)
      (read_arguments-fails opts args)
      (λ o e env r path p l f z. (
        o,
        env,
        path,
        l,
        e,
        r,
        subst (λ x. Homed answers.home answers.pw_dir x) r (readenv-Homed answers o.env),
        subst (λ c. PathBy c env.home path) (confpath_lem answers opts args o env e r)
            (defaultconf-PathBy env.confpath env.home path p),
        f,
        z,
        (config_list_parse-Sound env.home regcomp l (initial o.macros) refl z).0,
      ))
