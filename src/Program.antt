-- ===== src/Program.antt =====
-- `readenv`, and `main` of mdsort.c from the arguments to the exit status. What the system answers about
-- its environment, and yacc's reading of a file, are parameters.
pub mod Dry
pub mod Paths
pub mod Refusing
use mdsort.Base.{
  ℕ, Bool, true, false, Option, none, some, List, [], ◌∷◌, Bytes, codes, leb, ltb, if◌then◌else◌,
  length, before,
}
use mdsort.Base.Int.{ℤ}
use mdsort.Util.{path_max}
use mdsort.DateTime.{Tz, tz_local, tz_utc, tz_set}
use mdsort.Macro.{ctx_default, macros_alloc}
use mdsort.Environment.{Env, environment_init}
use mdsort.Eval.State.{ExecStatus, System}
use mdsort.Maildir.{Os, World}
use mdsort.Exec.{Input}
use mdsort.Main.{Config, config_has_exec, defaultconf, exit_status}
use mdsort.Main.Options.{Opt, Options, Read, goes, exits, read_arguments}
use mdsort.Main.Handle.{Run, Handled, back, died}
use mdsort.Main.Walk.{run_configs}
use mdsort.Parse.{Parser}
use mdsort.Parse.Syntax.{Statement}
use mdsort.Parse.Grammar.{config_list_parse}

-- gethostname(3), getenv(3), the home directory of getpwuid(3), _PATH_TMP, time(3), the offset that
-- localtime(3) gives, and getpid(2). `none` is a failure or an unset variable.
pub record Answers : Type 0 where
  pub hostname : Option Bytes
  pub home : Option Bytes
  pub tmpdir : Option Bytes
  pub tz : Option Bytes
  pub pw_dir : Option Bytes
  pub path_tmp : Bytes
  pub now : ℤ
  pub gmtoff : Option ℤ
  pub pid : ℤ

-- A variable that is not set and not empty.
unfoldable pub nonempty : Option Bytes → Option Bytes
nonempty (some []) = none
nonempty o = o

unfoldable pub or_else : Option Bytes → Option Bytes → Option Bytes
or_else (some p) q = some p
or_else none q = q

-- strlcpy(3) into a buffer of `siz` bytes, `none` if it is cut.
unfoldable pub copied : ℕ → Bytes → Option Bytes
copied siz p = if leb siz (length p) then none else some p

-- `t_state` and `t_buf`, which stays empty if TZ is not set.
unfoldable pub read_tz : Option Bytes → Tz → Option Tz
unfolding copied
read_tz none tz = some (record tz { state = tz_local })
read_tz (some []) tz = some (record tz { state = tz_utc; buf = [] })
read_tz (some (c ∷ p)) tz = elim (copied 256 (c ∷ p)) [
  | none ↦ none
  | some buf ↦ some (record tz { state = tz_set; buf = buf })
]

-- The environment behind the zone.
unfoldable pub env_zoned : Answers → Env → Option Tz → Option Env
env_zoned a env none = none
env_zoned a env (some tz) = elim a.gmtoff [
  | none ↦ none
  | some offset ↦ some (record env { now = a.now; tz = record tz { offset = offset }; pid = a.pid })
]

unfoldable pub env_tmpdir : Answers → Env → Option Bytes → Option Env
unfolding env_zoned read_tz
env_tmpdir a env none = none
env_tmpdir a env (some dir) = env_zoned a (record env { tmpdir = dir }) (read_tz a.tz env.tz)

-- TMPDIR, or _PATH_TMP.
unfoldable pub tmpdir_of : Answers → Bytes
unfolding nonempty
tmpdir_of a = elim (nonempty a.tmpdir) [ none ↦ a.path_tmp | some p ↦ p ]

unfoldable pub env_home : Answers → Env → Option Bytes → Option Env
unfolding env_tmpdir copied tmpdir_of
env_home a env none = none
env_home a env (some home) = elim (copied path_max home) [
  | none ↦ none
  | some h ↦ env_tmpdir a (record env { home = h }) (copied path_max (tmpdir_of a))
]

-- `readenv`; `none` is the end of the program with status 1.
unfoldable pub readenv : Answers → Env → Option Env
unfolding env_home or_else nonempty
readenv a env = elim a.hostname [
  | none ↦ none
  | some h ↦
      env_home a (record env { hostname = before b'.' h }) (or_else (nonempty a.home) a.pw_dir)
]

-- The program returns a status, or it has ended within a call.
pub data Ended : Type 0 where
  exited : ℕ → Run → Ended
  gone : Run → Ended

unfoldable pub ended : Env → Option Handled → Option Ended
unfolding exit_status
ended env none = none
ended env (some (back st)) = some (exited (exit_status env st.error st.reject) st)
ended env (some (died st)) = some (gone st)

-- The statements of a file as yacc reads them, with the errors of the lexer and of yacc before each;
-- `none` is a file that cannot be opened.
abbrev pub Files : Type 0
Files = Bytes → Option (List (ℕ × Statement))

module _ {Tm : Type 0} (sys : System Tm) (os : Os) (run : ℕ → List Bytes → Input → ExecStatus)
    (regcomp : Bytes → Bool → Option ℕ) (files : Files) (answers : Answers) (fuel : ℕ)
    (st : Run) where
  unfoldable pub main_parsed : Env → Parser → Option Ended
  unfolding ended run_configs exit_status
  main_parsed env p =
      if ltb 0 p.error
      then some (exited (exit_status env true false) st)
      else if env.syntax
      then some (exited (exit_status env false false) st)
      else ended env (run_configs sys os run env fuel p.cl st)

  unfoldable pub main_opened : Env → Options → Option (List (ℕ × Statement)) → Option Ended
  unfolding main_parsed config_list_parse exit_status
  main_opened env o none = some (exited (exit_status env true false) st)
  main_opened env o (some l) =
      main_parsed env
        (config_list_parse env.home regcomp l (record { cl = []; macros = o.macros; error = 0 })).1

  -- The path of -f, or the default; errc(3) ends the program.
  unfoldable pub main_path : Env → Options → Option Bytes → Option Ended
  unfolding main_opened
  main_path env o none = some (exited 1 st)
  main_path env o (some path) = main_opened (record env { confpath = some path }) o (files path)

  unfoldable pub confpath_of : Env → Option Bytes
  unfolding or_else defaultconf
  confpath_of env = or_else env.confpath (defaultconf env.home)

  unfoldable pub main_env : Options → Option Env → Option Ended
  unfolding main_path confpath_of
  main_env o none = some (exited 1 st)
  main_env o (some env) = main_path env o (confpath_of env)

  unfoldable pub main_read : Read → Option Ended
  unfolding main_env readenv
  main_read (exits n) = some (exited n st)
  main_read (goes o) = main_env o (readenv answers o.env)

-- What `main` starts from: no option is set, and there is no macro.
unfoldable pub start_options : Options
unfolding environment_init macros_alloc
start_options = record { env = environment_init; macros = macros_alloc ctx_default; log_level = 0 }

-- Nothing has been run, and there was no error.
unfoldable pub run_started : Answers → World → Run
run_started answers w = record {
  world = w;
  tz_var = answers.tz;
  asked = [];
  ran = [];
  error = false;
  reject = false;
}

module _ {Tm : Type 0} (sys : System Tm) (os : Os) (run : ℕ → List Bytes → Input → ExecStatus)
    (regcomp : Bytes → Bool → Option ℕ) (files : Files) (answers : Answers) (fuel : ℕ)
    (w : World) where
  -- `main`; `none` is the end of the fuel.
  unfoldable pub main : List Opt → List Bytes → Option Ended
  unfolding main_read read_arguments start_options run_started
  main opts args =
      main_read sys os run regcomp files answers fuel (run_started answers w)
        (read_arguments opts args start_options)
