-- ===== src/Main.antt =====
-- mdsort.c, behind the parser: what is skipped, what needs commands, and the exit status.
pub mod Options
pub mod Handle
pub mod Walk
pub mod Ends
pub mod Laws
pub mod DryRun
pub mod Commands
pub mod Arguments
pub mod Status
pub mod Evaluated
pub mod Delivery
pub mod Pledge
use mdsort.Base.{
  ℕ, ◌+◌, Bool, true, false, not, ◌&&◌, ◌||◌, Option, none, some, List, [], ◌∷◌, ◌++◌, Bytes, codes,
  leb, ltb, if◌then◌else◌, length, bytes_eq,
}
use mdsort.Util.{path_max}
use mdsort.Environment.{Env}
use mdsort.Expr.{ExprType, Expr, expr_count}

-- `struct config`
pub record Config : Type 0 where
  pub paths : List Bytes
  pub expr : Expr

unfoldable pub isstdin : Bytes → Bool
unfolding bytes_eq
isstdin str = bytes_eq str (codes "/dev/stdin")

unfoldable pub maildir_skip : Bytes → Env → Bool
unfolding isstdin
maildir_skip path env = (env.is_stdin && not (isstdin path)) || (not env.is_stdin && isstdin path)

-- What the first path that is not skipped shows of a configuration: whether it has a command
-- condition, and what it adds to `nexec`.
unfoldable pub exec_paths : Env → Expr → List Bytes → Bool × ℕ
unfolding maildir_skip expr_count
exec_paths env expr [] = (false, 0)
exec_paths env expr (path ∷ paths) =
    let rest = exec_paths env expr paths in
    if maildir_skip path env
    then rest
    else if ltb 0 (expr_count expr ExprType.command)
    then (true, 0)
    else (false, (if ltb 0 (expr_count expr ExprType.exec) then 1 else 0))

-- The loop over the configurations, with `nexec`.
unfoldable pub exec_configs : Env → ℕ → List Config → Bool
unfolding exec_paths
exec_configs env nexec [] = not env.dryrun && ltb 0 nexec
exec_configs env nexec (conf ∷ cl) =
    let (command, n) = exec_paths env conf.expr conf.paths in
    let rest = exec_configs env (nexec + n) cl in if command then true else rest

unfoldable pub config_has_exec : List Config → Env → Bool
unfolding exec_configs
config_has_exec cl env = exec_configs env 0 cl

-- `none` is errc(3).
unfoldable pub defaultconf : Bytes → Option Bytes
defaultconf home =
    let path = home ++ codes "/.mdsort.conf" in
    if leb path_max (length path) then none else some path

-- The end of `main`.
unfoldable pub exit_status : Env → Bool → Bool → ℕ
exit_status env error reject =
    if env.is_stdin && error
    then 75
    else if env.is_stdin && reject
    then 1
    else if error
    then 1
    else 0
