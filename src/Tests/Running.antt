-- ===== src/Tests/Running.antt =====
-- Instances of the theorems on the main program.
use mdsort.Base.{◌≢◌, true, not, ◌&&◌, ◌||◌, [], ◌∷◌, ◌≡◌, refl, codes}
use mdsort.Expr.{ExprType}
use mdsort.Main.{config_has_exec}
use mdsort.Main.Options.{opt_dryrun, opt_macro, read_arguments}
use mdsort.Main.Walk.{run_configs}
use mdsort.Main.Status.{Exits, run_configs-Exits}
use mdsort.Main.Commands.{any, runs_type, config_has_exec-any}
use mdsort.Main.Arguments.{Reads, read_arguments-Reads}
use mdsort.Tests.Samples.{env, system}
use mdsort.Tests.Disk.{disk, run_exec, configs, start_run, options}

run_configs-Exits_example :
    Exits
      (λ n. (n ≢ 0) × (env.is_stdin ≡ true → n ≡ 75))
      env
      (run_configs system disk run_exec env 9 configs (record start_run { error = true }))
run_configs-Exits_example =
    run_configs-Exits system disk run_exec env 9 configs (record start_run { error = true }) refl

config_has_exec-any_example : config_has_exec configs env ≡ (
    any (runs_type ExprType.command env) configs
    || (not env.dryrun && any (runs_type ExprType.exec env) configs))
config_has_exec-any_example = config_has_exec-any configs env

read_arguments-Reads_example :
    Reads
      (opt_dryrun ∷ opt_macro (codes "a") ∷ [])
      (codes "-" ∷ [])
      options.env
      (read_arguments (opt_dryrun ∷ opt_macro (codes "a") ∷ []) (codes "-" ∷ []) options)
read_arguments-Reads_example =
    read_arguments-Reads (opt_dryrun ∷ opt_macro (codes "a") ∷ []) (codes "-" ∷ []) options refl
