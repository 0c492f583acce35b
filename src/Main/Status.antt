-- ===== src/Main/Status.antt =====
-- The exit status of a run.
use mdsort.Base.{
  ℕ, Bool, true, false, ◌&&◌, Option, none, some, List, ◌≡◌, ◌≢◌, ◌↔◌, refl, arith, Bytes,
  if◌then◌else◌,
}
use mdsort.Environment.{Env}
use mdsort.Eval.State.{ExecStatus, System}
use mdsort.Maildir.{Os}
use mdsort.Exec.{Input}
use mdsort.Main.{Config, exit_status}
use mdsort.Main.Handle.{Run, Handled, back, died}
use mdsort.Main.Walk.{run_configs}
use mdsort.Main.Laws.{HoldingAny}
use mdsort.Main.DryRun.{Sticky, run_configs-Sticky}

-- The status is 75 for an error with the standard input. It is 0 if there was no error, and with the
-- standard input no reject either.
abbrev pub Status : Bool → Bool → Bool → ℕ → Type 0
Status is_stdin error reject n =
    ((n ≡ 75) ↔ ((is_stdin && error) ≡ true))
    × ((n ≡ 0) ↔ ((error ≡ false) × ((is_stdin && reject) ≡ false)))

pub exit_status-Status :
    (env : Env) (error reject : Bool)
    → Status env.is_stdin error reject (exit_status env error reject)
unfolding exit_status
exit_status-Status env error reject = go env.is_stdin error reject
  where
    go :
        (s e r : Bool)
        → Status s e r (if s && e then 75 else if s && r then 1 else if e then 1 else 0)
    go true true r = ground arith
    go true false true = ground arith
    go true false false = ground arith
    go false true r = ground arith
    go false false r = ground arith

-- The status of a run that comes to its end.
abbrev pub Exits : (ℕ → Type 0) → Env → Option Handled → Type 0
Exits P env (some (back st)) = P (exit_status env st.error st.reject)
Exits P env _ = Unit

-- If there has been an error, the exit status of a run that comes to its end is not 0, and with the
-- standard input it is 75, whatever follows the error.
pub run_configs-Exits :
    {Tm : Type 0} (sys : System Tm) (os : Os) (run : ℕ → List Bytes → Input → ExecStatus)
    (env : Env) (fuel : ℕ) (cl : List Config) (st : Run)
    → st.error ≡ true
    → Exits
        (λ n. (n ≢ 0) × (env.is_stdin ≡ true → n ≡ 75))
        env
        (run_configs sys os run env fuel cl st)
run_configs-Exits sys os run env fuel cl st e =
    go (run_configs sys os run env fuel cl st) (run_configs-Sticky sys os run env fuel cl st)
  where
    go :
        (r : Option Handled)
        → HoldingAny (Sticky st) r
        → Exits (λ n. (n ≢ 0) × (env.is_stdin ≡ true → n ≡ 75)) env r
    go none h = tt
    go (some (died s)) h = tt
    go (some (back s)) h =
        let (a, b) = exit_status-Status env s.error s.reject in
        (λ z. ground (arith, (b.0 z).0, h.0 e), λ i. a.1 (rw (i, h.0 e) refl))
