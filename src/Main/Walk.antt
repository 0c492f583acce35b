-- ===== src/Main/Walk.antt =====
-- The loops of `main` over the messages of a maildir, the paths and the configurations.
use mdsort.Base.{ℕ, zero, suc, true, Option, none, some, List, [], ◌∷◌, Bytes, if◌then◌else◌}
use mdsort.Environment.{Env}
use mdsort.Eval.State.{ExecStatus, System}
use mdsort.Maildir.{Maildir, Entry, Os, World}
use mdsort.Maildir.Walk.{
  Found, found, ended, read_error, read_crash, read_exits, maildir_walk, maildir_close,
}
use mdsort.Maildir.Opened.{Opened, opened, not_opened, exits, crashes, maildir_open}
use mdsort.Exec.{Input}
use mdsort.Main.{Config, isstdin, maildir_skip}
use mdsort.Main.Handle.{Run, Handled, back, died, with_error, handle_message}

abbrev set_world : World → Run → Run
set_world w st = record st { world = w }

-- How a message is handled, in the maildir that is open.
abbrev pub Handler : Type 0
Handler = Maildir → Entry → Run → Handled

-- `none` is the end of the fuel. The maildir is given back to be closed.
unfoldable pub walk_handled :
    (Run → Option (Maildir × Handled)) → Maildir → Handled → Option (Maildir × Handled)
walk_handled again md (back st) = again st
walk_handled again md (died st) = some (md, died st)

unfoldable pub walk_found :
    Handler
    → (Maildir → Run → Option (Maildir × Handled))
    → Run
    → Found × Maildir × World
    → Option (Maildir × Handled)
unfolding walk_handled with_error
walk_found h again st (found me, md, w) =
    walk_handled (again md) md (h md me (record st { world = w }))
walk_found h again st (ended, md, w) = some (md, back (record st { world = w }))
walk_found h again st (read_error, md, w) = some (md, back (with_error (record st { world = w })))
walk_found h again st (read_crash, md, w) = some (md, died (record st { world = w }))
walk_found h again st (read_exits, md, w) = some (md, died (record st { world = w }))

-- The loop over the messages of a maildir, on fuel.
unfoldable pub walk_messages : Os → Handler → ℕ → Maildir → Run → Option (Maildir × Handled)
unfolding walk_found maildir_walk
walk_messages os h zero md st = none
walk_messages os h (suc fuel) md st =
    walk_found h (walk_messages os h fuel) st (maildir_walk os md st.world)

-- `maildir_close`
unfoldable pub path_closed : Os → Maildir × Handled → Handled
unfolding maildir_close
path_closed os (md, died st) = died st
path_closed os (md, back st) = elim (maildir_close os md st.world) [
  | none ↦ died st
  | some w ↦ back (record st { world = w })
]

unfoldable pub path_walked : Os → Option (Maildir × Handled) → Option Handled
unfolding path_closed
path_walked os none = none
path_walked os (some r) = some (path_closed os r)

unfoldable pub path_opened : Os → Handler → ℕ → Run → Opened × World → Option Handled
unfolding path_walked walk_messages with_error
path_opened os h fuel st (opened md, w) =
    path_walked os (walk_messages os h fuel md (record st { world = w }))
path_opened os h fuel st (not_opened, w) = some (back (with_error (record st { world = w })))
path_opened os h fuel st (exits, w) = some (died (record st { world = w }))
path_opened os h fuel st (crashes, w) = some (died (record st { world = w }))

-- One path of a configuration.
unfoldable pub run_path : Os → Env → Handler → ℕ → Bytes → Run → Option Handled
unfolding path_opened maildir_open maildir_skip isstdin
run_path os env h fuel path st =
    if maildir_skip path env
    then some (back st)
    else path_opened os h fuel st (maildir_open os path true (isstdin path) env st.world)

unfoldable pub then_run : (Run → Option Handled) → Option Handled → Option Handled
then_run next none = none
then_run next (some (died st)) = some (died st)
then_run next (some (back st)) = next st

unfoldable pub run_paths : Os → Env → Handler → ℕ → List Bytes → Run → Option Handled
unfolding then_run run_path
run_paths os env h fuel [] st = some (back st)
run_paths os env h fuel (path ∷ paths) st =
    then_run (run_paths os env h fuel paths) (run_path os env h fuel path st)

module _ {Tm : Type 0} (sys : System Tm) (os : Os) (run : ℕ → List Bytes → Input → ExecStatus)
    (env : Env) where
  unfoldable pub run_configs : ℕ → List Config → Run → Option Handled
  unfolding then_run run_paths handle_message
  run_configs fuel [] st = some (back st)
  run_configs fuel (conf ∷ cl) st =
      then_run (run_configs fuel cl)
        (run_paths os env (handle_message sys os run env conf.expr) fuel conf.paths st)
