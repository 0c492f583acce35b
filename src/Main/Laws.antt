-- ===== src/Main/Laws.antt =====
-- What the loops of `main` keep, if the handling of a message does.
use mdsort.Base.{
  ℕ, zero, suc, true, false, Option, none, some, List, [], ◌∷◌, ◌≡◌, refl, sym, ap, ◌∙◌, arith,
  Bytes, Bool-cases, inl, inr,
}
use mdsort.Environment.{Env}
use mdsort.Expr.{Expr}
use mdsort.Eval.State.{ExecStatus, System}
use mdsort.Maildir.{Maildir, Entry, Os, World}
use mdsort.Maildir.Walk.{Found, found, ended, read_error, read_crash, read_exits, maildir_close}
use mdsort.Maildir.Opened.{Opened, opened, not_opened, exits, crashes, maildir_open}
use mdsort.Maildir.Traversal.{Advances, maildir_walk-Advances, OpensPlain, maildir_open-Plain}
use mdsort.Exec.{Input}
use mdsort.Exec.Places.{close_plain}
use mdsort.Main.{Config, isstdin, maildir_skip}
use mdsort.Main.Handle.{Run, Handled, back, died, with_error, handle_message}
use mdsort.Main.Walk.{
  Handler, walk_handled, walk_found, walk_messages, path_closed, path_walked, path_opened, run_path,
  then_run, run_paths, run_configs,
}

abbrev pub Holding : (Run → Type 0) → Handled → Type 0
Holding I (back st) = I st
Holding I (died st) = I st

abbrev pub HoldingAny : (Run → Type 0) → Option Handled → Type 0
HoldingAny I none = Unit
HoldingAny I (some r) = Holding I r

-- A statement on the run that is kept by errors, and by calls that change no file; with the standard
-- input calls may change files.
pub record Kept (env : Env) : Type 1 where
  pub I : Run → Type 0
  pub ticks :
      (st : Run) (w : World)
      → (env.is_stdin ≡ false → w.files ≡ st.world.files)
      → I st
      → I (record st { world = w })
  pub errors : (st : Run) → I st → I (with_error st)

module _ (os : Os) (env : Env) (K : Kept env) (h : Handler)
    (keeps : (md : Maildir) (me : Entry) (st : Run) → K.I st → Holding K.I (h md me st)) where
  -- A maildir is of the standard input only with `-`.
  abbrev Plain : Maildir → Type 0
  Plain md = env.is_stdin ≡ false → md.stdin ≡ false

  abbrev Walked : Option (Maildir × Handled) → Type 0
  Walked none = Unit
  Walked (some (md, r)) = Plain md × Holding K.I r

  walk_found-Walked :
      (again : Maildir → Run → Option (Maildir × Handled)) (md : Maildir) (st : Run)
      (x : Found × Maildir × World)
      → ((md : Maildir) (s : Run) → Plain md → K.I s → Walked (again md s))
      → Plain md
      → Advances md st.world x
      → K.I st
      → Walked (walk_found h again st x)
  unfolding walk_found
  walk_found-Walked again md st (found me, md', w) f e ((a, b), _) i =
      go (h md' me (record st { world = w })) (keeps md' me _ (K.ticks st w (λ _. b) i))
    where
      go : (d : Handled) → Holding K.I d → Walked (walk_handled (again md') md' d)
      go (back s) j = f md' s (λ q. a ∙ e q) j
      go (died s) j = (λ q. a ∙ e q, j)
  walk_found-Walked again md st (ended, md', w) f e (a, b) i =
      (λ q. a ∙ e q, K.ticks st w (λ _. b) i)
  walk_found-Walked again md st (read_error, md', w) f e (a, b) i =
      (λ q. a ∙ e q, K.errors _ (K.ticks st w (λ _. b) i))
  walk_found-Walked again md st (read_crash, md', w) f e (a, b) i =
      (λ q. a ∙ e q, K.ticks st w (λ _. b) i)
  walk_found-Walked again md st (read_exits, md', w) f e (a, b) i =
      (λ q. a ∙ e q, K.ticks st w (λ _. b) i)

  walk_messages-Walked :
      (n : ℕ) (md : Maildir) (st : Run) → Plain md → K.I st → Walked (walk_messages os h n md st)
  unfolding walk_messages
  walk_messages-Walked zero md st e i = tt
  walk_messages-Walked (suc n) md st e i =
      walk_found-Walked (walk_messages os h n) md st _ (walk_messages-Walked n) e
        (maildir_walk-Advances os md st.world) i

  path_walked-Holding :
      (x : Option (Maildir × Handled)) → Walked x → HoldingAny K.I (path_walked os x)
  unfolding path_walked path_closed
  path_walked-Holding none t = tt
  path_walked-Holding (some (md, died s)) (e, i) = i
  path_walked-Holding (some (md, back s)) (e, i) = go (maildir_close os md s.world) refl
    where
      go :
          (o : Option World)
          → maildir_close os md s.world ≡ o
          → Holding K.I (elim o [ none ↦ died s | some w ↦ back (record s { world = w }) ])
      go none q = i
      go (some w) q =
          K.ticks s w
            (λ plain.
              let same : some w ≡ some s.world = sym q ∙ close_plain os md s.world (e plain) in
              let equal : w ≡ s.world = cc in ap (λ v. v.files) equal)
            i

  path_opened-Holding :
      (n : ℕ) (st : Run) (x : Opened × World)
      → (env.is_stdin ≡ false → OpensPlain st.world x)
      → K.I st
      → HoldingAny K.I (path_opened os h n st x)
  unfolding path_opened
  path_opened-Holding n st (opened md, w) f i =
      path_walked-Holding _
        (walk_messages-Walked n md _ (λ q. (f q).0) (K.ticks st w (λ q. (f q).1) i))
  path_opened-Holding n st (not_opened, w) f i = K.errors _ (K.ticks st w f i)
  path_opened-Holding n st (exits, w) f i = K.ticks st w f i
  path_opened-Holding n st (crashes, w) f i = K.ticks st w f i

  -- Without `-` a path that is the standard input is skipped.
  opens-plain :
      (path : Bytes) (w : World)
      → maildir_skip path env ≡ false
      → env.is_stdin ≡ false
      → OpensPlain w (maildir_open os path true (isstdin path) env w)
  unfolding maildir_skip
  opens-plain path w s e = elim (Bool-cases (isstdin path)) [
    | inl b ↦
        let skipped : maildir_skip path env ≡ true = rw (maildir_skip, e, b) refl in
        absurd (ground (arith, s, skipped))
    | inr b ↦ rw (b) (maildir_open-Plain os path env w)
  ]

  run_path-Holding :
      (n : ℕ) (path : Bytes) (st : Run) → K.I st → HoldingAny K.I (run_path os env h n path st)
  unfolding run_path
  run_path-Holding n path st i = elim (Bool-cases (maildir_skip path env)) [
    | inl b ↦ rw (run_path, b) i
    | inr b ↦ rw (run_path, b) (path_opened-Holding n st _ (opens-plain path st.world b) i)
  ]

pub then_run-Holding :
    (I : Run → Type 0) (next : Run → Option Handled) (x : Option Handled)
    → ((st : Run) → I st → HoldingAny I (next st))
    → HoldingAny I x
    → HoldingAny I (then_run next x)
unfolding then_run
then_run-Holding I next none f i = tt
then_run-Holding I next (some (died st)) f i = i
then_run-Holding I next (some (back st)) f i = f st i

pub run_paths-Holding :
    (os : Os) (env : Env) (K : Kept env) (h : Handler)
    → ((md : Maildir) (me : Entry) (st : Run) → K.I st → Holding K.I (h md me st))
    → (n : ℕ) (paths : List Bytes) (st : Run) → K.I st
    → HoldingAny K.I (run_paths os env h n paths st)
unfolding run_paths
run_paths-Holding os env K h keeps n [] st i = i
run_paths-Holding os env K h keeps n (path ∷ paths) st i =
    then_run-Holding K.I _ _ (λ s j. run_paths-Holding os env K h keeps n paths s j)
      (run_path-Holding os env K h keeps n path st i)

pub run_configs-Holding :
    {Tm : Type 0} (sys : System Tm) (os : Os) (run : ℕ → List Bytes → Input → ExecStatus)
    (env : Env) (K : Kept env)
    → ((expr : Expr) (md : Maildir) (me : Entry) (st : Run)
        → K.I st
        → Holding K.I (handle_message sys os run env expr md me st))
    → (n : ℕ) (cl : List Config) (st : Run) → K.I st
    → HoldingAny K.I (run_configs sys os run env n cl st)
unfolding run_configs
run_configs-Holding sys os run env K keeps n [] st i = i
run_configs-Holding sys os run env K keeps n (conf ∷ cl) st i =
    then_run-Holding K.I _ _ (λ s j. run_configs-Holding sys os run env K keeps n cl s j)
      (run_paths-Holding os env K (handle_message sys os run env conf.expr) (keeps conf.expr) n
        conf.paths st i)
