-- ===== src/Exec/Code.antt =====
-- What matches_exec returns.
use mdsort.Base.{
  ℕ, Bool, true, false, ◌||◌, List, [], ◌∷◌, ◌≡◌, refl, sym, arith, Bytes, Bool-cases, Option-cases,
  inl, inr,
}
use mdsort.Environment.{Env}
use mdsort.Match.{Match, MatchList, is_type}
use mdsort.Expr.{ExprType, type_eq, type_value}
use mdsort.Message.Body.{Store}
use mdsort.Eval.State.{ExecStatus}
use mdsort.Maildir.{Maildir, Os, World}
use mdsort.Maildir.Walk.{maildir_close}
use mdsort.Exec.{
  Input, ExecState, Step, goes_on, fails, ends, rejects, Ending, completed, broke_off, gone,
  exec_rest, exec_loop, exec_ended, exec_finished, ExecCode, exec_success, exec_rejected, exec_code,
  exec_match, matches_exec,
}

-- Whether the type of a match of the list is that of the action `reject`.
abbrev pub has_reject : MatchList → Bool
has_reject [] = false
has_reject (mh ∷ ml) = is_type ExprType.reject mh || has_reject ml

rejects-is_type : (mh : Match) → rejects mh.type ≡ is_type ExprType.reject mh
unfolding type_eq type_value
rejects-is_type mh = go mh.type
  where
    go : (t : ExprType) → rejects t ≡ type_eq t ExprType.reject
    go t = ground arith

-- The whole list has been executed, and `b` tells of a reject, or it has not been.
abbrev Completes : Bool → Ending × ExecState → Type 0
Completes b (completed c, st) = c ≡ b
Completes b (_, st) = Unit

module _ (os : Os) (run : ℕ → List Bytes → Input → ExecStatus) (env : Env) where
  exec_rest-Completes :
      (b : Bool) (next : ExecState → Ending × ExecState) (s : Step)
      → ((st : ExecState) → Completes b (next st))
      → Completes b (exec_rest next s)
  unfolding exec_rest
  exec_rest-Completes b next (goes_on st) f = f st
  exec_rest-Completes b next (fails st) f = tt
  exec_rest-Completes b next (ends st) f = tt

  exec_loop-Completes :
      (rejected : Bool) (ml : MatchList) (st : ExecState)
      → Completes (rejected || has_reject ml) (exec_loop os run env rejected ml st)
  unfolding exec_loop
  exec_loop-Completes true [] st = refl
  exec_loop-Completes false [] st = refl
  exec_loop-Completes true (mh ∷ ml) st =
      exec_rest-Completes true (exec_loop os run env true ml) (exec_match os run env mh st)
        (exec_loop-Completes true ml)
  exec_loop-Completes false (mh ∷ ml) st = rw (sym (rejects-is_type mh)) (
      exec_rest-Completes (rejects mh.type || has_reject ml)
        (exec_loop os run env (rejects mh.type) ml) (exec_match os run env mh st)
        (exec_loop-Completes (rejects mh.type) ml))

-- What a returned code tells of the list.
abbrev pub Tells : Bool → ExecCode → Type 0
Tells b exec_success = b ≡ false
Tells b exec_rejected = b ≡ true
Tells b _ = Unit

exec_code-Tells :
    (b : Bool) (e : Ending) (st : ExecState) → Completes b (e, st) → Tells b (exec_code e)
unfolding exec_code
exec_code-Tells b (completed true) st h = sym h
exec_code-Tells b (completed false) st h = sym h
exec_code-Tells b broke_off st h = tt
exec_code-Tells b gone st h = tt

exec_ended-Tells :
    (b : Bool) (os : Os) (e : Ending) (st : ExecState)
    → Completes b (e, st)
    → Tells b (exec_ended os e st).0
unfolding exec_ended
exec_ended-Tells b os e st h = elim (Bool-cases st.chsrc) [
  | inr c ↦ rw (exec_ended, c) (exec_code-Tells b e st h)
  | inl c ↦ elim (Option-cases (maildir_close os st.src st.world)) [
    | inl n ↦ rw (exec_ended, c, n) tt
    | inr n ↦ rw (exec_ended, c, n.1) (exec_code-Tells b e st h)
  ]
]

exec_finished-Tells :
    (b : Bool) (os : Os) (r : Ending × ExecState) → Completes b r → Tells b (exec_finished os r).0
unfolding exec_finished
exec_finished-Tells b os (completed c, st) h = exec_ended-Tells b os (completed c) st h
exec_finished-Tells b os (broke_off, st) h = exec_ended-Tells b os broke_off st h
exec_finished-Tells b os (gone, st) h = tt

-- `matches_exec` answers success only for a list without a reject, and rejected only for a list with
-- one.
pub matches_exec-Tells :
    (os : Os) (run : ℕ → List Bytes → Input → ExecStatus) (env : Env) (ml : MatchList)
    (src : Maildir) (store : Store) (w : World)
    → Tells (has_reject ml) (matches_exec os run env ml src store w).0
unfolding matches_exec
matches_exec-Tells os run env ml src store w =
    exec_finished-Tells (has_reject ml) os _ (exec_loop-Completes os run env false ml _)
