-- ===== src/Exec/Quiet.antt =====
-- Without exec matches no command is started.
use mdsort.Base.{
  ℕ, Bool, true, false, ◌||◌, Option, none, some, List, [], ◌∷◌, ◌≡◌, refl, ◌∙◌, Bytes,
  Option-cases, inl, inr, get_elem?, if◌then◌else◌,
}
use mdsort.Environment.{Env}
use mdsort.Expr.{ExprType}
use mdsort.Match.{Match, MatchList}
use mdsort.Message.{Message}
use mdsort.Message.Body.{Store}
use mdsort.Eval.State.{ExecStatus}
use mdsort.Maildir.{Maildir, Os, World}
use mdsort.Maildir.Files.{if-cases}
use mdsort.Maildir.Move.{Outcome, maildir_move, maildir_same}
use mdsort.Maildir.Opened.{Opened, opened, not_opened, exits, crashes}
use mdsort.Maildir.Walk.{maildir_close}
use mdsort.Exec.{
  Input, ExecState, Step, goes_on, fails, ends, Ending, completed, broke_off, gone, rejects,
  exec_rest, exec_ended, exec_finished, exec_closed, exec_source, exec_moved, exec_opened,
  exec_discard, exec_written, exec_action, exec_match, exec_loop, matches_exec, ExecCode, exec_gone,
  exec_code,
}

-- No match is an exec.
abbrev pub NoExec : MatchList → Type 0
NoExec [] = Unit
NoExec (mh ∷ ml) = (mh.type ≡ ExprType.exec → ⊥) × NoExec ml

-- The commands started by a step.
abbrev RanBy : List (List Bytes × Input) → Step → Type 0
RanBy r (goes_on st) = st.ran ≡ r
RanBy r (fails st) = st.ran ≡ r
RanBy r (ends st) = st.ran ≡ r

module _ (os : Os) (run : ℕ → List Bytes → Input → ExecStatus) (env : Env) where
  exec_closed-RanBy :
      (step : ExecState → Step) (st : ExecState) (o : Option World)
      → ((s : ExecState) → RanBy s.ran (step s))
      → RanBy st.ran (exec_closed os run env step st o)
  unfolding exec_closed
  exec_closed-RanBy step st none h = refl
  exec_closed-RanBy step st (some w) h = h (record st { world = w })

  exec_source-RanBy :
      (dst : Maildir) (st : ExecState) → RanBy st.ran (exec_source os run env dst st)
  unfolding exec_source
  exec_source-RanBy dst st =
      if-cases (maildir_same st.src dst) (RanBy st.ran)
        (exec_closed-RanBy goes_on st (maildir_close os dst st.world) (λ s. refl))
        (if-cases st.chsrc (RanBy st.ran)
          (exec_closed-RanBy goes_on (record st { src = dst; chsrc = true })
            (maildir_close os st.src st.world) (λ s. refl))
          refl)

  exec_moved-RanBy :
      (dst : Maildir) (i : ℕ) (st : ExecState) (r : Outcome)
      → RanBy st.ran (exec_moved os run env dst i st r)
  unfolding exec_moved
  exec_moved-RanBy dst i st (true, msg, w) =
      exec_closed-RanBy fails _ (maildir_close os dst w) (λ s. refl)
  exec_moved-RanBy dst i st (false, msg, w) = exec_source-RanBy dst _

  exec_opened-RanBy :
      (i : ℕ) (msg : Message) (st : ExecState) (r : Opened × World)
      → RanBy st.ran (exec_opened os run env i msg st r)
  unfolding exec_opened
  exec_opened-RanBy i msg st (opened dst, w) =
      exec_moved-RanBy dst i st (maildir_move os st.src dst msg env w)
  exec_opened-RanBy i msg st (not_opened, w) = refl
  exec_opened-RanBy i msg st (exits, w) = refl
  exec_opened-RanBy i msg st (crashes, w) = refl

  exec_discard-RanBy :
      (st : ExecState) (r : Bool × World) → RanBy st.ran (exec_discard os run env st r)
  unfolding exec_discard
  exec_discard-RanBy st (true, w) = refl
  exec_discard-RanBy st (false, w) = refl

  exec_written-RanBy :
      (i : ℕ) (st : ExecState) (r : Outcome) → RanBy st.ran (exec_written os run env i st r)
  unfolding exec_written
  exec_written-RanBy i st (true, msg, w) = refl
  exec_written-RanBy i st (false, msg, w) = refl

  exec_action-RanBy :
      (t : ExprType) (mh : Match) (msg : Message) (st : ExecState)
      → (t ≡ ExprType.exec → ⊥)
      → RanBy st.ran (exec_action os run env t mh msg st)
  unfolding exec_action
  exec_action-RanBy ExprType.flag mh msg st n = exec_opened-RanBy mh.msg msg st _
  exec_action-RanBy ExprType.flags mh msg st n = exec_opened-RanBy mh.msg msg st _
  exec_action-RanBy ExprType.move mh msg st n = exec_opened-RanBy mh.msg msg st _
  exec_action-RanBy ExprType.discard mh msg st n = exec_discard-RanBy st _
  exec_action-RanBy ExprType.label mh msg st n = exec_written-RanBy mh.msg st _
  exec_action-RanBy ExprType.add_header mh msg st n = exec_written-RanBy mh.msg st _
  exec_action-RanBy ExprType.exec mh msg st n = absurd (n refl)
  exec_action-RanBy _ mh msg st n = refl

  exec_match-RanBy :
      (mh : Match) (st : ExecState)
      → (mh.type ≡ ExprType.exec → ⊥)
      → RanBy st.ran (exec_match os run env mh st)
  unfolding exec_match
  exec_match-RanBy mh st n = elim (Option-cases (get_elem? st.store mh.msg)) [
    | inl e ↦ rw (exec_match, e) refl
    | inr e ↦ rw (exec_match, e.1) (exec_action-RanBy mh.type mh e.0 st n)
  ]

  exec_rest-ran :
      (next : ExecState → Ending × ExecState) (r : List (List Bytes × Input)) (s : Step)
      → ((st : ExecState) → (next st).1.ran ≡ st.ran)
      → RanBy r s
      → (exec_rest next s).1.ran ≡ r
  unfolding exec_rest
  exec_rest-ran next r (goes_on st) f h = f st ∙ h
  exec_rest-ran next r (fails st) f h = h
  exec_rest-ran next r (ends st) f h = h

  exec_loop-ran :
      (rejected : Bool) (ml : MatchList) (st : ExecState)
      → NoExec ml
      → (exec_loop os run env rejected ml st).1.ran ≡ st.ran
  unfolding exec_loop
  exec_loop-ran rejected [] st n = refl
  exec_loop-ran rejected (mh ∷ ml) st n =
      exec_rest-ran (exec_loop os run env (rejected || rejects mh.type) ml) st.ran
        (exec_match os run env mh st) (λ s. exec_loop-ran (rejected || rejects mh.type) ml s n.1)
        (exec_match-RanBy mh st n.0)

  abbrev RanIn : List (List Bytes × Input) → ExecCode × ExecState → Type 0
  RanIn l r = r.1.ran ≡ l

  exec_ended-ran : (e : Ending) (st : ExecState) → (exec_ended os e st).1.ran ≡ st.ran
  unfolding exec_ended
  exec_ended-ran e st = go (maildir_close os st.src st.world) st.chsrc
    where
      go :
          (o : Option World) (b : Bool)
          → RanIn st.ran (
              if b
              then elim o [
                | none ↦ (exec_gone, st)
                | some w ↦ (exec_code e, record st { world = w })
              ]
              else (exec_code e, st))
      go none true = refl
      go (some w) true = refl
      go o false = refl

  exec_finished-ran : (r : Ending × ExecState) → (exec_finished os r).1.ran ≡ r.1.ran
  unfolding exec_finished
  exec_finished-ran (gone, st) = refl
  exec_finished-ran (completed b, st) = exec_ended-ran (completed b) st
  exec_finished-ran (broke_off, st) = exec_ended-ran broke_off st

  -- Executing a list without exec matches starts no command.
  pub matches_exec-quiet :
      (ml : MatchList) (src : Maildir) (store : Store) (w : World)
      → NoExec ml
      → (matches_exec os run env ml src store w).1.ran ≡ []
  unfolding matches_exec
  matches_exec-quiet ml src store w n =
      let st : ExecState = record {
        world = w;
        src = src;
        chsrc = false;
        store = store;
        ran = [];
      } in
      exec_finished-ran (exec_loop os run env false ml st) ∙ exec_loop-ran false ml st n
