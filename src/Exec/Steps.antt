-- ===== src/Exec/Steps.antt =====
-- Each step of matches_exec keeps what is watched of a message.
use mdsort.Base.{
  ℕ, Bool, true, false, ◌||◌, Option, none, some, List, [], ◌∷◌, ◌≡◌, refl, sym, ap, ◌∙◌, arith,
  Bytes, subst, get_elem?, Bool-cases, Option-cases, inl, inr,
}
use mdsort.Environment.{Env}
use mdsort.Expr.{ExprType}
use mdsort.Match.{Match, MatchList}
use mdsort.Message.{Message}
use mdsort.Message.Body.{Store}
use mdsort.Eval.State.{ExecStatus, exit_zero, exit_code, exit_fatal}
use mdsort.Maildir.{Maildir, Os, World}
use mdsort.Maildir.Opened.{Opened, opened, not_opened, exits, crashes, maildir_open}
use mdsort.Maildir.Move.{Outcome, maildir_write, maildir_same}
use mdsort.Exec.{
  Input, no_input, ExecState, Step, goes_on, fails, ends, rejects, Ending, completed, broke_off,
  gone, exec_rest, exec_ended, exec_finished, exec_ran, exec_with, exec_command, exec_closed,
  exec_source, exec_moved, exec_opened, exec_discard, exec_written, exec_action, exec_match,
  exec_loop, matches_exec,
}
use mdsort.Exec.Reading.{get_set, Reads, get_fd-Reads}
use mdsort.Exec.Places.{Placed, Opens, maildir_open-Opens, close_plain, same-path}
use mdsort.Exec.Watch.{Left, Watch, Relevant, Concerns}

module _ (os : Os) (run : ℕ → List Bytes → Input → ExecStatus) (env : Env) (i : ℕ)
    (W : Watch os env) where
  -- The message is watched in the directory of the maildir that is open.
  abbrev pub Holds : ExecState → Type 0
  Holds st =
      (m : Message) × (get_elem? st.store i ≡ some m)
      × W.At st.src.path m st.world
      × Placed st.src
      × (st.chsrc ≡ true → st.src.stdin ≡ false)

  abbrev pub Rests : ExecState → Type 0
  Rests st = W.After st.world × (st.chsrc ≡ true → st.src.stdin ≡ false)

  abbrev pub Steps : Step → Type 0
  Steps (goes_on st) = Holds st
  Steps (fails st) = Rests st
  Steps (ends st) = W.After st.world

  exec_ran-Steps :
      (argv : List Bytes) (input : Input) (st : ExecState) (s : ExecStatus)
      → Holds st
      → Steps (exec_ran os run env argv input st s)
  unfolding exec_ran
  exec_ran-Steps argv input st exit_zero h = h
  exec_ran-Steps argv input st (exit_code k) (m, e, a, p, c) =
      (W.settles st.src.path m st.world a, c)
  exec_ran-Steps argv input st exit_fatal (m, e, a, p, c) = (W.settles st.src.path m st.world a, c)

  exec_with-Steps :
      (argv : List Bytes) (st : ExecState) (m : Message) (r : Option Input × Store × World)
      → W.At st.src.path m st.world
      → Placed st.src
      → (st.chsrc ≡ true → st.src.stdin ≡ false)
      → Reads i m st.world r
      → Steps (exec_with os run env argv st r)
  unfolding exec_with
  exec_with-Steps argv st m (none, store, w) a p c (k, f) =
      (W.rests st.world w f (W.settles st.src.path m st.world a), c)
  exec_with-Steps argv st m (some input, store, w) a p c ((n, e, x, y), f) =
      exec_ran-Steps argv input _ (run w.calls argv input)
        (n, e, W.stays st.src.path m n st.world w x y f a, p, c)

  exec_command-Steps :
      (mh : Match) (msg : Message) (st : ExecState)
      → get_elem? st.store mh.msg ≡ some msg
      → Holds st
      → Steps (exec_command os run env mh msg st)
  unfolding exec_command
  exec_command-Steps mh msg st q (m, e, a, p, c) = elim (Bool-cases mh.attrs.exec_stdin) [
    | inl b ↦
        rw (exec_command, b)
          (exec_with-Steps mh.argv st m _ a p c
            (get_fd-Reads os mh.attrs.exec_body i mh.msg m msg st.store st.world e q))
    | inr b ↦ rw (exec_command, b) (exec_ran-Steps mh.argv no_input st _ (m, e, a, p, c))
  ]

  -- The message is in the destination, which is opened.
  exec_source-Steps :
      (dst : Maildir) (st : ExecState) (m : Message)
      → get_elem? st.store i ≡ some m
      → W.At dst.path m st.world
      → Placed st.src
      → Placed dst
      → (st.chsrc ≡ true → st.src.stdin ≡ false)
      → dst.stdin ≡ false
      → Steps (exec_source os run env dst st)
  unfolding exec_source exec_closed
  exec_source-Steps dst st m e a p q c s = elim (Bool-cases (maildir_same st.src dst)) [
    | inl b ↦
        rw (exec_source, b, close_plain os dst st.world s)
          (m, e, rw (same-path st.src dst p q b) a, p, c)
    | inr b ↦ elim (Bool-cases st.chsrc) [
      | inl x ↦ rw (exec_source, b, x, close_plain os st.src st.world (c x)) (m, e, a, q, λ _. s)
      | inr x ↦ rw (exec_source, b, x) (m, e, a, q, λ _. s)
    ]
  ]

  exec_moved-Steps :
      (dst : Maildir) (j : ℕ) (st : ExecState) (m : Message) (r : Outcome)
      → get_elem? st.store i ≡ some m
      → j ≡ i
      → Left W.At W.After dst.path r
      → Placed st.src
      → Placed dst
      → (st.chsrc ≡ true → st.src.stdin ≡ false)
      → dst.stdin ≡ false
      → Steps (exec_moved os run env dst j st r)
  unfolding exec_moved exec_closed
  exec_moved-Steps dst j st m (true, n, w) e y a p q c s =
      rw (exec_moved, close_plain os dst w s) (a, c)
  exec_moved-Steps dst j st m (false, n, w) e y a p q c s =
      exec_source-Steps dst _ n (get_set st.store i j m n y e) a p q c s

  exec_opened-Steps :
      (j : ℕ) (m : Message) (st : ExecState) (r : Opened × World)
      → get_elem? st.store i ≡ some m
      → j ≡ i
      → W.At st.src.path m st.world
      → Placed st.src
      → (st.chsrc ≡ true → st.src.stdin ≡ false)
      → Opens st.world r
      → Steps (exec_opened os run env j m st r)
  unfolding exec_opened
  exec_opened-Steps j m st (opened dst, w) e y a p c (q, s, f) =
      exec_moved-Steps dst j st m _ e y
        (W.moves st.src dst m w (W.stays st.src.path m m st.world w refl refl f a)) p q c s
  exec_opened-Steps j m st (not_opened, w) e y a p c f =
      (W.rests st.world w f (W.settles st.src.path m st.world a), c)
  exec_opened-Steps j m st (exits, w) e y a p c f =
      W.rests st.world w f (W.settles st.src.path m st.world a)
  exec_opened-Steps j m st (crashes, w) e y a p c f =
      W.rests st.world w f (W.settles st.src.path m st.world a)

  exec_discard-Steps :
      (st : ExecState) (m : Message) (r : Bool × World)
      → get_elem? st.store i ≡ some m
      → Left W.At W.After st.src.path (r.0, m, r.1)
      → Placed st.src
      → (st.chsrc ≡ true → st.src.stdin ≡ false)
      → Steps (exec_discard os run env st r)
  unfolding exec_discard
  exec_discard-Steps st m (true, w) e a p c = (a, c)
  exec_discard-Steps st m (false, w) e a p c = (m, e, a, p, c)

  exec_written-Steps :
      (j : ℕ) (st : ExecState) (m : Message) (r : Outcome)
      → get_elem? st.store i ≡ some m
      → j ≡ i
      → Left W.At W.After st.src.path r
      → Placed st.src
      → (st.chsrc ≡ true → st.src.stdin ≡ false)
      → Steps (exec_written os run env j st r)
  unfolding exec_written
  exec_written-Steps j st m (true, n, w) e y a p c = (a, c)
  exec_written-Steps j st m (false, n, w) e y a p c = (n, get_set st.store i j m n y e, a, p, c)

  exec_action-Steps :
      (t : ExprType) (mh : Match) (msg : Message) (st : ExecState)
      → Relevant W.Discards i t mh.msg
      → get_elem? st.store mh.msg ≡ some msg
      → Holds st
      → Steps (exec_action os run env t mh msg st)
  unfolding exec_action
  exec_action-Steps t mh msg st r q (m, e, a, p, c) = go t r
    where
      -- The message of a relevant match is the one that is watched.
      here : mh.msg ≡ i → (get_elem? st.store i ≡ some msg) × W.At st.src.path msg st.world
      here y =
          let found : get_elem? st.store i ≡ some msg = ap (get_elem? st.store) (sym y) ∙ q in
          let same : m ≡ msg = cc in (found, subst (λ x. W.At st.src.path x st.world) same a)

      goes :
          mh.msg ≡ i
          → Steps (
              exec_opened os run env mh.msg msg st
                (maildir_open os mh.path false false env st.world))
      goes y =
          exec_opened-Steps mh.msg msg st _ (here y).0 y (here y).1 p c
            (maildir_open-Opens os mh.path env st.world)

      wrote :
          mh.msg ≡ i
          → Steps (exec_written os run env mh.msg st (maildir_write os st.src msg env st.world))
      wrote y =
          exec_written-Steps mh.msg st msg _ (here y).0 y (W.writes st.src msg st.world (here y).1)
            p c

      go :
          (t : ExprType)
          → Relevant W.Discards i t mh.msg
          → Steps (exec_action os run env t mh msg st)
      go ExprType.flag y = goes y
      go ExprType.flags y = goes y
      go ExprType.move y = goes y
      go ExprType.discard (y, d) =
          exec_discard-Steps st msg _ (here y).0 (W.discards d st.src msg st.world (here y).1) p c
      go ExprType.label y = wrote y
      go ExprType.add_header y = wrote y
      go ExprType.exec y = exec_command-Steps mh msg st q (m, e, a, p, c)
      go _ y = (m, e, a, p, c)

  exec_match-Steps :
      (mh : Match) (st : ExecState)
      → Relevant W.Discards i mh.type mh.msg
      → Holds st
      → Steps (exec_match os run env mh st)
  unfolding exec_match
  exec_match-Steps mh st r (m, e, a, p, c) = elim (Option-cases (get_elem? st.store mh.msg)) [
    | inl q ↦ rw (exec_match, q) (W.settles st.src.path m st.world a)
    | inr q ↦ rw (exec_match, q.1) (exec_action-Steps mh.type mh q.0 st r q.1 (m, e, a, p, c))
  ]

  -- What is known when the loop has ended.
  abbrev Ended : Ending × ExecState → Type 0
  Ended (gone, st) = W.After st.world
  Ended (_, st) = Rests st

  exec_rest-Ended :
      (next : ExecState → Ending × ExecState)
      → ((st : ExecState) → Holds st → Ended (next st))
      → (s : Step) → Steps s
      → Ended (exec_rest next s)
  unfolding exec_rest
  exec_rest-Ended next f (goes_on st) h = f st h
  exec_rest-Ended next f (fails st) h = h
  exec_rest-Ended next f (ends st) h = h

  exec_loop-Ended :
      (rejected : Bool) (ml : MatchList) (st : ExecState)
      → Concerns W.Discards i ml
      → Holds st
      → Ended (exec_loop os run env rejected ml st)
  unfolding exec_loop
  exec_loop-Ended rejected [] st r (m, e, a, p, c) = (W.settles st.src.path m st.world a, c)
  exec_loop-Ended rejected (mh ∷ ml) st (r, rs) h =
      exec_rest-Ended (exec_loop os run env (rejected || rejects mh.type) ml)
        (λ st' h'. exec_loop-Ended (rejected || rejects mh.type) ml st' rs h')
        (exec_match os run env mh st) (exec_match-Steps mh st r h)

  exec_ended-After : (e : Ending) (st : ExecState) → Rests st → W.After (exec_ended os e st).1.world
  unfolding exec_ended
  exec_ended-After e st (a, c) = elim (Bool-cases st.chsrc) [
    | inl x ↦ rw (exec_ended, x, close_plain os st.src st.world (c x)) a
    | inr x ↦ rw (exec_ended, x) a
  ]

  exec_finished-After : (r : Ending × ExecState) → Ended r → W.After (exec_finished os r).1.world
  unfolding exec_finished
  exec_finished-After (gone, st) a = a
  exec_finished-After (completed b, st) a = exec_ended-After (completed b) st a
  exec_finished-After (broke_off, st) a = exec_ended-After broke_off st a

  -- If it holds of the message before, it is left over by matches_exec, whichever calls of the system
  -- and whichever commands fail.
  pub matches_exec-After :
      (ml : MatchList) (src : Maildir) (store : Store) (m : Message) (w : World)
      → Concerns W.Discards i ml
      → Placed src
      → get_elem? store i ≡ some m
      → W.At src.path m w
      → W.After (matches_exec os run env ml src store w).1.world
  unfolding matches_exec
  matches_exec-After ml src store m w r p e a =
      exec_finished-After _ (exec_loop-Ended false ml _ r (m, e, a, p, λ x. ground (arith, x)))
