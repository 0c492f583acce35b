-- ===== src/Exec.antt =====
-- match.c: the execution of matches. The commands are run by a parameter, which tells how `exec`
-- ends: `exec` of util.c forks, and waits for what execvp(3) starts.
pub mod Reading
pub mod Places
pub mod Watch
pub mod Steps
pub mod Safe
pub mod Code
pub mod Quiet
use mdsort.Base.{
  ℕ, Bool, true, false, ◌||◌, Option, none, some, List, [], ◌∷◌, ◌++◌, Bytes, if◌then◌else◌,
  get_elem?, set,
}
use mdsort.Environment.{Env}
use mdsort.Expr.{ExprType}
use mdsort.Match.{Match, MatchList}
use mdsort.Message.{Message}
use mdsort.Message.File.{message_write}
use mdsort.Message.Body.{Store, message_get_body}
use mdsort.Eval.State.{ExecStatus, exit_zero, exit_code, exit_fatal}
use mdsort.Maildir.{Maildir, Os, World}
use mdsort.Maildir.Calls.{call}
use mdsort.Maildir.Walk.{maildir_close}
use mdsort.Maildir.Opened.{Opened, opened, not_opened, exits, crashes, maildir_open}
use mdsort.Maildir.Move.{Outcome, maildir_unlink, maildir_move, maildir_write, maildir_same}

-- What a command reads: /dev/null, a text in a temporary file, or the file of a message.
pub data Input : Type 0 where
  no_input : Input
  of_text : Bytes → Input
  of_file : ℕ → Input

-- `chsrc` tells whether `src` has been opened here. `ran` has the commands that were started.
pub record ExecState : Type 0 where
  pub world : World
  pub src : Maildir
  pub chsrc : Bool
  pub store : Store
  pub ran : List (List Bytes × Input)

-- A step goes on, fails, or does not return.
pub data Step : Type 0 where
  goes_on fails ends : ExecState → Step

-- The last call of `message_get_fd`, lseek(2), on a descriptor that is there.
unfoldable pub fd_seeked : Input → Store → Bool × World → Option Input × Store × World
fd_seeked input st (true, w) = (none, st, w)
fd_seeked input st (false, w) = (some input, st, w)

unfoldable pub fd_made : Os → Input → Store → Bool × World → Option Input × Store × World
unfolding fd_seeked call
fd_made os input st (true, w) = (none, st, w)
fd_made os input st (false, w) = fd_seeked input st (call os w)

unfoldable pub fd_of_body : Os → Option Bytes × Store → World → Option Input × Store × World
unfolding fd_made call
fd_of_body os (none, st) w = (none, st, w)
fd_of_body os (some body, st) w = fd_made os (of_text body) st (call os w)

-- An attachment is written to a temporary file: two calls, and the headers are left sorted.
unfoldable pub fd_of_attachment :
    Os → ℕ → Message → Store → Bool × World → Option Input × Store × World
unfolding fd_made call
fd_of_attachment os i msg st (true, w) = (none, st, w)
fd_of_attachment os i msg st (false, w) =
    let (text, msg') = message_write msg in fd_made os (of_text text) (set st i msg') (call os w)

-- `message_get_fd` of the message at an address; `none` is -1.
unfoldable pub get_fd : Os → Bool → ℕ → Message → Store → World → Option Input × Store × World
unfolding fd_of_body fd_of_attachment fd_made call
get_fd os skipheaders i msg st w =
    if skipheaders
    then fd_of_body os (message_get_body i st) w
    else if msg.is_attachment
    then fd_of_attachment os i msg st (call os w)
    else elim msg.fd [ none ↦ (none, st, w) | some fd ↦ fd_made os (of_file fd) st (call os w) ]

abbrev pub rejects : ExprType → Bool
rejects ExprType.reject = true
rejects _ = false

-- How the loop over the list ends: at the end of the list, with `rv`, by an error, or never.
pub data Ending : Type 0 where
  completed : Bool → Ending
  broke_off gone : Ending

unfoldable pub exec_rest : (ExecState → Ending × ExecState) → Step → Ending × ExecState
exec_rest next (goes_on st) = next st
exec_rest next (fails st) = (broke_off, st)
exec_rest next (ends st) = (gone, st)

-- MATCH_EXEC_SUCCESS, MATCH_EXEC_REJECTED and MATCH_EXEC_ERROR.
pub data ExecCode : Type 0 where
  exec_success exec_rejected exec_error exec_gone : ExecCode

unfoldable pub exec_code : Ending → ExecCode
exec_code (completed false) = exec_success
exec_code (completed true) = exec_rejected
exec_code broke_off = exec_error
exec_code gone = exec_gone

unfoldable pub exec_ended : Os → Ending → ExecState → ExecCode × ExecState
unfolding exec_code
exec_ended os e st =
    if st.chsrc
    then elim (maildir_close os st.src st.world) [
      | none ↦ (exec_gone, st)
      | some w ↦ (exec_code e, record st { world = w })
    ]
    else (exec_code e, st)

-- The source is closed if it was opened here.
unfoldable pub exec_finished : Os → Ending × ExecState → ExecCode × ExecState
unfolding exec_ended
exec_finished os (gone, st) = (exec_gone, st)
exec_finished os (e, st) = exec_ended os e st

module _ (os : Os) (run : ℕ → List Bytes → Input → ExecStatus) (env : Env) where
  -- `exec` has ended; a positive number is an error too.
  unfoldable pub exec_ran : List Bytes → Input → ExecState → ExecStatus → Step
  exec_ran argv input st exit_zero = goes_on (record st { ran = st.ran ++ (argv, input) ∷ [] })
  exec_ran argv input st status = fails (record st { ran = st.ran ++ (argv, input) ∷ [] })

  unfoldable pub exec_with : List Bytes → ExecState → Option Input × Store × World → Step
  unfolding exec_ran
  exec_with argv st (none, store, w) = fails (record st { store = store; world = w })
  exec_with argv st (some input, store, w) =
      exec_ran argv input (record st { store = store; world = w }) (run w.calls argv input)

  unfoldable pub exec_command : Match → Message → ExecState → Step
  unfolding exec_with exec_ran get_fd
  exec_command mh msg st =
      if mh.attrs.exec_stdin
      then exec_with mh.argv st (get_fd os mh.attrs.exec_body mh.msg msg st.store st.world)
      else exec_ran mh.argv no_input st (run st.world.calls mh.argv no_input)

  -- Closing a maildir that is not needed any longer.
  unfoldable pub exec_closed : (ExecState → Step) → ExecState → Option World → Step
  exec_closed step st none = ends st
  exec_closed step st (some w) = step (record st { world = w })

  -- The destination becomes the source if it is another maildir.
  unfoldable pub exec_source : Maildir → ExecState → Step
  unfolding exec_closed maildir_same maildir_close
  exec_source dst st =
      if maildir_same st.src dst
      then exec_closed goes_on st (maildir_close os dst st.world)
      else if st.chsrc
      then exec_closed goes_on (record st { src = dst; chsrc = true })
          (maildir_close os st.src st.world)
      else goes_on (record st { src = dst; chsrc = true })

  unfoldable pub exec_moved : Maildir → ℕ → ExecState → Outcome → Step
  unfolding exec_source exec_closed
  exec_moved dst i st (true, msg, w) =
      exec_closed fails (record st { store = set st.store i msg; world = w })
        (maildir_close os dst w)
  exec_moved dst i st (false, msg, w) =
      exec_source dst (record st { store = set st.store i msg; world = w })

  unfoldable pub exec_opened : ℕ → Message → ExecState → Opened × World → Step
  unfolding exec_moved maildir_move
  exec_opened i msg st (opened dst, w) = exec_moved dst i st (maildir_move os st.src dst msg env w)
  exec_opened i msg st (not_opened, w) = fails (record st { world = w })
  exec_opened i msg st (exits, w) = ends (record st { world = w })
  exec_opened i msg st (crashes, w) = ends (record st { world = w })

  unfoldable pub exec_discard : ExecState → Bool × World → Step
  exec_discard st (true, w) = fails (record st { world = w })
  exec_discard st (false, w) = goes_on (record st { world = w })

  unfoldable pub exec_written : ℕ → ExecState → Outcome → Step
  exec_written i st (true, msg, w) = fails (record st { store = set st.store i msg; world = w })
  exec_written i st (false, msg, w) = goes_on (record st { store = set st.store i msg; world = w })

  -- One match of the list, on its message.
  unfoldable pub exec_action : ExprType → Match → Message → ExecState → Step
  unfolding exec_opened exec_discard exec_written exec_command
  exec_action ExprType.flag mh msg st =
      exec_opened mh.msg msg st (maildir_open os mh.path false false env st.world)
  exec_action ExprType.flags mh msg st =
      exec_opened mh.msg msg st (maildir_open os mh.path false false env st.world)
  exec_action ExprType.move mh msg st =
      exec_opened mh.msg msg st (maildir_open os mh.path false false env st.world)
  exec_action ExprType.discard mh msg st =
      exec_discard st (maildir_unlink os st.src msg.name st.world)
  exec_action ExprType.label mh msg st =
      exec_written mh.msg st (maildir_write os st.src msg env st.world)
  exec_action ExprType.add_header mh msg st =
      exec_written mh.msg st (maildir_write os st.src msg env st.world)
  exec_action ExprType.exec mh msg st = exec_command mh msg st
  exec_action _ mh msg st = goes_on st

  unfoldable pub exec_match : Match → ExecState → Step
  unfolding exec_action
  exec_match mh st = elim (get_elem? st.store mh.msg) [
    | none ↦ ends st
    | some msg ↦ exec_action mh.type mh msg st
  ]

  unfoldable pub exec_loop : Bool → MatchList → ExecState → Ending × ExecState
  unfolding exec_rest exec_match
  exec_loop rejected [] st = (completed rejected, st)
  exec_loop rejected (mh ∷ ml) st =
      exec_rest (exec_loop (rejected || rejects mh.type) ml) (exec_match mh st)

  -- `matches_exec` with the maildir of the message.
  unfoldable pub matches_exec : MatchList → Maildir → Store → World → ExecCode × ExecState
  unfolding exec_finished exec_loop
  matches_exec ml src st w =
      exec_finished os
        (exec_loop false ml (record { world = w; src = src; chsrc = false; store = st; ran = [] }))
