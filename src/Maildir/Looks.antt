-- ===== src/Maildir/Looks.antt =====
-- A message that is moved or written is still written as before.
use mdsort.Base.{
  ℕ, Bool, true, false, ◌&&◌, Option, none, some, ◌≡◌, refl, ◌∙◌, Bytes, if◌then◌else◌, bytes_eq,
  Option-cases, inl, inr,
}
use mdsort.Environment.{Env}
use mdsort.Message.{Message}
use mdsort.Message.File.{message_write, message_set_file}
use mdsort.Message.Sorting.{sort_headers-twice}
use mdsort.Maildir.{Maildir, Os, World}
use mdsort.Maildir.Calls.{tick, call, Renamed, renamed, not_renamed, renamed_across, unlink}
use mdsort.Maildir.Names.{msgflags}
use mdsort.Maildir.Move.{
  maildir_unlink, maildir_rename, Outcome, give_up, set_file, move_timed, move_done, move_unlinked,
  move_copied, move_renamed, move_named, move_stated, maildir_move, write_opened, write_unlinked,
  write_written, write_named, maildir_write,
}
use mdsort.Maildir.Files.{message_set_file_lem, if-cases}

-- What `message_write` makes of two messages with the same headers and body.
pub message_write_same :
    (m n : Message)
    → m.headers ≡ n.headers
    → m.body ≡ n.body
    → (message_write m).0 ≡ (message_write n).0
unfolding message_write
message_write_same m n h b = rw (h, b) refl

-- Writing a message again writes the same.
pub message_write_again :
    (m : Message) → (message_write ((message_write m).1)).0 ≡ (message_write m).0
unfolding message_write
message_write_again m = rw (sort_headers-twice m.headers) refl

module _ (shown : Bytes) where
  abbrev pub Looks : Outcome → Type 0
  Looks r = (message_write (r.1)).0 ≡ shown

  set_file-Looks :
      (dst : Maildir) (name : Bytes) (msg : Message) (fd : Option ℕ) (w : World)
      → (message_write msg).0 ≡ shown
      → Looks (set_file dst name msg (message_set_file msg dst.path name fd) w)
  unfolding set_file
  set_file-Looks dst name msg fd w e = go (message_set_file msg dst.path name fd) refl
    where
      go :
          (o : Option Message)
          → message_set_file msg dst.path name fd ≡ o
          → Looks (set_file dst name msg o w)
      go none q = e
      go (some msg') q =
          let (a, b, c) = message_set_file_lem msg msg' dst.path name fd q in
          message_write_same msg' msg b c ∙ e

  move_done-Looks :
      (os : Os) (dst : Maildir) (name : Bytes) (doutime : Bool) (msg : Message) (w : World)
      → (message_write msg).0 ≡ shown
      → Looks (move_done os dst name doutime msg w)
  unfolding move_done move_timed call
  move_done-Looks os dst name doutime msg w e = go (if doutime then call os w else (false, w))
    where
      go : (p : Bool × World) → Looks (move_timed dst name msg p)
      go (true, w') = e
      go (false, w') = set_file-Looks dst name msg none w' e

  move_unlinked-Looks :
      (os : Os) (dst : Maildir) (name : Bytes) (doutime : Bool) (msg : Message) (p : Bool × World)
      → (message_write msg).0 ≡ shown
      → Looks (move_unlinked os dst name doutime msg p)
  unfolding move_unlinked give_up
  move_unlinked-Looks os dst name doutime msg (true, w) e = e
  move_unlinked-Looks os dst name doutime msg (false, w) e =
      move_done-Looks os dst name doutime msg w e

  move_copied-Looks :
      (os : Os) (src dst : Maildir) (name : Bytes) (doutime : Bool) (msg : Message)
      (p : Bool × World)
      → (message_write msg).0 ≡ shown
      → Looks (move_copied os src dst name doutime msg p)
  unfolding move_copied give_up maildir_unlink
  move_copied-Looks os src dst name doutime msg (true, w) e = e
  move_copied-Looks os src dst name doutime msg (false, w) e =
      move_unlinked-Looks os dst name doutime msg _ e

  move_renamed-Looks :
      (os : Os) (src dst : Maildir) (name : Bytes) (doutime : Bool) (msg : Message)
      (p : Renamed × World)
      → (message_write msg).0 ≡ shown
      → Looks (move_renamed os src dst name doutime msg p)
  unfolding move_renamed give_up
  move_renamed-Looks os src dst name doutime msg (renamed, w) e =
      move_done-Looks os dst name doutime msg w e
  move_renamed-Looks os src dst name doutime msg (not_renamed, w) e = e
  move_renamed-Looks os src dst name doutime msg (renamed_across, w) e =
      move_copied-Looks os src dst name doutime _ _ (message_write_again msg ∙ e)

  move_named-Looks :
      (os : Os) (src dst : Maildir) (doutime : Bool) (msg : Message) (p : Option Bytes × World)
      → (message_write msg).0 ≡ shown
      → Looks (move_named os src dst doutime msg p)
  unfolding move_named maildir_rename
  move_named-Looks os src dst doutime msg (none, w) e = e
  move_named-Looks os src dst doutime msg (some name, w) e =
      move_renamed-Looks os src dst name doutime msg _ e

  move_stated-Looks :
      (os : Os) (src dst : Maildir) (msg : Message) (env : Env) (doutime : Bool) (w : World)
      → (message_write msg).0 ≡ shown
      → Looks (move_stated os src dst msg env doutime w)
  unfolding move_stated
  move_stated-Looks os src dst msg env doutime w e =
      elim (Option-cases (msgflags src dst msg.mflags)) [
        | inl f ↦ rw (move_stated, f) e
        | inr f ↦ rw (move_stated, f.1) (move_named-Looks os src dst doutime msg _ e)
      ]

  -- A message that has been moved, or whose move has failed, is written as before.
  pub maildir_move-Looks :
      (os : Os) (src dst : Maildir) (msg : Message) (env : Env) (w : World)
      → (message_write msg).0 ≡ shown
      → Looks (maildir_move os src dst msg env w)
  unfolding maildir_move
  maildir_move-Looks os src dst msg env w e =
      if-cases (src.stdin && bytes_eq src.root dst.root) Looks e (
        if-cases src.stdin Looks (move_stated-Looks os src dst msg env false w e)
          (move_stated-Looks os src dst msg env _ (tick w) e))

  write_written-Looks :
      (os : Os) (md : Maildir) (name : Bytes) (msg : Message) (p : Bool × World)
      → (message_write msg).0 ≡ shown
      → Looks (write_written os md name msg p)
  unfolding write_written write_unlinked write_opened give_up maildir_unlink call
  write_written-Looks os md name msg (true, w) e = e
  write_written-Looks os md name msg (false, w) e = go (unlink os md.path msg.name w)
    where
      open_again : (p : Bool × World) → Looks (write_opened os md name msg p)
      open_again (true, w') = e
      open_again (false, w') = set_file-Looks md name msg (some w'.calls) w' e

      go : (p : Bool × World) → Looks (write_unlinked os md name msg p)
      go (true, w') = e
      go (false, w') = open_again (call os w')

  write_named-Looks :
      (os : Os) (md : Maildir) (msg : Message) (p : Option Bytes × World)
      → (message_write msg).0 ≡ shown
      → Looks (write_named os md msg p)
  unfolding write_named
  write_named-Looks os md msg (none, w) e = e
  write_named-Looks os md msg (some name, w) e =
      write_written-Looks os md name _ _ (message_write_again msg ∙ e)

  -- A message that has been written, or whose writing has failed, is written as before.
  pub maildir_write-Looks :
      (os : Os) (md : Maildir) (msg : Message) (env : Env) (w : World)
      → (message_write msg).0 ≡ shown
      → Looks (maildir_write os md msg env w)
  unfolding maildir_write
  maildir_write-Looks os md msg env w e = elim (Option-cases (msgflags md md msg.mflags)) [
    | inl f ↦ rw (maildir_write, f) e
    | inr f ↦ rw (maildir_write, f.1) (write_named-Looks os md msg _ e)
  ]
