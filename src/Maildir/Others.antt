-- ===== src/Maildir/Others.antt =====
-- Moving and writing a message leaves every other message as it is.
use mdsort.Base.{
  ℕ, zero, suc, ◌+◌, ◌%◌, ◌^◌, Bool, true, false, Option, none, some, ◌≡◌, refl, Bytes, leb, length,
  bytes_eq, ◌&&◌, Bool-cases, Option-cases, inl, inr,
}
use mdsort.Util.{name_max}
use mdsort.Environment.{Env}
use mdsort.Message.{Message}
use mdsort.Message.File.{message_write, message_set_file}
use mdsort.Maildir.{Maildir, Os, World}
use mdsort.Maildir.Calls.{
  tick, call, Created, created, taken, refused, create, Renamed, renamed, not_renamed,
  renamed_across,
}
use mdsort.Maildir.Names.{candidate, genname_next, genname_loop, maildir_genname, msgflags}
use mdsort.Maildir.Move.{
  maildir_unlink, maildir_rename, Outcome, give_up, set_file, move_timed, move_done, move_unlinked,
  move_copied, move_renamed, move_named, move_stated, maildir_move, write_opened, write_unlinked,
  write_written, write_named, maildir_write,
}
use mdsort.Maildir.Files.{
  Has, Apart, message_set_file_lem, if-cases, create-Has, create-Apart, unlink-Has, write-Has,
  rename-Has,
}

-- The file of a new name is another one than the one that is watched.
abbrev pub Fresh : Bytes → Bytes → Bytes → Bytes → Option Bytes × World → Type 0
Fresh d n t dir (none, w) = Has d n t w
Fresh d n t dir (some name, w) = Has d n t w × Apart dir name d n

-- The watched file is as it was, and after a success it is not the message's new one.
abbrev pub Untouched : Bytes → Bytes → Bytes → Bytes → Outcome → Type 0
Untouched d n t dir (true, msg, w) = Has d n t w
Untouched d n t dir (false, msg, w) = Has d n t w × Apart dir msg.name d n

module _ (os : Os) (d n t : Bytes) where
  genname_next-Fresh :
      (next : World → Option Bytes × World) (dir name : Bytes)
      → ((w : World) → Has d n t w → Fresh d n t dir (next w))
      → (p : Created × World) → Has d n t p.1
      → (p.0 ≡ created → Apart dir name d n)
      → Fresh d n t dir (genname_next next name p)
  unfolding genname_next
  genname_next-Fresh next dir name f (created, w) h a = (h, a refl)
  genname_next-Fresh next dir name f (taken, w) h a = f w h
  genname_next-Fresh next dir name f (refused, w) h a = h

  genname_loop-Fresh :
      (fuel : ℕ) (dir : Bytes) (env : Env) (flags : Bytes) (count : ℕ) (w : World)
      → Has d n t w
      → Fresh d n t dir (genname_loop os fuel dir env flags count w)
  unfolding genname_loop
  genname_loop-Fresh zero dir env flags count w h =
      let name = candidate env flags ((count + 1) % 2 ^ 32) in
      elim (Bool-cases (leb (name_max + 1) (length name))) [
        | inl e ↦ rw (genname_loop, e) h
        | inr e ↦ rw (genname_loop, e) h
      ]
  genname_loop-Fresh (suc fuel) dir env flags count w h =
      let count' = (count + 1) % 2 ^ 32 in
      let name = candidate env flags count' in
      elim (Bool-cases (leb (name_max + 1) (length name))) [
        | inl e ↦ rw (genname_loop, e) h
        | inr e ↦
            rw (genname_loop, e)
              (genname_next-Fresh (genname_loop os fuel dir env flags count') dir name
                (genname_loop-Fresh fuel dir env flags count') (create os dir name w)
                (create-Has os d n t dir name w h) (create-Apart os d n t dir name w h))
      ]

  pub maildir_genname-Fresh :
      (md : Maildir) (flags : Bytes) (env : Env) (w : World)
      → Has d n t w
      → Fresh d n t md.path (maildir_genname os md flags env w)
  unfolding maildir_genname
  maildir_genname-Fresh md flags env w h = genname_loop-Fresh os.rounds md.path env flags _ w h

  give_up-Untouched :
      (dst : Maildir) (name : Bytes) (msg : Message) (w : World)
      → Apart dst.path name d n
      → Has d n t w
      → Untouched d n t dst.path (give_up os dst name msg w)
  unfolding give_up maildir_unlink
  give_up-Untouched dst name msg w a h = unlink-Has os d n t dst.path name w a h

  set_file-Untouched :
      (dst : Maildir) (name : Bytes) (msg : Message) (fd : Option ℕ) (w : World)
      → Apart dst.path name d n
      → Has d n t w
      → Untouched d n t dst.path (set_file dst name msg (message_set_file msg dst.path name fd) w)
  unfolding set_file
  set_file-Untouched dst name msg fd w a h = go (message_set_file msg dst.path name fd) refl
    where
      go :
          (o : Option Message)
          → message_set_file msg dst.path name fd ≡ o
          → Untouched d n t dst.path (set_file dst name msg o w)
      go none e = h
      go (some msg') e = (h, rw (message_set_file_lem msg msg' dst.path name fd e).0 a)

  move_timed-Untouched :
      (dst : Maildir) (name : Bytes) (msg : Message) (p : Bool × World)
      → Apart dst.path name d n
      → Has d n t p.1
      → Untouched d n t dst.path (move_timed dst name msg p)
  unfolding move_timed
  move_timed-Untouched dst name msg (true, w) a h = h
  move_timed-Untouched dst name msg (false, w) a h = set_file-Untouched dst name msg none w a h

  move_done-Untouched :
      (dst : Maildir) (name : Bytes) (doutime : Bool) (msg : Message) (w : World)
      → Apart dst.path name d n
      → Has d n t w
      → Untouched d n t dst.path (move_done os dst name doutime msg w)
  unfolding move_done call
  move_done-Untouched dst name true msg w a h = move_timed-Untouched dst name msg _ a h
  move_done-Untouched dst name false msg w a h = move_timed-Untouched dst name msg (false, w) a h

  move_unlinked-Untouched :
      (dst : Maildir) (name : Bytes) (doutime : Bool) (msg : Message) (p : Bool × World)
      → Apart dst.path name d n
      → Has d n t p.1
      → Untouched d n t dst.path (move_unlinked os dst name doutime msg p)
  unfolding move_unlinked
  move_unlinked-Untouched dst name doutime msg (true, w) a h = give_up-Untouched dst name msg w a h
  move_unlinked-Untouched dst name doutime msg (false, w) a h =
      move_done-Untouched dst name doutime msg w a h

  move_copied-Untouched :
      (src dst : Maildir) (name : Bytes) (doutime : Bool) (msg : Message) (p : Bool × World)
      → Apart src.path msg.name d n
      → Apart dst.path name d n
      → Has d n t p.1
      → Untouched d n t dst.path (move_copied os src dst name doutime msg p)
  unfolding move_copied maildir_unlink
  move_copied-Untouched src dst name doutime msg (true, w) b a h =
      give_up-Untouched dst name msg w a h
  move_copied-Untouched src dst name doutime msg (false, w) b a h =
      move_unlinked-Untouched dst name doutime msg _ a (unlink-Has os d n t src.path msg.name w b h)

  move_renamed-Untouched :
      (src dst : Maildir) (name : Bytes) (doutime : Bool) (msg : Message) (p : Renamed × World)
      → Apart src.path msg.name d n
      → Apart dst.path name d n
      → Has d n t p.1
      → Untouched d n t dst.path (move_renamed os src dst name doutime msg p)
  unfolding move_renamed message_write
  move_renamed-Untouched src dst name doutime msg (renamed, w) b a h =
      move_done-Untouched dst name doutime msg w a h
  move_renamed-Untouched src dst name doutime msg (not_renamed, w) b a h =
      give_up-Untouched dst name msg w a h
  move_renamed-Untouched src dst name doutime msg (renamed_across, w) b a h =
      move_copied-Untouched src dst name doutime _ _ b a (write-Has os d n t _ dst.path name w a h)

  move_named-Untouched :
      (src dst : Maildir) (doutime : Bool) (msg : Message) (p : Option Bytes × World)
      → Apart src.path msg.name d n
      → Fresh d n t dst.path p
      → Untouched d n t dst.path (move_named os src dst doutime msg p)
  unfolding move_named maildir_rename
  move_named-Untouched src dst doutime msg (none, w) b h = h
  move_named-Untouched src dst doutime msg (some name, w) b (h, a) =
      move_renamed-Untouched src dst name doutime msg _ b a
        (rename-Has os d n t src.path msg.name dst.path name w b a h)

  move_stated-Untouched :
      (src dst : Maildir) (msg : Message) (env : Env) (doutime : Bool) (w : World)
      → Apart src.path msg.name d n
      → Has d n t w
      → Untouched d n t dst.path (move_stated os src dst msg env doutime w)
  unfolding move_stated
  move_stated-Untouched src dst msg env doutime w b h =
      elim (Option-cases (msgflags src dst msg.mflags)) [
        | inl e ↦ rw (move_stated, e) h
        | inr e ↦
            rw (move_stated, e.1)
              (move_named-Untouched src dst doutime msg _ b (maildir_genname-Fresh dst e.0 env w h))
      ]

  -- Whatever `maildir_move` does, and whichever call of the system fails, every file other than that
  -- of the message keeps its content, and after a success the message is in none of them.
  pub maildir_move-Untouched :
      (src dst : Maildir) (msg : Message) (env : Env) (w : World)
      → Apart src.path msg.name d n
      → Has d n t w
      → Untouched d n t dst.path (maildir_move os src dst msg env w)
  unfolding maildir_move
  maildir_move-Untouched src dst msg env w b h =
      if-cases (src.stdin && bytes_eq src.root dst.root) (Untouched d n t dst.path) h (
        if-cases src.stdin (Untouched d n t dst.path)
          (move_stated-Untouched src dst msg env false w b h)
          (move_stated-Untouched src dst msg env _ (tick w) b h))

  write_opened-Untouched :
      (md : Maildir) (name : Bytes) (msg : Message) (p : Bool × World)
      → Apart md.path name d n
      → Has d n t p.1
      → Untouched d n t md.path (write_opened os md name msg p)
  unfolding write_opened
  write_opened-Untouched md name msg (true, w) a h = h
  write_opened-Untouched md name msg (false, w) a h =
      set_file-Untouched md name msg (some w.calls) w a h

  write_unlinked-Untouched :
      (md : Maildir) (name : Bytes) (msg : Message) (p : Bool × World)
      → Apart md.path name d n
      → Has d n t p.1
      → Untouched d n t md.path (write_unlinked os md name msg p)
  unfolding write_unlinked call
  write_unlinked-Untouched md name msg (true, w) a h = give_up-Untouched md name msg w a h
  write_unlinked-Untouched md name msg (false, w) a h =
      write_opened-Untouched md name msg (call os w) a h

  write_written-Untouched :
      (md : Maildir) (name : Bytes) (msg : Message) (p : Bool × World)
      → Apart md.path msg.name d n
      → Apart md.path name d n
      → Has d n t p.1
      → Untouched d n t md.path (write_written os md name msg p)
  unfolding write_written maildir_unlink
  write_written-Untouched md name msg (true, w) b a h = give_up-Untouched md name msg w a h
  write_written-Untouched md name msg (false, w) b a h =
      write_unlinked-Untouched md name msg _ a (unlink-Has os d n t md.path msg.name w b h)

  write_named-Untouched :
      (md : Maildir) (msg : Message) (p : Option Bytes × World)
      → Apart md.path msg.name d n
      → Fresh d n t md.path p
      → Untouched d n t md.path (write_named os md msg p)
  unfolding write_named message_write
  write_named-Untouched md msg (none, w) b h = h
  write_named-Untouched md msg (some name, w) b (h, a) =
      write_written-Untouched md name _ _ b a (write-Has os d n t _ md.path name w a h)

  -- Whatever `maildir_write` does, and whichever call of the system fails, every file other than that
  -- of the message keeps its content, and after a success the message is in none of them.
  pub maildir_write-Untouched :
      (md : Maildir) (msg : Message) (env : Env) (w : World)
      → Apart md.path msg.name d n
      → Has d n t w
      → Untouched d n t md.path (maildir_write os md msg env w)
  unfolding maildir_write
  maildir_write-Untouched md msg env w b h = elim (Option-cases (msgflags md md msg.mflags)) [
    | inl e ↦ rw (maildir_write, e) h
    | inr e ↦
        rw (maildir_write, e.1)
          (write_named-Untouched md msg _ b (maildir_genname-Fresh md e.0 env w h))
  ]
