-- ===== src/Maildir/Delivery.antt =====
-- A message that is moved by `maildir_move` is never lost: it is where it was, or under its new name.
use mdsort.Base.{
  ℕ, Bool, true, false, not, ◌&&◌, Option, none, some, ◌≡◌, ◌≢◌, refl, sym, subst, Bytes, bytes_eq,
  Option-cases, ◌⊎◌, inl, inr,
}
use mdsort.Environment.{Env}
use mdsort.Message.{Message}
use mdsort.Message.File.{message_write, message_set_file}
use mdsort.Maildir.{Maildir, Os, World}
use mdsort.Maildir.Calls.{
  fails, tick, call, Renamed, renamed, not_renamed, renamed_across, unlink, write, rename,
}
use mdsort.Maildir.Names.{msgflags}
use mdsort.Maildir.Move.{
  maildir_unlink, maildir_rename, Outcome, give_up, set_file, move_timed, move_done, move_unlinked,
  move_copied, move_renamed, move_named, move_stated, maildir_move,
}
use mdsort.Maildir.Files.{
  Has, Apart, Apart-sym, message_set_file_lem, if-cases, unlink-Has, write-Has, unlink-failed,
  unlink-gone, write-done, rename-result,
}
use mdsort.Maildir.Others.{Fresh, maildir_genname-Fresh}

-- The old directory and name of the message, its text, what `message_write` makes of it, and the
-- directory that it is put into.
module _ (os : Os) (d n text shown dir : Bytes) where
  abbrev pub Held : Bytes → Bytes → World → Type 0
  Held d' n' w = Has d' n' text w ⊎ Has d' n' shown w

  -- After an error some file has the text or what `message_write` makes of the message. After a success
  -- the file of its new name has, and the old file is gone.
  abbrev pub Safe : Outcome → Type 0
  Safe (true, msg, w) = (d' : Bytes) × (n' : Bytes) × Held d' n' w
  Safe (false, msg, w) = Held dir msg.name w × (w.files d n ≡ none)

  pub give_up-Safe :
      (dst : Maildir) (name : Bytes) (msg : Message) (w : World)
      → Apart dst.path name d n
      → Has d n text w
      → Safe (give_up os dst name msg w)
  unfolding give_up maildir_unlink
  give_up-Safe dst name msg w a h = (d, n, inl (unlink-Has os d n text dst.path name w a h))

  pub set_file-Safe :
      (dst : Maildir) (name : Bytes) (msg : Message) (fd : Option ℕ) (w : World)
      → dst.path ≡ dir
      → Held dir name w
      → w.files d n ≡ none
      → Safe (set_file dst name msg (message_set_file msg dst.path name fd) w)
  unfolding set_file
  set_file-Safe dst name msg fd w e h g = go (message_set_file msg dst.path name fd) refl
    where
      go :
          (o : Option Message)
          → message_set_file msg dst.path name fd ≡ o
          → Safe (set_file dst name msg o w)
      go none q = (dir, name, h)
      go (some msg') q = (rw (message_set_file_lem msg msg' dst.path name fd q).0 h, g)

  move_timed-Safe :
      (dst : Maildir) (name : Bytes) (msg : Message) (p : Bool × World)
      → dst.path ≡ dir
      → Held dir name p.1
      → p.1.files d n ≡ none
      → Safe (move_timed dst name msg p)
  unfolding move_timed
  move_timed-Safe dst name msg (true, w) e h g = (dir, name, h)
  move_timed-Safe dst name msg (false, w) e h g = set_file-Safe dst name msg none w e h g

  move_done-Safe :
      (dst : Maildir) (name : Bytes) (doutime : Bool) (msg : Message) (w : World)
      → dst.path ≡ dir
      → Held dir name w
      → w.files d n ≡ none
      → Safe (move_done os dst name doutime msg w)
  unfolding move_done call
  move_done-Safe dst name true msg w e h g = move_timed-Safe dst name msg (call os w) e h g
  move_done-Safe dst name false msg w e h g = move_timed-Safe dst name msg (false, w) e h g

  move_unlinked-Safe :
      (dst : Maildir) (name : Bytes) (doutime : Bool) (msg : Message) (p : Bool × World)
      → dst.path ≡ dir
      → Apart dir name d n
      → (p.0 ≡ true → Has d n text p.1)
      → (p.0 ≡ false → p.1.files d n ≡ none)
      → Held dir name p.1
      → Safe (move_unlinked os dst name doutime msg p)
  unfolding move_unlinked
  move_unlinked-Safe dst name doutime msg (true, w) e a f g h =
      give_up-Safe dst name msg w (rw e a) (f refl)
  move_unlinked-Safe dst name doutime msg (false, w) e a f g h =
      move_done-Safe dst name doutime msg w e h (g refl)

  -- The removal of the old file, once the message is in the new one.
  unlinked :
      (name : Bytes) (w : World)
      → Apart dir name d n
      → Has d n text w
      → Has dir name shown w
      → ((unlink os d n w).0 ≡ true → Has d n text ((unlink os d n w).1))
        × ((unlink os d n w).0 ≡ false → (unlink os d n w).1.files d n ≡ none)
        × Held dir name ((unlink os d n w).1)
  unlinked name w a h k = (
    λ e. unlink-failed os d n d n text w e h,
    unlink-gone os d n w,
    inr (unlink-Has os dir name shown d n w (Apart-sym dir name d n a) k),
  )

  move_copied-Safe :
      (src dst : Maildir) (name : Bytes) (doutime : Bool) (msg : Message) (p : Bool × World)
      → src.path ≡ d
      → msg.name ≡ n
      → dst.path ≡ dir
      → Apart dir name d n
      → Has d n text p.1
      → (p.0 ≡ false → Has dir name shown p.1)
      → Safe (move_copied os src dst name doutime msg p)
  unfolding move_copied maildir_unlink
  move_copied-Safe src dst name doutime msg (true, w) i j e a h k =
      give_up-Safe dst name msg w (rw e a) h
  move_copied-Safe src dst name doutime msg (false, w) i j e a h k =
      let (f, g, held) = unlinked name w a h (k refl) in
      let p = unlink os src.path msg.name w in
      let same : p ≡ unlink os d n w = rw (i, j) refl in
      subst (λ q. Safe (move_unlinked os dst name doutime msg q)) (sym same)
        (move_unlinked-Safe dst name doutime msg (unlink os d n w) e a f g held)

module _ (os : Os) (src dst : Maildir) (msg : Message) (text : Bytes) where
  -- The message of a move: its file, its text, and what would be written of it.
  abbrev pub SafeMove : Outcome → Type 0
  SafeMove r = Safe os src.path msg.name text ((message_write msg).0) dst.path r

  move_renamed-Safe :
      (name : Bytes) (doutime : Bool) (w : World)
      → Apart dst.path name src.path msg.name
      → Has src.path msg.name text w
      → SafeMove
          (move_renamed os src dst name doutime msg (rename os src.path msg.name dst.path name w))
  unfolding move_renamed
  move_renamed-Safe name doutime w a h =
      go ((rename os src.path msg.name dst.path name w).0)
        ((rename os src.path msg.name dst.path name w).1) refl
        (rename-result os src.path msg.name dst.path name text w a h)
    where
      go :
          (r : Renamed) (w' : World)
          → r ≡ (rename os src.path msg.name dst.path name w).0
          → ((r ≡ renamed) × Has dst.path name text w' × (w'.files src.path msg.name ≡ none))
            ⊎ ((r ≢ renamed) × Has src.path msg.name text w')
          → SafeMove (move_renamed os src dst name doutime msg (r, w'))
      go renamed w' e (inl (q, k, g)) =
          move_done-Safe os src.path msg.name text _ dst.path dst name doutime msg w' refl (inl k) g
      go renamed w' e (inr (q, k)) = absurd (q refl)
      go not_renamed w' e (inl (q, k, g)) = cc
      go not_renamed w' e (inr (q, k)) =
          give_up-Safe os src.path msg.name text _ dst.path dst name msg w' a k
      go renamed_across w' e (inl (q, k, g)) = cc
      go renamed_across w' e (inr (q, k)) =
          let (shown, msg') = message_write msg in
          move_copied-Safe os src.path msg.name text shown dst.path src dst name doutime msg'
            (write os shown dst.path name w') refl (unfold message_write in refl) refl a
            (write-Has os src.path msg.name text shown dst.path name w' a k)
            (write-done os shown dst.path name w')

  move_named-Safe :
      (doutime : Bool) (p : Option Bytes × World)
      → Fresh src.path msg.name text dst.path p
      → SafeMove (move_named os src dst doutime msg p)
  unfolding move_named maildir_rename
  move_named-Safe doutime (none, w) h = (src.path, msg.name, inl h)
  move_named-Safe doutime (some name, w) (h, a) = move_renamed-Safe name doutime w a h

  move_stated-Safe :
      (env : Env) (doutime : Bool) (w : World)
      → Has src.path msg.name text w
      → SafeMove (move_stated os src dst msg env doutime w)
  unfolding move_stated
  move_stated-Safe env doutime w h = elim (Option-cases (msgflags src dst msg.mflags)) [
    | inl e ↦ rw (move_stated, e) (src.path, msg.name, inl h)
    | inr e ↦
        rw (move_stated, e.1)
          (move_named-Safe doutime _
            (maildir_genname-Fresh os src.path msg.name text dst e.0 env w h))
  ]

  -- A message that is in its file is not lost by `maildir_move`, whichever calls of the system fail:
  -- after an error some file has its text or what `message_write` makes of it, and after a success
  -- the file of its new name in the destination has, and the old file is gone.
  pub maildir_move-Safe :
      (env : Env) (w : World)
      → Has src.path msg.name text w
      → SafeMove (maildir_move os src dst msg env w)
  unfolding maildir_move
  maildir_move-Safe env w h =
      if-cases (src.stdin && bytes_eq src.root dst.root) SafeMove (src.path, msg.name, inl h)
        (if-cases src.stdin SafeMove (move_stated-Safe env false w h)
          (move_stated-Safe env (not (fails (os.answer w.calls))) (tick w) h))
