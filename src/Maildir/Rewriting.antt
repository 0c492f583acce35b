-- ===== src/Maildir/Rewriting.antt =====
-- A message that is written again by `maildir_write` is never lost.
use mdsort.Base.{
  Bool, true, false, Option, none, some, ◌≡◌, refl, sym, subst, Bytes, Option-cases, inl, inr,
}
use mdsort.Environment.{Env}
use mdsort.Message.{Message}
use mdsort.Message.File.{message_write}
use mdsort.Maildir.{Maildir, Os, World}
use mdsort.Maildir.Calls.{call, unlink, write}
use mdsort.Maildir.Names.{msgflags}
use mdsort.Maildir.Move.{
  maildir_unlink, Outcome, write_opened, write_unlinked, write_written, write_named, maildir_write,
}
use mdsort.Maildir.Files.{
  Has, Apart, Apart-sym, unlink-Has, write-Has, unlink-failed, unlink-gone, write-done,
}
use mdsort.Maildir.Others.{Fresh, maildir_genname-Fresh}
use mdsort.Maildir.Delivery.{Safe, give_up-Safe, set_file-Safe}

module _ (os : Os) (md : Maildir) (msg : Message) (text : Bytes) where
  -- The message of a writing: its file, its text, and what is written of it.
  abbrev pub SafeWrite : Outcome → Type 0
  SafeWrite r = Safe os md.path msg.name text ((message_write msg).0) md.path r

  write_opened-Safe :
      (name : Bytes) (msg' : Message) (p : Bool × World)
      → Has md.path name ((message_write msg).0) p.1
      → p.1.files md.path msg.name ≡ none
      → SafeWrite (write_opened os md name msg' p)
  unfolding write_opened
  write_opened-Safe name msg' (true, w) h g = (md.path, name, inr h)
  write_opened-Safe name msg' (false, w) h g =
      set_file-Safe os md.path msg.name text _ md.path md name msg' (some w.calls) w refl (inr h) g

  write_unlinked-Safe :
      (name : Bytes) (msg' : Message) (p : Bool × World)
      → Apart md.path name md.path msg.name
      → (p.0 ≡ true → Has md.path msg.name text p.1)
      → (p.0 ≡ false → p.1.files md.path msg.name ≡ none)
      → Has md.path name ((message_write msg).0) p.1
      → SafeWrite (write_unlinked os md name msg' p)
  unfolding write_unlinked call
  write_unlinked-Safe name msg' (true, w) a f g h =
      give_up-Safe os md.path msg.name text _ md.path md name msg' w a (f refl)
  write_unlinked-Safe name msg' (false, w) a f g h =
      write_opened-Safe name msg' (call os w) h (g refl)

  write_written-Safe :
      (name : Bytes) (msg' : Message) (p : Bool × World)
      → msg'.name ≡ msg.name
      → Apart md.path name md.path msg.name
      → Has md.path msg.name text p.1
      → (p.0 ≡ false → Has md.path name ((message_write msg).0) p.1)
      → SafeWrite (write_written os md name msg' p)
  unfolding write_written maildir_unlink
  write_written-Safe name msg' (true, w) e a h k =
      give_up-Safe os md.path msg.name text _ md.path md name msg' w a h
  write_written-Safe name msg' (false, w) e a h k =
      subst (λ x. SafeWrite (write_unlinked os md name msg' (unlink os md.path x w))) (sym e)
        (write_unlinked-Safe name msg' (unlink os md.path msg.name w) a
          (λ q. unlink-failed os md.path msg.name md.path msg.name text w q h)
          (unlink-gone os md.path msg.name w)
          (unlink-Has os md.path name ((message_write msg).0) md.path msg.name w
            (Apart-sym md.path name md.path msg.name a) (k refl)))

  write_named-Safe :
      (p : Option Bytes × World)
      → Fresh md.path msg.name text md.path p
      → SafeWrite (write_named os md msg p)
  unfolding write_named
  write_named-Safe (none, w) h = (md.path, msg.name, inl h)
  write_named-Safe (some name, w) (h, a) =
      let (shown, msg') = message_write msg in
      write_written-Safe name msg' (write os shown md.path name w) (unfold message_write in refl) a
        (write-Has os md.path msg.name text shown md.path name w a h)
        (write-done os shown md.path name w)

  -- A message that is in its file is not lost by `maildir_write`, whichever calls of the system fail:
  -- after an error some file has its text or what `message_write` makes of it, and after a success
  -- the file of its new name has, and the old file is gone.
  pub maildir_write-Safe :
      (env : Env) (w : World)
      → Has md.path msg.name text w
      → SafeWrite (maildir_write os md msg env w)
  unfolding maildir_write
  maildir_write-Safe env w h = elim (Option-cases (msgflags md md msg.mflags)) [
    | inl e ↦ rw (maildir_write, e) (md.path, msg.name, inl h)
    | inr e ↦
        rw (maildir_write, e.1)
          (write_named-Safe _ (maildir_genname-Fresh os md.path msg.name text md e.0 env w h))
  ]
