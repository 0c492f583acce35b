-- ===== src/Maildir/Move.antt =====
-- Moving, writing and removing messages.
use mdsort.Base.{Bool, true, false, not, ◌&&◌, Option, none, some, Bytes, if◌then◌else◌, bytes_eq}
use mdsort.Environment.{Env}
use mdsort.Message.{Message}
use mdsort.Message.File.{message_write, message_set_file}
use mdsort.Maildir.{subdir_new, subdir_cur, Maildir, Os, World}
use mdsort.Maildir.Calls.{
  fails, tick, call, Renamed, renamed, not_renamed, renamed_across, rename, unlink, write,
}
use mdsort.Maildir.Names.{maildir_genname, msgflags}

-- `true` is an error.
unfoldable pub maildir_unlink : Os → Maildir → Bytes → World → Bool × World
unfolding unlink
maildir_unlink os md name w = unlink os md.path name w

unfoldable pub maildir_rename : Os → Maildir → Maildir → Bytes → Bytes → World → Renamed × World
unfolding rename
maildir_rename os src dst srcname dstname w = rename os src.path srcname dst.path dstname w

-- The error, the message and the state that an operation ends in.
abbrev pub Outcome : Type 0
Outcome = Bool × Message × World

-- The new file is removed, as far as that works, and the operation fails.
unfoldable pub give_up : Os → Maildir → Bytes → Message → World → Outcome
unfolding maildir_unlink
give_up os dst name msg w = (true, msg, (maildir_unlink os dst name w).1)

-- `message_set_file`
unfoldable pub set_file : Maildir → Bytes → Message → Option Message → World → Outcome
set_file dst name msg none w = (true, msg, w)
set_file dst name msg (some msg') w = (false, msg', w)

-- The message is in its new file: the time of modification, and the path of the message.
unfoldable pub move_timed : Maildir → Bytes → Message → Bool × World → Outcome
unfolding set_file
move_timed dst name msg (true, w) = (true, msg, w)
move_timed dst name msg (false, w) =
    set_file dst name msg (message_set_file msg dst.path name none) w

unfoldable pub move_done : Os → Maildir → Bytes → Bool → Message → World → Outcome
unfolding move_timed call
move_done os dst name doutime msg w =
    move_timed dst name msg (if doutime then call os w else (false, w))

unfoldable pub move_unlinked : Os → Maildir → Bytes → Bool → Message → Bool × World → Outcome
unfolding give_up move_done
move_unlinked os dst name doutime msg (true, w) = give_up os dst name msg w
move_unlinked os dst name doutime msg (false, w) = move_done os dst name doutime msg w

-- Across file systems the message has been written to the new file, or that failed.
unfoldable pub move_copied :
    Os → Maildir → Maildir → Bytes → Bool → Message → Bool × World → Outcome
unfolding give_up move_unlinked maildir_unlink
move_copied os src dst name doutime msg (true, w) = give_up os dst name msg w
move_copied os src dst name doutime msg (false, w) =
    move_unlinked os dst name doutime msg (maildir_unlink os src msg.name w)

unfoldable pub move_renamed :
    Os → Maildir → Maildir → Bytes → Bool → Message → Renamed × World → Outcome
unfolding give_up move_done move_copied write
move_renamed os src dst name doutime msg (renamed, w) = move_done os dst name doutime msg w
move_renamed os src dst name doutime msg (not_renamed, w) = give_up os dst name msg w
move_renamed os src dst name doutime msg (renamed_across, w) =
    let (text, msg') = message_write msg in
    move_copied os src dst name doutime msg' (write os text dst.path name w)

unfoldable pub move_named : Os → Maildir → Maildir → Bool → Message → Option Bytes × World → Outcome
unfolding move_renamed maildir_rename
move_named os src dst doutime msg (none, w) = (true, msg, w)
move_named os src dst doutime msg (some name, w) =
    move_renamed os src dst name doutime msg (maildir_rename os src dst msg.name name w)

-- With fstatat(2) of the source done, and whether its time is to be kept.
unfoldable pub move_stated : Os → Maildir → Maildir → Message → Env → Bool → World → Outcome
unfolding move_named
move_stated os src dst msg env doutime w = elim (msgflags src dst msg.mflags) [
  | none ↦ (true, msg, w)
  | some flags ↦ move_named os src dst doutime msg (maildir_genname os dst flags env w)
]

unfoldable pub maildir_move : Os → Maildir → Maildir → Message → Env → World → Outcome
unfolding move_stated
maildir_move os src dst msg env w =
    if src.stdin && bytes_eq src.root dst.root
    then (true, msg, w)
    else if src.stdin
    then move_stated os src dst msg env false w
    else move_stated os src dst msg env (not (fails (os.answer w.calls))) (tick w)

-- The message is open again under its new name; the descriptor is known by the call that made it.
unfoldable pub write_opened : Os → Maildir → Bytes → Message → Bool × World → Outcome
unfolding set_file
write_opened os md name msg (true, w) = (true, msg, w)
write_opened os md name msg (false, w) =
    set_file md name msg (message_set_file msg md.path name (some w.calls)) w

unfoldable pub write_unlinked : Os → Maildir → Bytes → Message → Bool × World → Outcome
unfolding give_up write_opened call
write_unlinked os md name msg (true, w) = give_up os md name msg w
write_unlinked os md name msg (false, w) = write_opened os md name msg (call os w)

unfoldable pub write_written : Os → Maildir → Bytes → Message → Bool × World → Outcome
unfolding give_up write_unlinked maildir_unlink
write_written os md name msg (true, w) = give_up os md name msg w
write_written os md name msg (false, w) =
    write_unlinked os md name msg (maildir_unlink os md msg.name w)

unfoldable pub write_named : Os → Maildir → Message → Option Bytes × World → Outcome
unfolding write_written write
write_named os md msg (none, w) = (true, msg, w)
write_named os md msg (some name, w) =
    let (text, msg') = message_write msg in
    write_written os md name msg' (write os text md.path name w)

unfoldable pub maildir_write : Os → Maildir → Message → Env → World → Outcome
unfolding write_named
maildir_write os md msg env w = elim (msgflags md md msg.mflags) [
  | none ↦ (true, msg, w)
  | some flags ↦ write_named os md msg (maildir_genname os md flags env w)
]

-- `maildir_cmp` answers zero.
unfoldable pub maildir_same : Maildir → Maildir → Bool
unfolding bytes_eq
maildir_same md1 md2 = elim md1.subdir [
  | subdir_new ↦ elim md2.subdir [ subdir_new ↦ bytes_eq md1.root md2.root | subdir_cur ↦ false ]
  | subdir_cur ↦ elim md2.subdir [ subdir_new ↦ false | subdir_cur ↦ bytes_eq md1.root md2.root ]
]
