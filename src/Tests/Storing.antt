-- ===== src/Tests/Storing.antt =====
-- Instances of the theorems on maildirs and on the execution of matches.
use mdsort.Util.{pathjoin}
use mdsort.Match.{match_alloc}
use mdsort.Base.{Bytes, false, some, [], ◌∷◌, ◌++◌, ◌≡◌, refl, arith, codes, map, true, inr}
use mdsort.Message.{MessageFlags, zero_flags}
use mdsort.Message.File.{message_write}
use mdsort.Message.Flags.{message_flags_isset, message_flags_parse}
use mdsort.Maildir.{failure, subdir_name, Os}
use mdsort.Maildir.Seen.{seen_after, msgflags-seen}
use mdsort.Maildir.Open.{copy_input}
use mdsort.Maildir.Opened.{crashes, maildir_open}
use mdsort.Maildir.Walk.{walk_loop}
use mdsort.Maildir.Calls.{same_file}
use mdsort.Maildir.Names.{msgflags, candidate, maildir_genname}
use mdsort.Maildir.Move.{maildir_move, maildir_write}
use mdsort.Maildir.Files.{Has}
use mdsort.Maildir.Others.{Untouched, maildir_move-Untouched, maildir_write-Untouched}
use mdsort.Maildir.Delivery.{SafeMove, maildir_move-Safe}
use mdsort.Maildir.Rewriting.{SafeWrite, maildir_write-Safe}
use mdsort.Maildir.Attempts.{Made, maildir_genname-Made, walk_loop-two}
use mdsort.Maildir.Stdin.{contents, copy_input-Has, maildir_open-crashes}
use mdsort.Exec.{matches_exec}
use mdsort.Exec.Safe.{Somewhere, matches_exec-Safe, matches_exec-Untouched}
use mdsort.Exec.Code.{Tells, has_reject, matches_exec-Tells}
use mdsort.Tests.Samples.{env, message}
use mdsort.Tests.Disk.{
  files, world, disk, two_disks, inbox, archive, seen_box, text, label_and_move, run_exec,
}

there : Has (codes "/m/new") (codes "1") text world
unfolding files same_file
there = refl

maildir_move-Safe_example :
    SafeMove two_disks inbox archive message text
      (maildir_move two_disks inbox archive message env world)
maildir_move-Safe_example = maildir_move-Safe two_disks inbox archive message text env world there

maildir_write-Safe_example :
    SafeWrite disk inbox message text (maildir_write disk inbox message env world)
maildir_write-Safe_example = maildir_write-Safe disk inbox message text env world there

maildir_move-Untouched_example :
    Untouched
      (codes "/m/new")
      (codes "2")
      (codes "other")
      archive.path
      (maildir_move two_disks inbox archive message env world)
unfolding same_file files
maildir_move-Untouched_example =
    maildir_move-Untouched two_disks (codes "/m/new") (codes "2") (codes "other") inbox archive
      message env world refl refl

maildir_write-Untouched_example :
    Untouched
      (codes "/m/new")
      (codes "2")
      (codes "other")
      inbox.path
      (maildir_write disk inbox message env world)
unfolding same_file files
maildir_write-Untouched_example =
    maildir_write-Untouched disk (codes "/m/new") (codes "2") (codes "other") inbox message env
      world refl refl

matches_exec-Safe_example :
    Somewhere text
      ((message_write message).0)
      (matches_exec disk run_exec env label_and_move inbox (message ∷ []) world).1.world
unfolding match_alloc pathjoin subdir_name
matches_exec-Safe_example =
    matches_exec-Safe disk run_exec env label_and_move inbox (message ∷ []) 0 message text world
      (refl, (refl, tt)) refl refl there

matches_exec-Untouched_example :
    Has
      (codes "/m/new")
      (codes "2")
      (codes "other")
      (matches_exec disk run_exec env label_and_move inbox (message ∷ []) world).1.world
unfolding match_alloc pathjoin subdir_name same_file files
matches_exec-Untouched_example =
    matches_exec-Untouched disk run_exec env label_and_move inbox (message ∷ []) 0 message
      (codes "/m/new") (codes "2") (codes "other") world (refl, (refl, tt)) refl refl refl refl

matches_exec-Tells_example :
    Tells
      (has_reject label_and_move)
      (matches_exec disk run_exec env label_and_move inbox (message ∷ []) world).0
matches_exec-Tells_example =
    matches_exec-Tells disk run_exec env label_and_move inbox (message ∷ []) world

maildir_genname-Made_example :
    Made inbox.path world (maildir_genname disk inbox (codes ":2,S") env world)
unfolding files candidate
maildir_genname-Made_example =
    maildir_genname-Made disk inbox (codes ":2,S") env world 0 (λ n. refl) (omega arith)
      (omega arith) refl

walk_loop-two_example : walk_loop disk 9 inbox world ≡ walk_loop disk 2 inbox world
walk_loop-two_example = walk_loop-two disk 7 inbox world

-- No call succeeds, so mkdtemp(3) fails.
abbrev broken_disk : Os
broken_disk = record disk { answer = λ n. failure }

maildir_open-crashes_example :
    (maildir_open broken_disk (codes "-") false true env world).0 ≡ crashes
unfolding pathjoin
maildir_open-crashes_example =
    maildir_open-crashes broken_disk (codes "-") false env world (inr (refl, (_, refl)))

copy_input-Has_example :
    ((copy_input disk
        (map some (codes "To: a" ∷ codes "b" ∷ []))
        (codes "/m/new")
        (codes "1")
        world).0
      ≡ false)
    × Has
        (codes "/m/new")
        (codes "1")
        (text ++ contents (codes "To: a" ∷ codes "b" ∷ []))
        (copy_input disk
          (map some (codes "To: a" ∷ codes "b" ∷ []))
          (codes "/m/new")
          (codes "1")
          world).1
copy_input-Has_example =
    copy_input-Has disk (codes "/m/new") (codes "1") text (codes "To: a" ∷ codes "b" ∷ []) world
      (λ n buf. refl) there

msgflags-seen_example :
    (s : Bytes) × (mf' : MessageFlags) × (msgflags inbox seen_box zero_flags ≡ some s)
    × (message_flags_parse zero_flags (codes "/a/cur/1" ++ s) ≡ some mf')
    × (message_flags_isset mf' b'S'
        ≡ seen_after inbox.subdir seen_box.subdir (message_flags_isset zero_flags b'S'))
msgflags-seen_example =
    msgflags-seen inbox seen_box zero_flags (codes "/a/cur/1") (omega arith, omega arith)
