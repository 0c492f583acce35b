-- ===== src/Maildir/Opened.antt =====
-- `maildir_open`.
use mdsort.Base.{Bool, true, false, Option, none, some, Bytes, leb, if◌then◌else◌, length}
use mdsort.Base.Int.{pos, negsuc}
use mdsort.Util.{path_max, pathslice}
use mdsort.Environment.{Env}
use mdsort.Maildir.{Maildir, Os, World}
use mdsort.Maildir.Open.{maildir_set_path, maildir_opendir, parsesubdir, new_maildir, maildir_stdin}
use mdsort.Maildir.Walk.{maildir_close}

-- The answers of `maildir_open`: a maildir, NULL, the end of the program, and a read through a null
-- pointer.
pub data Opened : Type 0 where
  opened : Maildir → Opened
  not_opened exits crashes : Opened

unfoldable pub open_result : Bool × Maildir × World → Opened × World
open_result (true, md, w) = (not_opened, w)
open_result (false, md, w) = (opened md, w)

-- With the root known, the path is set and the directory opened.
unfoldable pub open_root : Os → Maildir → World → Opened × World
unfolding open_result maildir_opendir
open_root os md w = elim (maildir_set_path md) [
  | none ↦ (exits, w)
  | some md' ↦ open_result (maildir_opendir os md' md'.path w)
]

-- MAILDIR_WALK without MAILDIR_STDIN
unfoldable pub open_walk : Os → Bytes → World → Opened × World
unfolding open_root
open_walk os path w =
    if leb path_max (length path)
    then (not_opened, w)
    else open_root os (record (new_maildir true false) { root = path }) w

-- No flags: the path of a subdirectory.
unfoldable pub open_subdir : Os → Bytes → World → Opened × World
unfolding open_root
open_subdir os path w = elim (parsesubdir path) [
  | none ↦ (not_opened, w)
  | some sub ↦ elim (pathslice path path_max (pos 0) (negsuc 0)) [
    | none ↦ (not_opened, w)
    | some root ↦ open_root os (record (new_maildir false false) { root = root; subdir = sub }) w
  ]
]

-- MAILDIR_STDIN: after an error the maildir is closed again.
unfoldable pub stdin_result : Os → Option (Bool × Maildir × World) → Opened × World → Opened × World
unfolding maildir_close
stdin_result os none other = other
stdin_result os (some (false, md, w)) other = (opened md, w)
stdin_result os (some (true, md, w)) other = elim (maildir_close os md w) [
  | none ↦ (crashes, w)
  | some w' ↦ (not_opened, w')
]

-- `maildir_open`, whose flags are two Booleans.
unfoldable pub maildir_open : Os → Bytes → Bool → Bool → Env → World → Opened × World
unfolding stdin_result open_walk open_subdir
maildir_open os path walk stdin env w =
    if stdin
    then stdin_result os (maildir_stdin os (new_maildir walk true) env w) (exits, w)
    else if walk
    then open_walk os path w
    else open_subdir os path w
