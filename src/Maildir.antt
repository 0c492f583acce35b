-- ===== src/Maildir.antt =====
-- maildir.c and the file system that it works on. A directory descriptor is known by the path of the
-- directory, and a file by its directory and its name.
pub mod Calls
pub mod Names
pub mod Open
pub mod Opened
pub mod Walk
pub mod Move
pub mod Files
pub mod Others
pub mod Delivery
pub mod Rewriting
pub mod Looks
pub mod Traversal
pub mod Attempts
pub mod Stdin
pub mod Seen
use mdsort.Base.{ℕ, Bool, Option, List, Bytes, codes}

-- `d_type` of readdir(3), and what a directory stream still gives: entries, and an error.
pub data FileType : Type 0 where
  dt_unknown dt_dir dt_reg dt_other : FileType

pub data Dirent : Type 0 where
  dirent : Bytes → FileType → Dirent
  broken : Dirent

pub data Subdir : Type 0 where
  subdir_new subdir_cur : Subdir

-- `struct maildir`: `dir` is what md_dir still gives, `none` for NULL, and `walk` and `stdin` are the
-- two bits of md_flags.
pub record Maildir : Type 0 where
  pub root : Bytes
  pub path : Bytes
  pub dir : Option (List Dirent)
  pub subdir : Subdir
  pub walk : Bool
  pub stdin : Bool

-- `struct maildir_entry`; its descriptor is known by `dir`.
pub record Entry : Type 0 where
  pub dir : Bytes
  pub path : Bytes

unfoldable pub subdir_name : Subdir → Bytes
subdir_name subdir_new = codes "new"
subdir_name subdir_cur = codes "cur"

-- Whether a call of the system is carried out, or fails with EXDEV or with another error.
pub data Answer : Type 0 where
  success cross_device failure : Answer

-- The choices of the system, by the number of the call: whether a call is carried out, the entries
-- of a directory, the answer of fstatat(2) to `isfile`, arc4random(3), what a failed writing of a
-- message leaves in the file, what write(2) takes of a buffer (`none` for -1), what mkdtemp(3) makes
-- of its template, and what each read(2) of the standard input gives (`none` for -1). `rounds` is
-- how often openat(2) answers EEXIST in a row to `maildir_genname`, at most.
pub record Os : Type 0 where
  pub answer : ℕ → Answer
  pub listing : ℕ → Bytes → List Dirent
  pub is_file : ℕ → Bytes → Bytes → Bool
  pub random : ℕ → ℕ
  pub damaged : ℕ → Bytes → Bytes
  pub accepted : ℕ → Bytes → Option Bytes
  pub temp : ℕ → Bytes → Bytes
  pub input : List (Option Bytes)
  pub rounds : ℕ

-- The contents of the files, and the number of calls made.
pub record World : Type 0 where
  pub files : Bytes → Bytes → Option Bytes
  pub calls : ℕ
