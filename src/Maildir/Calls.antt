-- ===== src/Maildir/Calls.antt =====
-- The calls of the system that maildir.c makes, on the contents of the files. Each of them may fail
-- for reasons of its own; if it is carried out it does what POSIX says.
use mdsort.Base.{
  ◌+◌, Bool, true, false, ◌&&◌, Option, none, some, [], ◌++◌, Bytes, if◌then◌else◌, bytes_eq,
}
use mdsort.Maildir.{Answer, success, cross_device, Os, World}

-- Whether two files are the same one.
unfoldable pub same_file : Bytes → Bytes → Bytes → Bytes → Bool
unfolding bytes_eq
same_file dir name dir' name' = bytes_eq dir dir' && bytes_eq name name'

unfoldable pub put_file :
    Bytes → Bytes → Option Bytes → (Bytes → Bytes → Option Bytes) → Bytes → Bytes → Option Bytes
put_file dir name content files dir' name' =
    if same_file dir name dir' name' then content else files dir' name'

-- A call that changes no file.
abbrev pub tick : World → World
tick w = record w { calls = w.calls + 1 }

abbrev pub store_file : Bytes → Bytes → Option Bytes → World → World
store_file dir name content w = record w {
  files = put_file dir name content w.files;
  calls = w.calls + 1;
}

abbrev pub fails : Answer → Bool
fails success = false
fails _ = true

-- Any other call, of which only the failure matters.
unfoldable pub call : Os → World → Bool × World
call os w = (fails (os.answer w.calls), tick w)

-- openat(2) with O_CREAT and O_EXCL: made, EEXIST, or another error.
pub data Created : Type 0 where
  created taken refused : Created

unfoldable pub create_as : Answer → Option Bytes → Bytes → Bytes → World → Created × World
create_as success none dir name w = (created, store_file dir name (some []) w)
create_as success (some content) dir name w = (taken, tick w)
create_as _ content dir name w = (refused, tick w)

unfoldable pub create : Os → Bytes → Bytes → World → Created × World
create os dir name w = create_as (os.answer w.calls) (w.files dir name) dir name w

-- unlinkat(2); `true` is -1.
unfoldable pub unlink_as : Answer → Option Bytes → Bytes → Bytes → World → Bool × World
unlink_as success (some content) dir name w = (false, store_file dir name none w)
unlink_as _ content dir name w = (true, tick w)

unfoldable pub unlink : Os → Bytes → Bytes → World → Bool × World
unlink os dir name w = unlink_as (os.answer w.calls) (w.files dir name) dir name w

-- renameat(2), which replaces what the new name held.
pub data Renamed : Type 0 where
  renamed not_renamed renamed_across : Renamed

unfoldable pub rename_as :
    Answer → Option Bytes → Bytes → Bytes → Bytes → Bytes → World → Renamed × World
rename_as success (some content) dir name dir' name' w = (
  renamed,
  record w {
    files = put_file dir' name' (some content) (put_file dir name none w.files);
    calls = w.calls + 1;
  },
)
rename_as cross_device content dir name dir' name' w = (renamed_across, tick w)
rename_as _ content dir name dir' name' w = (not_renamed, tick w)

unfoldable pub rename : Os → Bytes → Bytes → Bytes → Bytes → World → Renamed × World
rename os dir name dir' name' w =
    rename_as (os.answer w.calls) (w.files dir name) dir name dir' name' w

-- Writing a whole text into a file that is open for it and empty. Where this fails, the system says
-- what is left in the file.
unfoldable pub write_as : Answer → Bytes → Bytes → Bytes → Bytes → World → Bool × World
write_as success text damaged dir name w = (false, store_file dir name (some text) w)
write_as _ text damaged dir name w = (true, store_file dir name (some damaged) w)

unfoldable pub write : Os → Bytes → Bytes → Bytes → World → Bool × World
write os text dir name w = write_as (os.answer w.calls) text (os.damaged w.calls text) dir name w

-- write(2) of a buffer at the end of a file; it may take less than the buffer.
unfoldable pub append_as : Option Bytes → Option Bytes → Bytes → Bytes → World → Bool × World
append_as none content dir name w = (true, tick w)
append_as (some part) none dir name w = (false, tick w)
append_as (some part) (some content) dir name w =
    (false, store_file dir name (some (content ++ part)) w)

unfoldable pub append : Os → Bytes → Bytes → Bytes → World → Bool × World
append os buf dir name w = append_as (os.accepted w.calls buf) (w.files dir name) dir name w
