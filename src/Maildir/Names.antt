-- ===== src/Maildir/Names.antt =====
-- The names of messages: `maildir_genname`, and the flags that go into a name.
use mdsort.Base.{
  ℕ, zero, suc, ◌+◌, ◌/◌, ◌%◌, ◌^◌, true, false, Option, none, some, [], ◌∷◌, ◌++◌, Bytes, leb, ltb,
  if◌then◌else◌, length,
}
use mdsort.Base.Int.{ℤ, pos, negsuc}
use mdsort.Util.{name_max}
use mdsort.Environment.{Env}
use mdsort.Message.{MessageFlags}
use mdsort.Message.Flags.{message_flags_set, message_flags_clr, message_flags_str}
use mdsort.Maildir.{Subdir, subdir_new, subdir_cur, Maildir, Os, World}
use mdsort.Maildir.Calls.{tick, Created, created, taken, refused, create}

-- `%u`, with room for the digits of 64 bits.
unfoldable pub digits : ℕ → ℕ → Bytes
digits zero n = []
digits (suc fuel) n = elim (ltb n 10) [
  | true ↦ (b'0' + n) ∷ []
  | false ↦ digits fuel (n / 10) ++ (b'0' + n % 10) ∷ []
]

abbrev pub decimal : ℕ → Bytes
decimal n = digits 20 n

-- `%d` and `%lld`
unfoldable pub decimal_ℤ : ℤ → Bytes
unfolding digits
decimal_ℤ (pos n) = decimal n
decimal_ℤ (negsuc n) = b'-' ∷ decimal (suc n)

-- "%lld.%d_%u.%s%s"
unfoldable pub candidate : Env → Bytes → ℕ → Bytes
unfolding decimal_ℤ digits
candidate env flags count =
    decimal_ℤ env.now
    ++ (b'.' ∷ (decimal_ℤ env.pid ++ (b'_' ∷ (decimal count ++ (b'.' ∷ (env.hostname ++ flags))))))

-- What follows an attempt to make the file: success, another attempt, or an error.
unfoldable pub genname_next :
    (World → Option Bytes × World) → Bytes → Created × World → Option Bytes × World
genname_next next name (created, w) = (some name, w)
genname_next next name (taken, w) = next w
genname_next next name (refused, w) = (none, w)

-- The loop; `none` is -1. The file of the name that it returns has been made. openat(2) answers EEXIST at
-- most `rounds` times in a row here: behind these the call fails in another way, which ends the loop with
-- -1 as at any attempt. The run that meets taken names for ever has no result, and is not modelled.
unfoldable pub genname_loop : Os → ℕ → Bytes → Env → Bytes → ℕ → World → Option Bytes × World
unfolding genname_next
genname_loop os zero dir env flags count w =
    if leb (name_max + 1) (length (candidate env flags ((count + 1) % 2 ^ 32)))
    then (none, w)
    else (none, tick w)
genname_loop os (suc fuel) dir env flags count w =
    let name = candidate env flags ((count + 1) % 2 ^ 32) in
    let next = genname_loop os fuel dir env flags ((count + 1) % 2 ^ 32) in
    if leb (name_max + 1) (length name)
    then (none, w)
    else genname_next next name (create os dir name w)

unfoldable pub maildir_genname : Os → Maildir → Bytes → Env → World → Option Bytes × World
unfolding genname_loop
maildir_genname os md flags env w =
    genname_loop os os.rounds md.path env flags (os.random w.calls % 128) w

-- The flags that a message gets when it is moved from one maildir to another.
unfoldable pub moved_flags : Subdir → Subdir → MessageFlags → Option MessageFlags
moved_flags subdir_new subdir_cur flags = message_flags_set flags b'S'
moved_flags subdir_cur subdir_new flags = message_flags_clr flags b'S'
moved_flags _ _ flags = some flags

unfoldable pub msgflags : Maildir → Maildir → MessageFlags → Option Bytes
unfolding moved_flags
msgflags src dst flags = elim (moved_flags src.subdir dst.subdir flags) [
  | none ↦ none
  | some flags' ↦ message_flags_str flags' 64
]
