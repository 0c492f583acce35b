-- ===== src/Message/Flags.antt =====
-- The maildir flags of a message, and their form in a file name.
use mdsort.Base.{
  ℕ, zero, suc, ◌+◌, ◌-◌, ◌/◌, ◌%◌, ◌^◌, Bool, true, not, ◌&&◌, ◌||◌, Option, none, some, [], ◌∷◌,
  ◌++◌, Bytes, leb, ltb, ◌==◌, if◌then◌else◌, length, is_upper, is_lower,
}
use mdsort.Message.{MessageFlags}

unfoldable pub is_message_flag_valid : ℕ → Bool
unfolding is_upper is_lower
is_message_flag_valid flag = is_upper flag || is_lower flag

-- `(flags & 1 << k) != 0`, `flags | 1 << k` and `flags & ~(1 << k)`.
unfoldable pub test_bit : ℕ → ℕ → Bool
test_bit flags k = (flags / 2 ^ k) % 2 == 1

unfoldable pub set_bit : ℕ → ℕ → ℕ
unfolding test_bit
set_bit flags k = if test_bit flags k then flags else flags + 2 ^ k

unfoldable pub clear_bit : ℕ → ℕ → ℕ
unfolding test_bit
clear_bit flags k = if test_bit flags k then flags - 2 ^ k else flags

-- An invalid flag is answered by 1, as a flag that is set.
unfoldable pub message_flags_isset : MessageFlags → ℕ → Bool
message_flags_isset mf flag =
    if not (is_message_flag_valid flag)
    then true
    else if is_upper flag
    then test_bit mf.upper (flag - b'A')
    else test_bit mf.lower (flag - b'a')

-- `none` is the error of an unknown flag.
unfoldable pub message_flags_clr : MessageFlags → ℕ → Option MessageFlags
message_flags_clr mf flag =
    if not (is_message_flag_valid flag)
    then none
    else if is_upper flag
    then some (record mf { upper = clear_bit mf.upper (flag - b'A') })
    else some (record mf { lower = clear_bit mf.lower (flag - b'a') })

unfoldable pub message_flags_set : MessageFlags → ℕ → Option MessageFlags
message_flags_set mf flag =
    if not (is_message_flag_valid flag)
    then none
    else if is_upper flag
    then some (record mf { upper = set_bit mf.upper (flag - b'A') })
    else some (record mf { lower = set_bit mf.lower (flag - b'a') })

-- The loop over the bits, on fuel; 32 rounds are enough for an unsigned int. `i` is the number of
-- bytes written, and `none` is -1.
unfoldable pub strflags_loop : ℕ → ℕ → ℕ → ℕ → ℕ → Option Bytes
strflags_loop zero flags letter i bufsiz = some []
strflags_loop (suc fuel) flags letter i bufsiz =
    let skip = strflags_loop fuel (flags / 2) (letter + 1) i bufsiz in
    let more = strflags_loop fuel (flags / 2) (letter + 1) (i + 1) bufsiz in
    if flags == 0
    then some []
    else if flags % 2 == 0
    then skip
    else if leb (bufsiz - 1) i
    then none
    else elim more [ none ↦ none | some s ↦ some (letter ∷ s) ]

unfoldable pub strflags : ℕ → ℕ → ℕ → Option Bytes
unfolding strflags_loop
strflags flags offset bufsiz = strflags_loop 32 flags offset 0 bufsiz

abbrev pub flags_prefix : Bytes
flags_prefix = b':' ∷ b'2' ∷ b',' ∷ []

unfoldable pub message_flags_str : MessageFlags → ℕ → Option Bytes
unfolding strflags
message_flags_str mf bufsiz =
    if ltb bufsiz 4 then none else elim (strflags mf.upper b'A' (bufsiz - 3)) [
      | none ↦ none
      | some u ↦ elim (strflags mf.lower b'a' (bufsiz - 3 - length u)) [
        | none ↦ none
        | some l ↦ some (flags_prefix ++ (u ++ l))
      ]
    ]

-- strrchr(3): the rest of the string from the last occurrence on.
unfoldable pub strrchr : ℕ → Bytes → Option Bytes
strrchr c [] = none
strrchr c (x ∷ s) = elim (strrchr c s) [
  | some r ↦ some r
  | none ↦ if x == c then some (x ∷ s) else none
]

-- Setting each flag of a string; the first unknown one is an error.
unfoldable pub set_all : MessageFlags → Bytes → Option MessageFlags
unfolding message_flags_set
set_all mf [] = some mf
set_all mf (c ∷ s) = elim (message_flags_set mf c) [ none ↦ none | some mf' ↦ set_all mf' s ]

-- What follows the last colon.
unfoldable pub parse_after_colon : MessageFlags → Bytes → Option MessageFlags
unfolding set_all
parse_after_colon mf (a ∷ b ∷ s) = if a == b'2' && b == b',' then set_all mf s else none
parse_after_colon mf _ = none

unfoldable pub message_flags_parse : MessageFlags → Bytes → Option MessageFlags
unfolding strrchr parse_after_colon
message_flags_parse mf path = elim (strrchr b':' path) [
  | none ↦ some mf
  | some [] ↦ some mf
  | some (c ∷ s) ↦ parse_after_colon mf s
]
