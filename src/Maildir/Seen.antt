-- ===== src/Maildir/Seen.antt =====
-- The flag for seen messages in the names that `msgflags` gives.
use mdsort.Base.{
  ℕ, ◌<◌, ◌^◌, Bool, true, false, some, ◌++◌, ◌≡◌, refl, arith, Bytes, Bool-cases, inl, inr,
}
use mdsort.Message.{MessageFlags, zero_flags}
use mdsort.Message.Flags.{
  test_bit, set_bit, clear_bit, is_message_flag_valid, message_flags_set, message_flags_clr,
  message_flags_isset, message_flags_parse,
}
use mdsort.Message.FlagTrip.{message_flags_parse-str}
use mdsort.Message.FlagLaws.{test_bit-set}
use mdsort.Message.FlagUpdates.{test_bit-clear}
use mdsort.Maildir.{Subdir, subdir_new, subdir_cur, Maildir}
use mdsort.Maildir.Names.{moved_flags, msgflags}

-- Both masks have 26 bits, one for each letter.
abbrev pub IsFlags : MessageFlags → Type 0
IsFlags mf = (mf.upper < 2 ^ 26) × (mf.lower < 2 ^ 26)

-- Whether a message that is moved is a seen one.
abbrev pub seen_after : Subdir → Subdir → Bool → Bool
seen_after subdir_new subdir_cur seen = true
seen_after subdir_cur subdir_new seen = false
seen_after _ _ seen = seen

set_bit-below : (n : ℕ) → n < 2 ^ 26 → set_bit n 18 < 2 ^ 26
unfolding set_bit test_bit
set_bit-below n l = elim (Bool-cases (test_bit n 18)) [
  | inl b ↦ rw (set_bit, b) l
  | inr b ↦ rw (set_bit, b) (ground (arith, l, b))
]

clear_bit-below : (n : ℕ) → n < 2 ^ 26 → clear_bit n 18 < 2 ^ 26
unfolding clear_bit test_bit
clear_bit-below n l = elim (Bool-cases (test_bit n 18)) [
  | inl b ↦ rw (clear_bit, b) (ground (arith, l))
  | inr b ↦ rw (clear_bit, b) l
]

set_seen :
    (mf : MessageFlags)
    → IsFlags mf
    → (mf' : MessageFlags) × (message_flags_set mf b'S' ≡ some mf')
      × IsFlags mf'
      × (message_flags_isset mf' b'S' ≡ true)
unfolding message_flags_set is_message_flag_valid set_bit test_bit message_flags_isset
set_seen mf h = (
  record mf { upper = set_bit mf.upper 18 },
  refl,
  (set_bit-below mf.upper h.0, h.1),
  test_bit-set mf.upper 18,
)

clear_seen :
    (mf : MessageFlags)
    → IsFlags mf
    → (mf' : MessageFlags) × (message_flags_clr mf b'S' ≡ some mf')
      × IsFlags mf'
      × (message_flags_isset mf' b'S' ≡ false)
unfolding message_flags_clr is_message_flag_valid clear_bit test_bit message_flags_isset
clear_seen mf h = (
  record mf { upper = clear_bit mf.upper 18 },
  refl,
  (clear_bit-below mf.upper h.0, h.1),
  test_bit-clear mf.upper 18,
)

moved_flags-seen :
    (s d : Subdir) (mf : MessageFlags)
    → IsFlags mf
    → (mf' : MessageFlags) × (moved_flags s d mf ≡ some mf')
      × IsFlags mf'
      × (message_flags_isset mf' b'S' ≡ seen_after s d (message_flags_isset mf b'S'))
unfolding moved_flags
moved_flags-seen subdir_new subdir_cur mf h = set_seen mf h
moved_flags-seen subdir_cur subdir_new mf h = clear_seen mf h
moved_flags-seen subdir_new subdir_new mf h = (mf, refl, h, refl)
moved_flags-seen subdir_cur subdir_cur mf h = (mf, refl, h, refl)

-- If both masks of flags have 26 bits, `msgflags` gives the end of a name, and `message_flags_parse`
-- reads from any path that ends in it flags with `S` for a message that goes from new to cur, flags
-- without `S` for one that goes from cur to new, and else with `S` if the message had it.
pub msgflags-seen :
    (src dst : Maildir) (mf : MessageFlags) (path : Bytes)
    → IsFlags mf
    → (s : Bytes) × (mf' : MessageFlags) × (msgflags src dst mf ≡ some s)
      × (message_flags_parse zero_flags (path ++ s) ≡ some mf')
      × (message_flags_isset mf' b'S'
          ≡ seen_after src.subdir dst.subdir (message_flags_isset mf b'S'))
unfolding msgflags
msgflags-seen src dst mf path h =
    let (mf', e, b, i) = moved_flags-seen src.subdir dst.subdir mf h in
    let (s, f, p) = message_flags_parse-str mf' path b.0 b.1 in (s, mf', rw (msgflags, e) f, p, i)
