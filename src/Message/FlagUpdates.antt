-- ===== src/Message/FlagUpdates.antt =====
-- Setting and clearing one flag of a message.
use mdsort.Base.{
  ℕ, ◌+◌, ◌-◌, ◌/◌, ◌^◌, ◌≤◌, Bool, true, false, Option, none, some, ◌≡◌, sym, ap, ◌∙◌, arith,
  if◌then◌else◌, Bool-cases, inl, inr,
}
use native.Mathlib.Nat.{add-div_right, le-div_iff_mul-le}
use mdsort.Message.{MessageFlags}
use mdsort.Message.Flags.{
  is_message_flag_valid, test_bit, clear_bit, message_flags_isset, message_flags_clr,
  message_flags_set,
}
use mdsort.Message.FlagLaws.{pow_pos, test_bit-set}

-- The bit of an amount above 2 ^ k flips when 2 ^ k is taken away.
test_bit-sub :
    (flags k : ℕ) → 2 ^ k ≤ flags → test_bit flags k ≡ true → test_bit (flags - 2 ^ k) k ≡ false
unfolding test_bit
test_bit-sub flags k h e =
    let whole : flags - 2 ^ k + 2 ^ k ≡ flags = omega arith in
    let above : flags / 2 ^ k ≡ (flags - 2 ^ k) / 2 ^ k + 1 =
      ap (λ n. n / 2 ^ k) (sym whole) ∙ add-div_right (flags - 2 ^ k) (pow_pos k) in
    ground (arith, above, e)

test_bit-large : (flags k : ℕ) → test_bit flags k ≡ true → 2 ^ k ≤ flags
unfolding test_bit
test_bit-large flags k e =
    let one : 1 ≤ flags / 2 ^ k = ground (arith, e) in
    omega (arith, (le-div_iff_mul-le (pow_pos k)).0 one)

pub test_bit-clear : (flags k : ℕ) → test_bit (clear_bit flags k) k ≡ false
unfolding clear_bit
test_bit-clear flags k = elim (Bool-cases (test_bit flags k)) [
  | inl e ↦ rw (clear_bit, e) (test_bit-sub flags k (test_bit-large flags k e) e)
  | inr e ↦ rw (clear_bit, e) e
]

-- Whether a flag is set after an operation that may fail.
abbrev pub isset_after : ℕ → Option MessageFlags → Option Bool
isset_after flag none = none
isset_after flag (some mf) = some (message_flags_isset mf flag)

set-isset :
    (mf : MessageFlags) (flag : ℕ)
    → isset_after flag (message_flags_set mf flag)
      ≡ (if is_message_flag_valid flag then some true else none)
unfolding message_flags_set message_flags_isset
set-isset mf flag =
    ground (arith, test_bit-set mf.upper (flag - b'A'), test_bit-set mf.lower (flag - b'a'))

clr-isset :
    (mf : MessageFlags) (flag : ℕ)
    → isset_after flag (message_flags_clr mf flag)
      ≡ (if is_message_flag_valid flag then some false else none)
unfolding message_flags_clr message_flags_isset
clr-isset mf flag =
    ground (arith, test_bit-clear mf.upper (flag - b'A'), test_bit-clear mf.lower (flag - b'a'))

-- For a letter, `message_flags_isset` finds the flag that `message_flags_set` has set and does not
-- find the one that `message_flags_clr` has cleared; for anything else both operations fail.
pub message_flags_set-isset :
    (mf : MessageFlags) (flag : ℕ)
    → (isset_after flag (message_flags_set mf flag)
        ≡ (if is_message_flag_valid flag then some true else none))
      × (isset_after flag (message_flags_clr mf flag)
          ≡ (if is_message_flag_valid flag then some false else none))
message_flags_set-isset mf flag = (set-isset mf flag, clr-isset mf flag)
