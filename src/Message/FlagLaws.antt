-- ===== src/Message/FlagLaws.antt =====
-- Setting, clearing and testing flags, and their form in a file name.
use mdsort.Base.{
  ℕ, zero, suc, ◌+◌, ◌*◌, ◌/◌, ◌%◌, ◌^◌, ◌≤◌, ◌<◌, true, false, some, [], ◌∷◌, ◌≡◌, refl, ap, arith,
  Bytes, ◌==◌, if◌then◌else◌, length, is_upper, is_lower, ◌⊎◌,
}
use native.Mathlib.Nat.{div-eq_of_lt, add-div_right}
use native.Mathlib.Omega.{pow_step}
use mdsort.Message.{MessageFlags}
use mdsort.Message.Flags.{
  is_message_flag_valid, test_bit, set_bit, message_flags_set, strflags_loop, set_all,
}

-- The letters of the bits of `flags`, from the lowest on.
unfoldable pub letters : ℕ → ℕ → ℕ → Bytes
letters zero flags letter = []
letters (suc n) flags letter =
    let rest = letters n (flags / 2) (letter + 1) in if flags % 2 == 0 then rest else letter ∷ rest

pub half_lt : (flags n : ℕ) → flags < 2 ^ suc n → flags / 2 < 2 ^ n
half_lt flags n q = let e : 2 ^ suc n ≡ 2 * 2 ^ n = pow_step 2 n in omega arith

pub letters_zero : (n letter : ℕ) → letters n 0 letter ≡ []
unfolding letters
letters_zero zero letter = refl
letters_zero (suc n) letter = letters_zero n (letter + 1)

pub parity : (n : ℕ) → (n % 2 ≡ 0) ⊎ (n % 2 ≡ 1)
parity n = omega arith

-- With room for all of them the loop writes the letters of the bits.
pub strflags_loop-letters :
    (n fuel flags letter i bufsiz : ℕ)
    → n ≤ fuel
    → flags < 2 ^ n
    → i + n < bufsiz
    → strflags_loop fuel flags letter i bufsiz ≡ some (letters n flags letter)
unfolding strflags_loop letters
strflags_loop-letters zero zero flags letter i bufsiz p q r = refl
strflags_loop-letters zero (suc fuel) flags letter i bufsiz p q r = ground arith
strflags_loop-letters (suc n) zero flags letter i bufsiz p q r = absurd (omega arith)
strflags_loop-letters (suc n) (suc fuel) flags letter i bufsiz p q r =
    let half : flags / 2 < 2 ^ n = half_lt flags n q in
    let skip =
      strflags_loop-letters n fuel (flags / 2) (letter + 1) i bufsiz (omega arith) half
        (omega arith) in
    let more =
      strflags_loop-letters n fuel (flags / 2) (letter + 1) (i + 1) bufsiz (omega arith) half
        (omega arith) in
    ground (arith, skip, more, letters_zero n (letter + 1))

pub length-letters : (n flags letter : ℕ) → length (letters n flags letter) ≤ n
unfolding letters
length-letters zero flags letter = omega arith
length-letters (suc n) flags letter = ground (arith, length-letters n (flags / 2) (letter + 1))

pub pow_pos : (n : ℕ) → 0 < 2 ^ n
pow_pos zero = omega arith
pow_pos (suc n) = omega (arith, pow_pos n, pow_step 2 n)

pub test_bit-below : (flags k : ℕ) → flags < 2 ^ k → test_bit flags k ≡ false
unfolding test_bit
test_bit-below flags k h = rw (div-eq_of_lt h) refl

pub test_bit-add : (flags k : ℕ) → test_bit flags k ≡ false → test_bit (flags + 2 ^ k) k ≡ true
unfolding test_bit
test_bit-add flags k h = rw (add-div_right flags (pow_pos k)) (ground arith)

pub test_bit-set : (flags k : ℕ) → test_bit (set_bit flags k) k ≡ true
unfolding set_bit
test_bit-set flags k = ground (arith, test_bit-add flags k)

pub set_bit-below : (flags k : ℕ) → flags < 2 ^ k → set_bit flags k ≡ flags + 2 ^ k
unfolding set_bit
set_bit-below flags k h = ground (arith, test_bit-below flags k h)

pub set_upper :
    (mf : MessageFlags) (k : ℕ)
    → k < 26
    → message_flags_set mf (k + b'A') ≡ some (record mf { upper = set_bit mf.upper k })
unfolding message_flags_set is_message_flag_valid is_upper
set_upper mf k h = ground arith

pub set_lower :
    (mf : MessageFlags) (k : ℕ)
    → k < 26
    → message_flags_set mf (k + b'a') ≡ some (record mf { lower = set_bit mf.lower k })
unfolding message_flags_set is_message_flag_valid is_upper is_lower
set_lower mf k h = ground arith

-- What the mask is when the bits of `flags` are put above its first `k`.
pub mask_skip : (m k flags : ℕ) → flags % 2 ≡ 0 → m + flags / 2 * 2 ^ suc k ≡ m + flags * 2 ^ k
mask_skip m k flags h =
    let e : flags ≡ flags / 2 * 2 = omega arith in
    let d : flags * 2 ^ k ≡ flags / 2 * 2 * 2 ^ k = ap (λ f. f * 2 ^ k) e in
    rw (pow_step 2 k, d) (omega arith)

pub mask_bit :
    (m k flags : ℕ) → flags % 2 ≡ 1 → m + 2 ^ k + flags / 2 * 2 ^ suc k ≡ m + flags * 2 ^ k
mask_bit m k flags h =
    let e : flags ≡ flags / 2 * 2 + 1 = omega arith in
    let d : flags * 2 ^ k ≡ (flags / 2 * 2 + 1) * 2 ^ k = ap (λ f. f * 2 ^ k) e in
    rw (pow_step 2 k, d) (omega arith)

pub letters_skip :
    (n flags letter : ℕ)
    → flags % 2 ≡ 0
    → letters (suc n) flags letter ≡ letters n (flags / 2) (letter + 1)
unfolding letters
letters_skip n flags letter h = ground arith

pub letters_bit :
    (n flags letter : ℕ)
    → flags % 2 ≡ 1
    → letters (suc n) flags letter ≡ letter ∷ letters n (flags / 2) (letter + 1)
unfolding letters
letters_bit n flags letter h = ground arith

pub set_all-cons :
    (mf mf' : MessageFlags) (c : ℕ) (s : Bytes)
    → message_flags_set mf c ≡ some mf'
    → set_all mf (c ∷ s) ≡ set_all mf' s
unfolding set_all
set_all-cons mf mf' c s h = rw (set_all, h) refl

pub letter_next : (k a : ℕ) → k + a + 1 ≡ suc k + a
letter_next k a = omega arith

pub below_next : (m k : ℕ) → m < 2 ^ k → m + 2 ^ k < 2 ^ suc k
below_next m k h = omega (arith, pow_step 2 k)

pub below_skip : (m k : ℕ) → m < 2 ^ k → m < 2 ^ suc k
below_skip m k h = omega (arith, pow_step 2 k)
