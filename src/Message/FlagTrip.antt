-- ===== src/Message/FlagTrip.antt =====
-- The flags of a message in its file name, and back.
use mdsort.Base.{
  ℕ, zero, suc, ◌+◌, ◌-◌, ◌*◌, ◌/◌, ◌^◌, ◌≤◌, ◌<◌, none, some, [], ◌∷◌, ◌++◌, ◌≡◌, ◌≢◌, refl, sym,
  ap, ◌∙◌, arith, Bytes, length, append-nil, is_upper, is_lower, Option-cases, inl, inr,
}
use mdsort.Message.{MessageFlags, zero_flags}
use mdsort.Message.Flags.{
  is_message_flag_valid, set_bit, message_flags_set, strflags, flags_prefix, message_flags_str,
  strrchr, set_all, parse_after_colon, message_flags_parse,
}
use mdsort.Message.FlagLaws.{
  letters, half_lt, parity, strflags_loop-letters, length-letters, set_bit-below, set_upper,
  set_lower, mask_skip, mask_bit, letters_skip, letters_bit, set_all-cons, letter_next, below_next,
  below_skip,
}

-- Setting the letters of a mask sets the bits of the mask, in one of the two words.
module _ (base : ℕ) (word : ℕ → MessageFlags)
    (set_word : (m k : ℕ)
      → k < 26
      → message_flags_set (word m) (k + base) ≡ some (word (set_bit m k))) where
  set_all-letters :
      (n k flags m : ℕ) (s : Bytes)
      → n + k ≤ 26
      → flags < 2 ^ n
      → m < 2 ^ k
      → set_all (word m) (letters n flags (k + base) ++ s) ≡ set_all (word (m + flags * 2 ^ k)) s
  unfolding letters
  set_all-letters zero k flags m s p q r =
      let e : flags ≡ 0 = omega arith in
      let d : m ≡ m + flags * 2 ^ k = rw e (omega arith) in ap (λ x. set_all (word x) s) d
  set_all-letters (suc n) k flags m s p q r = elim (parity flags) [
    | inl e ↦
        rw
          (
            letters_skip n flags (k + base) e,
            letter_next k base,
            set_all-letters n (suc k) (flags / 2) m s (omega arith) (half_lt flags n q)
                (below_skip m k r),
          )
          (ap (λ x. set_all (word x) s) (mask_skip m k flags e))
    | inr e ↦
        let set_one : message_flags_set (word m) (k + base) ≡ some (word (m + 2 ^ k)) =
          set_word m k (omega arith) ∙ rw (set_bit-below m k r) refl in
        rw
          (
            letters_bit n flags (k + base) e,
            letter_next k base,
            set_all-cons (word m) (word (m + 2 ^ k)) (k + base)
                (letters n (flags / 2) (suc k + base) ++ s) set_one,
            set_all-letters n (suc k) (flags / 2) (m + 2 ^ k) s (omega arith) (half_lt flags n q)
                (below_next m k r),
          )
          (ap (λ x. set_all (word x) s) (mask_bit m k flags e))
  ]

unfoldable all_letters : MessageFlags → Bytes
unfolding letters
all_letters mf = letters 26 mf.upper b'A' ++ letters 26 mf.lower b'a'

whole_mask : (m : ℕ) → 0 + m * 2 ^ 0 ≡ m
whole_mask m = omega arith

set_all-all_letters :
    (mf : MessageFlags)
    → mf.upper < 2 ^ 26
    → mf.lower < 2 ^ 26
    → set_all zero_flags (all_letters mf) ≡ some mf
unfolding all_letters set_all
set_all-all_letters mf u l =
    let upper =
      set_all-letters b'A' (λ x. record { upper = x; lower = 0 })
        (λ m. set_upper (record { upper = m; lower = 0 })) 26 0 mf.upper 0
        (letters 26 mf.lower b'a') (omega arith) u (omega arith) in
    let lower =
      set_all-letters b'a' (λ x. record { upper = mf.upper; lower = x })
        (λ m. set_lower (record { upper = mf.upper; lower = m })) 26 0 mf.lower 0 [] (omega arith) l
        (omega arith) in
    rw
      (
        all_letters,
        upper,
        whole_mask mf.upper,
        sym (append-nil (letters 26 mf.lower b'a')),
        lower,
        whole_mask mf.lower,
      )
      (unfold set_all in refl)

-- With the 64 bytes of its callers `message_flags_str` has room for every mask of 26 bits.
message_flags_str_lem :
    (mf : MessageFlags)
    → mf.upper < 2 ^ 26
    → mf.lower < 2 ^ 26
    → message_flags_str mf 64 ≡ some (flags_prefix ++ all_letters mf)
unfolding message_flags_str all_letters
message_flags_str_lem mf u l =
    rw
      (
        message_flags_str,
        strflags,
        strflags_loop-letters 26 32 mf.upper b'A' 0 61 (omega arith) u (omega arith),
        strflags_loop-letters 26 32 mf.lower b'a' 0 (61 - length (letters 26 mf.upper b'A'))
            (omega arith) l (omega (arith, length-letters 26 mf.upper b'A')),
      )
      (unfold all_letters in refl)

strrchr-last : (c : ℕ) (p s : Bytes) → strrchr c s ≡ none → strrchr c (p ++ c ∷ s) ≡ some (c ∷ s)
unfolding strrchr
strrchr-last c [] s h = ground arith
strrchr-last c (x ∷ p) s h = ground (arith, strrchr-last c p s h)

set_flag-letter : (mf mf' : MessageFlags) (c : ℕ) → message_flags_set mf c ≡ some mf' → c ≢ b':'
unfolding message_flags_set is_message_flag_valid is_upper is_lower
set_flag-letter mf mf' c h = ground arith

set_all-no_colon :
    (mf mf' : MessageFlags) (s : Bytes) → set_all mf s ≡ some mf' → strrchr b':' s ≡ none
unfolding set_all strrchr
set_all-no_colon mf mf' [] h = refl
set_all-no_colon mf mf' (c ∷ s) h = elim (Option-cases (message_flags_set mf c)) [
  | inl e ↦ ground arith
  | inr e ↦ ground (arith, set_flag-letter mf e.0 c e.1, set_all-no_colon e.0 mf' s)
]

strrchr-skip : (s : Bytes) → strrchr b':' s ≡ none → strrchr b':' (b'2' ∷ b',' ∷ s) ≡ none
unfolding strrchr
strrchr-skip s h = ground arith

-- The flags that `message_flags_str` writes into the 64 bytes of its callers are those that
-- `message_flags_parse` reads back from a path that ends in them, whatever stands before them, and
-- there is room for every pair of masks of 26 bits.
pub message_flags_parse-str :
    (mf : MessageFlags) (path : Bytes)
    → mf.upper < 2 ^ 26
    → mf.lower < 2 ^ 26
    → ((s : Bytes) × (message_flags_str mf 64 ≡ some s)
        × (message_flags_parse zero_flags (path ++ s) ≡ some mf))
unfolding message_flags_parse parse_after_colon
message_flags_parse-str mf path u l =
    let all = set_all-all_letters mf u l in
    let colon = set_all-no_colon zero_flags mf (all_letters mf) all in
    (
      flags_prefix ++ all_letters mf,
      message_flags_str_lem mf u l,
      rw
          (
            message_flags_parse,
            strrchr-last b':' path (b'2' ∷ b',' ∷ all_letters mf)
                (strrchr-skip (all_letters mf) colon),
          )
          all,
    )
