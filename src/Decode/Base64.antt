-- ===== src/Decode/Base64.antt =====
-- base64: decoding what an encoder writes gives the bytes back.
use Prim.Native.Nat.{bit_or}
use mdsort.Base.{
  ℕ, zero, suc, ◌+◌, ◌*◌, ◌/◌, ◌%◌, ◌<◌, Bool, true, false, not, ◌&&◌, Option, none, some, [], ◌∷◌,
  ◌≡◌, refl, arith, Bytes, ◌==◌, ==_iff, is_space,
}
use mdsort.Base.Tables.{holds_below, holds_below_lem}
use mdsort.Decode.{base64, pad64, b64_index, B64, b64_step, b64_loop}

abbrev char_at : ℕ → Bytes → ℕ
char_at i [] = 0
char_at zero (c ∷ s) = c
char_at (suc i) (c ∷ s) = char_at i s

-- The character that stands for six bits.
unfoldable pub b64_char : ℕ → ℕ
b64_char v = char_at v base64

-- RFC 4648: three bytes become four characters, and the last one or two bytes are padded.
unfoldable pub b64_encode : Bytes → Bytes
unfolding b64_char
b64_encode [] = []
b64_encode (x ∷ []) = b64_char (x / 4) ∷ b64_char (x % 4 * 16) ∷ pad64 ∷ pad64 ∷ []
b64_encode (x ∷ y ∷ []) =
    b64_char (x / 4) ∷ b64_char (x % 4 * 16 + y / 16) ∷ b64_char (y % 16 * 4) ∷ pad64 ∷ []
b64_encode (x ∷ y ∷ z ∷ s) =
    b64_char (x / 4)
    ∷ b64_char (x % 4 * 16 + y / 16)
    ∷ b64_char (y % 16 * 4 + z / 64)
    ∷ b64_char (z % 64)
    ∷ b64_encode s

abbrev is_some_eq : Option ℕ → ℕ → Bool
is_some_eq none v = false
is_some_eq (some w) v = w == v

is_some_eq-some : (o : Option ℕ) (v : ℕ) → is_some_eq o v ≡ true → o ≡ some v
is_some_eq-some none v h = cc
is_some_eq-some (some w) v h = ground arith

abbrev good_char : ℕ → Bool
good_char v =
    not (is_space (b64_char v))
    && (not (b64_char v == pad64) && is_some_eq (b64_index (b64_char v)) v)

good_chars : holds_below good_char 64 ≡ true
unfolding holds_below is_space b64_char b64_index
good_chars = refl

split_good :
    (a b c : Bool) → (not a && (not b && c)) ≡ true → (a ≡ false) × (b ≡ false) × (c ≡ true)
split_good a b c h = ground arith

char_facts :
    (v : ℕ)
    → v < 64
    → (is_space (b64_char v) ≡ false)
      × ((b64_char v == pad64) ≡ false)
      × (b64_index (b64_char v) ≡ some v)
char_facts v h =
    let (a, b, c) = split_good _ _ _ (holds_below_lem good_char 64 h good_chars) in
    (a, b, is_some_eq-some _ v c)

-- The bytes are put together again from their two parts.
pub low_two : (x : ℕ) → x < 256 → bit_or (x / 4 * 4 % 256) (x % 4) ≡ x
low_two x h = (==_iff _ x).0 (holds_below_lem _ 256 h table)
  where
    table : holds_below (λ k. bit_or (k / 4 * 4 % 256) (k % 4) == k) 256 ≡ true
    table = unfold holds_below in refl

pub low_four : (x : ℕ) → x < 256 → bit_or (x / 16 * 16) (x % 16) ≡ x
low_four x h = (==_iff _ x).0 (holds_below_lem _ 256 h table)
  where
    table : holds_below (λ k. bit_or (k / 16 * 16) (k % 16) == k) 256 ≡ true
    table = unfold holds_below in refl

pub low_six : (x : ℕ) → x < 256 → bit_or (x / 64 * 64) (x % 64) ≡ x
low_six x h = (==_iff _ x).0 (holds_below_lem _ 256 h table)
  where
    table : holds_below (λ k. bit_or (k / 64 * 64) (k % 64) == k) 256 ≡ true
    table = unfold holds_below in refl

abbrev pub at : ℕ → Bytes → ℕ → B64
at state out partial = record { state = state; out = out; partial = partial }

-- One character of the alphabet.
pub loop_char :
    (n v : ℕ) (b b' : B64) (s : Bytes)
    → v < 64
    → b64_step n b v ≡ some b'
    → b64_loop n b (b64_char v ∷ s) ≡ b64_loop n b' s
unfolding b64_loop
loop_char n v b b' s h e =
    let (space, pad, index) = char_facts v h in ground (arith, space, pad, index, e)
