-- ===== src/Decode/RoundTrip.antt =====
-- The decoder over the output of the encoder, group by group.
use mdsort.Base.{
  ℕ, ◌+◌, ◌*◌, ◌/◌, ◌%◌, ◌≤◌, ◌<◌, Option, none, some, [], ◌∷◌, ◌++◌, ◌≡◌, refl, sym, ap, ◌∙◌,
  arith, Bytes, length, length-append, is_space, skip_while, All, append_assoc, append-nil, before,
}
use mdsort.Decode.{
  pad64, B64, b64_carry, b64_step, Stop, at_pad, b64_loop, b64_trailer, b64_second_pad, b64_finish,
  b64_pton, base64_decode, c_string,
}
use mdsort.Decode.Base64.{b64_char, b64_encode, at, loop_char, low_two, low_four, low_six}

-- The four states, at the value of a character. `o` is what has been written.
module _ (n : ℕ) (o : Bytes) (x : ℕ) (byte : x < 256) where
  step_first : length o < n → b64_step n (at 0 o 0) (x / 4) ≡ some (at 1 o (x / 4 * 4 % 256))
  unfolding b64_step
  step_first h = ground arith

  step_second :
      (y : ℕ)
      → y < 256
      → length o + 1 < n
      → b64_step n (at 1 o (x / 4 * 4 % 256)) (x % 4 * 16 + y / 16)
        ≡ some (at 2 (o ++ x ∷ []) (y / 16 * 16))
  unfolding b64_step b64_carry
  step_second y k h =
      let a : (x % 4 * 16 + y / 16) / 16 ≡ x % 4 = omega arith in
      let b : (x % 4 * 16 + y / 16) % 16 * 16 ≡ y / 16 * 16 = omega arith in
      rw (a, b, low_two x byte) (ground arith)

  step_third :
      (z : ℕ)
      → z < 256
      → length o + 1 < n
      → b64_step n (at 2 o (x / 16 * 16)) (x % 16 * 4 + z / 64)
        ≡ some (at 3 (o ++ x ∷ []) (z / 64 * 64))
  unfolding b64_step b64_carry
  step_third z k h =
      let a : (x % 16 * 4 + z / 64) / 4 ≡ x % 16 = omega arith in
      let b : (x % 16 * 4 + z / 64) % 4 * 64 ≡ z / 64 * 64 = omega arith in
      rw (a, b, low_four x byte) (ground arith)

  step_fourth :
      length o < n → b64_step n (at 3 o (x / 64 * 64)) (x % 64) ≡ some (at 0 (o ++ x ∷ []) 0)
  unfolding b64_step
  step_fourth h = rw (low_six x byte) (ground arith)

  -- The last byte, with no byte behind it to share a character with.
  step_second_last :
      length o < n
      → b64_step n (at 1 o (x / 4 * 4 % 256)) (x % 4 * 16) ≡ some (at 2 (o ++ x ∷ []) 0)
  unfolding b64_step b64_carry
  step_second_last h =
      let a : x % 4 * 16 / 16 ≡ x % 4 = omega arith in
      let b : x % 4 * 16 % 16 * 16 ≡ 0 = omega arith in rw (a, b, low_two x byte) (ground arith)

  step_third_last :
      length o < n → b64_step n (at 2 o (x / 16 * 16)) (x % 16 * 4) ≡ some (at 3 (o ++ x ∷ []) 0)
  unfolding b64_step b64_carry
  step_third_last h =
      let a : x % 16 * 4 / 4 ≡ x % 16 = omega arith in
      let b : x % 16 * 4 % 4 * 64 ≡ 0 = omega arith in rw (a, b, low_four x byte) (ground arith)

loop_pad : (n : ℕ) (b : B64) (s : Bytes) → b64_loop n b (pad64 ∷ s) ≡ some (at_pad b s)
unfolding b64_loop is_space
loop_pad n b s = refl

length_snoc : (o : Bytes) (x : ℕ) → length (o ++ x ∷ []) ≡ length o + 1
length_snoc o x = omega (arith, length-append o (x ∷ []))

-- Three bytes: four characters lead back to state 0.
loop_group :
    (n : ℕ) (o : Bytes) (x y z : ℕ) (s : Bytes)
    → x < 256
    → y < 256
    → z < 256
    → length o + 3 ≤ n
    → b64_loop n (at 0 o 0) (
        b64_char (x / 4)
        ∷ b64_char (x % 4 * 16 + y / 16)
        ∷ b64_char (y % 16 * 4 + z / 64)
        ∷ b64_char (z % 64)
        ∷ s)
      ≡ b64_loop n (at 0 (((o ++ x ∷ []) ++ y ∷ []) ++ z ∷ []) 0) s
loop_group n o x y z s hx hy hz h =
    let o1 = o ++ x ∷ [] in
    let o2 = o1 ++ y ∷ [] in
    loop_char n (x / 4) _ _ _ (omega arith) (step_first n o x hx (omega arith))
    ∙ loop_char n (x % 4 * 16 + y / 16) _ _ _ (omega arith)
        (step_second n o x hx y hy (omega arith))
    ∙ loop_char n (y % 16 * 4 + z / 64) _ _ _ (omega arith)
        (step_third n o1 y hy z hz (omega (arith, length_snoc o x)))
    ∙ loop_char n (z % 64) _ _ _ (omega arith)
        (step_fourth n o2 z hz (omega (arith, length_snoc o x, length_snoc o1 y)))

-- What becomes of where the loop stopped.
abbrev finish : ℕ → Option Stop → Option Bytes
finish n r = elim r [ none ↦ none | some stop ↦ b64_finish n stop ]

decode-encode_from :
    (n : ℕ) (s o : Bytes)
    → All (λ x. x < 256) s
    → length o + length s ≤ n
    → finish n (b64_loop n (at 0 o 0) (b64_encode s)) ≡ some (o ++ s)
unfolding b64_encode
decode-encode_from n [] o h k = unfold b64_loop b64_finish in ap some (sym (append-nil o))
decode-encode_from n (x ∷ []) o h k =
    ap (finish n) (
      loop_char n (x / 4) _ _ _ (omega arith) (step_first n o x h.0 (omega arith))
      ∙ loop_char n (x % 4 * 16) _ _ _ (omega arith) (step_second_last n o x h.0 (omega arith))
      ∙ loop_pad n _ _)
    ∙ unfold b64_finish b64_second_pad b64_trailer skip_while is_space in ground arith
decode-encode_from n (x ∷ y ∷ []) o h k =
    ap (finish n) (
      loop_char n (x / 4) _ _ _ (omega arith) (step_first n o x h.0 (omega arith))
      ∙ loop_char n (x % 4 * 16 + y / 16) _ _ _ (omega arith)
          (step_second n o x h.0 y h.1.0 (omega arith))
      ∙ loop_char n (y % 16 * 4) _ _ _ (omega arith)
          (step_third_last n (o ++ x ∷ []) y h.1.0 (omega (arith, length_snoc o x)))
      ∙ loop_pad n _ _)
    ∙ unfold b64_finish b64_second_pad b64_trailer skip_while is_space in
      ground (arith, append_assoc o (x ∷ []) (y ∷ []))
decode-encode_from n (x ∷ y ∷ z ∷ s) o h k =
    ap (finish n) (loop_group n o x y z (b64_encode s) h.0 h.1.0 h.1.1.0 (omega arith))
    ∙ decode-encode_from n s (((o ++ x ∷ []) ++ y ∷ []) ++ z ∷ []) h.1.1.1 (
        omega (
          arith,
          length_snoc o x,
          length_snoc (o ++ x ∷ []) y,
          length_snoc ((o ++ x ∷ []) ++ y ∷ []) z,
        ))
    ∙ simp append_assoc

-- `b64_pton` gives back every string of bytes from its RFC 4648 encoding, if the target has room for
-- it.
pub pton-encode :
    (s : Bytes) (targsize : ℕ)
    → All (λ x. x < 256) s
    → length s ≤ targsize
    → b64_pton (b64_encode s) targsize ≡ some s
unfolding b64_pton
pton-encode s targsize h k = decode-encode_from targsize s [] h (omega arith)

length-b64_encode : (s : Bytes) → length s ≤ length (b64_encode s)
unfolding b64_encode
length-b64_encode [] = omega arith
length-b64_encode (x ∷ []) = omega arith
length-b64_encode (x ∷ y ∷ []) = omega arith
length-b64_encode (x ∷ y ∷ z ∷ s) = omega (arith, length-b64_encode s)

c_string_self : (s : Bytes) → All (λ x. (0 < x) × (x < 256)) s → c_string s ≡ s
unfolding before
c_string_self [] h = refl
c_string_self (x ∷ s) h = ground (arith, c_string_self s h.1)

bytes_of : (s : Bytes) → All (λ x. (0 < x) × (x < 256)) s → All (λ x. x < 256) s
bytes_of [] h = tt
bytes_of (x ∷ s) h = (h.0.1, bytes_of s h.1)

-- `base64_decode` gives back every string, a sequence of bytes with no NUL in it, from its RFC 4648
-- encoding.
pub base64_decode-encode :
    (s : Bytes) → All (λ x. (0 < x) × (x < 256)) s → base64_decode (b64_encode s) ≡ some s
unfolding base64_decode
base64_decode-encode s h =
    rw
      (
        base64_decode,
        pton-encode s (length (b64_encode s) + 1) (bytes_of s h)
            (omega (arith, length-b64_encode s)),
      )
      (ap some (c_string_self s h))
