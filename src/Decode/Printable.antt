-- ===== src/Decode/Printable.antt =====
-- quoted-printable: what an encoder may write is decoded to the bytes it stands for.
use mdsort.Base.{
  ℕ, ◌+◌, ◌-◌, ◌/◌, ◌%◌, ◌≤◌, ◌<◌, Bool, true, false, not, ◌&&◌, Option, none, some, [], ◌∷◌, ◌≡◌,
  ◌≢◌, refl, ap, ◌∙◌, arith, Bytes, ltb, ◌==◌, if◌then◌else◌, length,
}
use mdsort.Base.Tables.{holds_below, holds_below_lem}
use mdsort.Decode.{htoa, hex_pair, quoted_printable_decode_buffer}

-- The digit that an encoder writes for a value below 16.
unfoldable pub hex_digit : ℕ → ℕ
hex_digit v = if ltb v 10 then b'0' + v else b'A' + (v - 10)

-- RFC 2045, section 6.7: `Encodes s e` holds if `e` is a quoted-printable encoding of `s`. A byte
-- other than `=` may stand for itself, each byte may be escaped, and a soft line break stands for
-- nothing.
pub data Encodes : Bytes → Bytes → Type 0 where
  done : Encodes [] []
  plain : {c : ℕ} {s e : Bytes} → c ≢ b'=' → Encodes s e → Encodes (c ∷ s) (c ∷ e)
  escaped :
      {c : ℕ} {s e : Bytes}
      → c < 256
      → Encodes s e
      → Encodes (c ∷ s) (b'=' ∷ hex_digit (c / 16) ∷ hex_digit (c % 16) ∷ e)
  soft_break : {s e : Bytes} → Encodes s e → Encodes s (b'=' ∷ b'\n' ∷ e)

abbrev is_pair : ℕ → Option ℕ → Bool
is_pair c none = false
is_pair c (some d) = d == c

is_pair-some : (c : ℕ) (o : Option ℕ) → is_pair c o ≡ true → o ≡ some c
is_pair-some c none h = cc
is_pair-some c (some d) h = ground arith

abbrev good_pair : ℕ → Bool
good_pair c =
    is_pair c (hex_pair (hex_digit (c / 16)) (hex_digit (c % 16)))
    && not (hex_digit (c / 16) == b'\n')

good_pairs : holds_below good_pair 256 ≡ true
unfolding holds_below hex_digit hex_pair htoa
good_pairs = refl

split_pair : (a b : Bool) → (a && not b) ≡ true → (a ≡ true) × (b ≡ false)
split_pair a b h = ground arith

pair_facts :
    (c : ℕ)
    → c < 256
    → (hex_pair (hex_digit (c / 16)) (hex_digit (c % 16)) ≡ some c) × (hex_digit (c / 16) ≢ b'\n')
pair_facts c h =
    let (pair, digit) = split_pair _ _ (holds_below_lem good_pair 256 h good_pairs) in
    (is_pair-some c _ pair, ground arith)

decode-plain :
    (c : ℕ) (e : Bytes)
    → c ≢ b'='
    → quoted_printable_decode_buffer false (c ∷ e) ≡ c ∷ quoted_printable_decode_buffer false e
unfolding quoted_printable_decode_buffer
decode-plain c [] h = ground arith
decode-plain c (d ∷ []) h = ground arith
decode-plain c (d ∷ x ∷ e) h = ground arith

decode-soft_break :
    (e : Bytes)
    → quoted_printable_decode_buffer false (b'=' ∷ b'\n' ∷ e)
      ≡ quoted_printable_decode_buffer false e
unfolding quoted_printable_decode_buffer
decode-soft_break [] = refl
decode-soft_break (x ∷ e) = refl

decode-escaped :
    (c : ℕ) (e : Bytes)
    → c < 256
    → quoted_printable_decode_buffer false (b'=' ∷ hex_digit (c / 16) ∷ hex_digit (c % 16) ∷ e)
      ≡ c ∷ quoted_printable_decode_buffer false e
unfolding quoted_printable_decode_buffer
decode-escaped c e h = ground (arith, pair_facts c h)

-- The decoder of a body gives back the bytes from each of their quoted-printable encodings, soft line
-- breaks included.
pub quoted_printable_decode_buffer-Encodes :
    (s e : Bytes) → Encodes s e → quoted_printable_decode_buffer false e ≡ s
unfolding quoted_printable_decode_buffer
quoted_printable_decode_buffer-Encodes _ _ done = refl
quoted_printable_decode_buffer-Encodes _ _ (plain {c} {s} {e} h k) =
    decode-plain c e h ∙ ap (λ r. c ∷ r) (quoted_printable_decode_buffer-Encodes s e k)
quoted_printable_decode_buffer-Encodes _ _ (escaped {c} {s} {e} h k) =
    decode-escaped c e h ∙ ap (λ r. c ∷ r) (quoted_printable_decode_buffer-Encodes s e k)
quoted_printable_decode_buffer-Encodes _ _ (soft_break {s} {e} k) =
    decode-soft_break e ∙ quoted_printable_decode_buffer-Encodes s e k

length-choice :
    (a b g : Bool) (hp : Option ℕ) (c n : ℕ) (next broken decoded : Bytes)
    → length next ≤ n + 2
    → length broken ≤ n + 1
    → length decoded ≤ n
    → length (
        if a
        then b' ' ∷ next
        else if b
        then c ∷ next
        else if g
        then broken
        else elim hp [ none ↦ b'=' ∷ next | some byte ↦ byte ∷ decoded ])
      ≤ n + 3
length-choice a b g none c n next broken decoded p q r = ground arith
length-choice a b g (some x) c n next broken decoded p q r = ground arith

-- The decoder never writes more bytes than it reads, so its output fits into the buffer of the size
-- of its input, whether or not an underscore stands for a space.
pub length-quoted_printable_decode_buffer :
    (dospace : Bool) (s : Bytes) → length (quoted_printable_decode_buffer dospace s) ≤ length s
unfolding quoted_printable_decode_buffer
length-quoted_printable_decode_buffer dospace [] = omega arith
length-quoted_printable_decode_buffer dospace (c ∷ []) = ground arith
length-quoted_printable_decode_buffer dospace (c ∷ d ∷ []) =
    ground (arith, length-quoted_printable_decode_buffer dospace (d ∷ []))
length-quoted_printable_decode_buffer dospace (c ∷ d ∷ e ∷ s) = omega (
  arith,
  length-choice (c == b'_' && dospace) (not (c == b'=')) (d == b'\n') (hex_pair d e) c (length s)
      (quoted_printable_decode_buffer dospace (d ∷ e ∷ s))
      (quoted_printable_decode_buffer dospace (e ∷ s)) (quoted_printable_decode_buffer dospace s)
      (omega (arith, length-quoted_printable_decode_buffer dospace (d ∷ e ∷ s)))
      (omega (arith, length-quoted_printable_decode_buffer dospace (e ∷ s)))
      (length-quoted_printable_decode_buffer dospace s),
)
