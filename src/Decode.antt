-- ===== src/Decode.antt =====
-- decode.c: base64, quoted-printable and RFC 2047 encoded words. Loops over a moving pointer are
-- recursions over the rest of the string; a byte of the target is a number below 256.
pub mod Words
pub mod Base64
pub mod RoundTrip
pub mod Bounds
pub mod Printable
use Prim.Native.Nat.{bit_or}
use mdsort.Base.{
  ℕ, zero, suc, ◌+◌, ◌-◌, ◌*◌, ◌/◌, ◌%◌, Bool, true, false, not, ◌&&◌, ◌||◌, Option, none, some,
  List, [], ◌∷◌, ◌++◌, Bytes, codes, leb, ltb, ◌==◌, if◌then◌else◌, length, is_space, to_upper,
  starts_with, strchr, skip_while, before,
}

-- What a caller sees of a buffer: its bytes up to the first NUL.
abbrev pub c_string : Bytes → Bytes
c_string s = before 0 s

abbrev pub base64 : Bytes
base64 = codes "ABCDEFGHIJKLMNOPQRSTUVWXYZabcdefghijklmnopqrstuvwxyz0123456789+/"

abbrev pub pad64 : ℕ
pad64 = b'='

abbrev pub index_from : ℕ → ℕ → Bytes → Option ℕ
index_from i c [] = none
index_from i c (x ∷ s) = if x == c then some i else index_from (suc i) c s

-- `strchr(Base64, ch) - Base64`
unfoldable pub b64_index : ℕ → Option ℕ
b64_index c = index_from 0 c base64

-- The decoder's variables: `state`, the bytes of the target before `tarindex`, and the byte at
-- `tarindex`, of which some bits are known.
pub record B64 : Type 0 where
  pub state : ℕ
  pub out : Bytes
  pub partial : ℕ

-- States 1 and 2: the byte at `tarindex` is finished, and the next one begun if there is room.
unfoldable pub b64_carry : ℕ → B64 → ℕ → ℕ → ℕ → Option B64
b64_carry targsize b low nextbyte state =
    if leb targsize (length b.out)
    then none
    else if leb targsize (length b.out + 1) && not (nextbyte == 0)
    then none
    else some
        (record { state = state; out = b.out ++ bit_or b.partial low ∷ []; partial = nextbyte })

-- The switch over `state`, at the value of one base64 character.
unfoldable pub b64_step : ℕ → B64 → ℕ → Option B64
unfolding b64_carry
b64_step targsize b v =
    if b.state == 0
    then (if leb targsize (length b.out)
        then none
        else some (record b { state = 1; partial = (v * 4) % 256 }))
    else if b.state == 1
    then b64_carry targsize b (v / 16) ((v % 16) * 16) 2
    else if b.state == 2
    then b64_carry targsize b (v / 4) ((v % 4) * 64) 3
    else if leb targsize (length b.out)
    then none
    else some (record { state = 0; out = b.out ++ bit_or b.partial v ∷ []; partial = 0 })

-- How the first loop stopped: at the end of the string, or behind a pad character.
pub data Stop : Type 0 where
  at_end : B64 → Stop
  at_pad : B64 → Bytes → Stop

unfoldable pub b64_loop : ℕ → B64 → Bytes → Option Stop
unfolding b64_step
b64_loop targsize b [] = some (at_end b)
b64_loop targsize b (c ∷ s) =
    let skipped = b64_loop targsize b s in
    if is_space c then skipped else if c == pad64 then some (at_pad b s) else elim (b64_index c) [
      | none ↦ none
      | some v ↦ elim (b64_step targsize b v) [ none ↦ none | some b' ↦ b64_loop targsize b' s ]
    ]

-- Nothing but whitespace may follow the padding, and the bits that were carried must be zero.
unfoldable pub b64_trailer : ℕ → B64 → Bytes → Option Bytes
unfolding skip_while is_space
b64_trailer targsize b s = elim (skip_while is_space s) [
  | [] ↦ if ltb (length b.out) targsize && not (b.partial == 0) then none else some b.out
  | c ∷ r ↦ none
]

-- In state 2 a second pad character must follow.
unfoldable pub b64_second_pad : ℕ → B64 → Bytes → Option Bytes
unfolding skip_while is_space b64_trailer
b64_second_pad targsize b s = elim (skip_while is_space s) [
  | [] ↦ none
  | c ∷ r ↦ if c == pad64 then b64_trailer targsize b r else none
]

unfoldable pub b64_finish : ℕ → Stop → Option Bytes
unfolding b64_second_pad b64_trailer
b64_finish targsize (at_end b) = if b.state == 0 then some b.out else none
b64_finish targsize (at_pad b s) =
    if ltb b.state 2
    then none
    else if b.state == 2
    then b64_second_pad targsize b s
    else b64_trailer targsize b s

abbrev pub b64_start : B64
b64_start = record { state = 0; out = []; partial = 0 }

-- `none` is -1. The length of the result is the number returned.
unfoldable pub b64_pton : Bytes → ℕ → Option Bytes
unfolding b64_loop b64_finish
b64_pton src targsize = elim (b64_loop targsize b64_start src) [
  | none ↦ none
  | some stop ↦ b64_finish targsize stop
]

unfoldable pub base64_decode : Bytes → Option Bytes
unfolding b64_pton before
base64_decode str = elim (b64_pton str (length str + 1)) [
  | none ↦ none
  | some dec ↦ some (c_string dec)
]

-- `htoa`: the value of an upper case hexadecimal digit.
unfoldable pub htoa : ℕ → Option ℕ
htoa c =
    if leb b'A' c && leb c b'F'
    then some (10 + (c - b'A'))
    else if leb b'0' c && leb c b'9'
    then some (c - b'0')
    else none

-- The two digits behind a `=`.
unfoldable pub hex_pair : ℕ → ℕ → Option ℕ
unfolding htoa
hex_pair h l = elim (htoa h) [
  | none ↦ none
  | some hi ↦ elim (htoa l) [ none ↦ none | some lo ↦ some (bit_or (hi * 16) lo) ]
]

-- What the loop writes for the bytes that are left.
unfoldable pub quoted_printable_decode_buffer : Bool → Bytes → Bytes
unfolding hex_pair
quoted_printable_decode_buffer dospace [] = []
quoted_printable_decode_buffer dospace (c ∷ []) = if c == b'_' && dospace then b' ' ∷ [] else c ∷ []
quoted_printable_decode_buffer dospace (c ∷ d ∷ []) =
    let rest = quoted_printable_decode_buffer dospace (d ∷ []) in
    if c == b'_' && dospace
    then b' ' ∷ rest
    else if not (c == b'=')
    then c ∷ rest
    else if d == b'\n'
    then []
    else b'=' ∷ rest
quoted_printable_decode_buffer dospace (c ∷ d ∷ e ∷ s) =
    let next = quoted_printable_decode_buffer dospace (d ∷ e ∷ s) in
    let broken = quoted_printable_decode_buffer dospace (e ∷ s) in
    let decoded = quoted_printable_decode_buffer dospace s in
    if c == b'_' && dospace
    then b' ' ∷ next
    else if not (c == b'=')
    then c ∷ next
    else if d == b'\n'
    then broken
    else elim (hex_pair d e) [ none ↦ b'=' ∷ next | some byte ↦ byte ∷ decoded ]

unfoldable pub quoted_printable_decode : Bytes → Bytes
unfolding quoted_printable_decode_buffer before
quoted_printable_decode str = c_string (quoted_printable_decode_buffer false str)

-- strstr(3): the rest of the string from the first occurrence on.
unfoldable pub strstr : Bytes → Bytes → Option Bytes
unfolding starts_with
strstr needle [] = if starts_with needle [] then some [] else none
strstr needle (c ∷ s) = if starts_with needle (c ∷ s) then some (c ∷ s) else strstr needle s
