-- ===== src/Tests/Decoding.antt =====
-- Instances of the theorems on decoders, flags, macros and strings.
use mdsort.Base.{
  ◌+◌, ◌^◌, ◌≤◌, false, some, [], ◌∷◌, ◌++◌, ◌≡◌, ◌≢◌, refl, arith, Bytes, codes, length, ◌&&◌,
  bytes_eq,
}
use mdsort.Decode.{base64_decode, quoted_printable_decode_buffer}
use mdsort.Decode.Base64.{b64_encode}
use mdsort.Decode.RoundTrip.{base64_decode-encode}
use mdsort.Decode.Printable.{
  Encodes, hex_digit, done, plain, escaped, soft_break, quoted_printable_decode_buffer-Encodes,
}
use mdsort.Message.{MessageFlags, zero_flags}
use mdsort.Message.Flags.{message_flags_str, message_flags_parse}
use mdsort.Message.FlagTrip.{message_flags_parse-str}
use mdsort.Macro.{
  ismacro, macro, MacroList, macros_alloc, ctx_default, ctx_and, macro_context, macros_insert,
}
use mdsort.Macro.Insert.{value_of, value_after, value_of-macros_insert}
use mdsort.Interpolate.{Outcome, interpolate, interpolate_at}
use mdsort.Interpolate.Safe.{interpolate-safe}
use mdsort.Interpolate.Extent.{interpolate_at-extent}

base64_decode-encode_example : base64_decode (b64_encode (codes "mail")) ≡ some (codes "mail")
base64_decode-encode_example = base64_decode-encode (codes "mail") (ground arith)

-- "a=b", with a soft line break in it.
abbrev encoded : Bytes
encoded = b'a' ∷ b'=' ∷ b'\n' ∷ b'=' ∷ b'3' ∷ b'D' ∷ b'b' ∷ []

encoded-Encodes : Encodes (codes "a=b") encoded
unfolding hex_digit
encoded-Encodes =
    plain (omega arith) (soft_break (escaped (omega arith) (plain (omega arith) done)))

quoted_printable_decode_buffer-Encodes_example :
    quoted_printable_decode_buffer false encoded ≡ codes "a=b"
quoted_printable_decode_buffer-Encodes_example =
    quoted_printable_decode_buffer-Encodes (codes "a=b") encoded encoded-Encodes

-- The flags F, S and a.
abbrev some_flags : MessageFlags
some_flags = record { upper = 2 ^ 5 + 2 ^ 18; lower = 1 }

message_flags_parse-str_example :
    (s : Bytes) × (message_flags_str some_flags 64 ≡ some s)
    × (message_flags_parse zero_flags (codes "/m/cur/1" ++ s) ≡ some some_flags)
message_flags_parse-str_example =
    message_flags_parse-str some_flags (codes "/m/cur/1") (omega arith) (omega arith)

value_of-macros_insert_example :
    value_of
      ((macros_insert (macros_alloc ctx_default) (codes "home") (codes "/m") false 1).1)
      (codes "home")
    ≡ value_after
        (value_of (macros_alloc ctx_default) (codes "home"))
        (ctx_and (macro_context (codes "home")) (macros_alloc ctx_default).ctx
          && bytes_eq (codes "home") (codes "home"))
        (codes "/m")
value_of-macros_insert_example =
    value_of-macros_insert (macros_alloc ctx_default) (codes "home") (codes "/m") false 1
      (codes "home")

-- A macro at the front of a string: its length is that of the macro, not of its value.
abbrev one_macro : MacroList
one_macro = record {
  ctx = ctx_default;
  macros =
      record { name = codes "a"; value = codes "/m"; refs = 0; defs = 0; lno = 1; sticky = false }
      ∷ [];
}

macro_at_front :
    interpolate_at [] (some one_macro) (codes "${a}/new") ≡ Outcome.done (some (4, codes "/m"))
unfolding interpolate_at bytes_eq
macro_at_front = refl

interpolate_at-extent_example : (2 ≤ 4) × (4 ≤ length (codes "${a}/new"))
interpolate_at-extent_example =
    interpolate_at-extent [] (some one_macro) (codes "${a}/new") 4 (codes "/m") macro_at_front

interpolate-safe_example : interpolate [] (some one_macro) (codes "${b}") ≢ Outcome.crashed
interpolate-safe_example = interpolate-safe [] one_macro (codes "${b}")

macro_read : ismacro (codes "${a}") ≡ macro 4 (codes "a")
unfolding ismacro
macro_read = refl
