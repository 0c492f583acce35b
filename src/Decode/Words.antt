-- ===== src/Decode/Words.antt =====
-- `rfc2047_decode` of decode.c: encoded words in header values.
use mdsort.Base.{
  ℕ, zero, suc, ◌-◌, true, ◌++◌, Option, none, some, [], ◌∷◌, Bytes, codes, ◌==◌, if◌then◌else◌,
  length, is_space, to_upper, starts_with, strchr, skip_while, before,
}
use mdsort.Decode.{c_string, base64_decode, quoted_printable_decode_buffer, strstr}

abbrev pub word_open : Bytes
word_open = codes "=?"

abbrev pub word_close : Bytes
word_close = codes "?="

-- The text of a word of the given encoding; `none` for `goto err`.
unfoldable pub decode_text : ℕ → Bytes → Option Bytes
unfolding to_upper base64_decode quoted_printable_decode_buffer
decode_text enc text =
    if to_upper enc == b'B'
    then base64_decode text
    else if to_upper enc == b'Q'
    then some (quoted_printable_decode_buffer true text)
    else none

-- Spaces up to another encoded word are skipped.
unfoldable pub skip_between : Bytes → Bytes
unfolding strstr skip_while is_space
skip_between es = elim (strstr word_open es) [
  | none ↦ es
  | some ee ↦ let p = skip_while is_space es in if length p == length ee then p else es
]

-- The first `length s - length rest` bytes of `s`, for a rest of `s`: strndup(3) up to a pointer.
unfoldable pub take_until : Bytes → ℕ → Bytes
take_until [] rest = []
take_until (c ∷ s) rest = if suc (length s) == rest then [] else c ∷ take_until s rest

-- Behind `=?charset?`: the encoding, a `?`, the text and `?=`. The result is the decoded text and
-- the string behind the word.
unfoldable pub decode_word_from : Bytes → Option (Bytes × Bytes)
unfolding strstr decode_text skip_between take_until
decode_word_from (enc ∷ q ∷ es) =
    if q == b'?'
    then elim (strstr word_close es) [
      | some (x ∷ y ∷ after) ↦ elim (decode_text enc (take_until es (suc (suc (length after))))) [
        | none ↦ none
        | some text ↦ some (text, skip_between after)
      ]
      | _ ↦ none
    ]
    else none
decode_word_from _ = none

-- One word, from behind its `=?`.
unfoldable pub decode_word : Bytes → Option (Bytes × Bytes)
unfolding strchr decode_word_from
decode_word es = elim (strchr b'?' es) [ some (q ∷ s) ↦ decode_word_from s | _ ↦ none ]

-- The loop: `skip` bytes are part of a word that is decoded already.
unfoldable pub rfc2047_loop : ℕ → Bytes → Bytes → Option Bytes
unfolding starts_with decode_word
rfc2047_loop skip [] bf = some bf
rfc2047_loop (suc skip) (c ∷ es) bf = rfc2047_loop skip es bf
rfc2047_loop zero (c ∷ []) bf = some (bf ++ c ∷ [])
rfc2047_loop zero (c ∷ d ∷ es) bf =
    let plain = rfc2047_loop zero (d ∷ es) (bf ++ c ∷ []) in
    if starts_with word_open (c ∷ d ∷ es)
    then elim (decode_word es) [
      | none ↦ none
      | some (text, rest) ↦ rfc2047_loop (suc (length es) - length rest) (d ∷ es) (bf ++ text)
    ]
    else plain

-- On an error the value is returned as it is.
unfoldable pub rfc2047_decode : Bytes → Bytes
unfolding rfc2047_loop before
rfc2047_decode str = elim (rfc2047_loop zero str []) [ none ↦ str | some bf ↦ c_string bf ]
