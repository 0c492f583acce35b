-- ===== src/Message/Body.antt =====
-- Messages by address: their attachments, which are parsed when they are first asked for, and
-- their decoded bodies.
use mdsort.Base.{
  ℕ, zero, suc, Option, none, some, List, [], ◌∷◌, ◌++◌, Bytes, codes, if◌then◌else◌, length,
  get_elem?, set, bytes_eq,
}
use mdsort.Decode.{base64_decode, quoted_printable_decode}
use mdsort.Message.{Message}
use mdsort.Message.Headers.{message_get_header1, message_is_content_type}
use mdsort.Message.Attachments.{parseattachments, max_levels}

-- The messages that have been made, by address.
abbrev pub Store : Type 0
Store = List Message

abbrev pub addresses : ℕ → ℕ → List ℕ
addresses from zero = []
addresses from (suc n) = from ∷ addresses (suc from) n

-- `none` is NULL. A list that an error cut short stays with the message.
unfoldable pub get_attachments : ℕ → Message → Store → Option (List ℕ) × Store
unfolding parseattachments
get_attachments i msg st = elim msg.attachments [
  | some handles ↦ (some handles, st)
  | none ↦
      let (error, ms) = parseattachments max_levels msg in
      let handles = addresses (length st) (length ms) in
      let st' = set st i (record msg { attachments = some handles }) ++ ms in
      ((if error then none else some handles), st')
]

unfoldable pub message_get_attachments : ℕ → Store → Option (List ℕ) × Store
unfolding get_attachments
message_get_attachments i st = elim (get_elem? st i) [
  | none ↦ (none, st)
  | some msg ↦ get_attachments i msg st
]

-- The body of `attachment`, decoded.
unfoldable pub decode_body_of : Message → Option Bytes
unfolding message_get_header1 base64_decode quoted_printable_decode bytes_eq
decode_body_of attachment =
    elim (message_get_header1 attachment (codes "Content-Transfer-Encoding")) [
      | none ↦ some attachment.body
      | some enc ↦
          if bytes_eq enc (codes "base64")
          then base64_decode attachment.body
          else if bytes_eq enc (codes "quoted-printable")
          then some (quoted_printable_decode attachment.body)
          else some attachment.body
    ]

-- `message_decode_body`, which keeps the result in the message at address `i`.
unfoldable pub message_decode_body : ℕ → Message → Store → Option Bytes × Store
unfolding decode_body_of
message_decode_body i attachment st =
    let dec = decode_body_of attachment in
    elim (get_elem? st i) [
      | none ↦ (dec, st)
      | some msg ↦ (dec, set st i (record msg { buf_dec = dec }))
    ]

-- Plain text is favoured over HTML, and `found` is the first HTML part so far.
unfoldable pub favor_text : Store → Option Message → List ℕ → Option Message
unfolding message_is_content_type
favor_text st found [] = found
favor_text st found (h ∷ hs) = elim (get_elem? st h) [
  | none ↦ favor_text st found hs
  | some attach ↦
      let skipped = favor_text st found hs in
      let html = favor_text st (some attach) hs in
      if message_is_content_type attach (codes "text/plain")
      then some attach
      else if message_is_content_type attach (codes "text/html")
      then elim found [ none ↦ html | some f ↦ skipped ]
      else skipped
]

-- The part that is favoured is decoded; without one the body is taken as it is.
unfoldable pub favored_body : ℕ → Message → Store → Option Message → Option Bytes × Store
unfolding message_decode_body
favored_body i msg st none = (some msg.body, st)
favored_body i msg st (some f) = message_decode_body i f st

unfoldable pub favored_of : ℕ → Message → Option (List ℕ) × Store → Option Bytes × Store
unfolding favor_text favored_body
favored_of i msg (none, st) = (none, st)
favored_of i msg (some handles, st) = favored_body i msg st (favor_text st none handles)

unfoldable pub alternative_body : ℕ → Message → Store → Option Bytes × Store
unfolding message_get_attachments favored_of
alternative_body i msg st = favored_of i msg (message_get_attachments i st)

unfoldable pub get_body : ℕ → Message → Store → Option Bytes × Store
unfolding message_is_content_type message_decode_body alternative_body
get_body i msg st = elim msg.buf_dec [
  | some dec ↦ (some dec, st)
  | none ↦
      if message_is_content_type msg (codes "multipart/alternative")
      then alternative_body i msg st
      else message_decode_body i msg st
]

unfoldable pub message_get_body : ℕ → Store → Option Bytes × Store
unfolding get_body
message_get_body i st = elim (get_elem? st i) [ none ↦ (none, st) | some msg ↦ get_body i msg st ]
