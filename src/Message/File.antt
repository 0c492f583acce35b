-- ===== src/Message/File.antt =====
-- Reading a message from a file, writing it to one, and the file that it belongs to.
use mdsort.Base.{
  ℕ, ◌+◌, false, Option, none, some, List, [], ◌∷◌, ◌++◌, Bytes, leb, if◌then◌else◌, length, before,
}
use mdsort.Util.{path_max, name_max, pathjoin}
use mdsort.Decode.{c_string}
use mdsort.Message.{Header, Message, zero_flags}
use mdsort.Message.Flags.{message_flags_parse}
use mdsort.Message.Headers.{sort_headers, cmpheaderid}
use mdsort.Message.Parse.{message_parse_headers}

-- The message with its parsed buffer, once its path and name are known to fit.
unfoldable pub message_init : Bytes → Bytes → ℕ → Bytes → Option Message
unfolding message_parse_headers message_flags_parse before
message_init path name fd content =
    let (headers, body) = message_parse_headers (c_string content) in
    elim (message_flags_parse zero_flags path) [
      | none ↦ none
      | some mflags ↦ some (record {
        path = path;
        name = name;
        body = body;
        buf_dec = none;
        fd = some fd;
        is_attachment = false;
        mflags = mflags;
        headers = headers;
        attachments = none;
      })
    ]

-- `message_parse` of the file `path` in `dir`, open at `fd` with this content.
unfoldable pub message_parse : Bytes → Bytes → ℕ → Bytes → Option Message
unfolding pathjoin message_init
message_parse dir path fd content = elim (pathjoin path_max dir path) [
  | none ↦ none
  | some full ↦ if leb (name_max + 1) (length path) then none else message_init full path fd content
]

-- "%s: %s\n"
unfoldable pub header_line : Header → Bytes
header_line h = h.key ++ (b':' ∷ b' ' ∷ (h.val ++ (b'\n' ∷ [])))

unfoldable pub header_lines : List Header → Bytes
unfolding header_line
header_lines [] = []
header_lines (h ∷ l) = header_line h ++ header_lines l

-- What `message_write` prints, and the message after it, whose headers are left in that order.
unfoldable pub message_write : Message → Bytes × Message
unfolding header_lines sort_headers cmpheaderid
message_write msg =
    let sorted = sort_headers cmpheaderid msg.headers in
    (header_lines sorted ++ (b'\n' ∷ msg.body), record msg { headers = sorted })

unfoldable pub message_set_file : Message → Bytes → Bytes → Option ℕ → Option Message
unfolding pathjoin
message_set_file msg path name fd = elim (pathjoin path_max path name) [
  | none ↦ none
  | some full ↦ if leb (name_max + 1) (length name) then none else elim fd [
    | none ↦ some (record msg { path = full; name = name })
    | some n ↦ some (record msg { path = full; name = name; fd = some n })
  ]
]
