-- ===== src/Message/Attachments.antt =====
-- The attachments of a multipart message.
use mdsort.Base.{
  ℕ, zero, suc, ◌+◌, ◌-◌, ◌*◌, Bool, true, false, not, ◌||◌, Option, none, some, List, [], ◌∷◌,
  ◌++◌, Bytes, codes, ◌==◌, if◌then◌else◌, length, take, drop, starts_with, strchr, before,
}
use mdsort.Util.{nspaces}
use mdsort.Message.{Message, zero_flags}
use mdsort.Message.Headers.{message_get_header1}
use mdsort.Message.Parse.{message_parse_headers}

unfoldable pub skipline : Bytes → Bytes
skipline [] = []
skipline (c ∷ s) = if c == b'\n' then s else skipline s

-- The three answers of `parseboundary`: 0, -1, and 1 with the boundary.
pub data Boundary : Type 0 where
  no_boundary bad_boundary : Boundary
  boundary : Bytes → Boundary

abbrev pub quote_char : ℕ
quote_char = 34

abbrev pub multipart : Bytes
multipart = codes "multipart/"

abbrev pub boundary_param : Bytes
boundary_param = codes "boundary=\""

unfoldable pub parse_quoted : Bytes → Boundary
unfolding strchr before
parse_quoted str = elim (strchr quote_char str) [
  | none ↦ bad_boundary
  | some p ↦ elim (before quote_char str) [ [] ↦ bad_boundary | c ∷ s ↦ boundary (c ∷ s) ]
]

-- Behind the `;` of the type.
unfoldable pub parse_param : Bytes → Boundary
unfolding nspaces starts_with parse_quoted
parse_param str =
    let param = drop (nspaces str) str in
    if not (starts_with boundary_param param)
    then no_boundary
    else parse_quoted (drop (length boundary_param) param)

unfoldable pub parseboundary : Bytes → Boundary
unfolding starts_with strchr parse_param
parseboundary str =
    if not (starts_with multipart str)
    then no_boundary
    else elim (strchr b';' (drop (length multipart) str)) [
      | some (c ∷ s) ↦ parse_param s
      | _ ↦ no_boundary
    ]

abbrev pub dashes : Bytes
dashes = codes "--"

-- A line that is no boundary, with the bytes that the tests have stepped over; or a boundary line,
-- with its `term`.
pub data Line : Type 0 where
  other_line : ℕ → Line
  boundary_line : Bool → Line

unfoldable pub at_line_end : ℕ → Bool → Bytes → Line
at_line_end used term [] = other_line used
at_line_end used term (c ∷ s) = if c == b'\n' then boundary_line term else other_line used

unfoldable pub scan_line : Bytes → Bytes → Line
unfolding starts_with at_line_end
scan_line bound s =
    if not (starts_with dashes s)
    then other_line 0
    else let s1 = drop 2 s in
      if not (starts_with bound s1)
      then other_line 2
      else let s2 = drop (length bound) s1 in
        if starts_with dashes s2
        then at_line_end (length bound + 4) true (drop 2 s2)
        else at_line_end (length bound + 2) false s2

-- Where the scan of `findboundary` stands: at the start of a line, or behind it with a number of
-- bytes to step over before the next newline is looked for.
pub data Scan : Type 0 where
  at_line : Scan
  seek : ℕ → Scan

unfoldable pub findboundary_scan : Bytes → Scan → Bytes → Option (Bytes × Bool)
unfolding scan_line
findboundary_scan bound at [] = none
findboundary_scan bound (seek (suc k)) (c ∷ s) = findboundary_scan bound (seek k) s
findboundary_scan bound (seek zero) (c ∷ s) =
    findboundary_scan bound (if c == b'\n' then at_line else seek zero) s
findboundary_scan bound at_line (c ∷ s) = elim (scan_line bound (c ∷ s)) [
  | boundary_line term ↦ some (c ∷ s, term)
  | other_line zero ↦ findboundary_scan bound (if c == b'\n' then at_line else seek zero) s
  | other_line (suc k) ↦ findboundary_scan bound (seek k) s
]

-- The boundary line on, and `term`.
unfoldable pub findboundary : Bytes → Bytes → Option (Bytes × Bool)
unfolding findboundary_scan
findboundary bound s = findboundary_scan bound at_line s

-- The text of each attachment in order, and whether the last boundary was a terminator. `beg` is
-- where the attachment at hand starts. Each round but every other one shortens the text, so
-- `2 * length body + 2` rounds are enough.
unfoldable pub split_loop : ℕ → Bytes → Option Bytes → Bytes → List Bytes × Bool
unfolding findboundary skipline
split_loop zero bound beg body = ([], false)
split_loop (suc fuel) bound none body = elim (findboundary bound body) [
  | none ↦ ([], false)
  | some (b, true) ↦ ([], true)
  | some (b, false) ↦ split_loop fuel bound (some (skipline b)) (skipline b)
]
split_loop (suc fuel) bound (some beg) body = elim (findboundary bound body) [
  | none ↦ ([], false)
  | some (end, term) ↦
      let text = take (length beg - length end) beg in
      let (rest, done) = split_loop fuel bound none end in
      if term then (text ∷ [], true) else (text ∷ rest, done)
]

unfoldable pub split_parts : Bytes → Bytes → List Bytes × Bool
unfolding split_loop
split_parts bound body = split_loop (2 * length body + 2) bound none body

-- A new attachment of a message, from its text.
unfoldable pub attachment_alloc : Message → Bytes → Message
unfolding message_parse_headers
attachment_alloc msg text =
    let (headers, body) = message_parse_headers text in
    record {
      path = msg.path;
      name = msg.name;
      body = body;
      buf_dec = none;
      fd = none;
      is_attachment = true;
      mflags = zero_flags;
      headers = headers;
      attachments = none;
    }

-- Each part with the parts inside it, up to the first error. The first component is the error.
unfoldable pub attach_all :
    (Message → Bool × List Message) → Message → List Bytes → Bool × List Message
unfolding attachment_alloc
attach_all inner msg [] = (false, [])
attach_all inner msg (text ∷ texts) =
    let attach = attachment_alloc msg text in
    let (error, nested) = inner attach in
    if error
    then (true, attach ∷ nested)
    else let (later, others) = attach_all inner msg texts in (later, attach ∷ (nested ++ others))

-- `parseattachments`: the first argument is the number of levels left, five at depth 0.
unfoldable pub parseattachments : ℕ → Message → Bool × List Message
unfolding message_get_header1 parseboundary split_parts attach_all
parseattachments zero msg = (true, [])
parseattachments (suc levels) msg = elim (message_get_header1 msg (codes "Content-Type")) [
  | none ↦ (false, [])
  | some type ↦ elim (parseboundary type) [
    | no_boundary ↦ (false, [])
    | bad_boundary ↦ (true, [])
    | boundary bound ↦
        let (texts, terminated) = split_parts bound msg.body in
        let (error, attached) = attach_all (parseattachments levels) msg texts in
        (error || not terminated, attached)
  ]
]

abbrev pub max_levels : ℕ
max_levels = 5
