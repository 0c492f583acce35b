-- ===== src/Message/Parse.antt =====
-- Reading the headers of a message out of its buffer. The parser writes NULs over the separators;
-- what is left of the buffer is given as the string that a reader sees.
use mdsort.Base.{
  ℕ, zero, suc, ◌-◌, not, ◌&&◌, Option, none, some, List, [], ◌∷◌, Bytes, codes, ◌==◌,
  if◌then◌else◌, length, drop, is_space, starts_with, strchr, skip_while,
}
use mdsort.Util.{nspaces}
use mdsort.Message.{Header}
use mdsort.Message.Headers.{cmpheaderkey, sort_headers, message_headers_alloc}

unfoldable pub skipseparator : Bytes → Bytes
unfolding starts_with strchr
skipseparator str =
    if not (starts_with (codes "From ") str)
    then str
    else elim (strchr b'\n' str) [ some (c ∷ p) ↦ p | _ ↦ str ]

-- The key up to the colon, and what follows the colon; `none` for `return 0`.
unfoldable pub header_key : Bytes → Option (Bytes × Bytes)
unfolding is_space
header_key [] = none
header_key (c ∷ s) =
    if c == b':'
    then some ([], s)
    else if is_space c
    then none
    else elim (header_key s) [ none ↦ none | some (key, rest) ↦ some (c ∷ key, rest) ]

-- The value up to a newline that no blank follows, and what follows that newline.
unfoldable pub header_value : Bytes → Option (Bytes × Bytes)
unfolding nspaces
header_value [] = none
header_value (c ∷ s) =
    if c == b'\n' && nspaces s == 0
    then some ([], s)
    else elim (header_value s) [ none ↦ none | some (val, rest) ↦ some (c ∷ val, rest) ]

-- The answer of `findheader`: a header and the rest, or the buffer as the search leaves it.
pub data FindHeader : Type 0 where
  found : Bytes → Bytes → Bytes → FindHeader
  not_found : Bytes → FindHeader

-- A key whose value has no end is cut off from the rest of the buffer.
unfoldable pub findheader : Bytes → FindHeader
unfolding header_key header_value nspaces
findheader str = elim (header_key str) [
  | none ↦ not_found str
  | some (key, rest) ↦ elim (header_value (drop (nspaces rest) rest)) [
    | none ↦ not_found key
    | some (val, end) ↦ found key val end
  ]
]

-- The loop: `skip` bytes belong to a header that has been read.
unfoldable pub parse_loop : ℕ → Bytes → List Header → List Header × Bytes
unfolding findheader message_headers_alloc
parse_loop (suc skip) [] headers = (headers, [])
parse_loop (suc skip) (c ∷ s) headers = parse_loop skip s headers
parse_loop zero [] headers = (headers, [])
parse_loop zero (c ∷ s) headers = elim (findheader (c ∷ s)) [
  | not_found buf ↦ (headers, buf)
  | found key val end ↦ parse_loop (length s - length end) s (message_headers_alloc headers key val)
]

-- The headers, sorted by key, and the body of a buffer.
unfoldable pub message_parse_headers : Bytes → List Header × Bytes
unfolding skipseparator parse_loop sort_headers cmpheaderkey skip_while
message_parse_headers buffer =
    let (headers, buf) = parse_loop zero (skipseparator buffer) [] in
    (sort_headers cmpheaderkey headers, skip_while (λ c. c == b'\n') buf)
