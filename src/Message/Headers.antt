-- ===== src/Message/Headers.antt =====
-- Getting and setting the headers of a message.
use mdsort.Base.{
  ℕ, zero, suc, ◌+◌, ◌-◌, Bool, true, false, ◌&&◌, Option, none, some, List, [], ◌∷◌, ◌++◌, map,
  Bytes, codes, ◌==◌, if◌then◌else◌, length, take, drop, strchr, starts_with, compare, Ordering,
}
use mdsort.Decode.Words.{rfc2047_decode}
use mdsort.Message.{Header, Message}
use mdsort.Message.Search.{casecmp, searchheader}

unfoldable pub cmpheaderkey : Header → Header → Ordering
unfolding casecmp
cmpheaderkey a b = casecmp a.key b.key

unfoldable pub cmpheaderid : Header → Header → Ordering
cmpheaderid a b = compare a.id b.id

-- qsort(3), which may order equal elements as it likes: here they keep their order.
unfoldable pub insert_header : (Header → Header → Ordering) → Header → List Header → List Header
insert_header cmp h [] = h ∷ []
insert_header cmp h (x ∷ l) = elim (cmp h x) [
  | Ordering.gt ↦ x ∷ insert_header cmp h l
  | _ ↦ h ∷ x ∷ l
]

unfoldable pub sort_headers : (Header → Header → Ordering) → List Header → List Header
unfolding insert_header
sort_headers cmp [] = []
sort_headers cmp (h ∷ l) = insert_header cmp h (sort_headers cmp l)

-- The loop of `unfoldheader`; `start` holds where the tabs of a line are skipped.
unfoldable pub unfold_lines : Bool → Bytes → Bytes
unfold_lines start [] = []
unfold_lines start (c ∷ s) =
    if start && c == 9
    then unfold_lines true s
    else if c == b'\n'
    then unfold_lines true s
    else c ∷ unfold_lines false s

unfoldable pub unfoldheader : Bytes → Bytes
unfolding unfold_lines strchr
unfoldheader str = elim (strchr b'\n' str) [ none ↦ str | some _ ↦ unfold_lines true str ]

unfoldable pub decodeheader : Bytes → Bytes
unfolding unfoldheader rfc2047_decode
decodeheader str = rfc2047_decode (unfoldheader str)

unfoldable pub message_get_header : Message → Bytes → Option (List Bytes)
unfolding searchheader decodeheader
message_get_header msg header = elim (searchheader msg.headers header) [
  | none ↦ none
  | some (idx, nfound) ↦ some (map (λ h. decodeheader h.val) (take nfound (drop idx msg.headers)))
]

unfoldable pub message_get_header1 : Message → Bytes → Option Bytes
unfolding message_get_header
message_get_header1 msg header = elim (message_get_header msg header) [
  | none ↦ none
  | some [] ↦ none
  | some (v ∷ vs) ↦ some v
]

-- `message_headers_alloc`: a new last element, whose id is the new length.
unfoldable pub message_headers_alloc : List Header → Bytes → Bytes → List Header
message_headers_alloc headers key val =
    headers ++ record { id = length headers + 1; key = key; val = val } ∷ []

-- The occurrences from index `idx` on become one, with the new value.
unfoldable pub replace_headers : List Header → ℕ → ℕ → Bytes → List Header
replace_headers [] idx nfound val = []
replace_headers (h ∷ l) zero nfound val = record h { val = val } ∷ drop (nfound - 1) l
replace_headers (h ∷ l) (suc idx) nfound val = h ∷ replace_headers l idx nfound val

unfoldable pub message_set_header : Message → Bytes → Bytes → Message
unfolding searchheader message_headers_alloc sort_headers cmpheaderkey replace_headers
message_set_header msg header val = elim (searchheader msg.headers header) [
  | none ↦ record msg {
    headers = sort_headers cmpheaderkey (message_headers_alloc msg.headers header val);
  }
  | some (idx, nfound) ↦ record msg { headers = replace_headers msg.headers idx nfound val }
]

unfoldable pub message_is_content_type : Message → Bytes → Bool
unfolding message_get_header1 starts_with
message_is_content_type msg needle = elim (message_get_header1 msg (codes "Content-Type")) [
  | none ↦ false
  | some type ↦
      starts_with needle type && elim (drop (length needle) type) [ [] ↦ true | c ∷ s ↦ c == b';' ]
]
