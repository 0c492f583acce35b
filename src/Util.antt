-- ===== src/Util.antt =====
-- util.c: joining and slicing paths, and counting leading blanks. Buffers of a fixed size are
-- bounds on the length of the result.
use mdsort.Base.{
  ℕ, zero, suc, ◌+◌, ◌-◌, Bool, true, false, not, ◌&&◌, ◌||◌, Option, none, some, [], ◌∷◌, ◌++◌,
  Bytes, codes, ltb, leb, ◌==◌, if◌then◌else◌, length, bytes_eq,
}
use mdsort.Base.Int.{ℤ, pos, negsuc, ◌+ℤ◌, ◌-ℤ◌, lt_ℤ}

-- PATH_MAX and NAME_MAX of <limits.h>.
abbrev pub path_max : ℕ
path_max = 4096

abbrev pub name_max : ℕ
name_max = 255

-- `none` when dirname/filename does not fit with its terminator.
unfoldable pub pathjoin : ℕ → Bytes → Bytes → Option Bytes
pathjoin bufsiz dirname filename =
    let joined = dirname ++ (b'/' ∷ filename) in
    if leb bufsiz (length joined) then none else some joined

-- The number of slashes, counted by the strchr(3) loop.
unfoldable pub count_slashes : Bytes → ℕ
count_slashes [] = 0
count_slashes (c ∷ s) = if c == b'/' then suc (count_slashes s) else count_slashes s

unfoldable pub is_absolute : Bytes → Bool
is_absolute [] = false
is_absolute (c ∷ s) = c == b'/'

-- `ncomps`, with one more for a missing leading slash.
unfoldable pub components : Bytes → ℕ
unfolding count_slashes is_absolute
components path = (if is_absolute path then 0 else 1) + count_slashes path

-- What the copying loop carries: the rest of the path, the space left and the bytes written.
pub record Slice : Type 0 where
  pub rest : Bytes
  pub room : ℕ
  pub out : Bytes

-- The inner loop: up to the next slash or the end, copying if `docopy`.
unfoldable pub slice_component : Bool → Bytes → ℕ → Bytes → Option Slice
slice_component docopy [] room out = some (record { rest = []; room = room; out = out })
slice_component docopy (c ∷ s) room out =
    if c == b'/'
    then some (record { rest = c ∷ s; room = room; out = out })
    else if not docopy
    then slice_component docopy s room out
    else if room == 0
    then none
    else slice_component docopy s (room - 1) (out ++ c ∷ [])

-- The byte that starts a component: a slash in a range, the first byte of a relative path, or
-- nothing.
unfoldable pub slice_first : Bool → Bool → Bool → ℕ → ℕ → Bytes → Option (ℕ × Bytes)
slice_first docopy isabs isrange c room out =
    if not docopy
    then some (room, out)
    else if room == 0
    then none
    else if isabs && isrange
    then some (room - 1, out ++ b'/' ∷ [])
    else if not isabs
    then some (room - 1, out ++ c ∷ [])
    else some (room, out)

-- The loop over the components; `left` counts the rounds to go, and `i` those made.
unfoldable pub slice_loop : ℕ → ℕ → ℕ → ℕ → Bool → Bool → Bytes → ℕ → Bytes → Option (ℕ × Bytes)
unfolding slice_component slice_first
slice_loop zero i beg end isabs isrange p room out = some (room, out)
slice_loop (suc left) i beg end isabs isrange [] room out = some (room, out)
slice_loop (suc left) i beg end isabs isrange (c ∷ p) room out =
    let docopy = leb beg i && leb i end in
    elim (slice_first docopy isabs isrange c room out) [
      | none ↦ none
      | some (room', out') ↦ elim (slice_component docopy p room' out') [
        | none ↦ none
        | some s ↦ slice_loop left (suc i) beg end true isrange s.rest s.room s.out
      ]
    ]

-- A negative index counts from the end.
unfoldable pub resolve : ℕ → Bool → ℤ → ℤ
unfolding ◌+ℤ◌ ◌-ℤ◌
resolve ncomps isrange (pos n) = pos n
resolve ncomps isrange (negsuc n) = (pos ncomps +ℤ negsuc n) -ℤ pos (if isrange then 1 else 0)

-- The bounds check and the copy, with the terminator that has to fit.
unfoldable pub slice_between : Bytes → ℕ → Bool → ℤ → ℤ → Option Bytes
unfolding components slice_loop is_absolute
slice_between path bufsiz isrange (pos beg) (pos end) =
    if ltb end beg || leb (components path) end
    then none
    else elim (slice_loop (components path) 0 beg end (is_absolute path) isrange path bufsiz []) [
      | none ↦ none
      | some (room, out) ↦ if room == 0 then none else some out
    ]
slice_between path bufsiz isrange _ _ = none

unfoldable pub pathslice : Bytes → ℕ → ℤ → ℤ → Option Bytes
unfolding slice_between resolve ◌-ℤ◌
pathslice path bufsiz beg end =
    let isrange = lt_ℤ beg end || lt_ℤ end beg in
    let ncomps = components path in
    slice_between path bufsiz isrange (resolve ncomps isrange beg) (resolve ncomps isrange end)

-- strspn(str, " \t")
unfoldable pub nspaces : Bytes → ℕ
nspaces [] = 0
nspaces (c ∷ s) = if c == b' ' || c == 9 then suc (nspaces s) else 0

unfoldable pub isstdin : Bytes → Bool
unfolding bytes_eq
isstdin str = bytes_eq str (codes "/dev/stdin")
