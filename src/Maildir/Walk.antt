-- ===== src/Maildir/Walk.antt =====
-- Traversing a maildir, and closing it.
use mdsort.Base.{
  ℕ, zero, suc, Bool, true, false, not, Option, none, some, List, [], ◌∷◌, Bytes, if◌then◌else◌,
}
use mdsort.Maildir.{
  dt_unknown, dt_dir, dt_reg, dt_other, Dirent, dirent, broken, subdir_new, subdir_cur, Maildir,
  Entry, Os, World,
}
use mdsort.Maildir.Calls.{tick, call, unlink}
use mdsort.Maildir.Open.{maildir_set_path, maildir_opendir}

-- What a traversal finds: a file, the end, an error, a read through a null pointer, or the end of the
-- program.
pub data Found : Type 0 where
  found : Entry → Found
  ended read_error read_crash read_exits : Found

-- The loop over the entries of a directory, and what the stream still gives behind it.
unfoldable pub read_entries : Os → Bytes → List Dirent → World → Found × List Dirent × World
read_entries os path [] w = (ended, [], w)
read_entries os path (broken ∷ rest) w = (read_error, rest, w)
read_entries os path (dirent name dt_reg ∷ rest) w =
    (found (record { dir = path; path = name }), rest, w)
read_entries os path (dirent name dt_unknown ∷ rest) w = elim (os.is_file w.calls path name) [
  | true ↦ (found (record { dir = path; path = name }), rest, tick w)
  | false ↦ read_entries os path rest (tick w)
]
read_entries os path (dirent name dt_dir ∷ rest) w = read_entries os path rest w
read_entries os path (dirent name dt_other ∷ rest) w = read_entries os path rest w

unfoldable pub read_with : Maildir → Found × List Dirent × World → Found × Maildir × World
read_with md (answer, rest, w) = (answer, record md { dir = some rest }, w)

unfoldable pub maildir_read : Os → Maildir → World → Found × Maildir × World
unfolding read_with read_entries
maildir_read os md w = elim md.dir [
  | none ↦ (read_crash, md, w)
  | some entries ↦ read_with md (read_entries os md.path entries w)
]

-- `maildir_next`: no other directory, the end of the program, or the next directory.
pub data Next : Type 0 where
  no_next next_exits : Next
  next : Maildir → Next

unfoldable pub next_subdir : Maildir → Next
unfolding maildir_set_path
next_subdir md = elim md.subdir [
  | subdir_cur ↦ no_next
  | subdir_new ↦ elim (maildir_set_path (record md { subdir = subdir_cur })) [
    | none ↦ next_exits
    | some md' ↦ next md'
  ]
]

unfoldable pub maildir_next : Maildir → Next
unfolding next_subdir
maildir_next md = if md.stdin then no_next else next_subdir md

-- The directory of the next round is open, or there is an error.
unfoldable pub walk_opened :
    (Maildir → World → Found × Maildir × World) → Bool × Maildir × World → Found × Maildir × World
walk_opened again (true, md, w) = (read_error, md, w)
walk_opened again (false, md, w) = again md w

unfoldable pub walk_next :
    Os
    → (Maildir → World → Found × Maildir × World)
    → Maildir
    → World
    → Next
    → Found × Maildir × World
unfolding walk_opened maildir_opendir
walk_next os again md w no_next = (ended, md, w)
walk_next os again md w next_exits = (read_exits, md, w)
walk_next os again md w (next md') = walk_opened again (maildir_opendir os md' md'.path w)

-- A directory that has ended is followed by the next one.
unfoldable pub walk_read :
    Os
    → (Maildir → World → Found × Maildir × World)
    → Found × Maildir × World
    → Found × Maildir × World
unfolding walk_next maildir_next
walk_read os again (ended, md, w) = walk_next os again md w (maildir_next md)
walk_read os again (other, md, w) = (other, md, w)

-- The loop of `maildir_walk`, on fuel.
unfoldable pub walk_loop : Os → ℕ → Maildir → World → Found × Maildir × World
unfolding walk_read maildir_read
walk_loop os zero md w = (ended, md, w)
walk_loop os (suc fuel) md w = walk_read os (walk_loop os fuel) (maildir_read os md w)

-- There are two directories, so there are two rounds.
unfoldable pub maildir_walk : Os → Maildir → World → Found × Maildir × World
unfolding walk_loop
maildir_walk os md w = if md.walk then walk_loop os 2 md w else (ended, md, w)

-- The removal of what the temporary maildir holds, up to the end or an error.
unfoldable pub remove_entries : Os → Bytes → List Dirent → World → World
unfolding unlink
remove_entries os path [] w = w
remove_entries os path (broken ∷ rest) w = w
remove_entries os path (dirent name dt_reg ∷ rest) w =
    remove_entries os path rest ((unlink os path name w).1)
remove_entries os path (dirent name dt_unknown ∷ rest) w = elim (os.is_file w.calls path name) [
  | true ↦ remove_entries os path rest ((unlink os path name (tick w)).1)
  | false ↦ remove_entries os path rest (tick w)
]
remove_entries os path (dirent name dt_dir ∷ rest) w = remove_entries os path rest w
remove_entries os path (dirent name dt_other ∷ rest) w = remove_entries os path rest w

-- The directory is rewound and emptied, as far as that works, and removed with its parent.
unfoldable pub close_stdin : Os → Maildir → World → World
unfolding remove_entries call
close_stdin os md w =
    let emptied =
      if md.walk then remove_entries os md.path (os.listing w.calls md.path) (tick w) else tick w in
    tick (tick emptied)

-- `none` is rewinddir(3) of a null pointer.
unfoldable pub maildir_close : Os → Maildir → World → Option World
unfolding close_stdin
maildir_close os md w =
    if not md.stdin
    then some w
    else elim md.dir [ none ↦ none | some entries ↦ some (close_stdin os md w) ]
