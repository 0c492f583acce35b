-- ===== src/Maildir/Open.antt =====
-- Opening a directory, and the maildir that the standard input is read into.
use mdsort.Base.{
  ◌+◌, Bool, true, false, Option, none, some, List, [], ◌∷◌, Bytes, codes, if◌then◌else◌, bytes_eq,
}
use mdsort.Base.Int.{negsuc}
use mdsort.Util.{path_max, name_max, pathjoin, pathslice}
use mdsort.Environment.{Env}
use mdsort.Maildir.{Dirent, Subdir, subdir_new, subdir_cur, Maildir, subdir_name, Os, World}
use mdsort.Maildir.Calls.{tick, call, append}
use mdsort.Maildir.Names.{maildir_genname}

-- `none` is errc(3): the program ends.
unfoldable pub maildir_set_path : Maildir → Option Maildir
unfolding pathjoin subdir_name
maildir_set_path md = elim (pathjoin path_max md.root (subdir_name md.subdir)) [
  | none ↦ none
  | some path ↦ some (record md { path = path })
]

unfoldable pub opened_dir : Maildir → List Dirent → Bool × World → Bool × Maildir × World
opened_dir md entries (true, w) = (true, record md { dir = none }, w)
opened_dir md entries (false, w) = (false, record md { dir = some entries }, w)

-- The first component is the error.
unfoldable pub maildir_opendir : Os → Maildir → Bytes → World → Bool × Maildir × World
unfolding opened_dir call
maildir_opendir os md path w = opened_dir md (os.listing w.calls path) (call os w)

-- `none` is the error of a path whose last component is no subdirectory of a maildir.
unfoldable pub parsesubdir : Bytes → Option Subdir
unfolding bytes_eq
parsesubdir path = elim (pathslice path (name_max + 1) (negsuc 0) (negsuc 0)) [
  | none ↦ none
  | some buf ↦
      if bytes_eq buf (codes "new")
      then some subdir_new
      else if bytes_eq buf (codes "cur")
      then some subdir_cur
      else none
]

-- `arena_calloc` and the members set at once.
abbrev pub new_maildir : Bool → Bool → Maildir
new_maildir walk stdin = record {
  root = [];
  path = [];
  dir = none;
  subdir = subdir_new;
  walk = walk;
  stdin = stdin;
}

-- The loop of `maildir_stdin`: each buffer that is read is written once, and an empty one is the end of
-- the input.
unfoldable pub copy_rest : (World → Bool × World) → Bool × World → Bool × World
copy_rest next (true, w) = (true, w)
copy_rest next (false, w) = next w

unfoldable pub copy_input : Os → List (Option Bytes) → Bytes → Bytes → World → Bool × World
unfolding copy_rest
copy_input os [] dir name w = (false, w)
copy_input os (none ∷ rest) dir name w = (true, w)
copy_input os (some [] ∷ rest) dir name w = (false, w)
copy_input os (some (c ∷ buf) ∷ rest) dir name w =
    copy_rest (copy_input os rest dir name) (append os (c ∷ buf) dir name w)

abbrev either : Bool → Bool → Bool
either a b = if a then true else b

-- fsync(2) if there was no error, then close(2); an error of either is one of the whole.
unfoldable pub synced : Os → Bool × World → Bool × World
unfolding call
synced os (true, w) = let (failed, w') = call os w in (true, w')
synced os (false, w) =
    let (failed, w') = call os w in let (failed', w'') = call os w' in (either failed failed', w'')

-- The message from the standard input is in its file, and the directory is rewound.
unfoldable pub stdin_copied : Os → Maildir → Bool × World → Bool × Maildir × World
stdin_copied os md (error, w) =
    (error, record md { dir = some (os.listing w.calls md.path) }, tick w)

unfoldable pub stdin_named : Os → Maildir → Option Bytes × World → Bool × Maildir × World
unfolding stdin_copied synced copy_input
stdin_named os md (none, w) = (true, md, w)
stdin_named os md (some name, w) =
    stdin_copied os md (synced os (copy_input os os.input md.path name w))

unfoldable pub stdin_opened : Os → Env → Bool × Maildir × World → Bool × Maildir × World
unfolding stdin_named
stdin_opened os env (true, md, w) = (true, md, w)
stdin_opened os env (false, md, w) = stdin_named os md (maildir_genname os md [] env w)

unfoldable pub stdin_made : Os → Env → Maildir → Bool × World → Bool × Maildir × World
unfolding stdin_opened
stdin_made os env md (true, w) = (true, md, w)
stdin_made os env md (false, w) = stdin_opened os env (maildir_opendir os md md.path w)

-- `none` is errc(3) of `maildir_set_path`.
unfoldable pub stdin_root : Os → Env → Maildir → Bool × World → Option (Bool × Maildir × World)
unfolding stdin_made call
stdin_root os env md (true, w) = some (true, md, w)
stdin_root os env md (false, w) = elim (maildir_set_path md) [
  | none ↦ none
  | some md' ↦ some (stdin_made os env md' (call os w))
]

unfoldable pub maildir_stdin : Os → Maildir → Env → World → Option (Bool × Maildir × World)
unfolding stdin_root call
maildir_stdin os md env w = elim (pathjoin path_max env.tmpdir (codes "mdsort-XXXXXXXX")) [
  | none ↦ some (true, md, w)
  | some template ↦ stdin_root os env (record md { root = os.temp w.calls template }) (call os w)
]
