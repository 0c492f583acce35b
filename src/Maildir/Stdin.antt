-- ===== src/Maildir/Stdin.antt =====
-- The maildir of the standard input: what is copied into it, and what happens if it cannot be made.
use mdsort.Base.{
  ℕ, Bool, true, false, none, some, List, [], ◌∷◌, ◌++◌, append-nil, append_assoc, map, ◌≡◌, refl,
  sym, ap, ◌∙◌, Bytes, codes, ◌⊎◌, inl, inr,
}
use mdsort.Util.{path_max, pathjoin}
use mdsort.Environment.{Env}
use mdsort.Maildir.{Os, World}
use mdsort.Maildir.Calls.{fails, call, append_as, append, store_file}
use mdsort.Maildir.Open.{copy_rest, copy_input, stdin_root, maildir_stdin}
use mdsort.Maildir.Opened.{crashes, stdin_result, maildir_open}
use mdsort.Maildir.Walk.{maildir_close}
use mdsort.Maildir.Files.{Has, store-same}

-- What stands in the buffers up to the first empty one, with which read(2) tells the end of the input.
abbrev pub contents : List Bytes → Bytes
contents [] = []
contents ([] ∷ bufs) = []
contents ((c ∷ buf) ∷ bufs) = (c ∷ buf) ++ contents bufs

append-Has :
    (os : Os) (dir name text buf : Bytes) (w : World)
    → os.accepted w.calls buf ≡ some buf
    → Has dir name text w
    → append os buf dir name w ≡ (false, store_file dir name (some (text ++ buf)) w)
unfolding append append_as
append-Has os dir name text buf w a h = rw (append, a, h) refl

-- If every read(2) of the standard input gives a buffer and every write(2) takes it whole, the file
-- has behind what it had all that was read up to the first empty buffer, and there is no error.
pub copy_input-Has :
    (os : Os) (dir name text : Bytes) (bufs : List Bytes) (w : World)
    → ((n : ℕ) (buf : Bytes) → os.accepted n buf ≡ some buf)
    → Has dir name text w
    → ((copy_input os (map some bufs) dir name w).0 ≡ false)
      × Has dir name (text ++ contents bufs) (copy_input os (map some bufs) dir name w).1
unfolding copy_input copy_rest
copy_input-Has os dir name text [] w a h = (refl, h ∙ ap some (sym (append-nil text)))
copy_input-Has os dir name text ([] ∷ bufs) w a h = (refl, h ∙ ap some (sym (append-nil text)))
copy_input-Has os dir name text ((c ∷ s) ∷ bufs) w a h =
    let (e, r) =
      copy_input-Has os dir name (text ++ c ∷ s) bufs (store_file dir name (some (text ++ c ∷ s)) w)
        a (store-same w dir name (text ++ c ∷ s)) in
    rw (copy_input, append-Has os dir name text (c ∷ s) w (a w.calls (c ∷ s)) h)
      (e, r ∙ ap some (append_assoc text (c ∷ s) (contents bufs)))

-- If TMPDIR is too long for the template, or mkdtemp(3) fails, the opening of the maildir of the
-- standard input rewinds a directory stream that is not there.
pub maildir_open-crashes :
    (os : Os) (path : Bytes) (walk : Bool) (env : Env) (w : World)
    → (pathjoin path_max env.tmpdir (codes "mdsort-XXXXXXXX") ≡ none)
      ⊎ ((fails (os.answer w.calls) ≡ true)
          × ((t : Bytes) × (pathjoin path_max env.tmpdir (codes "mdsort-XXXXXXXX") ≡ some t)))
    → (maildir_open os path walk true env w).0 ≡ crashes
unfolding maildir_open maildir_stdin stdin_result maildir_close stdin_root call
maildir_open-crashes os path walk env w (inl e) = rw (maildir_open, maildir_stdin, e) refl
maildir_open-crashes os path walk env w (inr (f, (t, e))) =
    rw (maildir_open, maildir_stdin, e, f) refl
