-- ===== src/Maildir/Traversal.antt =====
-- Traversing a maildir changes no file, and neither do opening and closing one that is not of the
-- standard input.
use mdsort.Base.{
  ℕ, zero, suc, Bool, true, false, Option, none, some, List, [], ◌∷◌, ◌≡◌, refl, sym, ◌∙◌, ◌<◌, ◌⊎◌,
  arith, Bytes, leb, length, Bool-cases, Option-cases, inl, inr,
}
use mdsort.Util.{path_max, pathjoin}
use mdsort.Environment.{Env}
use mdsort.Maildir.{
  dt_unknown, dt_dir, dt_reg, dt_other, Dirent, dirent, broken, Subdir, subdir_new, subdir_cur,
  Maildir, subdir_name, Os, World,
}
use mdsort.Maildir.Files.{if-cases}
use mdsort.Maildir.Calls.{tick, call}
use mdsort.Maildir.Open.{maildir_set_path, opened_dir, maildir_opendir}
use mdsort.Maildir.Opened.{
  Opened, opened, not_opened, exits, crashes, open_result, open_root, open_walk, maildir_open,
}
use mdsort.Maildir.Walk.{
  Found, found, ended, read_error, read_crash, read_exits, read_entries, read_with, maildir_read,
  Next, no_next, next_exits, next, next_subdir, maildir_next, walk_opened, walk_next, walk_read,
  walk_loop, maildir_walk,
}

-- What a call leaves alone: the files, and whether the maildir is of the standard input.
abbrev pub Same : Maildir → World → Maildir → World → Type 0
Same md w md' w' = (md'.stdin ≡ md.stdin) × (w'.files ≡ w.files)

-- A maildir that is open for a traversal.
abbrev pub OpensPlain : World → Opened × World → Type 0
OpensPlain w (opened md, w') = (md.stdin ≡ false) × (w'.files ≡ w.files)
OpensPlain w (not_opened, w') = w'.files ≡ w.files
OpensPlain w (exits, w') = w'.files ≡ w.files
OpensPlain w (crashes, w') = w'.files ≡ w.files

-- What is left of the directory that is open.
abbrev pub entries_left : Maildir → ℕ
entries_left md = elim md.dir [ none ↦ 0 | some l ↦ length l ]

-- One maildir is further than another: in the same directory, or in the next one.
abbrev pub Further : Maildir → Maildir → Type 0
Further md md' =
    ((md'.subdir ≡ md.subdir) × (entries_left md' < entries_left md))
    ⊎ ((md.subdir ≡ subdir_new) × (md'.subdir ≡ subdir_cur))

-- With a message, the traversal has got further.
abbrev pub Advances : Maildir → World → Found × Maildir × World → Type 0
Advances md w (found e, md', w') = Same md w md' w' × Further md md'
Advances md w (_, md', w') = Same md w md' w'

-- A message takes at least one entry.
abbrev Shorter : List Dirent → World → Found × List Dirent × World → Type 0
Shorter l w (found e, rest, w') = (w'.files ≡ w.files) × (length rest < length l)
Shorter l w (_, rest, w') = w'.files ≡ w.files

Shorter-cons :
    (d : Dirent) (l : List Dirent) (w w' : World) (r : Found × List Dirent × World)
    → w'.files ≡ w.files
    → Shorter l w' r
    → Shorter (d ∷ l) w r
Shorter-cons d l w w' (found e, rest, v) f (g, h) = (g ∙ f, ground (arith, h))
Shorter-cons d l w w' (ended, rest, v) f g = g ∙ f
Shorter-cons d l w w' (read_error, rest, v) f g = g ∙ f
Shorter-cons d l w w' (read_crash, rest, v) f g = g ∙ f
Shorter-cons d l w w' (read_exits, rest, v) f g = g ∙ f

read_entries-Shorter :
    (os : Os) (path : Bytes) (l : List Dirent) (w : World) → Shorter l w (read_entries os path l w)
unfolding read_entries
read_entries-Shorter os path [] w = refl
read_entries-Shorter os path (broken ∷ rest) w = refl
read_entries-Shorter os path (dirent name dt_reg ∷ rest) w = (refl, ground arith)
read_entries-Shorter os path (dirent name dt_unknown ∷ rest) w =
    elim (Bool-cases (os.is_file w.calls path name)) [
      | inl e ↦ rw (read_entries, e) (refl, ground arith)
      | inr e ↦
          rw (read_entries, e)
            (Shorter-cons (dirent name dt_unknown) rest w (tick w) _ refl
              (read_entries-Shorter os path rest (tick w)))
    ]
read_entries-Shorter os path (dirent name dt_dir ∷ rest) w =
    Shorter-cons (dirent name dt_dir) rest w w _ refl (read_entries-Shorter os path rest w)
read_entries-Shorter os path (dirent name dt_other ∷ rest) w =
    Shorter-cons (dirent name dt_other) rest w w _ refl (read_entries-Shorter os path rest w)

-- A result of readdir(3), and the subdirectory it leaves.
abbrev pub Reads : Maildir → World → Found × Maildir × World → Type 0
Reads md w r = Advances md w r × (r.1.subdir ≡ md.subdir)

read_with-Reads :
    (md : Maildir) (w : World) (l : List Dirent) (r : Found × List Dirent × World)
    → md.dir ≡ some l
    → Shorter l w r
    → Reads md w (read_with md r)
unfolding read_with
read_with-Reads md w l (found e, rest, w') d (f, h) = (((refl, f), inl (refl, rw (d) h)), refl)
read_with-Reads md w l (ended, rest, w') d f = ((refl, f), refl)
read_with-Reads md w l (read_error, rest, w') d f = ((refl, f), refl)
read_with-Reads md w l (read_crash, rest, w') d f = ((refl, f), refl)
read_with-Reads md w l (read_exits, rest, w') d f = ((refl, f), refl)

pub maildir_read-Reads : (os : Os) (md : Maildir) (w : World) → Reads md w (maildir_read os md w)
unfolding maildir_read
maildir_read-Reads os md w = go md.dir refl
  where
    go :
        (o : Option (List Dirent))
        → md.dir ≡ o
        → Reads md w (elim o [
          | none ↦ (read_crash, md, w)
          | some entries ↦ read_with md (read_entries os md.path entries w)
        ])
    go none e = ((refl, refl), refl)
    go (some l) e = read_with-Reads md w l _ e (read_entries-Shorter os md.path l w)

-- From a later maildir that is at least as far, an advance is one from the earlier one.
abbrev Later : Maildir → World → Maildir → World → Type 0
Later md w md' w' = Same md w md' w' × (md.subdir ≡ subdir_new) × (md'.subdir ≡ subdir_cur)

Advances-Later :
    (md md' : Maildir) (w w' : World) (r : Found × Maildir × World)
    → Later md w md' w'
    → Advances md' w' r
    → Advances md w r
Advances-Later md md' w w' (found e, md'', w'') ((s, f), a, b) ((s', f'), inl (c, d)) =
    ((s' ∙ s, f' ∙ f), inr (a, c ∙ b))
Advances-Later md md' w w' (found e, md'', w'') ((s, f), a, b) ((s', f'), inr (c, d)) =
    ((s' ∙ s, f' ∙ f), inr (a, d))
Advances-Later md md' w w' (ended, md'', w'') ((s, f), _, _) (s', f') = (s' ∙ s, f' ∙ f)
Advances-Later md md' w w' (read_error, md'', w'') ((s, f), _, _) (s', f') = (s' ∙ s, f' ∙ f)
Advances-Later md md' w w' (read_crash, md'', w'') ((s, f), _, _) (s', f') = (s' ∙ s, f' ∙ f)
Advances-Later md md' w w' (read_exits, md'', w'') ((s, f), _, _) (s', f') = (s' ∙ s, f' ∙ f)

-- What the next directory is like.
abbrev pub Follows : Maildir → Next → Type 0
Follows md no_next = Unit
Follows md next_exits = Unit
Follows md (next md') =
    (md'.stdin ≡ md.stdin) × (md.subdir ≡ subdir_new) × (md'.subdir ≡ subdir_cur)

next_subdir-Follows : (md : Maildir) → Follows md (next_subdir md)
unfolding next_subdir maildir_set_path
next_subdir-Follows md = go md.subdir refl
  where
    go :
        (s : Subdir)
        → md.subdir ≡ s
        → Follows md (elim s [
          | subdir_cur ↦ no_next
          | subdir_new ↦ elim (maildir_set_path (record md { subdir = subdir_cur })) [
            | none ↦ next_exits
            | some md' ↦ next md'
          ]
        ])
    go subdir_cur e = tt
    go subdir_new e = elim (Option-cases (pathjoin path_max md.root (subdir_name subdir_cur))) [
      | inl f ↦ rw (maildir_set_path, f) tt
      | inr f ↦ rw (maildir_set_path, f.1) (refl, e, refl)
    ]

pub maildir_next-Follows : (md : Maildir) → Follows md (maildir_next md)
unfolding maildir_next
maildir_next-Follows md = if-cases md.stdin (Follows md) tt (next_subdir-Follows md)

walk_opened-Advances :
    (again : Maildir → World → Found × Maildir × World) (md md' : Maildir) (w w' : World)
    (l : List Dirent) (p : Bool × World)
    → ((m : Maildir) (v : World) → Advances m v (again m v))
    → Later md w md' p.1
    → Advances md w (walk_opened again (opened_dir md' l p))
unfolding walk_opened opened_dir
walk_opened-Advances again md md' w w' l (true, v) f (s, _, _) = s
walk_opened-Advances again md md' w w' l (false, v) f h =
    let m : Maildir = record md' { dir = some l } in Advances-Later md m w v _ h (f m v)

walk_read-Advances :
    (os : Os) (again : Maildir → World → Found × Maildir × World) (md : Maildir) (w : World)
    (r : Found × Maildir × World)
    → ((m : Maildir) (v : World) → Advances m v (again m v))
    → Reads md w r
    → Advances md w (walk_read os again r)
unfolding walk_read walk_next maildir_opendir call
walk_read-Advances os again md w (found e, md', w') f (a, b) = a
walk_read-Advances os again md w (read_error, md', w') f (a, b) = a
walk_read-Advances os again md w (read_crash, md', w') f (a, b) = a
walk_read-Advances os again md w (read_exits, md', w') f (a, b) = a
walk_read-Advances os again md w (ended, md', w') f ((s, g), b) =
    go (maildir_next md') (maildir_next-Follows md')
  where
    go : (n : Next) → Follows md' n → Advances md w (walk_next os again md' w' n)
    go no_next h = (s, g)
    go next_exits h = (s, g)
    go (next m) (x, y, z) =
        walk_opened-Advances again md m w w' _ (call os w') f ((x ∙ s, g), sym b ∙ y, z)

walk_loop-Advances :
    (os : Os) (n : ℕ) (md : Maildir) (w : World) → Advances md w (walk_loop os n md w)
unfolding walk_loop
walk_loop-Advances os zero md w = (refl, refl)
walk_loop-Advances os (suc n) md w =
    walk_read-Advances os (walk_loop os n) md w _ (walk_loop-Advances os n)
      (maildir_read-Reads os md w)

-- `maildir_walk` changes no file, and with a message the traversal has got further.
pub maildir_walk-Advances :
    (os : Os) (md : Maildir) (w : World) → Advances md w (maildir_walk os md w)
unfolding maildir_walk
maildir_walk-Advances os md w =
    if-cases md.walk (Advances md w) (walk_loop-Advances os 2 md w) (refl, refl)

open_root-Plain :
    (os : Os) (md : Maildir) (w : World) → md.stdin ≡ false → OpensPlain w (open_root os md w)
unfolding open_root maildir_set_path maildir_opendir call
open_root-Plain os md w s =
    elim (Option-cases (pathjoin path_max md.root (subdir_name md.subdir))) [
      | inl e ↦ rw (open_root, maildir_set_path, e) refl
      | inr e ↦
          rw (open_root, maildir_set_path, e.1) (go (record md { path = e.0 }) _ s (call os w) refl)
    ]
  where
    go :
        (m : Maildir) (l : List Dirent)
        → m.stdin ≡ false
        → (p : Bool × World) → p.1.files ≡ w.files
        → OpensPlain w (open_result (opened_dir m l p))
    go m l h (true, v) f = f
    go m l h (false, v) f = (h, f)

-- Opening a maildir for a traversal changes no file.
pub maildir_open-Plain :
    (os : Os) (path : Bytes) (env : Env) (w : World)
    → OpensPlain w (maildir_open os path true false env w)
unfolding maildir_open open_walk
maildir_open-Plain os path env w =
    if-cases (leb path_max (length path)) (OpensPlain w) refl (open_root-Plain os _ w refl)
