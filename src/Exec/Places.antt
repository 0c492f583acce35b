-- ===== src/Exec/Places.antt =====
-- The maildirs that matches_exec opens: their paths, and what opening and closing them leaves alone.
use mdsort.Base.{
  Bool, true, false, some, List, ◌≡◌, refl, sym, ◌∙◌, ap, arith, Bytes, bytes_eq_iff, Option-cases,
  inl, inr,
}
use mdsort.Base.Int.{pos, negsuc}
use mdsort.Util.{path_max, pathjoin, pathslice}
use mdsort.Environment.{Env}
use mdsort.Maildir.{Dirent, Subdir, subdir_new, subdir_cur, Maildir, subdir_name, Os, World}
use mdsort.Maildir.Calls.{call}
use mdsort.Maildir.Open.{maildir_set_path, opened_dir, maildir_opendir, parsesubdir}
use mdsort.Maildir.Opened.{
  Opened, opened, not_opened, exits, crashes, open_result, open_root, open_subdir, maildir_open,
}
use mdsort.Maildir.Walk.{maildir_close}
use mdsort.Maildir.Move.{maildir_same}

-- The path of a maildir is its root and its subdirectory.
abbrev pub Placed : Maildir → Type 0
Placed md = pathjoin path_max md.root (subdir_name md.subdir) ≡ some md.path

-- What an opened maildir is like.
abbrev pub Opens : World → Opened × World → Type 0
Opens w (opened md, w') = Placed md × (md.stdin ≡ false) × (w'.files ≡ w.files)
Opens w (not_opened, w') = w'.files ≡ w.files
Opens w (exits, w') = w'.files ≡ w.files
Opens w (crashes, w') = w'.files ≡ w.files

opened_dir-Opens :
    (md : Maildir) (entries : List Dirent) (w : World) (p : Bool × World)
    → Placed md
    → md.stdin ≡ false
    → p.1.files ≡ w.files
    → Opens w (open_result (opened_dir md entries p))
unfolding open_result opened_dir
opened_dir-Opens md entries w (true, w') a b c = c
opened_dir-Opens md entries w (false, w') a b c = (a, b, c)

open_root-Opens :
    (os : Os) (md : Maildir) (w : World) → md.stdin ≡ false → Opens w (open_root os md w)
unfolding open_root maildir_set_path maildir_opendir call
open_root-Opens os md w s =
    elim (Option-cases (pathjoin path_max md.root (subdir_name md.subdir))) [
      | inl e ↦ rw (open_root, maildir_set_path, e) refl
      | inr e ↦
          rw (open_root, maildir_set_path, e.1)
            (opened_dir-Opens (record md { path = e.0 }) _ w (call os w) e.1 s refl)
    ]

-- `maildir_open` without flags opens the maildir of its root and subdirectory, and changes no file.
pub maildir_open-Opens :
    (os : Os) (path : Bytes) (env : Env) (w : World)
    → Opens w (maildir_open os path false false env w)
unfolding maildir_open open_subdir
maildir_open-Opens os path env w = elim (Option-cases (parsesubdir path)) [
  | inl e ↦ rw (maildir_open, open_subdir, e) refl
  | inr e ↦ elim (Option-cases (pathslice path path_max (pos 0) (negsuc 0))) [
    | inl f ↦ rw (maildir_open, open_subdir, e.1, f) refl
    | inr f ↦ rw (maildir_open, open_subdir, e.1, f.1) (open_root-Opens os _ w refl)
  ]
]

-- A maildir that does not hold the standard input is closed without changing anything.
pub close_plain :
    (os : Os) (md : Maildir) (w : World) → md.stdin ≡ false → maildir_close os md w ≡ some w
unfolding maildir_close
close_plain os md w e = rw (e) refl

pub maildir_same_lem :
    (a b : Maildir) → maildir_same a b ≡ true → (a.root ≡ b.root) × (a.subdir ≡ b.subdir)
unfolding maildir_same
maildir_same_lem a b = go a.subdir b.subdir
  where
    go :
        (s t : Subdir)
        → maildir_same (record a { subdir = s }) (record b { subdir = t }) ≡ true
        → (a.root ≡ b.root) × (s ≡ t)
    go subdir_new subdir_new e = ((bytes_eq_iff a.root b.root).0 e, refl)
    go subdir_cur subdir_cur e = ((bytes_eq_iff a.root b.root).0 e, refl)
    go subdir_new subdir_cur e = ground (arith, e)
    go subdir_cur subdir_new e = ground (arith, e)

-- Two maildirs that are the same have the same path.
pub same-path : (a b : Maildir) → Placed a → Placed b → maildir_same a b ≡ true → a.path ≡ b.path
same-path a b p q e =
    let (r, s) = maildir_same_lem a b e in
    let both : pathjoin path_max a.root (subdir_name a.subdir)
        ≡ pathjoin path_max b.root (subdir_name b.subdir) =
      ap (λ x. pathjoin path_max x (subdir_name a.subdir)) r
      ∙ ap (λ x. pathjoin path_max b.root (subdir_name x)) s in
    let joined : some a.path ≡ some b.path = sym p ∙ both ∙ q in cc
