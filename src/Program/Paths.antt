-- ===== src/Program/Paths.antt =====
-- Where the home directory and the configuration are, as `readenv` and `main` find them.
use mdsort.Base.{
  ◌<◌, Option, none, some, [], ◌∷◌, ◌++◌, ◌≡◌, refl, sym, subst, arith, Bytes, codes, length, leb,
  Option-cases, Bool-cases, inl, inr, before,
}
use mdsort.Util.{path_max}
use mdsort.DateTime.{Tz}
use mdsort.Environment.{Env}
use mdsort.Main.{defaultconf}
use mdsort.Program.{
  Answers, nonempty, or_else, copied, read_tz, env_zoned, env_tmpdir, tmpdir_of, env_home, readenv,
}

-- The home directory: HOME where it is set and not empty, else that of the user's entry.
abbrev pub HomeOf : Option Bytes → Option Bytes → Bytes → Type 0
HomeOf (some (c ∷ s)) pw_dir home = home ≡ c ∷ s
HomeOf (some []) pw_dir home = pw_dir ≡ some home
HomeOf none pw_dir home = pw_dir ≡ some home

-- The path of the configuration: that of an -f, or .mdsort.conf in the home directory, if that fits.
abbrev pub PathBy : Option Bytes → Bytes → Bytes → Type 0
PathBy (some arg) home path = path ≡ arg
PathBy none home path = (path ≡ home ++ codes "/.mdsort.conf") × (length path < path_max)

abbrev HasHome : Bytes → Option Env → Type 0
HasHome home none = Unit
HasHome home (some env) = env.home ≡ home

env_zoned-HasHome :
    (a : Answers) (env : Env) (tz : Option Tz) → HasHome env.home (env_zoned a env tz)
unfolding env_zoned
env_zoned-HasHome a env none = tt
env_zoned-HasHome a env (some tz) = elim (Option-cases a.gmtoff) [
  | inl g ↦ rw (env_zoned, g) tt
  | inr g ↦ rw (env_zoned, g.1) refl
]

env_tmpdir-HasHome :
    (a : Answers) (env : Env) (dir : Option Bytes) → HasHome env.home (env_tmpdir a env dir)
unfolding env_tmpdir
env_tmpdir-HasHome a env none = tt
env_tmpdir-HasHome a env (some dir) =
    env_zoned-HasHome a (record env { tmpdir = dir }) (read_tz a.tz env.tz)

abbrev pub Homed : Option Bytes → Option Bytes → Option Env → Type 0
Homed p q none = Unit
Homed p q (some env) = HomeOf p q env.home

HasHome-Homed :
    (p q : Option Bytes) (home : Bytes) (e : Option Env)
    → HomeOf p q home
    → HasHome home e
    → Homed p q e
HasHome-Homed p q home none h s = tt
HasHome-Homed p q home (some env) h s = subst (λ x. HomeOf p q x) (sym s) h

nonempty-HomeOf :
    (p q : Option Bytes) (home : Bytes) → or_else (nonempty p) q ≡ some home → HomeOf p q home
unfolding nonempty or_else
nonempty-HomeOf none q home e = e
nonempty-HomeOf (some []) q home e = e
nonempty-HomeOf (some (c ∷ s)) q home e = cc

env_home-Homed :
    (a : Answers) (env : Env) (p : Option Bytes)
    → ((home : Bytes) → p ≡ some home → HomeOf a.home a.pw_dir home)
    → Homed a.home a.pw_dir (env_home a env p)
unfolding env_home copied
env_home-Homed a env none h = tt
env_home-Homed a env (some home) h = elim (Bool-cases (leb path_max (length home))) [
  | inl e ↦ rw (env_home, copied, e) tt
  | inr e ↦
      rw (env_home, copied, e)
        (HasHome-Homed a.home a.pw_dir home _ (h home refl)
          (env_tmpdir-HasHome a (record env { home = home }) (copied path_max (tmpdir_of a))))
]

pub readenv-Homed : (a : Answers) (env : Env) → Homed a.home a.pw_dir (readenv a env)
unfolding readenv
readenv-Homed a env = elim (Option-cases a.hostname) [
  | inl g ↦ rw (readenv, g) tt
  | inr g ↦
      rw (readenv, g.1)
        (env_home-Homed a (record env { hostname = before b'.' g.0 })
          (or_else (nonempty a.home) a.pw_dir) (λ home e. nonempty-HomeOf a.home a.pw_dir home e))
]

pub defaultconf-PathBy :
    (c : Option Bytes) (home path : Bytes)
    → or_else c (defaultconf home) ≡ some path
    → PathBy c home path
unfolding or_else defaultconf
defaultconf-PathBy (some arg) home path e = cc
defaultconf-PathBy none home path e =
    elim (Bool-cases (leb path_max (length (home ++ codes "/.mdsort.conf")))) [
      | inl b ↦ let long : defaultconf home ≡ none = rw (defaultconf, b) refl in cc
      | inr b ↦
          let fits : defaultconf home ≡ some (home ++ codes "/.mdsort.conf") =
            rw (defaultconf, b) refl in
          let same : path ≡ home ++ codes "/.mdsort.conf" = cc in
          (same, rw (same) (ground (arith, b)))
    ]
