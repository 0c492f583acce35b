-- ===== src/Maildir/Attempts.antt =====
-- The loops of maildir.c end: enough attempts find a name, and two rounds are enough for a maildir.
use mdsort.Base.{
  ℕ, zero, suc, ◌+◌, ◌%◌, ◌/◌, ltb, Bool-cases, ◌^◌, ◌<◌, ◌≤◌, Bool, true, false, Option, none,
  some, List, [], ◌∷◌, ◌≡◌, refl, ◌∙◌, arith, Bytes, leb, length, length-append, Option-cases, inl,
  inr,
}
use mdsort.Base.Int.{ℤ, pos, negsuc}
use mdsort.Util.{name_max}
use mdsort.Environment.{Env}
use mdsort.Maildir.{Dirent, subdir_cur, Maildir, success, Os, World}
use mdsort.Maildir.Calls.{tick, call, create_as, create}
use mdsort.Maildir.Names.{
  digits, decimal, decimal_ℤ, candidate, genname_next, genname_loop, maildir_genname,
}
use mdsort.Maildir.Open.{opened_dir, maildir_opendir}
use mdsort.Maildir.Walk.{
  Found, found, ended, read_error, read_crash, read_exits, maildir_read, Next, no_next, next_exits,
  next, maildir_next, walk_opened, walk_next, walk_read, walk_loop,
}
use mdsort.Maildir.Files.{Has, store-same}
use mdsort.Maildir.Traversal.{Follows, maildir_next-Follows, maildir_read-Reads}

-- The number that attempt k puts into the name, from the number before the first attempt.
abbrev pub attempt : ℕ → ℕ → ℕ
attempt zero count = (count + 1) % 2 ^ 32
attempt (suc k) count = attempt k ((count + 1) % 2 ^ 32)

-- A name that was not taken, and its file, which is empty.
abbrev pub Made : Bytes → World → Option Bytes × World → Type 0
Made dir w (none, w') = ⊥
Made dir w (some name, w') = (w.files dir name ≡ none) × Has dir name [] w'

module _ (os : Os) (dir : Bytes) (env : Env) (flags : Bytes) (ok : (n : ℕ) → os.answer n ≡ success)
    (fits : (k : ℕ) → leb (name_max + 1) (length (candidate env flags k)) ≡ false) where
  genname_loop-Made :
      (fuel k count : ℕ) (w : World)
      → k < fuel
      → w.files dir (candidate env flags (attempt k count)) ≡ none
      → Made dir w (genname_loop os fuel dir env flags count w)
  unfolding genname_loop create genname_next create_as
  genname_loop-Made zero k count w l e = ground (arith, l)
  genname_loop-Made (suc fuel) k count w l e =
      elim (Option-cases (w.files dir (candidate env flags ((count + 1) % 2 ^ 32)))) [
        | inl f ↦
            rw (genname_loop, fits ((count + 1) % 2 ^ 32), create, ok w.calls, f)
              (f, store-same w dir (candidate env flags ((count + 1) % 2 ^ 32)) [])
        | inr f ↦
            rw (genname_loop, fits ((count + 1) % 2 ^ 32), create, ok w.calls, f.1)
              (again k l e f.0 f.1 (genname_loop-Made fuel))
      ]
    where
      Again : Type 0
      Again =
          (k count : ℕ) (w : World)
          → k < fuel
          → w.files dir (candidate env flags (attempt k count)) ≡ none
          → Made dir w (genname_loop os fuel dir env flags count w)

      again :
          (k : ℕ)
          → k < suc fuel
          → w.files dir (candidate env flags (attempt k count)) ≡ none
          → (t : Bytes) → w.files dir (candidate env flags ((count + 1) % 2 ^ 32)) ≡ some t
          → Again
          → Made dir w (genname_loop os fuel dir env flags ((count + 1) % 2 ^ 32) (tick w))
      again zero l' e' t f h = cc
      again (suc k') l' e' t f h = h k' ((count + 1) % 2 ^ 32) (tick w) (ground (arith, l')) e'

-- A number takes at most as many digits as there is room for.
length-digits : (fuel n : ℕ) → length (digits fuel n) ≤ fuel
unfolding digits
length-digits zero n = ground arith
length-digits (suc fuel) n = elim (Bool-cases (ltb n 10)) [
  | inl b ↦ rw (digits, b) (ground arith)
  | inr b ↦
      rw (digits, b, length-append (digits fuel (n / 10)) ((b'0' + n % 10) ∷ []))
        (ground (arith, length-digits fuel (n / 10)))
]

length-decimal_ℤ : (z : ℤ) → length (decimal_ℤ z) ≤ 21
unfolding decimal_ℤ
length-decimal_ℤ (pos n) = ground (arith, length-digits 20 n)
length-decimal_ℤ (negsuc n) = ground (arith, length-digits 20 (suc n))

length-candidate :
    (env : Env) (flags : Bytes) (n : ℕ)
    → length (candidate env flags n) ≤ 65 + (length env.hostname + length flags)
unfolding candidate
length-candidate env flags n =
    rw
      (
        candidate,
        length-append (decimal_ℤ env.now) _,
        length-append (decimal_ℤ env.pid) _,
        length-append (decimal n) _,
        length-append env.hostname flags,
      )
      (ground (arith, length-decimal_ℤ env.now, length-decimal_ℤ env.pid, length-digits 20 n))

candidate-fits :
    (env : Env) (flags : Bytes) (n : ℕ)
    → length env.hostname + length flags ≤ 180
    → leb (name_max + 1) (length (candidate env flags n)) ≡ false
candidate-fits env flags n h = let l = length-candidate env flags n in ground (arith, l, h)

-- If calls succeed, the host name and the flags leave room for the numbers in a name, and the name of
-- one of the attempts that `rounds` allows is not taken, `maildir_genname` returns a name that was
-- not taken, and its file is made and empty.
pub maildir_genname-Made :
    (os : Os) (md : Maildir) (flags : Bytes) (env : Env) (w : World) (k : ℕ)
    → ((n : ℕ) → os.answer n ≡ success)
    → length env.hostname + length flags ≤ 180
    → k < os.rounds
    → w.files md.path (candidate env flags (attempt k (os.random w.calls % 128))) ≡ none
    → Made md.path w (maildir_genname os md flags env w)
unfolding maildir_genname
maildir_genname-Made os md flags env w k ok fits l e =
    genname_loop-Made os md.path env flags ok (λ n. candidate-fits env flags n fits) os.rounds k
      (os.random w.calls % 128) w l e

-- What two ways to go on have in common in "cur", the last directory.
abbrev Agree :
    (Maildir → World → Found × Maildir × World)
    → (Maildir → World → Found × Maildir × World)
    → Type 0
Agree f g = (md : Maildir) (w : World) → md.subdir ≡ subdir_cur → f md w ≡ g md w

walk_read-cur :
    (os : Os) (f g : Maildir → World → Found × Maildir × World) (r : Found × Maildir × World)
    → r.1.subdir ≡ subdir_cur
    → walk_read os f r ≡ walk_read os g r
unfolding walk_read walk_next
walk_read-cur os f g (found e, md, w) c = refl
walk_read-cur os f g (read_error, md, w) c = refl
walk_read-cur os f g (read_crash, md, w) c = refl
walk_read-cur os f g (read_exits, md, w) c = refl
walk_read-cur os f g (ended, md, w) c = go (maildir_next md) (maildir_next-Follows md)
  where
    go : (n : Next) → Follows md n → walk_next os f md w n ≡ walk_next os g md w n
    go no_next h = refl
    go next_exits h = refl
    go (next m) (a, b, d) = ground (arith, b, c)

walk_read-Agree :
    (os : Os) (f g : Maildir → World → Found × Maildir × World) (r : Found × Maildir × World)
    → Agree f g
    → walk_read os f r ≡ walk_read os g r
unfolding walk_read walk_next maildir_opendir call
walk_read-Agree os f g (found e, md, w) h = refl
walk_read-Agree os f g (read_error, md, w) h = refl
walk_read-Agree os f g (read_crash, md, w) h = refl
walk_read-Agree os f g (read_exits, md, w) h = refl
walk_read-Agree os f g (ended, md, w) h = go (maildir_next md) (maildir_next-Follows md)
  where
    opens :
        (m : Maildir) (l : List Dirent) (p : Bool × World)
        → m.subdir ≡ subdir_cur
        → walk_opened f (opened_dir m l p) ≡ walk_opened g (opened_dir m l p)
    opens m l (true, v) c = refl
    opens m l (false, v) c = h (record m { dir = some l }) v c

    go : (n : Next) → Follows md n → walk_next os f md w n ≡ walk_next os g md w n
    go no_next q = refl
    go next_exits q = refl
    go (next m) (a, b, c) = opens m _ (call os w) c

walk_loop-Agree : (os : Os) (n : ℕ) → Agree (walk_loop os (suc n)) (walk_loop os 1)
unfolding walk_loop
walk_loop-Agree os n md w c =
    walk_read-cur os (walk_loop os n) (walk_loop os 0) (maildir_read os md w)
      ((maildir_read-Reads os md w).1 ∙ c)

-- Two rounds are enough for the loop of `maildir_walk`: from any state of the maildir, and whatever the
-- calls answer, more rounds give the same.
pub walk_loop-two :
    (os : Os) (n : ℕ) (md : Maildir) (w : World)
    → walk_loop os (suc (suc n)) md w ≡ walk_loop os 2 md w
unfolding walk_loop
walk_loop-two os n md w =
    walk_read-Agree os (walk_loop os (suc n)) (walk_loop os 1) (maildir_read os md w)
      (walk_loop-Agree os n)
