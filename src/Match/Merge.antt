-- ===== src/Match/Merge.antt =====
-- What a new move or flag replaces in the match list, and the destination that it gets.
use mdsort.Base.{
  suc, ◌<◌, true, false, some, [], ◌∷◌, ◌++◌, ◌≡◌, ◌≢◌, refl, arith, last?, All, Bytes, length,
}
use mdsort.Util.{path_max, pathjoin}
use mdsort.Expr.{ExprType, move, flag, type_eq, type_value, ex_flags}
use mdsort.Match.{
  Match, MatchList, is_type, matches_find, merge_other, matches_merge, infer_maildir, infer_subdir,
  join_path, resolve_path, matches_append,
}
use mdsort.Match.Removal.{Below, From, remove_middle}

-- No match of a list has a type.
abbrev pub Without : ExprType → MatchList → Type 0
Without type ml = All (λ m. is_type type m ≡ false) ml

find_behind :
    (type : ExprType) (ml : MatchList) (m : Match) (new : MatchList)
    → Without type ml
    → is_type type m ≡ true
    → matches_find (ml ++ (m ∷ new)) type ≡ some m
unfolding matches_find
find_behind type [] m new h e = ground arith
find_behind type (x ∷ ml) m new h e = ground (arith, find_behind type ml m new h.1 e)

last_behind :
    (ml : MatchList) (m : Match) (new : MatchList)
    → (l : Match) × (last? (ml ++ (m ∷ new)) ≡ some l)
last_behind [] m [] = (m, refl)
last_behind [] m (x ∷ new) = last_behind [] x new
last_behind (x ∷ []) m new = last_behind [] m new
last_behind (x ∷ y ∷ ml) m new = last_behind (y ∷ ml) m new

-- The match that is found first, `d`, between what stands before it and behind it.
module _ (pre : MatchList) (d : Match) (post : MatchList) (mh : Match) (before : Below d.id pre)
    (behind : From (suc d.id) post) where
  merge_flag :
      (l : Match)
      → mh.type ≡ flag
      → Without move pre
      → is_type move d ≡ true
      → last? (pre ++ (d ∷ post)) ≡ some l
      → is_type flag l ≡ false
      → matches_merge (pre ++ (d ∷ post)) mh ≡ (pre ++ post, record mh { maildir = d.maildir })
  unfolding matches_merge merge_other
  merge_flag l t none_before is_move is_last no_flag =
      let a : type_eq mh.type move ≡ false = rw t (unfold type_eq type_value in refl) in
      let b : type_eq mh.type flag ≡ true = rw t (unfold type_eq type_value in refl) in
      let c : type_eq l.type mh.type ≡ false = rw t no_flag in
      ground (
        arith,
        a,
        b,
        c,
        is_last,
        find_behind move pre d post none_before is_move,
        remove_middle pre d post before behind,
      )

  merge_move :
      (l : Match)
      → mh.type ≡ move
      → Without flag pre
      → is_type flag d ≡ true
      → last? (pre ++ (d ∷ post)) ≡ some l
      → is_type move l ≡ false
      → matches_merge (pre ++ (d ∷ post)) mh ≡ (pre ++ post, record mh { subdir = d.subdir })
  unfolding matches_merge merge_other
  merge_move l t none_before is_flag is_last no_move =
      let a : type_eq mh.type move ≡ true = rw t (unfold type_eq type_value in refl) in
      let c : type_eq l.type mh.type ≡ false = rw t no_move in
      ground (
        arith,
        a,
        c,
        is_last,
        find_behind flag pre d post none_before is_flag,
        remove_middle pre d post before behind,
      )

-- A destination whose two parts are given and fit.
resolve_given :
    (path : Bytes) (m : Match)
    → m.maildir ≢ []
    → m.subdir ≢ []
    → length (m.maildir ++ (b'/' ∷ m.subdir)) < path_max
    → resolve_path path m ≡ some (record m { path = m.maildir ++ (b'/' ∷ m.subdir) })
unfolding resolve_path infer_maildir infer_subdir join_path pathjoin
resolve_given path m h k fits = ground arith

append_at :
    (path : Bytes) (ml : MatchList) (mh : Match) (rest : MatchList) (new found : Match)
    → matches_merge ml mh ≡ (rest, new)
    → (ex_flags new.type).is_path ≡ true
    → resolve_path path new ≡ some found
    → matches_append path ml mh ≡ (false, rest ++ found ∷ [])
unfolding matches_append
append_at path ml mh rest new found e p r = ground (arith, e, p, r)

is_path_of :
    (mh : Match) (t : ExprType)
    → mh.type ≡ t
    → (ex_flags t).is_path ≡ true
    → (ex_flags mh.type).is_path ≡ true
is_path_of mh t e p = rw e p

module _ (path : Bytes) (pre : MatchList) (d : Match) (post : MatchList) (mh l : Match)
    (before : Below d.id pre) (behind : From (suc d.id) post)
    (is_last : last? (pre ++ (d ∷ post)) ≡ some l) where
  -- A flag is appended to a list that does not end in a flag and whose first move is `d`, with lower
  -- addresses before it and higher ones behind it. Then that
  -- move is taken out, whatever other moves follow it, everything else stays, and the destination
  -- of the flag is the maildir of that first move with the subdirectory of the flag, provided
  -- neither is empty and both fit.
  pub flag_takes_first_move :
      mh.type ≡ flag
      → Without move pre
      → is_type move d ≡ true
      → is_type flag l ≡ false
      → d.maildir ≢ []
      → mh.subdir ≢ []
      → length (d.maildir ++ (b'/' ∷ mh.subdir)) < path_max
      → matches_append path (pre ++ (d ∷ post)) mh ≡ (
        false,
        (pre ++ post)
            ++ record mh { maildir = d.maildir; path = d.maildir ++ (b'/' ∷ mh.subdir) } ∷ [],
      )
  flag_takes_first_move t none_before is_move no_flag h k fits =
      let new = record mh { maildir = d.maildir } in
      append_at path (pre ++ (d ∷ post)) mh (pre ++ post) new
        (record new { path = d.maildir ++ (b'/' ∷ mh.subdir) })
        (merge_flag pre d post mh before behind l t none_before is_move is_last no_flag)
        (is_path_of new flag t (unfold ex_flags in refl)) (resolve_given path new h k fits)

  -- A move is appended to a list that does not end in a move and whose first flag is `d`, with lower
  -- addresses before it and higher ones behind it. Then that
  -- flag is taken out, everything else stays, and the destination of the move is its own maildir
  -- with the subdirectory of the flag, provided neither is empty and both fit.
  pub move_takes_first_flag :
      mh.type ≡ move
      → Without flag pre
      → is_type flag d ≡ true
      → is_type move l ≡ false
      → mh.maildir ≢ []
      → d.subdir ≢ []
      → length (mh.maildir ++ (b'/' ∷ d.subdir)) < path_max
      → matches_append path (pre ++ (d ∷ post)) mh ≡ (
        false,
        (pre ++ post)
            ++ record mh { subdir = d.subdir; path = mh.maildir ++ (b'/' ∷ d.subdir) } ∷ [],
      )
  move_takes_first_flag t none_before is_flag no_move h k fits =
      let new = record mh { subdir = d.subdir } in
      append_at path (pre ++ (d ∷ post)) mh (pre ++ post) new
        (record new { path = mh.maildir ++ (b'/' ∷ d.subdir) })
        (merge_move pre d post mh before behind l t none_before is_flag is_last no_move)
        (is_path_of new move t (unfold ex_flags in refl)) (resolve_given path new h k fits)
