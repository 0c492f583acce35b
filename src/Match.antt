-- ===== src/Match.antt =====
-- match.h and the match list of match.c. A list holds structures that are known by their address;
-- `id` is that address, which is fresh for each match that `match_alloc` makes.
pub mod Removal
pub mod Types
pub mod Merge
use mdsort.Base.{
  ℕ, suc, ◌+◌, Bool, true, false, not, ◌||◌, ◌&&◌, Option, none, some, List, [], ◌∷◌, ◌++◌, map,
  Bytes, ◌==◌, if◌then◌else◌, keep, find, last?,
}
use mathlib.Core.Option
use mdsort.Base.Int.{ℤ, pos, negsuc}
use mdsort.Util.{path_max, name_max, pathjoin, pathslice}
use mdsort.Expr.{ExprType, move, flag, type_eq, ex_flags, ExprAttrs}

-- An element of `mh_matches`.
pub record Submatch : Type 0 where
  pub str : Bytes
  pub beg : ℕ
  pub end : ℕ

-- `struct match`; the expression is known by its type and members, the message by its address.
pub record Match : Type 0 where
  pub id : ℕ
  pub type : ExprType
  pub attrs : ExprAttrs
  pub msg : ℕ
  pub path : Bytes
  pub maildir : Bytes
  pub subdir : Bytes
  pub matches : List Submatch
  pub argv : List Bytes
  pub key : Option Bytes
  pub val : Option Bytes

-- Chains of steps that may fail.
infixl 5 ◌>>=◌
abbrev pub ◌>>=◌ : {A B : Type 0} → Option A → (A → Option B) → Option B
none >>= f = none
some a >>= f = f a

abbrev pub MatchList : Type 0
MatchList = List Match

unfoldable pub match_alloc : ℕ → ExprType → ExprAttrs → ℕ → Match
match_alloc id type attrs msg = record {
  id = id;
  type = type;
  attrs = attrs;
  msg = msg;
  path = [];
  maildir = [];
  subdir = [];
  matches = [];
  argv = [];
  key = none;
  val = none;
}

abbrev pub is_type : ExprType → Match → Bool
is_type t m = type_eq m.type t

unfoldable pub matches_find : MatchList → ExprType → Option Match
matches_find ml type = find (is_type type) ml

-- LIST_REMOVE of the match at an address.
unfoldable pub matches_remove : MatchList → ℕ → MatchList
matches_remove ml id = keep (λ m. not (m.id == id)) ml

abbrev pub count_actions : MatchList → ℕ
count_actions [] = 0
count_actions (m ∷ ml) = (if (ex_flags m.type).is_action then 1 else 0) + count_actions ml

-- The list without the given type, and the number of actions left in it.
unfoldable pub matches_remove_by_type : MatchList → ExprType → MatchList × ℕ
matches_remove_by_type [] type = ([], 0)
matches_remove_by_type (m ∷ ml) type =
    let (rest, n) = matches_remove_by_type ml type in
    if is_type type m
    then (rest, n)
    else (m ∷ rest, (if (ex_flags m.type).is_action then suc n else n))

-- Removing from the tail down to the match at an address: what stands up to it is left.
unfoldable pub matches_remove_until : MatchList → ℕ → MatchList
matches_remove_until [] stop = []
matches_remove_until (m ∷ ml) stop = elim (matches_remove_until ml stop) [
  | [] ↦ if m.id == stop then m ∷ [] else []
  | y ∷ ys ↦ m ∷ y ∷ ys
]

-- The second half of `matches_merge`: a flag and a move share one destination.
unfoldable pub merge_other : MatchList → Match → MatchList × Match
unfolding matches_find matches_remove
merge_other ml mh = elim (matches_find ml (if is_type move mh then flag else move)) [
  | none ↦ (ml, mh)
  | some dup ↦ (
    matches_remove ml dup.id,
    if is_type move mh
        then record mh { subdir = dup.subdir }
        else record mh { maildir = dup.maildir },
  )
]

-- The list without the match that the new one replaces, and the new one with what it takes over.
unfoldable pub matches_merge : MatchList → Match → MatchList × Match
unfolding merge_other matches_remove
matches_merge ml mh =
    if not (is_type move mh || is_type flag mh) then (ml, mh) else elim (last? ml) [
      | none ↦ merge_other ml mh
      | some dup ↦
          if type_eq dup.type mh.type then (matches_remove ml dup.id, mh) else merge_other ml mh
    ]

-- `mh_maildir`, inferred from the path of the message where it is empty.
unfoldable pub infer_maildir : Bytes → Match → Option Match
unfolding pathslice
infer_maildir path mh = elim mh.maildir [
  | [] ↦ Option.map (λ p. record mh { maildir = p }) (pathslice path path_max (pos 0) (negsuc 1))
  | c ∷ s ↦ some mh
]

-- `mh_subdir`, likewise.
unfoldable pub infer_subdir : Bytes → Match → Option Match
unfolding pathslice
infer_subdir path mh = elim mh.subdir [
  | [] ↦
      Option.map (λ p. record mh { subdir = p })
        (pathslice path (name_max + 1) (negsuc 1) (negsuc 1))
  | c ∷ s ↦ some mh
]

unfoldable pub join_path : Match → Option Match
unfolding pathjoin
join_path mh = Option.map (λ p. record mh { path = p }) (pathjoin path_max mh.maildir mh.subdir)

-- The destination of a match, `none` where `matches_append` warns and returns an error.
unfoldable pub resolve_path : Bytes → Match → Option Match
unfolding infer_maildir infer_subdir join_path
resolve_path path mh = do a ← infer_maildir path mh; b ← infer_subdir path a; join_path b

-- The first component is the error. In that case the match is in the list as it was before its
-- destination was looked for; the caller gives up and nothing reads it.
unfoldable pub matches_append : Bytes → MatchList → Match → Bool × MatchList
unfolding matches_merge resolve_path
matches_append path ml mh =
    let (rest, new) = matches_merge ml mh in
    if not (ex_flags new.type).is_path
    then (false, rest ++ new ∷ [])
    else elim (resolve_path path new) [
      | none ↦ (true, rest ++ new ∷ [])
      | some found ↦ (false, rest ++ found ∷ [])
    ]

-- An assignment to members of the match at an address.
unfoldable pub update_match : ℕ → (Match → Match) → MatchList → MatchList
update_match id f ml = map (λ m. if m.id == id then f m else m) ml
