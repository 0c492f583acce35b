-- ===== src/Match/Types.antt =====
-- Looking for a type in a match list, and removing it.
use mdsort.Base.{true, not, none, [], ◌∷◌, ◌≡◌, refl, arith, keep}
use mdsort.Expr.{ExprType, type_eq}
use mdsort.Match.{MatchList, is_type, matches_find, matches_remove_by_type, count_actions}

pub type_eq_refl : (t : ExprType) → type_eq t t ≡ true
unfolding type_eq
type_eq_refl t = ground arith

-- `matches_remove_by_type` keeps every match of another type, in order, and counts the actions
-- among them.
pub remove_by_type_lem :
    (ml : MatchList) (type : ExprType)
    → (matches_remove_by_type ml type).0 ≡ keep (λ m. not (is_type type m)) ml
      × ((matches_remove_by_type ml type).1 ≡ count_actions (keep (λ m. not (is_type type m)) ml))
unfolding matches_remove_by_type
remove_by_type_lem [] type = (refl, refl)
remove_by_type_lem (m ∷ ml) type = ground (arith, remove_by_type_lem ml type)

pub find-keep-not :
    (ml : MatchList) (type : ExprType)
    → matches_find (keep (λ m. not (is_type type m)) ml) type ≡ none
unfolding matches_find
find-keep-not [] type = refl
find-keep-not (m ∷ ml) type = ground (arith, find-keep-not ml type)
