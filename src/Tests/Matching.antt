-- ===== src/Tests/Matching.antt =====
-- Instances of the theorems on the evaluation and on the match list.
use mdsort.Eval.Leaves.{expr_eval_pass, expr_eval_header}
use mdsort.Eval.Combine.{
  expr_eval_block, block_rest, block_result, pass_result, expr_eval_and, expr_eval_neg,
}
use mdsort.Base.{bytes_eq, false, [], ◌∷◌, ◌≡◌, refl, arith, codes}
use mdsort.Expr.{ex_flags, ExprType, node, null, type_eq, type_value}
use mdsort.Match.{matches_remove_by_type, Match, match_alloc, matches_append, matches_find}
use mdsort.Match.Merge.{flag_takes_first_move}
use mdsort.Eval.State.{expr_match, append_with, ev_match, ev_nomatch}
use mdsort.Eval.Node.{expr_eval}
use mdsort.Eval.Growth.{GrowsTo, is_matcher}
use mdsort.Eval.Matcher.{IsMatcher, expr_eval-GrowsTo, neg_restores}
use mdsort.Eval.Meaning.{IsPure, is_pure, meaning, expr_eval-meaning}
use mdsort.Eval.Block.{Outcome, expr_eval_block-Outcome}
use mdsort.Tests.Samples.{
  system, env, start, attrs, to_user, not_user_or_new, user_break, user_pass, move_a, a_label,
  move_b, flag_cur,
}

not_user_or_new-IsPure : IsPure not_user_or_new
unfolding is_pure
not_user_or_new-IsPure = (refl, (refl, (refl, tt, tt), tt), (refl, tt, tt))

to_user-IsMatcher : IsMatcher to_user
unfolding is_matcher
to_user-IsMatcher = (refl, tt, tt)

expr_eval-meaning_example :
    ((expr_eval system env not_user_or_new 0 start).0
      ≡ meaning system not_user_or_new 0 start.store)
    × ((expr_eval system env not_user_or_new 0 start).1.store ≡ start.store)
expr_eval-meaning_example =
    expr_eval-meaning system env not_user_or_new 0 start not_user_or_new-IsPure

expr_eval-GrowsTo_example : GrowsTo start (expr_eval system env to_user 0 start).1
expr_eval-GrowsTo_example = expr_eval-GrowsTo system env to_user 0 start to_user-IsMatcher tt

-- The header matches, so its negation does not.
not_user-nomatch :
    (expr_eval system env (node ExprType.neg attrs to_user null) 0 start).0 ≡ ev_nomatch
unfolding expr_eval expr_eval_neg append_with ex_flags type_eq expr_eval_header bytes_eq
not_user-nomatch = refl

neg_restores_example :
    (expr_eval system env (node ExprType.neg attrs to_user null) 0 start).1.ml ≡ []
neg_restores_example =
    neg_restores system env attrs to_user 0 start to_user-IsMatcher tt not_user-nomatch

expr_eval_block-Outcome_example :
    Outcome
      (expr_eval system env user_break 0 start).0
      (expr_eval system env user_break 0 start).1.ml
      (expr_eval system env (node ExprType.block attrs user_break null) 0 start).0
      (expr_eval system env (node ExprType.block attrs user_break null) 0 start).1.ml
expr_eval_block-Outcome_example = expr_eval_block-Outcome system env attrs user_break 0 start

-- A discard and a `pass`: the block matches.
passed_on : (expr_eval system env (node ExprType.block attrs user_pass null) 0 start).0 ≡ ev_match
unfolding expr_eval expr_eval_and expr_eval_header bytes_eq append_with ex_flags type_eq expr_match
    expr_eval_pass matches_find expr_eval_block block_rest block_result pass_result
    matches_remove_by_type
passed_on = refl

-- move "/a", label, move "/b", flag: the flag takes the maildir of the first move.
flag_takes_first_move_example :
    matches_append (codes "/m/new/1") (move_a ∷ a_label ∷ move_b ∷ []) flag_cur ≡ (
      false,
      a_label ∷ move_b ∷ record flag_cur { maildir = codes "/a"; path = codes "/a/cur" } ∷ [],
    )
unfolding match_alloc type_eq type_value
flag_takes_first_move_example =
    flag_takes_first_move (codes "/m/new/1") [] move_a (a_label ∷ move_b ∷ []) flag_cur move_b tt
      (ground arith) refl refl tt refl refl (ground arith) (ground arith) (omega arith)

abbrev label_after : Match
label_after = match_alloc 5 ExprType.label attrs 0

abbrev move_after : Match
move_after = record (match_alloc 4 ExprType.move attrs 0) {
  maildir = codes "/b";
  subdir = codes "new";
}
