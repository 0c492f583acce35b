-- ===== src/Eval/Combine.antt =====
-- The expressions of expr.c that evaluate other expressions: `lhs` and `rhs` stand for the
-- evaluation of the children.
use mdsort.Base.{ℕ, Bool, true, false, Option, none, some, List, [], ◌∷◌, ◌==◌, if◌then◌else◌}
use mdsort.Expr.{ExprType, ExprAttrs}
use mdsort.Match.{matches_find, matches_remove, matches_remove_by_type, matches_remove_until}
use mdsort.Message.Body.{message_get_attachments}
use mdsort.Eval.State.{
  Ev, ev_match, ev_nomatch, ev_error, EvalState, Eval, append_with, no_init, unless_nomatch,
}

-- A match goes on with the other side; anything else is the answer.
unfoldable pub and_rest : Eval → ℕ → Ev × EvalState → Ev × EvalState
and_rest rhs msg (ev_match, s) = rhs msg s
and_rest rhs msg (other, s) = (other, s)

unfoldable pub expr_eval_and : Eval → Eval → Eval
unfolding and_rest
expr_eval_and lhs rhs msg s = and_rest rhs msg (lhs msg s)

-- No match goes on with the other side; anything else is the answer.
unfoldable pub or_rest : Eval → ℕ → Ev × EvalState → Ev × EvalState
or_rest rhs msg (ev_nomatch, s) = rhs msg s
or_rest rhs msg (other, s) = (other, s)

unfoldable pub expr_eval_or : Eval → Eval → Eval
unfolding or_rest
expr_eval_or lhs rhs msg s = or_rest rhs msg (lhs msg s)

-- The loop of `expr_eval_attachment`: the first match or error ends it.
unfoldable pub attachment_loop : Eval → List ℕ → EvalState → Ev × EvalState
unfolding unless_nomatch
attachment_loop lhs [] s = (ev_nomatch, s)
attachment_loop lhs (a ∷ rest) s = unless_nomatch (attachment_loop lhs rest) (lhs a s)

unfoldable pub attachments_of : ℕ → EvalState → Option (List ℕ) × EvalState
unfolding message_get_attachments
attachments_of msg s =
    let (attachments, store) = message_get_attachments msg s.store in
    (attachments, record s { store = store })

unfoldable pub attachment_found : Eval → Option (List ℕ) × EvalState → Ev × EvalState
unfolding attachment_loop
attachment_found lhs (none, s) = (ev_error, s)
attachment_found lhs (some l, s) = attachment_loop lhs l s

unfoldable pub expr_eval_attachment : Eval → Eval
unfolding attachments_of attachment_found
expr_eval_attachment lhs msg s = attachment_found lhs (attachments_of msg s)

-- The loop of `expr_eval_attachment_block`: every attachment is tried unless there is an error.
unfoldable pub attachment_block_rest :
    (Ev → EvalState → Ev × EvalState) → Ev → Ev × EvalState → Ev × EvalState
attachment_block_rest next ev (ev_match, s) = next ev_match s
attachment_block_rest next ev (ev_nomatch, s) = next ev s
attachment_block_rest next ev (other, s) = (other, s)

unfoldable pub attachment_block_loop : Eval → List ℕ → Ev → EvalState → Ev × EvalState
unfolding attachment_block_rest
attachment_block_loop lhs [] ev s = (ev, s)
attachment_block_loop lhs (a ∷ rest) ev s =
    attachment_block_rest (attachment_block_loop lhs rest) ev (lhs a s)

unfoldable pub attachment_block_found : Eval → Option (List ℕ) × EvalState → Ev × EvalState
unfolding attachment_block_loop
attachment_block_found lhs (none, s) = (ev_error, s)
attachment_block_found lhs (some l, s) = attachment_block_loop lhs l ev_nomatch s

unfoldable pub expr_eval_attachment_block : Eval → Eval
unfolding attachments_of attachment_block_found
expr_eval_attachment_block lhs msg s = attachment_block_found lhs (attachments_of msg s)

-- A `pass` was evaluated: the list without it, and whether an action is left.
unfoldable pub pass_result : EvalState → Ev × EvalState
unfolding matches_remove_by_type
pass_result s =
    let (ml, n) = matches_remove_by_type s.ml ExprType.pass in
    ((if n == 0 then ev_nomatch else ev_match), record s { ml = ml })

-- What `expr_eval_block` does once its expression is evaluated without an error.
unfoldable pub block_result : Ev → EvalState → Ev × EvalState
unfolding matches_find matches_remove_by_type pass_result
block_result ev s = elim (matches_find s.ml ExprType.break) [
  | some _ ↦ (ev_nomatch, record s { ml = (matches_remove_by_type s.ml ExprType.break).0 })
  | none ↦ elim (matches_find s.ml ExprType.pass) [ some _ ↦ pass_result s | none ↦ (ev, s) ]
]

unfoldable pub block_rest : Ev × EvalState → Ev × EvalState
unfolding block_result
block_rest (ev_match, s) = block_result ev_match s
block_rest (ev_nomatch, s) = block_result ev_nomatch s
block_rest (other, s) = (other, s)

unfoldable pub expr_eval_block : Eval → Eval
unfolding block_rest
expr_eval_block lhs msg s = block_rest (lhs msg s)

unfoldable pub match_rest : Eval → Eval → ℕ → Bool × EvalState → Ev × EvalState
unfolding expr_eval_and
match_rest lhs rhs msg (true, s) = (ev_error, s)
match_rest lhs rhs msg (false, s) = expr_eval_and lhs rhs msg s

-- Like `and`, behind a sentinel in the match list.
unfoldable pub expr_eval_match : ExprAttrs → Eval → Eval → Eval
unfolding match_rest
expr_eval_match attrs lhs rhs msg s =
    match_rest lhs rhs msg (append_with no_init ExprType.match attrs msg s)

-- Behind the evaluation of the negated expression; the match of `neg` is at address `id`.
unfoldable pub neg_rest : ℕ → Ev × EvalState → Ev × EvalState
unfolding matches_remove matches_remove_until
neg_rest id (ev_nomatch, s) = (ev_match, record s { ml = matches_remove s.ml id })
neg_rest id (ev_match, s) =
    (ev_nomatch, record s { ml = matches_remove (matches_remove_until s.ml id) id })
neg_rest id (other, s) = (other, s)

unfoldable pub neg_appended : Eval → ℕ → ℕ → Bool × EvalState → Ev × EvalState
unfolding neg_rest
neg_appended lhs id msg (true, s) = (ev_error, s)
neg_appended lhs id msg (false, s) = neg_rest id (lhs msg s)

unfoldable pub expr_eval_neg : ExprAttrs → Eval → Eval
unfolding neg_appended
expr_eval_neg attrs lhs msg s =
    neg_appended lhs s.next msg (append_with no_init ExprType.neg attrs msg s)
