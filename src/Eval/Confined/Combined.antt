-- ===== src/Eval/Confined/Combined.antt =====
-- The expressions with expressions inside them confine the state if those do.
use mdsort.Base.{ℕ, Bool, true, false, Option, none, some, List, [], ◌∷◌, Option-cases, inl, inr}
use mdsort.Expr.{ExprType, ExprAttrs}
use mdsort.Match.{matches_find, matches_remove_until, matches_remove_by_type}
use mdsort.Message.Body.{message_get_attachments}
use mdsort.Message.BodyKeeps.{message_get_attachments-Keeps}
use mdsort.Eval.State.{
  Ev, ev_match, ev_nomatch, ev_error, ev_crash, EvalState, Eval, append_with, no_init,
}
use mdsort.Eval.Combine.{
  and_rest, expr_eval_and, or_rest, expr_eval_or, attachment_loop, attachments_of, attachment_found,
  expr_eval_attachment, attachment_block_rest, attachment_block_loop, attachment_block_found,
  expr_eval_attachment_block, pass_result, block_result, block_rest, expr_eval_block, match_rest,
  expr_eval_match, neg_rest, neg_appended, expr_eval_neg,
}
use mdsort.Eval.Confined.{Rules, Confined, Confines}
use mdsort.Eval.Confined.Lists.{remove-Admitted, remove_until-Admitted, remove_by_type-Admitted}
use mdsort.Eval.Confined.Leaves.{Kept, append_with-Confined, same, stored, unless_nomatch-Kept}

module _ (R : Rules) where
  and_rest-Kept :
      (rhs : Eval) (msg : ℕ) (p : Ev × EvalState)
      → Confines R (rhs msg)
      → Kept R p
      → Kept R (and_rest rhs msg p)
  unfolding and_rest
  and_rest-Kept rhs msg (ev_match, s) f h = f s h
  and_rest-Kept rhs msg (_, s) f h = h

  pub and-Confines :
      (lhs rhs : Eval) (msg : ℕ)
      → Confines R (lhs msg)
      → Confines R (rhs msg)
      → Confines R (expr_eval_and lhs rhs msg)
  unfolding expr_eval_and
  and-Confines lhs rhs msg f g s h = and_rest-Kept rhs msg (lhs msg s) g (f s h)

  or_rest-Kept :
      (rhs : Eval) (msg : ℕ) (p : Ev × EvalState)
      → Confines R (rhs msg)
      → Kept R p
      → Kept R (or_rest rhs msg p)
  unfolding or_rest
  or_rest-Kept rhs msg (ev_nomatch, s) f h = f s h
  or_rest-Kept rhs msg (_, s) f h = h

  pub or-Confines :
      (lhs rhs : Eval) (msg : ℕ)
      → Confines R (lhs msg)
      → Confines R (rhs msg)
      → Confines R (expr_eval_or lhs rhs msg)
  unfolding expr_eval_or
  or-Confines lhs rhs msg f g s h = or_rest-Kept rhs msg (lhs msg s) g (f s h)

  attachment_loop-Confines :
      (lhs : Eval) (l : List ℕ)
      → ((h : ℕ) → Confines R (lhs h))
      → Confines R (attachment_loop lhs l)
  unfolding attachment_loop
  attachment_loop-Confines lhs [] f s h = h
  attachment_loop-Confines lhs (a ∷ l) f s h =
      unless_nomatch-Kept R (attachment_loop lhs l) (attachment_loop-Confines lhs l f) (lhs a s)
        (f a s h)

  attachment_found-Kept :
      (lhs : Eval) (p : Option (List ℕ) × EvalState)
      → ((h : ℕ) → Confines R (lhs h))
      → Kept R p
      → Kept R (attachment_found lhs p)
  unfolding attachment_found
  attachment_found-Kept lhs (none, s) f h = h
  attachment_found-Kept lhs (some l, s) f h = attachment_loop-Confines lhs l f s h

  attachments_of-Kept : (msg : ℕ) (s : EvalState) → Confined R s → Kept R (attachments_of msg s)
  unfolding attachments_of
  attachments_of-Kept msg s h =
      stored R s (message_get_attachments msg s.store).1 (message_get_attachments-Keeps msg s.store)
        h

  pub attachment-Confines :
      (lhs : Eval) (msg : ℕ)
      → ((h : ℕ) → Confines R (lhs h))
      → Confines R (expr_eval_attachment lhs msg)
  unfolding expr_eval_attachment
  attachment-Confines lhs msg f s h =
      attachment_found-Kept lhs (attachments_of msg s) f (attachments_of-Kept msg s h)

  attachment_block_rest-Kept :
      (next : Ev → EvalState → Ev × EvalState) (ev : Ev) (p : Ev × EvalState)
      → ((ev : Ev) → Confines R (next ev))
      → Kept R p
      → Kept R (attachment_block_rest next ev p)
  unfolding attachment_block_rest
  attachment_block_rest-Kept next ev (ev_match, s) f h = f ev_match s h
  attachment_block_rest-Kept next ev (ev_nomatch, s) f h = f ev s h
  attachment_block_rest-Kept next ev (ev_error, s) f h = h
  attachment_block_rest-Kept next ev (ev_crash, s) f h = h

  attachment_block_loop-Confines :
      (lhs : Eval) (l : List ℕ) (ev : Ev)
      → ((h : ℕ) → Confines R (lhs h))
      → Confines R (attachment_block_loop lhs l ev)
  unfolding attachment_block_loop
  attachment_block_loop-Confines lhs [] ev f s h = h
  attachment_block_loop-Confines lhs (a ∷ l) ev f s h =
      attachment_block_rest-Kept (attachment_block_loop lhs l) ev (lhs a s)
        (λ e. attachment_block_loop-Confines lhs l e f) (f a s h)

  attachment_block_found-Kept :
      (lhs : Eval) (p : Option (List ℕ) × EvalState)
      → ((h : ℕ) → Confines R (lhs h))
      → Kept R p
      → Kept R (attachment_block_found lhs p)
  unfolding attachment_block_found
  attachment_block_found-Kept lhs (none, s) f h = h
  attachment_block_found-Kept lhs (some l, s) f h =
      attachment_block_loop-Confines lhs l ev_nomatch f s h

  pub attachment_block-Confines :
      (lhs : Eval) (msg : ℕ)
      → ((h : ℕ) → Confines R (lhs h))
      → Confines R (expr_eval_attachment_block lhs msg)
  unfolding expr_eval_attachment_block
  attachment_block-Confines lhs msg f s h =
      attachment_block_found-Kept lhs (attachments_of msg s) f (attachments_of-Kept msg s h)

  removed_by_type :
      (s : EvalState) (t : ExprType)
      → Confined R s
      → Confined R (record s { ml = (matches_remove_by_type s.ml t).0 })
  removed_by_type s t (h, r, b) = (remove_by_type-Admitted R.Admits s.ml t h, r, b)

  block_result-Kept : (ev : Ev) (s : EvalState) → Confined R s → Kept R (block_result ev s)
  unfolding block_result pass_result
  block_result-Kept ev s h = elim (Option-cases (matches_find s.ml ExprType.break)) [
    | inr e ↦ rw (block_result, e.1) (removed_by_type s ExprType.break h)
    | inl e ↦ elim (Option-cases (matches_find s.ml ExprType.pass)) [
      | inr f ↦ rw (block_result, e, f.1) (removed_by_type s ExprType.pass h)
      | inl f ↦ rw (block_result, e, f) h
    ]
  ]

  block_rest-Kept : (p : Ev × EvalState) → Kept R p → Kept R (block_rest p)
  unfolding block_rest
  block_rest-Kept (ev_match, s) h = block_result-Kept ev_match s h
  block_rest-Kept (ev_nomatch, s) h = block_result-Kept ev_nomatch s h
  block_rest-Kept (ev_error, s) h = h
  block_rest-Kept (ev_crash, s) h = h

  pub block-Confines :
      (lhs : Eval) (msg : ℕ) → Confines R (lhs msg) → Confines R (expr_eval_block lhs msg)
  unfolding expr_eval_block
  block-Confines lhs msg f s h = block_rest-Kept (lhs msg s) (f s h)

  match_rest-Kept :
      (lhs rhs : Eval) (msg : ℕ) (p : Bool × EvalState)
      → Confines R (lhs msg)
      → Confines R (rhs msg)
      → Kept R p
      → Kept R (match_rest lhs rhs msg p)
  unfolding match_rest
  match_rest-Kept lhs rhs msg (true, s) f g h = h
  match_rest-Kept lhs rhs msg (false, s) f g h = and-Confines lhs rhs msg f g s h

  pub match-Confines :
      (attrs : ExprAttrs) (lhs rhs : Eval) (msg : ℕ)
      → R.Admits ExprType.match msg
      → Confines R (lhs msg)
      → Confines R (rhs msg)
      → Confines R (expr_eval_match attrs lhs rhs msg)
  unfolding expr_eval_match
  match-Confines attrs lhs rhs msg a f g s h =
      match_rest-Kept lhs rhs msg (append_with no_init ExprType.match attrs msg s) f g
        (append_with-Confined R no_init ExprType.match attrs msg (same R) a s h)

  neg_rest-Kept : (id : ℕ) (p : Ev × EvalState) → Kept R p → Kept R (neg_rest id p)
  unfolding neg_rest
  neg_rest-Kept id (ev_nomatch, s) (h, r, b) = (remove-Admitted R.Admits id s.ml h, r, b)
  neg_rest-Kept id (ev_match, s) (h, r, b) = (
    remove-Admitted R.Admits id (matches_remove_until s.ml id)
        (remove_until-Admitted R.Admits id s.ml h),
    r,
    b,
  )
  neg_rest-Kept id (ev_error, s) h = h
  neg_rest-Kept id (ev_crash, s) h = h

  neg_appended-Kept :
      (lhs : Eval) (id msg : ℕ) (p : Bool × EvalState)
      → Confines R (lhs msg)
      → Kept R p
      → Kept R (neg_appended lhs id msg p)
  unfolding neg_appended
  neg_appended-Kept lhs id msg (true, s) f h = h
  neg_appended-Kept lhs id msg (false, s) f h = neg_rest-Kept id (lhs msg s) (f s h)

  pub neg-Confines :
      (attrs : ExprAttrs) (lhs : Eval) (msg : ℕ)
      → R.Admits ExprType.neg msg
      → Confines R (lhs msg)
      → Confines R (expr_eval_neg attrs lhs msg)
  unfolding expr_eval_neg
  neg-Confines attrs lhs msg a f s h =
      neg_appended-Kept lhs s.next msg (append_with no_init ExprType.neg attrs msg s) f
        (append_with-Confined R no_init ExprType.neg attrs msg (same R) a s h)
