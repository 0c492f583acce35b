-- ===== src/Eval/Node.antt =====
-- `ex_eval` as `expr_alloc` sets it for each type, and `expr_eval`.
use mdsort.Expr.{ExprType, ExprAttrs, Expr, null, node}
use mdsort.Eval.State.{ev_match, ev_crash, System, Env, Eval, expr_match}
use mdsort.Eval.Combine.{
  expr_eval_and, expr_eval_or, expr_eval_attachment, expr_eval_attachment_block, expr_eval_block,
  expr_eval_match, expr_eval_neg,
}
use mdsort.Eval.Leaves.{
  expr_eval_body, expr_eval_header, expr_eval_flag, expr_eval_move, expr_eval_flags, expr_eval_pass,
  expr_eval_new, expr_eval_old,
}
use mdsort.Eval.Effects.{expr_eval_command, expr_eval_stat, expr_eval_date}

module _ {Tm : Type 0} (sys : System Tm) (env : Env) where
  unfoldable pub eval_node : ExprType → ExprAttrs → Eval → Eval → Eval
  eval_node ExprType.block attrs lhs rhs = expr_eval_block lhs
  eval_node ExprType.and attrs lhs rhs = expr_eval_and lhs rhs
  eval_node ExprType.or attrs lhs rhs = expr_eval_or lhs rhs
  eval_node ExprType.neg attrs lhs rhs = expr_eval_neg attrs lhs
  eval_node ExprType.match attrs lhs rhs = expr_eval_match attrs lhs rhs
  eval_node ExprType.all attrs lhs rhs = λ msg s. (ev_match, s)
  eval_node ExprType.attachment attrs lhs rhs = expr_eval_attachment lhs
  eval_node ExprType.body attrs lhs rhs = expr_eval_body sys env attrs
  eval_node ExprType.date attrs lhs rhs = expr_eval_date sys env attrs
  eval_node ExprType.header attrs lhs rhs = expr_eval_header sys env attrs
  eval_node ExprType.new attrs lhs rhs = expr_eval_new
  eval_node ExprType.old attrs lhs rhs = expr_eval_old
  eval_node ExprType.stat attrs lhs rhs = expr_eval_stat sys env attrs
  eval_node ExprType.command attrs lhs rhs = expr_eval_command sys env attrs
  eval_node ExprType.move attrs lhs rhs = expr_eval_move attrs
  eval_node ExprType.flag attrs lhs rhs = expr_eval_flag attrs
  eval_node ExprType.flags attrs lhs rhs = expr_eval_flags attrs
  eval_node ExprType.discard attrs lhs rhs = expr_match ExprType.discard attrs
  eval_node ExprType.break attrs lhs rhs = expr_match ExprType.break attrs
  eval_node ExprType.label attrs lhs rhs = expr_match ExprType.label attrs
  eval_node ExprType.pass attrs lhs rhs = expr_eval_pass attrs
  eval_node ExprType.reject attrs lhs rhs = expr_match ExprType.reject attrs
  eval_node ExprType.exec attrs lhs rhs = expr_match ExprType.exec attrs
  eval_node ExprType.attachment_block attrs lhs rhs = expr_eval_attachment_block lhs
  eval_node ExprType.add_header attrs lhs rhs = expr_match ExprType.add_header attrs

  unfoldable pub expr_eval : Expr → Eval
  unfolding eval_node
  expr_eval null = λ msg s. (ev_crash, s)
  expr_eval (node type attrs lhs rhs) = eval_node type attrs (expr_eval lhs) (expr_eval rhs)
