-- ===== src/Eval/Confined/Nodes.antt =====
-- The evaluation of every expression confines the state.
use mdsort.Base.{ℕ}
use mdsort.Expr.{ExprType, Expr, null, node}
use mdsort.Eval.State.{System, Env}
use mdsort.Eval.Leaves.{expr_eval_new, expr_eval_old}
use mdsort.Eval.Node.{eval_node, expr_eval}
use mdsort.Eval.Confined.{Rules, Fits, Confines}
use mdsort.Eval.Confined.Leaves.{
  expr_match-Confines, flag-Confines, move-Confines, flags-Confines, pass-Confines,
}
use mdsort.Eval.Confined.Matchers.{
  body-Confines, header-Confines, command-Confines, stat-Confines, date-Confines,
}
use mdsort.Eval.Confined.Combined.{
  and-Confines, or-Confines, attachment-Confines, attachment_block-Confines, block-Confines,
  match-Confines, neg-Confines,
}

module _ {Tm : Type 0} (sys : System Tm) (env : Env) (R : Rules) where
  -- If every expression is of a type that is admitted on the message it is evaluated on, evaluation
  -- adds matches of admitted types only, runs commands only as admitted, and leaves what is written
  -- of every message.
  pub expr_eval-Confines :
      (ex : Expr) (msg : ℕ) → Fits R.Admits ex msg → Confines R (expr_eval sys env ex msg)
  unfolding expr_eval eval_node expr_eval_new expr_eval_old
  expr_eval-Confines null msg f s h = h
  expr_eval-Confines (node ExprType.block attrs l r) msg (a, f, g) s h =
      block-Confines R (expr_eval sys env l) msg (expr_eval-Confines l msg f) s h
  expr_eval-Confines (node ExprType.and attrs l r) msg (a, f, g) s h =
      and-Confines R (expr_eval sys env l) (expr_eval sys env r) msg (expr_eval-Confines l msg f)
        (expr_eval-Confines r msg g) s h
  expr_eval-Confines (node ExprType.or attrs l r) msg (a, f, g) s h =
      or-Confines R (expr_eval sys env l) (expr_eval sys env r) msg (expr_eval-Confines l msg f)
        (expr_eval-Confines r msg g) s h
  expr_eval-Confines (node ExprType.neg attrs l r) msg (a, f, g) s h =
      neg-Confines R attrs (expr_eval sys env l) msg a (expr_eval-Confines l msg f) s h
  expr_eval-Confines (node ExprType.match attrs l r) msg (a, f, g) s h =
      match-Confines R attrs (expr_eval sys env l) (expr_eval sys env r) msg a
        (expr_eval-Confines l msg f) (expr_eval-Confines r msg g) s h
  expr_eval-Confines (node ExprType.all attrs l r) msg (a, f, g) s h = h
  expr_eval-Confines (node ExprType.attachment attrs l r) msg f s h =
      attachment-Confines R (expr_eval sys env l) msg (λ i. expr_eval-Confines l i (f i)) s h
  expr_eval-Confines (node ExprType.body attrs l r) msg (a, f, g) s h =
      body-Confines sys env R attrs msg a s h
  expr_eval-Confines (node ExprType.date attrs l r) msg (a, f, g) s h =
      date-Confines sys env R attrs msg a s h
  expr_eval-Confines (node ExprType.header attrs l r) msg (a, f, g) s h =
      header-Confines sys env R attrs msg a s h
  expr_eval-Confines (node ExprType.new attrs l r) msg (a, f, g) s h = h
  expr_eval-Confines (node ExprType.old attrs l r) msg (a, f, g) s h = h
  expr_eval-Confines (node ExprType.stat attrs l r) msg (a, f, g) s h =
      stat-Confines sys env R attrs msg a s h
  expr_eval-Confines (node ExprType.command attrs l r) msg (a, f, g) s h =
      command-Confines sys env R attrs msg a s h
  expr_eval-Confines (node ExprType.move attrs l r) msg (a, f, g) s h =
      move-Confines R attrs msg a s h
  expr_eval-Confines (node ExprType.flag attrs l r) msg (a, f, g) s h =
      flag-Confines R attrs msg a s h
  expr_eval-Confines (node ExprType.flags attrs l r) msg (a, f, g) s h =
      flags-Confines R attrs msg a s h
  expr_eval-Confines (node ExprType.pass attrs l r) msg (a, f, g) s h =
      pass-Confines R attrs msg a s h
  expr_eval-Confines (node ExprType.attachment_block attrs l r) msg f s h =
      attachment_block-Confines R (expr_eval sys env l) msg (λ i. expr_eval-Confines l i (f i)) s h
  expr_eval-Confines (node ExprType.discard attrs l r) msg (a, f, g) s h =
      expr_match-Confines R ExprType.discard attrs msg a s h
  expr_eval-Confines (node ExprType.break attrs l r) msg (a, f, g) s h =
      expr_match-Confines R ExprType.break attrs msg a s h
  expr_eval-Confines (node ExprType.label attrs l r) msg (a, f, g) s h =
      expr_match-Confines R ExprType.label attrs msg a s h
  expr_eval-Confines (node ExprType.reject attrs l r) msg (a, f, g) s h =
      expr_match-Confines R ExprType.reject attrs msg a s h
  expr_eval-Confines (node ExprType.exec attrs l r) msg (a, f, g) s h =
      expr_match-Confines R ExprType.exec attrs msg a s h
  expr_eval-Confines (node ExprType.add_header attrs l r) msg (a, f, g) s h =
      expr_match-Confines R ExprType.add_header attrs msg a s h
