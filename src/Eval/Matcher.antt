-- ===== src/Eval/Matcher.antt =====
-- Expressions made of matchers alone: what their evaluation does to the match list.
use mdsort.Base.{ℕ, suc, true, [], ◌∷◌, ◌++◌, ◌≡◌, refl, arith}
use mdsort.Expr.{ExprType, ExprAttrs, Expr, null, node}
use mdsort.Match.{Match, match_alloc}
use mdsort.Eval.State.{Ev, ev_match, ev_nomatch, System, Env, EvalState, Eval, no_init}
use mdsort.Eval.Combine.{neg_rest, neg_appended, expr_eval_neg}
use mdsort.Eval.Node.{eval_node, expr_eval}
use mdsort.Eval.Growth.{
  IsFresh, GrowsTo, Grows, GrowsTo-same, GrowsTo-IsFresh, is_matcher, plain_append,
  append_with-matcher, Between-From,
}
use mdsort.Eval.Growth.Matchers.{
  and-Grows, or-Grows, attachment-Grows, neg-Grows, plain-GrowsTo, neg_restored, behind_new,
}
use mdsort.Eval.Growth.Leaves.{
  body-Grows, header-Grows, command-Grows, stat-Grows, date-Grows, new-Grows, old-Grows,
}

-- An expression with no action, block or sentinel in it.
abbrev pub IsMatcher : Expr → Type 0
IsMatcher null = Unit
IsMatcher (node type attrs lhs rhs) = (is_matcher type ≡ true) × IsMatcher lhs × IsMatcher rhs

module _ {Tm : Type 0} (sys : System Tm) (env : Env) where
  eval_node-Grows :
      (type : ExprType) (attrs : ExprAttrs) (l r : Eval)
      → is_matcher type ≡ true
      → Grows l
      → Grows r
      → Grows (eval_node sys env type attrs l r)
  unfolding eval_node is_matcher
  eval_node-Grows ExprType.and attrs l r h gl gr = and-Grows l r gl gr
  eval_node-Grows ExprType.or attrs l r h gl gr = or-Grows l r gl gr
  eval_node-Grows ExprType.neg attrs l r h gl gr = neg-Grows attrs l gl
  eval_node-Grows ExprType.all attrs l r h gl gr = λ msg s f. GrowsTo-same s s refl (omega arith)
  eval_node-Grows ExprType.attachment attrs l r h gl gr = attachment-Grows l gl
  eval_node-Grows ExprType.body attrs l r h gl gr = body-Grows sys env attrs
  eval_node-Grows ExprType.date attrs l r h gl gr = date-Grows sys env attrs
  eval_node-Grows ExprType.header attrs l r h gl gr = header-Grows sys env attrs
  eval_node-Grows ExprType.new attrs l r h gl gr = new-Grows
  eval_node-Grows ExprType.old attrs l r h gl gr = old-Grows
  eval_node-Grows ExprType.stat attrs l r h gl gr = stat-Grows sys env attrs
  eval_node-Grows ExprType.command attrs l r h gl gr = command-Grows sys env attrs
  eval_node-Grows _ attrs l r h gl gr = absurd (ground arith)

  expr_eval-Grows : (ex : Expr) → IsMatcher ex → Grows (expr_eval sys env ex)
  unfolding expr_eval
  expr_eval-Grows null h = λ msg s f. GrowsTo-same s s refl (omega arith)
  expr_eval-Grows (node type attrs lhs rhs) h =
      eval_node-Grows type attrs (expr_eval sys env lhs) (expr_eval sys env rhs) h.0
        (expr_eval-Grows lhs h.1) (expr_eval-Grows rhs h.2)

  -- In a state whose matches have addresses below the next fresh one, evaluating an expression made
  -- of matchers alone, whatever it answers, keeps every match that was in the list, in its place,
  -- and puts new ones behind them, with addresses not in use.
  pub expr_eval-GrowsTo :
      (ex : Expr) (msg : ℕ) (s : EvalState)
      → IsMatcher ex
      → IsFresh s
      → GrowsTo s (expr_eval sys env ex msg s).1
  expr_eval-GrowsTo ex msg s h f = expr_eval-Grows ex h msg s f

  neg_rest-nomatch :
      (s t : EvalState) (m : Match)
      → IsFresh s
      → m.id ≡ s.next
      → t.ml ≡ s.ml ++ m ∷ []
      → t.next ≡ suc s.next
      → (p : Ev × EvalState) → GrowsTo t p.1
      → (neg_rest s.next p).0 ≡ ev_nomatch
      → (neg_rest s.next p).1.ml ≡ s.ml
  unfolding neg_rest
  neg_rest-nomatch s t m f i e n (ev_match, u) g h =
      neg_restored s.next s.ml m g.new u f i (behind_new s t u m e g)
        (rw n at (Between-From t.next u.next g.new g.addresses))
  neg_rest-nomatch s t m f i e n (_, u) g h = absurd (ground arith)

  -- In a state whose matches have addresses below the next fresh one, the negation of an expression
  -- made of matchers alone leaves the match list as it was whenever it answers no match.
  pub neg_restores :
      (attrs : ExprAttrs) (ex : Expr) (msg : ℕ) (s : EvalState)
      → IsMatcher ex
      → IsFresh s
      → (expr_eval sys env (node ExprType.neg attrs ex null) msg s).0 ≡ ev_nomatch
      → (expr_eval sys env (node ExprType.neg attrs ex null) msg s).1.ml ≡ s.ml
  unfolding expr_eval eval_node expr_eval_neg neg_appended match_alloc is_matcher
  neg_restores attrs ex msg s h f = rw (append_with-matcher ExprType.neg attrs msg s refl) (
      let t = plain_append no_init ExprType.neg attrs msg s in
      neg_rest-nomatch s t (match_alloc s.next ExprType.neg attrs msg) f refl refl refl
        (expr_eval sys env ex msg t)
        (expr_eval-Grows ex h msg t (GrowsTo-IsFresh f (plain-GrowsTo ExprType.neg attrs msg s))))
