-- ===== src/Parse/Actions.antt =====
-- The code of the productions of actions, of `match` and of blocks.
use mdsort.Base.{
  ℕ, Bool, true, false, Option, List, [], ◌∷◌, Bytes, codes, ltb, ◌==◌, if◌then◌else◌,
}
use mdsort.Macro.{ctx_action}
use mdsort.Expr.{
  ExprType, Expr, null, node, calloc_attrs, expr_alloc, expr_count, expr_count_actions,
}
use mdsort.Expr.Setters.{expr_set_add_header, expr_set_strings, expr_set_exec}
use mdsort.Parse.{Parse, ◌>>=◌, pure, yyerror, yyerror_if}
use mdsort.Parse.Syntax.{
  ExecFlag, flag_stdin, flag_body, Action, break_off, discarded, passed, rejected, moved, flagged,
  flags_set, labelled, executed, on_attachments, header_added, Actions, no_actions, more_actions,
  Consequence, actions, nested, Rule, rule, RuleList, no_rules, bad_rules, more_rules, Block, block,
}
use mdsort.Parse.Expand.{expand, expandstrings}
use mdsort.Parse.Conditions.{strings_of, parse_condition}

unfoldable pub expr_validate : Expr → Parse Unit
unfolding yyerror yyerror_if expr_count expr_count_actions
expr_validate null = yyerror
expr_validate (node t attrs l r) =
    let ex = node t attrs l r in
    if ltb 1 (expr_count_actions ex)
    then (do
      e ← yyerror_if (ltb 0 (expr_count ex ExprType.discard))
      yyerror_if (ltb 0 (expr_count ex ExprType.reject)))
    else pure tt

unfoldable pub expr_validate_attachment_block : Expr → Parse Unit
unfolding yyerror_if expr_count expr_count_actions
expr_validate_attachment_block ex =
    yyerror_if (ltb (expr_count ex ExprType.exec) (expr_count_actions ex))

-- `exec_flags`: EXPR_EXEC_STDIN and EXPR_EXEC_BODY.
unfoldable pub exec_flags : List ExecFlag → Bool × Bool → Parse (Bool × Bool)
unfolding yyerror_if
exec_flags [] (stdin, body) = pure (stdin, body)
exec_flags (flag_stdin ∷ fs) (stdin, body) = do e ← yyerror_if stdin; exec_flags fs (true, body)
exec_flags (flag_body ∷ fs) (stdin, body) = do e ← yyerror_if body; exec_flags fs (stdin, true)

-- The second of two expressions is joined to the first by a type, if there is a first.
unfoldable pub join : ExprType → ℕ → Expr → Expr → Expr
unfolding expr_alloc
join type lno null ex = ex
join type lno (node t attrs l r) ex = expr_alloc type lno (node t attrs l r) ex

module _ (home : Bytes) (regcomp : Bytes → Bool → Option ℕ) where
  unfoldable mutual
    unfolding strings_of exec_flags join expr_alloc expand expandstrings yyerror_if
        expr_set_add_header expr_set_strings expr_set_exec expr_validate
        expr_validate_attachment_block expr_count_actions parse_condition

    pub parse_action : Action → Parse Expr
    parse_action (break_off lno) = pure (expr_alloc ExprType.break lno null null)
    parse_action (moved lno str) = do
      path ← expand home ctx_action str
      pure (node ExprType.move (expr_set_strings (path ∷ []) (calloc_attrs lno)) null null)
    parse_action (flagged lno neg) = pure (
        node ExprType.flag
          (expr_set_strings ((if neg then codes "cur" else codes "new") ∷ []) (calloc_attrs lno))
          null null)
    parse_action (flags_set lno str) =
        pure (node ExprType.flags (expr_set_strings (str ∷ []) (calloc_attrs lno)) null null)
    parse_action (discarded lno) = pure (expr_alloc ExprType.discard lno null null)
    parse_action (labelled lno strs) = do
      strings ← expandstrings home ctx_action (strings_of strs)
      pure (node ExprType.label (expr_set_strings strings (calloc_attrs lno)) null null)
    parse_action (passed lno) = pure (expr_alloc ExprType.pass lno null null)
    parse_action (rejected lno) = pure (expr_alloc ExprType.reject lno null null)
    parse_action (executed lno fs strs) = do
      flags ← exec_flags fs (false, false)
      strings ← expandstrings home ctx_action (strings_of strs)
      e ← yyerror_if (expr_set_exec strings flags.0 flags.1 (calloc_attrs lno)).0
      pure (
          node ExprType.exec (expr_set_exec strings flags.0 flags.1 (calloc_attrs lno)).1 null null)
    parse_action (on_attachments lno b) = do
      ex ← parse_block b
      e ← expr_validate_attachment_block ex
      pure (expr_alloc ExprType.attachment_block lno ex null)
    parse_action (header_added lno key val) =
        pure (node ExprType.add_header (expr_set_add_header key val (calloc_attrs lno)) null null)

    pub parse_actions : Actions → Parse Expr
    parse_actions no_actions = pure null
    parse_actions (more_actions lno l a) = do
      lhs ← parse_actions l
      rhs ← parse_action a
      pure (join ExprType.and lno lhs rhs)

    pub parse_consequence : Consequence → Parse Expr
    parse_consequence (actions l) = do ex ← parse_actions l; e ← expr_validate ex; pure ex
    parse_consequence (nested b) = do
      ex ← parse_block b
      e ← yyerror_if (expr_count_actions ex == 0)
      pure ex

    pub parse_rule : Rule → Parse Expr
    parse_rule (rule lno c q) = do
      lhs ← parse_condition home regcomp c
      rhs ← parse_consequence q
      pure (expr_alloc ExprType.match lno lhs rhs)

    pub parse_rules : RuleList → Parse Expr
    parse_rules no_rules = pure null
    parse_rules bad_rules = pure null
    parse_rules (more_rules lno l r) = do
      lhs ← parse_rules l
      rhs ← parse_rule r
      pure (join ExprType.or lno lhs rhs)

    pub parse_block : Block → Parse Expr
    parse_block (block lno l) = do
      lhs ← parse_rules l
      pure (expr_alloc ExprType.block lno lhs null)
