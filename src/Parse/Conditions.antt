-- ===== src/Parse/Conditions.antt =====
-- The code of the productions of `expr1` and `expr3`. regcomp(3) is a parameter, as for the setters.
use mdsort.Base.{ℕ, ◌*◌, ◌%◌, ◌^◌, Bool, false, Option, List, [], ◌∷◌, Bytes, leb, if◌then◌else◌}
use mdsort.Base.Int.{ℤ, pos}
use mdsort.Macro.{ctx_default}
use mdsort.Expr.{ExprType, Expr, null, node, calloc_attrs, expr_alloc}
use mdsort.Expr.Setters.{
  expr_set_pattern, expr_set_strings, expr_set_date, expr_set_stat, expr_set_exec,
}
use mdsort.Parse.{Parse, ◌>>=◌, pure, yyerror, yyerror_if}
use mdsort.Parse.Syntax.{
  Strings, stringblock, one_string, Condition, both, either, attached, negated, in_body, in_header,
  dated, is_new, is_old, all_messages, isdirectory, command_run, parenthesized,
}
use mdsort.Parse.Expand.{expand, expandstrings}

unfoldable pub strings_of : Strings → List Bytes
strings_of (stringblock l) = l
strings_of (one_string s) = s ∷ []

-- KS_u32_mul_overflow
unfoldable pub u32_mul : ℕ → ℕ → Bool × ℕ
u32_mul a b = (leb (2 ^ 32) (a * b), (a * b) % 2 ^ 32)

unfoldable pub date_age : ℕ → ℕ → Parse ℤ
unfolding u32_mul yyerror
date_age n scalar =
    let (overflow, age) = u32_mul n scalar in
    if overflow then (do e ← yyerror; pure (pos 0)) else pure (pos age)

module _ (home : Bytes) (regcomp : Bytes → Bool → Option ℕ) where
  unfoldable pub parse_condition : Condition → Parse Expr
  unfolding strings_of date_age expr_alloc expand expandstrings yyerror_if expr_set_pattern
      expr_set_strings expr_set_date expr_set_stat expr_set_exec
  parse_condition (both lno l r) = do
    lhs ← parse_condition l
    rhs ← parse_condition r
    pure (expr_alloc ExprType.and lno lhs rhs)
  parse_condition (either lno l r) = do
    lhs ← parse_condition l
    rhs ← parse_condition r
    pure (expr_alloc ExprType.or lno lhs rhs)
  parse_condition (attached lno c) = do
    lhs ← parse_condition c
    pure (expr_alloc ExprType.attachment lno lhs null)
  parse_condition (negated lno c) = do
    lhs ← parse_condition c
    pure (expr_alloc ExprType.neg lno lhs null)
  parse_condition (in_body lno pattern flags) = do
    e ← yyerror_if (expr_set_pattern regcomp pattern flags (calloc_attrs lno)).0
    pure
        (node ExprType.body (expr_set_pattern regcomp pattern flags (calloc_attrs lno)).1 null null)
  parse_condition (in_header lno keys pattern flags) = do
    e ← yyerror_if (expr_set_pattern regcomp pattern flags (calloc_attrs lno)).0
    strings ← expandstrings home ctx_default (strings_of keys)
    pure (
        node ExprType.header
          (expr_set_strings strings (expr_set_pattern regcomp pattern flags (calloc_attrs lno)).1)
          null null)
  parse_condition (dated lno field cmp n scalar) = do
    age ← date_age n scalar
    pure (node ExprType.date (expr_set_date regcomp field cmp age (calloc_attrs lno)) null null)
  parse_condition (is_new lno) = pure (expr_alloc ExprType.new lno null null)
  parse_condition (is_old lno) = pure (expr_alloc ExprType.old lno null null)
  parse_condition (all_messages lno) = pure (expr_alloc ExprType.all lno null null)
  parse_condition (isdirectory lno str) = do
    path ← expand home ctx_default str
    pure (node ExprType.stat (expr_set_stat path (calloc_attrs lno)) null null)
  parse_condition (command_run lno strs) = do
    strings ← expandstrings home ctx_default (strings_of strs)
    e ← yyerror_if (expr_set_exec strings false false (calloc_attrs lno)).0
    pure (node ExprType.command (expr_set_exec strings false false (calloc_attrs lno)).1 null null)
  parse_condition (parenthesized c) = parse_condition c
