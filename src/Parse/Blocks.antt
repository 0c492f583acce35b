-- ===== src/Parse/Blocks.antt =====
-- What the parser accepts of actions, matches and blocks, which contain each other.
use mdsort.Base.{ℕ, Bool, false, Option, arith, Bytes, ◌==◌}
use mdsort.Macro.{ctx_action}
use mdsort.Expr.{null, calloc_attrs, expr_alloc, expr_count_actions, ex_flags}
use mdsort.Expr.Setters.{expr_set_exec}
use mdsort.Eval.Confined.Accepted.{OnlyExec}
use mdsort.Parse.{yyerror_if}
use mdsort.Parse.Syntax.{
  Action, break_off, discarded, passed, rejected, moved, flagged, flags_set, labelled, executed,
  on_attachments, header_added, Actions, no_actions, more_actions, Consequence, actions, nested,
  Rule, rule, RuleList, no_rules, bad_rules, more_rules, Block, block,
}
use mdsort.Parse.Expand.{expand, expandstrings}
use mdsort.Parse.Conditions.{strings_of, parse_condition}
use mdsort.Parse.Actions.{
  expr_validate, expr_validate_attachment_block, exec_flags, parse_action, parse_actions,
  parse_consequence, parse_rule, parse_rules, parse_block,
}
use mdsort.Parse.Checks.{
  Checked, Checked-bind, Checked-map, Checked-pure, Steady-then, yyerror_if-false,
  yyerror_if-Steady, expand-Steady, expandstrings-Steady,
}
use mdsort.Parse.Accepts.{
  Together, TestsOnly, Valid, OneAction, SomeActions, BlockValid, Together-made, join-SomeActions,
  join-Valid, expr_validate-Exclusive, attachment_block-OnlyExec, exec_flags-Steady,
  condition-TestsOnly,
}

module _ (home : Bytes) (regcomp : Bytes → Bool → Option ℕ) where
  mutual
    unfolding parse_action parse_actions parse_consequence parse_rule parse_rules parse_block
        expr_alloc expr_count_actions ex_flags

    action-OneAction : (a : Action) → Checked OneAction (parse_action home regcomp a)
    action-OneAction (break_off lno) = Checked-pure OneAction _ (omega arith, ((tt, tt), (tt, tt)))
    action-OneAction (moved lno str) =
        Steady-then OneAction (expand home ctx_action str) _ (expand-Steady home ctx_action str)
          (λ s. Checked-pure OneAction _ (omega arith, ((tt, tt), (tt, tt))))
    action-OneAction (flagged lno neg) =
        Checked-pure OneAction _ (omega arith, ((tt, tt), (tt, tt)))
    action-OneAction (flags_set lno str) =
        Checked-pure OneAction _ (omega arith, ((tt, tt), (tt, tt)))
    action-OneAction (discarded lno) = Checked-pure OneAction _ (omega arith, ((tt, tt), (tt, tt)))
    action-OneAction (labelled lno strs) =
        Steady-then OneAction (expandstrings home ctx_action (strings_of strs)) _
          (expandstrings-Steady home ctx_action (strings_of strs))
          (λ s. Checked-pure OneAction _ (omega arith, ((tt, tt), (tt, tt))))
    action-OneAction (passed lno) = Checked-pure OneAction _ (omega arith, ((tt, tt), (tt, tt)))
    action-OneAction (rejected lno) = Checked-pure OneAction _ (omega arith, ((tt, tt), (tt, tt)))
    action-OneAction (executed lno fs strs) =
        Steady-then OneAction (exec_flags fs (false, false)) _ (exec_flags-Steady fs (false, false))
          (λ o.
            Steady-then OneAction (expandstrings home ctx_action (strings_of strs)) _
              (expandstrings-Steady home ctx_action (strings_of strs))
              (λ s.
                Steady-then OneAction (yyerror_if (expr_set_exec s o.0 o.1 (calloc_attrs lno)).0) _
                  (yyerror_if-Steady (expr_set_exec s o.0 o.1 (calloc_attrs lno)).0)
                  (λ u. Checked-pure OneAction _ (omega arith, ((tt, tt), (tt, tt))))))
    action-OneAction (on_attachments lno b) =
        Checked-bind BlockValid OneAction (parse_block home regcomp b) _ (block-BlockValid b) (λ ex.
          Checked-bind (λ u. OnlyExec ex) _ (expr_validate_attachment_block ex) _
            (attachment_block-OnlyExec ex)
            (λ u. Checked-pure _ _ (λ o v. (omega arith, (o, (v.1.1, tt))))))
    action-OneAction (header_added lno key val) =
        Checked-pure OneAction _ (omega arith, ((tt, tt), (tt, tt)))

    actions-SomeActions : (l : Actions) → Checked SomeActions (parse_actions home regcomp l)
    actions-SomeActions no_actions = Checked-pure SomeActions null (tt, (tt, tt))
    actions-SomeActions (more_actions lno l a) =
        Checked-bind SomeActions SomeActions (parse_actions home regcomp l) _
          (actions-SomeActions l)
          (λ x.
            Checked-bind OneAction _ (parse_action home regcomp a) _ (action-OneAction a)
              (λ y. Checked-pure _ _ (λ b a. join-SomeActions lno x y a b)))

    consequence-Together :
        (q : Consequence)
        → Checked (λ ex. Together ex × Valid ex) (parse_consequence home regcomp q)
    consequence-Together (actions l) =
        Checked-bind SomeActions _ (parse_actions home regcomp l) _ (actions-SomeActions l) (λ ex.
          Checked-bind _ _ (expr_validate ex) _ (expr_validate-Exclusive ex)
            (λ u. Checked-pure _ ex (λ e a. (Together-made ex e.0 a.0 e.1, a.1))))
    consequence-Together (nested b) =
        Checked-bind BlockValid _ (parse_block home regcomp b) _ (block-BlockValid b) (λ ex.
          Checked-bind _ _ (yyerror_if (expr_count_actions ex == 0)) _
            (yyerror_if-false (expr_count_actions ex == 0))
            (λ u. Checked-pure _ ex (λ e v. (v.0 (ground (arith, e)), v.1))))

    rule-Valid : (r : Rule) → Checked (λ ex. Valid ex) (parse_rule home regcomp r)
    rule-Valid (rule lno c q) =
        Checked-bind TestsOnly _ (parse_condition home regcomp c) _
          (condition-TestsOnly home regcomp c)
          (λ x.
            Checked-bind _ _ (parse_consequence home regcomp q) _ (consequence-Together q)
              (λ y. Checked-pure _ _ (λ b a. ((a.1, b.1.0), (b.0, b.1.1)))))

    rules-Valid : (l : RuleList) → Checked Valid (parse_rules home regcomp l)
    rules-Valid no_rules = Checked-pure Valid null (tt, tt)
    rules-Valid bad_rules = Checked-pure Valid null (tt, tt)
    rules-Valid (more_rules lno l r) =
        Checked-bind Valid Valid (parse_rules home regcomp l) _ (rules-Valid l) (λ x.
          Checked-bind Valid _ (parse_rule home regcomp r) _ (rule-Valid r)
            (λ y. Checked-pure _ _ (λ b a. join-Valid lno x y a b)))

    block-BlockValid : (b : Block) → Checked BlockValid (parse_block home regcomp b)
    block-BlockValid (block lno l) =
        Checked-bind Valid BlockValid (parse_rules home regcomp l) _ (rules-Valid l)
          (λ x. Checked-pure _ _ (λ v. (λ h. h, ((v.0, tt), (v.1, tt)))))

  -- If a block is parsed without an error, attachments have no action but exec, and every match has
  -- actions that go together.
  pub parse_block-Valid : (b : Block) → Checked Valid (parse_block home regcomp b)
  parse_block-Valid b =
      Checked-map BlockValid Valid (parse_block home regcomp b) (λ ex v. v.1) (block-BlockValid b)
