-- ===== src/Parse/Accepts.antt =====
-- What the parser accepts of conditions, actions and blocks: the checks of the grammar's code.
use mdsort.Base.{
  ℕ, ◌<◌, Bool, true, false, Option, List, [], ◌∷◌, ◌≡◌, refl, arith, Bytes, ltb, Bool-cases, inl,
  inr,
}
use mdsort.Macro.{ctx_default}
use mdsort.Expr.{
  ExprType, Expr, null, node, calloc_attrs, expr_alloc, expr_count, expr_count_actions, ex_flags,
}
use mdsort.Expr.Setters.{expr_set_exec}
use mdsort.Eval.Confined.Accepted.{OnlyExec, Accepted}
use mdsort.Parse.{yyerror_if}
use mdsort.Parse.Syntax.{
  ExecFlag, flag_stdin, flag_body, Condition, both, either, attached, negated, in_body, in_header,
  dated, is_new, is_old, all_messages, isdirectory, command_run, parenthesized,
}
use mdsort.Parse.Expand.{expand, expandstrings}
use mdsort.Parse.Conditions.{strings_of, date_age, parse_condition}
use mdsort.Parse.Actions.{expr_validate, expr_validate_attachment_block, exec_flags, join}
use mdsort.Parse.Checks.{
  Checked, Checked-bind, Checked-map, Checked-pure, Steady, Steady-bind, Steady-pure, Steady-then,
  yyerror-never, yyerror_if-false, yyerror_if-Steady, expand-Steady, expandstrings-Steady,
  date_age-Steady,
}

-- With several actions there is no discard and no reject among them.
abbrev pub Exclusive : Expr → Type 0
Exclusive ex =
    1 < expr_count_actions ex
    → (expr_count ex ExprType.discard ≡ 0) × (expr_count ex ExprType.reject ≡ 0)

-- What a match leads to: a nested block, or actions that go together; an action in either case.
abbrev pub Together : Expr → Type 0
Together null = ⊥
Together (node ExprType.block attrs l r) = 0 < expr_count_actions (node ExprType.block attrs l r)
Together ex = (0 < expr_count_actions ex) × Exclusive ex

-- Every match has actions that go together.
abbrev pub Acts : Expr → Type 0
Acts null = Unit
Acts (node ExprType.match attrs l r) = Together r × Acts r
Acts (node t attrs l r) = Acts l × Acts r

-- A condition has no actions.
abbrev pub TestsOnly : Expr → Type 0
TestsOnly ex = (expr_count_actions ex ≡ 0) × Accepted ex

abbrev pub Valid : Expr → Type 0
Valid ex = Accepted ex × Acts ex

abbrev pub HasAction : Expr → Type 0
HasAction null = Unit
HasAction ex = 0 < expr_count_actions ex

pub expr_validate-Exclusive :
    (ex : Expr) → Checked (λ u. (ex ≡ null → ⊥) × Exclusive ex) (expr_validate ex)
unfolding expr_validate
expr_validate-Exclusive null = yyerror-never _
expr_validate-Exclusive (node t attrs l r) =
    let ex : Expr = node t attrs l r in
    elim (Bool-cases (ltb 1 (expr_count_actions ex))) [
      | inl e ↦
          rw (expr_validate, e)
            (Checked-bind _ _ (yyerror_if (ltb 0 (expr_count ex ExprType.discard))) _
              (yyerror_if-false _)
              (λ u.
                Checked-map _ _ (yyerror_if (ltb 0 (expr_count ex ExprType.reject)))
                  (λ v c d. (λ n. cc, λ m. (ground (arith, d), ground (arith, c))))
                  (yyerror_if-false (ltb 0 (expr_count ex ExprType.reject)))))
      | inr e ↦
          rw (expr_validate, e) (Checked-pure _ tt (λ n. cc, λ m. absurd (ground (arith, e, m))))
    ]

pub attachment_block-OnlyExec :
    (ex : Expr) → Checked (λ u. OnlyExec ex) (expr_validate_attachment_block ex)
unfolding expr_validate_attachment_block
attachment_block-OnlyExec ex =
    Checked-map _ _ (yyerror_if (ltb (expr_count ex ExprType.exec) (expr_count_actions ex)))
      (λ u c. ground (arith, c))
      (yyerror_if-false (ltb (expr_count ex ExprType.exec) (expr_count_actions ex)))

pub exec_flags-Steady : (fs : List ExecFlag) (o : Bool × Bool) → Steady (exec_flags fs o)
unfolding exec_flags
exec_flags-Steady [] (stdin, body) = Steady-pure _
exec_flags-Steady (flag_stdin ∷ fs) (stdin, body) =
    Steady-bind (yyerror_if stdin) _ (yyerror_if-Steady stdin)
      (λ u. exec_flags-Steady fs (true, body))
exec_flags-Steady (flag_body ∷ fs) (stdin, body) =
    Steady-bind (yyerror_if body) _ (yyerror_if-Steady body)
      (λ u. exec_flags-Steady fs (stdin, true))

-- An expression that has an action.
abbrev pub OneAction : Expr → Type 0
OneAction ex = (0 < expr_count_actions ex) × Valid ex

-- What the actions of a match give so far.
abbrev pub SomeActions : Expr → Type 0
SomeActions ex = HasAction ex × Valid ex

-- A block.
abbrev pub BlockValid : Expr → Type 0
BlockValid ex = (0 < expr_count_actions ex → Together ex) × Valid ex

pub Together-made : (ex : Expr) → (ex ≡ null → ⊥) → HasAction ex → Exclusive ex → Together ex
Together-made null n h e = absurd (n refl)
Together-made (node ExprType.block attrs l r) n h e = h
Together-made (node _ attrs l r) n h e = (h, e)

pub has_one : (ex : Expr) → 0 < expr_count_actions ex → HasAction ex
unfolding expr_count_actions
has_one null h = tt
has_one (node t attrs l r) h = h

pub join-SomeActions :
    (lno : ℕ) (x y : Expr) → SomeActions x → OneAction y → SomeActions (join ExprType.and lno x y)
unfolding join expr_alloc expr_count_actions ex_flags
join-SomeActions lno null y a b = (has_one y b.0, b.1)
join-SomeActions lno (node t attrs l r) y a b =
    (omega (arith, b.0), ((a.1.0, b.1.0), (a.1.1, b.1.1)))

pub join-Valid : (lno : ℕ) (x y : Expr) → Valid x → Valid y → Valid (join ExprType.or lno x y)
unfolding join expr_alloc
join-Valid lno null y a b = b
join-Valid lno (node t attrs l r) y a b = ((a.0, b.0), (a.1, b.1))

module _ (home : Bytes) (regcomp : Bytes → Bool → Option ℕ) where
  pub condition-TestsOnly : (c : Condition) → Checked TestsOnly (parse_condition home regcomp c)
  unfolding parse_condition expr_alloc expr_count_actions ex_flags
  condition-TestsOnly (both lno l r) =
      Checked-bind TestsOnly _ (parse_condition home regcomp l) _ (condition-TestsOnly l) (λ x.
        Checked-bind TestsOnly _ (parse_condition home regcomp r) _ (condition-TestsOnly r)
          (λ y. Checked-pure _ _ (λ b a. (omega (arith, a.0, b.0), (a.1, b.1)))))
  condition-TestsOnly (either lno l r) =
      Checked-bind TestsOnly _ (parse_condition home regcomp l) _ (condition-TestsOnly l) (λ x.
        Checked-bind TestsOnly _ (parse_condition home regcomp r) _ (condition-TestsOnly r)
          (λ y. Checked-pure _ _ (λ b a. (omega (arith, a.0, b.0), (a.1, b.1)))))
  condition-TestsOnly (attached lno c) =
      Checked-bind TestsOnly _ (parse_condition home regcomp c) _ (condition-TestsOnly c)
        (λ x. Checked-pure _ _ (λ a. (omega (arith, a.0), omega (arith, a.0))))
  condition-TestsOnly (negated lno c) =
      Checked-bind TestsOnly _ (parse_condition home regcomp c) _ (condition-TestsOnly c)
        (λ x. Checked-pure _ _ (λ a. (omega (arith, a.0), (a.1, tt))))
  condition-TestsOnly (in_body lno pattern flags) =
      Steady-then TestsOnly (yyerror_if _) _ (yyerror_if-Steady _)
        (λ u. Checked-pure TestsOnly _ (refl, (tt, tt)))
  condition-TestsOnly (in_header lno keys pattern flags) =
      Steady-then TestsOnly (yyerror_if _) _ (yyerror_if-Steady _) (λ u.
        Steady-then TestsOnly (expandstrings home ctx_default (strings_of keys)) _
          (expandstrings-Steady home ctx_default (strings_of keys))
          (λ s. Checked-pure TestsOnly _ (refl, (tt, tt))))
  condition-TestsOnly (dated lno field cmp n scalar) =
      Steady-then TestsOnly (date_age n scalar) _ (date_age-Steady n scalar)
        (λ u. Checked-pure TestsOnly _ (refl, (tt, tt)))
  condition-TestsOnly (is_new lno) = Checked-pure TestsOnly _ (refl, (tt, tt))
  condition-TestsOnly (is_old lno) = Checked-pure TestsOnly _ (refl, (tt, tt))
  condition-TestsOnly (all_messages lno) = Checked-pure TestsOnly _ (refl, (tt, tt))
  condition-TestsOnly (isdirectory lno str) =
      Steady-then TestsOnly (expand home ctx_default str) _ (expand-Steady home ctx_default str)
        (λ u. Checked-pure TestsOnly _ (refl, (tt, tt)))
  condition-TestsOnly (command_run lno strs) =
      Steady-then TestsOnly (expandstrings home ctx_default (strings_of strs)) _
        (expandstrings-Steady home ctx_default (strings_of strs))
        (λ s.
          Steady-then TestsOnly (yyerror_if (expr_set_exec s false false (calloc_attrs lno)).0) _
            (yyerror_if-Steady (expr_set_exec s false false (calloc_attrs lno)).0)
            (λ u. Checked-pure TestsOnly _ (refl, (tt, tt))))
  condition-TestsOnly (parenthesized c) = condition-TestsOnly c
