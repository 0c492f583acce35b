-- ===== src/Parse/Configs.antt =====
-- What config_list_parse accepts: the configurations of a file that is parsed without an error.
use mdsort.Base.{
  ℕ, zero, suc, ◌+◌, ◌≤◌, ◌<◌, Bool, true, false, ◌&&◌, Option, List, [], ◌∷◌, ◌≡◌, refl, sym,
  subst, ap, ◌∙◌, arith, Bytes, codes, ltb, ◌==◌, All, All-append,
}
use mdsort.Macro.{
  ctx_default, MacroList, Macro, MacroError, err_none, err_ctx, err_exist, err_sticky,
  macros_insert, macros_unused,
}
use mdsort.Expr.{ExprType, Expr, expr_count, expr_count_actions}
use mdsort.Main.{Config, isstdin}
use mdsort.Parse.{Parser, Parse, ◌>>=◌, pure, yyerror, yyerror_if}
use mdsort.Parse.Syntax.{
  Paths, maildirs, standard_input, Statement, definition, maildir, bad_statement,
}
use mdsort.Parse.Expand.{expand}
use mdsort.Parse.Conditions.{strings_of}
use mdsort.Parse.Actions.{parse_block}
use mdsort.Parse.Grammar.{
  macro_defined, stdin_paths, stdin_defined, outside_stdin, config_list_append, macros_validate,
  errors_before, parse_paths, maildir_checks, parse_statement, parse_statements, config_list_parse,
}
use mdsort.Parse.Checks.{
  Checked, Checked-bind, Checked-map, Steady, Steady-bind, Steady-pure, yyerror-never,
  yyerror_if-false, yyerror_if-Steady, expand-Steady, expandstrings-Steady,
}
use mdsort.Parse.Accepts.{Valid}
use mdsort.Parse.Blocks.{parse_block-Valid}

-- A configuration with an action, whose attachments and matches are valid, and which rejects messages
-- of the standard input only.
abbrev pub Sound : Config → Type 0
Sound conf =
    Valid conf.expr
    × (0 < expr_count_actions conf.expr)
    × (0 < expr_count conf.expr ExprType.reject → All (λ path. isstdin path ≡ true) conf.paths)

abbrev Good : Parser → Type 0
Good p = p.error ≡ 0 → All Sound p.cl

-- A step that keeps the configurations sound, provided that `C` holds if there is no error.
record Extends (C : Type 0) {A : Type 0} (f : Parse A) : Type 0 where
  grows : (p : Parser) → p.error ≤ (f p).1.error
  good : (p : Parser) → Good p → ((f p).1.error ≡ 0 → C) → Good (f p).1

Extends-bind :
    {A B : Type 0} (C : Type 0) (P : A → Type 0) (f : Parse A) (k : A → Parse B)
    → Checked P f
    → ((a : A) → Extends (C × P a) (k a))
    → Extends C (f >>= k)
unfolding ◌>>=◌
Extends-bind C P f k hf hk = record {
  grows = λ p. (let a = hf.grows p in let b = (hk (f p).0).grows (f p).1 in omega (arith, a, b));
  good = λ p g c.
      let a = hf.grows p in
      let b = (hk (f p).0).grows (f p).1 in
      (hk (f p).0).good (f p).1
        (λ z. subst (λ l. All Sound l) (sym (hf.keeps p)) (g (omega (arith, a, z))))
        (λ z. (c z, hf.holds p (omega (arith, b, z))));
}

-- One step after another.
Extends-then :
    {A B : Type 0} (f : Parse A) (k : A → Parse B)
    → Extends Unit f
    → ((a : A) → Extends Unit (k a))
    → Extends Unit (f >>= k)
unfolding ◌>>=◌
Extends-then f k hf hk = record {
  grows = λ p. (let a = hf.grows p in let b = (hk (f p).0).grows (f p).1 in omega (arith, a, b));
  good = λ p g c. (hk (f p).0).good (f p).1 (hf.good p g (λ z. tt)) (λ z. tt);
}

Steady-Extends : (C : Type 0) {A : Type 0} (f : Parse A) → Steady f → Extends C f
Steady-Extends C f h = record {
  grows = h.grows;
  good = λ p g c z.
      let a = h.grows p in subst (λ l. All Sound l) (sym (h.keeps p)) (g (omega (arith, a, z)));
}

stdin_paths-Steady : (paths : List Bytes) → Steady (stdin_paths paths)
unfolding stdin_paths
stdin_paths-Steady [] = Steady-pure tt
stdin_paths-Steady (path ∷ paths) =
    Steady-bind (yyerror_if (isstdin path)) _ (yyerror_if-Steady (isstdin path))
      (λ u. stdin_paths-Steady paths)

stdin_defined-Steady : (cl : List Config) → Steady (stdin_defined cl)
unfolding stdin_defined
stdin_defined-Steady [] = Steady-pure tt
stdin_defined-Steady (conf ∷ cl) =
    Steady-bind (stdin_paths conf.paths) _ (stdin_paths-Steady conf.paths)
      (λ u. stdin_defined-Steady cl)

errors_before-Steady : (n : ℕ) → Steady (errors_before n)
unfolding errors_before
errors_before-Steady zero = Steady-pure tt
errors_before-Steady (suc n) =
    Steady-bind yyerror _ (yyerror-never (λ u. Unit)) (λ u. errors_before-Steady n)

macro_defined-Steady : (r : Parser → MacroError × MacroList) → Steady (λ p. macro_defined (r p) p)
unfolding macro_defined yyerror
macro_defined-Steady r = record {
  grows = λ p. (go p (r p)).0;
  keeps = λ p. (go p (r p)).1;
  holds = λ p z. tt;
}
  where
    go :
        (p : Parser) (x : MacroError × MacroList)
        → (p.error ≤ (macro_defined x p).1.error) × ((macro_defined x p).1.cl ≡ p.cl)
    go p (err_none, l) = (omega arith, refl)
    go p (err_ctx, l) = (omega arith, refl)
    go p (err_exist, l) = (omega arith, refl)
    go p (err_sticky, l) = (omega arith, refl)

-- A step that reads the state and goes on.
at_state :
    {A B : Type 0} (s : Parser → B) (f : B → Parse A)
    → ((b : B) → Steady (f b))
    → Steady (λ p. f (s p) p)
at_state s f h = record {
  grows = λ p. (h (s p)).grows p;
  keeps = λ p. (h (s p)).keeps p;
  holds = λ p z. tt;
}

outside_stdin-All :
    (paths : List Bytes) → outside_stdin paths ≡ false → All (λ path. isstdin path ≡ true) paths
unfolding outside_stdin
outside_stdin-All [] e = tt
outside_stdin-All (path ∷ paths) e =
    (ground (arith, e), outside_stdin-All paths (ground (arith, e)))

Checks : List Bytes → Expr → Type 0
Checks paths expr =
    (0 < expr_count_actions expr)
    × (0 < expr_count expr ExprType.reject → All (λ path. isstdin path ≡ true) paths)

module _ (home : Bytes) (regcomp : Bytes → Bool → Option ℕ) where
  parse_paths-Steady : (paths : Paths) → Steady (parse_paths home regcomp paths)
  unfolding parse_paths
  parse_paths-Steady (maildirs strs) = expandstrings-Steady home ctx_default (strings_of strs)
  parse_paths-Steady standard_input =
      Steady-bind (λ p. stdin_defined p.cl p) _
        (at_state (λ p. p.cl) stdin_defined stdin_defined-Steady)
        (λ u. Steady-pure (codes "/dev/stdin" ∷ []))

  -- The two tests, with the number of errors before them.
  both_checks :
      (n : ℕ) (paths : List Bytes) (expr : Expr)
      → Checked
          (λ u.
            ((n == 0 && (expr_count_actions expr == 0)) ≡ false)
            × ((outside_stdin paths && ltb 0 (expr_count expr ExprType.reject)) ≡ false))
          (do
            e ← yyerror_if (n == 0 && (expr_count_actions expr == 0))
            yyerror_if (outside_stdin paths && ltb 0 (expr_count expr ExprType.reject)))
  both_checks n paths expr =
      Checked-bind _ _ (yyerror_if (n == 0 && (expr_count_actions expr == 0))) _
        (yyerror_if-false _)
        (λ u.
          Checked-map _ _
            (yyerror_if (outside_stdin paths && ltb 0 (expr_count expr ExprType.reject)))
            (λ v b a. (a, b)) (yyerror_if-false _))

  maildir_checks-Checks :
      (paths : List Bytes) (expr : Expr)
      → Checked (λ u. Checks paths expr) (maildir_checks home regcomp paths expr)
  unfolding maildir_checks Checks
  maildir_checks-Checks paths expr = record {
    grows = λ p. (both_checks p.error paths expr).grows p;
    keeps = λ p. (both_checks p.error paths expr).keeps p;
    holds = λ p z.
        let a = (both_checks p.error paths expr).grows p in
        let b = (both_checks p.error paths expr).holds p z in
        let none_before : p.error ≡ 0 = omega (arith, a, z) in
        (ground (arith, b.0, none_before), λ o. outside_stdin-All paths (ground (arith, b.1, o)));
  }

  appended :
      (conf : Config)
      → Extends
          (((Unit × Unit) × Valid conf.expr) × Checks conf.paths conf.expr)
          (config_list_append conf)
  unfolding config_list_append Checks
  appended conf = record {
    grows = λ p. omega arith;
    good = λ p g c z.
        let h = c z in All-append Sound p.cl (conf ∷ []) (g z, ((h.0.1, h.1.0, h.1.1), tt));
  }

  parse_statement-Extends : (s : Statement) → Extends Unit (parse_statement home regcomp s)
  unfolding parse_statement
  parse_statement-Extends (definition lno name str) = Steady-Extends Unit _ (
      Steady-bind (expand home ctx_default str) _ (expand-Steady home ctx_default str)
        (λ value. macro_defined-Steady (λ p. macros_insert p.macros name value false lno)))
  parse_statement-Extends (maildir paths b) =
      Extends-bind Unit (λ a. Unit) (parse_paths home regcomp paths) _ (parse_paths-Steady paths)
        (λ strs.
          Extends-bind (Unit × Unit) Valid (parse_block home regcomp b) _
            (parse_block-Valid home regcomp b)
            (λ expr.
              Extends-bind ((Unit × Unit) × Valid expr) (λ u. Checks strs expr)
                (maildir_checks home regcomp strs expr) _ (maildir_checks-Checks strs expr)
                (λ u. appended (record { paths = strs; expr = expr }))))
  parse_statement-Extends bad_statement = Steady-Extends Unit _ (Steady-pure tt)

  parse_statements-Extends :
      (l : List (ℕ × Statement)) → Extends Unit (parse_statements home regcomp l)
  unfolding parse_statements
  parse_statements-Extends [] = Steady-Extends Unit _ (Steady-pure tt)
  parse_statements-Extends ((n, s) ∷ l) =
      Extends-then (errors_before n) _ (Steady-Extends Unit _ (errors_before-Steady n)) (λ u.
        Extends-then (parse_statement home regcomp s) _ (parse_statement-Extends s)
          (λ v. parse_statements-Extends l))

-- The macros that are not used are so many errors.
macros_validate_lem :
    (unused : List Macro) (p : Parser)
    → ((macros_validate unused p).1.error ≡ 0 → (unused ≡ []) × (p.error ≡ 0))
      × ((macros_validate unused p).1.macros ≡ p.macros)
      × ((macros_validate unused p).1.cl ≡ p.cl)
unfolding macros_validate ◌>>=◌ pure yyerror
macros_validate_lem [] p = (λ z. (refl, z), refl, refl)
macros_validate_lem (mc ∷ unused) p =
    let (a, b, c) = macros_validate_lem unused (record p { error = p.error + 1 }) in
    (λ z. absurd (ground (arith, (a z).1)), b, c)

-- If config_list_parse starts with no configurations and counts no error, then every configuration
-- has an action; on attachments it has no action but exec; each of its matches leads to a nested block
-- with an action, or to actions of which no discard and no reject is combined with another one; it
-- rejects only if every path of it is the standard input; and every macro has been used.
pub config_list_parse-Sound :
    (home : Bytes) (regcomp : Bytes → Bool → Option ℕ) (l : List (ℕ × Statement)) (p : Parser)
    → p.cl ≡ []
    → (config_list_parse home regcomp l p).1.error ≡ 0
    → All Sound (config_list_parse home regcomp l p).1.cl
      × (macros_unused (config_list_parse home regcomp l p).1.macros ≡ [])
unfolding config_list_parse ◌>>=◌
config_list_parse-Sound home regcomp l p e z =
    let q = (parse_statements home regcomp l p).1 in
    let (a, b, c) = macros_validate_lem (macros_unused q.macros) q in
    (
      subst (λ x. All Sound x) (sym c)
          ((parse_statements-Extends home regcomp l).good p
            (λ y. subst (λ x. All Sound x) (sym e) tt) (λ y. tt) (a z).1),
      ap macros_unused b ∙ (a z).0,
    )
