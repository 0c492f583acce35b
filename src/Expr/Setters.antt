-- ===== src/Expr/Setters.antt =====
-- The setters of expr.c, which fill in what the parser has read. regcomp(3) is a parameter: the number
-- of subexpressions of a pattern, `none` for an error.
use mdsort.Base.{
  ℕ, suc, Bool, true, false, not, ◌&&◌, Option, none, some, List, [], ◌∷◌, Bytes, codes,
  if◌then◌else◌,
}
use mdsort.Base.Int.{ℤ}
use mdsort.Expr.{ExprRegex, DateCmp, DateField, ExprAttrs}

unfoldable pub expr_set_add_header : Bytes → Bytes → ExprAttrs → ExprAttrs
expr_set_add_header key val attrs = record attrs { header_key = key; header_val = val }

unfoldable pub expr_set_strings : List Bytes → ExprAttrs → ExprAttrs
expr_set_strings strings attrs = record attrs { strings = strings }

-- `enum expr_stat` has one value.
unfoldable pub expr_set_stat : Bytes → ExprAttrs → ExprAttrs
unfolding expr_set_strings
expr_set_stat path attrs = expr_set_strings (path ∷ []) attrs

-- The first component is the error: a body that no command would read.
unfoldable pub expr_set_exec : List Bytes → Bool → Bool → ExprAttrs → Bool × ExprAttrs
unfolding expr_set_strings
expr_set_exec cmd stdin body attrs =
    if body && not stdin
    then (true, attrs)
    else (false, record (expr_set_strings cmd attrs) { exec_stdin = stdin; exec_body = body })

-- EXPR_PATTERN_ICASE, which goes to regcomp(3), and the two flags that are kept.
pub record PatternFlags : Type 0 where
  pub icase : Bool
  pub lcase : Bool
  pub ucase : Bool

module _ (regcomp : Bytes → Bool → Option ℕ) where
  -- The regular expression stays with the expression after an error too.
  unfoldable pub expr_set_pattern : Bytes → PatternFlags → ExprAttrs → Bool × ExprAttrs
  expr_set_pattern pattern flags attrs =
      let re : ExprRegex = record {
        pattern = pattern;
        icase = flags.icase;
        nmatches = 0;
        lcase = flags.lcase;
        ucase = flags.ucase;
      } in
      elim (regcomp pattern flags.icase) [
        | none ↦ (true, record attrs { re = some re })
        | some nsub ↦ (false, record attrs { re = some (record re { nmatches = suc nsub }) })
      ]

  unfoldable pub expr_set_date : DateField → DateCmp → ℤ → ExprAttrs → ExprAttrs
  unfolding expr_set_pattern
  expr_set_date field cmp age attrs =
      (expr_set_pattern (codes ".*") (record { icase = false; lcase = false; ucase = false })
        (record attrs { date_field = field; date_cmp = cmp; date_age = age })).1
