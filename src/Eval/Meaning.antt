-- ===== src/Eval/Meaning.antt =====
-- The meaning of expressions that only look at the message: a value of three-valued logic, which
-- depends on nothing that the evaluation has done before.
use mdsort.Base.{
  ℕ, Bool, true, false, Option, none, some, List, [], ◌∷◌, ◌≡◌, refl, ap, ◌∙◌, subst, arith, Bytes,
  codes, get_elem?, if◌then◌else◌,
}
use mdsort.Expr.{ExprType, ExprAttrs, ExprRegex, Expr, null, node}
use mdsort.Message.Body.{Store}
use mdsort.Eval.State.{
  Ev, ev_match, ev_nomatch, ev_error, ev_crash, RegResult, reg_ok, reg_nomatch, reg_error, System,
  Env, EvalState, Eval, no_init, unless_nomatch,
}
use mdsort.Eval.Combine.{
  and_rest, expr_eval_and, or_rest, expr_eval_or, neg_rest, neg_appended, expr_eval_neg,
}
use mdsort.Eval.Leaves.{
  copy_matches, regexec_matched, reg_result, regexec_with, expr_regexec, values_of, header_values,
  header_keys, expr_eval_header, in_subdir, expr_eval_new, old_ev, expr_eval_old,
}
use mdsort.Eval.Node.{eval_node, expr_eval}
use mdsort.Eval.Growth.{plain_append, append_with-matcher, is_matcher}

-- Conjunction and disjunction from left to right, where an error or a crash ends the evaluation,
-- and negation.
abbrev pub and_ev : Ev → Ev → Ev
and_ev ev_match b = b
and_ev a b = a

abbrev pub or_ev : Ev → Ev → Ev
or_ev ev_nomatch b = b
or_ev a b = a

abbrev pub neg_ev : Ev → Ev
neg_ev ev_match = ev_nomatch
neg_ev ev_nomatch = ev_match
neg_ev a = a

-- A state that shows the messages of another.
abbrev pub at_store : Store → EvalState
at_store st = record { ml = []; store = st; next = 0; ran = []; tz_var = none }

module _ {Tm : Type 0} (sys : System Tm) where
  abbrev pub reg_ev : RegResult → Ev
  reg_ev (reg_ok offsets) = ev_match
  reg_ev reg_nomatch = ev_nomatch
  reg_ev reg_error = ev_error

  abbrev pub regex_ev : Option ExprRegex → Bytes → Ev
  regex_ev none val = ev_crash
  regex_ev (some re) val = reg_ev (sys.regexec re.pattern re.icase val)

  -- Some value matches, from left to right.
  abbrev pub values_ev : Option ExprRegex → List Bytes → Ev
  values_ev re [] = ev_nomatch
  values_ev re (v ∷ vs) = or_ev (regex_ev re v) (values_ev re vs)

  abbrev pub keys_ev : Option ExprRegex → ℕ → Store → List Bytes → Ev
  keys_ev re msg st [] = ev_nomatch
  keys_ev re msg st (k ∷ ks) =
      or_ev (values_ev re (values_of msg (at_store st) k)) (keys_ev re msg st ks)

  -- The meaning of an expression on the message at an address.
  abbrev pub meaning : Expr → ℕ → Store → Ev
  meaning null msg st = ev_crash
  meaning (node type attrs l r) msg st =
      let a = meaning l msg st in
      let b = meaning r msg st in
      elim type [
        | ExprType.and ↦ and_ev a b
        | ExprType.or ↦ or_ev a b
        | ExprType.neg ↦ neg_ev a
        | ExprType.all ↦ ev_match
        | ExprType.header ↦ keys_ev attrs.re msg st attrs.strings
        | ExprType.new ↦ if in_subdir (codes "new") msg (at_store st) then ev_match else ev_nomatch
        | ExprType.old ↦ old_ev msg (at_store st) (get_elem? st msg)
        | _ ↦ ev_crash
      ]

-- The types whose meaning is a function of the message.
unfoldable pub is_pure : ExprType → Bool
is_pure ExprType.and = true
is_pure ExprType.or = true
is_pure ExprType.neg = true
is_pure ExprType.all = true
is_pure ExprType.header = true
is_pure ExprType.new = true
is_pure ExprType.old = true
is_pure _ = false

abbrev pub IsPure : Expr → Type 0
IsPure null = Unit
IsPure (node type attrs lhs rhs) = (is_pure type ≡ true) × IsPure lhs × IsPure rhs

-- The answer is this value, and the messages are as they were.
abbrev Means : Store → Ev → Ev × EvalState → Type 0
Means st ev p = (p.0 ≡ ev) × (p.1.store ≡ st)

and_rest-Means :
    (r : Eval) (msg : ℕ) (st : Store) (b : Ev)
    → ((s : EvalState) → s.store ≡ st → Means st b (r msg s))
    → (p : Ev × EvalState) → p.1.store ≡ st
    → Means st (and_ev p.0 b) (and_rest r msg p)
unfolding and_rest
and_rest-Means r msg st b h (ev_match, s) k = h s k
and_rest-Means r msg st b h (_, s) k = (refl, k)

or_rest-Means :
    (r : Eval) (msg : ℕ) (st : Store) (b : Ev)
    → ((s : EvalState) → s.store ≡ st → Means st b (r msg s))
    → (p : Ev × EvalState) → p.1.store ≡ st
    → Means st (or_ev p.0 b) (or_rest r msg p)
unfolding or_rest
or_rest-Means r msg st b h (ev_nomatch, s) k = h s k
or_rest-Means r msg st b h (_, s) k = (refl, k)

unless_nomatch-Means :
    (next : EvalState → Ev × EvalState) (st : Store) (b : Ev)
    → ((s : EvalState) → s.store ≡ st → Means st b (next s))
    → (p : Ev × EvalState) → p.1.store ≡ st
    → Means st (or_ev p.0 b) (unless_nomatch next p)
unfolding unless_nomatch
unless_nomatch-Means next st b h (ev_nomatch, s) k = h s k
unless_nomatch-Means next st b h (_, s) k = (refl, k)

neg_rest-Means :
    (id : ℕ) (st : Store) (p : Ev × EvalState)
    → p.1.store ≡ st
    → Means st (neg_ev p.0) (neg_rest id p)
unfolding neg_rest
neg_rest-Means id st (ev_match, s) k = (refl, k)
neg_rest-Means id st (_, s) k = (refl, k)

module _ {Tm : Type 0} (sys : System Tm) (env : Env) where
  reg_result-Means :
      (attrs : ExprAttrs) (re : ExprRegex) (key val : Bytes) (msg : ℕ) (s : EvalState)
      (r : RegResult)
      → Means s.store (reg_ev sys r) (reg_result sys env ExprType.header attrs re key val msg s r)
  unfolding reg_result regexec_matched copy_matches is_matcher
  reg_result-Means attrs re key val msg s (reg_ok offsets) =
      rw (append_with-matcher ExprType.header attrs msg s refl) (refl, refl)
  reg_result-Means attrs re key val msg s _ = (refl, refl)

  regexec_with-Means :
      (attrs : ExprAttrs) (key val : Bytes) (msg : ℕ) (s : EvalState) (re : Option ExprRegex)
      → Means s.store
          (regex_ev sys re val)
          (regexec_with sys env ExprType.header attrs key val msg s re)
  unfolding regexec_with
  regexec_with-Means attrs key val msg s none = (refl, refl)
  regexec_with-Means attrs key val msg s (some re) = reg_result-Means attrs re key val msg s _

  header_values-Means :
      (attrs : ExprAttrs) (key : Bytes) (vs : List Bytes) (msg : ℕ) (st : Store) (s : EvalState)
      → s.store ≡ st
      → Means st (values_ev sys attrs.re vs) (header_values sys env attrs key vs msg s)
  unfolding header_values expr_regexec
  header_values-Means attrs key [] msg st s e = (refl, e)
  header_values-Means attrs key (v ∷ vs) msg st s e =
      let p = regexec_with sys env ExprType.header attrs key v msg s attrs.re in
      let (answer, kept) = regexec_with-Means attrs key v msg s attrs.re in
      subst
        (λ x.
          Means st (or_ev x (values_ev sys attrs.re vs))
            (unless_nomatch (header_values sys env attrs key vs msg) p))
        answer
        (unless_nomatch-Means (header_values sys env attrs key vs msg) st
          (values_ev sys attrs.re vs) (header_values-Means attrs key vs msg st) p (kept ∙ e))

  header_keys-Means :
      (attrs : ExprAttrs) (ks : List Bytes) (msg : ℕ) (st : Store) (s : EvalState)
      → s.store ≡ st
      → Means st (keys_ev sys attrs.re msg st ks) (header_keys sys env attrs ks msg s)
  unfolding header_keys
  header_keys-Means attrs [] msg st s e = (refl, e)
  header_keys-Means attrs (k ∷ ks) msg st s e =
      let vs = values_of msg s k in
      let p = header_values sys env attrs k vs msg s in
      let (answer, kept) = header_values-Means attrs k vs msg st s e in
      let same : values_ev sys attrs.re vs
          ≡ values_ev sys attrs.re (values_of msg (at_store st) k) =
        ap (λ x. values_ev sys attrs.re (values_of msg (at_store x) k)) e in
      subst
        (λ x.
          Means st (or_ev x (keys_ev sys attrs.re msg st ks))
            (unless_nomatch (header_keys sys env attrs ks msg) p))
        (answer ∙ same)
        (unless_nomatch-Means (header_keys sys env attrs ks msg) st (keys_ev sys attrs.re msg st ks)
          (header_keys-Means attrs ks msg st) p kept)

  expr_eval-Means :
      (ex : Expr) (msg : ℕ) (st : Store)
      → IsPure ex
      → (s : EvalState) → s.store ≡ st
      → Means st (meaning sys ex msg st) (expr_eval sys env ex msg s)
  unfolding expr_eval eval_node is_pure expr_eval_and expr_eval_or expr_eval_neg expr_eval_header
      expr_eval_new expr_eval_old neg_appended is_matcher
  expr_eval-Means null msg st h s e = (refl, e)
  expr_eval-Means (node ExprType.and attrs l r) msg st h s e =
      let (a, k) = expr_eval-Means l msg st h.1 s e in
      subst
        (λ x.
          Means st (and_ev x (meaning sys r msg st))
            (and_rest (expr_eval sys env r) msg (expr_eval sys env l msg s)))
        a
        (and_rest-Means (expr_eval sys env r) msg st (meaning sys r msg st)
          (expr_eval-Means r msg st h.2) (expr_eval sys env l msg s) k)
  expr_eval-Means (node ExprType.or attrs l r) msg st h s e =
      let (a, k) = expr_eval-Means l msg st h.1 s e in
      subst
        (λ x.
          Means st (or_ev x (meaning sys r msg st))
            (or_rest (expr_eval sys env r) msg (expr_eval sys env l msg s)))
        a
        (or_rest-Means (expr_eval sys env r) msg st (meaning sys r msg st)
          (expr_eval-Means r msg st h.2) (expr_eval sys env l msg s) k)
  expr_eval-Means (node ExprType.neg attrs l r) msg st h s e =
      let t = plain_append no_init ExprType.neg attrs msg s in
      let (a, k) = expr_eval-Means l msg st h.1 t e in
      rw (append_with-matcher ExprType.neg attrs msg s refl) (
        subst (λ x. Means st (neg_ev x) (neg_rest s.next (expr_eval sys env l msg t))) a
          (neg_rest-Means s.next st (expr_eval sys env l msg t) k))
  expr_eval-Means (node ExprType.all attrs l r) msg st h s e = (refl, e)
  expr_eval-Means (node ExprType.header attrs l r) msg st h s e =
      header_keys-Means attrs attrs.strings msg st s e
  expr_eval-Means (node ExprType.new attrs l r) msg st h s e = (
    ap (λ (x : Store). if in_subdir (codes "new") msg (at_store x) then ev_match else ev_nomatch) e,
    e,
  )
  expr_eval-Means (node ExprType.old attrs l r) msg st h s e =
      (ap (λ (x : Store). old_ev msg (at_store x) (get_elem? x msg)) e, e)
  expr_eval-Means (node _ attrs l r) msg st h s e = absurd (ground arith)

  -- An expression built from `and`, `or`, `!`, `all`, `header`, `new` and `old` answers its meaning
  -- in three-valued logic on the message, whatever has been matched before, and changes no message.
  pub expr_eval-meaning :
      (ex : Expr) (msg : ℕ) (s : EvalState)
      → IsPure ex
      → ((expr_eval sys env ex msg s).0 ≡ meaning sys ex msg s.store)
        × ((expr_eval sys env ex msg s).1.store ≡ s.store)
  expr_eval-meaning ex msg s h = expr_eval-Means ex msg s.store h s refl
