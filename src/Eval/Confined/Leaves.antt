-- ===== src/Eval/Confined/Leaves.antt =====
-- The expressions with no expression inside them confine the state, if their type is admitted.
use mdsort.Base.{
  ℕ, ◌+◌, refl, Bytes, leb, length, get_elem?, set, Bool-cases, Option-cases, inl, inr,
}
use mdsort.Util.{name_max, path_max}
use mdsort.Expr.{ExprType, ExprAttrs}
use mdsort.Match.{Match, match_alloc}
use mdsort.Message.Body.{Store}
use mdsort.Message.BodyKeeps.{Keeps, Keeps-trans, Keeps-set}
use mdsort.Eval.State.{
  Ev, ev_nomatch, EvalState, path_of, append_with, no_init, unless_nomatch, expr_match,
  first_string,
}
use mdsort.Eval.Leaves.{
  append_sized, expr_eval_flag, expr_eval_move, set_flags, expr_eval_flags, expr_eval_pass,
}
use mdsort.Eval.Confined.{Rules, Confined, Confines}
use mdsort.Eval.Confined.Lists.{SameKind, append-Admitted}

module _ (R : Rules) where
  abbrev pub Kept : {A : Type 0} → A × EvalState → Type 0
  Kept r = Confined R r.1

  -- Adding a match of an admitted type.
  pub append_with-Confined :
      (init : Match → Match) (type : ExprType) (attrs : ExprAttrs) (msg : ℕ)
      → ((m : Match) → SameKind m (init m))
      → R.Admits type msg
      → (s : EvalState) → Confined R s
      → Confined R (append_with init type attrs msg s).1
  unfolding append_with match_alloc
  append_with-Confined init type attrs msg k a s (h, r, b) =
      let (t, e) = k (match_alloc s.next type attrs msg) in
      (
        append-Admitted R.Admits (path_of msg s) s.ml (init (match_alloc s.next type attrs msg)) h
            (rw (t, e) a),
        r,
        b,
      )

  pub same : (m : Match) → SameKind m (no_init m)
  same m = (refl, refl)

  pub expr_match-Confines :
      (type : ExprType) (attrs : ExprAttrs) (msg : ℕ)
      → R.Admits type msg
      → Confines R (expr_match type attrs msg)
  unfolding expr_match
  expr_match-Confines type attrs msg a s h = append_with-Confined no_init type attrs msg same a s h

  append_sized-Confines :
      (siz : ℕ) (str : Bytes) (init : Match → Match) (type : ExprType) (attrs : ExprAttrs) (msg : ℕ)
      → ((m : Match) → SameKind m (init m))
      → R.Admits type msg
      → Confines R (append_sized siz str init type attrs msg)
  unfolding append_sized
  append_sized-Confines siz str init type attrs msg k a s h =
      elim (Bool-cases (leb siz (length str))) [
        | inl e ↦ rw (append_sized, e) h
        | inr e ↦ rw (append_sized, e) (append_with-Confined init type attrs msg k a s h)
      ]

  pub flag-Confines :
      (attrs : ExprAttrs) (msg : ℕ)
      → R.Admits ExprType.flag msg
      → Confines R (expr_eval_flag attrs msg)
  unfolding expr_eval_flag
  flag-Confines attrs msg a s h = elim (Option-cases (first_string attrs)) [
    | inl e ↦ rw (expr_eval_flag, e) h
    | inr e ↦
        rw (expr_eval_flag, e.1)
          (append_sized-Confines (name_max + 1) e.0 (λ m. record m { subdir = e.0 }) ExprType.flag
            attrs msg (λ m. (refl, refl)) a s h)
  ]

  pub move-Confines :
      (attrs : ExprAttrs) (msg : ℕ)
      → R.Admits ExprType.move msg
      → Confines R (expr_eval_move attrs msg)
  unfolding expr_eval_move
  move-Confines attrs msg a s h = elim (Option-cases (first_string attrs)) [
    | inl e ↦ rw (expr_eval_move, e) h
    | inr e ↦
        rw (expr_eval_move, e.1)
          (append_sized-Confines path_max e.0 (λ m. record m { maildir = e.0 }) ExprType.move attrs
            msg (λ m. (refl, refl)) a s h)
  ]

  -- A store that keeps what was there.
  pub stored :
      (s : EvalState) (st : Store)
      → Keeps s.store st
      → Confined R s
      → Confined R (record s { store = st })
  stored s st k (h, r, b) = (h, r, Keeps-trans R.before s.store st b k)

  pub flags-Confines :
      (attrs : ExprAttrs) (msg : ℕ)
      → R.Admits ExprType.flags msg
      → Confines R (expr_eval_flags attrs msg)
  unfolding expr_eval_flags
  flags-Confines attrs msg a s h = elim (Option-cases (first_string attrs)) [
    | inl e ↦ rw (expr_eval_flags, e) h
    | inr e ↦ elim (Option-cases (get_elem? s.store msg)) [
      | inl f ↦ rw (expr_eval_flags, e.1, f) h
      | inr f ↦
          let s' = record s {
            store = set s.store msg (record f.0 { mflags = (set_flags f.0.mflags e.0).1 });
          } in
          let h' = stored s s'.store (Keeps-set s.store msg f.0 _ f.1 (refl, refl, refl)) h in
          elim (Bool-cases (set_flags f.0.mflags e.0).0) [
            | inl g ↦ rw (expr_eval_flags, e.1, f.1, g) h'
            | inr g ↦
                rw (expr_eval_flags, e.1, f.1, g)
                  (expr_match-Confines ExprType.flags attrs msg a s' h')
          ]
    ]
  ]

  pub pass-Confines :
      (attrs : ExprAttrs) (msg : ℕ)
      → R.Admits ExprType.pass msg
      → Confines R (expr_eval_pass attrs msg)
  unfolding expr_eval_pass
  pass-Confines attrs msg a s h = append_with-Confined no_init ExprType.pass attrs msg same a s h

  pub unless_nomatch-Kept :
      (next : EvalState → Ev × EvalState)
      → Confines R next
      → (p : Ev × EvalState) → Kept p
      → Kept (unless_nomatch next p)
  unfolding unless_nomatch
  unless_nomatch-Kept next f (ev_nomatch, s) h = f s h
  unless_nomatch-Kept next f (_, s) h = h
