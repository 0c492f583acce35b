-- ===== src/Eval/Growth/Matchers.antt =====
-- Each matcher grows the match list, if the matchers inside it do.
use mdsort.Base.{
  ℕ, suc, Option, none, some, List, [], ◌∷◌, ◌++◌, ◌≡◌, refl, ap, append-nil, append_assoc, ◌∙◌,
  arith,
}
use mdsort.Expr.{ExprType, ExprAttrs}
use mdsort.Match.{Match, MatchList, match_alloc, matches_remove, matches_remove_until}
use mdsort.Match.Removal.{Below, From, remove_middle, remove_until_middle}
use mdsort.Eval.State.{Ev, ev_match, ev_nomatch, EvalState, Eval, no_init, unless_nomatch}
use mdsort.Eval.Combine.{
  and_rest, expr_eval_and, or_rest, expr_eval_or, attachment_loop, attachment_found, attachments_of,
  expr_eval_attachment, neg_rest, neg_appended, expr_eval_neg,
}
use mdsort.Eval.Growth.{
  IsFresh, GrowsTo, Grows, GrowsTo-same, GrowsTo-IsFresh, GrowsTo-trans, is_matcher, plain_append,
  append_with-matcher, Between-From, Between-weaken,
}

-- Rules for the steps behind the evaluation of a child.
and_rest-GrowsTo :
    (r : Eval)
    → Grows r
    → (msg : ℕ) (s : EvalState) → IsFresh s
    → (p : Ev × EvalState) → GrowsTo s p.1
    → GrowsTo s (and_rest r msg p).1
unfolding and_rest
and_rest-GrowsTo r gr msg s f (ev_match, t) g = GrowsTo-trans g (gr msg t (GrowsTo-IsFresh f g))
and_rest-GrowsTo r gr msg s f (_, t) g = g

or_rest-GrowsTo :
    (r : Eval)
    → Grows r
    → (msg : ℕ) (s : EvalState) → IsFresh s
    → (p : Ev × EvalState) → GrowsTo s p.1
    → GrowsTo s (or_rest r msg p).1
unfolding or_rest
or_rest-GrowsTo r gr msg s f (ev_nomatch, t) g = GrowsTo-trans g (gr msg t (GrowsTo-IsFresh f g))
or_rest-GrowsTo r gr msg s f (_, t) g = g

pub and-Grows : (l r : Eval) → Grows l → Grows r → Grows (expr_eval_and l r)
unfolding expr_eval_and
and-Grows l r gl gr msg s f = and_rest-GrowsTo r gr msg s f (l msg s) (gl msg s f)

pub or-Grows : (l r : Eval) → Grows l → Grows r → Grows (expr_eval_or l r)
unfolding expr_eval_or
or-Grows l r gl gr msg s f = or_rest-GrowsTo r gr msg s f (l msg s) (gl msg s f)

-- A step of a loop, where the rest of the loop grows the list.
abbrev pub GrowsFrom : (EvalState → Ev × EvalState) → Type 0
GrowsFrom next = (s : EvalState) → IsFresh s → GrowsTo s (next s).1

pub unless_nomatch-GrowsTo :
    (next : EvalState → Ev × EvalState)
    → GrowsFrom next
    → (s : EvalState) → IsFresh s
    → (p : Ev × EvalState) → GrowsTo s p.1
    → GrowsTo s (unless_nomatch next p).1
unfolding unless_nomatch
unless_nomatch-GrowsTo next gn s f (ev_nomatch, t) g = GrowsTo-trans g (gn t (GrowsTo-IsFresh f g))
unless_nomatch-GrowsTo next gn s f (_, t) g = g

attachment_loop-Grows : (l : Eval) → Grows l → (as' : List ℕ) → GrowsFrom (attachment_loop l as')
unfolding attachment_loop
attachment_loop-Grows l gl [] s f = GrowsTo-same s s refl (omega arith)
attachment_loop-Grows l gl (a ∷ as') s f =
    unless_nomatch-GrowsTo (attachment_loop l as') (attachment_loop-Grows l gl as') s f (l a s)
      (gl a s f)

attachment_found-GrowsTo :
    (l : Eval)
    → Grows l
    → (s : EvalState) → IsFresh s
    → (p : Option (List ℕ) × EvalState) → p.1.ml ≡ s.ml
    → p.1.next ≡ s.next
    → GrowsTo s (attachment_found l p).1
unfolding attachment_found
attachment_found-GrowsTo l gl s f (none, t) e n = GrowsTo-same s t e (omega arith)
attachment_found-GrowsTo l gl s f (some as', t) e n =
    let g = GrowsTo-same s t e (omega arith) in
    GrowsTo-trans g (attachment_loop-Grows l gl as' t (GrowsTo-IsFresh f g))

pub attachment-Grows : (l : Eval) → Grows l → Grows (expr_eval_attachment l)
unfolding expr_eval_attachment attachments_of
attachment-Grows l gl msg s f = attachment_found-GrowsTo l gl s f (attachments_of msg s) refl refl

pub GrowsTo-cons :
    (s t : EvalState) (m : Match)
    → m.id ≡ s.next
    → t.ml ≡ s.ml ++ m ∷ []
    → t.next ≡ suc s.next
    → GrowsTo s t
GrowsTo-cons s t m i e n = record {
  new = m ∷ [];
  ml_is = e;
  addresses = ((omega arith, omega arith), tt);
  later = omega arith;
}

pub behind_new :
    (s t u : EvalState) (m : Match)
    → t.ml ≡ s.ml ++ m ∷ []
    → (g : GrowsTo t u) → u.ml ≡ s.ml ++ (m ∷ g.new)
behind_new s t u m e g = g.ml_is ∙ ap (λ l. l ++ g.new) e ∙ append_assoc s.ml (m ∷ []) g.new

-- The list behind the match of `neg` at address `id`, once the negated expression is evaluated.
module _ (id : ℕ) (ml : MatchList) (m : Match) (new : MatchList) (u : EvalState)
    (fresh : Below id ml) (at : m.id ≡ id) (grown : u.ml ≡ ml ++ (m ∷ new))
    (later : From (suc id) new) where
  pub neg_removed : matches_remove u.ml id ≡ ml ++ new
  neg_removed = rw (grown, ← at) (remove_middle ml m new (rw at fresh) (rw at later))

  pub neg_restored : matches_remove (matches_remove_until u.ml id) id ≡ ml
  neg_restored =
      rw (grown, ← at, remove_until_middle ml m new (rw at later))
        (remove_middle ml m [] (rw at fresh) tt ∙ append-nil ml)

neg_rest-GrowsTo :
    (s t : EvalState) (m : Match)
    → IsFresh s
    → m.id ≡ s.next
    → t.ml ≡ s.ml ++ m ∷ []
    → t.next ≡ suc s.next
    → (p : Ev × EvalState) → GrowsTo t p.1
    → GrowsTo s (neg_rest s.next p).1
unfolding neg_rest
neg_rest-GrowsTo s t m f i e n (ev_nomatch, u) g = record {
  new = g.new;
  ml_is =
      neg_removed s.next s.ml m g.new u f i (behind_new s t u m e g)
        (rw n at (Between-From t.next u.next g.new g.addresses));
  addresses =
      Between-weaken t.next s.next u.next u.next g.new (omega arith) (omega arith) g.addresses;
  later = omega (arith, g.later);
}
neg_rest-GrowsTo s t m f i e n (ev_match, u) g =
    GrowsTo-same s (neg_rest s.next (ev_match, u)).1
      (neg_restored s.next s.ml m g.new u f i (behind_new s t u m e g)
        (rw n at (Between-From t.next u.next g.new g.addresses)))
      (omega (arith, g.later))
neg_rest-GrowsTo s t m f i e n (_, u) g = GrowsTo-trans (GrowsTo-cons s t m i e n) g

pub plain-GrowsTo :
    (type : ExprType) (attrs : ExprAttrs) (msg : ℕ) (s : EvalState)
    → GrowsTo s (plain_append no_init type attrs msg s)
unfolding match_alloc
plain-GrowsTo type attrs msg s =
    GrowsTo-cons s (plain_append no_init type attrs msg s) (match_alloc s.next type attrs msg) refl
      refl refl

pub neg-Grows : (attrs : ExprAttrs) (l : Eval) → Grows l → Grows (expr_eval_neg attrs l)
unfolding expr_eval_neg neg_appended match_alloc is_matcher
neg-Grows attrs l gl msg s f = rw (append_with-matcher ExprType.neg attrs msg s refl) (
    let t = plain_append no_init ExprType.neg attrs msg s in
    neg_rest-GrowsTo s t (match_alloc s.next ExprType.neg attrs msg) f refl refl refl (l msg t)
      (gl msg t (GrowsTo-IsFresh f (plain-GrowsTo ExprType.neg attrs msg s))))
