-- ===== src/Eval/Growth.antt =====
-- Evaluating a matcher only adds matches: what the list held before stays in front of them.
pub mod Matchers
pub mod Leaves
use mdsort.Base.{
  ℕ, suc, ◌+◌, ◌≤◌, ◌<◌, Bool, true, false, List, [], ◌∷◌, ◌++◌, ◌≡◌, refl, ap, sym, ◌∙◌, arith,
  All, All-append, append_assoc, append-nil,
}
use mdsort.Expr.{ExprType, ExprAttrs, Expr, null, node, type_eq, ex_flags}
use mdsort.Match.{
  Match, MatchList, match_alloc, matches_merge, matches_append, matches_remove, update_match,
}
use mdsort.Match.Removal.{Below, From, remove_middle, update_last}
use mdsort.Eval.State.{Ev, EvalState, Eval, append_with, no_init}

-- Addresses in use lie below the next fresh one.
abbrev pub IsFresh : EvalState → Type 0
IsFresh s = Below s.next s.ml

abbrev pub Between : ℕ → ℕ → MatchList → Type 0
Between lo hi ml = All (λ m. (lo ≤ m.id) × (m.id < hi)) ml

-- A later state, whose list is the earlier one with new matches behind it.
pub record GrowsTo (s t : EvalState) : Type 0 where
  pub new : MatchList
  pub ml_is : t.ml ≡ s.ml ++ new
  pub addresses : Between s.next t.next new
  pub later : s.next ≤ t.next

abbrev pub Grows : Eval → Type 0
Grows f = (msg : ℕ) (s : EvalState) → IsFresh s → GrowsTo s (f msg s).1

pub Between-weaken :
    (lo lo' hi hi' : ℕ) (ml : MatchList)
    → lo' ≤ lo
    → hi ≤ hi'
    → Between lo hi ml
    → Between lo' hi' ml
Between-weaken lo lo' hi hi' [] p q h = tt
Between-weaken lo lo' hi hi' (m ∷ ml) p q h = (omega arith, Between-weaken lo lo' hi hi' ml p q h.1)

pub Between-Below : (lo hi : ℕ) (ml : MatchList) → Between lo hi ml → Below hi ml
Between-Below lo hi [] h = tt
Between-Below lo hi (m ∷ ml) h = (omega arith, Between-Below lo hi ml h.1)

pub Between-From : (lo hi : ℕ) (ml : MatchList) → Between lo hi ml → From lo ml
Between-From lo hi [] h = tt
Between-From lo hi (m ∷ ml) h = (omega arith, Between-From lo hi ml h.1)

Below-weaken : (n k : ℕ) (ml : MatchList) → n ≤ k → Below n ml → Below k ml
Below-weaken n k [] p h = tt
Below-weaken n k (m ∷ ml) p h = (omega arith, Below-weaken n k ml p h.1)

-- A state with the same list.
pub GrowsTo-same : (s t : EvalState) → t.ml ≡ s.ml → s.next ≤ t.next → GrowsTo s t
GrowsTo-same s t e p = record {
  new = [];
  ml_is = e ∙ sym (append-nil s.ml);
  addresses = tt;
  later = p;
}

pub GrowsTo-IsFresh : {s t : EvalState} → IsFresh s → GrowsTo s t → IsFresh t
GrowsTo-IsFresh {s} {t} f g = rw g.ml_is (
    All-append (λ m. m.id < t.next) s.ml g.new
      (Below-weaken s.next t.next s.ml g.later f, Between-Below s.next t.next g.new g.addresses))

pub GrowsTo-trans : {s t u : EvalState} → GrowsTo s t → GrowsTo t u → GrowsTo s u
GrowsTo-trans {s} {t} {u} g h = record {
  new = g.new ++ h.new;
  ml_is = h.ml_is ∙ ap (λ l. l ++ h.new) g.ml_is ∙ append_assoc s.ml g.new h.new;
  addresses =
      All-append (λ m. (s.next ≤ m.id) × (m.id < u.next)) g.new h.new
        (
          Between-weaken s.next s.next t.next u.next g.new (omega arith) h.later g.addresses,
          Between-weaken t.next s.next u.next u.next h.new g.later (omega arith) h.addresses,
        );
  later = omega (arith, g.later, h.later);
}

-- The types of matchers.
unfoldable pub is_matcher : ExprType → Bool
is_matcher ExprType.and = true
is_matcher ExprType.or = true
is_matcher ExprType.neg = true
is_matcher ExprType.all = true
is_matcher ExprType.attachment = true
is_matcher ExprType.body = true
is_matcher ExprType.date = true
is_matcher ExprType.header = true
is_matcher ExprType.new = true
is_matcher ExprType.old = true
is_matcher ExprType.stat = true
is_matcher ExprType.command = true
is_matcher _ = false

-- The state after `append_with` of a type that has no destination.
abbrev pub plain_append : (Match → Match) → ExprType → ExprAttrs → ℕ → EvalState → EvalState
plain_append init type attrs msg s = record s {
  ml = s.ml ++ init (match_alloc s.next type attrs msg) ∷ [];
  next = suc s.next;
}

-- No matcher is merged with another match or looks for a destination.
pub append_with-matcher :
    (type : ExprType) (attrs : ExprAttrs) (msg : ℕ) (s : EvalState)
    → is_matcher type ≡ true
    → append_with no_init type attrs msg s ≡ (false, plain_append no_init type attrs msg s)
unfolding append_with matches_append matches_merge match_alloc type_eq ex_flags is_matcher
append_with-matcher ExprType.and attrs msg s h = refl
append_with-matcher ExprType.or attrs msg s h = refl
append_with-matcher ExprType.neg attrs msg s h = refl
append_with-matcher ExprType.all attrs msg s h = refl
append_with-matcher ExprType.attachment attrs msg s h = refl
append_with-matcher ExprType.body attrs msg s h = refl
append_with-matcher ExprType.date attrs msg s h = refl
append_with-matcher ExprType.header attrs msg s h = refl
append_with-matcher ExprType.new attrs msg s h = refl
append_with-matcher ExprType.old attrs msg s h = refl
append_with-matcher ExprType.stat attrs msg s h = refl
append_with-matcher ExprType.command attrs msg s h = refl
append_with-matcher _ attrs msg s h = cc
