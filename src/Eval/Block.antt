-- ===== src/Eval/Block.antt =====
-- What a block makes of `break` and `pass` in the match list.
use mdsort.Base.{
  ℕ, ap, sym, subst, Option-cases, inl, inr, [], ◌∷◌, refl, ◌||◌, ◌≢◌, ◌⊎◌, ◌<◌, not, none, some,
  ◌≡◌, ◌∙◌, ◌↔◌, arith, ◌==◌, if◌then◌else◌, keep,
}
use mdsort.Expr.{ExprType, ExprAttrs, Expr, null, node}
use mdsort.Match.{Match, MatchList, is_type, matches_find, count_actions}
use mdsort.Match.Types.{remove_by_type_lem, find-keep-not}
use mdsort.Eval.State.{Ev, ev_match, ev_nomatch, ev_error, ev_crash, System, Env, EvalState}
use mdsort.Eval.Combine.{pass_result, block_result, block_rest, expr_eval_block}
use mdsort.Eval.Node.{eval_node, expr_eval}

-- A list without the matches of a type.
abbrev pub without : ExprType → MatchList → MatchList
without type ml = keep (λ m. not (is_type type m)) ml

abbrev pub Finished : Ev → Type 0
Finished ev_match = Unit
Finished ev_nomatch = Unit
Finished _ = ⊥

-- The answer of a block by what its expression left in the match list.
abbrev pub block_answer : Ev → MatchList → Ev
block_answer ev ml = elim (matches_find ml ExprType.break) [
  | some _ ↦ ev_nomatch
  | none ↦ elim (matches_find ml ExprType.pass) [
    | some _ ↦ if count_actions (without ExprType.pass ml) == 0 then ev_nomatch else ev_match
    | none ↦ ev
  ]
]

abbrev pub block_list : MatchList → MatchList
block_list ml = elim (matches_find ml ExprType.break) [
  | some _ ↦ without ExprType.break ml
  | none ↦ elim (matches_find ml ExprType.pass) [ some _ ↦ without ExprType.pass ml | none ↦ ml ]
]

block_result_lem :
    (ev : Ev) (s : EvalState)
    → ((block_result ev s).0 ≡ block_answer ev s.ml) × ((block_result ev s).1.ml ≡ block_list s.ml)
unfolding block_result pass_result
block_result_lem ev s =
    let (b, _) = remove_by_type_lem s.ml ExprType.break in
    let (p, n) = remove_by_type_lem s.ml ExprType.pass in ground (arith, b, p, n)

-- The matches but for the `break`s and the `pass`es.
abbrev pub others : MatchList → MatchList
others ml = keep (λ m. not (is_type ExprType.break m || is_type ExprType.pass m)) ml

others-without_break : (ml : MatchList) → others (without ExprType.break ml) ≡ others ml
others-without_break [] = refl
others-without_break (m ∷ ml) = ground (arith, others-without_break ml)

others-without_pass : (ml : MatchList) → others (without ExprType.pass ml) ≡ others ml
others-without_pass [] = refl
others-without_pass (m ∷ ml) = ground (arith, others-without_pass ml)

find-without :
    (ml : MatchList) (s t : ExprType)
    → matches_find ml t ≡ none
    → matches_find (without s ml) t ≡ none
unfolding matches_find
find-without [] s t e = refl
find-without (m ∷ ml) s t e = ground (arith, e, find-without ml s t)

-- The match list of a block, and when it matches, by the answer and the list of its expression.
abbrev pub Table : Ev → MatchList → Ev → MatchList → Type 0
Table ev ml ev' ml' =
    (others ml' ≡ others ml)
    × (matches_find ml' ExprType.break ≡ none)
    × ((ev' ≡ ev_match) ↔ (
        (matches_find ml ExprType.break ≡ none)
        × (((matches_find ml ExprType.pass ≡ none) × (ev ≡ ev_match))
            ⊎ ((matches_find ml ExprType.pass ≢ none) × (0 < count_actions ml')))))
    × (ev' ≢ ev_match → ev' ≡ ev_nomatch)

abbrev pub Outcome : Ev → MatchList → Ev → MatchList → Type 0
Outcome ev_error ml ev' ml' = (ev' ≡ ev_error) × (ml' ≡ ml)
Outcome ev_crash ml ev' ml' = (ev' ≡ ev_crash) × (ml' ≡ ml)
Outcome ev_match ml ev' ml' = Table ev_match ml ev' ml'
Outcome ev_nomatch ml ev' ml' = Table ev_nomatch ml ev' ml'

block_break_lem :
    (ev : Ev) (ml : MatchList) {m : Match}
    → matches_find ml ExprType.break ≡ some m
    → (block_answer ev ml ≡ ev_nomatch) × (block_list ml ≡ without ExprType.break ml)
block_break_lem ev ml e = ground arith

block_pass_lem :
    (ev : Ev) (ml : MatchList) {m : Match}
    → matches_find ml ExprType.break ≡ none
    → matches_find ml ExprType.pass ≡ some m
    → ((block_answer ev ml ≡ ev_match) ↔ (0 < count_actions (without ExprType.pass ml)))
      × (block_answer ev ml ≢ ev_match → block_answer ev ml ≡ ev_nomatch)
      × (block_list ml ≡ without ExprType.pass ml)
block_pass_lem ev ml b p = ground arith

Table-break :
    (ev ev' : Ev) (ml ml' : MatchList) {m : Match}
    → matches_find ml ExprType.break ≡ some m
    → ev' ≡ ev_nomatch
    → ml' ≡ without ExprType.break ml
    → Table ev ml ev' ml'
Table-break ev ev' ml ml' e a l = (
  ap others l ∙ others-without_break ml,
  ap (λ x. matches_find x ExprType.break) l ∙ find-keep-not ml ExprType.break,
  ((λ x. cc), λ x. let left = x.0 in cc),
  λ _. a,
)

Table-pass :
    (ev ev' : Ev) (ml ml' : MatchList) {m : Match}
    → matches_find ml ExprType.break ≡ none
    → matches_find ml ExprType.pass ≡ some m
    → ((ev' ≡ ev_match) ↔ (0 < count_actions ml')) × (ev' ≢ ev_match → ev' ≡ ev_nomatch)
    → ml' ≡ without ExprType.pass ml
    → Table ev ml ev' ml'
Table-pass ev ev' ml ml' b p (i, n) l = (
  ap others l ∙ others-without_pass ml,
  ap (λ x. matches_find x ExprType.break) l ∙ find-without ml ExprType.pass ExprType.break b,
  (
    (λ x. (b, inr ((λ y. cc), i.0 x))),
    λ x. elim x.1 [ inl y ↦ let left = y.0 in cc | inr y ↦ i.1 y.1 ],
  ),
  n,
)

Table-plain :
    (ev : Ev) (ml : MatchList)
    → Finished ev
    → matches_find ml ExprType.break ≡ none
    → matches_find ml ExprType.pass ≡ none
    → Table ev ml ev ml
Table-plain ev ml h b p = (
  refl,
  b,
  ((λ x. (b, inl (p, x))), λ x. elim x.1 [ inl y ↦ y.1 | inr y ↦ absurd (y.0 p) ]),
  go ev h,
)
  where
    go : (e : Ev) → Finished e → e ≢ ev_match → e ≡ ev_nomatch
    go ev_match f n = absurd (n refl)
    go ev_nomatch f n = refl
    go ev_error f n = absurd f
    go ev_crash f n = absurd f

block_plain_lem :
    (ev : Ev) (ml : MatchList)
    → matches_find ml ExprType.break ≡ none
    → matches_find ml ExprType.pass ≡ none
    → (block_answer ev ml ≡ ev) × (block_list ml ≡ ml)
block_plain_lem ev ml b p = ground arith

block-Table :
    (ev : Ev) (ml : MatchList) → Finished ev → Table ev ml (block_answer ev ml) (block_list ml)
block-Table ev ml h = elim (Option-cases (matches_find ml ExprType.break)) [
  | inr b ↦
      let (a, l) = block_break_lem ev ml b.1 in
      Table-break ev (block_answer ev ml) ml (block_list ml) b.1 a l
  | inl b ↦ elim (Option-cases (matches_find ml ExprType.pass)) [
    | inr p ↦
        let (a, n, l) = block_pass_lem ev ml b p.1 in
        Table-pass ev (block_answer ev ml) ml (block_list ml) b p.1
          (subst (λ x. (block_answer ev ml ≡ ev_match) ↔ (0 < count_actions x)) (sym l) a, n) l
    | inl p ↦
        let (a, l) = block_plain_lem ev ml b p in
        subst (λ x. Table ev ml x (block_list ml)) (sym a)
          (subst (λ x. Table ev ml ev x) (sym l) (Table-plain ev ml h b p))
  ]
]

block_rest-Outcome : (p : Ev × EvalState) → Outcome p.0 p.1.ml (block_rest p).0 (block_rest p).1.ml
unfolding block_rest
block_rest-Outcome (ev_match, s) =
    let (a, l) = block_result_lem ev_match s in rw (a, l) (block-Table ev_match s.ml tt)
block_rest-Outcome (ev_nomatch, s) =
    let (a, l) = block_result_lem ev_nomatch s in rw (a, l) (block-Table ev_nomatch s.ml tt)
block_rest-Outcome (ev_error, s) = (refl, refl)
block_rest-Outcome (ev_crash, s) = (refl, refl)

-- For any block: an error or a crash of its expression is its own, with the match list as it is. Else
-- it leaves no `break` in the list, and all that is neither `break` nor `pass` stays, in order; it
-- matches exactly when no `break` was left and either, without a `pass`, its expression matches, or,
-- with one, an action is left in its list; and otherwise it does not match, with no error.
pub expr_eval_block-Outcome :
    {Tm : Type 0} (sys : System Tm) (env : Env) (attrs : ExprAttrs) (ex : Expr) (msg : ℕ)
    (s : EvalState)
    → Outcome
        (expr_eval sys env ex msg s).0
        (expr_eval sys env ex msg s).1.ml
        (expr_eval sys env (node ExprType.block attrs ex null) msg s).0
        (expr_eval sys env (node ExprType.block attrs ex null) msg s).1.ml
unfolding expr_eval eval_node expr_eval_block
expr_eval_block-Outcome sys env attrs ex msg s = block_rest-Outcome (expr_eval sys env ex msg s)
